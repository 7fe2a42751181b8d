-- ===== src/CaptureStore/Append.antt =====
-- What an append adds to the log, crates/gabriel-proxy/src/store.rs, also after a write that was cut
-- off.
use gabrielbrowser.Base.{
  ℕ, false, Option, none, some, List, [], ◌∷◌, ◌++◌, Str, codes, append_assoc, reverse-append,
  reverse, if◌then◌else◌, take, filter, ◌≡◌, ◌⊎◌, refl, sym, ap, ◌∙◌, arith, inl, inr,
}
use gabrielbrowser.Base.Text.{is_empty, split, has_byte}
use gabrielbrowser.Base.Splits.{split-absent, split-append}
use gabrielbrowser.Capture.{Capture}
use gabrielbrowser.CaptureStore.{CaptureFilter, matches, list, append}
use gabrielbrowser.CaptureStore.Queries.{decoded, newest_first, list_lem}

module _ (decode : Str → Option Capture) where
  newest_first-newline :
      (a b : Str)
      → newest_first decode (a ++ b'\n' ∷ b)
        ≡ decoded decode (reverse (split b'\n' b) ++ reverse (split b'\n' a))
  newest_first-newline a b =
      ap (decoded decode)
        (ap reverse (split-append b'\n' a b) ∙ reverse-append (split b'\n' a) (split b'\n' b))

has_byte-append :
    (c : ℕ) (a b : Str) → has_byte c a ≡ false → has_byte c b ≡ false → has_byte c (a ++ b) ≡ false
has_byte-append c [] b h k = k
has_byte-append c (x ∷ a) b h k = ground (arith, has_byte-append c a b)

is_empty-append : (a b : Str) → is_empty a ≡ false → is_empty (a ++ b) ≡ false
is_empty-append [] b h = cc
is_empty-append (x ∷ a) b h = refl

-- A log that no write has left in the middle of a line.
abbrev pub IsWhole : Str → Type 0
IsWhole file = (file ≡ []) ⊎ ((b : Str) × (file ≡ b ++ codes "\n"))

module _ (encode : Capture → Str) (decode : Str → Option Capture) (c : Capture)
    (one_line : has_byte b'\n' (encode c) ≡ false) where
  -- a last line and its newline
  newest_first-last :
      (a line : Str)
      → has_byte b'\n' line ≡ false
      → newest_first decode ((a ++ codes "\n") ++ (line ++ codes "\n"))
        ≡ decoded decode (line ∷ reverse (split b'\n' a))
  newest_first-last a line h =
      let parts : split b'\n' (line ++ codes "\n") ≡ line ∷ [] ∷ [] =
        split-append b'\n' line []
        ∙ (unfold split in ap (λ (l : List Str). l ++ [] ∷ []) (split-absent b'\n' line h)) in
      ap (newest_first decode) (append_assoc a (codes "\n") (line ++ codes "\n"))
      ∙ newest_first-newline decode a (line ++ codes "\n")
      ∙ ap (λ (ls : List Str). decoded decode (reverse ls ++ reverse (split b'\n' a))) parts

  newest_first-only :
      (line : Str)
      → has_byte b'\n' line ≡ false
      → newest_first decode (line ++ codes "\n") ≡ decoded decode (line ∷ [])
  unfolding split
  newest_first-only line h =
      newest_first-newline decode line []
      ∙ ap (λ (ls : List Str). decoded decode ([] ∷ reverse ls)) (split-absent b'\n' line h)

  -- the lines of a whole log, before a line more
  newest_first-whole :
      (file line : Str)
      → IsWhole file
      → has_byte b'\n' line ≡ false
      → newest_first decode (file ++ (line ++ codes "\n")) ≡ (
          if is_empty line then newest_first decode file else elim (decode line) [
            | none ↦ newest_first decode file
            | some d ↦ d ∷ newest_first decode file
          ])
  newest_first-whole file line (inl e) h =
      ap (λ (l : Str). newest_first decode (l ++ (line ++ codes "\n"))) e
      ∙ newest_first-only line h
      ∙ ap
          (λ (cs : List Capture).
            if is_empty line then cs else elim (decode line) [ none ↦ cs | some d ↦ d ∷ cs ])
          (nothing ∙ sym (ap (newest_first decode) e))
    where
      nothing : [] ≡ newest_first decode []
      nothing = unfold split in refl
  newest_first-whole file line (inr (b, e)) h =
      ap (λ (l : Str). newest_first decode (l ++ (line ++ codes "\n"))) e
      ∙ newest_first-last b line h
      ∙ ap
          (λ (cs : List Capture).
            if is_empty line then cs else elim (decode line) [ none ↦ cs | some d ↦ d ∷ cs ])
          (same b ∙ sym (ap (newest_first decode) e))
    where
      same :
          (b : Str)
          → decoded decode (reverse (split b'\n' b)) ≡ newest_first decode (b ++ codes "\n")
      same b = unfold split in sym (newest_first-newline decode b [])

  -- An appended capture is the newest one of the log, and the others stay as they were, if the log
  -- ends in a whole line, and the capture is written on one line that is read back as the capture.
  pub append_lem :
      (file : Str) (f : CaptureFilter) (limit : ℕ)
      → IsWhole file
      → is_empty (encode c) ≡ false
      → decode (encode c) ≡ some c
      → list decode (append encode (some file) c) f limit
        ≡ take limit (filter (matches f) (c ∷ newest_first decode file))
  unfolding append
  append_lem file f limit whole given back =
      let added : newest_first decode (file ++ (encode c ++ codes "\n"))
          ≡ c ∷ newest_first decode file =
        newest_first-whole file (encode c) whole one_line
        ∙ rw given (
            ap
              (λ (o : Option Capture). elim o [
                | none ↦ newest_first decode file
                | some d ↦ d ∷ newest_first decode file
              ])
              back) in
      list_lem decode (file ++ (encode c ++ codes "\n")) f limit
      ∙ ap (λ (cs : List Capture). take limit (filter (matches f) cs)) added

  -- A write that was cut off in the middle of a line costs the next capture too: it is glued to the
  -- cut line, and if the two together are no capture, both are lost.
  pub append_torn :
      (file cut : Str) (f : CaptureFilter) (limit : ℕ)
      → has_byte b'\n' cut ≡ false
      → is_empty cut ≡ false
      → decode (cut ++ encode c) ≡ none
      → list decode (append encode (some ((file ++ codes "\n") ++ cut)) c) f limit
        ≡ take limit (filter (matches f) (newest_first decode (file ++ codes "\n")))
  unfolding append
  append_torn file cut f limit clean given back =
      let glued : has_byte b'\n' (cut ++ encode c) ≡ false =
        has_byte-append b'\n' cut (encode c) clean one_line in
      let assoc : ((file ++ codes "\n") ++ cut) ++ (encode c ++ codes "\n")
          ≡ (file ++ codes "\n") ++ ((cut ++ encode c) ++ codes "\n") =
        append_assoc (file ++ codes "\n") cut (encode c ++ codes "\n")
        ∙ ap (λ (l : Str). (file ++ codes "\n") ++ l)
            (sym (append_assoc cut (encode c) (codes "\n"))) in
      list_lem decode (((file ++ codes "\n") ++ cut) ++ (encode c ++ codes "\n")) f limit
      ∙ ap (λ (cs : List Capture). take limit (filter (matches f) cs))
          (ap (newest_first decode) assoc
            ∙ newest_first-whole (file ++ codes "\n") (cut ++ encode c) (inr (file, refl)) glued
            ∙ rw (is_empty-append cut (encode c) given) (
                ap
                  (λ (o : Option Capture). elim o [
                    | none ↦ newest_first decode (file ++ codes "\n")
                    | some d ↦ d ∷ newest_first decode (file ++ codes "\n")
                  ])
                  back))
