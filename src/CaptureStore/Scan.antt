-- ===== src/CaptureStore/Scan.antt =====
-- Reading the log backwards in chunks is reading its lines from the last one to the first,
-- crates/gabriel-proxy/src/store.rs.
use gabrielbrowser.Base.{
  ℕ, zero, suc, ◌+◌, ◌-◌, ◌≤◌, ◌<◌, ◌==◌, min, Bool, false, Option, some, List, [], ◌∷◌, ◌++◌, Str,
  append-nil, append_assoc, reverse-append, reverse, if◌then◌else◌, length, take, drop, ltb, ◌≡◌,
  refl, sym, ap, ◌∙◌, arith, match_option, match_if, Bool-cases, inl, inr,
}
use gabrielbrowser.Base.Text.{split, split_once, has_byte}
use gabrielbrowser.Base.Splits.{split_once_sound, split_once-none, split-absent, split-append}
use gabrielbrowser.Capture.{Capture}
use gabrielbrowser.CaptureStore.{visit_line, visit_lines, visit_tail, scan_rounds, scan_backwards}

take-nil : (m : ℕ) → take {A = ℕ} m [] ≡ []
take-nil zero = refl
take-nil (suc m) = refl

take-further : (n m k : ℕ) (xs : Str) → k ≡ n + m → take k xs ≡ take n xs ++ take m (drop n xs)
take-further zero m k xs e = ap (λ i. take i xs) (omega (arith, e))
take-further (suc n) m zero xs e = ground (arith, e)
take-further (suc n) m (suc k) [] e = sym (take-nil m)
take-further (suc n) m (suc k) (x ∷ xs) e =
    ap (λ (l : Str). x ∷ l) (take-further n m k xs (omega (arith, e)))

take-all : (xs : Str) → take (length xs) xs ≡ xs
take-all [] = refl
take-all (x ∷ xs) = ap (λ (l : Str). x ∷ l) (take-all xs)

module _ (decode : Str → Option Capture) {S : Type 0} (visit : S → Capture → S × Bool) where
  abbrev lines : S → List Str → S × Bool
  lines = visit_lines decode visit

  -- Going on with more lines, unless the visitor has stopped.
  abbrev then_lines : List Str → S × Bool → S × Bool
  then_lines more r = if r.1 then lines r.0 more else (r.0, false)

  lines-append : (s : S) (a b : List Str) → lines s (a ++ b) ≡ then_lines b (lines s a)
  unfolding visit_lines
  lines-append s [] b = refl
  lines-append s (l ∷ a) b =
      let r = visit_line decode visit s l in
      elim (Bool-cases r.1) [ inl e ↦ rw e (lines-append r.0 a b) | inr e ↦ rw e refl ]

  -- The specification: the lines of a text, the last one first.
  abbrev pub backwards : S → Str → S
  backwards s bs = (lines s (reverse (split b'\n' bs))).0

  -- around a newline
  backwards-newline :
      (s : S) (a b : Str)
      → backwards s (a ++ b'\n' ∷ b) ≡ (
          let (s', go_on) = lines s (reverse (split b'\n' b)) in
          if go_on then backwards s' a else s')
  backwards-newline s a b =
      let parts =
        ap reverse (split-append b'\n' a b) ∙ reverse-append (split b'\n' a) (split b'\n' b) in
      ap (λ (ls : List Str). (lines s ls).0) parts
      ∙ ap (λ (r : S × Bool). r.0)
          (lines-append s (reverse (split b'\n' b)) (reverse (split b'\n' a)))
      ∙ (elim (Bool-cases (lines s (reverse (split b'\n' b))).1) [
        | inl e ↦ rw e refl
        | inr e ↦ rw e refl
      ])

  backwards-line :
      (s : S) (a : Str) → has_byte b'\n' a ≡ false → backwards s a ≡ visit_tail decode visit s a
  unfolding visit_lines visit_tail
  backwards-line s a h =
      ap (λ (ls : List Str). (lines s (reverse ls)).0) (split-absent b'\n' a h)
      ∙ elim (Bool-cases (visit_line decode visit s a).1) [ inl e ↦ rw e refl | inr e ↦ rw e refl ]

  finished :
      (file : Str) (remaining : ℕ) (tail : Str) (s : S)
      → remaining ≡ 0
      → has_byte b'\n' tail ≡ false
      → visit_tail decode visit s tail ≡ backwards s (take remaining file ++ tail)
  finished file remaining tail s e clean =
      sym (ap (λ n. backwards s (take n file ++ tail)) e ∙ backwards-line s tail clean)

  backwards-nothing : (s : S) → backwards s [] ≡ s
  unfolding visit_lines visit_line split
  backwards-nothing s = refl

  -- What a round takes, and what it leaves.
  abbrev chunk_of : (size : ℕ) (file : Str) (remaining : ℕ) → Str
  chunk_of size file remaining =
      take (min size remaining) (drop (remaining - min size remaining) file)

  whole :
      (size : ℕ) (file : Str) (remaining : ℕ) (tail : Str)
      → take remaining file ++ tail
        ≡ take (remaining - min size remaining) file ++ (chunk_of size file remaining ++ tail)
  whole size file remaining tail =
      let r = remaining - min size remaining in
      ap (λ (l : Str). l ++ tail) (take-further r (min size remaining) remaining file (omega arith))
      ∙ append_assoc (take r file) (chunk_of size file remaining) tail

  -- The loop's claim, for a number of rounds.
  abbrev Scans : ℕ → Str → ℕ → Type 0
  Scans size file fuel =
      (remaining : ℕ) (tail : Str) (s : S)
      → remaining ≤ fuel
      → has_byte b'\n' tail ≡ false
      → scan_rounds decode visit size file fuel remaining tail s
        ≡ backwards s (take remaining file ++ tail)

  -- a chunk with a newline
  scan-line :
      (size : ℕ) (file : Str) (fuel remaining : ℕ) (s : S) (carry complete : Str)
      → Scans size file fuel
      → remaining ≤ fuel
      → has_byte b'\n' carry ≡ false
      → (let (s', go_on) = lines s (reverse (split b'\n' complete)) in
          if go_on then scan_rounds decode visit size file fuel remaining carry s' else s')
        ≡ backwards s (take remaining file ++ (carry ++ b'\n' ∷ complete))
  scan-line size file fuel remaining s carry complete later h clean =
      let r = lines s (reverse (split b'\n' complete)) in
      ap (λ (x : S). if r.1 then x else r.0) (later remaining carry r.0 h clean)
      ∙ sym (backwards-newline s (take remaining file ++ carry) complete)
      ∙ ap (backwards s) (append_assoc (take remaining file) carry (b'\n' ∷ complete))

  -- the first chunk of the file, when it is a part of one line
  scan-first :
      (size : ℕ) (file : Str) (fuel remaining : ℕ) (s : S) (chunk : Str)
      → Scans size file fuel
      → remaining ≡ 0
      → (let (s', go_on) = lines s (reverse (split b'\n' chunk)) in
          if go_on then scan_rounds decode visit size file fuel remaining [] s' else s')
        ≡ backwards s (take remaining file ++ chunk)
  scan-first size file fuel remaining s chunk later e =
      let r = lines s (reverse (split b'\n' chunk)) in
      let nothing : scan_rounds decode visit size file fuel remaining [] r.0 ≡ r.0 =
        later remaining [] r.0 (omega (arith, e)) refl
        ∙ ap (λ n. backwards r.0 (take n file ++ [])) e
        ∙ backwards-nothing r.0 in
      ap (λ (x : S). if r.1 then x else r.0) nothing
      ∙ (elim (Bool-cases r.1) [ inl f ↦ rw f refl | inr f ↦ rw f refl ])
      ∙ sym (ap (λ n. backwards s (take n file ++ chunk)) e)

  scan-rounds : (size : ℕ) (file : Str) → 0 < size → (fuel : ℕ) → Scans size file fuel
  unfolding scan_rounds
  scan-rounds size file large zero remaining tail s h clean =
      finished file remaining tail s (omega (arith, h)) clean
  scan-rounds size file large (suc fuel) remaining tail s h clean =
      let later = scan-rounds size file large fuel in
      let r = remaining - min size remaining in
      let chunk = chunk_of size file remaining ++ tail in
      let goal : S → Type 0 = λ x. x ≡ backwards s (take remaining file ++ tail) in
      match_if goal (remaining == 0) (λ e. finished file remaining tail s (ground (arith, e)) clean)
        (λ e.
          match_option goal (split_once b'\n' chunk)
            (λ none_found.
              match_if goal (ltb 0 r)
                (λ _.
                  later r chunk s (ground (arith, e, h, large))
                    (split_once-none b'\n' chunk none_found)
                  ∙ ap (backwards s) (sym (whole size file remaining tail)))
                (λ f.
                  scan-first size file fuel r s chunk later (ground (arith, f))
                  ∙ ap (backwards s) (sym (whole size file remaining tail))))
            (λ p f.
              let (cut, clean') = split_once_sound b'\n' chunk p.0 p.1 f in
              scan-line size file fuel r s p.0 p.1 later (ground (arith, e, h, large)) clean'
              ∙ ap (λ (l : Str). backwards s (take r file ++ l)) (sym cut)
              ∙ ap (backwards s) (sym (whole size file remaining tail))))

  -- Reading a file backwards, in chunks of any size, visits its lines from the last one to the
  -- first, until the visitor stops.
  pub scan_backwards_lem :
      (size : ℕ) (file : Str) (s : S)
      → 0 < size
      → scan_backwards decode visit size (some file) s ≡ backwards s file
  unfolding scan_backwards
  scan_backwards_lem size file s large =
      scan-rounds size file large (length file) (length file) [] s (omega arith) refl
      ∙ ap (backwards s) (append-nil (take (length file) file) ∙ take-all file)
