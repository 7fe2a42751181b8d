-- ===== src/Json/Select/Loop.antt =====
-- The loop of `parse` of crates/gabriel-core/src/jsonpath.rs on paths that are written segment by
-- segment.
use gabrielbrowser.Base.{
  ℕ, ◌<◌, ◌^◌, Bool, true, false, not, ◌&&◌, Option, none, some, List, [], ◌∷◌, ◌++◌, Str, ◌==◌,
  ◌≡◌, refl, ap, sym, ◌∙◌, All, append_assoc, append-nil, reverse, arith, if◌then◌else◌,
  reverse-reverse, reverse-first, subst,
}
use gabrielbrowser.Base.Text.{is_digit, parse_u64, trim, is_empty}
use gabrielbrowser.Base.Text.Trim.{is_graphic, trim_id}
use gabrielbrowser.Base.Decimal.{
  decimal, decimal-AllDigits, decimal-cons, parse_u64-decimal, AllDigits,
}
use gabrielbrowser.Base.Results.{err}
use gabrielbrowser.Json.Select.{
  Segment, key, index, bad_json_path, segments_of, flush, finish, bracket_segment, trim_quotes,
  trim_start_quotes,
}

-- A byte that a path may hold in a key: graphic, and none of `.`, `[`, `]` and `$`.
abbrev pub is_plain : ℕ → Bool
is_plain c =
    is_graphic c && (not (c == b'.') && (not (c == b'[') && (not (c == b']') && not (c == b'$'))))

abbrev pub IsPlainKey : Str → Type 0
IsPlainKey k = (is_empty k ≡ false) × All (λ c. is_plain c ≡ true) k

abbrev pub IsPlain : Segment → Type 0
IsPlain (key k) = IsPlainKey k
IsPlain (index i) = i < 2 ^ 64

-- one more segment on a path
abbrev pub extend : Str → Segment → Str
extend [] (key k) = k
extend (c ∷ path) (key k) = (c ∷ path) ++ b'.' ∷ k
extend path (index i) = path ++ b'[' ∷ (decimal i ++ b']' ∷ [])

unfoldable pub print_from : Str → List Segment → Str
print_from path [] = path
print_from path (s ∷ segments) = print_from (extend path s) segments

-- what follows a path that is not empty
abbrev pub printed : Segment → Str
printed (key k) = b'.' ∷ k
printed (index i) = b'[' ∷ (decimal i ++ b']' ∷ [])

abbrev pub rest_of : List Segment → Str
rest_of [] = []
rest_of (s ∷ segments) = printed s ++ rest_of segments

pub print_from-rest :
    (c : ℕ) (path : Str) (segments : List Segment)
    → print_from (c ∷ path) segments ≡ (c ∷ path) ++ rest_of segments
unfolding print_from
print_from-rest c path [] = sym (append-nil (c ∷ path))
print_from-rest c path (key k ∷ segments) =
    print_from-rest c (path ++ b'.' ∷ k) segments ∙ simp append_assoc
print_from-rest c path (index i ∷ segments) =
    print_from-rest c (path ++ b'[' ∷ (decimal i ++ b']' ∷ [])) segments ∙ simp append_assoc

plain_byte :
    (path : Str) (done : List Segment) (current : Str) (c : ℕ) (s : Str)
    → is_plain c ≡ true
    → segments_of path none done current (c ∷ s) ≡ segments_of path none done (current ++ c ∷ []) s
unfolding segments_of
plain_byte path done current c s h = ground arith

-- The loop over a key only collects its bytes.
pub segments_of-key :
    (path : Str) (done : List Segment) (current k s : Str)
    → All (λ c. is_plain c ≡ true) k
    → segments_of path none done current (k ++ s) ≡ segments_of path none done (current ++ k) s
segments_of-key path done current [] s _ =
    ap (λ (u : Str). segments_of path none done u s) (sym (append-nil current))
segments_of-key path done current (c ∷ k) s (h, hs) =
    plain_byte path done current c (k ++ s) h
    ∙ (segments_of-key path done (current ++ c ∷ []) k s hs
        ∙ ap (λ (u : Str). segments_of path none done u s) (append_assoc current (c ∷ []) k))

digit_byte :
    (path : Str) (done : List Segment) (inner : Str) (c : ℕ) (s : Str)
    → is_digit c ≡ true
    → segments_of path (some inner) done [] (c ∷ s)
      ≡ segments_of path (some (inner ++ c ∷ [])) done [] s
unfolding segments_of
digit_byte path done inner c s h = ground arith

segments_of-digits :
    (path : Str) (done : List Segment) (inner k s : Str)
    → AllDigits k
    → segments_of path (some inner) done [] (k ++ s)
      ≡ segments_of path (some (inner ++ k)) done [] s
segments_of-digits path done inner [] s _ =
    ap (λ (u : Str). segments_of path (some u) done [] s) (sym (append-nil inner))
segments_of-digits path done inner (c ∷ k) s (h, hs) =
    digit_byte path done inner c (k ++ s) h
    ∙ (segments_of-digits path done (inner ++ c ∷ []) k s hs
        ∙ ap (λ (u : Str). segments_of path (some u) done [] s) (append_assoc inner (c ∷ []) k))

digit-is_graphic : (c : ℕ) → is_digit c ≡ true → is_graphic c ≡ true
digit-is_graphic c h = ground arith

trim_start_quotes-digit : (c : ℕ) (s : Str) → is_digit c ≡ true → trim_start_quotes (c ∷ s) ≡ c ∷ s
unfolding trim_start_quotes
trim_start_quotes-digit c s h = ground arith

digits-bracket :
    (c d : ℕ) (s t u : Str)
    → u ≡ c ∷ s
    → reverse u ≡ d ∷ t
    → is_digit c ≡ true
    → is_digit d ≡ true
    → trim_quotes (trim u) ≡ u
unfolding trim_quotes
digits-bracket c d s t u e r hc hd =
    let trimmed = trim_id c d s t u e r (digit-is_graphic c hc) (digit-is_graphic d hd) in
    let quotes : trim_start_quotes u ≡ u =
      ap trim_start_quotes e ∙ (trim_start_quotes-digit c s hc ∙ sym e) in
    ap (λ (v : Str). reverse (trim_start_quotes (reverse (trim_start_quotes v)))) trimmed
    ∙ (ap (λ (v : Str). reverse (trim_start_quotes (reverse v))) quotes
        ∙ (ap (λ (v : Str). reverse (trim_start_quotes v)) r
            ∙ (ap reverse (trim_start_quotes-digit d t hd)
                ∙ (ap reverse (sym r) ∙ reverse-reverse u))))

bracket_segment-decimal : (i : ℕ) → i < 2 ^ 64 → bracket_segment (decimal i) ≡ some (index i)
unfolding bracket_segment
bracket_segment-decimal i h =
    let (c, s, e, hc) = decimal-cons i in
    let all : AllDigits (c ∷ s) = subst AllDigits e (decimal-AllDigits i) in
    let (d, t, r, hd) = reverse-first (λ b. is_digit b ≡ true) c s all in
    let text = digits-bracket c d s t (decimal i) e (ap reverse e ∙ r) hc hd in
    ap
      (λ (u : Str). elim (parse_u64 u) [
        | some n ↦ some (index n)
        | none ↦ if is_empty u then none else some (key u)
      ])
      text
    ∙ ap
        (λ (o : Option ℕ). elim o [
          | some n ↦ some (index n)
          | none ↦ if is_empty (decimal i) then none else some (key (decimal i))
        ])
        (parse_u64-decimal i h)

close_bracket :
    (path : Str) (done : List Segment) (inner s : Str) (i : ℕ)
    → bracket_segment inner ≡ some (index i)
    → segments_of path (some inner) done [] (b']' ∷ s)
      ≡ segments_of path none (done ++ index i ∷ []) [] s
unfolding segments_of
close_bracket path done inner s i h =
    ap
      (λ (o : Option Segment). elim o [
        | some segment ↦ segments_of path none (done ++ segment ∷ []) [] s
        | none ↦ err (bad_json_path path)
      ])
      h

dot :
    (path : Str) (done : List Segment) (current s : Str)
    → segments_of path none done current (b'.' ∷ s)
      ≡ segments_of path none (flush done current) [] s
unfolding segments_of
dot path done current s = refl

open_bracket :
    (path : Str) (done : List Segment) (current inner s : Str)
    → segments_of path none done current ((b'[' ∷ inner) ++ s)
      ≡ segments_of path (some []) (flush done current) [] (inner ++ s)
unfolding segments_of
open_bracket path done current inner s = refl

flush-key : (done : List Segment) (k : Str) → is_empty k ≡ false → flush done k ≡ done ++ key k ∷ []
flush-key done [] h = cc
flush-key done (c ∷ k) h = refl

pub segments_of-index :
    (path : Str) (done : List Segment) (current s : Str) (i : ℕ)
    → i < 2 ^ 64
    → segments_of path none done current (printed (index i) ++ s)
      ≡ segments_of path none (flush done current ++ index i ∷ []) [] s
segments_of-index path done current s i h =
    opened
    ∙ (segments_of-digits path (flush done current) [] (decimal i) (b']' ∷ s) (decimal-AllDigits i)
        ∙ close_bracket path (flush done current) (decimal i) s i (bracket_segment-decimal i h))
  where
    opened :
        segments_of path none done current (printed (index i) ++ s)
        ≡ segments_of path (some []) (flush done current) [] (decimal i ++ b']' ∷ s)
    opened =
        open_bracket path done current (decimal i ++ b']' ∷ []) s
        ∙ ap (segments_of path (some []) (flush done current) [])
            (append_assoc (decimal i) (b']' ∷ []) s)

end :
    (path : Str) (done : List Segment) (current : Str)
    → segments_of path none done current [] ≡ finish path (flush done current ++ [])
unfolding segments_of
end path done current = ap (finish path) (sym (append-nil (flush done current)))

pub segments_of-rest :
    (path : Str) (segments done : List Segment) (current : Str)
    → All IsPlain segments
    → segments_of path none done current (rest_of segments)
      ≡ finish path (flush done current ++ segments)
segments_of-rest path [] done current _ = end path done current
segments_of-rest path (key k ∷ segments) done current ((h, hs), later) =
    dot path done current (k ++ rest_of segments)
    ∙ (segments_of-key path (flush done current) [] k (rest_of segments) hs
        ∙ (segments_of-rest path segments (flush done current) k later
            ∙ ap (λ l. finish path (l ++ segments)) (flush-key (flush done current) k h)
            ∙ ap (finish path) (append_assoc (flush done current) (key k ∷ []) segments)))
segments_of-rest path (index i ∷ segments) done current (h, later) =
    segments_of-index path done current (rest_of segments) i h
    ∙ (segments_of-rest path segments (flush done current ++ index i ∷ []) [] later
        ∙ ap (finish path) (append_assoc (flush done current) (index i ∷ []) segments))
