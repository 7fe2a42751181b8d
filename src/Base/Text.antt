-- ===== src/Base/Text.antt =====
-- Splitting, trimming, joining and searching byte strings, as the methods of `str` do. A delimiter
-- is one ASCII byte, so a split by bytes is a split by characters.
pub mod Trim
pub mod Contains
pub mod Replace
use gabrielbrowser.Base.Tests.{if◌then◌else◌, ◌==◌, leb, ltb, is_some, ◌>>=◌}
use gabrielbrowser.Base.Lists.{length, filter}
use gabrielbrowser.Base.Bytes.{Str, strip_prefix}
use Prim.Native.Nat.{ℕ, zero, suc, ◌+◌, ◌-◌, ◌*◌, ◌^◌}
use mathlib.Core.Bool.{Bool, true, false, not, ◌&&◌}
use mathlib.Core.List.{List, [], ◌∷◌, ◌++◌, map, reverse}
use mathlib.Core.Option
use mathlib.Core.Option.{Option, none, some}

abbrev pub cons_first : ℕ → List Str → List Str
cons_first c [] = (c ∷ []) ∷ []
cons_first c (p ∷ ps) = (c ∷ p) ∷ ps

-- `s.split(c)`
unfoldable pub split : ℕ → Str → List Str
split c [] = [] ∷ []
split c (d ∷ s) = let rest = split c s in if d == c then [] ∷ rest else cons_first d rest

-- `s.split_once(c)`: around the first `c`
unfoldable pub split_once : ℕ → Str → Option (Str × Str)
split_once c [] = none
split_once c (d ∷ s) =
    let rest = split_once c s in
    if d == c then some ([], s) else Option.map (λ (p : Str × Str). (d ∷ p.0, p.1)) rest

-- `s.split_once(pat)` and `s.find(pat)`: the text before the first occurrence, and after it
unfoldable pub split_once_str : Str → Str → Option (Str × Str)
unfolding strip_prefix
split_once_str pat [] = elim (strip_prefix [] pat) [ none ↦ none | some r ↦ some ([], r) ]
split_once_str pat (d ∷ s) =
    let rest = split_once_str pat s in
    elim (strip_prefix (d ∷ s) pat) [
      | some r ↦ some ([], r)
      | none ↦ Option.map (λ (p : Str × Str). (d ∷ p.0, p.1)) rest
    ]

-- `s.contains(pat)`
unfoldable pub contains : Str → Str → Bool
unfolding split_once_str
contains s pat = is_some (split_once_str pat s)

-- `s.contains(c)`
abbrev pub has_byte : ℕ → Str → Bool
has_byte c [] = false
has_byte c (d ∷ s) = let rest = has_byte c s in if d == c then true else rest

-- the position of the last `c`
unfoldable pub rfind : ℕ → Str → Option ℕ
rfind c [] = none
rfind c (d ∷ s) =
    let rest = rfind c s in
    elim rest [ some i ↦ some (suc i) | none ↦ if d == c then some 0 else none ]

-- `s.trim_start_matches(c)`, and `s.trim_end_matches(c)`
unfoldable pub trim_start_matches : ℕ → Str → Str
trim_start_matches c [] = []
trim_start_matches c (d ∷ s) = let rest = trim_start_matches c s in if d == c then rest else d ∷ s

unfoldable pub trim_end_matches : ℕ → Str → Str
unfolding trim_start_matches
trim_end_matches c s = reverse (trim_start_matches c (reverse s))

-- The UTF-8 bytes of the characters of Unicode's White_Space property.
abbrev pub white_spaces : List Str
white_spaces =
    (0x09 ∷ [])
    ∷ (0x0a ∷ [])
    ∷ (0x0b ∷ [])
    ∷ (0x0c ∷ [])
    ∷ (0x0d ∷ [])
    ∷ (0x20 ∷ [])
    ∷ (0xc2 ∷ 0x85 ∷ [])
    ∷ (0xc2 ∷ 0xa0 ∷ [])
    ∷ (0xe1 ∷ 0x9a ∷ 0x80 ∷ [])
    ∷ (0xe2 ∷ 0x80 ∷ 0x80 ∷ [])
    ∷ (0xe2 ∷ 0x80 ∷ 0x81 ∷ [])
    ∷ (0xe2 ∷ 0x80 ∷ 0x82 ∷ [])
    ∷ (0xe2 ∷ 0x80 ∷ 0x83 ∷ [])
    ∷ (0xe2 ∷ 0x80 ∷ 0x84 ∷ [])
    ∷ (0xe2 ∷ 0x80 ∷ 0x85 ∷ [])
    ∷ (0xe2 ∷ 0x80 ∷ 0x86 ∷ [])
    ∷ (0xe2 ∷ 0x80 ∷ 0x87 ∷ [])
    ∷ (0xe2 ∷ 0x80 ∷ 0x88 ∷ [])
    ∷ (0xe2 ∷ 0x80 ∷ 0x89 ∷ [])
    ∷ (0xe2 ∷ 0x80 ∷ 0x8a ∷ [])
    ∷ (0xe2 ∷ 0x80 ∷ 0xa8 ∷ [])
    ∷ (0xe2 ∷ 0x80 ∷ 0xa9 ∷ [])
    ∷ (0xe2 ∷ 0x80 ∷ 0xaf ∷ [])
    ∷ (0xe2 ∷ 0x81 ∷ 0x9f ∷ [])
    ∷ (0xe3 ∷ 0x80 ∷ 0x80 ∷ [])
    ∷ []

-- the rest of a text after one white-space character
unfoldable pub first_prefix : List Str → Str → Option Str
unfolding strip_prefix
first_prefix [] s = none
first_prefix (w ∷ ws) s =
    let later = first_prefix ws s in elim (strip_prefix s w) [ some r ↦ some r | none ↦ later ]

-- Each round removes at least a byte, so as many rounds as bytes are enough.
trim_rounds : List Str → ℕ → Str → Str
unfolding first_prefix
trim_rounds ws zero s = s
trim_rounds ws (suc fuel) s = elim (first_prefix ws s) [ none ↦ s | some r ↦ trim_rounds ws fuel r ]

unfoldable pub trim_start : Str → Str
unfolding trim_rounds
trim_start s = trim_rounds white_spaces (length s) s

-- No character's bytes end with the bytes of another, so the end is trimmed by reversed bytes.
unfoldable pub trim_end : Str → Str
unfolding trim_rounds
trim_end s = reverse (trim_rounds (map reverse white_spaces) (length s) (reverse s))

-- `s.trim()`
unfoldable pub trim : Str → Str
unfolding trim_start trim_end
trim s = trim_end (trim_start s)

-- the words that white space separates, `word` being the one under way
words_from : ℕ → Str → Str → List Str
unfolding first_prefix
words_from fuel word [] = word ∷ []
words_from zero word s = word ∷ []
words_from (suc fuel) word (c ∷ s) = elim (first_prefix white_spaces (c ∷ s)) [
  | some r ↦ word ∷ words_from fuel [] r
  | none ↦ words_from fuel (word ++ c ∷ []) s
]

abbrev pub is_empty {ℓ} : {A : Type ℓ} → List A → Bool
is_empty [] = true
is_empty (c ∷ s) = false

-- `s.split_whitespace()`: every round takes a byte at least
unfoldable pub split_whitespace : Str → List Str
unfolding words_from
split_whitespace s = filter (λ w. not (is_empty w)) (words_from (length s) [] s)

-- `parts.join(sep)`
unfoldable pub join : Str → List Str → Str
join sep [] = []
join sep (p ∷ []) = p
join sep (p ∷ q ∷ ps) = p ++ (sep ++ join sep (q ∷ ps))

abbrev pub is_digit : ℕ → Bool
is_digit c = leb b'0' c && leb c b'9'

unfoldable pub parse_digits : ℕ → Str → Option ℕ
parse_digits n [] = some n
parse_digits n (c ∷ s) = if is_digit c then parse_digits (n * 10 + (c - b'0')) s else none

abbrev pub skip_plus : Str → Str
skip_plus [] = []
skip_plus (c ∷ s) = if c == b'+' then s else c ∷ s

-- A non-empty run of digits, as a number of any size.
unfoldable pub parse_unsigned : Str → Option ℕ
unfolding parse_digits
parse_unsigned [] = none
parse_unsigned (c ∷ s) = parse_digits 0 (c ∷ s)

-- `str::parse::<u64>`, and `parse::<usize>` on a 64-bit target: a `+` is allowed, overflow is an error
unfoldable pub parse_u64 : Str → Option ℕ
unfolding parse_unsigned
parse_u64 s = do n ← parse_unsigned (skip_plus s); if ltb n (2 ^ 64) then some n else none

-- `s.replace(from, to)` for a `from` that is not empty: every round takes a byte at least
unfoldable pub replace_rounds : ℕ → Str → Str → Str → Str
unfolding split_once_str
replace_rounds zero s from to = s
replace_rounds (suc fuel) s from to = elim (split_once_str from s) [
  | none ↦ s
  | some (before, after) ↦ before ++ (to ++ replace_rounds fuel after from to)
]

unfoldable pub replace : Str → Str → Str → Str
unfolding replace_rounds
replace s from to = replace_rounds (length s) s from to

-- `s.split(sep)` for a string `sep` that is not empty
split_rounds : ℕ → Str → Str → List Str
unfolding split_once_str
split_rounds zero sep s = s ∷ []
split_rounds (suc fuel) sep s = elim (split_once_str sep s) [
  | none ↦ s ∷ []
  | some (before, after) ↦ before ∷ split_rounds fuel sep after
]

unfoldable pub split_str : Str → Str → List Str
unfolding split_rounds
split_str sep s = split_rounds (length s) sep s
