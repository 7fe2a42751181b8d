-- ===== src/Capture/Url.antt =====
-- URLs of captured requests taken apart, and names suggested from them,
-- crates/gabriel-core/src/capture.rs. A result `none` of `percent_decode` and what calls it is a
-- panic: a slice that ends inside a character.
use gabrielbrowser.Base.{
  ℕ, zero, suc, ◌+◌, ◌-◌, ◌*◌, ◌==◌, Bool, true, not, ◌&&◌, ◌||◌, Option, none, some, List, [], ◌∷◌,
  ◌++◌, Str, codes, if◌then◌else◌, leb, filter, length, drop, ◌>>=◌, lower, strip_prefix,
}
use gabrielbrowser.Base.Text.{
  split, split_once, split_once_str, is_empty, join, trim_start_matches, trim_end_matches, is_digit,
}
use gabrielbrowser.Base.Utf8.{from_utf8_lossy}
use gabrielbrowser.Model.Fields
use gabrielbrowser.Model.Fields.{FieldMap}

-- the value of a hexadecimal digit
abbrev pub hex_digit : ℕ → Option ℕ
hex_digit c =
    if leb b'0' c && leb c b'9'
    then some (c - b'0')
    else if leb b'a' c && leb c b'f'
    then some (c - b'a' + 10)
    else if leb b'A' c && leb c b'F'
    then some (c - b'A' + 10)
    else none

-- `u8::from_str_radix(s, 16)` for two bytes; a `+` may stand first
abbrev pub from_hex : ℕ → ℕ → Option ℕ
from_hex a b = do
  l ← hex_digit b
  if a == b'+' then some l else (do h ← hex_digit a; some (h * 16 + l))

-- the first byte of a character, or the end
abbrev pub is_boundary : Str → Bool
is_boundary [] = true
is_boundary (c ∷ s) = not (leb 0x80 c && leb c 0xbf)

-- The loop of `percent_decode`, from the position where `s` begins.
unfoldable pub decode_bytes : Str → Option Str
decode_bytes [] = some []
decode_bytes (c ∷ []) = some ((if c == b'+' then b' ' else c) ∷ [])
decode_bytes (c ∷ a ∷ []) = do
  rest ← decode_bytes (a ∷ [])
  some ((if c == b'+' then b' ' else c) ∷ rest)
decode_bytes (c ∷ a ∷ b ∷ s) =
    let next = decode_bytes (a ∷ b ∷ s) in
    let after = decode_bytes s in
    if c == b'%'
    then (if not (is_boundary (a ∷ b ∷ s)) || not (is_boundary s)
        then none
        else elim (from_hex a b) [
          | some byte ↦ (do rest ← after; some (byte ∷ rest))
          | none ↦ (do rest ← next; some (c ∷ rest))
        ])
    else (do rest ← next; some ((if c == b'+' then b' ' else c) ∷ rest))

unfoldable pub percent_decode : Str → Option Str
unfolding decode_bytes
percent_decode input = do out ← decode_bytes input; some (from_utf8_lossy out)

-- `pair.split_once('=').unwrap_or((pair, ""))`
abbrev pub key_value : Str → Str × Str
key_value pair = elim (split_once b'=' pair) [ some p ↦ p | none ↦ (pair, []) ]

unfoldable pub query_fields : FieldMap → List Str → Option FieldMap
unfolding percent_decode
query_fields m [] = some m
query_fields m (pair ∷ pairs) = do
  k ← percent_decode (key_value pair).0
  v ← percent_decode (key_value pair).1
  query_fields (Fields.insert k v m) pairs

unfoldable pub split_query : Str → Option (Str × FieldMap)
unfolding query_fields
split_query url = elim (split_once b'?' url) [
  | none ↦ some (url, [])
  | some (base, query) ↦
      let parts : Str × Option Str = elim (split_once b'#' query) [
        | some (q, f) ↦ (q, some f)
        | none ↦ (query, none)
      ] in
      (do
        m ← query_fields [] (filter (λ p. not (is_empty p)) (split b'&' parts.0))
        some (elim parts.1 [ some f ↦ base ++ (codes "#" ++ f) | none ↦ base ], m))
]

-- `rest.split_at(rest.find('/').unwrap_or(rest.len()))`
abbrev pub at_slash : Str → Str × Str
at_slash [] = ([], [])
at_slash (c ∷ s) = let r = at_slash s in if c == b'/' then ([], c ∷ s) else (c ∷ r.0, r.1)

unfoldable pub split_origin : Str → Option (Str × Str)
split_origin url = do
  (scheme, rest) ← split_once_str (codes "://") url
  some (scheme ++ (codes "://" ++ (at_slash rest).0), (at_slash rest).1)

-- the first part of a split
abbrev pub before_byte : ℕ → Str → Str
before_byte c s = elim (split_once c s) [ some (a, b) ↦ a | none ↦ s ]

unfoldable pub suggest_name : (to_uppercase : Str → Str) → Str → Str → Str
unfolding split_origin
suggest_name to_uppercase method url =
    let path : Str = elim (split_origin url) [ some (o, p) ↦ p | none ↦ url ] in
    let tail = filter (λ s. not (is_empty s)) (split b'/' (before_byte b'?' path)) in
    let label =
      if is_empty tail then codes "root" else join (codes "/") (drop (length tail - 2) tail) in
    to_uppercase method ++ (codes " " ++ label)

-- `s.trim_start_matches(p)` for a string `p` that is not empty
abbrev pub trim_start_string : ℕ → Str → Str → Str
trim_start_string zero p s = s
trim_start_string (suc fuel) p s = elim (strip_prefix s p) [
  | some r ↦ trim_start_string fuel p r
  | none ↦ s
]

abbrev pub slug_byte : ℕ → ℕ
slug_byte c =
    if is_digit c || ((leb b'a' c && leb c b'z') || (leb b'A' c && leb c b'Z'))
    then lower c
    else b'_'

-- The bytes of a character after its first one do not start a character, so they give no `_`.
abbrev pub slug : Str → Str
slug [] = []
slug (c ∷ s) = let rest = slug s in if leb 0x80 c && leb c 0xbf then rest else slug_byte c ∷ rest

unfoldable pub suggest_secret_name : Str → Str
unfolding split_origin
suggest_secret_name url =
    let host : Str = elim (split_origin url) [ some (o, p) ↦ o | none ↦ url ] in
    let bare =
      trim_start_string (length host) (codes "http://")
        (trim_start_string (length host) (codes "https://") host) in
    trim_end_matches b'_' (trim_start_matches b'_' (slug bare)) ++ codes "_token"
