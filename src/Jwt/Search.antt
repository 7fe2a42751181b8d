-- ===== src/Jwt/Search.antt =====
-- A token in a text, `find_in` of crates/gabriel-core/src/jwt.rs.
use gabrielbrowser.Base.{
  ℕ, zero, suc, Bool, false, ◌||◌, Option, none, some, List, [], ◌∷◌, ◌++◌, Str, codes, find,
  if◌then◌else◌, ◌==◌, ltb, length, is_some,
}
use gabrielbrowser.Base.Results.{ok, err}
use gabrielbrowser.Base.Text.{split, trim_end_matches, first_prefix, white_spaces}
use gabrielbrowser.Json.{Json, get_key}
use gabrielbrowser.Jwt.{JwtOps}

-- the rest of a text behind one separator
abbrev pub after_separator : Str → Option Str
after_separator [] = none
after_separator (c ∷ s) =
    if c == 0x22 || (c == 0x27 || c == b',') then some s else first_prefix white_spaces (c ∷ s)

-- `split` by the separators, `part` being the one under way; a round takes a byte at least
unfoldable pub candidates : ℕ → Str → Str → List Str
candidates zero part s = part ∷ []
candidates (suc rounds) part [] = part ∷ []
candidates (suc rounds) part (c ∷ s) = elim (after_separator (c ∷ s)) [
  | some rest ↦ part ∷ candidates rounds [] rest
  | none ↦ candidates rounds (part ++ c ∷ []) s
]

module _ {N F : Type 0} (ops : JwtOps N F) where
  abbrev pub is_header : Json N → Bool
  is_header header =
      is_some (get_key (codes "alg") header) || is_some (get_key (codes "typ") header)

  abbrev pub decodes_to_header : Str → Bool
  decodes_to_header segment = elim (ops.decode_base64 (trim_end_matches b'=' segment)) [
    | err e ↦ false
    | ok bytes ↦ elim (ops.read_json bytes) [ err e ↦ false | ok v ↦ is_header v ]
  ]

  abbrev pub parts_look_like : List Str → Bool
  parts_look_like (h ∷ p ∷ signature ∷ []) =
      if ltb (length h) 4 || ltb (length p) 2 then false else decodes_to_header h
  parts_look_like _ = false

  unfoldable pub looks_like_jwt : Str → Bool
  looks_like_jwt candidate = parts_look_like (split b'.' candidate)

  unfoldable pub find_in : Str → Option Str
  unfolding looks_like_jwt candidates
  find_in text = find looks_like_jwt (candidates (length text) [] text)
