-- ===== src/Collection/Slug.antt =====
-- Names for request files, `slugify` and `unique_request_path` of
-- crates/gabriel-collection/src/lib.rs.
pub mod Shape
pub mod Idem
pub mod Free
use gabrielbrowser.Base.{
  ℕ, zero, suc, Bool, true, false, ◌||◌, ◌&&◌, Option, none, some, List, [], ◌∷◌, ◌++◌, Str, codes,
  str_eq, ◌==◌, leb, lower, any, length, if◌then◌else◌,
}
use gabrielbrowser.Base.Decimal.{decimal}
use gabrielbrowser.Base.Text.{is_digit, is_empty, trim_start_matches, trim_end_matches}
use gabrielbrowser.Collection.{Collection, RequestEntry}
use gabrielbrowser.Collection.Paths.{is_ascii_alphabetic}

abbrev pub is_ascii_alphanumeric : ℕ → Bool
is_ascii_alphanumeric c = is_ascii_alphabetic c || is_digit c

-- The loop over the characters, with what `last_dash` holds. A character of several bytes has no
-- ASCII byte, so that a run of other characters is a run of other bytes.
unfoldable pub slug_from : Bool → Str → Str
unfolding lower
slug_from last_dash [] = []
slug_from last_dash (c ∷ s) = elim (is_ascii_alphanumeric c) [
  | true ↦ lower c ∷ slug_from false s
  | false ↦ elim last_dash [ true ↦ slug_from true s | false ↦ b'-' ∷ slug_from true s ]
]

abbrev pub or_request : Str → Str
or_request [] = codes "request"
or_request (c ∷ s) = c ∷ s

unfoldable pub slugify : Str → Str
unfolding slug_from
slugify input = or_request (trim_end_matches b'-' (trim_start_matches b'-' (slug_from true input)))

abbrev pub is_taken : {V : Type 0} → List (RequestEntry V) → Str → Bool
is_taken requests id = any (λ r. str_eq r.id id) requests

-- `format!("{base}-{n}")`
abbrev pub numbered : Str → ℕ → Str
numbered base n = base ++ b'-' ∷ decimal n

-- The search for a free name from a number on; `none` says that the rounds ran out.
unfoldable pub search : {V : Type 0} → ℕ → ℕ → Str → List (RequestEntry V) → Option Str
search zero n base requests = none
search (suc rounds) n base requests = elim (is_taken requests (numbered base n)) [
  | true ↦ search rounds (suc n) base requests
  | false ↦ some (numbered base n)
]

unfoldable pub unique_request_path : {V : Type 0} → ℕ → Collection V → Str → Option Str
unfolding slugify search
unique_request_path rounds c preferred =
    let base = slugify preferred in
    if is_taken c.requests base then search rounds 2 base c.requests else some base
