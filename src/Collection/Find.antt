-- ===== src/Collection/Find.antt =====
-- The lookup of a request, `Collection::find` of crates/gabriel-collection/src/lib.rs.
pub mod Query
pub mod Search
pub mod Outcome
use gabrielbrowser.Base.{
  Bool, false, ◌||◌, Option, none, some, List, [], ◌∷◌, ◌++◌, Str, codes, str_eq, ends_with, find,
  filter, length, map, ◌≡◌, refl, sym, ap, ◌∙◌, ◌⊎◌, inl, inr, arith, Bool-cases, str_eq_sound,
}
use gabrielbrowser.Base.Text.{contains, trim_start_matches, trim_end_matches}
use gabrielbrowser.Base.Results.{Result, ok, err}
use gabrielbrowser.Collection.{
  Collection, RequestEntry, LoadProblem, CollectionError, parse, no_such_request, ambiguous_request,
}
use gabrielbrowser.Collection.Paths.{trim_end_string}

-- the query without the extension and the slashes around it
abbrev pub normal_query : Str → Str
normal_query query =
    trim_end_matches b'/'
      (trim_start_matches b'/' (trim_end_string (length query) query (codes ".toml")))

abbrev pub name_is : Option Str → Str → Bool
name_is none query = false
name_is (some name) query = str_eq name query

abbrev pub has_suffix : Str → Str → Bool
has_suffix id query = ends_with id (codes "/" ++ query)

abbrev pub id_of : {V : Type 0} → RequestEntry V → Str
id_of r = r.id

-- `to_lowercase` is that of Unicode.
module _ (to_lowercase : Str → Str) where
  abbrev pub has_part : Str → Str → Bool
  has_part id query = contains (to_lowercase id) (to_lowercase query)

  abbrev pub is_problem : Str → LoadProblem → Bool
  is_problem query p = str_eq p.id query || (has_suffix p.id query || has_part p.id query)

module _ {V : Type 0} (to_lowercase : Str → Str) where
  abbrev pub is_match : Str → RequestEntry V → Bool
  is_match query r =
      has_suffix r.id (normal_query query)
      || (name_is r.spec.name query || has_part to_lowercase r.id (normal_query query))

  abbrev pub no_match : List LoadProblem → Str → Result CollectionError (RequestEntry V)
  no_match problems query = elim (find (is_problem to_lowercase (normal_query query)) problems) [
    | some p ↦ err (parse p.path p.message)
    | none ↦ err (no_such_request query)
  ]

  abbrev pub by_matches :
      List LoadProblem → Str → List (RequestEntry V) → Result CollectionError (RequestEntry V)
  by_matches problems query [] = no_match problems query
  by_matches problems query (r ∷ []) = ok r
  by_matches problems query (r ∷ s ∷ matches) =
      err (ambiguous_request query (map id_of (r ∷ s ∷ matches)))

  -- `Collection::find`
  unfoldable pub find_request : Collection V → Str → Result CollectionError (RequestEntry V)
  find_request c query = elim (find (λ r. str_eq r.id (normal_query query)) c.requests) [
    | some exact ↦ ok exact
    | none ↦ by_matches c.problems query (filter (is_match query) c.requests)
  ]
