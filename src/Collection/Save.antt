-- ===== src/Collection/Save.antt =====
-- Saving a request, `Collection::save_request` of crates/gabriel-collection/src/lib.rs: what becomes
-- of the requests in memory, and the path that is written.
pub mod Upsert
use gabrielbrowser.Base.{
  Bool, Option, none, some, List, [], ◌∷◌, ◌++◌, Str, codes, str_eq, if◌then◌else◌, ◌≡◌,
}
use gabrielbrowser.Base.Map.{str_lt}
use gabrielbrowser.Base.Sort.{stable_sort}
use gabrielbrowser.Base.Results.{Result, ok, err}
use gabrielbrowser.Model.{RequestSpec}
use gabrielbrowser.Collection.{Collection, RequestEntry, CollectionError, unsafe_path}
use gabrielbrowser.Collection.Paths.{sanitize_request_path}

abbrev pub request_path : Str → Str → Str
request_path root rel = root ++ (codes "/requests/" ++ (rel ++ codes ".toml"))

module _ {V : Type 0} where
  -- the request with an id
  unfoldable pub with_id : Str → List (RequestEntry V) → Option (RequestEntry V)
  with_id id [] = none
  with_id id (r ∷ requests) =
      let rest = with_id id requests in if str_eq r.id id then some r else rest

  -- `*existing = entry`, at the first request with the id
  unfoldable pub replace_first : RequestEntry V → List (RequestEntry V) → List (RequestEntry V)
  replace_first entry [] = []
  replace_first entry (r ∷ requests) =
      let rest = replace_first entry requests in
      if str_eq r.id entry.id then entry ∷ requests else r ∷ rest

  -- `sort_by` on the ids
  abbrev pub id_before : RequestEntry V → RequestEntry V → Bool
  id_before y x = str_lt y.id x.id

  unfoldable pub put_entry : RequestEntry V → List (RequestEntry V) → List (RequestEntry V)
  unfolding with_id replace_first
  put_entry entry requests = elim (with_id entry.id requests) [
    | some existing ↦ replace_first entry requests
    | none ↦ stable_sort id_before (requests ++ entry ∷ [])
  ]

  abbrev pub entry_of : Str → Str → RequestSpec V → RequestEntry V
  entry_of root rel spec = record { path = request_path root rel; id = rel; spec = spec }

  -- `write` is the writing of the file, which may fail.
  unfoldable pub save_request :
      (write : Str → RequestSpec V → Option CollectionError)
      → Collection V
      → Str
      → RequestSpec V
      → Collection V × Result CollectionError Str
  unfolding put_entry
  save_request write c rel spec = elim (sanitize_request_path rel) [
    | none ↦ (c, err (unsafe_path rel))
    | some path ↦
        let file = request_path c.root path in
        elim (write file spec) [
          | some e ↦ (c, err e)
          | none ↦
              (record c { requests = put_entry (entry_of c.root path spec) c.requests }, ok file)
        ]
  ]

  -- No two requests have one id.
  abbrev pub IsUnique : List (RequestEntry V) → Type 0
  IsUnique [] = Unit
  IsUnique (r ∷ requests) = (with_id r.id requests ≡ none) × IsUnique requests
