-- ===== src/Collection.antt =====
-- A collection of requests, crates/gabriel-collection/src/lib.rs: its defaults and variables, and the
-- lookup of a request. Reading and writing the files is left out.
pub mod Paths
pub mod Find
pub mod Save
pub mod Slug
pub mod Defaults
mod Tests
use gabrielbrowser.Base.{
  ℕ, Bool, true, false, not, ◌&&◌, ◌||◌, Option, none, some, List, [], ◌∷◌, ◌++◌, Str, codes,
  str_eq, if◌then◌else◌, filter, find, map, is_some, ends_with, strip_suffix, length,
}
use gabrielbrowser.Base.Text.{contains, trim_start_matches, trim_end_matches, is_empty}
use gabrielbrowser.Base.Map
use gabrielbrowser.Base.Map.{Map, extend}
use gabrielbrowser.Base.Results.{Result, ok, err}
use gabrielbrowser.Model.{Auth, inherit, Settings, RequestSpec}
use gabrielbrowser.Model.Fields
use gabrielbrowser.Model.Fields.{FieldMap, iter_pairs, contains_key, is_empty_map}

pub data CollectionError : Type 0 where
  parse : (path message : Str) → CollectionError
  no_such_request : Str → CollectionError
  ambiguous_request : (query : Str) (matches : List Str) → CollectionError
  unsafe_path : Str → CollectionError

pub record DefaultSettings : Type 0 where
  pub headers : FieldMap
  pub auth : Option Auth
  pub settings : Option Settings

pub record Manifest : Type 0 where
  pub name : Option Str
  pub description : Option Str
  pub vars : Map Str
  pub defaults : DefaultSettings

pub record Environment : Type 0 where
  pub name : Option Str
  pub description : Option Str
  pub vars : Map Str
  pub secrets : Map Str

pub record RequestEntry (V : Type 0) : Type 0 where
  pub path : Str
  pub id : Str
  pub spec : RequestSpec V

pub record LoadProblem : Type 0 where
  pub path : Str
  pub id : Str
  pub message : Str

pub record Collection (V : Type 0) : Type 0 where
  pub root : Str
  pub manifest : Manifest
  pub requests : List (RequestEntry V)
  pub problems : List LoadProblem

abbrev pub is_empty_defaults : DefaultSettings → Bool
is_empty_defaults d = is_empty_map d.headers && (not (is_some d.auth) && not (is_some d.settings))

-- the loop of `Environment::variables`
unfoldable pub add_secrets : Map Str → Map Str → Map Str
add_secrets vars [] = vars
add_secrets vars ((name, vault_key) ∷ secrets) =
    add_secrets (Map.insert name (codes "{{secret:" ++ (vault_key ++ codes "}}")) vars) secrets

unfoldable pub variables : Environment → Map Str
unfolding add_secrets
variables e = add_secrets e.vars e.secrets

-- the loop of `apply_defaults` over the default headers
unfoldable pub add_headers : FieldMap → List (Str × Str) → FieldMap
add_headers headers [] = headers
add_headers headers ((key, value) ∷ pairs) =
    add_headers
      (if not (contains_key key headers) then Fields.insert key value headers else headers) pairs

-- `None | Some(Auth::Inherit)`
abbrev pub inherits : Option Auth → Bool
inherits none = true
inherits (some inherit) = true
inherits (some _) = false

module _ {V : Type 0} where
  unfoldable pub variables_for : Collection V → Option Environment → Map Str
  unfolding variables
  variables_for c environment = elim environment [
    | none ↦ c.manifest.vars
    | some e ↦ extend c.manifest.vars (variables e)
  ]

  -- `is_default` compares settings, which derive their equality.
  unfoldable pub apply_defaults :
      (is_default : Settings → Bool) → Collection V → RequestSpec V → RequestSpec V
  unfolding add_headers
  apply_defaults is_default c spec =
      let defaults = c.manifest.defaults in
      record spec {
        headers = add_headers spec.headers (iter_pairs defaults.headers);
        auth =
            if inherits spec.auth
            then (elim defaults.auth [ none ↦ spec.auth | some a ↦ some a ])
            else spec.auth;
        settings =
            if is_default spec.settings
            then (elim defaults.settings [ none ↦ spec.settings | some s ↦ s ])
            else spec.settings;
      }
