-- ===== src/Collection/Tests.antt =====
-- A small collection of crates/gabriel-collection/src/lib.rs, and the instances of the theorems.
use gabrielbrowser.Base.{
  eq_ignore_ascii_case, true, false, none, ◌++◌, Str, arith, some, [], ◌∷◌, codes, str_eq, ◌≡◌,
  refl, strip_prefix, strip_suffix, starts_with,
}
use gabrielbrowser.Base.Text.{
  split, trim, trim_start, trim_end, trim_start_matches, trim_end_matches, join,
}
use gabrielbrowser.Base.Map
use gabrielbrowser.Base.Results.{ok}
use gabrielbrowser.Collection.Find.{find_request}
use gabrielbrowser.Collection.Find.Query.{IsQuery}
use gabrielbrowser.Collection.Find.Outcome.{Found, find_request-Found}
use gabrielbrowser.Collection.Save.{with_id, save_request, IsUnique}
use gabrielbrowser.Collection.Save.Upsert.{Saves, save_request-Saves}
use gabrielbrowser.Collection.Slug.{unique_request_path, is_taken}
use gabrielbrowser.Collection.Slug.Free.{unique_request_path_lem}
use gabrielbrowser.Model.{RequestSpec, new_spec}
use gabrielbrowser.Model.Fields
use gabrielbrowser.Model.Fields.Laws.{values_of}
use gabrielbrowser.Collection.{
  Collection, RequestEntry, Environment, apply_defaults, variables, variables_for, add_secrets,
}
use gabrielbrowser.Collection.Paths.{
  sanitize_request_path, looks_absolute, path_parts, sanitize_request_path_lem, IsContained,
}
use gabrielbrowser.Collection.Defaults.{apply_defaults-many}

paths : Unit {0}
unfolding sanitize_request_path looks_absolute path_parts split trim trim_start trim_end
    trim_start_matches trim_end_matches join strip_prefix strip_suffix starts_with str_eq
paths =
    let nested : sanitize_request_path (codes "users/./get-user.toml")
        ≡ some (codes "users/get-user") =
      refl in
    let up : sanitize_request_path (codes "a/../../b") ≡ none = refl in
    let root : sanitize_request_path (codes "/etc/passwd") ≡ none = refl in
    let drive : sanitize_request_path (codes "C:/x") ≡ none = refl in
    -- a drive after `./` is accepted
    let late_drive : sanitize_request_path (codes "./C:/x") ≡ some (codes "C:/x") = refl in tt

accepted : sanitize_request_path (codes "users/./get-user.toml") ≡ some (codes "users/get-user")
unfolding sanitize_request_path looks_absolute path_parts split trim trim_start trim_end
    trim_start_matches trim_end_matches join strip_prefix strip_suffix starts_with str_eq
accepted = refl

sanitize_request_path_lem_example : IsContained (codes "users/get-user")
sanitize_request_path_lem_example =
    sanitize_request_path_lem (codes "users/./get-user.toml") (codes "users/get-user") accepted

abbrev accept : Fields.FieldMap
accept = (codes "Accept", Fields.one (codes "text/plain")) ∷ []

abbrev collection : Collection (Unit {0})
collection = record {
  root = codes "/c";
  manifest = record {
    name = none;
    description = none;
    vars = (codes "host", codes "a") ∷ [];
    defaults = record {
      headers = accept ++ (codes "X-Tag", Fields.many (codes "one" ∷ codes "two" ∷ [])) ∷ [];
      auth = none;
      settings = none;
    };
  };
  requests = [];
  problems = [];
}

abbrev plain : RequestSpec (Unit {0})
plain = new_spec (λ s. s) (codes "GET") (codes "https://a.test")

abbrev tagged : RequestSpec (Unit {0})
tagged = record plain { headers = (codes "x-tag", Fields.one (codes "own")) ∷ [] }

abbrev staging : Environment
staging = record {
  name = none;
  description = none;
  vars = (codes "host", codes "b") ∷ [];
  secrets = (codes "token", codes "key") ∷ [];
}

variables_test :
    variables_for collection (some staging)
    ≡ (codes "host", codes "b") ∷ (codes "token", codes "{{secret:key}}") ∷ []
unfolding variables_for variables add_secrets Map.extend Map.insert Map.lookup str_eq
variables_test = refl

apply_defaults-many_example :
    values_of (codes "X-Tag") (apply_defaults (λ _. true) collection plain).headers
    ≡ codes "one" ∷ []
unfolding Fields.contains_key eq_ignore_ascii_case
apply_defaults-many_example =
    apply_defaults-many (λ _. true) collection plain accept [] (codes "X-Tag") (codes "one")
      (codes "two" ∷ []) refl refl refl

abbrev entry : Str → RequestEntry (Unit {0})
entry id = record { path = codes "/c/requests/" ++ id; id = id; spec = plain }

abbrev requests : Collection (Unit {0})
requests = record collection {
  requests = entry (codes "users/get") ∷ entry (codes "users/put") ∷ [];
}

find_test :
    find_request (λ s. s) requests (codes "/users/put.toml") ≡ ok (entry (codes "users/put"))
unfolding find_request trim trim_start trim_end strip_prefix strip_suffix starts_with
    trim_start_matches trim_end_matches str_eq
find_test = refl

find_request-Found_example :
    (q : Str) × IsQuery (codes "/users/put.toml") q
    × Found
        (λ s. s)
        requests
        (codes "/users/put.toml")
        q
        (find_request (λ s. s) requests (codes "/users/put.toml"))
find_request-Found_example = find_request-Found (λ s. s) requests (codes "/users/put.toml")

requests-IsUnique : IsUnique requests.requests
unfolding with_id str_eq
requests-IsUnique = (refl, (refl, tt))

save_request-Saves_example :
    let (c', result) = save_request (λ _ _. none) requests (codes "users/put") plain in
    Saves requests (codes "users/put") plain c' result × IsUnique c'.requests
save_request-Saves_example =
    save_request-Saves (λ _ _. none) requests (codes "users/put") plain requests-IsUnique

unique_request_path_lem_example :
    (id : Str) × (unique_request_path 3 requests (codes "users") ≡ some id)
    × (is_taken requests.requests id ≡ false)
unique_request_path_lem_example = unique_request_path_lem requests (codes "users") 3 (omega arith)
