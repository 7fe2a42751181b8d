-- ===== src/Json/Diff/Responses.antt =====
-- Differences between two responses, crates/gabriel-core/src/diff.rs.
use gabrielbrowser.Base.{
  ℕ, Bool, true, false, not, ◌&&◌, Option, none, some, List, [], ◌∷◌, ◌++◌, Str, codes, str_eq,
  if◌then◌else◌, ◌==◌, length, to_ascii_lowercase,
}
use gabrielbrowser.Base.Text.{is_empty}
use gabrielbrowser.Base.Decimal.{decimal}
use gabrielbrowser.Base.Map.{str_lt}
use gabrielbrowser.Base.Sort.{stable_sort}
use gabrielbrowser.Model.Fields.{FieldMap, iter_pairs, get_first, contains_key}
use gabrielbrowser.Json.{Json, JsonOps}
use gabrielbrowser.Json.Diff.{Change, ChangeKind, added, removed, changed, diff_json}
use gabrielbrowser.Json.Response.{ExecutedResponse, json}

-- VOLATILE_HEADERS
abbrev pub volatile_headers : List Str
volatile_headers =
    codes "date"
    ∷ codes "age"
    ∷ codes "expires"
    ∷ codes "set-cookie"
    ∷ codes "content-length"
    ∷ codes "etag"
    ∷ codes "last-modified"
    ∷ codes "x-request-id"
    ∷ codes "x-correlation-id"
    ∷ codes "x-amzn-requestid"
    ∷ codes "cf-ray"
    ∷ codes "server-timing"
    ∷ codes "report-to"
    ∷ codes "keep-alive"
    ∷ []

abbrev pub is_listed : List Str → Str → Bool
is_listed [] name = false
is_listed (n ∷ names) name = let rest = is_listed names name in if str_eq n name then true else rest

abbrev pub interesting : Str → Bool
interesting key = not (is_listed volatile_headers (to_ascii_lowercase key))

-- the first loop: the headers of the earlier response
abbrev pub header_change : Str → Str → Option Str → List Change
header_change key value none = record { path = key; kind = removed value } ∷ []
header_change key value (some other) =
    if str_eq other value then [] else record { path = key; kind = changed value other } ∷ []

unfoldable pub changed_headers : List (Str × Str) → FieldMap → List Change
unfolding get_first
changed_headers [] after = []
changed_headers ((key, value) ∷ pairs) after =
    let rest = changed_headers pairs after in
    if interesting key then header_change key value (get_first key after) ++ rest else rest

-- the second loop
unfoldable pub added_headers : FieldMap → List (Str × Str) → List Change
unfolding contains_key
added_headers before [] = []
added_headers before ((key, value) ∷ pairs) =
    let rest = added_headers before pairs in
    if interesting key && not (contains_key key before)
    then record { path = key; kind = added value } ∷ rest
    else rest

abbrev pub kind_eq : ChangeKind → ChangeKind → Bool
kind_eq (added a) (added b) = str_eq a b
kind_eq (removed a) (removed b) = str_eq a b
kind_eq (changed a b) (changed c d) = str_eq a c && str_eq b d
kind_eq _ _ = false

abbrev pub change_eq : Change → Change → Bool
change_eq a b = str_eq (a.path) (b.path) && kind_eq (a.kind) (b.kind)

-- `Vec::dedup`: the first of each run of equal changes
unfoldable pub dedup : List Change → List Change
dedup [] = []
dedup (a ∷ []) = a ∷ []
dedup (a ∷ b ∷ cs) =
    let rest = dedup (b ∷ cs) in if change_eq a b then drop_second a rest else a ∷ rest
  where
    drop_second : Change → List Change → List Change
    drop_second a [] = a ∷ []
    drop_second a (b ∷ rest) = a ∷ rest

abbrev pub path_before : Change → Change → Bool
path_before y x = str_lt (y.path) (x.path)

unfoldable pub diff_headers : FieldMap → FieldMap → List Change
unfolding changed_headers added_headers dedup iter_pairs
diff_headers before after = dedup (
    stable_sort path_before
      (changed_headers (iter_pairs before) after ++ added_headers before (iter_pairs after)))

pub record ResponseDiff : Type 0 where
  pub status : Option (ℕ × ℕ)
  pub headers : List Change
  pub body : List Change
  pub body_is_opaque : Bool
  pub duration_ms : ℕ × ℕ

-- `ResponseDiff::is_empty`
unfoldable pub is_empty_diff : ResponseDiff → Bool
is_empty_diff diff = no_status (diff.status) && (is_empty (diff.headers) && is_empty (diff.body))
  where
    no_status : Option (ℕ × ℕ) → Bool
    no_status none = true
    no_status (some p) = false

-- `format!("{} bytes", n)`
abbrev pub bytes_text : Str → Str
bytes_text body = decimal (length body) ++ codes " bytes"

abbrev pub opaque_body : Str → Str → List Change
opaque_body before after =
    if str_eq before after
    then []
    else record { path = codes "body"; kind = changed (bytes_text before) (bytes_text after) } ∷ []

module _ {N F : Type 0} (ops : JsonOps N F) where
  -- the body's changes, and whether a body is opaque
  abbrev pub body_diff : Option (Json N) → Option (Json N) → Str → Str → List Change × Bool
  body_diff (some a) (some b) before after = (diff_json ops a b, false)
  body_diff _ _ before after = (opaque_body before after, true)

  unfoldable pub diff_responses : ExecutedResponse → ExecutedResponse → ResponseDiff
  unfolding diff_headers diff_json json
  diff_responses before after =
      let bodies = body_diff (json ops before) (json ops after) (before.body) (after.body) in
      record {
        status = if before.status == after.status then none else some (before.status, after.status);
        headers = diff_headers (before.headers) (after.headers);
        body = bodies.0;
        body_is_opaque = bodies.1;
        duration_ms = (before.timings.total_ms, after.timings.total_ms);
      }
