-- ===== src/Engine/Body.antt =====
-- The body of a request, `Executor::build_body` of crates/gabriel-engine/src/lib.rs.
use gabrielbrowser.Base.{not, Option, none, some, [], ◌∷◌, ◌++◌, Str, codes, if◌then◌else◌}
use gabrielbrowser.Base.Map.{Map}
use gabrielbrowser.Base.Text.{is_empty}
use gabrielbrowser.Base.Results.{Result, ok, err, and_then}
use gabrielbrowser.Model.{Body, no_body, json, text, form, graphql, file}
use gabrielbrowser.Vars.{World, invalid}
use gabrielbrowser.Engine.{template, body_file}
use gabrielbrowser.Engine.Form.{urlencode}
use gabrielbrowser.Engine.Token.{AuthState, Step, resolved, resolved_option}

pub record PreparedBody : Type 0 where
  pub bytes : Str
  pub content_type : Option Str

-- JSON of the `serde_json` crate, the file system, and the parsing and extending of URLs.
pub record RequestOps (Url J : Type 0) : Type 0 where
  pub parse_url : Str → Result Str Url
  pub append_pair : Url → Str → Str → Url
  pub parse_json : Str → Result Str J
  pub graphql_bytes : (query : Str) (variables : Option J) (operation_name : Option Str) → Str
  pub read_file : Str → Option Str

module _ {Url J : Type 0} (w : World) (io : RequestOps Url J) where
  -- the loop over the fields of a form
  unfoldable pub form_bytes : AuthState → Str → Map Str → Step Str
  unfolding urlencode
  form_bytes s encoded [] = (s, ok encoded)
  form_bytes s encoded ((key, value) ∷ fields) = and_then (resolved w s key) (λ s1 k.
      and_then (resolved w s1 value) (λ s2 v.
        form_bytes s2
          ((if not (is_empty encoded) then encoded ++ codes "&" else encoded)
            ++ (urlencode k ++ (codes "=" ++ urlencode v)))
          fields))

  -- the variables of a GraphQL body, parsed
  abbrev pub graphql_variables : AuthState → Option Str → Step (Option J)
  graphql_variables s none = (s, ok none)
  graphql_variables s (some vars) = and_then (resolved w s vars) (λ s1 v. (
    s1,
    elim (io.parse_json v) [
      | err message ↦ err (template (invalid (codes "graphql variables: " ++ message)))
      | ok j ↦ ok (some j)
    ],
  ))

  abbrev pub body_of : Str → Str → PreparedBody
  body_of bs content_type = record { bytes = bs; content_type = some content_type }

  unfoldable pub build_body : AuthState → Option Body → Step (Option PreparedBody)
  unfolding form_bytes
  build_body s none = (s, ok none)
  build_body s (some no_body) = (s, ok none)
  build_body s (some (json content)) =
      and_then (resolved w s content)
        (λ s1 v. (s1, ok (some (body_of v (codes "application/json")))))
  build_body s (some (text content content_type)) = and_then (resolved w s content) (λ s1 v.
      (s1, ok (some (body_of v (elim content_type [ none ↦ codes "text/plain" | some ct ↦ ct ])))))
  build_body s (some (form fields)) =
      and_then (form_bytes s [] fields)
        (λ s1 v. (s1, ok (some (body_of v (codes "application/x-www-form-urlencoded")))))
  build_body s (some (graphql source vars operation_name)) = and_then (resolved w s source) (λ s1 q.
      and_then (graphql_variables s1 vars) (λ s2 v.
        and_then (resolved_option w s2 operation_name) (λ s3 name.
          (s3, ok (some (body_of (io.graphql_bytes q v name) (codes "application/json")))))))
  build_body s (some (file path content_type)) = and_then (resolved w s path) (λ s1 p. (
    s1,
    elim (io.read_file p) [
      | none ↦ err (body_file p)
      | some bs ↦ ok (
          some (
            body_of bs
              (elim content_type [ none ↦ codes "application/octet-stream" | some ct ↦ ct ])))
    ],
  ))
