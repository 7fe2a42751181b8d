-- ===== src/Capture/Promote.antt =====
-- A captured request becomes a request to save, `Capture::promote` of
-- crates/gabriel-core/src/capture.rs.
pub mod Kept
use gabrielbrowser.Base.{
  ℕ, Bool, true, false, not, ◌&&◌, ◌||◌, Option, none, some, List, [], ◌∷◌, ◌++◌, Str, codes,
  str_eq, if◌then◌else◌, filter, ◌>>=◌, to_ascii_lowercase, strip_prefix,
}
use gabrielbrowser.Base.Text.{trim, is_empty, split, contains}
use gabrielbrowser.Base.Map
use gabrielbrowser.Base.Map.{Map}
use gabrielbrowser.Model.{
  RequestSpec, Auth, session, bearer, Body, json, text, form, new_spec, Origin,
}
use gabrielbrowser.Model.Fields
use gabrielbrowser.Model.Fields.{FieldMap, iter_pairs, get_first}
use gabrielbrowser.Capture.{Capture, CapturedBody, as_text}
use gabrielbrowser.Capture.Url.{
  split_query, split_origin, suggest_name, suggest_secret_name, percent_decode, key_value,
}

-- HOP_BY_HOP
abbrev pub hop_by_hop : List Str
hop_by_hop =
    codes "host"
    ∷ codes "content-length"
    ∷ codes "connection"
    ∷ codes "keep-alive"
    ∷ codes "proxy-authorization"
    ∷ codes "proxy-connection"
    ∷ codes "transfer-encoding"
    ∷ codes "te"
    ∷ codes "trailer"
    ∷ codes "upgrade"
    ∷ codes "accept-encoding"
    ∷ []

abbrev pub is_listed : List Str → Str → Bool
is_listed [] name = false
is_listed (n ∷ names) name = str_eq n name || is_listed names name

pub record PromoteOptions : Type 0 where
  pub inline_cookies : Bool
  pub inline_token : Bool
  pub base_url_var : Option Str

abbrev pub default_options : PromoteOptions
default_options = record {
  inline_cookies = false;
  inline_token = false;
  base_url_var = some (codes "base_url");
}

pub record Promotion (V : Type 0) : Type 0 where
  pub spec : RequestSpec V
  pub secrets : List (Str × Str)
  pub vars : List (Str × Str)
  pub session : Option Str

-- What the loop over the headers has built.
pub record Draft : Type 0 where
  pub headers : FieldMap
  pub auth : Option Auth
  pub secrets : List (Str × Str)

-- `{{secret:name}}`
abbrev pub secret_reference : Str → Str
secret_reference name = codes "{{secret:" ++ (name ++ codes "}}")

module _ (opts : PromoteOptions) (c : Capture) where
  -- the `authorization` header
  unfoldable pub authorization_step : Draft → Str → Str → Draft
  authorization_step d key value =
      let name = suggest_secret_name c.request.url in
      elim (strip_prefix value (codes "Bearer ")) [
        | some token ↦
            if opts.inline_token then record d { auth = some (bearer (trim token)) } else record d {
              secrets = d.secrets ++ (name, trim token) ∷ [];
              auth = some (bearer (secret_reference name));
            }
        | none ↦
            if opts.inline_token
            then record d { headers = Fields.insert key value d.headers }
            else record d {
              secrets = d.secrets ++ (name, value) ∷ [];
              headers = Fields.insert key (secret_reference name) d.headers;
            }
      ]

  -- one turn of the loop over the headers
  unfoldable pub header_step : Draft → Str × Str → Draft
  unfolding authorization_step
  header_step d (key, value) =
      let lowered = to_ascii_lowercase key in
      if is_listed hop_by_hop lowered
      then d
      else if str_eq lowered (codes "cookie") && not opts.inline_cookies
      then record d { auth = elim d.auth [ none ↦ some (session c.session) | some a ↦ some a ] }
      else if str_eq lowered (codes "authorization")
      then authorization_step d key value
      else record d { headers = Fields.insert key value d.headers }

  unfoldable pub header_steps : Draft → List (Str × Str) → Draft
  unfolding header_step
  header_steps d [] = d
  header_steps d (h ∷ hs) = header_steps (header_step d h) hs

abbrev pub form_fields : Map Str → List Str → Option (Map Str)
form_fields m [] = some m
form_fields m (pair ∷ pairs) = do
  k ← percent_decode (key_value pair).0
  v ← percent_decode (key_value pair).1
  form_fields (Map.insert k v m) pairs

unfoldable pub body_from_capture : CapturedBody → Str → Option Body
body_from_capture body content_type =
    let ct = to_ascii_lowercase content_type in
    elim (as_text body) [
      | none ↦ some (text [] (some content_type))
      | some t ↦
          if contains ct (codes "json")
          then some (json t)
          else if contains ct (codes "x-www-form-urlencoded")
          then (do
            m ← form_fields [] (filter (λ p. not (is_empty p)) (split b'&' t))
            some (form m))
          else if contains ct (codes "graphql")
          then some (json t)
          else some (text t (if not (is_empty ct) then some content_type else none))
    ]

abbrev pub promoted_body : Option CapturedBody → Str → Option (Option Body)
promoted_body none content_type = some none
promoted_body (some b) content_type = do body ← body_from_capture b content_type; some (some body)

-- the URL of the request, and the variables it uses
abbrev pub promoted_url : PromoteOptions → Str → Str × List (Str × Str)
promoted_url opts url = elim opts.base_url_var [
  | none ↦ (url, [])
  | some var ↦ elim (split_origin url) [
    | none ↦ (url, [])
    | some (origin, path) ↦ (codes "{{" ++ (var ++ (codes "}}" ++ path)), (var, origin) ∷ [])
  ]
]

-- `none` is a panic of `percent_decode`.
unfoldable pub promote :
    {V : Type 0}
    → (to_uppercase : Str → Str) → (now_ms : ℕ) → PromoteOptions
    → Capture
    → Option (Promotion V)
unfolding header_steps body_from_capture
promote to_uppercase now_ms opts c = do
  (base, query) ← split_query c.request.url
  body ←
      promoted_body c.request.body
        (elim (get_first (codes "content-type") c.request.headers) [ none ↦ [] | some ct ↦ ct ])
  some (
      let (url, vars) = promoted_url opts base in
      let d =
        header_steps opts c (record { headers = []; auth = none; secrets = [] })
          (iter_pairs c.request.headers) in
      record {
        spec = record (new_spec to_uppercase c.request.method url) {
          name = some (suggest_name to_uppercase c.request.method c.request.url);
          headers = d.headers;
          query = query;
          auth = d.auth;
          body = body;
          origin = some (record { capture = c.id; promoted_at = now_ms; page = c.page });
        };
        secrets = d.secrets;
        vars = vars;
        session = c.session;
      })
