-- ===== src/Engine/Prepare.antt =====
-- From a request's file to what is sent first: the body, the authentication and the headers,
-- crates/gabriel-engine/src/lib.rs.
pub mod Shown
use gabrielbrowser.Base.{
  ℕ, Bool, true, false, not, Option, none, some, List, [], ◌∷◌, ◌++◌, Str, codes, if◌then◌else◌,
  ◌≡◌, refl, sym, ap, ◌∙◌, arith, str_eq,
}
use gabrielbrowser.Base.Results.{Result, ok, err, and_then, and_then_assoc, and_then_same}
use gabrielbrowser.Base.Utf8.{from_utf8}
use gabrielbrowser.Model.{
  Auth, no_auth, inherit, session, bearer, basic, api_key, oauth2, header, query, RequestSpec,
}
use gabrielbrowser.Model.Fields.{FieldMap, iter_pairs, contains_key}
use gabrielbrowser.Session.Store.{SessionStore, cookie_header}
use gabrielbrowser.Vars.{World, resolve_map}
use gabrielbrowser.Engine.{EngineError, template, bad_url, UrlOps, SentRequest}
use gabrielbrowser.Engine.Body.{PreparedBody, RequestOps, build_body}
use gabrielbrowser.Engine.Clients.{ClientOps, Clients, client_for_mode, resolve_identity}
use gabrielbrowser.Engine.Token.{AuthState, Step, resolved, TokenWorld, oauth_token}

module _ {Url J : Type 0} (w : World) (ops : UrlOps Url) (io : RequestOps Url J) where
  abbrev pub Request : Type 0
  Request = Url × List (Str × Str)

  unfoldable pub apply_auth : TokenWorld → AuthState → Option Auth → Request → Step Request
  unfolding oauth_token
  apply_auth t s none request = (s, ok request)
  apply_auth t s (some no_auth) request = (s, ok request)
  apply_auth t s (some inherit) request = (s, ok request)
  apply_auth t s (some (session name)) request = (s, ok request)
  apply_auth t s (some (bearer token)) (url, headers) =
      and_then (resolved w s token)
        (λ s1 v. (s1, ok (url, headers ++ (codes "Authorization", codes "Bearer " ++ v) ∷ [])))
  apply_auth t s (some (basic username password)) (url, headers) =
      and_then (resolved w s username) (λ s1 u. and_then (resolved w s1 password) (λ s2 p. (
        s2,
        ok (
          url,
          headers
              ++ (codes "Authorization", codes "Basic " ++ t.b64_encode (u ++ (codes ":" ++ p)))
                ∷ [],
        ),
      )))
  apply_auth t s (some (api_key key value location)) (url, headers) =
      and_then (resolved w s key) (λ s1 k. and_then (resolved w s1 value) (λ s2 v. (
        s2,
        ok (elim location [
          | header ↦ (url, headers ++ (k, v) ∷ [])
          | query ↦ (io.append_pair url k v, headers)
        ]),
      )))
  apply_auth t s (some (oauth2 config)) (url, headers) =
      and_then (oauth_token w t s config) (λ s1 token.
        (s1, ok (url, headers ++ (codes "Authorization", codes "Bearer " ++ token) ∷ [])))

  -- The URL, the headers and the body before any authentication.
  abbrev pub Draft : Type 0
  Draft = Request × Option PreparedBody

  -- a resolution of a map, in the executor's state
  abbrev pub resolved_map : AuthState → FieldMap → Step FieldMap
  resolved_map s m =
      let (r, out) = resolve_map w s.resolver [] m in
      (record s { resolver = r }, elim out [ err e ↦ err (template e) | ok v ↦ ok v ])

  abbrev pub parsed_url : Str → Result EngineError Url
  parsed_url source = elim (io.parse_url source) [
    | err message ↦ err (bad_url source message)
    | ok url ↦ ok url
  ]

  abbrev pub append_pairs : Url → List (Str × Str) → Url
  append_pairs url [] = url
  append_pairs url ((key, value) ∷ pairs) = append_pairs (io.append_pair url key value) pairs

  -- the content type of the body, where the request gives none
  abbrev pub with_content_type : FieldMap → Option PreparedBody → List (Str × Str)
  with_content_type headers body = elim body [
    | none ↦ iter_pairs headers
    | some b ↦ elim b.content_type [
      | none ↦ iter_pairs headers
      | some ct ↦
          if not (contains_key (codes "content-type") headers)
          then iter_pairs headers ++ (codes "Content-Type", ct) ∷ []
          else iter_pairs headers
    ]
  ]

  -- What `execute` begins with.
  unfoldable pub draft : {V : Type 0} → AuthState → RequestSpec V → Step Draft
  unfolding build_body
  draft s spec = and_then (resolved w s spec.url) (λ s1 source.
      and_then (s1, parsed_url source)
        (λ s1 url. and_then (resolved_map s1 spec.query) (λ s2 pairs.
          let url' = append_pairs url (iter_pairs pairs) in
          and_then (resolved_map s2 spec.headers) (λ s3 headers.
            and_then (build_body w io s3 spec.body)
              (λ s4 body. (s4, ok ((url', with_content_type headers body), body)))))))

  -- the request that `execute` says was sent
  abbrev pub sent : {V : Type 0} → RequestSpec V → Draft → SentRequest
  sent spec d = record {
    method = spec.method;
    url = ops.to_string d.0.0;
    headers = d.0.1;
    body = elim d.1 [ none ↦ none | some b ↦ from_utf8 b.bytes ];
  }

  -- the session's cookies of `prepare`
  abbrev pub session_headers : ℕ → SessionStore → Str → Option Str → Request → List (Str × Str)
  session_headers now_ms sessions default_session name (url, headers) =
      elim (cookie_header now_ms sessions (elim name [ none ↦ default_session | some n ↦ n ])
        (elim (ops.host_str url) [ none ↦ [] | some h ↦ h ]) (ops.path url)
        (str_eq (ops.scheme url) (codes "https"))) [
          | none ↦ headers
          | some cookie ↦ headers ++ (codes "Cookie", cookie) ∷ []
        ]

  -- The text of `prepare` is its own, from the URL on.
  abbrev pub prepared_url : Str → Result EngineError Url
  prepared_url source = elim (io.parse_url source) [
    | err message ↦ err (bad_url source message)
    | ok url ↦ ok url
  ]

  abbrev pub prepared_query : Url → List (Str × Str) → Url
  prepared_query url [] = url
  prepared_query url ((key, value) ∷ pairs) = prepared_query (io.append_pair url key value) pairs

  abbrev pub prepared_headers : FieldMap → Option PreparedBody → List (Str × Str)
  prepared_headers headers body = elim body [
    | none ↦ iter_pairs headers
    | some b ↦ elim b.content_type [
      | none ↦ iter_pairs headers
      | some ct ↦
          if not (contains_key (codes "content-type") headers)
          then iter_pairs headers ++ (codes "Content-Type", ct) ∷ []
          else iter_pairs headers
    ]
  ]

  unfoldable pub prepared_draft : {V : Type 0} → AuthState → RequestSpec V → Step Draft
  unfolding build_body
  prepared_draft s spec = and_then (resolved w s spec.url) (λ s1 source.
      and_then (s1, prepared_url source)
        (λ s1 url. and_then (resolved_map s1 spec.query) (λ s2 pairs.
          let url' = prepared_query url (iter_pairs pairs) in
          and_then (resolved_map s2 spec.headers) (λ s3 headers.
            and_then (build_body w io s3 spec.body)
              (λ s4 body. (s4, ok ((url', prepared_headers headers body), body)))))))

  -- The authentication of `prepare`, and whether a token is pending.
  unfoldable pub prepare_auth :
      (b64_encode : Str → Str)
      → ℕ
      → SessionStore
      → Str
      → AuthState
      → Option Auth
      → Request
      → Step (Request × Bool)
  prepare_auth b64_encode now_ms sessions default_session s none request = (s, ok (request, false))
  prepare_auth b64_encode now_ms sessions default_session s (some no_auth) request =
      (s, ok (request, false))
  prepare_auth b64_encode now_ms sessions default_session s (some inherit) request =
      (s, ok (request, false))
  prepare_auth b64_encode now_ms sessions default_session s (some (session name)) request =
      (s, ok ((request.0, session_headers now_ms sessions default_session name request), false))
  prepare_auth b64_encode now_ms sessions default_session s (some (bearer token)) (url, headers) =
      and_then (resolved w s token) (λ s1 v.
        (s1, ok ((url, headers ++ (codes "Authorization", codes "Bearer " ++ v) ∷ []), false)))
  prepare_auth b64_encode now_ms sessions default_session s (some (basic username password))
        (url, headers) =
      and_then (resolved w s username) (λ s1 u. and_then (resolved w s1 password) (λ s2 p. (
        s2,
        ok (
          (
            url,
            headers
                ++ (codes "Authorization", codes "Basic " ++ b64_encode (u ++ (codes ":" ++ p)))
                  ∷ [],
          ),
          false,
        ),
      )))
  prepare_auth b64_encode now_ms sessions default_session s (some (api_key key value location))
        (url, headers) =
      and_then (resolved w s key) (λ s1 k. and_then (resolved w s1 value) (λ s2 v. (
        s2,
        ok (
          elim location [
            | header ↦ (url, headers ++ (k, v) ∷ [])
            | query ↦ (io.append_pair url k v, headers)
          ],
          false,
        ),
      )))
  prepare_auth b64_encode now_ms sessions default_session s (some (oauth2 config)) request =
      (s, ok (request, true))

  abbrev pub prepared : {V : Type 0} → RequestSpec V → Request → Option PreparedBody → SentRequest
  prepared spec request body = record {
    method = spec.method;
    url = ops.to_string request.0;
    headers = request.1;
    body = elim body [ none ↦ none | some b ↦ from_utf8 b.bytes ];
  }

  unfoldable pub prepare :
      {V : Type 0}
      → (b64_encode : Str → Str) → ℕ
      → SessionStore
      → Str
      → AuthState
      → RequestSpec V
      → Step (SentRequest × Bool)
  unfolding prepared_draft prepare_auth
  prepare b64_encode now_ms sessions default_session s spec =
      and_then (prepared_draft s spec) (λ s1 d.
        and_then (prepare_auth b64_encode now_ms sessions default_session s1 spec.auth d.0)
          (λ s2 p. (s2, ok (prepared spec p.0 d.1, p.1))))

  -- What `execute` needs besides the request: a client and a method. `parse_method` is that of the
  -- `http` crate, with the message of its error. The pool of clients is part of the state.
  module _ {P I C M : Type 0} (client_ops : ClientOps P I C)
      (parse_method : Str → Result Str M) where
    abbrev pub Executing : Type 0 → Type 0
    Executing A = (AuthState × Clients client_ops) × Result EngineError A

    abbrev pub with_clients : {A : Type 0} → Clients client_ops → Step A → Executing A
    with_clients clients (s, r) = ((s, clients), r)

    abbrev pub parsed_method : Str → Result EngineError M
    parsed_method method = elim (parse_method method) [
      | err message ↦ err (bad_url method message)
      | ok m ↦ ok m
    ]

    unfoldable pub set_up :
        {V : Type 0} → AuthState × Clients client_ops → RequestSpec V → Executing (C × M)
    unfolding resolve_identity client_for_mode
    set_up (s, clients) spec =
        and_then (with_clients clients (resolve_identity client_ops w s spec.settings))
          (λ (s1, kept) identity.
            let (kept', client) = client_for_mode client_ops kept spec.settings identity false in
            and_then ((s1, kept'), client)
              (λ s2 c. and_then (s2, parsed_method spec.method) (λ s3 m. (s3, ok (c, m)))))

    -- `execute`, up to the request as it is shown afterwards (`sent_url`, `sent_headers`), with the
    -- client and the method.
    unfoldable pub first_request :
        {V : Type 0}
        → TokenWorld
        → AuthState
        → Clients client_ops
        → RequestSpec V
        → Executing (Draft × (C × M))
    unfolding draft apply_auth set_up
    first_request t s clients spec = and_then (with_clients clients (draft s spec)) (λ (s1, kept) d.
        and_then (with_clients kept (apply_auth t s1 spec.auth d.0))
          (λ s2 request. and_then (set_up s2 spec) (λ s3 ready. (s3, ok ((request, d.1), ready)))))
