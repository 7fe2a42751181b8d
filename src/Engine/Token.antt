-- ===== src/Engine/Token.antt =====
-- OAuth tokens and their cache, `Executor::oauth_token` of crates/gabriel-engine/src/lib.rs.
pub mod Cache
mod Tests
use gabrielbrowser.Base.{
  ℕ, ◌+◌, ◌*◌, ◌%◌, ◌^◌, zero, suc, not, ◌&&◌, leb, Bool, true, false, Option, none, some, List, [],
  ◌∷◌, ◌++◌, Str, codes, if◌then◌else◌, ltb,
}
use gabrielbrowser.Base.Map
use gabrielbrowser.Base.Map.{Map}
use gabrielbrowser.Base.Results.{Result, ok, err, and_then}
use gabrielbrowser.Model.{OAuth2, OAuth2Grant, client_credentials, password, authorization_code}
use gabrielbrowser.Vars.{World, Resolver, Error, resolve}
use gabrielbrowser.Engine.{EngineError, template, auth}

pub record CachedToken : Type 0 where
  pub token : Str
  pub expires_at_ms : ℕ

-- What is asked of the token endpoint.
pub record TokenRequest : Type 0 where
  pub token_url : Str
  pub authorization : Option Str
  pub form : List (Str × Str)

-- The endpoint's answer: its status as a number and as it is printed, and its text if that could be
-- read.
pub record TokenResponse : Type 0 where
  pub status : ℕ
  pub status_line : Str
  pub text : Option Str

-- What a JSON text has at `access_token`, as a string, and at `expires_in`, as a number.
pub record TokenPayload : Type 0 where
  pub access_token : Option Str
  pub expires_in : Option ℕ

-- The resolver and the token cache of the executor.
pub record AuthState : Type 0 where
  pub resolver : Resolver
  pub oauth_tokens : Map CachedToken

abbrev pub Step : Type 0 → Type 0
Step A = AuthState × Result EngineError A

-- a resolution, in the executor's state
abbrev pub resolved : World → AuthState → Str → Step Str
resolved w s text =
    let (r, out) = resolve w s.resolver text in
    (record s { resolver = r }, elim out [ err e ↦ err (template e) | ok v ↦ ok v ])

abbrev pub resolved_option : World → AuthState → Option Str → Step (Option Str)
resolved_option w s none = (s, ok none)
resolved_option w s (some text) = and_then (resolved w s text) (λ s' v. (s', ok (some v)))

abbrev pub or_empty : Option Str → Str
or_empty none = []
or_empty (some s) = s

abbrev pub cache_key : Str → Str → Option Str → Str
cache_key token_url client_id scope =
    token_url ++ (codes "|" ++ (client_id ++ (codes "|" ++ or_empty scope)))

-- the cached token, if it is good for 30 seconds more
unfoldable pub cached_token : Map CachedToken → Str → ℕ → Option Str
cached_token tokens key now_ms = elim (Map.lookup key tokens) [
  | none ↦ none
  | some cached ↦ if ltb (now_ms + 30000) cached.expires_at_ms then some cached.token else none
]

unfoldable pub grant_name : OAuth2Grant → Result EngineError Str
grant_name client_credentials = ok (codes "client_credentials")
grant_name password = ok (codes "password")
grant_name authorization_code = err (
    auth (
      codes "this request uses the authorization-code grant "
      ++ ((0xe2 ∷ 0x80 ∷ 0x94 ∷ [])
          ++ codes " run `gabriel auth login` first, which stores the token in the vault")))

abbrev pub field : Str → Option Str → List (Str × Str)
field name none = []
field name (some v) = (name, v) ∷ []

-- The clock, base64, the token endpoint and the reading of its JSON.
pub record TokenWorld : Type 0 where
  pub now_ms : ℕ
  pub b64_encode : Str → Str
  pub send : TokenRequest → Result Str TokenResponse
  pub read_json : Str → Result Str TokenPayload

-- `chars().take(n)`: a byte that does not start a character goes with the one before it
abbrev pub take_chars : ℕ → Str → Str
take_chars n [] = []
take_chars zero (c ∷ s) = if leb 0x80 c && leb c 0xbf then c ∷ take_chars zero s else []
take_chars (suc n) (c ∷ s) =
    if leb 0x80 c && leb c 0xbf then c ∷ take_chars (suc n) s else c ∷ take_chars n s

-- The token and its lifetime in seconds, from an answer.
unfoldable pub read_token : TokenWorld → Str → TokenResponse → Result EngineError (Str × ℕ)
read_token t token_url response =
    if not (leb 200 response.status && leb response.status 299)
    then err (
        auth (
          codes "token endpoint "
          ++ (token_url
              ++ (codes " returned "
                  ++ (response.status_line
                      ++ (codes ": " ++ take_chars 300 (or_empty response.text)))))))
    else elim (t.read_json (or_empty response.text)) [
      | err e ↦ err (auth (codes "token response was not JSON: " ++ e))
      | ok payload ↦ elim payload.access_token [
        | none ↦ err (auth (codes "token response has no access_token"))
        | some token ↦ ok (token, elim payload.expires_in [ none ↦ 3600 | some n ↦ n ])
      ]
    ]

module _ (w : World) (t : TokenWorld) where
  abbrev pub token_request :
      OAuth2 → Str → Str → Str → Option Str → Option Str → Option Str → TokenRequest
  token_request config token_url client_id grant client_secret scope audience =
      let form =
        (codes "grant_type", grant)
        ∷ (field (codes "scope") scope ++ field (codes "audience") audience) in
      if config.credentials_in_body
      then record {
        token_url = token_url;
        authorization = none;
        form =
            form ++ ((codes "client_id", client_id) ∷ field (codes "client_secret") client_secret);
      }
      else record {
        token_url = token_url;
        authorization =
            some
              (codes "Basic " ++ t.b64_encode (client_id ++ (codes ":" ++ or_empty client_secret)));
        form = form;
      }

  -- keeping a token; the instant of its expiry is a `u64`
  abbrev pub keep_token : AuthState → Str → Str → ℕ → AuthState
  keep_token s key token expires_in = record s {
    oauth_tokens =
        Map.insert key
          (record { token = token; expires_at_ms = (t.now_ms + expires_in * 1000) % 2 ^ 64 })
          s.oauth_tokens;
  }

  -- the request to the endpoint, and the token that is kept
  unfoldable pub fetch_token : AuthState → Str → TokenRequest → Step Str
  unfolding read_token
  fetch_token s key request = elim (t.send request) [
    | err message ↦ (
      s,
      err (
          auth
            (codes "token request to " ++ (request.token_url ++ (codes " failed: " ++ message)))),
    )
    | ok response ↦ elim (read_token t request.token_url response) [
      | err e ↦ (s, err e)
      | ok (token, expires_in) ↦ (keep_token s key token expires_in, ok token)
    ]
  ]

  unfoldable pub oauth_token : AuthState → OAuth2 → Step Str
  unfolding cached_token grant_name fetch_token
  oauth_token s config = and_then (resolved w s config.token_url) (λ s1 token_url.
      and_then (resolved w s1 config.client_id) (λ s2 client_id.
        and_then (resolved_option w s2 config.scope) (λ s3 scope.
          let key = cache_key token_url client_id scope in
          elim (cached_token s3.oauth_tokens key t.now_ms) [
            | some token ↦ (s3, ok token)
            | none ↦ and_then (resolved_option w s3 config.client_secret) (λ s4 client_secret.
                elim (grant_name config.grant) [
                  | err e ↦ (s4, err e)
                  | ok grant ↦ and_then (resolved_option w s4 config.audience) (λ s5 audience.
                      fetch_token s5 key (
                        token_request config token_url client_id grant client_secret scope
                          audience))
                ])
          ])))
