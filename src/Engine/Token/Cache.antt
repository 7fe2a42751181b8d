-- ===== src/Engine/Token/Cache.antt =====
-- When a token is asked for again, crates/gabriel-engine/src/lib.rs.
use gabrielbrowser.Base.{
  ℕ, ◌+◌, ◌*◌, ◌%◌, ◌^◌, ◌<◌, Option, none, some, Str, str_eq, if◌then◌else◌, ltb, ◌≡◌, refl, ap,
  ◌∙◌, arith, Bool-cases, inl, inr, codes, ◌++◌,
}
use gabrielbrowser.Base.Map.{lookup-insert}
use gabrielbrowser.Base.Results.{Result, ok, err}
use gabrielbrowser.Engine.Token.{
  TokenWorld, TokenRequest, TokenResponse, AuthState, CachedToken, fetch_token, read_token,
  cached_token, keep_token, Step,
}
use gabrielbrowser.Engine.{EngineError, auth}
use gabrielbrowser.Vars.{World}

abbrev good_for : ℕ → Option CachedToken → Option Str
good_for now_ms o = elim o [
  | none ↦ none
  | some cached ↦ if ltb (now_ms + 30000) cached.expires_at_ms then some cached.token else none
]

fetched :
    (w : World) (t : TokenWorld) (s : AuthState) (key : Str) (request : TokenRequest)
    (response : TokenResponse) (token : Str) (expires_in : ℕ)
    → t.send request ≡ ok response
    → read_token t request.token_url response ≡ ok (token, expires_in)
    → fetch_token w t s key request ≡ (keep_token w t s key token expires_in, ok token)
unfolding fetch_token
fetched w t s key request response token expires_in sent given =
    ap answered sent ∙ ap finished given
  where
    finished : Result EngineError (Str × ℕ) → Step Str
    finished o = elim o [
      | err e ↦ (s, err e)
      | ok (token', n) ↦ (keep_token w t s key token' n, ok token')
    ]

    answered : Result Str TokenResponse → Step Str
    answered o = elim o [
      | err message ↦ (
        s,
        err (
            auth
              (codes "token request to " ++ (request.token_url ++ (codes " failed: " ++ message)))),
      )
      | ok response' ↦ finished (read_token t request.token_url response')
    ]

-- A fetched token is used again, without asking, exactly until 30 seconds before it expires, and
-- other cached tokens are as they were; its expiry must fit in 64 bits.
pub cached_token-fetch_token :
    (w : World) (t : TokenWorld) (s : AuthState) (key : Str) (request : TokenRequest)
    (response : TokenResponse) (token : Str) (expires_in : ℕ) (other : Str) (now_ms : ℕ)
    → t.send request ≡ ok response
    → read_token t request.token_url response ≡ ok (token, expires_in)
    → t.now_ms + expires_in * 1000 < 2 ^ 64
    → cached_token (fetch_token w t s key request).0.oauth_tokens other now_ms ≡ (
        if str_eq key other
        then (if ltb (now_ms + 30000) (t.now_ms + expires_in * 1000) then some token else none)
        else cached_token s.oauth_tokens other now_ms)
unfolding cached_token
cached_token-fetch_token w t s key request response token expires_in other now_ms sent given fits =
    let kept : CachedToken = record {
      token = token;
      expires_at_ms = (t.now_ms + expires_in * 1000) % 2 ^ 64;
    } in
    let exact : (t.now_ms + expires_in * 1000) % 2 ^ 64 ≡ t.now_ms + expires_in * 1000 =
      omega (arith, fits) in
    ap (λ (r : Step Str). cached_token r.0.oauth_tokens other now_ms)
      (fetched w t s key request response token expires_in sent given)
    ∙ ap (good_for now_ms) (lookup-insert key other kept s.oauth_tokens)
    ∙ (elim (Bool-cases (str_eq key other)) [
      | inl e ↦ rw e (ap (λ (n : ℕ). if ltb (now_ms + 30000) n then some token else none) exact)
      | inr e ↦ rw e refl
    ])
