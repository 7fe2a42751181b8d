-- ===== src/Engine/Prepare/Shown.antt =====
-- What `prepare` shows and what `execute` sends first, crates/gabriel-engine/src/lib.rs.
use gabrielbrowser.Base.{
  ℕ, Bool, true, false, Option, none, some, List, [], ◌∷◌, Str, ◌≡◌, refl, sym, ap, ◌∙◌, arith,
}
use gabrielbrowser.Base.Results.{Result, ok, err, and_then, and_then_assoc, and_then_same}
use gabrielbrowser.Model.{
  Auth, no_auth, inherit, session, bearer, basic, api_key, oauth2, RequestSpec,
}
use gabrielbrowser.Model.Fields.{iter_pairs}
use gabrielbrowser.Session.Store.{SessionStore}
use gabrielbrowser.Vars.{World}
use gabrielbrowser.Engine.{UrlOps, SentRequest}
use gabrielbrowser.Engine.Body.{RequestOps, build_body}
use gabrielbrowser.Engine.Clients.{ClientOps, Clients}
use gabrielbrowser.Engine.Token.{AuthState, Step, resolved, TokenWorld}
use gabrielbrowser.Engine.Prepare.{
  Request, apply_auth, Draft, resolved_map, parsed_url, append_pairs, draft, sent, prepared_query,
  prepared_draft, prepare_auth, prepared, prepare, Executing, with_clients, set_up, first_request,
  with_content_type,
}

-- Authentication that `prepare` can show in full: all but a session and OAuth.
abbrev pub is_shown : Option Auth → Bool
is_shown (some (session name)) = false
is_shown (some (oauth2 config)) = false
is_shown _ = true

module _ {Url J : Type 0} (w : World) (ops : UrlOps Url) (io : RequestOps Url J) where
  query_same :
      (url : Url) (pairs : List (Str × Str))
      → prepared_query w ops io url pairs ≡ append_pairs w ops io url pairs
  query_same url [] = refl
  query_same url ((key, value) ∷ pairs) = query_same (io.append_pair url key value) pairs

  draft_same :
      {V : Type 0} (s : AuthState) (spec : RequestSpec V)
      → prepared_draft w ops io s spec ≡ draft w ops io s spec
  unfolding prepared_draft draft
  draft_same s spec = and_then_same (resolved w s spec.url) _ _ (λ s1 source.
      and_then_same (s1, parsed_url w ops io source) _ _
        (λ s2 url. and_then_same (resolved_map w ops io s2 spec.query) _ _ (λ s3 pairs.
          ap
            (λ (url' : Url). and_then (resolved_map w ops io s3 spec.headers) (λ s4 headers.
              and_then (build_body w io s4 spec.body)
                (λ s5 body. (s5, ok ((url', with_content_type w ops io headers body), body)))))
            (query_same url (iter_pairs pairs)))))

  auth_same :
      (t : TokenWorld) (now_ms : ℕ) (sessions : SessionStore) (default_session : Str)
      (s : AuthState) (a : Option Auth) (request : Request w ops io)
      → is_shown a ≡ true
      → prepare_auth w ops io t.b64_encode now_ms sessions default_session s a request
        ≡ and_then (apply_auth w ops io t s a request) (λ s' r. (s', ok (r, false)))
  unfolding prepare_auth apply_auth
  auth_same t now_ms sessions default_session s none request h = refl
  auth_same t now_ms sessions default_session s (some no_auth) request h = refl
  auth_same t now_ms sessions default_session s (some inherit) request h = refl
  auth_same t now_ms sessions default_session s (some (session name)) request h = ground (arith, h)
  auth_same t now_ms sessions default_session s (some (bearer token)) (url, headers) h =
      sym (and_then_assoc (resolved w s token) _ _)
  auth_same t now_ms sessions default_session s (some (basic username password)) (url, headers) h =
      sym (
        and_then_assoc (resolved w s username) _ _
        ∙ and_then_same (resolved w s username) _ _
            (λ s1 u. and_then_assoc (resolved w s1 password) _ _))
  auth_same t now_ms sessions default_session s (some (api_key key value location)) (url, headers)
        h =
      sym (
        and_then_assoc (resolved w s key) _ _
        ∙ and_then_same (resolved w s key) _ _ (λ s1 k. and_then_assoc (resolved w s1 value) _ _))
  auth_same t now_ms sessions default_session s (some (oauth2 config)) request h = ground (arith, h)

  -- Nothing is pending after the authentication of `execute`.
  nothing_pending :
      {V : Type 0} (t : TokenWorld) (spec : RequestSpec V) (f : Step (Draft w ops io))
      (s' : AuthState) (shown : SentRequest) (pending : Bool)
      → and_then f (λ s1 d.
        and_then {B = SentRequest × Bool}
          (apply_auth w ops io t s1 spec.auth d.0)
          (λ s2 r. (s2, ok (sent w ops io spec (r, d.1), false))))
        ≡ (s', ok (shown, pending))
      → pending ≡ false
  nothing_pending t spec (s, err e) s' shown pending h = cc
  nothing_pending t spec (s, ok d) s' shown pending h =
      by_auth (apply_auth w ops io t s spec.auth d.0) h
    where
      by_auth :
          (g : Step (Request w ops io))
          → and_then {B = SentRequest × Bool} g
              (λ s2 r. (s2, ok (sent w ops io spec (r, d.1), false)))
            ≡ (s', ok (shown, pending))
          → pending ≡ false
      by_auth (s2, err e) h = cc
      by_auth (s2, ok r) h = cc

  -- `prepare`, in the terms of `execute`.
  prepare-applied :
      {V : Type 0} (t : TokenWorld) (now_ms : ℕ) (sessions : SessionStore) (default_session : Str)
      (s : AuthState) (spec : RequestSpec V)
      → is_shown spec.auth ≡ true
      → prepare w ops io t.b64_encode now_ms sessions default_session s spec
        ≡ and_then (draft w ops io s spec) (λ s1 d.
          and_then
            (apply_auth w ops io t s1 spec.auth d.0)
            (λ s2 r. (s2, ok (sent w ops io spec (r, d.1), false))))
  unfolding prepare
  prepare-applied t now_ms sessions default_session s spec h =
      ap
        (λ (f : Step (Draft w ops io)). and_then f (λ s1 d.
          and_then
            (prepare_auth w ops io t.b64_encode now_ms sessions default_session s1 spec.auth d.0)
            (λ s2 p. (s2, ok (prepared w ops io spec p.0 d.1, p.1)))))
        (draft_same s spec)
      ∙ and_then_same (draft w ops io s spec) _ _ (λ s1 d.
        ap
          (λ (f : Step (Request w ops io × Bool)).
            and_then f (λ s2 p. (s2, ok (prepared w ops io spec p.0 d.1, p.1))))
          (auth_same t now_ms sessions default_session s1 spec.auth d.0 h)
        ∙ and_then_assoc (apply_auth w ops io t s1 spec.auth d.0) _ _)

  module _ {P I C M : Type 0} (client_ops : ClientOps P I C)
      (parse_method : Str → Result Str M) where
    -- A request that is shown, and then what executing it needs.
    abbrev pub with_set_up :
        {V : Type 0}
        → RequestSpec V
        → Executing w ops io client_ops parse_method (SentRequest × Bool)
        → Executing w ops io client_ops parse_method (SentRequest × (C × M))
    with_set_up spec f = and_then f (λ s1 p.
        and_then (set_up w ops io client_ops parse_method s1 spec)
          (λ s2 ready. (s2, ok (p.0, ready))))

    -- `execute`, with the request as it says afterwards that it was sent.
    abbrev pub executed :
        {V : Type 0}
        → RequestSpec V
        → Executing w ops io client_ops parse_method (Draft w ops io × (C × M))
        → Executing w ops io client_ops parse_method (SentRequest × (C × M))
    executed spec f = and_then f (λ s1 r. (s1, ok (sent w ops io spec r.0, r.1)))

    after_draft :
        {V : Type 0} (t : TokenWorld) (clients : Clients client_ops) (spec : RequestSpec V)
        (f : Step (Draft w ops io))
        → executed spec (
            and_then (with_clients w ops io client_ops parse_method clients f) (λ s1 d.
              and_then
                (with_clients w ops io client_ops parse_method s1.1
                  (apply_auth w ops io t s1.0 spec.auth d.0))
                (λ s2 request.
                  and_then
                    (set_up w ops io client_ops parse_method s2 spec)
                    (λ s3 ready. (s3, ok ((request, d.1), ready))))))
          ≡ with_set_up spec (
              with_clients w ops io client_ops parse_method clients (
                and_then f (λ s1 d.
                  and_then
                    (apply_auth w ops io t s1 spec.auth d.0)
                    (λ s2 r. (s2, ok (sent w ops io spec (r, d.1), false))))))
    after_draft t clients spec (s1, err e) = refl
    after_draft t clients spec (s1, ok d) = by_auth (apply_auth w ops io t s1 spec.auth d.0)
      where
        by_auth :
            (g : Step (Request w ops io))
            → executed spec (
                and_then (with_clients w ops io client_ops parse_method clients g) (λ s2 request.
                  and_then
                    (set_up w ops io client_ops parse_method s2 spec)
                    (λ s3 ready. (s3, ok ((request, d.1), ready)))))
              ≡ with_set_up spec (
                  with_clients w ops io client_ops parse_method clients
                    (and_then g (λ s2 r. (s2, ok (sent w ops io spec (r, d.1), false)))))
        by_auth (s2, err e) = refl
        by_auth (s2, ok request) =
            and_then_assoc (set_up w ops io client_ops parse_method (s2, clients) spec) _ _

    -- For authentication that is neither a session's cookies nor OAuth, what `prepare` shows is what
    -- `execute` sends first, with nothing pending: executing fails where preparing fails, with the
    -- same error; and else it fails only in loading the certificate, in getting a client or in
    -- reading the method, or says afterwards that the request it sent first is the one shown.
    pub first_request-prepare :
        {V : Type 0} (t : TokenWorld) (now_ms : ℕ) (sessions : SessionStore) (default_session : Str)
        (s : AuthState) (clients : Clients client_ops) (spec : RequestSpec V)
        → is_shown spec.auth ≡ true
        → let preparing = prepare w ops io t.b64_encode now_ms sessions default_session s spec in
          (executed spec (first_request w ops io client_ops parse_method t s clients spec)
            ≡ with_set_up spec (with_clients w ops io client_ops parse_method clients preparing))
          × ((s' : AuthState) (shown : SentRequest) (pending : Bool)
              → preparing ≡ (s', ok (shown, pending))
              → pending ≡ false)
    unfolding first_request
    first_request-prepare t now_ms sessions default_session s clients spec h =
        let applied = prepare-applied t now_ms sessions default_session s spec h in
        (
          after_draft t clients spec (draft w ops io s spec)
              ∙ ap
                  (λ (f : Step (SentRequest × Bool)).
                    with_set_up spec (with_clients w ops io client_ops parse_method clients f))
                  (sym applied),
          λ s' shown pending e.
              nothing_pending t spec (draft w ops io s spec) s' shown pending (sym applied ∙ e),
        )
