-- ===== src/Engine/Clients/Pool.antt =====
-- A client that is kept is the one that would be built, crates/gabriel-engine/src/lib.rs.
use gabrielbrowser.Base.{
  ℕ, Bool, not, Option, none, some, [], ◌∷◌, Str, if◌then◌else◌, ◌≡◌, refl, sym, ap, ◌∙◌, subst,
  All, arith, inl, inr, Bool-cases, match_option,
}
use gabrielbrowser.Base.Results.{Result, ok, err, match_result}
use gabrielbrowser.Model.{Settings}
use gabrielbrowser.Engine.{EngineError, client, client_cert}
use gabrielbrowser.Engine.Clients.{
  ClientKey, IdentityMaterial, ClientOps, key_eq, Clients, pooled, fingerprint_of, client_key,
  parsed_proxy, reference_of, parsed_identity, built, client_for_mode,
}
use gabrielbrowser.Engine.Clients.Keys.{key_eq_sound}

module _ {P I C : Type 0} (ops : ClientOps P I C) (Known : Str → Type 0) where
  -- The identities of known certificates, each with its own fingerprint.
  abbrev pub IsMaterial : Option IdentityMaterial → Type 0
  IsMaterial none = Unit
  IsMaterial (some i) = (i.fingerprint ≡ ops.hash i.pem) × Known i.pem

  -- Every client was built for its key.
  abbrev pub IsBuilt : ClientKey × C → Type 0
  IsBuilt (key, c) =
      (settings : Settings) × (identity : Option IdentityMaterial) × (streaming : Bool) × (key
        ≡ client_key ops settings identity streaming)
      × IsMaterial identity
      × (built ops settings identity streaming ≡ ok c)

  pooled-IsBuilt :
      (key : ClientKey) (clients : Clients ops) (c : C)
      → All IsBuilt clients
      → pooled ops key clients ≡ some c
      → IsBuilt (key, c)
  unfolding pooled
  pooled-IsBuilt key [] c hs e = cc
  pooled-IsBuilt key ((k, d) ∷ clients) c (h, hs) e = elim (Bool-cases (key_eq k key)) [
    | inl same ↦
        let found : d ≡ c = ground arith in
        subst (λ x. IsBuilt (key, x)) found
          (subst (λ x. IsBuilt (x, d)) (key_eq_sound k key same) h)
    | inr other ↦ pooled-IsBuilt key clients c hs (ground arith)
  ]

  abbrev pem_of : Option IdentityMaterial → Option Str
  pem_of none = none
  pem_of (some i) = some i.pem

  -- Certificates with one fingerprint are one certificate.
  same_pem :
      (i j : Option IdentityMaterial)
      → ((a b : Str) → Known a → Known b → ops.hash a ≡ ops.hash b → a ≡ b)
      → IsMaterial i
      → IsMaterial j
      → fingerprint_of ops i ≡ fingerprint_of ops j
      → pem_of i ≡ pem_of j
  same_pem none none distinct h k e = refl
  same_pem none (some j) distinct h k e = cc
  same_pem (some i) none distinct h k e = cc
  same_pem (some i) (some j) distinct (h, hk) (k, kk) e =
      let fingerprint : i.fingerprint ≡ j.fingerprint = cc in
      ap (λ x. some x) (distinct i.pem j.pem hk kk (sym h ∙ (fingerprint ∙ k)))

  -- The certificate of a client, with the reference that an error names.
  abbrev identity_from : Str → Option Str → Result EngineError (Option I)
  identity_from reference none = ok none
  identity_from reference (some pem) = elim (ops.parse_pem pem) [
    | err message ↦ err (client_cert reference message)
    | ok i ↦ ok (some i)
  ]

  parsed_identity-from :
      (settings : Settings) (identity : Option IdentityMaterial)
      → parsed_identity ops settings identity
        ≡ identity_from (reference_of ops settings.client_cert) (pem_of identity)
  parsed_identity-from settings none = refl
  parsed_identity-from settings (some i) = refl

  identity_from-ok :
      (r t : Str) (pem : Option Str) (i : Option I)
      → identity_from r pem ≡ ok i
      → identity_from t pem ≡ ok i
  identity_from-ok r t none i h = h
  identity_from-ok r t (some pem) i h = by_pem (ops.parse_pem pem) h
    where
      by_pem :
          (o : Result Str I)
          → (elim o [ err message ↦ err (client_cert r message) | ok x ↦ ok (some x) ]) ≡ ok i
          → (elim o [ err message ↦ err (client_cert t message) | ok x ↦ ok (some x) ]) ≡ ok i
      by_pem (err message) h = cc
      by_pem (ok x) h = h

  -- What a client is built of, once its certificate is read.
  abbrev built_with :
      ℕ
      → Bool
      → Bool
      → Result EngineError (Option P)
      → Result EngineError (Option I)
      → Result EngineError C
  built_with timeout verify streaming proxy identity = elim proxy [
    | err e ↦ err e
    | ok p ↦ elim identity [
      | err e ↦ err e
      | ok i ↦
          elim (ops.build (record {
            connect_timeout = if streaming then some timeout else none;
            timeout = if streaming then none else some timeout;
            accept_invalid_certs = not verify;
            proxy = p;
            identity = i;
          })) [ err message ↦ err (client message) | ok c ↦ ok c ]
    ]
  ]

  built-with :
      (settings : Settings) (identity : Option IdentityMaterial) (streaming : Bool)
      → built ops settings identity streaming
        ≡ built_with settings.timeout_ms settings.verify_tls streaming
            (parsed_proxy ops settings.proxy)
            (identity_from (reference_of ops settings.client_cert) (pem_of identity))
  unfolding built
  built-with settings identity streaming =
      ap
        (built_with settings.timeout_ms settings.verify_tls streaming
          (parsed_proxy ops settings.proxy))
        (parsed_identity-from settings identity)

  -- A client that was built does not depend on the reference of its certificate.
  other_reference :
      (timeout : ℕ) (verify streaming : Bool) (proxy : Result EngineError (Option P)) (r t : Str)
      (pem : Option Str) (c : C)
      → built_with timeout verify streaming proxy (identity_from r pem) ≡ ok c
      → built_with timeout verify streaming proxy (identity_from t pem) ≡ ok c
  other_reference timeout verify streaming proxy r t pem c h =
      by_identity proxy (identity_from r pem) refl h
    where
      by_identity :
          (p : Result EngineError (Option P)) (identity : Result EngineError (Option I))
          → identity_from r pem ≡ identity
          → built_with timeout verify streaming p identity ≡ ok c
          → built_with timeout verify streaming p (identity_from t pem) ≡ ok c
      by_identity (err e) identity eq k = cc
      by_identity (ok q) (err e) eq k = cc
      by_identity (ok q) (ok i) eq k =
          ap (built_with timeout verify streaming (ok q)) (identity_from-ok r t pem i eq) ∙ k

  -- Settings and an identity with the key of a client that was built give that client.
  same_client :
      (s t : Settings) (i j : Option IdentityMaterial) (a b : Bool) (c : C)
      → client_key ops s i a ≡ client_key ops t j b
      → pem_of i ≡ pem_of j
      → built ops s i a ≡ ok c
      → built ops t j b ≡ ok c
  same_client s t i j a b c key pem h =
      let timeout : s.timeout_ms ≡ t.timeout_ms = cc in
      let verify : s.verify_tls ≡ t.verify_tls = cc in
      let proxy : s.proxy ≡ t.proxy = cc in
      let streaming : a ≡ b = cc in
      let reference = reference_of ops s.client_cert in
      let here =
        other_reference s.timeout_ms s.verify_tls a (parsed_proxy ops s.proxy) reference
          (reference_of ops t.client_cert) (pem_of i) c (sym (built-with s i a) ∙ h) in
      let there : built_with s.timeout_ms s.verify_tls a (parsed_proxy ops s.proxy)
            (identity_from (reference_of ops t.client_cert) (pem_of i))
          ≡ built_with t.timeout_ms t.verify_tls b (parsed_proxy ops t.proxy)
              (identity_from (reference_of ops t.client_cert) (pem_of j)) =
        cc in
      built-with t j b ∙ (sym there ∙ here)

  -- Keeping clients cannot be seen: asking for a client gives what building one would give, errors
  -- included, and keeps every client built for its key. The clients so far were built for their keys,
  -- and the certificates in use are told apart by their hashes.
  pub client_for_mode_lem :
      (clients : Clients ops) (settings : Settings) (identity : Option IdentityMaterial)
      (streaming : Bool)
      → ((a b : Str) → Known a → Known b → ops.hash a ≡ ops.hash b → a ≡ b)
      → All IsBuilt clients
      → IsMaterial identity
      → let (clients', result) = client_for_mode ops clients settings identity streaming in
        (result ≡ built ops settings identity streaming) × All IsBuilt clients'
  unfolding client_for_mode
  client_for_mode_lem clients settings identity streaming distinct hs h =
      let key = client_key ops settings identity streaming in
      match_option
        (λ (r : Clients ops × Result EngineError C).
          (r.1 ≡ built ops settings identity streaming) × All IsBuilt r.0)
        (pooled ops key clients)
        (λ _.
          match_result
            (λ (r : Clients ops × Result EngineError C).
              (r.1 ≡ built ops settings identity streaming) × All IsBuilt r.0)
            (built ops settings identity streaming) (λ e eq. (sym eq, hs))
            λ c eq. (sym eq, ((settings, identity, streaming, refl, h, eq), hs)))
        λ c found.
          let (s, i, a, same, hi, eq) = pooled-IsBuilt key clients c hs found in
          let fingerprint : fingerprint_of ops i ≡ fingerprint_of ops identity = cc in
          let pem = same_pem i identity distinct hi h fingerprint in
          (sym (same_client s settings i identity a streaming c (sym same) pem eq), hs)
