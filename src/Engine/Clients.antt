-- ===== src/Engine/Clients.antt =====
-- The HTTP clients that an executor keeps, and the certificate that a client presents,
-- crates/gabriel-engine/src/lib.rs.
pub mod Keys
pub mod Pool
mod Tests
use gabrielbrowser.Base.{
  ℕ, Bool, true, false, not, ◌&&◌, Option, none, some, List, [], ◌∷◌, ◌++◌, Str, codes, str_eq,
  ◌==◌, if◌then◌else◌,
}
use gabrielbrowser.Base.Results.{Result, ok, err, and_then}
use gabrielbrowser.Base.Text.{contains, trim, is_empty}
use gabrielbrowser.Model.{RequestSpec, Settings}
use gabrielbrowser.Vars.{World}
use gabrielbrowser.Engine.{EngineError, client, client_cert, client_cert_file}
use gabrielbrowser.Engine.Token.{AuthState, Step, resolved}

pub record ClientKey : Type 0 where
  pub timeout_ms : ℕ
  pub verify_tls : Bool
  pub proxy : Option Str
  pub streaming : Bool
  pub identity : Option ℕ

pub record IdentityMaterial : Type 0 where
  pub fingerprint : ℕ
  pub pem : Str

-- What the source hands to the builder of the client, of the `reqwest` crate: a limit on the whole
-- request or, for a stream, on connecting.
pub record ClientConfig (P I : Type 0) : Type 0 where
  pub connect_timeout : Option ℕ
  pub timeout : Option ℕ
  pub accept_invalid_certs : Bool
  pub proxy : Option P
  pub identity : Option I

-- The crate's proxies, identities and clients, with the messages of their errors; the hash of a PEM
-- text; and the files relative to the collection.
pub record ClientOps (P I C : Type 0) : Type 0 where
  pub parse_proxy : Str → Result Str P
  pub parse_pem : Str → Result Str I
  pub build : ClientConfig P I → Result Str C
  pub hash : Str → ℕ
  pub read : Str → Option Str

abbrev pub bool_eq : Bool → Bool → Bool
bool_eq true b = b
bool_eq false b = not b

abbrev pub option_eq : {A : Type 0} → (A → A → Bool) → Option A → Option A → Bool
option_eq same none none = true
option_eq same (some a) (some b) = same a b
option_eq same _ _ = false

unfoldable pub key_eq : ClientKey → ClientKey → Bool
key_eq a b =
    a.timeout_ms == b.timeout_ms
    && (bool_eq a.verify_tls b.verify_tls
        && (option_eq str_eq a.proxy b.proxy
            && (bool_eq a.streaming b.streaming
                && option_eq (λ m n. m == n) a.identity b.identity)))

module _ {P I C : Type 0} (ops : ClientOps P I C) where
  abbrev pub Clients : Type 0
  Clients = List (ClientKey × C)

  unfoldable pub pooled : ClientKey → Clients → Option C
  unfolding key_eq
  pooled key [] = none
  pooled key ((k, c) ∷ clients) =
      let rest = pooled key clients in if key_eq k key then some c else rest

  abbrev pub fingerprint_of : Option IdentityMaterial → Option ℕ
  fingerprint_of none = none
  fingerprint_of (some i) = some i.fingerprint

  abbrev pub client_key : Settings → Option IdentityMaterial → Bool → ClientKey
  client_key settings identity streaming = record {
    timeout_ms = settings.timeout_ms;
    verify_tls = settings.verify_tls;
    proxy = settings.proxy;
    streaming = streaming;
    identity = fingerprint_of identity;
  }

  abbrev pub parsed_proxy : Option Str → Result EngineError (Option P)
  parsed_proxy none = ok none
  parsed_proxy (some proxy) = elim (ops.parse_proxy proxy) [
    | err message ↦ err (client message)
    | ok p ↦ ok (some p)
  ]

  abbrev pub reference_of : Option Str → Str
  reference_of none = []
  reference_of (some reference) = reference

  abbrev pub parsed_identity : Settings → Option IdentityMaterial → Result EngineError (Option I)
  parsed_identity settings none = ok none
  parsed_identity settings (some identity) = elim (ops.parse_pem identity.pem) [
    | err message ↦ err (client_cert (reference_of settings.client_cert) message)
    | ok i ↦ ok (some i)
  ]

  abbrev pub config_of : Settings → Bool → Option P → Option I → ClientConfig P I
  config_of settings streaming proxy identity = record {
    connect_timeout = if streaming then some settings.timeout_ms else none;
    timeout = if streaming then none else some settings.timeout_ms;
    accept_invalid_certs = not settings.verify_tls;
    proxy = proxy;
    identity = identity;
  }

  -- the client that `client_for_mode` builds when it has none
  unfoldable pub built : Settings → Option IdentityMaterial → Bool → Result EngineError C
  built settings identity streaming = elim (parsed_proxy settings.proxy) [
    | err e ↦ err e
    | ok p ↦ elim (parsed_identity settings identity) [
      | err e ↦ err e
      | ok i ↦ elim (ops.build (config_of settings streaming p i)) [
        | err message ↦ err (client message)
        | ok c ↦ ok c
      ]
    ]
  ]

  unfoldable pub client_for_mode :
      Clients → Settings → Option IdentityMaterial → Bool → Clients × Result EngineError C
  unfolding pooled built
  client_for_mode clients settings identity streaming =
      let key = client_key settings identity streaming in
      elim (pooled key clients) [
        | some c ↦ (clients, ok c)
        | none ↦ elim (built settings identity streaming) [
          | err e ↦ (clients, err e)
          | ok c ↦ ((key, c) ∷ clients, ok c)
        ]
      ]

  abbrev pub material : Str → Option IdentityMaterial
  material pem = some (record { fingerprint = ops.hash pem; pem = pem })

  -- A certificate is given in the text itself, or as a file.
  abbrev pub loaded : Str → Result EngineError (Option IdentityMaterial)
  loaded reference =
      if is_empty (trim reference)
      then ok none
      else if contains reference (codes "-----BEGIN")
      then ok (material reference)
      else elim (ops.read reference) [
        | none ↦ err (client_cert_file reference)
        | some pem ↦ ok (material pem)
      ]

  unfoldable pub resolve_identity : World → AuthState → Settings → Step (Option IdentityMaterial)
  resolve_identity w s settings = elim settings.client_cert [
    | none ↦ (s, ok none)
    | some reference ↦ and_then (resolved w s reference) (λ s1 text. (s1, loaded text))
  ]
