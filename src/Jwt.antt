-- ===== src/Jwt.antt =====
-- Inspection of JSON web tokens, crates/gabriel-core/src/jwt.rs.
pub mod Warnings
pub mod Search
mod Tests
use gabrielbrowser.Base.{
  ℕ, Bool, true, false, not, ◌&&◌, ◌||◌, Option, none, some, List, [], ◌∷◌, ◌++◌, Str, codes, map,
  if◌then◌else◌, ◌==◌, leb, ltb, length, eq_ignore_ascii_case, starts_with, strip_prefix, is_some,
  ◌>>=◌,
}
use gabrielbrowser.Base.Decimal.{decimal}
use gabrielbrowser.Base.Int.{ℤ, pos, as_i64, wrap_i64, ◌-ℤ◌, leb_ℤ}
use gabrielbrowser.Base.Results.{Result, ok, err}
use gabrielbrowser.Base.Text.{split, trim, trim_end_matches, is_empty, join}
use gabrielbrowser.Json.{
  Json, Elems, JsonOps, null, bool, number, string, array, object, nil, cons, get_key, as_str,
}

pub data Warning : Type 0 where
  no_signature_algorithm : Warning
  symmetric_algorithm : Warning
  expired : Warning
  not_yet_valid : Warning
  no_expiry : Warning
  unreadable_timestamp : Warning
  missing_signature : Warning

unfoldable pub is_serious : Warning → Bool
is_serious no_signature_algorithm = true
is_serious expired = true
is_serious missing_signature = true
is_serious _ = false

pub record Jwt (N : Type 0) : Type 0 where
  pub header : Json N
  pub payload : Json N
  pub signature : Str
  pub warnings : List Warning

-- base64url without padding, with the message of an error; the reader of JSON with its message; and
-- arithmetic on floating-point numbers: `(x * 1000.0) as u64`, and `x > 0.0`.
pub record JwtOps (N F : Type 0) : Type 0 where
  pub json_ops : JsonOps N F
  pub decode_base64 : Str → Result Str Str
  pub read_json : Str → Result Str (Json N)
  pub zero : F
  pub millis : F → ℕ
  pub is_positive : F → Bool

abbrev pub strip_scheme : Str → Str
strip_scheme token = elim (strip_prefix token (codes "Bearer ")) [
  | some rest ↦ rest
  | none ↦ elim (strip_prefix token (codes "bearer ")) [ some rest ↦ rest | none ↦ token ]
]

-- The token itself: a scheme may stand in front of it.
unfoldable pub bare_token : Str → Str
bare_token token = trim (strip_scheme (trim token))

abbrev pub alg_of : {N : Type 0} → Json N → Option Str
alg_of header = get_key (codes "alg") header >>= as_str

abbrev pub is_none_alg : Option Str → Bool
is_none_alg none = false
is_none_alg (some alg) = eq_ignore_ascii_case alg (codes "none")

abbrev pub algorithm_warnings : Option Str → List Warning
algorithm_warnings none = []
algorithm_warnings (some alg) =
    if eq_ignore_ascii_case alg (codes "none")
    then no_signature_algorithm ∷ []
    else if starts_with alg (codes "HS")
    then symmetric_algorithm ∷ []
    else []

abbrev pub signature_warnings : Str → Bool → List Warning
signature_warnings signature unsigned =
    if is_empty signature && not unsigned then missing_signature ∷ [] else []

module _ {N F : Type 0} (ops : JwtOps N F) where
  unfoldable pub decode_segment : Str → Str → Result Str (Json N)
  decode_segment segment what = elim (ops.decode_base64 (trim_end_matches b'=' segment)) [
    | err e ↦ err (what ++ (codes " is not valid base64url: " ++ e))
    | ok bytes ↦ elim (ops.read_json bytes) [
      | err e ↦ err (what ++ (codes " is not JSON: " ++ e))
      | ok v ↦ ok v
    ]
  ]

  -- `n.as_f64().unwrap_or(0.0)`, in milliseconds
  abbrev pub number_millis : N → ℕ
  number_millis n = ops.millis (elim (ops.json_ops.as_f64 n) [ none ↦ ops.zero | some x ↦ x ])

  abbrev pub expiry_warnings : Option (Json N) → ℕ → List Warning
  expiry_warnings none now = no_expiry ∷ []
  expiry_warnings (some (number n)) now = if leb (number_millis n) now then expired ∷ [] else []
  expiry_warnings (some _) now = unreadable_timestamp ∷ []

  abbrev pub start_warnings : Option (Json N) → ℕ → List Warning
  start_warnings none now = []
  start_warnings (some (number n)) now =
      if ltb now (number_millis n) then not_yet_valid ∷ [] else []
  start_warnings (some _) now = unreadable_timestamp ∷ []

  unfoldable pub warnings_of : Json N → Json N → Str → ℕ → List Warning
  warnings_of header payload signature now =
      algorithm_warnings (alg_of header)
      ++ (signature_warnings signature (is_none_alg (alg_of header))
          ++ (expiry_warnings (get_key (codes "exp") payload) now
              ++ start_warnings (get_key (codes "nbf") payload) now))

  abbrev pub from_parts : List Str → ℕ → Result Str (Jwt N)
  from_parts (h ∷ p ∷ signature ∷ []) now = elim (decode_segment h (codes "header")) [
    | err e ↦ err e
    | ok header ↦ elim (decode_segment p (codes "payload")) [
      | err e ↦ err e
      | ok payload ↦ ok (record {
        header = header;
        payload = payload;
        signature = signature;
        warnings = warnings_of header payload signature now;
      })
    ]
  ]
  from_parts parts now =
      err (codes "not a JWT: expected 3 dot-separated segments, found " ++ decimal (length parts))

  -- `Jwt::decode_at`, with the message of the error `Error::Invalid`
  unfoldable pub decode_at : Str → ℕ → Result Str (Jwt N)
  unfolding bare_token decode_segment warnings_of
  decode_at token now = from_parts (split b'.' (bare_token token)) now

  abbrev pub key_id : Jwt N → Option Str
  key_id jwt = get_key (codes "kid") jwt.header >>= as_str

  abbrev pub as_number : Json N → Option F
  as_number (number n) = ops.json_ops.as_f64 n
  as_number _ = none

  unfoldable pub time_claim_ms : Jwt N → Str → Option ℕ
  time_claim_ms jwt claim = do
    value ← get_key claim jwt.payload
    seconds ← as_number value
    if ops.is_positive seconds then some (ops.millis seconds) else none

  -- The casts and the subtraction wrap around.
  unfoldable pub expires_in_ms : Jwt N → ℕ → Option ℤ
  unfolding time_claim_ms
  expires_in_ms jwt now = do
    at ← time_claim_ms jwt (codes "exp")
    some (wrap_i64 (as_i64 at -ℤ as_i64 now))

  unfoldable pub is_expired : Jwt N → ℕ → Bool
  unfolding expires_in_ms
  is_expired jwt now = elim (expires_in_ms jwt now) [
    | none ↦ false
    | some remaining ↦ leb_ℤ remaining (pos 0)
  ]

  unfoldable mutual
    pub render : Json N → Str
    render (string s) = s
    render (array items) = join (codes ", ") (render_all items)
    render other = ops.json_ops.to_string other

    pub render_all : Elems N → List Str
    render_all nil = []
    render_all (cons v vs) = render v ∷ render_all vs

  -- the loop of `notable_claims` over its names
  unfoldable pub claims_among : Jwt N → List Str → List (Str × Str)
  unfolding render
  claims_among jwt [] = []
  claims_among jwt (name ∷ names) =
      let rest = claims_among jwt names in
      elim (get_key name jwt.payload) [ none ↦ rest | some value ↦ (name, render value) ∷ rest ]

  unfoldable pub notable_claims : Jwt N → List (Str × Str)
  unfolding claims_among
  notable_claims jwt = claims_among jwt notable_names
    where
      notable_names : List Str
      notable_names =
          codes "iss"
          ∷ codes "sub"
          ∷ codes "aud"
          ∷ codes "azp"
          ∷ codes "scope"
          ∷ codes "scp"
          ∷ codes "client_id"
          ∷ codes "jti"
          ∷ []
