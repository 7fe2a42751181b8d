-- ===== src/Jwt/Warnings.antt =====
-- The two judgements of a token's expiry, crates/gabriel-core/src/jwt.rs.
use gabrielbrowser.Base.{
  ℕ, ◌≤◌, ◌<◌, Bool, true, false, not, ◌&&◌, ◌||◌, Option, none, some, List, [], ◌∷◌, ◌++◌, Str,
  codes, if◌then◌else◌, leb, ltb, any, ◌≡◌, refl, sym, ap, ◌∙◌, arith, subst, match_if,
  eq_ignore_ascii_case, starts_with, ◌>>=◌,
}
use gabrielbrowser.Base.Int.{
  ℤ, pos, pos_part, neg_part, half_range, as_i64, wrap_i64, wrap_i64_id, ◌-ℤ◌, leb_ℤ,
}
use gabrielbrowser.Base.Results.{Result, ok, err}
use gabrielbrowser.Base.Text.{is_empty, split}
use gabrielbrowser.Json.{Json, null, bool, number, string, array, object, get_key}
use gabrielbrowser.Jwt.{
  Warning, expired, Jwt, JwtOps, alg_of, is_none_alg, algorithm_warnings, signature_warnings,
  number_millis, expiry_warnings, start_warnings, warnings_of, decode_at, from_parts,
  decode_segment, bare_token, is_expired, expires_in_ms, time_claim_ms, as_number,
}

abbrev is_expiry : Warning → Bool
is_expiry expired = true
is_expiry _ = false

abbrev pub warns_expired : List Warning → Bool
warns_expired warnings = any is_expiry warnings

any-append : (p : Warning → Bool) (xs ys : List Warning) → any p (xs ++ ys) ≡ (any p xs || any p ys)
any-append p [] ys = refl
any-append p (x ∷ xs) ys = ground (arith, any-append p xs ys)

any-middle :
    (p : Warning → Bool) (a b c d : List Warning)
    → any p a ≡ false
    → any p b ≡ false
    → any p d ≡ false
    → any p (a ++ (b ++ (c ++ d))) ≡ any p c
any-middle p a b c d ha hb hd =
    ground
      (arith, any-append p a (b ++ (c ++ d)), any-append p b (c ++ d), any-append p c d, ha, hb, hd)

algorithm_never : (o : Option Str) → warns_expired (algorithm_warnings o) ≡ false
algorithm_never none = refl
algorithm_never (some alg) =
    match_if (λ (ws : List Warning). warns_expired ws ≡ false)
      (eq_ignore_ascii_case alg (codes "none")) (λ _. refl)
      λ _.
        match_if (λ (ws : List Warning). warns_expired ws ≡ false) (starts_with alg (codes "HS"))
          (λ _. refl) λ _. refl

signature_never : (s : Str) (b : Bool) → warns_expired (signature_warnings s b) ≡ false
signature_never s b =
    match_if (λ (ws : List Warning). warns_expired ws ≡ false) (is_empty s && not b) (λ _. refl)
      (λ _. refl)

ahead : (at now : ℕ) → at < half_range → pos_part (pos at -ℤ pos now) < half_range
unfolding ◌-ℤ◌
ahead at now h = ground arith

behind : (at now : ℕ) → now < half_range → neg_part (pos at -ℤ pos now) ≤ half_range
unfolding ◌-ℤ◌
behind at now h = ground arith

sign : (at now : ℕ) → leb_ℤ (pos at -ℤ pos now) (pos 0) ≡ leb at now
unfolding ◌-ℤ◌
sign at now = ground arith

remaining_lem :
    (at now : ℕ)
    → at < half_range
    → now < half_range
    → leb_ℤ (wrap_i64 (as_i64 at -ℤ as_i64 now)) (pos 0) ≡ leb at now
unfolding as_i64
remaining_lem at now h k =
    let first = wrap_i64_id (pos at) h (omega arith) in
    let second = wrap_i64_id (pos now) k (omega arith) in
    let whole = wrap_i64_id (pos at -ℤ pos now) (ahead at now h) (behind at now k) in
    ap (λ (a : ℤ). leb_ℤ (wrap_i64 (a -ℤ as_i64 now)) (pos 0)) first
    ∙ (ap (λ (b : ℤ). leb_ℤ (wrap_i64 (pos at -ℤ b)) (pos 0)) second
        ∙ (ap (λ (d : ℤ). leb_ℤ d (pos 0)) whole ∙ sign at now))

module _ {N F : Type 0} (ops : JwtOps N F) where
  start_never : (o : Option (Json N)) (now : ℕ) → warns_expired (start_warnings ops o now) ≡ false
  start_never none now = refl
  start_never (some (number n)) now =
      match_if (λ (ws : List Warning). warns_expired ws ≡ false) (ltb now (number_millis ops n))
        (λ _. refl) λ _. refl
  start_never (some null) now = refl
  start_never (some (bool b)) now = refl
  start_never (some (string s)) now = refl
  start_never (some (array vs)) now = refl
  start_never (some (object ps)) now = refl

  warns_expired-warnings_of :
      (header payload : Json N) (signature : Str) (now : ℕ)
      → warns_expired (warnings_of ops header payload signature now)
        ≡ warns_expired (expiry_warnings ops (get_key (codes "exp") payload) now)
  unfolding warnings_of
  warns_expired-warnings_of header payload signature now =
      any-middle is_expiry (algorithm_warnings (alg_of header))
        (signature_warnings signature (is_none_alg (alg_of header)))
        (expiry_warnings ops (get_key (codes "exp") payload) now)
        (start_warnings ops (get_key (codes "nbf") payload) now) (algorithm_never (alg_of header))
        (signature_never signature (is_none_alg (alg_of header)))
        (start_never (get_key (codes "nbf") payload) now)

  abbrev IsJudged : ℕ → Jwt N → Type 0
  IsJudged now jwt = jwt.warnings ≡ warnings_of ops jwt.header jwt.payload jwt.signature now

  IsJudged-parts :
      (parts : List Str) (now : ℕ) (jwt : Jwt N)
      → from_parts ops parts now ≡ ok jwt
      → IsJudged now jwt
  IsJudged-parts [] now jwt h = cc
  IsJudged-parts (a ∷ []) now jwt h = cc
  IsJudged-parts (a ∷ b ∷ []) now jwt h = cc
  IsJudged-parts (a ∷ b ∷ c ∷ d ∷ parts) now jwt h = cc
  IsJudged-parts (a ∷ b ∷ c ∷ []) now jwt h =
      by_segments (decode_segment ops a (codes "header")) (decode_segment ops b (codes "payload")) h
    where
      made : Json N → Json N → Jwt N
      made header payload = record {
        header = header;
        payload = payload;
        signature = c;
        warnings = warnings_of ops header payload c now;
      }

      by_segments :
          (o p : Result Str (Json N))
          → (elim o [
            | err e ↦ err e
            | ok header ↦ elim p [ err e ↦ err e | ok payload ↦ ok (made header payload) ]
          ])
            ≡ ok jwt
          → IsJudged now jwt
      by_segments (err e) p k = cc
      by_segments (ok header) (err e) k = cc
      by_segments (ok header) (ok payload) k =
          let same : made header payload ≡ jwt = cc in subst (IsJudged now) same refl

  -- A decoded token has the warnings of its parts.
  decode_at-IsJudged :
      (token : Str) (now : ℕ) (jwt : Jwt N) → decode_at ops token now ≡ ok jwt → IsJudged now jwt
  unfolding decode_at
  decode_at-IsJudged token now jwt h = IsJudged-parts (split b'.' (bare_token token)) now jwt h

  expiry_read :
      (n : N) (seconds : F) (now : ℕ)
      → ops.json_ops.as_f64 n ≡ some seconds
      → warns_expired (expiry_warnings ops (some (number n)) now) ≡ leb (ops.millis seconds) now
  expiry_read n seconds now f =
      by_test (leb (number_millis ops n) now)
      ∙ ap (λ (o : Option F). leb (ops.millis (elim o [ none ↦ ops.zero | some x ↦ x ])) now) f
    where
      by_test : (b : Bool) → warns_expired (if b then expired ∷ [] else []) ≡ b
      by_test true = refl
      by_test false = refl

  claim_read :
      (jwt : Jwt N) (n : N) (seconds : F)
      → get_key (codes "exp") jwt.payload ≡ some (number n)
      → ops.json_ops.as_f64 n ≡ some seconds
      → ops.is_positive seconds ≡ true
      → time_claim_ms ops jwt (codes "exp") ≡ some (ops.millis seconds)
  unfolding time_claim_ms
  claim_read jwt n seconds e f positive =
      ap
        (λ (o : Option (Json N)). o >>= (λ value.
          as_number ops value >>= (λ x. if ops.is_positive x then some (ops.millis x) else none)))
        e
      ∙ (ap (λ (o : Option F). o >>= (λ x. if ops.is_positive x then some (ops.millis x) else none))
            f
          ∙ ap (λ (b : Bool). if b then some (ops.millis seconds) else none) positive)

  remaining_read :
      (jwt : Jwt N) (at now : ℕ)
      → time_claim_ms ops jwt (codes "exp") ≡ some at
      → is_expired ops jwt now ≡ leb_ℤ (wrap_i64 (as_i64 at -ℤ as_i64 now)) (pos 0)
  unfolding is_expired expires_in_ms
  remaining_read jwt at now e =
      ap
        (λ (o : Option ℕ). elim (o >>= (λ x. some (wrap_i64 (as_i64 x -ℤ as_i64 now)))) [
          | none ↦ false
          | some remaining ↦ leb_ℤ remaining (pos 0)
        ])
        e

  -- A decoded token is warned about as expired exactly when it is taken to be expired, where its
  -- expiry is a positive number of seconds and both it and the clock are below 2^63 milliseconds.
  pub decode_at-is_expired :
      (token : Str) (now : ℕ) (jwt : Jwt N) (n : N) (seconds : F)
      → decode_at ops token now ≡ ok jwt
      → get_key (codes "exp") jwt.payload ≡ some (number n)
      → ops.json_ops.as_f64 n ≡ some seconds
      → ops.is_positive seconds ≡ true
      → ops.millis seconds < half_range
      → now < half_range
      → warns_expired jwt.warnings ≡ is_expired ops jwt now
  decode_at-is_expired token now jwt n seconds h e f positive small recent =
      ap warns_expired (decode_at-IsJudged token now jwt h)
      ∙ (warns_expired-warnings_of jwt.header jwt.payload jwt.signature now
          ∙ (ap (λ (o : Option (Json N)). warns_expired (expiry_warnings ops o now)) e
              ∙ (expiry_read n seconds now f
                  ∙ sym (
                      remaining_read jwt (ops.millis seconds) now
                        (claim_read jwt n seconds e f positive)
                      ∙ remaining_lem (ops.millis seconds) now small recent))))
