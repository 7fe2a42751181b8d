-- ===== src/Jwt/Tests.antt =====
-- A token with an expiry, and the instance of the theorem, crates/gabriel-core/src/jwt.rs.
use gabrielbrowser.Base.{
  ℕ, ◌*◌, false, none, some, [], ◌∷◌, codes, str_eq, ◌≡◌, refl, ◌==◌, ltb, arith, starts_with,
  strip_prefix, strip_suffix, eq_ignore_ascii_case, to_ascii_lowercase, if◌then◌else◌,
}
use gabrielbrowser.Base.Text.{split, trim, trim_start, trim_end, trim_end_matches}
use gabrielbrowser.Base.Results.{ok}
use gabrielbrowser.Json.{Json, JsonOps, number, string, object, prop, end, get_prop, get_key}
use gabrielbrowser.Jwt.{
  Jwt, JwtOps, symmetric_algorithm, expired, decode_at, bare_token, decode_segment, warnings_of,
  is_expired, expires_in_ms, time_claim_ms,
}
use gabrielbrowser.Jwt.Warnings.{warns_expired, decode_at-is_expired}

abbrev json_ops : JsonOps ℕ ℕ
json_ops = record {
  num_eq = λ m n. m == n;
  as_f64 = λ n. some n;
  f64_eq = λ m n. m == n;
  f64_lt = ltb;
  from_u64 = λ n. n;
  to_string = λ _. codes "?";
  from_slice = λ _. none;
}

abbrev header : Json ℕ
header = object (prop (codes "alg") (string (codes "HS256")) end)

abbrev payload : ℕ → Json ℕ
payload seconds = object (prop (codes "exp") (number seconds) end)

-- Segments stand for documents: `h` for the header, and any other for the payload.
abbrev ops : ℕ → JwtOps ℕ ℕ
ops seconds = record {
  json_ops = json_ops;
  decode_base64 = λ s. ok s;
  read_json = λ s. if str_eq s (codes "h") then ok header else ok (payload seconds);
  zero = 0;
  millis = λ n. 1000 * n;
  is_positive = ltb 0;
}

abbrev token : ℕ → ℕ → Jwt ℕ
token seconds now = record {
  header = header;
  payload = payload seconds;
  signature = codes "s";
  warnings = symmetric_algorithm ∷ expired ∷ [];
}

read : decode_at (ops 5) (codes "Bearer h.p.s") 6000 ≡ ok (token 5 6000)
unfolding decode_at bare_token decode_segment warnings_of split trim trim_start trim_end
    trim_end_matches strip_prefix strip_suffix starts_with eq_ignore_ascii_case to_ascii_lowercase
    str_eq get_prop
read = refl

exp_of : get_key (codes "exp") (payload 5) ≡ some (number 5)
unfolding get_prop str_eq
exp_of = refl

decode_at-is_expired_example :
    warns_expired (token 5 6000).warnings ≡ is_expired (ops 5) (token 5 6000) 6000
decode_at-is_expired_example =
    decode_at-is_expired (ops 5) (codes "Bearer h.p.s") 6000 (token 5 6000) 5 5 read exp_of refl
      refl (omega arith) (omega arith)

-- An expiry of zero is warned about, but not taken as expired.
zero_expiry_test :
    (decode_at (ops 0) (codes "h.p.s") 6000 ≡ ok (token 0 6000))
    × (is_expired (ops 0) (token 0 6000) 6000 ≡ false)
unfolding decode_at bare_token decode_segment warnings_of split trim trim_start trim_end
    trim_end_matches strip_prefix strip_suffix starts_with eq_ignore_ascii_case to_ascii_lowercase
    str_eq get_prop is_expired expires_in_ms time_claim_ms
zero_expiry_test = (refl, refl)
