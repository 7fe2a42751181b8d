-- ===== src/Session/Expiry.antt =====
-- When a cookie with `Max-Age` expires, crates/gabriel-engine/src/session.rs.
use gabrielbrowser.Base.{ℕ, ◌+◌, ◌*◌, ◌-◌, ◌^◌, ◌≤◌, ◌<◌, ◌≡◌, refl, true, some, arith, leb}
use gabrielbrowser.Base.Int.{pos, negsuc, ◌+ℤ◌, ◌*ℤ◌, wrap_i64, as_i64}
use gabrielbrowser.Session.{is_expired}
use gabrielbrowser.Session.Parse.{Draft, settle, max_age_expiry}

later : (now n : ℕ) → now < 2 ^ 62 → n * 1000 < 2 ^ 62 → max_age_expiry now (pos n) ≡ now + n * 1000
unfolding max_age_expiry wrap_i64 as_i64 ◌+ℤ◌ ◌*ℤ◌
later now n h k = ground arith

earlier :
    (now n : ℕ)
    → now < 2 ^ 62
    → n * 1000 < 2 ^ 62
    → max_age_expiry now (negsuc n) ≡ now - (n + 1) * 1000
unfolding max_age_expiry wrap_i64 as_i64 ◌+ℤ◌ ◌*ℤ◌
earlier now n h k = ground arith

overflow :
    (now n : ℕ)
    → now < 2 ^ 62
    → 2 ^ 63 ≤ n * 1000
    → n * 1000 + now < 2 ^ 64
    → max_age_expiry now (pos n) ≡ 0
unfolding max_age_expiry wrap_i64 as_i64 ◌+ℤ◌ ◌*ℤ◌
overflow now n h k l = ground arith

-- A cookie with a `Max-Age` of `n` seconds, `n` times 1000 below 2^62, is alive exactly before
-- `now + n * 1000`, whatever its `Expires` said.
max_age_expires :
    (now n later_ms : ℕ) (d : Draft)
    → now < 2 ^ 62
    → n * 1000 < 2 ^ 62
    → is_expired later_ms (settle now (record d { max_age = some (pos n) }))
      ≡ leb (now + n * 1000) later_ms
unfolding settle is_expired
max_age_expires now n later_ms d h k = rw (later now n h k) refl

-- If `n * 1000` does not fit an `i64`, and with `now` is below 2^64, the product wraps to a negative
-- number in a build without overflow checks: the cookie that was to live longest has expired at
-- every instant.
pub max_age_overflow :
    (now n later_ms : ℕ) (d : Draft)
    → now < 2 ^ 62
    → 2 ^ 63 ≤ n * 1000
    → n * 1000 + now < 2 ^ 64
    → is_expired later_ms (settle now (record d { max_age = some (pos n) })) ≡ true
unfolding settle is_expired
max_age_overflow now n later_ms d h k l = rw (overflow now n h k l) (ground arith)

-- A negative or zero `Max-Age` has expired at once.
pub max_age_deletes :
    (now n : ℕ) (d : Draft)
    → now < 2 ^ 62
    → n * 1000 < 2 ^ 62
    → (is_expired now (settle now (record d { max_age = some (negsuc n) })) ≡ true)
      × (is_expired now (settle now (record d { max_age = some (pos 0) })) ≡ true)
unfolding settle is_expired
max_age_deletes now n d h k =
    (rw (earlier now n h k) (ground arith), rw (later now 0 h (omega arith)) (ground arith))
