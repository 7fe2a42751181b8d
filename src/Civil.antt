-- ===== src/Civil.antt =====
-- The calendar of crates/gabriel-core/src/lib.rs: `civil_from_days`, `days_from_civil`,
-- `date_parts` and the fields that `format_iso8601` prints. `wrap_i64` stands where an operation of
-- the source can leave the range of `i64`; the others are bounded by the era or by the year.
mod Era
pub mod RoundTrip
pub mod Instants
pub mod Text
mod Tests
use gabrielbrowser.Base.{ℕ, ◌+◌, ◌*◌, ◌/◌, ◌%◌, ◌^◌, ◌-◌, if◌then◌else◌}
use gabrielbrowser.Base.Int.{
  ℤ, pos, pos_part, neg_part, ◌+ℤ◌, ◌-ℤ◌, ◌*ℤ◌, ◌/ℤ◌, ◌%ℤ◌, leb_ℤ, ltb_ℤ, wrap_i64, as_i64,
}

pub record Date : Type 0 where
  pub year : ℤ
  pub month : ℕ
  pub day : ℕ

-- `a as u32` of an `i64`
unfoldable pub as_u32 : ℤ → ℕ
as_u32 a = (pos_part a % 2 ^ 32 + (2 ^ 32 - neg_part a % 2 ^ 32)) % 2 ^ 32

-- The fields of a date within its era, from the day of the era.
unfoldable pub date_of_era : ℤ → ℤ → Date
date_of_era era doe =
    let yoe = (doe -ℤ doe /ℤ 1460 +ℤ doe /ℤ 36524 -ℤ doe /ℤ 146096) /ℤ 365 in
    let y = wrap_i64 (yoe +ℤ wrap_i64 (era *ℤ pos 400)) in
    let doy = doe -ℤ (pos 365 *ℤ yoe +ℤ yoe /ℤ 4 -ℤ yoe /ℤ 100) in
    let mp = (pos 5 *ℤ doy +ℤ pos 2) /ℤ 153 in
    let d = as_u32 (doy -ℤ (pos 153 *ℤ mp +ℤ pos 2) /ℤ 5 +ℤ pos 1) in
    let m = as_u32 (if ltb_ℤ mp (pos 10) then mp +ℤ pos 3 else mp -ℤ pos 9) in
    record { year = if leb_ℤ (pos m) (pos 2) then wrap_i64 (y +ℤ pos 1) else y; month = m; day = d }

-- Both conversions find an era by a division that rounds down.
unfoldable pub era_of : ℤ → ℕ → ℤ
era_of z n = (if leb_ℤ (pos 0) z then z else wrap_i64 (z -ℤ pos (n - 1))) /ℤ n

unfoldable pub civil_from_days : ℤ → Date
civil_from_days days =
    let z = wrap_i64 (days +ℤ pos 719468) in
    let era = era_of z 146097 in date_of_era era (wrap_i64 (z -ℤ wrap_i64 (era *ℤ pos 146097)))

unfoldable pub days_from_civil : ℤ → ℤ → ℤ → ℤ
days_from_civil year m d =
    let y = if leb_ℤ m (pos 2) then wrap_i64 (year -ℤ pos 1) else year in
    let era = era_of y 400 in
    let yoe = wrap_i64 (y -ℤ wrap_i64 (era *ℤ pos 400)) in
    let mp = wrap_i64 (m +ℤ pos 9) %ℤ 12 in
    let doy = wrap_i64 (wrap_i64 ((pos 153 *ℤ mp +ℤ pos 2) /ℤ 5 +ℤ d) -ℤ pos 1) in
    let doe = wrap_i64 (yoe *ℤ pos 365 +ℤ yoe /ℤ 4 -ℤ yoe /ℤ 100 +ℤ doy) in
    wrap_i64 (wrap_i64 (wrap_i64 (era *ℤ pos 146097) +ℤ doe) -ℤ pos 719468)

-- `(ms / 1000) as i64 / 86_400 + offset_days`, as a date
unfoldable pub date_parts : ℕ → ℤ → Date
date_parts ms offset_days = civil_from_days (wrap_i64 (as_i64 (ms / 1000) /ℤ 86400 +ℤ offset_days))

-- The numbers that `format_iso8601` prints.
pub record Instant : Type 0 where
  pub date : Date
  pub hour : ℤ
  pub minute : ℤ
  pub second : ℤ
  pub millis : ℕ

-- `div_euclid` and `rem_euclid` by a positive number
unfoldable pub div_euclid : ℤ → ℕ → ℤ
div_euclid a n = let q = a /ℤ n in if ltb_ℤ (a %ℤ n) (pos 0) then q -ℤ pos 1 else q

unfoldable pub rem_euclid : ℤ → ℕ → ℤ
rem_euclid a n = let r = a %ℤ n in if ltb_ℤ r (pos 0) then r +ℤ pos n else r

unfoldable pub iso8601_fields : ℕ → Instant
iso8601_fields ms =
    let secs = as_i64 (ms / 1000) in
    let time_of_day = rem_euclid secs 86400 in
    record {
      date = civil_from_days (div_euclid secs 86400);
      hour = time_of_day /ℤ 3600;
      minute = (time_of_day %ℤ 3600) /ℤ 60;
      second = time_of_day %ℤ 60;
      millis = ms % 1000;
    }
