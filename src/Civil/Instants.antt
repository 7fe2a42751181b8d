-- ===== src/Civil/Instants.antt =====
-- What `date_parts` and `format_iso8601` say of an instant.
use gabrielbrowser.Base.{ℕ, ◌/◌, ◌%◌, ◌^◌, ◌<◌, ◌≡◌, arith}
use gabrielbrowser.Base.Int.{ℤ, pos, pos_part, ◌+ℤ◌, ◌-ℤ◌, ◌*ℤ◌, ◌/ℤ◌, ◌%ℤ◌, wrap_i64, as_i64}
use gabrielbrowser.Civil.{days_from_civil, date_parts, iso8601_fields, div_euclid, rem_euclid}
use gabrielbrowser.Civil.RoundTrip.{IsSmall, small_id, days_from_civil-civil_from_days}

days_of_ms : (ms : ℕ) → ms < 2 ^ 64 → as_i64 (ms / 1000) /ℤ 86400 ≡ pos (ms / 86400000)
unfolding as_i64 wrap_i64 ◌/ℤ◌
days_of_ms ms h = ground arith

offset-IsSmall :
    (ms : ℕ) (offset : ℤ)
    → ms < 2 ^ 64
    → IsSmall (2 ^ 55) offset
    → IsSmall (2 ^ 56) (pos (ms / 86400000) +ℤ offset)
unfolding ◌+ℤ◌
offset-IsSmall ms offset h k = ground arith

-- For a `u64` of milliseconds and an offset within 2^55 days, `date_parts` is the date of the day
-- count of the instant, with the offset added: `days_from_civil` gives that count back.
days_from_civil-date_parts :
    (ms : ℕ) (offset : ℤ)
    → ms < 2 ^ 64
    → IsSmall (2 ^ 55) offset
    → let date = date_parts ms offset in
      days_from_civil date.year (pos date.month) (pos date.day) ≡ pos (ms / 86400000) +ℤ offset
unfolding date_parts
days_from_civil-date_parts ms offset h k =
    let small = offset-IsSmall ms offset h k in
    let days = pos (ms / 86400000) +ℤ offset in
    rw (days_of_ms ms h, small_id days (omega arith, omega arith))
      (days_from_civil-civil_from_days days small).0

div_euclid_pos :
    (ms : ℕ) → ms < 2 ^ 64 → div_euclid (as_i64 (ms / 1000)) 86400 ≡ pos (ms / 86400000)
unfolding as_i64 wrap_i64 ◌/ℤ◌ ◌%ℤ◌ ◌-ℤ◌ div_euclid
div_euclid_pos ms h = ground arith

rem_euclid_pos :
    (ms : ℕ) → ms < 2 ^ 64 → rem_euclid (as_i64 (ms / 1000)) 86400 ≡ pos (ms / 1000 % 86400)
unfolding as_i64 wrap_i64 ◌/ℤ◌ ◌%ℤ◌ ◌+ℤ◌ rem_euclid
rem_euclid_pos ms h = ground arith

-- The clock fields and the day count make up the instant.
clock_fields :
    (ms : ℕ)
    → let t = pos (ms / 1000 % 86400) in
      (((pos (ms / 86400000) *ℤ pos 86400
              +ℤ (t /ℤ 3600) *ℤ pos 3600
              +ℤ (t %ℤ 3600 /ℤ 60) *ℤ pos 60
              +ℤ t %ℤ 60)
            *ℤ pos 1000
          +ℤ pos (ms % 1000))
        ≡ pos ms)
      × (pos_part (t /ℤ 3600) < 24)
      × (pos_part (t %ℤ 3600 /ℤ 60) < 60)
      × (pos_part (t %ℤ 60) < 60)
unfolding ◌/ℤ◌ ◌%ℤ◌ ◌+ℤ◌ ◌*ℤ◌
clock_fields ms = (ground arith, ground arith, ground arith, ground arith)

-- The fields that `format_iso8601` prints of a `u64` of milliseconds lose nothing: the days of the
-- date, the hours, minutes and seconds, and the milliseconds add up to the instant; hours stay
-- below 24, minutes and seconds below 60.
iso8601_fields_lossless :
    (ms : ℕ)
    → ms < 2 ^ 64
    → let t = iso8601_fields ms in
      let days = days_from_civil t.date.year (pos t.date.month) (pos t.date.day) in
      ((days *ℤ pos 86400 +ℤ t.hour *ℤ pos 3600 +ℤ t.minute *ℤ pos 60 +ℤ t.second) *ℤ pos 1000
          +ℤ pos t.millis
        ≡ pos ms)
      × (pos_part t.hour < 24)
      × (pos_part t.minute < 60)
      × (pos_part t.second < 60)
unfolding iso8601_fields
iso8601_fields_lossless ms h =
    let days = pos (ms / 86400000) in
    rw
      (
        rem_euclid_pos ms h,
        div_euclid_pos ms h,
        (days_from_civil-civil_from_days days (omega arith, omega arith)).0,
      )
      (clock_fields ms)
