-- ===== src/Civil/Tests.antt =====
-- The calendar at concrete inputs.
use gabrielbrowser.Base.{
  ◌≡◌, refl, ◌≤◌, arith, none, some, ◌∷◌, ◌++◌, codes, strip_suffix, starts_with,
}
use gabrielbrowser.Base.Decimal.{decimal}
use gabrielbrowser.Base.Text.{trim, split, split_once}
use gabrielbrowser.Base.Int.{pos, negsuc, ◌+ℤ◌, ◌-ℤ◌, ◌*ℤ◌, ◌/ℤ◌, ◌%ℤ◌, wrap_i64, as_i64, parse_i64}
use gabrielbrowser.Civil.{
  as_u32, date_of_era, era_of, civil_from_days, days_from_civil, date_parts, iso8601_fields,
  div_euclid, rem_euclid,
}
use gabrielbrowser.Civil.Text.{format_iso8601, parse_iso8601}
use gabrielbrowser.Civil.RoundTrip.{days_from_civil-civil_from_days}

calendar : Unit {0}
unfolding as_u32 date_of_era era_of civil_from_days days_from_civil date_parts iso8601_fields
    div_euclid rem_euclid ◌+ℤ◌ ◌-ℤ◌ ◌*ℤ◌ ◌/ℤ◌ ◌%ℤ◌ wrap_i64 as_i64
calendar = tt

-- 2026-07-29 and the two days around it, and a leap day.
date_parts_tests :
    (date_parts 1785283200000 (pos 0) ≡ record { year = pos 2026; month = 7; day = 29 })
    × (date_parts 1785283200000 (negsuc 0) ≡ record { year = pos 2026; month = 7; day = 28 })
    × (date_parts 1785283200000 (pos 156) ≡ record { year = pos 2027; month = 1; day = 1 })
    × (date_parts 1709210096789 (pos 0) ≡ record { year = pos 2024; month = 2; day = 29 })
unfolding calendar
date_parts_tests = (refl, refl, refl, refl)

before_the_epoch :
    civil_from_days (negsuc 719528) ≡ record { year = negsuc 0; month = 12; day = 31 }
unfolding calendar
before_the_epoch = refl

days_from_civil-civil_from_days_example :
    let date = civil_from_days (negsuc 719528) in
    (days_from_civil date.year (pos date.month) (pos date.day) ≡ negsuc 719528)
    × (1 ≤ date.month)
    × (date.month ≤ 12)
    × (1 ≤ date.day)
    × (date.day ≤ 31)
days_from_civil-civil_from_days_example =
    days_from_civil-civil_from_days (negsuc 719528) (omega arith, omega arith)

-- An instant as text and back, an offset, an hour that there is none of, and a zone of a character of
-- two bytes, on which the source panics.
iso8601_tests :
    (format_iso8601 1709210096789 ≡ codes "2024-02-29T12:34:56.789Z")
    × (parse_iso8601 (codes "2024-02-29T12:34:56.789Z") ≡ some (some 1709210096789))
    × (parse_iso8601 (codes "2024-02-29T14:34:56.789+02:00") ≡ some (some 1709210096789))
    × (parse_iso8601 (codes "2024-02-29 24:00:00Z") ≡ some none)
    × (parse_iso8601 (codes "2024-02-29T12:34+1" ++ 0xc3 ∷ 0xa9 ∷ codes "1") ≡ none)
unfolding calendar format_iso8601 parse_iso8601 decimal trim split parse_i64 strip_suffix split_once
    starts_with
iso8601_tests = (refl, refl, refl, refl, refl)
