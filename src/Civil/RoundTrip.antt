-- ===== src/Civil/RoundTrip.antt =====
-- `days_from_civil` undoes `civil_from_days`.
use gabrielbrowser.Base.{
  ℕ, ◌+◌, ◌-◌, ◌*◌, ◌/◌, ◌%◌, ◌^◌, ◌≤◌, ◌<◌, ◌≡◌, refl, arith, if◌then◌else◌, ◌∙◌, ltb,
}
use gabrielbrowser.Base.Int.{
  ℤ, pos, negsuc, pos_part, neg_part, ◌+ℤ◌, ◌-ℤ◌, ◌*ℤ◌, ◌/ℤ◌, ◌%ℤ◌, leb_ℤ, ltb_ℤ, wrap_i64,
  wrap_i64_id, int_laws,
}
use gabrielbrowser.Civil.{as_u32, date_of_era, era_of, civil_from_days, days_from_civil}
use gabrielbrowser.Civil.Era.{yoe_of, yoe-lt, yoe-le, doy-le, month_lem}

abbrev pub IsSmall : ℕ → ℤ → Type 0
IsSmall n a = (pos_part a < n) × (neg_part a < n)

pub small_id : (a : ℤ) → IsSmall (2 ^ 62) a → wrap_i64 a ≡ a
small_id a h = wrap_i64_id a (omega arith) (omega arith)

-- The era rounds down: what is left is a natural number below the era's length.
era_of_days :
    (z : ℤ)
    → IsSmall (2 ^ 60) z
    → (r : ℕ) × (r < 146097)
      × IsSmall (2 ^ 61) (era_of z 146097 *ℤ pos 146097)
      × (z ≡ era_of z 146097 *ℤ pos 146097 +ℤ pos r)
unfolding era_of ◌*ℤ◌ ◌/ℤ◌ ◌+ℤ◌ ◌-ℤ◌
era_of_days (pos n) small = (n % 146097, omega arith, ground arith, ground arith)
era_of_days (negsuc n) small =
    rw (small_id (negsuc n -ℤ pos 146096) (ground arith))
      (146096 - n % 146097, omega arith, ground arith, ground arith)

-- Of the year `yoe + 400 * era` the era is `era`.
era_of_year :
    (era : ℤ) (yoe : ℕ)
    → IsSmall (2 ^ 50) era
    → yoe < 400
    → era_of (pos yoe +ℤ era *ℤ pos 400) 400 ≡ era
unfolding era_of ◌*ℤ◌ ◌/ℤ◌ ◌+ℤ◌ ◌-ℤ◌
era_of_year (pos n) yoe small h = ground arith
era_of_year (negsuc n) yoe small h =
    rw (small_id (pos yoe +ℤ negsuc n *ℤ pos 400 -ℤ pos 399) (ground arith)) (ground arith)

module _ where
  yoe_pos :
      (doe : ℕ)
      → doe < 146097
      → (pos doe -ℤ pos doe /ℤ 1460 +ℤ pos doe /ℤ 36524 -ℤ pos doe /ℤ 146096) /ℤ 365
        ≡ pos (yoe_of doe)
  unfolding ◌/ℤ◌ ◌+ℤ◌ ◌-ℤ◌ yoe_of
  yoe_pos doe h = ground arith

  doy_pos :
      (yoe doe : ℕ)
      → 365 * yoe + yoe / 4 - yoe / 100 ≤ doe
      → pos doe -ℤ (pos 365 *ℤ pos yoe +ℤ pos yoe /ℤ 4 -ℤ pos yoe /ℤ 100)
        ≡ pos (doe - (365 * yoe + yoe / 4 - yoe / 100))
  unfolding ◌*ℤ◌ ◌/ℤ◌ ◌+ℤ◌ ◌-ℤ◌
  doy_pos yoe doe h = ground arith

  mp_pos : (doy : ℕ) → (pos 5 *ℤ pos doy +ℤ pos 2) /ℤ 153 ≡ pos ((5 * doy + 2) / 153)
  unfolding ◌*ℤ◌ ◌/ℤ◌ ◌+ℤ◌
  mp_pos doy = ground arith

  day_pos :
      (doy mp : ℕ)
      → doy ≤ 365
      → (153 * mp + 2) / 5 ≤ doy
      → as_u32 (pos doy -ℤ (pos 153 *ℤ pos mp +ℤ pos 2) /ℤ 5 +ℤ pos 1)
        ≡ doy - (153 * mp + 2) / 5 + 1
  unfolding ◌*ℤ◌ ◌/ℤ◌ ◌+ℤ◌ ◌-ℤ◌ as_u32
  day_pos doy mp h k = ground arith

  month_pos :
      (mp : ℕ)
      → mp < 12
      → as_u32 (if ltb_ℤ (pos mp) (pos 10) then pos mp +ℤ pos 3 else pos mp -ℤ pos 9)
        ≡ (if ltb mp 10 then mp + 3 else mp - 9)
  unfolding ◌+ℤ◌ ◌-ℤ◌ as_u32
  month_pos mp h = ground arith

IsSmall-more : (a : ℤ) → IsSmall (2 ^ 60) a → IsSmall (2 ^ 62) a
IsSmall-more a h = (omega arith, omega arith)

add_sub : (a b : ℤ) → a +ℤ b -ℤ b ≡ a
add_sub a b = omega int_laws

year_back_of :
    (y : ℤ) (mp : ℕ)
    → mp < 12
    → IsSmall (2 ^ 60) y
    → (if leb_ℤ (pos (if ltb mp 10 then mp + 3 else mp - 9)) (pos 2)
        then wrap_i64 ((if ltb mp 10 then y else y +ℤ pos 1) -ℤ pos 1)
        else (if ltb mp 10 then y else y +ℤ pos 1))
      ≡ y
year_back_of y mp h small = ground (arith, add_sub y (pos 1), small_id y (IsSmall-more y small))

doy_back_of :
    (doy mp : ℕ)
    → doy ≤ 365
    → (153 * mp + 2) / 5 ≤ doy
    → wrap_i64 (
        wrap_i64 ((pos 153 *ℤ pos mp +ℤ pos 2) /ℤ 5 +ℤ pos (doy - (153 * mp + 2) / 5 + 1)) -ℤ pos 1)
      ≡ pos doy
unfolding ◌*ℤ◌ ◌/ℤ◌ ◌+ℤ◌ ◌-ℤ◌ wrap_i64
doy_back_of doy mp h k = ground arith

doe_back_of :
    (yoe doe : ℕ)
    → 365 * yoe + yoe / 4 - yoe / 100 ≤ doe
    → doe < 146097
    → wrap_i64 (
        pos yoe *ℤ pos 365
        +ℤ pos yoe /ℤ 4
        -ℤ pos yoe /ℤ 100
        +ℤ pos (doe - (365 * yoe + yoe / 4 - yoe / 100)))
      ≡ pos doe
unfolding ◌*ℤ◌ ◌/ℤ◌ ◌+ℤ◌ ◌-ℤ◌ wrap_i64
doe_back_of yoe doe h k = ground arith

-- The fields of `date_of_era` over natural numbers.
module _ (era : ℤ) (doe : ℕ) (small : IsSmall (2 ^ 50) era) (h : doe < 146097) where
  abbrev the_yoe : ℕ
  the_yoe = yoe_of doe

  abbrev the_doy : ℕ
  the_doy = doe - (365 * the_yoe + the_yoe / 4 - the_yoe / 100)

  abbrev the_mp : ℕ
  the_mp = (5 * the_doy + 2) / 153

  abbrev the_year : ℤ
  the_year = pos the_yoe +ℤ era *ℤ pos 400

  year-IsSmall : IsSmall (2 ^ 60) the_year
  unfolding ◌+ℤ◌ ◌*ℤ◌
  year-IsSmall = ground (arith, yoe-lt doe h)

  doy_le : the_doy ≤ 365
  doy_le = omega (arith, doy-le doe h)

  era-IsSmall : IsSmall (2 ^ 62) (era *ℤ pos 400)
  unfolding ◌*ℤ◌
  era-IsSmall = ground arith

  succ-IsSmall : IsSmall (2 ^ 62) (the_year +ℤ pos 1)
  unfolding ◌+ℤ◌ ◌*ℤ◌
  succ-IsSmall = ground (arith, yoe-lt doe h)

  era_of_year_lem : era_of the_year 400 ≡ era
  era_of_year_lem = era_of_year era the_yoe small (yoe-lt doe h)

  date_of_era_lem : date_of_era era (pos doe) ≡ record {
    year = if ltb the_mp 10 then the_year else the_year +ℤ pos 1;
    month = if ltb the_mp 10 then the_mp + 3 else the_mp - 9;
    day = the_doy - (153 * the_mp + 2) / 5 + 1;
  }
  unfolding date_of_era
  date_of_era_lem =
      let (_, _, mp_lt) = month_lem the_doy doy_le in
      rw
        (
          yoe_pos doe h,
          doy_pos the_yoe doe (yoe-le doe h),
          mp_pos the_doy,
          day_pos the_doy the_mp doy_le (month_lem the_doy doy_le).0,
          month_pos the_mp mp_lt,
          small_id (era *ℤ pos 400) era-IsSmall,
          small_id the_year (IsSmall-more the_year year-IsSmall),
          small_id (the_year +ℤ pos 1) succ-IsSmall,
        )
        (ground arith)

  year_back :
      (if leb_ℤ (pos (if ltb the_mp 10 then the_mp + 3 else the_mp - 9)) (pos 2)
        then wrap_i64 ((if ltb the_mp 10 then the_year else the_year +ℤ pos 1) -ℤ pos 1)
        else (if ltb the_mp 10 then the_year else the_year +ℤ pos 1))
      ≡ the_year
  year_back =
      let (_, _, mp_lt) = month_lem the_doy doy_le in
      year_back_of the_year the_mp mp_lt year-IsSmall

  yoe_back : wrap_i64 (the_year -ℤ wrap_i64 (era *ℤ pos 400)) ≡ pos the_yoe
  yoe_back =
      rw (small_id (era *ℤ pos 400) era-IsSmall, add_sub (pos the_yoe) (era *ℤ pos 400))
        (small_id (pos the_yoe) (omega (arith, yoe-lt doe h)))

  mp_back :
      wrap_i64 (pos (if ltb the_mp 10 then the_mp + 3 else the_mp - 9) +ℤ pos 9) %ℤ 12 ≡ pos the_mp
  unfolding ◌+ℤ◌ ◌%ℤ◌ wrap_i64
  mp_back = let (_, _, mp_lt) = month_lem the_doy doy_le in ground arith

  doy_back :
      wrap_i64 (
        wrap_i64
          ((pos 153 *ℤ pos the_mp +ℤ pos 2) /ℤ 5 +ℤ pos (the_doy - (153 * the_mp + 2) / 5 + 1))
        -ℤ pos 1)
      ≡ pos the_doy
  doy_back = doy_back_of the_doy the_mp doy_le (month_lem the_doy doy_le).0

  doe_back :
      wrap_i64 (pos the_yoe *ℤ pos 365 +ℤ pos the_yoe /ℤ 4 -ℤ pos the_yoe /ℤ 100 +ℤ pos the_doy)
      ≡ pos doe
  doe_back = doe_back_of the_yoe doe (yoe-le doe h) h

  days_from_date_of_era :
      let date = date_of_era era (pos doe) in
      days_from_civil date.year (pos date.month) (pos date.day)
      ≡ wrap_i64 (wrap_i64 (wrap_i64 (era *ℤ pos 146097) +ℤ pos doe) -ℤ pos 719468)
  unfolding days_from_civil
  days_from_date_of_era =
      rw (date_of_era_lem, year_back, era_of_year_lem, yoe_back, mp_back, doy_back, doe_back) refl

  date_of_era_ranges :
      let date = date_of_era era (pos doe) in
      (1 ≤ date.month) × (date.month ≤ 12) × (1 ≤ date.day) × (date.day ≤ 31)
  date_of_era_ranges =
      let (_, day_le, mp_lt) = month_lem the_doy doy_le in
      rw date_of_era_lem (ground arith, ground arith, omega arith, omega arith)

era-IsSmall_of : (era : ℤ) → IsSmall (2 ^ 61) (era *ℤ pos 146097) → IsSmall (2 ^ 50) era
unfolding ◌*ℤ◌
era-IsSmall_of era h = ground arith

add_sub_left : (a b : ℤ) → a +ℤ b -ℤ a ≡ b
add_sub_left a b = omega int_laws

rest_of : (z e : ℤ) (r : ℕ) → z ≡ e +ℤ pos r → z -ℤ e ≡ pos r
rest_of z e r h = rw h (add_sub_left e (pos r))

shifted-IsSmall : (days : ℤ) → IsSmall (2 ^ 56) days → IsSmall (2 ^ 60) (days +ℤ pos 719468)
unfolding ◌+ℤ◌
shifted-IsSmall days h = ground arith

-- A day count is a day of an era.
civil_from_days_lem :
    (days : ℤ)
    → IsSmall (2 ^ 56) days
    → (era : ℤ) × (doe : ℕ) × IsSmall (2 ^ 50) era
      × (doe < 146097)
      × (wrap_i64 (wrap_i64 (wrap_i64 (era *ℤ pos 146097) +ℤ pos doe) -ℤ pos 719468) ≡ days)
      × (civil_from_days days ≡ date_of_era era (pos doe))
unfolding civil_from_days
civil_from_days_lem days bound =
    let z = days +ℤ pos 719468 in
    let (doe, lt, small, split) = era_of_days z (shifted-IsSmall days bound) in
    let era = era_of z 146097 in
    let z_id : wrap_i64 z ≡ z = small_id z (IsSmall-more z (shifted-IsSmall days bound)) in
    let e_id : wrap_i64 (era *ℤ pos 146097) ≡ era *ℤ pos 146097 =
      small_id (era *ℤ pos 146097) (omega arith, omega arith) in
    (
      era,
      doe,
      era-IsSmall_of era small,
      lt,
      rw (e_id, ← split, z_id, add_sub days (pos 719468))
          (small_id days (omega arith, omega arith)),
      rw
          (
            z_id,
            e_id,
            rest_of z (era *ℤ pos 146097) doe split,
            small_id (pos doe) (omega arith, omega arith),
          )
          refl,
    )

-- A day count within 2^56 of the epoch becomes a date with a month from 1 to 12 and a day from 1
-- to 31, and `days_from_civil` of that date is the day count again.
pub days_from_civil-civil_from_days :
    (days : ℤ)
    → IsSmall (2 ^ 56) days
    → let date = civil_from_days days in
      (days_from_civil date.year (pos date.month) (pos date.day) ≡ days)
      × (1 ≤ date.month)
      × (date.month ≤ 12)
      × (1 ≤ date.day)
      × (date.day ≤ 31)
days_from_civil-civil_from_days days bound =
    let (era, doe, small, lt, back, same) = civil_from_days_lem days bound in
    let (a, b, c, d) = date_of_era_ranges era doe small lt in
    rw same (days_from_date_of_era era doe small lt ∙ back, a, b, c, d)
