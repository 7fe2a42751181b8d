-- ===== src/Civil/Era.antt =====
-- The arithmetic of one era of 400 years, over natural numbers.
use gabrielbrowser.Base.{ℕ, ◌+◌, ◌-◌, ◌*◌, ◌/◌, ◌≤◌, ◌<◌, arith}

unfoldable pub yoe_of : ℕ → ℕ
yoe_of doe = (doe - doe / 1460 + doe / 36524 - doe / 146096) / 365

pub yoe-lt : (doe : ℕ) → doe < 146097 → yoe_of doe < 400
unfolding yoe_of
yoe-lt doe h = omega arith

pub yoe-le : (doe : ℕ) → doe < 146097 → 365 * yoe_of doe + yoe_of doe / 4 - yoe_of doe / 100 ≤ doe
unfolding yoe_of
yoe-le doe h = omega arith

pub doy-le :
    (doe : ℕ) → doe < 146097 → doe ≤ 365 + (365 * yoe_of doe + yoe_of doe / 4 - yoe_of doe / 100)
unfolding yoe_of
doy-le doe h = omega arith

pub month_lem :
    (doy : ℕ)
    → doy ≤ 365
    → ((153 * ((5 * doy + 2) / 153) + 2) / 5 ≤ doy)
      × (doy ≤ (153 * ((5 * doy + 2) / 153) + 2) / 5 + 30)
      × ((5 * doy + 2) / 153 < 12)
month_lem doy h = omega arith
