-- ===== src/Civil/Text.antt =====
-- Instants as text, `format_iso8601` and `parse_iso8601` of crates/gabriel-core/src/lib.rs.
use gabrielbrowser.Base.{
  ℕ, zero, suc, ◌-◌, Bool, not, ◌&&◌, ◌||◌, Option, none, some, List, [], ◌∷◌, ◌++◌, Str, codes,
  if◌then◌else◌, ◌==◌, length, take, drop, filter, starts_with, strip_suffix, ◌>>=◌, get_elem?,
}
use gabrielbrowser.Base.Decimal.{decimal}
use gabrielbrowser.Base.Int.{ℤ, pos, negsuc, pos_part, ◌+ℤ◌, ◌-ℤ◌, ◌*ℤ◌, leb_ℤ, wrap_i64, parse_i64}
use gabrielbrowser.Base.Text.{split, split_once, trim, is_digit}
use gabrielbrowser.Capture.Url.{is_boundary}
use gabrielbrowser.Civil.{iso8601_fields, days_from_civil}

abbrev zeros : ℕ → Str
zeros zero = []
zeros (suc n) = b'0' ∷ zeros n

-- `{n:0w}` of an unsigned and of a signed number
abbrev pub padded : ℕ → ℕ → Str
padded width n = let digits = decimal n in zeros (width - length digits) ++ digits

abbrev pub padded_ℤ : ℕ → ℤ → Str
padded_ℤ width (pos n) = padded width n
padded_ℤ width (negsuc n) = b'-' ∷ padded (width - 1) (suc n)

unfoldable pub format_iso8601 : ℕ → Str
unfolding iso8601_fields
format_iso8601 ms =
    let i = iso8601_fields ms in
    padded_ℤ 4 i.date.year
    ++ (b'-'
        ∷ (padded 2 i.date.month
            ++ (b'-'
                ∷ (padded 2 i.date.day
                    ++ (b'T'
                        ∷ (padded_ℤ 2 i.hour
                            ++ (b':'
                                ∷ (padded_ℤ 2 i.minute
                                    ++ (b':'
                                        ∷ (padded_ℤ 2 i.second
                                            ++ (b'.' ∷ (padded 3 i.millis ++ codes "Z"))))))))))))

-- `value.split_once(['T', 't', ' '])`
unfoldable pub split_date : Str → Option (Str × Str)
split_date [] = none
split_date (c ∷ s) =
    let rest = split_date s in
    if c == b'T' || (c == b't' || c == b' ')
    then some ([], s)
    else (do p ← rest; some (c ∷ p.0, p.1))

-- the part of a text at an index, as a number
abbrev pub number_at : List Str → ℕ → Option ℤ
number_at parts i = get_elem? parts i >>= parse_i64

-- `(low..=high).contains(&n)`
abbrev pub within : ℤ → ℤ → ℤ → Bool
within low high n = leb_ℤ low n && leb_ℤ n high

-- around the last sign: `rfind(['+', '-'])` and `split_at`
unfoldable pub split_sign : Str → Option (Str × Str)
split_sign [] = none
split_sign (c ∷ s) =
    let rest = split_sign s in
    elim rest [
      | some (time, offset) ↦ some (c ∷ time, offset)
      | none ↦ if c == b'+' || c == b'-' then some ([], c ∷ s) else none
    ]

abbrev pub minutes_of : Option ℤ → Option ℤ → Option ℤ
minutes_of hours minutes = do h ← hours; m ← minutes; some (wrap_i64 (wrap_i64 (h *ℤ pos 60) +ℤ m))

-- The minutes of an offset behind its sign; the outer `none` is a panic, of a slice that ends inside
-- a character.
unfoldable pub offset_minutes : Str → Option (Option ℤ)
offset_minutes offset = elim (split_once b':' offset) [
  | some (h, m) ↦ some (minutes_of (parse_i64 h) (parse_i64 m))
  | none ↦
      if length offset == 4
      then (if is_boundary (drop 2 offset)
          then some (minutes_of (parse_i64 (take 2 offset)) (parse_i64 (drop 2 offset)))
          else none)
      else some (minutes_of (parse_i64 offset) (some (pos 0)))
]

abbrev pub signed : Bool → ℤ → ℤ
signed negative n = if negative then wrap_i64 (pos 0 -ℤ n) else n

-- The time and its offset; the outer `none` is a panic.
unfoldable pub split_offset : Str → Option (Option (Str × ℤ))
unfolding split_sign offset_minutes
split_offset rest = elim (strip_suffix rest (codes "Z")) [
  | some time ↦ some (some (time, pos 0))
  | none ↦ elim (strip_suffix rest (codes "z")) [
    | some time ↦ some (some (time, pos 0))
    | none ↦ elim (split_sign rest) [
      | none ↦ some (some (rest, pos 0))
      | some (time, offset) ↦ elim (offset_minutes (drop 1 offset)) [
        | none ↦ none
        | some minutes ↦
            some (do m ← minutes; some (time, signed (starts_with offset (codes "-")) m))
      ]
    ]
  ]
]

-- the first three digits of a fraction, padded with zeros behind them
abbrev pub fraction_millis : Str → Option ℤ
fraction_millis fraction =
    let digits = take 3 (filter is_digit fraction) in
    parse_i64 (digits ++ zeros (3 - length digits))

-- seconds and milliseconds
abbrev pub second_fields : Option Str → Option (ℤ × ℤ)
second_fields none = some (pos 0, pos 0)
second_fields (some seconds) = elim (split_once b'.' seconds) [
  | some (whole, fraction) ↦ (do w ← parse_i64 whole; m ← fraction_millis fraction; some (w, m))
  | none ↦ (do w ← parse_i64 seconds; some (w, pos 0))
]

abbrev pub instant_of : ℤ → ℤ → ℤ → ℤ → ℤ → ℤ × ℤ → ℤ → Option ℕ
instant_of year month day hour minute (second, millis) offset =
    if not (
      within (pos 0) (pos 23) hour
      && (within (pos 0) (pos 59) minute && within (pos 0) (pos 60) second))
    then none
    else (let days = days_from_civil year month day in
        let seconds = wrap_i64 (
          wrap_i64 (
            wrap_i64 (
              wrap_i64 (wrap_i64 (days *ℤ pos 86400) +ℤ wrap_i64 (hour *ℤ pos 3600))
              +ℤ wrap_i64 (minute *ℤ pos 60))
            +ℤ second)
          -ℤ wrap_i64 (offset *ℤ pos 60)) in
        let total = wrap_i64 (wrap_i64 (seconds *ℤ pos 1000) +ℤ millis) in
        if leb_ℤ (pos 0) total then some (pos_part total) else none)

abbrev pub time_fields : ℤ → ℤ → ℤ → Str → ℤ → Option ℕ
time_fields year month day time offset =
    let parts = split b':' time in
    do
      hour ← number_at parts 0
      minute ← number_at parts 1
      seconds ← second_fields (get_elem? parts 2)
      instant_of year month day hour minute seconds offset

abbrev pub date_fields : Str → Option (ℤ × ℤ × ℤ)
date_fields date =
    let parts = split b'-' date in
    do
      year ← number_at parts 0
      month ← number_at parts 1
      day ← number_at parts 2
      if within (pos 1) (pos 12) month && within (pos 1) (pos 31) day
          then some (year, month, day)
          else none

-- The outer `none` is a panic.
unfoldable pub parse_iso8601 : Str → Option (Option ℕ)
unfolding split_date split_offset
parse_iso8601 value = elim (split_date (trim value)) [
  | none ↦ some none
  | some (date, rest) ↦ elim (date_fields date) [
    | none ↦ some none
    | some (year, month, day) ↦ elim (split_offset rest) [
      | none ↦ none
      | some zone ↦ some (zone >>= (λ z. time_fields year month day z.0 z.1))
    ]
  ]
]
