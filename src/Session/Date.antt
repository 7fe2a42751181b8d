-- ===== src/Session/Date.antt =====
-- `parse_http_date` of crates/gabriel-engine/src/session.rs: the `Expires` attribute.
use gabrielbrowser.Base.{
  ℕ, ◌*◌, ◌%◌, ◌^◌, Option, none, some, List, [], ◌∷◌, Str, codes, str_eq, ◌>>=◌, if◌then◌else◌,
}
use gabrielbrowser.Base.Text.{trim, split_once_str, split_whitespace, split}
use gabrielbrowser.Base.Int.{pos, clamp_zero, ◌+ℤ◌, ◌*ℤ◌, wrap_i64, parse_i64}
use gabrielbrowser.Civil.{days_from_civil}

unfoldable pub month_number : Str → Option ℕ
month_number m =
    if str_eq m (codes "Jan")
    then some 1
    else if str_eq m (codes "Feb")
    then some 2
    else if str_eq m (codes "Mar")
    then some 3
    else if str_eq m (codes "Apr")
    then some 4
    else if str_eq m (codes "May")
    then some 5
    else if str_eq m (codes "Jun")
    then some 6
    else if str_eq m (codes "Jul")
    then some 7
    else if str_eq m (codes "Aug")
    then some 8
    else if str_eq m (codes "Sep")
    then some 9
    else if str_eq m (codes "Oct")
    then some 10
    else if str_eq m (codes "Nov")
    then some 11
    else if str_eq m (codes "Dec")
    then some 12
    else none

-- `iter.next()?` on the items that are left
abbrev next : List Str → Option (Str × List Str)
next [] = none
next (x ∷ xs) = some (x, xs)

abbrev after_comma : Str → Option (Str × Str) → Str
after_comma value none = value
after_comma value (some (_, r)) = r

unfoldable pub parse_http_date : Str → Option ℕ
parse_http_date value = do
  let value = trim value
  let rest = after_comma value (split_once_str (codes ", ") value)
  (day_text, fields) ← next (split_whitespace rest)
  day ← parse_i64 day_text
  (month_text, fields) ← next fields
  month ← month_number month_text
  (year_text, fields) ← next fields
  year ← parse_i64 year_text
  (time, _) ← next fields
  (hour_text, hms) ← next (split b':' time)
  hour ← parse_i64 hour_text
  (minute_text, hms) ← next hms
  minute ← parse_i64 minute_text
  (second_text, _) ← next hms
  second ← parse_i64 second_text
  let days = days_from_civil year (pos month) day
  let secs = wrap_i64 (
      wrap_i64 (
        wrap_i64 (wrap_i64 (days *ℤ pos 86400) +ℤ wrap_i64 (hour *ℤ pos 3600))
        +ℤ wrap_i64 (minute *ℤ pos 60))
      +ℤ second)
  some (clamp_zero secs * 1000 % 2 ^ 64)
