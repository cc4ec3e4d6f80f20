-- ===== src/Scheduler/Calendar.antt =====
-- What scheduler/model.py uses of Python's `datetime`: a date-time of one time zone is the number of
-- seconds on its wall clock since the start of day 0, where day 1 is 0001-01-01 (`toordinal`).
-- Date-times with the same `tzinfo` are compared and subtracted by their wall clocks.
use Prim.Native.String.{◌++◌}
use fox_runner_server.Prelude.{
  ℕ, ◌+◌, ◌-◌, ◌*◌, ◌/◌, ◌%◌, String, ◌≡◌, refl, ◌&&◌, ◌||◌, not, ltb, ◌==◌, if◌then◌else◌, Option,
  none, some,
}
use fox_runner_server.Prelude.Decimal.{two_digits}

abbrev pub Time : Type 0
Time = ℕ

-- the ordinal of its date
unfoldable pub day_of : Time → ℕ
day_of t = t / 86400

unfoldable pub midnight : Time → Time
unfolding day_of
midnight t = day_of t * 86400

-- `weekday()`: Monday is 0
unfoldable pub weekday : Time → ℕ
unfolding day_of
weekday t = (day_of t + 6) % 7

-- The constructor refuses an hour above 23 and a minute or second above 59.
unfoldable pub make_dt : Time → ℕ → ℕ → ℕ → Option Time
unfolding midnight
make_dt base hour minute second =
    if ltb hour 24 && ltb minute 60 && ltb second 60
    then some (midnight base + hour * 3600 + minute * 60 + second)
    else none

pub record CivilDate : Type 0 where
  pub year : ℕ
  pub month : ℕ
  pub day : ℕ

days_before_month : ℕ → ℕ → ℕ
days_before_month leap month =
    if ltb month 3 then (month - 1) * 31 else (month * 153 - 162) / 5 + leap

-- `date.fromordinal`, by the method of CPython's `_ord2ymd`
unfoldable pub civil : ℕ → CivilDate
unfolding days_before_month
civil ordinal =
    let n = ordinal - 1 in
    let n400 = n / 146097 in
    let n = n % 146097 in
    let n100 = n / 36524 in
    let n = n % 36524 in
    let n4 = n / 1461 in
    let n = n % 1461 in
    let n1 = n / 365 in
    let n = n % 365 in
    let year = n400 * 400 + n100 * 100 + n4 * 4 + n1 + 1 in
    let leap = if (n1 == 3) && (not (n4 == 24) || (n100 == 3)) then 1 else 0 in
    let guess = (n + 50) / 32 in
    let month = if ltb n (days_before_month leap guess) then guess - 1 else guess in
    if (n1 == 4) || (n100 == 4)
    then record { year = year - 1; month = 12; day = 31 }
    else record { year = year; month = month; day = n - days_before_month leap month + 1 }

four_digits : ℕ → String
unfolding two_digits
four_digits n = two_digits (n / 100) ++ two_digits (n % 100)

-- `date().isoformat()`
unfoldable pub iso_date : ℕ → String
unfolding civil four_digits two_digits
iso_date ordinal =
    let d = civil ordinal in
    four_digits d.year ++ "-" ++ two_digits d.month ++ "-" ++ two_digits d.day

first_day : iso_date 1 ≡ "0001-01-01"
unfolding iso_date
first_day = refl

leap_day : iso_date 738945 ≡ "2024-02-29"
unfolding iso_date
leap_day = refl

new_year_eve : iso_date 738885 ≡ "2023-12-31"
unfolding iso_date
new_year_eve = refl
