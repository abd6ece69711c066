-- ===== src/Budgets/Clock.antt =====
-- The start of a budget's window: _window_start of src/inferrail/budgets/enforcement.py. A time is a
-- number of microseconds since 1970 in UTC; the day of the month is Python's proleptic Gregorian one.
use inferrail.Common.{ℕ, ◌+◌, ◌-◌, ◌*◌, ◌/◌, ◌%◌, Option, none, some}
use inferrail.Budgets.Schema.{Window, per_work, daily, monthly}

abbrev pub day_us : ℕ
day_us = 86400000000

unfoldable pub day_start : ℕ → ℕ
day_start now = now / day_us * day_us

-- Days since March 1 of the year that begins then, of the day `day` since 1970: 719468 days lie
-- between the March 1 that starts year 0 and 1970, and 146097 days make 400 years.
unfoldable pub day_of_year : ℕ → ℕ
day_of_year day =
    let of_era = (day + 719468) % 146097 in
    let year = (of_era - of_era / 1460 + of_era / 36524 - of_era / 146096) / 365 in
    of_era - (365 * year + year / 4 - year / 100)

-- the days of the month that are over
unfoldable pub days_into_month : ℕ → ℕ
unfolding day_of_year
days_into_month day =
    let of_year = day_of_year day in
    let month = (5 * of_year + 2) / 153 in of_year - (153 * month + 2) / 5

unfoldable pub month_start : ℕ → ℕ
unfolding days_into_month
month_start now = let day = now / day_us in (day - days_into_month day) * day_us

unfoldable pub window_start : ℕ → Window → Option ℕ
unfolding day_start month_start
window_start now daily = some (day_start now)
window_start now monthly = some (month_start now)
window_start now per_work = none
