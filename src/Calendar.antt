-- ===== src/Calendar.antt =====
-- The functions of Go's package `time` that the billing service uses, in UTC.
-- A `time.Time` is the number of nanoseconds since 0001-01-01 00:00:00, Go's zero time, from which
-- `Truncate` counts too. Days are numbered from 0 at that date.
pub mod Laws
use kartochki_online_backend.Prelude.{
  ℕ, zero, suc, ◌+◌, ◌-◌, ◌*◌, ◌/◌, ◌%◌, ◌≤◌, ◌<◌, Bool, true, false, not, ◌&&◌, ◌||◌, ltb, ◌==◌,
  if◌then◌else◌,
}

abbrev pub Time : Type 0
Time = ℕ

abbrev pub second : ℕ
second = 1_000_000_000

abbrev pub minute : ℕ
minute = 60 * second

abbrev pub hour : ℕ
hour = 60 * minute

abbrev pub day_length : ℕ
day_length = 24 * hour

pub record Date : Type 0 where
  pub year : ℕ
  pub month : ℕ
  pub day : ℕ

unfoldable pub is_leap : ℕ → Bool
is_leap y = (y % 4 == 0) && (not (y % 100 == 0) || (y % 400 == 0))

unfoldable pub year_length : ℕ → ℕ
unfolding is_leap
year_length y = if is_leap y then 366 else 365

unfoldable pub month_length : ℕ → ℕ → ℕ
unfolding is_leap
month_length y m =
    if m == 2
    then (if is_leap y then 29 else 28)
    else if (m == 4) || ((m == 6) || ((m == 9) || (m == 11)))
    then 30
    else 31

-- Days from the first day of year 1 to that of year `y + 1`.
pub days_before_year : ℕ → ℕ
days_before_year zero = 0
days_before_year (suc y) = days_before_year y + year_length (suc y)

-- Days from the first day of the year `y` to that of the month `m + 1`.
pub days_before_month : ℕ → ℕ → ℕ
days_before_month y zero = 0
days_before_month y (suc m) = days_before_month y m + month_length y (suc m)

-- The number of a day; `time.Date` takes a day past the end of its month over to the next one.
unfoldable pub ordinal : Date → ℕ
unfolding days_before_year days_before_month year_length month_length
ordinal d = days_before_year (d.year - 1) + days_before_month d.year (d.month - 1) + (d.day - 1)

-- The month in which the `n`th day of the year `y` falls, searched from the month `m`.
find_month : ℕ → ℕ → ℕ → ℕ → Date
unfolding month_length
find_month zero y m n = record { year = y; month = m; day = n + 1 }
find_month (suc left) y m n =
    let later = find_month left y (suc m) (n - month_length y m) in
    if ltb n (month_length y m) then record { year = y; month = m; day = n + 1 } else later

-- The year in which the day `n` after the first of the year `y` falls.
find_year : ℕ → ℕ → ℕ → Date
unfolding find_month year_length
find_year zero y n = find_month 11 y 1 n
find_year (suc left) y n =
    let later = find_year left (suc y) (n - year_length y) in
    if ltb n (year_length y) then find_month 11 y 1 n else later

-- The civil date of a day. A year has at least one day, so `n` rounds reach it.
unfoldable pub date_of : ℕ → Date
unfolding find_year
date_of n = find_year n 1 n

-- t.Truncate(24 * time.Hour)
unfoldable pub truncate_day : Time → Time
truncate_day t = t - t % day_length

-- The months past December go to the following years, as `time.Date` does it.
unfoldable pub normalize_month : Date → Date
normalize_month d = record d { year = d.year + (d.month - 1) / 12; month = (d.month - 1) % 12 + 1 }

-- t.AddDate(years, months, 0), for numbers that are not negative.
unfoldable pub add_date : Time → ℕ → ℕ → Time
unfolding normalize_month ordinal date_of
add_date t years months =
    let d = date_of (t / day_length) in
    ordinal (normalize_month (record d { year = d.year + years; month = d.month + months }))
      * day_length
    + t % day_length

-- time.Date(now.Year(), now.Month(), 1, 0, 0, 0, 0, time.UTC)
unfoldable pub month_start : Time → Time
unfolding ordinal date_of
month_start t = ordinal (record (date_of (t / day_length)) { day = 1 }) * day_length

-- A day by its civil date, for the tests.
unfoldable pub midnight : ℕ → ℕ → ℕ → Time
unfolding ordinal
midnight y m d = ordinal (record { year = y; month = m; day = d }) * day_length
