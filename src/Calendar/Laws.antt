-- ===== src/Calendar/Laws.antt =====
-- What a month or a year adds to a time.
use native.Mathlib.Decide.{dec_lt}
use kartochki_online_backend.Prelude.{
  ℕ, zero, suc, ◌+◌, ◌-◌, ◌*◌, ◌/◌, ◌≤◌, ◌<◌, ◌≡◌, refl, inl, inr, false, arith, ltb, Bool-cases,
}
use kartochki_online_backend.Calendar.{
  Time, Date, day_length, year_length, month_length, days_before_year, days_before_month, ordinal,
  find_month, find_year, date_of, normalize_month, add_date,
}

-- The date `d` in the year `y` lies `n` days after the first of the month `suc k`.
record IsDay (y k n : ℕ) (d : Date) : Type 0 where
  same_year : d.year ≡ y
  month_low : 1 ≤ d.month
  month_high : d.month ≤ 12
  total : days_before_month y (d.month - 1) + (d.day - 1) ≡ days_before_month y k + n

dbm_suc : (y k : ℕ) → days_before_month y (suc k) ≡ days_before_month y k + month_length y (suc k)
unfolding days_before_month
dbm_suc y k = refl

dbm_zero : (y : ℕ) → days_before_month y 0 ≡ 0
unfolding days_before_month
dbm_zero y = refl

dby_zero : days_before_year 0 ≡ 0
unfolding days_before_year
dby_zero = refl

dby_suc : (y : ℕ) → days_before_year (suc y) ≡ days_before_year y + year_length (suc y)
unfolding days_before_year
dby_suc y = refl

IsDay-later :
    (y k n : ℕ) (d : Date)
    → ltb n (month_length y (suc k)) ≡ false
    → IsDay y (suc k) (n - month_length y (suc k)) d
    → IsDay y k n d
IsDay-later y k n d past v = ground (arith, dbm_suc y k)

find_month-IsDay : (left y k n : ℕ) → k + left ≤ 11 → IsDay y k n (find_month left y (suc k) n)
unfolding find_month
find_month-IsDay zero y k n h = ground arith
find_month-IsDay (suc left) y k n h = elim (Bool-cases (ltb n (month_length y (suc k)))) [
  | inl here ↦ rw here (ground arith)
  | inr past ↦ rw past (
      IsDay-later y k n _ past
        (find_month-IsDay left y (suc k) (n - month_length y (suc k)) (omega arith)))
]

-- The date `d` lies `n` days after the first day of the year `suc y`.
record IsDate (y n : ℕ) (d : Date) : Type 0 where
  year_low : 1 ≤ d.year
  month_low : 1 ≤ d.month
  month_high : d.month ≤ 12
  total :
      days_before_year (d.year - 1) + days_before_month d.year (d.month - 1) + (d.day - 1)
      ≡ days_before_year y + n

IsDate-later :
    (y n : ℕ) (d : Date)
    → ltb n (year_length (suc y)) ≡ false
    → IsDate (suc y) (n - year_length (suc y)) d
    → IsDate y n d
IsDate-later y n d past v = ground (arith, dby_suc y)

IsDate-month : (y n : ℕ) → IsDate y n (find_month 11 (suc y) 1 n)
unfolding days_before_month
IsDate-month y n =
    let v = find_month-IsDay 11 (suc y) 0 n (omega arith) in
    grind (arith, v.total, v.same_year, v.month_low, v.month_high)

find_year-IsDate : (left y n : ℕ) → IsDate y n (find_year left (suc y) n)
unfolding find_year
find_year-IsDate zero y n = IsDate-month y n
find_year-IsDate (suc left) y n = elim (Bool-cases (ltb n (year_length (suc y)))) [
  | inl here ↦ rw here (IsDate-month y n)
  | inr past ↦
      rw past (IsDate-later y n _ past (find_year-IsDate left (suc y) (n - year_length (suc y))))
]

date_of-IsDate : (n : ℕ) → IsDate 0 n (date_of n)
unfolding date_of
date_of-IsDate n = find_year-IsDate n 0 n

-- The civil date of a day has that day's number.
pub ordinal-date_of : (n : ℕ) → ordinal (date_of n) ≡ n
unfolding ordinal
ordinal-date_of n = omega (arith, (date_of-IsDate n).total, dby_zero)

year_length-cases : (y : ℕ) → (365 ≤ year_length y) × (year_length y ≤ 366)
unfolding year_length
year_length-cases y = ground arith

month_length-cases : (y m : ℕ) → (28 ≤ month_length y m) × (month_length y m ≤ 31)
unfolding month_length
month_length-cases y m = ground arith

month_length-later :
    (y z k : ℕ) → month_length y (suc (suc (suc k))) ≡ month_length z (suc (suc (suc k)))
unfolding month_length
month_length-later y z k = ground arith

dbm-march :
    (y z : ℕ) → days_before_month y 2 + year_length z ≡ days_before_month z 2 + year_length y
unfolding days_before_month month_length year_length
dbm-march y z = ground arith

-- Past February the months before `suc (suc k)` differ between two years as the years do.
dbm-year :
    (y z k : ℕ)
    → days_before_month y (suc (suc k)) + year_length z
      ≡ days_before_month z (suc (suc k)) + year_length y
dbm-year y z zero = dbm-march y z
dbm-year y z (suc k) = omega (
  arith,
  dbm-year y z k,
  dbm_suc y (suc (suc k)),
  dbm_suc z (suc (suc k)),
  month_length-later y z k,
)

-- From a day of one year to the day of that month and number in the next year.
next_year_bounds :
    (y k : ℕ)
    → (days_before_month (suc y) k + 365 ≤ days_before_month (suc (suc y)) k + year_length (suc y))
      × (days_before_month (suc (suc y)) k + year_length (suc y)
          ≤ days_before_month (suc y) k + 366)
unfolding days_before_month month_length
next_year_bounds y zero = ground (arith, year_length-cases (suc y))
next_year_bounds y (suc zero) = ground (arith, year_length-cases (suc y))
next_year_bounds y (suc (suc k)) =
    omega (arith, dbm-year (suc (suc y)) (suc y) k, year_length-cases (suc (suc y)))

-- The year ends 31 days after the first of December.
dbm-december : (y : ℕ) → days_before_month y 11 + 31 ≡ year_length y
unfolding days_before_month month_length year_length
dbm-december y = ground arith

abbrev of_year_month_day : ℕ → ℕ → ℕ → Date
of_year_month_day y m d = record { year = y; month = m; day = d }

ordinal-suc :
    (y k d : ℕ)
    → ordinal (of_year_month_day (suc y) (suc k) d)
      ≡ days_before_year y + days_before_month (suc y) k + (d - 1)
unfolding ordinal
ordinal-suc y k d =
    let e : suc y - 1 ≡ y = omega arith in let e' : suc k - 1 ≡ k = omega arith in rw (e, e')

normalize_month-year :
    (y k d : ℕ)
    → k < 12
    → normalize_month (of_year_month_day (suc y + 1) (suc k + 0) d)
      ≡ of_year_month_day (suc (suc y)) (suc k) d
unfolding normalize_month
normalize_month-year y k d h = ground arith

normalize_month-month :
    (y k d : ℕ)
    → k < 11
    → normalize_month (of_year_month_day (suc y + 0) (suc k + 1) d)
      ≡ of_year_month_day (suc y) (suc (suc k)) d
unfolding normalize_month
normalize_month-month y k d h = ground arith

normalize_month-december :
    (y d : ℕ)
    → normalize_month (of_year_month_day (suc y + 0) (12 + 1) d)
      ≡ of_year_month_day (suc (suc y)) 1 d
unfolding normalize_month
normalize_month-december y d = ground arith

-- A later day, at least `low` and at most `high` days on.
record IsWithin (n n' low high : ℕ) : Type 0 where
  at_least : n + low ≤ n'
  at_most : n' ≤ n + high

ordinal-next_year :
    (d : Date)
    → 1 ≤ d.year
    → 1 ≤ d.month
    → d.month ≤ 12
    → IsWithin
        (ordinal d)
        (ordinal (normalize_month (record d { year = d.year + 1; month = d.month + 0 })))
        365
        366
ordinal-next_year d hy hm hl = go d.year d.month refl refl
  where
    go :
        (y m : ℕ)
        → d.year ≡ y
        → d.month ≡ m
        → IsWithin
            (ordinal (of_year_month_day y m d.day))
            (ordinal (normalize_month (of_year_month_day (y + 1) (m + 0) d.day)))
            365
            366
    go zero m e e' = absurd (omega arith)
    go (suc y) zero e e' = absurd (omega arith)
    go (suc y) (suc k) e e' =
        rw
          (
            normalize_month-year y k d.day (omega arith),
            ordinal-suc y k d.day,
            ordinal-suc (suc y) k d.day,
          )
          (omega (arith, next_year_bounds y k, dby_suc y))

ordinal-next_month :
    (d : Date)
    → 1 ≤ d.year
    → 1 ≤ d.month
    → d.month ≤ 12
    → IsWithin
        (ordinal d)
        (ordinal (normalize_month (record d { year = d.year + 0; month = d.month + 1 })))
        28
        31
ordinal-next_month d hy hm hl = go d.year d.month refl refl
  where
    december :
        (y : ℕ)
        → IsWithin
            (ordinal (of_year_month_day (suc y) 12 d.day))
            (ordinal (normalize_month (of_year_month_day (suc y + 0) (12 + 1) d.day)))
            28
            31
    december y =
        rw (normalize_month-december y d.day, ordinal-suc y 11 d.day, ordinal-suc (suc y) 0 d.day)
          (omega (arith, dbm-december (suc y), dby_suc y, dbm_zero (suc (suc y))))

    go :
        (y m : ℕ)
        → d.year ≡ y
        → d.month ≡ m
        → IsWithin
            (ordinal (of_year_month_day y m d.day))
            (ordinal (normalize_month (of_year_month_day (y + 0) (m + 1) d.day)))
            28
            31
    go zero m e e' = absurd (omega arith)
    go (suc y) zero e e' = absurd (omega arith)
    go (suc y) (suc k) e e' = elim (dec_lt k 11) [
      | yes h ↦
          rw (normalize_month-month y k d.day h, ordinal-suc y k d.day, ordinal-suc y (suc k) d.day)
            (omega (arith, dbm_suc (suc y) k, month_length-cases (suc y) (suc k)))
      | no h ↦ let q : k ≡ 11 = omega arith in rw q (december y)
    ]

-- A year later is 365 or 366 days later.
pub add_date-year :
    (t : Time) → (t + 365 * day_length ≤ add_date t 1 0) × (add_date t 1 0 ≤ t + 366 * day_length)
unfolding add_date
add_date-year t =
    let v = date_of-IsDate (t / day_length) in
    let w = ordinal-next_year (date_of (t / day_length)) v.year_low v.month_low v.month_high in
    omega (arith, w.at_least, w.at_most, ordinal-date_of (t / day_length))

-- A month later is 28 to 31 days later.
pub add_date-month :
    (t : Time) → (t + 28 * day_length ≤ add_date t 0 1) × (add_date t 0 1 ≤ t + 31 * day_length)
unfolding add_date
add_date-month t =
    let v = date_of-IsDate (t / day_length) in
    let w = ordinal-next_month (date_of (t / day_length)) v.year_low v.month_low v.month_high in
    omega (arith, w.at_least, w.at_most, ordinal-date_of (t / day_length))
