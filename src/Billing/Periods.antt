-- ===== src/Billing/Periods.antt =====
-- The billing periods (internal/billing/webhook.go, subscriptions.go) and the price of one
-- (checkout.go).
use kartochki_online_backend.Prelude.{
  ℕ, ◌+◌, ◌-◌, ◌*◌, ◌%◌, ◌<◌, ◌≤◌, ◌≡◌, ◌⊎◌, Option, none, some, if◌then◌else◌, ◌==◌, arith,
}
use kartochki_online_backend.Calendar.{Time, day_length, truncate_day, add_date}
use kartochki_online_backend.Calendar.Laws.{add_date-year, add_date-month}
use kartochki_online_backend.Provider.{PlanPeriod, monthly, yearly, other_period}
use kartochki_online_backend.Billing.Types.{Period}

unfoldable pub billing_period_end : Time → PlanPeriod → Time
billing_period_end start yearly = add_date start 1 0
billing_period_end start monthly = add_date start 0 1
billing_period_end start (other_period _) = add_date start 0 1

unfoldable pub billing_period_for_plan : Time → PlanPeriod → Period
unfolding billing_period_end
billing_period_for_plan from period = record {
  start = truncate_day from;
  end_at = billing_period_end (truncate_day from) period;
}

unfoldable pub renewal_period : Time → Time → PlanPeriod
renewal_period start end_at = if add_date start 1 0 == end_at then yearly else monthly

-- `amountForPeriod`, and `amountForRenewal` on the same two columns; `none` is ErrInvalidPlanPeriod.
unfoldable pub amount_for_period : ℕ → Option ℕ → PlanPeriod → Option ℕ
amount_for_period monthly_price yearly_price monthly = some monthly_price
amount_for_period monthly_price none yearly = none
amount_for_period monthly_price (some n) yearly = some (n * 12)
amount_for_period monthly_price yearly_price (other_period _) = none

abbrev pub Lasts : PlanPeriod → Time → Time → Type 0
Lasts yearly start end_at =
    (start + 365 * day_length ≤ end_at) × (end_at ≤ start + 366 * day_length)
Lasts _ start end_at = (start + 28 * day_length ≤ end_at) × (end_at ≤ start + 31 * day_length)

billing_period_end-Lasts :
    (start : Time) (p : PlanPeriod) → Lasts p start (billing_period_end start p)
unfolding billing_period_end
billing_period_end-Lasts start yearly = add_date-year start
billing_period_end-Lasts start monthly = add_date-month start
billing_period_end-Lasts start (other_period _) = add_date-month start

covers : (from : Time) (p : PlanPeriod) → from < billing_period_end (from - from % day_length) p
covers from yearly =
    let (low, _) = billing_period_end-Lasts (from - from % day_length) yearly in omega arith
covers from monthly =
    let (low, _) = billing_period_end-Lasts (from - from % day_length) monthly in omega arith
covers from (other_period s) =
    let (low, _) = billing_period_end-Lasts (from - from % day_length) (other_period s) in
    omega arith

-- A period that is bought at a time begins at or before that time and ends after it;
-- it lasts 365 or 366 days if it is yearly, and 28 to 31 days if it is not.
pub billing_period_for_plan_bounds :
    (from : Time) (p : PlanPeriod)
    → ((billing_period_for_plan from p).start ≤ from)
      × ((from < (billing_period_for_plan from p).end_at)
          × Lasts p (billing_period_for_plan from p).start (billing_period_for_plan from p).end_at)
unfolding billing_period_for_plan truncate_day
billing_period_for_plan_bounds from p =
    (omega arith, (covers from p, billing_period_end-Lasts (from - from % day_length) p))

-- The renewal job finds a monthly or yearly period again from its two ends, wherever it starts.
pub renewal_period-billing_period_end :
    (start : Time) (p : PlanPeriod)
    → (p ≡ monthly) ⊎ (p ≡ yearly)
    → renewal_period start (billing_period_end start p) ≡ p
unfolding renewal_period billing_period_end
renewal_period-billing_period_end start yearly h = ground arith
renewal_period-billing_period_end start monthly h =
    ground (arith, add_date-year start, add_date-month start)
renewal_period-billing_period_end start (other_period s) h = ground arith
