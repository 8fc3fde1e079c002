-- ===== src/Scenarios/Limits.antt =====
-- The theorems on limits, renewals, amounts and periods at the shop's data.
use kartochki_online_backend.Prelude.{◌<◌, none, ◌≤◌, ◌≡◌, refl, inr, some, [], ◌∷◌, arith}
use kartochki_online_backend.Prelude.Int.{pos}
use kartochki_online_backend.Prelude.Text.{trim_space}
use kartochki_online_backend.Calendar.{
  is_leap, year_length, month_length, ordinal, date_of, normalize_month, add_date,
}
use kartochki_online_backend.Provider.{monthly, yearly}
use kartochki_online_backend.Database.{Generation, completed, newest, reply}
use kartochki_online_backend.Database.Subscriptions.{
  CurrentSubscription, get_current_subscription_by_user_id,
}
use kartochki_online_backend.Database.Renewals.{DueSubscription}
use kartochki_online_backend.World.{World, err, recurring_payment, sql_now}
use kartochki_online_backend.Billing.Types.{parse_user_id, checkout_persistence_failed}
use kartochki_online_backend.Billing.Amount.{parse_rub_amount, format_amount}
use kartochki_online_backend.Billing.Amount.RoundTrip.{parse_rub_amount-format_amount}
use kartochki_online_backend.Billing.Periods.{
  billing_period_end, renewal_period, amount_for_period, billing_period_for_plan, Lasts,
  billing_period_for_plan_bounds, renewal_period-billing_period_end,
}
use kartochki_online_backend.Billing.Quota.{ensure_generation_allowed}
use kartochki_online_backend.Billing.Quota.Expired.{
  with_generations, ensure_generation_allowed-expired,
}
use kartochki_online_backend.Billing.Quota.Limit.{
  decision, quota_in_force, ensure_generation_allowed-decides,
}
use kartochki_online_backend.Billing.Subscriptions.{create_renewal_payment, recurring_input}
use kartochki_online_backend.Billing.Subscriptions.Renewal.{create_renewal_payment-unrecorded}
use kartochki_online_backend.Scenarios.Shop.{environment, provider, world, anna, subscription, noon}

abbrev current : CurrentSubscription
current = record { row = subscription; plan_code = "pro"; plan_name = "Pro"; cards_per_month = 30 }

known_user : parse_user_id environment "anna" ≡ some 1
unfolding parse_user_id trim_space
known_user = refl

found : get_current_subscription_by_user_id 1 (sql_now world) world.db ≡ (reply current, world.db)
unfolding get_current_subscription_by_user_id newest
found = refl

ensure_generation_allowed-decides_example :
    (ensure_generation_allowed environment "anna" (pos 6) world).0
    ≡ decision (quota_in_force current noon world.db) 25 6
unfolding newest
ensure_generation_allowed-decides_example =
    ensure_generation_allowed-decides environment "anna" 1 anna 6 current world refl (omega arith)
      known_user refl found (ground arith)

abbrev due : DueSubscription
due = record {
  id = 20;
  user_id = 1;
  provider_subscription_id = "card-1";
  current_period_start = subscription.current_period_start;
  current_period_end = subscription.current_period_end;
  renews_at = subscription.current_period_end;
  plan_code = "pro";
  plan_name = "Pro";
  monthly_price = 990;
  yearly_monthly_price = some 790;
  user_email = some "anna@example.com";
}

create_renewal_payment-unrecorded_example :
    create_renewal_payment environment provider due world ≡ (
      err checkout_persistence_failed,
      record world {
        outbox = recurring_payment (recurring_input environment provider due monthly 990) ∷ [];
      },
    )
unfolding renewal_period add_date date_of ordinal normalize_month is_leap year_length month_length
    amount_for_period
create_renewal_payment-unrecorded_example =
    create_renewal_payment-unrecorded environment provider due world 990
      (record { provider_payment_id = "p-again"; checkout_url = "" }) refl refl refl refl

parse_rub_amount-format_amount_example : parse_rub_amount (format_amount 990) ≡ some 990
parse_rub_amount-format_amount_example = parse_rub_amount-format_amount 990 (omega arith)

billing_period_for_plan_bounds_example :
    ((billing_period_for_plan noon yearly).start ≤ noon)
    × ((noon < (billing_period_for_plan noon yearly).end_at)
        × Lasts yearly
            (billing_period_for_plan noon yearly).start
            (billing_period_for_plan noon yearly).end_at)
billing_period_for_plan_bounds_example = billing_period_for_plan_bounds noon yearly

renewal_period-billing_period_end_example :
    renewal_period noon (billing_period_end noon yearly) ≡ yearly
renewal_period-billing_period_end_example = renewal_period-billing_period_end noon yearly (inr refl)

-- The same subscription in the world of May 2024, after its period.
abbrev later : World
later = record world { clock = 63850000000000000000 }

abbrev huge : Generation
huge = record {
  id = 41;
  user_id = 1;
  project_id = 70;
  source_asset_id = 71;
  marketplace_id = "ozon";
  style_id = "clean_catalog";
  current_step = "completed";
  progress_percent = 100;
  error_message = "";
  archive_asset_id = none;
  started_at = none;
  finished_at = none;
  model_id = "openai/gpt-5-image";
  card_count = 1000;
  status = completed;
  created_at = 63850000000000000001;
}

found_later :
    get_current_subscription_by_user_id 1 (sql_now later) later.db ≡ (reply current, later.db)
unfolding get_current_subscription_by_user_id newest
found_later = refl

ensure_generation_allowed-expired_example :
    (ensure_generation_allowed environment "anna" (pos 5) (with_generations (huge ∷ []) later)).0
    ≡ (ensure_generation_allowed environment "anna" (pos 5) later).0
unfolding newest
ensure_generation_allowed-expired_example =
    ensure_generation_allowed-expired environment "anna" 1 anna 5 current (huge ∷ []) later refl
      (omega arith) known_user refl found_later refl (omega arith) (omega arith) ((omega arith), tt)
      (ground arith)
