-- ===== src/Billing/Subscriptions.antt =====
-- The renewal job, the cancellation and the removal of the card
-- (internal/billing/subscriptions.go, payment_method.go).
pub mod Renewal
use kartochki_online_backend.Prelude.{
  ℕ, zero, suc, Bool, true, false, String, Option, none, some, List, [], ◌∷◌, str_eq, ◌==◌,
  if◌then◌else◌,
}
use kartochki_online_backend.Prelude.Int.{ℤ, pos, negsuc, int32, leb_ℤ}
use kartochki_online_backend.Prelude.Text.{trim_space}
use kartochki_online_backend.Calendar.{Time}
use kartochki_online_backend.Provider.{
  Uuid, PlanPeriod, RecurringPaymentInput, CheckoutSession, CheckoutProvider,
}
use kartochki_online_backend.Environment.{Environment}
use kartochki_online_backend.Database.{
  renewal_payment, awaiting, SubscriptionStatus, scheduled_cancel, active, canceled, SqlError,
  to_pg_text, Subscription,
}
use kartochki_online_backend.Database.Payments.{CreatePaymentParams}
use kartochki_online_backend.Database.Subscriptions.{
  get_current_subscription_by_user_id, CurrentSubscription, clear_subscription_payment_method,
  mark_subscription_scheduled_cancel,
}
use kartochki_online_backend.Database.Renewals.{DueSubscription, list_subscriptions_due_for_renewal}
use kartochki_online_backend.World.{
  World, Result, ok, err, M, pure, fail, ◌>>=◌, ◌>>◌, reject_if, require, time_now, missing_or,
  expect, send, recurring_payment,
}
use kartochki_online_backend.Billing.Types.{
  Error, user_not_found, invalid_plan_period, checkout_provider_failed, subscription_not_cancelable,
  payment_method_not_found, wrapped, free_plan_code, checkout_currency_rub, provider_yookassa,
  parse_user_id,
}
use kartochki_online_backend.Billing.Periods.{amount_for_period, renewal_period}
use kartochki_online_backend.Billing.Checkout.{
  record_pending_payment, checkout_idempotency_key, period_text,
}

abbrev pub renewal_params : DueSubscription → ℕ → CheckoutSession → CreatePaymentParams
renewal_params row amount session = record {
  user_id = row.user_id;
  subscription_id = some row.id;
  addon_product_id = none;
  provider = provider_yookassa;
  provider_payment_id = to_pg_text session.provider_payment_id;
  kind = renewal_payment;
  status = awaiting;
  amount = int32 amount;
  currency = checkout_currency_rub;
  checkout_url = none;
}

abbrev pub is_scheduled_cancel : SubscriptionStatus → Bool
is_scheduled_cancel scheduled_cancel = true
is_scheduled_cancel _ = false

-- What the job reports: the payments made, and the errors joined.
pub record RenewalReport : Type 0 where
  pub created : ℕ
  pub joined : List Error

abbrev counted : Result Error (Unit {0}) → RenewalReport → RenewalReport
counted (ok _) r = record r { created = suc r.created }
counted (err e) r = record r { joined = e ∷ r.joined }

module _ (env : Environment) where
  module _ (provider : CheckoutProvider) where
    unfoldable pub create_recurring_payment : RecurringPaymentInput → M Error CheckoutSession
    create_recurring_payment input = do
      send checkout_provider_failed (recurring_payment input)
      require (provider.create_recurring_payment input) checkout_provider_failed

    abbrev pub email_text : Option String → String
    email_text none = ""
    email_text (some s) = s

    abbrev pub recurring_input : DueSubscription → PlanPeriod → ℕ → RecurringPaymentInput
    unfolding checkout_idempotency_key
    recurring_input row period amount = record {
      user_id = row.user_id;
      customer_email = email_text row.user_email;
      plan_code = row.plan_code;
      period = period;
      amount = amount;
      currency = checkout_currency_rub;
      payment_method_id = row.provider_subscription_id;
      receipt_description = row.plan_name;
      idempotency_key =
          checkout_idempotency_key env
            (env.print_uuid row.id ∷ env.rfc3339 row.current_period_end ∷ period_text period ∷ []);
    }

    unfoldable pub create_renewal_payment : DueSubscription → M Error (Unit {0})
    unfolding create_recurring_payment record_pending_payment renewal_period
    create_renewal_payment row = do
      let period = renewal_period row.current_period_start row.current_period_end
      amount ←
          require (amount_for_period row.monthly_price row.yearly_monthly_price period)
            invalid_plan_period
      session ← create_recurring_payment (recurring_input row period amount)
      record_pending_payment (renewal_params row amount session)

    -- The loop goes on after an error.
    unfoldable pub renew_each : List DueSubscription → World → RenewalReport × World
    unfolding create_renewal_payment
    renew_each [] w = (record { created = 0; joined = [] }, w)
    renew_each (row ∷ rows) w =
        let first_done = create_renewal_payment row w in
        let rest = renew_each rows first_done.1 in (counted first_done.0 rest.0, rest.1)

    -- `batchLimit <= 0` becomes 50; a limit above 2^31 is not modelled.
    abbrev limit_of : ℤ → ℕ
    limit_of (pos zero) = 50
    limit_of (pos (suc n)) = suc n
    limit_of (negsuc n) = 50

    unfoldable pub renew_due_subscriptions : ℤ → M Error RenewalReport
    unfolding renew_each
    renew_due_subscriptions batch_limit = do
      now ← time_now
      rows ←
          expect (λ _. wrapped "list subscriptions due for renewal")
            (list_subscriptions_due_for_renewal now (limit_of batch_limit))
      λ w. (ok (renew_each rows w).0, (renew_each rows w).1)

  abbrev pub cancel_unless : Uuid → CurrentSubscription → Bool → M Error (Unit {0})
  cancel_unless user current true = pure tt
  cancel_unless user current false = do
    affected ←
        expect (λ _. wrapped "mark subscription scheduled cancel")
          (mark_subscription_scheduled_cancel (some current.row.current_period_end) current.row.id
            user)
    reject_if (affected == 0) subscription_not_cancelable

  unfoldable pub cancel_subscription : String → M Error (Unit {0})
  cancel_subscription user_id = do
    user ← require (parse_user_id env user_id) user_not_found
    current ←
        expect
          (missing_or subscription_not_cancelable
            (wrapped "get current subscription before cancel"))
          (get_current_subscription_by_user_id user)
    reject_if (str_eq (trim_space current.plan_code) free_plan_code) subscription_not_cancelable
    cancel_unless user current (is_scheduled_cancel current.row.status)

  unfoldable pub remove_payment_method : String → M Error (Unit {0})
  remove_payment_method user_id = do
    user ← require (parse_user_id env user_id) user_not_found
    affected ←
        expect (λ _. wrapped "clear subscription payment method")
          (clear_subscription_payment_method user)
    reject_if (affected == 0) payment_method_not_found
