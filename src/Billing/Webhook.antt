-- ===== src/Billing/Webhook.antt =====
-- The webhook of the payment provider (internal/billing/webhook.go, webhook_payments.go).
pub mod Settled
pub mod Activation
pub mod Settles
pub mod Replay
pub mod Once
pub mod Atomic
pub mod Renewal
pub mod Credit
pub mod Granted
pub mod Grants
use kartochki_online_backend.Prelude.{
  ℕ, zero, suc, ◌==◌, Bool, true, false, not, String, Option, none, some, List, str_eq,
  if◌then◌else◌,
}
use kartochki_online_backend.Prelude.Int.{ℤ, int32, pos}
use kartochki_online_backend.Calendar.{Time}
use kartochki_online_backend.Provider.{Uuid, PlanPeriod}
use kartochki_online_backend.Environment.{Environment}
use kartochki_online_backend.Database.{
  Db, SqlError, no_rows, Plan, AddonProduct, Subscription, Payment, PaymentKind,
  subscription_payment, renewal_payment, addon_payment, other_payment, awaiting, to_pg_text,
}
use kartochki_online_backend.Database.Catalog.{get_billing_plan_by_code, get_addon_product_by_code}
use kartochki_online_backend.Database.Payments.{
  CreatePaymentParams, get_payment_by_provider_id, create_payment, mark_payment_paid,
  mark_payment_canceled,
}
use kartochki_online_backend.Database.Subscriptions.{
  get_current_subscription_by_user_id, UpsertActiveSubscriptionParams, upsert_active_subscription,
  CardDetails, set_subscription_card_details,
}
use kartochki_online_backend.Database.Quotas.{
  add_addon_cards_to_quota, UpsertUsageQuotaParams, upsert_usage_quota_for_subscription,
}
use kartochki_online_backend.World.{
  M, pure, fail, ◌>>=◌, ◌>>◌, reject_if, require, time_now, missing_or, expect, find, Ending,
  commit, roll_back, transaction,
}
use kartochki_online_backend.Billing.Amount.{parse_rub_amount}
use kartochki_online_backend.Billing.Types.{
  Error, wrapped, WebhookEvent, WebhookEventType, payment_succeeded, payment_canceled, other_event,
  WebhookPaymentCard, provider_yookassa, parse_user_id, Period,
}
use kartochki_online_backend.Billing.Periods.{
  billing_period_end, billing_period_for_plan, amount_for_period,
}

-- subscriptionProviderID
unfoldable pub subscription_provider_id : WebhookEvent → String
subscription_provider_id event =
    if str_eq event.provider_payment_method_id ""
    then event.provider_payment_id
    else event.provider_payment_method_id

abbrev or_now : Option Time → Time → Time
or_now none now = now
or_now (some t) now = t

abbrev pub card_of : WebhookEvent → WebhookPaymentCard → CardDetails
card_of event card = record {
  method_type = to_pg_text event.payment_method_type;
  last4 = to_pg_text card.last4;
  card_type = to_pg_text card.card_type;
  expiry_month = to_pg_text card.expiry_month;
  expiry_year = to_pg_text card.expiry_year;
}

abbrev pub upsert_params :
    WebhookEvent → Uuid → Uuid → Time → Period → UpsertActiveSubscriptionParams
upsert_params event user plan paid_at p = record {
  user_id = user;
  plan_id = plan;
  provider = provider_yookassa;
  provider_subscription_id = to_pg_text (subscription_provider_id event);
  has_payment_method = not (str_eq event.provider_payment_method_id "");
  started_at = paid_at;
  current_period_start = p.start;
  current_period_end = p.end_at;
  renews_at = some p.end_at;
}

abbrev pub quota_params : Uuid → Uuid → Period → ℕ → UpsertUsageQuotaParams
quota_params user subscription p limit = record {
  user_id = user;
  subscription_id = subscription;
  period_start = p.start;
  period_end = p.end_at;
  cards_limit = limit;
}

module _ (env : Environment) where
  abbrev period_from_current : WebhookEvent → Uuid → M Error Period
  period_from_current event user =
      expect (λ _. wrapped "get current subscription for renewal")
        (get_current_subscription_by_user_id user)
      >>= λ current. pure (record {
        start = current.row.current_period_end;
        end_at = billing_period_end current.row.current_period_end event.period;
      })

  unfoldable pub subscription_period_for_webhook :
      PaymentKind → WebhookEvent → Uuid → Time → M Error Period
  subscription_period_for_webhook renewal_payment event user paid_at =
      period_from_current event user
  subscription_period_for_webhook _ event user paid_at =
      pure (billing_period_for_plan paid_at event.period)

  abbrev pub set_card_details : WebhookEvent → Uuid → Option WebhookPaymentCard → M Error (Unit {0})
  set_card_details event id none = pure tt
  set_card_details event id (some card) =
      expect (λ _. wrapped "set subscription card details")
        (set_subscription_card_details id (card_of event card))

  unfoldable pub activate_subscription : WebhookEvent → Time → M Error (Unit {0})
  unfolding subscription_period_for_webhook
  activate_subscription event paid_at = do
    user ← require (parse_user_id env event.user_id) (wrapped "parse user_id from webhook metadata")
    plan ←
        expect
          (missing_or (wrapped "plan not found for webhook activation")
            (wrapped "get plan for webhook activation"))
          (get_billing_plan_by_code event.plan_code)
    p ← subscription_period_for_webhook event.kind event user paid_at
    sub ←
        expect (λ _. wrapped "upsert active subscription")
          (upsert_active_subscription (upsert_params event user plan.id paid_at p))
    set_card_details event sub.id event.payment_method_card
    expect (λ _. wrapped "upsert usage quota after subscription activation")
        (upsert_usage_quota_for_subscription (quota_params user sub.id p plan.cards_per_month))
    pure tt

  unfoldable pub activate_addon : WebhookEvent → Time → M Error (Unit {0})
  activate_addon event paid_at = do
    user ←
        require (parse_user_id env event.user_id)
          (wrapped "parse user_id from webhook addon metadata")
    addon ←
        expect
          (missing_or (wrapped "addon not found for webhook activation")
            (wrapped "get addon for webhook activation"))
          (get_addon_product_by_code event.addon_code)
    affected ←
        expect (λ _. wrapped "add addon cards to quota")
          (add_addon_cards_to_quota addon.cards_count user paid_at)
    reject_if (affected == 0) (wrapped "no active usage quota to credit addon")

  -- The `switch` on the type of the payment; another type activates nothing.
  unfoldable pub activate : PaymentKind → WebhookEvent → Time → M Error (Unit {0})
  activate subscription_payment event paid_at = activate_subscription event paid_at
  activate renewal_payment event paid_at = activate_subscription event paid_at
  activate addon_payment event paid_at = activate_addon event paid_at
  activate (other_payment _) event paid_at = pure tt

  abbrev base_params : WebhookEvent → Uuid → ℕ → CreatePaymentParams
  base_params event user amount = record {
    user_id = user;
    subscription_id = none;
    addon_product_id = none;
    provider = provider_yookassa;
    provider_payment_id = to_pg_text event.provider_payment_id;
    kind = event.kind;
    status = awaiting;
    amount = int32 amount;
    currency = event.amount_currency;
    checkout_url = none;
  }

  unfoldable pub for_plan : WebhookEvent → Uuid → ℕ → M Error CreatePaymentParams
  for_plan event user amount = do
    plan ←
        expect (λ _. wrapped "get plan for webhook payment restore")
          (get_billing_plan_by_code event.plan_code)
    expected ←
        require (amount_for_period plan.monthly_price plan.yearly_monthly_price event.period)
          Error.invalid_plan_period
    reject_if (not (amount == expected)) (wrapped "webhook payment amount mismatch for plan")
    pure (base_params event user amount)

  unfoldable pub for_addon : WebhookEvent → Uuid → ℕ → M Error CreatePaymentParams
  for_addon event user amount = do
    addon ←
        expect (λ _. wrapped "get addon for webhook payment restore")
          (get_addon_product_by_code event.addon_code)
    reject_if (not (amount == addon.price)) (wrapped "webhook payment amount mismatch for addon")
    pure (record (base_params event user amount) { addon_product_id = some addon.id })

  abbrev params_for_kind : PaymentKind → WebhookEvent → Uuid → ℕ → M Error CreatePaymentParams
  params_for_kind subscription_payment event user amount = for_plan event user amount
  params_for_kind renewal_payment event user amount = for_plan event user amount
  params_for_kind addon_payment event user amount = for_addon event user amount
  params_for_kind (other_payment _) event user amount =
      fail (wrapped "unsupported payment type in webhook metadata")

  unfoldable pub webhook_payment_create_params : WebhookEvent → M Error CreatePaymentParams
  unfolding for_plan for_addon
  webhook_payment_create_params event = do
    user ←
        require (parse_user_id env event.user_id)
          (wrapped "parse user_id from webhook payment metadata")
    amount ← require (parse_rub_amount event.amount_value) (wrapped "parse webhook amount")
    params_for_kind event.kind event user amount

  abbrev pub create_missing : WebhookEvent → Option Payment → M Error (Unit {0})
  create_missing event (some _) = pure tt
  create_missing event none = do
    params ← webhook_payment_create_params event
    expect (λ _. wrapped "create missing pending payment from webhook") (create_payment params)
    pure tt

  unfoldable pub ensure_pending_payment_for_webhook : WebhookEvent → M Error (Unit {0})
  unfolding webhook_payment_create_params
  ensure_pending_payment_for_webhook event =
      find (λ _. wrapped "get payment before webhook activation")
        (get_payment_by_provider_id (to_pg_text event.provider_payment_id))
      >>= create_missing event

  -- No row affected: another call has handled the payment, and `return nil` rolls back.
  abbrev pub after_mark : WebhookEvent → Time → ℕ → M Error (Ending (Unit {0}))
  after_mark event paid_at zero = pure (roll_back tt)
  after_mark event paid_at (suc n) = activate event.kind event paid_at >>= λ _. pure (commit tt)

  unfoldable pub succeeded_body : WebhookEvent → Time → M Error (Ending (Unit {0}))
  unfolding ensure_pending_payment_for_webhook activate activate_subscription activate_addon
  succeeded_body event paid_at = do
    ensure_pending_payment_for_webhook event
    affected ←
        expect (λ _. wrapped "mark payment paid")
          (mark_payment_paid (to_pg_text event.provider_payment_id) (some paid_at))
    after_mark event paid_at affected

  unfoldable pub handle_payment_succeeded : WebhookEvent → M Error (Unit {0})
  unfolding succeeded_body
  handle_payment_succeeded event = do
    now ← time_now
    transaction (wrapped "begin webhook transaction") (wrapped "commit webhook transaction")
        (succeeded_body event (or_now event.paid_at now))

  unfoldable pub handle_payment_canceled : WebhookEvent → M Error (Unit {0})
  handle_payment_canceled event = do
    expect (λ _. wrapped "mark payment canceled")
        (mark_payment_canceled (to_pg_text event.provider_payment_id))
    pure tt

  unfoldable pub dispatch : WebhookEventType → WebhookEvent → M Error (Unit {0})
  dispatch payment_succeeded event = handle_payment_succeeded event
  dispatch payment_canceled event = handle_payment_canceled event
  dispatch (other_event _) event = pure tt

  unfoldable pub handle_webhook_event : WebhookEvent → M Error (Unit {0})
  unfolding dispatch handle_payment_succeeded handle_payment_canceled
  handle_webhook_event event = dispatch event.event_type event
