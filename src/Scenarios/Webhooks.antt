-- ===== src/Scenarios/Webhooks.antt =====
-- The theorems on webhooks, renewals and subscriptions at the shop's data.
use kartochki_online_backend.Prelude.{true, false, eq_iff, ◌≡◌, ◌≢◌, refl, String, [], ◌∷◌, arith}
use kartochki_online_backend.Calendar.{
  is_leap, year_length, month_length, ordinal, date_of, truncate_day, normalize_month, add_date,
}
use kartochki_online_backend.Database.{newest, subscription_payment, renewal_payment}
use kartochki_online_backend.Database.Payments.{
  get_payment_by_provider_id, mark_payment_paid, create_payment,
}
use kartochki_online_backend.Database.Catalog.{get_addon_product_by_code, get_billing_plan_by_code}
use kartochki_online_backend.Database.Subscriptions.{upsert_active_subscription}
use kartochki_online_backend.Database.Quotas.{
  add_addon_cards_to_quota, upsert_usage_quota_for_subscription,
}
use kartochki_online_backend.World.{ok, err, ◌>>=◌, time_now, may_fail, expect, find, transaction}
use kartochki_online_backend.Billing.Types.{
  payment_succeeded, payment_canceled, wrapped, parse_user_id,
}
use kartochki_online_backend.Billing.Periods.{
  billing_period_end, billing_period_for_plan, amount_for_period,
}
use kartochki_online_backend.Billing.Webhook.{
  activate_addon, subscription_provider_id, subscription_period_for_webhook, activate_subscription,
  activate, webhook_payment_create_params, for_plan, ensure_pending_payment_for_webhook,
  succeeded_body, handle_payment_succeeded, handle_webhook_event, dispatch,
}
use kartochki_online_backend.Billing.Webhook.Once.{handle_webhook_event-once, handle_all}
use kartochki_online_backend.Billing.Webhook.Atomic.{handle_webhook_event-error_changes_nothing}
use kartochki_online_backend.Billing.Webhook.Credit.{Credited, activate_addon-credits}
use kartochki_online_backend.Billing.Webhook.Grants.{GrantedBy, activate_subscription-grants}
use kartochki_online_backend.Billing.Webhook.Renewal.{handle_webhook_event-renewal_refused}
use kartochki_online_backend.Billing.OneCurrent.{
  webhook, cancel, remove_card, after_calls, after_calls-OneCurrent,
}
use kartochki_online_backend.Database.Current.{OneCurrent}
use kartochki_online_backend.Billing.Amount.{
  parse_rub_amount, split_on, all_zeros, digits_value, atoi,
}
use kartochki_online_backend.Prelude.Text.{trim_space}
use kartochki_online_backend.Scenarios.Shop.{stocked, addon_event, noon, environment, world, event}

activated :
    (handle_webhook_event environment (event payment_succeeded subscription_payment "p-1") world).0
    ≡ ok tt
unfolding handle_webhook_event dispatch handle_payment_succeeded succeeded_body
    ensure_pending_payment_for_webhook activate activate_subscription
    subscription_period_for_webhook subscription_provider_id billing_period_for_plan
    billing_period_end truncate_day add_date date_of ordinal normalize_month is_leap year_length
    month_length parse_user_id trim_space get_payment_by_provider_id mark_payment_paid
    get_billing_plan_by_code upsert_active_subscription upsert_usage_quota_for_subscription time_now
    may_fail expect find transaction ◌>>=◌
activated = refl

unequal : ◌≢◌ {A = String} "p-1" ""
unequal = λ e. let q : false ≡ true = (eq_iff "p-1" "").1 e in ground arith

handle_webhook_event-once_example :
    (let paid = event payment_succeeded subscription_payment "p-1" in
      let v =
        handle_all environment
          (event payment_canceled subscription_payment "p-2" ∷ [])
          (handle_webhook_event environment paid world).1 in
      (handle_webhook_event environment (event payment_canceled subscription_payment "p-1") v).1.db
      ≡ v.db)
handle_webhook_event-once_example =
    handle_webhook_event-once environment (event payment_succeeded subscription_payment "p-1")
      (event payment_canceled subscription_payment "p-1")
      (event payment_canceled subscription_payment "p-2" ∷ []) world refl unequal refl activated

refused_renewal :
    (handle_webhook_event environment (event payment_succeeded renewal_payment "p-9") world).0
    ≡ err (wrapped "create missing pending payment from webhook")
unfolding handle_webhook_event dispatch handle_payment_succeeded succeeded_body
    ensure_pending_payment_for_webhook webhook_payment_create_params for_plan parse_user_id
    trim_space get_payment_by_provider_id get_billing_plan_by_code create_payment amount_for_period
    parse_rub_amount split_on all_zeros digits_value atoi time_now may_fail expect find transaction
    ◌>>=◌
refused_renewal = refl

handle_webhook_event-error_changes_nothing_example :
    (handle_webhook_event environment (event payment_succeeded renewal_payment "p-9") world).1.db
    ≡ world.db
handle_webhook_event-error_changes_nothing_example =
    handle_webhook_event-error_changes_nothing environment
      (event payment_succeeded renewal_payment "p-9") world
      (wrapped "create missing pending payment from webhook") refused_renewal

handle_webhook_event-renewal_refused_example :
    ((handle_webhook_event environment (event payment_succeeded renewal_payment "p-9") world).0
      ≢ ok tt)
    × ((handle_webhook_event environment (event payment_succeeded renewal_payment "p-9") world).1.db
        ≡ world.db)
handle_webhook_event-renewal_refused_example =
    handle_webhook_event-renewal_refused environment (event payment_succeeded renewal_payment "p-9")
      world refl refl refl

one_current : OneCurrent world.db
one_current user = ground arith

after_calls-OneCurrent_example :
    OneCurrent
      (after_calls environment
        (webhook (event payment_succeeded subscription_payment "p-1")
          ∷ cancel "anna"
          ∷ remove_card "boris"
          ∷ [])
        world).db
after_calls-OneCurrent_example =
    after_calls-OneCurrent environment
      (webhook (event payment_succeeded subscription_payment "p-1")
        ∷ cancel "anna"
        ∷ remove_card "boris"
        ∷ [])
      world one_current

granted :
    (activate_subscription environment
      (event payment_succeeded subscription_payment "p-1")
      noon
      world).0
    ≡ ok tt
unfolding activate_subscription subscription_period_for_webhook subscription_provider_id
    billing_period_for_plan billing_period_end truncate_day add_date date_of ordinal normalize_month
    is_leap year_length month_length parse_user_id trim_space get_billing_plan_by_code
    upsert_active_subscription upsert_usage_quota_for_subscription may_fail expect ◌>>=◌
granted = refl

activate_subscription-grants_example :
    GrantedBy environment
      (event payment_succeeded subscription_payment "p-1")
      noon
      world.db
      (activate_subscription environment
        (event payment_succeeded subscription_payment "p-1")
        noon
        world).1.db
activate_subscription-grants_example =
    activate_subscription-grants environment (event payment_succeeded subscription_payment "p-1")
      noon world refl granted

credited : (activate_addon environment addon_event noon stocked).0 ≡ ok tt
unfolding activate_addon parse_user_id trim_space get_addon_product_by_code add_addon_cards_to_quota
    newest may_fail expect ◌>>=◌
credited = refl

activate_addon-credits_example :
    Credited environment addon_event noon stocked.db
      (activate_addon environment addon_event noon stocked).1.db
activate_addon-credits_example =
    activate_addon-credits environment addon_event noon stocked credited
