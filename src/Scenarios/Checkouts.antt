-- ===== src/Scenarios/Checkouts.antt =====
-- The theorems on checkouts at the shop's data.
use kartochki_online_backend.Prelude.{◌≡◌, ◌≢◌, ◌∙◌, refl, true, false, eq_iff, some, arith}
use kartochki_online_backend.Prelude.Text.{trim_space}
use kartochki_online_backend.Provider.{
  SubscriptionCheckoutInput, AddonCheckoutInput, CheckoutSession,
}
use kartochki_online_backend.Database.{newest}
use kartochki_online_backend.Database.Catalog.{
  get_billing_plan_by_code, get_addon_product_by_code, get_auth_user_by_id,
}
use kartochki_online_backend.Database.Payments.{get_payment_by_provider_id, create_payment}
use kartochki_online_backend.Database.Subscriptions.{get_current_subscription_by_user_id}
use kartochki_online_backend.Database.Quotas.{get_current_usage_quota_by_subscription_id}
use kartochki_online_backend.World.{ok, time_now, may_fail, expect, find, map_error, send, ◌>>=◌}
use kartochki_online_backend.Billing.Types.{parse_user_id, plan_period_of}
use kartochki_online_backend.Billing.Periods.{amount_for_period}
use kartochki_online_backend.Billing.Quota.{get_current_billing_snapshot, get_usage_quota_snapshot}
use kartochki_online_backend.Billing.Checkout.{
  create_checkout, purchase_addon, checkout_customer_email, pay_for_plan, pay_for_addon,
  create_subscription_checkout, create_addon_checkout, checkout_idempotency_key,
  record_pending_payment,
}
use kartochki_online_backend.Billing.Checkout.Recorded.{
  PlanPaid, AddonPaid, create_checkout-recorded, purchase_addon-recorded,
}
use kartochki_online_backend.Billing.Checkout.Email.{checkout_customer_email-fuel}
use kartochki_online_backend.Scenarios.Shop.{
  environment, provider, plan_session, addon_session, world,
}

bought :
    (create_checkout environment provider "try-1"
      (record { user_id = "anna"; customer_email = ""; plan_id = "max"; period = "yearly" })
      world).0
    ≡ ok "https://pay/1"
unfolding create_checkout trim_space parse_user_id plan_period_of get_billing_plan_by_code
    get_current_billing_snapshot get_usage_quota_snapshot get_current_subscription_by_user_id
    get_current_usage_quota_by_subscription_id newest amount_for_period checkout_customer_email
    get_auth_user_by_id pay_for_plan create_subscription_checkout checkout_idempotency_key
    record_pending_payment get_payment_by_provider_id create_payment time_now may_fail expect find
    map_error send ◌>>=◌
bought = refl

given_plan_id :
    (request : SubscriptionCheckoutInput) (session : CheckoutSession)
    → provider.create_subscription_checkout request ≡ some session
    → session.provider_payment_id ≢ ""
given_plan_id request session e h =
    let same : some plan_session ≡ some session = e in
    let id : "p-plan" ≡ session.provider_payment_id = ground arith in
    let q : false ≡ true = (eq_iff "p-plan" "").1 (id ∙ h) in ground arith

create_checkout-recorded_example :
    PlanPaid provider
      (record { user_id = "anna"; customer_email = ""; plan_id = "max"; period = "yearly" })
      world.db
      "https://pay/1"
      (create_checkout environment provider "try-1"
        (record { user_id = "anna"; customer_email = ""; plan_id = "max"; period = "yearly" })
        world).1.db
create_checkout-recorded_example =
    create_checkout-recorded environment provider "try-1" "https://pay/1"
      (record { user_id = "anna"; customer_email = ""; plan_id = "max"; period = "yearly" }) world
      given_plan_id bought

bought_addon :
    (purchase_addon environment provider "try-1"
      (record { user_id = "anna"; customer_email = ""; addon_id = "pack" })
      world).0
    ≡ ok "https://pay/2"
unfolding purchase_addon trim_space parse_user_id get_addon_product_by_code checkout_customer_email
    get_auth_user_by_id pay_for_addon create_addon_checkout checkout_idempotency_key
    record_pending_payment get_payment_by_provider_id create_payment may_fail expect find send ◌>>=◌
bought_addon = refl

given_addon_id :
    (request : AddonCheckoutInput) (session : CheckoutSession)
    → provider.create_addon_checkout request ≡ some session
    → session.provider_payment_id ≢ ""
given_addon_id request session e h =
    let same : some addon_session ≡ some session = e in
    let id : "p-addon" ≡ session.provider_payment_id = ground arith in
    let q : false ≡ true = (eq_iff "p-addon" "").1 (id ∙ h) in ground arith

purchase_addon-recorded_example :
    AddonPaid provider
      (record { user_id = "anna"; customer_email = ""; addon_id = "pack" })
      world.db
      "https://pay/2"
      (purchase_addon environment provider "try-1"
        (record { user_id = "anna"; customer_email = ""; addon_id = "pack" })
        world).1.db
purchase_addon-recorded_example =
    purchase_addon-recorded environment provider "try-1" "https://pay/2"
      (record { user_id = "anna"; customer_email = ""; addon_id = "pack" }) world given_addon_id
      bought_addon

checkout_customer_email-fuel_example :
    checkout_customer_email environment 9 2 "boris@example.com" world
    ≡ checkout_customer_email environment 2 2 "boris@example.com" world
checkout_customer_email-fuel_example =
    checkout_customer_email-fuel environment 7 2 "boris@example.com" world refl
