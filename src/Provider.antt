-- ===== src/Provider.antt =====
-- The contract of the payment provider (internal/billing/types.go): the requests that the billing
-- service hands to a `CheckoutProvider`, and the session that comes back. The currency of every
-- request is `checkoutCurrencyRUB`, a constant.
use kartochki_online_backend.Prelude.{ℕ, String, Option, none}

-- A uuid is only compared and printed.
abbrev pub Uuid : Type 0
Uuid = ℕ

-- `PlanPeriod` is a string in the source: its two constants, and any other text.
pub data PlanPeriod : Type 0 where
  monthly yearly : PlanPeriod
  other_period : String → PlanPeriod

pub record SubscriptionCheckoutInput : Type 0 where
  pub user_id : Uuid
  pub customer_email : String
  pub plan_code : String
  pub period : PlanPeriod
  pub amount : ℕ
  pub currency : String
  pub receipt_description : String
  pub idempotency_key : String

pub record AddonCheckoutInput : Type 0 where
  pub user_id : Uuid
  pub customer_email : String
  pub addon_code : String
  pub amount : ℕ
  pub currency : String
  pub receipt_description : String
  pub idempotency_key : String

pub record RecurringPaymentInput : Type 0 where
  pub user_id : Uuid
  pub customer_email : String
  pub plan_code : String
  pub period : PlanPeriod
  pub amount : ℕ
  pub currency : String
  pub payment_method_id : String
  pub receipt_description : String
  pub idempotency_key : String

pub record CheckoutSession : Type 0 where
  pub provider_payment_id : String
  pub checkout_url : String

-- The interface: `none` is a refusal of the provider.
pub record CheckoutProvider : Type 0 where
  pub create_subscription_checkout : SubscriptionCheckoutInput → Option CheckoutSession
  pub create_addon_checkout : AddonCheckoutInput → Option CheckoutSession
  pub create_recurring_payment : RecurringPaymentInput → Option CheckoutSession

-- noopCheckoutProvider refuses everything.
abbrev pub noop_checkout_provider : CheckoutProvider
noop_checkout_provider = record {
  create_subscription_checkout = λ _. none;
  create_addon_checkout = λ _. none;
  create_recurring_payment = λ _. none;
}
