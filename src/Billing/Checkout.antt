-- ===== src/Billing/Checkout.antt =====
-- The purchase of a plan or an addon (internal/billing/checkout.go).
pub mod Recorded
pub mod Email
use kartochki_online_backend.Prelude.{
  ℕ, zero, suc, Bool, true, false, not, ◌&&◌, String, Option, none, some, List, [], ◌∷◌, str_eq,
  ◌==◌, if◌then◌else◌,
}
use Prim.Native.String.{◌++◌ as join}
use Prim.Native.String.append
use kartochki_online_backend.Prelude.Int.{ℤ, int32}
use kartochki_online_backend.Prelude.Text.{trim_space}
use kartochki_online_backend.Calendar.{Time}
use kartochki_online_backend.Provider.{
  Uuid, PlanPeriod, monthly, yearly, other_period, SubscriptionCheckoutInput, AddonCheckoutInput,
  CheckoutSession, CheckoutProvider,
}
use kartochki_online_backend.Environment.{Environment}
use kartochki_online_backend.Database.{
  User, Plan, AddonProduct, Payment, subscription_payment, addon_payment, awaiting, SqlError,
  no_rows, unique_violation, to_pg_text, Reply, reply, refused, Query,
}
use kartochki_online_backend.Database.Catalog.{
  get_auth_user_by_id, get_billing_plan_by_code, get_addon_product_by_code,
  assign_user_email_if_missing, text_or_empty,
}
use kartochki_online_backend.Database.Payments.{
  CreatePaymentParams, get_payment_by_provider_id, create_payment,
}
use kartochki_online_backend.World.{
  M, pure, fail, ◌>>=◌, ◌>>◌, reject_if, require, missing_or, expect, find, map_error, send,
  subscription_checkout, addon_checkout,
}
use kartochki_online_backend.Billing.Types.{
  Error, user_not_found, plan_not_found, addon_not_found, invalid_plan_period, plan_already_active,
  checkout_provider_failed, checkout_persistence_failed, checkout_preparation_failed,
  checkout_email_required, checkout_email_invalid, checkout_email_taken, wrapped,
  checkout_currency_rub, provider_yookassa, plan_period_of, parse_user_id,
}
use kartochki_online_backend.Billing.Periods.{amount_for_period}
use kartochki_online_backend.Billing.Quota.{get_current_billing_snapshot}

pub record CheckoutInput : Type 0 where
  pub user_id : String
  pub customer_email : String
  pub plan_id : String
  pub period : String

pub record PurchaseAddonInput : Type 0 where
  pub user_id : String
  pub customer_email : String
  pub addon_id : String

-- strings.Join(parts, ":")
abbrev joined : List String → String
joined [] = ""
joined (part ∷ []) = part
joined (part ∷ parts) = join part (join ":" (joined parts))

abbrev is_known_period : PlanPeriod → Bool
is_known_period (other_period _) = false
is_known_period _ = true

-- string(period)
abbrev pub period_text : PlanPeriod → String
period_text monthly = "monthly"
period_text yearly = "yearly"
period_text (other_period s) = s

-- Any error of recordPendingPayment is wrapped as a failed persistence.
abbrev pub create_unless : CreatePaymentParams → Option Payment → M Error (Unit {0})
create_unless params (some _) = pure tt
create_unless params none =
    expect (λ _. checkout_persistence_failed) (create_payment params) >>= λ _. pure tt

unfoldable pub record_pending_payment : CreatePaymentParams → M Error (Unit {0})
record_pending_payment params =
    find (λ _. checkout_persistence_failed) (get_payment_by_provider_id params.provider_payment_id)
    >>= create_unless params

module _ (env : Environment) where
  unfoldable pub checkout_idempotency_key : List String → String
  checkout_idempotency_key parts = env.sha256_hex (joined parts)

  abbrev pub normalize_checkout_email : String → String
  normalize_checkout_email email = env.to_lower (trim_space email)

  abbrev is_valid_checkout_email : String → Bool
  is_valid_checkout_email email = elim (env.parse_address email) [
    | none ↦ false
    | some address ↦ str_eq address email
  ]

  abbrev email_error : SqlError → Error
  email_error unique_violation = checkout_email_taken
  email_error _ = checkout_preparation_failed

  -- The update found the user with an email after all: `again` reads it anew.
  abbrev saved_or : String → M Error String → Option User → M Error String
  saved_or email again (some _) = pure email
  saved_or email again none = again

  unfoldable pub save_checkout_email : Uuid → String → M Error String → M Error String
  save_checkout_email user email again = do
    reject_if (str_eq email "") checkout_email_required
    reject_if (not (is_valid_checkout_email email)) checkout_email_invalid
    find email_error (assign_user_email_if_missing user (to_pg_text email)) >>= saved_or email again

  abbrev known_or : String → M Error String → M Error String
  known_or email other = if str_eq email "" then other else pure email

  -- The call of itself is counted by the fuel.
  unfoldable pub checkout_customer_email : ℕ → Uuid → String → M Error String
  unfolding save_checkout_email
  checkout_customer_email zero user requested = fail (wrapped "out of fuel")
  checkout_customer_email (suc fuel) user requested =
      let again = checkout_customer_email fuel user "" in
      expect (missing_or user_not_found checkout_preparation_failed) (get_auth_user_by_id user)
      >>= λ row.
          known_or (trim_space (text_or_empty row.email))
            (save_checkout_email user (normalize_checkout_email requested) again)

  abbrev plan_payment : Uuid → ℕ → CheckoutSession → CreatePaymentParams
  plan_payment user amount session = record {
    user_id = user;
    subscription_id = none;
    addon_product_id = none;
    provider = provider_yookassa;
    provider_payment_id = to_pg_text session.provider_payment_id;
    kind = subscription_payment;
    status = awaiting;
    amount = int32 amount;
    currency = checkout_currency_rub;
    checkout_url = to_pg_text session.checkout_url;
  }

  abbrev addon_params : Uuid → AddonProduct → CheckoutSession → CreatePaymentParams
  addon_params user addon session = record {
    user_id = user;
    subscription_id = none;
    addon_product_id = some addon.id;
    provider = provider_yookassa;
    provider_payment_id = to_pg_text session.provider_payment_id;
    kind = addon_payment;
    status = awaiting;
    amount = int32 addon.price;
    currency = checkout_currency_rub;
    checkout_url = to_pg_text session.checkout_url;
  }

  module _ (provider : CheckoutProvider) where
    -- The request reaches the provider, which answers or refuses.
    unfoldable pub create_subscription_checkout :
        SubscriptionCheckoutInput → M Error CheckoutSession
    create_subscription_checkout input = do
      send checkout_provider_failed (subscription_checkout input)
      require (provider.create_subscription_checkout input) checkout_provider_failed

    unfoldable pub create_addon_checkout : AddonCheckoutInput → M Error CheckoutSession
    create_addon_checkout input = do
      send checkout_provider_failed (addon_checkout input)
      require (provider.create_addon_checkout input) checkout_provider_failed

    -- From the amount on; `attempt` is the text of the new uuid. The reply is the checkout's url.
    unfoldable pub pay_for_plan : Uuid → Plan → PlanPeriod → ℕ → String → String → M Error String
    unfolding create_subscription_checkout record_pending_payment checkout_idempotency_key
    pay_for_plan user plan period amount email attempt = do
      session ← create_subscription_checkout (record {
        user_id = user;
        customer_email = email;
        plan_code = plan.code;
        period = period;
        amount = amount;
        currency = checkout_currency_rub;
        receipt_description = trim_space plan.name;
        idempotency_key =
            checkout_idempotency_key
              (env.print_uuid user ∷ plan.code ∷ period_text period ∷ attempt ∷ []);
      })
      record_pending_payment (plan_payment user amount session)
      pure session.checkout_url

    unfoldable pub create_checkout : String → CheckoutInput → M Error String
    unfolding checkout_customer_email pay_for_plan
    create_checkout attempt input = do
      let period = plan_period_of (trim_space input.period)
      user ← require (parse_user_id env input.user_id) user_not_found
      reject_if (not (is_known_period period)) invalid_plan_period
      plan ←
          expect (missing_or plan_not_found checkout_preparation_failed)
            (get_billing_plan_by_code (trim_space input.plan_id))
      snapshot ← map_error (λ _. checkout_preparation_failed) (get_current_billing_snapshot user)
      reject_if (str_eq (trim_space snapshot.0.plan_code) plan.code) plan_already_active
      amount ←
          require (amount_for_period plan.monthly_price plan.yearly_monthly_price period)
            checkout_preparation_failed
      email ← checkout_customer_email 2 user input.customer_email
      pay_for_plan user plan period amount email attempt

    unfoldable pub pay_for_addon : Uuid → AddonProduct → String → String → M Error String
    unfolding create_addon_checkout record_pending_payment checkout_idempotency_key
    pay_for_addon user addon email attempt = do
      session ← create_addon_checkout (record {
        user_id = user;
        customer_email = email;
        addon_code = addon.code;
        amount = addon.price;
        currency = checkout_currency_rub;
        receipt_description = trim_space addon.title;
        idempotency_key =
            checkout_idempotency_key (env.print_uuid user ∷ addon.code ∷ attempt ∷ []);
      })
      record_pending_payment (addon_params user addon session)
      pure session.checkout_url

    unfoldable pub purchase_addon : String → PurchaseAddonInput → M Error String
    unfolding checkout_customer_email pay_for_addon
    purchase_addon attempt input = do
      user ← require (parse_user_id env input.user_id) user_not_found
      addon ←
          expect (missing_or addon_not_found checkout_preparation_failed)
            (get_addon_product_by_code (trim_space input.addon_id))
      email ← checkout_customer_email 2 user input.customer_email
      pay_for_addon user addon email attempt
