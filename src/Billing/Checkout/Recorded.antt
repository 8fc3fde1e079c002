-- ===== src/Billing/Checkout/Recorded.antt =====
-- A checkout that returns its url has stored its payment (internal/billing/checkout.go).
use kartochki_online_backend.Prelude.{
  ◌<◌, ◌≡◌, ◌≢◌, refl, subst, ◌∙◌, inl, inr, Bool, true, ◌&&◌, String, Option, none, some, [], ◌∷◌,
  str_eq, eq_iff, eq_refl, first, count_where, first-counted, count_where-append, Option-cases,
  Bool-cases, arith,
}
use kartochki_online_backend.Calendar.{Time}
use kartochki_online_backend.Provider.{
  SubscriptionCheckoutInput, AddonCheckoutInput, CheckoutSession, CheckoutProvider,
}
use kartochki_online_backend.Environment.{Environment}
use kartochki_online_backend.Database.{
  Db, Payment, Plan, AddonProduct, to_pg_text, QueryPost, QueryPostOption,
}
use kartochki_online_backend.Database.Payments.{
  CreatePaymentParams, has_provider_id, get_payment_by_provider_id, create_payment,
  create_payment-inserts, new_payment,
}
use kartochki_online_backend.World.{World, ok, pure, ◌>>=◌}
use kartochki_online_backend.World.Yields.{
  Yields, Yields-bind, Yields-pure, Yields-expect, Yields-find, Yields-require, Yields-weaken,
}
use kartochki_online_backend.World.Returns.{
  Post-returned, Yields-require_then, Yields-reject_if, Yields-with, Yields-after,
}
use kartochki_online_backend.Database.Catalog.{get_billing_plan_by_code, get_addon_product_by_code}
use kartochki_online_backend.Billing.Periods.{amount_for_period}
use kartochki_online_backend.Prelude.Text.{trim_space}
use kartochki_online_backend.Billing.Types.{Error, plan_period_of}
use kartochki_online_backend.Billing.Checkout.{
  record_pending_payment, create_unless, create_subscription_checkout, create_addon_checkout,
  pay_for_plan, pay_for_addon, create_checkout, purchase_addon, CheckoutInput, PurchaseAddonInput,
}

abbrev Known : String → Db → Type 0
Known s db = 0 < count_where (has_provider_id (some s)) db.payments

abbrev KnownIf : String → Option Payment → Db → Type 0
KnownIf s none db = Unit
KnownIf s (some row) db = Known s db

get_payment-Known :
    (s : String) (now : Time) (db : Db)
    → QueryPostOption (KnownIf s) (get_payment_by_provider_id (some s) now db)
unfolding get_payment_by_provider_id
get_payment-Known s now db = elim (Option-cases (first (has_provider_id (some s)) db.payments)) [
  | inl e ↦ rw e tt
  | inr (row, e) ↦ rw e (first-counted (has_provider_id (some s)) db.payments row e)
]

create_payment-Known :
    (s : String) (arg : CreatePaymentParams) (now : Time) (db : Db)
    → arg.provider_payment_id ≡ some s
    → QueryPost (λ _. Known s) (create_payment arg now db)
create_payment-Known s arg now db h =
    let e =
      count_where-append (has_provider_id (some s)) db.payments
        (new_payment db.next_id now arg ∷ []) in
    let same : str_eq s s ≡ true = eq_refl s in
    create_payment-inserts _ arg now db (rw (e, h, same) (omega arith))

-- The payment is there when the call returns, found or made.
record_pending_payment-Known :
    (s : String) (arg : CreatePaymentParams)
    → arg.provider_payment_id ≡ some s
    → Yields (λ _. Unit) (record_pending_payment arg) (λ _. Known s)
unfolding record_pending_payment
record_pending_payment-Known s arg h =
    Yields-bind (KnownIf s) (Yields-find _ _ _ λ now db _. rw h (get_payment-Known s now db)) made
  where
    made : (row : Option Payment) → Yields (KnownIf s row) (create_unless arg row) (λ _. Known s)
    made (some row) = Yields-pure λ db p. p
    made none =
        Yields-bind (λ _. Known s)
          (Yields-expect _ _ _ λ now db _. create_payment-Known s arg now db h)
          λ _. Yields-pure λ db p. p

-- The url is the session's, whose payment is stored.
abbrev pub Stored : CheckoutSession → String → Db → Type 0
Stored session url db = (session.checkout_url ≡ url) × Known session.provider_payment_id db

abbrev is_plan : String → Plan → Bool
is_plan code p = str_eq p.code code && p.is_active

-- The provider was asked for the plan of the input at its price for the period, and the url is that
-- of its answer, whose payment is stored.
pub record PlanPaid (provider : CheckoutProvider) (input : CheckoutInput) (start : Db)
    (url : String) (db : Db) : Type 0 where
  pub plan : Plan
  pub request : SubscriptionCheckoutInput
  pub session : CheckoutSession
  pub found : first (is_plan (trim_space input.plan_id)) start.plans ≡ some plan
  pub for_plan : request.plan_code ≡ plan.code
  pub for_period : request.period ≡ plan_period_of (trim_space input.period)
  pub priced :
      amount_for_period plan.monthly_price plan.yearly_monthly_price request.period
      ≡ some request.amount
  pub answered : provider.create_subscription_checkout request ≡ some session
  pub stored : Stored session url db

abbrev is_addon : String → AddonProduct → Bool
is_addon code a = str_eq a.code code && a.is_active

-- The same of an addon.
pub record AddonPaid (provider : CheckoutProvider) (input : PurchaseAddonInput) (start : Db)
    (url : String) (db : Db) : Type 0 where
  pub addon : AddonProduct
  pub request : AddonCheckoutInput
  pub session : CheckoutSession
  pub found : first (is_addon (trim_space input.addon_id)) start.addon_products ≡ some addon
  pub for_addon : request.addon_code ≡ addon.code
  pub priced : request.amount ≡ addon.price
  pub answered : provider.create_addon_checkout request ≡ some session
  pub stored : Stored session url db

named : (s : String) → s ≢ "" → to_pg_text s ≡ some s
named s h = elim (Bool-cases (str_eq s "")) [
  | inr filled ↦ rw filled refl
  | inl empty ↦ absurd (h ((eq_iff s "").0 empty))
]

-- The session is recorded, and its url returned.
recorded-Stored :
    (session : CheckoutSession) (arg : CreatePaymentParams)
    → arg.provider_payment_id ≡ to_pg_text session.provider_payment_id
    → session.provider_payment_id ≢ ""
    → Yields
        (λ _. Unit)
        (record_pending_payment arg >>= λ _. pure {E = Error} session.checkout_url)
        (Stored session)
recorded-Stored session arg h id =
    Yields-bind (λ _. Known session.provider_payment_id)
      (record_pending_payment-Known session.provider_payment_id arg
        (h ∙ named session.provider_payment_id id))
      λ _. Yields-pure λ db k. (refl, k)

abbrev NamesPlans : CheckoutProvider → Type 0
NamesPlans provider =
    (request : SubscriptionCheckoutInput) (session : CheckoutSession)
    → provider.create_subscription_checkout request ≡ some session
    → session.provider_payment_id ≢ ""

abbrev NamesAddons : CheckoutProvider → Type 0
NamesAddons provider =
    (request : AddonCheckoutInput) (session : CheckoutSession)
    → provider.create_addon_checkout request ≡ some session
    → session.provider_payment_id ≢ ""

plan-found :
    (code : String) (start : Db) (now : Time) (db : Db)
    → db ≡ start
    → QueryPost
        (λ plan _. first (is_plan code) start.plans ≡ some plan)
        (get_billing_plan_by_code code now db)
unfolding get_billing_plan_by_code
plan-found code start now db e = elim (Option-cases (first (is_plan code) db.plans)) [
  | inl missing ↦ rw missing tt
  | inr (plan, there) ↦ rw there (subst (λ d. first (is_plan code) d.plans ≡ some plan) e there)
]

addon-found :
    (code : String) (start : Db) (now : Time) (db : Db)
    → db ≡ start
    → QueryPost
        (λ addon _. first (is_addon code) start.addon_products ≡ some addon)
        (get_addon_product_by_code code now db)
unfolding get_addon_product_by_code
addon-found code start now db e = elim (Option-cases (first (is_addon code) db.addon_products)) [
  | inl missing ↦ rw missing tt
  | inr (addon, there) ↦
      rw there (subst (λ d. first (is_addon code) d.addon_products ≡ some addon) e there)
]

module _ (env : Environment) (provider : CheckoutProvider) where
  plan_session-answered :
      (request : SubscriptionCheckoutInput)
      → Yields
          (λ _. Unit)
          (create_subscription_checkout env provider request)
          (λ session _. provider.create_subscription_checkout request ≡ some session)
  unfolding create_subscription_checkout
  plan_session-answered request = Yields-after _ λ _. Yields-require _ _ _ λ session db e _. e

  addon_session-answered :
      (request : AddonCheckoutInput)
      → Yields
          (λ _. Unit)
          (create_addon_checkout env provider request)
          (λ session _. provider.create_addon_checkout request ≡ some session)
  unfolding create_addon_checkout
  addon_session-answered request = Yields-after _ λ _. Yields-require _ _ _ λ session db e _. e

  create_checkout-PlanPaid :
      (attempt : String) (input : CheckoutInput) (start : Db)
      → NamesPlans provider
      → Yields
          (λ db. db ≡ start)
          (create_checkout env provider attempt input)
          (PlanPaid provider input start)
  unfolding create_checkout pay_for_plan
  create_checkout-PlanPaid attempt input start has_id = Yields-require_then _ _ λ user parsed.
      Yields-reject_if _ _ λ _.
        Yields-with (λ plan. first (is_plan (trim_space input.plan_id)) start.plans ≡ some plan)
          (Yields-expect _ _ _ (plan-found (trim_space input.plan_id) start))
          λ plan found. Yields-after _ λ snapshot. Yields-reject_if _ _ λ _.
            Yields-require_then _ _ λ amount priced. Yields-after _ λ email.
              Yields-with _ (plan_session-answered _) λ session answered.
                Yields-weaken (recorded-Stored session _ refl (has_id _ session answered))
                  (λ db p. p)
                  λ url db stored. record {
                    plan = plan;
                    request = _;
                    session = session;
                    found = found;
                    for_plan = refl;
                    for_period = refl;
                    priced = priced;
                    answered = answered;
                    stored = stored;
                  }

  purchase_addon-AddonPaid :
      (attempt : String) (input : PurchaseAddonInput) (start : Db)
      → NamesAddons provider
      → Yields
          (λ db. db ≡ start)
          (purchase_addon env provider attempt input)
          (AddonPaid provider input start)
  unfolding purchase_addon pay_for_addon
  purchase_addon-AddonPaid attempt input start has_id = Yields-require_then _ _ λ user parsed.
      Yields-with
        (λ addon. first (is_addon (trim_space input.addon_id)) start.addon_products ≡ some addon)
        (Yields-expect _ _ _ (addon-found (trim_space input.addon_id) start))
        λ addon found. Yields-after _ λ email.
          Yields-with _ (addon_session-answered _) λ session answered.
            Yields-weaken (recorded-Stored session _ refl (has_id _ session answered)) (λ db p. p)
              λ url db stored. record {
                addon = addon;
                request = _;
                session = session;
                found = found;
                for_addon = refl;
                priced = refl;
                answered = answered;
                stored = stored;
              }

-- A checkout that succeeds is not lost: when the provider gives every session of a plan a payment
-- id and `CreateCheckout` returns a url, the provider was asked for the active plan with the
-- input's code, for the input's period and at the plan's price for it, the url is that of the
-- provider's answer, and the payment with the answer's id is stored.
pub create_checkout-recorded :
    (env : Environment) (provider : CheckoutProvider) (attempt url : String) (input : CheckoutInput)
    (w : World)
    → ((request : SubscriptionCheckoutInput) (session : CheckoutSession)
        → provider.create_subscription_checkout request ≡ some session
        → session.provider_payment_id ≢ "")
    → (create_checkout env provider attempt input w).0 ≡ ok url
    → PlanPaid provider input w.db url (create_checkout env provider attempt input w).1.db
create_checkout-recorded env provider attempt url input w has_id done =
    Post-returned (PlanPaid provider input w.db) (create_checkout env provider attempt input w)
      ((create_checkout-PlanPaid env provider attempt input w.db has_id).yields w refl) done

-- The same of an addon: when the provider gives every session of an addon a payment id and
-- `PurchaseAddon` returns a url, the provider was asked for the active addon with the input's code
-- at its price, the url is that of the provider's answer, and the payment with the answer's id is
-- stored.
pub purchase_addon-recorded :
    (env : Environment) (provider : CheckoutProvider) (attempt url : String)
    (input : PurchaseAddonInput) (w : World)
    → ((request : AddonCheckoutInput) (session : CheckoutSession)
        → provider.create_addon_checkout request ≡ some session
        → session.provider_payment_id ≢ "")
    → (purchase_addon env provider attempt input w).0 ≡ ok url
    → AddonPaid provider input w.db url (purchase_addon env provider attempt input w).1.db
purchase_addon-recorded env provider attempt url input w has_id done =
    Post-returned (AddonPaid provider input w.db) (purchase_addon env provider attempt input w)
      ((purchase_addon-AddonPaid env provider attempt input w.db has_id).yields w refl) done
