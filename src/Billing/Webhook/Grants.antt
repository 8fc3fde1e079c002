-- ===== src/Billing/Webhook/Grants.antt =====
-- The activation of a plan, step by step (internal/billing/webhook.go, activateSubscription).
use kartochki_online_backend.Prelude.{
  ◌<◌, ◌≡◌, refl, sym, subst, inl, inr, Option, none, some, ◌==◌, first, count_where, Option-cases,
  count_where-update_where, arith,
}
use kartochki_online_backend.Calendar.{Time}
use kartochki_online_backend.Provider.{Uuid}
use kartochki_online_backend.Environment.{Environment}
use kartochki_online_backend.Database.{Db, Plan, Subscription, QueryPost, subscription_payment}
use kartochki_online_backend.Database.Catalog.{get_billing_plan_by_code, is_billing_plan}
use kartochki_online_backend.Database.Subscriptions.{
  upsert_active_subscription, set_card, set_subscription_card_details, CardDetails,
}
use kartochki_online_backend.Database.Quotas.{upsert_usage_quota_for_subscription}
use kartochki_online_backend.World.{World, ok, M, expect, pure, ◌>>=◌, ◌>>◌}
use kartochki_online_backend.World.Keeps.{Keeps-expect}
use kartochki_online_backend.World.Yields.{
  Yields, Yields-weaken, Post-ok, Yields-bind, Yields-of_Keeps, Yields-pure, Yields-expect,
  Yields-require,
}
use kartochki_online_backend.Billing.Types.{
  Error, wrapped, WebhookEvent, WebhookPaymentCard, Period, parse_user_id,
}
use kartochki_online_backend.Billing.Periods.{billing_period_for_plan}
use kartochki_online_backend.Billing.Webhook.{
  upsert_params, quota_params, subscription_period_for_webhook, set_card_details, card_of,
  activate_subscription,
}
use kartochki_online_backend.Billing.Webhook.Granted.{
  is_granted, is_granted_quota, QueryPost-with, upsert_active_subscription-granted,
  upsert_usage_quota-Granted,
}

-- The card's columns are not read.
set_card-granted :
    (id user plan : Uuid) (p : Period) (sub : Uuid) (card : CardDetails) (now : Time) (db : Db)
    → 0 < count_where (is_granted id user plan p) db.subscriptions
    → 0
      < count_where
          (is_granted id user plan p)
          (set_subscription_card_details sub card now db).1.subscriptions
unfolding set_subscription_card_details
set_card-granted id user plan p sub card now db h =
    let e =
      count_where-update_where (is_granted id user plan p) (λ s. s.id == sub) (set_card card)
        db.subscriptions (λ s t. refl) in
    omega arith

-- The user and the plan that the event names.
abbrev Named : Environment → WebhookEvent → Db → Uuid → Plan → Type 0
Named env event db0 user plan =
    (parse_user_id env event.user_id ≡ some user)
    × (first (is_billing_plan event.plan_code) db0.plans ≡ some plan)

-- What an activation at `t` that began at `before` has granted.
abbrev pub GrantedBy : Environment → WebhookEvent → Time → Db → Db → Type 0
GrantedBy env event t before db =
    (user : Uuid) × (plan : Plan) × (id : Uuid) × ((parse_user_id env event.user_id ≡ some user)
      × ((first (is_billing_plan event.plan_code) before.plans ≡ some plan)
          × ((0
                < count_where (is_granted id user plan.id (billing_period_for_plan t event.period))
                    db.subscriptions)
              × (0
                  < count_where
                      (is_granted_quota id (billing_period_for_plan t event.period)
                        plan.cards_per_month)
                      db.usage_quotas))))

module _ (env : Environment) (event : WebhookEvent) (t : Time) (db0 : Db) where
  plan-Named :
      (user : Uuid) (now : Time) (db : Db)
      → (parse_user_id env event.user_id ≡ some user) × (db ≡ db0)
      → QueryPost
          (λ plan _. Named env event db0 user plan)
          (get_billing_plan_by_code event.plan_code now db)
  unfolding get_billing_plan_by_code
  plan-Named user now db h =
      elim (Option-cases (first (is_billing_plan event.plan_code) db.plans)) [
        | inl e ↦ rw e tt
        | inr (plan, e) ↦
            rw e
              (h.0, subst (λ d. first (is_billing_plan event.plan_code) d.plans ≡ some plan) h.1 e)
      ]

  module _ (user : Uuid) (plan : Plan) where
    abbrev SubscriptionFor : Subscription → Db → Type 0
    SubscriptionFor sub db =
        Named env event db0 user plan
        × (0
            < count_where (is_granted sub.id user plan.id (billing_period_for_plan t event.period))
                db.subscriptions)

    upsert-SubscriptionFor :
        Yields
          (λ _. Named env event db0 user plan)
          (expect
            (λ _. wrapped "upsert active subscription")
            (upsert_active_subscription
              (upsert_params event user plan.id t (billing_period_for_plan t event.period))))
          SubscriptionFor
    upsert-SubscriptionFor = Yields-expect _ _ _ λ now db n. QueryPost-with _ _ _ n (
        upsert_active_subscription-granted
          (upsert_params event user plan.id t (billing_period_for_plan t event.period)) now db)

    card-SubscriptionFor :
        (sub : Subscription) (card : Option WebhookPaymentCard)
        → Yields
            (SubscriptionFor sub)
            (set_card_details env event sub.id card)
            (λ _. SubscriptionFor sub)
    card-SubscriptionFor sub none = Yields-pure λ db h. h
    card-SubscriptionFor sub (some card) = Yields-of_Keeps (
        Keeps-expect _ _ λ now db h. (
          h.0,
          set_card-granted sub.id user plan.id (billing_period_for_plan t event.period) sub.id
              (card_of event card) now db h.1,
        ))

    quota-GrantedBy :
        (sub : Subscription)
        → Yields
            (SubscriptionFor sub)
            (expect
              (λ _. wrapped "upsert usage quota after subscription activation")
              (upsert_usage_quota_for_subscription (
                quota_params user sub.id
                  (billing_period_for_plan t event.period)
                  plan.cards_per_month)))
            (λ _ db. GrantedBy env event t db0 db)
    quota-GrantedBy sub =
        Yields-weaken
          (Yields-expect _ _ _ λ now db h. QueryPost-with _ _ _ h.0 (
            upsert_usage_quota-Granted
              (quota_params user sub.id (billing_period_for_plan t event.period)
                plan.cards_per_month)
              user plan.id now db h.1))
          (λ db h. h) λ q db h. (user, plan, sub.id, (h.0.0, (h.0.1, (h.1.0, h.1.1))))

  period-plain :
      (user : Uuid) (P : Db → Type 0)
      → event.kind ≡ subscription_payment
      → Yields P
          (subscription_period_for_webhook env event.kind event user t)
          (λ p db. (p ≡ billing_period_for_plan t event.period) × P db)
  unfolding subscription_period_for_webhook
  period-plain user P bought =
      subst
        (λ k.
          Yields P (subscription_period_for_webhook env k event user t)
            (λ p db. (p ≡ billing_period_for_plan t event.period) × P db))
        (sym bought) (Yields-pure λ db h. (refl, h))

  -- The rest of the activation, from the period on.
  from_period : Uuid → Plan → Period → M Error (Unit {0})
  from_period user plan p = do
    sub ←
        expect (λ _. wrapped "upsert active subscription")
          (upsert_active_subscription (upsert_params event user plan.id t p))
    set_card_details env event sub.id event.payment_method_card
    expect (λ _. wrapped "upsert usage quota after subscription activation")
        (upsert_usage_quota_for_subscription (quota_params user sub.id p plan.cards_per_month))
    pure tt

  from_period-GrantedBy :
      (user : Uuid) (plan : Plan)
      → Yields
          (λ _. Named env event db0 user plan)
          (from_period user plan (billing_period_for_plan t event.period))
          (λ _ db. GrantedBy env event t db0 db)
  unfolding from_period
  from_period-GrantedBy user plan =
      Yields-bind (SubscriptionFor user plan) (upsert-SubscriptionFor user plan) λ sub.
        Yields-bind (λ _. SubscriptionFor user plan sub)
          (card-SubscriptionFor user plan sub event.payment_method_card)
          λ _.
            Yields-bind (λ _ db. GrantedBy env event t db0 db) (quota-GrantedBy user plan sub)
              λ _. Yields-pure λ db g. g

  activate_subscription-GrantedBy :
      event.kind ≡ subscription_payment
      → Yields
          (λ db. db ≡ db0)
          (activate_subscription env event t)
          (λ _ db. GrantedBy env event t db0 db)
  unfolding activate_subscription from_period
  activate_subscription-GrantedBy bought =
      Yields-bind (λ user db. (parse_user_id env event.user_id ≡ some user) × (db ≡ db0))
        (Yields-require _ _ _ λ user db e same. (e, same))
        λ user.
          Yields-bind (λ plan _. Named env event db0 user plan)
            (Yields-expect _ _ _ λ now db h. plan-Named user now db h)
            λ plan.
              Yields-bind
                (λ p _.
                  (p ≡ billing_period_for_plan t event.period) × Named env event db0 user plan)
                (period-plain user (λ _. Named env event db0 user plan) bought)
                λ p. record {
                  yields = λ w h.
                      (subst
                          (λ q.
                            Yields (λ _. Named env event db0 user plan) (from_period user plan q)
                              (λ _ db. GrantedBy env event t db0 db))
                          (sym h.0) (from_period-GrantedBy user plan)).yields
                        w h.1;
                }

-- What a paid plan gives: when the first payment of a plan (not a renewal) is activated without an
-- error, the event names a user id and an active plan of the catalog, the user has a current
-- subscription on that plan for the period that starts with the day of the payment, and that
-- subscription has a quota of the plan's cards for the same period.
pub activate_subscription-grants :
    (env : Environment) (event : WebhookEvent) (t : Time) (w : World)
    → event.kind ≡ subscription_payment
    → (activate_subscription env event t w).0 ≡ ok tt
    → GrantedBy env event t w.db (activate_subscription env event t w).1.db
activate_subscription-grants env event t w bought done =
    Post-ok (GrantedBy env event t w.db) (activate_subscription env event t w)
      ((activate_subscription-GrantedBy env event t w.db bought).yields w refl) done
