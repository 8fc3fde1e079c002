-- ===== src/Billing/Webhook/Activation.antt =====
-- The activation of a payment writes subscriptions and quotas, never payments.
use kartochki_online_backend.Prelude.{◌≡◌, refl, ap, sym, subst, Option, none, some, List}
use kartochki_online_backend.Calendar.{Time}
use kartochki_online_backend.Provider.{Uuid}
use kartochki_online_backend.Environment.{Environment}
use kartochki_online_backend.Database.{
  Db, Payment, PaymentKind, subscription_payment, renewal_payment, addon_payment, other_payment,
  Query,
}
use kartochki_online_backend.Database.Catalog.{get_billing_plan_by_code, get_addon_product_by_code}
use kartochki_online_backend.Database.Subscriptions.{
  get_current_subscription_by_user_id, upsert_active_subscription, set_subscription_card_details,
}
use kartochki_online_backend.Database.Quotas.{
  add_addon_cards_to_quota, upsert_usage_quota_for_subscription,
}
use kartochki_online_backend.Database.Unchanged.{
  get_current_subscription-db, upsert_active_subscription-payments,
  add_addon_cards_to_quota-payments, upsert_usage_quota-payments,
}
use kartochki_online_backend.World.Keeps.{
  Keeps, QueryKeeps, Keeps-bind, Keeps-expect, Keeps-reject_if, Keeps-require, Keeps-pure,
}
use kartochki_online_backend.Billing.Types.{WebhookEvent, WebhookPaymentCard}
use kartochki_online_backend.Billing.Webhook.{
  subscription_period_for_webhook, set_card_details, card_of, activate_subscription, activate_addon,
  activate,
}

module _ (env : Environment) (Q : List Payment → Type 0) where
  abbrev P : Db → Type 0
  P db = Q db.payments

  -- A statement that leaves the payments alone.
  by_payments :
      {A : Type 0} (q : Query A)
      → ((now : Time) (db : Db) → (q now db).1.payments ≡ db.payments)
      → QueryKeeps P q
  by_payments q same now db p = subst Q (sym (same now db)) p

  period-Keeps :
      (kind : PaymentKind) (event : WebhookEvent) (user : Uuid) (t : Time)
      → Keeps P (subscription_period_for_webhook env kind event user t)
  unfolding subscription_period_for_webhook
  period-Keeps renewal_payment event user t =
      Keeps-bind
        (Keeps-expect _ _ (
          by_payments (get_current_subscription_by_user_id user)
            (λ now db. ap (λ (d : Db). d.payments) (get_current_subscription-db user now db))))
        λ _. Keeps-pure
  period-Keeps subscription_payment event user t = Keeps-pure
  period-Keeps _ event user t = Keeps-pure

  card-Keeps :
      (event : WebhookEvent) (id : Uuid) (card : Option WebhookPaymentCard)
      → Keeps P (set_card_details env event id card)
  unfolding set_subscription_card_details
  card-Keeps event id none = Keeps-pure
  card-Keeps event id (some card) =
      Keeps-expect _ _
        (by_payments (set_subscription_card_details id (card_of event card)) (λ now db. refl))

  subscription-Keeps :
      (event : WebhookEvent) (t : Time) → Keeps P (activate_subscription env event t)
  unfolding activate_subscription get_billing_plan_by_code
  subscription-Keeps event t = Keeps-bind (Keeps-require _ _) λ user.
      Keeps-bind
        (Keeps-expect _ _ (by_payments (get_billing_plan_by_code event.plan_code) (λ now db. refl)))
        λ plan. Keeps-bind (period-Keeps event.kind event user t) λ p.
          Keeps-bind
            (Keeps-expect _ _
              (by_payments (upsert_active_subscription _) (upsert_active_subscription-payments _)))
            λ sub. Keeps-bind (card-Keeps event sub.id event.payment_method_card) λ _.
              Keeps-bind
                (Keeps-expect _ _ (
                  by_payments (upsert_usage_quota_for_subscription _)
                    (upsert_usage_quota-payments _)))
                λ _. Keeps-pure

  addon-Keeps : (event : WebhookEvent) (t : Time) → Keeps P (activate_addon env event t)
  unfolding activate_addon get_addon_product_by_code
  addon-Keeps event t = Keeps-bind (Keeps-require _ _) λ user.
      Keeps-bind
        (Keeps-expect _ _
          (by_payments (get_addon_product_by_code event.addon_code) (λ now db. refl)))
        λ addon.
          Keeps-bind
            (Keeps-expect _ _ (
              by_payments (add_addon_cards_to_quota addon.cards_count user t)
                (add_addon_cards_to_quota-payments addon.cards_count user t)))
            λ affected. Keeps-reject_if _ _

  pub activate-Keeps_payments :
      (kind : PaymentKind) (event : WebhookEvent) (t : Time) → Keeps P (activate env kind event t)
  unfolding activate
  activate-Keeps_payments subscription_payment event t = subscription-Keeps event t
  activate-Keeps_payments renewal_payment event t = subscription-Keeps event t
  activate-Keeps_payments addon_payment event t = addon-Keeps event t
  activate-Keeps_payments (other_payment _) event t = Keeps-pure
