-- ===== src/Billing/Webhook/Replay.antt =====
-- A settled payment stays settled under every later event (internal/billing/webhook.go).
use kartochki_online_backend.Prelude.{ℕ, zero, suc, refl, String, Option, none, some}
use kartochki_online_backend.Calendar.{Time}
use kartochki_online_backend.Provider.{Uuid}
use kartochki_online_backend.Environment.{Environment}
use kartochki_online_backend.Database.{
  Db, Payment, PaymentKind, subscription_payment, renewal_payment, addon_payment, other_payment,
}
use kartochki_online_backend.Database.Catalog.{get_billing_plan_by_code, get_addon_product_by_code}
use kartochki_online_backend.Database.Payments.{
  get_payment_by_provider_id, mark_payment_paid, set_void, mark_payment_canceled, set_paid,
}
use kartochki_online_backend.World.Keeps.{
  Keeps, QueryKeeps, Keeps-bind, Keeps-time_now, Keeps-expect, Keeps-find, Keeps-pure, Keeps-fail,
  Keeps-require, Keeps-reject_if,
}
use kartochki_online_backend.World.Yields.{Keeps-transaction_of_body}
use kartochki_online_backend.Billing.Types.{
  WebhookEvent, WebhookEventType, payment_succeeded, payment_canceled, other_event,
}
use kartochki_online_backend.Billing.Webhook.{
  webhook_payment_create_params, for_plan, for_addon, params_for_kind, create_missing,
  ensure_pending_payment_for_webhook, after_mark, succeeded_body, handle_payment_succeeded,
  handle_payment_canceled, dispatch, handle_webhook_event,
}
use kartochki_online_backend.Billing.Webhook.Settled.{
  IsSettled, IsSettled-update, create_payment-Keeps_IsSettled,
}
use kartochki_online_backend.Billing.Webhook.Settles.{payment_of}
use kartochki_online_backend.Billing.Webhook.Activation.{activate-Keeps_payments}

-- The restore's parameters come from statements that only read.
module _ (env : Environment) (P : Db → Type 0) where
  pub plan_query-Keeps : (code : String) → QueryKeeps P (get_billing_plan_by_code code)
  unfolding get_billing_plan_by_code
  plan_query-Keeps code now db p = p

  pub addon_query-Keeps : (code : String) → QueryKeeps P (get_addon_product_by_code code)
  unfolding get_addon_product_by_code
  addon_query-Keeps code now db p = p

  for_plan-Keeps :
      (event : WebhookEvent) (user : Uuid) (amount : ℕ) → Keeps P (for_plan env event user amount)
  unfolding for_plan
  for_plan-Keeps event user amount =
      Keeps-bind (Keeps-expect _ _ (plan_query-Keeps event.plan_code)) λ plan.
        Keeps-bind (Keeps-require _ _) λ expected. Keeps-bind (Keeps-reject_if _ _) λ _. Keeps-pure

  for_addon-Keeps :
      (event : WebhookEvent) (user : Uuid) (amount : ℕ) → Keeps P (for_addon env event user amount)
  unfolding for_addon
  for_addon-Keeps event user amount =
      Keeps-bind (Keeps-expect _ _ (addon_query-Keeps event.addon_code))
        λ addon. Keeps-bind (Keeps-reject_if _ _) λ _. Keeps-pure

  params_for_kind-Keeps :
      (kind : PaymentKind) (event : WebhookEvent) (user : Uuid) (amount : ℕ)
      → Keeps P (params_for_kind env kind event user amount)
  params_for_kind-Keeps subscription_payment event user amount = for_plan-Keeps event user amount
  params_for_kind-Keeps renewal_payment event user amount = for_plan-Keeps event user amount
  params_for_kind-Keeps addon_payment event user amount = for_addon-Keeps event user amount
  params_for_kind-Keeps (other_payment _) event user amount = Keeps-fail

  pub params-Keeps : (event : WebhookEvent) → Keeps P (webhook_payment_create_params env event)
  unfolding webhook_payment_create_params
  params-Keeps event = Keeps-bind (Keeps-require _ _) λ user.
      Keeps-bind (Keeps-require _ _) λ amount. params_for_kind-Keeps event.kind event user amount

module _ (env : Environment) (s : String) where
  abbrev Done : Db → Type 0
  Done db = IsSettled (some s) db.payments

  ensure-Keeps_IsSettled :
      (event : WebhookEvent) → Keeps Done (ensure_pending_payment_for_webhook env event)
  unfolding ensure_pending_payment_for_webhook get_payment_by_provider_id
  ensure-Keeps_IsSettled event =
      Keeps-bind (Keeps-find _ (get_payment_by_provider_id (payment_of event)) (λ now db p. p))
        missing
    where
      missing : (row : Option Payment) → Keeps Done (create_missing env event row)
      missing (some row) = Keeps-pure
      missing none = Keeps-bind (params-Keeps env Done event) λ arg.
          Keeps-bind (Keeps-expect _ _ (create_payment-Keeps_IsSettled s arg)) λ _. Keeps-pure

  succeeded_body-Keeps_IsSettled :
      (event : WebhookEvent) (t : Time) → Keeps Done (succeeded_body env event t)
  unfolding succeeded_body mark_payment_paid
  succeeded_body-Keeps_IsSettled event t = Keeps-bind (ensure-Keeps_IsSettled event) λ _.
      Keeps-bind
        (Keeps-expect _ (mark_payment_paid (payment_of event) (some t)) λ now db p.
          IsSettled-update (some s) _ (set_paid (some t)) db.payments (λ _. refl) (λ _. refl) p)
        after
    where
      after : (n : ℕ) → Keeps Done (after_mark env event t n)
      after zero = Keeps-pure
      after (suc n) =
          Keeps-bind (activate-Keeps_payments env (IsSettled (some s)) event.kind event t)
            λ _. Keeps-pure

  -- A settled payment stays settled, whatever payment the next event is about.
  pub handle_webhook_event-Keeps_IsSettled :
      (event : WebhookEvent) → Keeps Done (handle_webhook_event env event)
  unfolding handle_webhook_event handle_payment_succeeded handle_payment_canceled
      mark_payment_canceled
  handle_webhook_event-Keeps_IsSettled event = by_type event.event_type
    where
      by_type : (t : WebhookEventType) → Keeps Done (dispatch env t event)
      by_type payment_succeeded =
          Keeps-bind Keeps-time_now
            λ now. Keeps-transaction_of_body _ _ (succeeded_body-Keeps_IsSettled event _)
      by_type payment_canceled =
          Keeps-bind
            (Keeps-expect _ (mark_payment_canceled (payment_of event)) λ now db p.
              IsSettled-update (some s) _ set_void db.payments (λ _. refl) (λ _. refl) p)
            λ _. Keeps-pure
      by_type (other_event _) = Keeps-pure
