-- ===== src/Billing/Webhook/Atomic.antt =====
-- A webhook that fails changes nothing (internal/billing/webhook.go).
use kartochki_online_backend.Prelude.{◌≡◌, arith}
use kartochki_online_backend.Environment.{Environment}
use kartochki_online_backend.Database.{to_pg_text}
use kartochki_online_backend.Database.Payments.{mark_payment_canceled}
use kartochki_online_backend.World.{World, err, time_now}
use kartochki_online_backend.World.Keeps.{time_now-db}
use kartochki_online_backend.World.Atomic.{
  Atomic, Atomic-bind, Atomic-pure, Atomic-transaction, Atomic-expect, Atomic-then_pure, error-same,
}
use kartochki_online_backend.Billing.Types.{
  Error, WebhookEvent, WebhookEventType, payment_succeeded, payment_canceled, other_event,
}
use kartochki_online_backend.Billing.Webhook.{
  handle_payment_succeeded, handle_payment_canceled, dispatch, handle_webhook_event,
}

pub handle_webhook_event-Atomic :
    (env : Environment) (event : WebhookEvent) → Atomic (handle_webhook_event env event)
unfolding handle_webhook_event handle_payment_succeeded handle_payment_canceled
    mark_payment_canceled
handle_webhook_event-Atomic env event = by_type event.event_type
  where
    by_type : (t : WebhookEventType) → Atomic (dispatch env t event)
    by_type payment_succeeded =
        Atomic-bind time_now (time_now-db Error) λ now. Atomic-transaction _ _ _
    by_type payment_canceled = Atomic-then_pure tt (
        Atomic-expect _ (mark_payment_canceled (to_pg_text event.provider_payment_id))
          λ now db e refusal. ground arith)
    by_type (other_event _) = Atomic-pure

-- A webhook whose handling returns an error leaves the database as it was, wherever a statement,
-- the begin or the commit fails.
pub handle_webhook_event-error_changes_nothing :
    (env : Environment) (event : WebhookEvent) (w : World) (e : Error)
    → (handle_webhook_event env event w).0 ≡ err e
    → (handle_webhook_event env event w).1.db ≡ w.db
handle_webhook_event-error_changes_nothing env event w e =
    error-same w (handle_webhook_event env event w) e
      ((handle_webhook_event-Atomic env event).atomic w)
