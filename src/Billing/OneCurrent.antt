-- ===== src/Billing/OneCurrent.antt =====
-- Every call of the billing service that writes subscriptions keeps at most one current subscription
-- per user (internal/billing/webhook.go, subscriptions.go, payment_method.go).
use kartochki_online_backend.Prelude.{
  ℕ, zero, suc, ◌≤◌, ◌≡◌, sym, subst, Bool, true, false, String, Option, none, some, List, [], ◌∷◌,
  count_where,
}
use kartochki_online_backend.Calendar.{Time}
use kartochki_online_backend.Provider.{Uuid}
use kartochki_online_backend.Environment.{Environment}
use kartochki_online_backend.Database.{
  Db, Payment, PaymentKind, subscription_payment, renewal_payment, addon_payment, other_payment,
  Query, to_pg_text,
}
use kartochki_online_backend.Database.Payments.{
  get_payment_by_provider_id, mark_payment_paid, mark_payment_canceled, create_payment,
  create_payment-changes,
}
use kartochki_online_backend.Database.Subscriptions.{
  is_current_of, get_current_subscription_by_user_id, CurrentSubscription,
}
use kartochki_online_backend.Database.Quotas.{
  add_addon_cards_to_quota, upsert_usage_quota_for_subscription,
}
use kartochki_online_backend.Database.Unchanged.{
  get_current_subscription-db, add_addon_cards_to_quota-subscriptions,
  upsert_usage_quota-subscriptions,
}
use kartochki_online_backend.Database.Current.{
  OneCurrent, upsert_active_subscription-OneCurrent, set_subscription_card_details-OneCurrent,
  clear_subscription_payment_method-OneCurrent, mark_subscription_scheduled_cancel-OneCurrent,
}
use kartochki_online_backend.World.{World}
use kartochki_online_backend.World.Keeps.{
  Keeps, QueryKeeps, QueryKeeps-of_db, Keeps-bind, Keeps-expect, Keeps-find, Keeps-reject_if,
  Keeps-require, Keeps-pure, Keeps-time_now,
}
use kartochki_online_backend.World.Yields.{Keeps-transaction_of_body}
use kartochki_online_backend.Billing.Types.{
  WebhookEvent, WebhookEventType, payment_succeeded, payment_canceled, other_event,
  WebhookPaymentCard,
}
use kartochki_online_backend.Billing.Webhook.{
  subscription_period_for_webhook, set_card_details, card_of, activate_subscription, activate_addon,
  activate, create_missing, ensure_pending_payment_for_webhook, after_mark, succeeded_body,
  handle_payment_succeeded, handle_payment_canceled, dispatch, handle_webhook_event,
}
use kartochki_online_backend.Billing.Webhook.Replay.{
  params-Keeps, plan_query-Keeps, addon_query-Keeps,
}
use kartochki_online_backend.Billing.Subscriptions.{
  cancel_subscription, cancel_unless, remove_payment_method, is_scheduled_cancel,
}

-- A statement that leaves the subscriptions alone.
by_subscriptions :
    {A : Type 0} (q : Query A)
    → ((now : Time) (db : Db) → (q now db).1.subscriptions ≡ db.subscriptions)
    → QueryKeeps OneCurrent q
by_subscriptions q same now db h user =
    subst (λ ss. count_where (is_current_of user) ss ≤ 1) (sym (same now db)) (h user)

create_payment-OneCurrent : (arg : _) → QueryKeeps OneCurrent (create_payment arg)
create_payment-OneCurrent arg now db h = create_payment-changes OneCurrent arg now db h (λ _. h)

module _ (env : Environment) where
  period-OneCurrent :
      (kind : PaymentKind) (event : WebhookEvent) (user : Uuid) (t : Time)
      → Keeps OneCurrent (subscription_period_for_webhook env kind event user t)
  unfolding subscription_period_for_webhook
  period-OneCurrent renewal_payment event user t =
      Keeps-bind
        (Keeps-expect _ _ (
          QueryKeeps-of_db OneCurrent (get_current_subscription_by_user_id user)
            (get_current_subscription-db user)))
        λ _. Keeps-pure
  period-OneCurrent subscription_payment event user t = Keeps-pure
  period-OneCurrent _ event user t = Keeps-pure

  card-OneCurrent :
      (event : WebhookEvent) (id : Uuid) (card : Option WebhookPaymentCard)
      → Keeps OneCurrent (set_card_details env event id card)
  card-OneCurrent event id none = Keeps-pure
  card-OneCurrent event id (some card) =
      Keeps-expect _ _ (set_subscription_card_details-OneCurrent id (card_of event card))

  activate_subscription-OneCurrent :
      (event : WebhookEvent) (t : Time) → Keeps OneCurrent (activate_subscription env event t)
  unfolding activate_subscription
  activate_subscription-OneCurrent event t = Keeps-bind (Keeps-require _ _) λ user.
      Keeps-bind (Keeps-expect _ _ (plan_query-Keeps env OneCurrent event.plan_code)) λ plan.
        Keeps-bind (period-OneCurrent event.kind event user t) λ p.
          Keeps-bind (Keeps-expect _ _ (upsert_active_subscription-OneCurrent _)) λ sub.
            Keeps-bind (card-OneCurrent event sub.id event.payment_method_card) λ _.
              Keeps-bind
                (Keeps-expect _ _ (
                  by_subscriptions (upsert_usage_quota_for_subscription _)
                    (upsert_usage_quota-subscriptions _)))
                λ _. Keeps-pure

  activate_addon-OneCurrent :
      (event : WebhookEvent) (t : Time) → Keeps OneCurrent (activate_addon env event t)
  unfolding activate_addon
  activate_addon-OneCurrent event t = Keeps-bind (Keeps-require _ _) λ user.
      Keeps-bind (Keeps-expect _ _ (addon_query-Keeps env OneCurrent event.addon_code)) λ addon.
        Keeps-bind
          (Keeps-expect _ _ (
            by_subscriptions (add_addon_cards_to_quota addon.cards_count user t)
              (add_addon_cards_to_quota-subscriptions addon.cards_count user t)))
          λ affected. Keeps-reject_if _ _

  activate-OneCurrent :
      (kind : PaymentKind) (event : WebhookEvent) (t : Time)
      → Keeps OneCurrent (activate env kind event t)
  unfolding activate
  activate-OneCurrent subscription_payment event t = activate_subscription-OneCurrent event t
  activate-OneCurrent renewal_payment event t = activate_subscription-OneCurrent event t
  activate-OneCurrent addon_payment event t = activate_addon-OneCurrent event t
  activate-OneCurrent (other_payment _) event t = Keeps-pure

  ensure-OneCurrent :
      (event : WebhookEvent) → Keeps OneCurrent (ensure_pending_payment_for_webhook env event)
  unfolding ensure_pending_payment_for_webhook get_payment_by_provider_id
  ensure-OneCurrent event =
      Keeps-bind
        (Keeps-find _ (get_payment_by_provider_id (to_pg_text event.provider_payment_id))
          (λ now db h. h))
        missing
    where
      missing : (row : Option Payment) → Keeps OneCurrent (create_missing env event row)
      missing (some row) = Keeps-pure
      missing none =
          Keeps-bind (params-Keeps env OneCurrent event)
            λ arg. Keeps-bind (Keeps-expect _ _ (create_payment-OneCurrent arg)) λ _. Keeps-pure

  succeeded_body-OneCurrent :
      (event : WebhookEvent) (t : Time) → Keeps OneCurrent (succeeded_body env event t)
  unfolding succeeded_body mark_payment_paid
  succeeded_body-OneCurrent event t = Keeps-bind (ensure-OneCurrent event) λ _.
      Keeps-bind
        (Keeps-expect _ (mark_payment_paid (to_pg_text event.provider_payment_id) (some t))
          (λ now db h. h))
        after
    where
      after : (n : ℕ) → Keeps OneCurrent (after_mark env event t n)
      after zero = Keeps-pure
      after (suc n) = Keeps-bind (activate-OneCurrent event.kind event t) λ _. Keeps-pure

  handle_webhook_event-OneCurrent :
      (event : WebhookEvent) → Keeps OneCurrent (handle_webhook_event env event)
  unfolding handle_webhook_event handle_payment_succeeded handle_payment_canceled
      mark_payment_canceled
  handle_webhook_event-OneCurrent event = by_type event.event_type
    where
      by_type : (t : WebhookEventType) → Keeps OneCurrent (dispatch env t event)
      by_type payment_succeeded =
          Keeps-bind Keeps-time_now
            λ now. Keeps-transaction_of_body _ _ (succeeded_body-OneCurrent event _)
      by_type payment_canceled =
          Keeps-bind
            (Keeps-expect _ (mark_payment_canceled (to_pg_text event.provider_payment_id))
              λ now db h. h)
            λ _. Keeps-pure
      by_type (other_event _) = Keeps-pure

  cancel_subscription-OneCurrent :
      (user_id : String) → Keeps OneCurrent (cancel_subscription env user_id)
  unfolding cancel_subscription
  cancel_subscription-OneCurrent user_id = Keeps-bind (Keeps-require _ _) λ user.
      Keeps-bind
        (Keeps-expect _ _ (
          QueryKeeps-of_db OneCurrent (get_current_subscription_by_user_id user)
            (get_current_subscription-db user)))
        λ current.
          Keeps-bind (Keeps-reject_if _ _)
            λ _. unless user current (is_scheduled_cancel current.row.status)
    where
      unless :
          (user : Uuid) (current : CurrentSubscription) (b : Bool)
          → Keeps OneCurrent (cancel_unless env user current b)
      unless user current true = Keeps-pure
      unless user current false =
          Keeps-bind
            (Keeps-expect _ _ (
              mark_subscription_scheduled_cancel-OneCurrent (some current.row.current_period_end)
                current.row.id user))
            λ affected. Keeps-reject_if _ _

  remove_payment_method-OneCurrent :
      (user_id : String) → Keeps OneCurrent (remove_payment_method env user_id)
  unfolding remove_payment_method
  remove_payment_method-OneCurrent user_id = Keeps-bind (Keeps-require _ _) λ user.
      Keeps-bind (Keeps-expect _ _ (clear_subscription_payment_method-OneCurrent user))
        λ affected. Keeps-reject_if _ _

-- The calls of the service that may write subscriptions.
pub data Call : Type 0 where
  webhook : WebhookEvent → Call
  cancel : String → Call
  remove_card : String → Call

unfoldable pub after_call : Environment → Call → World → World
unfolding handle_webhook_event cancel_subscription remove_payment_method
after_call env (webhook event) w = (handle_webhook_event env event w).1
after_call env (cancel user_id) w = (cancel_subscription env user_id w).1
after_call env (remove_card user_id) w = (remove_payment_method env user_id w).1

abbrev pub after_calls : Environment → List Call → World → World
after_calls env [] w = w
after_calls env (call ∷ calls) w = after_calls env calls (after_call env call w)

-- No sequence of webhooks, cancellations and card removals, failed or not, gives a user a second
-- current subscription, if no user had two at the start.
pub after_calls-OneCurrent :
    (env : Environment) (calls : List Call) (w : World)
    → OneCurrent w.db
    → OneCurrent (after_calls env calls w).db
unfolding after_call
after_calls-OneCurrent env [] w h = h
after_calls-OneCurrent env (webhook event ∷ calls) w h =
    after_calls-OneCurrent env calls _ ((handle_webhook_event-OneCurrent env event).keeps w h)
after_calls-OneCurrent env (cancel user_id ∷ calls) w h =
    after_calls-OneCurrent env calls _ ((cancel_subscription-OneCurrent env user_id).keeps w h)
after_calls-OneCurrent env (remove_card user_id ∷ calls) w h =
    after_calls-OneCurrent env calls _ ((remove_payment_method-OneCurrent env user_id).keeps w h)
