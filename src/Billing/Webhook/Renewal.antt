-- ===== src/Billing/Webhook/Renewal.antt =====
-- The webhook of a renewal (internal/billing/webhook_payments.go): the row that the job could not
-- store cannot be restored either.
use kartochki_online_backend.Prelude.{
  ℕ, zero, suc, ◌≡◌, ◌≢◌, refl, sym, subst, ◌∙◌, Option, none, some, count_where, arith,
}
use kartochki_online_backend.Calendar.{Time}
use kartochki_online_backend.Provider.{Uuid}
use kartochki_online_backend.Environment.{Environment}
use kartochki_online_backend.Database.{
  Db, Payment, renewal_payment, to_pg_text, QueryPost, QueryPostOption,
}
use kartochki_online_backend.Database.Payments.{
  CreatePaymentParams, has_provider_id, get_payment_by_provider_id, create_payment,
}
use kartochki_online_backend.World.{World, Result, ok, err, Ending, commit, roll_back}
use kartochki_online_backend.World.Keeps.{Keeps-require, Keeps-reject_if, Keeps-time_now}
use kartochki_online_backend.World.Yields.{
  Yields, Post, EndingFrom, Yields-bind, Yields-of_Keeps, Yields-pure, Yields-expect, Yields-find,
  Yields-transaction, Yields-weaken,
}
use kartochki_online_backend.Billing.Types.{WebhookEvent, payment_succeeded}
use kartochki_online_backend.Billing.Webhook.{
  for_plan, params_for_kind, webhook_payment_create_params, create_missing,
  ensure_pending_payment_for_webhook, succeeded_body, handle_payment_succeeded, dispatch,
  handle_webhook_event,
}
use kartochki_online_backend.Billing.Webhook.Settles.{payment_of, any_reply}
use kartochki_online_backend.Billing.Webhook.Atomic.{handle_webhook_event-Atomic}
use kartochki_online_backend.Billing.Subscriptions.Renewal.{
  create_payment-renewal, get_payment-unknown,
}
use kartochki_online_backend.World.Atomic.{SameOnError}

-- Nothing is so.
abbrev Never : {A : Type 0} → A → Db → Type 0
Never _ _ = suc zero ≡ zero

abbrev Missing : Option Payment → Db → Type 0
Missing none db = Unit
Missing (some row) db = suc zero ≡ zero

create_payment-Never :
    (arg : CreatePaymentParams) (now : Time) (db : Db)
    → arg.kind ≡ renewal_payment
    → QueryPost Never (create_payment arg now db)
create_payment-Never arg now db kind = rw (create_payment-renewal arg now db kind) tt

by_ending : (a : Ending (Unit {0})) (start db : Db) → Never a db → EndingFrom Never start a db
by_ending (commit a) start db p = p
by_ending (roll_back a) start db p = p

module _ (env : Environment) (event : WebhookEvent) (renewal : event.kind ≡ renewal_payment) where
  for_plan-kind :
      (user : Uuid) (amount : ℕ)
      → Yields (λ _. Unit) (for_plan env event user amount) (λ arg _. arg.kind ≡ renewal_payment)
  unfolding for_plan
  for_plan-kind user amount =
      Yields-bind (λ _ _. Unit) (Yields-expect _ _ _ λ now db _. any_reply _)
        λ plan.
          Yields-bind (λ (_ : ℕ) _. Unit) (Yields-of_Keeps (Keeps-require _ _))
            λ expected.
              Yields-bind (λ _ _. Unit) (Yields-of_Keeps (Keeps-reject_if _ _))
                λ _. Yields-pure λ db _. renewal

  params-kind :
      Yields
        (λ _. Unit)
        (webhook_payment_create_params env event)
        (λ arg _. arg.kind ≡ renewal_payment)
  unfolding webhook_payment_create_params
  params-kind =
      Yields-bind (λ (_ : Uuid) _. Unit) (Yields-of_Keeps (Keeps-require _ _))
        λ user.
          Yields-bind (λ (_ : ℕ) _. Unit) (Yields-of_Keeps (Keeps-require _ _))
            λ amount.
              subst
                (λ k.
                  Yields (λ _. Unit) (params_for_kind env k event user amount)
                    (λ arg _. arg.kind ≡ renewal_payment))
                (sym renewal) (for_plan-kind user amount)

  module _ (db0 : Db)
      (unknown : count_where (has_provider_id (payment_of event)) db0.payments ≡ 0) where
    get_payment-Missing :
        (now : Time) (db : Db)
        → db ≡ db0
        → QueryPostOption Missing (get_payment_by_provider_id (payment_of event) now db)
    get_payment-Missing now db same =
        rw
          (get_payment-unknown (payment_of event) now db (
            subst (λ d. count_where (has_provider_id (payment_of event)) d.payments ≡ 0) (sym same)
              unknown))
          tt

    ensure-Never : Yields (λ db. db ≡ db0) (ensure_pending_payment_for_webhook env event) Never
    unfolding ensure_pending_payment_for_webhook
    ensure-Never = Yields-bind Missing (Yields-find _ _ _ get_payment-Missing) refused_row
      where
        refused_row :
            (row : Option Payment) → Yields (Missing row) (create_missing env event row) Never
        refused_row (some row) = Yields-pure λ db p. p
        refused_row none =
            Yields-bind (λ arg _. arg.kind ≡ renewal_payment) params-kind
              λ arg.
                Yields-bind Never
                  (Yields-expect _ _ _ λ now db kind. create_payment-Never arg now db kind)
                  λ _. Yields-pure λ db p. p

    succeeded_body-Never : (t : Time) → Yields (λ db. db ≡ db0) (succeeded_body env event t) Never
    unfolding succeeded_body
    succeeded_body-Never t =
        Yields-bind Never ensure-Never λ _. record { yields = λ w p. ground arith }

    handle_payment_succeeded-Never :
        Yields (λ db. db ≡ db0) (handle_payment_succeeded env event) Never
    unfolding handle_payment_succeeded
    handle_payment_succeeded-Never =
        Yields-bind (λ _ db. db ≡ db0) (Yields-of_Keeps Keeps-time_now)
          λ now. Yields-transaction Never _ _ _ λ start same.
            Yields-weaken (succeeded_body-Never _) (λ db e. e ∙ same)
              λ a db p. by_ending a start db p

SameOnError-of_Never :
    {E A : Type 0} (w : World) (r : Result E A × World) (a : A)
    → Post Never r
    → SameOnError w.db r
    → (r.0 ≢ ok a) × (r.1.db ≡ w.db)
SameOnError-of_Never w (ok b, v) a p same = ((λ _. ground arith), ground arith)
SameOnError-of_Never w (err e, v) a p same = ((λ h. ground arith), same)

-- A renewal is never activated: when the event is a success of a renewal and no row has its payment
-- id, the handler does not return without an error, and the database is as it was.
pub handle_webhook_event-renewal_refused :
    (env : Environment) (event : WebhookEvent) (w : World)
    → event.event_type ≡ payment_succeeded
    → event.kind ≡ renewal_payment
    → count_where (has_provider_id (to_pg_text event.provider_payment_id)) w.db.payments ≡ 0
    → ((handle_webhook_event env event w).0 ≢ ok tt)
      × ((handle_webhook_event env event w).1.db ≡ w.db)
unfolding handle_webhook_event
handle_webhook_event-renewal_refused env event w type renewal unknown =
    SameOnError-of_Never w (handle_webhook_event env event w) tt
      (subst (λ t. Post Never (dispatch env t event w)) (sym type) succeeded)
      ((handle_webhook_event-Atomic env event).atomic w)
  where
    succeeded : Post Never (handle_payment_succeeded env event w)
    succeeded = (handle_payment_succeeded-Never env event renewal w.db unknown).yields w refl
