-- ===== src/Billing/Webhook/Once.antt =====
-- A successful payment is applied once (internal/billing/webhook.go): the handler called again for
-- the same payment, whatever was reported in between.
use kartochki_online_backend.Prelude.{
  ℕ, zero, suc, ◌<◌, ◌≡◌, ◌≢◌, refl, sym, subst, ap, ◌∙◌, inl, inr, String, Option, none, some,
  List, [], ◌∷◌, str_eq, eq_iff, first, count_where, count_where-first, update_where_none,
  Option-cases, Bool-cases, arith,
}
use kartochki_online_backend.Calendar.{Time}
use kartochki_online_backend.Environment.{Environment}
use kartochki_online_backend.Database.{Db, Payment, to_pg_text, QueryPost, QueryPostOption}
use kartochki_online_backend.Database.Payments.{
  has_provider_id, is_pending_with_id, get_payment_by_provider_id, mark_payment_paid, set_void,
  mark_payment_canceled, set_paid,
}
use kartochki_online_backend.World.{World, ok}
use kartochki_online_backend.World.Keeps.{
  Keeps, Keeps-bind, Keeps-time_now, Keeps-expect, Keeps-pure,
}
use kartochki_online_backend.World.Yields.{
  Post-ok, Yields, Post, EndingPost, Yields-bind, Yields-of_Keeps, Yields-pure, Yields-expect,
  Yields-find, Yields-transaction, Keeps-transaction,
}
use kartochki_online_backend.Billing.Types.{
  WebhookEvent, WebhookEventType, payment_succeeded, payment_canceled, other_event,
}
use kartochki_online_backend.Billing.Webhook.{
  create_missing, ensure_pending_payment_for_webhook, after_mark, succeeded_body,
  handle_payment_succeeded, handle_payment_canceled, dispatch, handle_webhook_event,
}
use kartochki_online_backend.Billing.Webhook.Settled.{IsSettled}
use kartochki_online_backend.Billing.Webhook.Settles.{payment_of, succeeded_body-IsSettled}
use kartochki_online_backend.Billing.Webhook.Replay.{handle_webhook_event-Keeps_IsSettled}

-- The row is found, and nothing has changed.
abbrev FoundAgain : Db → Option Payment → Db → Type 0
FoundAgain db0 none db = suc zero ≡ zero
FoundAgain db0 (some row) db = db ≡ db0

module _ (s : String) (db0 : Db) (settled : IsSettled (some s) db0.payments) where
  get_payment-again :
      (now : Time) (db : Db)
      → db ≡ db0
      → QueryPostOption (FoundAgain db0) (get_payment_by_provider_id (some s) now db)
  unfolding get_payment_by_provider_id
  get_payment-again now db same =
      elim (Option-cases (first (has_provider_id (some s)) db.payments)) [
        | inr (row, e) ↦ rw e same
        | inl e ↦
            let k =
              subst (λ d. 0 < count_where (has_provider_id (some s)) d.payments) (sym same)
                settled.known in
            let z = count_where-first (has_provider_id (some s)) db.payments e in rw e (omega arith)
      ]

  unmarked : (db : Db) → db ≡ db0 → count_where (is_pending_with_id (some s)) db.payments ≡ 0
  unmarked db same =
      subst (λ d. count_where (is_pending_with_id (some s)) d.payments ≡ 0) (sym same)
        settled.not_pending

  mark_payment_paid-again :
      (t : Option Time) (now : Time) (db : Db)
      → db ≡ db0
      → QueryPost (λ n d. (n ≡ 0) × (d ≡ db0)) (mark_payment_paid (some s) t now db)
  unfolding mark_payment_paid
  mark_payment_paid-again t now db same =
      let none_left = unmarked db same in
      (
        none_left,
        ap (λ ps. record db { payments = ps })
              (update_where_none _ (set_paid t) db.payments none_left)
            ∙ same,
      )

  mark_payment_canceled-again :
      (now : Time) (db : Db) → db ≡ db0 → (mark_payment_canceled (some s) now db).1 ≡ db0
  unfolding mark_payment_canceled
  mark_payment_canceled-again now db same =
      ap (λ ps. record db { payments = ps })
        (update_where_none _ set_void db.payments (unmarked db same))
      ∙ same

module _ (env : Environment) (event : WebhookEvent) (s : String)
    (h : payment_of event ≡ some s) where
  module _ (db0 : Db) (settled : IsSettled (some s) db0.payments) where
    ensure-again :
        Yields (λ db. db ≡ db0) (ensure_pending_payment_for_webhook env event) (λ _ db. db ≡ db0)
    unfolding ensure_pending_payment_for_webhook
    ensure-again =
        Yields-bind (FoundAgain db0)
          (Yields-find _ _ _ λ now db p. rw h (get_payment-again s db0 settled now db p)) there
      where
        there :
            (row : Option Payment)
            → Yields (FoundAgain db0 row) (create_missing env event row) (λ _ db. db ≡ db0)
        there none = record { yields = λ w p. ground arith }
        there (some row) = Yields-pure λ db p. p

    succeeded_body-again :
        (t : Time)
        → Yields (λ db. db ≡ db0) (succeeded_body env event t) (EndingPost (λ db. db ≡ db0))
    unfolding succeeded_body
    succeeded_body-again t =
        Yields-bind (λ _ db. db ≡ db0) ensure-again
          λ _.
            Yields-bind (λ n db. (n ≡ 0) × (db ≡ db0))
              (Yields-expect _ _ _
                λ now db p. rw h (mark_payment_paid-again s db0 settled (some t) now db p))
              after
      where
        after :
            (n : ℕ)
            → Yields
                (λ db. (n ≡ 0) × (db ≡ db0))
                (after_mark env event t n)
                (EndingPost (λ db. db ≡ db0))
        after zero = Yields-pure λ db p. tt
        after (suc n) = record { yields = λ w p. let z = p.0 in ground arith }

    -- An event about a settled payment changes nothing.
    pub handle_webhook_event-again : Keeps (λ db. db ≡ db0) (handle_webhook_event env event)
    unfolding handle_webhook_event handle_payment_succeeded handle_payment_canceled
    handle_webhook_event-again = by_type event.event_type
      where
        by_type : (t : WebhookEventType) → Keeps (λ db. db ≡ db0) (dispatch env t event)
        by_type payment_succeeded =
            Keeps-bind Keeps-time_now λ now. Keeps-transaction _ _ (succeeded_body-again _)
        by_type payment_canceled =
            Keeps-bind
              (Keeps-expect _ (mark_payment_canceled (payment_of event))
                λ now db p. rw h (mark_payment_canceled-again s db0 settled now db p))
              λ _. Keeps-pure
        by_type (other_event _) = Keeps-pure

  -- A success report that returns has settled its payment.
  handle_payment_succeeded-IsSettled :
      Yields
        (λ _. Unit)
        (handle_payment_succeeded env event)
        (λ _ db. IsSettled (some s) db.payments)
  unfolding handle_payment_succeeded
  handle_payment_succeeded-IsSettled =
      Yields-bind (λ _ _. Unit) (Yields-of_Keeps Keeps-time_now)
        λ now.
          Yields-transaction (λ _ db. IsSettled (some s) db.payments) _ _ _
            λ start _. succeeded_body-IsSettled env event s _ start h

abbrev pub handle_all : Environment → List WebhookEvent → World → World
handle_all env [] w = w
handle_all env (event ∷ events) w = handle_all env events (handle_webhook_event env event w).1

handle_all-Keeps_IsSettled :
    (env : Environment) (s : String) (events : List WebhookEvent) (w : World)
    → IsSettled (some s) w.db.payments
    → IsSettled (some s) (handle_all env events w).db.payments
handle_all-Keeps_IsSettled env s [] w h = h
handle_all-Keeps_IsSettled env s (event ∷ events) w h =
    handle_all-Keeps_IsSettled env s events _
      ((handle_webhook_event-Keeps_IsSettled env s event).keeps w h)

payment_of-named :
    (event : WebhookEvent)
    → event.provider_payment_id ≢ ""
    → payment_of event ≡ some event.provider_payment_id
payment_of-named event h = elim (Bool-cases (str_eq event.provider_payment_id "")) [
  | inr named ↦ rw named refl
  | inl empty ↦ absurd (h ((eq_iff event.provider_payment_id "").0 empty))
]

handle_webhook_event-settles :
    (env : Environment) (event : WebhookEvent) (w : World)
    → event.event_type ≡ payment_succeeded
    → event.provider_payment_id ≢ ""
    → (handle_webhook_event env event w).0 ≡ ok tt
    → IsSettled (some event.provider_payment_id) (handle_webhook_event env event w).1.db.payments
unfolding handle_webhook_event
handle_webhook_event-settles env event w type named ok_ =
    Post-ok (λ db. IsSettled (some event.provider_payment_id) db.payments)
      (handle_webhook_event env event w)
      (subst
        (λ t.
          Post (λ _ db. IsSettled (some event.provider_payment_id) db.payments)
            (dispatch env t event w))
        (sym type) post)
      ok_
  where
    post :
        Post
          (λ _ db. IsSettled (some event.provider_payment_id) db.payments)
          (handle_payment_succeeded env event w)
    post =
        (handle_payment_succeeded-IsSettled env event event.provider_payment_id
            (payment_of-named event named)).yields
          w tt

-- A payment is applied once. When the handler returns without an error for a `payment.succeeded`
-- event with a payment id, then after any further events, of this payment or of others, handled
-- with or without errors, an event of any type with the same payment id leaves the database as it is.
pub handle_webhook_event-once :
    (env : Environment) (event later : WebhookEvent) (between : List WebhookEvent) (w : World)
    → event.event_type ≡ payment_succeeded
    → event.provider_payment_id ≢ ""
    → later.provider_payment_id ≡ event.provider_payment_id
    → (handle_webhook_event env event w).0 ≡ ok tt
    → (let v = handle_all env between (handle_webhook_event env event w).1 in
        (handle_webhook_event env later v).1.db ≡ v.db)
handle_webhook_event-once env event later between w type named same ok_ =
    let v = handle_all env between (handle_webhook_event env event w).1 in
    let settled =
      handle_all-Keeps_IsSettled env event.provider_payment_id between _
        (handle_webhook_event-settles env event w type named ok_) in
    let id = ap to_pg_text same ∙ payment_of-named event named in
    (handle_webhook_event-again env later event.provider_payment_id id v.db settled).keeps v refl
