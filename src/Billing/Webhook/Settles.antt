-- ===== src/Billing/Webhook/Settles.antt =====
-- A successful payment is settled when its webhook returns (internal/billing/webhook.go).

use kartochki_online_backend.Prelude.{
  ℕ, zero, suc, ◌<◌, ◌≡◌, refl, subst, ◌∙◌, inl, inr, true, String, Option, none, some, List, [],
  ◌∷◌, ◌++◌, str_eq, eq_refl, first, count_where, update_where, first-counted, Option-cases, arith,
}
use kartochki_online_backend.Calendar.{Time}
use kartochki_online_backend.Provider.{Uuid}
use kartochki_online_backend.Environment.{Environment}
use kartochki_online_backend.Database.{
  Db, Payment, PaymentKind, subscription_payment, renewal_payment, addon_payment, other_payment,
  awaiting, to_pg_text, Reply, reply, refused, QueryPost, QueryPostOption,
}
use kartochki_online_backend.Database.Payments.{
  has_provider_id, is_pending_with_id, get_payment_by_provider_id, mark_payment_paid,
  CreatePaymentParams, create_payment-inserts, new_payment, create_payment, set_paid,
}
use kartochki_online_backend.World.Keeps.{Keeps-require, Keeps-reject_if}
use kartochki_online_backend.World.Yields.{
  Yields, EndingFrom, Yields-fail, Yields-bind, Yields-of_Keeps, Yields-pure, Yields-expect,
  Yields-find,
}
use kartochki_online_backend.Billing.Types.{WebhookEvent}
use kartochki_online_backend.Billing.Webhook.{
  webhook_payment_create_params, for_plan, for_addon, params_for_kind, create_missing,
  ensure_pending_payment_for_webhook, after_mark, succeeded_body,
}
use kartochki_online_backend.Billing.Webhook.Settled.{
  IsSettled, paid-not_pending, paid-known, pending-le-known,
}
use kartochki_online_backend.Billing.Webhook.Activation.{activate-Keeps_payments}

-- The event's payment, as the column that names it.
abbrev pub payment_of : WebhookEvent → Option String
payment_of event = to_pg_text event.provider_payment_id

-- The row that the restore inserts is pending and carries the event's id.
abbrev IsFor : WebhookEvent → CreatePaymentParams → Db → Type 0
IsFor event arg db = (arg.provider_payment_id ≡ payment_of event) × (arg.status ≡ awaiting)

-- Between the restore and the marking: the row is there, and if none is pending nothing was written.
abbrev Ensured : Option String → Db → Db → Type 0
Ensured id start db =
    (0 < count_where (has_provider_id id) db.payments)
    × (count_where (is_pending_with_id id) db.payments ≡ 0 → db ≡ start)

-- After the marking of `n` rows.
abbrev Marked : Option String → Db → ℕ → Db → Type 0
Marked id start zero db = IsSettled id start.payments
Marked id start (suc n) db = IsSettled id db.payments

-- A statement of which only the reply is used.
pub any_reply : {A : Type 0} (r : Reply A × Db) → QueryPost (λ _ _. Unit) r
any_reply (reply a, db) = tt
any_reply (refused e, db) = tt

counts-last :
    (s : String) (arg : CreatePaymentParams) (id : Uuid) (now : Time) (ps : List Payment)
    → arg.provider_payment_id ≡ some s
    → arg.status ≡ awaiting
    → 0 < count_where (is_pending_with_id (some s)) (ps ++ (new_payment id now arg ∷ []))
counts-last s arg id now [] h k =
    let e : str_eq s s ≡ true = eq_refl s in rw (h, k, e) (omega arith)
counts-last s arg id now (p ∷ ps) h k = ground (arith, counts-last s arg id now ps h k)

-- The inserted row is pending under the event's id.
create_payment-pending :
    (s : String) (arg : CreatePaymentParams) (start : Db) (now : Time) (db : Db)
    → arg.provider_payment_id ≡ some s
    → arg.status ≡ awaiting
    → QueryPost (λ _. Ensured (some s) start) (create_payment arg now db)
create_payment-pending s arg start now db h k =
    let now_there = counts-last s arg db.next_id now db.payments h k in
    let le = pending-le-known (some s) (db.payments ++ (new_payment db.next_id now arg ∷ [])) in
    create_payment-inserts _ arg now db (omega arith, λ none_left. ground arith)

abbrev Found : String → Db → Option Payment → Db → Type 0
Found s start none db = Unit
Found s start (some row) db = Ensured (some s) start db

get_payment-Found :
    (s : String) (start : Db) (now : Time) (db : Db)
    → db ≡ start
    → QueryPostOption (Found s start) (get_payment_by_provider_id (some s) now db)
unfolding get_payment_by_provider_id
get_payment-Found s start now db same =
    elim (Option-cases (first (has_provider_id (some s)) db.payments)) [
      | inl e ↦ rw e tt
      | inr (row, e) ↦
          rw e (first-counted (has_provider_id (some s)) db.payments row e, λ none_left. same)
    ]

mark_payment_paid-Marked :
    (s : String) (start : Db) (t : Time) (now : Time) (db : Db)
    → Ensured (some s) start db
    → QueryPost (Marked (some s) start) (mark_payment_paid (some s) (some t) now db)
unfolding mark_payment_paid
mark_payment_paid-Marked s start t now db p =
    go (count_where (is_pending_with_id (some s)) db.payments) refl
  where
    settled :
        IsSettled
          (some s)
          (update_where (is_pending_with_id (some s)) (set_paid (some t)) db.payments)
    settled = record {
      known = let e = paid-known (some s) (some t) db.payments in let k = p.0 in omega arith;
      not_pending = paid-not_pending (some s) (some t) db.payments;
    }

    go :
        (n : ℕ)
        → count_where (is_pending_with_id (some s)) db.payments ≡ n
        → Marked (some s) start n (record db {
          payments = update_where (is_pending_with_id (some s)) (set_paid (some t)) db.payments;
        })
    go zero e =
        subst (λ d. IsSettled (some s) d.payments) (p.1 e) (record { known = p.0; not_pending = e })
    go (suc n) e = settled

module _ (env : Environment) where
  for_plan-IsFor :
      (event : WebhookEvent) (user : Uuid) (amount : ℕ)
      → Yields (λ _. Unit) (for_plan env event user amount) (IsFor event)
  unfolding for_plan
  for_plan-IsFor event user amount =
      Yields-bind (λ _ _. Unit) (Yields-expect _ _ _ λ now db _. any_reply _)
        λ plan.
          Yields-bind (λ (_ : ℕ) _. Unit) (Yields-of_Keeps (Keeps-require _ _))
            λ expected.
              Yields-bind (λ _ _. Unit) (Yields-of_Keeps (Keeps-reject_if _ _))
                λ _. Yields-pure λ db _. (refl, refl)

  for_addon-IsFor :
      (event : WebhookEvent) (user : Uuid) (amount : ℕ)
      → Yields (λ _. Unit) (for_addon env event user amount) (IsFor event)
  unfolding for_addon
  for_addon-IsFor event user amount =
      Yields-bind (λ _ _. Unit) (Yields-expect _ _ _ λ now db _. any_reply _)
        λ addon.
          Yields-bind (λ _ _. Unit) (Yields-of_Keeps (Keeps-reject_if _ _))
            λ _. Yields-pure λ db _. (refl, refl)

  params_for_kind-IsFor :
      (kind : PaymentKind) (event : WebhookEvent) (user : Uuid) (amount : ℕ)
      → Yields (λ _. Unit) (params_for_kind env kind event user amount) (IsFor event)
  params_for_kind-IsFor subscription_payment event user amount = for_plan-IsFor event user amount
  params_for_kind-IsFor renewal_payment event user amount = for_plan-IsFor event user amount
  params_for_kind-IsFor addon_payment event user amount = for_addon-IsFor event user amount
  params_for_kind-IsFor (other_payment _) event user amount = Yields-fail

  params-IsFor :
      (event : WebhookEvent)
      → Yields (λ _. Unit) (webhook_payment_create_params env event) (IsFor event)
  unfolding webhook_payment_create_params
  params-IsFor event =
      Yields-bind (λ (_ : Uuid) _. Unit) (Yields-of_Keeps (Keeps-require _ _))
        λ user.
          Yields-bind (λ (_ : ℕ) _. Unit) (Yields-of_Keeps (Keeps-require _ _))
            λ amount. params_for_kind-IsFor event.kind event user amount

  -- The row is there before it is marked.
  ensure-Ensured :
      (event : WebhookEvent) (s : String) (start : Db)
      → payment_of event ≡ some s
      → Yields
          (λ db. db ≡ start)
          (ensure_pending_payment_for_webhook env event)
          (λ _. Ensured (some s) start)
  unfolding ensure_pending_payment_for_webhook
  ensure-Ensured event s start h =
      Yields-bind (Found s start)
        (Yields-find _ _ _ λ now db p. rw h (get_payment-Found s start now db p)) created
    where
      created :
          (row : Option Payment)
          → Yields (Found s start row) (create_missing env event row) (λ _. Ensured (some s) start)
      created (some row) = Yields-pure λ db p. p
      created none = Yields-bind (IsFor event) (params-IsFor event) λ arg.
          Yields-bind (λ _. Ensured (some s) start)
            (Yields-expect _ _ _
              λ now db p. create_payment-pending s arg start now db (p.0 ∙ h) p.1)
            λ _. Yields-pure λ db p. p

  -- However the transaction of a successful payment ends well, the payment is settled.
  pub succeeded_body-IsSettled :
      (event : WebhookEvent) (s : String) (t : Time) (start : Db)
      → payment_of event ≡ some s
      → Yields
          (λ db. db ≡ start)
          (succeeded_body env event t)
          (EndingFrom (λ _ db. IsSettled (some s) db.payments) start)
  unfolding succeeded_body
  succeeded_body-IsSettled event s t start h =
      Yields-bind (λ _. Ensured (some s) start) (ensure-Ensured event s start h)
        λ _.
          Yields-bind (Marked (some s) start)
            (Yields-expect _ _ _ λ now db p. rw h (mark_payment_paid-Marked s start t now db p))
            after
    where
      after :
          (n : ℕ)
          → Yields
              (Marked (some s) start n)
              (after_mark env event t n)
              (EndingFrom (λ _ db. IsSettled (some s) db.payments) start)
      after zero = Yields-pure λ db p. p
      after (suc n) =
          Yields-bind (λ _ db. IsSettled (some s) db.payments)
            (Yields-of_Keeps (activate-Keeps_payments env (IsSettled (some s)) event.kind event t))
            λ _. Yields-pure λ db p. p
