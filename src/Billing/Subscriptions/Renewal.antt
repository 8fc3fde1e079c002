-- ===== src/Billing/Subscriptions/Renewal.antt =====
-- What becomes of a renewal (internal/billing/subscriptions.go): the provider is asked for the
-- money, and the payment cannot be stored, as `payments.kind` has no value for a renewal
-- (db/migrations/000008_billing_api.up.sql).
use kartochki_online_backend.Prelude.{
  ℕ, ◌≡◌, refl, inl, inr, Bool, String, Option, none, some, List, [], ◌∷◌, ◌++◌, first, count_where,
  first-counted, Option-cases, arith,
}
use kartochki_online_backend.Calendar.{Time}
use kartochki_online_backend.Provider.{CheckoutSession, CheckoutProvider}
use kartochki_online_backend.Environment.{Environment}
use kartochki_online_backend.Database.{
  Db, Payment, renewal_payment, refused, check_violation, no_rows, to_pg_text,
}
use kartochki_online_backend.Database.Payments.{
  CreatePaymentParams, has_provider_id, get_payment_by_provider_id, create_payment,
}
use kartochki_online_backend.Database.Renewals.{DueSubscription}
use kartochki_online_backend.World.{World, err, ◌>>=◌, recurring_payment, sql_now}
use kartochki_online_backend.World.Clear.{send-clear, expect-clear, find-clear}
use kartochki_online_backend.Billing.Types.{checkout_persistence_failed, checkout_provider_failed}
use kartochki_online_backend.Billing.Periods.{amount_for_period, renewal_period}
use kartochki_online_backend.Billing.Checkout.{record_pending_payment}
use kartochki_online_backend.Billing.Subscriptions.{
  create_renewal_payment, create_recurring_payment, recurring_input, renewal_params,
}

-- The check on the kind refuses the row.
pub create_payment-renewal :
    (arg : CreatePaymentParams) (now : Time) (db : Db)
    → arg.kind ≡ renewal_payment
    → create_payment arg now db ≡ (refused check_violation, db)
unfolding create_payment
create_payment-renewal arg now db h = rw h refl

pub first-uncounted :
    (test : Payment → Bool) (ps : List Payment) → count_where test ps ≡ 0 → first test ps ≡ none
first-uncounted test ps h = elim (Option-cases (first test ps)) [
  | inl e ↦ e
  | inr (p, e) ↦ let k = first-counted test ps p e in absurd (omega arith)
]

pub get_payment-unknown :
    (id : Option String) (now : Time) (db : Db)
    → count_where (has_provider_id id) db.payments ≡ 0
    → get_payment_by_provider_id id now db ≡ (refused no_rows, db)
unfolding get_payment_by_provider_id
get_payment-unknown id now db h = rw (first-uncounted (has_provider_id id) db.payments h) refl

record_pending_payment-renewal :
    (arg : CreatePaymentParams) (w : World)
    → w.faults ≡ []
    → arg.kind ≡ renewal_payment
    → count_where (has_provider_id arg.provider_payment_id) w.db.payments ≡ 0
    → record_pending_payment arg w ≡ (err checkout_persistence_failed, w)
unfolding record_pending_payment ◌>>=◌
record_pending_payment-renewal arg w clear kind unknown =
    rw
      (
        find-clear w clear (λ _. checkout_persistence_failed)
            (get_payment_by_provider_id arg.provider_payment_id),
        get_payment-unknown arg.provider_payment_id (sql_now w) w.db unknown,
        expect-clear w clear (λ _. checkout_persistence_failed) (create_payment arg),
        create_payment-renewal arg (sql_now w) w.db kind,
      )
      refl

-- A renewal is charged and never stored. In a world without faults, when the amount is known, the
-- provider accepts the recurring payment and its id is new, `createRenewalPayment` returns the
-- persistence error, the request has left for the provider, and the database is as it was.
pub create_renewal_payment-unrecorded :
    (env : Environment) (provider : CheckoutProvider) (row : DueSubscription) (w : World)
    (amount : ℕ) (session : CheckoutSession)
    → w.faults ≡ []
    → (let period = renewal_period row.current_period_start row.current_period_end in
        let input = recurring_input env provider row period amount in
        amount_for_period row.monthly_price row.yearly_monthly_price period ≡ some amount
        → provider.create_recurring_payment input ≡ some session
        → count_where (has_provider_id (to_pg_text session.provider_payment_id)) w.db.payments ≡ 0
        → create_renewal_payment env provider row w ≡ (
          err checkout_persistence_failed,
          record w { outbox = w.outbox ++ (recurring_payment input ∷ []) },
        ))
unfolding create_renewal_payment create_recurring_payment ◌>>=◌
create_renewal_payment-unrecorded env provider row w amount session clear price accepted unknown =
    let period = renewal_period row.current_period_start row.current_period_end in
    let input = recurring_input env provider row period amount in
    let sent = record w { outbox = w.outbox ++ (recurring_payment input ∷ []) } in
    rw
      (
        price,
        send-clear w clear checkout_provider_failed (recurring_payment input),
        accepted,
        record_pending_payment-renewal (renewal_params row amount session) sent clear refl unknown,
      )
      refl
