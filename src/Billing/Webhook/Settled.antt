-- ===== src/Billing/Webhook/Settled.antt =====
-- A payment that is settled: its row is there and is not pending. What marking does to that.
use kartochki_online_backend.Prelude.{
  ◌≤◌, ◌<◌, ◌≡◌, refl, subst, Bool, false, Option, some, List, [], ◌∷◌, ◌++◌, String, inl, inr, ltb,
  Bool-cases, count_where-append, count_where, update_where, arith,
}
use kartochki_online_backend.Calendar.{Time}
use kartochki_online_backend.Database.{Payment, text_matches→eq}
use kartochki_online_backend.Database.Payments.{
  is_awaiting, CreatePaymentParams, create_payment, create_payment-changes, new_payment,
  has_provider_id, is_pending_with_id, set_paid,
}
use kartochki_online_backend.World.Keeps.{QueryKeeps}

-- `id` is the provider's id of the payment.
pub record IsSettled (id : Option String) (payments : List Payment) : Type 0 where
  pub known : 0 < count_where (has_provider_id id) payments
  pub not_pending : count_where (is_pending_with_id id) payments ≡ 0

pub paid-not_pending :
    (id : Option String) (t : Option Time) (ps : List Payment)
    → count_where (is_pending_with_id id) (update_where (is_pending_with_id id) (set_paid t) ps) ≡ 0
paid-not_pending id t [] = refl
paid-not_pending id t (p ∷ ps) = ground (arith, paid-not_pending id t ps)

pub paid-known :
    (id : Option String) (t : Option Time) (ps : List Payment)
    → count_where (has_provider_id id) (update_where (is_pending_with_id id) (set_paid t) ps)
      ≡ count_where (has_provider_id id) ps
paid-known id t [] = refl
paid-known id t (p ∷ ps) = ground (arith, paid-known id t ps)

pub pending-le-known :
    (id : Option String) (ps : List Payment)
    → count_where (is_pending_with_id id) ps ≤ count_where (has_provider_id id) ps
pending-le-known id [] = omega arith
pending-le-known id (p ∷ ps) = ground (arith, pending-le-known id ps)

-- An update whose assignment keeps the ids and leaves no row pending keeps what is settled.
pub IsSettled-update :
    (id : Option String) (test : Payment → Bool) (set : Payment → Payment) (ps : List Payment)
    → ((p : Payment) → (set p).provider_payment_id ≡ p.provider_payment_id)
    → ((p : Payment) → is_awaiting (set p).status ≡ false)
    → IsSettled id ps
    → IsSettled id (update_where test set ps)
IsSettled-update id test set ps same done h = record {
  known = let e = known_same ps in let k = h.known in omega arith;
  not_pending = let e = fewer_pending ps in let k = h.not_pending in omega arith;
}
  where
    known_same :
        (ps : List Payment)
        → count_where (has_provider_id id) (update_where test set ps)
          ≡ count_where (has_provider_id id) ps
    known_same [] = refl
    known_same (p ∷ ps) = let e = same p in ground (arith, known_same ps)

    fewer_pending :
        (ps : List Payment)
        → count_where (is_pending_with_id id) (update_where test set ps)
          ≤ count_where (is_pending_with_id id) ps
    fewer_pending [] = omega arith
    fewer_pending (p ∷ ps) = let e = same p in let d = done p in ground (arith, fewer_pending ps)

-- An insertion keeps it too: the id is unique.
pub create_payment-Keeps_IsSettled :
    (s : String) (arg : CreatePaymentParams)
    → QueryKeeps (λ db. IsSettled (some s) db.payments) (create_payment arg)
create_payment-Keeps_IsSettled s arg now db h =
    create_payment-changes (λ d. IsSettled (some s) d.payments) arg now db h inserted
  where
    row : Payment
    row = new_payment db.next_id now arg

    other :
        ltb 0 (count_where (has_provider_id arg.provider_payment_id) db.payments) ≡ false
        → has_provider_id (some s) row ≡ false
    other free = elim (Bool-cases (has_provider_id (some s) row)) [
      | inr no_match ↦ no_match
      | inl match ↦
          let k = h.known in
          let f =
            subst (λ o. ltb 0 (count_where (has_provider_id o) db.payments) ≡ false)
              (text_matches→eq arg.provider_payment_id s match) free in
          ground arith
    ]

    inserted :
        ltb 0 (count_where (has_provider_id arg.provider_payment_id) db.payments) ≡ false
        → IsSettled (some s) (db.payments ++ (row ∷ []))
    inserted free = record {
      known =
          let e = count_where-append (has_provider_id (some s)) db.payments (row ∷ []) in
          let k = h.known in omega arith;
      not_pending =
          let e = count_where-append (is_pending_with_id (some s)) db.payments (row ∷ []) in
          let k = h.not_pending in let o = other free in ground arith;
    }
