-- ===== src/Database/Payments.antt =====
-- The statements on `payments` (internal/dbgen/billing.sql.go), with the constraints of the table
-- (db/migrations/000008_billing_api.up.sql, which no later migration changes).
use kartochki_online_backend.Prelude.{
  ℕ, suc, ◌≡◌, Bool, true, false, ◌&&◌, String, Option, none, List, [], ◌∷◌, ◌++◌, ltb, ◌==◌,
  if◌then◌else◌, Bool-cases, inl, inr, first, count_where, update_where,
}
use kartochki_online_backend.Prelude.Int.{ℤ, pos, negsuc}
use kartochki_online_backend.Calendar.{Time}
use kartochki_online_backend.Provider.{Uuid}
use kartochki_online_backend.Database.Rows.{
  Db, User, Payment, PaymentKind, subscription_payment, renewal_payment, addon_payment,
  other_payment, PaymentStatus, awaiting, paid, void,
}
use kartochki_online_backend.Database.Sql.{
  Query, QueryPost, reply, refused, one, text_matches, unique_violation, check_violation,
  foreign_key_violation,
}

abbrev pub is_awaiting : PaymentStatus → Bool
is_awaiting awaiting = true
is_awaiting _ = false

-- provider_payment_id = $1
abbrev pub has_provider_id : Option String → Payment → Bool
has_provider_id id p = text_matches p.provider_payment_id id

-- provider_payment_id = $1 and status = 'pending'
abbrev pub is_pending_with_id : Option String → Payment → Bool
is_pending_with_id id p = has_provider_id id p && is_awaiting p.status

unfoldable pub get_payment_by_provider_id : Option String → Query Payment
get_payment_by_provider_id id now db = (one (first (has_provider_id id) db.payments), db)

abbrev pub set_paid : Option Time → Payment → Payment
set_paid paid_at p = record p { status = paid; paid_at = paid_at }

abbrev pub set_void : Payment → Payment
set_void p = record p { status = void }

-- The reply is the number of rows affected.
unfoldable pub mark_payment_paid : Option String → Option Time → Query ℕ
mark_payment_paid id paid_at now db = (
  reply (count_where (is_pending_with_id id) db.payments),
  record db { payments = update_where (is_pending_with_id id) (set_paid paid_at) db.payments },
)

unfoldable pub mark_payment_canceled : Option String → Query ℕ
mark_payment_canceled id now db = (
  reply (count_where (is_pending_with_id id) db.payments),
  record db { payments = update_where (is_pending_with_id id) set_void db.payments },
)

-- CreatePaymentParams; `status` is always 'pending' in the calls.
pub record CreatePaymentParams : Type 0 where
  pub user_id : Uuid
  pub subscription_id : Option Uuid
  pub addon_product_id : Option Uuid
  pub provider : String
  pub provider_payment_id : Option String
  pub kind : PaymentKind
  pub status : PaymentStatus
  pub amount : ℤ
  pub currency : String
  pub checkout_url : Option String

-- check (kind in ('subscription', 'addon'))
abbrev pub kind_is_allowed : PaymentKind → Bool
kind_is_allowed subscription_payment = true
kind_is_allowed addon_payment = true
kind_is_allowed renewal_payment = false
kind_is_allowed (other_payment _) = false

-- check (amount >= 0)
abbrev pub amount_is_allowed : ℤ → Bool
amount_is_allowed (pos n) = true
amount_is_allowed (negsuc n) = false

abbrev pub new_payment : Uuid → Time → CreatePaymentParams → Payment
new_payment id now arg = record {
  id = id;
  user_id = arg.user_id;
  subscription_id = arg.subscription_id;
  addon_product_id = arg.addon_product_id;
  provider = arg.provider;
  provider_payment_id = arg.provider_payment_id;
  kind = arg.kind;
  status = arg.status;
  amount = arg.amount;
  currency = arg.currency;
  checkout_url = arg.checkout_url;
  paid_at = none;
  created_at = now;
}

abbrev pub user_exists : Uuid → List User → Bool
user_exists id users = ltb 0 (count_where (λ u. u.id == id) users)

unfoldable pub create_payment : CreatePaymentParams → Query Payment
create_payment arg now db =
    let row = new_payment db.next_id now arg in
    if kind_is_allowed arg.kind && amount_is_allowed arg.amount
    then (if ltb 0 (count_where (has_provider_id arg.provider_payment_id) db.payments)
        then (refused unique_violation, db)
        else if user_exists arg.user_id db.users
        then (
          reply row,
          record db { payments = db.payments ++ (row ∷ []); next_id = suc db.next_id },
        )
        else (refused foreign_key_violation, db))
    else (refused check_violation, db)

-- What an insertion establishes, when it goes through.
pub create_payment-inserts :
    (Q : Payment → Db → Type 0) (arg : CreatePaymentParams) (now : Time) (db : Db)
    → (let row = new_payment db.next_id now arg in
        Q row (record db { payments = db.payments ++ (row ∷ []); next_id = suc db.next_id }))
    → QueryPost Q (create_payment arg now db)
unfolding create_payment
create_payment-inserts Q arg now db q =
    elim (Bool-cases (kind_is_allowed arg.kind && amount_is_allowed arg.amount)) [
      | inr bad ↦ rw bad tt
      | inl good ↦
          rw good
            (elim (Bool-cases
              (ltb 0 (count_where (has_provider_id arg.provider_payment_id) db.payments))) [
                | inl taken ↦ rw taken tt
                | inr free ↦ rw free (elim (Bool-cases (user_exists arg.user_id db.users)) [
                  | inl user ↦ rw user q
                  | inr nobody ↦ rw nobody tt
                ])
              ])
    ]

-- What holds after an insertion, whether it goes through or not.
pub create_payment-changes :
    (P : Db → Type 0) (arg : CreatePaymentParams) (now : Time) (db : Db)
    → P db
    → (let row = new_payment db.next_id now arg in
        ltb 0 (count_where (has_provider_id arg.provider_payment_id) db.payments) ≡ false
        → P (record db { payments = db.payments ++ (row ∷ []); next_id = suc db.next_id }))
    → P (create_payment arg now db).1
unfolding create_payment
create_payment-changes P arg now db p q =
    elim (Bool-cases (kind_is_allowed arg.kind && amount_is_allowed arg.amount)) [
      | inr bad ↦ rw bad p
      | inl good ↦
          rw good
            (elim (Bool-cases
              (ltb 0 (count_where (has_provider_id arg.provider_payment_id) db.payments))) [
                | inl taken ↦ rw taken p
                | inr free ↦ rw free (elim (Bool-cases (user_exists arg.user_id db.users)) [
                  | inl user ↦ rw user (q free)
                  | inr nobody ↦ rw nobody p
                ])
              ])
    ]
