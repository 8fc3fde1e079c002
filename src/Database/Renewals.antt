-- ===== src/Database/Renewals.antt =====
-- The subscriptions that are due for renewal (internal/dbgen/billing.sql.go).
use kartochki_online_backend.Prelude.{
  ℕ, Bool, true, false, not, ◌&&◌, String, Option, none, some, List, [], ◌∷◌, ◌++◌, ltb, leb, ◌==◌,
  str_eq, if◌then◌else◌, first, take, count_where,
}
use kartochki_online_backend.Calendar.{Time}
use kartochki_online_backend.Provider.{Uuid}
use kartochki_online_backend.Database.Rows.{
  Db, User, Plan, Subscription, Payment, PaymentKind, subscription_payment, renewal_payment,
  addon_payment, other_payment,
}
use kartochki_online_backend.Database.Sql.{Query, reply}
use kartochki_online_backend.Database.Catalog.{order_by}
use kartochki_online_backend.Database.Payments.{is_awaiting}
use kartochki_online_backend.Database.Subscriptions.{status_is_active}

-- ListSubscriptionsDueForRenewalRow
pub record DueSubscription : Type 0 where
  pub id : Uuid
  pub user_id : Uuid
  pub provider_subscription_id : String
  pub current_period_start : Time
  pub current_period_end : Time
  pub renews_at : Time
  pub plan_code : String
  pub plan_name : String
  pub monthly_price : ℕ
  pub yearly_monthly_price : Option ℕ
  pub user_email : Option String

abbrev is_subscription_kind : PaymentKind → Bool
is_subscription_kind subscription_payment = true
is_subscription_kind renewal_payment = true
is_subscription_kind addon_payment = false
is_subscription_kind (other_payment _) = false

-- A payment of the subscription that waits for its webhook.
abbrev pub awaits_payment : Uuid → Payment → Bool
awaits_payment id p = elim p.subscription_id [
  | none ↦ false
  | some s ↦ (s == id) && (is_subscription_kind p.kind && is_awaiting p.status)
]

abbrev due_row : Subscription → String → Time → Option Plan → Option User → List DueSubscription
due_row s method renews_at (some p) (some u) =
    record {
      id = s.id;
      user_id = s.user_id;
      provider_subscription_id = method;
      current_period_start = s.current_period_start;
      current_period_end = s.current_period_end;
      renews_at = renews_at;
      plan_code = p.code;
      plan_name = p.name;
      monthly_price = p.monthly_price;
      yearly_monthly_price = p.yearly_monthly_price;
      user_email = u.email;
    }
    ∷ []
due_row s method renews_at _ _ = []

-- The `where` clause on the row itself: the nullable columns are there.
abbrev due_columns : Time → Subscription → Option String → Option Time → Db → List DueSubscription
due_columns at s (some method) (some renews_at) db =
    if (status_is_active s.status && s.has_payment_method)
      && (str_eq s.provider "yookassa"
          && (leb renews_at at && not (ltb 0 (count_where (awaits_payment s.id) db.payments))))
    then due_row s method renews_at (first (λ p. p.id == s.plan_id) db.plans)
        (first (λ u. u.id == s.user_id) db.users)
    else []
due_columns at s _ _ db = []

due_rows : Time → Db → List Subscription → List DueSubscription
due_rows at db [] = []
due_rows at db (s ∷ rest) =
    due_columns at s s.provider_subscription_id s.renews_at db ++ due_rows at db rest

unfoldable pub list_subscriptions_due_for_renewal : Time → ℕ → Query (List DueSubscription)
unfolding due_rows order_by
list_subscriptions_due_for_renewal at limit now db = (
  reply (take limit (order_by (λ r. r.renews_at) (λ r. 0) (due_rows at db db.subscriptions))),
  db,
)
