-- ===== src/Database/Subscriptions.antt =====
-- The statements on `subscriptions` (internal/dbgen/billing.sql.go), with the partial unique index
-- on the user's current row, the unique `provider_subscription_id` and the check of the period.
use kartochki_online_backend.Prelude.{
  ℕ, suc, Bool, true, false, not, ◌&&◌, String, Option, none, some, List, [], ◌∷◌, ◌++◌, ltb, ◌==◌,
  if◌then◌else◌, first, count_where, update_where,
}
use kartochki_online_backend.Calendar.{Time}
use kartochki_online_backend.Provider.{Uuid}
use kartochki_online_backend.Database.Rows.{
  Plan, Subscription, SubscriptionStatus, active, scheduled_cancel, canceled,
}
use kartochki_online_backend.Database.Sql.{
  Query, reply, refused, one, newest, text_matches, unique_violation, check_violation,
  foreign_key_violation,
}
use kartochki_online_backend.Database.Payments.{user_exists}

-- status in ('active', 'scheduled_cancel')
abbrev pub status_is_current : SubscriptionStatus → Bool
status_is_current active = true
status_is_current scheduled_cancel = true
status_is_current canceled = false

abbrev pub is_current_of : Uuid → Subscription → Bool
is_current_of user s = (s.user_id == user) && status_is_current s.status

abbrev plan_by_id : Uuid → List Plan → Option Plan
plan_by_id id plans = first (λ p. p.id == id) plans

-- GetCurrentSubscriptionByUserIDRow
pub record CurrentSubscription : Type 0 where
  pub row : Subscription
  pub plan_code : String
  pub plan_name : String
  pub cards_per_month : ℕ

-- The join with `plans`.
abbrev with_plan : Subscription → Option Plan → Option CurrentSubscription
with_plan s none = none
with_plan s (some p) = some (record {
  row = s;
  plan_code = p.code;
  plan_name = p.name;
  cards_per_month = p.cards_per_month;
})

unfoldable pub get_current_subscription_by_user_id : Uuid → Query CurrentSubscription
unfolding newest
get_current_subscription_by_user_id user now db =
    elim (newest (is_current_of user) (λ s. s.created_at) db.subscriptions) [
      | none ↦ (one none, db)
      | some s ↦ (one (with_plan s (plan_by_id s.plan_id db.plans)), db)
    ]

pub record UpsertActiveSubscriptionParams : Type 0 where
  pub user_id : Uuid
  pub plan_id : Uuid
  pub provider : String
  pub provider_subscription_id : Option String
  pub has_payment_method : Bool
  pub started_at : Time
  pub current_period_start : Time
  pub current_period_end : Time
  pub renews_at : Option Time

abbrev pub new_subscription : Uuid → Time → UpsertActiveSubscriptionParams → Subscription
new_subscription id now arg = record {
  id = id;
  user_id = arg.user_id;
  plan_id = arg.plan_id;
  status = active;
  provider = arg.provider;
  provider_subscription_id = arg.provider_subscription_id;
  has_payment_method = arg.has_payment_method;
  started_at = arg.started_at;
  current_period_start = arg.current_period_start;
  current_period_end = arg.current_period_end;
  renews_at = arg.renews_at;
  cancels_at = none;
  ended_at = none;
  created_at = now;
  payment_method_type = none;
  payment_method_last4 = none;
  payment_method_card_type = none;
  payment_method_expiry_month = none;
  payment_method_expiry_year = none;
}

-- `do update set …`: `started_at` and the card stay as they are.
abbrev pub renewed_subscription : UpsertActiveSubscriptionParams → Subscription → Subscription
renewed_subscription arg s = record s {
  plan_id = arg.plan_id;
  status = active;
  provider = arg.provider;
  provider_subscription_id = arg.provider_subscription_id;
  has_payment_method = arg.has_payment_method;
  current_period_start = arg.current_period_start;
  current_period_end = arg.current_period_end;
  renews_at = arg.renews_at;
  cancels_at = none;
}

-- Another row holds the provider's id.
abbrev pub id_is_taken : UpsertActiveSubscriptionParams → Subscription → Bool
id_is_taken arg s =
    text_matches s.provider_subscription_id arg.provider_subscription_id
    && not (is_current_of arg.user_id s)

unfoldable pub upsert_active_subscription : UpsertActiveSubscriptionParams → Query Subscription
upsert_active_subscription arg now db =
    if ltb arg.current_period_start arg.current_period_end
    then (if ltb 0 (count_where (id_is_taken arg) db.subscriptions)
        then (refused unique_violation, db)
        else elim (first (is_current_of arg.user_id) db.subscriptions) [
          | some s ↦ (
            reply (renewed_subscription arg s),
            record db {
              subscriptions =
                  update_where (is_current_of arg.user_id) (renewed_subscription arg)
                    db.subscriptions;
            },
          )
          | none ↦
              if user_exists arg.user_id db.users
              then (
                reply (new_subscription db.next_id now arg),
                record db {
                  subscriptions = db.subscriptions ++ (new_subscription db.next_id now arg ∷ []);
                  next_id = suc db.next_id;
                },
              )
              else (refused foreign_key_violation, db)
        ])
    else (refused check_violation, db)

pub record CardDetails : Type 0 where
  pub method_type : Option String
  pub last4 : Option String
  pub card_type : Option String
  pub expiry_month : Option String
  pub expiry_year : Option String

abbrev pub set_card : CardDetails → Subscription → Subscription
set_card c s = record s {
  payment_method_type = c.method_type;
  payment_method_last4 = c.last4;
  payment_method_card_type = c.card_type;
  payment_method_expiry_month = c.expiry_month;
  payment_method_expiry_year = c.expiry_year;
}

unfoldable pub set_subscription_card_details : Uuid → CardDetails → Query (Unit {0})
set_subscription_card_details id card now db = (
  reply tt,
  record db { subscriptions = update_where (λ s. s.id == id) (set_card card) db.subscriptions },
)

abbrev pub has_card : Uuid → Subscription → Bool
has_card user s = is_current_of user s && s.has_payment_method

abbrev pub without_card : Subscription → Subscription
without_card s = record s {
  has_payment_method = false;
  payment_method_type = none;
  payment_method_last4 = none;
  payment_method_card_type = none;
  payment_method_expiry_month = none;
  payment_method_expiry_year = none;
  renews_at = none;
}

unfoldable pub clear_subscription_payment_method : Uuid → Query ℕ
clear_subscription_payment_method user now db = (
  reply (count_where (has_card user) db.subscriptions),
  record db { subscriptions = update_where (has_card user) without_card db.subscriptions },
)

abbrev pub status_is_active : SubscriptionStatus → Bool
status_is_active active = true
status_is_active _ = false

abbrev pub is_cancelable : Uuid → Uuid → Subscription → Bool
is_cancelable id user s = (s.id == id) && ((s.user_id == user) && status_is_active s.status)

abbrev pub set_scheduled_cancel : Option Time → Subscription → Subscription
set_scheduled_cancel at s = record s { status = scheduled_cancel; cancels_at = at }

unfoldable pub mark_subscription_scheduled_cancel : Option Time → Uuid → Uuid → Query ℕ
mark_subscription_scheduled_cancel at id user now db = (
  reply (count_where (is_cancelable id user) db.subscriptions),
  record db {
    subscriptions = update_where (is_cancelable id user) (set_scheduled_cancel at) db.subscriptions;
  },
)
