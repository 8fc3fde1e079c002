-- ===== src/Database/Unchanged.antt =====
-- Which tables a statement leaves alone.
use kartochki_online_backend.Prelude.{ℕ, ◌≡◌, arith}
use kartochki_online_backend.Calendar.{Time}
use kartochki_online_backend.Provider.{Uuid}
use kartochki_online_backend.Database.Rows.{Db}
use kartochki_online_backend.Database.Subscriptions.{
  get_current_subscription_by_user_id, UpsertActiveSubscriptionParams, upsert_active_subscription,
}
use kartochki_online_backend.Database.Quotas.{
  add_addon_cards_to_quota, UpsertUsageQuotaParams, upsert_usage_quota_for_subscription,
}

pub get_current_subscription-db :
    (user : Uuid) (now : Time) (db : Db) → (get_current_subscription_by_user_id user now db).1 ≡ db
unfolding get_current_subscription_by_user_id
get_current_subscription-db user now db = ground arith

pub upsert_active_subscription-payments :
    (arg : UpsertActiveSubscriptionParams) (now : Time) (db : Db)
    → (upsert_active_subscription arg now db).1.payments ≡ db.payments
unfolding upsert_active_subscription
upsert_active_subscription-payments arg now db = ground arith

pub add_addon_cards_to_quota-payments :
    (extra : ℕ) (user : Uuid) (at now : Time) (db : Db)
    → (add_addon_cards_to_quota extra user at now db).1.payments ≡ db.payments
unfolding add_addon_cards_to_quota
add_addon_cards_to_quota-payments extra user at now db = ground arith

pub upsert_usage_quota-payments :
    (arg : UpsertUsageQuotaParams) (now : Time) (db : Db)
    → (upsert_usage_quota_for_subscription arg now db).1.payments ≡ db.payments
unfolding upsert_usage_quota_for_subscription
upsert_usage_quota-payments arg now db = ground arith

pub add_addon_cards_to_quota-subscriptions :
    (extra : ℕ) (user : Uuid) (at now : Time) (db : Db)
    → (add_addon_cards_to_quota extra user at now db).1.subscriptions ≡ db.subscriptions
unfolding add_addon_cards_to_quota
add_addon_cards_to_quota-subscriptions extra user at now db = ground arith

pub upsert_usage_quota-subscriptions :
    (arg : UpsertUsageQuotaParams) (now : Time) (db : Db)
    → (upsert_usage_quota_for_subscription arg now db).1.subscriptions ≡ db.subscriptions
unfolding upsert_usage_quota_for_subscription
upsert_usage_quota-subscriptions arg now db = ground arith
