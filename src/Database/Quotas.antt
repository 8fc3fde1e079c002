-- ===== src/Database/Quotas.antt =====
-- The statements on `usage_quotas`, and the sum of the cards that running and finished generations
-- reserve (internal/dbgen/billing.sql.go).
use kartochki_online_backend.Prelude.{
  ℕ, suc, ◌+◌, ◌^◌, Bool, true, false, ◌&&◌, none, some, [], ◌∷◌, ◌++◌, ltb, leb, ◌==◌,
  if◌then◌else◌, first, select, count_where, update_where, sum_of,
}
use kartochki_online_backend.Calendar.{Time}
use kartochki_online_backend.Provider.{Uuid}
use kartochki_online_backend.Database.Rows.{
  UsageQuota, Generation, GenerationStatus, failed_generation,
}
use kartochki_online_backend.Database.Sql.{
  Query, reply, refused, one, newest, check_violation, out_of_range,
}

-- period_start <= $now and period_end > $now
abbrev pub period_holds : Time → UsageQuota → Bool
period_holds at q = leb q.period_start at && ltb at q.period_end

unfoldable pub get_current_usage_quota_by_subscription_id : Uuid → Time → Query UsageQuota
unfolding newest
get_current_usage_quota_by_subscription_id id at now db = (
  one (
      newest (λ q. (q.subscription_id == id) && period_holds at q) (λ q. q.period_start)
        db.usage_quotas),
  db,
)

abbrev pub add_cards : ℕ → UsageQuota → UsageQuota
add_cards extra q = record q { cards_limit = q.cards_limit + extra }

abbrev pub is_quota_of : Uuid → Time → UsageQuota → Bool
is_quota_of user at q = (q.user_id == user) && period_holds at q

-- The reply is the number of rows affected; the new limit must be an `integer`.
unfoldable pub add_addon_cards_to_quota : ℕ → Uuid → Time → Query ℕ
unfolding newest
add_addon_cards_to_quota extra user at now db =
    elim (newest (is_quota_of user at) (λ q. q.period_start) db.usage_quotas) [
      | none ↦ (reply 0, db)
      | some sub ↦
          if ltb (sub.cards_limit + extra) (2 ^ 31)
          then (
            reply (count_where (λ q. q.id == sub.id) db.usage_quotas),
            record db {
              usage_quotas = update_where (λ q. q.id == sub.id) (add_cards extra) db.usage_quotas;
            },
          )
          else (refused out_of_range, db)
    ]

pub record UpsertUsageQuotaParams : Type 0 where
  pub user_id : Uuid
  pub subscription_id : Uuid
  pub period_start : Time
  pub period_end : Time
  pub cards_limit : ℕ

abbrev pub same_period : UpsertUsageQuotaParams → UsageQuota → Bool
same_period arg q =
    (q.subscription_id == arg.subscription_id)
    && ((q.period_start == arg.period_start) && (q.period_end == arg.period_end))

abbrev pub set_limit : ℕ → UsageQuota → UsageQuota
set_limit limit q = record q { cards_limit = limit }

abbrev pub new_quota : Uuid → Time → UpsertUsageQuotaParams → UsageQuota
new_quota id now arg = record {
  id = id;
  user_id = arg.user_id;
  subscription_id = arg.subscription_id;
  period_start = arg.period_start;
  period_end = arg.period_end;
  cards_limit = arg.cards_limit;
  cards_used = 0;
  created_at = now;
}

unfoldable pub upsert_usage_quota_for_subscription : UpsertUsageQuotaParams → Query UsageQuota
upsert_usage_quota_for_subscription arg now db =
    if ltb arg.period_start arg.period_end
    then elim (first (same_period arg) db.usage_quotas) [
      | some q ↦ (
        reply (set_limit arg.cards_limit q),
        record db {
          usage_quotas = update_where (same_period arg) (set_limit arg.cards_limit) db.usage_quotas;
        },
      )
      | none ↦ (
        reply (new_quota db.next_id now arg),
        record db {
          usage_quotas = db.usage_quotas ++ (new_quota db.next_id now arg ∷ []);
          next_id = suc db.next_id;
        },
      )
    ]
    else (refused check_violation, db)

-- status in ('queued', 'processing', 'completed')
abbrev pub reserves_cards : GenerationStatus → Bool
reserves_cards failed_generation = false
reserves_cards _ = true

abbrev pub is_reserved_in : Uuid → Time → Time → Generation → Bool
is_reserved_in user start end_at g =
    (g.user_id == user)
    && (reserves_cards g.status && (leb start g.created_at && ltb g.created_at end_at))

unfoldable pub sum_reserved_generation_cards : Uuid → Time → Time → Query ℕ
sum_reserved_generation_cards user start end_at now db = (
  reply (sum_of (λ g. g.card_count) (select (is_reserved_in user start end_at) db.generations)),
  db,
)
