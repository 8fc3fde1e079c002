-- ===== src/Billing/Webhook/Granted.antt =====
-- What the two statements of an activation leave (internal/dbgen/billing.sql.go): the subscription and
-- the quota of the plan that was paid.
use kartochki_online_backend.Prelude.{
  ℕ, ◌<◌, ◌≡◌, inl, inr, Bool, true, ◌&&◌, ◌==◌, ltb, first, count_where, first-passes,
  first-updated, counted-last, Bool-cases, Option-cases, arith,
}
use kartochki_online_backend.Calendar.{Time}
use kartochki_online_backend.Provider.{Uuid}
use kartochki_online_backend.Database.{
  Db, Subscription, UsageQuota, QueryPost, Reply, reply, refused,
}
use kartochki_online_backend.Database.Payments.{user_exists}
use kartochki_online_backend.Database.Subscriptions.{
  is_current_of, UpsertActiveSubscriptionParams, new_subscription, renewed_subscription,
  id_is_taken, upsert_active_subscription,
}
use kartochki_online_backend.Database.Quotas.{
  UpsertUsageQuotaParams, same_period, new_quota, set_limit, upsert_usage_quota_for_subscription,
}
use kartochki_online_backend.Billing.Types.{Period}

-- The user's current subscription `id`, on the plan and for the period.
abbrev pub is_granted : Uuid → Uuid → Uuid → Period → Subscription → Bool
is_granted id user plan p s =
    (s.id == id)
    && (is_current_of user s
        && ((s.plan_id == plan)
            && ((s.current_period_start == p.start) && (s.current_period_end == p.end_at))))

-- The quota of the subscription for the period, with the limit.
abbrev pub is_granted_quota : Uuid → Period → ℕ → UsageQuota → Bool
is_granted_quota id p limit q =
    ((q.subscription_id == id) && ((q.period_start == p.start) && (q.period_end == p.end_at)))
    && (q.cards_limit == limit)

pub QueryPost-with :
    {A : Type 0} (N : Type 0) (Q : A → Db → Type 0) (r : Reply A × Db)
    → N
    → QueryPost Q r
    → QueryPost (λ a db. N × Q a db) r
QueryPost-with N Q (reply a, db) n q = (n, q)
QueryPost-with N Q (refused e, db) n q = tt

abbrev pub SubscriptionGranted : Uuid → UpsertActiveSubscriptionParams → Db → Type 0
SubscriptionGranted id arg db =
    0
    < count_where
        (is_granted id arg.user_id arg.plan_id
          (record { start = arg.current_period_start; end_at = arg.current_period_end }))
        db.subscriptions

renewed-granted :
    (arg : UpsertActiveSubscriptionParams) (s : Subscription)
    → is_current_of arg.user_id s ≡ true
    → is_granted s.id arg.user_id arg.plan_id
        (record { start = arg.current_period_start; end_at = arg.current_period_end })
        (renewed_subscription arg s)
      ≡ true
renewed-granted arg s h = ground arith

new-granted :
    (arg : UpsertActiveSubscriptionParams) (id : Uuid) (now : Time)
    → is_granted id arg.user_id arg.plan_id
        (record { start = arg.current_period_start; end_at = arg.current_period_end })
        (new_subscription id now arg)
      ≡ true
new-granted arg id now = ground arith

pub upsert_active_subscription-granted :
    (arg : UpsertActiveSubscriptionParams) (now : Time) (db : Db)
    → QueryPost (λ sub d. SubscriptionGranted sub.id arg d) (upsert_active_subscription arg now db)
unfolding upsert_active_subscription
upsert_active_subscription-granted arg now db =
    elim (Bool-cases (ltb arg.current_period_start arg.current_period_end)) [
      | inr bad ↦ rw bad tt
      | inl good ↦
          rw good (elim (Bool-cases (ltb 0 (count_where (id_is_taken arg) db.subscriptions))) [
            | inl taken ↦ rw taken tt
            | inr free ↦
                rw free (elim (Option-cases (first (is_current_of arg.user_id) db.subscriptions)) [
                  | inr (s, e) ↦
                      let current = first-passes (is_current_of arg.user_id) db.subscriptions s e in
                      rw e (
                        first-updated (is_current_of arg.user_id) _ (renewed_subscription arg)
                          db.subscriptions s e (renewed-granted arg s current))
                  | inl e ↦ rw e (elim (Bool-cases (user_exists arg.user_id db.users)) [
                    | inr nobody ↦ rw nobody tt
                    | inl there ↦
                        rw there
                          (counted-last _ db.subscriptions _ (new-granted arg db.next_id now))
                  ])
                ])
          ])
    ]

abbrev pub Granted : Uuid → Uuid → Uuid → Period → ℕ → Db → Type 0
Granted id user plan p limit db =
    (0 < count_where (is_granted id user plan p) db.subscriptions)
    × (0 < count_where (is_granted_quota id p limit) db.usage_quotas)

limited-granted :
    (arg : UpsertUsageQuotaParams) (q : UsageQuota)
    → same_period arg q ≡ true
    → is_granted_quota arg.subscription_id
        (record { start = arg.period_start; end_at = arg.period_end })
        arg.cards_limit
        (set_limit arg.cards_limit q)
      ≡ true
limited-granted arg q h = ground arith

new_quota-granted :
    (arg : UpsertUsageQuotaParams) (id : Uuid) (now : Time)
    → is_granted_quota arg.subscription_id
        (record { start = arg.period_start; end_at = arg.period_end })
        arg.cards_limit
        (new_quota id now arg)
      ≡ true
new_quota-granted arg id now = ground arith

pub upsert_usage_quota-Granted :
    (arg : UpsertUsageQuotaParams) (user plan : Uuid) (now : Time) (db : Db)
    → 0
      < count_where
          (is_granted arg.subscription_id user plan
            (record { start = arg.period_start; end_at = arg.period_end }))
          db.subscriptions
    → QueryPost
        (λ _ d.
          Granted arg.subscription_id user plan
            (record { start = arg.period_start; end_at = arg.period_end })
            arg.cards_limit
            d)
        (upsert_usage_quota_for_subscription arg now db)
unfolding upsert_usage_quota_for_subscription
upsert_usage_quota-Granted arg user plan now db h =
    elim (Bool-cases (ltb arg.period_start arg.period_end)) [
      | inr bad ↦ rw bad tt
      | inl good ↦ rw good (elim (Option-cases (first (same_period arg) db.usage_quotas)) [
        | inr (q, e) ↦
            let same = first-passes (same_period arg) db.usage_quotas q e in
            rw e (
              h,
              first-updated (same_period arg) _ (set_limit arg.cards_limit) db.usage_quotas q e
                  (limited-granted arg q same),
            )
        | inl e ↦ rw e (h, counted-last _ db.usage_quotas _ (new_quota-granted arg db.next_id now))
      ])
    ]
