-- ===== src/Billing/Quota.antt =====
-- The limit on generations, and the billing snapshot that it is read from
-- (internal/billing/quota.go).
pub mod Limit
pub mod Expired
use kartochki_online_backend.Prelude.{
  ℕ, zero, suc, ◌+◌, Bool, true, false, not, ◌&&◌, String, Option, none, some, ltb, if◌then◌else◌,
}
use kartochki_online_backend.Prelude.Int.{ℤ, pos, negsuc, int64, ltb_ℤ, leb_ℤ}
use kartochki_online_backend.Calendar.{Time}
use kartochki_online_backend.Provider.{Uuid}
use kartochki_online_backend.Environment.{Environment}
use kartochki_online_backend.Database.{User, Plan, Subscription, active, UsageQuota, SqlError}
use kartochki_online_backend.Database.Catalog.{get_auth_user_by_id, get_billing_plan_by_code}
use kartochki_online_backend.Database.Subscriptions.{
  CurrentSubscription, get_current_subscription_by_user_id,
}
use kartochki_online_backend.Database.Quotas.{
  get_current_usage_quota_by_subscription_id, sum_reserved_generation_cards,
}
use kartochki_online_backend.World.{
  M, pure, fail, ◌>>=◌, ◌>>◌, reject_if, require, time_now, missing_or, expect, find,
}
use kartochki_online_backend.Billing.Types.{
  Error, LimitExceeded, generation_limit_exceeded, user_not_found, free_plan_not_found, wrapped,
  free_plan_code, parse_user_id, Period, current_month_period,
}

unfoldable pub ensure_user_exists : Uuid → M Error (Unit {0})
ensure_user_exists user = do
  expect (missing_or user_not_found (wrapped "get billing user")) (get_auth_user_by_id user)
  pure tt

-- The row's period, or the current month if the row's is empty.
abbrev fallback_period : Subscription → Time → Period
fallback_period s now =
    if ltb s.current_period_start s.current_period_end
    then record { start = s.current_period_start; end_at = s.current_period_end }
    else current_month_period now

-- The quota that is not stored; its id is the zero uuid.
abbrev pub quota_of_subscription : CurrentSubscription → Time → UsageQuota
quota_of_subscription current now =
    let p = fallback_period current.row now in
    record {
      id = 0;
      user_id = current.row.user_id;
      subscription_id = current.row.id;
      period_start = p.start;
      period_end = p.end_at;
      cards_limit = current.cards_per_month;
      cards_used = 0;
      created_at = 0;
    }

abbrev stored_or : UsageQuota → Option UsageQuota → UsageQuota
stored_or other none = other
stored_or other (some q) = q

unfoldable pub get_usage_quota_snapshot : CurrentSubscription → M Error UsageQuota
get_usage_quota_snapshot current = do
  now ← time_now
  stored ←
      find (λ _. wrapped "get current usage quota")
        (get_current_usage_quota_by_subscription_id current.row.id now)
  pure (stored_or (quota_of_subscription current now) stored)

abbrev free_subscription : Uuid → Plan → Period → CurrentSubscription
free_subscription user plan p = record {
  row = record {
    id = 0;
    user_id = user;
    plan_id = plan.id;
    status = active;
    provider = "manual";
    provider_subscription_id = none;
    has_payment_method = false;
    started_at = p.start;
    current_period_start = p.start;
    current_period_end = p.end_at;
    renews_at = some p.end_at;
    cancels_at = none;
    ended_at = none;
    created_at = 0;
    payment_method_type = none;
    payment_method_last4 = none;
    payment_method_card_type = none;
    payment_method_expiry_month = none;
    payment_method_expiry_year = none;
  };
  plan_code = plan.code;
  plan_name = plan.name;
  cards_per_month = plan.cards_per_month;
}

abbrev free_quota : Uuid → Plan → Period → UsageQuota
free_quota user plan p = record {
  id = 0;
  user_id = user;
  subscription_id = 0;
  period_start = p.start;
  period_end = p.end_at;
  cards_limit = plan.cards_per_month;
  cards_used = 0;
  created_at = 0;
}

unfoldable pub build_free_billing_snapshot : Uuid → M Error (CurrentSubscription × UsageQuota)
build_free_billing_snapshot user = do
  plan ←
      expect (missing_or free_plan_not_found (wrapped "get free billing plan"))
        (get_billing_plan_by_code free_plan_code)
  now ← time_now
  pure (
    free_subscription user plan (current_month_period now),
    free_quota user plan (current_month_period now),
  )

abbrev snapshot_of : Uuid → Option CurrentSubscription → M Error (CurrentSubscription × UsageQuota)
snapshot_of user none = build_free_billing_snapshot user
snapshot_of user (some current) =
    get_usage_quota_snapshot current >>= λ quota. pure (current, quota)

unfoldable pub get_current_billing_snapshot : Uuid → M Error (CurrentSubscription × UsageQuota)
unfolding get_usage_quota_snapshot build_free_billing_snapshot
get_current_billing_snapshot user =
    find (λ _. wrapped "get current subscription") (get_current_subscription_by_user_id user)
    >>= snapshot_of user

-- requestedCards <= 0
abbrev not_positive : ℤ → Bool
not_positive n = leb_ℤ n (pos 0)

abbrev refusal_of_request : ℤ → Error
refusal_of_request requested =
    generation_limit_exceeded
      (record { cards_limit = 0; reserved_cards = 0; requested_cards = requested; period_end = 0 })

-- `int(reserved) + requested` on 64 bits; `requested` is positive here.
abbrev pub is_over : ℕ → ℤ → ℕ → Bool
is_over reserved (pos n) limit = ltb_ℤ (pos limit) (int64 (reserved + n))
is_over reserved (negsuc n) limit = false

abbrev pub refusal_of_limit : UsageQuota → ℕ → ℤ → Error
refusal_of_limit quota reserved requested = generation_limit_exceeded (record {
  cards_limit = quota.cards_limit;
  reserved_cards = reserved;
  requested_cards = requested;
  period_end = quota.period_end;
})

-- The check of the sum, from the quota on.
unfoldable pub check_reserved : Uuid → ℤ → UsageQuota → M Error (Unit {0})
check_reserved user requested quota = do
  reserved ←
      expect (λ _. wrapped "sum reserved generation cards for billing limit")
        (sum_reserved_generation_cards user quota.period_start quota.period_end)
  reject_if (is_over reserved requested quota.cards_limit)
      (refusal_of_limit quota reserved requested)

unfoldable pub ensure_generation_allowed : Environment → String → ℤ → M Error (Unit {0})
unfolding ensure_user_exists get_current_billing_snapshot check_reserved
ensure_generation_allowed env user_id requested = do
  user ← require (parse_user_id env user_id) user_not_found
  reject_if (not_positive requested) (refusal_of_request requested)
  ensure_user_exists user
  snapshot ← get_current_billing_snapshot user
  check_reserved user requested snapshot.1
