-- ===== src/Billing/Quota/Limit.antt =====
-- What the check of the limit decides (internal/billing/quota.go).
use kartochki_online_backend.Prelude.{
  ℕ, ◌+◌, ◌<◌, ◌^◌, ◌≡◌, refl, sym, subst, Bool, true, false, String, some, List, [], ◌==◌, ◌&&◌,
  leb, if◌then◌else◌, first, select, sum_of, arith,
}
use kartochki_online_backend.Prelude.Int.{pos}
use kartochki_online_backend.Calendar.{Time}
use kartochki_online_backend.Provider.{Uuid}
use kartochki_online_backend.Environment.{Environment}
use kartochki_online_backend.Database.{Db, User, UsageQuota, Generation, reply, newest}
use kartochki_online_backend.Database.Catalog.{get_auth_user_by_id}
use kartochki_online_backend.Database.Subscriptions.{
  CurrentSubscription, get_current_subscription_by_user_id,
}
use kartochki_online_backend.Database.Quotas.{
  get_current_usage_quota_by_subscription_id, sum_reserved_generation_cards, is_reserved_in,
  period_holds,
}
use kartochki_online_backend.World.{
  World, Result, ok, err, ◌>>=◌, sql_now, time_now, find, reject_if, missing_or,
}
use kartochki_online_backend.World.Clear.{
  expect-clear, find-clear, Reads, Reads-pure, Reads-bind, Reads-result, Reads-find, Reads-time_now,
}
use kartochki_online_backend.Billing.Types.{Error, parse_user_id, user_not_found, wrapped}
use kartochki_online_backend.Billing.Quota.{
  ensure_user_exists, quota_of_subscription, get_usage_quota_snapshot, get_current_billing_snapshot,
  refusal_of_limit, check_reserved, ensure_generation_allowed, is_over, stored_or, snapshot_of,
  not_positive,
}

-- The cards that the user's generations of a period hold.
abbrev pub reserved_cards : Uuid → Time → Time → List Generation → ℕ
reserved_cards user start end_at generations =
    sum_of (λ g. g.card_count) (select (is_reserved_in user start end_at) generations)

abbrev pub decision : UsageQuota → ℕ → ℕ → Result Error (Unit {0})
decision quota reserved n =
    if leb (reserved + n) quota.cards_limit
    then ok tt
    else err (refusal_of_limit quota reserved (pos n))

is_over-leb :
    (reserved n limit : ℕ)
    → reserved + n < 2 ^ 63
    → is_over reserved (pos n) limit ≡ (if leb (reserved + n) limit then false else true)
is_over-leb reserved n limit small = ground arith

reject_if-decides :
    (reserved n limit : ℕ) (e : Error) (w : World)
    → reserved + n < 2 ^ 63
    → (reject_if (is_over reserved (pos n) limit) e w).0
      ≡ (if leb (reserved + n) limit then ok tt else err e)
reject_if-decides reserved n limit e w small =
    subst (λ b. (reject_if b e w).0 ≡ (if leb (reserved + n) limit then ok tt else err e))
      (sym (is_over-leb reserved n limit small)) (go (leb (reserved + n) limit))
  where
    go : (b : Bool) → (reject_if (if b then false else true) e w).0 ≡ (if b then ok tt else err e)
    go true = refl
    go false = refl

check_reserved-decision :
    (user : Uuid) (n : ℕ) (quota : UsageQuota) (w : World)
    → w.faults ≡ []
    → reserved_cards user quota.period_start quota.period_end w.db.generations + n < 2 ^ 63
    → (check_reserved user (pos n) quota w).0
      ≡ decision quota (reserved_cards user quota.period_start quota.period_end w.db.generations) n
unfolding check_reserved sum_reserved_generation_cards ◌>>=◌
check_reserved-decision user n quota w clear small =
    rw
      (expect-clear w clear (λ _. wrapped "sum reserved generation cards for billing limit")
        (sum_reserved_generation_cards user quota.period_start quota.period_end))
      (reject_if-decides _ n quota.cards_limit _ w small)

-- The quota that counts at `now`: the newest stored row of the subscription whose period holds, or
-- else one read off the subscription.
abbrev pub quota_in_force : CurrentSubscription → Time → Db → UsageQuota
quota_in_force current now db = stored_or (quota_of_subscription current now) (
    newest (λ q. (q.subscription_id == current.row.id) && period_holds now q) (λ q. q.period_start)
      db.usage_quotas)

get_usage_quota_snapshot-Reads :
    (current : CurrentSubscription) (w : World)
    → w.faults ≡ []
    → Reads (get_usage_quota_snapshot current) w (quota_in_force current w.clock w.db)
unfolding get_usage_quota_snapshot get_current_usage_quota_by_subscription_id
get_usage_quota_snapshot-Reads current w clear =
    Reads-bind time_now _ w w.clock _ (Reads-time_now Error w clear) λ v same still.
      Reads-bind (find _ (get_current_usage_quota_by_subscription_id current.row.id w.clock)) _ v
        (newest (λ q. (q.subscription_id == current.row.id) && period_holds w.clock q)
          (λ q. q.period_start) w.db.usage_quotas)
        _ (Reads-find _ _ v _ still (rw same refl)) λ u same_ still_. Reads-pure u _ still_

not_positive-false : (n : ℕ) → 0 < n → not_positive (pos n) ≡ false
not_positive-false n h = ground arith

ensure_user_exists-runs :
    (user : Uuid) (row : User) (w : World)
    → w.faults ≡ []
    → first (λ u. u.id == user) w.db.users ≡ some row
    → ensure_user_exists user w ≡ (ok tt, w)
unfolding ensure_user_exists get_auth_user_by_id ◌>>=◌
ensure_user_exists-runs user row w clear known =
    rw
      (
        expect-clear w clear (missing_or user_not_found (wrapped "get billing user"))
            (get_auth_user_by_id user),
        known,
      )
      refl

-- The decision at the world in which the sum is taken.
decision-later :
    (user : Uuid) (n : ℕ) (quota : UsageQuota) (w v : World)
    → v.db ≡ w.db
    → v.faults ≡ []
    → reserved_cards user quota.period_start quota.period_end w.db.generations + n < 2 ^ 63
    → (check_reserved user (pos n) quota v).0
      ≡ decision quota (reserved_cards user quota.period_start quota.period_end w.db.generations) n
decision-later user n quota w v same still small =
    subst
      (λ db.
        reserved_cards user quota.period_start quota.period_end db.generations + n < 2 ^ 63
        → (check_reserved user (pos n) quota v).0
          ≡ decision quota (reserved_cards user quota.period_start quota.period_end db.generations)
              n)
      same (check_reserved-decision user n quota v still) small

snapshot-decision :
    (user : Uuid) (n : ℕ) (current : CurrentSubscription) (w : World)
    → w.faults ≡ []
    → get_current_subscription_by_user_id user (sql_now w) w.db ≡ (reply current, w.db)
    → (let quota = quota_in_force current w.clock w.db in
        let reserved = reserved_cards user quota.period_start quota.period_end w.db.generations in
        reserved + n < 2 ^ 63
        → ((get_current_billing_snapshot user >>= λ snapshot.
              check_reserved user (pos n) snapshot.1)
            w).0
          ≡ decision quota reserved n)
unfolding get_current_billing_snapshot ◌>>=◌
snapshot-decision user n current w clear found small =
    let quota = quota_in_force current w.clock w.db in
    rw
      (
        find-clear w clear (λ _. wrapped "get current subscription")
            (get_current_subscription_by_user_id user),
        found,
      )
      (Reads-result (snapshot_of user (some current))
        (λ snapshot. check_reserved user (pos n) snapshot.1) w (current, quota) _
        (Reads-bind (get_usage_quota_snapshot current) _ w quota _
          (get_usage_quota_snapshot-Reads current w clear) λ v same still. Reads-pure v _ still)
        λ v same still. decision-later user n quota w v same still small)

-- What the check decides, in a world without faults, for a known user with a current subscription,
-- when the sum of the cards is below 2^63: a request of `n > 0` cards passes exactly when the cards
-- that the user's unfailed generations of the quota's period hold and the new ones do not exceed the
-- quota's limit; otherwise the error carries the limit, the cards held, the request and the end of
-- the period.
pub ensure_generation_allowed-decides :
    (env : Environment) (user_id : String) (user : Uuid) (row : User) (n : ℕ)
    (current : CurrentSubscription) (w : World)
    → w.faults ≡ []
    → 0 < n
    → parse_user_id env user_id ≡ some user
    → first (λ u. u.id == user) w.db.users ≡ some row
    → get_current_subscription_by_user_id user (sql_now w) w.db ≡ (reply current, w.db)
    → (let quota = quota_in_force current w.clock w.db in
        let reserved = reserved_cards user quota.period_start quota.period_end w.db.generations in
        reserved + n < 2 ^ 63
        → (ensure_generation_allowed env user_id (pos n) w).0 ≡ decision quota reserved n)
unfolding ensure_generation_allowed ◌>>=◌
ensure_generation_allowed-decides env user_id user row n current w clear positive parsed known found
      small =
    rw (parsed, not_positive-false n positive, ensure_user_exists-runs user row w clear known)
      (snapshot-decision user n current w clear found small)
