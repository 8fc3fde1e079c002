-- ===== src/Billing/Quota/Expired.antt =====
-- The limit once the period of a subscription has ended (internal/billing/quota.go,
-- getUsageQuotaSnapshot): the past period is still the one that is counted.
use kartochki_online_backend.Prelude.{
  ℕ, ◌+◌, ◌≤◌, ◌<◌, ◌^◌, ◌≡◌, refl, sym, subst, ap, ◌∙◌, inl, inr, true, false, ◌&&◌, String, none,
  some, List, [], ◌∷◌, ◌++◌, ◌==◌, ltb, All, All-weaken, first, Option-cases, Bool-cases, arith,
}
use kartochki_online_backend.Prelude.Int.{pos}
use kartochki_online_backend.Calendar.{Time}
use kartochki_online_backend.Provider.{Uuid}
use kartochki_online_backend.Environment.{Environment}
use kartochki_online_backend.Database.{Db, User, Generation, reply, newest}
use kartochki_online_backend.Database.Subscriptions.{
  CurrentSubscription, get_current_subscription_by_user_id, is_current_of,
}
use kartochki_online_backend.Database.Quotas.{is_reserved_in, period_holds}
use kartochki_online_backend.World.{World, sql_now}
use kartochki_online_backend.Billing.Types.{parse_user_id}
use kartochki_online_backend.Billing.Quota.{ensure_generation_allowed}
use kartochki_online_backend.Billing.Quota.Limit.{
  reserved_cards, decision, quota_in_force, ensure_generation_allowed-decides,
}

-- Generations made at or after the end of the period add nothing.
uncounted :
    (user : Uuid) (start end_at : Time) (gs : List Generation)
    → All (λ g. end_at ≤ g.created_at) gs
    → reserved_cards user start end_at gs ≡ 0
uncounted user start end_at [] h = refl
uncounted user start end_at (g ∷ gs) h =
    let late : ltb g.created_at end_at ≡ false = let l = h.0 in ground arith in
    let none_selected : is_reserved_in user start end_at g ≡ false = ground arith in
    rw none_selected (uncounted user start end_at gs h.1)

reserved_cards-append :
    (user : Uuid) (start end_at : Time) (old gs : List Generation)
    → All (λ g. end_at ≤ g.created_at) gs
    → reserved_cards user start end_at (old ++ gs) ≡ reserved_cards user start end_at old
reserved_cards-append user start end_at [] gs h = uncounted user start end_at gs h
reserved_cards-append user start end_at (g ∷ old) gs h =
    let rest = reserved_cards-append user start end_at old gs h in
    elim (Bool-cases (is_reserved_in user start end_at g)) [
      | inl e ↦ rw e (ap (λ n. g.card_count + n) rest)
      | inr e ↦ rw e rest
    ]

-- The world in which the user has made the generations `gs` too.
abbrev pub with_generations : List Generation → World → World
with_generations gs w = record w { db = record w.db { generations = w.db.generations ++ gs } }

reply-with_generations :
    (user : Uuid) (now : Time) (db : Db) (gs : List Generation)
    → get_current_subscription_by_user_id user now (record db { generations = gs }) ≡ (
        let found = get_current_subscription_by_user_id user now db in
        (found.0, record found.1 { generations = gs }))
unfolding get_current_subscription_by_user_id
reply-with_generations user now db gs =
    elim (Option-cases (newest (is_current_of user) (λ s. s.created_at) db.subscriptions)) [
      | inl e ↦ rw (e, get_current_subscription_by_user_id) refl
      | inr (s, e) ↦ rw (e, get_current_subscription_by_user_id) refl
    ]

found-with_generations :
    (user : Uuid) (now : Time) (db : Db) (gs : List Generation) (current : CurrentSubscription)
    → get_current_subscription_by_user_id user now db ≡ (reply current, db)
    → get_current_subscription_by_user_id user now (record db { generations = gs })
      ≡ (reply current, record db { generations = gs })
found-with_generations user now db gs current h = rw (reply-with_generations user now db gs, h) refl

-- The quota in force when no row's period holds and the subscription's has ended.
expired_quota :
    (current : CurrentSubscription) (now : Time) (db : Db)
    → newest
        (λ q. (q.subscription_id == current.row.id) && period_holds now q)
        (λ q. q.period_start)
        db.usage_quotas
      ≡ none
    → current.row.current_period_start < current.row.current_period_end
    → (quota_in_force current now db).period_end ≡ current.row.current_period_end
expired_quota current now db missing proper =
    let test : ltb current.row.current_period_start current.row.current_period_end ≡ true =
      ground arith in
    rw (missing, test) refl

-- An ended period never fills: in a world without faults, for a known user whose subscription is
-- current, whose period has ended and who has no quota row for now, when the sum of the cards is
-- below 2^63, generations made now or later change nothing in what the limit decides on a request of
-- `n > 0` cards.
pub ensure_generation_allowed-expired :
    (env : Environment) (user_id : String) (user : Uuid) (row : User) (n : ℕ)
    (current : CurrentSubscription) (gs : List Generation) (w : World)
    → w.faults ≡ []
    → 0 < n
    → parse_user_id env user_id ≡ some user
    → first (λ u. u.id == user) w.db.users ≡ some row
    → get_current_subscription_by_user_id user (sql_now w) w.db ≡ (reply current, w.db)
    → newest
        (λ q. (q.subscription_id == current.row.id) && period_holds w.clock q)
        (λ q. q.period_start)
        w.db.usage_quotas
      ≡ none
    → current.row.current_period_start < current.row.current_period_end
    → current.row.current_period_end ≤ w.clock
    → All (λ g. w.clock ≤ g.created_at) gs
    → (let quota = quota_in_force current w.clock w.db in
        reserved_cards user quota.period_start quota.period_end w.db.generations + n < 2 ^ 63
        → (ensure_generation_allowed env user_id (pos n) (with_generations gs w)).0
          ≡ (ensure_generation_allowed env user_id (pos n) w).0)
ensure_generation_allowed-expired env user_id user row n current gs w clear positive parsed known
      found missing proper ended late small =
    let quota = quota_in_force current w.clock w.db in
    let end_at = expired_quota current w.clock w.db missing proper in
    let same = reserved_cards-append user quota.period_start quota.period_end w.db.generations gs (
      All-weaken (λ g. w.clock ≤ g.created_at) (λ g. quota.period_end ≤ g.created_at)
        (λ g l. omega arith) gs late) in
    ensure_generation_allowed-decides env user_id user row n current (with_generations gs w) clear
      positive parsed known
      (found-with_generations user (sql_now w) w.db (w.db.generations ++ gs) current found)
      (subst (λ r. r + n < 2 ^ 63) (sym same) small)
    ∙ ap (λ r. decision quota r n) same
    ∙ sym (
        ensure_generation_allowed-decides env user_id user row n current w clear positive parsed
          known found small)
