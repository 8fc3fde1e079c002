-- ===== src/Database/Current.antt =====
-- A user has at most one current subscription: the partial unique index of `subscriptions`, which
-- every statement on the table keeps.
use kartochki_online_backend.Prelude.{
  ◌≤◌, ◌≡◌, refl, subst, inl, inr, Bool, true, Option, [], ◌∷◌, ◌++◌, ltb, ◌==◌, ==→eq, first,
  count_where, update_where, count_where-update_where, count_where-append, count_where-first,
  Bool-cases, Option-cases, arith,
}
use kartochki_online_backend.Calendar.{Time}
use kartochki_online_backend.Provider.{Uuid}
use kartochki_online_backend.Database.Rows.{Db, Subscription}
use kartochki_online_backend.Database.Payments.{user_exists}
use kartochki_online_backend.Database.Subscriptions.{
  is_current_of, UpsertActiveSubscriptionParams, new_subscription, renewed_subscription,
  id_is_taken, upsert_active_subscription, CardDetails, set_card, set_subscription_card_details,
  without_card, clear_subscription_payment_method, is_cancelable, set_scheduled_cancel,
  mark_subscription_scheduled_cancel,
}

abbrev pub OneCurrent : Db → Type 0
OneCurrent db = (user : Uuid) → count_where (is_current_of user) db.subscriptions ≤ 1

renewed-current :
    (user : Uuid) (arg : UpsertActiveSubscriptionParams) (s : Subscription)
    → is_current_of arg.user_id s ≡ true
    → is_current_of user (renewed_subscription arg s) ≡ is_current_of user s
renewed-current user arg s h = ground arith

canceled-current :
    (user : Uuid) (at : Option Time) (id owner : Uuid) (s : Subscription)
    → is_cancelable id owner s ≡ true
    → is_current_of user (set_scheduled_cancel at s) ≡ is_current_of user s
canceled-current user at id owner s h = ground arith

update-OneCurrent :
    (test : Subscription → Bool) (set : Subscription → Subscription) (db : Db)
    → ((user : Uuid) (s : Subscription)
        → test s ≡ true
        → is_current_of user (set s) ≡ is_current_of user s)
    → OneCurrent db
    → OneCurrent (record db { subscriptions = update_where test set db.subscriptions })
update-OneCurrent test set db same h user =
    let one = h user in
    let e = count_where-update_where (is_current_of user) test set db.subscriptions (same user) in
    omega arith

insert-OneCurrent :
    (arg : UpsertActiveSubscriptionParams) (id : Uuid) (now : Time) (db : Db)
    → count_where (is_current_of arg.user_id) db.subscriptions ≡ 0
    → OneCurrent db
    → (user : Uuid)
    → count_where (is_current_of user) (db.subscriptions ++ (new_subscription id now arg ∷ [])) ≤ 1
insert-OneCurrent arg id now db fresh h user =
    let one = h user in
    let e =
      count_where-append (is_current_of user) db.subscriptions (new_subscription id now arg ∷ []) in
    elim (Bool-cases (arg.user_id == user)) [
      | inr other ↦ ground arith
      | inl this ↦
          let z =
            subst (λ u. count_where (is_current_of u) db.subscriptions ≡ 0)
              (==→eq arg.user_id user this) fresh in
          ground arith
    ]

pub upsert_active_subscription-OneCurrent :
    (arg : UpsertActiveSubscriptionParams) (now : Time) (db : Db)
    → OneCurrent db
    → OneCurrent (upsert_active_subscription arg now db).1
unfolding upsert_active_subscription
upsert_active_subscription-OneCurrent arg now db h =
    elim (Bool-cases (ltb arg.current_period_start arg.current_period_end)) [
      | inr bad ↦ rw bad h
      | inl good ↦
          rw good (elim (Bool-cases (ltb 0 (count_where (id_is_taken arg) db.subscriptions))) [
            | inl taken ↦ rw taken h
            | inr free ↦
                rw free (elim (Option-cases (first (is_current_of arg.user_id) db.subscriptions)) [
                  | inr (s, e) ↦ rw e (
                      update-OneCurrent _ (renewed_subscription arg) db
                        (λ user s t. renewed-current user arg s t) h)
                  | inl e ↦ rw e (elim (Bool-cases (user_exists arg.user_id db.users)) [
                    | inr nobody ↦ rw nobody h
                    | inl there ↦
                        let fresh =
                          count_where-first (is_current_of arg.user_id) db.subscriptions e in
                        rw there (insert-OneCurrent arg db.next_id now db fresh h)
                  ])
                ])
          ])
    ]

pub set_subscription_card_details-OneCurrent :
    (id : Uuid) (card : CardDetails) (now : Time) (db : Db)
    → OneCurrent db
    → OneCurrent (set_subscription_card_details id card now db).1
unfolding set_subscription_card_details
set_subscription_card_details-OneCurrent id card now db h =
    update-OneCurrent _ (set_card card) db (λ user s t. refl) h

pub clear_subscription_payment_method-OneCurrent :
    (owner : Uuid) (now : Time) (db : Db)
    → OneCurrent db
    → OneCurrent (clear_subscription_payment_method owner now db).1
unfolding clear_subscription_payment_method
clear_subscription_payment_method-OneCurrent owner now db h =
    update-OneCurrent _ without_card db (λ user s t. refl) h

pub mark_subscription_scheduled_cancel-OneCurrent :
    (at : Option Time) (id owner : Uuid) (now : Time) (db : Db)
    → OneCurrent db
    → OneCurrent (mark_subscription_scheduled_cancel at id owner now db).1
unfolding mark_subscription_scheduled_cancel
mark_subscription_scheduled_cancel-OneCurrent at id owner now db h =
    update-OneCurrent _ (set_scheduled_cancel at) db
      (λ user s t. canceled-current user at id owner s t) h
