-- ===== src/Billing/Webhook/Credit.antt =====
-- What the activation of an addon leaves (internal/billing/webhook.go, activateAddon).
use kartochki_online_backend.Prelude.{
  ℕ, ◌+◌, ◌≡◌, refl, sym, subst, inl, inr, Bool, true, false, ◌&&◌, ◌^◌, String, some, str_eq, leb,
  ltb, ◌==◌, first, update_where, Option-cases, Bool-cases, arith,
}
use kartochki_online_backend.Calendar.{Time}
use kartochki_online_backend.Provider.{Uuid}
use kartochki_online_backend.Environment.{Environment}
use kartochki_online_backend.Database.{
  Db, AddonProduct, UsageQuota, QueryPost, QueryPost-weaken, newest,
}
use kartochki_online_backend.Database.Catalog.{get_addon_product_by_code}
use kartochki_online_backend.Database.Quotas.{add_addon_cards_to_quota}
use kartochki_online_backend.World.{World, ok, reject_if}
use kartochki_online_backend.World.Yields.{Yields, Post-ok, Yields-bind, Yields-expect}
use kartochki_online_backend.World.Returns.{Yields-require_then, Yields-given_fact}
use kartochki_online_backend.Billing.Types.{Error, WebhookEvent, parse_user_id}
use kartochki_online_backend.Billing.Webhook.{activate_addon}

abbrev pub is_addon : String → AddonProduct → Bool
is_addon code a = str_eq a.code code && a.is_active

-- The quota is the latest of the user's whose period holds `at`; its rows have grown by the cards,
-- and nothing else has changed.
abbrev pub CreditedTo : Uuid → Time → ℕ → Db → Db → Type 0
CreditedTo user at cards before db =
    (quota : UsageQuota) × ((newest
          (λ q. (q.user_id == user) && (leb q.period_start at && ltb at q.period_end))
          (λ q. q.period_start) before.usage_quotas
        ≡ some quota)
      × (db ≡ record before {
        usage_quotas =
            update_where (λ q. q.id == quota.id)
              (λ q. record q { cards_limit = q.cards_limit + cards }) before.usage_quotas;
      }))

add_addon_cards_to_quota-CreditedTo :
    (extra : ℕ) (user : Uuid) (at now : Time) (db : Db)
    → QueryPost
        (λ n d. (n == 0) ≡ false → CreditedTo user at extra db d)
        (add_addon_cards_to_quota extra user at now db)
unfolding add_addon_cards_to_quota
add_addon_cards_to_quota-CreditedTo extra user at now db =
    elim (Option-cases (
      newest (λ q. (q.user_id == user) && (leb q.period_start at && ltb at q.period_end))
        (λ q. q.period_start) db.usage_quotas)) [
          | inl e ↦ rw (e, add_addon_cards_to_quota) (λ more. ground arith)
          | inr (sub, e) ↦
              rw (e, add_addon_cards_to_quota)
                (elim (Bool-cases (ltb (sub.cards_limit + extra) (2 ^ 31))) [
                  | inl fits ↦ rw fits (λ more. (sub, (refl, refl)))
                  | inr big ↦ rw big tt
                ])
        ]

-- What an activation at `at` that began at `before` has credited.
abbrev pub Credited : Environment → WebhookEvent → Time → Db → Db → Type 0
Credited env event at before db =
    (user : Uuid) × (addon : AddonProduct) × ((parse_user_id env event.user_id ≡ some user)
      × ((first (is_addon event.addon_code) before.addon_products ≡ some addon)
          × CreditedTo user at addon.cards_count before db))

module _ (env : Environment) (event : WebhookEvent) (at : Time) (before : Db) where
  addon-found :
      (now : Time) (db : Db)
      → db ≡ before
      → QueryPost
          (λ addon d.
            (first (is_addon event.addon_code) before.addon_products ≡ some addon) × (d ≡ before))
          (get_addon_product_by_code event.addon_code now db)
  unfolding get_addon_product_by_code
  addon-found now db same =
      elim (Option-cases (first (is_addon event.addon_code) db.addon_products)) [
        | inl e ↦ rw e tt
        | inr (addon, e) ↦ rw e (
          subst (λ d. first (is_addon event.addon_code) d.addon_products ≡ some addon) same e,
          same,
        )
      ]

  some_rows :
      {R : Db → Type 0} (b : Bool) (e : Error)
      → Yields (λ db. b ≡ false → R db) (reject_if b e) (λ _. R)
  some_rows true e = record { yields = λ w h. tt }
  some_rows false e = record { yields = λ w h. h refl }

  activate_addon-Credited :
      Yields (λ db. db ≡ before) (activate_addon env event at) (λ _. Credited env event at before)
  unfolding activate_addon
  activate_addon-Credited = Yields-require_then _ _ λ user parsed.
      Yields-bind
        (λ addon db.
          (first (is_addon event.addon_code) before.addon_products ≡ some addon) × (db ≡ before))
        (Yields-expect _ _ _ addon-found)
        λ addon. Yields-given_fact λ found.
          Yields-bind (λ n db. (n == 0) ≡ false → Credited env event at before db)
            (Yields-expect _ _ _ λ now db e.
              subst
                (λ d.
                  QueryPost (λ n x. (n == 0) ≡ false → Credited env event at before x)
                    (add_addon_cards_to_quota addon.cards_count user at now d))
                (sym e) (credited user addon parsed found now))
            λ n. some_rows (n == 0) _
    where
      credited :
          (user : Uuid) (addon : AddonProduct)
          → parse_user_id env event.user_id ≡ some user
          → first (is_addon event.addon_code) before.addon_products ≡ some addon
          → (now : Time)
          → QueryPost
              (λ n x. (n == 0) ≡ false → Credited env event at before x)
              (add_addon_cards_to_quota addon.cards_count user at now before)
      credited user addon parsed found now =
          QueryPost-weaken (add_addon_cards_to_quota addon.cards_count user at now before)
            (λ n d h more. (user, addon, (parsed, (found, h more))))
            (add_addon_cards_to_quota-CreditedTo addon.cards_count user at now before)

-- What a paid addon gives: when an addon is activated at a time without an error, the event names
-- a user and an active addon, and the latest quota of that user whose period holds that time has
-- grown by the cards of the addon; nothing else has changed.
pub activate_addon-credits :
    (env : Environment) (event : WebhookEvent) (at : Time) (w : World)
    → (activate_addon env event at w).0 ≡ ok tt
    → Credited env event at w.db (activate_addon env event at w).1.db
activate_addon-credits env event at w done =
    Post-ok (Credited env event at w.db) (activate_addon env event at w)
      ((activate_addon-Credited env event at w.db).yields w refl) done
