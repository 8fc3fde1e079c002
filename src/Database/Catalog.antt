-- ===== src/Database/Catalog.antt =====
-- The statements on plans, addons and users that billing reads (internal/dbgen/billing.sql.go,
-- internal/dbgen/users.sql.go).
use kartochki_online_backend.Prelude.{
  ℕ, Bool, false, ◌&&◌, String, Option, none, some, List, [], ◌∷◌, str_eq, ltb, ◌==◌, if◌then◌else◌,
  first, select, count_where, update_where,
}
use kartochki_online_backend.Provider.{Uuid}
use kartochki_online_backend.Database.Rows.{User, Plan, AddonProduct}
use kartochki_online_backend.Database.Sql.{
  Query, reply, refused, one, text_matches, unique_violation,
}

abbrev pub is_billing_plan : String → Plan → Bool
is_billing_plan code p = str_eq p.code code && p.is_active

unfoldable pub get_billing_plan_by_code : String → Query Plan
get_billing_plan_by_code code now db = (one (first (is_billing_plan code) db.plans), db)

unfoldable pub get_addon_product_by_code : String → Query AddonProduct
get_addon_product_by_code code now db =
    (one (first (λ a. str_eq a.code code && a.is_active) db.addon_products), db)

-- `order by key asc, created_at asc`: a stable insertion.
insert_by : {A : Type 0} → (A → ℕ) → (A → ℕ) → A → List A → List A
insert_by key tie x [] = x ∷ []
insert_by key tie x (y ∷ ys) =
    if ltb (key y) (key x)
    then y ∷ insert_by key tie x ys
    else if (key y == key x) && ltb (tie y) (tie x)
    then y ∷ insert_by key tie x ys
    else x ∷ y ∷ ys

unfoldable pub order_by : {A : Type 0} → (A → ℕ) → (A → ℕ) → List A → List A
unfolding insert_by
order_by key tie [] = []
order_by key tie (x ∷ xs) = insert_by key tie x (order_by key tie xs)

unfoldable pub list_active_billing_plans : Query (List Plan)
unfolding order_by
list_active_billing_plans now db = (
  reply (order_by (λ p. p.monthly_price) (λ p. p.created_at) (select (λ p. p.is_active) db.plans)),
  db,
)

unfoldable pub list_active_addon_products : Query (List AddonProduct)
unfolding order_by
list_active_addon_products now db = (
  reply (
      order_by (λ a. a.cards_count) (λ a. a.created_at)
        (select (λ a. a.is_active) db.addon_products)),
  db,
)

-- `coalesce(email, '')`
abbrev pub text_or_empty : Option String → String
text_or_empty none = ""
text_or_empty (some s) = s

unfoldable pub get_auth_user_by_id : Uuid → Query User
get_auth_user_by_id id now db = (one (first (λ u. u.id == id) db.users), db)

abbrev pub lacks_email : Uuid → User → Bool
lacks_email id u = elim u.email [ none ↦ u.id == id | some _ ↦ false ]

-- The row is returned as it is after the update; `users.email` is unique.
unfoldable pub assign_user_email_if_missing : Uuid → Option String → Query User
assign_user_email_if_missing id email now db = elim (first (lacks_email id) db.users) [
  | none ↦ (one none, db)
  | some u ↦
      if ltb 0 (count_where (λ v. text_matches v.email email) db.users)
      then (refused unique_violation, db)
      else (
        reply (record u { email = email }),
        record db {
          users = update_where (lacks_email id) (λ v. record v { email = email }) db.users;
        },
      )
]
