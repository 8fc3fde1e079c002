-- ===== src/Database/Users.antt =====
-- The statements on users that the account services run (internal/dbgen/users.sql.go).
use kartochki_online_backend.Prelude.{
  ℕ, suc, ◌≡◌, Bool, false, inl, inr, Bool-cases, Option, none, some, String, List, [], ◌∷◌, ◌++◌,
  ltb, ◌==◌, if◌then◌else◌, first, count_where, update_where,
}
use kartochki_online_backend.Calendar.{Time}
use kartochki_online_backend.Provider.{Uuid}
use kartochki_online_backend.Database.Rows.{Db, User}
use kartochki_online_backend.Database.Sql.{
  Query, reply, refused, one, text_matches, unique_violation, QueryPost,
}

pub record CreateUserParams : Type 0 where
  pub email : Option String
  pub password_hash : Option String
  pub name : String

abbrev pub new_user : Uuid → Time → Option Time → CreateUserParams → User
new_user id now verified_at arg = record {
  id = id;
  email = arg.email;
  password_hash = arg.password_hash;
  name = arg.name;
  email_verified_at = verified_at;
  created_at = now;
}

abbrev pub email_is_taken : Option String → List User → Bool
email_is_taken email users = ltb 0 (count_where (λ u. text_matches u.email email) users)

-- unique index users_email_unique_not_null_idx: two users without an email do not collide.
abbrev pub insert_user : User → Query User
insert_user row now db =
    if email_is_taken row.email db.users
    then (refused unique_violation, db)
    else (reply row, record db { users = db.users ++ (row ∷ []); next_id = suc db.next_id })

unfoldable pub create_user : CreateUserParams → Query User
create_user arg now db = insert_user (new_user db.next_id now none arg) now db

unfoldable pub create_verified_user : CreateUserParams → Query User
create_verified_user arg now db = insert_user (new_user db.next_id now (some now) arg) now db

-- What an insertion establishes when it goes through.
pub insert_user-inserts :
    (Q : User → Db → Type 0) (row : User) (now : Time) (db : Db)
    → (email_is_taken row.email db.users ≡ false
        → Q row (record db { users = db.users ++ (row ∷ []); next_id = suc db.next_id }))
    → QueryPost Q (insert_user row now db)
insert_user-inserts Q row now db q = elim (Bool-cases (email_is_taken row.email db.users)) [
  | inl taken ↦ rw taken tt
  | inr free ↦ rw free (q free)
]

unfoldable pub get_auth_user_by_email : Option String → Query User
get_auth_user_by_email email now db = (one (first (λ u. text_matches u.email email) db.users), db)

unfoldable pub get_login_user_by_email : Option String → Query User
get_login_user_by_email email now db = (one (first (λ u. text_matches u.email email) db.users), db)

unfoldable pub get_user_credentials_by_id : Uuid → Query User
get_user_credentials_by_id id now db = (one (first (λ u. u.id == id) db.users), db)

-- The reply is the number of rows.
unfoldable pub update_user_password : Uuid → Option String → Query ℕ
update_user_password id hash now db = (
  reply (count_where (λ u. u.id == id) db.users),
  record db {
    users = update_where (λ u. u.id == id) (λ u. record u { password_hash = hash }) db.users;
  },
)
