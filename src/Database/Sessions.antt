-- ===== src/Database/Sessions.antt =====
-- The statements on sessions and on the tokens of a password reset (internal/dbgen/sessions.sql.go,
-- internal/dbgen/password_reset_tokens.sql.go).
use kartochki_online_backend.Prelude.{
  ℕ, suc, Bool, true, false, not, ◌&&◌, Option, none, some, String, List, [], ◌∷◌, ◌++◌, ltb, ◌==◌,
  str_eq, if◌then◌else◌, first, count_where, update_where,
}
use kartochki_online_backend.Calendar.{Time}
use kartochki_online_backend.Provider.{Uuid}
use kartochki_online_backend.Database.Rows.{User, LoginSession, PasswordResetToken}
use kartochki_online_backend.Database.Sql.{
  Query, reply, refused, one, unique_violation, check_violation, foreign_key_violation,
}
use kartochki_online_backend.Database.Payments.{user_exists}

abbrev pub is_null : Option Time → Bool
is_null none = true
is_null (some _) = false

pub record CreateSessionParams : Type 0 where
  pub user_id : Uuid
  pub token_hash : String
  pub expires_at : Time
  pub user_agent : String
  pub ip_address : String

abbrev pub new_session : Uuid → Time → CreateSessionParams → LoginSession
new_session id now arg = record {
  id = id;
  user_id = arg.user_id;
  token_hash = arg.token_hash;
  expires_at = arg.expires_at;
  revoked_at = none;
  created_at = now;
  user_agent = arg.user_agent;
  ip_address = arg.ip_address;
}

abbrev pub has_token : String → LoginSession → Bool
has_token hash s = str_eq s.token_hash hash

-- check (expires_at > created_at); token_hash is unique.
unfoldable pub create_session : CreateSessionParams → Query LoginSession
create_session arg now db =
    let row = new_session db.next_id now arg in
    if ltb now arg.expires_at
    then (if ltb 0 (count_where (has_token arg.token_hash) db.sessions)
        then (refused unique_violation, db)
        else if user_exists arg.user_id db.users
        then (
          reply row,
          record db { sessions = db.sessions ++ (row ∷ []); next_id = suc db.next_id },
        )
        else (refused foreign_key_violation, db))
    else (refused check_violation, db)

abbrev pub is_live : Time → LoginSession → Bool
is_live now s = is_null s.revoked_at && ltb now s.expires_at

-- The owner of the live session with a token. A token is unique, so the join has at most one row.
abbrev pub owner_of : List User → Option LoginSession → Option User
owner_of users none = none
owner_of users (some s) = first (λ u. u.id == s.user_id) users

unfoldable pub get_auth_identity_by_token_hash : String → Query User
get_auth_identity_by_token_hash hash now db =
    (one (owner_of db.users (first (λ s. has_token hash s && is_live now s) db.sessions)), db)

abbrev pub revoked : Time → LoginSession → LoginSession
revoked now s = record s { revoked_at = some now }

abbrev pub revoke_where : (LoginSession → Bool) → Query ℕ
revoke_where test now db = (
  reply (count_where test db.sessions),
  record db { sessions = update_where test (revoked now) db.sessions },
)

unfoldable pub revoke_all_user_sessions : Uuid → Query ℕ
revoke_all_user_sessions user = revoke_where (λ s. (s.user_id == user) && is_null s.revoked_at)

unfoldable pub revoke_other_user_sessions : Uuid → String → Query ℕ
revoke_other_user_sessions user hash =
    revoke_where (λ s. (s.user_id == user) && (not (has_token hash s) && is_null s.revoked_at))

unfoldable pub revoke_session_by_token_hash : String → Query ℕ
revoke_session_by_token_hash hash = revoke_where (λ s. has_token hash s && is_null s.revoked_at)

unfoldable pub revoke_user_session_by_id : Uuid → Uuid → Query ℕ
revoke_user_session_by_id id user now db =
    revoke_where (λ s. (s.id == id) && ((s.user_id == user) && is_live now s)) now db

pub record CreatePasswordResetTokenParams : Type 0 where
  pub user_id : Uuid
  pub token_hash : String
  pub expires_at : Time

abbrev pub new_reset_token : Uuid → Time → CreatePasswordResetTokenParams → PasswordResetToken
new_reset_token id now arg = record {
  id = id;
  user_id = arg.user_id;
  token_hash = arg.token_hash;
  expires_at = arg.expires_at;
  used_at = none;
  created_at = now;
}

abbrev pub is_reset_token : String → PasswordResetToken → Bool
is_reset_token hash t = str_eq t.token_hash hash

-- check (expires_at > created_at); token_hash is unique.
unfoldable pub create_password_reset_token :
    CreatePasswordResetTokenParams → Query PasswordResetToken
create_password_reset_token arg now db =
    let row = new_reset_token db.next_id now arg in
    if ltb now arg.expires_at
    then (if ltb 0 (count_where (is_reset_token arg.token_hash) db.password_reset_tokens)
        then (refused unique_violation, db)
        else if user_exists arg.user_id db.users
        then (
          reply row,
          record db {
            password_reset_tokens = db.password_reset_tokens ++ (row ∷ []);
            next_id = suc db.next_id;
          },
        )
        else (refused foreign_key_violation, db))
    else (refused check_violation, db)

abbrev pub is_usable : Time → PasswordResetToken → Bool
is_usable now t = is_null t.used_at && ltb now t.expires_at

unfoldable pub get_valid_password_reset_token : String → Query PasswordResetToken
get_valid_password_reset_token hash now db =
    (one (first (λ t. is_reset_token hash t && is_usable now t) db.password_reset_tokens), db)

abbrev pub used : Time → PasswordResetToken → PasswordResetToken
used now t = record t { used_at = some now }

abbrev pub use_where : (PasswordResetToken → Bool) → Query ℕ
use_where test now db = (
  reply (count_where test db.password_reset_tokens),
  record db { password_reset_tokens = update_where test (used now) db.password_reset_tokens },
)

unfoldable pub invalidate_previous_password_reset_tokens : Uuid → Query ℕ
invalidate_previous_password_reset_tokens user now db =
    use_where (λ t. (t.user_id == user) && is_usable now t) now db

unfoldable pub mark_password_reset_token_used : String → Query ℕ
mark_password_reset_token_used hash = use_where (λ t. is_reset_token hash t && is_null t.used_at)
