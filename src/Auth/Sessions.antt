-- ===== src/Auth/Sessions.antt =====
-- Sessions: opened at a login, looked up at a request, revoked at a logout
-- (internal/auth/service.go).
pub mod Opened
pub mod Store
pub mod Live
pub mod Refined
pub mod Changes
pub mod Refines
pub mod Authenticate
use kartochki_online_backend.Prelude.{
  ℕ, ◌+◌, Bool, not, String, Option, str_eq, ◌==◌, if◌then◌else◌,
}
use kartochki_online_backend.Prelude.Text.{trim_space}
use kartochki_online_backend.Provider.{Uuid}
use kartochki_online_backend.Environment.{Environment}
use kartochki_online_backend.Database as Db
use kartochki_online_backend.Database.Catalog.{text_or_empty}
use kartochki_online_backend.Database.Users.{get_login_user_by_email}
use kartochki_online_backend.Database.Sessions.{
  create_session, get_auth_identity_by_token_hash, revoke_session_by_token_hash,
}
use kartochki_online_backend.World.{
  M, pure, ◌>>=◌, ◌>>◌, reject_if, require, missing_or, expect, time_now,
}
use kartochki_online_backend.Auth.Types.{
  Error, invalid_credentials, unauthorized, wrapped, Service, User, SessionMetadata, AuthResult,
  LoginInput, nullable_text, nullable_text_value, normalize_email, hash_session_token,
  compare_password, generate_session_token,
}

module _ (env : Environment) where
  -- `token` is the text of the random bytes.
  unfoldable pub create_session_for_user :
      Service → String → User → SessionMetadata → M Error AuthResult
  unfolding generate_session_token hash_session_token
  create_session_for_user s token user metadata = do
    access_token ← generate_session_token token
    now ← time_now
    user_id ← require (env.parse_uuid user.id) (wrapped "parse user id")
    expect (λ _. wrapped "create session")
        (create_session (record {
          user_id = user_id;
          token_hash = hash_session_token env access_token;
          expires_at = now + s.session_ttl;
          user_agent = trim_space metadata.user_agent;
          ip_address = trim_space metadata.ip_address;
        }))
    pure (record {
      user = user;
      session = record { access_token = access_token; expires_at = now + s.session_ttl };
    })

  abbrev pub user_of : Db.User → User
  user_of row = record {
    id = env.print_uuid row.id;
    name = trim_space row.name;
    email = text_or_empty row.email;
    avatar_url = "";
  }

  unfoldable pub login : Service → String → LoginInput → SessionMetadata → M Error AuthResult
  unfolding create_session_for_user nullable_text nullable_text_value normalize_email
      compare_password
  login s token input metadata = do
    row ←
        expect (missing_or invalid_credentials (wrapped "get user by email"))
          (get_login_user_by_email (nullable_text (normalize_email env input.email)))
    reject_if (str_eq (text_or_empty row.password_hash) "") invalid_credentials
    reject_if (not (compare_password env input.password (text_or_empty row.password_hash)))
        invalid_credentials
    create_session_for_user s token
        (record {
          id = env.print_uuid row.id;
          name = trim_space row.name;
          email = nullable_text_value row.email;
          avatar_url = "";
        })
        metadata

  unfoldable pub authenticate : String → M Error User
  unfolding hash_session_token
  authenticate token = do
    row ←
        expect (missing_or unauthorized (wrapped "get auth identity by token"))
          (get_auth_identity_by_token_hash (hash_session_token env token))
    pure (user_of row)

  unfoldable pub logout : String → M Error (Unit {0})
  unfolding hash_session_token
  logout token = do
    rows ←
        expect (λ _. wrapped "revoke session")
          (revoke_session_by_token_hash (hash_session_token env token))
    reject_if (rows == 0) unauthorized
