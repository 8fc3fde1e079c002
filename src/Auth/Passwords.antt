-- ===== src/Auth/Passwords.antt =====
-- The reset of a forgotten password (internal/auth/service.go).
pub mod Reset
use kartochki_online_backend.Prelude.{
  ℕ, ◌+◌, Bool, String, Option, none, some, ltb, ◌==◌, if◌then◌else◌,
}
use kartochki_online_backend.Prelude.Text.{byte_len}
use kartochki_online_backend.Provider.{Uuid}
use kartochki_online_backend.Environment.{Environment}
use kartochki_online_backend.Database.{User}
use kartochki_online_backend.Database.Users.{get_auth_user_by_email, update_user_password}
use kartochki_online_backend.Database.Sessions.{
  create_password_reset_token, get_valid_password_reset_token,
  invalidate_previous_password_reset_tokens, mark_password_reset_token_used,
  revoke_all_user_sessions,
}
use kartochki_online_backend.World.{
  M, ignore_error, pure, ◌>>=◌, ◌>>◌, reject_if, require, missing_or, expect, find, send, time_now,
  Ending, commit, transaction, password_reset_email,
}
use kartochki_online_backend.Auth.Types.{
  Error, password_too_short, password_reset_token_invalid, user_not_found, wrapped, Service,
  nullable_text, normalize_email, hash_session_token, hash_password, generate_session_token,
}

module _ (env : Environment) (s : Service) where
  unfoldable pub forgot_body : Uuid → String → M Error (Ending (Unit {0}))
  unfolding hash_session_token
  forgot_body user token = do
    expect (λ _. wrapped "invalidate previous reset tokens")
        (invalidate_previous_password_reset_tokens user)
    now ← time_now
    expect (λ _. wrapped "create password reset token")
        (create_password_reset_token (record {
          user_id = user;
          token_hash = hash_session_token env token;
          expires_at = now + s.password_reset_token_ttl;
        }))
    pure (commit tt)

  -- An address without a user is answered as one with a user.
  unfoldable pub issue_reset_token : String → String → Option User → M Error (Unit {0})
  unfolding generate_session_token forgot_body ignore_error
  issue_reset_token token email none = pure tt
  issue_reset_token token email (some user) = do
    raw ← generate_session_token token
    transaction (wrapped "begin forgot password tx") (wrapped "commit forgot password tx")
        (forgot_body user.id raw)
    ignore_error
        (send (wrapped "enqueue password reset email") (password_reset_email user.id email raw))

  unfoldable pub forgot_password : String → String → M Error (Unit {0})
  unfolding issue_reset_token nullable_text normalize_email
  forgot_password token email =
      find (λ _. wrapped "get user by email for password reset")
        (get_auth_user_by_email (nullable_text (normalize_email env email)))
      >>= issue_reset_token token (normalize_email env email)

  unfoldable pub reset_body : String → String → String → M Error (Ending (Unit {0}))
  unfolding hash_password
  reset_body salt hash new_password = do
    row ←
        expect (missing_or password_reset_token_invalid (wrapped "get password reset token"))
          (get_valid_password_reset_token hash)
    new_hash ← require (hash_password env salt new_password) (wrapped "hash new password")
    rows ←
        expect (λ _. wrapped "update user password")
          (update_user_password row.user_id (some new_hash))
    reject_if (rows == 0) user_not_found
    expect (λ _. wrapped "revoke user sessions after password reset")
        (revoke_all_user_sessions row.user_id)
    marked ←
        expect (λ _. wrapped "mark password reset token used") (mark_password_reset_token_used hash)
    reject_if (marked == 0) password_reset_token_invalid
    pure (commit tt)

  unfoldable pub reset_password : String → String → String → M Error (Unit {0})
  unfolding reset_body hash_session_token
  reset_password salt token new_password = do
    reject_if (ltb (byte_len new_password) s.password_min_length) password_too_short
    transaction (wrapped "begin reset password tx") (wrapped "commit reset password tx")
        (reset_body salt (hash_session_token env token) new_password)
