-- ===== src/Auth/Attempts/Others.antt =====
-- The other calls of the account service leave the table of registrations alone
-- (internal/auth/service.go).
use kartochki_online_backend.Prelude.{
  ℕ, ◌≡◌, sym, subst, String, Option, none, some, List, [], ◌∷◌, All, arith,
}
use kartochki_online_backend.Calendar.{Time}
use kartochki_online_backend.Environment.{Environment}
use kartochki_online_backend.Database as Db
use kartochki_online_backend.Database.{Db, QueryPost}
use kartochki_online_backend.Database.Users.{
  get_auth_user_by_email, get_login_user_by_email, update_user_password,
}
use kartochki_online_backend.Database.Sessions.{
  CreatePasswordResetTokenParams, create_password_reset_token, get_valid_password_reset_token,
  get_auth_identity_by_token_hash, revoke_session_by_token_hash, revoke_all_user_sessions,
  invalidate_previous_password_reset_tokens, mark_password_reset_token_used,
}
use kartochki_online_backend.World.{ignore_error, World, M}
use kartochki_online_backend.World.Keeps.{
  Keeps, QueryKeeps, Keeps-bind, Keeps-expect, Keeps-find, Keeps-pure, Keeps-time_now,
  Keeps-require, Keeps-reject_if, Keeps-send, Keeps-may_fail,
}
use kartochki_online_backend.World.Yields.{Keeps-transaction_of_body}
use kartochki_online_backend.Auth.Types.{
  Error, Service, SessionMetadata, LoginInput, generate_session_token,
}
use kartochki_online_backend.Auth.Sessions.{login, authenticate, logout}
use kartochki_online_backend.Auth.Passwords.{
  forgot_body, issue_reset_token, forgot_password, reset_body, reset_password,
}
use kartochki_online_backend.Auth.Calls.{
  Call, registers, verifies, resends, logs_in, authenticates, logs_out, forgets, resets, run,
  after_calls,
}
use kartochki_online_backend.Auth.Attempts.{IsUntried, RegistrationsUntried}
use kartochki_online_backend.Auth.Attempts.Kept.{register-Keeps}
use kartochki_online_backend.Auth.Attempts.Checked.{
  session-Keeps, verify_registration-Keeps, resend_registration_code-Keeps,
}

create_reset_token-registrations :
    (arg : CreatePasswordResetTokenParams) (now : Time) (db : Db)
    → (create_password_reset_token arg now db).1.pending_registrations ≡ db.pending_registrations
unfolding create_password_reset_token
create_reset_token-registrations arg now db = ground arith

create_reset_token-Keeps :
    (arg : CreatePasswordResetTokenParams)
    → QueryKeeps RegistrationsUntried (create_password_reset_token arg)
create_reset_token-Keeps arg now db p =
    subst (All IsUntried) (sym (create_reset_token-registrations arg now db)) p

ignored-Keeps :
    {m : M Error (Unit {0})}
    → Keeps RegistrationsUntried m
    → Keeps RegistrationsUntried (ignore_error m)
unfolding ignore_error
ignored-Keeps h = record { keeps = h.keeps }

module _ (env : Environment) (s : Service) where
  login-Keeps :
      (token : String) (input : LoginInput) (metadata : SessionMetadata)
      → Keeps RegistrationsUntried (login env s token input metadata)
  unfolding login get_login_user_by_email
  login-Keeps token input metadata = Keeps-bind (Keeps-expect _ _ λ now db p. p) λ row.
      Keeps-bind (Keeps-reject_if _ _)
        λ _. Keeps-bind (Keeps-reject_if _ _) λ _. session-Keeps env s token _ metadata

  authenticate-Keeps : (token : String) → Keeps RegistrationsUntried (authenticate env token)
  unfolding authenticate get_auth_identity_by_token_hash
  authenticate-Keeps token = Keeps-bind (Keeps-expect _ _ λ now db p. p) λ row. Keeps-pure

  logout-Keeps : (token : String) → Keeps RegistrationsUntried (logout env token)
  unfolding logout revoke_session_by_token_hash
  logout-Keeps token = Keeps-bind (Keeps-expect _ _ λ now db p. p) λ n. Keeps-reject_if _ _

  forgot_body-Keeps :
      (user : ℕ) (token : String) → Keeps RegistrationsUntried (forgot_body env s user token)
  unfolding forgot_body invalidate_previous_password_reset_tokens
  forgot_body-Keeps user token = Keeps-bind (Keeps-expect _ _ λ now db p. p) λ n.
      Keeps-bind Keeps-time_now
        λ now. Keeps-bind (Keeps-expect _ _ (create_reset_token-Keeps _)) λ row. Keeps-pure

  issue-Keeps :
      (token email : String) (user : Option Db.User)
      → Keeps RegistrationsUntried (issue_reset_token env s token email user)
  unfolding issue_reset_token generate_session_token
  issue-Keeps token email none = Keeps-pure
  issue-Keeps token email (some user) =
      Keeps-bind (Keeps-bind (Keeps-may_fail _) λ _. Keeps-pure) λ raw.
        Keeps-bind (Keeps-transaction_of_body _ _ (forgot_body-Keeps user.id raw))
          λ _. ignored-Keeps (Keeps-send _ _)

  forgot_password-Keeps :
      (token email : String) → Keeps RegistrationsUntried (forgot_password env s token email)
  unfolding forgot_password get_auth_user_by_email
  forgot_password-Keeps token email =
      Keeps-bind (Keeps-find _ _ λ now db p. p) λ user. issue-Keeps token _ user

  reset_body-Keeps :
      (salt hash password : String)
      → Keeps RegistrationsUntried (reset_body env s salt hash password)
  unfolding reset_body get_valid_password_reset_token update_user_password revoke_all_user_sessions
      mark_password_reset_token_used
  reset_body-Keeps salt hash password = Keeps-bind (Keeps-expect _ _ λ now db p. p) λ row.
      Keeps-bind (Keeps-require _ _) λ new_hash. Keeps-bind (Keeps-expect _ _ λ now db p. p) λ rows.
        Keeps-bind (Keeps-reject_if _ _) λ _. Keeps-bind (Keeps-expect _ _ λ now db p. p) λ n.
          Keeps-bind (Keeps-expect _ _ λ now db p. p)
            λ marked. Keeps-bind (Keeps-reject_if _ _) λ _. Keeps-pure

  reset_password-Keeps :
      (salt token password : String)
      → Keeps RegistrationsUntried (reset_password env s salt token password)
  unfolding reset_password
  reset_password-Keeps salt token password =
      Keeps-bind (Keeps-reject_if _ _)
        λ _. Keeps-transaction_of_body _ _ (reset_body-Keeps salt _ password)

  run-Keeps : (c : Call) → Keeps RegistrationsUntried (run env s c)
  unfolding run
  run-Keeps (registers salt draw input) =
      Keeps-bind (register-Keeps env s salt draw input) λ _. Keeps-pure
  run-Keeps (verifies token input metadata) =
      Keeps-bind (verify_registration-Keeps env s token input metadata) λ _. Keeps-pure
  run-Keeps (resends draw id) =
      Keeps-bind (resend_registration_code-Keeps env s draw id) λ _. Keeps-pure
  run-Keeps (logs_in token input metadata) =
      Keeps-bind (login-Keeps token input metadata) λ _. Keeps-pure
  run-Keeps (authenticates token) = Keeps-bind (authenticate-Keeps token) λ _. Keeps-pure
  run-Keeps (logs_out token) = Keeps-bind (logout-Keeps token) λ _. Keeps-pure
  run-Keeps (forgets token email) = Keeps-bind (forgot_password-Keeps token email) λ _. Keeps-pure
  run-Keeps (resets salt token password) =
      Keeps-bind (reset_password-Keeps salt token password) λ _. Keeps-pure

-- From a database whose registrations all have no attempt counted, are open or verified and had
-- one to five codes sent, every sequence of account calls, with faults anywhere, leaves one that
-- has this property: no call ever stores an attempt, an expiry or a block.
pub after_calls-RegistrationsUntried :
    (env : Environment) (s : Service) (calls : List Call) (w : World)
    → RegistrationsUntried w.db
    → RegistrationsUntried (after_calls env s calls w).db
unfolding after_calls
after_calls-RegistrationsUntried env s [] w p = p
after_calls-RegistrationsUntried env s (c ∷ calls) w p =
    after_calls-RegistrationsUntried env s calls (run env s c w).1 ((run-Keeps env s c).keeps w p)
