-- ===== src/Auth/Atomic.antt =====
-- A call of the account service that fails changes nothing
-- (internal/auth/register_verification.go, internal/auth/service.go).
use kartochki_online_backend.Prelude.{
  ℕ, ◌≡◌, refl, sym, ap, subst, String, Option, none, some, true, Bool-cases, inl, inr, ◌==◌, ltb,
  ◌&&◌, count_where, update_where_none, arith,
}
use kartochki_online_backend.Environment.{Environment}
use kartochki_online_backend.Database as Db
use kartochki_online_backend.Database.{Query}
use kartochki_online_backend.Database.Payments.{user_exists}
use kartochki_online_backend.Database.Users.{get_auth_user_by_email, get_login_user_by_email}
use kartochki_online_backend.Database.Sessions.{
  create_session, CreateSessionParams, has_token, revoke_session_by_token_hash,
  get_auth_identity_by_token_hash, is_null, revoked,
}
use kartochki_online_backend.World.{
  World, err, M, find, expect, send, password_reset_email, ignore_error,
}
use kartochki_online_backend.World.Keeps.{
  Keeps, Keeps-bind, Keeps-may_fail, Keeps-pure, Keeps-find, Keeps-expect, time_now-db,
}
use kartochki_online_backend.World.Atomic.{
  Atomic, IsOk, Atomic-bind, Atomic-then_ok, Atomic-then_pure, Atomic-transaction, Atomic-expect,
  Atomic-expect_rows, Atomic-pure, Atomic-require, Atomic-reject_if, error-same,
}
use kartochki_online_backend.Auth.Types.{
  Error, Service, SessionMetadata, User, RegisterInput, LoginInput, VerifyRegistrationInput,
  generate_verification_code, generate_session_token, wrapped,
}
use kartochki_online_backend.Auth.Registration.{register}
use kartochki_online_backend.Auth.Verification.{verify_registration, resend_registration_code}
use kartochki_online_backend.Auth.Sessions.{create_session_for_user, login, authenticate, logout}
use kartochki_online_backend.Auth.Passwords.{forgot_password, issue_reset_token, reset_password}
use kartochki_online_backend.Auth.Calls.{
  Call, registers, verifies, resends, logs_in, authenticates, logs_out, forgets, resets, run,
}

-- A call that keeps every predicate changes nothing.
same_of_Keeps :
    {A : Type 0} (m : M Error A)
    → ((P : Db.Db → Type 0) → Keeps P m)
    → (w : World) → (m w).1.db ≡ w.db
same_of_Keeps m h w = (h (λ db. db ≡ w.db)).keeps w refl

-- A statement that reads.
read-same :
    {A : Type 0} (wrap : Db.SqlError → Error) (q : Query A)
    → ((now : _) (db : Db.Db) → (q now db).1 ≡ db)
    → (w : World) → (expect wrap q w).1.db ≡ w.db
read-same wrap q reads =
    same_of_Keeps (expect wrap q)
      λ P. Keeps-expect wrap q λ now db p. subst P (sym (reads now db)) p

found-same :
    {A : Type 0} (wrap : Db.SqlError → Error) (q : Query A)
    → ((now : _) (db : Db.Db) → (q now db).1 ≡ db)
    → (w : World) → (find wrap q w).1.db ≡ w.db
found-same wrap q reads =
    same_of_Keeps (find wrap q) λ P. Keeps-find wrap q λ now db p. subst P (sym (reads now db)) p

ignored-IsOk : (m : M Error (Unit {0})) (w : World) → IsOk (ignore_error m w)
unfolding ignore_error
ignored-IsOk m w = tt

token-same : (token : String) (w : World) → (generate_session_token token w).1.db ≡ w.db
unfolding generate_session_token
token-same token = same_of_Keeps _ λ P. Keeps-bind (Keeps-may_fail _) λ _. Keeps-pure

create_session-refused :
    (arg : CreateSessionParams) (now : _) (db : Db.Db) (e : Db.SqlError)
    → (create_session arg now db).0 ≡ Db.refused e
    → (create_session arg now db).1 ≡ db
unfolding create_session
create_session-refused arg now db e h = elim (Bool-cases (ltb now arg.expires_at)) [
  | inr past ↦ rw past refl
  | inl later ↦
      rw later (elim (Bool-cases (ltb 0 (count_where (has_token arg.token_hash) db.sessions))) [
        | inl taken ↦ rw taken refl
        | inr free ↦ rw free (elim (Bool-cases (user_exists arg.user_id db.users)) [
          | inr nobody ↦ rw nobody refl
          | inl user ↦ absurd (let q = rw (later, free, user) at h in ground arith)
        ])
      ])
]

-- A revocation of no session changes nothing.
revoke-none :
    (hash : String) (now : _) (db : Db.Db) (n : ℕ)
    → (revoke_session_by_token_hash hash now db).0 ≡ Db.reply n
    → (n == 0) ≡ true
    → (revoke_session_by_token_hash hash now db).1 ≡ db
unfolding revoke_session_by_token_hash
revoke-none hash now db n h z =
    let test = λ (s : Db.LoginSession). has_token hash s && is_null s.revoked_at in
    let counted : Db.reply (count_where test db.sessions) ≡ Db.reply n = h in
    let zero_rows : count_where test db.sessions ≡ 0 = ground arith in
    ap (λ rows. record db { sessions = rows })
      (update_where_none test (revoked now) db.sessions zero_rows)

revoke-replies :
    (hash : String) (now : _) (db : Db.Db) (e : Db.SqlError)
    → (revoke_session_by_token_hash hash now db).0 ≡ Db.refused e
    → (revoke_session_by_token_hash hash now db).1 ≡ db
unfolding revoke_session_by_token_hash
revoke-replies hash now db e h = ground arith

module _ (env : Environment) (s : Service) where
  code-same : (draw : ℕ → ℕ) (w : World) → (generate_verification_code env draw w).1.db ≡ w.db
  unfolding generate_verification_code
  code-same draw = same_of_Keeps _ λ P. Keeps-bind (Keeps-may_fail _) λ _. Keeps-pure

  register-Atomic :
      (salt : String) (draw : ℕ → ℕ) (input : RegisterInput)
      → Atomic (register env s salt draw input)
  unfolding register
  register-Atomic salt draw input = Atomic-reject_if _ _ λ _. Atomic-require _ _ λ hash.
      Atomic-bind _ (code-same draw) λ code.
        Atomic-bind _ (time_now-db Error)
          λ now. Atomic-then_ok _ (Atomic-transaction _ _ _) (λ p w. tt)

  verify_registration-Atomic :
      (token : String) (input : VerifyRegistrationInput) (metadata : SessionMetadata)
      → Atomic (verify_registration env s token input metadata)
  unfolding verify_registration
  verify_registration-Atomic token input metadata =
      Atomic-require _ _ λ id. Atomic-transaction _ _ _

  resend_registration_code-Atomic :
      (draw : ℕ → ℕ) (id : String) → Atomic (resend_registration_code env s draw id)
  unfolding resend_registration_code
  resend_registration_code-Atomic draw id = Atomic-require _ _ λ id. Atomic-transaction _ _ _

  issue_reset_token-Atomic :
      (token email : String) (user : Option Db.User)
      → Atomic (issue_reset_token env s token email user)
  unfolding issue_reset_token
  issue_reset_token-Atomic token email none = Atomic-pure
  issue_reset_token-Atomic token email (some user) = Atomic-bind _ (token-same token) λ raw.
      Atomic-then_ok
        (λ _.
          ignore_error (
            send (wrapped "enqueue password reset email") (password_reset_email user.id email raw)))
        (Atomic-transaction _ _ _)
        λ _.
          ignored-IsOk
            (send (wrapped "enqueue password reset email") (password_reset_email user.id email raw))

  forgot_password-Atomic : (token email : String) → Atomic (forgot_password env s token email)
  unfolding forgot_password get_auth_user_by_email
  forgot_password-Atomic token email =
      Atomic-bind _ (found-same _ _ λ now db. refl) λ user. issue_reset_token-Atomic token _ user

  reset_password-Atomic :
      (salt token password : String) → Atomic (reset_password env s salt token password)
  unfolding reset_password
  reset_password-Atomic salt token password = Atomic-reject_if _ _ λ _. Atomic-transaction _ _ _

  create_session_for_user-Atomic :
      (token : String) (user : User) (metadata : SessionMetadata)
      → Atomic (create_session_for_user env s token user metadata)
  unfolding create_session_for_user
  create_session_for_user-Atomic token user metadata = Atomic-bind _ (token-same token) λ access.
      Atomic-bind _ (time_now-db Error) λ now.
        Atomic-require _ _ λ id. Atomic-then_pure _ (Atomic-expect _ _ (create_session-refused _))

  login-Atomic :
      (token : String) (input : LoginInput) (metadata : SessionMetadata)
      → Atomic (login env s token input metadata)
  unfolding login get_login_user_by_email
  login-Atomic token input metadata = Atomic-bind _ (read-same _ _ λ now db. refl) λ row.
      Atomic-reject_if _ _
        λ _. Atomic-reject_if _ _ λ _. create_session_for_user-Atomic token _ metadata

  authenticate-Atomic : (token : String) → Atomic (authenticate env token)
  unfolding authenticate get_auth_identity_by_token_hash
  authenticate-Atomic token = Atomic-bind _ (read-same _ _ λ now db. refl) λ row. Atomic-pure

  logout-Atomic : (token : String) → Atomic (logout env token)
  unfolding logout
  logout-Atomic token = Atomic-expect_rows _ _ _ (revoke-replies _) (revoke-none _)

  run-Atomic : (c : Call) → Atomic (run env s c)
  unfolding run
  run-Atomic (registers salt draw input) = Atomic-then_pure tt (register-Atomic salt draw input)
  run-Atomic (verifies token input metadata) =
      Atomic-then_pure tt (verify_registration-Atomic token input metadata)
  run-Atomic (resends draw id) = Atomic-then_pure tt (resend_registration_code-Atomic draw id)
  run-Atomic (logs_in token input metadata) =
      Atomic-then_pure tt (login-Atomic token input metadata)
  run-Atomic (authenticates token) = Atomic-then_pure tt (authenticate-Atomic token)
  run-Atomic (logs_out token) = Atomic-then_pure tt (logout-Atomic token)
  run-Atomic (forgets token email) = Atomic-then_pure tt (forgot_password-Atomic token email)
  run-Atomic (resets salt token password) =
      Atomic-then_pure tt (reset_password-Atomic salt token password)

-- A call of the account service that returns an error leaves the database as it was, wherever a
-- statement, a begin, a commit or a hand-over fails.
pub run-error_changes_nothing :
    (env : Environment) (s : Service) (c : Call) (w : World) (e : Error)
    → (run env s c w).0 ≡ err e
    → (run env s c w).1.db ≡ w.db
run-error_changes_nothing env s c w e =
    error-same w (run env s c w) e ((run-Atomic env s c).atomic w)
