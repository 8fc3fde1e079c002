-- ===== src/Auth/Passwords/Reset.antt =====
-- What a successful reset of a password leaves (internal/auth/service.go).
use kartochki_online_backend.Prelude.{
  ◌≡◌, refl, subst, ap, true, false, ◌&&◌, first-passes, arith, inl, inr, Option-cases, String,
  Option, some, List, ltb, ◌==◌, first, update_where,
}
use kartochki_online_backend.Prelude.Text.{byte_len}
use kartochki_online_backend.Calendar.{Time}
use kartochki_online_backend.Provider.{Uuid}
use kartochki_online_backend.Environment.{Environment}
use kartochki_online_backend.Database as Db
use kartochki_online_backend.Database.{Db, PasswordResetToken, QueryPost}
use kartochki_online_backend.Database.Users.{update_user_password}
use kartochki_online_backend.Database.Sessions.{
  is_null, is_usable, is_reset_token, revoked, used, get_valid_password_reset_token,
  mark_password_reset_token_used, revoke_all_user_sessions,
}
use kartochki_online_backend.World.{
  World, ok, expect, pure, ◌>>=◌, ◌>>◌, reject_if, Ending, commit, roll_back,
}
use kartochki_online_backend.World.Runs.{
  Moment, Runs, EndingRun, Runs-bind, Runs-expect, Runs-pure, Runs-weaken, Runs-given,
  Runs-reject_if, Runs-require_then, Runs-transaction_from, Runs-returned,
}
use kartochki_online_backend.Auth.Types.{
  wrapped, password_reset_token_invalid, Service, hash_password, hash_session_token,
}
use kartochki_online_backend.Auth.Passwords.{reset_body, reset_password}

abbrev pub with_password : Uuid → String → List Db.User → List Db.User
with_password user hash =
    update_where (λ u. u.id == user) λ u. record u { password_hash = some hash }

abbrev pub without_sessions : Uuid → Time → List Db.LoginSession → List Db.LoginSession
without_sessions user at =
    update_where (λ s. (s.user_id == user) && is_null s.revoked_at) (revoked at)

abbrev pub with_used : String → Time → List PasswordResetToken → List PasswordResetToken
with_used hash at = update_where (λ t. is_reset_token hash t && is_null t.used_at) (used at)

-- The token is usable at `at`; the password of its user is the new one, all sessions of that user
-- are revoked and the token is used, at `at` too, and nothing else has changed.
pub record Reset (env : Environment) (salt hash password : String) (at : Time) (start db : Db)
    : Type 0 where
  pub token : PasswordResetToken
  pub password_hash : String
  pub valid :
      first (λ t. is_reset_token hash t && is_usable at t) start.password_reset_tokens ≡ some token
  pub in_time : ltb at token.expires_at ≡ true
  pub unused : is_null token.used_at ≡ true
  pub hashed : hash_password env salt password ≡ some password_hash
  pub after : db ≡ record start {
    users = with_password token.user_id password_hash start.users;
    sessions = without_sessions token.user_id at start.sessions;
    password_reset_tokens = with_used hash at start.password_reset_tokens;
  }

module _ (env : Environment) (s : Service) (salt hash password : String) (at : Time)
    (start : Db) where
  abbrev Valid : PasswordResetToken → Type 0
  Valid row =
      first (λ t. is_reset_token hash t && is_usable at t) start.password_reset_tokens ≡ some row

  valid :
      (db : Db)
      → db ≡ start
      → QueryPost (λ row d. Valid row × (d ≡ start)) (get_valid_password_reset_token hash at db)
  unfolding get_valid_password_reset_token
  valid db e =
      elim (Option-cases
        (first (λ t. is_reset_token hash t && is_usable at t) db.password_reset_tokens)) [
          | inl missing ↦ rw missing tt
          | inr (row, there) ↦ rw there (
            subst
                (λ d.
                  first (λ t. is_reset_token hash t && is_usable at t) d.password_reset_tokens
                  ≡ some row)
                e there,
            e,
          )
        ]

  usable :
      (row : PasswordResetToken)
      → Valid row
      → (ltb at row.expires_at ≡ true) × (is_null row.used_at ≡ true)
  usable row there =
      let passes =
        first-passes (λ t. is_reset_token hash t && is_usable at t) start.password_reset_tokens row
          there in
      (ground arith, ground arith)

  abbrev Ends : Ending (Unit {0}) → Moment
  Ends = EndingRun (λ _ t. Reset env salt hash password at start) start

  abbrev set_password : PasswordResetToken → String → Db → Db
  set_password row new db = record db { users = with_password row.user_id new db.users }

  abbrev revoke_sessions : PasswordResetToken → Db → Db
  revoke_sessions row db = record db { sessions = without_sessions row.user_id at db.sessions }

  abbrev use_token : Db → Db
  use_token db = record db { password_reset_tokens = with_used hash at db.password_reset_tokens }

  after_password :
      (row : PasswordResetToken) (new : String)
      → Valid row
      → hash_password env salt password ≡ some new
      → Runs
          (some at)
          (λ t db. db ≡ set_password row new start)
          (do
            expect
                (λ _. wrapped "revoke user sessions after password reset")
                (revoke_all_user_sessions row.user_id)
            marked ←
                expect
                  (λ _. wrapped "mark password reset token used")
                  (mark_password_reset_token_used hash)
            reject_if (marked == 0) password_reset_token_invalid
            pure (commit tt))
          Ends
  unfolding revoke_all_user_sessions mark_password_reset_token_used
  after_password row new is_valid hashed =
      Runs-bind (λ _ t db. db ≡ revoke_sessions row (set_password row new start))
        (Runs-expect _ _ _ λ t db e. ap (revoke_sessions row) e)
        λ n.
          Runs-bind (λ _ t db. db ≡ use_token (revoke_sessions row (set_password row new start)))
            (Runs-expect _ _ _ λ t db e. ap use_token e)
            λ marked. Runs-reject_if _ _ λ _. Runs-pure λ t db e. record {
              token = row;
              password_hash = new;
              valid = is_valid;
              in_time = (usable row is_valid).0;
              unused = (usable row is_valid).1;
              hashed = hashed;
              after = e;
            }

  reset_body-Runs : Runs (some at) (λ t db. db ≡ start) (reset_body env s salt hash password) Ends
  unfolding reset_body update_user_password revoke_all_user_sessions mark_password_reset_token_used
  reset_body-Runs =
      Runs-bind (λ row t db. Valid row × (db ≡ start)) (Runs-expect _ _ _ λ t db e. valid db e)
        λ row. Runs-require_then _ _ λ new hashed. Runs-given λ is_valid.
          Runs-bind (λ _ t db. db ≡ set_password row new start)
            (Runs-expect _ _ _ λ t db e. ap (set_password row new) e)
            λ rows. Runs-reject_if _ _ λ _. after_password row new is_valid hashed

module _ (env : Environment) (s : Service) (salt token password : String) where
  abbrev pub PasswordSet : Time → Db → Db → Type 0
  PasswordSet at start db =
      (ltb (byte_len password) s.password_min_length ≡ false)
      × Reset env salt (hash_session_token env token) password at start db

  pub reset_password-Runs :
      (tx : Option Time) (at : Time) (start : Db)
      → Runs tx
          (λ t db. (t ≡ at) × (db ≡ start))
          (reset_password env s salt token password)
          (λ _ t. PasswordSet at start)
  unfolding reset_password
  reset_password-Runs tx at start = Runs-reject_if _ _ λ long.
      Runs-transaction_from (λ _ t. PasswordSet at start) at start _ _
        (Runs-weaken (reset_body-Runs env s salt (hash_session_token env token) password at start)
          (λ t db p. p.1) (with_length long))
    where
      with_length :
          ltb (byte_len password) s.password_min_length ≡ false
          → (a : Ending (Unit {0})) (t : Time) (db : Db)
          → EndingRun
              (λ _ t'. Reset env salt (hash_session_token env token) password at start)
              start
              a
              t
              db
          → EndingRun (λ _ t'. PasswordSet at start) start a t db
      with_length long (commit a) t db q = (long, q)
      with_length long (roll_back a) t db q = (long, q)

  -- A reset that returns, from any database and with faults anywhere: the password is long enough
  -- and the token was usable when the call began, which includes that it had not expired. The
  -- password of the token's user is the hash of the new one, all sessions of that user are revoked
  -- and the token is used, at that time, and nothing else has changed.
  pub reset_password-resets :
      (w : World)
      → (reset_password env s salt token password w).0 ≡ ok tt
      → PasswordSet w.clock w.db (reset_password env s salt token password w).1.db
  reset_password-resets w returned =
      Runs-returned (λ _ t. PasswordSet w.clock w.db) _ (reset_password env s salt token password) w
        tt (reset_password-Runs w.tx_start w.clock w.db) (refl, refl) returned
