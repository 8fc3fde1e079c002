-- ===== src/Auth/Verified.antt =====
-- What a successful verification leaves (internal/auth/register_verification.go).
pub mod Leaves
use kartochki_online_backend.Prelude.{
  ℕ, suc, ◌+◌, ◌≤◌, ◌≡◌, refl, Bool, true, false, inl, inr, Bool-cases, Option-cases, String,
  Option, none, some, List, [], ◌∷◌, ◌++◌, ltb, leb, ◌==◌, first, count_where, update_where,
  if◌then◌else◌, ◌∙◌, sym, subst, ap,
}
use kartochki_online_backend.Calendar.{Time}
use kartochki_online_backend.Provider.{Uuid}
use kartochki_online_backend.Environment.{Environment}
use kartochki_online_backend.Database as Db
use kartochki_online_backend.Database.{
  Db, PendingRegistration, FlowStatus, pending, verified, expired, blocked, QueryPost,
}
use kartochki_online_backend.Database.Users.{
  create_verified_user, new_user, email_is_taken, insert_user-inserts, CreateUserParams,
}
use kartochki_online_backend.Database.Sessions.{new_session, has_token}
use kartochki_online_backend.Database.Registrations.{
  expire_pending_registration, get_pending_registration_for_update, complete_pending_registration,
  is_open,
}
use kartochki_online_backend.World.{M, pure, fail, ◌>>=◌, Ending}
use kartochki_online_backend.World.Keeps.{Keeps-time_now, Keeps-require}
use kartochki_online_backend.World.Yields.{
  Yields, EndingFrom, Yields-bind, Yields-of_Keeps, Yields-fail, Yields-weaken, Yields-expect,
  Yields-pure, Yields-transaction, Yields-require,
}
use kartochki_online_backend.World.Runs.{
  Moment, Runs, Runs-fail, Runs-failing, Runs-pure, Runs-weaken,
}
use kartochki_online_backend.Auth.Types.{
  Error, Service, SessionMetadata, AuthResult, User, VerifyRegistrationInput, hash_session_token,
  verification_already_completed, verification_code_expired, verification_attempts_exceeded,
}
use kartochki_online_backend.Auth.Sessions.{create_session_for_user, user_of}
use kartochki_online_backend.Auth.Sessions.Opened.{
  Opened, Inserted, session_params, create_session_for_user-Opened,
}
use kartochki_online_backend.Auth.Registration.{registration_max_verify_attempts}
use kartochki_online_backend.Auth.Verification.{
  close_with, check_attempts, validate_pending_registration_for_verification, find_flow,
  accept_code, open_account, verify_flow, verify_body, verify_registration, code_is_right,
}
use kartochki_online_backend.Auth.Attempts.{close_with-Yields}
use kartochki_online_backend.Auth.Attempts.Checked.{refuse_code-Yields}

-- The flow may be verified at `now`.
abbrev pub MayVerify : PendingRegistration → Time → Type 0
MayVerify row now =
    (row.status ≡ pending)
    × (ltb row.verification_expires_at now ≡ false)
    × (leb registration_max_verify_attempts row.attempt_count ≡ false)

module _ (row : PendingRegistration) (now : Time) (tx : Option Time) (P : Moment) where
  attempts-May :
      Runs tx P
        (check_attempts row)
        (λ _ t db. (leb registration_max_verify_attempts row.attempt_count ≡ false) × P t db)
  attempts-May = elim (Bool-cases (leb registration_max_verify_attempts row.attempt_count)) [
    | inl many ↦ rw many (Runs-failing (close_with-Yields _ _ _ _ _))
    | inr few ↦ rw few (Runs-pure λ t db p. (refl, p))
  ]

  pub validate-May :
      Runs tx P
        (validate_pending_registration_for_verification row now)
        (λ _ t db. MayVerify row now × P t db)
  unfolding validate_pending_registration_for_verification
  validate-May = by_status row.status
    where
      by_status :
          (status : FlowStatus)
          → Runs tx P
              (elim status [
                | verified ↦ fail verification_already_completed
                | expired ↦ fail verification_code_expired
                | blocked ↦ fail verification_attempts_exceeded
                | pending ↦
                    if ltb row.verification_expires_at now
                    then close_with "expire pending registration after ttl"
                        (expire_pending_registration row.id)
                        verification_code_expired
                    else check_attempts row
              ])
              (λ _ t db.
                ((status ≡ pending)
                  × (ltb row.verification_expires_at now ≡ false)
                  × (leb registration_max_verify_attempts row.attempt_count ≡ false))
                × P t db)
      by_status verified = Runs-fail
      by_status expired = Runs-fail
      by_status blocked = Runs-fail
      by_status pending = elim (Bool-cases (ltb row.verification_expires_at now)) [
        | inl late ↦ rw late (Runs-failing (close_with-Yields _ _ _ _ _))
        | inr early ↦
            rw early (Runs-weaken attempts-May (λ t db p. p) λ a t db q. ((refl, refl, q.0), q.1))
      ]

abbrev pub account_of : PendingRegistration → CreateUserParams
account_of row = record {
  email = some row.email;
  password_hash = some row.password_hash;
  name = row.name;
}

-- The table of registrations with the flow verified at a time.
abbrev pub with_verified : Uuid → Time → List PendingRegistration → List PendingRegistration
with_verified id at =
    update_where (is_open id) λ p. record p { status = verified; completed_at = some at }

module _ (env : Environment) (s : Service) where
  -- The flow was open, in time at a clock read after `begin` and met by its code; the database has
  -- gained its user, verified, a session of that user under the hash of the returned token, and
  -- nothing else. The rows are dated at `begin`, when the transaction starts.
  pub record Verified (token code : String) (metadata : SessionMetadata) (id : Uuid) (begin : Time)
      (start : Db) (result : AuthResult) (end_at : Time) (db : Db) : Type 0 where
    pub row : PendingRegistration
    pub clock : Time
    pub session_at : Time
    pub owner : Uuid
    pub session_clock : Time
    pub begun : begin ≤ clock
    pub between : clock ≤ session_clock
    pub ended : session_clock ≤ end_at
    pub dated : session_at ≡ begin
    pub found : first (λ r. r.id == id) start.pending_registrations ≡ some row
    pub may : MayVerify row clock
    pub right : code_is_right env s code row ≡ true
    pub free : email_is_taken (some row.email) start.users ≡ false
    pub owner_id : env.parse_uuid (env.print_uuid start.next_id) ≡ some owner
    pub unused :
        ltb 0 (count_where (has_token (hash_session_token env token)) start.sessions) ≡ false
    pub later : ltb session_at (session_clock + s.session_ttl) ≡ true
    pub after : db ≡ record start {
      users = start.users ++ (new_user start.next_id begin (some begin) (account_of row) ∷ []);
      sessions =
          start.sessions
          ++ (new_session
                (suc start.next_id)
                session_at
                (session_params env s token metadata owner session_clock)
              ∷ []);
      pending_registrations = with_verified row.id begin start.pending_registrations;
      next_id = suc (suc start.next_id);
    }
    pub answer : result ≡ record {
      user = user_of env (new_user start.next_id begin (some begin) (account_of row));
      session = record { access_token = token; expires_at = session_clock + s.session_ttl };
    }
