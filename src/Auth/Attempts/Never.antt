-- ===== src/Auth/Attempts/Never.antt =====
-- The limit on attempts is never reached (internal/auth/register_verification.go).
use kartochki_online_backend.Prelude.{
  ℕ, ◌≡◌, ◌≢◌, subst, true, inl, inr, Option-cases, String, List, ◌==◌, leb, ltb, first, All-first,
  arith, if◌then◌else◌,
}
use kartochki_online_backend.Calendar.{Time}
use kartochki_online_backend.Provider.{Uuid}
use kartochki_online_backend.Environment.{Environment}
use kartochki_online_backend.Database.{
  Db, PendingRegistration, FlowStatus, pending, verified, expired, blocked, SqlError, no_rows,
  unique_violation, check_violation, foreign_key_violation, out_of_range, broken, Query,
}
use kartochki_online_backend.Database.Registrations.{
  expire_pending_registration, increment_pending_registration_attempt,
}
use kartochki_online_backend.World.{World, Result, ok, err, fail, missing_or, expect}
use kartochki_online_backend.World.Keeps.{Keeps-time_now, Keeps-require}
use kartochki_online_backend.World.Yields.{Yields, Yields-of_Keeps, Yields-expect, Yields-unit}
use kartochki_online_backend.World.Rejects.{
  Rejects, ErrPost, Rejects-bind, Rejects-may_fail, Rejects-time_now, Rejects-expect, Rejects-pure,
  Rejects-fail, Rejects-require, Rejects-transaction, Rejects-if, Rejects-given, Rejects-weaken,
}
use kartochki_online_backend.Auth.Types.{
  Error, verification_not_found, verification_code_expired, verification_attempts_exceeded,
  verification_already_completed, wrapped, Service, SessionMetadata, User, VerifyRegistrationInput,
  generate_session_token,
}
use kartochki_online_backend.Auth.Sessions.{create_session_for_user}
use kartochki_online_backend.Auth.Registration.{registration_max_verify_attempts}
use kartochki_online_backend.Auth.Verification.{
  close_with, check_attempts, validate_pending_registration_for_verification, refuse_code,
  find_flow, accept_code, open_account, verify_flow, verify_body, verify_registration,
  code_is_right, user_error,
}
use kartochki_online_backend.Auth.Calls.{Call, after_calls}
use kartochki_online_backend.Auth.Attempts.{IsOpenOrVerified, IsUntried, RegistrationsUntried}
use kartochki_online_backend.Auth.Attempts.Checked.{
  Found, find_flow-Yields, validate_for_verification-Yields,
}
use kartochki_online_backend.Auth.Attempts.Others.{after_calls-RegistrationsUntried}

-- Every error but `verification_attempts_exceeded`.
abbrev IsOther : Error → Type 0
IsOther verification_attempts_exceeded = ⊥
IsOther _ = Unit

close_with-Rejects :
    {A : Type 0} (P : Db → Type 0) (text : String) (q : Query ℕ) (e : Error)
    → IsOther e
    → Rejects P (close_with {A = A} text q e) IsOther
unfolding close_with
close_with-Rejects P text q e r =
    Rejects-bind (λ _ _. Unit {0}) (Yields-unit _) (Rejects-expect _ _ λ _. tt) λ _. Rejects-fail r

missing-IsOther :
    (text : String) (e : SqlError) → IsOther (missing_or verification_not_found (wrapped text) e)
missing-IsOther text no_rows = tt
missing-IsOther text unique_violation = tt
missing-IsOther text check_violation = tt
missing-IsOther text foreign_key_violation = tt
missing-IsOther text out_of_range = tt
missing-IsOther text broken = tt

find_flow-Rejects :
    (text : String) (id : Uuid) → Rejects RegistrationsUntried (find_flow text id) IsOther
unfolding find_flow
find_flow-Rejects text id = Rejects-expect _ _ (missing-IsOther text)

user_error-IsOther : (e : SqlError) → IsOther (user_error e)
user_error-IsOther no_rows = tt
user_error-IsOther unique_violation = tt
user_error-IsOther check_violation = tt
user_error-IsOther foreign_key_violation = tt
user_error-IsOther out_of_range = tt
user_error-IsOther broken = tt

-- The first wrong code is counted as one.
increment-first :
    (wrap : SqlError → Error) (id : Uuid)
    → Yields RegistrationsUntried
        (expect wrap (increment_pending_registration_attempt id))
        (λ n db. n ≡ 1)
unfolding increment_pending_registration_attempt
increment-first wrap id =
    Yields-expect wrap _ (λ n db. n ≡ 1)
      λ now db p. elim (Option-cases (first (λ r. r.id == id) db.pending_registrations)) [
        | inl missing ↦ rw missing tt
        | inr (row, there) ↦
            let good = All-first IsUntried (λ r. r.id == id) db.pending_registrations row p there in
            rw there (omega arith)
      ]

-- One attempt is below the limit.
below_limit : (n : ℕ) → n ≡ 1 → leb registration_max_verify_attempts n ≡ true → ⊥
below_limit n e many = ground arith

below_limit_none : (n : ℕ) → n ≡ 0 → leb registration_max_verify_attempts n ≡ true → ⊥
below_limit_none n e many = ground arith

refuse_code-Rejects :
    {A : Type 0} (id : Uuid) → Rejects RegistrationsUntried (refuse_code {A = A} id) IsOther
unfolding refuse_code
refuse_code-Rejects id =
    Rejects-bind (λ n db. n ≡ 1) (increment-first _ id) (Rejects-expect _ _ λ _. tt)
      λ n.
        Rejects-weaken
          (Rejects-given {P = λ _. Unit {0}} λ one_attempt.
            Rejects-if _ (λ many. absurd (below_limit n one_attempt many)) (λ _. Rejects-fail tt))
          (λ db e. (tt, e))

module _ (row : PendingRegistration) (now : Time) (good : IsUntried row) where
  attempts-Rejects : Rejects RegistrationsUntried (check_attempts row) IsOther
  attempts-Rejects =
      Rejects-if _ (λ many. absurd (below_limit_none row.attempt_count good.0 many))
        λ _. Rejects-pure

  validate-Rejects :
      Rejects RegistrationsUntried (validate_pending_registration_for_verification row now) IsOther
  unfolding validate_pending_registration_for_verification
  validate-Rejects = by_status row.status good.3
    where
      by_status :
          (status : FlowStatus)
          → IsOpenOrVerified status
          → Rejects RegistrationsUntried
              (elim status [
                | verified ↦ fail verification_already_completed
                | expired ↦ fail verification_code_expired
                | blocked ↦ fail verification_attempts_exceeded
                | pending ↦
                    if ltb row.verification_expires_at now
                    then close_with "expire pending registration after ttl"
                        (expire_pending_registration row.id)
                        verification_code_expired
                    else check_attempts row
              ])
              IsOther
      by_status verified h = Rejects-fail tt
      by_status expired h = elim h [ ]
      by_status blocked h = elim h [ ]
      by_status pending h =
          Rejects-if (ltb row.verification_expires_at now)
            (λ _. close_with-Rejects RegistrationsUntried _ _ _ tt) (λ _. attempts-Rejects)

module _ (env : Environment) (s : Service) where
  session-Rejects :
      {P : Db → Type 0} (token : String) (user : User) (metadata : SessionMetadata)
      → Rejects P (create_session_for_user env s token user metadata) IsOther
  unfolding create_session_for_user generate_session_token
  session-Rejects token user metadata =
      Rejects-bind (λ _ _. Unit {0}) (Yields-unit _)
        (Rejects-bind (λ _ _. Unit {0}) (Yields-unit _) (Rejects-may_fail _ tt) λ _. Rejects-pure)
        λ access.
          Rejects-bind (λ _ _. Unit {0}) (Yields-unit _) Rejects-time_now
            λ now.
              Rejects-bind (λ _ _. Unit {0}) (Yields-unit _) (Rejects-require _ _ tt)
                λ id.
                  Rejects-bind (λ _ _. Unit {0}) (Yields-unit _) (Rejects-expect _ _ λ _. tt)
                    λ _. Rejects-pure

  accept_code-Rejects :
      {P : Db → Type 0} (token : String) (metadata : SessionMetadata) (row : PendingRegistration)
      → Rejects P (accept_code env s token metadata row) IsOther
  unfolding accept_code open_account
  accept_code-Rejects token metadata row =
      Rejects-bind (λ _ _. Unit {0}) (Yields-unit _) (Rejects-expect _ _ user_error-IsOther)
        λ user.
          Rejects-bind (λ _ _. Unit {0}) (Yields-unit _) (session-Rejects token _ metadata)
            λ result.
              Rejects-bind (λ _ _. Unit {0}) (Yields-unit _) (Rejects-expect _ _ λ _. tt)
                λ n. Rejects-pure

  verify_flow-Rejects :
      (token code : String) (metadata : SessionMetadata) (row : PendingRegistration)
      → IsUntried row
      → Rejects RegistrationsUntried (verify_flow env s token code metadata row) IsOther
  unfolding verify_flow
  verify_flow-Rejects token code metadata row good =
      Rejects-bind (λ _. RegistrationsUntried) (Yields-of_Keeps Keeps-time_now) Rejects-time_now
        λ now.
          Rejects-bind (λ _. RegistrationsUntried) (validate_for_verification-Yields row now)
            (validate-Rejects row now good)
            λ _.
              Rejects-if (code_is_right env s code row)
                (λ _. accept_code-Rejects token metadata row) (λ _. refuse_code-Rejects row.id)

  verify_registration-Rejects :
      (token : String) (input : VerifyRegistrationInput) (metadata : SessionMetadata)
      → Rejects RegistrationsUntried (verify_registration env s token input metadata) IsOther
  unfolding verify_registration verify_body
  verify_registration-Rejects token input metadata =
      Rejects-bind (λ _. RegistrationsUntried) (Yields-of_Keeps (Keeps-require _ _))
        (Rejects-require _ _ tt)
        λ id. Rejects-transaction _ _ tt tt (
          Rejects-bind Found (find_flow-Yields _ id) (find_flow-Rejects _ id)
            λ row. Rejects-given λ good. verify_flow-Rejects token input.code metadata row good)

other-ne :
    {A : Type 0} (r : Result Error A × World)
    → ErrPost IsOther r
    → r.0 ≢ err verification_attempts_exceeded
other-ne (ok a, w) h e = ground arith
other-ne (err x, w) h e =
    let same : x ≡ verification_attempts_exceeded = ground arith in subst IsOther same h

-- From a database whose registrations all have no attempt counted, are open or verified and had
-- one to five codes sent, no verification after any sequence of account calls, with faults
-- anywhere, is refused because the attempts are used up.
pub verify_registration-never_exceeded :
    (env : Environment) (s : Service) (calls : List Call) (token : String)
    (input : VerifyRegistrationInput) (metadata : SessionMetadata) (w : World)
    → RegistrationsUntried w.db
    → (verify_registration env s token input metadata (after_calls env s calls w)).0
      ≢ err verification_attempts_exceeded
verify_registration-never_exceeded env s calls token input metadata w p =
    other-ne (verify_registration env s token input metadata (after_calls env s calls w)) (
      (verify_registration-Rejects env s token input metadata).rejects (after_calls env s calls w)
        (after_calls-RegistrationsUntried env s calls w p))
