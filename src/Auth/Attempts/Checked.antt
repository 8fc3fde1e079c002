-- ===== src/Auth/Attempts/Checked.antt =====
-- A verification and a new code keep the table as it is described by `RegistrationsUntried`
-- (internal/auth/register_verification.go).
use kartochki_online_backend.Prelude.{
  ℕ, ◌≡◌, false, inl, inr, Bool-cases, String, ltb, leb, ◌==◌, All-first, arith, if◌then◌else◌,
  first, Option-cases,
}
use kartochki_online_backend.Calendar.{Time}
use kartochki_online_backend.Provider.{Uuid}
use kartochki_online_backend.Environment.{Environment}
use kartochki_online_backend.Database.{
  Db, PendingRegistration, FlowStatus, pending, verified, expired, blocked,
}
use kartochki_online_backend.Database.Registrations.{
  expire_pending_registration, get_pending_registration_for_update,
  resend_pending_registration_code,
}
use kartochki_online_backend.World.{pure, fail, Ending}
use kartochki_online_backend.World.Keeps.{
  Keeps, Keeps-bind, Keeps-expect, Keeps-pure, Keeps-time_now, Keeps-require, Keeps-reject_if,
  Keeps-may_fail,
}
use kartochki_online_backend.World.Yields.{
  Yields, EndingPost, Yields-bind, Yields-of_Keeps, Yields-fail, Yields-weaken, Yields-expect,
  Yields-if, Yields-pure, Yields-given, Ends-of_Keeps, Keeps-transaction,
}
use kartochki_online_backend.Auth.Types.{
  verification_already_completed, verification_code_expired, verification_attempts_exceeded,
  Service, SessionMetadata, User, VerifyRegistrationInput, generate_session_token,
}
use kartochki_online_backend.Auth.Sessions.{create_session_for_user}
use kartochki_online_backend.Auth.Verification.{
  close_with, validate_pending_registration_for_verification,
  validate_pending_registration_for_resend, refuse_code, find_flow, accept_code, open_account,
  verify_flow, verify_body, verify_registration, send_new_code, resend_flow, resend_body,
  resend_registration_code, code_is_right, check_attempts,
}
use kartochki_online_backend.Auth.Attempts.{
  IsUntried, RegistrationsUntried, create_session-Keeps, create_verified_user-Keeps,
  update_returning-Keeps, complete_pending_registration-Keeps, close_with-Yields,
}
use kartochki_online_backend.Auth.Attempts.Kept.{send-Keeps, code-Keeps}

-- The flow that is found.
abbrev pub Found : PendingRegistration → Db → Type 0
Found row db = RegistrationsUntried db × IsUntried row

pub find_flow-Yields :
    (text : String) (id : Uuid) → Yields RegistrationsUntried (find_flow text id) Found
unfolding find_flow get_pending_registration_for_update
find_flow-Yields text id = Yields-expect _ _ Found λ now db p.
    elim (Option-cases (first (λ r. r.id == id) db.pending_registrations)) [
      | inl missing ↦ rw missing tt
      | inr (row, there) ↦ rw there (p, All-first IsUntried _ db.pending_registrations row p there)
    ]

module _ (row : PendingRegistration) (now : Time) where
  attempts : Yields RegistrationsUntried (check_attempts row) (λ _. RegistrationsUntried)
  attempts = Yields-if _ (close_with-Yields _ _ _ _ _) (Yields-pure λ db p. p)

  pub validate_for_verification-Yields :
      Yields RegistrationsUntried
        (validate_pending_registration_for_verification row now)
        (λ _. RegistrationsUntried)
  unfolding validate_pending_registration_for_verification
  validate_for_verification-Yields = by_status row.status
    where
      by_status :
          (status : FlowStatus)
          → Yields RegistrationsUntried
              (elim status [
                | verified ↦ fail verification_already_completed
                | expired ↦ fail verification_code_expired
                | blocked ↦ fail verification_attempts_exceeded
                | pending ↦
                    if ltb row.verification_expires_at now
                    then close_with "expire pending registration after ttl"
                        (expire_pending_registration row.id)
                        verification_code_expired
                    else check_attempts row
              ])
              (λ _. RegistrationsUntried)
      by_status verified = Yields-fail
      by_status expired = Yields-fail
      by_status blocked = Yields-fail
      by_status pending =
          Yields-if (ltb row.verification_expires_at now) (close_with-Yields _ _ _ _ _) attempts

  pub validate_for_resend-Yields :
      Yields (Found row) (validate_pending_registration_for_resend row now) (λ _. Found row)
  unfolding validate_pending_registration_for_resend
  validate_for_resend-Yields = by_status row.status
    where
      by_status :
          (status : FlowStatus)
          → Yields
              (Found row)
              (elim status [
                | verified ↦ fail verification_already_completed
                | expired ↦ fail verification_code_expired
                | blocked ↦ fail verification_code_expired
                | pending ↦
                    if ltb row.verification_expires_at now
                    then close_with "expire pending registration before resend"
                        (expire_pending_registration row.id)
                        verification_code_expired
                    else pure tt
              ])
              (λ _. Found row)
      by_status verified = Yields-fail
      by_status expired = Yields-fail
      by_status blocked = Yields-fail
      by_status pending = Yields-if _ (close_with-Yields _ _ _ _ _) (Yields-pure λ db p. p)

-- A wrong code ends in an error.
pub refuse_code-Yields :
    {A : Type 0} (P : Db → Type 0) (Q : A → Db → Type 0) (id : Uuid) → Yields P (refuse_code id) Q
unfolding refuse_code
refuse_code-Yields P Q id =
    Yields-weaken {P' = λ _. Unit {0}}
      (Yields-bind (λ _ _. Unit {0}) (Yields-of_Keeps (record { keeps = λ w p. tt }))
        λ n. Yields-if _ (close_with-Yields _ Q _ _ _) Yields-fail)
      (λ db p. tt) (λ a db q. q)

abbrev Ends : {A : Type 0} → Ending A → Db → Type 0
Ends = EndingPost RegistrationsUntried

module _ (env : Environment) (s : Service) where
  pub session-Keeps :
      (token : String) (user : User) (metadata : SessionMetadata)
      → Keeps RegistrationsUntried (create_session_for_user env s token user metadata)
  unfolding create_session_for_user generate_session_token
  session-Keeps token user metadata =
      Keeps-bind (Keeps-bind (Keeps-may_fail _) λ _. Keeps-pure) λ access.
        Keeps-bind Keeps-time_now λ now.
          Keeps-bind (Keeps-require _ _)
            λ id. Keeps-bind (Keeps-expect _ _ (create_session-Keeps _)) λ _. Keeps-pure

  accept_code-Yields :
      (token : String) (metadata : SessionMetadata) (row : PendingRegistration)
      → Yields RegistrationsUntried (accept_code env s token metadata row) Ends
  unfolding accept_code open_account
  accept_code-Yields token metadata row =
      Yields-bind (λ _. RegistrationsUntried)
        (Yields-of_Keeps (Keeps-expect _ _ (create_verified_user-Keeps _)))
        λ user.
          Yields-bind (λ _. RegistrationsUntried) (Yields-of_Keeps (session-Keeps token _ metadata))
            λ result.
              Yields-bind (λ _. RegistrationsUntried)
                (Yields-of_Keeps (Keeps-expect _ _ (complete_pending_registration-Keeps row.id)))
                λ n. Yields-pure λ db p. p

  verify_flow-Yields :
      (token code : String) (metadata : SessionMetadata) (row : PendingRegistration)
      → Yields RegistrationsUntried (verify_flow env s token code metadata row) Ends
  unfolding verify_flow
  verify_flow-Yields token code metadata row =
      Yields-bind (λ _. RegistrationsUntried) (Yields-of_Keeps Keeps-time_now)
        λ now.
          Yields-bind (λ _. RegistrationsUntried) (validate_for_verification-Yields row now)
            λ _.
              Yields-if (code_is_right env s code row) (accept_code-Yields token metadata row)
                (refuse_code-Yields _ _ row.id)

  pub verify_registration-Keeps :
      (token : String) (input : VerifyRegistrationInput) (metadata : SessionMetadata)
      → Keeps RegistrationsUntried (verify_registration env s token input metadata)
  unfolding verify_registration verify_body
  verify_registration-Keeps token input metadata = Keeps-bind (Keeps-require _ _) λ id.
      Keeps-transaction _ _ (
        Yields-bind Found (find_flow-Yields _ id) λ row.
          Yields-weaken (verify_flow-Yields token input.code metadata row) (λ db p. p.0)
            λ a db q. q)

  send_new_code-Keeps :
      (draw : ℕ → ℕ) (row : PendingRegistration) (now : Time)
      → IsUntried row
      → leb 5 row.resend_count ≡ false
      → Keeps RegistrationsUntried (send_new_code env s draw row now)
  unfolding send_new_code resend_pending_registration_code
  send_new_code-Keeps draw row now good few = Keeps-bind (code-Keeps env s draw) λ code.
      Keeps-bind
        (Keeps-expect _ _
          (update_returning-Keeps _ row.id λ r h. (omega arith, ground arith, ground arith, tt)))
        λ updated. Keeps-bind (send-Keeps env s _ _ _) λ _. Keeps-pure

  resend_flow-Yields :
      (draw : ℕ → ℕ) (row : PendingRegistration)
      → Yields (Found row) (resend_flow env s draw row) Ends
  unfolding resend_flow
  resend_flow-Yields draw row =
      Yields-bind (λ _. Found row) (Yields-of_Keeps Keeps-time_now)
        λ now.
          Yields-bind (λ _. Found row) (validate_for_resend-Yields row now)
            λ _.
              Yields-bind (λ _. Found row) (Yields-of_Keeps (Keeps-reject_if _ _))
                λ _. elim (Bool-cases (leb 5 row.resend_count)) [
                  | inl many ↦ rw many (close_with-Yields _ _ _ _ _)
                  | inr few ↦ rw few (
                      Yields-given
                        λ good. Ends-of_Keeps (send_new_code-Keeps draw row now good few))
                ]

  pub resend_registration_code-Keeps :
      (draw : ℕ → ℕ) (id : String)
      → Keeps RegistrationsUntried (resend_registration_code env s draw id)
  unfolding resend_registration_code resend_body
  resend_registration_code-Keeps draw id = Keeps-bind (Keeps-require _ _) λ id.
      Keeps-transaction _ _ (Yields-bind Found (find_flow-Yields _ id) (resend_flow-Yields draw))
