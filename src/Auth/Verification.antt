-- ===== src/Auth/Verification.antt =====
-- The code of a registration is verified, or sent again (internal/auth/register_verification.go,
-- register_verification_support.go).
use kartochki_online_backend.Prelude.{ℕ, ◌+◌, Bool, String, some, str_eq, ltb, leb, if◌then◌else◌}
use kartochki_online_backend.Prelude.Text.{trim_space}
use kartochki_online_backend.Calendar.{Time}
use kartochki_online_backend.Provider.{Uuid}
use kartochki_online_backend.Environment.{Environment}
use kartochki_online_backend.Database.{
  SqlError, unique_violation, PendingRegistration, pending, verified, expired, blocked, Query,
}
use kartochki_online_backend.Database as Db
use kartochki_online_backend.Database.Users.{create_verified_user}
use kartochki_online_backend.Database.Registrations.{
  ResendPendingRegistrationCodeParams, block_pending_registration, complete_pending_registration,
  expire_pending_registration, get_pending_registration_for_update,
  increment_pending_registration_attempt, resend_pending_registration_code,
}
use kartochki_online_backend.World.{
  M, pure, fail, ◌>>=◌, ◌>>◌, reject_if, require, missing_or, expect, time_now, Ending, commit,
  transaction,
}
use kartochki_online_backend.Auth.Types.{
  Error, email_already_exists, verification_not_found, verification_code_invalid,
  verification_code_expired, verification_attempts_exceeded, registration_resend_too_early,
  registration_resend_limit_exceeded, verification_already_completed, wrapped, Service,
  SessionMetadata, AuthResult, RegisterResult, VerifyRegistrationInput, hash_session_token,
  generate_verification_code,
}
use kartochki_online_backend.Auth.Sessions.{create_session_for_user, user_of}
use kartochki_online_backend.Auth.Registration.{
  registration_max_verify_attempts, registration_max_resends, registration_verification_ttl,
  registration_resend_cooldown, send_registration_verification_email, build_register_result,
}

-- A statement that closes the flow, then the error.
unfoldable pub close_with : {A : Type 0} → String → Query ℕ → Error → M Error A
close_with text q e = do expect (λ _. wrapped text) q; fail e

abbrev pub check_attempts : PendingRegistration → M Error (Unit {0})
check_attempts row =
    if leb registration_max_verify_attempts row.attempt_count
    then close_with "block pending registration after attempts check"
        (block_pending_registration row.id) verification_attempts_exceeded
    else pure tt

unfoldable pub validate_pending_registration_for_verification :
    PendingRegistration → Time → M Error (Unit {0})
unfolding close_with
validate_pending_registration_for_verification row now = elim row.status [
  | verified ↦ fail verification_already_completed
  | expired ↦ fail verification_code_expired
  | blocked ↦ fail verification_attempts_exceeded
  | pending ↦
      if ltb row.verification_expires_at now
      then close_with "expire pending registration after ttl" (expire_pending_registration row.id)
          verification_code_expired
      else check_attempts row
]

unfoldable pub validate_pending_registration_for_resend :
    PendingRegistration → Time → M Error (Unit {0})
unfolding close_with
validate_pending_registration_for_resend row now = elim row.status [
  | verified ↦ fail verification_already_completed
  | expired ↦ fail verification_code_expired
  | blocked ↦ fail verification_code_expired
  | pending ↦
      if ltb row.verification_expires_at now
      then close_with "expire pending registration before resend"
          (expire_pending_registration row.id) verification_code_expired
      else pure tt
]

abbrev pub user_error : SqlError → Error
user_error unique_violation = email_already_exists
user_error _ = wrapped "create verified user"

-- The rest of a verification with a wrong code.
unfoldable pub refuse_code : {A : Type 0} → Uuid → M Error A
unfolding close_with
refuse_code id = do
  attempts ←
      expect (λ _. wrapped "increment verification attempts")
        (increment_pending_registration_attempt id)
  if leb registration_max_verify_attempts attempts
      then close_with "block pending registration" (block_pending_registration id)
          verification_attempts_exceeded
      else fail verification_code_invalid

unfoldable pub find_flow : String → Uuid → M Error PendingRegistration
find_flow text id =
    expect (missing_or verification_not_found (wrapped text))
      (get_pending_registration_for_update id)

module _ (env : Environment) (s : Service) where
  unfoldable pub open_account :
      String → SessionMetadata → PendingRegistration → Db.User → M Error (Ending AuthResult)
  unfolding create_session_for_user
  open_account token metadata row user = do
    result ← create_session_for_user env s token (user_of env user) metadata
    expect (λ _. wrapped "complete pending registration") (complete_pending_registration row.id)
    pure (commit result)

  unfoldable pub accept_code :
      String → SessionMetadata → PendingRegistration → M Error (Ending AuthResult)
  unfolding open_account
  accept_code token metadata row =
      expect user_error (
        create_verified_user (record {
          email = some row.email;
          password_hash = some row.password_hash;
          name = row.name;
        }))
      >>= open_account token metadata row

  abbrev pub code_is_right : String → PendingRegistration → Bool
  code_is_right code row =
      str_eq (hash_session_token env (trim_space code)) row.verification_code_hash

  unfoldable pub verify_flow :
      String → String → SessionMetadata → PendingRegistration → M Error (Ending AuthResult)
  unfolding validate_pending_registration_for_verification refuse_code accept_code
  verify_flow token code metadata row = do
    now ← time_now
    validate_pending_registration_for_verification row now
    if code_is_right code row then accept_code token metadata row else refuse_code row.id

  unfoldable pub verify_body :
      String → String → SessionMetadata → Uuid → M Error (Ending AuthResult)
  unfolding find_flow verify_flow
  verify_body token code metadata id =
      find_flow "get pending registration for verify" id >>= verify_flow token code metadata

  unfoldable pub verify_registration :
      String → VerifyRegistrationInput → SessionMetadata → M Error AuthResult
  unfolding verify_body
  verify_registration token input metadata = do
    id ← require (env.parse_uuid (trim_space input.verification_id)) verification_not_found
    transaction (wrapped "begin verify registration tx") (wrapped "commit verify registration tx")
        (verify_body token input.code metadata id)

  abbrev resend_of : PendingRegistration → String → Time → ResendPendingRegistrationCodeParams
  resend_of row hash now = record {
    id = row.id;
    verification_code_hash = hash;
    verification_expires_at = now + registration_verification_ttl;
    resend_available_at = now + registration_resend_cooldown;
    resend_count = row.resend_count + 1;
    last_email_sent_at = now;
  }

  unfoldable pub send_new_code :
      (ℕ → ℕ) → PendingRegistration → Time → M Error (Ending RegisterResult)
  unfolding send_registration_verification_email build_register_result generate_verification_code
  send_new_code draw row now = do
    code ← generate_verification_code env draw
    updated ←
        expect (λ _. wrapped "resend pending registration code")
          (resend_pending_registration_code (resend_of row code.1 now))
    send_registration_verification_email env s updated.email updated.id code.0
    pure (commit (build_register_result env s updated now))

  unfoldable pub resend_flow : (ℕ → ℕ) → PendingRegistration → M Error (Ending RegisterResult)
  unfolding validate_pending_registration_for_resend close_with send_new_code
  resend_flow draw row = do
    now ← time_now
    validate_pending_registration_for_resend row now
    reject_if (ltb now row.resend_available_at) registration_resend_too_early
    if leb registration_max_resends row.resend_count
        then close_with "expire pending registration after resend limit"
            (expire_pending_registration row.id) registration_resend_limit_exceeded
        else send_new_code draw row now

  unfoldable pub resend_body : (ℕ → ℕ) → Uuid → M Error (Ending RegisterResult)
  unfolding find_flow resend_flow
  resend_body draw id = find_flow "get pending registration for resend" id >>= resend_flow draw

  -- The input is the id of the flow.
  unfoldable pub resend_registration_code : (ℕ → ℕ) → String → M Error RegisterResult
  unfolding resend_body
  resend_registration_code draw verification_id = do
    id ← require (env.parse_uuid (trim_space verification_id)) verification_not_found
    transaction (wrapped "begin resend registration tx") (wrapped "commit resend verification tx")
        (resend_body draw id)
