-- ===== src/Scenarios/Accounts.antt =====
-- The theorems on accounts at concrete data.
use kartochki_online_backend.Prelude.{
  ◌+◌, ◌≡◌, ◌≢◌, refl, String, Option, none, some, [], ◌∷◌, str_eq, ◌==◌, if◌then◌else◌, arith,
  true,
}
use kartochki_online_backend.Prelude.Text.{trim_space, byte_len}
use kartochki_online_backend.Calendar.{hour}
use kartochki_online_backend.Provider.{Uuid}
use kartochki_online_backend.Environment.{Environment}
use kartochki_online_backend.Database.{PendingRegistration, pending}
use kartochki_online_backend.Database.Users.{create_verified_user, update_user_password}
use kartochki_online_backend.Database.Registrations.{
  get_pending_registration_for_update, increment_pending_registration_attempt,
  complete_pending_registration,
}
use kartochki_online_backend.Database.Sessions.{
  create_session, get_valid_password_reset_token, revoke_all_user_sessions,
  mark_password_reset_token_used,
}
use kartochki_online_backend.World.{World, ok, err, time_now, may_fail, expect, transaction, ◌>>=◌}
use kartochki_online_backend.Auth.Types.{
  AuthResult, Service, SessionMetadata, VerifyRegistrationInput, verification_code_invalid,
  verification_attempts_exceeded, hash_session_token, hash_password, generate_session_token,
}
use kartochki_online_backend.Auth.Sessions.{create_session_for_user, authenticate}
use kartochki_online_backend.Auth.Sessions.Store.{live_owner}
use kartochki_online_backend.Auth.Sessions.Refined.{Refined}
use kartochki_online_backend.Auth.Sessions.Refines.{
  Outcome, Explains, replay, run-refines, after_calls-refines,
}
use kartochki_online_backend.Auth.Sessions.Authenticate.{answer, authenticate-answers}
use kartochki_online_backend.Auth.Verification.{
  validate_pending_registration_for_verification, refuse_code, find_flow, open_account, accept_code,
  verify_flow, verify_body, verify_registration,
}
use kartochki_online_backend.Auth.Verified.Leaves.{Left}
use kartochki_online_backend.Auth.Verified.Leaves.{verify_registration-Verified}
use kartochki_online_backend.Auth.Passwords.{reset_password, reset_body}
use kartochki_online_backend.Auth.Passwords.Reset.{PasswordSet, reset_password-resets}
use kartochki_online_backend.Auth.Calls.{verifies, resends, logs_out, run, after_calls}
use kartochki_online_backend.Auth.Atomic.{run-error_changes_nothing}
use kartochki_online_backend.Auth.Attempts.{RegistrationsUntried}
use kartochki_online_backend.Auth.Attempts.Others.{after_calls-RegistrationsUntried}
use kartochki_online_backend.Auth.Attempts.Never.{verify_registration-never_exceeded}
use kartochki_online_backend.Scenarios.Shop.{environment, world, noon}

abbrev uuid_of : String → Option Uuid
uuid_of s = if str_eq s "anna" then some 1 else if str_eq s "new" then some 100 else none

abbrev env : Environment
env = record environment {
  parse_uuid = uuid_of;
  print_uuid = λ id. if id == 1 then "anna" else "new";
}

abbrev service : Service
service = record {
  session_ttl = hour;
  password_min_length = 8;
  password_reset_token_ttl = hour;
  email_enqueuer = true;
}

abbrev browser : SessionMetadata
browser = record { user_agent = "browser"; ip_address = "" }

abbrev flow : PendingRegistration
flow = record {
  id = 1;
  email = "clara@example.com";
  name = "Clara";
  password_hash = "secret-hash";
  verification_code_hash = "123456";
  verification_expires_at = 63845712600000000000;
  resend_available_at = noon;
  attempt_count = 0;
  resend_count = 1;
  status = pending;
  last_email_sent_at = noon;
  created_ip_address = "";
  created_at = noon;
  completed_at = none;
}

-- Clara is about to confirm; Anna has a session and asked for a new password.
abbrev site : World
site = record world {
  db = record world.db {
    pending_registrations = flow ∷ [];
    sessions =
        record {
          id = 60;
          user_id = 1;
          token_hash = "anna-token";
          expires_at = 63845712600000000000;
          revoked_at = none;
          created_at = 1;
          user_agent = "";
          ip_address = "";
        }
        ∷ [];
    password_reset_tokens =
        record {
          id = 61;
          user_id = 1;
          token_hash = "link";
          expires_at = 63845712600000000000;
          used_at = none;
          created_at = 1;
        }
        ∷ [];
  };
}

abbrev confirm : String → VerifyRegistrationInput
confirm code = record { verification_id = "anna"; code = code }

refused :
    (run env service (verifies "token" (confirm "000000") browser) site).0
    ≡ err verification_code_invalid
unfolding run verify_registration trim_space find_flow get_pending_registration_for_update
    verify_flow verify_body validate_pending_registration_for_verification refuse_code
    increment_pending_registration_attempt time_now may_fail expect transaction ◌>>=◌
    hash_session_token
refused = refl

run-error_changes_nothing_example :
    (run env service (verifies "token" (confirm "000000") browser) site).1.db ≡ site.db
run-error_changes_nothing_example =
    run-error_changes_nothing env service (verifies "token" (confirm "000000") browser) site
      verification_code_invalid refused

after_calls-RegistrationsUntried_example :
    RegistrationsUntried
      (after_calls env service
        (verifies "token" (confirm "000000") browser ∷ resends (λ i. i) "anna" ∷ [])
        site).db
after_calls-RegistrationsUntried_example =
    after_calls-RegistrationsUntried env service
      (verifies "token" (confirm "000000") browser ∷ resends (λ i. i) "anna" ∷ []) site
      ((omega arith, omega arith, omega arith, tt), tt)

verify_registration-never_exceeded_example :
    (verify_registration env service "token"
      (confirm "000001")
      browser
      (after_calls env service (verifies "token" (confirm "000000") browser ∷ []) site)).0
    ≢ err verification_attempts_exceeded
verify_registration-never_exceeded_example =
    verify_registration-never_exceeded env service
      (verifies "token" (confirm "000000") browser ∷ []) "token" (confirm "000001") browser site
      ((omega arith, omega arith, omega arith, tt), tt)

abbrev welcome : AuthResult
welcome = record {
  user = record { id = "new"; name = "Clara"; email = "clara@example.com"; avatar_url = "" };
  session = record { access_token = "token"; expires_at = noon + 5 + hour };
}

confirmed : (verify_registration env service "token" (confirm "123456") browser site).0 ≡ ok welcome
unfolding verify_registration trim_space find_flow get_pending_registration_for_update verify_flow
    verify_body validate_pending_registration_for_verification accept_code open_account
    create_session_for_user generate_session_token create_verified_user create_session
    complete_pending_registration time_now may_fail expect transaction ◌>>=◌ hash_session_token
confirmed = refl

verify_registration-Verified_example :
    Left env service "token"
      (confirm "123456")
      browser
      site.clock
      site.db
      welcome
      (verify_registration env service "token" (confirm "123456") browser site).1.clock
      (verify_registration env service "token" (confirm "123456") browser site).1.db
verify_registration-Verified_example =
    verify_registration-Verified env service "token" (confirm "123456") browser site welcome
      confirmed

was_reset : (reset_password env service "salt" "link" "new password" site).0 ≡ ok tt
unfolding reset_password reset_body byte_len hash_session_token hash_password
    get_valid_password_reset_token update_user_password revoke_all_user_sessions
    mark_password_reset_token_used may_fail expect transaction ◌>>=◌
was_reset = refl

reset_password-resets_example :
    PasswordSet env service "salt" "link" "new password" site.clock site.db
      (reset_password env service "salt" "link" "new password" site).1.db
reset_password-resets_example =
    reset_password-resets env service "salt" "link" "new password" site was_reset

run-refines_example :
    (change : _) × (Outcome env service noon
        (logs_out "anna-token")
        site
        (run env service (logs_out "anna-token") site)
        change
      × Refined noon site.db change (run env service (logs_out "anna-token") site).1.db)
run-refines_example = run-refines env service noon (logs_out "anna-token") site tt (refl, tt)

after_calls-refines_example :
    (changes : _) × (Explains env service noon
        (verifies "token" (confirm "123456") browser ∷ logs_out "anna-token" ∷ [])
        site
        changes
      × (live_owner noon
            (after_calls env service
              (verifies "token" (confirm "123456") browser ∷ logs_out "anna-token" ∷ [])
              site).db
          ≡ replay env service noon changes (live_owner noon site.db)))
after_calls-refines_example =
    after_calls-refines env service noon
      (verifies "token" (confirm "123456") browser ∷ logs_out "anna-token" ∷ []) site (tt, (tt, tt))
      (refl, tt)

authenticate-answers_example :
    (authenticate env "anna-token" site).0
    ≡ answer env site.db.users (live_owner noon site.db (hash_session_token env "anna-token"))
authenticate-answers_example = authenticate-answers env "anna-token" site refl
