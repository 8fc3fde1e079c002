-- ===== src/Auth/Registration.antt =====
-- The registration by email and password (internal/auth/register_verification.go,
-- register_verification_support.go): a flow is started, its code verified or sent again.
use kartochki_online_backend.Prelude.{
  ℕ, ◌+◌, ◌-◌, ◌/◌, ◌*◌, Bool, true, false, not, String, Option, none, some, str_eq, ltb, leb,
  if◌then◌else◌,
}
use kartochki_online_backend.Prelude.Text.{trim_space, byte_len}
use kartochki_online_backend.Calendar.{Time, second, minute, hour}
use kartochki_online_backend.Provider.{Uuid}
use kartochki_online_backend.Environment.{Environment}
use kartochki_online_backend.Database.{
  SqlError, PendingRegistration, pending, verified, expired, blocked,
}
use kartochki_online_backend.Database.Users.{get_auth_user_by_email}
use kartochki_online_backend.Database.Registrations.{
  CreatePendingRegistrationParams, RefreshPendingRegistrationCodeParams,
  count_recent_pending_registrations_by_email, count_recent_pending_registrations_by_ip,
  create_pending_registration, get_pending_registration_by_email_for_update,
  refresh_pending_registration_code, update_pending_registration_profile,
}
use kartochki_online_backend.World.{
  M, pure, fail, ◌>>=◌, ◌>>◌, reject_if, require, expect, find, send, time_now, Ending, commit,
  transaction, registration_email,
}
use kartochki_online_backend.Auth.Types.{
  Error, email_already_exists, password_too_short, registration_rate_limited, wrapped, Service,
  RegisterInput, RegisterResult, nullable_text, normalize_email, hash_password,
  generate_verification_code, registration_verification_code_length,
}

abbrev pub registration_verification_ttl : ℕ
registration_verification_ttl = 10 * minute

abbrev pub registration_resend_cooldown : ℕ
registration_resend_cooldown = 60 * second

abbrev pub registration_max_verify_attempts : ℕ
registration_max_verify_attempts = 5

abbrev pub registration_max_resends : ℕ
registration_max_resends = 5

abbrev pub registration_start_window : ℕ
registration_start_window = hour

abbrev pub registration_max_starts_per_email : ℕ
registration_max_starts_per_email = 5

abbrev pub registration_max_starts_per_ip : ℕ
registration_max_starts_per_ip = 10

-- int(value.Sub(now).Seconds()), at least 0
unfoldable pub seconds_until : Time → Time → ℕ
seconds_until value now = (value - now) / second

abbrev any_wrapped : String → SqlError → Error
any_wrapped text _ = wrapped text

-- Nothing was written before, so the counts by the pool are those of the transaction.
unfoldable pub check_ip : String → Time → M Error (Unit {0})
check_ip ip since = do
  started ←
      expect (any_wrapped "count recent pending registrations by ip")
        (count_recent_pending_registrations_by_ip ip since)
  reject_if (leb registration_max_starts_per_ip started) registration_rate_limited

unfoldable pub ensure_registration_start_allowed : String → String → M Error (Unit {0})
unfolding check_ip
ensure_registration_start_allowed email ip = do
  now ← time_now
  let since = now - registration_start_window
  started ←
      expect (any_wrapped "count recent pending registrations by email")
        (count_recent_pending_registrations_by_email email since)
  reject_if (leb registration_max_starts_per_email started) registration_rate_limited
  if str_eq ip "" then pure tt else check_ip ip since

abbrev fresh : M Error PendingRegistration → M Error (PendingRegistration × Bool)
fresh m = m >>= λ p. pure (p, true)

-- The flow whose row is `arg`, started anew on the row `id`.
abbrev refresh_of : Uuid → CreatePendingRegistrationParams → RefreshPendingRegistrationCodeParams
refresh_of id arg = record {
  id = id;
  name = arg.name;
  password_hash = arg.password_hash;
  verification_code_hash = arg.verification_code_hash;
  verification_expires_at = arg.verification_expires_at;
  resend_available_at = arg.resend_available_at;
  last_email_sent_at = arg.last_email_sent_at;
  created_ip_address = arg.created_ip_address;
}

unfoldable pub start_flow : CreatePendingRegistrationParams → M Error (PendingRegistration × Bool)
unfolding ensure_registration_start_allowed
start_flow arg = do
  ensure_registration_start_allowed arg.email arg.created_ip_address
  fresh (expect (any_wrapped "create pending registration") (create_pending_registration arg))

unfoldable pub restart_flow :
    CreatePendingRegistrationParams → Uuid → M Error (PendingRegistration × Bool)
unfolding ensure_registration_start_allowed
restart_flow arg id = do
  ensure_registration_start_allowed arg.email arg.created_ip_address
  fresh (
      expect (any_wrapped "refresh pending registration code")
        (refresh_pending_registration_code (refresh_of id arg)))

unfoldable pub keep_flow :
    CreatePendingRegistrationParams → Uuid → M Error (PendingRegistration × Bool)
keep_flow arg id = do
  row ←
      expect (any_wrapped "update pending registration profile")
        (update_pending_registration_profile id arg.name arg.password_hash)
  pure (row, false)

-- The clock is read only for a pending flow.
unfoldable pub continue_flow :
    CreatePendingRegistrationParams → PendingRegistration → M Error (PendingRegistration × Bool)
unfolding restart_flow keep_flow
continue_flow arg row = elim row.status [
  | verified ↦ fail email_already_exists
  | pending ↦ time_now >>= λ now.
      if ltb now row.verification_expires_at then keep_flow arg row.id else restart_flow arg row.id
  | expired ↦ restart_flow arg row.id
  | blocked ↦ restart_flow arg row.id
]

abbrev pub start_or_continue :
    CreatePendingRegistrationParams
    → Option PendingRegistration
    → M Error (PendingRegistration × Bool)
start_or_continue arg none = start_flow arg
start_or_continue arg (some row) = continue_flow arg row

-- The flow, and whether a code has to be sent.
unfoldable pub register_pending_flow :
    CreatePendingRegistrationParams → M Error (PendingRegistration × Bool)
unfolding start_flow continue_flow
register_pending_flow arg =
    find (any_wrapped "get pending registration by email")
      (get_pending_registration_by_email_for_update arg.email)
    >>= start_or_continue arg

module _ (env : Environment) (s : Service) where
  unfoldable pub send_registration_verification_email : String → Uuid → String → M Error (Unit {0})
  send_registration_verification_email email id code = do
    reject_if (not s.email_enqueuer) (wrapped "registration email enqueuer is not configured")
    send (wrapped "enqueue registration verification email") (registration_email email id code)

  unfoldable pub build_register_result : PendingRegistration → Time → RegisterResult
  unfolding seconds_until
  build_register_result p now = record {
    status = "pending_verification";
    verification_id = env.print_uuid p.id;
    email = p.email;
    code_length = registration_verification_code_length;
    resend_available_in_seconds = seconds_until p.resend_available_at now;
    expires_in_seconds = seconds_until p.verification_expires_at now;
  }

  abbrev is_found : {A : Type 0} → Option A → Bool
  is_found none = false
  is_found (some _) = true

  unfoldable pub announce :
      String → String → PendingRegistration × Bool → M Error (Ending PendingRegistration)
  unfolding send_registration_verification_email
  announce email code (p, true) = do
    send_registration_verification_email email p.id code
    pure (commit p)
  announce email code (p, false) = pure (commit p)

  unfoldable pub register_body :
      CreatePendingRegistrationParams → String → M Error (Ending PendingRegistration)
  unfolding register_pending_flow announce
  register_body arg code = do
    user ←
        find (any_wrapped "check existing user by email")
          (get_auth_user_by_email (nullable_text arg.email))
    reject_if (is_found user) email_already_exists
    register_pending_flow arg >>= announce arg.email code

  -- `salt` and `draw` are the random values.
  unfoldable pub register : String → (ℕ → ℕ) → RegisterInput → M Error RegisterResult
  unfolding generate_verification_code register_body build_register_result hash_password
      normalize_email
  register salt draw input = do
    reject_if (ltb (byte_len input.password) s.password_min_length) password_too_short
    hash ← require (hash_password env salt input.password) (wrapped "hash password")
    code ← generate_verification_code env draw
    now ← time_now
    let email = normalize_email env input.email
    p ←
        transaction (wrapped "begin register verification tx")
          (wrapped "commit register verification tx")
          (register_body
            (record {
              email = email;
              name = trim_space input.name;
              password_hash = hash;
              verification_code_hash = code.1;
              verification_expires_at = now + registration_verification_ttl;
              resend_available_at = now + registration_resend_cooldown;
              last_email_sent_at = now;
              created_ip_address = trim_space input.ip_address;
            })
            code.0)
    pure (build_register_result p now)
