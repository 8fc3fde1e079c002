-- ===== src/Auth/Attempts/Kept.antt =====
-- The calls of a registration keep the table as it is described by `RegistrationsUntried`
-- (internal/auth/register_verification.go).
use kartochki_online_backend.Prelude.{
  ℕ, Bool, true, false, String, Option, none, some, ltb, str_eq, arith, if◌then◌else◌,
}
use kartochki_online_backend.Calendar.{Time}
use kartochki_online_backend.Provider.{Uuid}
use kartochki_online_backend.Environment.{Environment}
use kartochki_online_backend.Database.{
  PendingRegistration, FlowStatus, pending, verified, expired, blocked,
}
use kartochki_online_backend.Database.Registrations.{
  CreatePendingRegistrationParams, get_pending_registration_by_email_for_update,
  refresh_pending_registration_code, update_pending_registration_profile,
  count_recent_pending_registrations_by_email, count_recent_pending_registrations_by_ip,
}
use kartochki_online_backend.Database.Users.{get_auth_user_by_email}
use kartochki_online_backend.World.{fail, time_now, ◌>>=◌}
use kartochki_online_backend.World.Keeps.{
  Keeps, Keeps-bind, Keeps-expect, Keeps-find, Keeps-pure, Keeps-fail, Keeps-time_now,
  Keeps-require, Keeps-if, Keeps-reject_if, Keeps-send, Keeps-may_fail,
}
use kartochki_online_backend.World.Yields.{Keeps-transaction_of_body}
use kartochki_online_backend.Auth.Types.{
  email_already_exists, Service, RegisterInput, generate_verification_code,
}
use kartochki_online_backend.Auth.Registration.{
  ensure_registration_start_allowed, check_ip, start_flow, restart_flow, keep_flow, continue_flow,
  start_or_continue, register_pending_flow, announce, register_body, register,
  send_registration_verification_email,
}
use kartochki_online_backend.Auth.Attempts.{
  RegistrationsUntried, create_pending_registration-Keeps, update_returning-Keeps,
}

check_ip-Keeps : (ip : String) (since : Time) → Keeps RegistrationsUntried (check_ip ip since)
unfolding check_ip count_recent_pending_registrations_by_ip
check_ip-Keeps ip since = Keeps-bind (Keeps-expect _ _ λ now db p. p) λ n. Keeps-reject_if _ _

ensure-Keeps :
    (email ip : String) → Keeps RegistrationsUntried (ensure_registration_start_allowed email ip)
unfolding ensure_registration_start_allowed count_recent_pending_registrations_by_email
ensure-Keeps email ip = Keeps-bind Keeps-time_now λ now.
    Keeps-bind (Keeps-expect _ _ λ now db p. p) λ n.
      Keeps-bind (Keeps-reject_if _ _) λ _. Keeps-if (str_eq ip "") Keeps-pure (check_ip-Keeps ip _)

start_flow-Keeps :
    (arg : CreatePendingRegistrationParams) → Keeps RegistrationsUntried (start_flow arg)
unfolding start_flow
start_flow-Keeps arg =
    Keeps-bind (ensure-Keeps _ _)
      λ _. Keeps-bind (Keeps-expect _ _ (create_pending_registration-Keeps arg)) λ p. Keeps-pure

restart_flow-Keeps :
    (arg : CreatePendingRegistrationParams) (id : Uuid)
    → Keeps RegistrationsUntried (restart_flow arg id)
unfolding restart_flow refresh_pending_registration_code
restart_flow-Keeps arg id = Keeps-bind (ensure-Keeps _ _) λ _.
    Keeps-bind
      (Keeps-expect _ _
        (update_returning-Keeps _ id λ row h. (omega arith, omega arith, omega arith, tt)))
      λ p. Keeps-pure

keep_flow-Keeps :
    (arg : CreatePendingRegistrationParams) (id : Uuid)
    → Keeps RegistrationsUntried (keep_flow arg id)
unfolding keep_flow update_pending_registration_profile
keep_flow-Keeps arg id =
    Keeps-bind (Keeps-expect _ _ (update_returning-Keeps _ id λ row h. h)) λ p. Keeps-pure

continue_flow-Keeps :
    (arg : CreatePendingRegistrationParams) (row : PendingRegistration)
    → Keeps RegistrationsUntried (continue_flow arg row)
unfolding continue_flow
continue_flow-Keeps arg row = by_status row.status
  where
    by_status :
        (status : FlowStatus)
        → Keeps RegistrationsUntried (elim status [
          | verified ↦ fail email_already_exists
          | pending ↦ time_now >>= λ now.
              if ltb now row.verification_expires_at
              then keep_flow arg row.id
              else restart_flow arg row.id
          | expired ↦ restart_flow arg row.id
          | blocked ↦ restart_flow arg row.id
        ])
    by_status verified = Keeps-fail
    by_status pending =
        Keeps-bind Keeps-time_now
          λ now. Keeps-if _ (keep_flow-Keeps arg row.id) (restart_flow-Keeps arg row.id)
    by_status expired = restart_flow-Keeps arg row.id
    by_status blocked = restart_flow-Keeps arg row.id

register_pending_flow-Keeps :
    (arg : CreatePendingRegistrationParams) → Keeps RegistrationsUntried (register_pending_flow arg)
unfolding register_pending_flow get_pending_registration_by_email_for_update
register_pending_flow-Keeps arg = Keeps-bind (Keeps-find _ _ λ now db p. p) by_row
  where
    by_row : (o : Option PendingRegistration) → Keeps RegistrationsUntried (start_or_continue arg o)
    by_row none = start_flow-Keeps arg
    by_row (some row) = continue_flow-Keeps arg row

module _ (env : Environment) (s : Service) where
  pub send-Keeps :
      (email : String) (id : Uuid) (code : String)
      → Keeps RegistrationsUntried (send_registration_verification_email env s email id code)
  unfolding send_registration_verification_email
  send-Keeps email id code = Keeps-bind (Keeps-reject_if _ _) λ _. Keeps-send _ _

  announce-Keeps :
      (email code : String) (p : PendingRegistration × Bool)
      → Keeps RegistrationsUntried (announce env s email code p)
  unfolding announce
  announce-Keeps email code (p, true) = Keeps-bind (send-Keeps email p.id code) λ _. Keeps-pure
  announce-Keeps email code (p, false) = Keeps-pure

  pub code-Keeps : (draw : ℕ → ℕ) → Keeps RegistrationsUntried (generate_verification_code env draw)
  unfolding generate_verification_code
  code-Keeps draw = Keeps-bind (Keeps-may_fail _) λ _. Keeps-pure

  register_body-Keeps :
      (arg : CreatePendingRegistrationParams) (code : String)
      → Keeps RegistrationsUntried (register_body env s arg code)
  unfolding register_body get_auth_user_by_email
  register_body-Keeps arg code = Keeps-bind (Keeps-find _ _ λ now db p. p) λ user.
      Keeps-bind (Keeps-reject_if _ _)
        λ _. Keeps-bind (register_pending_flow-Keeps arg) λ p. announce-Keeps arg.email code p

  pub register-Keeps :
      (salt : String) (draw : ℕ → ℕ) (input : RegisterInput)
      → Keeps RegistrationsUntried (register env s salt draw input)
  unfolding register
  register-Keeps salt draw input = Keeps-bind (Keeps-reject_if _ _) λ _.
      Keeps-bind (Keeps-require _ _) λ hash. Keeps-bind (code-Keeps draw) λ code.
        Keeps-bind Keeps-time_now λ now.
          Keeps-bind (Keeps-transaction_of_body _ _ (register_body-Keeps _ code.0)) λ p. Keeps-pure
