-- ===== src/Auth/Attempts.antt =====
-- What the calls of the account service leave in the table of registrations
-- (internal/auth/register_verification.go, register_verification_support.go).
pub mod Kept
pub mod Checked
pub mod Others
pub mod Never
use kartochki_online_backend.Prelude.{
  ℕ, ◌+◌, ◌≤◌, ◌≡◌, sym, subst, Bool, true, false, inl, inr, Bool-cases, String, Option, none, some,
  List, [], ◌∷◌, ltb, leb, str_eq, not, All, All-append, All-update_where, All-first, arith,
  if◌then◌else◌, count_where,
}
use kartochki_online_backend.Calendar.{Time}
use kartochki_online_backend.Provider.{Uuid}
use kartochki_online_backend.Environment.{Environment}
use kartochki_online_backend.Database.{
  Db, Query, QueryPost, PendingRegistration, FlowStatus, pending, verified, expired, blocked,
  SqlError,
}
use kartochki_online_backend.Database.Users.{create_verified_user, CreateUserParams}
use kartochki_online_backend.Database.Sessions.{create_session, CreateSessionParams}
use kartochki_online_backend.Database.Registrations.{
  CreatePendingRegistrationParams, create_pending_registration, update_returning,
  complete_pending_registration, is_open,
}
use kartochki_online_backend.World.{
  World, M, pure, fail, ◌>>=◌, ◌>>◌, reject_if, expect, Ending, commit,
}
use kartochki_online_backend.World.Keeps.{Keeps, QueryKeeps}
use kartochki_online_backend.World.Yields.{
  Yields, Yields-bind, Yields-of_Keeps, Yields-fail, Yields-weaken,
}
use kartochki_online_backend.Auth.Types.{Error}
use kartochki_online_backend.Auth.Verification.{close_with}

abbrev pub IsOpenOrVerified : FlowStatus → Type 0
IsOpenOrVerified pending = Unit
IsOpenOrVerified verified = Unit
IsOpenOrVerified expired = ⊥
IsOpenOrVerified blocked = ⊥

-- A flow with no attempt counted, never closed but by its verification, and with one to five codes
-- sent.
abbrev pub IsUntried : PendingRegistration → Type 0
IsUntried p =
    (p.attempt_count ≡ 0) × (1 ≤ p.resend_count) × (p.resend_count ≤ 5) × IsOpenOrVerified p.status

abbrev pub RegistrationsUntried : Db → Type 0
RegistrationsUntried db = All IsUntried db.pending_registrations

create_session-registrations :
    (arg : CreateSessionParams) (now : Time) (db : Db)
    → (create_session arg now db).1.pending_registrations ≡ db.pending_registrations
unfolding create_session
create_session-registrations arg now db = ground arith

create_verified_user-registrations :
    (arg : CreateUserParams) (now : Time) (db : Db)
    → (create_verified_user arg now db).1.pending_registrations ≡ db.pending_registrations
unfolding create_verified_user
create_verified_user-registrations arg now db = ground arith

pub create_session-Keeps :
    (arg : CreateSessionParams) → QueryKeeps RegistrationsUntried (create_session arg)
create_session-Keeps arg now db p =
    subst (All IsUntried) (sym (create_session-registrations arg now db)) p

pub create_verified_user-Keeps :
    (arg : CreateUserParams) → QueryKeeps RegistrationsUntried (create_verified_user arg)
create_verified_user-Keeps arg now db p =
    subst (All IsUntried) (sym (create_verified_user-registrations arg now db)) p

pub create_pending_registration-Keeps :
    (arg : CreatePendingRegistrationParams)
    → QueryKeeps RegistrationsUntried (create_pending_registration arg)
unfolding create_pending_registration
create_pending_registration-Keeps arg now db p =
    elim (Bool-cases
      (ltb 0 (count_where (λ r. str_eq r.email arg.email) db.pending_registrations))) [
        | inl taken ↦ rw taken p
        | inr free ↦ rw free (
            All-append IsUntried db.pending_registrations _ p
              ((omega arith, omega arith, omega arith, tt), tt))
      ]

pub update_returning-Keeps :
    (set : PendingRegistration → PendingRegistration) (id : Uuid)
    → ((row : PendingRegistration) → IsUntried row → IsUntried (set row))
    → QueryKeeps RegistrationsUntried (update_returning set id)
update_returning-Keeps set id h now db p =
    All-update_where IsUntried _ set db.pending_registrations h p

pub complete_pending_registration-Keeps :
    (id : Uuid) → QueryKeeps RegistrationsUntried (complete_pending_registration id)
unfolding complete_pending_registration
complete_pending_registration-Keeps id now db p =
    All-update_where IsUntried (is_open id)
      (λ row. record row { status = verified; completed_at = some now }) db.pending_registrations
      (λ row h. (h.0, h.1, h.2, tt)) p

-- A flow is closed and the error returned: there is no result.
pub close_with-Yields :
    {A : Type 0} (P : Db → Type 0) (Q : A → Db → Type 0) (text : String) (q : Query ℕ) (e : Error)
    → Yields P (close_with text q e) Q
unfolding close_with
close_with-Yields P Q text q e =
    Yields-weaken {P' = λ _. Unit {0}}
      (Yields-bind (λ _ _. Unit {0}) (Yields-of_Keeps (record { keeps = λ w p. tt }))
        λ _. Yields-fail)
      (λ db p. tt) (λ a db q. q)
