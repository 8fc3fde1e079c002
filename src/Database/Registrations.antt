-- ===== src/Database/Registrations.antt =====
-- The statements on pending registrations (internal/dbgen/pending_registrations.sql.go).
use kartochki_online_backend.Prelude.{
  ℕ, suc, ◌+◌, Bool, true, false, ◌&&◌, Option, none, some, String, [], ◌∷◌, ◌++◌, ltb, leb, ◌==◌,
  str_eq, if◌then◌else◌, first, count_where, update_where,
}
use kartochki_online_backend.Calendar.{Time}
use kartochki_online_backend.Provider.{Uuid}
use kartochki_online_backend.Database.Rows.{
  PendingRegistration, FlowStatus, pending, verified, expired, blocked,
}
use kartochki_online_backend.Database.Sql.{Query, reply, refused, one, unique_violation}

abbrev pub is_pending : FlowStatus → Bool
is_pending pending = true
is_pending _ = false

-- where id = $1 and status = 'pending'
abbrev pub is_open : Uuid → PendingRegistration → Bool
is_open id p = (p.id == id) && is_pending p.status

-- The three statements that close a flow. The reply is the number of rows.
abbrev pub close_registration : FlowStatus → Uuid → Query ℕ
close_registration status id now db = (
  reply (count_where (is_open id) db.pending_registrations),
  record db {
    pending_registrations =
        update_where (is_open id) (λ p. record p { status = status; completed_at = some now })
          db.pending_registrations;
  },
)

unfoldable pub block_pending_registration : Uuid → Query ℕ
block_pending_registration = close_registration blocked

unfoldable pub complete_pending_registration : Uuid → Query ℕ
complete_pending_registration = close_registration verified

unfoldable pub expire_pending_registration : Uuid → Query ℕ
expire_pending_registration = close_registration expired

abbrev pub started_since : String → Time → PendingRegistration → Bool
started_since email since p = str_eq p.email email && leb since p.created_at

unfoldable pub count_recent_pending_registrations_by_email : String → Time → Query ℕ
count_recent_pending_registrations_by_email email since now db =
    (reply (count_where (started_since email since) db.pending_registrations), db)

unfoldable pub count_recent_pending_registrations_by_ip : String → Time → Query ℕ
count_recent_pending_registrations_by_ip ip since now db = (
  reply (
      count_where (λ p. str_eq p.created_ip_address ip && leb since p.created_at)
        db.pending_registrations),
  db,
)

pub record CreatePendingRegistrationParams : Type 0 where
  pub email : String
  pub name : String
  pub password_hash : String
  pub verification_code_hash : String
  pub verification_expires_at : Time
  pub resend_available_at : Time
  pub last_email_sent_at : Time
  pub created_ip_address : String

abbrev pub new_registration : Uuid → Time → CreatePendingRegistrationParams → PendingRegistration
new_registration id now arg = record {
  id = id;
  email = arg.email;
  name = arg.name;
  password_hash = arg.password_hash;
  verification_code_hash = arg.verification_code_hash;
  verification_expires_at = arg.verification_expires_at;
  resend_available_at = arg.resend_available_at;
  attempt_count = 0;
  resend_count = 1;
  status = pending;
  last_email_sent_at = arg.last_email_sent_at;
  created_ip_address = arg.created_ip_address;
  created_at = now;
  completed_at = none;
}

-- pending_registrations.email is unique.
unfoldable pub create_pending_registration :
    CreatePendingRegistrationParams → Query PendingRegistration
create_pending_registration arg now db =
    let row = new_registration db.next_id now arg in
    if ltb 0 (count_where (λ p. str_eq p.email arg.email) db.pending_registrations)
    then (refused unique_violation, db)
    else (
      reply row,
      record db {
        pending_registrations = db.pending_registrations ++ (row ∷ []);
        next_id = suc db.next_id;
      },
    )

unfoldable pub get_pending_registration_by_email_for_update : String → Query PendingRegistration
get_pending_registration_by_email_for_update email now db =
    (one (first (λ p. str_eq p.email email) db.pending_registrations), db)

unfoldable pub get_pending_registration_for_update : Uuid → Query PendingRegistration
get_pending_registration_for_update id now db =
    (one (first (λ p. p.id == id) db.pending_registrations), db)

abbrev pub map_found : {A B : Type 0} → (A → B) → Option A → Option B
map_found f none = none
map_found f (some a) = some (f a)

-- `update … set … where id = $1 returning …`: the row as it is after the update.
abbrev pub update_returning :
    (PendingRegistration → PendingRegistration) → Uuid → Query PendingRegistration
update_returning set id now db = (
  one (map_found set (first (λ p. p.id == id) db.pending_registrations)),
  record db { pending_registrations = update_where (λ p. p.id == id) set db.pending_registrations },
)

abbrev pub attempted : PendingRegistration → PendingRegistration
attempted p = record p { attempt_count = p.attempt_count + 1 }

-- The reply is the new count.
abbrev pub count_of : Option PendingRegistration → Option ℕ
count_of none = none
count_of (some p) = some p.attempt_count

unfoldable pub increment_pending_registration_attempt : Uuid → Query ℕ
increment_pending_registration_attempt id now db = (
  one (count_of (map_found attempted (first (λ p. p.id == id) db.pending_registrations))),
  record db {
    pending_registrations = update_where (λ p. p.id == id) attempted db.pending_registrations;
  },
)

pub record RefreshPendingRegistrationCodeParams : Type 0 where
  pub id : Uuid
  pub name : String
  pub password_hash : String
  pub verification_code_hash : String
  pub verification_expires_at : Time
  pub resend_available_at : Time
  pub last_email_sent_at : Time
  pub created_ip_address : String

abbrev pub refreshed :
    RefreshPendingRegistrationCodeParams → PendingRegistration → PendingRegistration
refreshed arg p = record p {
  name = arg.name;
  password_hash = arg.password_hash;
  verification_code_hash = arg.verification_code_hash;
  verification_expires_at = arg.verification_expires_at;
  resend_available_at = arg.resend_available_at;
  resend_count = 1;
  attempt_count = 0;
  status = pending;
  last_email_sent_at = arg.last_email_sent_at;
  created_ip_address = arg.created_ip_address;
  completed_at = none;
}

unfoldable pub refresh_pending_registration_code :
    RefreshPendingRegistrationCodeParams → Query PendingRegistration
refresh_pending_registration_code arg = update_returning (refreshed arg) arg.id

pub record ResendPendingRegistrationCodeParams : Type 0 where
  pub id : Uuid
  pub verification_code_hash : String
  pub verification_expires_at : Time
  pub resend_available_at : Time
  pub resend_count : ℕ
  pub last_email_sent_at : Time

abbrev pub resent : ResendPendingRegistrationCodeParams → PendingRegistration → PendingRegistration
resent arg p = record p {
  verification_code_hash = arg.verification_code_hash;
  verification_expires_at = arg.verification_expires_at;
  resend_available_at = arg.resend_available_at;
  resend_count = arg.resend_count;
  attempt_count = 0;
  last_email_sent_at = arg.last_email_sent_at;
  status = pending;
}

unfoldable pub resend_pending_registration_code :
    ResendPendingRegistrationCodeParams → Query PendingRegistration
resend_pending_registration_code arg = update_returning (resent arg) arg.id

abbrev pub renamed_to : String → String → PendingRegistration → PendingRegistration
renamed_to name hash p = record p { name = name; password_hash = hash }

unfoldable pub update_pending_registration_profile :
    Uuid → String → String → Query PendingRegistration
update_pending_registration_profile id name hash = update_returning (renamed_to name hash) id
