-- ===== src/Auth/Sessions/Store.antt =====
-- Sessions as a map from the hash of a token to its owner, at one instant: the abstract view of the
-- table `sessions` (internal/auth/service.go, internal/dbgen/sessions.sql.go).
use kartochki_online_backend.Prelude.{
  Bool, ◌&&◌, String, Option, none, some, str_eq, ◌==◌, first, if◌then◌else◌,
}
use kartochki_online_backend.Calendar.{Time}
use kartochki_online_backend.Provider.{Uuid}
use kartochki_online_backend.Database.{Db, LoginSession}
use kartochki_online_backend.Database.Sessions.{has_token, is_live}

abbrev pub Store : Type 0
Store = String → Option Uuid

abbrev pub owner_id : Option LoginSession → Option Uuid
owner_id none = none
owner_id (some s) = some s.user_id

-- The owner of the live session with the hash, seen at `t`.
unfoldable pub live_owner : Time → Db → Store
live_owner t db hash = owner_id (first (λ s. has_token hash s && is_live t s) db.sessions)

-- What a call does to the map. `opens` says too whether the new session is live at that instant.
pub data Change : Type 0 where
  stays : Change
  opens : String → Uuid → Bool → Change
  closes : String → Change
  closes_all : Uuid → Change

abbrev pub without : Uuid → Option Uuid → Option Uuid
without user none = none
without user (some u) = if u == user then none else some u

abbrev pub apply : Change → Store → Store
apply stays store hash = store hash
apply (opens h user live) store hash =
    if str_eq h hash then (if live then some user else none) else store hash
apply (closes h) store hash = if str_eq h hash then none else store hash
apply (closes_all user) store hash = without user (store hash)
