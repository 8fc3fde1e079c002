-- ===== src/World.antt =====
-- What a service call sees and changes: the database, the clock, the outside. A call is a function
-- from one world to a result and the next.
--
-- Faults: every statement, every begin and commit and every hand-over to the outside takes one
-- entry of `faults`; `true` makes it fail. A theorem over all worlds therefore covers every place
-- at which a connection can break. No entry left means no fault.
-- Clock: each reading of `time.Now()` takes one entry of `ticks`, the time that passes until the
-- next one, so the clock never goes back.
pub mod Keeps
pub mod Yields
pub mod Atomic
pub mod Rejects
pub mod Returns
pub mod Clear
pub mod Runs
pub mod Recovers
pub mod Untouched
use kartochki_online_backend.Prelude.{
  ℕ, ◌+◌, Bool, true, false, String, Option, none, some, List, [], ◌∷◌, ◌++◌, if◌then◌else◌,
}
use kartochki_online_backend.Calendar.{Time}
use kartochki_online_backend.Provider.{
  Uuid, SubscriptionCheckoutInput, AddonCheckoutInput, RecurringPaymentInput,
}
use kartochki_online_backend.Database.{Db, Reply, reply, refused, SqlError, no_rows, broken, Query}

-- What left the process. A rollback does not take it back.
pub data Message : Type 0 where
  subscription_checkout : SubscriptionCheckoutInput → Message
  addon_checkout : AddonCheckoutInput → Message
  recurring_payment : RecurringPaymentInput → Message
  registration_email : String → Uuid → String → Message
  password_reset_email : Uuid → String → String → Message
  generation_job : String → Message

abbrev pub Bytes : Type 0
Bytes = List ℕ

-- A file on the disk, by its full path. A rollback does not take it back.
pub record File : Type 0 where
  pub path : String
  pub body : Bytes

pub record World : Type 0 where
  pub db : Db
  pub clock : Time
  pub ticks : List ℕ
  pub tx_start : Option Time
  pub faults : List Bool
  pub outbox : List Message
  pub files : List File

pub data Result (E A : Type 0) : Type 0 where
  ok : A → Result E A
  err : E → Result E A

abbrev pub M : Type 0 → Type 0 → Type 0
M E A = World → Result E A × World

-- PostgreSQL's `now()` is the start of the transaction.
abbrev pub sql_now : World → Time
sql_now w = elim w.tx_start [ none ↦ w.clock | some t ↦ t ]

-- `if errors.Is(err, pgx.ErrNoRows) { return missing }; return other`
abbrev pub missing_or : {E : Type 0} → E → E → SqlError → E
missing_or missing other no_rows = missing
missing_or missing other _ = other

abbrev renamed : {E F A : Type 0} → (E → F) → Result E A × World → Result F A × World
renamed rename (ok a, w) = (ok a, w)
renamed rename (err e, w) = (err (rename e), w)

-- `if err != nil { return …, rename(err) }`
unfoldable pub map_error : {E F A : Type 0} → (E → F) → M E A → M F A
map_error rename m w = renamed rename (m w)

module _ {E : Type 0} where
  abbrev pub pure : {A : Type 0} → A → M E A
  pure a w = (ok a, w)

  abbrev pub fail : {A : Type 0} → E → M E A
  fail e w = (err e, w)

  abbrev pub bind_result : {A B : Type 0} → Result E A × World → (A → M E B) → Result E B × World
  bind_result (ok a, w) f = f a w
  bind_result (err e, w) f = (err e, w)

  infixl 5 ◌>>=◌ ◌>>◌
  -- Sealed, so that the rules of World/Keeps.antt and World/Yields.antt find the two calls.
  unfoldable pub ◌>>=◌ : {A B : Type 0} → M E A → (A → M E B) → M E B
  ◌>>=◌ m f w = bind_result (m w) f

  abbrev pub ◌>>◌ : {A B : Type 0} → M E A → M E B → M E B
  m >> k = m >>= λ _. k

  -- `if test { return …, e }`
  abbrev pub reject_if : Bool → E → M E (Unit {0})
  reject_if true e w = (err e, w)
  reject_if false e w = (ok tt, w)

  -- A step over a value that may be missing.
  abbrev pub require : {A : Type 0} → Option A → E → M E A
  require none e = fail e
  require (some a) e = pure a

  abbrev pub take_tick : List ℕ → World → Result E Time × World
  take_tick [] w = (ok w.clock, w)
  take_tick (t ∷ ts) w = (ok w.clock, record w { clock = w.clock + t; ticks = ts })

  -- time.Now().UTC()
  unfoldable pub time_now : M E Time
  time_now w = take_tick w.ticks w

  abbrev take_fault : List Bool → E → World → Result E (Unit {0}) × World
  take_fault [] e w = (ok tt, w)
  take_fault (true ∷ fs) e w = (err e, record w { faults = fs })
  take_fault (false ∷ fs) e w = (ok tt, record w { faults = fs })

  -- A step that may break, and does nothing else.
  unfoldable pub may_fail : E → M E (Unit {0})
  may_fail e w = take_fault w.faults e w

  abbrev settle : {A : Type 0} → (SqlError → E) → Reply A × Db → World → Result E A × World
  settle wrap (reply a, db) w = (ok a, record w { db = db })
  settle wrap (refused e, db) w = (err (wrap e), record w { db = db })

  -- A statement whose error the caller turns into one of its own.
  unfoldable pub expect : {A : Type 0} → (SqlError → E) → Query A → M E A
  unfolding may_fail ◌>>=◌
  expect wrap q = may_fail (wrap broken) >>= λ _ w. settle wrap (q (sql_now w) w.db) w

  abbrev settle_optional :
      {A : Type 0} → (SqlError → E) → Reply A × Db → World → Result E (Option A) × World
  settle_optional wrap (reply a, db) w = (ok (some a), record w { db = db })
  settle_optional wrap (refused no_rows, db) w = (ok none, record w { db = db })
  settle_optional wrap (refused e, db) w = (err (wrap e), record w { db = db })

  -- A statement whose `pgx.ErrNoRows` the caller goes on from.
  unfoldable pub find : {A : Type 0} → (SqlError → E) → Query A → M E (Option A)
  unfolding may_fail ◌>>=◌
  find wrap q = may_fail (wrap broken) >>= λ _ w. settle_optional wrap (q (sql_now w) w.db) w

  -- The message leaves; the hand-over may fail with `e`.
  unfoldable pub send : E → Message → M E (Unit {0})
  unfolding may_fail ◌>>=◌
  send e m = may_fail e >>= λ _ w. (ok tt, record w { outbox = w.outbox ++ (m ∷ []) })

-- `_ = call(…)`, and an error that is only logged
abbrev swallow : {E A : Type 0} → Result E A × World → Result E (Unit {0}) × World
swallow (r, w) = (ok tt, w)

unfoldable pub ignore_error : {E A : Type 0} → M E A → M E (Unit {0})
ignore_error m w = swallow (m w)

-- `if err := call(…); err != nil { … return err }`: the steps of `after`, then the same error.
abbrev pub rethrow : {E A : Type 0} → Result E A × World → (E → M E (Unit {0})) → Result E A × World
rethrow (ok a, w) after = (ok a, w)
rethrow (err e, w) after = (err e, (after e w).1)

unfoldable pub on_error : {E A : Type 0} → M E A → (E → M E (Unit {0})) → M E A
on_error m after w = rethrow (m w) after

abbrev pub recover : {E A : Type 0} → Result E A × World → (E → M E A) → Result E A × World
recover (ok a, w) handler = (ok a, w)
recover (err e, w) handler = handler e w

-- `if err := call(…); err != nil { … }`, where the branch returns what it likes.
unfoldable pub catch : {E A : Type 0} → M E A → (E → M E A) → M E A
catch m handler w = recover (m w) handler

-- uuid.New(): an id that is not used yet.
unfoldable pub new_uuid : {E : Type 0} → M E Uuid
new_uuid w = (ok w.db.next_id, record w { db = record w.db { next_id = w.db.next_id + 1 } })

-- How the body of a transaction ends: it commits, or it returns and the deferred `tx.Rollback`
-- runs. A body that returns an error is rolled back too.
pub data Ending (A : Type 0) : Type 0 where
  commit : A → Ending A
  roll_back : A → Ending A

abbrev pub restored : World → World → World
restored start w = record w { db = start.db; tx_start = start.tx_start }

module _ {E A : Type 0} where
  abbrev after_commit : World → A → Result E (Unit {0}) × World → Result E A × World
  after_commit start a (ok _, w) = (ok a, record w { tx_start = start.tx_start })
  after_commit start a (err e, w) = (err e, restored start w)

  abbrev pub finish : E → World → Result E (Ending A) × World → Result E A × World
  finish commit_failed start (err e, w) = (err e, restored start w)
  finish commit_failed start (ok (roll_back a), w) = (ok a, restored start w)
  finish commit_failed start (ok (commit a), w) =
      after_commit start a (take_fault w.faults commit_failed w)

  -- Begin, body, commit or rollback; `begin_failed` and `commit_failed` are the wrapped errors.
  unfoldable pub transaction : E → E → M E (Ending A) → M E A
  unfolding may_fail ◌>>=◌
  transaction begin_failed commit_failed body = may_fail begin_failed >>= λ _ w.
      finish commit_failed w (body (record w { tx_start = some w.clock }))
