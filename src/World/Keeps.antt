-- ===== src/World/Keeps.antt =====
-- Invariants of the database under service calls: `Keeps P m` says that `m` keeps `P`, however it
-- ends. The rules follow the shape of a `do` block.
use kartochki_online_backend.Prelude.{
  ◌≡◌, sym, subst, Bool, true, false, Option, none, some, arith, if◌then◌else◌,
}
use kartochki_online_backend.Calendar.{Time}
use kartochki_online_backend.Database.{Db, Reply, reply, refused, SqlError, no_rows, Query}
use kartochki_online_backend.World.{
  World, Result, ok, err, M, pure, fail, require, sql_now, bind_result, ◌>>=◌, reject_if, settle,
  settle_optional, time_now, may_fail, expect, find, map_error, renamed, Message, send,
}

pub may_fail-db : {E : Type 0} (e : E) (w : World) → (may_fail e w).1.db ≡ w.db
unfolding may_fail
may_fail-db e w = ground arith

pub time_now-db : (E : Type 0) (w : World) → (time_now {E = E} w).1.db ≡ w.db
unfolding time_now
time_now-db E w = ground arith

pub send-db : {E : Type 0} (e : E) (m : Message) (w : World) → (send e m w).1.db ≡ w.db
unfolding send ◌>>=◌
send-db e m w = ground arith

-- A record, so that a rule finds the call from the goal.
pub record Keeps {E A : Type 0} (P : Db → Type 0) (m : M E A) : Type 0 where
  pub keeps : (w : World) → P w.db → P (m w).1.db

-- A statement keeps `P`, whatever `now()` is.
abbrev pub QueryKeeps : {A : Type 0} → (Db → Type 0) → Query A → Type 0
QueryKeeps P q = (now : Time) (db : Db) → P db → P (q now db).1

-- A statement that only reads.
pub QueryKeeps-of_db :
    {A : Type 0} (P : Db → Type 0) (q : Query A)
    → ((now : Time) (db : Db) → (q now db).1 ≡ db)
    → QueryKeeps P q
QueryKeeps-of_db P q same now db p = subst P (sym (same now db)) p

module _ {E : Type 0} (P : Db → Type 0) where
  bind_result-Keeps :
      {A B : Type 0} (r : Result E A × World) (f : A → M E B)
      → ((a : A) → Keeps P (f a))
      → P r.1.db
      → P (bind_result r f).1.db
  bind_result-Keeps (ok a, w) f h p = (h a).keeps w p
  bind_result-Keeps (err e, w) f h p = p

  settle-Keeps :
      {A : Type 0} (wrap : SqlError → E) (r : Reply A × Db) (w : World)
      → P r.1
      → P (settle wrap r w).1.db
  settle-Keeps wrap (reply a, db) w p = p
  settle-Keeps wrap (refused e, db) w p = p

  settle_optional-Keeps :
      {A : Type 0} (wrap : SqlError → E) (r : Reply A × Db) (w : World)
      → P r.1
      → P (settle_optional wrap r w).1.db
  settle_optional-Keeps wrap (reply a, db) w p = p
  settle_optional-Keeps wrap (refused no_rows, db) w p = p
  settle_optional-Keeps wrap (refused _, db) w p = p

  reject_if-Keeps : (b : Bool) (e : E) (w : World) → P w.db → P (reject_if b e w).1.db
  reject_if-Keeps true e w p = p
  reject_if-Keeps false e w p = p

  require-Keeps : {A : Type 0} (o : Option A) (e : E) (w : World) → P w.db → P (require o e w).1.db
  require-Keeps none e w p = p
  require-Keeps (some a) e w p = p

module _ {E : Type 0} {P : Db → Type 0} where
  pub Keeps-bind :
      {A B : Type 0} {m : M E A} {f : A → M E B}
      → Keeps P m
      → ((a : A) → Keeps P (f a))
      → Keeps P (m >>= f)
  unfolding ◌>>=◌
  Keeps-bind {m = m} {f = f} h k = record {
    keeps = λ w p. bind_result-Keeps P (m w) f k (h.keeps w p);
  }

  pub Keeps-may_fail : (e : E) → Keeps P (may_fail e)
  Keeps-may_fail e = record { keeps = λ w p. subst P (sym (may_fail-db e w)) p }

  pub Keeps-time_now : Keeps P (time_now {E = E})
  Keeps-time_now = record { keeps = λ w p. subst P (sym (time_now-db E w)) p }

  pub Keeps-send : (e : E) (m : Message) → Keeps P (send e m)
  Keeps-send e m = record { keeps = λ w p. subst P (sym (send-db e m w)) p }

  pub Keeps-expect :
      {A : Type 0} (wrap : SqlError → E) (q : Query A) → QueryKeeps P q → Keeps P (expect wrap q)
  unfolding expect ◌>>=◌
  Keeps-expect wrap q h = Keeps-bind (Keeps-may_fail _) λ _. record {
    keeps = λ w p. settle-Keeps P wrap (q (sql_now w) w.db) w (h (sql_now w) w.db p);
  }

  pub Keeps-find :
      {A : Type 0} (wrap : SqlError → E) (q : Query A) → QueryKeeps P q → Keeps P (find wrap q)
  unfolding find ◌>>=◌
  Keeps-find wrap q h = Keeps-bind (Keeps-may_fail _) λ _. record {
    keeps = λ w p. settle_optional-Keeps P wrap (q (sql_now w) w.db) w (h (sql_now w) w.db p);
  }

  pub Keeps-reject_if : (b : Bool) (e : E) → Keeps P (reject_if b e)
  Keeps-reject_if b e = record { keeps = reject_if-Keeps P b e }

  pub Keeps-pure : {A : Type 0} {a : A} → Keeps P (pure {E = E} a)
  Keeps-pure = record { keeps = λ w p. p }

  pub Keeps-fail : {A : Type 0} {e : E} → Keeps P (fail {A = A} e)
  Keeps-fail = record { keeps = λ w p. p }

  pub Keeps-if :
      {A : Type 0} (b : Bool) {m n : M E A} → Keeps P m → Keeps P n → Keeps P (if b then m else n)
  Keeps-if true h k = h
  Keeps-if false h k = k

  pub Keeps-require : {A : Type 0} (o : Option A) (e : E) → Keeps P (require o e)
  Keeps-require o e = record { keeps = require-Keeps P o e }

module _ {E F : Type 0} where
  renamed-Keeps :
      {A : Type 0} (P : Db → Type 0) (rename : E → F) (r : Result E A × World)
      → P r.1.db
      → P (renamed rename r).1.db
  renamed-Keeps P rename (ok a, w) p = p
  renamed-Keeps P rename (err e, w) p = p

  pub Keeps-map_error :
      {P : Db → Type 0} {A : Type 0} (rename : E → F) {m : M E A}
      → Keeps P m
      → Keeps P (map_error rename m)
  unfolding map_error
  Keeps-map_error {P = P} rename {m = m} h = record {
    keeps = λ w p. renamed-Keeps P rename (m w) (h.keeps w p);
  }
