-- ===== src/World/Rejects.antt =====
-- The errors of a service call: `Rejects P m R` says that every error that `m` returns from a
-- database with `P` satisfies `R`.
use kartochki_online_backend.Prelude.{
  ◌≡◌, refl, Bool, true, false, Option, none, some, List, [], ◌∷◌, if◌then◌else◌,
}
use kartochki_online_backend.Database.{Db, Reply, reply, refused, SqlError, broken, Query}
use kartochki_online_backend.World.{
  World, Result, ok, err, M, pure, fail, require, bind_result, ◌>>=◌, settle, may_fail, time_now,
  expect, sql_now, Ending, commit, roll_back, finish, take_fault, after_commit, transaction,
  take_tick,
}
use kartochki_online_backend.World.Keeps.{Keeps-may_fail}
use kartochki_online_backend.World.Yields.{Yields, Yields-of_Keeps, Post}

abbrev pub ErrPost : {E A : Type 0} → (E → Type 0) → Result E A × World → Type 0
ErrPost R (ok a, w) = Unit
ErrPost R (err e, w) = R e

pub record Rejects {E A : Type 0} (P : Db → Type 0) (m : M E A) (R : E → Type 0) : Type 0 where
  pub rejects : (w : World) → P w.db → ErrPost R (m w)

module _ {E : Type 0} (R : E → Type 0) where
  bind_result-rejects :
      {A B : Type 0} (r : Result E A × World) (f : A → M E B) (Q : A → Db → Type 0)
      → Post Q r
      → ErrPost R r
      → ((a : A) → Rejects (Q a) (f a) R)
      → ErrPost R (bind_result r f)
  bind_result-rejects (ok a, w) f Q q p h = (h a).rejects w q
  bind_result-rejects (err e, w) f Q q p h = p

  take_fault-rejects : (fs : List Bool) (e : E) (w : World) → R e → ErrPost R (take_fault fs e w)
  take_fault-rejects [] e w r = tt
  take_fault-rejects (true ∷ fs) e w r = r
  take_fault-rejects (false ∷ fs) e w r = tt

  after_commit-rejects :
      {A : Type 0} (start : World) (a : A) (r : Result E (Unit {0}) × World)
      → ErrPost R r
      → ErrPost R (after_commit start a r)
  after_commit-rejects start a (ok _, w) p = tt
  after_commit-rejects start a (err e, w) p = p

  finish-rejects :
      {A : Type 0} (e : E) (start : World) (r : Result E (Ending A) × World)
      → R e
      → ErrPost R r
      → ErrPost R (finish e start r)
  finish-rejects e start (err x, w) q p = p
  finish-rejects e start (ok (roll_back a), w) q p = tt
  finish-rejects e start (ok (commit a), w) q p =
      after_commit-rejects start a _ (take_fault-rejects w.faults e w q)

  settle-rejects :
      {A : Type 0} (wrap : SqlError → E) (r : Reply A × Db) (w : World)
      → ((e : SqlError) → R (wrap e))
      → ErrPost R (settle wrap r w)
  settle-rejects wrap (reply a, db) w h = tt
  settle-rejects wrap (refused e, db) w h = h e

module _ {E : Type 0} {P : Db → Type 0} {R : E → Type 0} where
  pub Rejects-bind :
      {A B : Type 0} {m : M E A} {f : A → M E B} (Q : A → Db → Type 0)
      → Yields P m Q
      → Rejects P m R
      → ((a : A) → Rejects (Q a) (f a) R)
      → Rejects P (m >>= f) R
  unfolding ◌>>=◌
  Rejects-bind {m = m} {f = f} Q y r h = record {
    rejects = λ w p. bind_result-rejects R (m w) f Q (y.yields w p) (r.rejects w p) h;
  }

  pub Rejects-may_fail : (e : E) → R e → Rejects P (may_fail e) R
  unfolding may_fail
  Rejects-may_fail e r = record { rejects = λ w p. take_fault-rejects R w.faults e w r }

  pub Rejects-time_now : Rejects P (time_now {E = E}) R
  unfolding time_now
  Rejects-time_now = record { rejects = λ w p. ticked w.ticks w }
    where
      ticked : (ts : List _) (w : World) → ErrPost R (take_tick {E = E} ts w)
      ticked [] w = tt
      ticked (t ∷ ts) w = tt

  pub Rejects-expect :
      {A : Type 0} (wrap : SqlError → E) (q : Query A)
      → ((e : SqlError) → R (wrap e))
      → Rejects P (expect wrap q) R
  unfolding expect ◌>>=◌
  Rejects-expect wrap q h =
      Rejects-bind (λ _. P) (Yields-of_Keeps (Keeps-may_fail (wrap broken)))
        (Rejects-may_fail (wrap broken) (h broken))
        λ _. record { rejects = λ w p. settle-rejects R wrap (q (sql_now w) w.db) w h }

  pub Rejects-pure : {A : Type 0} {a : A} → Rejects P (pure {E = E} a) R
  Rejects-pure = record { rejects = λ w p. tt }

  pub Rejects-fail : {A : Type 0} {e : E} → R e → Rejects P (fail {A = A} e) R
  Rejects-fail r = record { rejects = λ w p. r }

  pub Rejects-require : {A : Type 0} (o : Option A) (e : E) → R e → Rejects P (require o e) R
  Rejects-require none e r = record { rejects = λ w p. r }
  Rejects-require (some a) e r = record { rejects = λ w p. tt }

  pub Rejects-if :
      {A : Type 0} (b : Bool) {m n : M E A}
      → (b ≡ true → Rejects P m R)
      → (b ≡ false → Rejects P n R)
      → Rejects P (if b then m else n) R
  Rejects-if true h k = h refl
  Rejects-if false h k = k refl

  -- A fact on the values at hand, beside what holds of the database.
  pub Rejects-given :
      {A X : Type 0} {m : M E A} → (X → Rejects P m R) → Rejects (λ db. P db × X) m R
  Rejects-given h = record { rejects = λ w p. (h p.1).rejects w p.0 }

  pub Rejects-weaken :
      {A : Type 0} {m : M E A} {P' : Db → Type 0}
      → Rejects P' m R
      → ((db : Db) → P db → P' db)
      → Rejects P m R
  Rejects-weaken h before = record { rejects = λ w p. h.rejects w (before w.db p) }

  pub Rejects-transaction :
      {A : Type 0} (b c : E) {body : M E (Ending A)}
      → R b
      → R c
      → Rejects P body R
      → Rejects P (transaction b c body) R
  unfolding transaction ◌>>=◌
  Rejects-transaction b c {body = body} rb rc h =
      Rejects-bind (λ _. P) (Yields-of_Keeps (Keeps-may_fail b)) (Rejects-may_fail b rb)
        λ _. record {
          rejects =
              λ w p. finish-rejects R c w _ rc (h.rejects (record w { tx_start = some w.clock }) p);
        }
