-- ===== src/World/Runs.antt =====
-- Partial correctness with the clock: `tx` is the start of the transaction that is open, if one is,
-- and a predicate is on the clock and the database.
use kartochki_online_backend.Prelude.{
  ℕ, ◌+◌, ◌≤◌, ◌≡◌, refl, sym, subst, ap, ◌∙◌, Option, none, some, Bool, true, false, List, [], ◌∷◌,
  arith,
}
use kartochki_online_backend.Calendar.{Time}
use kartochki_online_backend.Database.{
  Db, Reply, reply, refused, SqlError, broken, Query, QueryPost,
}
use kartochki_online_backend.World.{
  World, Result, ok, err, M, bind_result, ◌>>=◌, settle, may_fail, expect, require, reject_if, pure,
  fail, time_now, take_tick, sql_now, Ending, commit, roll_back, finish, take_fault, after_commit,
  transaction,
}
use kartochki_online_backend.World.Yields.{Post, Yields}

-- PostgreSQL's `now()` at a clock.
abbrev pub now_at : Option Time → Time → Time
now_at none clock = clock
now_at (some t) clock = t

abbrev pub Moment : Type 1
Moment = Time → Db → Type 0

abbrev pub PostRun : {E A : Type 0} → Option Time → (A → Moment) → Result E A × World → Type 0
PostRun tx Q (ok a, w) = (w.tx_start ≡ tx) × Q a w.clock w.db
PostRun tx Q (err e, w) = Unit

pub record Runs {E A : Type 0} (tx : Option Time) (P : Moment) (m : M E A) (Q : A → Moment)
    : Type 0 where
  pub runs : (w : World) → w.tx_start ≡ tx → P w.clock w.db → PostRun tx Q (m w)

-- What a transaction that began at `start` leaves when it returns.
abbrev pub EndingRun : {A : Type 0} → (A → Moment) → Db → Ending A → Moment
EndingRun R start (commit a) t db = R a t db
EndingRun R start (roll_back a) t db = R a t start

sql_now-at : (tx : Option Time) (w : World) → w.tx_start ≡ tx → sql_now w ≡ now_at tx w.clock
sql_now-at tx w e = at w.tx_start ∙ ap (λ o. now_at o w.clock) e
  where
    at : (o : Option Time) → elim o [ none ↦ w.clock | some t ↦ t ] ≡ now_at o w.clock
    at none = refl
    at (some t) = refl

module _ {E A B : Type 0} (tx : Option Time) (Q : A → Moment) (R : B → Moment) where
  bind_result-Runs :
      (r : Result E A × World) (f : A → M E B)
      → ((a : A) → Runs tx (Q a) (f a) R)
      → PostRun tx Q r
      → PostRun tx R (bind_result r f)
  bind_result-Runs (ok a, w) f h p = (h a).runs w p.0 p.1
  bind_result-Runs (err e, w) f h p = tt

module _ {E A : Type 0} (tx : Option Time) (Q : A → Moment) where
  settle-Runs :
      (wrap : SqlError → E) (r : Reply A × Db) (w : World)
      → w.tx_start ≡ tx
      → QueryPost (λ a d. Q a w.clock d) r
      → PostRun tx Q (settle wrap r w)
  settle-Runs wrap (reply a, db) w e p = (e, p)
  settle-Runs wrap (refused x, db) w e p = tt

  failing-Runs : (r : Result E A × World) → Post (λ _ _. ⊥) r → PostRun tx Q r
  failing-Runs (ok a, w) p = elim p [ ]
  failing-Runs (err e, w) p = tt

  returned-Runs :
      (r : Result E A × World) (a : A) → PostRun tx Q r → r.0 ≡ ok a → Q a r.1.clock r.1.db
  returned-Runs (ok b, w) a p e =
      let same : b ≡ a = ground arith in subst (λ x. Q x w.clock w.db) same p.1
  returned-Runs (err x, w) a p e = cc

module _ {E : Type 0} {tx : Option Time} {P : Moment} where
  pub Runs-bind :
      {A B : Type 0} {m : M E A} {f : A → M E B} {R : B → Moment} (Q : A → Moment)
      → Runs tx P m Q
      → ((a : A) → Runs tx (Q a) (f a) R)
      → Runs tx P (m >>= f) R
  unfolding ◌>>=◌
  Runs-bind {m = m} {f = f} {R = R} Q h k = record {
    runs = λ w e p. bind_result-Runs tx Q R (m w) f k (h.runs w e p);
  }

  pub Runs-pure :
      {A : Type 0} {a : A} {Q : A → Moment}
      → ((t : Time) (db : Db) → P t db → Q a t db)
      → Runs tx P (pure {E = E} a) Q
  Runs-pure h = record { runs = λ w e p. (e, h w.clock w.db p) }

  pub Runs-fail : {A : Type 0} {e : E} {Q : A → Moment} → Runs tx P (fail {A = A} e) Q
  Runs-fail = record { runs = λ w e p. tt }

  -- A call that never returns.
  pub Runs-failing :
      {A : Type 0} {m : M E A} {Q : A → Moment}
      → Yields (λ _. Unit {0}) m (λ _ _. ⊥)
      → Runs tx P m Q
  Runs-failing {m = m} {Q = Q} h = record {
    runs = λ w e p. failing-Runs tx Q (m w) (h.yields w tt);
  }

  pub Runs-weaken :
      {A : Type 0} {m : M E A} {P' : Moment} {Q Q' : A → Moment}
      → Runs tx P' m Q'
      → ((t : Time) (db : Db) → P t db → P' t db)
      → ((a : A) (t : Time) (db : Db) → Q' a t db → Q a t db)
      → Runs tx P m Q
  Runs-weaken {m = m} {Q = Q} {Q' = Q'} h before after = record {
    runs = λ w e p. post (m w) (h.runs w e (before w.clock w.db p));
  }
    where
      post : (r : Result E _ × World) → PostRun tx Q' r → PostRun tx Q r
      post (ok a, w) q = (q.0, after a w.clock w.db q.1)
      post (err e, w) q = tt

  pub Runs-may_fail : (e : E) → Runs tx P (may_fail e) (λ _. P)
  unfolding may_fail
  Runs-may_fail e = record { runs = λ w q p. by_faults w.faults w q p }
    where
      by_faults :
          (fs : List Bool) (w : World)
          → w.tx_start ≡ tx
          → P w.clock w.db
          → PostRun tx (λ _. P) (take_fault fs e w)
      by_faults [] w q p = (q, p)
      by_faults (true ∷ fs) w q p = tt
      by_faults (false ∷ fs) w q p = (q, p)

  -- The clock is read, and time goes on.
  pub Runs-time_now :
      (Q : Time → Moment)
      → ((t t' : Time) (db : Db) → P t db → t ≤ t' → Q t t' db)
      → Runs tx P (time_now {E = E}) Q
  unfolding time_now
  Runs-time_now Q h = record { runs = λ w e p. by_ticks w.ticks w e p }
    where
      by_ticks :
          (ts : List ℕ) (w : World)
          → w.tx_start ≡ tx
          → P w.clock w.db
          → PostRun tx Q (take_tick {E = E} ts w)
      by_ticks [] w e p = (e, h w.clock w.clock w.db p (omega arith))
      by_ticks (t ∷ ts) w e p = (e, h w.clock (w.clock + t) w.db p (omega arith))

  pub Runs-expect :
      {A : Type 0} (wrap : SqlError → E) (q : Query A) (Q : A → Moment)
      → ((t : Time) (db : Db) → P t db → QueryPost (λ a d. Q a t d) (q (now_at tx t) db))
      → Runs tx P (expect wrap q) Q
  unfolding expect ◌>>=◌
  Runs-expect wrap q Q h =
      Runs-bind (λ _. P) (Runs-may_fail (wrap broken))
        λ _. record {
          runs = λ w e p. settle-Runs tx Q wrap (q (sql_now w) w.db) w e (
              subst (λ now. QueryPost (λ a d. Q a w.clock d) (q now w.db)) (sym (sql_now-at tx w e))
                (h w.clock w.db p));
        }

  pub Runs-reject_if :
      {A : Type 0} {R : A → Moment} (b : Bool) (e : E) {m : M E A}
      → (b ≡ false → Runs tx P m R)
      → Runs tx P (reject_if b e >>= λ _. m) R
  unfolding ◌>>=◌
  Runs-reject_if true e h = record { runs = λ w q p. tt }
  Runs-reject_if false e h = record { runs = λ w q p. (h refl).runs w q p }

  pub Runs-last_reject : (b : Bool) (e : E) → Runs tx P (reject_if b e) (λ _. P)
  Runs-last_reject true e = record { runs = λ w q p. tt }
  Runs-last_reject false e = record { runs = λ w q p. (q, p) }

  pub Runs-require_then :
      {A B : Type 0} {R : B → Moment} (o : Option A) (e : E) {f : A → M E B}
      → ((a : A) → o ≡ some a → Runs tx P (f a) R)
      → Runs tx P (require o e >>= f) R
  unfolding ◌>>=◌
  Runs-require_then none e h = record { runs = λ w q p. tt }
  Runs-require_then (some a) e h = record { runs = λ w q p. (h a refl).runs w q p }

module _ {E A : Type 0} (tx : Option Time) (R : A → Moment) where
  commit-Runs :
      (fs : List Bool) (e : E) (start w : World) (a : A)
      → start.tx_start ≡ tx
      → R a w.clock w.db
      → PostRun tx R (after_commit start a (take_fault fs e w))
  commit-Runs [] e start w a s q = (s, q)
  commit-Runs (true ∷ fs) e start w a s q = tt
  commit-Runs (false ∷ fs) e start w a s q = (s, q)

  finish-Runs :
      (e : E) (start : World) (inner : Option Time) (r : Result E (Ending A) × World)
      → start.tx_start ≡ tx
      → PostRun inner (EndingRun R start.db) r
      → PostRun tx R (finish e start r)
  finish-Runs e start inner (err x, w) s q = tt
  finish-Runs e start inner (ok (roll_back a), w) s q = (s, q.1)
  finish-Runs e start inner (ok (commit a), w) s q = commit-Runs w.faults e start w a s q.1

  -- The body's `now()` is the clock at its begin.
  pub Runs-transaction :
      {P : Moment} (b c : E) (body : M E (Ending A))
      → ((t : Time) (start : Db)
          → P t start
          → Runs (some t) (λ t' db. (t' ≡ t) × (db ≡ start)) body (EndingRun R start))
      → Runs tx P (transaction b c body) R
  unfolding transaction ◌>>=◌
  Runs-transaction {P = P} b c body h =
      Runs-bind (λ _. P) (Runs-may_fail b)
        λ _. record {
          runs = λ w s p.
              finish-Runs c w (some w.clock) (body (record w { tx_start = some w.clock })) s
                ((h w.clock w.db p).runs (record w { tx_start = some w.clock }) refl (refl, refl));
        }

-- A transaction that begins at one clock and database.
pub Runs-transaction_from :
    {E A : Type 0} {tx : Option Time} (R : A → Moment) (at : Time) (start : Db) (b c : E)
    {body : M E (Ending A)}
    → Runs (some at) (λ t db. (t ≡ at) × (db ≡ start)) body (EndingRun R start)
    → Runs tx (λ t db. (t ≡ at) × (db ≡ start)) (transaction b c body) R
Runs-transaction_from {tx = tx} R at start b c {body = body} h =
    Runs-transaction tx R b c body λ t db p.
      subst (λ x. Runs (some x) (λ t' d. (t' ≡ x) × (d ≡ db)) body (EndingRun R db)) (sym p.0)
        (subst (λ y. Runs (some at) (λ t' d. (t' ≡ at) × (d ≡ y)) body (EndingRun R y)) (sym p.1) h)

-- A fact on the values at hand, before what holds of the database.
pub Runs-given :
    {E A X : Type 0} {tx : Option Time} {P : Moment} {m : M E A} {Q : A → Moment}
    → (X → Runs tx P m Q)
    → Runs tx (λ t db. X × P t db) m Q
Runs-given h = record { runs = λ w e p. (h p.0).runs w e p.1 }

-- What a call has established when it is known to return.
pub Runs-returned :
    {E A : Type 0} (Q : A → Moment) (P : Moment) (m : M E A) (w : World) (a : A)
    → Runs w.tx_start P m Q
    → P w.clock w.db
    → (m w).0 ≡ ok a
    → Q a (m w).1.clock (m w).1.db
Runs-returned Q P m w a h p e = returned-Runs w.tx_start Q (m w) a (h.runs w refl p) e
