-- ===== src/World/Atomic.antt =====
-- Calls that change nothing when they fail.
use kartochki_online_backend.Prelude.{
  ◌≡◌, refl, subst, Bool, true, false, Option, none, some, List, [], ◌∷◌, arith, ℕ, ◌==◌,
  Bool-cases, inl, inr,
}
use kartochki_online_backend.Database.{Db, Reply, reply, refused, SqlError, broken, Query}
use kartochki_online_backend.World.{
  World, Result, ok, err, M, pure, require, reject_if, bind_result, ◌>>=◌, settle, may_fail, expect,
  Ending, commit, roll_back, finish, take_fault, after_commit, transaction, sql_now,
}
use kartochki_online_backend.World.Keeps.{may_fail-db}

-- An error leaves `db0`.
abbrev pub SameOnError : {E A : Type 0} → Db → Result E A × World → Type 0
SameOnError db0 (ok a, w) = Unit
SameOnError db0 (err e, w) = w.db ≡ db0

abbrev pub IsOk : {E A : Type 0} → Result E A × World → Type 0
IsOk (ok a, w) = Unit
IsOk (err e, w) = ⊥

pub record Atomic {E A : Type 0} (m : M E A) : Type 0 where
  pub atomic : (w : World) → SameOnError w.db (m w)

require-same : {E A : Type 0} (o : Option A) (e : E) (w : World) → (require o e w).1.db ≡ w.db
require-same none e w = refl
require-same (some a) e w = refl

reject_if-same : {E : Type 0} (b : Bool) (e : E) (w : World) → (reject_if b e w).1.db ≡ w.db
reject_if-same true e w = refl
reject_if-same false e w = refl

pub error-same :
    {E A : Type 0} (w : World) (r : Result E A × World) (e : E)
    → SameOnError w.db r
    → r.0 ≡ err e
    → r.1.db ≡ w.db
error-same w (ok a, v) e h failed = ground arith
error-same w (err x, v) e h failed = h

module _ {E A : Type 0} where
  commit-same :
      (fs : List Bool) (e : E) (start w : World) (a : A)
      → SameOnError start.db (after_commit start a (take_fault fs e w))
  commit-same [] e start w a = tt
  commit-same (true ∷ fs) e start w a = refl
  commit-same (false ∷ fs) e start w a = tt

  finish-same :
      (e : E) (start : World) (r : Result E (Ending A) × World)
      → SameOnError start.db (finish e start r)
  finish-same e start (err x, w) = refl
  finish-same e start (ok (roll_back a), w) = tt
  finish-same e start (ok (commit a), w) = commit-same w.faults e start w a

  bind-same :
      {B : Type 0} (db0 : Db) (r : Result E B × World) (f : B → M E A)
      → r.1.db ≡ db0
      → ((b : B) (w : World) → SameOnError w.db (f b w))
      → SameOnError db0 (bind_result r f)
  bind-same db0 (ok b, w) f same h = subst (λ d. SameOnError d (f b w)) same (h b w)
  bind-same db0 (err e, w) f same h = same

  -- A step that leaves the database alone, then an atomic one.
  pub Atomic-bind :
      {B : Type 0} (m : M E B) {f : B → M E A}
      → ((w : World) → (m w).1.db ≡ w.db)
      → ((b : B) → Atomic (f b))
      → Atomic (m >>= f)
  unfolding ◌>>=◌
  Atomic-bind m {f = f} same h = record {
    atomic = λ w. bind-same w.db (m w) f (same w) λ b. (h b).atomic;
  }

  pub Atomic-pure : {a : A} → Atomic (pure {E = E} a)
  Atomic-pure = record { atomic = λ w. tt }

  -- A transaction that fails is rolled back, also when its commit fails.
  pub Atomic-transaction : (b c : E) (body : M E (Ending A)) → Atomic (transaction b c body)
  unfolding transaction
  Atomic-transaction b c body =
      Atomic-bind (may_fail b) (may_fail-db b)
        λ _. record { atomic = λ w. finish-same c w (body (record w { tx_start = some w.clock })) }

  settle-same :
      (wrap : SqlError → E) (r : Reply A × Db) (w : World) (db0 : Db)
      → ((e : SqlError) → r.0 ≡ refused e → r.1 ≡ db0)
      → SameOnError db0 (settle wrap r w)
  settle-same wrap (reply a, db) w db0 h = tt
  settle-same wrap (refused e, db) w db0 h = h e refl

  -- A statement that changes nothing when it is refused.
  pub Atomic-expect :
      (wrap : SqlError → E) (q : Query A)
      → ((now : _) (db : Db) (e : SqlError) → (q now db).0 ≡ refused e → (q now db).1 ≡ db)
      → Atomic (expect wrap q)
  unfolding expect
  Atomic-expect wrap q h = Atomic-bind (may_fail (wrap broken)) (may_fail-db (wrap broken)) λ _.
      record { atomic = λ w. settle-same wrap (q (sql_now w) w.db) w w.db (h (sql_now w) w.db) }

  bind_pure-same :
      {B : Type 0} (db0 : Db) (r : Result E A × World) (b : B)
      → SameOnError db0 r
      → SameOnError db0 (bind_result r (λ _. pure b))
  bind_pure-same db0 (ok a, w) b h = tt
  bind_pure-same db0 (err e, w) b h = h

  -- An atomic step whose reply is dropped.
  pub Atomic-then_pure : {B : Type 0} {m : M E A} (b : B) → Atomic m → Atomic (m >>= λ _. pure b)
  unfolding ◌>>=◌
  Atomic-then_pure {m = m} b h = record { atomic = λ w. bind_pure-same w.db (m w) b (h.atomic w) }

  never_fails-same :
      {B : Type 0} (db0 : Db) (r : Result E B × World) (f : B → M E A)
      → SameOnError db0 r
      → ((b : B) (w : World) → IsOk (f b w))
      → SameOnError db0 (bind_result r f)
  never_fails-same db0 (ok b, w) f h good = ok-same (f b w) (good b w)
    where
      ok-same : (r : Result E A × World) → IsOk r → SameOnError db0 r
      ok-same (ok a, v) g = tt
      ok-same (err e, v) g = elim g [ ]
  never_fails-same db0 (err e, w) f h good = h

  -- An atomic step, then steps that return no error.
  pub Atomic-then_ok :
      {B : Type 0} {m : M E B} (f : B → M E A)
      → Atomic m
      → ((b : B) (w : World) → IsOk (f b w))
      → Atomic (m >>= f)
  unfolding ◌>>=◌
  Atomic-then_ok {m = m} f h good = record {
    atomic = λ w. never_fails-same w.db (m w) f (h.atomic w) good;
  }

  pub Atomic-require :
      {B : Type 0} (o : Option B) (e : E) {f : B → M E A}
      → ((b : B) → Atomic (f b))
      → Atomic (require o e >>= f)
  Atomic-require o e h = Atomic-bind (require o e) (require-same o e) h

  pub Atomic-reject_if :
      (b : Bool) (e : E) {f : Unit {0} → M E A}
      → ((u : Unit {0}) → Atomic (f u))
      → Atomic (reject_if b e >>= f)
  Atomic-reject_if b e h = Atomic-bind (reject_if b e) (reject_if-same b e) h

module _ {E : Type 0} where
  rows-same :
      (wrap : SqlError → E) (e : E) (r : Reply ℕ × Db) (w : World) (db0 : Db)
      → ((x : SqlError) → r.0 ≡ refused x → r.1 ≡ db0)
      → ((n : ℕ) → r.0 ≡ reply n → (n == 0) ≡ true → r.1 ≡ db0)
      → SameOnError db0 (bind_result (settle wrap r w) (λ n. reject_if (n == 0) e))
  rows-same wrap e (refused x, db) w db0 h k = h x refl
  rows-same wrap e (reply n, db) w db0 h k = elim (Bool-cases (n == 0)) [
    | inl z ↦ rw z (k n refl z)
    | inr z ↦ rw z tt
  ]

  -- A statement, then an error if it affected no row.
  pub Atomic-expect_rows :
      (wrap : SqlError → E) (q : Query ℕ) (e : E)
      → ((now : _) (db : Db) (x : SqlError) → (q now db).0 ≡ refused x → (q now db).1 ≡ db)
      → ((now : _) (db : Db) (n : ℕ) → (q now db).0 ≡ reply n → (n == 0) ≡ true → (q now db).1 ≡ db)
      → Atomic (expect wrap q >>= λ n. reject_if (n == 0) e)
  unfolding expect ◌>>=◌
  Atomic-expect_rows wrap q e h k = record {
    atomic = λ w. go w (may_fail (wrap broken) w) (may_fail-db (wrap broken) w);
  }
    where
      go :
          (w : World) (r : Result E (Unit {0}) × World)
          → r.1.db ≡ w.db
          → SameOnError w.db (
              bind_result
                (bind_result r (λ _ v. settle wrap (q (sql_now v) v.db) v))
                (λ n. reject_if (n == 0) e))
      go w (err x, v) same = same
      go w (ok _, v) same =
          subst
            (λ d.
              SameOnError d
                (bind_result (settle wrap (q (sql_now v) v.db) v) (λ n. reject_if (n == 0) e)))
            same
            (rows-same wrap e (q (sql_now v) v.db) v v.db (h (sql_now v) v.db) (k (sql_now v) v.db))
