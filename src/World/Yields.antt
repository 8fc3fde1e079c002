-- ===== src/World/Yields.antt =====
-- Partial correctness of a service call: from a database with `P`, a call that returns `a` leaves
-- one with `Q a`. What a transaction commits is all that it changes.
use kartochki_online_backend.Prelude.{
  ◌≡◌, refl, sym, subst, Option, none, some, Bool, true, false, List, [], ◌∷◌, arith, if◌then◌else◌,
}
use kartochki_online_backend.Calendar.{Time}
use kartochki_online_backend.Database.{
  Db, Reply, reply, refused, SqlError, no_rows, broken, Query, QueryPost, QueryPostOption,
}
use kartochki_online_backend.World.{
  require, World, Result, ok, err, M, bind_result, ◌>>=◌, settle, settle_optional, may_fail, expect,
  find, pure, fail, sql_now, Ending, commit, roll_back, finish, take_fault, after_commit,
  transaction,
}
use kartochki_online_backend.World.Keeps.{Keeps, Keeps-may_fail, may_fail-db}

abbrev pub Post : {E A : Type 0} → (A → Db → Type 0) → Result E A × World → Type 0
Post Q (ok a, w) = Q a w.db
Post Q (err e, w) = Unit

pub record Yields {E A : Type 0} (P : Db → Type 0) (m : M E A) (Q : A → Db → Type 0) : Type 0 where
  pub yields : (w : World) → P w.db → Post Q (m w)

-- What a committed transaction leaves; a rolled back one leaves what it found.
abbrev pub EndingPost : {A : Type 0} → (Db → Type 0) → Ending A → Db → Type 0
EndingPost R (commit a) db = R db
EndingPost R (roll_back a) db = Unit

-- What a transaction that began at `start` leaves when it returns.
abbrev pub EndingFrom : {A : Type 0} → (A → Db → Type 0) → Db → Ending A → Db → Type 0
EndingFrom R start (commit a) db = R a db
EndingFrom R start (roll_back a) db = R a start

module _ {E : Type 0} (P : Db → Type 0) where
  bind_result-yields :
      {A B : Type 0} (r : Result E A × World) (f : A → M E B) (Q : A → Db → Type 0)
      (R : B → Db → Type 0)
      → ((a : A) → Yields (Q a) (f a) R)
      → Post Q r
      → Post R (bind_result r f)
  bind_result-yields (ok a, w) f Q R h p = (h a).yields w p
  bind_result-yields (err e, w) f Q R h p = tt

  Post-of_db : {A : Type 0} (r : Result E A × World) → P r.1.db → Post (λ _. P) r
  Post-of_db (ok a, w) p = p
  Post-of_db (err e, w) p = tt

  settle-yields :
      {A : Type 0} (wrap : SqlError → E) (Q : A → Db → Type 0) (r : Reply A × Db) (w : World)
      → QueryPost Q r
      → Post Q (settle wrap r w)
  settle-yields wrap Q (reply a, db) w p = p
  settle-yields wrap Q (refused e, db) w p = tt

  settle_optional-yields :
      {A : Type 0} (wrap : SqlError → E) (Q : Option A → Db → Type 0) (r : Reply A × Db) (w : World)
      → QueryPostOption Q r
      → Post Q (settle_optional wrap r w)
  settle_optional-yields wrap Q (reply a, db) w p = p
  settle_optional-yields wrap Q (refused no_rows, db) w p = p
  settle_optional-yields wrap Q (refused _, db) w p = tt

  commit-Post :
      {A : Type 0} (fs : List Bool) (e : E) (start w : World) (a : A)
      → P start.db
      → P w.db
      → P (after_commit start a (take_fault fs e w)).1.db
  commit-Post [] e start w a p q = q
  commit-Post (true ∷ fs) e start w a p q = p
  commit-Post (false ∷ fs) e start w a p q = q

  finish-Post :
      {A : Type 0} (e : E) (start : World) (r : Result E (Ending A) × World)
      → P start.db
      → Post (EndingPost P) r
      → P (finish e start r).1.db
  finish-Post e start (err x, w) p q = p
  finish-Post e start (ok (roll_back a), w) p q = p
  finish-Post e start (ok (commit a), w) p q = commit-Post w.faults e start w a p q

module _ {E : Type 0} {P : Db → Type 0} where
  pub Yields-bind :
      {A B : Type 0} {m : M E A} {f : A → M E B} {R : B → Db → Type 0} (Q : A → Db → Type 0)
      → Yields P m Q
      → ((a : A) → Yields (Q a) (f a) R)
      → Yields P (m >>= f) R
  unfolding ◌>>=◌
  Yields-bind {m = m} {f = f} {R = R} Q h k = record {
    yields = λ w p. bind_result-yields P (m w) f Q R k (h.yields w p);
  }

  -- A call that keeps `P` yields it.
  pub Yields-of_Keeps : {A : Type 0} {m : M E A} → Keeps P m → Yields P m (λ _. P)
  Yields-of_Keeps {m = m} h = record { yields = λ w p. Post-of_db P (m w) (h.keeps w p) }

  pub Yields-pure :
      {A : Type 0} {a : A} {Q : A → Db → Type 0}
      → ((db : Db) → P db → Q a db)
      → Yields P (pure {E = E} a) Q
  Yields-pure h = record { yields = λ w p. h w.db p }

  -- What every call yields.
  pub Yields-unit : {A : Type 0} (m : M E A) → Yields P m (λ _ _. Unit {0})
  Yields-unit m = record { yields = λ w p. Post-of_db (λ _. Unit {0}) (m w) tt }

  pub Yields-fail : {A : Type 0} {e : E} {Q : A → Db → Type 0} → Yields P (fail {A = A} e) Q
  Yields-fail = record { yields = λ w p. tt }

  pub Yields-if :
      {A : Type 0} (b : Bool) {m n : M E A} {Q : A → Db → Type 0}
      → Yields P m Q
      → Yields P n Q
      → Yields P (if b then m else n) Q
  Yields-if true h k = h
  Yields-if false h k = k

  pub Yields-require :
      {A : Type 0} (o : Option A) (e : E) (Q : A → Db → Type 0)
      → ((a : A) (db : Db) → o ≡ some a → P db → Q a db)
      → Yields P (require o e) Q
  Yields-require none e Q h = record { yields = λ w p. tt }
  Yields-require (some a) e Q h = record { yields = λ w p. h a w.db refl p }

  pub Yields-weaken :
      {A : Type 0} {m : M E A} {P' : Db → Type 0} {Q Q' : A → Db → Type 0}
      → Yields P' m Q'
      → ((db : Db) → P db → P' db)
      → ((a : A) (db : Db) → Q' a db → Q a db)
      → Yields P m Q
  Yields-weaken {m = m} {Q = Q} {Q' = Q'} h before after = record {
    yields = λ w p. post (m w) (h.yields w (before w.db p));
  }
    where
      post : (r : Result E _ × World) → Post Q' r → Post Q r
      post (ok a, w) q = after a w.db q
      post (err e, w) q = tt

  pub Yields-expect :
      {A : Type 0} (wrap : SqlError → E) (q : Query A) (Q : A → Db → Type 0)
      → ((now : Time) (db : Db) → P db → QueryPost Q (q now db))
      → Yields P (expect wrap q) Q
  unfolding expect ◌>>=◌
  Yields-expect wrap q Q h =
      Yields-bind (λ _. P) (Yields-of_Keeps (Keeps-may_fail (wrap broken)))
        λ _. record { yields = λ w p. settle-yields P wrap Q (q (sql_now w) w.db) w (h _ w.db p) }

  pub Yields-find :
      {A : Type 0} (wrap : SqlError → E) (q : Query A) (Q : Option A → Db → Type 0)
      → ((now : Time) (db : Db) → P db → QueryPostOption Q (q now db))
      → Yields P (find wrap q) Q
  unfolding find ◌>>=◌
  Yields-find wrap q Q h =
      Yields-bind (λ _. P) (Yields-of_Keeps (Keeps-may_fail (wrap broken)))
        λ _. record {
          yields = λ w p. settle_optional-yields P wrap Q (q (sql_now w) w.db) w (h _ w.db p);
        }

  -- A transaction keeps what its body yields when it commits.
  pub Keeps-transaction :
      {A : Type 0} (b c : E) {body : M E (Ending A)}
      → Yields P body (EndingPost P)
      → Keeps P (transaction b c body)
  unfolding transaction ◌>>=◌
  Keeps-transaction b c {body = body} h = record {
    keeps = λ w p. bind_keeps (may_fail b w) (subst P (sym (may_fail-db b w)) p);
  }
    where
      bind_keeps :
          (r : Result E (Unit {0}) × World)
          → P r.1.db
          → P (bind_result r (λ _ v. finish c v (body (record v { tx_start = some v.clock })))).1.db
      bind_keeps (ok _, v) q =
          finish-Post P c v _ q (h.yields (record v { tx_start = some v.clock }) q)
      bind_keeps (err e, v) q = q

  -- A body whose statements keep `P` yields it, however it ends.
  pub Ends-of_Keeps :
      {A : Type 0} {body : M E (Ending A)} → Keeps P body → Yields P body (EndingPost P)
  Ends-of_Keeps h = Yields-weaken (Yields-of_Keeps h) (λ db p. p) by_ending
    where
      by_ending : {A : Type 0} (a : Ending A) (db : Db) → P db → EndingPost P a db
      by_ending (commit a) db p = p
      by_ending (roll_back a) db p = tt

  pub Keeps-transaction_of_body :
      {A : Type 0} (b c : E) {body : M E (Ending A)} → Keeps P body → Keeps P (transaction b c body)
  Keeps-transaction_of_body b c h = Keeps-transaction b c (Ends-of_Keeps h)

  -- A fact on the values at hand, beside what holds of the database.
  pub Yields-given :
      {A X : Type 0} {m : M E A} {Q : A → Db → Type 0}
      → (X → Yields P m Q)
      → Yields (λ db. P db × X) m Q
  Yields-given h = record { yields = λ w p. (h p.1).yields w p.0 }

module _ {E A : Type 0} (R : A → Db → Type 0) where
  commit-returns :
      (fs : List Bool) (e : E) (start w : World) (a : A)
      → R a w.db
      → Post R (after_commit start a (take_fault fs e w))
  commit-returns [] e start w a q = q
  commit-returns (true ∷ fs) e start w a q = tt
  commit-returns (false ∷ fs) e start w a q = q

  finish-returns :
      (e : E) (start : World) (r : Result E (Ending A) × World)
      → Post (EndingFrom R start.db) r
      → Post R (finish e start r)
  finish-returns e start (err x, w) q = tt
  finish-returns e start (ok (roll_back a), w) q = q
  finish-returns e start (ok (commit a), w) q = commit-returns w.faults e start w a q

  -- What a transaction returns with, from what its body ends with.
  pub Yields-transaction :
      {P : Db → Type 0} (b c : E) (body : M E (Ending A))
      → ((start : Db) → P start → Yields (λ db. db ≡ start) body (EndingFrom R start))
      → Yields P (transaction b c body) R
  unfolding transaction ◌>>=◌
  Yields-transaction {P = P} b c body h = record {
    yields = λ w p. bind_returns (may_fail b w) (subst P (sym (may_fail-db b w)) p);
  }
    where
      bind_returns :
          (r : Result E (Unit {0}) × World)
          → P r.1.db
          → Post R (bind_result r (λ _ v. finish c v (body (record v { tx_start = some v.clock }))))
      bind_returns (ok _, v) p =
          finish-returns c v _ ((h v.db p).yields (record v { tx_start = some v.clock }) refl)
      bind_returns (err e, v) p = tt

-- What a call has established when it is known to return.
pub Post-ok :
    {E : Type 0} (Q : Db → Type 0) (r : Result E (Unit {0}) × World)
    → Post (λ _. Q) r
    → r.0 ≡ ok tt
    → Q r.1.db
Post-ok Q (ok a, w) q e = q
Post-ok Q (err x, w) q e = ground arith
