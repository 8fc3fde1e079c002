-- ===== src/World/Returns.antt =====
-- Calls that start from one database: what they return with.
use kartochki_online_backend.Prelude.{
  ◌≡◌, refl, sym, subst, Bool, true, false, Option, none, some, arith,
}
use kartochki_online_backend.Database.{Db}
use kartochki_online_backend.World.{
  World, Result, ok, err, M, ◌>>=◌, reject_if, require, Ending, transaction, rethrow, on_error,
  recover, catch,
}
use kartochki_online_backend.World.Yields.{
  Post, Yields, EndingFrom, Yields-bind, Yields-unit, Yields-transaction,
}

pub Post-returned :
    {E A : Type 0} (Q : A → Db → Type 0) (r : Result E A × World) {a : A}
    → Post Q r
    → r.0 ≡ ok a
    → Q a r.1.db
Post-returned Q (ok b, w) {a} q e = let same : b ≡ a = ground arith in subst (λ x. Q x w.db) same q
Post-returned Q (err x, w) q e = cc

-- A transaction that begins at `start`.
pub Yields-transaction_from :
    {E A : Type 0} (R : A → Db → Type 0) (start : Db) (b c : E) {body : M E (Ending A)}
    → Yields (λ db. db ≡ start) body (EndingFrom R start)
    → Yields (λ db. db ≡ start) (transaction b c body) R
Yields-transaction_from R start b c {body = body} h =
    Yields-transaction R b c body
      λ begin e. subst (λ d. Yields (λ db. db ≡ d) body (EndingFrom R d)) (sym e) h

-- What follows a guard that lets the call pass.
pub Yields-reject_if :
    {E A : Type 0} {P : Db → Type 0} {R : A → Db → Type 0} (b : Bool) (e : E) {m : M E A}
    → (b ≡ false → Yields P m R)
    → Yields P (reject_if b e >>= λ _. m) R
Yields-reject_if {P = P} true e h =
    Yields-bind (λ _ _. ⊥) (record { yields = λ w p. tt })
      λ _. record { yields = λ w p. elim p [ ] }
Yields-reject_if {P = P} false e h =
    Yields-bind (λ _ db. P db) (record { yields = λ w p. p }) λ _. h refl

-- What follows a value that is there.
pub Yields-require_then :
    {E A B : Type 0} {P : Db → Type 0} {R : B → Db → Type 0} (o : Option A) (e : E) {f : A → M E B}
    → ((a : A) → o ≡ some a → Yields P (f a) R)
    → Yields P (require o e >>= f) R
unfolding ◌>>=◌
Yields-require_then none e h = record { yields = λ w p. tt }
Yields-require_then (some a) e h = record { yields = λ w p. (h a refl).yields w p }

-- A fact on the values at hand, before what holds of the database.
pub Yields-given_fact :
    {E A X : Type 0} {P : Db → Type 0} {m : M E A} {Q : A → Db → Type 0}
    → (X → Yields P m Q)
    → Yields (λ db. X × P db) m Q
Yields-given_fact h = record { yields = λ w p. (h p.0).yields w p.1 }

-- What follows a call of which nothing has to be known.
pub Yields-after :
    {E A B : Type 0} {P : Db → Type 0} {R : B → Db → Type 0} (m : M E A) {f : A → M E B}
    → ((a : A) → Yields (λ _. Unit {0}) (f a) R)
    → Yields P (m >>= f) R
Yields-after m k = Yields-bind (λ _ _. Unit {0}) (Yields-unit m) k

-- What follows a call whose value has `F`.
pub Yields-with :
    {E A B : Type 0} {P : Db → Type 0} {R : B → Db → Type 0} (F : A → Type 0) {m : M E A}
    {f : A → M E B}
    → Yields P m (λ a _. F a)
    → ((a : A) → F a → Yields (λ _. Unit {0}) (f a) R)
    → Yields P (m >>= f) R
Yields-with F h k = Yields-bind (λ a _. F a) h λ a. record { yields = λ w p. (k a p).yields w tt }

module _ {E A : Type 0} (R : A → Db → Type 0) where
  rethrow-Post :
      (r : Result E A × World) (after : E → M E (Unit {0})) → Post R r → Post R (rethrow r after)
  rethrow-Post (ok a, w) after q = q
  rethrow-Post (err e, w) after q = tt

  recover-Post :
      (r : Result E A × World) (handler : E → M E A)
      → ((e : E) → Yields (λ _. Unit {0}) (handler e) R)
      → Post R r
      → Post R (recover r handler)
  recover-Post (ok a, w) handler k q = q
  recover-Post (err e, w) handler k q = (k e).yields w tt

module _ {E A : Type 0} {P : Db → Type 0} {R : A → Db → Type 0} where
  pub Yields-on_error :
      {m : M E A} (after : E → M E (Unit {0})) → Yields P m R → Yields P (on_error m after) R
  unfolding on_error
  Yields-on_error {m = m} after h = record {
    yields = λ w p. rethrow-Post R (m w) after (h.yields w p);
  }

  pub Yields-catch :
      {m : M E A} (handler : E → M E A)
      → Yields P m R
      → ((e : E) → Yields (λ _. Unit {0}) (handler e) R)
      → Yields P (catch m handler) R
  unfolding catch
  Yields-catch {m = m} handler h k = record {
    yields = λ w p. recover-Post R (m w) handler k (h.yields w p);
  }
