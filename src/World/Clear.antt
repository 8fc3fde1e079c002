-- ===== src/World/Clear.antt =====
-- Calls in a world without faults: what a statement replies is what the caller sees.
use kartochki_online_backend.Prelude.{
  ℕ, ◌+◌, ◌≡◌, refl, ◌∙◌, Option, none, some, List, [], ◌∷◌, ◌++◌,
}
use kartochki_online_backend.Database.{reply, SqlError, no_rows, broken, Query, one}
use kartochki_online_backend.World.{
  World, Result, ok, err, bind_result, M, ◌>>=◌, settle, settle_optional, may_fail, expect, find,
  send, Message, sql_now, pure, time_now,
}

module _ {E : Type 0} (w : World) (clear : w.faults ≡ []) where
  pub may_fail-clear : (e : E) → may_fail e w ≡ (ok tt, w)
  unfolding may_fail
  may_fail-clear e = rw clear refl

  pub send-clear :
      (e : E) (m : Message) → send e m w ≡ (ok tt, record w { outbox = w.outbox ++ (m ∷ []) })
  unfolding send ◌>>=◌
  send-clear e m = rw (may_fail-clear e) refl

  pub expect-clear :
      {A : Type 0} (wrap : SqlError → E) (q : Query A)
      → expect wrap q w ≡ settle wrap (q (sql_now w) w.db) w
  unfolding expect ◌>>=◌
  expect-clear wrap q = rw (may_fail-clear (wrap broken)) refl

  pub find-clear :
      {A : Type 0} (wrap : SqlError → E) (q : Query A)
      → find wrap q w ≡ settle_optional wrap (q (sql_now w) w.db) w
  unfolding find ◌>>=◌
  find-clear wrap q = rw (may_fail-clear (wrap broken)) refl

-- The call returns `a` and leaves the database, and no fault.
pub record Reads {E A : Type 0} (m : M E A) (w : World) (a : A) : Type 0 where
  pub next : World
  pub runs : m w ≡ (ok a, next)
  pub same_db : next.db ≡ w.db
  pub still_clear : next.faults ≡ []

module _ {E A : Type 0} where
  pub Reads-pure : (w : World) (a : A) → w.faults ≡ [] → Reads (pure {E = E} a) w a
  Reads-pure w a clear = record { next = w; runs = refl; same_db = refl; still_clear = clear }

  pub Reads-bind :
      {B : Type 0} (m : M E B) (f : B → M E A) (w : World) (b : B) (a : A)
      → Reads m w b
      → ((v : World) → v.db ≡ w.db → v.faults ≡ [] → Reads (f b) v a)
      → Reads (m >>= f) w a
  unfolding ◌>>=◌
  Reads-bind m f w b a h k =
      let then_ = k h.next h.same_db h.still_clear in
      record {
        next = then_.next;
        runs = rw h.runs then_.runs;
        same_db = then_.same_db ∙ h.same_db;
        still_clear = then_.still_clear;
      }

  pub Reads-result :
      {B : Type 0} (m : M E B) (f : B → M E A) (w : World) (b : B) (r : Result E A)
      → Reads m w b
      → ((v : World) → v.db ≡ w.db → v.faults ≡ [] → (f b v).0 ≡ r)
      → ((m >>= f) w).0 ≡ r
  unfolding ◌>>=◌
  Reads-result m f w b r h k = rw h.runs (k h.next h.same_db h.still_clear)

  find_one-runs :
      (wrap : SqlError → E) (o : Option A) (w : World)
      → settle_optional wrap (one o, w.db) w ≡ (ok o, w)
  find_one-runs wrap none w = refl
  find_one-runs wrap (some a) w = refl

  -- A statement that reads one row, or none.
  pub Reads-find :
      (wrap : SqlError → E) (q : Query A) (w : World) (o : Option A)
      → w.faults ≡ []
      → q (sql_now w) w.db ≡ (one o, w.db)
      → Reads (find wrap q) w o
  Reads-find wrap q w o clear h = record {
    next = w;
    runs = rw (find-clear w clear wrap q, h) (find_one-runs wrap o w);
    same_db = refl;
    still_clear = clear;
  }

  pub Reads-expect :
      (wrap : SqlError → E) (q : Query A) (w : World) (a : A)
      → w.faults ≡ []
      → q (sql_now w) w.db ≡ (reply a, w.db)
      → Reads (expect wrap q) w a
  Reads-expect wrap q w a clear h = record {
    next = w;
    runs = rw (expect-clear w clear wrap q, h) refl;
    same_db = refl;
    still_clear = clear;
  }

pub Reads-time_now : (E : Type 0) (w : World) → w.faults ≡ [] → Reads (time_now {E = E}) w w.clock
unfolding time_now
Reads-time_now E w clear = go w.ticks refl
  where
    go : (ts : List ℕ) → w.ticks ≡ ts → Reads (time_now {E = E}) w w.clock
    go [] e = record { next = w; runs = rw e refl; same_db = refl; still_clear = clear }
    go (t ∷ ts) e = record {
      next = record w { clock = w.clock + t; ticks = ts };
      runs = rw e refl;
      same_db = refl;
      still_clear = clear;
    }

-- The reply of a statement that reads one row, or none, as the caller maps it.
abbrev pub reply_or : {E A B : Type 0} → E → (A → B) → Option A → Result E B
reply_or missing f none = err missing
reply_or missing f (some a) = ok (f a)

pub expect-one-result :
    {E A B : Type 0} (wrap : SqlError → E) (q : Query A) (f : A → B) (w : World) (o : Option A)
    → w.faults ≡ []
    → q (sql_now w) w.db ≡ (one o, w.db)
    → ((expect wrap q >>= λ a. pure (f a)) w).0 ≡ reply_or (wrap no_rows) f o
unfolding ◌>>=◌
expect-one-result {E} {A} wrap q f w o clear h = rw (expect-clear w clear wrap q, h) (mapped o)
  where
    mapped :
        (o : Option A)
        → (bind_result {E = E} (settle wrap (one o, w.db) w) (λ a. pure (f a))).0
          ≡ reply_or (wrap no_rows) f o
    mapped none = refl
    mapped (some a) = refl
