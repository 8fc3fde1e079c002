-- ===== src/World/Recovers.antt =====
-- What the calls that go on after an error keep.
use kartochki_online_backend.Prelude.{◌+◌}
use kartochki_online_backend.Database.{Db}
use kartochki_online_backend.World.{
  World, Result, ok, err, M, swallow, ignore_error, rethrow, on_error, recover, catch, new_uuid,
}
use kartochki_online_backend.World.Keeps.{Keeps}

module _ {E A : Type 0} (P : Db → Type 0) where
  swallow-Keeps : (r : Result E A × World) → P r.1.db → P (swallow r).1.db
  swallow-Keeps (r, w) p = p

  rethrow-Keeps :
      (r : Result E A × World) (after : E → M E (Unit {0}))
      → ((e : E) → Keeps P (after e))
      → P r.1.db
      → P (rethrow r after).1.db
  rethrow-Keeps (ok a, w) after k p = p
  rethrow-Keeps (err e, w) after k p = (k e).keeps w p

  recover-Keeps :
      (r : Result E A × World) (handler : E → M E A)
      → ((e : E) → Keeps P (handler e))
      → P r.1.db
      → P (recover r handler).1.db
  recover-Keeps (ok a, w) handler k p = p
  recover-Keeps (err e, w) handler k p = (k e).keeps w p

module _ {E A : Type 0} {P : Db → Type 0} where
  pub Keeps-ignore_error : {m : M E A} → Keeps P m → Keeps P (ignore_error m)
  unfolding ignore_error
  Keeps-ignore_error {m = m} h = record { keeps = λ w p. swallow-Keeps P (m w) (h.keeps w p) }

  pub Keeps-on_error :
      {m : M E A} {after : E → M E (Unit {0})}
      → Keeps P m
      → ((e : E) → Keeps P (after e))
      → Keeps P (on_error m after)
  unfolding on_error
  Keeps-on_error {m = m} {after = after} h k = record {
    keeps = λ w p. rethrow-Keeps P (m w) after k (h.keeps w p);
  }

  pub Keeps-catch :
      {m : M E A} {handler : E → M E A}
      → Keeps P m
      → ((e : E) → Keeps P (handler e))
      → Keeps P (catch m handler)
  unfolding catch
  Keeps-catch {m = m} {handler = handler} h k = record {
    keeps = λ w p. recover-Keeps P (m w) handler k (h.keeps w p);
  }

pub Keeps-new_uuid :
    {E : Type 0} {P : Db → Type 0}
    → ((db : Db) → P db → P (record db { next_id = db.next_id + 1 }))
    → Keeps P (new_uuid {E = E})
unfolding new_uuid
Keeps-new_uuid h = record { keeps = λ w p. h w.db p }
