-- ===== src/World/Untouched.antt =====
-- Calls that leave the rows and the files as they were.
use kartochki_online_backend.Prelude.{◌≡◌, refl, ◌∙◌, Bool, true, false, List, [], ◌∷◌}
use kartochki_online_backend.Calendar.{Time}
use kartochki_online_backend.Database.{Query, reply, SqlError, broken}
use kartochki_online_backend.World.{
  World, M, ◌>>=◌, bind_result, take_fault, settle, sql_now, may_fail, expect,
}

abbrev pub Untouched : World → World → Type 0
Untouched v w = (v.db ≡ w.db) × (v.files ≡ w.files)

module _ {E A B : Type 0} (wrap : SqlError → E) (q : Query A) (a : A) (f : A → M E B) where
  settled :
      (w v : World)
      → q (sql_now v) v.db ≡ (reply a, v.db)
      → Untouched v w
      → Untouched (f a v).1 v
      → Untouched (bind_result (settle wrap (q (sql_now v) v.db) v) f).1 w
  settled w v same vw fv = rw same (fv.0 ∙ vw.0, fv.1 ∙ vw.1)

  -- A statement that replies with `a` and changes nothing, before a call that changes nothing.
  pub Untouched-expect :
      (w : World)
      → ((now : Time) → q now w.db ≡ (reply a, w.db))
      → ((v : World) → Untouched (f a v).1 v)
      → Untouched ((expect wrap q >>= f) w).1 w
  unfolding expect may_fail ◌>>=◌
  Untouched-expect w same k = by_faults w.faults
    where
      by_faults :
          (fs : List Bool)
          → Untouched
              (bind_result
                (bind_result
                  (take_fault fs (wrap broken) w)
                  λ _ v. settle wrap (q (sql_now v) v.db) v)
                f).1
              w
      by_faults [] = settled w w (same _) (refl, refl) (k w)
      by_faults (true ∷ fs) = (refl, refl)
      by_faults (false ∷ fs) =
          settled w (record w { faults = fs }) (same _) (refl, refl) (k (record w { faults = fs }))
