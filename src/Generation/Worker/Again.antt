-- ===== src/Generation/Worker/Again.antt =====
-- A job for a generation that has ended (internal/generation/worker.go).
use kartochki_online_backend.Prelude.{ℕ, ◌≡◌, refl, some, String, update_where_none}
use kartochki_online_backend.Prelude.Text.{trim_space}
use kartochki_online_backend.Calendar.{Time}
use kartochki_online_backend.Provider.{Uuid}
use kartochki_online_backend.Environment.{Environment}
use kartochki_online_backend.Database.{Db, reply}
use kartochki_online_backend.Database.Progress.{mark_generation_processing}
use kartochki_online_backend.World.{World, ◌>>=◌}
use kartochki_online_backend.World.Untouched.{Untouched, Untouched-expect}
use kartochki_online_backend.Storage.{Client}
use kartochki_online_backend.Generation.Worker.{Studio, process_marked, handle_generation}
use kartochki_online_backend.Generation.Worker.Ends.{in_work, Ended}

mark_generation_processing-Ended :
    (id : Uuid) (step : String) (percent : ℕ) (now : Time) (db : Db)
    → Ended id db
    → mark_generation_processing id step percent now db ≡ (reply 0, db)
unfolding mark_generation_processing
mark_generation_processing-Ended id step percent now db ended =
    rw (update_where_none (in_work id) _ db.generations ended, ended) refl

module _ (env : Environment) (disk : Client) (studio : Studio) where
  -- A job for a generation of which no row is queued or processed changes no row and no file, with
  -- faults anywhere.
  pub handle_generation-Ended_again :
      (value : String) (id : Uuid) (w : World)
      → env.parse_uuid (trim_space value) ≡ some id
      → Ended id w.db
      → Untouched (handle_generation env disk studio value w).1 w
  unfolding handle_generation ◌>>=◌
  handle_generation-Ended_again value id w parsed ended = rw parsed (
      Untouched-expect _ _ 0 (process_marked env disk studio id) w
        (λ now. mark_generation_processing-Ended id _ _ now w.db ended) λ v. (refl, refl))
