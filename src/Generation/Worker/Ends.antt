-- ===== src/Generation/Worker/Ends.antt =====
-- What a job that returns leaves of its generation (internal/generation/worker.go).
use kartochki_online_backend.Prelude.{
  ℕ, ◌≡◌, refl, subst, Bool, true, false, ◌&&◌, inl, inr, Bool-cases, Option-cases, String, some,
  List, ◌==◌, first, first-passes, count_where, update_where, update_where_none,
  count_where-cleared, if◌then◌else◌, arith,
}
use kartochki_online_backend.Prelude.Text.{trim_space}
use kartochki_online_backend.Calendar.{Time}
use kartochki_online_backend.Provider.{Uuid}
use kartochki_online_backend.Environment.{Environment}
use kartochki_online_backend.Database.{Db, Generation, completed, QueryPost}
use kartochki_online_backend.Database.Generations.{activate_project_by_id, asset_exists}
use kartochki_online_backend.Database.Progress.{
  get_generation_by_id, mark_generation_completed, mark_generation_processing, is_unfinished,
}
use kartochki_online_backend.World.{World, ok}
use kartochki_online_backend.World.Yields.{
  Yields, Yields-bind, Yields-expect, Yields-weaken, Yields-pure, Yields-fail, Post-ok,
}
use kartochki_online_backend.World.Returns.{
  Yields-require_then, Yields-after, Yields-with, Yields-on_error, Yields-catch,
}
use kartochki_online_backend.Storage.{Client, ArchiveFile}
use kartochki_online_backend.Generation.Types.{Error}
use kartochki_online_backend.Generation.Worker.{
  Studio, finish_generation, process_generation, fail_generation, process_marked, handle_generation,
}

abbrev pub in_work : Uuid → Generation → Bool
in_work id g = (g.id == id) && is_unfinished g.status

-- No row with the id is queued or processed.
abbrev pub Ended : Uuid → Db → Type 0
Ended id db = count_where (in_work id) db.generations ≡ 0

cleared :
    (id archive : Uuid) (now : Time) (g : Generation)
    → in_work id (
        if g.id == id
        then record g {
          status = completed;
          current_step = "completed";
          progress_percent = 100;
          archive_asset_id = some archive;
          finished_at = some now;
        }
        else g)
      ≡ false
cleared id archive now g = elim (Bool-cases (g.id == id)) [
  | inl same ↦ rw (same, same) refl
  | inr other ↦ rw (other, other) refl
]

mark_generation_completed-Ended :
    (id archive : Uuid) (now : Time) (db : Db)
    → QueryPost (λ _. Ended id) (mark_generation_completed id archive now db)
unfolding mark_generation_completed
mark_generation_completed-Ended id archive now db = elim (Bool-cases (asset_exists archive db)) [
  | inr missing ↦ rw missing tt
  | inl there ↦ rw there (
      count_where-cleared (in_work id) (λ g. g.id == id) _ db.generations
        λ g. cleared id archive now g)
]

still_none :
    (test : Generation → Bool) (set : Generation → Generation) (gs : List Generation)
    → count_where test gs ≡ 0
    → count_where test (update_where test set gs) ≡ 0
still_none test set gs h = rw (update_where_none test set gs h) h

mark_generation_processing-none :
    (id : Uuid) (step : String) (percent : ℕ) (now : Time) (db : Db)
    → QueryPost
        (λ rows d. (rows == 0) ≡ true → Ended id d)
        (mark_generation_processing id step percent now db)
unfolding mark_generation_processing
mark_generation_processing-none id step percent now db zero_rows =
    still_none (in_work id) _ db.generations (ground arith)

found-id :
    (id : Uuid) (now : Time) (db : Db)
    → QueryPost (λ row _. row.id ≡ id) (get_generation_by_id id now db)
unfolding get_generation_by_id
found-id id now db = elim (Option-cases (first (λ g. g.id == id) db.generations)) [
  | inl missing ↦ rw missing tt
  | inr (row, there) ↦
      rw there (let same = first-passes (λ g. g.id == id) db.generations row there in ground arith)
]

module _ (env : Environment) (disk : Client) (studio : Studio) where
  finish-Ended :
      (row : Generation) (files : List ArchiveFile)
      → Yields (λ _. Unit {0}) (finish_generation env disk studio row files) (λ _. Ended row.id)
  unfolding finish_generation activate_project_by_id
  finish-Ended row files = Yields-after _ λ _. Yields-after _ λ archive. Yields-after _ λ asset_id.
      Yields-after _ λ _.
        Yields-bind (λ _. Ended row.id)
          (Yields-on_error _ (
            Yields-expect _ _ _ λ now db p. mark_generation_completed-Ended row.id asset_id now db))
          λ _.
            Yields-bind (λ _. Ended row.id) (Yields-expect _ _ _ λ now db p. p)
              λ _. Yields-pure λ db p. p

  process-Ended :
      (id : Uuid) → Yields (λ _. Unit {0}) (process_generation env disk studio id) (λ _. Ended id)
  unfolding process_generation
  process-Ended id =
      Yields-with (λ row. row.id ≡ id) (Yields-expect _ _ _ λ now db p. found-id id now db)
        λ row same. Yields-after _ λ source. Yields-after _ λ types. Yields-after _ λ _.
          Yields-after _ λ product. Yields-after _ λ _. Yields-after _ λ files.
            subst
              (λ x.
                Yields (λ _. Unit {0}) (finish_generation env disk studio row files) (λ _. Ended x))
              same (finish-Ended row files)

  fail-Ends :
      (id : Uuid) (e : Error)
      → Yields (λ _. Unit {0}) (fail_generation env disk studio id e) (λ _. Ended id)
  unfolding fail_generation
  fail-Ends id e = Yields-after _ λ _. Yields-after _ λ _. Yields-fail

  marked-Ended :
      (id : Uuid) (rows : ℕ)
      → Yields
          (λ db. (rows == 0) ≡ true → Ended id db)
          (process_marked env disk studio id rows)
          (λ _. Ended id)
  marked-Ended id rows = elim (Bool-cases (rows == 0)) [
    | inl zero_rows ↦ rw zero_rows (Yields-pure λ db p. p refl)
    | inr more ↦ rw more (
        Yields-catch _ (Yields-weaken (process-Ended id) (λ db p. tt) λ a db q. q)
          λ e. fail-Ends id e)
  ]

  handle-Ended :
      (value : String) (id : Uuid)
      → env.parse_uuid (trim_space value) ≡ some id
      → Yields (λ _. Unit {0}) (handle_generation env disk studio value) (λ _. Ended id)
  unfolding handle_generation
  handle-Ended value id parsed = Yields-require_then _ _ λ x there.
      Yields-bind (λ rows db. (rows == 0) ≡ true → Ended x db)
        (Yields-expect _ _ _ λ now db p. mark_generation_processing-none x _ _ now db)
        λ rows.
          Yields-weaken (marked-Ended x rows) (λ db p. p)
            λ a db q. let same : x ≡ id = ground arith in subst (λ y. Ended y db) same q

  -- A job that returns without an error, on any files and with faults anywhere: no row with the
  -- generation's id is queued or processed any more.
  pub handle_generation-Ended :
      (value : String) (id : Uuid) (w : World)
      → env.parse_uuid (trim_space value) ≡ some id
      → (handle_generation env disk studio value w).0 ≡ ok tt
      → Ended id (handle_generation env disk studio value w).1.db
  handle_generation-Ended value id w parsed returned =
      Post-ok (Ended id) (handle_generation env disk studio value w)
        ((handle-Ended value id parsed).yields w tt) returned
