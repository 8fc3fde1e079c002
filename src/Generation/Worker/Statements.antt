-- ===== src/Generation/Worker/Statements.antt =====
-- The progress of a generation under the statements (internal/dbgen/generation.sql.go).
use kartochki_online_backend.Prelude.{
  ℕ, ◌≤◌, some, none, ◌==◌, inl, inr, Bool-cases, String, ltb, ◌&&◌, All, All-update_where,
  count_where, arith,
}
use kartochki_online_backend.Provider.{Uuid}
use kartochki_online_backend.Database.{Db, Generation, processing, completed, failed_generation}
use kartochki_online_backend.Database.Payments.{user_exists}
use kartochki_online_backend.Database.Generations.{
  activate_project_by_id, CreateAssetParams, create_asset, asset_is_taken, delete_asset_by_id,
  is_source_of, points_to, asset_exists, generation_exists, CreateGeneratedCardParams,
  create_generated_card, is_card_of, delete_generated_cards_by_generation_id,
}
use kartochki_online_backend.Database.Progress.{
  clear_generation_archive_asset, mark_generation_completed, mark_generation_failed,
  mark_generation_processing, update_generation_progress, is_processing, is_unfinished, started_or,
}
use kartochki_online_backend.World.Keeps.{QueryKeeps}

abbrev InRange : Generation → Type 0
InRange g = g.progress_percent ≤ 100

abbrev pub ProgressInRange : Db → Type 0
ProgressInRange db = All InRange db.generations

pub update_generation_progress-InRange :
    (id : Uuid) (step : String) (percent : ℕ)
    → percent ≤ 100
    → QueryKeeps ProgressInRange (update_generation_progress id step percent)
unfolding update_generation_progress
update_generation_progress-InRange id step percent h now db p =
    All-update_where InRange (λ g. (g.id == id) && is_processing g.status)
      (λ g. record g { current_step = step; progress_percent = percent }) db.generations (λ g q. h)
      p

pub mark_generation_processing-InRange :
    (id : Uuid) (step : String) (percent : ℕ)
    → percent ≤ 100
    → QueryKeeps ProgressInRange (mark_generation_processing id step percent)
unfolding mark_generation_processing
mark_generation_processing-InRange id step percent h now db p =
    All-update_where InRange (λ g. (g.id == id) && is_unfinished g.status)
      (λ g. record g {
        status = processing;
        current_step = step;
        progress_percent = percent;
        error_message = "";
        started_at = some (started_or now g.started_at);
      })
      db.generations (λ g q. h) p

pub mark_generation_failed-InRange :
    (id : Uuid) (message : String) → QueryKeeps ProgressInRange (mark_generation_failed id message)
unfolding mark_generation_failed
mark_generation_failed-InRange id message now db p =
    All-update_where InRange (λ g. g.id == id)
      (λ g. record g {
        status = failed_generation;
        current_step = "failed";
        error_message = message;
        finished_at = some now;
      })
      db.generations (λ g q. q) p

pub clear_generation_archive_asset-InRange :
    (id : Uuid) → QueryKeeps ProgressInRange (clear_generation_archive_asset id)
unfolding clear_generation_archive_asset
clear_generation_archive_asset-InRange id now db p =
    All-update_where InRange (λ g. g.id == id) (λ g. record g { archive_asset_id = none })
      db.generations (λ g q. q) p

pub mark_generation_completed-InRange :
    (id archive : Uuid) → QueryKeeps ProgressInRange (mark_generation_completed id archive)
unfolding mark_generation_completed
mark_generation_completed-InRange id archive now db p =
    elim (Bool-cases (asset_exists archive db)) [
      | inl there ↦ rw there (
          All-update_where InRange (λ g. g.id == id)
            (λ g. record g {
              status = completed;
              current_step = "completed";
              progress_percent = 100;
              archive_asset_id = some archive;
              finished_at = some now;
            })
            db.generations (λ g q. omega arith) p)
      | inr missing ↦ rw missing p
    ]

pub activate_project_by_id-InRange :
    (id : Uuid) → QueryKeeps ProgressInRange (activate_project_by_id id)
unfolding activate_project_by_id
activate_project_by_id-InRange id now db p = p

pub delete_generated_cards-InRange :
    (id : Uuid) → QueryKeeps ProgressInRange (delete_generated_cards_by_generation_id id)
unfolding delete_generated_cards_by_generation_id
delete_generated_cards-InRange id now db p = p

pub create_asset-InRange : (arg : CreateAssetParams) → QueryKeeps ProgressInRange (create_asset arg)
unfolding create_asset
create_asset-InRange arg now db p =
    elim (Bool-cases (ltb 0 (count_where (asset_is_taken arg) db.assets))) [
      | inl taken ↦ rw taken p
      | inr free ↦ rw free (elim (Bool-cases (user_exists arg.user_id db.users)) [
        | inl user ↦ rw user p
        | inr nobody ↦ rw nobody p
      ])
    ]

pub create_generated_card-InRange :
    (arg : CreateGeneratedCardParams) → QueryKeeps ProgressInRange (create_generated_card arg)
unfolding create_generated_card
create_generated_card-InRange arg now db p =
    elim (Bool-cases (
      ltb 0 (
        count_where (λ c. is_card_of arg.generation_id c && (c.position == arg.position))
          db.generated_cards))) [
            | inl taken ↦ rw taken p
            | inr free ↦
                rw free
                  (elim (Bool-cases
                    (generation_exists arg.generation_id db && asset_exists arg.asset_id db)) [
                      | inl there ↦ rw there p
                      | inr missing ↦ rw missing p
                    ])
          ]

pub delete_asset_by_id-InRange : (id : Uuid) → QueryKeeps ProgressInRange (delete_asset_by_id id)
unfolding delete_asset_by_id
delete_asset_by_id-InRange id now db p =
    elim (Bool-cases (ltb 0 (count_where (is_source_of id) db.generations) && asset_exists id db)) [
      | inl used ↦ rw used p
      | inr free ↦ rw free (
          All-update_where InRange (λ g. asset_exists id db)
            (λ g. record g { archive_asset_id = points_to id g.archive_asset_id }) db.generations
            (λ g q. q) p)
    ]
