-- ===== src/Database/Progress.antt =====
-- The statements on the row of a generation and its context (internal/dbgen/generation.sql.go).
use kartochki_online_backend.Prelude.{
  ℕ, suc, Bool, true, false, ◌&&◌, Option, none, some, String, List, [], ◌∷◌, ◌++◌, ltb, ◌==◌,
  if◌then◌else◌, first, count_where, update_where,
}
use kartochki_online_backend.Calendar.{Time}
use kartochki_online_backend.Provider.{Uuid}
use kartochki_online_backend.Database.Rows.{
  Db, Generation, GenerationStatus, queued, processing, completed, failed_generation,
  GenerationProductContext,
}
use kartochki_online_backend.Database.Sql.{
  Query, reply, refused, one, unique_violation, check_violation, foreign_key_violation,
}
use kartochki_online_backend.Database.Payments.{user_exists}
use kartochki_online_backend.Database.Generations.{generation_exists, asset_exists}

pub record CreateGenerationParams : Type 0 where
  pub id : Uuid
  pub user_id : Uuid
  pub project_id : Uuid
  pub source_asset_id : Uuid
  pub marketplace_id : String
  pub style_id : String
  pub card_count : ℕ
  pub model_id : String

abbrev pub new_generation : Time → CreateGenerationParams → Generation
new_generation now arg = record {
  id = arg.id;
  user_id = arg.user_id;
  project_id = arg.project_id;
  source_asset_id = arg.source_asset_id;
  marketplace_id = arg.marketplace_id;
  style_id = arg.style_id;
  card_count = arg.card_count;
  status = queued;
  current_step = "queued";
  progress_percent = 0;
  error_message = "";
  archive_asset_id = none;
  started_at = none;
  finished_at = none;
  created_at = now;
  model_id = arg.model_id;
}

abbrev project_exists : Uuid → Db → Bool
project_exists id db = ltb 0 (count_where (λ p. p.id == id) db.projects)

-- check (card_count > 0), and the references to the user, the project and the source.
unfoldable pub create_generation : CreateGenerationParams → Query Generation
create_generation arg now db =
    if generation_exists arg.id db
    then (refused unique_violation, db)
    else if ltb 0 arg.card_count
    then (if user_exists arg.user_id db.users
          && (project_exists arg.project_id db && asset_exists arg.source_asset_id db)
        then (
          reply (new_generation now arg),
          record db { generations = db.generations ++ (new_generation now arg ∷ []) },
        )
        else (refused foreign_key_violation, db))
    else (refused check_violation, db)

pub record CreateGenerationProductContextParams : Type 0 where
  pub generation_id : Uuid
  pub name : String
  pub category : Option String
  pub brand : Option String
  pub description : Option String
  pub benefits : List String
  pub characteristics : List (String × String)

abbrev pub new_context :
    Uuid → Time → CreateGenerationProductContextParams → GenerationProductContext
new_context id now arg = record {
  id = id;
  generation_id = arg.generation_id;
  name = arg.name;
  category = arg.category;
  brand = arg.brand;
  description = arg.description;
  benefits = arg.benefits;
  characteristics = arg.characteristics;
  created_at = now;
}

unfoldable pub create_generation_product_context :
    CreateGenerationProductContextParams → Query GenerationProductContext
create_generation_product_context arg now db =
    let row = new_context db.next_id now arg in
    if generation_exists arg.generation_id db
    then (
      reply row,
      record db { product_contexts = db.product_contexts ++ (row ∷ []); next_id = suc db.next_id },
    )
    else (refused foreign_key_violation, db)

unfoldable pub get_generation_product_context_by_generation_id :
    Uuid → Query GenerationProductContext
get_generation_product_context_by_generation_id id now db =
    (one (first (λ c. c.generation_id == id) db.product_contexts), db)

unfoldable pub get_generation_by_id : Uuid → Query Generation
get_generation_by_id id now db = (one (first (λ g. g.id == id) db.generations), db)

abbrev key_of : Db → Option Uuid → String
key_of db none = ""
key_of db (some id) = elim (first (λ a. a.id == id) db.assets) [
  | none ↦ ""
  | some a ↦ a.storage_key
]

abbrev with_archive : Db → Option Generation → Option (Generation × String)
with_archive db none = none
with_archive db (some g) = some (g, key_of db g.archive_asset_id)

-- The row with the key of its archive.
unfoldable pub get_user_generation_by_id : Uuid → Uuid → Query (Generation × String)
get_user_generation_by_id id user now db =
    (one (with_archive db (first (λ g. (g.id == id) && (g.user_id == user)) db.generations)), db)

-- `update generations set … where test`
abbrev pub update_generations : (Generation → Bool) → (Generation → Generation) → Query ℕ
update_generations test set now db = (
  reply (count_where test db.generations),
  record db { generations = update_where test set db.generations },
)

unfoldable pub clear_generation_archive_asset : Uuid → Query ℕ
clear_generation_archive_asset id =
    update_generations (λ g. g.id == id) λ g. record g { archive_asset_id = none }

-- check (progress_percent between 0 and 100) holds of every value that the service writes.
-- archive_asset_id refers to a file.
unfoldable pub mark_generation_completed : Uuid → Uuid → Query ℕ
mark_generation_completed id archive now db =
    if asset_exists archive db
    then update_generations (λ g. g.id == id)
        (λ g. record g {
          status = completed;
          current_step = "completed";
          progress_percent = 100;
          archive_asset_id = some archive;
          finished_at = some now;
        })
        now db
    else (refused foreign_key_violation, db)

unfoldable pub mark_generation_failed : Uuid → String → Query ℕ
mark_generation_failed id message now =
    update_generations (λ g. g.id == id)
      (λ g. record g {
        status = failed_generation;
        current_step = "failed";
        error_message = message;
        finished_at = some now;
      })
      now

abbrev pub is_unfinished : GenerationStatus → Bool
is_unfinished queued = true
is_unfinished processing = true
is_unfinished _ = false

abbrev pub is_processing : GenerationStatus → Bool
is_processing processing = true
is_processing _ = false

-- coalesce(started_at, now())
abbrev pub started_or : Time → Option Time → Time
started_or now none = now
started_or now (some t) = t

unfoldable pub mark_generation_processing : Uuid → String → ℕ → Query ℕ
mark_generation_processing id step percent now =
    update_generations (λ g. (g.id == id) && is_unfinished g.status)
      (λ g. record g {
        status = processing;
        current_step = step;
        progress_percent = percent;
        error_message = "";
        started_at = some (started_or now g.started_at);
      })
      now

unfoldable pub update_generation_progress : Uuid → String → ℕ → Query ℕ
update_generation_progress id step percent =
    update_generations (λ g. (g.id == id) && is_processing g.status)
      λ g. record g { current_step = step; progress_percent = percent }
