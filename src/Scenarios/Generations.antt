-- ===== src/Scenarios/Generations.antt =====
-- The theorems on generations at concrete data.
use kartochki_online_backend.Prelude.{
  ◌≡◌, refl, none, some, [], ◌∷◌, str_eq, if◌then◌else◌, List, String, arith,
}
use kartochki_online_backend.Prelude.Int.{pos}
use kartochki_online_backend.Prelude.Text.{
  trim_space, byte_len, append, concat_all, has_prefix, to_dashes,
}
use kartochki_online_backend.Environment.{Environment}
use kartochki_online_backend.Database.{Asset, source_image, Generation, queued, completed}
use kartochki_online_backend.Database.Generations.{get_user_asset_by_id}
use kartochki_online_backend.Database.Generations.{
  get_asset_by_id, list_generation_card_types, create_asset, create_generated_card,
  activate_project_by_id,
}
use kartochki_online_backend.Database.Progress.{
  mark_generation_processing, mark_generation_completed, update_generation_progress,
  get_generation_by_id, get_generation_product_context_by_generation_id,
}
use kartochki_online_backend.Database.Catalog.{order_by}
use kartochki_online_backend.Generation.Persistence.{
  persist_generated_card, card_body, persist_archive_asset,
}
use kartochki_online_backend.World.{
  World, ok, may_fail, expect, ◌>>=◌, find, catch, on_error, ignore_error, new_uuid, transaction,
}
use kartochki_online_backend.Generation.Types.{CreateInput, NormalizedCreateInput}
use kartochki_online_backend.Generation.Catalog.{contains_id}
use kartochki_online_backend.Generation.Validation.{
  collect_card_types, card_types_of, card_count_of, model_of, normalize_benefits,
  normalize_characteristics, normalize_product, validate_product_context, validate_create_input,
}
use kartochki_online_backend.Generation.Validation.CardTypes.{card_types_of-dedup}
use kartochki_online_backend.Generation.Validation.Bounds.{AllValid, validate_create_input-IsValid}
use kartochki_online_backend.Storage.{
  Client, save, read, create_zip, full_path, trim_slashes, to_slashes, zip_entries,
}
use kartochki_online_backend.Generation.Worker.{
  Studio, handle_generation, process_generation, fail_generation, load_source_image,
  load_product_context, render_cards, render_card, finish_generation, sanitize_file_segment,
  file_name,
}
use kartochki_online_backend.Generation.Worker.Ends.{Ended, handle_generation-Ended}
use kartochki_online_backend.Generation.Worker.Again.{handle_generation-Ended_again}
use kartochki_online_backend.Generation.Worker.Statements.{ProgressInRange}
use kartochki_online_backend.Generation.Worker.Progress.{handle_generation-ProgressInRange}
use kartochki_online_backend.World.Untouched.{Untouched}
use kartochki_online_backend.Scenarios.Shop.{environment, world, noon}

-- Two of the three items are the same type.
card_types_of-dedup_example :
    card_types_of ("main" ∷ " sizes " ∷ "main" ∷ []) ≡ some ("main" ∷ "sizes" ∷ [])
unfolding contains_id trim_space
card_types_of-dedup_example = card_types_of-dedup ("main" ∷ " sizes " ∷ "main" ∷ [])

abbrev env : Environment
env = record environment {
  parse_uuid = λ s. if str_eq s "anna" then some 1 else if str_eq s "photo" then some 71 else none;
}

abbrev photo : Asset
photo = record {
  id = 71;
  user_id = 1;
  kind = source_image;
  storage_key = "uploads/anna/photo.png";
  original_filename = "mug.png";
  mime_type = "image/png";
  size_bytes = 4096;
  created_at = noon;
}

abbrev studio : World
studio = record world { db = record world.db { assets = photo ∷ [] } }

abbrev request : CreateInput
request = record {
  user_id = "anna";
  project_name = " Mug ";
  marketplace_id = "ozon";
  style_id = "clean_catalog";
  card_type_ids = "main" ∷ "sizes" ∷ "main" ∷ [];
  card_count = pos 3;
  source_asset_id = "photo";
  model_id = "";
  product = none;
}

abbrev normalized : NormalizedCreateInput
normalized = record {
  project_name = "Mug";
  marketplace_id = "ozon";
  style_id = "clean_catalog";
  card_type_ids = "main" ∷ "sizes" ∷ [];
  card_count = 3;
  source_file_name = "mug.png";
  model_id = "google/gemini-3.1-flash-image-preview";
  product = none;
}

validate_create_input-IsValid_example :
    AllValid studio.db (1, 71, normalized) (validate_create_input env request studio).1.db
unfolding contains_id trim_space byte_len get_user_asset_by_id may_fail expect ◌>>=◌
    collect_card_types card_types_of card_count_of model_of normalize_benefits
    normalize_characteristics normalize_product validate_product_context validate_create_input
validate_create_input-IsValid_example =
    validate_create_input-IsValid env request studio (1, 71, normalized) refl

abbrev disk : Client
disk = record { root_dir = "/data"; public_base = "/media" }

abbrev painter : Studio
painter = record {
  generate_image = λ input. some (1 ∷ 2 ∷ 3 ∷ []);
  zip = λ entries. 80 ∷ 75 ∷ [];
  error_text = λ e. "broken";
}

-- One card is asked for.
abbrev job : Generation
job = record {
  id = 90;
  user_id = 1;
  project_id = 60;
  source_asset_id = 71;
  marketplace_id = "ozon";
  style_id = "clean_catalog";
  card_count = 1;
  status = queued;
  current_step = "queued";
  progress_percent = 0;
  error_message = "";
  archive_asset_id = none;
  started_at = none;
  finished_at = none;
  created_at = noon;
  model_id = "google/gemini-3.1-flash-image-preview";
}

abbrev workshop : World
workshop = record studio {
  db = record studio.db {
    generations = job ∷ [];
    generation_card_types = record { generation_id = 90; position = 0; card_type_id = "main" } ∷ [];
  };
  files = record { path = "/data/uploads/anna/photo.png"; body = 7 ∷ 8 ∷ [] } ∷ [];
}

abbrev join_slash : List String → String
join_slash [] = ""
join_slash (s ∷ []) = s
join_slash (s ∷ t ∷ rest) = concat_all (s ∷ "/" ∷ join_slash (t ∷ rest) ∷ [])

abbrev worker_env : Environment
worker_env = record env {
  parse_uuid = λ s. if str_eq s "job" then some 90 else none;
  join_path = join_slash;
}

abbrev finished : World
finished = record workshop {
  db = record workshop.db {
    generations = record job { status = completed; progress_percent = 100 } ∷ [];
  };
}

made : (handle_generation worker_env disk painter "job" workshop).0 ≡ ok tt
unfolding trim_space append concat_all has_prefix to_dashes handle_generation expect find may_fail
    ◌>>=◌ catch on_error ignore_error new_uuid transaction save read create_zip full_path
    trim_slashes to_slashes zip_entries mark_generation_processing mark_generation_completed
    update_generation_progress process_generation fail_generation get_generation_by_id
    get_asset_by_id load_source_image list_generation_card_types load_product_context
    get_generation_product_context_by_generation_id render_cards render_card finish_generation
    persist_generated_card card_body persist_archive_asset create_asset create_generated_card
    activate_project_by_id sanitize_file_segment file_name order_by
made = refl

handle_generation-Ended_example :
    Ended 90 (handle_generation worker_env disk painter "job" workshop).1.db
unfolding trim_space
handle_generation-Ended_example =
    handle_generation-Ended worker_env disk painter "job" 90 workshop refl made

handle_generation-Ended_again_example :
    Untouched (handle_generation worker_env disk painter "job" finished).1 finished
unfolding trim_space
handle_generation-Ended_again_example =
    handle_generation-Ended_again worker_env disk painter "job" 90 finished refl refl

handle_generation-ProgressInRange_example :
    ProgressInRange (handle_generation worker_env disk painter "job" workshop).1.db
handle_generation-ProgressInRange_example =
    handle_generation-ProgressInRange worker_env disk painter "job" workshop (omega arith)
