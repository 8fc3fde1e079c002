-- ===== src/Generation/Create.antt =====
-- A generation is requested (internal/generation/service.go, file_helpers.go).
use kartochki_online_backend.Prelude.{
  ℕ, suc, ◌-◌, Bool, false, not, ◌&&◌, ◌||◌, String, Option, none, some, List, [], ◌∷◌, ltb, ◌==◌,
  if◌then◌else◌,
}
use Prim.Native.Char.{code}
use kartochki_online_backend.Prelude.Int.{pos}
use kartochki_online_backend.Prelude.Text.{trim_space, byte_len, rune_len}
use kartochki_online_backend.Provider.{Uuid}
use kartochki_online_backend.Environment.{Environment}
use kartochki_online_backend.Database.{
  Generation, GenerationStatus, queued, processing, completed, failed_generation, to_pg_text,
}
use kartochki_online_backend.Database.Generations.{create_project, add_generation_card_type}
use kartochki_online_backend.Database.Progress.{
  create_generation, create_generation_product_context, mark_generation_failed,
}
use kartochki_online_backend.World.{
  M, pure, fail, ◌>>=◌, ◌>>◌, require, expect, map_error, send, Ending, commit, transaction,
  ignore_error, on_error, new_uuid, generation_job,
}
use kartochki_online_backend.Billing.Quota.{ensure_generation_allowed}
use kartochki_online_backend.Generation.Types.{
  Error, not_allowed, wrapped, ProductCharacteristic, ProductContext, CreateInput,
  NormalizedCreateInput, CreatedGeneration,
}
use kartochki_online_backend.Generation.Validation.{
  max_project_title_length, is_empty, validate_create_input,
}

abbrev default_project_title : String
default_project_title = "Новый проект"

has_slash : String → Bool
has_slash String.[] = false
has_slash (String.◌∷◌ c s) = (code c == b'/') || has_slash s

has_extension : String → Bool
unfolding has_slash
has_extension String.[] = false
has_extension (String.◌∷◌ c s) = ((code c == b'.') && not (has_slash s)) || has_extension s

-- strings.TrimSuffix(name, filepath.Ext(name)): the extension starts at the last dot after the last
-- slash.
unfoldable pub without_extension : String → String
unfolding has_slash has_extension
without_extension String.[] = String.[]
without_extension (String.◌∷◌ c s) =
    let rest = without_extension s in
    if has_extension s
    then String.◌∷◌ c rest
    else if (code c == b'.') && not (has_slash s)
    then String.[]
    else String.◌∷◌ c s

abbrev cons_some : String → Option String → Option String
cons_some s none = none
cons_some String.[] t = t
cons_some (String.◌∷◌ c s) (some t) = some (String.◌∷◌ c t)

-- s[:limit], which counts bytes; `none` if the cut falls inside a code point, which leaves bytes
-- that are no text.
unfoldable pub cut_bytes : ℕ → String → Option String
cut_bytes limit String.[] = some String.[]
cut_bytes limit (String.◌∷◌ c s) =
    let rest = cut_bytes (limit - rune_len (code c)) s in
    if limit == 0
    then some String.[]
    else if ltb limit (rune_len (code c))
    then none
    else cons_some (String.◌∷◌ c String.[]) rest

-- The title, if it is a text.
unfoldable pub build_project_title : String → String → Option String
unfolding without_extension cut_bytes
build_project_title project_name source_file_name =
    let base = trim_space (without_extension source_file_name) in
    if not (is_empty (trim_space project_name))
    then some (trim_space project_name)
    else if is_empty base
    then some default_project_title
    else if ltb max_project_title_length (byte_len base)
    then cut_bytes max_project_title_length base
    else some base

abbrev pairs : List ProductCharacteristic → List (String × String)
pairs [] = []
pairs (c ∷ cs) = (c.name, c.value) ∷ pairs cs

unfoldable pub save_product_context : Uuid → Option ProductContext → M Error (Unit {0})
save_product_context id none = pure tt
save_product_context id (some p) = do
  expect (λ _. wrapped "create generation product context")
      (create_generation_product_context (record {
        generation_id = id;
        name = p.name;
        category = to_pg_text p.category;
        brand = to_pg_text p.brand;
        description = to_pg_text p.description;
        benefits = p.benefits;
        characteristics = pairs p.characteristics;
      }))
  pure tt

-- The loop over the card types, from a position on.
unfoldable pub add_card_types : Uuid → ℕ → List String → M Error (Unit {0})
add_card_types id i [] = pure tt
add_card_types id i (t ∷ ts) = do
  expect (λ _. wrapped "add generation card type")
      (add_generation_card_type (record { generation_id = id; position = i; card_type_id = t }))
  add_card_types id (suc i) ts

-- The text of the column.
abbrev pub status_text : GenerationStatus → String
status_text queued = "queued"
status_text processing = "processing"
status_text completed = "completed"
status_text failed_generation = "failed"

-- A title that is no text is refused by the database as the first insertion.
unfoldable pub create_body : Uuid → Uuid → NormalizedCreateInput → M Error (Ending Generation)
unfolding build_project_title add_card_types save_product_context
create_body user source n = do
  title ←
      require (build_project_title n.project_name n.source_file_name)
        (wrapped "create project for generation")
  project ←
      expect (λ _. wrapped "create project for generation")
        (create_project (record {
          user_id = user;
          title = title;
          marketplace = n.marketplace_id;
          product_name = "";
          product_description = "";
        }))
  id ← new_uuid
  row ←
      expect (λ _. wrapped "create generation row")
        (create_generation (record {
          id = id;
          user_id = user;
          project_id = project.id;
          source_asset_id = source;
          marketplace_id = n.marketplace_id;
          style_id = n.style_id;
          card_count = n.card_count;
          model_id = n.model_id;
        }))
  add_card_types id 0 n.card_type_ids
  save_product_context id n.product
  pure (commit row)

-- The row is marked as failed, whether that works or not.
unfoldable pub give_up : Uuid → String → M Error (Unit {0})
unfolding ignore_error
give_up id message =
    ignore_error (expect (λ _. wrapped message) (mark_generation_failed id message))

module _ (env : Environment) (has_queue : Bool) where
  unfoldable pub enqueue_created : Uuid → M Error (Unit {0})
  unfolding give_up on_error
  enqueue_created id =
      if has_queue
      then on_error (send (wrapped "enqueue generation") (generation_job (env.print_uuid id)))
          (λ _. give_up id "failed to enqueue generation")
      else (give_up id "background queue is not configured" >>= λ _.
          fail (wrapped "generation queue is not configured"))

  unfoldable pub create_validated : Uuid → Uuid → NormalizedCreateInput → M Error CreatedGeneration
  unfolding create_body enqueue_created
  create_validated user source n = do
    map_error not_allowed (ensure_generation_allowed env (env.print_uuid user) (pos n.card_count))
    row ←
        transaction (wrapped "begin generation create tx") (wrapped "commit generation create tx")
          (create_body user source n)
    enqueue_created row.id
    pure (record { generation_id = env.print_uuid row.id; status = status_text row.status })

  abbrev create_from : Uuid × Uuid × NormalizedCreateInput → M Error CreatedGeneration
  create_from (user, source, n) = create_validated user source n

  unfoldable pub create : CreateInput → M Error CreatedGeneration
  unfolding create_validated
  create input = validate_create_input env input >>= create_from
