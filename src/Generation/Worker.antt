-- ===== src/Generation/Worker.antt =====
-- The background job of a generation (internal/generation/worker.go, file_helpers.go).
pub mod Ends
pub mod Again
pub mod Statements
pub mod Progress
use kartochki_online_backend.Prelude.{
  ℕ, zero, suc, ◌+◌, ◌*◌, ◌/◌, ◌%◌, Bool, true, false, not, ◌||◌, String, Option, none, some, List,
  [], ◌∷◌, ltb, ◌==◌, if◌then◌else◌, length, item_at,
}
use Prim.Native.Char.{code}
use kartochki_online_backend.Prelude.Text.{trim_space, byte_len, append, to_dashes}
use kartochki_online_backend.Provider.{Uuid}
use kartochki_online_backend.Environment.{Environment}
use kartochki_online_backend.Database.{
  Asset, Generation, GenerationCardType, GenerationProductContext,
}
use kartochki_online_backend.Database.Generations.{
  get_asset_by_id, delete_asset_by_id, delete_generated_cards_by_generation_id, GeneratedCardRow,
  list_generated_cards_by_generation_id, list_generation_card_types, activate_project_by_id,
}
use kartochki_online_backend.Database.Progress.{
  get_generation_product_context_by_generation_id, get_generation_by_id,
  clear_generation_archive_asset, mark_generation_completed, mark_generation_failed,
  mark_generation_processing, update_generation_progress,
}
use kartochki_online_backend.World.{
  M, pure, fail, ◌>>=◌, ◌>>◌, reject_if, require, expect, find, may_fail, ignore_error, on_error,
  catch, new_uuid, Bytes,
}
use kartochki_online_backend.Storage.{
  Client, SavedFile, ArchiveFile, save, read, delete, create_zip,
}
use kartochki_online_backend.Generation.Types.{
  Error, wrapped, joined, ProductCharacteristic, ProductContext, ImageGenerateInput,
}
use kartochki_online_backend.Generation.Catalog.{marketplace_aspect_ratio}
use kartochki_online_backend.Generation.Validation.{is_empty, is_source_image}
use kartochki_online_backend.Generation.Create.{cut_bytes}
use kartochki_online_backend.Generation.Prompt.{build_prompt}
use kartochki_online_backend.Generation.Cleanup.{cleanup_failed_generation}
use kartochki_online_backend.Generation.Persistence.{persist_generated_card, persist_archive_asset}

-- The image model (an answer or an error), the writer of archive/zip, and the text of an error.
pub record Studio : Type 0 where
  pub generate_image : ImageGenerateInput → Option Bytes
  pub zip : List (String × Bytes) → Bytes
  pub error_text : Error → String

-- A text of more than 500 bytes is cut; `none` if the cut falls inside a code point.
unfoldable pub trim_error_message : String → Option String
unfolding cut_bytes
trim_error_message text =
    let message = trim_space text in
    if is_empty message
    then some "generation failed"
    else if ltb 500 (byte_len message)
    then cut_bytes 500 message
    else some message

abbrev is_replaced : ℕ → Bool
is_replaced c = (c == b' ') || ((c == b'/') || ((c == b'\\') || (c == b'_')))

abbrev text_of : Option String → String
text_of none = ""
text_of (some s) = s

abbrev characteristics_of : List (String × String) → List ProductCharacteristic
characteristics_of [] = []
characteristics_of ((name, value) ∷ cs) =
    record { name = name; value = value } ∷ characteristics_of cs

abbrev context_of : Option GenerationProductContext → Option ProductContext
context_of none = none
context_of (some row) = some (record {
  name = row.name;
  category = text_of row.category;
  brand = text_of row.brand;
  description = text_of row.description;
  benefits = row.benefits;
  characteristics = characteristics_of row.characteristics;
})

unfoldable pub load_product_context : Uuid → M Error (Option ProductContext)
load_product_context id = do
  row ←
      find (λ _. wrapped "load product context")
        (get_generation_product_context_by_generation_id id)
  pure (context_of row)

abbrev progress : Uuid → String → ℕ → String → M Error ℕ
progress id step percent message =
    expect (λ _. wrapped message) (update_generation_progress id step percent)

module _ (env : Environment) (disk : Client) (studio : Studio) where
  unfoldable pub sanitize_file_segment : String → String
  unfolding to_dashes
  sanitize_file_segment value =
      let clean = to_dashes is_replaced (trim_space (env.to_lower value)) in
      if is_empty clean then "card" else clean

  unfoldable pub load_source_image : Uuid → M Error (Asset × Bytes)
  load_source_image asset_id = do
    asset ← expect (λ _. wrapped "get source asset for processing") (get_asset_by_id asset_id)
    reject_if (not (is_source_image asset.kind)) (wrapped "asset is not a source image")
    body ← read env disk (wrapped "read source image for processing") asset.storage_key
    pure (asset, body)

  abbrev remove_file : String → Error → M Error (Unit {0})
  remove_file key e = ignore_error (delete env disk e key)

  unfoldable pub file_name : ℕ → String → String
  unfolding sanitize_file_segment
  file_name i card_type_id =
      append (env.two_digits (i + 1))
        (append "-" (append (sanitize_file_segment card_type_id) ".png"))

  -- One round of the loop over the cards.
  unfoldable pub render_card :
      Generation
      → Asset × Bytes
      → Option ProductContext
      → List GenerationCardType
      → ℕ
      → M Error ArchiveFile
  unfolding file_name
  render_card row source product types i = do
    type ← require (item_at types (i % length types)) (wrapped "generation has no card types")
    may_fail (wrapped "generate card image")
    image ←
        require
          (studio.generate_image (record {
            prompt = build_prompt env (record {
              marketplace_id = row.marketplace_id;
              style_id = row.style_id;
              card_type_id = type.card_type_id;
              product = product;
            });
            source_image_body = source.1;
            source_image_mime_type = source.0.mime_type;
            aspect_ratio = marketplace_aspect_ratio row.marketplace_id;
            model_id = row.model_id;
          }))
          (wrapped "generate card image")
    saved ←
        save env disk (wrapped "save generated card image")
          (env.join_path ("generated" ∷ env.print_uuid row.id ∷ file_name i type.card_type_id ∷ []))
          image
    asset_id ← new_uuid
    on_error (persist_generated_card env asset_id row type.card_type_id i saved)
        (remove_file saved.storage_key)
    progress row.id "rendering_cards" (20 + (i + 1) * 60 / row.card_count)
        "update generation progress during rendering"
    pure (record { name = file_name i type.card_type_id; storage_key = saved.storage_key })

  -- The rounds from `i` on, `n` of them.
  unfoldable pub render_cards :
      Generation
      → Asset × Bytes
      → Option ProductContext
      → List GenerationCardType
      → ℕ
      → ℕ
      → M Error (List ArchiveFile)
  unfolding render_card
  render_cards row source product types i zero = pure []
  render_cards row source product types i (suc n) = do
    file ← render_card row source product types i
    files ← render_cards row source product types (suc i) n
    pure (file ∷ files)

  abbrev undo_archive : Uuid → String → Error → M Error (Unit {0})
  undo_archive asset_id key e = do
    remove_file key e
    ignore_error (expect (λ _. e) (delete_asset_by_id asset_id))

  unfoldable pub finish_generation : Generation → List ArchiveFile → M Error (Unit {0})
  finish_generation row files = do
    progress row.id "packing_archive" 90 "update generation progress before archive"
    archive ←
        create_zip env disk (wrapped "create generation archive") studio.zip
          (env.join_path ("archives" ∷ env.print_uuid row.id ∷ "cards.zip" ∷ [])) files
    asset_id ← new_uuid
    on_error (persist_archive_asset asset_id row archive) (remove_file archive.storage_key)
    on_error
        (expect (λ _. wrapped "mark generation completed")
          (mark_generation_completed row.id asset_id))
        (undo_archive asset_id archive.storage_key)
    expect (λ _. wrapped "activate project after generation")
        (activate_project_by_id row.project_id)
    pure tt

  unfoldable pub process_generation : Uuid → M Error (Unit {0})
  unfolding load_source_image load_product_context render_cards finish_generation
  process_generation id = do
    row ← expect (λ _. wrapped "get generation for processing") (get_generation_by_id id)
    source ← load_source_image row.source_asset_id
    types ← expect (λ _. wrapped "list generation card types") (list_generation_card_types id)
    reject_if (length types == 0) (wrapped "generation has no card types")
    product ← load_product_context id
    progress id "rendering_cards" 20 "update generation progress before rendering"
    files ← render_cards row source product types 0 row.card_count
    finish_generation row files

  -- A message that is no text is refused by the database; the error of the statement is ignored.
  abbrev mark_failed : Uuid → Option String → M Error ℕ
  mark_failed id message = require message (wrapped "mark generation failed") >>= λ text.
      expect (λ _. wrapped "mark generation failed") (mark_generation_failed id text)

  unfoldable pub fail_generation : Uuid → Error → M Error (Unit {0})
  unfolding trim_error_message
  fail_generation id e = do
    error ←
        catch (cleanup_failed_generation env disk id >>= λ _. pure e)
          (λ cleanup. pure (joined e cleanup))
    ignore_error (mark_failed id (trim_error_message (studio.error_text error)))
    fail error

  abbrev process_marked : Uuid → ℕ → M Error (Unit {0})
  process_marked id rows =
      if rows == 0 then pure tt else catch (process_generation id) (fail_generation id)

  unfoldable pub handle_generation : String → M Error (Unit {0})
  unfolding process_generation fail_generation
  handle_generation value = do
    id ← require (env.parse_uuid (trim_space value)) (wrapped "parse generation id")
    rows ←
        expect (λ _. wrapped "mark generation processing")
          (mark_generation_processing id "preparing" 5)
    process_marked id rows
