-- ===== src/Generation/Worker/Progress.antt =====
-- The progress of a generation under the job (internal/generation/worker.go).
use kartochki_online_backend.Prelude.{
  ℕ, zero, suc, ◌+◌, ◌*◌, ◌/◌, ◌≤◌, ◌<◌, ◌≡◌, String, Option, none, some, List, [], ◌∷◌, ltb,
  length, ◌==◌, arith,
}
use native.Mathlib.Nat.{div-le_of_le-mul}
use kartochki_online_backend.Provider.{Uuid}
use kartochki_online_backend.Environment.{Environment}
use kartochki_online_backend.Database.{Asset, Generation, GenerationCardType}
use kartochki_online_backend.Database.Generations.{
  GeneratedCardRow, get_asset_by_id, list_generated_cards_by_generation_id,
  list_generation_card_types,
}
use kartochki_online_backend.Database.Progress.{
  get_generation_by_id, get_generation_product_context_by_generation_id,
}
use kartochki_online_backend.World.{World, M, Bytes}
use kartochki_online_backend.World.Keeps.{
  Keeps, Keeps-bind, Keeps-may_fail, Keeps-pure, Keeps-fail, Keeps-require, Keeps-expect,
  Keeps-find, Keeps-if, Keeps-reject_if,
}
use kartochki_online_backend.World.Yields.{Keeps-transaction_of_body}
use kartochki_online_backend.World.Recovers.{
  Keeps-ignore_error, Keeps-on_error, Keeps-catch, Keeps-new_uuid,
}
use kartochki_online_backend.Storage.{Client, SavedFile, ArchiveFile}
use kartochki_online_backend.Storage.Keeps.{Keeps-save, Keeps-read, Keeps-delete, Keeps-create_zip}
use kartochki_online_backend.Generation.Types.{Error, ProductContext}
use kartochki_online_backend.Generation.Persistence.{
  card_body, persist_generated_card, persist_archive_asset,
}
use kartochki_online_backend.Generation.Cleanup.{
  delete_cards, delete_archive, delete_archive_file, cleanup_failed_generation,
}
use kartochki_online_backend.Generation.Worker.{
  Studio, load_product_context, load_source_image, render_card, render_cards, finish_generation,
  process_generation, fail_generation, mark_failed, handle_generation,
}
use kartochki_online_backend.Generation.Worker.Statements.{
  ProgressInRange, update_generation_progress-InRange, mark_generation_processing-InRange,
  mark_generation_failed-InRange, clear_generation_archive_asset-InRange,
  mark_generation_completed-InRange, activate_project_by_id-InRange, delete_generated_cards-InRange,
  create_asset-InRange, create_generated_card-InRange, delete_asset_by_id-InRange,
}

abbrev Safe : {A : Type 0} → M Error A → Type 0
Safe m = Keeps ProgressInRange m

within : (i n : ℕ) → i < n → 20 + (i + 1) * 60 / n ≤ 100
within i n h = let part : (i + 1) * 60 / n ≤ 60 = div-le_of_le-mul n (omega arith) in omega arith

module _ (env : Environment) where
  persist_generated_card-Safe :
      (asset_id : Uuid) (row : Generation) (type : String) (i : ℕ) (saved : SavedFile)
      → Safe (persist_generated_card env asset_id row type i saved)
  unfolding persist_generated_card card_body
  persist_generated_card-Safe asset_id row type i saved = Keeps-transaction_of_body _ _ (
      Keeps-bind (Keeps-expect _ _ (create_asset-InRange _))
        λ _. Keeps-bind (Keeps-expect _ _ (create_generated_card-InRange _)) λ _. Keeps-pure)

  module _ (disk : Client) where
    delete_cards-Safe : (cards : List GeneratedCardRow) → Safe (delete_cards env disk cards)
    unfolding delete_cards
    delete_cards-Safe [] = Keeps-pure
    delete_cards-Safe (card ∷ cards) = Keeps-bind (Keeps-delete env disk _ _) λ _.
        Keeps-bind (Keeps-expect _ _ (delete_asset_by_id-InRange _)) λ _. delete_cards-Safe cards

    archive_file-Safe : (a : Option Asset) → Safe (delete_archive_file env disk a)
    archive_file-Safe none = Keeps-pure
    archive_file-Safe (some a) = Keeps-delete env disk _ _

    delete_archive-Safe : (id : Uuid) (a : Option Uuid) → Safe (delete_archive env disk id a)
    unfolding delete_archive get_asset_by_id
    delete_archive-Safe id none = Keeps-pure
    delete_archive-Safe id (some a) = Keeps-bind (Keeps-find _ _ λ now db p. p) λ asset.
        Keeps-bind (archive_file-Safe asset) λ _.
          Keeps-bind (Keeps-expect _ _ (clear_generation_archive_asset-InRange _))
            λ _. Keeps-bind (Keeps-expect _ _ (delete_asset_by_id-InRange _)) λ _. Keeps-pure

    cleanup-Safe : (id : Uuid) → Safe (cleanup_failed_generation env disk id)
    unfolding cleanup_failed_generation get_generation_by_id list_generated_cards_by_generation_id
    cleanup-Safe id = Keeps-bind (Keeps-expect _ _ λ now db p. p) λ row.
        Keeps-bind (Keeps-expect _ _ λ now db p. p) λ cards.
          Keeps-bind
            (Keeps-if (ltb 0 (length cards)) (Keeps-expect _ _ (delete_generated_cards-InRange _))
              Keeps-pure)
            λ _. Keeps-bind (delete_cards-Safe cards) λ _. delete_archive-Safe id _

    module _ (studio : Studio) where
      load_source_image-Safe : (id : Uuid) → Safe (load_source_image env disk studio id)
      unfolding load_source_image get_asset_by_id
      load_source_image-Safe id = Keeps-bind (Keeps-expect _ _ λ now db p. p) λ asset.
          Keeps-bind (Keeps-reject_if _ _)
            λ _. Keeps-bind (Keeps-read env disk _ _) λ body. Keeps-pure

      render_card-Safe :
          (row : Generation) (source : Asset × Bytes) (product : Option ProductContext)
          (types : List GenerationCardType) (i : ℕ)
          → i < row.card_count
          → Safe (render_card env disk studio row source product types i)
      unfolding render_card
      render_card-Safe row source product types i h = Keeps-bind (Keeps-require _ _) λ type.
          Keeps-bind (Keeps-may_fail _) λ _. Keeps-bind (Keeps-require _ _) λ image.
            Keeps-bind (Keeps-save env disk _ _ _) λ saved.
              Keeps-bind (Keeps-new_uuid λ db p. p) λ asset_id.
                Keeps-bind
                  (Keeps-on_error (persist_generated_card-Safe _ row _ i saved)
                    λ e. Keeps-ignore_error (Keeps-delete env disk e _))
                  λ _.
                    Keeps-bind
                      (Keeps-expect _ _
                        (update_generation_progress-InRange _ _ _ (within i row.card_count h)))
                      λ _. Keeps-pure

      render_cards-Safe :
          (row : Generation) (source : Asset × Bytes) (product : Option ProductContext)
          (types : List GenerationCardType) (i n : ℕ)
          → i + n ≡ row.card_count
          → Safe (render_cards env disk studio row source product types i n)
      unfolding render_cards
      render_cards-Safe row source product types i zero h = Keeps-pure
      render_cards-Safe row source product types i (suc n) h =
          Keeps-bind (render_card-Safe row source product types i (omega arith)) λ file.
            Keeps-bind (render_cards-Safe row source product types (suc i) n (omega arith))
              λ files. Keeps-pure

      finish_generation-Safe :
          (row : Generation) (files : List ArchiveFile)
          → Safe (finish_generation env disk studio row files)
      unfolding finish_generation persist_archive_asset
      finish_generation-Safe row files =
          Keeps-bind (Keeps-expect _ _ (update_generation_progress-InRange _ _ _ (omega arith)))
            λ _. Keeps-bind (Keeps-create_zip env disk _ _ _ _) λ archive.
              Keeps-bind (Keeps-new_uuid λ db p. p) λ asset_id.
                Keeps-bind
                  (Keeps-on_error
                    (Keeps-bind (Keeps-expect _ _ (create_asset-InRange _)) λ _. Keeps-pure)
                    λ e. Keeps-ignore_error (Keeps-delete env disk e _))
                  λ _.
                    Keeps-bind
                      (Keeps-on_error (Keeps-expect _ _ (mark_generation_completed-InRange _ _))
                        λ e.
                          Keeps-bind (Keeps-ignore_error (Keeps-delete env disk e _)) λ _.
                            Keeps-ignore_error (Keeps-expect _ _ (delete_asset_by_id-InRange _)))
                      λ _.
                        Keeps-bind (Keeps-expect _ _ (activate_project_by_id-InRange _))
                          λ _. Keeps-pure

      process_generation-Safe : (id : Uuid) → Safe (process_generation env disk studio id)
      unfolding process_generation load_product_context get_generation_by_id
          list_generation_card_types get_generation_product_context_by_generation_id
      process_generation-Safe id = Keeps-bind (Keeps-expect _ _ λ now db p. p) λ row.
          Keeps-bind (load_source_image-Safe _) λ source.
            Keeps-bind (Keeps-expect _ _ λ now db p. p) λ types.
              Keeps-bind (Keeps-reject_if _ _) λ _.
                Keeps-bind (Keeps-bind (Keeps-find _ _ λ now db p. p) λ _. Keeps-pure) λ product.
                  Keeps-bind
                    (Keeps-expect _ _ (update_generation_progress-InRange _ _ _ (omega arith)))
                    λ _.
                      Keeps-bind
                        (render_cards-Safe row source product types 0 row.card_count (omega arith))
                        λ files. finish_generation-Safe row files

      mark_failed-Safe :
          (id : Uuid) (message : Option String) → Safe (mark_failed env disk studio id message)
      mark_failed-Safe id message =
          Keeps-bind (Keeps-require _ _)
            λ text. Keeps-expect _ _ (mark_generation_failed-InRange id text)

      fail_generation-Safe : (id : Uuid) (e : Error) → Safe (fail_generation env disk studio id e)
      unfolding fail_generation
      fail_generation-Safe id e =
          Keeps-bind (Keeps-catch (Keeps-bind (cleanup-Safe id) λ _. Keeps-pure) λ _. Keeps-pure)
            λ error. Keeps-bind (Keeps-ignore_error (mark_failed-Safe id _)) λ _. Keeps-fail

      -- The progress of every row stays within 0 and 100 under any job, on any files and with
      -- faults anywhere.
      pub handle_generation-ProgressInRange :
          (value : String) (w : World)
          → ProgressInRange w.db
          → ProgressInRange (handle_generation env disk studio value w).1.db
      unfolding handle_generation
      handle_generation-ProgressInRange value w =
          (Keeps-bind (Keeps-require _ _) λ id.
              Keeps-bind (Keeps-expect _ _ (mark_generation_processing-InRange _ _ _ (omega arith)))
                λ rows.
                  Keeps-if (rows == 0) Keeps-pure
                    (Keeps-catch (process_generation-Safe id) (fail_generation-Safe id))).keeps
            w
