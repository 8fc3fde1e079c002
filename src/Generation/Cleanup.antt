-- ===== src/Generation/Cleanup.antt =====
-- The cleanup after a failed generation (internal/generation/worker.go).
use kartochki_online_backend.Prelude.{Option, none, some, List, [], ◌∷◌, ltb, if◌then◌else◌, length}
use kartochki_online_backend.Provider.{Uuid}
use kartochki_online_backend.Environment.{Environment}
use kartochki_online_backend.Database.{Asset}
use kartochki_online_backend.Database.Generations.{
  get_asset_by_id, delete_asset_by_id, delete_generated_cards_by_generation_id, GeneratedCardRow,
  list_generated_cards_by_generation_id,
}
use kartochki_online_backend.Database.Progress.{
  get_generation_by_id, clear_generation_archive_asset,
}
use kartochki_online_backend.World.{M, pure, ◌>>=◌, ◌>>◌, expect, find}
use kartochki_online_backend.Storage.{Client, delete}
use kartochki_online_backend.Generation.Types.{Error, wrapped}

module _ (env : Environment) (disk : Client) where
  -- The loop over the cards of a failed generation.
  unfoldable pub delete_cards : List GeneratedCardRow → M Error (Unit {0})
  delete_cards [] = pure tt
  delete_cards (card ∷ cards) = do
    delete env disk (wrapped "delete generated card file") card.storage_key
    expect (λ _. wrapped "delete generated card asset") (delete_asset_by_id card.asset_id)
    delete_cards cards

  abbrev pub delete_archive_file : Option Asset → M Error (Unit {0})
  delete_archive_file none = pure tt
  delete_archive_file (some a) = delete env disk (wrapped "delete archive file") a.storage_key

  unfoldable pub delete_archive : Uuid → Option Uuid → M Error (Unit {0})
  delete_archive id none = pure tt
  delete_archive id (some asset_id) = do
    asset ← find (λ _. wrapped "get archive asset before cleanup") (get_asset_by_id asset_id)
    delete_archive_file asset
    expect (λ _. wrapped "clear generation archive reference") (clear_generation_archive_asset id)
    expect (λ _. wrapped "delete archive asset") (delete_asset_by_id asset_id)
    pure tt

  abbrev pub delete_rows : Uuid → List GeneratedCardRow → M Error (Unit {0})
  delete_rows id cards =
      if ltb 0 (length cards)
      then expect (λ _. wrapped "delete generated card rows")
          (delete_generated_cards_by_generation_id id)
      else pure tt

  unfoldable pub cleanup_failed_generation : Uuid → M Error (Unit {0})
  unfolding delete_cards delete_archive
  cleanup_failed_generation id = do
    row ← expect (λ _. wrapped "get generation before cleanup") (get_generation_by_id id)
    cards ←
        expect (λ _. wrapped "list generated cards before cleanup")
          (list_generated_cards_by_generation_id id)
    delete_rows id cards
    delete_cards cards
    delete_archive id row.archive_asset_id
