-- ===== src/Generation/Persistence.antt =====
-- The rows of a made card and of the archive (internal/generation/persistence.go).
use kartochki_online_backend.Prelude.{ℕ, String}
use kartochki_online_backend.Provider.{Uuid}
use kartochki_online_backend.Environment.{Environment}
use kartochki_online_backend.Database.{Generation, generated_card, archive}
use kartochki_online_backend.Database.Generations.{create_asset, create_generated_card}
use kartochki_online_backend.World.{M, pure, ◌>>◌, expect, Ending, commit, transaction}
use kartochki_online_backend.Storage.{SavedFile}
use kartochki_online_backend.Generation.Types.{Error, wrapped}

module _ (env : Environment) where
  unfoldable pub card_body :
      Uuid → Generation → String → ℕ → SavedFile → M Error (Ending (Unit {0}))
  card_body asset_id row card_type_id position saved = do
    expect (λ _. wrapped "create generated asset")
        (create_asset (record {
          id = asset_id;
          user_id = row.user_id;
          kind = generated_card;
          storage_key = saved.storage_key;
          original_filename = env.base_path saved.storage_key;
          mime_type = "image/png";
          size_bytes = saved.size_bytes;
        }))
    expect (λ _. wrapped "create generated card row")
        (create_generated_card (record {
          generation_id = row.id;
          asset_id = asset_id;
          card_type_id = card_type_id;
          position = position;
        }))
    pure (commit tt)

  unfoldable pub persist_generated_card :
      Uuid → Generation → String → ℕ → SavedFile → M Error (Unit {0})
  unfolding card_body
  persist_generated_card asset_id row card_type_id position saved =
      transaction (wrapped "begin generated card tx") (wrapped "commit generated card tx")
        (card_body asset_id row card_type_id position saved)

unfoldable pub persist_archive_asset : Uuid → Generation → SavedFile → M Error (Unit {0})
persist_archive_asset asset_id row file = do
  expect (λ _. wrapped "create archive asset")
      (create_asset (record {
        id = asset_id;
        user_id = row.user_id;
        kind = archive;
        storage_key = file.storage_key;
        original_filename = "cards.zip";
        mime_type = "application/zip";
        size_bytes = file.size_bytes;
      }))
  pure tt
