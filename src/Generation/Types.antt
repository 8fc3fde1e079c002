-- ===== src/Generation/Types.antt =====
-- The records and the errors of the generation service (internal/generation/types.go, errors.go,
-- validation.go).
use kartochki_online_backend.Prelude.{ℕ, String, Option, List}
use kartochki_online_backend.Prelude.Int.{ℤ}
use kartochki_online_backend.World.{Bytes}
use kartochki_online_backend.Billing.Types as Billing

-- `errors.Join` is `joined`. An error that the callers do not tell apart is `wrapped` with its text.
pub data Error : Type 0 where
  source_asset_not_found generation_not_found invalid_marketplace invalid_style : Error
  invalid_card_type invalid_card_count project_name_too_long image_required : Error
  image_type_not_supported invalid_model invalid_product : Error
  not_allowed : Billing.Error → Error
  wrapped : String → Error
  joined : Error → Error → Error

pub record ProductCharacteristic : Type 0 where
  pub name : String
  pub value : String

pub record ProductContext : Type 0 where
  pub name : String
  pub category : String
  pub brand : String
  pub description : String
  pub benefits : List String
  pub characteristics : List ProductCharacteristic

pub record CreateInput : Type 0 where
  pub user_id : String
  pub project_name : String
  pub marketplace_id : String
  pub style_id : String
  pub card_type_ids : List String
  pub card_count : ℤ
  pub source_asset_id : String
  pub model_id : String
  pub product : Option ProductContext

pub record NormalizedCreateInput : Type 0 where
  pub project_name : String
  pub marketplace_id : String
  pub style_id : String
  pub card_type_ids : List String
  pub card_count : ℕ
  pub source_file_name : String
  pub model_id : String
  pub product : Option ProductContext

pub record CreatedGeneration : Type 0 where
  pub generation_id : String
  pub status : String

pub record ImageGenerateInput : Type 0 where
  pub prompt : String
  pub source_image_body : Bytes
  pub source_image_mime_type : String
  pub aspect_ratio : String
  pub model_id : String
