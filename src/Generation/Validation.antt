-- ===== src/Generation/Validation.antt =====
-- The validation of a request (internal/generation/validation.go).
pub mod Bounds
pub mod CardTypes
use kartochki_online_backend.Prelude.{
  ℕ, Bool, true, false, not, ◌&&◌, ◌||◌, String, Option, none, some, List, [], ◌∷◌, ◌++◌, ltb, leb,
  str_eq, if◌then◌else◌, length,
}
use kartochki_online_backend.Prelude.Int.{ℤ, pos, negsuc}
use kartochki_online_backend.Prelude.Text.{trim_space, byte_len}
use kartochki_online_backend.Provider.{Uuid}
use kartochki_online_backend.Environment.{Environment}
use kartochki_online_backend.Database.{Asset, AssetKind, source_image}
use kartochki_online_backend.Database.Generations.{get_user_asset_by_id}
use kartochki_online_backend.World.{M, pure, ◌>>=◌, ◌>>◌, reject_if, require, missing_or, expect}
use kartochki_online_backend.Generation.Types.{
  Error, source_asset_not_found, invalid_marketplace, invalid_style, invalid_card_type,
  invalid_card_count, project_name_too_long, invalid_model, invalid_product, wrapped,
  ProductCharacteristic, ProductContext, CreateInput, NormalizedCreateInput,
}
use kartochki_online_backend.Generation.Catalog.{
  generate_max_card_count, generate_marketplaces, generate_styles, generate_card_types,
  generate_models, default_model, contains_id,
}

-- projects.MaxProjectTitleLength
abbrev pub max_project_title_length : ℕ
max_project_title_length = 200

abbrev pub is_empty : String → Bool
is_empty s = str_eq s ""

abbrev pub fits : ℕ → String → Bool
fits limit s = leb (byte_len s) limit

abbrev with_benefit : String → Option (List String) → Option (List String)
with_benefit b none = none
with_benefit b (some bs) = some (if is_empty b then bs else b ∷ bs)

-- The loop over the benefits: each trimmed and short, empty ones dropped.
unfoldable pub normalize_benefits : List String → Option (List String)
normalize_benefits [] = some []
normalize_benefits (b ∷ bs) =
    if fits 120 (trim_space b) then with_benefit (trim_space b) (normalize_benefits bs) else none

abbrev with_characteristic :
    ProductCharacteristic
    → Option (List ProductCharacteristic)
    → Option (List ProductCharacteristic)
with_characteristic c none = none
with_characteristic c (some cs) = some (c ∷ cs)

abbrev pub trimmed : ProductCharacteristic → ProductCharacteristic
trimmed c = record { name = trim_space c.name; value = trim_space c.value }

abbrev pub is_good : ProductCharacteristic → Bool
is_good c = not (is_empty c.name || is_empty c.value) && (fits 120 c.name && fits 120 c.value)

-- The loop over the characteristics.
unfoldable pub normalize_characteristics :
    List ProductCharacteristic → Option (List ProductCharacteristic)
normalize_characteristics [] = some []
normalize_characteristics (c ∷ cs) =
    if is_good (trimmed c)
    then with_characteristic (trimmed c) (normalize_characteristics cs)
    else none

-- The conditions on the texts of a product, in their order.
abbrev pub texts_fit : ProductContext → Bool
texts_fit p =
    not (is_empty (trim_space p.name))
    && (fits 200 (trim_space p.name)
        && (fits 120 (trim_space p.category)
            && (fits 120 (trim_space p.brand) && fits 2000 (trim_space p.description))))

abbrev with_lists :
    ProductContext
    → Option (List String)
    → Option (List ProductCharacteristic)
    → Option ProductContext
with_lists p none cs = none
with_lists p (some bs) none = none
with_lists p (some bs) (some cs) = some (record {
  name = trim_space p.name;
  category = trim_space p.category;
  brand = trim_space p.brand;
  description = trim_space p.description;
  benefits = bs;
  characteristics = cs;
})

-- Every failure is ErrInvalidProduct.
unfoldable pub normalize_product : ProductContext → Option ProductContext
unfolding normalize_benefits normalize_characteristics
normalize_product p =
    if texts_fit p && (leb (length p.benefits) 10 && leb (length p.characteristics) 20)
    then with_lists p (normalize_benefits p.benefits) (normalize_characteristics p.characteristics)
    else none

abbrev product_result : Option ProductContext → M Error (Option ProductContext)
product_result p = require p invalid_product >>= λ q. pure (some q)

unfoldable pub validate_product_context : Option ProductContext → M Error (Option ProductContext)
unfolding normalize_product
validate_product_context none = pure none
validate_product_context (some p) = product_result (normalize_product p)

abbrev extend : List String → String → List String
extend seen id = if contains_id seen id then seen else seen ++ (id ∷ [])

-- The loop over the card types: `seen` is what has been kept, in order.
unfoldable pub collect_card_types : List String → List String → Option (List String)
unfolding contains_id
collect_card_types seen [] = some seen
collect_card_types seen (item ∷ items) =
    let rest = collect_card_types (extend seen (trim_space item)) items in
    if not (is_empty (trim_space item)) && contains_id generate_card_types (trim_space item)
    then rest
    else none

abbrev non_empty_list : Option (List String) → Option (List String)
non_empty_list (some (x ∷ xs)) = some (x ∷ xs)
non_empty_list _ = none

unfoldable pub card_types_of : List String → Option (List String)
unfolding collect_card_types
card_types_of items = non_empty_list (collect_card_types [] items)

-- 0 < count ≤ generateMaxCardCount
unfoldable pub card_count_of : ℤ → Option ℕ
card_count_of (pos n) = if ltb 0 n && leb n generate_max_card_count then some n else none
card_count_of (negsuc n) = none

unfoldable pub model_of : String → Option String
unfolding contains_id
model_of id =
    if is_empty id
    then some default_model
    else if contains_id generate_models id
    then some id
    else none

abbrev pub is_source_image : AssetKind → Bool
is_source_image source_image = true
is_source_image _ = false

module _ (env : Environment) where
  unfoldable pub validate_create_input : CreateInput → M Error (Uuid × Uuid × NormalizedCreateInput)
  unfolding card_types_of card_count_of model_of validate_product_context contains_id
  validate_create_input input = do
    user ← require (env.parse_uuid (trim_space input.user_id)) source_asset_not_found
    source ← require (env.parse_uuid (trim_space input.source_asset_id)) source_asset_not_found
    reject_if (not (contains_id generate_marketplaces (trim_space input.marketplace_id)))
        invalid_marketplace
    reject_if (not (contains_id generate_styles (trim_space input.style_id))) invalid_style
    count ← require (card_count_of input.card_count) invalid_card_count
    types ← require (card_types_of input.card_type_ids) invalid_card_type
    model ← require (model_of (trim_space input.model_id)) invalid_model
    reject_if (not (fits max_project_title_length (trim_space input.project_name)))
        project_name_too_long
    asset ←
        expect (missing_or source_asset_not_found (wrapped "get source asset by user"))
          (get_user_asset_by_id source user)
    reject_if (not (is_source_image asset.kind)) source_asset_not_found
    product ← validate_product_context input.product
    pure (
      user,
      source,
      record {
        project_name = trim_space input.project_name;
        marketplace_id = trim_space input.marketplace_id;
        style_id = trim_space input.style_id;
        card_type_ids = types;
        card_count = count;
        source_file_name = asset.original_filename;
        model_id = model;
        product = product;
      },
    )
