-- ===== src/Generation/Catalog.antt =====
-- The catalog of a generation (internal/generation/config.go): the ids of the marketplaces, the
-- styles, the card types and the models, in the source's order. The labels and prices, which are
-- shown and not read, are left out.
use kartochki_online_backend.Prelude.{
  ℕ, Bool, false, ◌||◌, String, List, [], ◌∷◌, str_eq, if◌then◌else◌,
}

abbrev pub generate_max_card_count : ℕ
generate_max_card_count = 15

abbrev pub generate_marketplaces : List String
generate_marketplaces = "wildberries" ∷ "ozon" ∷ "yandex_market" ∷ []

abbrev pub generate_styles : List String
generate_styles = "clean_catalog" ∷ "accent_offer" ∷ "premium_brand" ∷ []

abbrev pub generate_card_types : List String
generate_card_types =
    "main" ∷ "infographic" ∷ "advantages" ∷ "use-case" ∷ "details" ∷ "composition" ∷ "sizes"
    ∷ "packaging" ∷ "comparison" ∷ []

abbrev pub default_model : String
default_model = "google/gemini-3.1-flash-image-preview"

abbrev pub generate_models : List String
generate_models =
    default_model ∷ "openai/gpt-5-image" ∷ "black-forest-labs/flux.2-flex"
    ∷ "black-forest-labs/flux.2-max" ∷ "black-forest-labs/flux.2-klein-4b"
    ∷ "bytedance-seed/seedream-4.5" ∷ "openai/gpt-5-image-mini" ∷ "black-forest-labs/flux.2-pro"
    ∷ "google/gemini-2.5-flash-image" ∷ "google/gemini-3-pro-image-preview"
    ∷ "openai/gpt-5.4-image-2" ∷ []

-- containsMarketplaceID, containsCatalogID, containsCardTypeID and containsModelID: the loops differ
-- in the type of the items alone.
unfoldable pub contains_id : List String → String → Bool
contains_id [] target = false
contains_id (item ∷ items) target = str_eq item target || contains_id items target

abbrev marketplace_ratios : List (String × String)
marketplace_ratios = ("wildberries", "3:4") ∷ ("ozon", "3:4") ∷ ("yandex_market", "1:1") ∷ []

ratio_in : List (String × String) → String → String
ratio_in [] id = "3:4"
ratio_in ((item, ratio) ∷ items) id = if str_eq item id then ratio else ratio_in items id

unfoldable pub marketplace_aspect_ratio : String → String
unfolding ratio_in
marketplace_aspect_ratio id = ratio_in marketplace_ratios id
