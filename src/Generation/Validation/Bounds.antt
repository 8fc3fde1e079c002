-- ===== src/Generation/Validation/Bounds.antt =====
-- What a validated request satisfies (internal/generation/validation.go).
use kartochki_online_backend.Prelude.{
  ℕ, ◌≡◌, refl, subst, Bool, true, false, ◌&&◌, inl, inr, Option-cases, String, Option, none, some,
  ltb, leb, length, ◌==◌, first, arith, if◌then◌else◌,
}
use kartochki_online_backend.Prelude.Text.{trim_space}
use kartochki_online_backend.Prelude.Int.{ℤ, pos, negsuc}
use kartochki_online_backend.Calendar.{Time}
use kartochki_online_backend.Provider.{Uuid}
use kartochki_online_backend.Environment.{Environment}
use kartochki_online_backend.Database.{Db, Asset, QueryPost}
use kartochki_online_backend.Database.Generations.{get_user_asset_by_id}
use kartochki_online_backend.World.{World, ok}
use kartochki_online_backend.World.Keeps.{Keeps, Keeps-bind, Keeps-pure, Keeps-require}
use kartochki_online_backend.World.Yields.{
  Yields-of_Keeps, Yields, Yields-bind, Yields-pure, Yields-expect,
}
use kartochki_online_backend.World.Returns.{Post-returned, Yields-reject_if, Yields-require_then}
use kartochki_online_backend.Generation.Types.{CreateInput, NormalizedCreateInput, ProductContext}
use kartochki_online_backend.Generation.Catalog.{
  generate_max_card_count, generate_marketplaces, generate_styles, generate_models, default_model,
  contains_id,
}
use kartochki_online_backend.Generation.Validation.{
  max_project_title_length, is_empty, fits, card_count_of, model_of, is_source_image,
  validate_product_context, validate_create_input,
}
use kartochki_online_backend.Generation.Validation.CardTypes.{all_known, card_types_of-known}

pub record IsValid (db : Db) (user source : Uuid) (n : NormalizedCreateInput) : Type 0 where
  pub known_marketplace : contains_id generate_marketplaces n.marketplace_id ≡ true
  pub known_style : contains_id generate_styles n.style_id ≡ true
  pub counted : (ltb 0 n.card_count && leb n.card_count generate_max_card_count) ≡ true
  pub known_types : all_known n.card_type_ids ≡ true
  pub has_type : ltb 0 (length n.card_type_ids) ≡ true
  pub known_model : contains_id generate_models n.model_id ≡ true
  pub short_name : fits max_project_title_length n.project_name ≡ true
  pub asset : Asset
  pub found : first (λ a. (a.id == source) && (a.user_id == user)) db.assets ≡ some asset
  pub is_source : is_source_image asset.kind ≡ true
  pub named : n.source_file_name ≡ asset.original_filename

counted_if : (b : Bool) (n c : ℕ) → (if b then some n else none) ≡ some c → (b ≡ true) × (n ≡ c)
counted_if true n c e = ground arith
counted_if false n c e = ground arith

card_count_of-bounds :
    (i : ℤ) (c : ℕ) → card_count_of i ≡ some c → (ltb 0 c && leb c generate_max_card_count) ≡ true
unfolding card_count_of
card_count_of-bounds (pos n) c e =
    let (passes, same) = counted_if (ltb 0 n && leb n generate_max_card_count) n c e in
    subst (λ m. (ltb 0 m && leb m generate_max_card_count) ≡ true) same passes
card_count_of-bounds (negsuc n) c e = ground arith

known_if :
    (b : Bool) (id c : String)
    → contains_id generate_models id ≡ b
    → (if b then some id else none) ≡ some c
    → contains_id generate_models c ≡ true
known_if true id c k e = cc
known_if false id c k e = ground arith

model_if :
    (empty known : Bool) (id c : String)
    → contains_id generate_models id ≡ known
    → (if empty then some default_model else if known then some id else none) ≡ some c
    → contains_id generate_models c ≡ true
unfolding contains_id
model_if true known id c k e = known_if true default_model c refl e
model_if false known id c k e = known_if known id c k e

model_of-known : (id c : String) → model_of id ≡ some c → contains_id generate_models c ≡ true
unfolding model_of
model_of-known id c e = model_if (is_empty id) (contains_id generate_models id) id c refl e

abbrev pub AllValid : Db → Uuid × Uuid × NormalizedCreateInput → Db → Type 0
AllValid start (user, source, n) db = (db ≡ start) × IsValid start user source n

validate_product_context-Keeps :
    {P : Db → Type 0} (p : Option ProductContext) → Keeps P (validate_product_context p)
unfolding validate_product_context
validate_product_context-Keeps none = Keeps-pure
validate_product_context-Keeps (some p) = Keeps-bind (Keeps-require _ _) λ _. Keeps-pure

module _ (env : Environment) (input : CreateInput) (start : Db) where
  pub validate-Yields : Yields (λ db. db ≡ start) (validate_create_input env input) (AllValid start)
  unfolding validate_create_input get_user_asset_by_id
  validate-Yields = Yields-require_then _ _ λ user parsed_user.
      Yields-require_then _ _ λ source parsed_source. Yields-reject_if _ _ λ market.
        Yields-reject_if _ _ λ style. Yields-require_then _ _ λ count counts.
          Yields-require_then _ _ λ types collected. Yields-require_then _ _ λ model chosen.
            Yields-reject_if _ _ λ short.
              Yields-bind
                (λ (asset : Asset) db.
                  (first (λ a. (a.id == source) && (a.user_id == user)) start.assets ≡ some asset)
                  × (db ≡ start))
                (Yields-expect _ _ _ (found user source))
                λ asset. Yields-reject_if _ _ λ kind.
                  Yields-bind
                    (λ _ db.
                      (first (λ a. (a.id == source) && (a.user_id == user)) start.assets
                        ≡ some asset)
                      × (db ≡ start))
                    (Yields-of_Keeps (validate_product_context-Keeps input.product))
                    λ product. Yields-pure λ db q. (
                      q.1,
                      record {
                        known_marketplace = ground (arith, market);
                        known_style = ground (arith, style);
                        counted = card_count_of-bounds input.card_count count counts;
                        known_types = (card_types_of-known input.card_type_ids types collected).0;
                        has_type = (card_types_of-known input.card_type_ids types collected).1;
                        known_model = model_of-known (trim_space input.model_id) model chosen;
                        short_name = ground (arith, short);
                        asset = asset;
                        found = q.0;
                        is_source = ground (arith, kind);
                        named = refl;
                      },
                    )
    where
      found :
          (user source : Uuid) (now : Time) (db : Db)
          → db ≡ start
          → QueryPost
              (λ asset d.
                (first (λ a. (a.id == source) && (a.user_id == user)) start.assets ≡ some asset)
                × (d ≡ start))
              (get_user_asset_by_id source user now db)
      found user source now db e =
          elim (Option-cases (first (λ a. (a.id == source) && (a.user_id == user)) db.assets)) [
            | inl missing ↦ rw missing tt
            | inr (asset, there) ↦ rw there (
              subst
                  (λ d. first (λ a. (a.id == source) && (a.user_id == user)) d.assets ≡ some asset)
                  e there,
              e,
            )
          ]

-- A request that passes the validation, from any database and with faults anywhere: marketplace,
-- style, model and every card type are in the catalog and there is a card type; the number of cards
-- is between 1 and 15; the name has at most 200 bytes; the source is a source image of the user,
-- and its file name is kept. The database is as it was.
pub validate_create_input-IsValid :
    (env : Environment) (input : CreateInput) (w : World) (r : Uuid × Uuid × NormalizedCreateInput)
    → (validate_create_input env input w).0 ≡ ok r
    → AllValid w.db r (validate_create_input env input w).1.db
validate_create_input-IsValid env input w r returned =
    Post-returned (AllValid w.db) (validate_create_input env input w)
      ((validate-Yields env input w.db).yields w refl) returned
