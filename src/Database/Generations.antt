-- ===== src/Database/Generations.antt =====
-- The statements on generations, their cards and files (internal/dbgen/generation.sql.go), and the
-- insertion of a project (internal/dbgen/projects.sql.go).
use kartochki_online_backend.Prelude.{
  ℕ, suc, Bool, true, false, ◌&&◌, ◌||◌, Option, none, some, String, List, [], ◌∷◌, ◌++◌, ltb, ◌==◌,
  str_eq, if◌then◌else◌, first, select, count_where, update_where, remove_where,
}
use kartochki_online_backend.Calendar.{Time}
use kartochki_online_backend.Provider.{Uuid}
use kartochki_online_backend.Database.Rows.{
  Db, Generation, GenerationCardType, GeneratedCard, Asset, AssetKind, Project, draft,
  active_project,
}
use kartochki_online_backend.Database.Sql.{
  Query, reply, refused, one, unique_violation, foreign_key_violation,
}
use kartochki_online_backend.Database.Payments.{user_exists}
use kartochki_online_backend.Database.Catalog.{order_by}

abbrev not_deleted : Option Time → Bool
not_deleted none = true
not_deleted (some _) = false

-- The reply is the number of rows.
unfoldable pub activate_project_by_id : Uuid → Query ℕ
activate_project_by_id id now db =
    let test = λ (p : Project). (p.id == id) && not_deleted p.deleted_at in
    (
      reply (count_where test db.projects),
      record db {
        projects = update_where test (λ p. record p { status = active_project }) db.projects;
      },
    )

pub record CreateProjectParams : Type 0 where
  pub user_id : Uuid
  pub title : String
  pub marketplace : String
  pub product_name : String
  pub product_description : String

abbrev pub new_project : Uuid → Time → CreateProjectParams → Project
new_project id now arg = record {
  id = id;
  user_id = arg.user_id;
  title = arg.title;
  marketplace = arg.marketplace;
  product_name = arg.product_name;
  product_description = arg.product_description;
  status = draft;
  created_at = now;
  deleted_at = none;
}

unfoldable pub create_project : CreateProjectParams → Query Project
create_project arg now db =
    let row = new_project db.next_id now arg in
    if user_exists arg.user_id db.users
    then (reply row, record db { projects = db.projects ++ (row ∷ []); next_id = suc db.next_id })
    else (refused foreign_key_violation, db)

abbrev pub generation_exists : Uuid → Db → Bool
generation_exists id db = ltb 0 (count_where (λ g. g.id == id) db.generations)

abbrev pub asset_exists : Uuid → Db → Bool
asset_exists id db = ltb 0 (count_where (λ a. a.id == id) db.assets)

-- primary key (generation_id, position)
unfoldable pub add_generation_card_type : GenerationCardType → Query (Unit {0})
add_generation_card_type row now db =
    if ltb 0 (
      count_where (λ c. (c.generation_id == row.generation_id) && (c.position == row.position))
        db.generation_card_types)
    then (refused unique_violation, db)
    else if generation_exists row.generation_id db
    then (reply tt, record db { generation_card_types = db.generation_card_types ++ (row ∷ []) })
    else (refused foreign_key_violation, db)

pub record CreateAssetParams : Type 0 where
  pub id : Uuid
  pub user_id : Uuid
  pub kind : AssetKind
  pub storage_key : String
  pub original_filename : String
  pub mime_type : String
  pub size_bytes : ℕ

abbrev pub new_asset : Time → CreateAssetParams → Asset
new_asset now arg = record {
  id = arg.id;
  user_id = arg.user_id;
  kind = arg.kind;
  storage_key = arg.storage_key;
  original_filename = arg.original_filename;
  mime_type = arg.mime_type;
  size_bytes = arg.size_bytes;
  created_at = now;
}

-- assets.id is the primary key, assets.storage_key is unique.
abbrev pub asset_is_taken : CreateAssetParams → Asset → Bool
asset_is_taken arg a = (a.id == arg.id) || str_eq a.storage_key arg.storage_key

unfoldable pub create_asset : CreateAssetParams → Query Asset
create_asset arg now db =
    if ltb 0 (count_where (asset_is_taken arg) db.assets)
    then (refused unique_violation, db)
    else if user_exists arg.user_id db.users
    then (reply (new_asset now arg), record db { assets = db.assets ++ (new_asset now arg ∷ []) })
    else (refused foreign_key_violation, db)

unfoldable pub get_asset_by_id : Uuid → Query Asset
get_asset_by_id id now db = (one (first (λ a. a.id == id) db.assets), db)

unfoldable pub get_user_asset_by_id : Uuid → Uuid → Query Asset
get_user_asset_by_id id user now db =
    (one (first (λ a. (a.id == id) && (a.user_id == user)) db.assets), db)

abbrev pub is_card_of : Uuid → GeneratedCard → Bool
is_card_of id c = c.generation_id == id

abbrev pub points_to : Uuid → Option Uuid → Option Uuid
points_to id none = none
points_to id (some a) = if a == id then none else some a

abbrev pub is_source_of : Uuid → Generation → Bool
is_source_of id g = g.source_asset_id == id

-- A source of a generation is restricted; a card goes with its file, an archive is set to null.
unfoldable pub delete_asset_by_id : Uuid → Query ℕ
delete_asset_by_id id now db =
    if ltb 0 (count_where (is_source_of id) db.generations) && asset_exists id db
    then (refused foreign_key_violation, db)
    else (
      reply (count_where (λ a. a.id == id) db.assets),
      record db {
        assets = remove_where (λ a. a.id == id) db.assets;
        generated_cards =
            remove_where (λ c. (c.asset_id == id) && asset_exists id db) db.generated_cards;
        generations =
            update_where (λ g. asset_exists id db)
              (λ g. record g { archive_asset_id = points_to id g.archive_asset_id }) db.generations;
      },
    )

pub record CreateGeneratedCardParams : Type 0 where
  pub generation_id : Uuid
  pub asset_id : Uuid
  pub card_type_id : String
  pub position : ℕ

abbrev pub new_card : Uuid → Time → CreateGeneratedCardParams → GeneratedCard
new_card id now arg = record {
  id = id;
  generation_id = arg.generation_id;
  asset_id = arg.asset_id;
  card_type_id = arg.card_type_id;
  position = arg.position;
  created_at = now;
}

-- unique index (generation_id, position)
unfoldable pub create_generated_card : CreateGeneratedCardParams → Query GeneratedCard
create_generated_card arg now db =
    let row = new_card db.next_id now arg in
    if ltb 0 (
      count_where (λ c. is_card_of arg.generation_id c && (c.position == arg.position))
        db.generated_cards)
    then (refused unique_violation, db)
    else if generation_exists arg.generation_id db && asset_exists arg.asset_id db
    then (
      reply row,
      record db { generated_cards = db.generated_cards ++ (row ∷ []); next_id = suc db.next_id },
    )
    else (refused foreign_key_violation, db)

unfoldable pub delete_generated_cards_by_generation_id : Uuid → Query (Unit {0})
delete_generated_cards_by_generation_id id now db =
    (reply tt, record db { generated_cards = remove_where (is_card_of id) db.generated_cards })

pub record GeneratedCardRow : Type 0 where
  pub id : Uuid
  pub card_type_id : String
  pub asset_id : Uuid
  pub storage_key : String

-- The join with the file of each card.
abbrev card_row : List Asset → GeneratedCard → List GeneratedCardRow → List GeneratedCardRow
card_row assets c rest = elim (first (λ a. a.id == c.asset_id) assets) [
  | none ↦ rest
  | some a ↦
      record {
        id = c.id;
        card_type_id = c.card_type_id;
        asset_id = c.asset_id;
        storage_key = a.storage_key;
      }
      ∷ rest
]

abbrev card_rows : List Asset → List GeneratedCard → List GeneratedCardRow
card_rows assets [] = []
card_rows assets (c ∷ cs) = card_row assets c (card_rows assets cs)

unfoldable pub list_generated_cards_by_generation_id : Uuid → Query (List GeneratedCardRow)
unfolding order_by
list_generated_cards_by_generation_id id now db = (
  reply (
      card_rows db.assets
        (order_by (λ c. c.position) (λ c. 0) (select (is_card_of id) db.generated_cards))),
  db,
)

unfoldable pub list_generation_card_types : Uuid → Query (List GenerationCardType)
unfolding order_by
list_generation_card_types id now db = (
  reply (
      order_by (λ c. c.position) (λ c. 0)
        (select (λ c. c.generation_id == id) db.generation_card_types)),
  db,
)
