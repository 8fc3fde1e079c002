-- ===== src/Storage.antt =====
-- The files on the local disk (internal/platform/storage/storage.go).
pub mod Keeps
use kartochki_online_backend.Prelude.{
  ℕ, Bool, true, false, not, ◌&&◌, ◌||◌, String, Option, none, some, List, [], ◌∷◌, ◌++◌, ◌==◌,
  str_eq, if◌then◌else◌, first, remove_where, length,
}
use Prim.Native.Char.{code}
use kartochki_online_backend.Prelude.Text.{trim_space, append, has_prefix, to_dashes}
use kartochki_online_backend.Environment.{Environment}
use kartochki_online_backend.World.{
  M, pure, fail, ◌>>=◌, ◌>>◌, reject_if, require, may_fail, Bytes, File, World, ok,
}

pub record SavedFile : Type 0 where
  pub storage_key : String
  pub size_bytes : ℕ

pub record ArchiveFile : Type 0 where
  pub name : String
  pub storage_key : String

pub record Client : Type 0 where
  pub root_dir : String
  pub public_base : String

abbrev is_file : String → File → Bool
is_file path f = str_eq f.path path

-- strings.TrimLeft(s, "/")
unfoldable pub trim_slashes : String → String
trim_slashes String.[] = String.[]
trim_slashes (String.◌∷◌ c s) =
    let rest = trim_slashes s in if code c == b'/' then rest else String.◌∷◌ c s

-- strings.ReplaceAll(s, "\\", "/")
unfoldable pub to_slashes : String → String
to_slashes String.[] = String.[]
to_slashes (String.◌∷◌ c s) =
    if code c == b'\\' then append "/" (to_slashes s) else String.◌∷◌ c (to_slashes s)

unfoldable pub public_url : Client → String → String
unfolding trim_slashes
public_url c key = append c.public_base (append "/" (trim_slashes (trim_space key)))

module _ {E : Type 0} where
  abbrev put_file : String → Bytes → M E (Unit {0})
  put_file path body w = (
    ok tt,
    record w { files = record { path = path; body = body } ∷ remove_where (is_file path) w.files },
  )

  abbrev look_up : String → M E (Option File)
  look_up path w = (ok (first (is_file path) w.files), w)

  abbrev drop_file : String → M E (Unit {0})
  drop_file path w = (ok tt, record w { files = remove_where (is_file path) w.files })

module _ (env : Environment) (c : Client) where
  -- On a system where the separator is the slash, `ToSlash` and `FromSlash` do nothing.
  unfoldable pub full_path : String → Option String
  unfolding trim_slashes to_slashes
  full_path storage_key =
      let key = trim_slashes (env.clean_path (to_slashes (trim_space storage_key))) in
      let root = env.clean_path c.root_dir in
      let path = env.clean_path (env.join_path (c.root_dir ∷ key ∷ [])) in
      if str_eq key "." || str_eq key ""
      then none
      else if not (str_eq path root) && not (has_prefix path (append root "/"))
      then none
      else some path

  module _ {E : Type 0} (e : E) where
    -- The directory, the opening, which empties the file, and the writing may each fail; what part
    -- of the body a failed writing leaves is taken to be none.
    unfoldable pub save : String → Bytes → M E SavedFile
    unfolding full_path
    save storage_key body = do
      path ← require (full_path storage_key) e
      may_fail e
      may_fail e
      put_file path []
      may_fail e
      put_file path body
      pure (record { storage_key = storage_key; size_bytes = length body })

    abbrev body_of : Option File → M E Bytes
    body_of none = fail e
    body_of (some f) = pure f.body

    unfoldable pub read : String → M E Bytes
    unfolding full_path
    read storage_key = do
      path ← require (full_path storage_key) e
      may_fail e
      f ← look_up path
      body_of f

    -- A file that does not exist is no failure.
    unfoldable pub delete : String → M E (Unit {0})
    unfolding full_path
    delete storage_key = do path ← require (full_path storage_key) e; may_fail e; drop_file path

    abbrev entry_name : ArchiveFile → String
    entry_name item =
        if str_eq (trim_space item.name) ""
        then env.base_path item.storage_key
        else trim_space item.name

    unfoldable pub zip_entries : List ArchiveFile → M E (List (String × Bytes))
    unfolding read
    zip_entries [] = pure []
    zip_entries (item ∷ items) = do
      body ← read item.storage_key
      may_fail e
      rest ← zip_entries items
      pure ((entry_name item, body) ∷ rest)

    -- `zip` stands for the writer of archive/zip. An archive that fails stays behind, taken as empty.
    unfoldable pub create_zip :
        (List (String × Bytes) → Bytes) → String → List ArchiveFile → M E SavedFile
    unfolding full_path zip_entries
    create_zip zip target_key files = do
      path ← require (full_path target_key) e
      may_fail e
      may_fail e
      put_file path []
      entries ← zip_entries files
      may_fail e
      put_file path (zip entries)
      may_fail e
      pure (record { storage_key = target_key; size_bytes = length (zip entries) })
