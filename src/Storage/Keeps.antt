-- ===== src/Storage/Keeps.antt =====
-- Rules for the operations on files (internal/platform/storage/storage.go).
use kartochki_online_backend.Prelude.{String, Option, none, some, List, [], ◌∷◌}
use kartochki_online_backend.Environment.{Environment}
use kartochki_online_backend.Database.{Db}
use kartochki_online_backend.World.{Bytes, File}
use kartochki_online_backend.World.Keeps.{
  Keeps, Keeps-bind, Keeps-may_fail, Keeps-pure, Keeps-fail, Keeps-require,
}
use kartochki_online_backend.Storage.{
  Client, ArchiveFile, save, read, delete, zip_entries, create_zip, put_file, look_up, drop_file,
  body_of,
}

module _ {E : Type 0} {P : Db → Type 0} where
  Keeps-put_file : (path : String) (body : Bytes) → Keeps P (put_file {E = E} path body)
  Keeps-put_file path body = record { keeps = λ w p. p }

  Keeps-drop_file : (path : String) → Keeps P (drop_file {E = E} path)
  Keeps-drop_file path = record { keeps = λ w p. p }

  Keeps-look_up : (path : String) → Keeps P (look_up {E = E} path)
  Keeps-look_up path = record { keeps = λ w p. p }

  module _ (env : Environment) (c : Client) (e : E) where
    Keeps-body_of : (f : Option File) → Keeps P (body_of env c e f)
    Keeps-body_of none = Keeps-fail
    Keeps-body_of (some f) = Keeps-pure

    pub Keeps-save : (key : String) (body : Bytes) → Keeps P (save env c e key body)
    unfolding save
    Keeps-save key body = Keeps-bind (Keeps-require _ _) λ path. Keeps-bind (Keeps-may_fail _) λ _.
        Keeps-bind (Keeps-may_fail _) λ _.
          Keeps-bind (Keeps-put_file _ _)
            λ _. Keeps-bind (Keeps-may_fail _) λ _. Keeps-bind (Keeps-put_file _ _) λ _. Keeps-pure

    pub Keeps-read : (key : String) → Keeps P (read env c e key)
    unfolding read
    Keeps-read key =
        Keeps-bind (Keeps-require _ _)
          λ path. Keeps-bind (Keeps-may_fail _) λ _. Keeps-bind (Keeps-look_up _) Keeps-body_of

    pub Keeps-delete : (key : String) → Keeps P (delete env c e key)
    unfolding delete
    Keeps-delete key =
        Keeps-bind (Keeps-require _ _) λ path. Keeps-bind (Keeps-may_fail _) λ _. Keeps-drop_file _

    Keeps-zip_entries : (items : List ArchiveFile) → Keeps P (zip_entries env c e items)
    unfolding zip_entries
    Keeps-zip_entries [] = Keeps-pure
    Keeps-zip_entries (item ∷ items) =
        Keeps-bind (Keeps-read _) λ _.
          Keeps-bind (Keeps-may_fail _) λ _. Keeps-bind (Keeps-zip_entries items) λ _. Keeps-pure

    pub Keeps-create_zip :
        (zip : List (String × Bytes) → Bytes) (key : String) (files : List ArchiveFile)
        → Keeps P (create_zip env c e zip key files)
    unfolding create_zip
    Keeps-create_zip zip key files = Keeps-bind (Keeps-require _ _) λ path.
        Keeps-bind (Keeps-may_fail _) λ _. Keeps-bind (Keeps-may_fail _) λ _.
          Keeps-bind (Keeps-put_file _ _) λ _. Keeps-bind (Keeps-zip_entries files) λ _.
            Keeps-bind (Keeps-may_fail _) λ _.
              Keeps-bind (Keeps-put_file _ _) λ _. Keeps-bind (Keeps-may_fail _) λ _. Keeps-pure
