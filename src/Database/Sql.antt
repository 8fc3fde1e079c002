-- ===== src/Database/Sql.antt =====
-- What a statement replies, and the tests of a `where` clause.
use kartochki_online_backend.Prelude.{
  ℕ, ◌≡◌, ap, eq_iff, arith, Bool, true, false, String, Option, none, some, List, [], ◌∷◌, ltb,
  str_eq, if◌then◌else◌,
}
use kartochki_online_backend.Calendar.{Time}
use kartochki_online_backend.Database.Rows.{Db}

-- pgx.ErrNoRows, the violations of the schema's constraints, an integer that leaves its column's
-- type, and a broken connection.
pub data SqlError : Type 0 where
  no_rows unique_violation check_violation foreign_key_violation out_of_range broken : SqlError

pub data Reply (A : Type 0) : Type 0 where
  reply : A → Reply A
  refused : SqlError → Reply A

abbrev pub Query : Type 0 → Type 0
Query A = Time → Db → Reply A × Db

-- `:one` over a row that may not be there
abbrev pub one : {A : Type 0} → Option A → Reply A
one none = refused no_rows
one (some a) = reply a

-- SQL's `=` on a nullable column: NULL equals nothing.
abbrev pub text_matches : Option String → Option String → Bool
text_matches (some s) (some t) = str_eq s t
text_matches _ _ = false

-- pgtype.Text{String: s, Valid: s != ""}
abbrev pub to_pg_text : String → Option String
to_pg_text s = if str_eq s "" then none else some s

abbrev pub latest : {A : Type 0} → (A → ℕ) → A → Option A → Option A
latest key x none = some x
latest key x (some y) = if ltb (key x) (key y) then some y else some x

-- `select … where test order by key desc limit 1`
unfoldable pub newest : {A : Type 0} → (A → Bool) → (A → ℕ) → List A → Option A
newest test key [] = none
newest test key (x ∷ xs) = if test x then latest key x (newest test key xs) else newest test key xs

-- What a statement establishes when it replies.
abbrev pub QueryPost : {A : Type 0} → (A → Db → Type 0) → Reply A × Db → Type 0
QueryPost Q (reply a, db) = Q a db
QueryPost Q (refused e, db) = Unit

pub QueryPost-weaken :
    {A : Type 0} {Q Q' : A → Db → Type 0} (r : Reply A × Db)
    → ((a : A) (db : Db) → Q a db → Q' a db)
    → QueryPost Q r
    → QueryPost Q' r
QueryPost-weaken (reply a, db) h q = h a db q
QueryPost-weaken (refused e, db) h q = tt

-- `none` stands for `pgx.ErrNoRows`.
abbrev pub QueryPostOption : {A : Type 0} → (Option A → Db → Type 0) → Reply A × Db → Type 0
QueryPostOption Q (reply a, db) = Q (some a) db
QueryPostOption Q (refused no_rows, db) = Q none db
QueryPostOption Q (refused _, db) = Unit

pub text_matches→eq : (o : Option String) (s : String) → text_matches o (some s) ≡ true → o ≡ some s
text_matches→eq none s h = ground arith
text_matches→eq (some t) s h = ap some ((eq_iff t s).0 h)
