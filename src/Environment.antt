-- ===== src/Environment.antt =====
-- Functions of packages outside the repository, and of tables and hashes that the model does not
-- repeat: `uuid.Parse` and `UUID.String` of google/uuid, the letter tables behind
-- `strings.ToLower`, `mail.ParseAddress` (its `Address`, if there is no error), the hexadecimal
-- SHA-256 of a text, `time.RFC3339`, and bcrypt: `GenerateFromPassword` with its random salt, which
-- refuses passwords over 72 bytes, and `CompareHashAndPassword`; `filepath.Clean`, `Join` and
-- `Base`, and `%02d` of fmt. Every definition that uses one takes this record.
use kartochki_online_backend.Prelude.{ℕ, Bool, String, Option, List}
use kartochki_online_backend.Calendar.{Time}
use kartochki_online_backend.Provider.{Uuid}

pub record Environment : Type 0 where
  pub parse_uuid : String → Option Uuid
  pub print_uuid : Uuid → String
  pub to_lower : String → String
  pub parse_address : String → Option String
  pub sha256_hex : String → String
  pub rfc3339 : Time → String
  pub bcrypt_hash : String → String → Option String
  pub bcrypt_matches : String → String → Bool
  pub clean_path : String → String
  pub join_path : List String → String
  pub base_path : String → String
  pub two_digits : ℕ → String
