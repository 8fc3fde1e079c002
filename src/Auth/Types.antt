-- ===== src/Auth/Types.antt =====
-- The records and the errors of the account service (internal/auth/service.go, errors.go,
-- register_verification.go, session.go, password.go).
use kartochki_online_backend.Prelude.{
  ℕ, zero, suc, Bool, String, Option, none, some, str_eq, if◌then◌else◌,
}
use Prim.Native.String.{◌++◌ as join}
use kartochki_online_backend.Prelude.Text.{trim_space}
use kartochki_online_backend.Calendar.{Time}
use kartochki_online_backend.Environment.{Environment}
use kartochki_online_backend.World.{M, pure, ◌>>◌, may_fail}

-- An error that the callers do not tell apart is `wrapped` with its text.
pub data Error : Type 0 where
  email_already_exists invalid_credentials unauthorized password_too_short : Error
  password_reset_token_invalid user_not_found : Error
  registration_rate_limited verification_not_found verification_code_invalid : Error
  verification_code_expired verification_attempts_exceeded registration_resend_too_early : Error
  registration_resend_limit_exceeded verification_already_completed : Error
  wrapped : String → Error

-- The settings of the service. `email_enqueuer` says whether the queue of emails is there.
pub record Service : Type 0 where
  pub session_ttl : ℕ
  pub password_min_length : ℕ
  pub password_reset_token_ttl : ℕ
  pub email_enqueuer : Bool

pub record User : Type 0 where
  pub id : String
  pub name : String
  pub email : String
  pub avatar_url : String

pub record Session : Type 0 where
  pub access_token : String
  pub expires_at : Time

pub record SessionMetadata : Type 0 where
  pub user_agent : String
  pub ip_address : String

pub record AuthResult : Type 0 where
  pub user : User
  pub session : Session

pub record RegisterInput : Type 0 where
  pub name : String
  pub email : String
  pub password : String
  pub ip_address : String

pub record LoginInput : Type 0 where
  pub email : String
  pub password : String

pub record RegisterResult : Type 0 where
  pub status : String
  pub verification_id : String
  pub email : String
  pub code_length : ℕ
  pub resend_available_in_seconds : ℕ
  pub expires_in_seconds : ℕ

pub record VerifyRegistrationInput : Type 0 where
  pub verification_id : String
  pub code : String

abbrev non_empty : String → Option String
non_empty s = if str_eq s "" then none else some s

unfoldable pub nullable_text : String → Option String
nullable_text value = non_empty (trim_space value)

unfoldable pub nullable_text_value : Option String → String
nullable_text_value none = ""
nullable_text_value (some s) = trim_space s

-- 32 random bytes in base64: the text is an argument.
unfoldable pub generate_session_token : String → M Error String
generate_session_token token = do may_fail (wrapped "generate session token"); pure token

-- byte('0' + n)
abbrev digit : ℕ → String
digit zero = "0"
digit (suc zero) = "1"
digit (suc (suc zero)) = "2"
digit (suc (suc (suc zero))) = "3"
digit (suc (suc (suc (suc zero)))) = "4"
digit (suc (suc (suc (suc (suc zero))))) = "5"
digit (suc (suc (suc (suc (suc (suc zero)))))) = "6"
digit (suc (suc (suc (suc (suc (suc (suc zero))))))) = "7"
digit (suc (suc (suc (suc (suc (suc (suc (suc zero)))))))) = "8"
digit _ = "9"

abbrev pub registration_verification_code_length : ℕ
registration_verification_code_length = 6

-- The digits in the order of the draws; `draw i` is the `i`th value of `rand.Int`.
unfoldable pub code_digits : ℕ → ℕ → (ℕ → ℕ) → String
code_digits zero i draw = ""
code_digits (suc left) i draw = join (digit (draw i)) (code_digits left (suc i) draw)

module _ (env : Environment) where
  unfoldable pub normalize_email : String → String
  normalize_email email = env.to_lower (trim_space email)

  unfoldable pub hash_session_token : String → String
  hash_session_token token = env.sha256_hex token

  unfoldable pub hash_password : String → String → Option String
  hash_password salt password = env.bcrypt_hash salt password

  unfoldable pub compare_password : String → String → Bool
  compare_password password hash = env.bcrypt_matches hash password

  -- The code and its hash.
  unfoldable pub generate_verification_code : (ℕ → ℕ) → M Error (String × String)
  unfolding code_digits
  generate_verification_code draw = do
    may_fail (wrapped "generate verification code")
    let code = code_digits registration_verification_code_length 0 draw
    pure (code, hash_session_token code)
