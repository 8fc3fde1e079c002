-- ===== src/Auth/Calls.antt =====
-- The calls of the account service as values, and their runs one after another
-- (internal/auth/register_verification.go, internal/auth/service.go).
use kartochki_online_backend.Prelude.{ℕ, String, List, [], ◌∷◌}
use kartochki_online_backend.Environment.{Environment}
use kartochki_online_backend.World.{World, M, pure, ◌>>=◌}
use kartochki_online_backend.Auth.Types.{
  Error, Service, SessionMetadata, RegisterInput, LoginInput, VerifyRegistrationInput,
}
use kartochki_online_backend.Auth.Registration.{register}
use kartochki_online_backend.Auth.Verification.{verify_registration, resend_registration_code}
use kartochki_online_backend.Auth.Sessions.{login, authenticate, logout}
use kartochki_online_backend.Auth.Passwords.{forgot_password, reset_password}

-- A call with its random values first.
pub data Call : Type 0 where
  registers : String → (ℕ → ℕ) → RegisterInput → Call
  verifies : String → VerifyRegistrationInput → SessionMetadata → Call
  resends : (ℕ → ℕ) → String → Call
  logs_in : String → LoginInput → SessionMetadata → Call
  authenticates : String → Call
  logs_out : String → Call
  forgets : String → String → Call
  resets : String → String → String → Call

-- The reply is dropped.
abbrev pub done : {A : Type 0} → M Error A → M Error (Unit {0})
done m = m >>= λ _. pure tt

module _ (env : Environment) (s : Service) where
  unfoldable pub run : Call → M Error (Unit {0})
  run (registers salt draw input) = done (register env s salt draw input)
  run (verifies token input metadata) = done (verify_registration env s token input metadata)
  run (resends draw id) = done (resend_registration_code env s draw id)
  run (logs_in token input metadata) = done (login env s token input metadata)
  run (authenticates token) = done (authenticate env token)
  run (logs_out token) = done (logout env token)
  run (forgets token email) = done (forgot_password env s token email)
  run (resets salt token password) = done (reset_password env s salt token password)

  -- The world after the calls, whether they fail or not.
  unfoldable pub after_calls : List Call → World → World
  after_calls [] w = w
  after_calls (c ∷ cs) w = after_calls cs (run c w).1
