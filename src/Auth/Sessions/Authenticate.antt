-- ===== src/Auth/Sessions/Authenticate.antt =====
-- A token is answered by the map from hashes to owners (internal/auth/service.go, Authenticate).
use kartochki_online_backend.Prelude.{
  ◌≡◌, refl, ◌∙◌, String, Option, none, some, List, [], ◌==◌, ◌&&◌, first,
}
use kartochki_online_backend.Provider.{Uuid}
use kartochki_online_backend.Environment.{Environment}
use kartochki_online_backend.Database as Db
use kartochki_online_backend.Database.{LoginSession}
use kartochki_online_backend.Database.Sessions.{
  get_auth_identity_by_token_hash, has_token, is_live, owner_of,
}
use kartochki_online_backend.World.{World, Result, ok, err, sql_now}
use kartochki_online_backend.World.Clear.{expect-one-result, reply_or}
use kartochki_online_backend.Auth.Types.{Error, unauthorized, User, hash_session_token}
use kartochki_online_backend.Auth.Sessions.{authenticate, user_of}
use kartochki_online_backend.Auth.Sessions.Store.{live_owner, owner_id}

module _ (env : Environment) where
  abbrev answer_user : Option Db.User → Result Error User
  answer_user none = err unauthorized
  answer_user (some row) = ok (user_of env row)

  abbrev pub answer : List Db.User → Option Uuid → Result Error User
  answer users none = err unauthorized
  answer users (some id) = answer_user (first (λ u. u.id == id) users)

  -- Without a fault, a token is answered by the user whom the map has at its hash now, and refused
  -- as unauthorized if there is none.
  pub authenticate-answers :
      (token : String) (w : World)
      → w.faults ≡ []
      → (authenticate env token w).0
        ≡ answer w.db.users (live_owner (sql_now w) w.db (hash_session_token env token))
  unfolding authenticate get_auth_identity_by_token_hash live_owner
  authenticate-answers token w clear =
      let test =
        λ (s : LoginSession). has_token (hash_session_token env token) s && is_live (sql_now w) s in
      expect-one-result _ (get_auth_identity_by_token_hash (hash_session_token env token))
        (user_of env) w (owner_of w.db.users (first test w.db.sessions)) clear refl
      ∙ by_session (first test w.db.sessions)
    where
      by_row : (row : Option Db.User) → reply_or unauthorized (user_of env) row ≡ answer_user row
      by_row none = refl
      by_row (some row) = refl

      by_session :
          (o : Option LoginSession)
          → reply_or unauthorized (user_of env) (owner_of w.db.users o)
            ≡ answer w.db.users (owner_id o)
      by_session none = refl
      by_session (some s) = by_row (first (λ u. u.id == s.user_id) w.db.users)
