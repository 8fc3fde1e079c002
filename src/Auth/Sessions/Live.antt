-- ===== src/Auth/Sessions/Live.antt =====
-- Updates of the table of sessions, seen as the map from hashes to owners
-- (internal/dbgen/sessions.sql.go).
use kartochki_online_backend.Prelude.{
  ◌≡◌, refl, subst, ◌∙◌, Bool, ◌&&◌, inl, inr, Bool-cases, String, Option, none, some, List, [],
  ◌∷◌, ◌++◌, ltb, ◌==◌, str_eq, eq_iff, first, count_where, count_where-update_where,
  count_where-append, update_where, arith, if◌then◌else◌,
}
use kartochki_online_backend.Calendar.{Time}
use kartochki_online_backend.Provider.{Uuid}
use kartochki_online_backend.Database.{LoginSession}
use kartochki_online_backend.Database.Sessions.{has_token, is_live, is_null, revoked}
use kartochki_online_backend.Auth.Sessions.Store.{Store, owner_id, without}

-- The map that the rows are.
abbrev pub live_map : Time → List LoginSession → Store
live_map t xs hash = owner_id (first (λ s. has_token hash s && is_live t s) xs)

abbrev pub live_in : Time → String → List LoginSession → Option Uuid
live_in t hash xs = owner_id (first (λ s. has_token hash s && is_live t s) xs)

-- A session is appended under a hash that was not there.
pub live-append :
    (t : Time) (hash : String) (xs : List LoginSession) (row : LoginSession)
    → count_where (has_token row.token_hash) xs ≡ 0
    → row.revoked_at ≡ none
    → live_in t hash (xs ++ (row ∷ [])) ≡ (
        if str_eq row.token_hash hash
        then (if ltb t row.expires_at then some row.user_id else none)
        else live_in t hash xs)
live-append t hash [] row h r = ground (arith, eq_iff row.token_hash hash)
live-append t hash (x ∷ xs) row h r = ground (
  arith,
  eq_iff row.token_hash hash,
  eq_iff x.token_hash hash,
  eq_iff x.token_hash row.token_hash,
  live-append t hash xs row,
)

pub live-closed :
    (t at : Time) (token hash : String) (xs : List LoginSession)
    → live_in t hash (update_where (λ s. has_token token s && is_null s.revoked_at) (revoked at) xs)
      ≡ (if str_eq token hash then none else live_in t hash xs)
live-closed t at token hash [] = ground arith
live-closed t at token hash (x ∷ xs) = ground (
  arith,
  eq_iff token hash,
  eq_iff x.token_hash hash,
  eq_iff x.token_hash token,
  live-closed t at token hash xs,
)

-- No row has the hash, so none is live under it.
live-absent :
    (t : Time) (hash : String) (xs : List LoginSession)
    → count_where (has_token hash) xs ≡ 0
    → live_in t hash xs ≡ none
live-absent t hash [] h = refl
live-absent t hash (x ∷ xs) h = ground (arith, live-absent t hash xs)

absent-closed :
    (at : Time) (hash : String) (test : LoginSession → Bool) (xs : List LoginSession)
    → count_where (has_token hash) (update_where test (revoked at) xs)
      ≡ count_where (has_token hash) xs
absent-closed at hash test xs =
    count_where-update_where (has_token hash) test (revoked at) xs λ x e. refl

-- token_hash is unique.
abbrev pub TokensDistinct : List LoginSession → Type 0
TokensDistinct [] = Unit
TokensDistinct (x ∷ xs) = (count_where (has_token x.token_hash) xs ≡ 0) × TokensDistinct xs

pub live-closed_all :
    (t at : Time) (user : Uuid) (hash : String) (xs : List LoginSession)
    → TokensDistinct xs
    → live_in t hash
        (update_where (λ s. (s.user_id == user) && is_null s.revoked_at) (revoked at) xs)
      ≡ without user (live_in t hash xs)
live-closed_all t at user hash [] d = refl
live-closed_all t at user hash (x ∷ xs) d = elim (Bool-cases (str_eq x.token_hash hash)) [
  | inr other ↦ ground (arith, live-closed_all t at user hash xs d.1)
  | inl same ↦
      let e : x.token_hash ≡ hash = (eq_iff x.token_hash hash).0 same in
      let absent : count_where (has_token hash) xs ≡ 0 =
        subst (λ h. count_where (has_token h) xs ≡ 0) e d.0 in
      let closes = λ (s : LoginSession). (s.user_id == user) && is_null s.revoked_at in
      ground (
        arith,
        live-absent t hash xs absent,
        live-absent t hash (update_where closes (revoked at) xs)
            (absent-closed at hash closes xs ∙ absent),
      )
]

pub distinct-append :
    (xs : List LoginSession) (row : LoginSession)
    → count_where (has_token row.token_hash) xs ≡ 0
    → TokensDistinct xs
    → TokensDistinct (xs ++ (row ∷ []))
distinct-append [] row h d = (refl, tt)
distinct-append (x ∷ xs) row h d = (
  count_where-append (has_token x.token_hash) xs (row ∷ [])
      ∙ ground (arith, d.0, eq_iff x.token_hash row.token_hash, eq_iff row.token_hash x.token_hash),
  distinct-append xs row (ground arith) d.1,
)

pub distinct-closed :
    (at : Time) (test : LoginSession → Bool) (xs : List LoginSession)
    → TokensDistinct xs
    → TokensDistinct (update_where test (revoked at) xs)
distinct-closed at test [] d = tt
distinct-closed at test (x ∷ xs) d = elim (Bool-cases (test x)) [
  | inl e ↦ rw e (absent-closed at x.token_hash test xs ∙ d.0, distinct-closed at test xs d.1)
  | inr e ↦ rw e (absent-closed at x.token_hash test xs ∙ d.0, distinct-closed at test xs d.1)
]
