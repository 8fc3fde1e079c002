-- ===== src/Auth/Sessions/Changes.antt =====
-- What each call on sessions does to the map from hashes to owners (internal/auth/service.go,
-- register_verification.go).
use kartochki_online_backend.Prelude.{
  ◌≡◌, ◌≤◌, ◌+◌, suc, refl, subst, ap, Bool, not, false, Option, none, some, first, ltb,
  Option-cases, arith, ◌&&◌, inl, inr, String, update_where,
}
use kartochki_online_backend.Calendar.{Time}
use kartochki_online_backend.Provider.{Uuid}
use kartochki_online_backend.Environment.{Environment}
use kartochki_online_backend.Database as Db
use kartochki_online_backend.Database.{Db, QueryPost, PasswordResetToken, one, text_matches}
use kartochki_online_backend.Database.Catalog.{text_or_empty}
use kartochki_online_backend.Database.Users.{get_login_user_by_email}
use kartochki_online_backend.Database.Sessions.{
  is_reset_token, is_usable, has_token, is_null, revoked, new_session, revoke_session_by_token_hash,
  get_auth_identity_by_token_hash,
}
use kartochki_online_backend.World.{M}
use kartochki_online_backend.World.Runs.{
  now_at, Moment, Runs, Runs-bind, Runs-expect, Runs-pure, Runs-weaken, Runs-given, Runs-reject_if,
  Runs-last_reject,
}
use kartochki_online_backend.Auth.Verification.{verify_registration}
use kartochki_online_backend.Auth.Verified.Leaves.{verify-Runs}
use kartochki_online_backend.Auth.Types.{
  VerifyRegistrationInput, Error, Service, SessionMetadata, LoginInput, hash_session_token,
  nullable_text, normalize_email, compare_password,
}
use kartochki_online_backend.Auth.Sessions.{login, authenticate, logout}
use kartochki_online_backend.Auth.Passwords.Reset.{reset_password-Runs}
use kartochki_online_backend.Auth.Passwords.{reset_password}
use kartochki_online_backend.Auth.Calls.{
  Call, registers, verifies, resends, logs_in, authenticates, logs_out, forgets, resets, run, done,
}
use kartochki_online_backend.Auth.Sessions.Opened.{create_session_for_user-Opened, session_params}
use kartochki_online_backend.Auth.Sessions.Store.{Change, stays, opens, closes, closes_all}
use kartochki_online_backend.Auth.Sessions.Live.{TokensDistinct}
use kartochki_online_backend.Auth.Sessions.Refined.{
  Refined, stays-Refined, appended-Refined, closed-Refined, closed_all-Refined,
}

abbrev has_email : Option String → Db.User → Bool
has_email email u = text_matches u.email email

one-same :
    {A : Type 0} (start db : Db) (o : Option A)
    → db ≡ start
    → QueryPost (λ _ d. d ≡ start) (one o, db)
one-same start db none e = tt
one-same start db (some a) e = e

module _ (env : Environment) (s : Service) (seen_at : Time) where
  -- A session whose time to live starts at a clock within the call, if it is live at `seen_at`.
  abbrev Fresh : Time → Time → Bool → Type 0
  Fresh begin end_at live =
      (clock : Time) × ((begin ≤ clock)
        × ((clock ≤ end_at) × (live ≡ ltb seen_at (clock + s.session_ttl))))

  -- The user with the email of the input, whose password it has, has the id.
  abbrev LogsIn : LoginInput → Db → Uuid → Type 0
  LogsIn input start user =
      (row : Db.User) × ((first (has_email (nullable_text (normalize_email env input.email)))
            start.users
          ≡ some row)
        × ((not (compare_password env input.password (text_or_empty row.password_hash)) ≡ false)
            × (env.parse_uuid (env.print_uuid row.id) ≡ some user)))

  -- The reset token with the hash that is usable when the call begins belongs to the user.
  abbrev MayReset : String → Time → Db → Uuid → Type 0
  MayReset hash begin start user =
      (row : PasswordResetToken) × ((first (λ t. is_reset_token hash t && is_usable begin t)
            start.password_reset_tokens
          ≡ some row)
        × (user ≡ row.user_id))

  -- What a call that begins at a clock and a database, and returns at a clock, does to the map.
  abbrev pub Does : Call → Time → Db → Time → Change → Type 0
  Does (verifies token input metadata) begin start end_at (opens hash user live) =
      (hash ≡ hash_session_token env token)
      × ((env.parse_uuid (env.print_uuid start.next_id) ≡ some user) × Fresh begin end_at live)
  Does (logs_in token input metadata) begin start end_at (opens hash user live) =
      (hash ≡ hash_session_token env token) × (LogsIn input start user × Fresh begin end_at live)
  Does (authenticates token) begin start end_at stays = Unit
  Does (logs_out token) begin start end_at (closes hash) = hash ≡ hash_session_token env token
  Does (resets salt token password) begin start end_at (closes_all user) =
      MayReset (hash_session_token env token) begin start user
  Does c begin start end_at change = ⊥

  abbrev pub IsSessionCall : Call → Type 0
  IsSessionCall (registers salt draw input) = ⊥
  IsSessionCall (resends draw id) = ⊥
  IsSessionCall (forgets token email) = ⊥
  IsSessionCall c = Unit

  module _ (tx : Option Time) (begin : Time) (start : Db)
      (distinct : TokensDistinct start.sessions) where
    -- The call returns with the change that it makes.
    abbrev pub Changed : Call → Moment
    Changed c end_at db =
        (change : Change) × (Does c begin start end_at change × Refined seen_at start change db)

    abbrev Begun : Moment
    Begun t db = (t ≡ begin) × (db ≡ start)

    login-Changed :
        (token : String) (input : LoginInput) (metadata : SessionMetadata)
        → Runs tx Begun
            (login env s token input metadata)
            (λ _. Changed (logs_in token input metadata))
    unfolding login get_login_user_by_email
    login-Changed token input metadata =
        Runs-bind
          (λ row t db.
            (first (has_email (nullable_text (normalize_email env input.email))) start.users
              ≡ some row)
            × ((begin ≤ t) × (db ≡ start)))
          (Runs-expect _ _ _ found)
          λ row. Runs-given λ there. Runs-reject_if _ _ λ _. Runs-reject_if _ _ λ right.
            Runs-weaken (create_session_for_user-Opened env s tx token _ metadata begin start)
              (λ t db p. p)
              λ result t db o. (
                opens (hash_session_token env token) o.owner
                    (ltb seen_at (o.clock + s.session_ttl)),
                (
                  (
                    refl,
                    ((row, (there, (right, o.parsed))), (o.clock, (o.begun, (o.ended, refl)))),
                  ),
                  appended-Refined seen_at start distinct
                      (new_session start.next_id o.now
                        (session_params env s token metadata o.owner o.clock))
                      db o.inserted.unused refl (ap (λ (d : Db). d.sessions) o.inserted.after),
                ),
              )
      where
        found :
            (t : Time) (db : Db)
            → Begun t db
            → QueryPost
                (λ row d.
                  (first (has_email (nullable_text (normalize_email env input.email))) start.users
                    ≡ some row)
                  × ((begin ≤ t) × (d ≡ start)))
                (get_login_user_by_email
                  (nullable_text (normalize_email env input.email))
                  (now_at tx t)
                  db)
        found t db p =
            elim (Option-cases
              (first (has_email (nullable_text (normalize_email env input.email))) db.users)) [
                | inl missing ↦ rw missing tt
                | inr (row, there) ↦ rw there (
                  subst
                      (λ d.
                        first (has_email (nullable_text (normalize_email env input.email))) d.users
                        ≡ some row)
                      p.1 there,
                  (omega (arith, p.0), p.1),
                )
              ]

    authenticate-Changed :
        (token : String)
        → Runs tx Begun (authenticate env token) (λ _. Changed (authenticates token))
    unfolding authenticate get_auth_identity_by_token_hash
    authenticate-Changed token =
        Runs-bind (λ _ t db. db ≡ start) (Runs-expect _ _ _ λ t db p. same t db p.1)
          λ row. Runs-pure λ t db e. (stays, (tt, stays-Refined seen_at start distinct db e))
      where
        same :
            (t : Time) (db : Db)
            → db ≡ start
            → QueryPost
                (λ _ d. d ≡ start)
                (get_auth_identity_by_token_hash (hash_session_token env token) (now_at tx t) db)
        same t db e = one-same start db _ e

    logout-Changed :
        (token : String) → Runs tx Begun (logout env token) (λ _. Changed (logs_out token))
    unfolding logout revoke_session_by_token_hash
    logout-Changed token =
        Runs-bind (λ _. Changed (logs_out token))
          (Runs-expect _ _ _ λ t db p. (
            closes (hash_session_token env token),
            (
              refl,
              closed-Refined seen_at start distinct (hash_session_token env token) (now_at tx t) _ (
                  ap
                    (λ (d : Db).
                      update_where
                        (λ r. has_token (hash_session_token env token) r && is_null r.revoked_at)
                        (revoked (now_at tx t)) d.sessions)
                    p.1),
            ),
          ))
          λ n. Runs-last_reject _ _

    reset_password-Changed :
        (salt token password : String)
        → Runs tx Begun
            (reset_password env s salt token password)
            (λ _. Changed (resets salt token password))
    reset_password-Changed salt token password =
        Runs-weaken (reset_password-Runs env s salt token password tx begin start) (λ t db p. p)
          λ a t db q.
            let r = q.1 in
            (
              closes_all r.token.user_id,
              (
                (r.token, (r.valid, refl)),
                closed_all-Refined seen_at start distinct r.token.user_id begin db
                    (ap (λ (d : Db). d.sessions) r.after),
              ),
            )

    verify_registration-Changed :
        (token : String) (input : VerifyRegistrationInput) (metadata : SessionMetadata)
        → Runs tx Begun
            (verify_registration env s token input metadata)
            (λ _. Changed (verifies token input metadata))
    verify_registration-Changed token input metadata =
        Runs-weaken (verify-Runs env s token input metadata tx begin start) (λ t db p. p)
          λ result t db q.
            let v = q.1.1 in
            (
              opens (hash_session_token env token) v.owner
                  (ltb seen_at (v.session_clock + s.session_ttl)),
              (
                (
                  refl,
                  (
                    v.owner_id,
                    (v.session_clock, (omega (arith, v.begun, v.between), (v.ended, refl))),
                  ),
                ),
                appended-Refined seen_at start distinct
                    (new_session (suc start.next_id) v.session_at
                      (session_params env s token metadata v.owner v.session_clock))
                    db v.unused refl (ap (λ (d : Db). d.sessions) v.after),
              ),
            )

    done-Changed :
        {A : Type 0} (c : Call) {m : M Error A}
        → Runs tx Begun m (λ _. Changed c)
        → Runs tx Begun (done m) (λ _. Changed c)
    done-Changed c h = Runs-bind (λ _. Changed c) h λ a. Runs-pure λ t db p. p

    pub run-Changed : (c : Call) → IsSessionCall c → Runs tx Begun (run env s c) (λ _. Changed c)
    unfolding run
    run-Changed (registers salt draw input) k = elim k [ ]
    run-Changed (verifies token input metadata) k =
        done-Changed (verifies token input metadata)
          (verify_registration-Changed token input metadata)
    run-Changed (resends draw id) k = elim k [ ]
    run-Changed (logs_in token input metadata) k =
        done-Changed (logs_in token input metadata) (login-Changed token input metadata)
    run-Changed (authenticates token) k =
        done-Changed (authenticates token) (authenticate-Changed token)
    run-Changed (logs_out token) k = done-Changed (logs_out token) (logout-Changed token)
    run-Changed (forgets token email) k = elim k [ ]
    run-Changed (resets salt token password) k =
        done-Changed (resets salt token password) (reset_password-Changed salt token password)
