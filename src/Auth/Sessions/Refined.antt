-- ===== src/Auth/Sessions/Refined.antt =====
-- How the updates of the table of sessions change the map (internal/dbgen/sessions.sql.go).
use kartochki_online_backend.Prelude.{
  ℕ, ◌≡◌, sym, subst, ap, ◌∙◌, false, ◌&&◌, String, none, [], ◌∷◌, ◌++◌, ltb, count_where,
  update_where, arith,
}
use mathlib.Core.Path.{fun_ext}
use kartochki_online_backend.Calendar.{Time}
use kartochki_online_backend.Provider.{Uuid}
use kartochki_online_backend.Database.{Db, LoginSession}
use kartochki_online_backend.Database.Sessions.{has_token, is_null, revoked}
use kartochki_online_backend.Auth.Passwords.Reset.{without_sessions}
use kartochki_online_backend.Auth.Sessions.Store.{
  live_owner, Change, stays, opens, closes, closes_all, apply,
}
use kartochki_online_backend.Auth.Sessions.Live.{
  TokensDistinct, live_map, live-append, live-closed, live-closed_all, distinct-append,
  distinct-closed,
}

-- The table after a call, seen at `t`, is the map after the change; tokens stay distinct.
pub record Refined (t : Time) (start : Db) (change : Change) (db : Db) : Type 0 where
  pub seen : live_owner t db ≡ apply change (live_owner t start)
  pub distinct : TokensDistinct db.sessions

module _ (t : Time) (start : Db) (distinct : TokensDistinct start.sessions) where
  pub stays-Refined : (db : Db) → db ≡ start → Refined t start stays db
  unfolding live_owner
  stays-Refined db e = record {
    seen = ap (live_owner t) e;
    distinct = subst (λ d. TokensDistinct d.sessions) (sym e) distinct;
  }

  pub appended-Refined :
      (row : LoginSession) (db : Db)
      → ltb 0 (count_where (has_token row.token_hash) start.sessions) ≡ false
      → row.revoked_at ≡ none
      → db.sessions ≡ start.sessions ++ (row ∷ [])
      → Refined t start (opens row.token_hash row.user_id (ltb t row.expires_at)) db
  unfolding live_owner
  appended-Refined row db unused unrevoked e =
      let absent : count_where (has_token row.token_hash) start.sessions ≡ 0 =
        ltb_none (count_where (has_token row.token_hash) start.sessions) unused in
      record {
        seen =
            ap (live_map t) e
            ∙ fun_ext (λ hash. live-append t hash start.sessions row absent unrevoked);
        distinct =
            subst TokensDistinct (sym e) (distinct-append start.sessions row absent distinct);
      }
    where
      ltb_none : (n : ℕ) → ltb 0 n ≡ false → n ≡ 0
      ltb_none n h = ground arith

  pub closed-Refined :
      (token : String) (at : Time) (db : Db)
      → db.sessions
        ≡ update_where (λ s. has_token token s && is_null s.revoked_at) (revoked at) start.sessions
      → Refined t start (closes token) db
  unfolding live_owner
  closed-Refined token at db e = record {
    seen = ap (live_map t) e ∙ fun_ext (λ hash. live-closed t at token hash start.sessions);
    distinct = subst TokensDistinct (sym e) (distinct-closed at _ start.sessions distinct);
  }

  pub closed_all-Refined :
      (user : Uuid) (at : Time) (db : Db)
      → db.sessions ≡ without_sessions user at start.sessions
      → Refined t start (closes_all user) db
  unfolding live_owner
  closed_all-Refined user at db e = record {
    seen =
        ap (live_map t) e
        ∙ fun_ext (λ hash. live-closed_all t at user hash start.sessions distinct);
    distinct = subst TokensDistinct (sym e) (distinct-closed at _ start.sessions distinct);
  }
