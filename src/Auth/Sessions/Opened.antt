-- ===== src/Auth/Sessions/Opened.antt =====
-- What `createSessionForUser` leaves when it returns (internal/auth/service.go).
use kartochki_online_backend.Prelude.{
  suc, ◌+◌, ◌≤◌, Option, ◌≡◌, refl, sym, subst, true, false, inl, inr, Bool-cases, String, some, [],
  ◌∷◌, ◌++◌, ltb, count_where,
}
use kartochki_online_backend.Prelude.Text.{trim_space}
use kartochki_online_backend.Calendar.{Time}
use kartochki_online_backend.Provider.{Uuid}
use kartochki_online_backend.Environment.{Environment}
use kartochki_online_backend.Database.{Db, QueryPost, QueryPost-weaken}
use kartochki_online_backend.Database.Payments.{user_exists}
use kartochki_online_backend.Database.Sessions.{
  create_session, new_session, has_token, CreateSessionParams,
}
use kartochki_online_backend.World.Runs.{
  now_at, Runs, Runs-bind, Runs-may_fail, Runs-time_now, Runs-expect, Runs-pure, Runs-given,
  Runs-require_then,
}
use kartochki_online_backend.Auth.Types.{
  Service, SessionMetadata, AuthResult, User, hash_session_token, generate_session_token,
}
use kartochki_online_backend.Auth.Sessions.{create_session_for_user}

-- The row is new, later than now and of a user that is there.
pub record Inserted (arg : CreateSessionParams) (now : Time) (start db : Db) : Type 0 where
  pub later : ltb now arg.expires_at ≡ true
  pub unused : ltb 0 (count_where (has_token arg.token_hash) start.sessions) ≡ false
  pub owned : user_exists arg.user_id start.users ≡ true
  pub after : db ≡ record start {
    sessions = start.sessions ++ (new_session start.next_id now arg ∷ []);
    next_id = suc start.next_id;
  }

create_session-Inserted :
    (arg : CreateSessionParams) (now : Time) (start : Db)
    → QueryPost (λ _. Inserted arg now start) (create_session arg now start)
unfolding create_session
create_session-Inserted arg now start = elim (Bool-cases (ltb now arg.expires_at)) [
  | inr past ↦ rw past tt
  | inl later ↦
      rw later (elim (Bool-cases (ltb 0 (count_where (has_token arg.token_hash) start.sessions))) [
        | inl taken ↦ rw taken tt
        | inr unused ↦ rw unused (elim (Bool-cases (user_exists arg.user_id start.users)) [
          | inr nobody ↦ rw nobody tt
          | inl owned ↦
              rw owned (record { later = later; unused = unused; owned = owned; after = refl })
        ])
      ])
]

module _ (env : Environment) (s : Service) where
  abbrev pub session_params : String → SessionMetadata → Uuid → Time → CreateSessionParams
  session_params token metadata owner clock = record {
    user_id = owner;
    token_hash = hash_session_token env token;
    expires_at = clock + s.session_ttl;
    user_agent = trim_space metadata.user_agent;
    ip_address = trim_space metadata.ip_address;
  }

  -- The session of the user whose id is the text, and the answer with the token. The call's clock is
  -- read between `begin` and `end_at`.
  pub record Opened (token : String) (user : User) (metadata : SessionMetadata) (tx : Option Time)
      (begin : Time) (start : Db) (result : AuthResult) (end_at : Time) (db : Db) : Type 0 where
    pub owner : Uuid
    pub clock : Time
    pub now : Time
    pub begun : begin ≤ clock
    pub ended : clock ≤ end_at
    pub parsed : env.parse_uuid user.id ≡ some owner
    pub at : now ≡ now_at tx end_at
    pub inserted : Inserted (session_params token metadata owner clock) now start db
    pub answer : result ≡ record {
      user = user;
      session = record { access_token = token; expires_at = clock + s.session_ttl };
    }

  pub create_session_for_user-Opened :
      (tx : Option Time) (token : String) (user : User) (metadata : SessionMetadata) (begin : Time)
      (start : Db)
      → Runs tx
          (λ t db. (begin ≤ t) × (db ≡ start))
          (create_session_for_user env s token user metadata)
          (Opened token user metadata tx begin start)
  unfolding create_session_for_user generate_session_token
  create_session_for_user-Opened tx token user metadata begin start =
      Runs-bind (λ access t db. (access ≡ token) × ((begin ≤ t) × (db ≡ start)))
        (Runs-bind (λ _ t db. (begin ≤ t) × (db ≡ start)) (Runs-may_fail _)
          λ _. Runs-pure λ t db p. (refl, p))
        λ access. Runs-given λ same.
          Runs-bind (λ clock t db. ((begin ≤ clock) × (clock ≤ t)) × (db ≡ start))
            (Runs-time_now _ λ t t' db p later. ((p.0, later), p.1))
            λ clock. Runs-require_then _ _ λ owner parsed.
              Runs-bind
                (λ _ t db.
                  ((begin ≤ clock) × (clock ≤ t))
                  × Inserted (session_params access metadata owner clock) (now_at tx t) start db)
                (Runs-expect _ _ _ λ t db p. made access owner clock (now_at tx t) db p.1 _ p.0)
                λ row. Runs-pure λ t db p. record {
                  owner = owner;
                  clock = clock;
                  now = now_at tx t;
                  begun = p.0.0;
                  ended = p.0.1;
                  parsed = parsed;
                  at = refl;
                  inserted =
                      subst
                        (λ a.
                          Inserted (session_params a metadata owner clock) (now_at tx t) start db)
                        same p.1;
                  answer = rw same refl;
                }
    where
      made :
          (access : String) (owner : Uuid) (clock now : Time) (db : Db)
          → db ≡ start
          → (N : Type 0) → N
          → QueryPost
              (λ _ d. N × Inserted (session_params access metadata owner clock) now start d)
              (create_session (session_params access metadata owner clock) now db)
      made access owner clock now db e N n =
          let arg = session_params access metadata owner clock in
          QueryPost-weaken (create_session arg now db) (λ row d q. (n, q))
            (subst (λ d. QueryPost (λ _. Inserted arg now start) (create_session arg now d)) (sym e)
              (create_session-Inserted arg now start))
