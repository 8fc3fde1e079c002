-- ===== src/Auth/Verified/Leaves.antt =====
-- A successful verification leaves what `Verified` says (internal/auth/register_verification.go).
use kartochki_online_backend.Prelude.{
  suc, ◌≤◌, arith, Option, ◌≡◌, refl, true, false, inl, inr, Bool-cases, Option-cases, String, some,
  [], ◌∷◌, ◌++◌, ◌==◌, first, if◌then◌else◌, ◌∙◌, sym, subst, ap,
}
use kartochki_online_backend.Prelude.Text.{trim_space}
use kartochki_online_backend.Calendar.{Time}
use kartochki_online_backend.Provider.{Uuid}
use kartochki_online_backend.Environment.{Environment}
use kartochki_online_backend.Database as Db
use kartochki_online_backend.Database.{
  Db, PendingRegistration, FlowStatus, pending, verified, expired, blocked, QueryPost,
}
use kartochki_online_backend.Database.Users.{
  create_verified_user, new_user, email_is_taken, insert_user-inserts,
}
use kartochki_online_backend.Database.Registrations.{
  get_pending_registration_for_update, complete_pending_registration,
}
use kartochki_online_backend.World.{World, ok, commit, roll_back, Ending}
use kartochki_online_backend.World.Runs.{
  Moment, Runs, EndingRun, Runs-bind, Runs-time_now, Runs-expect, Runs-pure, Runs-weaken,
  Runs-given, Runs-failing, Runs-require_then, Runs-transaction_from, Runs-returned,
}
use kartochki_online_backend.Auth.Types.{
  Service, SessionMetadata, AuthResult, VerifyRegistrationInput,
}
use kartochki_online_backend.Auth.Sessions.{user_of}
use kartochki_online_backend.Auth.Sessions.Opened.{Opened, create_session_for_user-Opened}
use kartochki_online_backend.Auth.Verification.{
  find_flow, accept_code, open_account, refuse_code, verify_flow, verify_body, verify_registration,
  code_is_right,
}
use kartochki_online_backend.Auth.Attempts.Checked.{refuse_code-Yields}
use kartochki_online_backend.Auth.Verified.{
  MayVerify, validate-May, account_of, with_verified, Verified,
}

module _ (env : Environment) (s : Service) where
  -- The database with the user.
  abbrev with_user : Db → PendingRegistration → Time → Db
  with_user start row at = record start {
    users = start.users ++ (new_user start.next_id at (some at) (account_of row) ∷ []);
    next_id = suc start.next_id;
  }

  abbrev UserMade : PendingRegistration → Time → Db → Db.User → Db → Type 0
  UserMade row at start user db =
      (email_is_taken (some row.email) start.users ≡ false)
      × ((user ≡ new_user start.next_id at (some at) (account_of row))
          × (db ≡ with_user start row at))

  user_made :
      (row : PendingRegistration) (at clock t : Time) (start db : Db)
      → (clock ≤ t) × (db ≡ start)
      → QueryPost
          (λ user d. UserMade row at start user d × (clock ≤ t))
          (create_verified_user (account_of row) at db)
  unfolding create_verified_user
  user_made row at clock t start db p =
      subst
        (λ d.
          QueryPost (λ user x. UserMade row at start user x × (clock ≤ t))
            (create_verified_user (account_of row) at d))
        (sym p.1)
        (insert_user-inserts (λ user x. UserMade row at start user x × (clock ≤ t))
          (new_user start.next_id at (some at) (account_of row)) at start
          λ free. ((free, (refl, refl)), p.0))

  module _ (token code : String) (metadata : SessionMetadata) (id : Uuid) (at : Time)
      (start : Db) where
    -- What the code has been found to be.
    abbrev Met : PendingRegistration → Time → Type 0
    Met row clock =
        (first (λ r. r.id == id) start.pending_registrations ≡ some row)
        × (MayVerify row clock × ((code_is_right env s code row ≡ true) × (at ≤ clock)))

    abbrev Ends : Ending AuthResult → Moment
    Ends = EndingRun (Verified env s token code metadata id at start) start

    open_account-Runs :
        (row : PendingRegistration) (clock : Time)
        → Met row clock
        → email_is_taken (some row.email) start.users ≡ false
        → Runs
            (some at)
            (λ t db. (clock ≤ t) × (db ≡ with_user start row at))
            (open_account env s token metadata row
              (new_user start.next_id at (some at) (account_of row)))
            Ends
    unfolding open_account complete_pending_registration
    open_account-Runs row clock met free =
        let user = new_user start.next_id at (some at) (account_of row) in
        Runs-bind
          (Opened env s token (user_of env user) metadata (some at) clock (with_user start row at))
          (create_session_for_user-Opened env s (some at) token (user_of env user) metadata clock
            (with_user start row at))
          λ result.
            Runs-bind
              (λ _ t db.
                (mid : Db) × (Opened env s token (user_of env user) metadata (some at) clock
                    (with_user start row at) result t mid
                  × (db ≡ record mid {
                    pending_registrations = with_verified row.id at mid.pending_registrations;
                  })))
              (Runs-expect _ _ _ λ t db o. (db, (o, refl)))
              λ n. Runs-pure λ t db p. record {
                row = row;
                clock = clock;
                session_at = p.1.0.now;
                owner = p.1.0.owner;
                session_clock = p.1.0.clock;
                begun = met.1.1.1;
                between = p.1.0.begun;
                ended = p.1.0.ended;
                dated = p.1.0.at;
                found = met.0;
                may = met.1.0;
                right = met.1.1.0;
                free = free;
                owner_id = p.1.0.parsed;
                unused = p.1.0.inserted.unused;
                later = p.1.0.inserted.later;
                after =
                    p.1.1
                    ∙ ap
                        (λ (m : Db). record m {
                          pending_registrations = with_verified row.id at m.pending_registrations;
                        })
                        p.1.0.inserted.after;
                answer = p.1.0.answer;
              }

    accept_code-Runs :
        (row : PendingRegistration) (clock : Time)
        → Met row clock
        → Runs
            (some at)
            (λ t db. (clock ≤ t) × (db ≡ start))
            (accept_code env s token metadata row)
            Ends
    unfolding accept_code
    accept_code-Runs row clock met =
        Runs-bind (λ user t db. UserMade row at start user db × (clock ≤ t))
          (Runs-expect _ _ _ λ t db p. user_made row at clock t start db p)
          λ user. record {
            runs = λ w e p.
                (subst
                    (λ u.
                      Runs (some at) (λ t db. (clock ≤ t) × (db ≡ with_user start row at))
                        (open_account env s token metadata row u) Ends)
                    (sym p.0.1.0) (open_account-Runs row clock met p.0.0)).runs
                  w e (p.1, p.0.1.1);
          }

    verify_flow-Runs :
        (row : PendingRegistration)
        → first (λ r. r.id == id) start.pending_registrations ≡ some row
        → Runs
            (some at)
            (λ t db. (t ≡ at) × (db ≡ start))
            (verify_flow env s token code metadata row)
            Ends
    unfolding verify_flow
    verify_flow-Runs row found =
        Runs-bind (λ clock t db. (at ≤ clock) × ((clock ≤ t) × (db ≡ start)))
          (Runs-time_now _ λ t t' db p later. (omega (arith, p.0), (later, p.1)))
          λ clock. Runs-given λ begun.
            Runs-bind (λ _ t db. MayVerify row clock × ((clock ≤ t) × (db ≡ start)))
              (validate-May row clock (some at) (λ t db. (clock ≤ t) × (db ≡ start)))
              λ _. Runs-given λ may. checked clock begun may
      where
        checked :
            (clock : Time)
            → at ≤ clock
            → MayVerify row clock
            → Runs
                (some at)
                (λ t db. (clock ≤ t) × (db ≡ start))
                (if code_is_right env s code row
                  then accept_code env s token metadata row
                  else refuse_code row.id)
                Ends
        checked clock begun may = elim (Bool-cases (code_is_right env s code row)) [
          | inl right ↦ rw right (accept_code-Runs row clock (found, (may, (right, begun))))
          | inr wrong ↦ rw wrong (Runs-failing (refuse_code-Yields _ _ row.id))
        ]

    verify_body-Runs :
        Runs
          (some at)
          (λ t db. (t ≡ at) × (db ≡ start))
          (verify_body env s token code metadata id)
          Ends
    unfolding verify_body find_flow get_pending_registration_for_update
    verify_body-Runs =
        Runs-bind
          (λ row t db.
            (first (λ r. r.id == id) start.pending_registrations ≡ some row)
            × ((t ≡ at) × (db ≡ start)))
          (Runs-expect _ _ _ λ t db p. found t db p)
          λ row. Runs-given λ there. verify_flow-Runs row there
      where
        found :
            (t : Time) (db : Db)
            → (t ≡ at) × (db ≡ start)
            → QueryPost
                (λ row d.
                  (first (λ r. r.id == id) start.pending_registrations ≡ some row)
                  × ((t ≡ at) × (d ≡ start)))
                (get_pending_registration_for_update id at db)
        found t db p = elim (Option-cases (first (λ r. r.id == id) db.pending_registrations)) [
          | inl missing ↦ rw missing tt
          | inr (row, there) ↦
              rw there (
                subst (λ d. first (λ r. r.id == id) d.pending_registrations ≡ some row) p.1 there,
                p,
              )
        ]

  module _ (token : String) (input : VerifyRegistrationInput) (metadata : SessionMetadata) where
    abbrev pub Left : Time → Db → AuthResult → Moment
    Left at start result t db =
        (id : Uuid) × ((env.parse_uuid (trim_space input.verification_id) ≡ some id)
          × Verified env s token input.code metadata id at start result t db)

    pub verify-Runs :
        (tx : Option Time) (at : Time) (start : Db)
        → Runs tx
            (λ t db. (t ≡ at) × (db ≡ start))
            (verify_registration env s token input metadata)
            (Left at start)
    unfolding verify_registration
    verify-Runs tx at start = Runs-require_then _ _ λ id parsed.
        Runs-transaction_from (Left at start) at start _ _ (
          Runs-weaken (verify_body-Runs token input.code metadata id at start) (λ t db p. p)
            (with_id id parsed))
      where
        with_id :
            (id : Uuid)
            → env.parse_uuid (trim_space input.verification_id) ≡ some id
            → (a : Ending AuthResult) (t : Time) (db : Db)
            → EndingRun (Verified env s token input.code metadata id at start) start a t db
            → EndingRun (Left at start) start a t db
        with_id id parsed (commit a) t db q = (id, (parsed, q))
        with_id id parsed (roll_back a) t db q = (id, (parsed, q))

  -- A verification that returns, from any database and with faults anywhere: the id is that of an
  -- open flow that is in time at a clock read after the call began, has attempts left and has the
  -- hash of the code. The database has gained the verified user of that flow and one session of
  -- that user, under the hash of the returned token, whose time to live starts between that clock
  -- and the end of the call; the flow is verified, and nothing else has changed.
  pub verify_registration-Verified :
      (token : String) (input : VerifyRegistrationInput) (metadata : SessionMetadata) (w : World)
      (result : AuthResult)
      → (verify_registration env s token input metadata w).0 ≡ ok result
      → Left token input metadata w.clock w.db result
          (verify_registration env s token input metadata w).1.clock
          (verify_registration env s token input metadata w).1.db
  verify_registration-Verified token input metadata w result returned =
      Runs-returned (Left token input metadata w.clock w.db) _
        (verify_registration env s token input metadata) w result
        (verify-Runs token input metadata w.tx_start w.clock w.db) (refl, refl) returned
