-- ===== src/Auth/Sessions/Refines.antt =====
-- The calls on sessions and the map from hashes to owners (internal/auth/service.go,
-- register_verification.go).
use kartochki_online_backend.Prelude.{◌≡◌, ◌∙◌, refl, ap, List, [], ◌∷◌}
use kartochki_online_backend.Calendar.{Time}
use kartochki_online_backend.Environment.{Environment}
use kartochki_online_backend.World.{World, Result, ok, err}
use kartochki_online_backend.World.Runs.{PostRun}
use kartochki_online_backend.Auth.Atomic.{run-error_changes_nothing}
use kartochki_online_backend.Auth.Types.{Error, Service}
use kartochki_online_backend.Auth.Calls.{Call, run, after_calls}
use kartochki_online_backend.Auth.Sessions.Store.{Store, live_owner, Change, stays, apply}
use kartochki_online_backend.Auth.Sessions.Live.{TokensDistinct}
use kartochki_online_backend.Auth.Sessions.Refined.{Refined, stays-Refined}
use kartochki_online_backend.Auth.Sessions.Changes.{Does, IsSessionCall, Changed, run-Changed}

module _ (env : Environment) (s : Service) (seen_at : Time) where
  -- What a call did to the map, given its result and the worlds before and after.
  abbrev pub Outcome : Call → World → Result Error (Unit {0}) × World → Change → Type 0
  Outcome c w (ok _, after) change = Does env s seen_at c w.clock w.db after.clock change
  Outcome c w (err e, after) change = change ≡ stays

  -- A verification, a login, an authentication, a logout or a reset, with faults anywhere, on a
  -- table whose tokens are distinct. If it fails, the map from hashes to the owners of the sessions
  -- that are live at `seen_at` is as before. If it returns, the map has changed by that call: a
  -- session under the hash of the call's token is opened, for the id of the new user or for the
  -- user with the email and the password, and expires the time to live after a clock within the
  -- call; that hash is closed; or all sessions of the user of the usable reset token are closed.
  -- The tokens stay distinct.
  pub run-refines :
      (c : Call) (w : World)
      → IsSessionCall env s seen_at c
      → TokensDistinct w.db.sessions
      → (change : Change) × (Outcome c w (run env s c w) change
          × Refined seen_at w.db change (run env s c w).1.db)
  run-refines c w k distinct =
      by_result (run env s c w)
        ((run-Changed env s seen_at w.tx_start w.clock w.db distinct c k).runs w refl (refl, refl))
        (run-error_changes_nothing env s c w)
    where
      by_result :
          (r : Result Error (Unit {0}) × World)
          → PostRun w.tx_start (λ _. Changed env s seen_at w.tx_start w.clock w.db distinct c) r
          → ((e : Error) → r.0 ≡ err e → r.1.db ≡ w.db)
          → (change : Change) × (Outcome c w r change × Refined seen_at w.db change r.1.db)
      by_result (ok _, v) p same = p.1
      by_result (err e, v) p same =
          (stays, (refl, stays-Refined seen_at w.db distinct v.db (same e refl)))

  abbrev pub AllSessionCalls : List Call → Type 0
  AllSessionCalls [] = Unit
  AllSessionCalls (c ∷ cs) = IsSessionCall env s seen_at c × AllSessionCalls cs

  -- One change for each call of a run, the one that its result and its worlds call for.
  abbrev pub Explains : List Call → World → List Change → Type 0
  Explains [] w [] = Unit
  Explains [] w (change ∷ changes) = ⊥
  Explains (c ∷ cs) w [] = ⊥
  Explains (c ∷ cs) w (change ∷ changes) =
      Outcome c w (run env s c w) change × Explains cs (run env s c w).1 changes

  abbrev pub replay : List Change → Store → Store
  replay [] store = store
  replay (change ∷ changes) store = replay changes (apply change store)

  -- Every run of such calls, with faults anywhere, on a table whose tokens are distinct, is a run
  -- of the map: the map at `seen_at` after it is the map before it after one change for each call,
  -- the change that the call's result and its worlds call for.
  pub after_calls-refines :
      (cs : List Call) (w : World)
      → AllSessionCalls cs
      → TokensDistinct w.db.sessions
      → (changes : List Change) × (Explains cs w changes
          × (live_owner seen_at (after_calls env s cs w).db
              ≡ replay changes (live_owner seen_at w.db)))
  unfolding after_calls
  after_calls-refines [] w k distinct = ([], (tt, refl))
  after_calls-refines (c ∷ cs) w k distinct =
      let step = run-refines c w k.0 distinct in
      let rest = after_calls-refines cs (run env s c w).1 k.1 step.1.1.distinct in
      (step.0 ∷ rest.0, ((step.1.0, rest.1.0), rest.1.1 ∙ ap (replay rest.0) step.1.1.seen))
