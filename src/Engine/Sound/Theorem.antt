-- ===== src/Engine/Sound/Theorem.antt =====
-- The invariant holds after every request.
use runnerctl.Common.{
  ℕ, ◌+◌, String, ◌≡◌, ◌≢◌, refl, sym, ◌∙◌, subst, Bool, true, false, Option, none, some, List, [],
  ◌∷◌, arith, Bool-cases, inl, inr, filter, eq_iff,
}
use runnerctl.BTreeMap.{contains_key}
use runnerctl.BTreeMap.Laws.{some_of_contains_key}
use runnerctl.Config.{Pool}
use runnerctl.State.{State}
use runnerctl.Protocol.{Request, Reply, PoolStatus, changes_config, mutating}
use runnerctl.Engine.{Env, Engine, Answer, done, failed, panicked, ◌>>=◌}
use runnerctl.Engine.Store.{store_load, send_snapshot}
use runnerctl.Engine.Status.{known_or_none, selected, pool_status, pool_statuses, handle_status}
use runnerctl.Retiring.{pool_runs}
use runnerctl.Engine.Handle.{dispatch, handle_inner, reload, bump_epoch, finish, handle_local}
use runnerctl.Engine.Sound.{
  configured, IsWellFormed, HasRow, IsSound, IsWorking, Outcome-map, Outcome,
}
use runnerctl.Engine.Sound.Store.{At-clean_file}
use runnerctl.Engine.Sound.Handlers.{
  handle_add-IsSound, handle_start-IsSound, handle_stop-IsSound, handle_scale-IsSound,
  handle_upgrade-IsSound, handle_remove-IsSound, handle_auth-IsSound,
}
use runnerctl.Engine.Sound.Apply.{handle_apply-IsSound}

-- All pools of the list have a state.
abbrev pub AllKnown : State → List Pool → Type 0
AllKnown s [] = Unit
AllKnown s (p ∷ rest) = (contains_key p.name s.pools ≡ true) × AllKnown s rest

-- A status answers and changes nothing.
pool_statuses_reads :
    (e : Engine) (pools : List Pool)
    → AllKnown e.state pools
    → (l : List PoolStatus) × (pool_statuses pools e ≡ (done l, e))
unfolding pool_statuses ◌>>=◌
pool_statuses_reads e [] h = ([], refl)
pool_statuses_reads e (p ∷ rest) h =
    let (ps, found) = some_of_contains_key p.name e.state.pools h.0 in
    let (l, reads) = pool_statuses_reads e rest h.1 in
    (pool_status p ps (pool_runs ps.id e.state.runs) ∷ l, ground arith)

pub filter-AllKnown :
    (s : State) (f : Pool → Bool) (pools : List Pool)
    → ((name : String) → configured name pools ≡ true → contains_key name s.pools ≡ true)
    → AllKnown s (filter f pools)
filter-AllKnown s f [] h = tt
filter-AllKnown s f (p ∷ rest) h = elim (Bool-cases (f p)) [
  | inl kept ↦ rw kept (
    h p.name (ground (arith, eq_iff p.name p.name)),
    filter-AllKnown s f rest (λ name c. h name (ground arith)),
  )
  | inr dropped ↦ rw dropped (filter-AllKnown s f rest (λ name c. h name (ground arith)))
]

-- A status request answers or fails; either way it changes nothing.
pub handle_status_reads :
    (pool : Option String) (e : Engine)
    → IsWellFormed e.state
    → ((handle_status pool e).1 ≡ e) × ((handle_status pool e).0 ≢ panicked)
unfolding handle_status ◌>>=◌
handle_status_reads pool e w =
    let (l, reads) = pool_statuses_reads e (filter (selected pool) e.state.config.pools) (
      filter-AllKnown e.state (selected pool) e.state.config.pools
        (λ name c. sym (w.matching name) ∙ c)) in
    elim (Bool-cases (known_or_none pool e.state)) [
      | inl known ↦ ground (arith, reads)
      | inr unknown ↦ ground (arith)
    ]

abbrev IsSound-IsWorking : (e : Engine) → IsSound e → IsWorking e
IsSound-IsWorking e w = (w.well_formed, (e.state, w.stored, w.well_formed))

module _ (env : Env) where
  -- A request keeps what follows from soundness: a change ends sound, a status changes nothing.
  module _ (S : Engine → Type 0) (of_sound : (e : Engine) → IsSound e → S e) where
    status-Outcome :
        (e : Engine) (r : Answer Reply × Engine)
        → IsWorking e
        → S e
        → (r.1 ≡ e) × (r.0 ≢ panicked)
        → Outcome (λ _. S) r
    status-Outcome e (done a, e') w h same = subst S (sym same.0) h
    status-Outcome e (failed error, e') w h same = subst HasRow (sym same.0) w.1
    status-Outcome e (panicked, e') w h same = absurd (same.1 refl)

    handle_inner-Outcome :
        (request : Request) (e : Engine)
        → IsWorking e
        → S e
        → Outcome (λ _. S) (handle_inner env request e)
    unfolding handle_inner dispatch changes_config ◌>>=◌
    handle_inner-Outcome (Request.status pool) e w h =
        status-Outcome e (handle_status pool e) w h (handle_status_reads pool e w.0)
    handle_inner-Outcome (Request.add pool) e w h =
        Outcome-map (λ _. IsSound) (λ _. S) (λ _. of_sound) _
          ((At-clean_file env e.state _ (handle_add-IsSound env e.state w.0 pool)).run e
            (refl, w.1))
    handle_inner-Outcome (Request.scale pool replicas) e w h =
        Outcome-map (λ _. IsSound) (λ _. S) (λ _. of_sound) _
          ((At-clean_file env e.state _ (handle_scale-IsSound env e.state w.0 pool replicas)).run e
            (refl, w.1))
    handle_inner-Outcome (Request.upgrade pool image) e w h =
        Outcome-map (λ _. IsSound) (λ _. S) (λ _. of_sound) _
          ((At-clean_file env e.state _ (handle_upgrade-IsSound env e.state w.0 pool image)).run e
            (refl, w.1))
    handle_inner-Outcome (Request.auth profile credential app) e w h =
        Outcome-map (λ _. IsSound) (λ _. S) (λ _. of_sound) _
          ((At-clean_file env e.state _
              (handle_auth-IsSound env e.state w.0 profile credential app)).run
            e (refl, w.1))
    handle_inner-Outcome (Request.start pool all) e w h =
        Outcome-map (λ _. IsSound) (λ _. S) (λ _. of_sound) _
          ((handle_start-IsSound env e.state w.0 pool all).run e (refl, w.1))
    handle_inner-Outcome (Request.stop pool all force) e w h =
        Outcome-map (λ _. IsSound) (λ _. S) (λ _. of_sound) _
          ((handle_stop-IsSound env e.state w.0 pool all force).run e (refl, w.1))
    handle_inner-Outcome (Request.remove pool force) e w h =
        Outcome-map (λ _. IsSound) (λ _. S) (λ _. of_sound) _
          ((handle_remove-IsSound env e.state w.0 pool force).run e (refl, w.1))
    handle_inner-Outcome (Request.apply text revision) e w h =
        Outcome-map (λ _. IsSound) (λ _. S) (λ _. of_sound) _
          ((handle_apply-IsSound env e.state w.0 text revision).run e (refl, w.1))
    handle_inner-Outcome (Request.logs pool id) e w h = w.1
    handle_inner-Outcome Request.doctor e w h = w.1

  handle_inner-IsSound :
      (request : Request) (e : Engine)
      → IsSound e
      → Outcome (λ _. IsSound) (handle_inner env request e)
  handle_inner-IsSound request e w =
      handle_inner-Outcome IsSound (λ _ w. w) request e (IsSound-IsWorking e w) w

  pub handle_inner-IsWorking :
      (request : Request) (e : Engine)
      → IsWorking e
      → Outcome (λ _. IsWorking) (handle_inner env request e)
  handle_inner-IsWorking request e w =
      handle_inner-Outcome IsWorking IsSound-IsWorking request e w w

  pub reload-IsSound :
      (e : Engine)
      → ((n : ℕ) → env.load_fails n ≡ false)
      → HasRow e
      → (e' : Engine) × (reload env e ≡ (done tt, e')) × IsSound e'
  unfolding reload store_load send_snapshot ◌>>=◌
  reload-IsSound e loads h = by_readers e.snapshot refl
    where
      by_readers :
          (o : Option State)
          → e.snapshot ≡ o
          → (e' : Engine) × (reload env e ≡ (done tt, e')) × IsSound e'
      by_readers none shown = (
        record e { io = e.io + 1; state = h.0 },
        ground (arith, loads e.io, h.1, shown),
        record { well_formed = h.2; stored = h.1; shown = inl shown },
      )
      by_readers (some t) shown = (
        record e { io = e.io + 1; state = h.0; snapshot = some h.0 },
        ground (arith, loads e.io, h.1, shown),
        record { well_formed = h.2; stored = h.1; shown = inr refl },
      )

  bump_epoch-IsSound :
      (changes : Bool) (e : Engine) → IsSound e → IsSound (bump_epoch env changes e)
  bump_epoch-IsSound true e w = record {
    well_formed = w.well_formed;
    stored = w.stored;
    shown = w.shown;
  }
  bump_epoch-IsSound false e w = w

  finish-IsSound :
      (changes : Bool) (r : Answer Reply) (e : Engine)
      → ((n : ℕ) → env.load_fails n ≡ false)
      → Outcome (λ _. IsSound) (r, e)
      → IsSound (finish env changes r e).1 × ((finish env changes r e).0 ≢ panicked)
  unfolding finish ◌>>=◌
  finish-IsSound changes (done reply) e loads w =
      (bump_epoch-IsSound changes e w, λ h. ground arith)
  finish-IsSound changes (failed error) e loads h =
      let (e', reloads, w) = reload-IsSound e loads h in
      rw reloads (bump_epoch-IsSound changes e' w, λ p. ground arith)
  finish-IsSound changes panicked e loads h = absurd h

  -- When the row can be read, a request in a sound state ends without a panic and leaves the manager
  -- sound, whether it succeeds or fails and whatever else fails on the way: the state in memory is
  -- well formed, is the one in SQLite, and is the one its readers see.
  pub handle_local-IsSound :
      (request : Request) (e : Engine)
      → ((n : ℕ) → env.load_fails n ≡ false)
      → IsSound e
      → IsSound (handle_local env request e).1 × ((handle_local env request e).0 ≢ panicked)
  unfolding handle_local
  handle_local-IsSound request e loads w =
      let (r, e') = handle_inner env request e in
      finish-IsSound (mutating request) r e' loads (handle_inner-IsSound request e w)
