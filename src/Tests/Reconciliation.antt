-- ===== src/Tests/Reconciliation.antt =====
-- The theorems on the reconciliation, on the manager of the tests.
use runnerctl.Common.{
  ◌+◌, ◌-◌, ◌^◌, ◌≤◌, min, ◌≡◌, ◌⊎◌, refl, true, false, not, ◌&&◌, none, some, [], ◌∷◌, arith, all,
  ltb,
}
use runnerctl.Result.{ok}
use runnerctl.BTreeMap.{lookup}
use runnerctl.State.{State, observation, PoolState}
use runnerctl.Protocol.{Request, changes_config, mutating}
use runnerctl.Engine.{Engine, done, pure, ◌>>=◌}
use runnerctl.Engine.Status.{handle_status}
use runnerctl.Engine.Handle.{handle_local, handle_inner, dispatch, finish, reload}
use runnerctl.Engine.Store.{store_load, send_snapshot}
use runnerctl.Engine.Sound.{IsWorking}
use runnerctl.Engine.Reconcile.{Outside, attempt, check_epoch, serve_arrivals, external}
use runnerctl.Engine.Reconcile.Interrupted.{external_uninterrupted}
use runnerctl.Engine.Reconcile.Exits.{scope_eq, record_failure}
use runnerctl.Engine.Reconcile.Tick.{turn}
use runnerctl.Engine.Reconcile.Laws.{record_failure_backs_off}
use runnerctl.Engine.Store.{save, store_save}
use runnerctl.Engine.Reconcile.{insert_run}
use runnerctl.Engine.Reconcile.Pass.{has_room, index_manager_id, record_new, replenish}
use runnerctl.Engine.Reconcile.Capacity.{Fits, HasNoMore, replenish_within}
use runnerctl.Engine.Sound.{IsWellFormed}
use runnerctl.Tests.{linux, env, engine, linux_state, state, state-IsWellFormed}

-- During each call a status of a pool that there is not arrives.
abbrev pub outside : Outside
outside = record {
  arrivals = λ n. Request.status (some "macos") ∷ [];
  containers = λ n. ok [];
  remotes = λ n. ok [];
  token = λ n. ok "token";
  text = λ n. ok "";
  command = λ n. ok tt;
  boot_time = λ n. ok 500;
  exists = λ n. false;
  log_entries = λ n. ok [];
  simple_uuid = λ n. "c0ffee";
  random_byte = λ n. 9;
  parse_rfc3339 = λ s. none;
}

-- A reconciliation is in flight.
abbrev reconciling : Engine
reconciling = record engine { reconcile_epoch = some 7 }

reconciling-IsWorking : IsWorking reconciling
reconciling-IsWorking = (state-IsWellFormed, (state, refl, state-IsWellFormed))

pure_starts : (e : Engine) → pure {0} tt e ≡ (done tt, record e { effects = e.effects })
unfolding ◌>>=◌
pure_starts e = refl

remotes_return : (external env outside (pure tt) outside.remotes reconciling).0 ≡ done []
unfolding external check_epoch serve_arrivals attempt handle_local handle_inner dispatch
    changes_config mutating finish handle_status reload store_load send_snapshot ◌>>=◌
remotes_return = refl

external_uninterrupted_example :
    (all (λ r. not (mutating r)) (Request.status (some "macos") ∷ []) ≡ true)
    × IsWorking (external env outside (pure tt) outside.remotes reconciling).1
    × (((external env outside (pure tt) outside.remotes reconciling).1.state ≡ reconciling.state)
        ⊎ (reconciling.row
            ≡ some (external env outside (pure tt) outside.remotes reconciling).1.state))
    × ((external env outside (pure tt) outside.remotes reconciling).1.row ≡ reconciling.row)
    × ((external env outside (pure tt) outside.remotes reconciling).1.reconcile_epoch
        ≡ some (external env outside (pure tt) outside.remotes reconciling).1.epoch)
external_uninterrupted_example =
    external_uninterrupted env outside (pure tt) outside.remotes reconciling (λ n. refl)
      (λ e. (e.effects, pure_starts e)) reconciling-IsWorking refl (omega arith) (omega arith)
      remotes_return

record_failure_backs_off_example :
    let e' = (record_failure env outside "linux" "Docker is down" observation engine).1 in
    ((record_failure env outside "linux" "Docker is down" observation engine).0 ≡ done tt)
    × ((((ltb (env.now engine.io) linux_state.retry_at
              && scope_eq linux_state.retry_scope observation)
            ≡ true)
          × (e'.state ≡ engine.state))
        ⊎ ((q : PoolState) × (lookup "linux" e'.state.pools ≡ some q)
            × (env.now engine.io + 5 ≤ q.retry_at)
            × (q.retry_at ≤ env.now engine.io + 600)
            × (q.failures ≡ min (linux_state.failures + 1) (2 ^ 32 - 1))
            × (q.error ≡ some "Docker is down")
            × (q.retry_scope ≡ observation)))
record_failure_backs_off_example =
    record_failure_backs_off env outside "linux" "Docker is down" observation engine
      {p = linux_state} refl (omega arith)

-- The pool waits for a retry.
abbrev waiting_state : PoolState
waiting_state = record linux_state { retry_at = 1200 }

abbrev waiting : Engine
waiting = record engine { state = record state { pools = ("linux", waiting_state) ∷ [] } }

linux_turn : turn 0 ("linux" ∷ []) ≡ some "linux"
unfolding turn
linux_turn = refl

-- A pool of one replica without runs, in a reconciliation.
abbrev empty_state : State
empty_state = record state { runs = [] }

empty_state-IsWellFormed : IsWellFormed empty_state
empty_state-IsWellFormed = record {
  valid = state-IsWellFormed.valid;
  matching = state-IsWellFormed.matching;
  pools_sorted = state-IsWellFormed.pools_sorted;
  runs_sorted = tt;
  runs_keyed = tt;
  manager_id_sliceable = state-IsWellFormed.manager_id_sliceable;
}

abbrev empty_engine : Engine
empty_engine = record reconciling { state = empty_state; row = some empty_state }

room_here : has_room env outside linux linux_state true 0 empty_state 2 ≡ true
room_here = refl

replenish_returns : (replenish env outside linux linux_state empty_engine).0 ≡ done tt
unfolding replenish record_new index_manager_id insert_run save store_save external check_epoch
    serve_arrivals attempt handle_local handle_inner dispatch changes_config mutating finish
    handle_status reload store_load send_snapshot ◌>>=◌
replenish_returns = refl

empty_state-HasNoMore : HasNoMore env outside linux linux_state empty_engine
empty_state-HasNoMore s h = (ground (arith, h), ground (arith, h))

replenish_within_example :
    Fits env outside linux linux_state 2 empty_engine
      (replenish env outside linux linux_state empty_engine).1
replenish_within_example =
    replenish_within env outside linux linux_state true 0 2 empty_engine (λ n. refl)
      (empty_state-IsWellFormed, (empty_state, refl, empty_state-IsWellFormed))
      empty_state-HasNoMore refl (omega arith) (omega arith) room_here replenish_returns
