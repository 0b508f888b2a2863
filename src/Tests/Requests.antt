-- ===== src/Tests/Requests.antt =====
-- The theorems on requests, on the manager of the tests.
use runnerctl.Common.{
  inl, none, not, ◌&&◌, ◌+◌, ◌%◌, ◌≤◌, String, ◌≡◌, ◌≢◌, ◌⊎◌, refl, true, false, some, [], ◌∷◌,
  arith, any, length, filter, if◌then◌else◌,
}
use Prim.Native.String
use runnerctl.Result.{message}
use runnerctl.BTreeMap.{lookup, values}
use runnerctl.BTreeMap.Laws.{map_option}
use runnerctl.Config.Memory.{u64_mod}
use runnerctl.State.{State}
use runnerctl.Protocol.{Request, Reply, mutating, changes_config}
use runnerctl.Retiring.{in_pool, mark_retiring, retire_pool, retire_from}
use runnerctl.Retiring.Laws.{stays}
use runnerctl.Retiring.Laws.Exact.{treated, pool_keys}
use runnerctl.Retiring.Laws.Mark.{mark_retiring_exact, mark_retiring_bound}
use runnerctl.Engine.{Engine, done, failed, panicked, ◌>>=◌}
use runnerctl.Engine.Store.{
  committed, clean_file, store_save, write_config, after_write, send_snapshot, commit_config,
}
use runnerctl.Engine.Store.Laws.{commit_config_row_first, clean_file-commit_config}
use runnerctl.Engine.Pools.{handle_stop, handle_remove}
use runnerctl.Engine.Pools.Laws.{Drains, handle_stop_exact, handle_remove_exact}
use runnerctl.Engine.Handle.{handle_local}
use runnerctl.Engine.Handle.Laws.{handle_local_keeps_manual_edit, handle_local_failed_status}
use runnerctl.Engine.Handle.Epoch.{handle_local_epoch}
use runnerctl.Engine.Sound.{IsSound}
use runnerctl.Engine.Sound.Theorem.{handle_local-IsSound}
use runnerctl.Engine.{Env}
use runnerctl.Engine.Store.{store_load, read_config}
use runnerctl.Engine.Apply.{parse}
use runnerctl.Engine.Open.{open_engine, first_state, stored_or_first, open_engine-IsSound}
use runnerctl.Tests.{
  env, linux, run_of, config, config_valid, linux_state, runs, state, engine, state-IsWellFormed,
  engine-IsSound, engine-IsWorking,
}

handle_local-IsSound_example :
    IsSound (handle_local env (Request.scale "linux" 3) engine).1
    × ((handle_local env (Request.scale "linux" 3) engine).0 ≢ panicked)
handle_local-IsSound_example =
    handle_local-IsSound env (Request.scale "linux" 3) engine (λ n. refl) engine-IsSound

handle_local_epoch_example :
    ((handle_local env (Request.scale "linux" 3) engine).1.epoch
      ≡ (if mutating (Request.scale "linux" 3) then (engine.epoch + 1) % u64_mod else engine.epoch))
    × ((handle_local env (Request.scale "linux" 3) engine).1.reconcile_epoch
        ≡ engine.reconcile_epoch)
    × ((handle_local env (Request.scale "linux" 3) engine).1.effects ≡ engine.effects)
handle_local_epoch_example =
    handle_local_epoch env (Request.scale "linux" 3) engine (λ n. refl) engine-IsWorking

-- The manager after somebody edited config.toml.
abbrev edited : Engine
edited = record engine { file = some "edited text" }

edited-IsSound : IsSound edited
edited-IsSound = record {
  well_formed = state-IsWellFormed;
  stored = refl;
  shown = engine-IsSound.shown;
}

scale_changes : changes_config (Request.scale "linux" 3) ≡ true
unfolding changes_config
scale_changes = refl

handle_local_keeps_manual_edit_example :
    ((handle_local env (Request.scale "linux" 3) edited).0
      ≡ failed (message "config.toml has unapplied changes; run config apply first"))
    × ((handle_local env (Request.scale "linux" 3) edited).1.file ≡ some "edited text")
    × ((handle_local env (Request.scale "linux" 3) edited).1.row ≡ edited.row)
    × ((handle_local env (Request.scale "linux" 3) edited).1.state ≡ edited.state)
handle_local_keeps_manual_edit_example =
    handle_local_keeps_manual_edit env (Request.scale "linux" 3) "edited text" edited edited-IsSound
      scale_changes refl refl refl refl

handle_local_failed_status_example :
    ((handle_local env (Request.status (some "macos")) engine).0
      ≡ failed (message (String.◌++◌ "unknown pool: " "macos")))
    × ((handle_local env (Request.status (some "macos")) engine).1.state ≡ state)
    × ((handle_local env (Request.status (some "macos")) engine).1.epoch ≡ engine.epoch)
handle_local_failed_status_example =
    handle_local_failed_status env "macos" state engine refl refl refl

commit_config_row_first_example :
    ((commit_config env config engine).1.file ≡ engine.file)
    ⊎ ((text : String) × (env.to_toml config ≡ some text)
        × ((commit_config env config engine).1.file ≡ some text)
        × ((commit_config env config engine).1.row ≡ some (committed env config text engine.state)))
commit_config_row_first_example = commit_config_row_first env config engine

commit_returns : (commit_config env config engine).0 ≡ done tt
unfolding commit_config store_save write_config after_write send_snapshot ◌>>=◌
commit_returns = ground (arith, config_valid)

clean_file-commit_config_example : (clean_file env (commit_config env config engine).1).0 ≡ done tt
clean_file-commit_config_example = clean_file-commit_config env config engine commit_returns refl

handle_stop_exact_example :
    ((handle_stop env (some "linux") false true engine).0
      ≡ done (Reply.stopped ("linux" ∷ []) (any (in_pool "pool-1") (values runs)) true))
    × Drains engine "linux" linux_state false true
        (handle_stop env (some "linux") false true engine).1
handle_stop_exact_example = handle_stop_exact env "linux" true engine {p = linux_state} refl refl

handle_remove_exact_example :
    ((handle_remove env "linux" false engine).0 ≡ done (Reply.removing "linux" false))
    × Drains engine "linux" linux_state true false (handle_remove env "linux" false engine).1
handle_remove_exact_example =
    handle_remove_exact env "linux" false engine {p = linux_state} refl refl

mark_retiring_exact_example :
    (s' : State) × (mark_retiring "linux" state ≡ some s')
    × (s' ≡ record state { runs = s'.runs })
    × ((i : String)
        → lookup i s'.runs ≡ map_option (treated linux_state linux runs) (lookup i runs))
mark_retiring_exact_example =
    mark_retiring_exact "linux" state {ps = linux_state} {pool = linux} refl refl
      state-IsWellFormed.runs_sorted state-IsWellFormed.runs_keyed

-- The newest run of the present generation stays.
abbrev marked : State
marked = record state {
  runs =
      ("rc-a", record (run_of "rc-a" 1 100 "busy") { retiring = true })
      ∷ ("rc-b", record (run_of "rc-b" 2 200 "idle") { retiring = true })
      ∷ ("rc-c", run_of "rc-c" 2 300 "idle")
      ∷ [];
}

marked_lem : mark_retiring "linux" state ≡ some marked
unfolding mark_retiring retire_pool retire_from
marked_lem = refl

mark_retiring_bound_example :
    length (filter (stays marked.runs) (pool_keys "pool-1" runs))
    ≤ (if linux_state.running && not linux_state.deleting then linux.replicas else 0)
mark_retiring_bound_example =
    mark_retiring_bound "linux" state {ps = linux_state} {pool = linux} refl refl
      state-IsWellFormed.runs_sorted state-IsWellFormed.runs_keyed marked marked_lem

-- Before the first start.
abbrev fresh : Engine
fresh = record engine { row = none; file = some "config text" }

-- TOML that gives the configuration of the tests.
abbrev reading : Env
reading = record env { from_toml = λ t. some config }

fresh_opens : (open_engine reading fresh).0 ≡ done tt
unfolding open_engine first_state stored_or_first store_load read_config store_save parse ◌>>=◌
fresh_opens = ground (arith, config_valid)

open_engine-IsSound_example : IsSound (open_engine reading fresh).1
open_engine-IsSound_example = open_engine-IsSound reading (λ n. refl) fresh (inl refl) fresh_opens
