-- ===== src/Engine/Reconcile/Tick.antt =====
-- `tick` of src/manager.rs: whose turn it is, and what the result of its reconciliation does.
use runnerctl.Common.{
  ℕ, ◌+◌, ◌%◌, String, Bool, true, not, ◌&&◌, ◌||◌, Option, none, some, List, [], ◌∷◌, length,
  get_elem?, ltb, ◌==◌, str_eq, if◌then◌else◌,
}
use runnerctl.Result.{Result, ok, err, message, reconcile_interrupted}
use runnerctl.BTreeMap.{lookup, keys, modify, map_values}
use runnerctl.Config.Memory.{u64_mod}
use runnerctl.State.{observation, provisioning, PoolState, Run, State}
use runnerctl.Retiring.{in_pool}
use runnerctl.Engine.{
  Env, Engine, Exec, pure, gets, update, update_state, ◌>>=◌, ◌>>◌, next_io, index_pool,
}
use runnerctl.Engine.Store.{save}
use runnerctl.Engine.Retry.{replenishment_allowed}
use runnerctl.Engine.Reconcile.{Outside, attempt}
use runnerctl.Engine.Reconcile.Exits.{scope_eq, record_failure}
use runnerctl.Engine.Reconcile.Pass.{reconcile}

-- `names[cursor % names.len()]`; `none` when there is no pool
unfoldable pub turn : ℕ → List String → Option String
turn cursor [] = none
turn cursor (n ∷ names) = get_elem? (n ∷ names) (cursor % length (n ∷ names))

-- `self.reconcile_epoch != Some(self.epoch)`
abbrev pub is_interrupted : Engine → Bool
is_interrupted e = elim e.reconcile_epoch [ none ↦ true | some k ↦ not (k == e.epoch) ]

-- A phase that was seen counts no more.
unfoldable pub forget_phase : String → Run → Run
forget_phase id r =
    if in_pool id r && (str_eq r.phase "idle" || str_eq r.phase "busy" || str_eq r.phase "starting")
    then record r { phase = "unknown" }
    else r

abbrev pub forget_phases : String → State → State
forget_phases name s = elim (lookup name s.pools) [
  | none ↦ s
  | some p ↦ record s { runs = map_values (forget_phase p.id) s.runs }
]

abbrev pub recovered : PoolState → PoolState
recovered p = record p { error = none; retry_at = 0 }

module _ (env : Env) (o : Outside) where
  -- After a reconciliation that was not interrupted: the pool was observed now.
  unfoldable pub observed : String → Exec (Unit {0})
  observed name = do
    n ← next_io
    update_state
        (λ s. record s { pools = modify name (λ p. record p { observed_at = env.now n }) s.pools })
    save env

  unfoldable pub conclude : String → Bool → Result ℕ → Exec (Unit {0})
  conclude name retrying (ok unexpected_exits) = do
    if ltb 0 unexpected_exits
        then record_failure env o name
            "runner exited before completing a job; inspect archived diagnostics" provisioning
        else if not retrying
        then update_state (λ s. record s { pools = modify name recovered s.pools })
        else pure tt
    observed name
  conclude name retrying (err reconcile_interrupted) = save env
  conclude name retrying (err (message text)) = do
    record_failure env o name text observation
    update_state (forget_phases name)
    observed name

  unfoldable pub attempt_pass : String → Bool → Bool → Exec (Unit {0})
  attempt_pass name retrying allow_replenish = do
    update (λ e. record e { reconcile_epoch = some e.epoch })
    result ← attempt (reconcile env o name allow_replenish)
    interrupted ← gets is_interrupted
    update (λ e. record e { reconcile_epoch = none })
    if interrupted then save env else conclude name retrying result

  unfoldable pub take_turn : String → Exec (Unit {0})
  take_turn name = do
    update (λ e. record e { cursor = (e.cursor + 1) % u64_mod })
    n ← next_io
    p ← index_pool name
    let at = env.now n
    let retrying = ltb at p.retry_at
    if retrying && scope_eq p.retry_scope observation
        then pure tt
        else attempt_pass name retrying (replenishment_allowed p.retry_at at)

  unfoldable pub tick : Exec (Unit {0})
  tick = do
    name ← gets (λ e. turn e.cursor (keys e.state.pools))
    elim name [ none ↦ pure tt | some name ↦ take_turn name ]
