-- ===== src/Engine/Reconcile/Pass.antt =====
-- `reconcile` of src/manager.rs: one pass over a pool, from what Docker and GitHub show to at most
-- one new run.
use Prim.Native.String.{◌++◌}
use runnerctl.Common.{
  ℕ, ◌+◌, ◌*◌, ◌^◌, String, Bool, true, false, not, ◌&&◌, Option, none, some, List, [], ◌∷◌, map,
  any, filter, find, length, ltb, ◌==◌, str_eq, if◌then◌else◌,
}
use runnerctl.Result.{Error, Result, ok, err}
use runnerctl.BTreeMap.{BTreeMap, lookup, contains_key, values, keys, remove}
use runnerctl.Config.{Auth, Pool}
use runnerctl.State.{PoolState, Run, State}
use runnerctl.Retiring.{in_pool, pool_runs, keep_count, find_pool}
use runnerctl.Common.Text.{codes, slice_to, starts_with}
use runnerctl.Engine.Retry.{saturating_mul}
use runnerctl.Engine.{
  docker_remove, remove_log_file, Env, Exec, panicked, done, pure, raise, lift, gets, update_state,
  ◌>>=◌, ◌>>◌, context, next_io, index_pool, mark,
}
use runnerctl.Engine.Store.{save, clean_file, commit_config}
use runnerctl.Engine.Reconcile.{
  Container, LogEntry, RemoteRunner, Outside, owned, leave, insert_run, external,
}
use runnerctl.Engine.Reconcile.Exits.{archive}
use runnerctl.Engine.Reconcile.Steps.{Progress, round}

-- `self.state.config.auth[name]`
unfoldable pub index_auth : String → Exec Auth
index_auth name e = elim (lookup name e.state.config.auth) [
  | none ↦ (panicked, e)
  | some a ↦ (done a, e)
]

-- A container of this manager whose run is not recorded.
abbrev pub is_unknown : BTreeMap Run → Container → Bool
is_unknown runs c = elim c.run [ none ↦ true | some id ↦ not (contains_key id runs) ]

abbrev pub is_forced : String → Run → Bool
is_forced id r = in_pool id r && r.force

abbrev pub without : String → List Pool → List Pool
without name = filter (λ p. not (str_eq p.name name))

-- `&self.state.manager_id[..8]`
unfoldable pub index_manager_id : Exec String
index_manager_id e = elim (slice_to 8 e.state.manager_id) [
  | none ↦ (panicked, e)
  | some s ↦ (done s, e)
]

abbrev pub new_run : String → Pool → PoolState → ℕ → Run
new_run id pool ps at = record {
  id = id;
  pool_id = ps.id;
  pool = pool;
  generation = ps.generation;
  created_at = at;
  phase = "creating";
  remote_id = none;
  retiring = false;
  force = false;
  completed_job = false;
  log_saved = false;
}

-- Older than the retention, and not of a recorded run.
unfoldable pub is_expired : State → LogEntry → Bool
is_expired state entry =
    entry.is_file
    && ltb (saturating_mul state.config.manager.log_retention_days 86400 * 10 ^ 9) entry.age_nanos
    && not (any (λ id. starts_with (codes entry.filename) (codes id)) (keys state.runs))

unfoldable pub raise_first : Option Error → Exec (Unit {0})
raise_first none = pure tt
raise_first (some error) = raise error

module _ (env : Env) (o : Outside) where
  -- A deleted pool without runs leaves the configuration.
  unfoldable pub drop_pool : String → Exec (Unit {0})
  drop_pool name = do
    clean_file env
    config ← gets (λ e. e.state.config)
    update_state (λ s. record s { pools = remove name s.pools })
    commit_config env (record config { pools = without name config.pools })

  abbrev pub stop_owned : Run → Option Container → Exec (Unit {0})
  stop_owned run none = pure tt
  stop_owned run (some c) = do
    let leaving = record run { phase = "cleanup" }
    insert_run leaving
    save env
    archive env o leaving c
    external env o (leave (docker_remove run.id true)) o.command

  -- The loop over the runs that a client wants stopped by force.
  unfoldable pub stop_forced : List Container → List Run → Exec (Unit {0})
  stop_forced containers [] = pure tt
  stop_forced containers (run ∷ rest) = do
    manager ← gets (λ e. e.state.manager_id)
    stop_owned run (find (λ c. owned c manager run) containers)
    stop_forced containers rest

  -- The loop over the pool's runs.
  unfoldable pub rounds :
      String → List RemoteRunner → List Container → Bool → List String → Progress → Exec Progress
  rounds name remotes containers allow_replenish [] p = pure p
  rounds name remotes containers allow_replenish (id ∷ rest) p = do
    next ← round env o name remotes containers allow_replenish p id
    rounds name remotes containers allow_replenish rest next

  -- `fs::remove_file` on an expired log
  unfoldable pub remove_log : String → Exec (Unit {0})
  remove_log filename = do n ← next_io; leave (remove_log_file filename); lift (o.command n)

  -- The loop over the entries of the logs' directory; an entry, its metadata or its time may fail to
  -- be read.
  unfoldable pub expire_entries : State → List (Result LogEntry) → Exec (Unit {0})
  expire_entries state [] = pure tt
  expire_entries state (err error ∷ rest) = raise error
  expire_entries state (ok entry ∷ rest) = do
    if is_expired state entry then remove_log entry.filename else pure tt
    expire_entries state rest

  unfoldable pub expire_logs : Exec (Unit {0})
  expire_logs = do
    n ← next_io
    entries ← lift (o.log_entries n)
    state ← gets (λ e. e.state)
    expire_entries state entries

  -- A new run, saved before its container is created.
  unfoldable pub record_new : Pool → PoolState → Exec (Unit {0})
  record_new pool ps = do
    manager ← index_manager_id
    n ← next_io
    insert_run (new_run ("rc-" ++ manager ++ "-" ++ o.simple_uuid n) pool ps (env.now n))
    save env

  -- One new run, if the image is there.
  unfoldable pub replenish : Pool → PoolState → Exec (Unit {0})
  replenish pool ps = do external env o (pure tt) o.command; record_new pool ps

  -- Below the pool's replicas and the manager's limit.
  abbrev pub has_room : Pool → PoolState → Bool → ℕ → State → ℕ → Bool
  has_room pool ps allow_replenish unexpected_exits s unknown =
      allow_replenish
      && unexpected_exits == 0
      && ltb (length (pool_runs ps.id s.runs)) (keep_count ps pool)
      && ltb (length s.runs + unknown) s.config.manager.max_runners

  unfoldable pub fill : Pool → PoolState → Bool → ℕ → ℕ → Exec ℕ
  fill pool ps allow_replenish unexpected_exits unknown = do
    state ← gets (λ e. e.state)
    if has_room pool ps allow_replenish unexpected_exits state unknown
        then replenish pool ps
        else pure tt
    expire_logs
    pure unexpected_exits

  -- What follows the loop over the runs.
  unfoldable pub settle : String → Pool → PoolState → Bool → ℕ → Progress → Exec ℕ
  settle name pool ps allow_replenish unknown p = do
    raise_first p.cleanup_error
    state ← gets (λ e. e.state)
    if ps.deleting && length (pool_runs ps.id state.runs) == 0
        then drop_pool name >> pure p.unexpected_exits
        else fill pool ps allow_replenish p.unexpected_exits unknown

  -- The pass over a pool that has runs or should have some.
  unfoldable pub work : String → Pool → PoolState → Bool → List Container → Exec ℕ
  work name pool ps allow_replenish containers = do
    state ← gets (λ e. e.state)
    let unknown = length (filter (is_unknown state.runs) containers)
    stop_forced containers (filter (is_forced ps.id) (values state.runs))
    still_forced ← gets (λ e. any (is_forced ps.id) (values e.state.runs))
    containers' ← if still_forced then external env o (pure tt) o.containers else pure containers
    index_auth pool.auth
    remotes ← external env o (pure tt) o.remotes
    ids ← gets (λ e. map (λ r. r.id) (pool_runs ps.id e.state.runs))
    mark name
    save env
    progress ←
        rounds name remotes containers' allow_replenish ids
          (record { cleanup_error = none; unexpected_exits = 0 })
    settle name pool ps allow_replenish unknown progress

  -- The number that it returns is `unexpected_exits` of the report.
  unfoldable pub reconcile : String → Bool → Exec ℕ
  reconcile name allow_replenish = do
    pool ← context (← gets (λ e. find_pool name e.state.config.pools)) "missing pool config"
    ps ← index_pool name
    containers ← external env o (pure tt) o.containers
    state ← gets (λ e. e.state)
    if not (any (in_pool ps.id) (values state.runs)) && not ps.running
        then (if ps.deleting then drop_pool name else pure tt) >> pure 0
        else work name pool ps allow_replenish containers
