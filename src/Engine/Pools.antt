-- ===== src/Engine/Pools.antt =====
-- The requests on pools, as the arms of `handle_inner` in src/manager.rs: add, start, stop, scale,
-- upgrade, remove and auth, with `targets`.
pub mod Laws
use runnerctl.Common.{
  ℕ, ◌+◌, ◌%◌, String, Bool, true, false, not, ◌&&◌, ◌||◌, Option, none, some, List, [], ◌∷◌, ◌++◌,
  any, str_eq, if◌then◌else◌,
}
use Prim.Native.String
use runnerctl.Result.{ok, err, message}
use runnerctl.BTreeMap.{BTreeMap, lookup, contains_key, keys, values, insert, modify, map_values}
use runnerctl.Config.{AppAuth, Auth, Pool, Config}
use runnerctl.Config.Memory.{u64_mod}
use runnerctl.Config.Names.{valid_name}
use runnerctl.Config.Validate.{validate}
use runnerctl.State.{PoolState, default_pool_state, Run, State}
use runnerctl.Protocol.{Reply}
use runnerctl.Retiring.{in_pool, find_pool}
use runnerctl.Engine.{
  Env, Engine, Exec, pure, lift, gets, update, update_state, ◌>>=◌, ◌>>◌, ensure, context, next_io,
  index_pool, modify_pool, mark,
}
use runnerctl.Engine.Store.{save, commit_config}

abbrev is_some : Option String → Bool
is_some none = false
is_some (some _) = true

abbrev xor : Bool → Bool → Bool
xor true b = not b
xor false b = b

unfoldable pub targets : Option String → Bool → Exec (List String)
targets pool all = do
  ensure (xor (is_some pool) all) "specify a pool or --all"
  state ← gets (λ e. e.state)
  elim pool [
    | some name ↦ do
      ensure (contains_key name state.pools) (String.◌++◌ "unknown pool: " name)
      pure (name ∷ [])
    | none ↦ pure (keys state.pools)
  ]

-- `targets.iter().all(|n| !self.state.pools[n].deleting)`
unfoldable pub none_deleting : List String → Exec Bool
none_deleting [] = pure true
none_deleting (name ∷ rest) = do
  p ← index_pool name
  if p.deleting then pure false else none_deleting rest

abbrev pub started_pool : PoolState → PoolState
started_pool p = record p { running = true; retry_at = 0; failures = 0; error = none }

unfoldable pub start_pools : List String → Exec (Unit {0})
start_pools [] = pure tt
start_pools (name ∷ rest) = do modify_pool name started_pool; start_pools rest

abbrev pub stopped_pool : Bool → PoolState → PoolState
stopped_pool force p = record p { running = false; retry_at = if force then 0 else p.retry_at }

-- `r.retiring = true; r.force |= force`, on the runs of a pool
abbrev pub drain_run : String → Bool → Run → Run
drain_run id force r =
    if in_pool id r then record r { retiring = true; force = r.force || force } else r

abbrev pub drain_runs : String → Bool → Exec (Unit {0})
drain_runs id force = update_state (λ s. record s { runs = map_values (drain_run id force) s.runs })

unfoldable pub stop_pools : Bool → List String → Exec (Unit {0})
stop_pools force [] = pure tt
stop_pools force (name ∷ rest) = do
  p ← modify_pool name (stopped_pool force)
  drain_runs p.id force
  stop_pools force rest

-- `targets.iter().any(|n| runs.values().any(|r| r.pool_id == self.state.pools[n].id))`
unfoldable pub pending : List String → Exec Bool
pending [] = pure false
pending (name ∷ rest) = do
  p ← index_pool name
  state ← gets (λ e. e.state)
  if any (in_pool p.id) (values state.runs) then pure true else pending rest

abbrev pub removed_pool : Bool → PoolState → PoolState
removed_pool force p = record p {
  running = false;
  deleting = true;
  retry_at = if force then 0 else p.retry_at;
}

-- `next.pools.iter_mut().find(|p| p.name == name)` and a write through it
unfoldable pub update_first : String → (Pool → Pool) → List Pool → List Pool
update_first name f [] = []
update_first name f (p ∷ rest) =
    if str_eq p.name name then f p ∷ rest else p ∷ update_first name f rest

-- The reset of the pools that use a profile.
abbrev pub uses_profile : String → String → Pool → Bool
uses_profile name profile c = str_eq c.name name && str_eq c.auth profile

unfoldable pub reset_profile : String → List Pool → BTreeMap PoolState → BTreeMap PoolState
reset_profile profile pools [] = []
reset_profile profile pools ((name, p) ∷ rest) =
    (
      name,
      if any (uses_profile name profile) pools
          then record p { retry_at = 0; error = none; failures = 0 }
          else p,
    )
    ∷ reset_profile profile pools rest

module _ (env : Env) where
  unfoldable pub handle_add : Pool → Exec Reply
  handle_add pool = do
    state ← gets (λ e. e.state)
    ensure (not (contains_key pool.name state.pools)) "pool already exists"
    let next = record state.config { pools = state.config.pools ++ pool ∷ [] }
    lift (validate next)
    n ← next_io
    update_state
        (λ s. record s { pools = insert pool.name (default_pool_state (env.uuid n)) s.pools })
    commit_config env next
    pure (Reply.added pool.name "stopped")

  unfoldable pub handle_start : Option String → Bool → Exec Reply
  handle_start pool all = do
    names ← targets pool all
    ensure (← none_deleting names) "a target pool is being deleted"
    start_pools names
    update (λ e. record e { cleared = e.cleared + 1 })
    save env
    pure (Reply.started names)

  unfoldable pub handle_stop : Option String → Bool → Bool → Exec Reply
  handle_stop pool all force = do
    names ← targets pool all
    stop_pools force names
    save env
    waits ← pending names
    pure (Reply.stopped names waits force)

  unfoldable pub handle_scale : String → ℕ → Exec Reply
  handle_scale pool replicas = do
    state ← gets (λ e. e.state)
    context (find_pool pool state.config.pools) "unknown pool"
    ps ← index_pool pool
    ensure (not ps.deleting) "pool is being deleted"
    commit_config env (record state.config {
      pools = update_first pool (λ p. record p { replicas = replicas }) state.config.pools;
    })
    mark pool
    save env
    pure (Reply.scaled pool replicas)

  unfoldable pub handle_upgrade : String → String → Exec Reply
  handle_upgrade pool image = do
    state ← gets (λ e. e.state)
    context (find_pool pool state.config.pools) "unknown pool"
    ps ← index_pool pool
    ensure (not ps.deleting) "pool is being deleted"
    let next = record state.config {
      pools = update_first pool (λ p. record p { image = image }) state.config.pools;
    }
    lift (validate next)
    modify_pool pool (λ p. record p { generation = (p.generation + 1) % u64_mod })
    commit_config env next
    mark pool
    save env
    pure (Reply.upgrading pool)

  unfoldable pub handle_remove : String → Bool → Exec Reply
  handle_remove pool force = do
    state ← gets (λ e. e.state)
    p ← context (lookup pool state.pools) "unknown pool"
    modify_pool pool (removed_pool force)
    drain_runs p.id force
    save env
    pure (Reply.removing pool force)

  unfoldable pub handle_auth : String → String → Option AppAuth → Exec Reply
  handle_auth profile credential app = do
    ensure (valid_name profile) "invalid profile"
    state ← gets (λ e. e.state)
    commit_config env (record state.config {
      auth = insert profile (record { credential = credential; app = app }) state.config.auth;
    })
    update_state (λ s. record s { pools = reset_profile profile s.config.pools s.pools })
    save env
    pure (Reply.profile profile)
