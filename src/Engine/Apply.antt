-- ===== src/Engine/Apply.antt =====
-- The apply request of `handle_inner` in src/manager.rs: a hand-edited config.toml takes effect.
use runnerctl.Common.{
  ℕ, ◌+◌, ◌%◌, String, Bool, true, false, not, ◌&&◌, ◌||◌, Option, none, some, List, [], ◌∷◌, any,
  all, ◌==◌, str_eq, if◌then◌else◌,
}
use runnerctl.Result.{Result, ok, err, message}
use runnerctl.BTreeMap.{BTreeMap, lookup, contains_key, keys, values, insert, modify}
use runnerctl.F64.{f64_eq, bool_eq}
use runnerctl.Config.{Pool, Config, api_scope}
use runnerctl.Config.Memory.{u64_mod}
use runnerctl.Config.Validate.{validate}
use runnerctl.State.{PoolState, default_pool_state}
use runnerctl.Protocol.{Reply}
use runnerctl.Retiring.{in_pool, find_pool}
use runnerctl.Engine.{
  Env, Exec, panicked, pure, lift, gets, update_state, ◌>>=◌, ◌>>◌, ensure, next_io, mark,
}
use runnerctl.Engine.Store.{save, commit_config, read_config}

abbrev pub texts_eq : List String → List String → Bool
texts_eq [] [] = true
texts_eq (a ∷ s) (b ∷ t) = str_eq a b && texts_eq s t
texts_eq _ _ = false

abbrev pub option_eq : {A : Type 0} → (A → A → Bool) → Option A → Option A → Bool
option_eq eq none none = true
option_eq eq (some a) (some b) = eq a b
option_eq eq _ _ = false

-- The scope or the credential differs.
unfoldable pub scope_changed : Pool → Pool → Bool
scope_changed old new =
    not (str_eq (api_scope old) (api_scope new)) || not (str_eq old.auth new.auth)

-- The containers that run now do not fit the new settings.
unfoldable pub template_changed : Pool → Pool → Bool
template_changed old new =
    not (str_eq old.image new.image)
    || not (texts_eq old.labels new.labels)
    || not (str_eq old.runner_group new.runner_group)
    || not (bool_eq old.docker_socket new.docker_socket)
    || not (bool_eq old.allow_privilege_escalation new.allow_privilege_escalation)
    || not (option_eq f64_eq old.cpus new.cpus)
    || not (option_eq str_eq old.memory new.memory)

abbrev pub bump_if : Bool → PoolState → PoolState
bump_if changed p = if changed then record p { generation = (p.generation + 1) % u64_mod } else p

-- `unwrap()` on `None`
unfoldable pub panics {ℓ} : {A : Type ℓ} → Exec A
panics e = (panicked, e)

module _ (env : Env) where
  -- `Config::parse`
  unfoldable pub parse : String → Result Config
  parse text = elim (env.from_toml text) [
    | none ↦ err (message "invalid config TOML")
    | some c ↦ elim (validate c) [ ok _ ↦ ok c | err error ↦ err error ]
  ]

  -- One round of the loop for a pool that was there: `ps` is its state.
  unfoldable pub apply_old :
      Pool → Pool → PoolState → BTreeMap PoolState → Exec (BTreeMap PoolState)
  apply_old old new ps pool_states = do
    ensure (not ps.deleting) "cannot edit a deleting pool"
    state ← gets (λ e. e.state)
    ensure
        (not (scope_changed old new)
          || (not ps.running && not (any (in_pool ps.id) (values state.runs))))
        "stop and fully clean pool before changing scope/auth"
    pure (modify new.name (bump_if (template_changed old new)) pool_states)

  -- One round of the loop for a new pool.
  unfoldable pub apply_new : Pool → BTreeMap PoolState → Exec (BTreeMap PoolState)
  apply_new new pool_states = do
    n ← next_io
    pure (insert new.name (default_pool_state (env.uuid n)) pool_states)

  -- One round, given the old configuration of the pool and its state.
  unfoldable pub apply_at :
      Pool → Option Pool → Option PoolState → BTreeMap PoolState → Exec (BTreeMap PoolState)
  apply_at new none ps pool_states = apply_new new pool_states
  apply_at new (some old) none pool_states = panics
  apply_at new (some old) (some ps) pool_states = apply_old old new ps pool_states

  unfoldable pub apply_pool : Pool → BTreeMap PoolState → Exec (BTreeMap PoolState)
  apply_pool new pool_states = do
    state ← gets (λ e. e.state)
    apply_at new (find_pool new.name state.config.pools) (lookup new.name pool_states) pool_states

  unfoldable pub apply_pools : List Pool → BTreeMap PoolState → Exec (BTreeMap PoolState)
  apply_pools [] pool_states = pure pool_states
  apply_pools (new ∷ rest) pool_states = do
    changed ← apply_pool new pool_states
    apply_pools rest changed

  -- `for name in keys { self.mark_retiring(&name) }`
  unfoldable pub mark_all : List String → Exec (Unit {0})
  mark_all [] = pure tt
  mark_all (name ∷ rest) = do mark name; mark_all rest

  unfoldable pub handle_apply : String → ℕ → Exec Reply
  handle_apply text revision = do
    state ← gets (λ e. e.state)
    ensure (state.revision == revision) "stale revision; read status and retry"
    current ← read_config env
    ensure (str_eq current text) "config changed while applying; retry"
    next ← lift (parse text)
    ensure (all (λ p. any (λ n. str_eq n.name p.name) next.pools) state.config.pools)
        "use pool remove to drain and delete pools before removing configuration"
    pool_states ← apply_pools next.pools state.pools
    ensure (all (λ r. contains_key r.pool.auth next.auth) (values state.runs))
        "auth profile still required for cleanup"
    update_state (λ s. record s { pools = pool_states })
    commit_config env next
    names ← gets (λ e. keys e.state.pools)
    mark_all names
    save env
    revision' ← gets (λ e. e.state.revision)
    pure (Reply.applied revision')
