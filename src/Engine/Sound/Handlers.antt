-- ===== src/Engine/Sound/Handlers.antt =====
-- Each request on pools, from a well-formed state that the row holds: it ends in a sound engine, or
-- fails with a row that can be read back, and never panics.
use runnerctl.Common.{
  ℕ, ◌+◌, ◌%◌, String, ◌≡◌, refl, sym, ◌∙◌, Bool, true, ◌||◌, Option, some, List, [], ◌∷◌, ◌++◌,
  arith, str_eq, eq_iff,
}
use runnerctl.BTreeMap.{BTreeMap, contains_key, modify, map_values, insert}
use runnerctl.BTreeMap.Laws.{contains_key-modify, contains_key-insert}
use runnerctl.BTreeMap.Laws.Order.{IsSorted, Below, insert-IsSorted}
use runnerctl.Config.{Pool, AppAuth}
use runnerctl.Config.Memory.{u64_mod}
use runnerctl.State.{PoolState, State, default_pool_state}
use runnerctl.Retiring.{find_pool}
use runnerctl.Engine.Store.{committed}
use runnerctl.Engine.{Env}
use runnerctl.Engine.Pools.{
  drain_run, removed_pool, update_first, reset_profile, handle_add, handle_start, handle_stop,
  handle_scale, handle_upgrade, handle_remove, handle_auth,
}
use runnerctl.Engine.Sound.{configured, IsWellFormed, IsSound, At, Saved, Triple, Triple-bind}
use runnerctl.Engine.Sound.Rules.{
  At-state, At-ensure, At-context, At-lift, At-update_state, At-next_io, At-update, At-index_pool,
  At-modify_pool, At-call,
}
use runnerctl.Engine.Sound.Wf.{
  modify-IsWellFormed, map_runs-IsWellFormed, config-IsWellFormed, pools-IsWellFormed,
  configured_of_find,
}
use runnerctl.Engine.Sound.Store.{At-mark, At-commit, At-commit_last, At-save, Saved-pure}
use runnerctl.Engine.Sound.Targets.{
  Known, Known-same, targets-At, none_deleting-At, Became, start_pools-At, drain_run-id,
  stop_pools-At, pending-Saved,
}

contains_key-reset_profile :
    (i profile : String) (pools : List Pool) (m : BTreeMap PoolState)
    → contains_key i (reset_profile profile pools m) ≡ contains_key i m
unfolding reset_profile
contains_key-reset_profile i profile pools [] = refl
contains_key-reset_profile i profile pools ((j, p) ∷ m) =
    ground (arith, contains_key-reset_profile i profile pools m)

Below-reset_profile :
    (i profile : String) (pools : List Pool) (m : BTreeMap PoolState)
    → Below i m
    → Below i (reset_profile profile pools m)
unfolding reset_profile
Below-reset_profile i profile pools [] b = tt
Below-reset_profile i profile pools ((j, p) ∷ m) b =
    (b.0, Below-reset_profile i profile pools m b.1)

reset_profile-IsSorted :
    (profile : String) (pools : List Pool) (m : BTreeMap PoolState)
    → IsSorted m
    → IsSorted (reset_profile profile pools m)
unfolding reset_profile
reset_profile-IsSorted profile pools [] h = tt
reset_profile-IsSorted profile pools ((j, p) ∷ m) h =
    (Below-reset_profile j profile pools m h.0, reset_profile-IsSorted profile pools m h.1)

-- A change of one pool that keeps its name changes no name.
configured-update_first :
    (i name : String) (f : Pool → Pool) (pools : List Pool)
    → ((p : Pool) → (f p).name ≡ p.name)
    → configured i (update_first name f pools) ≡ configured i pools
unfolding update_first
configured-update_first i name f [] same = refl
configured-update_first i name f (p ∷ rest) same =
    ground (arith, same p, configured-update_first i name f rest same)

configured-append :
    (i : String) (pools : List Pool) (p : Pool)
    → configured i (pools ++ p ∷ []) ≡ (configured i pools || str_eq p.name i)
configured-append i [] p = ground arith
configured-append i (q ∷ rest) p = ground (arith, configured-append i rest p)

module _ (env : Env) (s : State) (w : IsWellFormed s) where
  known_of_find :
      (name : String) (p : Pool)
      → find_pool name s.config.pools ≡ some p
      → contains_key name s.pools ≡ true
  known_of_find name p found =
      sym (w.matching name) ∙ configured_of_find name s.config.pools p found

  pub handle_start-IsSound :
      (pool : Option String) (all : Bool) → Triple (At s) (handle_start env pool all) (λ _. IsSound)
  unfolding handle_start
  handle_start-IsSound pool all =
      At-call s (Known s.pools) _ _ (targets-At s pool all) λ names known.
        At-call s (λ _. Unit {0}) _ _ (none_deleting-At s names known)
          λ ok _. At-ensure s _ _ _ λ _.
            Triple-bind (λ _. Became s) _ _ (start_pools-At s names w known)
              λ _. record {
                run = λ e q.
                    let (t, p, well, _) = q in
                    (At-update t _ _ (λ e. (refl, refl))
                        (At-save env t _ well (Saved-pure t _))).run
                      e p;
              }

  pub handle_remove-IsSound :
      (pool : String) (force : Bool) → Triple (At s) (handle_remove env pool force) (λ _. IsSound)
  unfolding handle_remove
  handle_remove-IsSound pool force = At-state s _ (
      At-context s _ _ _ λ p found. At-modify_pool s pool _ _ (ground arith) λ _ _.
        let t = record s { pools = modify pool (removed_pool force) s.pools } in
        let u = record t { runs = map_values (drain_run p.id force) t.runs } in
        At-update_state t _ _ (
          At-save env u _
            (map_runs-IsWellFormed (drain_run p.id force) t (drain_run-id p.id force)
              (modify-IsWellFormed pool (removed_pool force) s w))
            (Saved-pure u _)))

  pub handle_stop-IsSound :
      (pool : Option String) (all force : Bool)
      → Triple (At s) (handle_stop env pool all force) (λ _. IsSound)
  unfolding handle_stop
  handle_stop-IsSound pool all force =
      At-call s (Known s.pools) _ _ (targets-At s pool all) λ names known.
        Triple-bind (λ _. Became s) _ _ (stop_pools-At s force names w known)
          λ _. record {
            run = λ e q.
                let (t, p, well, same) = q in
                (At-save env t _ well (
                    Triple-bind (λ _. Saved t) _ _
                      (pending-Saved t names (Known-same s.pools t.pools names same known))
                      (λ waits. Saved-pure t _))).run
                  e p;
          }

  pub handle_auth-IsSound :
      (profile credential : String) (app : Option AppAuth)
      → Triple (At s) (handle_auth env profile credential app) (λ _. IsSound)
  unfolding handle_auth
  handle_auth-IsSound profile credential app = At-ensure s _ _ _ λ _. At-state s _ (
      At-commit env s _ _ (λ text valid. config-IsWellFormed _ _ _ s valid (λ name. refl) w)
        λ text valid.
          let next = record s.config {
            auth = insert profile (record { credential = credential; app = app }) s.config.auth;
          } in
          let t = committed env next text s in
          At-update_state t _ _ (
            At-save env (record t { pools = reset_profile profile t.config.pools t.pools }) _
              (pools-IsWellFormed (reset_profile profile t.config.pools t.pools) t
                (reset_profile-IsSorted profile t.config.pools t.pools w.pools_sorted)
                (λ i. contains_key-reset_profile i profile t.config.pools t.pools)
                (config-IsWellFormed _ _ _ s valid (λ name. refl) w))
              (Saved-pure _ _)))

  pub handle_scale-IsSound :
      (pool : String) (replicas : ℕ) → Triple (At s) (handle_scale env pool replicas) (λ _. IsSound)
  unfolding handle_scale
  handle_scale-IsSound pool replicas = At-state s _ (
      At-context s _ _ _ λ p found. At-index_pool s pool _ (known_of_find pool p found) λ ps _.
        At-ensure s _ _ _ λ _.
          let keeps_names = λ (i : String).
            configured-update_first i pool (λ q. record q { replicas = replicas }) s.config.pools
              (λ q. refl) in
          At-commit env s _ _ (λ text valid. config-IsWellFormed _ _ _ s valid keeps_names w)
            λ text valid.
              At-mark _ pool _ (config-IsWellFormed _ _ _ s valid keeps_names w)
                (known_of_find pool p found) λ runs well. At-save env _ _ well (Saved-pure _ _))

  pub handle_upgrade-IsSound :
      (pool image : String) → Triple (At s) (handle_upgrade env pool image) (λ _. IsSound)
  unfolding handle_upgrade
  handle_upgrade-IsSound pool image = At-state s _ (
      At-context s _ _ _ λ p found. At-index_pool s pool _ (known_of_find pool p found) λ ps _.
        At-ensure s _ _ _ λ _. At-lift s _ _ λ _ _.
          At-modify_pool s pool _ _ (known_of_find pool p found) λ _ _.
            let t = record s {
              pools =
                  modify pool
                    (λ (q : PoolState). record q { generation = (q.generation + 1) % u64_mod })
                    s.pools;
            } in
            let keeps_names = λ (i : String).
              configured-update_first i pool (λ q. record q { image = image }) s.config.pools
                (λ q. refl) in
            At-commit env t _ _
              (λ text valid.
                config-IsWellFormed _ _ _ t valid keeps_names (modify-IsWellFormed pool _ s w))
              λ text valid.
                At-mark _ pool _
                  (config-IsWellFormed _ _ _ t valid keeps_names (modify-IsWellFormed pool _ s w))
                  (contains_key-modify pool pool _ s.pools ∙ known_of_find pool p found)
                  λ runs well. At-save env _ _ well (Saved-pure _ _))

  pub handle_add-IsSound : (pool : Pool) → Triple (At s) (handle_add env pool) (λ _. IsSound)
  unfolding handle_add
  handle_add-IsSound pool = At-state s _ (
      At-ensure s _ _ _ λ _. At-lift s _ _ λ _ _. At-next_io s _ λ n. At-update_state s _ _ (
        At-commit_last env _ _ _ λ text valid. record {
          valid = valid;
          matching = λ i. ground (
            arith,
            configured-append i s.config.pools pool,
            contains_key-insert i pool.name (default_pool_state (env.uuid n)) s.pools,
            w.matching i,
            eq_iff i pool.name,
            eq_iff pool.name i,
          );
          pools_sorted = insert-IsSorted pool.name _ s.pools w.pools_sorted;
          runs_sorted = w.runs_sorted;
          runs_keyed = w.runs_keyed;
          manager_id_sliceable = w.manager_id_sliceable;
        }))
