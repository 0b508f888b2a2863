-- ===== src/Engine/Handle/Names/Requests.antt =====
-- The requests of src/manager.rs, one by one: none removes a run or a pool.
use runnerctl.Common.{
  ℕ, String, ◌≡◌, ◌⊎◌, sym, ◌∙◌, subst, Bool, true, false, Option, none, some, List, [], ◌∷◌, arith,
  inl, inr,
}
use runnerctl.Config.{Pool}
use runnerctl.Protocol.{Request, Reply, mutating}
use runnerctl.Engine.{Env, Engine, Answer, done, failed, panicked, update, ◌>>=◌}
use runnerctl.Engine.Store.{send_snapshot, store_load}
use runnerctl.Engine.Pools.{
  targets, none_deleting, start_pools, stop_pools, drain_run, pending, handle_add, handle_start,
  handle_stop, handle_scale, handle_upgrade, handle_remove, handle_auth,
}
use runnerctl.Engine.Status.{pool_statuses, handle_status}
use runnerctl.Engine.Apply.{mark_all, handle_apply}
use runnerctl.Engine.Handle.{dispatch, handle_inner, reload, bump_epoch, finish, handle_local}
use runnerctl.Engine.Handle.Names.{
  Names, Has, Steady, Has-pools, Steady-pure, Steady-gets, Steady-lift, Steady-if, Steady-ensure,
  Steady-update_state, Steady-index_pool, Steady-bind, Steady-read,
}
use runnerctl.Engine.Handle.Names.Rules.{Steady-mark, Steady-modify_pool, Steady-map_runs, steady}
use runnerctl.Engine.Handle.Names.Store.{
  Steady-read_config, Steady-clean_file, Steady-save, Steady-commit_config,
}
use runnerctl.Engine.Handle.Names.Apply.{apply_pools-Gives, Steady-given}

module _ (names : Names) (env : Env) where
  Steady-none_deleting : (pools : List String) → Steady names (none_deleting pools)
  unfolding none_deleting
  Steady-none_deleting [] = search steady depth 20
  Steady-none_deleting (name ∷ rest) =
      Steady-bind names _ _ (Steady-index_pool names name)
        λ p. Steady-if names _ _ _ (Steady-pure names false) (Steady-none_deleting rest)

  Steady-start_pools : (pools : List String) → Steady names (start_pools pools)
  unfolding start_pools
  Steady-start_pools [] = search steady depth 20
  Steady-start_pools (name ∷ rest) =
      Steady-bind names _ _ (Steady-modify_pool names name _) (λ _. Steady-start_pools rest)

  Steady-stop_pools : (force : Bool) (pools : List String) → Steady names (stop_pools force pools)
  unfolding stop_pools
  Steady-stop_pools force [] = search steady depth 20
  Steady-stop_pools force (name ∷ rest) =
      Steady-bind names _ _ (Steady-modify_pool names name _) λ p.
        Steady-bind names _ _ (Steady-map_runs names (drain_run p.id force))
          (λ _. Steady-stop_pools force rest)

  Steady-pending : (pools : List String) → Steady names (pending pools)
  unfolding pending
  Steady-pending [] = search steady depth 20
  Steady-pending (name ∷ rest) = Steady-bind names _ _ (Steady-index_pool names name) λ p.
      Steady-bind names _ _ (Steady-gets names _)
        λ s. Steady-if names _ _ _ (Steady-pure names true) (Steady-pending rest)

  Steady-pool_statuses : (pools : List Pool) → Steady names (pool_statuses pools)
  unfolding pool_statuses
  Steady-pool_statuses [] = search steady depth 20
  Steady-pool_statuses (p ∷ rest) = Steady-bind names _ _ (Steady-index_pool names p.name) λ ps.
      Steady-bind names _ _ (Steady-gets names _)
        λ s. Steady-bind names _ _ (Steady-pool_statuses rest) (λ others. Steady-pure names _)

  Steady-targets : (pool : Option String) (all : Bool) → Steady names (targets pool all)
  unfolding targets
  Steady-targets none all = search steady depth 20
  Steady-targets (some name) all = search steady depth 20

  Steady-mark_all : (pools : List String) → Steady names (mark_all env pools)
  unfolding mark_all
  Steady-mark_all [] = search steady depth 20
  Steady-mark_all (name ∷ rest) =
      Steady-bind names _ _ (Steady-mark names name) (λ _. Steady-mark_all rest)

  ruleset requests = (
    steady, Steady-none_deleting, Steady-start_pools, Steady-stop_pools, Steady-pending,
    Steady-pool_statuses, Steady-targets, Steady-mark_all, Steady-read_config, Steady-clean_file,
    Steady-save, Steady-commit_config,
  )

  Steady-handle_apply :
      (text : String) (revision : ℕ) → Steady names (handle_apply env text revision)
  unfolding handle_apply
  Steady-handle_apply text revision = Steady-read names _ _ λ e n.
      Steady-bind names _ _ (Steady-ensure names _ _) λ _.
        Steady-bind names _ _ (Steady-read_config names env) λ current.
          Steady-bind names _ _ (Steady-ensure names _ _) λ _.
            Steady-bind names _ _ (Steady-lift names _) λ next.
              Steady-bind names _ _ (Steady-ensure names _ _) λ _.
                Steady-given names env _ _
                  (apply_pools-Gives names env next.pools e.state.pools n.state.pool)
                  λ m h. Steady-bind names _ _ (Steady-ensure names _ _) λ _.
                    Steady-bind names _ _
                      (Steady-update_state names _ (λ s. Has-pools names m s (λ _. h)))
                      (λ _. search requests depth 30)

  Steady-dispatch : (request : Request) → Steady names (dispatch env request)
  unfolding dispatch handle_status handle_add handle_start handle_stop handle_scale handle_upgrade
      handle_remove handle_auth
  Steady-dispatch (Request.status pool) = search requests depth 30
  Steady-dispatch (Request.add pool) = search requests depth 30
  Steady-dispatch (Request.start pool all) = search requests depth 30
  Steady-dispatch (Request.stop pool all force) = search requests depth 30
  Steady-dispatch (Request.scale pool replicas) = search requests depth 30
  Steady-dispatch (Request.remove pool force) = search requests depth 30
  Steady-dispatch (Request.upgrade pool image) = search requests depth 30
  Steady-dispatch (Request.apply text revision) = Steady-handle_apply text revision
  Steady-dispatch (Request.auth profile credential app) = search requests depth 30
  Steady-dispatch (Request.logs pool id) = search requests depth 30
  Steady-dispatch Request.doctor = search requests depth 30

  Steady-handle_inner : (request : Request) → Steady names (handle_inner env request)
  unfolding handle_inner
  Steady-handle_inner request = search (requests, Steady-dispatch) depth 20

  reload_row : (e : Engine) → (reload env e).1.row ≡ e.row
  unfolding reload store_load send_snapshot ◌>>=◌
  reload_row e = ground arith

  reload_state :
      (e : Engine) → ((reload env e).1.state ≡ e.state) ⊎ (e.row ≡ some (reload env e).1.state)
  unfolding reload store_load send_snapshot ◌>>=◌
  reload_state e = ground arith

  Steady-reload : Steady names (reload env)
  Steady-reload = record {
    run = λ e n. record {
      state = elim (reload_state e) [
        | inl same ↦ subst (Has names) (sym same) n.state
        | inr stored ↦ n.row _ stored
      ];
      row = λ s h. n.row s (sym (reload_row e) ∙ h);
    };
  }

  Steady-bump : (changes : Bool) → Steady names (update (bump_epoch env changes))
  unfolding ◌>>=◌
  Steady-bump true = record { run = λ e n. record { state = n.state; row = n.row } }
  Steady-bump false = record { run = λ e n. n }

  Steady-finish : (changes : Bool) (r : Answer Reply) → Steady names (finish env changes r)
  unfolding finish
  Steady-finish changes (done reply) = search (steady, Steady-bump) depth 20
  Steady-finish changes (failed error) = search (steady, Steady-bump, Steady-reload) depth 20
  Steady-finish changes panicked = record { run = λ e n. n }

  -- A request, whatever comes of it.
  pub Steady-handle_local : (request : Request) → Steady names (handle_local env request)
  unfolding handle_local
  Steady-handle_local request = record {
    run = λ e n.
        let (r, e') = handle_inner env request e in
        (Steady-finish (mutating request) r).run e' ((Steady-handle_inner request).run e n);
  }
