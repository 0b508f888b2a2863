-- ===== src/Engine/Handle/Epoch.antt =====
-- The epoch of the engine of src/manager.rs, by which a reconciliation sees that the state was
-- changed under it: the requests' own work leaves it alone, and `handle_local` steps it.
use runnerctl.Common.{
  ℕ, ◌+◌, ◌%◌, String, ◌≡◌, refl, ◌∙◌, ap, Bool, true, false, Option, none, some, List, [], ◌∷◌,
  if◌then◌else◌,
}
use runnerctl.BTreeMap.{BTreeMap}
use runnerctl.Config.{Pool, Config}
use runnerctl.Config.Memory.{u64_mod}
use runnerctl.State.{PoolState, State}
use runnerctl.Protocol.{Request, Reply, mutating}
use runnerctl.Engine.{
  Effect, Env, WriteOutcome, failed_before, failed_after, written, Engine, Answer, done, failed,
  panicked, ◌>>=◌,
}
use runnerctl.Engine.Store.{
  store_save, read_config, after_write, write_config, save, clean_file, commit_config,
}
use runnerctl.Engine.Pools.{
  targets, none_deleting, start_pools, stop_pools, pending, handle_add, handle_start, handle_stop,
  handle_scale, handle_upgrade, handle_remove, handle_auth,
}
use runnerctl.Engine.Status.{pool_statuses, handle_status}
use runnerctl.Engine.Apply.{
  apply_old, apply_new, apply_at, apply_pool, apply_pools, mark_all, handle_apply,
}
use runnerctl.Engine.Handle.{dispatch, handle_inner, bump_epoch, finish, handle_local}
use runnerctl.Engine.Handle.Laws.{clock, reload_of_row}
use runnerctl.Engine.Sound.{IsWorking, Outcome}
use runnerctl.Engine.Sound.Theorem.{handle_inner-IsWorking}
use runnerctl.Engine.Handle.Keeps.{
  Keeps, keeps, Keeps-bind, Keeps-index_pool, Keeps-mark, Keeps-modify_pool,
}

Keeps-none_deleting : (names : List String) → Keeps (none_deleting names)
unfolding none_deleting
Keeps-none_deleting [] = search keeps depth 20
Keeps-none_deleting (name ∷ rest) =
    Keeps-bind _ _ (Keeps-index_pool name) λ p.
      let others : Keeps (none_deleting rest) = Keeps-none_deleting rest in search keeps depth 20

Keeps-start_pools : (names : List String) → Keeps (start_pools names)
unfolding start_pools
Keeps-start_pools [] = search keeps depth 20
Keeps-start_pools (name ∷ rest) =
    Keeps-bind _ _ (Keeps-modify_pool name _) λ _. Keeps-start_pools rest

Keeps-stop_pools : (force : Bool) (names : List String) → Keeps (stop_pools force names)
unfolding stop_pools
Keeps-stop_pools force [] = search keeps depth 20
Keeps-stop_pools force (name ∷ rest) = Keeps-bind _ _ (Keeps-modify_pool name _) λ p.
    let others : Keeps (stop_pools force rest) = Keeps-stop_pools force rest in
    search keeps depth 20

Keeps-pending : (names : List String) → Keeps (pending names)
unfolding pending
Keeps-pending [] = search keeps depth 20
Keeps-pending (name ∷ rest) =
    Keeps-bind _ _ (Keeps-index_pool name)
      λ p. let others : Keeps (pending rest) = Keeps-pending rest in search keeps depth 20

Keeps-pool_statuses : (pools : List Pool) → Keeps (pool_statuses pools)
unfolding pool_statuses
Keeps-pool_statuses [] = search keeps depth 20
Keeps-pool_statuses (p ∷ rest) = Keeps-bind _ _ (Keeps-index_pool p.name) λ ps.
    let others : Keeps (pool_statuses rest) = Keeps-pool_statuses rest in search keeps depth 20

Keeps-targets : (pool : Option String) (all : Bool) → Keeps (targets pool all)
unfolding targets
Keeps-targets none all = search keeps depth 20
Keeps-targets (some name) all = search keeps depth 20

Keeps-mark_all : (env : Env) (names : List String) → Keeps (mark_all env names)
unfolding mark_all
Keeps-mark_all env [] = search keeps depth 20
Keeps-mark_all env (name ∷ rest) = Keeps-bind _ _ (Keeps-mark name) λ _. Keeps-mark_all env rest

module _ (env : Env) where
  Keeps-after_write : (n : ℕ) (text : String) (o : WriteOutcome) → Keeps (after_write env n text o)
  unfolding after_write
  Keeps-after_write n text failed_before = search keeps depth 20
  Keeps-after_write n text failed_after = search keeps depth 20
  Keeps-after_write n text written = search keeps depth 20

  Keeps-store_save : (s : State) → Keeps (store_save env s)
  unfolding store_save
  Keeps-store_save s = search keeps depth 20

  Keeps-read_config : Keeps (read_config env)
  unfolding read_config
  Keeps-read_config = search keeps depth 20

  pub Keeps-clean_file : Keeps (clean_file env)
  unfolding clean_file
  Keeps-clean_file = search (keeps, Keeps-read_config) depth 20

  pub Keeps-save : Keeps (save env)
  unfolding save
  Keeps-save = search (keeps, Keeps-store_save) depth 20

  Keeps-write_config : (text : String) → Keeps (write_config env text)
  unfolding write_config
  Keeps-write_config text = search (keeps, Keeps-after_write) depth 20

  pub Keeps-commit_config : (next : Config) → Keeps (commit_config env next)
  unfolding commit_config
  Keeps-commit_config next = search (keeps, Keeps-store_save, Keeps-write_config) depth 20

  Keeps-apply_at :
      (new : Pool) (old : Option Pool) (ps : Option PoolState) (m : BTreeMap PoolState)
      → Keeps (apply_at env new old ps m)
  unfolding apply_at apply_old apply_new
  Keeps-apply_at new none ps m = search keeps depth 20
  Keeps-apply_at new (some old) none m = search keeps depth 20
  Keeps-apply_at new (some old) (some ps) m = search keeps depth 20

  Keeps-apply_pools : (pools : List Pool) (m : BTreeMap PoolState) → Keeps (apply_pools env pools m)
  unfolding apply_pools apply_pool
  Keeps-apply_pools [] m = search keeps depth 20
  Keeps-apply_pools (new ∷ rest) m =
      Keeps-bind _ _ (search (keeps, Keeps-apply_at) depth 20) λ m'. Keeps-apply_pools rest m'

  ruleset request_keeps = (
    keeps, Keeps-modify_pool, Keeps-none_deleting, Keeps-start_pools, Keeps-stop_pools,
    Keeps-pending, Keeps-pool_statuses, Keeps-targets, Keeps-mark_all, Keeps-read_config,
    Keeps-clean_file, Keeps-save, Keeps-commit_config, Keeps-apply_pools,
  )

  Keeps-dispatch : (request : Request) → Keeps (dispatch env request)
  unfolding dispatch handle_status handle_add handle_start handle_stop handle_scale handle_upgrade
      handle_remove handle_auth handle_apply
  Keeps-dispatch (Request.status pool) = search request_keeps depth 30
  Keeps-dispatch (Request.add pool) = search request_keeps depth 30
  Keeps-dispatch (Request.start pool all) = search request_keeps depth 30
  Keeps-dispatch (Request.stop pool all force) = search request_keeps depth 30
  Keeps-dispatch (Request.scale pool replicas) = search request_keeps depth 30
  Keeps-dispatch (Request.remove pool force) = search request_keeps depth 30
  Keeps-dispatch (Request.upgrade pool image) = search request_keeps depth 30
  Keeps-dispatch (Request.apply text revision) = search request_keeps depth 30
  Keeps-dispatch (Request.auth profile credential app) = search request_keeps depth 30
  Keeps-dispatch (Request.logs pool id) = search request_keeps depth 30
  Keeps-dispatch Request.doctor = search request_keeps depth 30

  pub Keeps-handle_inner : (request : Request) → Keeps (handle_inner env request)
  unfolding handle_inner
  Keeps-handle_inner request = search (request_keeps, Keeps-dispatch) depth 20

  abbrev stepped : Bool → ℕ × Option ℕ × List Effect → ℕ × Option ℕ × List Effect
  stepped changes c = if changes then ((c.0 + 1) % u64_mod, c.1, c.2) else c

  finish_epoch :
      (changes : Bool) (r : Answer Reply) (e : Engine)
      → ((n : ℕ) → env.load_fails n ≡ false)
      → Outcome (λ _. IsWorking) (r, e)
      → clock (finish env changes r e).1 ≡ stepped changes (clock e)
  unfolding finish ◌>>=◌
  finish_epoch true (done reply) e loads w = refl
  finish_epoch false (done reply) e loads w = refl
  finish_epoch changes (failed error) e loads h =
      let (e', reloads, state, row, file, epoch) = reload_of_row env h.0 e (loads e.io) h.1 in
      rw reloads (by_change changes e' epoch)
    where
      by_change :
          (b : Bool) (e' : Engine)
          → clock e' ≡ clock e
          → clock (bump_epoch env b e') ≡ stepped b (clock e)
      by_change true e' same =
          ap (λ (c : ℕ × Option ℕ × List Effect). ((c.0 + 1) % u64_mod, c.1, c.2)) same
      by_change false e' same = same
  finish_epoch changes panicked e loads h = absurd h

  -- When the row can be read, and the state in memory and the one in the row are well formed, a request
  -- steps the epoch by one, with wrap-around, if it is anything but a status, whether it succeeds or
  -- fails, and a status leaves it; and no request touches the epoch of the reconciliation in flight,
  -- or asks anything of Docker, GitHub or the runs' directories.
  pub handle_local_epoch :
      (request : Request) (e : Engine)
      → ((n : ℕ) → env.load_fails n ≡ false)
      → IsWorking e
      → ((handle_local env request e).1.epoch
          ≡ (if mutating request then (e.epoch + 1) % u64_mod else e.epoch))
        × ((handle_local env request e).1.reconcile_epoch ≡ e.reconcile_epoch)
        × ((handle_local env request e).1.effects ≡ e.effects)
  unfolding handle_local
  handle_local_epoch request e loads w =
      let (r, e') = handle_inner env request e in
      let whole : clock (handle_local env request e).1 ≡ stepped (mutating request) (clock e) =
        finish_epoch (mutating request) r e' loads (handle_inner-IsWorking env request e w)
        ∙ ap (stepped (mutating request)) ((Keeps-handle_inner request).run e) in
      parts (mutating request) (handle_local env request e).1 whole
    where
      parts :
          (b : Bool) (f : Engine)
          → clock f ≡ stepped b (clock e)
          → (f.epoch ≡ (if b then (e.epoch + 1) % u64_mod else e.epoch))
            × (f.reconcile_epoch ≡ e.reconcile_epoch)
            × (f.effects ≡ e.effects)
      parts true f h = (ap (λ c. c.0) h, ap (λ c. c.1) h, ap (λ c. c.2) h)
      parts false f h = (ap (λ c. c.0) h, ap (λ c. c.1) h, ap (λ c. c.2) h)
