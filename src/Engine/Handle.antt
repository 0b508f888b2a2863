-- ===== src/Engine/Handle.antt =====
-- `handle_inner` and `handle_local` of src/manager.rs: the dispatch of a request, and the return to
-- the stored state after a failed one.
pub mod Laws
pub mod Keeps
pub mod Epoch
pub mod Names
use runnerctl.Common.{ℕ, ◌+◌, ◌%◌, String, Bool, true, false, Option, none, some, if◌then◌else◌}
use runnerctl.Result.{Error, Result, ok, err, message}
use runnerctl.Config.Memory.{u64_mod}
use runnerctl.Protocol.{Request, Reply, changes_config, mutating}
use runnerctl.Engine.{
  Env, Engine, Exec, Answer, done, failed, panicked, pure, lift, raise, update, ◌>>=◌, ◌>>◌,
  context,
}
use runnerctl.Engine.Store.{store_load, clean_file, send_snapshot}
use runnerctl.Engine.Pools.{
  handle_add, handle_start, handle_stop, handle_scale, handle_upgrade, handle_remove, handle_auth,
}
use runnerctl.Engine.Status.{handle_status}
use runnerctl.Engine.Apply.{handle_apply}

module _ (env : Env) where
  -- The arms of the `match`.
  unfoldable pub dispatch : Request → Exec Reply
  dispatch (Request.status pool) = handle_status pool
  dispatch (Request.add pool) = handle_add env pool
  dispatch (Request.start pool all) = handle_start env pool all
  dispatch (Request.stop pool all force) = handle_stop env pool all force
  dispatch (Request.scale pool replicas) = handle_scale env pool replicas
  dispatch (Request.remove pool force) = handle_remove env pool force
  dispatch (Request.upgrade pool image) = handle_upgrade env pool image
  dispatch (Request.apply text revision) = handle_apply env text revision
  dispatch (Request.auth profile credential app) = handle_auth env profile credential app
  dispatch (Request.logs _ _) = raise (message "external request must use the query handler")
  dispatch Request.doctor = raise (message "external request must use the query handler")

  unfoldable pub handle_inner : Request → Exec Reply
  handle_inner request = do
    if changes_config request then clean_file env else pure tt
    dispatch request

  -- `self.state = self.store.load()?.context("state disappeared")?`, and the readers are told
  unfoldable pub reload : Exec (Unit {0})
  reload = do
    stored ← store_load env
    state ← context stored "state disappeared"
    update (λ e. record e { state = state })
    send_snapshot

  abbrev pub bump_epoch : Bool → Engine → Engine
  bump_epoch changes e = if changes then record e { epoch = (e.epoch + 1) % u64_mod } else e

  -- What follows the result of `handle_inner`. A panic ends the task at once.
  unfoldable pub finish : Bool → Answer Reply → Exec Reply
  finish changes (done reply) e = (do update (bump_epoch changes); pure reply) e
  finish changes panicked e = (panicked, e)
  finish changes (failed error) e = (do reload; update (bump_epoch changes); raise error) e

  unfoldable pub handle_local : Request → Exec Reply
  handle_local request e = let (r, e') = handle_inner request e in finish (mutating request) r e'
