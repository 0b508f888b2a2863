-- ===== src/Engine/Handle/Laws.antt =====
-- What `handle_local` of src/manager.rs does with a hand-edited config.toml, and with the epoch.
use runnerctl.Common.{
  ℕ, ◌+◌, String, ◌≡◌, refl, ap, true, false, Option, none, some, List, arith, str_eq,
}
use runnerctl.Result.{message, Error}
use Prim.Native.String
use runnerctl.BTreeMap.{contains_key}
use runnerctl.State.{State}
use runnerctl.Protocol.{Request, changes_config, mutating}
use runnerctl.Engine.{Effect, Env, Engine, done, failed, ◌>>=◌}
use runnerctl.Engine.Store.{store_load, read_config, send_snapshot, clean_file}
use runnerctl.Engine.Status.{handle_status}
use runnerctl.Engine.Handle.{dispatch, handle_inner, reload, finish, handle_local}
use runnerctl.Engine.Sound.{IsSound}

-- What requests leave alone: the two epochs, and everything outside.
abbrev pub clock : Engine → ℕ × Option ℕ × List Effect
clock e = (e.epoch, e.reconcile_epoch, e.effects)

module _ (env : Env) where
  clean_file_refuses :
      (text : String) (e : Engine)
      → env.read_fails e.io ≡ false
      → e.file ≡ some text
      → str_eq (env.hash text) e.state.file_hash ≡ false
      → clean_file env e ≡ (
        failed (message "config.toml has unapplied changes; run config apply first"),
        record e { io = e.io + 1 },
      )
  unfolding clean_file read_config ◌>>=◌
  clean_file_refuses text e reads here edited = ground arith

  handle_inner_edited :
      (request : Request) (e : Engine) (error : Error) (e' : Engine)
      → changes_config request ≡ true
      → clean_file env e ≡ (failed error, e')
      → handle_inner env request e ≡ (failed error, e')
  unfolding handle_inner ◌>>=◌
  handle_inner_edited request e error e' changes refused = rw (changes, refused) refl

  -- The manager after the state was read back from the row.
  pub reload_of_row :
      (s : State) (e : Engine)
      → env.load_fails e.io ≡ false
      → e.row ≡ some s
      → (e' : Engine) × (reload env e ≡ (done tt, e'))
        × (e'.state ≡ s)
        × (e'.row ≡ e.row)
        × (e'.file ≡ e.file)
        × (clock e' ≡ clock e)
  unfolding reload store_load send_snapshot ◌>>=◌
  reload_of_row s e loads stored = by_readers e.snapshot refl
    where
      by_readers :
          (o : Option State)
          → e.snapshot ≡ o
          → (e' : Engine) × (reload env e ≡ (done tt, e'))
            × (e'.state ≡ s)
            × (e'.row ≡ e.row)
            × (e'.file ≡ e.file)
            × (clock e' ≡ clock e)
      by_readers none shown = (
        record e { io = e.io + 1; state = s },
        ground (arith, loads, stored, shown),
        refl,
        refl,
        refl,
        refl,
      )
      by_readers (some t) shown = (
        record e { io = e.io + 1; state = s; snapshot = some s },
        ground (arith, loads, stored, shown),
        refl,
        refl,
        refl,
        refl,
      )

  -- In a sound state, when config.toml was edited by hand and can be read, and the row can be read,
  -- each request that changes the configuration is refused with the advice to apply first, and the
  -- file, the row and the state stay as they are.
  pub handle_local_keeps_manual_edit :
      (request : Request) (text : String) (e : Engine)
      → IsSound e
      → changes_config request ≡ true
      → env.read_fails e.io ≡ false
      → env.load_fails (e.io + 1) ≡ false
      → e.file ≡ some text
      → str_eq (env.hash text) e.state.file_hash ≡ false
      → ((handle_local env request e).0
          ≡ failed (message "config.toml has unapplied changes; run config apply first"))
        × ((handle_local env request e).1.file ≡ some text)
        × ((handle_local env request e).1.row ≡ e.row)
        × ((handle_local env request e).1.state ≡ e.state)
  unfolding handle_local finish ◌>>=◌
  handle_local_keeps_manual_edit request text e w changes reads loads here edited =
      let refused =
        handle_inner_edited request e _ _ changes (clean_file_refuses text e reads here edited) in
      let (e', reloads, state, row, file, epoch) =
        reload_of_row e.state (record e { io = e.io + 1 }) loads w.stored in
      rw (refused, reloads) (ground (arith, here, state, row, file))

  -- A status of an unknown pool fails, and with it the state in memory is replaced by the one in the
  -- row, when the row can be read; the epoch stays, so a reconciliation in flight is not told.
  pub handle_local_failed_status :
      (name : String) (s : State) (e : Engine)
      → contains_key name e.state.pools ≡ false
      → e.row ≡ some s
      → env.load_fails e.io ≡ false
      → ((handle_local env (Request.status (some name)) e).0
          ≡ failed (message (String.◌++◌ "unknown pool: " name)))
        × ((handle_local env (Request.status (some name)) e).1.state ≡ s)
        × ((handle_local env (Request.status (some name)) e).1.epoch ≡ e.epoch)
  unfolding handle_local handle_inner dispatch changes_config mutating finish handle_status ◌>>=◌
  handle_local_failed_status name s e unknown stored loads =
      let (e', reloads, state, row, file, same) = reload_of_row s e loads stored in
      rw (unknown, reloads) (refl, state, ap (λ c. c.0) same)
