-- ===== src/Engine/Reconcile/Steps.antt =====
-- One round of the loop of `reconcile` in src/manager.rs: what happens to one run of the pool.
use runnerctl.Common.{
  ℕ, String, Bool, true, false, not, ◌&&◌, ◌||◌, Option, none, some, List, find, str_eq,
  if◌then◌else◌,
}
use runnerctl.Result.{Error, Result, ok, err}
use runnerctl.BTreeMap.{remove}
use runnerctl.State.{Run}
use runnerctl.Engine.{
  docker_create, docker_start, docker_repair, docker_remove, github_remove, write_token,
  remove_token, make_directory, remove_directory, Env, Exec, pure, raise, gets, update_state, ◌>>=◌,
  ◌>>◌, next_io, modify_pool,
}
use runnerctl.Engine.Store.{save}
use runnerctl.Engine.Retry.{unexpected_exit}
use runnerctl.Engine.Reconcile.{
  Container, RemoteRunner, Outside, owned, some_eq, attempt, leave, index_run, insert_run, external,
}
use runnerctl.Engine.Reconcile.Exits.{
  observed_phase, note_exit, stopped_by_reboot, on_disk, archive,
}

-- What the loop carries: the first error of a cleanup, and the count of the report.
pub record Progress : Type 0 where
  pub cleanup_error : Option Error
  pub unexpected_exits : ℕ

-- `cleanup_error.get_or_insert(error)`
abbrev pub note_error : Error → Progress → Progress
note_error error p = elim p.cleanup_error [
  | none ↦ record p { cleanup_error = some error }
  | some first ↦ p
]

abbrev pub container_status : Option Container → Option String
container_status none = none
container_status (some c) = c.status

-- `running`, `restarting` or `paused`
abbrev pub is_live : Option String → Bool
is_live status = some_eq status "running" || some_eq status "restarting" || some_eq status "paused"

abbrev pub is_missing : Option Container → Bool
is_missing none = true
is_missing (some _) = false

-- `if let Some(remote) = remote { run.remote_id = Some(remote.id) }`
abbrev pub with_remote : Option RemoteRunner → Run → Run
with_remote none run = run
with_remote (some remote) run = record run { remote_id = some remote.id }

abbrev pub remove_bootstrap : Option RemoteRunner → String → Exec (Unit {0})
remove_bootstrap none id = pure tt
remove_bootstrap (some _) id = leave (remove_token id)

-- A run whose container lives is observed.
unfoldable pub observe : Option RemoteRunner → Run → Progress → Exec Progress
observe remote run p = do
  remove_bootstrap remote run.id
  insert_run (record run { phase = observed_phase remote })
  pure p

module _ (env : Env) (o : Outside) where
  -- The end of a start: the run is saved as starting.
  unfoldable pub started : Run → Progress → Exec Progress
  started run p = do
    external env o (leave (docker_start run.id)) o.command
    insert_run (record run { phase = "starting" })
    save env
    pure p

  -- A created container is started with a fresh token.
  unfoldable pub restart : Run → Progress → Exec Progress
  restart run p = do
    external env o (pure tt) o.token
    on_disk env o (write_token run.id)
    started run p

  -- A run that was saved before its container was created.
  unfoldable pub create : Run → Progress → Exec Progress
  create run p = do
    external env o (pure tt) o.command
    on_disk env o (make_directory run.id)
    external env o (pure tt) o.token
    on_disk env o (write_token run.id)
    external env o (leave (docker_create run.id)) o.command
    started run p

  abbrev pub when_allowed : Bool → Run → Exec Progress → Progress → Exec Progress
  when_allowed allow run m p = if allow then m else insert_run run >> pure p

  -- The registration, looked up afresh, is removed.
  abbrev pub deregister : Option RemoteRunner → Exec (Unit {0})
  deregister none = pure tt
  deregister (some remote) = external env o (leave (github_remove remote.id)) o.command

  -- `fs::remove_dir_all`, with the repair of the permissions for pools with the Docker socket
  unfoldable pub repaired : Run → Result (Unit {0}) → Exec (Unit {0})
  repaired run (ok _) = pure tt
  repaired run (err error) =
      if run.pool.docker_socket
      then external env o (leave (docker_repair run.id)) o.command
        >> on_disk env o (remove_directory run.id)
      else raise error

  unfoldable pub remove_files : Run → Exec (Unit {0})
  remove_files run = do
    n ← next_io
    if o.exists n
        then attempt (on_disk env o (remove_directory run.id)) >>= repaired run
        else pure tt

  -- What follows the container's end, up to the removal of the run.
  unfoldable pub cleanup : Run → Exec (Unit {0})
  cleanup run = do
    fresh ← external env o (pure tt) o.remotes
    deregister (find (λ r. str_eq r.name run.id) fresh)
    remove_files run

  abbrev pub reset_failures : Bool → String → Exec (Unit {0})
  reset_failures completed name =
      if completed then modify_pool name (λ p. record p { failures = 0 }) >> pure tt else pure tt

  -- The run is gone: it leaves the map.
  unfoldable pub forget : String → Run → Bool → Progress → Exec Progress
  forget name run interrupted p = do
    reset_failures run.completed_job name
    update_state (λ s. record s { runs = remove run.id s.runs })
    save env
    pure (record p { unexpected_exits = note_exit run interrupted p.unexpected_exits })

  -- The result of the parts whose error ends the round, not the loop.
  abbrev pub or_note : Progress → Result Run → (Run → Exec Progress) → Exec Progress
  or_note p (ok run) k = k run
  or_note p (err error) k = pure (note_error error p)

  unfoldable pub clean_and_forget : String → Run → Bool → Progress → Exec Progress
  clean_and_forget name run interrupted p = do
    result ← attempt (cleanup run >> pure run)
    or_note p result (λ run. forget name run interrupted p)

  -- The container stopped: it is archived and removed.
  unfoldable pub retire_container : Run → Container → Exec Run
  retire_container run c = do
    saved ← archive env o run c
    external env o (leave (docker_remove run.id false)) o.command
    pure saved

  unfoldable pub stopped : String → Run → Container → Progress → Exec Progress
  stopped name run c p = do
    n ← next_io
    let completed = record run { completed_job = o.exists n }
    interrupted ←
        if unexpected_exit completed then stopped_by_reboot env o c run.pool.image else pure false
    let leaving = record completed { phase = "cleanup" }
    insert_run leaving
    save env
    result ← attempt (retire_container leaving c)
    or_note p result (λ run. clean_and_forget name run interrupted p)

  unfoldable pub ended : String → Option Container → Run → Progress → Exec Progress
  ended name none run p = clean_and_forget name run false p
  ended name (some c) run p = stopped name run c p

  -- What is done with a run, by its registration and its container.
  abbrev pub act :
      String → Option RemoteRunner → Option Container → Bool → Progress → Run → Exec Progress
  act name remote container allow_replenish p run =
      let status = container_status container in
      if is_live status
      then observe remote run p
      else if some_eq status "created" && not run.retiring
      then when_allowed allow_replenish run (restart run p) p
      else if is_missing container && str_eq run.phase "creating" && not run.retiring
      then when_allowed allow_replenish run (create run p) p
      else ended name container run p

  unfoldable pub round :
      String → List RemoteRunner → List Container → Bool → Progress → String → Exec Progress
  round name remotes containers allow_replenish p id = do
    stored ← index_run id
    manager ← gets (λ e. e.state.manager_id)
    let remote = find (λ r. str_eq r.name id) remotes
    let run = with_remote remote stored
    let container = find (λ c. owned c manager run) containers
    act name remote container allow_replenish p run
