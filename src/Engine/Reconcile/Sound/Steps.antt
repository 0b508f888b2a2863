-- ===== src/Engine/Reconcile/Sound/Steps.antt =====
-- A round of the loop of `reconcile` in src/manager.rs keeps the state well formed.
use runnerctl.Common.{ℕ, String, ◌≡◌, refl, Bool, false, Option, none, some, List}
use runnerctl.Result.{Result, ok, err, message, reconcile_interrupted}
use runnerctl.State.{RetryScope, Run}
use runnerctl.Engine.{Effect, Env, Exec, ◌>>=◌}
use runnerctl.Engine.Reconcile.{Container, RemoteRunner, Outside}
use runnerctl.Engine.Reconcile.Exits.{
  keep_boot_time, stopped_by_reboot, on_disk, archive_new, archive, back_off, record_failure,
}
use runnerctl.Engine.Reconcile.Steps.{
  Progress, observe, remove_bootstrap, started, restart, create, deregister, repaired, remove_files,
  cleanup, forget, clean_and_forget, retire_container, stopped, ended, round, or_note,
}
use runnerctl.Engine.Reconcile.Sound.{Keeps, Keeps-pure, Keeps-raise, Keeps-leave}
use runnerctl.Engine.Reconcile.Sound.Actions.{keeping}

module _ (env : Env) (loads : (n : ℕ) → env.load_fails n ≡ false) (o : Outside) where
  on_disk-Keeps : (effect : Effect) → Keeps (on_disk env o effect)
  unfolding on_disk
  on_disk-Keeps effect = search (keeping)

  archive_new-Keeps : (run : Run) (c : Container) → Keeps (archive_new env o run c)
  unfolding archive_new
  archive_new-Keeps run c = search (keeping, loads, on_disk-Keeps) depth 24

  pub archive-Keeps : (run : Run) (c : Container) → Keeps (archive env o run c)
  unfolding archive
  archive-Keeps run c = search (keeping, archive_new-Keeps) depth 24

  pub keep_boot_time-Keeps : (r : Result ℕ) → Keeps (keep_boot_time r)
  unfolding keep_boot_time ◌>>=◌
  keep_boot_time-Keeps (ok boot_time) = record {
    run = λ e w. record { working = w; reconciles = refl };
  }
  keep_boot_time-Keeps (err reconcile_interrupted) = Keeps-raise _
  keep_boot_time-Keeps (err (message _)) = Keeps-pure tt

  stopped_by_reboot-Keeps :
      (c : Container) (image : String) → Keeps (stopped_by_reboot env o c image)
  unfolding stopped_by_reboot
  stopped_by_reboot-Keeps c image = search (keeping, loads, keep_boot_time-Keeps) depth 24

  back_off-Keeps :
      (name error : String) (scope : RetryScope) (at : ℕ)
      → Keeps (back_off env o name error scope at)
  unfolding back_off
  back_off-Keeps name error scope at = search (keeping) depth 24

  pub record_failure-Keeps :
      (name error : String) (scope : RetryScope) → Keeps (record_failure env o name error scope)
  unfolding record_failure
  record_failure-Keeps name error scope = search (keeping, back_off-Keeps) depth 24

  remove_bootstrap-Keeps :
      (remote : Option RemoteRunner) (id : String) → Keeps (remove_bootstrap remote id)
  remove_bootstrap-Keeps none id = Keeps-pure tt
  remove_bootstrap-Keeps (some r) id = Keeps-leave _

  observe-Keeps :
      (remote : Option RemoteRunner) (run : Run) (p : Progress) → Keeps (observe remote run p)
  unfolding observe
  observe-Keeps remote run p = search (keeping, remove_bootstrap-Keeps) depth 24

  started-Keeps : (run : Run) (p : Progress) → Keeps (started env o run p)
  unfolding started
  started-Keeps run p = search (keeping, loads) depth 24

  restart-Keeps : (run : Run) (p : Progress) → Keeps (restart env o run p)
  unfolding restart
  restart-Keeps run p = search (keeping, loads, on_disk-Keeps, started-Keeps) depth 24

  create-Keeps : (run : Run) (p : Progress) → Keeps (create env o run p)
  unfolding create
  create-Keeps run p = search (keeping, loads, on_disk-Keeps, started-Keeps) depth 24

  deregister-Keeps : (remote : Option RemoteRunner) → Keeps (deregister env o remote)
  deregister-Keeps none = Keeps-pure tt
  deregister-Keeps (some r) = search (keeping, loads) depth 24

  repaired-Keeps : (run : Run) (r : Result (Unit {0})) → Keeps (repaired env o run r)
  unfolding repaired
  repaired-Keeps run (ok tt) = Keeps-pure tt
  repaired-Keeps run (err error) = search (keeping, loads, on_disk-Keeps) depth 24

  remove_files-Keeps : (run : Run) → Keeps (remove_files env o run)
  unfolding remove_files
  remove_files-Keeps run = search (keeping, on_disk-Keeps, repaired-Keeps) depth 24

  cleanup-Keeps : (run : Run) → Keeps (cleanup env o run)
  unfolding cleanup
  cleanup-Keeps run = search (keeping, loads, deregister-Keeps, remove_files-Keeps) depth 24

  pub forget-Keeps :
      (name : String) (run : Run) (interrupted : Bool) (p : Progress)
      → Keeps (forget env o name run interrupted p)
  unfolding forget
  forget-Keeps name run interrupted p = search (keeping) depth 24

  pub or_note-Keeps :
      (p : Progress) (r : Result Run) (k : Run → Exec Progress)
      → ((run : Run) → Keeps (k run))
      → Keeps (or_note env o p r k)
  or_note-Keeps p (ok run) k h = h run
  or_note-Keeps p (err error) k h = Keeps-pure _

  pub clean_and_forget-Keeps :
      (name : String) (run : Run) (interrupted : Bool) (p : Progress)
      → Keeps (clean_and_forget env o name run interrupted p)
  unfolding clean_and_forget
  clean_and_forget-Keeps name run interrupted p =
      search (keeping, cleanup-Keeps, or_note-Keeps, forget-Keeps) depth 24

  pub retire_container-Keeps : (run : Run) (c : Container) → Keeps (retire_container env o run c)
  unfolding retire_container
  retire_container-Keeps run c = search (keeping, loads, archive-Keeps) depth 24

  stopped-Keeps :
      (name : String) (run : Run) (c : Container) (p : Progress)
      → Keeps (stopped env o name run c p)
  unfolding stopped
  stopped-Keeps name run c p =
      search
        (
          keeping, stopped_by_reboot-Keeps, retire_container-Keeps, or_note-Keeps,
          clean_and_forget-Keeps,
        )
        depth 24

  ended-Keeps :
      (name : String) (c : Option Container) (run : Run) (p : Progress)
      → Keeps (ended env o name c run p)
  unfolding ended
  ended-Keeps name none run p = clean_and_forget-Keeps name run false p
  ended-Keeps name (some c) run p = stopped-Keeps name run c p

  -- A round, whatever becomes of the run.
  pub round-Keeps :
      (name : String) (remotes : List RemoteRunner) (containers : List Container) (allow : Bool)
      (p : Progress) (id : String)
      → Keeps (round env o name remotes containers allow p id)
  unfolding round
  round-Keeps name remotes containers allow p id =
      search (keeping, observe-Keeps, restart-Keeps, create-Keeps, ended-Keeps) depth 24
