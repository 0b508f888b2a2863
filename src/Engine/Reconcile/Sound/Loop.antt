-- ===== src/Engine/Reconcile/Sound/Loop.antt =====
-- The loop of `reconcile` in src/manager.rs over the runs of a pool.
use runnerctl.Common.{ℕ, String, ◌≡◌, Bool, false, Option, none, some, List, [], ◌∷◌, arith}
use runnerctl.Result.{Result, ok, err}
use runnerctl.State.{Run}
use runnerctl.Engine.{Effect, Env, pure, gets, ◌>>=◌, ◌>>◌}
use runnerctl.Engine.Reconcile.{Container, RemoteRunner, Outside, attempt, leave}
use runnerctl.Engine.Reconcile.Exits.{stopped_by_reboot, on_disk, archive_new, archive}
use runnerctl.Engine.Reconcile.Steps.{
  Progress, observe, remove_bootstrap, started, restart, create, deregister, repaired, remove_files,
  cleanup, forget, clean_and_forget, retire_container, stopped, ended, round,
}
use runnerctl.Engine.Reconcile.Pass.{rounds}
use runnerctl.Engine.Reconcile.Sound.{Keeps, Keeps-attempt, Keeps-bind, Keeps-pure}
use runnerctl.Engine.Reconcile.Sound.Steps.{keep_boot_time-Keeps, round-Keeps}
use runnerctl.Engine.Reconcile.Sound.Uncrossed.{
  Plain, plain, Plain-pure, Plain-leave, Plain-same, Plain-bind, Plain-if, Plain-gets,
}
use runnerctl.Engine.Reconcile.Sound.Calls.{ask-Plain, act-Plain, boot_time-Plain}
use runnerctl.Engine.Reconcile.Sound.Rounds.{
  has_error, Noted, Noted-pure, Noted-if, Noted-bind, Noted-then, Noted-attempt,
}

ruleset noted = (Noted-bind, Noted-pure, Noted-if)

module _ (env : Env) (loads : (n : ℕ) → env.load_fails n ≡ false) (o : Outside) where
  on_disk-Plain : (effect : Effect) → Plain (on_disk env o effect)
  unfolding on_disk
  on_disk-Plain effect = search (plain) depth 24

  archive_new-Plain : (run : Run) (c : Container) → Plain (archive_new env o run c)
  unfolding archive_new
  archive_new-Plain run c =
      search (plain, ask-Plain env loads o, act-Plain env loads o, on_disk-Plain) depth 24

  pub archive-Plain : (run : Run) (c : Container) → Plain (archive env o run c)
  unfolding archive
  archive-Plain run c = search (plain, archive_new-Plain) depth 24

  stopped_by_reboot-Plain :
      (c : Container) (image : String) → Plain (stopped_by_reboot env o c image)
  unfolding stopped_by_reboot
  stopped_by_reboot-Plain c image = Plain-bind (gets _) _ (Plain-gets _) λ boot_time.
      Plain-bind _ _
        (Plain-if _ _ _ (boot_time-Plain env loads o image (keep_boot_time-Keeps env loads o))
          (Plain-pure tt))
        λ _. Plain-gets _

  remove_bootstrap-Plain :
      (remote : Option RemoteRunner) (id : String) → Plain (remove_bootstrap remote id)
  remove_bootstrap-Plain none id = Plain-pure tt
  remove_bootstrap-Plain (some r) id = Plain-leave _

  deregister-Plain : (remote : Option RemoteRunner) → Plain (deregister env o remote)
  deregister-Plain none = Plain-pure tt
  deregister-Plain (some r) = act-Plain env loads o _ _

  repaired-Plain : (run : Run) (r : Result (Unit {0})) → Plain (repaired env o run r)
  unfolding repaired
  repaired-Plain run (ok tt) = Plain-pure tt
  repaired-Plain run (err error) = search (plain, act-Plain env loads o, on_disk-Plain) depth 24

  attempt-on_disk-Plain : (effect : Effect) → Plain (attempt (on_disk env o effect))
  unfolding attempt on_disk leave ◌>>=◌
  attempt-on_disk-Plain effect =
      Plain-same _ (Keeps-attempt (on_disk env o effect) (on_disk-Plain effect).keeps)
        (λ e. ground arith)

  remove_files-Plain : (run : Run) → Plain (remove_files env o run)
  unfolding remove_files
  remove_files-Plain run = search (plain, attempt-on_disk-Plain, repaired-Plain) depth 24

  cleanup-Plain : (run : Run) → Plain (cleanup env o run)
  unfolding cleanup
  cleanup-Plain run =
      search (plain, ask-Plain env loads o, deregister-Plain, remove_files-Plain) depth 24

  retire_container-Plain : (run : Run) (c : Container) → Plain (retire_container env o run c)
  unfolding retire_container
  retire_container-Plain run c = search (plain, act-Plain env loads o, archive-Plain) depth 24

  observe-Noted :
      (remote : Option RemoteRunner) (run : Run) (p : Progress)
      → Noted (has_error p) (observe remote run p)
  unfolding observe
  observe-Noted remote run p = search (noted, plain, remove_bootstrap-Plain) depth 24

  started-Noted : (run : Run) (p : Progress) → Noted (has_error p) (started env o run p)
  unfolding started
  started-Noted run p = search (noted, plain, act-Plain env loads o) depth 24

  restart-Noted : (run : Run) (p : Progress) → Noted (has_error p) (restart env o run p)
  unfolding restart
  restart-Noted run p =
      search (noted, plain, ask-Plain env loads o, on_disk-Plain, started-Noted) depth 24

  create-Noted : (run : Run) (p : Progress) → Noted (has_error p) (create env o run p)
  unfolding create
  create-Noted run p =
      search
        (noted, plain, ask-Plain env loads o, act-Plain env loads o, on_disk-Plain, started-Noted)
        depth 24

  forget-Noted :
      (name : String) (run : Run) (interrupted : Bool) (p : Progress)
      → Noted (has_error p) (forget env o name run interrupted p)
  unfolding forget
  forget-Noted name run interrupted p = search (noted, plain) depth 24

  clean_and_forget-Noted :
      (name : String) (run : Run) (interrupted : Bool) (p : Progress)
      → Noted (has_error p) (clean_and_forget env o name run interrupted p)
  unfolding clean_and_forget
  clean_and_forget-Noted name run interrupted p =
      Noted-attempt env o p (cleanup env o run >> pure run) _
        (Plain-bind (cleanup env o run) _ (cleanup-Plain run) (λ _. Plain-pure run))
        λ run. forget-Noted name run interrupted p

  stopped-Noted :
      (name : String) (run : Run) (c : Container) (p : Progress)
      → Noted (has_error p) (stopped env o name run c p)
  unfolding stopped
  stopped-Noted name run c p =
      search
        (
          noted,
          plain,
          stopped_by_reboot-Plain,
          Noted-attempt env o,
          retire_container-Plain,
          clean_and_forget-Noted,
        )
        depth 24

  ended-Noted :
      (name : String) (c : Option Container) (run : Run) (p : Progress)
      → Noted (has_error p) (ended env o name c run p)
  unfolding ended
  ended-Noted name none run p = clean_and_forget-Noted name run false p
  ended-Noted name (some c) run p = stopped-Noted name run c p

  round-Noted :
      (name : String) (remotes : List RemoteRunner) (containers : List Container) (allow : Bool)
      (p : Progress) (id : String)
      → Noted (has_error p) (round env o name remotes containers allow p id)
  unfolding round
  round-Noted name remotes containers allow p id =
      search (noted, plain, observe-Noted, restart-Noted, create-Noted, ended-Noted) depth 24

  -- The loop, by induction on the runs that are left.
  pub rounds-Noted :
      (name : String) (remotes : List RemoteRunner) (containers : List Container) (allow : Bool)
      (ids : List String) (p : Progress)
      → Noted (has_error p) (rounds env o name remotes containers allow ids p)
  unfolding rounds
  rounds-Noted name remotes containers allow [] p = Noted-pure (has_error p) p (λ h. h)
  rounds-Noted name remotes containers allow (id ∷ rest) p =
      Noted-then (has_error p) (round env o name remotes containers allow p id) _
        (round-Keeps env loads o name remotes containers allow p id)
        (round-Noted name remotes containers allow p id)
        λ next. rounds-Noted name remotes containers allow rest next

  pub rounds-Keeps :
      (name : String) (remotes : List RemoteRunner) (containers : List Container) (allow : Bool)
      (ids : List String) (p : Progress)
      → Keeps (rounds env o name remotes containers allow ids p)
  unfolding rounds
  rounds-Keeps name remotes containers allow [] p = Keeps-pure p
  rounds-Keeps name remotes containers allow (id ∷ rest) p =
      Keeps-bind (round env o name remotes containers allow p id) _
        (round-Keeps env loads o name remotes containers allow p id)
        λ next. rounds-Keeps name remotes containers allow rest next
