-- ===== src/Engine/Reconcile/Asks/Round.antt =====
-- What a round of the loop of `reconcile` in src/manager.rs does outside, for one run.
use runnerctl.Common.{
  String, ◌≡◌, refl, sym, ap, subst, Bool, false, not, ◌&&◌, Option, none, some, List, arith, find,
  str_eq, if◌then◌else◌,
}
use runnerctl.BTreeMap.{lookup}
use runnerctl.State.{Run}
use runnerctl.Engine.{
  docker_archive, docker_remove, remove_token, write_log, Env, Engine, Exec, pure, gets, ◌>>=◌,
  ◌>>◌,
}
use runnerctl.Engine.Sound.{bind_of_eq}
use runnerctl.Engine.Handle.Keeps.{Keeps-update_state}
use runnerctl.Engine.Reconcile.{
  Container, RemoteRunner, Outside, owned, some_eq, index_run, insert_run,
}
use runnerctl.Engine.Reconcile.Exits.{archive_new, archive}
use runnerctl.Engine.Reconcile.Steps.{
  Progress, container_status, is_live, is_missing, with_remote, observe, restart, create,
  when_allowed, forget, clean_and_forget, retire_container, stopped, ended, act, round,
}
use runnerctl.Engine.Reconcile.Asks.{
  Adds, Adds-weaken, Asks, Asks-Keeps, Asks-pure, Asks-if, Asks-attempt, Asks-bind, Asks-leave,
  Asks-next_io, Asks-insert_run, Asks-save, Asks-then,
}
use runnerctl.Engine.Reconcile.Returns.{
  index_run-some, Returns, Returns-then, Returns-pure, Returns-if, Returns-bind, Returns-attempt,
}
use runnerctl.Engine.Reconcile.Asks.Allows.{Allows, Allows-Regards}
use runnerctl.Engine.Reconcile.Asks.Steps.{
  Regards, Asks-on_disk, Asks-call, Asks-read, Asks-stopped_by_reboot, Asks-reset_failures,
  Asks-if_known, Asks-or_note, Same, P, Asks-restart, Asks-create, Asks-cleanup,
}

module _ (env : Env) (o : Outside) (run : Run) where
  -- The first steps of an ended run, whose container is there and stopped.
  module _ (c : Container) where
    pub Asks-archive_new :
        (r : Run) → Same env o run (some c) r → Asks (P env o run (some c)) (archive_new env o r c)
    unfolding archive_new
    Asks-archive_new r same = Asks-bind _ _ (Asks-read env o o.text) λ _.
        Asks-bind _ _ (Asks-on_disk env o (write_log r.id) same.0) λ _.
          Asks-bind _ _
            (Asks-if _ _ _ (Asks-call env o (docker_archive r.id) o.command (same.0, refl))
              (Asks-pure tt))
            λ _.
              Asks-bind _ _ (Asks-insert_run _) λ _. Asks-bind _ _ (Asks-save env) λ _. Asks-pure _

    Returns-archive_new :
        (r : Run)
        → Same env o run (some c) r
        → Returns (Same env o run (some c)) (archive_new env o r c)
    unfolding archive_new
    Returns-archive_new r same = Returns-bind _ _ λ _.
        Returns-bind _ _
          λ _. Returns-bind _ _ λ _. Returns-bind _ _ λ _. Returns-bind _ _ λ _. Returns-pure _ same

    Asks-retire_container :
        is_live c.status ≡ false
        → (r : Run) → Same env o run (some c) r
        → Asks (P env o run (some c)) (retire_container env o r c)
    unfolding retire_container archive
    Asks-retire_container stopped_here r same =
        Asks-bind _ _ (Asks-if r.log_saved _ _ (Asks-pure r) (Asks-archive_new r same)) λ saved.
          Asks-bind _ _
            (Asks-call env o (docker_remove r.id false) o.command
              (same.0, refl, refl, stopped_here))
            λ _. Asks-pure saved

    Returns-retire_container :
        (r : Run)
        → Same env o run (some c) r
        → Returns (Same env o run (some c)) (retire_container env o r c)
    unfolding retire_container archive
    Returns-retire_container r same =
        Returns-then _ _
          (Returns-if r.log_saved _ _ (Returns-pure r same) (Returns-archive_new r same))
          λ saved kept. Returns-bind _ _ λ _. Returns-pure saved kept

  module _ (container : Option Container) (name : String) (interrupted : Bool) (p : Progress) where
    Asks-forget : (r : Run) → Asks (P env o run container) (forget env o name r interrupted p)
    unfolding forget
    Asks-forget r = Asks-bind _ _ (Asks-reset_failures env o r.completed_job name) λ _.
        Asks-bind _ _ (Asks-Keeps _ (Keeps-update_state _))
          λ _. Asks-bind _ _ (Asks-save env) λ _. Asks-pure _

    Asks-clean_and_forget :
        (r : Run)
        → Same env o run container r
        → Asks (P env o run container) (clean_and_forget env o name r interrupted p)
    unfolding clean_and_forget
    Asks-clean_and_forget r same =
        Asks-bind _ _
          (Asks-attempt _
            (Asks-bind _ _ (Asks-cleanup env o run container r same) λ _. Asks-pure r))
          λ result. Asks-or_note env o p result _ λ s _. Asks-forget s

  Asks-stopped :
      (name : String) (r : Run) (c : Container) (p : Progress)
      → is_live c.status ≡ false
      → Same env o run (some c) r
      → Asks (P env o run (some c)) (stopped env o name r c p)
  unfolding stopped
  Asks-stopped name r c p not_live same = Asks-bind _ _ Asks-next_io λ n.
      Asks-bind _ _
        (Asks-if _ _ _
          (Asks-stopped_by_reboot env o c r.pool.image (ap (λ q. q.image) same.1, refl, not_live))
          (Asks-pure false))
        λ interrupted. Asks-bind _ _ (Asks-insert_run _) λ _. Asks-bind _ _ (Asks-save env) λ _.
          Asks-then _ _ (Asks-attempt _ (Asks-retire_container c not_live _ same))
            (Returns-attempt _ (Returns-retire_container c _ same))
            λ result kept.
              Asks-or_note env o p result _
                λ s is_ok. Asks-clean_and_forget (some c) name interrupted p s (kept s is_ok)

  Asks-ended :
      (name : String) (container : Option Container) (r : Run) (p : Progress)
      → is_live (container_status container) ≡ false
      → Same env o run container r
      → Asks (P env o run container) (ended env o name container r p)
  unfolding ended
  Asks-ended name none r p not_live same = Asks-clean_and_forget none name false p r same
  Asks-ended name (some c) r p not_live same = Asks-stopped name r c p not_live same

  Asks-observe :
      (container : Option Container) (remote : Option RemoteRunner) (r : Run) (p : Progress)
      → Same env o run container r
      → Asks (P env o run container) (observe remote r p)
  unfolding observe
  Asks-observe container none r p same =
      Asks-bind _ _ (Asks-pure tt) λ _. Asks-bind _ _ (Asks-insert_run _) λ _. Asks-pure p
  Asks-observe container (some x) r p same =
      Asks-bind _ _ (Asks-leave (remove_token r.id) same.0)
        λ _. Asks-bind _ _ (Asks-insert_run _) λ _. Asks-pure p

  Asks-when_allowed :
      (container : Option Container) (allow : Bool) (m : Exec Progress) (p : Progress)
      → Asks (P env o run container) m
      → Asks (P env o run container) (when_allowed env o allow run m p)
  Asks-when_allowed container allow m p h =
      Asks-if allow _ _ h (Asks-bind _ _ (Asks-insert_run run) λ _. Asks-pure p)

  Asks-act :
      (name : String) (remote : Option RemoteRunner) (container : Option Container) (allow : Bool)
      (p : Progress)
      → Asks (P env o run container) (act env o name remote container allow p run)
  Asks-act name remote container allow p =
      let same : Same env o run container run = (refl, refl) in
      Asks-if_known env o (is_live (container_status container)) _ _
        (λ live. Asks-observe container remote run p same)
        λ not_live.
          Asks-if_known env o (some_eq (container_status container) "created" && not run.retiring)
            (if allow then restart env o run p else insert_run run >> pure p)
            (if is_missing container && str_eq run.phase "creating" && not run.retiring
              then if allow then create env o run p else insert_run run >> pure p
              else ended env o name container run p)
            (λ created.
              Asks-when_allowed container allow _ p
                (Asks-restart env o run container run p same (ground (arith, created))))
            λ _.
              Asks-if_known env o
                (is_missing container && str_eq run.phase "creating" && not run.retiring)
                (if allow then create env o run p else insert_run run >> pure p)
                (ended env o name container run p)
                (λ creating. Asks-when_allowed container allow _ p (
                  Asks-create env o run container run p same (ground (arith, creating))
                    (ground (arith, creating)) (ground (arith, creating))))
                λ _. Asks-ended name container run p not_live same

module _ (env : Env) (o : Outside) where
  Asks-act_seen :
      (name : String) (remote : Option RemoteRunner) (container : Option Container) (allow : Bool)
      (p : Progress) (stored : Run)
      → Asks
          (Regards o stored container)
          (act env o name remote container allow p (with_remote remote stored))
  Asks-act_seen name none container allow p stored =
      Asks-act env o stored name none container allow p
  Asks-act_seen name (some x) container allow p stored =
      Asks-act env o (record stored { remote_id = some x.id }) name (some x) container allow p

  owned_seen :
      (manager : String) (stored : Run) (remote : Option RemoteRunner) (containers : List Container)
      → find (λ c. owned c manager (with_remote remote stored)) containers
        ≡ find (λ c. owned c manager stored) containers
  unfolding owned
  owned_seen manager stored none containers = refl
  owned_seen manager stored (some x) containers = refl

  -- The round behind the look at the run.
  rest_asks :
      (name : String) (remotes : List RemoteRunner) (containers : List Container) (allow : Bool)
      (p : Progress) (id : String) (e : Engine) (stored : Run)
      → Adds
          (Regards o stored (find (λ c. owned c e.state.manager_id stored) containers))
          e
          ((gets (λ f. f.state.manager_id) >>= λ manager.
              let run = with_remote (find (λ r. str_eq r.name id) remotes) stored in
              act env o name
                (find (λ r. str_eq r.name id) remotes)
                (find (λ c. owned c manager run) containers)
                allow
                p
                run)
            e).1
  unfolding ◌>>=◌
  rest_asks name remotes containers allow p id e stored =
      let remote = find (λ r. str_eq r.name id) remotes in
      subst
        (λ container.
          Adds (Regards o stored container) e
            (act env o name remote
              (find (λ c. owned c e.state.manager_id (with_remote remote stored)) containers) allow
              p (with_remote remote stored) e).1)
        (owned_seen e.state.manager_id stored remote containers)
        ((Asks-act_seen name remote
            (find (λ c. owned c e.state.manager_id (with_remote remote stored)) containers) allow p
            stored).run
          e)

  -- What the round asks, by the container that it found.
  pub round-Regards :
      (name : String) (remotes : List RemoteRunner) (containers : List Container) (allow : Bool)
      (p : Progress) (id : String) (e : Engine) (stored : Run)
      → lookup id e.state.runs ≡ some stored
      → Adds
          (Regards o stored (find (λ c. owned c e.state.manager_id stored) containers))
          e
          (round env o name remotes containers allow p id e).1
  unfolding round
  round-Regards name remotes containers allow p id e stored here =
      subst
        (λ q.
          Adds (Regards o stored (find (λ c. owned c e.state.manager_id stored) containers)) e q.1)
        (sym (bind_of_eq (index_run id) _ e e stored (index_run-some id e stored here)))
        (rest_asks name remotes containers allow p id e stored)

  -- The round of one run asks only this outside, whatever GitHub, Docker and the disk answer and
  -- whatever requests arrive meanwhile. The files, the directory and the container that it touches are
  -- those of the run's id. It creates a container only when none of those shown carries the manager's,
  -- the run's and the pool's labels, for a run that is being created and is not retiring; it starts
  -- none for a retiring run; it archives and removes one only when one with these labels was shown,
  -- and removes it, without force, only when that was not running, restarting or paused. Only for such
  -- a stopped container it also runs one of the run's image for a moment, to read the boot time of the
  -- host. It repairs permissions only for a pool with the Docker socket, and deletes a registration
  -- only if GitHub lists it under the run's id.
  pub round_asks :
      (name : String) (remotes : List RemoteRunner) (containers : List Container) (allow : Bool)
      (p : Progress) (id : String) (e : Engine) (stored : Run)
      → lookup id e.state.runs ≡ some stored
      → Adds
          (Allows o e.state.manager_id stored containers)
          e
          (round env o name remotes containers allow p id e).1
  round_asks name remotes containers allow p id e stored here =
      let e' = (round env o name remotes containers allow p id e).1 in
      Adds-weaken (Regards o stored (find (λ c. owned c e.state.manager_id stored) containers))
        (Allows o e.state.manager_id stored containers) e e'
        (Allows-Regards o e.state.manager_id stored containers)
        (round-Regards name remotes containers allow p id e stored here)
