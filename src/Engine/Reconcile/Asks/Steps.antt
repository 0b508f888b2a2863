-- ===== src/Engine/Reconcile/Asks/Steps.antt =====
-- What the steps of the loop of `reconcile` in src/manager.rs do outside, for one run.
use runnerctl.Common.{
  ℕ, String, ◌≡◌, refl, sym, ◌∙◌, ap, subst, Bool, true, false, ◌&&◌, Option, none, some, List, [],
  ◌∷◌, arith, any, find, str_eq, ◌==◌, if◌then◌else◌,
}
use runnerctl.Result.{Result, ok, err, message, reconcile_interrupted}
use runnerctl.State.{Run}
use runnerctl.Engine.{
  Effect, docker_create, docker_start, docker_archive, docker_repair, docker_probe, docker_remove,
  github_remove, write_token, remove_token, make_directory, remove_directory, write_log,
  remove_log_file, Env, Exec, pure, ◌>>=◌,
}
use runnerctl.Engine.Handle.Keeps.{Keeps-modify_pool}
use runnerctl.Engine.Reconcile.{Container, RemoteRunner, Outside, leave, external}
use runnerctl.Engine.Reconcile.Exits.{keep_boot_time, stopped_by_reboot, on_disk}
use runnerctl.Engine.Reconcile.Steps.{
  Progress, container_status, is_live, is_missing, started, restart, create, deregister, repaired,
  remove_files, cleanup, reset_failures, or_note,
}
use runnerctl.Engine.Reconcile.Asks.{
  Asks, Asks-same, Asks-Keeps, Asks-pure, Asks-raise, Asks-lift, Asks-gets, Asks-if, Asks-attempt,
  Asks-bind, Asks-leave, Asks-next_io, Asks-insert_run, Asks-save, Asks-external, Asks-then,
}
use runnerctl.Engine.Reconcile.Returns.{Returns-external}

-- A registration of that id and the run's name is in some list of GitHub's.
abbrev pub IsListed : Outside → String → ℕ → Type 0
IsListed o name id =
    (n : ℕ) × (l : List RemoteRunner) × (o.remotes n ≡ ok l)
    × (any (λ r. str_eq r.name name && r.id == id) l ≡ true)

-- What may be done outside for a run that has this container, or none.
abbrev pub Regards : Outside → Run → Option Container → Effect → Type 0
Regards o run container (docker_create id) =
    (id ≡ run.id)
    × (is_missing container ≡ true)
    × (str_eq run.phase "creating" ≡ true)
    × (run.retiring ≡ false)
Regards o run container (docker_start id) = (id ≡ run.id) × (run.retiring ≡ false)
Regards o run container (docker_archive id) = (id ≡ run.id) × (is_missing container ≡ false)
Regards o run container (docker_repair id) = (id ≡ run.id) × (run.pool.docker_socket ≡ true)
Regards o run container (docker_remove id force) =
    (id ≡ run.id)
    × (force ≡ false)
    × (is_missing container ≡ false)
    × (is_live (container_status container) ≡ false)
Regards o run container (docker_probe image) =
    (image ≡ run.pool.image)
    × (is_missing container ≡ false)
    × (is_live (container_status container) ≡ false)
Regards o run container (github_remove id) = IsListed o run.id id
Regards o run container (write_token id) = id ≡ run.id
Regards o run container (remove_token id) = id ≡ run.id
Regards o run container (make_directory id) = id ≡ run.id
Regards o run container (remove_directory id) = id ≡ run.id
Regards o run container (write_log id) = id ≡ run.id
Regards o run container (remove_log_file filename) = ⊥

module _ (env : Env) (o : Outside) {P : Effect → Type 0} where
  pub Asks-on_disk : (effect : Effect) → P effect → Asks P (on_disk env o effect)
  unfolding on_disk
  Asks-on_disk effect p =
      Asks-bind _ _ Asks-next_io
        λ n. Asks-bind _ _ (Asks-leave effect p) λ _. Asks-lift (o.command n)

  -- A call whose start is one effect.
  pub Asks-call :
      {A : Type 0} (effect : Effect) (answer : ℕ → Result A)
      → P effect
      → Asks P (external env o (leave effect) answer)
  Asks-call effect answer p = Asks-external env o _ answer (Asks-leave effect p)

  pub Asks-read : {A : Type 0} (answer : ℕ → Result A) → Asks P (external env o (pure tt) answer)
  Asks-read answer = Asks-external env o _ answer (Asks-pure tt)

  pub Asks-keep_boot_time : (r : Result ℕ) → Asks P (keep_boot_time r)
  unfolding keep_boot_time ◌>>=◌
  Asks-keep_boot_time (ok boot_time) = Asks-same _ λ e. refl
  Asks-keep_boot_time (err reconcile_interrupted) = Asks-same _ λ e. refl
  Asks-keep_boot_time (err (message text)) = Asks-same _ λ e. refl

  pub Asks-stopped_by_reboot :
      (c : Container) (image : String)
      → P (docker_probe image)
      → Asks P (stopped_by_reboot env o c image)
  unfolding stopped_by_reboot
  Asks-stopped_by_reboot c image probes = Asks-bind _ _ (Asks-gets _) λ boot_time.
      Asks-bind _ _
        (Asks-if _ _ _
          (Asks-bind _ _ (Asks-attempt _ (Asks-call (docker_probe image) o.boot_time probes))
            Asks-keep_boot_time)
          (Asks-pure tt))
        λ _. Asks-gets _

  pub Asks-reset_failures :
      (completed : Bool) (name : String) → Asks P (reset_failures env o completed name)
  Asks-reset_failures completed name =
      Asks-if completed _ _
        (Asks-bind _ _ (Asks-Keeps _ (Keeps-modify_pool name _)) λ _. Asks-pure tt) (Asks-pure tt)

  pub Asks-if_known :
      {A : Type 0} (b : Bool) (m n : Exec A)
      → (b ≡ true → Asks P m)
      → (b ≡ false → Asks P n)
      → Asks P (if b then m else n)
  Asks-if_known true m n h k = h refl
  Asks-if_known false m n h k = k refl

  pub Asks-or_note :
      (p : Progress) (result : Result Run) (k : Run → Exec Progress)
      → ((r : Run) → result ≡ ok r → Asks P (k r))
      → Asks P (or_note env o p result k)
  Asks-or_note p (ok r) k h = h r refl
  Asks-or_note p (err error) k h = Asks-pure _

find_listed :
    (name : String) (l : List RemoteRunner) (r : RemoteRunner)
    → find (λ x. str_eq x.name name) l ≡ some r
    → any (λ x. str_eq x.name name && x.id == r.id) l ≡ true
find_listed name [] r h = absurd (ground arith)
find_listed name (x ∷ l) r h = ground (arith, find_listed name l r)

module _ (env : Env) (o : Outside) (run : Run) (container : Option Container) where
  -- The run, as far as what is done outside depends on it.
  abbrev pub Same : Run → Type 0
  Same r = (r.id ≡ run.id) × (r.pool ≡ run.pool)

  abbrev pub P : Effect → Type 0
  P = Regards o run container

  pub Asks-started :
      (r : Run) (p : Progress) → Same r → run.retiring ≡ false → Asks P (started env o r p)
  unfolding started
  Asks-started r p same stays =
      Asks-bind _ _ (Asks-call env o (docker_start r.id) o.command (same.0, stays))
        λ _. Asks-bind _ _ (Asks-insert_run _) λ _. Asks-bind _ _ (Asks-save env) λ _. Asks-pure p

  pub Asks-restart :
      (r : Run) (p : Progress) → Same r → run.retiring ≡ false → Asks P (restart env o r p)
  unfolding restart
  Asks-restart r p same stays = Asks-bind _ _ (Asks-read env o o.token) λ _.
      Asks-bind _ _ (Asks-on_disk env o (write_token r.id) same.0) λ _. Asks-started r p same stays

  pub Asks-create :
      (r : Run) (p : Progress)
      → Same r
      → is_missing container ≡ true
      → str_eq run.phase "creating" ≡ true
      → run.retiring ≡ false
      → Asks P (create env o r p)
  unfolding create
  Asks-create r p same missing creating stays = Asks-bind _ _ (Asks-read env o o.command) λ _.
      Asks-bind _ _ (Asks-on_disk env o (make_directory r.id) same.0) λ _.
        Asks-bind _ _ (Asks-read env o o.token) λ _.
          Asks-bind _ _ (Asks-on_disk env o (write_token r.id) same.0) λ _.
            Asks-bind _ _
              (Asks-call env o (docker_create r.id) o.command (same.0, missing, creating, stays))
              λ _. Asks-started r p same stays

  pub Asks-deregister :
      (found : Option RemoteRunner)
      → ((x : RemoteRunner) → found ≡ some x → IsListed o run.id x.id)
      → Asks P (deregister env o found)
  Asks-deregister none h = Asks-pure tt
  Asks-deregister (some x) h = Asks-call env o (github_remove x.id) o.command (h x refl)

  pub Asks-repaired : (r : Run) (x : Result (Unit {0})) → Same r → Asks P (repaired env o r x)
  unfolding repaired
  Asks-repaired r (ok _) same = Asks-pure tt
  Asks-repaired r (err error) same =
      Asks-if_known env o r.pool.docker_socket _ _
        (λ socket.
          Asks-bind _ _
            (Asks-call env o (docker_repair r.id) o.command
              (same.0, sym (ap (λ q. q.docker_socket) same.1) ∙ socket))
            λ _. Asks-on_disk env o (remove_directory r.id) same.0)
        (λ _. Asks-raise error)

  pub Asks-remove_files : (r : Run) → Same r → Asks P (remove_files env o r)
  unfolding remove_files
  Asks-remove_files r same = Asks-bind _ _ Asks-next_io λ n.
      Asks-if _ _ _
        (Asks-bind _ _ (Asks-attempt _ (Asks-on_disk env o (remove_directory r.id) same.0))
          λ x. Asks-repaired r x same)
        (Asks-pure tt)

  pub Asks-cleanup : (r : Run) → Same r → Asks P (cleanup env o r)
  unfolding cleanup
  Asks-cleanup r same =
      Asks-then _ _ (Asks-read env o o.remotes) (Returns-external env o (pure tt) o.remotes)
        λ fresh told.
          Asks-bind _ _
            (Asks-deregister (find (λ x. str_eq x.name r.id) fresh) λ x found. (
              told.0,
              fresh,
              told.1,
              subst (λ name. any (λ y. str_eq y.name name && y.id == x.id) fresh ≡ true) same.0
                  (find_listed r.id fresh x found),
            ))
            λ _. Asks-remove_files r same
