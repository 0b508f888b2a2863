-- ===== src/Engine/Reconcile/Asks/Pass.antt =====
-- What the loops over the runs in `reconcile` of src/manager.rs remove outside.
use runnerctl.Common.{
  ℕ, String, ◌≡◌, refl, sym, ap, subst, Bool, true, false, Option, none, some, List, [], ◌∷◌, arith,
  any, find,
}
use runnerctl.Result.{ok}
use runnerctl.BTreeMap.{lookup}
use runnerctl.State.{Run}
use runnerctl.Engine.{
  Effect, docker_create, docker_start, docker_archive, docker_repair, docker_probe, docker_remove,
  github_remove, write_token, remove_token, make_directory, remove_directory, write_log,
  remove_log_file, Env, Engine, Exec, Answer, continue, panicked, ◌>>=◌,
}
use runnerctl.Engine.Reconcile.{Container, RemoteRunner, Outside, owned, some_eq, index_run}
use runnerctl.Engine.Reconcile.Exits.{archive}
use runnerctl.Engine.Reconcile.Steps.{Progress, is_missing, round}
use runnerctl.Engine.Reconcile.Pass.{stop_owned, stop_forced, rounds}
use runnerctl.Engine.Reconcile.Asks.{
  Adds, Adds-weaken, Asks, Asks-pure, Asks-bind, Asks-if, Asks-gets, Asks-insert_run, Asks-save,
  Asks-weaken,
}
use runnerctl.Engine.Reconcile.Asks.Steps.{IsListed, Regards, Asks-call}
use runnerctl.Engine.Reconcile.Asks.Round.{Asks-archive_new, round-Regards}

-- Docker has shown a container with this id in its label of a run.
abbrev pub IsShown : Outside → String → Type 0
IsShown o id =
    (n : ℕ) × (l : List Container) × (o.containers n ≡ ok l)
    × (any (λ c. some_eq c.run id) l ≡ true)

-- What a tick may remove.
abbrev pub Spares : Outside → Effect → Type 0
Spares o (docker_remove id force) = IsShown o id
Spares o (docker_archive id) = IsShown o id
Spares o (github_remove id) = (name : String) × IsListed o name id
Spares o (docker_create _) = Unit
Spares o (docker_start _) = Unit
Spares o (docker_repair _) = Unit
Spares o (docker_probe _) = Unit
Spares o (write_token _) = Unit
Spares o (remove_token _) = Unit
Spares o (make_directory _) = Unit
Spares o (remove_directory _) = Unit
Spares o (write_log _) = Unit
Spares o (remove_log_file _) = Unit

-- The list is an answer of Docker's.
abbrev pub IsAnswer : Outside → List Container → Type 0
IsAnswer o containers = (n : ℕ) × (o.containers n ≡ ok containers)

find-owned :
    (manager : String) (run : Run) (l : List Container)
    → is_missing (find (λ c. owned c manager run) l) ≡ false
    → any (λ c. some_eq c.run run.id) l ≡ true
unfolding owned
find-owned manager run [] h = absurd (ground arith)
find-owned manager run (c ∷ l) h = ground (arith, find-owned manager run l)

Spares-of :
    (o : Outside) (run : Run) (container : Option Container)
    → (is_missing container ≡ false → IsShown o run.id)
    → (x : Effect) → Regards o run container x
    → Spares o x
Spares-of o run container shown (docker_remove id force) h = subst (IsShown o) (sym h.0) (shown h.2)
Spares-of o run container shown (docker_archive id) h = subst (IsShown o) (sym h.0) (shown h.1)
Spares-of o run container shown (github_remove id) h = (run.id, h)
Spares-of o run container shown (docker_create _) h = tt
Spares-of o run container shown (docker_start _) h = tt
Spares-of o run container shown (docker_repair _) h = tt
Spares-of o run container shown (docker_probe _) h = tt
Spares-of o run container shown (write_token _) h = tt
Spares-of o run container shown (remove_token _) h = tt
Spares-of o run container shown (make_directory _) h = tt
Spares-of o run container shown (remove_directory _) h = tt
Spares-of o run container shown (write_log _) h = tt
Spares-of o run container shown (remove_log_file _) h = tt

bind_of_panic :
    {A B : Type 0} (m : Exec A) (f : A → Exec B) (e e' : Engine)
    → m e ≡ (panicked, e')
    → (m >>= f) e ≡ (panicked, e')
unfolding ◌>>=◌
bind_of_panic m f e e' h = ap (λ (r : Answer _ × Engine). continue r.0 f r.1) h

index_run-none :
    (id : String) (e : Engine) → lookup id e.state.runs ≡ none → index_run id e ≡ (panicked, e)
unfolding index_run
index_run-none id e here = ground (arith, here)

-- Without the run, the round panics at once.
round_without_run :
    (env : Env) (o : Outside) (name : String) (remotes : List RemoteRunner)
    (containers : List Container) (allow : Bool) (p : Progress) (id : String) (e : Engine)
    → lookup id e.state.runs ≡ none
    → (round env o name remotes containers allow p id e).1.effects ≡ e.effects
unfolding round
round_without_run env o name remotes containers allow p id e h =
    ap (λ q. q.1.effects) (bind_of_panic (index_run id) _ e e (index_run-none id e h))

module _ (env : Env) (o : Outside) (containers : List Container)
    (answer : IsAnswer o containers) where
  shown_of_found :
      (manager : String) (run : Run)
      → is_missing (find (λ c. owned c manager run) containers) ≡ false
      → IsShown o run.id
  shown_of_found manager run h =
      (answer.0, containers, answer.1, find-owned manager run containers h)

  Asks-stop_owned :
      (manager : String) (run : Run)
      → Asks (Spares o) (stop_owned env o run (find (λ c. owned c manager run) containers))
  unfolding archive
  Asks-stop_owned manager run =
      by_found (find (λ c. owned c manager run) containers)
        (λ here. shown_of_found manager run here)
    where
      by_found :
          (found : Option Container)
          → (is_missing found ≡ false → IsShown o run.id)
          → Asks (Spares o) (stop_owned env o run found)
      by_found none h = Asks-pure tt
      by_found (some c) h =
          let leaving : Run = record run { phase = "cleanup" } in
          Asks-bind _ _ (Asks-insert_run leaving) λ _. Asks-bind _ _ (Asks-save env) λ _.
            Asks-bind _ _
              (Asks-if leaving.log_saved _ _ (Asks-pure leaving) (
                Asks-weaken _ _ _ (Spares-of o run (some c) (λ _. h refl))
                  (Asks-archive_new env o run c leaving (refl, refl))))
              λ _. Asks-call env o (docker_remove run.id true) o.command (h refl)

  pub Asks-stop_forced : (runs : List Run) → Asks (Spares o) (stop_forced env o containers runs)
  unfolding stop_forced
  Asks-stop_forced [] = Asks-pure tt
  Asks-stop_forced (run ∷ rest) =
      Asks-bind _ _ (Asks-gets _)
        λ manager. Asks-bind _ _ (Asks-stop_owned manager run) λ _. Asks-stop_forced rest

  Asks-round :
      (name : String) (remotes : List RemoteRunner) (allow : Bool) (p : Progress) (id : String)
      → Asks (Spares o) (round env o name remotes containers allow p id)
  Asks-round name remotes allow p id = record { run = λ e. by_run e (lookup id e.state.runs) refl }
    where
      by_run :
          (e : Engine) (found : Option Run)
          → lookup id e.state.runs ≡ found
          → Adds (Spares o) e (round env o name remotes containers allow p id e).1
      by_run e none here =
          ([], round_without_run env o name remotes containers allow p id e here, tt)
      by_run e (some stored) here =
          Adds-weaken _ _ e (round env o name remotes containers allow p id e).1
            (Spares-of o stored _ (shown_of_found e.state.manager_id stored))
            (round-Regards env o name remotes containers allow p id e stored here)

  pub Asks-rounds :
      (name : String) (remotes : List RemoteRunner) (allow : Bool) (ids : List String)
      (p : Progress)
      → Asks (Spares o) (rounds env o name remotes containers allow ids p)
  unfolding rounds
  Asks-rounds name remotes allow [] p = Asks-pure p
  Asks-rounds name remotes allow (id ∷ ids) p =
      Asks-bind _ _ (Asks-round name remotes allow p id)
        λ next. Asks-rounds name remotes allow ids next
