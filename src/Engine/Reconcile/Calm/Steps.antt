-- ===== src/Engine/Reconcile/Calm/Steps.antt =====
-- The actions of a round of `reconcile` in src/manager.rs that keep every run.
use runnerctl.Common.{ℕ, String, ◌≡◌, refl, ap, false, Option, none, some, arith}
use runnerctl.Result.{Result, ok, err}
use runnerctl.State.{Run}
use runnerctl.Engine.{Effect, Env, Engine, Exec, Answer, done, failed, panicked, continue, ◌>>=◌}
use runnerctl.Engine.Sound.{IsWorking}
use runnerctl.Engine.Handle.Names.{Names, Steady-same}
use runnerctl.Engine.Reconcile.{Container, RemoteRunner, Outside}
use runnerctl.Engine.Reconcile.Exits.{
  keep_boot_time, stopped_by_reboot, on_disk, archive_new, archive,
}
use runnerctl.Engine.Reconcile.Steps.{
  Progress, observe, remove_bootstrap, started, restart, create, deregister, repaired, remove_files,
  cleanup, retire_container, or_note,
}
use runnerctl.Engine.Reconcile.Sound.{Keeps, Keeps-bind}
use runnerctl.Engine.Reconcile.Sound.Steps.{keep_boot_time-Keeps}
use runnerctl.Engine.Reconcile.Calm.{Fine, Holds, Calm, Calm-Steady, Calm-pure, Calm-leave}
use runnerctl.Engine.Reconcile.Calm.Calls.{calm}
use runnerctl.Engine.Reconcile.Returns.{Returns}

module _ (names : Names) where
  -- The rest may rely on what is known of the value.
  pub Calm-then :
      {A B : Type 0} {Q : A → Type 0} (m : Exec A) (f : A → Exec B)
      → Calm names m
      → Returns Q m
      → ((a : A) → Keeps (f a))
      → ((a : A) → Q a → Calm names (f a))
      → Calm names (m >>= f)
  unfolding ◌>>=◌
  Calm-then {A} {B} m f h y kept k = record {
    keeps = Keeps-bind m f h.keeps kept;
    run = λ e w holds.
        let (r, e') = m e in
        let (fine, holds') = h.run e w holds in
        by_answer r e' (λ a is_done. k a (y.run e e' a (ap (λ x. (x, e')) is_done)))
          (h.keeps.run e w).working fine holds';
  }
    where
      by_answer :
          (r : Answer A) (e : Engine)
          → ((a : A) → r ≡ done a → Calm names (f a))
          → IsWorking e
          → Fine r
          → Holds names e
          → Fine (continue r f e).0 × Holds names (continue r f e).1
      by_answer (done a) e c w fine holds = (c a refl).run e w holds
      by_answer (failed error) e c w fine holds = (tt, holds)
      by_answer panicked e c w fine holds = absurd fine

  pub or_note-Calm :
      (env : Env) (o : Outside) (p : Progress) (r : Result Run) (k : Run → Exec Progress)
      → ((run : Run) → r ≡ ok run → Calm names (k run))
      → Calm names (or_note env o p r k)
  or_note-Calm env o p (ok run) k h = h run refl
  or_note-Calm env o p (err error) k h = Calm-pure names _

  remove_bootstrap-Calm :
      (remote : Option RemoteRunner) (id : String) → Calm names (remove_bootstrap remote id)
  remove_bootstrap-Calm none id = Calm-pure names tt
  remove_bootstrap-Calm (some r) id = Calm-leave names _

  pub observe-Calm :
      (remote : Option RemoteRunner) (run : Run) (p : Progress) → Calm names (observe remote run p)
  unfolding observe
  observe-Calm remote run p = search (calm, remove_bootstrap-Calm) depth 24

  module _ (env : Env) (loads : (n : ℕ) → env.load_fails n ≡ false) (o : Outside) where
    on_disk-Calm : (effect : Effect) → Calm names (on_disk env o effect)
    unfolding on_disk
    on_disk-Calm effect = search (calm)

    archive_new-Calm : (run : Run) (c : Container) → Calm names (archive_new env o run c)
    unfolding archive_new
    archive_new-Calm run c = search (calm, loads, on_disk-Calm) depth 24

    pub archive-Calm : (run : Run) (c : Container) → Calm names (archive env o run c)
    unfolding archive
    archive-Calm run c = search (calm, archive_new-Calm) depth 24

    keep_boot_time-Calm : (r : Result ℕ) → Calm names (keep_boot_time r)
    unfolding keep_boot_time ◌>>=◌
    keep_boot_time-Calm r =
        Calm-Steady names _ (keep_boot_time-Keeps env loads o r)
          (Steady-same names _ (λ e. ground arith) (λ e. ground arith)) (λ e. ground arith)
          (λ e. ground arith)

    pub stopped_by_reboot-Calm :
        (c : Container) (image : String) → Calm names (stopped_by_reboot env o c image)
    unfolding stopped_by_reboot
    stopped_by_reboot-Calm c image = search (calm, loads, keep_boot_time-Calm) depth 24

    started-Calm : (run : Run) (p : Progress) → Calm names (started env o run p)
    unfolding started
    started-Calm run p = search (calm, loads) depth 24

    pub restart-Calm : (run : Run) (p : Progress) → Calm names (restart env o run p)
    unfolding restart
    restart-Calm run p = search (calm, loads, on_disk-Calm, started-Calm) depth 24

    pub create-Calm : (run : Run) (p : Progress) → Calm names (create env o run p)
    unfolding create
    create-Calm run p = search (calm, loads, on_disk-Calm, started-Calm) depth 24

    deregister-Calm : (remote : Option RemoteRunner) → Calm names (deregister env o remote)
    deregister-Calm none = Calm-pure names tt
    deregister-Calm (some r) = search (calm, loads) depth 24

    repaired-Calm : (run : Run) (r : Result (Unit {0})) → Calm names (repaired env o run r)
    unfolding repaired
    repaired-Calm run (ok tt) = Calm-pure names tt
    repaired-Calm run (err error) = search (calm, loads, on_disk-Calm) depth 24

    remove_files-Calm : (run : Run) → Calm names (remove_files env o run)
    unfolding remove_files
    remove_files-Calm run = search (calm, on_disk-Calm, repaired-Calm) depth 24

    pub cleanup-Calm : (run : Run) → Calm names (cleanup env o run)
    unfolding cleanup
    cleanup-Calm run = search (calm, loads, deregister-Calm, remove_files-Calm) depth 24

    pub retire_container-Calm :
        (run : Run) (c : Container) → Calm names (retire_container env o run c)
    unfolding retire_container
    retire_container-Calm run c = search (calm, loads, archive-Calm) depth 24
