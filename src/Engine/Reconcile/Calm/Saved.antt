-- ===== src/Engine/Reconcile/Calm/Saved.antt =====
-- What a `save` of src/manager.rs that returns has done, and actions that end with one.
use runnerctl.Common.{
  ◌+◌, ◌≡◌, refl, Bool, true, false, Option, none, some, if◌then◌else◌, Bool-cases, inl, inr,
}
use runnerctl.State.{State}
use runnerctl.Engine.{Env, Engine, Exec, Answer, done, failed, panicked, ◌>>=◌, continue}
use runnerctl.Engine.Store.{save, store_save, send_snapshot}
use runnerctl.Engine.Sound.{IsShown}
use runnerctl.Engine.Reconcile.Sound.Uncrossed.{Returned}

-- The row holds the state in memory, and the readers see it.
pub record IsSettled (e : Engine) : Type 0 where
  pub stored : e.row ≡ some e.state
  pub shown : IsShown e

pub record IsSaved (e f : Engine) : Type 0 where
  pub state : f.state ≡ e.state
  pub epoch : f.epoch ≡ e.epoch
  pub reconciles : f.reconcile_epoch ≡ e.reconcile_epoch
  pub settled : IsSettled f

module _ (env : Env) where
  pub save-IsSaved : (e : Engine) → Returned (λ _. IsSaved e) (save env e)
  unfolding save store_save send_snapshot ◌>>=◌
  save-IsSaved e = elim (Bool-cases (env.save_fails e.io)) [
    | inl fails ↦ rw fails tt
    | inr works ↦ rw works (by_readers e e.snapshot refl)
  ]
    where
      by_readers :
          (e : Engine) (o : Option State)
          → e.snapshot ≡ o
          → IsSaved e (send_snapshot (record e { row = some e.state; io = e.io + 1 })).1
      by_readers e none h = rw h (record {
        state = refl;
        epoch = refl;
        reconciles = refl;
        settled = record { stored = refl; shown = inl h };
      })
      by_readers e (some t) h = rw h (record {
        state = refl;
        epoch = refl;
        reconciles = refl;
        settled = record { stored = refl; shown = inr refl };
      })

-- An action that returns only after a save.
pub record Saves {A : Type 0} (m : Exec A) : Type 0 where
  pub run : (e : Engine) → Returned (λ _. IsSettled) (m e)

pub Saves-save : (env : Env) → Saves (save env)
Saves-save env = record {
  run = λ e. let (r, e') = save env e in by_answer e r e' (save-IsSaved env e);
}
  where
    by_answer :
        (e : Engine) (r : Answer (Unit {0})) (f : Engine)
        → Returned (λ _. IsSaved e) (r, f)
        → Returned (λ _. IsSettled) (r, f)
    by_answer e (done x) f s = s.settled
    by_answer e (failed error) f s = tt
    by_answer e panicked f s = tt

module _ {A B : Type 0} where
  Returned-last :
      (r : Answer A) (f : A → Exec B) (e : Engine)
      → ((a : A) → Saves (f a))
      → Returned (λ _. IsSettled) (continue r f e)
  Returned-last (done a) f e k = (k a).run e
  Returned-last (failed error) f e k = tt
  Returned-last panicked f e k = tt

  pub Saves-bind : (m : Exec A) (f : A → Exec B) → ((a : A) → Saves (f a)) → Saves (m >>= f)
  unfolding ◌>>=◌
  Saves-bind m f k = record { run = λ e. let (r, e') = m e in Returned-last r f e' k }

pub Saves-if :
    {A : Type 0} (b : Bool) (m n : Exec A) → Saves m → Saves n → Saves (if b then m else n)
Saves-if true m n h k = h
Saves-if false m n h k = k
