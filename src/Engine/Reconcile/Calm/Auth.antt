-- ===== src/Engine/Reconcile/Calm/Auth.antt =====
-- While no request crosses a reconciliation of src/manager.rs, the profile of its pool stays in the
-- configuration, in memory and in the row.
use runnerctl.Common.{
  ℕ, ◌<◌, String, ◌≡◌, refl, sym, ◌∙◌, ap, subst, Bool, true, false, Option, none, some, List, [],
  ◌∷◌, arith, if◌then◌else◌, length, ◌⊎◌, inl, inr,
}
use runnerctl.Result.{Result, ok, err}
use runnerctl.BTreeMap.{contains_key}
use runnerctl.Config.Memory.{u64_mod}
use runnerctl.State.{Run, State}
use runnerctl.Engine.{
  Effect, Env, Engine, Exec, Answer, done, failed, panicked, pure, lift, gets, ◌>>=◌, next_io,
  continue,
}
use runnerctl.Engine.Store.{save}
use runnerctl.Engine.Sound.{IsWorking}
use runnerctl.Engine.Reconcile.{Container, Outside, insert_run, leave, external}
use runnerctl.Engine.Reconcile.Exits.{on_disk, archive_new, archive}
use runnerctl.Engine.Reconcile.Pass.{stop_owned, stop_forced}
use runnerctl.Engine.Reconcile.Interrupted.{IsStart, external_uninterrupted}
use runnerctl.Engine.Reconcile.Sound.{
  Keeps, Keeps-pure, Keeps-gets, Keeps-lift, Keeps-bind, Keeps-next_io, Keeps-leave,
}
use runnerctl.Engine.Reconcile.Sound.Actions.{Keeps-insert_run, Keeps-save, Keeps-external}
use runnerctl.Engine.Reconcile.Sound.Uncrossed.{Returned}
use runnerctl.Engine.Reconcile.Calm.Saved.{IsSaved, save-IsSaved}

pub some_eq : {A : Type 0} {a b : A} → some a ≡ some b → a ≡ b
some_eq h = ground arith

module _ (profile : String) where
  abbrev pub HasAuth : State → Type 0
  HasAuth s = contains_key profile s.config.auth ≡ true

  -- The reconciliation started at the present epoch.
  pub record IsCurrent (e : Engine) : Type 0 where
    pub started : e.reconcile_epoch ≡ some e.epoch
    pub small : e.epoch < u64_mod
    pub state : HasAuth e.state
    pub row : (s : State) → e.row ≡ some s → HasAuth s

  pub record Sets {A : Type 0} (m : Exec A) : Type 0 where
    pub keeps : Keeps m
    pub run : (e : Engine) → IsWorking e → IsCurrent e → Returned (λ _. IsCurrent) (m e)

  module _ {A : Type 0} where
    pub Sets-pure : (a : A) → Sets (pure a)
    unfolding ◌>>=◌
    Sets-pure a = record { keeps = Keeps-pure a; run = λ e w s. s }

    pub Sets-gets : (f : Engine → A) → Sets (gets f)
    unfolding ◌>>=◌
    Sets-gets f = record { keeps = Keeps-gets f; run = λ e w s. s }

    pub Sets-lift : (r : Result A) → Sets (lift r)
    unfolding ◌>>=◌
    Sets-lift (ok a) = record { keeps = Keeps-lift (ok a); run = λ e w s. s }
    Sets-lift (err error) = record { keeps = Keeps-lift (err error); run = λ e w s. tt }

    pub Sets-if : (b : Bool) (m n : Exec A) → Sets m → Sets n → Sets (if b then m else n)
    Sets-if true m n h k = h
    Sets-if false m n h k = k

  pub Sets-next_io : Sets next_io
  unfolding ◌>>=◌
  Sets-next_io = record {
    keeps = Keeps-next_io;
    run = λ e w s. record { started = s.started; small = s.small; state = s.state; row = s.row };
  }

  pub Sets-leave : (effect : Effect) → Sets (leave effect)
  unfolding leave ◌>>=◌
  Sets-leave effect = record {
    keeps = Keeps-leave effect;
    run = λ e w s. record { started = s.started; small = s.small; state = s.state; row = s.row };
  }

  pub Sets-insert_run : (r : Run) → Sets (insert_run r)
  unfolding insert_run ◌>>=◌
  Sets-insert_run r = record {
    keeps = Keeps-insert_run r;
    run = λ e w s. record { started = s.started; small = s.small; state = s.state; row = s.row };
  }

  module _ {A B : Type 0} where
    Returned-continue :
        (r : Answer A) (f : A → Exec B) (e : Engine)
        → ((a : A) → Sets (f a))
        → IsWorking e
        → Returned (λ _. IsCurrent) (r, e)
        → Returned (λ _. IsCurrent) (continue r f e)
    Returned-continue (done a) f e k w s = (k a).run e w s
    Returned-continue (failed error) f e k w s = tt
    Returned-continue panicked f e k w s = tt

    pub Sets-bind : (m : Exec A) (f : A → Exec B) → Sets m → ((a : A) → Sets (f a)) → Sets (m >>= f)
    unfolding ◌>>=◌
    Sets-bind m f h k = record {
      keeps = Keeps-bind m f h.keeps (λ a. (k a).keeps);
      run = λ e w s.
          let (r, e') = m e in Returned-continue r f e' k (h.keeps.run e w).working (h.run e w s);
    }

  module _ (env : Env) where
    IsCurrent-saved : (e f : Engine) → IsCurrent e → IsSaved e f → IsCurrent f
    IsCurrent-saved e f h s = record {
      started = s.reconciles ∙ h.started ∙ ap some (sym s.epoch);
      small = subst (λ n. n < u64_mod) (sym s.epoch) h.small;
      state = subst HasAuth (sym s.state) h.state;
      row =
          λ t r. subst HasAuth (some_eq (ap some (sym s.state) ∙ sym s.settled.stored ∙ r)) h.state;
    }

    pub Sets-save : Sets (save env)
    Sets-save = record {
      keeps = Keeps-save env;
      run = λ e w s. let (r, e') = save env e in by_answer e s r e' (save-IsSaved env e);
    }
      where
        by_answer :
            (e : Engine)
            → IsCurrent e
            → (r : Answer (Unit {0})) (f : Engine) → Returned (λ _. IsSaved e) (r, f)
            → Returned (λ _. IsCurrent) (r, f)
        by_answer e s (done x) f saved = IsCurrent-saved e f s saved
        by_answer e s (failed error) f saved = tt
        by_answer e s panicked f saved = tt

    -- Only status requests came between.
    abbrev IsUntouched : Engine → Engine → Type 0
    IsUntouched e f =
        ((f.state ≡ e.state) ⊎ (e.row ≡ some f.state))
        × (f.row ≡ e.row)
        × (f.reconcile_epoch ≡ some f.epoch)

    IsCurrent-untouched :
        (e f : Engine)
        → IsCurrent e
        → f.reconcile_epoch ≡ e.reconcile_epoch
        → IsUntouched e f
        → IsCurrent f
    IsCurrent-untouched e f s same (state, row, started) = record {
      started = started;
      small = subst (λ n. n < u64_mod) (some_eq (sym s.started ∙ sym same ∙ started)) s.small;
      state = elim state [
        | inl kept ↦ subst HasAuth (sym kept) s.state
        | inr stored ↦ s.row f.state stored
      ];
      row = λ t r. s.row t (sym row ∙ r);
    }

    module _ (loads : (n : ℕ) → env.load_fails n ≡ false) (o : Outside)
        (few : (n : ℕ) → length (o.arrivals n) < u64_mod) where
      pub Sets-external :
          {A : Type 0} (start : Exec (Unit {0})) (answer : ℕ → Result A)
          → IsStart env o start
          → Keeps start
          → Sets (external env o start answer)
      Sets-external {A} start answer starts h = record {
        keeps = Keeps-external env loads o start answer h;
        run = λ e w s.
            let (r, f) = external env o start answer e in
            by_answer e s r f ((Keeps-external env loads o start answer h).run e w).reconciles
              λ a returned.
                let (quiet, w', state, row, started) =
                  external_uninterrupted env o start answer e loads starts w s.started s.small
                    (few e.io) returned in
                (state, row, started);
      }
        where
          by_answer :
              (e : Engine)
              → IsCurrent e
              → (r : Answer A) (f : Engine) → f.reconcile_epoch ≡ e.reconcile_epoch
              → ((a : A) → r ≡ done a → IsUntouched e f)
              → Returned (λ _. IsCurrent) (r, f)
          by_answer e s (done a) f same crossed = IsCurrent-untouched e f s same (crossed a refl)
          by_answer e s (failed error) f same crossed = tt
          by_answer e s panicked f same crossed = tt

      pub Sets-ask : {A : Type 0} (answer : ℕ → Result A) → Sets (external env o (pure tt) answer)
      unfolding ◌>>=◌
      Sets-ask answer = Sets-external (pure tt) answer (λ e. (e.effects, refl)) (Keeps-pure tt)

      pub Sets-act :
          {A : Type 0} (effect : Effect) (answer : ℕ → Result A)
          → Sets (external env o (leave effect) answer)
      unfolding leave ◌>>=◌
      Sets-act effect answer =
          Sets-external (leave effect) answer (λ e. (effect ∷ e.effects, refl)) (Keeps-leave effect)

      ruleset sets = (
        Sets-bind, Sets-pure, Sets-gets, Sets-lift, Sets-if, Sets-next_io, Sets-leave,
        Sets-insert_run, Sets-save, Sets-ask, Sets-act,
      )

      on_disk-Sets : (effect : Effect) → Sets (on_disk env o effect)
      unfolding on_disk
      on_disk-Sets effect = search (sets)

      archive_new-Sets : (run : Run) (c : Container) → Sets (archive_new env o run c)
      unfolding archive_new
      archive_new-Sets run c = search (sets, on_disk-Sets) depth 24

      archive-Sets : (run : Run) (c : Container) → Sets (archive env o run c)
      unfolding archive
      archive-Sets run c = search (sets, archive_new-Sets) depth 24

      stop_owned-Sets : (run : Run) (c : Option Container) → Sets (stop_owned env o run c)
      stop_owned-Sets run none = Sets-pure tt
      stop_owned-Sets run (some c) = search (sets, archive-Sets) depth 24

      pub stop_forced-Sets :
          (containers : List Container) (runs : List Run) → Sets (stop_forced env o containers runs)
      unfolding stop_forced
      stop_forced-Sets containers [] = Sets-pure tt
      stop_forced-Sets containers (run ∷ rest) =
          Sets-bind _ _ (Sets-gets _)
            λ manager. Sets-bind _ _ (stop_owned-Sets run _) (λ _. stop_forced-Sets containers rest)
