-- ===== src/Engine/Reconcile/Asks.antt =====
-- What an action of src/manager.rs asks of Docker, GitHub and the runs' directories: all that it adds
-- to the record of effects satisfies a predicate, with a rule for each action.
pub mod Steps
pub mod Allows
pub mod Round
pub mod Pass
pub mod Settle
pub mod Tick
use runnerctl.Common.{
  ℕ, ◌≡◌, subst, refl, sym, ◌∙◌, ap, Bool, true, false, Option, none, some, List, [], ◌∷◌, ◌++◌,
  arith, All, All-append, append_assoc, if◌then◌else◌,
}
use runnerctl.Result.{Error, Result, ok, err}
use runnerctl.Protocol.{Request, Reply}
use runnerctl.State.{Run}
use runnerctl.Engine.{
  Effect, Env, Engine, Exec, Answer, done, failed, panicked, pure, raise, lift, gets, update,
  continue, ◌>>=◌, next_io,
}
use runnerctl.Engine.Store.{save, store_load, send_snapshot}
use runnerctl.Engine.Handle.{handle_local, handle_inner, finish, reload}
use runnerctl.Engine.Handle.Keeps.{
  Keeps, Keeps-gets, Keeps-pure, Keeps-raise, Keeps-lift, Keeps-next_io,
}
use runnerctl.Engine.Handle.Epoch.{Keeps-save, Keeps-handle_inner}
use runnerctl.Engine.Reconcile.{
  Outside, attempt, as_result, check_epoch, is_stale, index_run, insert_run, leave, serve_arrivals,
  external,
}
use runnerctl.Engine.Reconcile.Returns.{
  Returns, Returns-pure, Returns-lift, Returns-if, Returns-bind, Returns-then, Returns-attempt,
  Returns-external,
}

-- The effects that come to those of `e`.
abbrev pub Adds : (Effect → Type 0) → Engine → Engine → Type 0
Adds P e e' = (l : List Effect) × (e'.effects ≡ l ++ e.effects) × All P l

pub record Asks {A : Type 0} (P : Effect → Type 0) (m : Exec A) : Type 0 where
  pub run : (e : Engine) → Adds P e (m e).1

finish_effects :
    (env : Env) (changes : Bool) (r : Answer Reply) (e : Engine)
    → (finish env changes r e).1.effects ≡ e.effects
unfolding finish reload store_load send_snapshot ◌>>=◌
finish_effects env changes (done reply) e = ground arith
finish_effects env changes (failed error) e = ground arith
finish_effects env changes panicked e = refl

module _ {P : Effect → Type 0} where
  Adds-trans : (e e' e2 : Engine) → Adds P e e' → Adds P e' e2 → Adds P e e2
  Adds-trans e e' e2 (l, h, fine) (k, h2, fine2) = (
    k ++ l,
    h2 ∙ ap (λ x. k ++ x) h ∙ sym (append_assoc k l e.effects),
    All-append P k l fine2 fine,
  )

  module _ {A : Type 0} where
    pub Asks-same : (m : Exec A) → ((e : Engine) → (m e).1.effects ≡ e.effects) → Asks P m
    Asks-same m h = record { run = λ e. ([], h e, tt) }

    pub Asks-Keeps : (m : Exec A) → Keeps m → Asks P m
    Asks-Keeps m k = Asks-same m λ e. ap (λ c. c.2) (k.run e)

    pub Asks-pure : (a : A) → Asks P (pure a)
    Asks-pure a = Asks-Keeps (pure a) (Keeps-pure a)

    pub Asks-raise : (error : Error) → Asks P (raise {A = A} error)
    Asks-raise error = Asks-Keeps (raise error) (Keeps-raise error)

    pub Asks-lift : (r : Result A) → Asks P (lift r)
    Asks-lift r = Asks-Keeps (lift r) (Keeps-lift r)

    pub Asks-gets : (f : Engine → A) → Asks P (gets f)
    Asks-gets f = Asks-Keeps (gets f) (Keeps-gets f)

    pub Asks-if : (b : Bool) (m n : Exec A) → Asks P m → Asks P n → Asks P (if b then m else n)
    Asks-if true m n h k = h
    Asks-if false m n h k = k

    pub Asks-attempt : (m : Exec A) → Asks P m → Asks P (attempt m)
    unfolding attempt
    Asks-attempt m h = record { run = λ e. let (r, e') = m e in by_answer r e e' (h.run e) }
      where
        by_answer : (r : Answer A) (e e' : Engine) → Adds P e e' → Adds P e (as_result r e').1
        by_answer (done a) e e' h = h
        by_answer (failed error) e e' h = h
        by_answer panicked e e' h = h

  pub Asks-bind :
      {A B : Type 0} (m : Exec A) (f : A → Exec B)
      → Asks P m
      → ((a : A) → Asks P (f a))
      → Asks P (m >>= f)
  unfolding ◌>>=◌
  Asks-bind m f h k = record { run = λ e. let (r, e') = m e in by_answer r e e' (h.run e) }
    where
      by_answer : (r : Answer _) (e e' : Engine) → Adds P e e' → Adds P e (continue r f e').1
      by_answer (done a) e e' h = Adds-trans e e' (f a e').1 h ((k a).run e')
      by_answer (failed error) e e' h = h
      by_answer panicked e e' h = h

  pub Asks-leave : (effect : Effect) → P effect → Asks P (leave effect)
  unfolding leave ◌>>=◌
  Asks-leave effect p = record { run = λ e. (effect ∷ [], refl, (p, tt)) }

  pub Asks-next_io : Asks P next_io
  Asks-next_io = Asks-Keeps next_io Keeps-next_io

  pub Asks-index_run : (id : _) → Asks P (index_run id)
  unfolding index_run
  Asks-index_run id = Asks-same _ λ e. ground arith

  pub Asks-insert_run : (run : Run) → Asks P (insert_run run)
  unfolding insert_run ◌>>=◌
  Asks-insert_run run = Asks-same _ λ e. refl

  pub Asks-check_epoch : Asks P check_epoch
  unfolding check_epoch ◌>>=◌
  Asks-check_epoch = Asks-same _ λ e. ground arith

  module _ (env : Env) where
    pub Asks-handle_local : (request : Request) → Asks P (handle_local env request)
    unfolding handle_local
    Asks-handle_local request = Asks-same _ λ e.
        let (r, e') = handle_inner env request e in
        finish_effects env _ r e' ∙ ap (λ c. c.2) ((Keeps-handle_inner env request).run e)

    pub Asks-save : Asks P (save env)
    Asks-save = Asks-Keeps (save env) (Keeps-save env)

    pub Asks-serve_arrivals : (requests : List Request) → Asks P (serve_arrivals env requests)
    unfolding serve_arrivals
    Asks-serve_arrivals [] = Asks-pure tt
    Asks-serve_arrivals (request ∷ rest) =
        Asks-bind _ _ (Asks-attempt _ (Asks-handle_local request)) λ _. Asks-serve_arrivals rest

    -- A call to the outside adds what its start adds.
    pub Asks-external :
        {A : Type 0} (o : Outside) (start : Exec (Unit {0})) (answer : ℕ → Result A)
        → Asks P start
        → Asks P (external env o start answer)
    unfolding external
    Asks-external o start answer h = Asks-bind _ _ Asks-check_epoch λ _.
        Asks-bind _ _ Asks-next_io λ n. Asks-bind _ _ h λ _.
          Asks-bind _ _ (Asks-serve_arrivals (o.arrivals n))
            λ _. Asks-bind _ _ Asks-check_epoch λ _. Asks-lift (answer n)

module _ {A B : Type 0} where
  asked_on :
      (P : Effect → Type 0) (f : A → Exec B) (r : Answer A) (e e' : Engine)
      → Adds P e e'
      → ((a : A) → r ≡ done a → Asks P (f a))
      → Adds P e (continue r f e').1
  asked_on P f (done a) e e' h k = Adds-trans e e' (f a e').1 h ((k a refl).run e')
  asked_on P f (failed error) e e' h k = h
  asked_on P f panicked e e' h k = h

  -- The rest may rely on what is known of the value.
  pub Asks-then :
      {P : Effect → Type 0} {Q : A → Type 0} (m : Exec A) (f : A → Exec B)
      → Asks P m
      → Returns Q m
      → ((a : A) → Q a → Asks P (f a))
      → Asks P (m >>= f)
  unfolding ◌>>=◌
  Asks-then {P = P} m f h q k = record {
    run = λ e.
        let (r, e') = m e in
        asked_on P f r e e' (h.run e) (λ a is_done. k a (q.run e e' a (ap (λ x. (x, e')) is_done)));
  }

pub Adds-weaken :
    (P Q : Effect → Type 0) (e e' : Engine) → ((x : Effect) → P x → Q x) → Adds P e e' → Adds Q e e'
Adds-weaken P Q e e' h (l, same, fine) = (l, same, all_weaken l fine)
  where
    all_weaken : (k : List Effect) → All P k → All Q k
    all_weaken [] f = tt
    all_weaken (x ∷ k) f = (h x f.0, all_weaken k f.1)

pub Asks-weaken :
    {A : Type 0} (P Q : Effect → Type 0) (m : Exec A)
    → ((x : Effect) → P x → Q x)
    → Asks P m
    → Asks Q m
Asks-weaken P Q m h k = record { run = λ e. Adds-weaken P Q e (m e).1 h (k.run e) }

pub ruleset asks = (
  Asks-bind, Asks-pure, Asks-raise, Asks-lift, Asks-gets, Asks-if, Asks-attempt, Asks-next_io,
  Asks-insert_run, Asks-index_run, Asks-save,
)
