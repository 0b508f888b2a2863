-- ===== src/Engine/Reconcile/Sound/Uncrossed.antt =====
-- When a part of `reconcile` in src/manager.rs returns, either no request has changed the state since
-- the reconciliation started, or an error was noted that ends the reconciliation.
use runnerctl.Common.{String, ◌≡◌, refl, Bool, true, false, Option, arith, if◌then◌else◌}
use runnerctl.Result.{Error, Result}
use runnerctl.State.{PoolState, Run}
use runnerctl.BTreeMap.{remove}
use runnerctl.Engine.{
  Effect, Env, Engine, Exec, Answer, done, failed, panicked, pure, raise, lift, gets, update_state,
  ◌>>=◌, context, next_io, continue, index_pool, modify_pool, mark,
}
use runnerctl.Engine.Store.{save}
use runnerctl.Engine.Sound.{IsWorking}
use runnerctl.Engine.Reconcile.{index_run, insert_run, leave}
use runnerctl.Engine.Reconcile.Tick.{is_interrupted}
use runnerctl.Engine.Reconcile.Sound.{
  Keeps, Keeps-pure, Keeps-raise, Keeps-gets, Keeps-lift, Keeps-context, Keeps-next_io, Keeps-leave,
  Keeps-index_pool, Keeps-index_run, Keeps-modify_pool, Keeps-bind,
}
use runnerctl.Engine.Reconcile.Sound.Actions.{
  Keeps-insert_run, Keeps-remove_run, Keeps-mark, Keeps-save,
}

-- No request has stepped the epoch since the reconciliation started.
abbrev pub IsUncrossed : Engine → Type 0
IsUncrossed e = is_interrupted e ≡ false

abbrev pub Returned : {A : Type 0} → (A → Engine → Type 0) → Answer A × Engine → Type 0
Returned Q (done a, e) = Q a e
Returned Q (failed error, e) = Unit
Returned Q (panicked, e) = Unit

-- An action that keeps the state well formed, and returns only if it was not crossed.
pub record Plain {A : Type 0} (m : Exec A) : Type 0 where
  pub keeps : Keeps m
  pub run : (e : Engine) → IsWorking e → IsUncrossed e → Returned (λ _. IsUncrossed) (m e)

IsUncrossed-of_same :
    (e f : Engine)
    → f.epoch ≡ e.epoch
    → f.reconcile_epoch ≡ e.reconcile_epoch
    → IsUncrossed e
    → IsUncrossed f
IsUncrossed-of_same e f p q h = ground (arith, p, q, h)

Returned-all :
    {A : Type 0} (P : Engine → Type 0) (r : Answer A) (e : Engine) → P e → Returned (λ _. P) (r, e)
Returned-all P (done a) e h = h
Returned-all P (failed error) e h = tt
Returned-all P panicked e h = tt

-- An action that leaves the epoch alone.
pub Plain-same :
    {A : Type 0} (m : Exec A) → Keeps m → ((e : Engine) → (m e).1.epoch ≡ e.epoch) → Plain m
Plain-same m h same = record {
  keeps = h;
  run = λ e w u.
      let (r, e') = m e in
      Returned-all IsUncrossed r e' (IsUncrossed-of_same e e' (same e) (h.run e w).reconciles u);
}

module _ {A : Type 0} where
  pub Plain-pure : (a : A) → Plain (pure a)
  unfolding ◌>>=◌
  Plain-pure a = Plain-same (pure a) (Keeps-pure a) (λ e. refl)

  pub Plain-raise : (error : Error) → Plain {A = A} (raise error)
  unfolding ◌>>=◌
  Plain-raise error = Plain-same (raise error) (Keeps-raise error) (λ e. refl)

  pub Plain-gets : (f : Engine → A) → Plain (gets f)
  unfolding ◌>>=◌
  Plain-gets f = Plain-same (gets f) (Keeps-gets f) (λ e. refl)

  pub Plain-lift : (r : Result A) → Plain (lift r)
  unfolding ◌>>=◌
  Plain-lift r = Plain-same (lift r) (Keeps-lift r) (λ e. ground arith)

  pub Plain-context : (a : Option A) (text : String) → Plain (context a text)
  unfolding ◌>>=◌
  Plain-context a text = Plain-same (context a text) (Keeps-context a text) (λ e. ground arith)

  pub Plain-if : (b : Bool) (m n : Exec A) → Plain m → Plain n → Plain (if b then m else n)
  Plain-if true m n h k = h
  Plain-if false m n h k = k

pub Plain-next_io : Plain next_io
unfolding ◌>>=◌
Plain-next_io = Plain-same next_io Keeps-next_io (λ e. refl)

pub Plain-leave : (effect : Effect) → Plain (leave effect)
unfolding leave ◌>>=◌
Plain-leave effect = Plain-same (leave effect) (Keeps-leave effect) (λ e. refl)

pub Plain-index_pool : (name : String) → Plain (index_pool name)
unfolding ◌>>=◌
Plain-index_pool name = Plain-same (index_pool name) (Keeps-index_pool name) (λ e. ground arith)

pub Plain-index_run : (id : String) → Plain (index_run id)
unfolding index_run
Plain-index_run id = Plain-same (index_run id) (Keeps-index_run id) (λ e. ground arith)

pub Plain-modify_pool : (name : String) (g : PoolState → PoolState) → Plain (modify_pool name g)
unfolding modify_pool
Plain-modify_pool name g =
    Plain-same (modify_pool name g) (Keeps-modify_pool name g) (λ e. ground arith)

pub Plain-insert_run : (r : Run) → Plain (insert_run r)
unfolding insert_run ◌>>=◌
Plain-insert_run r = Plain-same (insert_run r) (Keeps-insert_run r) (λ e. refl)

pub Plain-remove_run :
    (id : String) → Plain (update_state (λ s. record s { runs = remove id s.runs }))
unfolding ◌>>=◌
Plain-remove_run id = Plain-same _ (Keeps-remove_run id) (λ e. refl)

pub Plain-mark : (name : String) → Plain (mark name)
unfolding ◌>>=◌
Plain-mark name = Plain-same (mark name) (Keeps-mark name) (λ e. ground arith)

pub Plain-save : (env : Env) → Plain (save env)
unfolding save ◌>>=◌
Plain-save env = Plain-same (save env) (Keeps-save env) (λ e. ground arith)

module _ {A B : Type 0} where
  Returned-continue :
      (Q : B → Engine → Type 0) (P : Engine → Type 0) (r : Answer A) (f : A → Exec B) (e : Engine)
      → ((a : A) → P e → Returned Q (f a e))
      → Returned (λ _. P) (r, e)
      → Returned Q (continue r f e)
  Returned-continue Q P (done a) f e k h = k a h
  Returned-continue Q P (failed error) f e k h = tt
  Returned-continue Q P panicked f e k h = tt

  pub Plain-bind :
      (m : Exec A) (f : A → Exec B) → Plain m → ((a : A) → Plain (f a)) → Plain (m >>= f)
  unfolding ◌>>=◌
  Plain-bind m f h k = record {
    keeps = Keeps-bind m f h.keeps (λ a. (k a).keeps);
    run = λ e w u.
        let (r, e') = m e in
        Returned-continue (λ _. IsUncrossed) IsUncrossed r f e'
          (λ a u'. (k a).run e' (h.keeps.run e w).working u') (h.run e w u);
  }

pub ruleset plain = (
  Plain-bind, Plain-pure, Plain-raise, Plain-gets, Plain-lift, Plain-context, Plain-if,
  Plain-next_io, Plain-leave, Plain-index_pool, Plain-index_run, Plain-modify_pool,
  Plain-insert_run, Plain-remove_run, Plain-mark, Plain-save,
)
