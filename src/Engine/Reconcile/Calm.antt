-- ===== src/Engine/Reconcile/Calm.antt =====
-- Actions of a reconciliation of src/manager.rs in which no index and no `unwrap` fails, from an
-- engine whose state and row have a pool and some runs, which they keep.
pub mod Calls
pub mod Steps
pub mod Round
pub mod Saved
pub mod Auth
pub mod Loop
pub mod Settle
pub mod Pass
pub mod Start
pub mod Conclude
pub mod Tick
use runnerctl.Common.{
  ℕ, ◌+◌, ◌%◌, ◌<◌, String, ◌≡◌, ◌≢◌, refl, sym, ◌∙◌, ap, subst, Bool, true, false, Option, none,
  some, List, [], ◌∷◌, arith, if◌then◌else◌, str_eq, eq_iff, not, ◌&&◌, Bool-cases, inl, inr,
}
use runnerctl.Result.{Error, Result, ok, err}
use runnerctl.BTreeMap.{BTreeMap, contains_key, insert, remove, modify}
use runnerctl.BTreeMap.Laws.{contains_key-insert, contains_key-remove, some_of_contains_key}
use runnerctl.Config.Memory.{u64_mod}
use runnerctl.State.{PoolState, Run, State}
use runnerctl.Protocol.{Request, mutating}
use runnerctl.Engine.{
  Effect, Env, Engine, Exec, Answer, done, failed, panicked, pure, raise, lift, gets, update,
  update_state, ◌>>=◌, ◌>>◌, ensure, context, next_io, continue, index_pool, modify_pool, mark,
}
use runnerctl.Engine.Store.{save, store_save, send_snapshot}
use runnerctl.Engine.Handle.{handle_local}
use runnerctl.Engine.Handle.Epoch.{handle_local_epoch}
use runnerctl.Engine.Handle.Names.{
  Names, Has, IsNamed, Steady, Has-runs, Steady-pure, Steady-raise, Steady-gets, Steady-lift,
  Steady-context, Steady-ensure, Steady-next_io, Steady-update_state, Steady-same, Steady-bind,
}
use runnerctl.Engine.Handle.Names.Requests.{Steady-handle_local}
use runnerctl.Engine.Handle.Names.Store.{Steady-save}
use runnerctl.Engine.Handle.Names.Rules.{Steady-modify_pool}
use runnerctl.Engine.Sound.{IsWorking}
use runnerctl.Engine.Reconcile.{
  Outside, attempt, as_result, check_epoch, is_stale, insert_run, leave, serve_arrivals, external,
}
use runnerctl.Engine.Reconcile.Arrivals.{handle_local-IsWorking}
use runnerctl.Engine.Reconcile.Sound.{
  Keeps, Keeps-pure, Keeps-raise, Keeps-gets, Keeps-lift, Keeps-context, Keeps-attempt, Keeps-bind,
  Keeps-ensure, Keeps-next_io, Keeps-leave, Keeps-modify_pool,
}
use runnerctl.Engine.Reconcile.Sound.Actions.{
  Keeps-insert_run, Keeps-remove_run, Keeps-save, Keeps-serve_arrivals,
}

-- No panic.
abbrev pub Fine : {A : Type 0} → Answer A → Type 0
Fine (done a) = Unit
Fine (failed error) = Unit
Fine panicked = ⊥

pub Fine-of_ne : {A : Type 0} (r : Answer A) → r ≢ panicked → Fine r
Fine-of_ne (done a) h = tt
Fine-of_ne (failed error) h = tt
Fine-of_ne panicked h = absurd (h refl)

module _ (names : Names) where
  pub record Holds (e : Engine) : Type 0 where
    pub named : IsNamed names e
    pub small : e.epoch < u64_mod

  pub record Calm {A : Type 0} (m : Exec A) : Type 0 where
    pub keeps : Keeps m
    pub run : (e : Engine) → IsWorking e → Holds e → Fine (m e).0 × Holds (m e).1

  -- An action that leaves the epoch alone.
  pub Calm-Steady :
      {A : Type 0} (m : Exec A)
      → Keeps m
      → Steady names m
      → ((e : Engine) → Fine (m e).0)
      → ((e : Engine) → (m e).1.epoch ≡ e.epoch)
      → Calm m
  Calm-Steady m h s fine same = record {
    keeps = h;
    run = λ e w holds. (
      fine e,
      record {
        named = s.run e holds.named;
        small = subst (λ n. n < u64_mod) (sym (same e)) holds.small;
      },
    );
  }

  module _ {A : Type 0} where
    pub Calm-pure : (a : A) → Calm (pure a)
    unfolding ◌>>=◌
    Calm-pure a = Calm-Steady _ (Keeps-pure a) (Steady-pure names a) (λ e. tt) (λ e. refl)

    pub Calm-raise : (error : Error) → Calm {A = A} (raise error)
    unfolding ◌>>=◌
    Calm-raise error =
        Calm-Steady _ (Keeps-raise error) (Steady-raise names error) (λ e. tt) (λ e. refl)

    pub Calm-gets : (f : Engine → A) → Calm (gets f)
    unfolding ◌>>=◌
    Calm-gets f = Calm-Steady _ (Keeps-gets f) (Steady-gets names f) (λ e. tt) (λ e. refl)

    pub Calm-lift : (r : Result A) → Calm (lift r)
    unfolding ◌>>=◌
    Calm-lift r =
        Calm-Steady _ (Keeps-lift r) (Steady-lift names r) (λ e. ground arith) (λ e. ground arith)

    pub Calm-context : (o : Option A) (text : String) → Calm (context o text)
    unfolding ◌>>=◌
    Calm-context o text =
        Calm-Steady _ (Keeps-context o text) (Steady-context names o text) (λ e. ground arith)
          (λ e. ground arith)

    pub Calm-if : (b : Bool) (m n : Exec A) → Calm m → Calm n → Calm (if b then m else n)
    Calm-if true m n h k = h
    Calm-if false m n h k = k

    as_result_calm :
        (r : Answer A) (e : Engine)
        → Fine r
        → Holds e
        → Fine (as_result r e).0 × Holds (as_result r e).1
    as_result_calm (done a) e f h = (tt, h)
    as_result_calm (failed error) e f h = (tt, h)
    as_result_calm panicked e f h = absurd f

    pub Calm-attempt : (m : Exec A) → Calm m → Calm (attempt m)
    unfolding attempt
    Calm-attempt m h = record {
      keeps = Keeps-attempt m h.keeps;
      run = λ e w holds.
          let (r, e') = m e in
          let (fine, holds') = h.run e w holds in as_result_calm r e' fine holds';
    }

  pub Calm-next_io : Calm next_io
  unfolding ◌>>=◌
  Calm-next_io = Calm-Steady _ Keeps-next_io (Steady-next_io names) (λ e. tt) (λ e. refl)

  pub Calm-leave : (effect : Effect) → Calm (leave effect)
  unfolding leave ◌>>=◌
  Calm-leave effect =
      Calm-Steady _ (Keeps-leave effect) (Steady-same names (leave effect) (λ e. refl) (λ e. refl))
        (λ e. tt) (λ e. refl)

  pub Calm-insert_run : (r : Run) → Calm (insert_run r)
  unfolding insert_run ◌>>=◌
  Calm-insert_run r =
      Calm-Steady _ (Keeps-insert_run r)
        (Steady-update_state names _
          λ s. Has-runs names _ s (λ j k h. ground (arith, contains_key-insert j r.id r s.runs, h)))
        (λ e. tt) (λ e. refl)

  stays :
      (id : String)
      → names.runs id ≡ false
      → (m : BTreeMap Run) (j : String) → names.runs j ≡ true
      → contains_key j m ≡ true
      → contains_key j (remove id m) ≡ true
  stays id other m j k h = elim (Bool-cases (str_eq j id)) [
    | inl same ↦
        let here : names.runs id ≡ true =
          subst (λ x. names.runs x ≡ true) ((eq_iff j id).0 same) k in
        absurd (ground arith)
    | inr differs ↦ contains_key-remove j id m ∙ ground arith
  ]

  -- A run that is not one of those.
  pub Calm-remove_run :
      (id : String)
      → names.runs id ≡ false
      → Calm (update_state (λ s. record s { runs = remove id s.runs }))
  unfolding ◌>>=◌
  Calm-remove_run id other =
      Calm-Steady _ (Keeps-remove_run id)
        (Steady-update_state names _ (λ s. Has-runs names _ s (stays id other s.runs))) (λ e. tt)
        (λ e. refl)

  module _ {A B : Type 0} where
    Calm-continue :
        (r : Answer A) (f : A → Exec B) (e : Engine)
        → ((a : A) → Calm (f a))
        → IsWorking e
        → Fine r
        → Holds e
        → Fine (continue r f e).0 × Holds (continue r f e).1
    Calm-continue (done a) f e k w fine h = (k a).run e w h
    Calm-continue (failed error) f e k w fine h = (tt, h)
    Calm-continue panicked f e k w fine h = absurd fine

    pub Calm-bind : (m : Exec A) (f : A → Exec B) → Calm m → ((a : A) → Calm (f a)) → Calm (m >>= f)
    unfolding ◌>>=◌
    Calm-bind m f h k = record {
      keeps = Keeps-bind m f h.keeps (λ a. (k a).keeps);
      run = λ e w holds.
          let (r, e') = m e in
          let (fine, holds') = h.run e w holds in
          Calm-continue r f e' k (h.keeps.run e w).working fine holds';
    }

  -- The pool is there.
  pub Calm-modify_pool : (g : PoolState → PoolState) → Calm (modify_pool names.pool g)
  unfolding modify_pool ◌>>=◌
  Calm-modify_pool g = record {
    keeps = Keeps-modify_pool names.pool g;
    run = λ e w holds.
        let (p, here) = some_of_contains_key names.pool e.state.pools holds.named.state.pool in
        (
          ground arith,
          record {
            named = (Steady-modify_pool names names.pool g).run e holds.named;
            small = ground (arith, holds.small);
          },
        );
  }
