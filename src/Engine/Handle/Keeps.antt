-- ===== src/Engine/Handle/Keeps.antt =====
-- Actions that leave the epochs and everything outside alone, with a rule for each action.
use runnerctl.Common.{
  ◌+◌, String, ◌≡◌, refl, ◌∙◌, Bool, true, false, Option, none, some, arith, if◌then◌else◌,
}
use runnerctl.Result.{Error, Result, ok, err}
use runnerctl.State.{PoolState, State}
use runnerctl.Engine.{
  Engine, Exec, Answer, done, failed, panicked, pure, lift, raise, gets, context, update,
  update_state, ensure, next_io, index_pool, mark, continue, ◌>>=◌, modify_pool,
}
use runnerctl.Engine.Store.{send_snapshot}
use runnerctl.Engine.Apply.{panics}
use runnerctl.Engine.Handle.Laws.{clock}

pub record Keeps {A : Type 0} (m : Exec A) : Type 0 where
  pub run : (e : Engine) → clock (m e).1 ≡ clock e

module _ {A : Type 0} where
  pub Keeps-pure : (a : A) → Keeps (pure a)
  unfolding ◌>>=◌
  Keeps-pure a = record { run = λ e. refl }

  pub Keeps-raise : (error : Error) → Keeps (raise {A = A} error)
  unfolding ◌>>=◌
  Keeps-raise error = record { run = λ e. refl }

  pub Keeps-panics : Keeps (panics {A = A})
  unfolding panics
  Keeps-panics = record { run = λ e. refl }

  pub Keeps-gets : (f : Engine → A) → Keeps (gets f)
  unfolding ◌>>=◌
  Keeps-gets f = record { run = λ e. refl }

  pub Keeps-lift : (r : Result A) → Keeps (lift r)
  unfolding ◌>>=◌
  Keeps-lift (ok a) = record { run = λ e. refl }
  Keeps-lift (err error) = record { run = λ e. refl }

  pub Keeps-context : (o : Option A) (text : String) → Keeps (context o text)
  unfolding ◌>>=◌
  Keeps-context none text = record { run = λ e. refl }
  Keeps-context (some a) text = record { run = λ e. refl }

  pub Keeps-if : (b : Bool) (m n : Exec A) → Keeps m → Keeps n → Keeps (if b then m else n)
  Keeps-if true m n h k = h
  Keeps-if false m n h k = k

pub Keeps-ensure : (b : Bool) (text : String) → Keeps (ensure b text)
unfolding ◌>>=◌
Keeps-ensure true text = record { run = λ e. refl }
Keeps-ensure false text = record { run = λ e. refl }

pub Keeps-update_state : (f : State → State) → Keeps (update_state f)
unfolding ◌>>=◌
Keeps-update_state f = record { run = λ e. refl }

pub Keeps-next_io : Keeps next_io
unfolding ◌>>=◌
Keeps-next_io = record { run = λ e. refl }

pub Keeps-row : (s : State) → Keeps (update (λ e. record e { row = some s }))
unfolding ◌>>=◌
Keeps-row s = record { run = λ e. refl }

pub Keeps-state : (s : State) → Keeps (update (λ e. record e { state = s }))
unfolding ◌>>=◌
Keeps-state s = record { run = λ e. refl }

pub Keeps-file : (text : String) → Keeps (update (λ e. record e { file = some text }))
unfolding ◌>>=◌
Keeps-file text = record { run = λ e. refl }

pub Keeps-cleared : Keeps (update (λ e. record e { cleared = e.cleared + 1 }))
unfolding ◌>>=◌
Keeps-cleared = record { run = λ e. refl }

pub Keeps-index_pool : (name : String) → Keeps (index_pool name)
unfolding ◌>>=◌
Keeps-index_pool name = record { run = λ e. ground arith }

pub Keeps-mark : (name : String) → Keeps (mark name)
unfolding ◌>>=◌
Keeps-mark name = record { run = λ e. ground arith }

pub Keeps-send_snapshot : Keeps send_snapshot
unfolding send_snapshot
Keeps-send_snapshot = record { run = λ e. ground arith }

pub Keeps-bind :
    {A B : Type 0} (m : Exec A) (f : A → Exec B)
    → Keeps m
    → ((a : A) → Keeps (f a))
    → Keeps (m >>= f)
unfolding ◌>>=◌
Keeps-bind m f h k = record { run = λ e. let (r, e') = m e in go r e' ∙ h.run e }
  where
    go : (r : Answer _) (e : Engine) → clock (continue r f e).1 ≡ clock e
    go (done a) e = (k a).run e
    go (failed error) e = refl
    go panicked e = refl

pub ruleset keeps = (
  Keeps-bind, Keeps-pure, Keeps-raise, Keeps-panics, Keeps-gets, Keeps-lift, Keeps-context,
  Keeps-if, Keeps-ensure, Keeps-update_state, Keeps-next_io, Keeps-row, Keeps-state, Keeps-file,
  Keeps-cleared, Keeps-index_pool, Keeps-mark, Keeps-send_snapshot,
)

pub Keeps-modify_pool : (name : String) (f : PoolState → PoolState) → Keeps (modify_pool name f)
unfolding modify_pool
Keeps-modify_pool name f = search keeps depth 20
