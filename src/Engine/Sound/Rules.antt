-- ===== src/Engine/Sound/Rules.antt =====
-- The rules for the actions of a request of src/manager.rs from a known state.
use runnerctl.Common.{
  String, ◌≡◌, refl, Bool, true, false, Option, none, some, ◌∙◌, sym, subst, ap, ℕ, ◌+◌,
  if◌then◌else◌,
}
use runnerctl.Result.{Result, ok, err}
use runnerctl.BTreeMap.{lookup, contains_key, modify}
use runnerctl.BTreeMap.Laws.{some_of_contains_key}
use runnerctl.State.{PoolState, State}
use runnerctl.Engine.{
  Engine, Exec, pure, lift, gets, update, ◌>>=◌, ◌>>◌, ensure, context, next_io, update_state,
  index_pool, modify_pool,
}
use runnerctl.Engine.Sound.{
  At, Outcome, Triple, Triple-bind, bind_of_eq, index_pool-some, modify_pool-some,
}

-- The rules for a known state.
module _ {B : Type 0} (s : State) {R : B → Engine → Type 0} where
  pub At-state :
      (f : State → Exec B) → Triple (At s) (f s) R → Triple (At s) (gets (λ e. e.state) >>= f) R
  unfolding ◌>>=◌
  At-state f k = record { run = λ e p. subst (λ t. Outcome R (f t e)) (sym p.0) (k.run e p) }

  pub At-gets :
      {A : Type 0} (g : State → A) (f : A → Exec B)
      → Triple (At s) (f (g s)) R
      → Triple (At s) (gets (λ e. g e.state) >>= f) R
  unfolding ◌>>=◌
  At-gets g f k = record { run = λ e p. subst (λ t. Outcome R (f (g t) e)) (sym p.0) (k.run e p) }

  pub At-ensure :
      (b : Bool) (text : String) (k : Exec B)
      → (b ≡ true → Triple (At s) k R)
      → Triple (At s) (ensure b text >> k) R
  unfolding ◌>>=◌
  At-ensure true text k h = h refl
  At-ensure false text k h = record { run = λ e p. p.1 }

  pub At-context :
      {A : Type 0} (o : Option A) (text : String) (f : A → Exec B)
      → ((a : A) → o ≡ some a → Triple (At s) (f a) R)
      → Triple (At s) (context o text >>= f) R
  unfolding ◌>>=◌
  At-context (some a) text f h = h a refl
  At-context none text f h = record { run = λ e p. p.1 }

  pub At-lift :
      {A : Type 0} (r : Result A) (f : A → Exec B)
      → ((a : A) → r ≡ ok a → Triple (At s) (f a) R)
      → Triple (At s) (lift r >>= f) R
  unfolding ◌>>=◌
  At-lift (ok a) f h = h a refl
  At-lift (err error) f h = record { run = λ e p. p.1 }

  pub At-update_state :
      (g : State → State) (k : Exec B)
      → Triple (At (g s)) k R
      → Triple (At s) (update_state g >> k) R
  unfolding ◌>>=◌
  At-update_state g k h = record {
    run = λ e p. h.run (record e { state = g e.state }) (ap g p.0, p.1);
  }

  pub At-next_io :
      (f : ℕ → Exec B) → ((n : ℕ) → Triple (At s) (f n) R) → Triple (At s) (next_io >>= f) R
  unfolding ◌>>=◌
  At-next_io f h = record { run = λ e p. (h e.io).run (record e { io = e.io + 1 }) p }

  pub At-update :
      (g : Engine → Engine) (k : Exec B)
      → ((e : Engine) → ((g e).state ≡ e.state) × ((g e).row ≡ e.row))
      → Triple (At s) k R
      → Triple (At s) (update g >> k) R
  unfolding ◌>>=◌
  At-update g k same h = record {
    run = λ e p.
        let (stored, written, well) = p.1 in
        h.run (g e) ((same e).0 ∙ p.0, (stored, (same e).1 ∙ written, well));
  }

  -- An index or `get_mut` of a known pool does not panic.
  pub At-index_pool :
      (name : String) (f : PoolState → Exec B)
      → contains_key name s.pools ≡ true
      → ((p : PoolState) → lookup name s.pools ≡ some p → Triple (At s) (f p) R)
      → Triple (At s) (index_pool name >>= f) R
  unfolding ◌>>=◌
  At-index_pool name f known h = record {
    run = λ e p.
        let (ps, found) = some_of_contains_key name s.pools known in
        let here : lookup name e.state.pools ≡ some ps =
          subst (λ t. lookup name t.pools ≡ some ps) (sym p.0) found in
        subst (Outcome R)
          (sym (bind_of_eq (index_pool name) f e e ps (index_pool-some name e here)))
          ((h ps found).run e p);
  }

  pub At-modify_pool :
      (name : String) (g : PoolState → PoolState) (f : PoolState → Exec B)
      → contains_key name s.pools ≡ true
      → ((p : PoolState)
          → lookup name s.pools ≡ some p
          → Triple (At (record s { pools = modify name g s.pools })) (f p) R)
      → Triple (At s) (modify_pool name g >>= f) R
  unfolding modify_pool
  At-modify_pool name g f known h = record {
    run = λ e p.
        let (ps, found) = some_of_contains_key name s.pools known in
        let here : lookup name e.state.pools ≡ some ps =
          subst (λ t. lookup name t.pools ≡ some ps) (sym p.0) found in
        let e' = record e { state = record e.state { pools = modify name g e.state.pools } } in
        subst (Outcome R)
          (sym (bind_of_eq (modify_pool name g) f e e' ps (modify_pool-some name g e here)))
          ((h ps found).run e'
            (ap (λ (t : State). record t { pools = modify name g t.pools }) p.0, p.1));
  }

  pub At-pure : (b : B) → ((e : Engine) → At s e → R b e) → Triple (At s) (pure b) R
  unfolding ◌>>=◌
  At-pure b h = record { run = λ e p. h e p }

  -- A call with a triple of its own, whose result is known by a fact `F`.
  pub At-call :
      {A : Type 0} (F : A → Type 0) (m : Exec A) (f : A → Exec B)
      → Triple (At s) m (λ a e. At s e × F a)
      → ((a : A) → F a → Triple (At s) (f a) R)
      → Triple (At s) (m >>= f) R
  At-call F m f h k =
      Triple-bind (λ a e. At s e × F a) m f h λ a. record { run = λ e q. (k a q.1).run e q.0 }

pub Triple-if :
    {A : Type 0} {P : Engine → Type 0} {R : A → Engine → Type 0} (b : Bool) (m n : Exec A)
    → Triple P m R
    → Triple P n R
    → Triple P (if b then m else n) R
Triple-if true m n h k = h
Triple-if false m n h k = k
