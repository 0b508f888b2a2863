-- ===== src/Engine/Reconcile/Returns.antt =====
-- What the actions of a reconciliation of src/manager.rs return.
use runnerctl.Common.{ℕ, ◌≡◌, subst, refl, ap, Bool, true, false, some, arith, if◌then◌else◌}
use runnerctl.Result.{Result, ok, err}
use runnerctl.State.{Run}
use runnerctl.Engine.{
  Env, Engine, Exec, Answer, done, failed, panicked, pure, lift, continue, ◌>>=◌,
}
use runnerctl.Engine.Reconcile.{Outside, attempt, as_result, index_run, external}
use runnerctl.Common.{String}
use runnerctl.BTreeMap.{lookup}
use runnerctl.State.{Run}
use runnerctl.Engine.Reconcile.{index_run}

-- The index of a recorded run.
pub index_run-some :
    (id : String) (e : Engine) (r : Run)
    → lookup id e.state.runs ≡ some r
    → index_run id e ≡ (done r, e)
unfolding index_run
index_run-some id e r h = ground arith

-- What is known of the value that an action returns, if it does.
pub record Returns {A : Type 0} (Q : A → Type 0) (m : Exec A) : Type 0 where
  pub run : (e e' : Engine) (a : A) → m e ≡ (done a, e') → Q a

pub Returns-pure : {A : Type 0} {Q : A → Type 0} (a : A) → Q a → Returns Q (pure a)
unfolding ◌>>=◌
Returns-pure {Q = Q} a q = record { run = λ e e' b h. subst Q (ground arith) q }

pub Returns-lift : {A : Type 0} (r : Result A) → Returns (λ a. r ≡ ok a) (lift r)
unfolding ◌>>=◌
Returns-lift (ok a) = record { run = λ e e' b h. ground arith }
Returns-lift (err error) = record { run = λ e e' b h. absurd (ground arith) }

pub Returns-if :
    {A : Type 0} {Q : A → Type 0} (b : Bool) (m n : Exec A)
    → Returns Q m
    → Returns Q n
    → Returns Q (if b then m else n)
Returns-if true m n h k = h
Returns-if false m n h k = k

module _ {A B : Type 0} where
  continued :
      (Q : B → Type 0) (f : A → Exec B) (r : Answer A) (e e' : Engine) (b : B)
      → ((a : A) → r ≡ done a → Returns Q (f a))
      → continue r f e ≡ (done b, e')
      → Q b
  continued Q f (done a) e e' b k h = (k a refl).run e e' b h
  continued Q f (failed error) e e' b k h = absurd (ground arith)
  continued Q f panicked e e' b k h = absurd (ground arith)

  pub Returns-bind :
      {Q : B → Type 0} (m : Exec A) (f : A → Exec B)
      → ((a : A) → Returns Q (f a))
      → Returns Q (m >>= f)
  unfolding ◌>>=◌
  Returns-bind {Q = Q} m f k = record {
    run = λ e e' b h. let (r, e1) = m e in continued Q f r e1 e' b (λ a _. k a) h;
  }

  pub Returns-then :
      {R : A → Type 0} {Q : B → Type 0} (m : Exec A) (f : A → Exec B)
      → Returns R m
      → ((a : A) → R a → Returns Q (f a))
      → Returns Q (m >>= f)
  unfolding ◌>>=◌
  Returns-then {Q = Q} m f q k = record {
    run = λ e e' b h.
        let (r, e1) = m e in
        continued Q f r e1 e' b (λ a is_done. k a (q.run e e1 a (ap (λ x. (x, e1)) is_done))) h;
  }

pub Returns-attempt :
    {A : Type 0} {Q : A → Type 0} (m : Exec A)
    → Returns Q m
    → Returns (λ (r : Result A). (a : A) → r ≡ ok a → Q a) (attempt m)
unfolding attempt
Returns-attempt {A = A} {Q = Q} m h = record {
  run = λ e e' r same a is_ok.
      let (x, e1) = m e in
      by_answer x e e1 e' r same a is_ok (λ b is_done. h.run e e1 b (ap (λ q. (q, e1)) is_done));
}
  where
    by_answer :
        (x : Answer A) (e e1 e' : Engine) (r : Result A)
        → as_result x e1 ≡ (done r, e')
        → (a : A) → r ≡ ok a
        → ((b : A) → x ≡ done b → Q b)
        → Q a
    by_answer (done b) e e1 e' r same a is_ok k = subst Q (ground arith) (k b refl)
    by_answer (failed error) e e1 e' r same a is_ok k = absurd (ground arith)
    by_answer panicked e e1 e' r same a is_ok k = absurd (ground arith)

pub Returns-external :
    {A : Type 0} (env : Env) (o : Outside) (start : Exec (Unit {0})) (answer : ℕ → Result A)
    → Returns (λ (a : A). (n : ℕ) × (answer n ≡ ok a)) (external env o start answer)
unfolding external
Returns-external env o start answer = Returns-bind _ _ λ _. Returns-bind _ _ λ n.
    Returns-bind _ _ λ _. Returns-bind _ _ λ _.
      Returns-bind _ _ λ _. record { run = λ e e' a h. (n, (Returns-lift (answer n)).run e e' a h) }
