-- ===== src/Engine/Reconcile/Sound/Rounds.antt =====
-- The loop of `reconcile` in src/manager.rs over the runs of a pool: if it returns without a noted
-- error, no request changed the state meanwhile.
use runnerctl.Common.{◌≡◌, ◌⊎◌, inl, inr, Bool, true, false, none, some, if◌then◌else◌, arith}
use runnerctl.Result.{Error}
use runnerctl.State.{Run}
use runnerctl.Engine.{Env, Engine, Exec, Answer, done, failed, panicked, pure, ◌>>=◌, continue}
use runnerctl.Engine.Sound.{IsWorking}
use runnerctl.Engine.Reconcile.{Outside, attempt, as_result}
use runnerctl.Engine.Reconcile.Steps.{Progress, note_error, or_note}
use runnerctl.Engine.Reconcile.Sound.{Keeps}
use runnerctl.Engine.Reconcile.Sound.Uncrossed.{IsUncrossed, Returned, Plain}

abbrev pub has_error : Progress → Bool
has_error p = elim p.cleanup_error [ none ↦ false | some _ ↦ true ]

-- Uncrossed, or an error is noted.
abbrev pub IsClear : Bool → Engine → Type 0
IsClear noted e = IsUncrossed e ⊎ (noted ≡ true)

-- From an engine that is clear to one that is.
pub record Noted (noted : Bool) (m : Exec Progress) : Type 0 where
  pub run :
      (e : Engine) → IsWorking e → IsClear noted e → Returned (λ p. IsClear (has_error p)) (m e)

pub Noted-pure :
    (noted : Bool) (p : Progress) → (noted ≡ true → has_error p ≡ true) → Noted noted (pure p)
unfolding ◌>>=◌
Noted-pure noted p h = record { run = λ e w c. by_case e c }
  where
    by_case : (e : Engine) → IsClear noted e → IsClear (has_error p) e
    by_case e (inl u) = inl u
    by_case e (inr t) = inr (h t)

pub Noted-if :
    (noted b : Bool) (m n : Exec Progress)
    → Noted noted m
    → Noted noted n
    → Noted noted (if b then m else n)
Noted-if noted true m n h k = h
Noted-if noted false m n h k = k

IsClear-after :
    {A : Type 0} (noted : Bool) (r : Answer A) (f : A → Exec Progress) (e' : Engine)
    → ((a : A) → Noted noted (f a))
    → IsWorking e'
    → Returned (λ _. IsClear noted) (r, e')
    → Returned (λ p. IsClear (has_error p)) (continue r f e')
IsClear-after noted (done a) f e' k w c = (k a).run e' w c
IsClear-after noted (failed error) f e' k w c = tt
IsClear-after noted panicked f e' k w c = tt

IsClear-Returned :
    {A : Type 0} (noted : Bool) (r : Answer A) (e e' : Engine)
    → (IsUncrossed e → Returned (λ _. IsUncrossed) (r, e'))
    → IsClear noted e
    → Returned (λ _. IsClear noted) (r, e')
IsClear-Returned noted (done a) e e' h (inl u) = inl (h u)
IsClear-Returned noted (done a) e e' h (inr t) = inr t
IsClear-Returned noted (failed error) e e' h c = tt
IsClear-Returned noted panicked e e' h c = tt

module _ {A : Type 0} where
  pub Noted-bind :
      (noted : Bool) (m : Exec A) (f : A → Exec Progress)
      → Plain m
      → ((a : A) → Noted noted (f a))
      → Noted noted (m >>= f)
  unfolding ◌>>=◌
  Noted-bind noted m f h k = record {
    run = λ e w c.
        let (r, e') = m e in
        IsClear-after noted r f e' k (h.keeps.run e w).working
          (IsClear-Returned noted r e e' (h.run e w) c);
  }

pub Noted-then :
    (noted : Bool) (m : Exec Progress) (f : Progress → Exec Progress)
    → Keeps m
    → Noted noted m
    → ((p : Progress) → Noted (has_error p) (f p))
    → Noted noted (m >>= f)
unfolding ◌>>=◌
Noted-then noted m f h n k = record {
  run = λ e w c. let (r, e') = m e in by_answer r e' (h.run e w).working (n.run e w c);
}
  where
    by_answer :
        (r : Answer Progress) (e' : Engine)
        → IsWorking e'
        → Returned (λ q. IsClear (has_error q)) (r, e')
        → Returned (λ q. IsClear (has_error q)) (continue r f e')
    by_answer (done next) e' w c = (k next).run e' w c
    by_answer (failed error) e' w c = tt
    by_answer panicked e' w c = tt

-- An error that is noted.
note_error-Noted : (error : Error) (p : Progress) → has_error (note_error error p) ≡ true
note_error-Noted error p = ground arith

pub Noted-attempt :
    (env : Env) (o : Outside) (p : Progress) (m : Exec Run) (k : Run → Exec Progress)
    → Plain m
    → ((run : Run) → Noted (has_error p) (k run))
    → Noted (has_error p) (attempt m >>= λ r. or_note env o p r k)
unfolding attempt ◌>>=◌
Noted-attempt env o p m k h n = record {
  run = λ e w c.
      let (r, e') = m e in
      by_answer r e' (h.keeps.run e w).working
        (IsClear-Returned (has_error p) r e e' (h.run e w) c);
}
  where
    by_answer :
        (r : Answer Run) (e' : Engine)
        → IsWorking e'
        → Returned (λ _. IsClear (has_error p)) (r, e')
        → Returned
            (λ q. IsClear (has_error q))
            (continue (as_result r e').0 (λ r. or_note env o p r k) (as_result r e').1)
    by_answer (done run) e' w c = (n run).run e' w c
    by_answer (failed error) e' w c = inr (note_error-Noted error p)
    by_answer panicked e' w c = tt
