-- ===== src/Engine/Handle/Names/Apply.antt =====
-- The loop of the apply request of src/manager.rs returns a map with the pools that it was given.
use runnerctl.Common.{◌≡◌, ◌∙◌, true, Option, none, some, List, [], ◌∷◌}
use runnerctl.BTreeMap.{BTreeMap, contains_key}
use runnerctl.BTreeMap.Laws.{contains_key-modify}
use runnerctl.Config.{Pool}
use runnerctl.State.{PoolState}
use runnerctl.Engine.{Env, Engine, Exec, Answer, done, failed, panicked, pure, continue, ◌>>=◌}
use runnerctl.Engine.Apply.{panics, apply_old, apply_new, apply_at, apply_pool, apply_pools}
use runnerctl.Engine.Handle.Names.{
  Names, IsNamed, Steady, Steady-pure, Steady-panics, Steady-gets, Steady-ensure, Steady-next_io,
  Steady-bind,
}
use runnerctl.Engine.Handle.Names.Rules.{insert_keeps}

module _ (names : Names) (env : Env) where
  -- The map that is returned has the pool.
  abbrev pub Given : Answer (BTreeMap PoolState) → Type 0
  Given (done m) = contains_key names.pool m ≡ true
  Given (failed error) = Unit
  Given panicked = Unit

  pub record Gives (m : Exec (BTreeMap PoolState)) : Type 0 where
    pub steady : Steady names m
    pub run : (e : Engine) → Given (m e).0

  Gives-pure : (m : BTreeMap PoolState) → contains_key names.pool m ≡ true → Gives (pure m)
  unfolding ◌>>=◌
  Gives-pure m h = record { steady = Steady-pure names m; run = λ e. h }

  module _ {A : Type 0} where
    Given-continue :
        (r : Answer A) (f : A → Exec (BTreeMap PoolState)) (e : Engine)
        → ((a : A) → Gives (f a))
        → Given (continue r f e).0
    Given-continue (done a) f e k = (k a).run e
    Given-continue (failed error) f e k = tt
    Given-continue panicked f e k = tt

    Gives-bind :
        (m : Exec A) (f : A → Exec (BTreeMap PoolState))
        → Steady names m
        → ((a : A) → Gives (f a))
        → Gives (m >>= f)
    unfolding ◌>>=◌
    Gives-bind m f h k = record {
      steady = Steady-bind names m f h (λ a. (k a).steady);
      run = λ e. let (r, e') = m e in Given-continue r f e' k;
    }

    IsNamed-given :
        (r : Answer (BTreeMap PoolState)) (f : BTreeMap PoolState → Exec A) (e : Engine)
        → Given r
        → ((m : BTreeMap PoolState) → contains_key names.pool m ≡ true → Steady names (f m))
        → IsNamed names e
        → IsNamed names (continue r f e).1
    IsNamed-given (done m) f e g k n = (k m g).run e n
    IsNamed-given (failed error) f e g k n = n
    IsNamed-given panicked f e g k n = n

    pub Steady-given :
        (m : Exec (BTreeMap PoolState)) (f : BTreeMap PoolState → Exec A)
        → Gives m
        → ((a : BTreeMap PoolState) → contains_key names.pool a ≡ true → Steady names (f a))
        → Steady names (m >>= f)
    unfolding ◌>>=◌
    Steady-given m f h k = record {
      run = λ e n. let (r, e') = m e in IsNamed-given r f e' (h.run e) k (h.steady.run e n);
    }

  Given-after :
      (r : Answer (BTreeMap PoolState)) (f : BTreeMap PoolState → Exec (BTreeMap PoolState))
      (e : Engine)
      → Given r
      → ((m : BTreeMap PoolState) → contains_key names.pool m ≡ true → Gives (f m))
      → Given (continue r f e).0
  Given-after (done m) f e g k = (k m g).run e
  Given-after (failed error) f e g k = tt
  Given-after panicked f e g k = tt

  Gives-given :
      (m : Exec (BTreeMap PoolState)) (f : BTreeMap PoolState → Exec (BTreeMap PoolState))
      → Gives m
      → ((a : BTreeMap PoolState) → contains_key names.pool a ≡ true → Gives (f a))
      → Gives (m >>= f)
  unfolding ◌>>=◌
  Gives-given m f h k = record {
    steady = Steady-given m f h (λ a c. (k a c).steady);
    run = λ e. let (r, e') = m e in Given-after r f e' (h.run e) k;
  }

  Gives-panics : Gives panics
  unfolding panics
  Gives-panics = record { steady = Steady-panics names; run = λ e. tt }

  apply_at-Gives :
      (new : Pool) (old : Option Pool) (ps : Option PoolState) (m : BTreeMap PoolState)
      → contains_key names.pool m ≡ true
      → Gives (apply_at env new old ps m)
  unfolding apply_at apply_old apply_new
  apply_at-Gives new none ps m h =
      Gives-bind _ _ (Steady-next_io names) λ n. Gives-pure _ (insert_keeps names new.name _ m h)
  apply_at-Gives new (some old) none m h = Gives-panics
  apply_at-Gives new (some old) (some ps) m h = Gives-bind _ _ (Steady-ensure names _ _) λ _.
      Gives-bind _ _ (Steady-gets names _) λ s.
        Gives-bind _ _ (Steady-ensure names _ _)
          λ _. Gives-pure _ (contains_key-modify names.pool new.name _ m ∙ h)

  pub apply_pools-Gives :
      (pools : List Pool) (m : BTreeMap PoolState)
      → contains_key names.pool m ≡ true
      → Gives (apply_pools env pools m)
  unfolding apply_pools apply_pool
  apply_pools-Gives [] m h = Gives-pure m h
  apply_pools-Gives (new ∷ rest) m h =
      Gives-given _ _ (Gives-bind _ _ (Steady-gets names _) (λ s. apply_at-Gives new _ _ m h))
        (apply_pools-Gives rest)
