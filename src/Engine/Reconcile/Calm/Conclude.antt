-- ===== src/Engine/Reconcile/Calm/Conclude.antt =====
-- What follows a reconciliation in a tick of src/manager.rs: it does not panic, and ends with a save.
use runnerctl.Common.{
  ℕ, zero, suc, ◌<◌, String, ◌≡◌, Bool, true, false, some, [], ◌∷◌, arith, if◌then◌else◌,
  Option-cases, inl, inr, ltb, eq_iff, not, get_elem?,
}
use runnerctl.Result.{Result, ok, err, message, reconcile_interrupted}
use runnerctl.BTreeMap.{BTreeMap, lookup, contains_key, keys}
use runnerctl.Config.Memory.{u64_mod}
use runnerctl.State.{RetryScope, observation, provisioning, PoolState, State}
use runnerctl.Engine.{
  Env, Engine, Exec, Answer, done, failed, panicked, pure, update_state, ◌>>=◌, next_io,
  modify_pool,
}
use runnerctl.Engine.Store.{save, store_save, send_snapshot}
use runnerctl.Engine.Sound.{IsSound, HasRow}
use runnerctl.Engine.Handle.Keeps.{Keeps, keeps, Keeps-modify_pool}
use runnerctl.Engine.Handle.Epoch.{Keeps-save}
use runnerctl.Engine.Reconcile.{Outside}
use runnerctl.Engine.Reconcile.Exits.{record_failure, back_off}
use runnerctl.Engine.Reconcile.Tick.{turn, observed, conclude}
use runnerctl.Engine.Reconcile.Sound.Uncrossed.{Returned}
use runnerctl.Engine.Reconcile.Sound.Tick.{IsTicked}
use runnerctl.Engine.Reconcile.Calm.{Fine}
use runnerctl.Engine.Reconcile.Calm.Saved.{IsSettled, Saves, Saves-save, Saves-bind}
use runnerctl.Engine.Reconcile.Calm.Settle.{IsSafe, fine_bind, pure-fine}

-- Between the events of the loop: the state is well formed and stored, and the epoch has 64 bits.
pub record IsReady (e : Engine) : Type 0 where
  pub sound : IsSound e
  pub small : e.epoch < u64_mod

-- Ready, or failed with a row to start again from.
abbrev pub IsOver : {A : Type 0} → Answer A × Engine → Type 0
IsOver (done a, e) = IsReady e
IsOver (failed error, e) = HasRow e
IsOver (panicked, e) = ⊥

fine_if :
    {A : Type 0} (b : Bool) (m n : Exec A)
    → ((e : Engine) → Fine (m e).0)
    → ((e : Engine) → Fine (n e).0)
    → (e : Engine) → Fine ((if b then m else n) e).0
fine_if true m n h k = h
fine_if false m n h k = k

get_elem?_known :
    (i : ℕ) (name : String) (m : BTreeMap PoolState)
    → get_elem? (keys m) i ≡ some name
    → contains_key name m ≡ true
get_elem?_known i name [] h = absurd (ground arith)
get_elem?_known zero name ((k, p) ∷ m) h = ground (arith, eq_iff name k)
get_elem?_known (suc i) name ((k, p) ∷ m) h = ground (arith, get_elem?_known i name m)

pub known_turn :
    (cursor : ℕ) (name : String) (m : BTreeMap PoolState)
    → turn cursor (keys m) ≡ some name
    → contains_key name m ≡ true
unfolding turn
known_turn cursor name [] h = absurd (ground arith)
known_turn cursor name ((k, p) ∷ m) h = get_elem?_known _ name ((k, p) ∷ m) h

pub unless_waiting :
    (b : Bool) (m : Exec (Unit {0})) (e : Engine)
    → IsReady e
    → IsOver (m e)
    → IsOver ((if b then pure tt else m) e)
unfolding ◌>>=◌
unless_waiting true m e ready over = ready
unless_waiting false m e ready over = over

module _ (env : Env) (o : Outside) where
  record_failure-fine :
      (name error : String) (scope : RetryScope) (e : Engine)
      → Fine (record_failure env o name error scope e).0
  unfolding record_failure back_off modify_pool ◌>>=◌
  record_failure-fine name error scope e = elim (Option-cases (lookup name e.state.pools)) [
    | inl gone ↦ rw gone tt
    | inr (p, here) ↦ ground arith
  ]

  pub save-fine : (e : Engine) → Fine (save env e).0
  unfolding save store_save send_snapshot ◌>>=◌
  save-fine e = ground arith

  update_state-fine : (g : State → State) (e : Engine) → Fine (update_state g e).0
  unfolding ◌>>=◌
  update_state-fine g e = tt

  next_io-fine : (e : Engine) → Fine (next_io e).0
  unfolding ◌>>=◌
  next_io-fine e = tt

  observed-fine : (name : String) (e : Engine) → Fine (observed env o name e).0
  unfolding observed
  observed-fine name =
      fine_bind _ _ next_io-fine (λ n. fine_bind _ _ (update_state-fine _) (λ _. save-fine))

  pub conclude-fine :
      (name : String) (retrying : Bool) (r : Result ℕ) (e : Engine)
      → Fine (conclude env o name retrying r e).0
  unfolding conclude
  conclude-fine name retrying (ok n) =
      fine_bind _ _
        (fine_if (ltb 0 n) _ _ (record_failure-fine name _ provisioning)
          (fine_if (not retrying) _ _ (update_state-fine _) (pure-fine tt)))
        (λ _. observed-fine name)
  conclude-fine name retrying (err reconcile_interrupted) = save-fine
  conclude-fine name retrying (err (message text)) =
      fine_bind _ _ (record_failure-fine name text observation)
        (λ _. fine_bind _ _ (update_state-fine _) (λ _. observed-fine name))

  record_failure-Keeps :
      (name error : String) (scope : RetryScope) → Keeps (record_failure env o name error scope)
  unfolding record_failure back_off
  record_failure-Keeps name error scope = search (keeps, Keeps-modify_pool) depth 24

  pub conclude-Keeps :
      (name : String) (retrying : Bool) (r : Result ℕ) → Keeps (conclude env o name retrying r)
  unfolding conclude observed
  conclude-Keeps name retrying (ok n) = search (keeps, record_failure-Keeps, Keeps-save) depth 24
  conclude-Keeps name retrying (err reconcile_interrupted) = Keeps-save env
  conclude-Keeps name retrying (err (message text)) =
      search (keeps, record_failure-Keeps, Keeps-save) depth 24

  observed-Saves : (name : String) → Saves (observed env o name)
  unfolding observed
  observed-Saves name = Saves-bind _ _ λ n. Saves-bind _ _ (λ _. Saves-save env)

  pub conclude-Saves :
      (name : String) (retrying : Bool) (r : Result ℕ) → Saves (conclude env o name retrying r)
  unfolding conclude
  conclude-Saves name retrying (ok n) = Saves-bind _ _ (λ _. observed-Saves name)
  conclude-Saves name retrying (err reconcile_interrupted) = Saves-save env
  conclude-Saves name retrying (err (message text)) =
      Saves-bind _ _ (λ _. Saves-bind _ _ (λ _. observed-Saves name))

  -- A state that is well formed and was saved.
  pub IsOver-saved :
      (r : Answer (Unit {0})) (e : Engine)
      → IsTicked (r, e)
      → IsSafe (r, e)
      → Returned (λ _. IsSettled) (r, e)
      → IsOver (r, e)
  IsOver-saved (done x) e (inl w) safe settled = record {
    sound = record { well_formed = w.0; stored = settled.stored; shown = settled.shown };
    small = safe.1;
  }
  IsOver-saved (done x) e (inr h) safe settled = absurd h.0
  IsOver-saved (failed error) e (inl w) safe settled = w.1
  IsOver-saved (failed error) e (inr h) safe settled = h.1
  IsOver-saved panicked e t safe settled = absurd safe.0
