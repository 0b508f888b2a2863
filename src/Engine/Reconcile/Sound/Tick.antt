-- ===== src/Engine/Reconcile/Sound/Tick.antt =====
-- `tick` of src/manager.rs keeps the states well formed, or fails, and then the row can be read back.
use runnerctl.Common.{
  ℕ, ◌+◌, ◌%◌, String, ◌≡◌, ◌⊎◌, inl, inr, refl, sym, subst, Bool, true, false, Option, none, some,
  arith, if◌then◌else◌,
}
use runnerctl.Result.{Result, ok, err, message, reconcile_interrupted}
use runnerctl.Config.Memory.{u64_mod}
use runnerctl.BTreeMap.{lookup, keys, modify, map_values}
use runnerctl.State.{PoolState, Run, State}
use runnerctl.Engine.{
  Env, Engine, Exec, Answer, done, failed, panicked, pure, gets, update, update_state, ◌>>=◌, ◌>>◌,
  continue,
}
use runnerctl.Engine.Sound.{IsWellFormed, HasRow, IsWorking}
use runnerctl.Engine.Sound.Wf.{modify-IsWellFormed, map_runs-IsWellFormed}
use runnerctl.Engine.Store.{save}
use runnerctl.Engine.Reconcile.{Outside, attempt, as_result}
use runnerctl.Engine.Reconcile.Exits.{record_failure}
use runnerctl.Engine.Reconcile.Pass.{reconcile}
use runnerctl.Engine.Reconcile.Tick.{
  turn, is_interrupted, forget_phase, forget_phases, observed, conclude, attempt_pass, take_turn,
  tick,
}
use runnerctl.Engine.Reconcile.Sound.{
  Keeps, Keeps-update_state, Keeps-bind, Keeps-if, Keeps-pure, Keeps-next_io, Keeps-index_pool,
}
use runnerctl.Engine.Reconcile.Sound.Actions.{keeping, Keeps-save}
use runnerctl.Engine.Reconcile.Sound.Steps.{record_failure-Keeps}
use runnerctl.Engine.Reconcile.Sound.Uncrossed.{IsUncrossed}
use runnerctl.Engine.Reconcile.Sound.Ended.{IsEnded}
use runnerctl.Engine.Reconcile.Sound.Pass.{reconcile-Ends}

-- A failure of the action itself, which ends the manager.
abbrev pub IsFailed : {A : Type 0} → Answer A → Type 0
IsFailed (failed error) = Unit
IsFailed _ = ⊥

-- What is well formed stays so, or the action failed and the row can be read back.
abbrev pub IsTicked : {A : Type 0} → Answer A × Engine → Type 0
IsTicked (r, e) = IsWorking e ⊎ (IsFailed r × HasRow e)

forget_phase-id : (id : String) (r : Run) → (forget_phase id r).id ≡ r.id
unfolding forget_phase
forget_phase-id id r = ground arith

forget_phases-IsWellFormed :
    (name : String) (s : State) → IsWellFormed s → IsWellFormed (forget_phases name s)
forget_phases-IsWellFormed name s w = by_pool (lookup name s.pools)
  where
    by_pool :
        (o : Option PoolState)
        → IsWellFormed (elim o [
          | none ↦ s
          | some p ↦ record s { runs = map_values (forget_phase p.id) s.runs }
        ])
    by_pool none = w
    by_pool (some p) = map_runs-IsWellFormed (forget_phase p.id) s (forget_phase-id p.id) w

module _ (env : Env) (loads : (n : ℕ) → env.load_fails n ≡ false) (o : Outside) where
  modify-Keeps :
      (name : String) (g : PoolState → PoolState)
      → Keeps (update_state (λ s. record s { pools = modify name g s.pools }))
  modify-Keeps name g = Keeps-update_state _ (modify-IsWellFormed name g)

  observed-Keeps : (name : String) → Keeps (observed env o name)
  unfolding observed
  observed-Keeps name = search (keeping, modify-Keeps) depth 24

  conclude-Keeps :
      (name : String) (retrying : Bool) (r : Result ℕ) → Keeps (conclude env o name retrying r)
  unfolding conclude
  conclude-Keeps name retrying (ok n) =
      search (keeping, record_failure-Keeps env loads o, modify-Keeps, observed-Keeps) depth 24
  conclude-Keeps name retrying (err reconcile_interrupted) = Keeps-save env
  conclude-Keeps name retrying (err (message text)) =
      Keeps-bind _ _ (record_failure-Keeps env loads o name text _) λ _.
        Keeps-bind _ _ (Keeps-update_state _ (forget_phases-IsWellFormed name))
          λ _. observed-Keeps name

  -- The failure of a pool without a state is an error of the tick.
  conclude_dropped :
      (name text : String) (retrying : Bool) (e : Engine)
      → lookup name e.state.pools ≡ none
      → conclude env o name retrying (err (message text)) e
        ≡ (failed (message "pool disappeared"), record e { io = e.io + 1 })
  unfolding conclude record_failure ◌>>=◌
  conclude_dropped name text retrying e h = ground arith

  -- What follows the reconciliation.
  unfoldable pub finish_pass : String → Bool → Result ℕ → Exec (Unit {0})
  finish_pass name retrying result = do
    interrupted ← gets is_interrupted
    update (λ e. record e { reconcile_epoch = none })
    if interrupted then save env else conclude env o name retrying result

  finish_working :
      (name : String) (retrying : Bool) (result : Result ℕ) (e : Engine)
      → IsWorking e
      → IsTicked (finish_pass name retrying result e)
  unfolding finish_pass ◌>>=◌
  finish_working name retrying result e w =
      let f = record e { reconcile_epoch = none } in
      inl
        ((Keeps-if (is_interrupted e) _ _ (Keeps-save env)
            (conclude-Keeps name retrying result)).run
          f w).working

  finish_dropped :
      (name text : String) (retrying : Bool) (e : Engine)
      → HasRow e
      → lookup name e.state.pools ≡ none
      → IsUncrossed e
      → IsTicked (finish_pass name retrying (err (message text)) e)
  unfolding finish_pass ◌>>=◌
  finish_dropped name text retrying e row gone u = rw u (
      subst IsTicked
        (sym (conclude_dropped name text retrying (record e { reconcile_epoch = none }) gone))
        (inr (tt, row)))

  pass_ends :
      (name : String) (retrying : Bool) (r : Answer ℕ) (e : Engine)
      → IsEnded env name (r, e)
      → IsTicked (continue (as_result r e).0 (finish_pass name retrying) (as_result r e).1)
  pass_ends name retrying (done n) e (inl w) = finish_working name retrying (ok n) e w
  pass_ends name retrying (failed error) e (inl w) = finish_working name retrying (err error) e w
  pass_ends name retrying panicked e (inl w) = inl w
  pass_ends name retrying (done n) e (inr h) = absurd h
  pass_ends name retrying (failed (message text)) e (inr h) =
      finish_dropped name text retrying e h.0 h.1 h.2
  pass_ends name retrying (failed reconcile_interrupted) e (inr h) = absurd h
  pass_ends name retrying panicked e (inr h) = absurd h

  pub attempt_pass_ticks :
      (name : String) (retrying allow : Bool) (e : Engine)
      → IsWorking e
      → IsTicked (attempt_pass env o name retrying allow e)
  unfolding attempt_pass attempt finish_pass ◌>>=◌
  attempt_pass_ticks name retrying allow e w =
      let f = record e { reconcile_epoch = some e.epoch } in
      let (r, e') = reconcile env o name allow f in
      pass_ends name retrying r e' ((reconcile-Ends env loads o name allow).run f w (ground arith))

  -- An action from a working engine.
  record Ticks {A : Type 0} (m : Exec A) : Type 0 where
    run : (e : Engine) → IsWorking e → IsTicked (m e)

  IsTicked-after :
      {A B : Type 0} (r : Answer A) (f : A → Exec B) (e : Engine)
      → ((a : A) → Ticks (f a))
      → IsWorking e
      → IsTicked (continue r f e)
  IsTicked-after (done a) f e k w = (k a).run e w
  IsTicked-after (failed error) f e k w = inl w
  IsTicked-after panicked f e k w = inl w

  Ticks-bind :
      {A B : Type 0} (m : Exec A) (f : A → Exec B)
      → Keeps m
      → ((a : A) → Ticks (f a))
      → Ticks (m >>= f)
  unfolding ◌>>=◌
  Ticks-bind m f h k = record {
    run = λ e w. let (r, e') = m e in IsTicked-after r f e' k (h.run e w).working;
  }

  Ticks-Keeps : {A : Type 0} (m : Exec A) → Keeps m → Ticks m
  Ticks-Keeps m h = record { run = λ e w. inl (h.run e w).working }

  Ticks-if : {A : Type 0} (b : Bool) (m n : Exec A) → Ticks m → Ticks n → Ticks (if b then m else n)
  Ticks-if true m n h k = h
  Ticks-if false m n h k = k

  step_cursor-Keeps : Keeps (update (λ e. record e { cursor = (e.cursor + 1) % u64_mod }))
  unfolding ◌>>=◌
  step_cursor-Keeps = record { run = λ e w. record { working = w; reconciles = refl } }

  take_turn-Ticks : (name : String) → Ticks (take_turn env o name)
  unfolding take_turn
  take_turn-Ticks name = Ticks-bind _ _ step_cursor-Keeps λ _. Ticks-bind _ _ Keeps-next_io λ n.
      Ticks-bind _ _ (Keeps-index_pool name) λ p.
        Ticks-if _ _ _ (Ticks-Keeps _ (Keeps-pure tt))
          (record { run = attempt_pass_ticks name _ _ })

  -- Let every read of the row succeed. A tick from well-formed states in memory and in the row,
  -- whatever Docker, GitHub and the disk answer, whatever else fails, and whatever requests arrive
  -- during its calls, leaves both well formed, also when it panics; or it fails, which ends the
  -- manager, and the row still holds a well-formed state to start again from.
  pub tick-IsWorking : (e : Engine) → IsWorking e → IsTicked (tick env o e)
  unfolding tick ◌>>=◌
  tick-IsWorking e w = by_name (turn e.cursor (keys e.state.pools))
    where
      by_name :
          (name : Option String)
          → IsTicked (
              let m : Exec (Unit {0}) = elim name [ none ↦ pure tt | some n ↦ take_turn env o n ] in
              m e)
      by_name none = inl w
      by_name (some n) = (take_turn-Ticks n).run e w
