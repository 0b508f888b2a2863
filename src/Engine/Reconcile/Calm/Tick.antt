-- ===== src/Engine/Reconcile/Calm/Tick.antt =====
-- A tick of src/manager.rs from a state that is stored: it does not panic, and ends in such a state or
-- with an error.
use runnerctl.Common.{
  ℕ, ◌+◌, ◌%◌, ◌<◌, String, ◌≡◌, refl, sym, ap, subst, Bool, true, false, Option, none, some,
  if◌then◌else◌, length, ltb, ◌&&◌,
}
use runnerctl.Result.{Result, ok, err}
use runnerctl.BTreeMap.{contains_key, keys}
use runnerctl.BTreeMap.Laws.{some_of_contains_key}
use runnerctl.Config.Memory.{u64_mod}
use runnerctl.State.{observation}
use runnerctl.Engine.{
  Env, Engine, Exec, Answer, done, failed, panicked, pure, ◌>>=◌, index_pool, continue,
}
use runnerctl.Engine.Store.{save}
use runnerctl.Engine.Retry.{replenishment_allowed}
use runnerctl.Engine.Sound.{bind_of_eq, index_pool-some}
use runnerctl.Engine.Handle.Epoch.{Keeps-save}
use runnerctl.Engine.Reconcile.{Outside, attempt, as_result}
use runnerctl.Engine.Reconcile.Exits.{scope_eq}
use runnerctl.Engine.Reconcile.Pass.{reconcile}
use runnerctl.Engine.Reconcile.Tick.{turn, is_interrupted, conclude, attempt_pass, take_turn, tick}
use runnerctl.Engine.Reconcile.Sound.Uncrossed.{Returned}
use runnerctl.Engine.Reconcile.Sound.Tick.{finish_pass, attempt_pass_ticks}
use runnerctl.Engine.Reconcile.Calm.Saved.{IsSettled, Saves-save}
use runnerctl.Engine.Reconcile.Calm.Settle.{IsSafe}
use runnerctl.Engine.Reconcile.Calm.Start.{reconcile-IsSafe}
use runnerctl.Engine.Reconcile.Calm.Conclude.{
  IsReady, IsOver, known_turn, unless_waiting, save-fine, conclude-fine, conclude-Keeps,
  conclude-Saves, IsOver-saved,
}

module _ (env : Env) (loads : (n : ℕ) → env.load_fails n ≡ false) (o : Outside)
    (few : (n : ℕ) → length (o.arrivals n) < u64_mod) where
  finish_pass-IsSafe :
      (name : String) (retrying : Bool) (r : Result ℕ) (e : Engine)
      → e.epoch < u64_mod
      → IsSafe (finish_pass env loads o name retrying r e)
        × Returned (λ _. IsSettled) (finish_pass env loads o name retrying r e)
  unfolding finish_pass ◌>>=◌
  finish_pass-IsSafe name retrying r e small = by_crossing (is_interrupted e)
    where
      by_crossing :
          (b : Bool)
          → IsSafe (
              (if b then save env else conclude env o name retrying r)
                (record e { reconcile_epoch = none }))
            × Returned
                (λ _. IsSettled)
                ((if b then save env else conclude env o name retrying r)
                  (record e { reconcile_epoch = none }))
      by_crossing true =
          let f = record e { reconcile_epoch = none } in
          (
            (
              save-fine env o f,
              subst (λ n. n < u64_mod) (sym (ap (λ c. c.0) ((Keeps-save env).run f))) small,
            ),
            (Saves-save env).run f,
          )
      by_crossing false =
          let f = record e { reconcile_epoch = none } in
          (
            (
              conclude-fine env o name retrying r f,
              subst (λ n. n < u64_mod)
                  (sym (ap (λ c. c.0) ((conclude-Keeps env o name retrying r).run f))) small,
            ),
            (conclude-Saves env o name retrying r).run f,
          )

  attempt_pass-IsSafe :
      (name : String) (retrying allow : Bool) (e : Engine)
      → IsReady e
      → IsSafe (attempt_pass env o name retrying allow e)
        × Returned (λ _. IsSettled) (attempt_pass env o name retrying allow e)
  unfolding attempt_pass attempt finish_pass ◌>>=◌
  attempt_pass-IsSafe name retrying allow e ready =
      let f = record e { reconcile_epoch = some e.epoch } in
      let (r, e') = reconcile env o name allow f in
      by_answer r e' (
        reconcile-IsSafe env loads o few name allow f (record {
          well_formed = ready.sound.well_formed;
          stored = ready.sound.stored;
          started = refl;
          small = ready.small;
        }))
    where
      by_answer :
          (r : Answer ℕ) (e : Engine)
          → IsSafe (r, e)
          → IsSafe
              (continue (as_result r e).0 (finish_pass env loads o name retrying) (as_result r e).1)
            × Returned
                (λ _. IsSettled)
                (continue
                  (as_result r e).0
                  (finish_pass env loads o name retrying)
                  (as_result r e).1)
      by_answer (done n) e safe = finish_pass-IsSafe name retrying (ok n) e safe.1
      by_answer (failed error) e safe = finish_pass-IsSafe name retrying (err error) e safe.1
      by_answer panicked e safe = absurd safe.0

  attempt_pass-IsOver :
      (name : String) (retrying allow : Bool) (e : Engine)
      → IsReady e
      → IsOver (attempt_pass env o name retrying allow e)
  attempt_pass-IsOver name retrying allow e ready =
      let (safe, settled) = attempt_pass-IsSafe name retrying allow e ready in
      let ticked =
        attempt_pass_ticks env loads o name retrying allow e
          (ready.sound.well_formed, (e.state, ready.sound.stored, ready.sound.well_formed)) in
      let (r, e') = attempt_pass env o name retrying allow e in
      IsOver-saved env o r e' ticked safe settled

  take_turn-IsOver :
      (name : String) (e : Engine)
      → contains_key name e.state.pools ≡ true
      → IsReady e
      → IsOver (take_turn env o name e)
  unfolding take_turn ◌>>=◌
  take_turn-IsOver name e known ready =
      let f = record e { cursor = (e.cursor + 1) % u64_mod; io = e.io + 1 } in
      let (p, found) = some_of_contains_key name e.state.pools known in
      let at = env.now e.io in
      let retrying = ltb at p.retry_at in
      let ready' : IsReady f = record {
        sound = record {
          well_formed = ready.sound.well_formed;
          stored = ready.sound.stored;
          shown = ready.sound.shown;
        };
        small = ready.small;
      } in
      subst IsOver (sym (bind_of_eq (index_pool name) _ f f p (index_pool-some name f found))) (
        unless_waiting (retrying && scope_eq p.retry_scope observation)
          (attempt_pass env o name retrying (replenishment_allowed p.retry_at at)) f ready'
          (attempt_pass-IsOver name retrying (replenishment_allowed p.retry_at at) f ready'))

  -- Let every read of the row succeed, and fewer than 2 ^ 64 requests arrive during a call to the
  -- outside. A tick from a well-formed state that the row holds and the readers see, with an epoch
  -- below 2 ^ 64, does not panic, whatever Docker, GitHub and the disk answer, whatever else fails,
  -- and whatever requests arrive during its calls: it returns, and again the state is well formed, is
  -- the one in the row and the one that the readers see; or it fails, and the row holds a
  -- well-formed state.
  pub tick-IsOver : (e : Engine) → IsReady e → IsOver (tick env o e)
  unfolding tick ◌>>=◌
  tick-IsOver e ready = by_name (turn e.cursor (keys e.state.pools)) refl
    where
      by_name :
          (name : Option String)
          → turn e.cursor (keys e.state.pools) ≡ name
          → IsOver (
              let m : Exec (Unit {0}) = elim name [ none ↦ pure tt | some n ↦ take_turn env o n ] in
              m e)
      by_name none h = ready
      by_name (some n) h = take_turn-IsOver n e (known_turn e.cursor n e.state.pools h) ready
