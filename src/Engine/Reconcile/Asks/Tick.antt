-- ===== src/Engine/Reconcile/Asks/Tick.antt =====
-- What a whole tick of src/manager.rs removes outside.
use runnerctl.Common.{ℕ, String, ◌≡◌, refl, Bool, Option, none, some, List, arith}
use runnerctl.Result.{Result, ok, err, message, reconcile_interrupted}
use runnerctl.Config.{Pool}
use runnerctl.State.{RetryScope, PoolState, State}
use runnerctl.Engine.{Env, Engine, pure, ◌>>=◌}
use runnerctl.Engine.Handle.Keeps.{
  Keeps-update_state, Keeps-context, Keeps-index_pool, Keeps-mark, Keeps-modify_pool,
}
use runnerctl.Engine.Reconcile.{Container, Outside}
use runnerctl.Engine.Reconcile.Pass.{index_auth, work, reconcile}
use runnerctl.Engine.Reconcile.Asks.{
  Adds, Asks, Asks-next_io, Asks-Keeps, Asks-same, Asks-then, Asks-attempt, Asks-pure, Asks-bind,
  Asks-if, Asks-gets, Asks-save,
}
use runnerctl.Engine.Reconcile.Returns.{Returns-if, Returns-external, Returns-pure}
use runnerctl.Engine.{update, update_state}
use runnerctl.Engine.Reconcile.Exits.{back_off, record_failure}
use runnerctl.Engine.Reconcile.Tick.{observed, conclude, attempt_pass, take_turn, tick}
use runnerctl.Engine.Reconcile.Asks.Pass.{Spares, IsAnswer, Asks-stop_forced, Asks-rounds}
use runnerctl.Engine.Reconcile.Asks.Settle.{Asks-outside, Asks-drop_pool, Asks-settle}

module _ (env : Env) (o : Outside) where
  Asks-index_auth : (name : String) → Asks (Spares o) (index_auth name)
  unfolding index_auth
  Asks-index_auth name = Asks-same _ λ e. ground arith

  Asks-work :
      (name : String) (pool : Pool) (ps : PoolState) (allow : Bool) (containers : List Container)
      → IsAnswer o containers
      → Asks (Spares o) (work env o name pool ps allow containers)
  unfolding work
  Asks-work name pool ps allow containers answer = Asks-bind _ _ (Asks-gets _) λ s.
      Asks-bind _ _ (Asks-stop_forced env o containers answer _) λ _.
        Asks-bind _ _ (Asks-gets _) λ still_forced.
          Asks-then _ _
            (Asks-if still_forced _ _ (Asks-outside env o o.containers) (Asks-pure containers))
            (Returns-if still_forced _ _ (Returns-external env o (pure tt) o.containers)
              (Returns-pure containers answer))
            λ shown answer'. Asks-bind _ _ (Asks-index_auth pool.auth) λ _.
              Asks-bind _ _ (Asks-outside env o o.remotes) λ remotes.
                Asks-bind _ _ (Asks-gets _) λ ids.
                  Asks-bind _ _ (Asks-Keeps _ (Keeps-mark name)) λ _.
                    Asks-bind _ _ (Asks-save env) λ _.
                      Asks-bind _ _ (Asks-rounds env o shown answer' name remotes allow ids _)
                        λ progress. Asks-settle env o name pool ps allow _ progress

  Asks-reconcile : (name : String) (allow : Bool) → Asks (Spares o) (reconcile env o name allow)
  unfolding reconcile
  Asks-reconcile name allow = Asks-bind _ _ (Asks-gets _) λ found.
      Asks-bind _ _ (Asks-Keeps _ (Keeps-context found _)) λ pool.
        Asks-bind _ _ (Asks-Keeps _ (Keeps-index_pool name)) λ ps.
          Asks-then _ _ (Asks-outside env o o.containers)
            (Returns-external env o (pure tt) o.containers)
            λ containers answer. Asks-bind _ _ (Asks-gets _) λ s.
              Asks-if _ _ _
                (Asks-bind _ _ (Asks-if ps.deleting _ _ (Asks-drop_pool env o name) (Asks-pure tt))
                  λ _. Asks-pure _)
                (Asks-work name pool ps allow containers answer)

  Asks-update :
      (f : Engine → Engine)
      → ((e : Engine) → (f e).effects ≡ e.effects)
      → Asks (Spares o) (update f)
  unfolding ◌>>=◌
  Asks-update f h = Asks-same _ h

  Asks-modify_pools : (f : State → State) → Asks (Spares o) (update_state f)
  Asks-modify_pools f = Asks-Keeps _ (Keeps-update_state f)

  Asks-observed : (name : String) → Asks (Spares o) (observed env o name)
  unfolding observed
  Asks-observed name =
      Asks-bind _ _ Asks-next_io λ n. Asks-bind _ _ (Asks-modify_pools _) λ _. Asks-save env

  Asks-record_failure :
      (name error : String) (scope : RetryScope)
      → Asks (Spares o) (record_failure env o name error scope)
  unfolding record_failure back_off
  Asks-record_failure name error scope = Asks-bind _ _ Asks-next_io λ n.
      Asks-bind _ _ (Asks-gets _) λ found. Asks-bind _ _ (Asks-Keeps _ (Keeps-context found _)) λ p.
        Asks-if _ _ _ (Asks-pure tt) (
          Asks-bind _ _ Asks-next_io
            λ m. Asks-bind _ _ (Asks-Keeps _ (Keeps-modify_pool name _)) λ _. Asks-pure tt)

  Asks-conclude :
      (name : String) (retrying : Bool) (r : Result ℕ)
      → Asks (Spares o) (conclude env o name retrying r)
  unfolding conclude
  Asks-conclude name retrying (ok unexpected_exits) =
      Asks-bind _ _
        (Asks-if _ _ _ (Asks-record_failure name _ _)
          (Asks-if _ _ _ (Asks-modify_pools _) (Asks-pure tt)))
        λ _. Asks-observed name
  Asks-conclude name retrying (err reconcile_interrupted) = Asks-save env
  Asks-conclude name retrying (err (message text)) =
      Asks-bind _ _ (Asks-record_failure name text _)
        λ _. Asks-bind _ _ (Asks-modify_pools _) λ _. Asks-observed name

  Asks-attempt_pass :
      (name : String) (retrying allow : Bool)
      → Asks (Spares o) (attempt_pass env o name retrying allow)
  unfolding attempt_pass
  Asks-attempt_pass name retrying allow = Asks-bind _ _ (Asks-update _ λ e. refl) λ _.
      Asks-bind _ _ (Asks-attempt _ (Asks-reconcile name allow)) λ result.
        Asks-bind _ _ (Asks-gets _) λ interrupted.
          Asks-bind _ _ (Asks-update _ λ e. refl)
            λ _. Asks-if interrupted _ _ (Asks-save env) (Asks-conclude name retrying result)

  Asks-take_turn : (name : String) → Asks (Spares o) (take_turn env o name)
  unfolding take_turn
  Asks-take_turn name = Asks-bind _ _ (Asks-update _ λ e. refl) λ _. Asks-bind _ _ Asks-next_io λ n.
      Asks-bind _ _ (Asks-Keeps _ (Keeps-index_pool name))
        λ p. Asks-if _ _ _ (Asks-pure tt) (Asks-attempt_pass name _ _)

  Asks-tick : Asks (Spares o) (tick env o)
  unfolding tick
  Asks-tick = Asks-bind _ _ (Asks-gets _) by_name
    where
      by_name :
          (name : Option String)
          → Asks (Spares o) (elim name [ none ↦ pure tt | some n ↦ take_turn env o n ])
      by_name none = Asks-pure tt
      by_name (some n) = Asks-take_turn n

  -- Whatever the state is and whatever requests arrive meanwhile, a tick of the manager archives and
  -- removes, by force or not, only a container whose label for the run has the id that is named in one
  -- of Docker's answers to the list of the manager's containers, and deletes only a registration
  -- that one of GitHub's answers lists.
  pub tick-Spares : (e : Engine) → Adds (Spares o) e (tick env o e).1
  tick-Spares e = Asks-tick.run e
