-- ===== src/Engine/Reconcile/Calm/Calls.antt =====
-- The rules for the saves of a reconciliation of src/manager.rs, and for its calls to the outside.
use runnerctl.Common.{ℕ, ◌≡◌, false, List, [], ◌∷◌, arith}
use runnerctl.Result.{Result}
use runnerctl.Protocol.{Request}
use runnerctl.Engine.{Env, Exec, ◌>>=◌}
use runnerctl.Engine.Store.{save, store_save, send_snapshot}
use runnerctl.Engine.Handle.{handle_local}
use runnerctl.Engine.Handle.Epoch.{handle_local_epoch}
use runnerctl.Engine.Handle.Names.{Names}
use runnerctl.Engine.Handle.Names.Requests.{Steady-handle_local}
use runnerctl.Engine.Handle.Names.Store.{Steady-save}
use runnerctl.Engine.Reconcile.{Outside, check_epoch, is_stale, serve_arrivals, external}
use runnerctl.Engine.Reconcile.Arrivals.{handle_local-IsWorking}
use runnerctl.Engine.Reconcile.Sound.Actions.{Keeps-save}
use runnerctl.Engine.Reconcile.Calm.{
  Fine, Fine-of_ne, Holds, Calm, Calm-Steady, Calm-bind, Calm-pure, Calm-raise, Calm-gets,
  Calm-lift, Calm-context, Calm-attempt, Calm-if, Calm-next_io, Calm-leave, Calm-insert_run,
}

module _ (names : Names) (env : Env) where
  pub Calm-save : Calm names (save env)
  unfolding save store_save send_snapshot ◌>>=◌
  Calm-save =
      Calm-Steady names _ (Keeps-save env) (Steady-save names env) (λ e. ground arith)
        (λ e. ground arith)

  module _ (loads : (n : ℕ) → env.load_fails n ≡ false) where
    pub Calm-handle_local : (request : Request) → Calm names (handle_local env request)
    Calm-handle_local request = record {
      keeps = record {
        run = λ e w. record {
          working = (handle_local-IsWorking env loads request e w).0;
          reconciles = (handle_local_epoch env request e loads w).1;
        };
      };
      run = λ e w holds. (
        Fine-of_ne _ (handle_local-IsWorking env loads request e w).1,
        record {
          named = (Steady-handle_local names env request).run e holds.named;
          small = ground (arith, (handle_local_epoch env request e loads w).0, holds.small);
        },
      );
    }

    Calm-serve_arrivals : (requests : List Request) → Calm names (serve_arrivals env requests)
    unfolding serve_arrivals
    Calm-serve_arrivals [] = Calm-pure names tt
    Calm-serve_arrivals (request ∷ rest) =
        Calm-bind names _ _ (Calm-attempt names _ (Calm-handle_local request))
          (λ _. Calm-serve_arrivals rest)

    Calm-check_epoch : Calm names check_epoch
    unfolding check_epoch
    Calm-check_epoch =
        Calm-bind names _ _ (Calm-gets names is_stale)
          λ stale. Calm-if names stale _ _ (Calm-raise names _) (Calm-pure names tt)

    pub Calm-external :
        (o : Outside) {A : Type 0} (start : Exec (Unit {0})) (answer : ℕ → Result A)
        → Calm names start
        → Calm names (external env o start answer)
    unfolding external
    Calm-external o start answer h = Calm-bind names _ _ Calm-check_epoch λ _.
        Calm-bind names _ _ (Calm-next_io names) λ n. Calm-bind names _ _ h λ _.
          Calm-bind names _ _ (Calm-serve_arrivals (o.arrivals n))
            λ _. Calm-bind names _ _ Calm-check_epoch (λ _. Calm-lift names (answer n))

pub ruleset calm = (
  Calm-bind, Calm-pure, Calm-raise, Calm-gets, Calm-lift, Calm-context, Calm-attempt, Calm-if,
  Calm-next_io, Calm-leave, Calm-insert_run, Calm-save, Calm-external,
)
