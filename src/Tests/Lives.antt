-- ===== src/Tests/Lives.antt =====
-- The theorems on whole ticks and whole lives of the manager, on the manager of the tests.
use runnerctl.Common.{ℕ, ◌<◌, List, length, arith, ◌≡◌, refl, none, some, [], ◌∷◌, inr}
use runnerctl.Config.Memory.{u64_mod}
use runnerctl.Protocol.{Request, changes_config, mutating}
use runnerctl.Engine.{done, ◌>>=◌}
use runnerctl.Engine.Store.{store_load}
use runnerctl.Engine.Status.{handle_status, pool_statuses, pool_status}
use runnerctl.Engine.Handle.{handle_local, handle_inner, dispatch, finish}
use runnerctl.Engine.Open.{open_engine, stored_or_first}
use runnerctl.Engine.Reconcile.{attempt}
use runnerctl.Engine.Reconcile.Tick.{tick}
use runnerctl.Engine.Reconcile.Calm.Conclude.{IsOver}
use runnerctl.Engine.Reconcile.Calm.Tick.{tick-IsOver}
use runnerctl.Engine.Serve.{Event, serve, serve_loop, serve_event, live, lives}
use runnerctl.Engine.Serve.Laws.{IsStored}
use runnerctl.Engine.Serve.Ready.{IsAlive, serve-IsAlive}
use runnerctl.Tests.{env, engine, state, state-IsWellFormed, engine-IsSound}
use runnerctl.Tests.Reconciliation.{outside}

few_arrive : (n : ℕ) → length (outside.arrivals n) < u64_mod
few_arrive n = omega arith

tick-IsOver_example : IsOver (tick env outside engine)
tick-IsOver_example =
    tick-IsOver env (λ n. refl) outside few_arrive engine
      (record { sound = engine-IsSound; small = omega arith })

-- A life that a signal ended, and one in which a status was answered.
abbrev past : List (List Event)
past = (Event.received (Request.status none) ∷ Event.signal ∷ []) ∷ []

abbrev present : List Event
present = Event.received (Request.status (some "linux")) ∷ []

still_runs : (serve env outside present (lives env outside past engine)).0 ≡ done none
unfolding serve serve_loop serve_event live lives open_engine stored_or_first store_load attempt
    handle_local handle_inner dispatch changes_config mutating finish handle_status pool_statuses
    pool_status ◌>>=◌
still_runs = refl

serve-IsAlive_example :
    IsAlive (serve env outside present (lives env outside past engine))
    × IsStored (serve env outside present (lives env outside past engine)).1
serve-IsAlive_example =
    serve-IsAlive env (λ n. refl) (λ n. refl) outside few_arrive past present engine
      (inr (state, refl, state-IsWellFormed))
