-- ===== src/Tests/Rounds.antt =====
-- What the round of a run does outside, on the manager of the tests.
use runnerctl.Common.{refl, none, some, List, [], ◌∷◌, true, false, ◌≡◌, ◌^◌}
use runnerctl.Result.{ok}
use runnerctl.Engine.{remove_log_file, ◌>>=◌}
use runnerctl.Engine.Reconcile.{Container, Outside, leave}
use runnerctl.Engine.Reconcile.Steps.{Progress, round}
use runnerctl.Engine.Reconcile.Tick.{tick}
use runnerctl.Engine.Reconcile.Asks.{Adds}
use runnerctl.Engine.Reconcile.Asks.Allows.{Allows}
use runnerctl.Engine.Reconcile.Asks.Round.{round_asks}
use runnerctl.Engine.Reconcile.Asks.Pass.{Spares}
use runnerctl.Engine.Reconcile.Asks.Tick.{tick-Spares}
use runnerctl.Engine.Reconcile.Pass.{is_expired, remove_log, expire_entries, expire_logs}
use runnerctl.Engine.Reconcile.Logs.{Removes, expire_logs_exact}
use runnerctl.Tests.{env, engine, run_of, state}
use runnerctl.Tests.Reconciliation.{outside}

-- The container of the run `rc-a` has exited.
abbrev exited : List Container
exited =
    record {
      manager = some state.manager_id;
      run = some "rc-a";
      pool = some "pool-1";
      status = some "exited";
      started_at = none;
    }
    ∷ []

abbrev progress : Progress
progress = record { cleanup_error = none; unexpected_exits = 0 }

round_asks_example :
    Adds
      (Allows outside state.manager_id (run_of "rc-a" 1 100 "busy") exited)
      engine
      (round env outside "linux" [] exited true progress "rc-a" engine).1
round_asks_example =
    round_asks env outside "linux" [] exited true progress "rc-a" engine
      (run_of "rc-a" 1 100 "busy") refl

tick-Spares_example : Adds (Spares outside) engine (tick env outside engine).1
tick-Spares_example = tick-Spares env outside engine

-- Two old logs, one of them of the recorded run `rc-a`, and a directory.
abbrev with_logs : Outside
with_logs = record outside {
  log_entries = λ n. ok (
      ok (record { filename = "rc-gone.tar"; is_file = true; age_nanos = 10 ^ 30 })
      ∷ ok (record { filename = "rc-a.tar"; is_file = true; age_nanos = 10 ^ 30 })
      ∷ ok (record { filename = "old"; is_file = false; age_nanos = 10 ^ 30 })
      ∷ []);
}

-- Only the log of no run goes.
with_logs_removed :
    (expire_logs env with_logs engine).1.effects ≡ remove_log_file "rc-gone.tar" ∷ engine.effects
unfolding expire_logs expire_entries is_expired remove_log ◌>>=◌ leave
with_logs_removed = refl

expire_logs_exact_example : Removes with_logs engine (expire_logs env with_logs engine)
expire_logs_exact_example = expire_logs_exact env with_logs engine
