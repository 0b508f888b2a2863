-- ===== src/Tests/Commands.antt =====
-- The theorems on the command line, before the manager of the tests.
use runnerctl.Common.{
  ◌^◌, ℕ, suc, ap, arith, ◌+◌, ◌/◌, ◌≤◌, ◌≡◌, refl, true, false, none, some, [], ◌∷◌, all, length,
}
use runnerctl.Common.Text.{codes}
use runnerctl.Result.{Result, ok}
use runnerctl.Protocol.{Request, Reply}
use runnerctl.Engine.{done, written, ◌>>=◌}
use runnerctl.Engine.Status.{pool_status, pool_statuses, handle_status}
use runnerctl.Protocol.{Answered}
use runnerctl.Cli.{Terminal, Session, TokenSource}
use runnerctl.Cli.Wait.{second, is_clean, pause, wait_round, wait_loop, wait_for_cleanup}
use runnerctl.Cli.Wait.Laws.{wait_for_cleanup_ends}
use runnerctl.Cli.Wait.Cleaned.{is_cleaned, wait_for_cleanup_sound}
use runnerctl.Cli.Init.{Place}
use runnerctl.Tests.{linux, linux_state, run_of, engine, state-IsWellFormed}

-- The status of the manager of the tests, whatever is asked.
abbrev shown : Reply
shown = Reply.status 4 (
    pool_status linux linux_state
      (run_of "rc-a" 1 100 "busy" ∷ run_of "rc-b" 2 200 "idle" ∷ run_of "rc-c" 2 300 "idle" ∷ [])
    ∷ [])

abbrev terminal : Terminal
terminal = record {
  home = "/home/ann/.config/runnerctl";
  uuid = λ n. "5a0c";
  write = λ n. written;
  io_error = λ n. "disk";
  signs = λ app. ok tt;
  answer = λ n request. ok (record { answered = Answered.reply shown; manager_running = none });
  timed_out = λ n. false;
  interrupted = λ n. false;
  took = λ n. 1000;
  overslept = λ n. 0;
  clock_end = 2 ^ 94;
}

abbrev session : Session
session = record { now = 0; io = 0; sent = []; files = [] }

wait_for_cleanup_ends_example :
    (r : Result (Unit {0})) × (s' : Session) × (wait_for_cleanup terminal
        ("linux" ∷ [])
        false
        second
        session
      ≡ some (r, s'))
    × (length s'.sent ≤ length session.sent + suc (second / second + 1))
wait_for_cleanup_ends_example =
    wait_for_cleanup_ends terminal ("linux" ∷ []) false second session (omega arith)

answers_status : handle_status none engine ≡ (done shown, engine)
unfolding handle_status pool_statuses ◌>>=◌
answers_status = refl

-- The pool `old` is gone.
wait_for_cleanup_sound_example :
    (n : ℕ) × (all (is_cleaned true engine.state engine.state.config.pools) ("old" ∷ []) ≡ true)
unfolding wait_for_cleanup wait_loop wait_round pause is_clean pool_status
wait_for_cleanup_sound_example =
    wait_for_cleanup_sound terminal ("old" ∷ []) true second session
      (record { now = 1000; io = 1; sent = Request.status none ∷ []; files = [] }) (λ n. engine)
      (λ n. state-IsWellFormed) (λ n r e. (shown, ground arith, ap (λ q. q.0) answers_status)) refl

abbrev token : TokenSource
token = TokenSource.stdin (ok (codes " ghp_12 "))

abbrev login_end : Session
login_end = record {
  now = 0;
  io = 2;
  sent = [];
  files = ("/home/ann/.config/runnerctl/credentials/main-5a0c", codes "ghp_12") ∷ [];
}

abbrev login_sent : Request
login_sent = Request.auth "main" "file:/home/ann/.config/runnerctl/credentials/main-5a0c" none

abbrev init_end : Session
init_end = record {
  now = 0;
  io = 1;
  sent = [];
  files = ("/home/ann/.config/runnerctl/config.toml", codes "schema_version = 1") ∷ [];
}

abbrev place : Place
place = record {
  lock = ok tt;
  config_exists = false;
  state_exists = false;
  to_toml = λ c. ok (codes "schema_version = 1");
}
