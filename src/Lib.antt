-- ===== src/Lib.antt =====
-- A verification of runnerctl, the manager of self-hosted GitHub runners in Docker containers.
--
-- The program: a command line sends requests to a manager over a socket (src/protocol.rs). The manager
-- (src/manager.rs) is the single writer of a state (src/state.rs) that SQLite holds, next to the file
-- config.toml (src/config.rs), which a user may edit by hand. Once a second it takes up one pool and
-- reconciles it: it compares the recorded runs with what Docker (src/docker.rs) and GitHub
-- (src/github.rs) show, and starts, observes, archives and removes runners. While it waits for one
-- of them it goes on handling requests.
--
-- The files:
--   Common         Boolean tests, lists over native numbers, text as code points.
--   BTreeMap       std's map with string keys, its lookup laws and its order.
--   Result, F64    anyhow's results; the f64 of a pool's `cpus`.
--   Config         src/config.rs: the types; Names (validate_image, valid_org, valid_repo,
--                  validate_reference, valid_name), Memory (memory_bytes), Validate (Config::validate,
--                  Config::warnings), each with its Laws.
--                  Secrets has open_private, secret and credential, as on Unix.
--   State          src/state.rs: PoolState, Run, State and State::new.
--   Protocol       src/protocol.rs: the requests, and the data of the manager's replies.
--   Retiring       Engine::mark_retiring of src/manager.rs, with the order of the runs in Rank.
--   Engine         the Engine of src/manager.rs and its actions. Store has the row, the file,
--                  save, clean_file and commit_config; Pools, Status and Apply the arms of handle_inner;
--                  Handle has handle_inner and handle_local, with Epoch on what they leave alone;
--                  Retry the backoff and the health.
--   Engine/Reconcile  external, with the requests that arrive during a call; Exits (archive,
--                  record_failure, stopped_by_reboot), Steps (the loop over the runs of a pool), Pass
--                  (reconcile, expire_logs), Tick (tick), Returns (values), Logs (the logs that
--                  go), Arrivals and Interrupted (requests during a call) and Capacity (the limits on
--                  new runs).
--   Engine/Sound   the invariant of the manager, Rules for the actions, and that requests keep it.
--   Engine/Open    Engine::open, and that the manager starts sound.
--   Engine/Reconcile/Asks  what a round of the loop asks of Docker, GitHub and the disk (Steps,
--                  Allows, Round), and what a tick removes (Pass, Settle, Tick).
--   Engine/Diagnose  diagnose and runner_logs, with Healthy on when the diagnosis is healthy.
--   Engine/Connect   read_request and serve_connection, and a command that finds no manager (handle,
--                  and dispatch of src/main.rs); Lines has the line of a request.
--   Engine/Serve   the loop of `serve`, event by event and life after life, with Ready on its states.
--   Engine/Handle/Names  that no request removes a run or a pool: Rules, Store, Apply and Requests.
--   Engine/Reconcile/Sound  that a whole tick keeps the states well formed: Uncrossed (calls without
--                  requests), Calls and Actions (the rules), Steps, Rounds and Loop (the loop over
--                  the runs), Drop, Ended, Pass and Tick.
--   Engine/Reconcile/Calm  that no index fails in a tick: the rules (Calls), the loop over the
--                  runs (Steps, Round, Loop), what is around it (Settle, Auth, Pass, Start), and the end of a
--                  tick (Saved, Conclude, Tick).
--   Docker         the command lines of src/docker.rs: create_args and the shorter ones, as on Unix;
--                  Commands has those whose output is read, and the pull of src/image.rs.
--   Github         src/github.rs: the shared cache; Errors (response_error), Token (access_token),
--                  Lists (request, list, token, remove), Jwt (app_jwt) and Redirect (with_base).
--   Image          version and version_check of src/image.rs.
--   Shell          files, directories and programs as the installers call them.
--   Service        src/service.rs: the quoting and the documents of its modules systemd, launchd and task,
--                  with readers for them (Systemd, Launchd, Task); Service/Install the installers.
--   Cli            src/main.rs: Run (the commands that end in a request), Login (auth login and auth
--                  app), Init (init), Follow (logs), Wait (wait_for_cleanup, with Cleaned on what it
--                  waits for), Files (the files they write).
--   Tests          the theorems on concrete data.
--
-- How the state is modelled: an action (`Exec`) takes the engine and returns an answer and the engine,
-- also beside an error, since what was written stays written. An answer is a value, an error, or a
-- panic, which stands for an index or an `unwrap` that fails. Numbers of u64 that the code adds to
-- with `+=` or `wrapping_add` wrap at 2 ^ 64; saturating ones saturate.
--
-- What is a parameter: SHA-256, TOML, fresh ids, the clock, and the success of each access to the
-- database and the disk are the record `Env`; the answers of Docker, GitHub and the runs' directories
-- and the arrivals of requests are the record `Outside`. Each outside call takes the next number,
-- by which both answer, so that any sequence of answers and of interleavings is some value of them.
-- A row of SQLite is read back as it was written. Of the text of a new UUID, which has 36 ASCII
-- characters, the theorems that start the manager assume that it has a prefix of eight bytes, since
-- the ids of runs begin with such a prefix of the manager's id.
--
-- Loops are structural recursion on the lists that they walk. Only wait_for_cleanup has fuel: a round
-- for each second of the timeout, and two more, which is enough since a round that is followed by
-- another lasts a second or until the deadline. The loop of `serve` takes its events from a list.
--
-- The pages of a list of runners are bounded by the code itself, at 10000.
--
-- The shared cache of GitHub's client is a state that other tasks may change at each response that is
-- awaited: `meanwhile` of the record `Net` is what they do.
--
-- Not modelled: the sockets of src/ipc.rs, and the timeouts and permits of connections; the HTTP,
-- base64 and cryptography of src/github.rs, and its lookup of the latest release; the running of the
-- docker program and the archive that it streams; of src/main.rs the parsing of arguments by clap, the printing of tables and config check;
-- the restart loop of the scheduled task in src/service.rs; src/windows.rs, which calls the
-- operating system; the texts of the JSON replies; the making of directories and their permissions.
pub mod Common
pub mod BTreeMap
pub mod Result
pub mod F64
pub mod Config
pub mod State
pub mod Protocol
pub mod Retiring
pub mod Engine
pub mod Tests
pub mod Docker
pub mod Github
pub mod Image
pub mod Shell
pub mod Service
pub mod Cli
