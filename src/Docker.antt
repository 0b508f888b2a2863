-- ===== src/Docker.antt =====
-- The command lines that src/docker.rs gives to the docker program, as on Unix: there the daemon sees
-- the paths of the host as they are. A path is its text, and `join` puts a slash between.
pub mod Laws
pub mod Commands
use Prim.Native.String.{◌++◌}
use runnerctl.Common.{
  ℕ, String, Bool, true, false, not, Option, none, some, List, [], ◌∷◌, any, if◌then◌else◌,
}
use runnerctl.Common.Text.{codes, is_whitespace}
use runnerctl.Result.{Result, ok, err, ensure, ◌>>=◌, ◌>>◌}
use runnerctl.F64.{F64}
use runnerctl.Config.{Pool, url}
use runnerctl.State.{Run}
use runnerctl.Cli.Files.{join}

-- What the code takes from the host: the ids of the user, and how a float is printed.
pub record Host : Type 0 where
  pub home : String
  pub uid : String
  pub gid : String
  pub show_f64 : F64 → String

infixr 5 ◌+++◌
-- `args.extend(more)`
abbrev pub ◌+++◌ : List String → List String → List String
args +++ more = mathlib.Core.List.◌++◌ args more

-- `Vec::join`
unfoldable pub join_with : String → List String → String
join_with sep [] = ""
join_with sep (x ∷ []) = x
join_with sep (x ∷ y ∷ rest) = x ++ (sep ++ join_with sep (y ∷ rest))

-- `bootstrap`, the directory of a run
abbrev pub run_directory : Host → Run → String
run_directory h run = join (join h.home "runs") run.id

unfoldable pub daemon_path : String → Result String
daemon_path path = ok path

unfoldable pub runner_labels : Pool → String
runner_labels pool = join_with "," (pool.labels +++ ("pool:" ++ pool.name) ∷ [])

abbrev pub option_args : String → Option String → List String
option_args flag none = []
option_args flag (some value) = flag ∷ value ∷ []

abbrev pub show_option : Host → Option F64 → Option String
show_option h none = none
show_option h (some x) = some (h.show_f64 x)

abbrev pub is_given : Option String → Bool
is_given none = false
is_given (some _) = true

abbrev pub first_args : String → List String
first_args id =
    "create" ∷ "--name" ∷ id ∷ "--restart=no" ∷ "--init" ∷ "--log-opt" ∷ "max-size=10m"
    ∷ "--log-opt" ∷ "max-file=3" ∷ []

-- `args.extend(["--label", format!("io.runnerctl.{key}={value}")])` for the three labels
abbrev pub label_args : String → Run → List String
label_args manager run =
    "--label"
    ∷ ("io.runnerctl.manager=" ++ manager)
    ∷ "--label"
    ∷ ("io.runnerctl.pool=" ++ run.pool_id)
    ∷ "--label"
    ∷ ("io.runnerctl.run=" ++ run.id)
    ∷ []

abbrev pub env_args : Run → List String
env_args run =
    "--env"
    ∷ ("GITHUB_ORG=" ++ run.pool.organization)
    ∷ "--env"
    ∷ ("RUNNER_NAME=" ++ run.id)
    ∷ "--env"
    ∷ ("RUNNER_LABELS=" ++ runner_labels run.pool)
    ∷ "--env"
    ∷ ("RUNNER_GROUP=" ++ run.pool.runner_group)
    ∷ "--env"
    ∷ ("GITHUB_URL=" ++ url run.pool)
    ∷ []

abbrev pub socket_options : Host → String → String → List String
socket_options h runtime shared =
    "--network"
    ∷ "host"
    ∷ "--volume"
    ∷ (runtime ++ (":" ++ (shared ++ ":Z")))
    ∷ "--env"
    ∷ ("RUNNER_ROOT=" ++ shared)
    ∷ "--env"
    ∷ ("RUNNER_UID=" ++ h.uid)
    ∷ "--volume"
    ∷ "/var/run/docker.sock:/var/run/docker.sock"
    ∷ []

-- The options of a pool with the Docker socket.
unfoldable pub socket_args : Host → Run → Result (List String)
socket_args h run =
    let runtime = run_directory h run ++ "/runtime" in
    do
      shared ← daemon_path runtime
      ensure (not (any is_whitespace (codes shared)))
          ("Docker socket pools need a --home path without spaces: " ++ h.home)
      ok (socket_options h runtime shared)

unfoldable pub common_args : Host → String → Run → List String
common_args h manager run =
    first_args run.id
    +++ (if run.pool.allow_privilege_escalation
        then []
        else "--security-opt" ∷ "no-new-privileges:true" ∷ [])
    +++ option_args "--cpus" (show_option h run.pool.cpus)
    +++ option_args "--memory" run.pool.memory
    +++ label_args manager run
    +++ env_args run
    +++ (if is_given run.pool.repository then "--env" ∷ "RUNNER_SCOPE=repo" ∷ [] else [])
    +++ "--volume" ∷ (run_directory h run ++ ":/run/runnerctl:Z") ∷ []

unfoldable pub create_args : Host → String → Run → Result (List String)
create_args h manager run = do
  socket ← if run.pool.docker_socket then socket_args h run else ok []
  ok (common_args h manager run +++ socket +++ run.pool.image ∷ [])

abbrev pub start_args : String → List String
start_args id = "start" ∷ id ∷ []

abbrev pub remove_args : String → Bool → List String
remove_args id force = "rm" ∷ (if force then "--force" ∷ id ∷ [] else id ∷ [])

-- The container that gives the files of a stopped run back to the user.
abbrev pub repair_args : Host → Run → List String
repair_args h run =
    "run"
    ∷ "--rm"
    ∷ "--name"
    ∷ (run.id ++ "-cleanup")
    ∷ "--label"
    ∷ ("io.runnerctl.cleanup=" ++ run.id)
    ∷ "--network=none"
    ∷ "--user=0"
    ∷ "--cpus=1"
    ∷ "--memory=128m"
    ∷ "--cap-drop=ALL"
    ∷ "--cap-add=CHOWN"
    ∷ "--cap-add=DAC_OVERRIDE"
    ∷ "--cap-add=FOWNER"
    ∷ "--security-opt=no-new-privileges:true"
    ∷ "--volume"
    ∷ (run_directory h run ++ ":/cleanup:Z")
    ∷ "--entrypoint=/bin/sh"
    ∷ run.pool.image
    ∷ "-c"
    ∷ "chown -hR \"$1:$2\" /cleanup && chmod -R u+rwX /cleanup"
    ∷ "--"
    ∷ h.uid
    ∷ h.gid
    ∷ []
