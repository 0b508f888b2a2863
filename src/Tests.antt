-- ===== src/Tests.antt =====
-- The theorems on concrete data: a manager with one pool of the organization `acme`.
mod Requests
mod Reconciliation
mod Configuration
mod Remote
mod Tokens
mod Lives
mod Installation
mod Commands
mod Connections
mod Rounds
use runnerctl.Common.{
  ℕ, ◌+◌, String, ◌≡◌, refl, sym, ◌∙◌, ap, Bool, true, false, Option, none, some, List, [], ◌∷◌,
  arith, str_eq, eq_iff, inl, inr,
}
use runnerctl.Result.{Result, ok, err, message}
use runnerctl.BTreeMap.{BTreeMap, lookup, contains_key}
use runnerctl.Config.{AppAuth, Auth, Manager, default_manager, Pool, Config}
use runnerctl.Config.Names.{valid_name, validate_reference, valid_org, validate_image}
use runnerctl.Config.Memory.{memory_bytes}
use runnerctl.Config.Validate.{
  validate_auths, validate_auth, validate_pools, validate_pool, validate_scope, validate_cpus,
  validate_memory, label_ok, group_ok, sum_replicas, validate,
}
use runnerctl.State.{RetryScope, observation, provisioning, PoolState, Run, State}
use runnerctl.Engine.{Env, WriteOutcome, written, Engine}
use runnerctl.Engine.Reconcile.{Outside}
use runnerctl.Engine.Sound.{configured, IsWellFormed, IsSound, IsWorking}

-- A hash is a text in brackets, and every call succeeds.
abbrev pub env : Env
env = record {
  hash = λ t. t;
  to_toml = λ c. some "new text";
  from_toml = λ t. none;
  uuid = λ n. "5a0c41d2-09be-4c7f-8a30-e1b26f7d9c55";
  now = λ n. 1000;
  save_fails = λ n. false;
  load_fails = λ n. false;
  read_fails = λ n. false;
  write = λ n. written;
  io_error = λ n. "disk";
}

abbrev pub linux : Pool
linux = record {
  name = "linux";
  organization = "acme";
  repository = none;
  auth = "main";
  labels = "fast" ∷ [];
  runner_group = "Default";
  replicas = 1;
  image = "ghcr.io/acme/runner:1.0";
  docker_socket = false;
  allow_privilege_escalation = false;
  cpus = none;
  memory = some "512m";
}

abbrev pub config : Config
config = record {
  schema_version = 1;
  auth = ("main", record { credential = "env:TOKEN"; app = none }) ∷ [];
  manager = default_manager;
  pools = linux ∷ [];
}

abbrev pub linux_state : PoolState
linux_state = record {
  id = "pool-1";
  running = true;
  deleting = false;
  generation = 2;
  failures = 3;
  retry_at = 0;
  retry_scope = observation;
  error = none;
  observed_at = 900;
}

abbrev pub run_of : String → ℕ → ℕ → String → Run
run_of id generation created_at phase = record {
  id = id;
  pool_id = "pool-1";
  pool = linux;
  generation = generation;
  created_at = created_at;
  phase = phase;
  remote_id = none;
  retiring = false;
  force = false;
  completed_job = false;
  log_saved = false;
}

abbrev pub runs : BTreeMap Run
runs =
    ("rc-a", run_of "rc-a" 1 100 "busy")
    ∷ ("rc-b", run_of "rc-b" 2 200 "idle")
    ∷ ("rc-c", run_of "rc-c" 2 300 "idle")
    ∷ []

abbrev pub state : State
state = record {
  manager_id = "0f3e9d1c-77aa";
  revision = 4;
  config = config;
  file_hash = "old text";
  pools = ("linux", linux_state) ∷ [];
  runs = runs;
}

abbrev pub engine : Engine
engine = record {
  state = state;
  row = some state;
  file = some "old text";
  snapshot = some state;
  cursor = 0;
  epoch = 7;
  reconcile_epoch = none;
  cleared = 0;
  boot_time = none;
  effects = [];
  io = 0;
}

config_valid : validate config ≡ ok tt
unfolding validate validate_auths validate_auth valid_name validate_reference validate_pools
    validate_pool validate_scope valid_org validate_cpus validate_memory memory_bytes label_ok
    group_ok validate_image sum_replicas
config_valid = refl

pub state-IsWellFormed : IsWellFormed state
state-IsWellFormed = record {
  valid = config_valid;
  matching = λ name. ground (arith, eq_iff name "linux", eq_iff "linux" name);
  pools_sorted = (tt, tt);
  runs_sorted = ((refl, (refl, tt)), ((refl, tt), (tt, tt)));
  runs_keyed = (refl, (refl, (refl, tt)));
  manager_id_sliceable = refl;
}

pub engine-IsSound : IsSound engine
engine-IsSound = record { well_formed = state-IsWellFormed; stored = refl; shown = inr refl }

pub engine-IsWorking : IsWorking engine
engine-IsWorking = (state-IsWellFormed, (state, refl, state-IsWellFormed))
