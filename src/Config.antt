-- ===== src/Config.antt =====
-- The types of src/config.rs. A `u32` or `u64` is a number; its range is a hypothesis where it
-- matters.
pub mod Names
pub mod Memory
pub mod Validate
pub mod Secrets
use Prim.Native.String.{◌++◌}
use runnerctl.Common.{ℕ, String, Bool, Option, none, some, List, []}
use runnerctl.BTreeMap.{BTreeMap}
use runnerctl.F64.{F64}

pub record AppAuth : Type 0 where
  pub app_id : String
  pub installation_id : ℕ
  pub private_key : String

pub record Auth : Type 0 where
  pub credential : String
  pub app : Option AppAuth

pub record Manager : Type 0 where
  pub poll_interval_seconds : ℕ
  pub max_runners : ℕ
  pub max_parallel_creates : ℕ
  pub log_retention_days : ℕ

-- `impl Default for Manager`
abbrev pub default_manager : Manager
default_manager = record {
  poll_interval_seconds = 30;
  max_runners = 16;
  max_parallel_creates = 1;
  log_retention_days = 7;
}

pub record Pool : Type 0 where
  pub name : String
  pub organization : String
  pub repository : Option String
  pub auth : String
  pub labels : List String
  pub runner_group : String
  pub replicas : ℕ
  pub image : String
  pub docker_socket : Bool
  pub allow_privilege_escalation : Bool
  pub cpus : Option F64
  pub memory : Option String

pub record Config : Type 0 where
  pub schema_version : ℕ
  pub auth : BTreeMap Auth
  pub manager : Manager
  pub pools : List Pool

-- `impl Default for Config`
abbrev pub default_config : Config
default_config = record { schema_version = 1; auth = []; manager = default_manager; pools = [] }

unfoldable pub target : Pool → String
target p = elim p.repository [ none ↦ p.organization | some repo ↦ repo ]

unfoldable pub api_scope : Pool → String
api_scope p = elim p.repository [
  | none ↦ "/orgs/" ++ p.organization
  | some repo ↦ "/repos/" ++ repo
]

unfoldable pub url : Pool → String
url p = "https://github.com/" ++ target p
