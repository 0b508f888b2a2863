-- ===== src/State.antt =====
-- The types of src/state.rs. A row of SQLite holds the serialized `State`; a saved state is read
-- back as it was written.
use runnerctl.Common.{ℕ, ◌+◌, String, Bool, false, Option, none, List, [], ◌∷◌}
use runnerctl.BTreeMap.{BTreeMap, insert}
use runnerctl.Config.{Pool, Config}

pub data RetryScope : Type 0 where
  observation provisioning : RetryScope

pub record PoolState : Type 0 where
  pub id : String
  pub running : Bool
  pub deleting : Bool
  pub generation : ℕ
  pub failures : ℕ
  pub retry_at : ℕ
  pub retry_scope : RetryScope
  pub error : Option String
  pub observed_at : ℕ

-- `impl Default for PoolState`, with the fresh id given
abbrev pub default_pool_state : String → PoolState
default_pool_state uuid = record {
  id = uuid;
  running = false;
  deleting = false;
  generation = 1;
  failures = 0;
  retry_at = 0;
  retry_scope = observation;
  error = none;
  observed_at = 0;
}

pub record Run : Type 0 where
  pub id : String
  pub pool_id : String
  pub pool : Pool
  pub generation : ℕ
  pub created_at : ℕ
  pub phase : String
  pub remote_id : Option ℕ
  pub retiring : Bool
  pub force : Bool
  pub completed_job : Bool
  pub log_saved : Bool

pub record State : Type 0 where
  pub manager_id : String
  pub revision : ℕ
  pub config : Config
  pub file_hash : String
  pub pools : BTreeMap PoolState
  pub runs : BTreeMap Run

-- `config.pools.iter().map(…).collect()`; the n-th fresh id is `uuid n`
unfoldable pub new_pools : (ℕ → String) → ℕ → List Pool → BTreeMap PoolState → BTreeMap PoolState
new_pools uuid n [] m = m
new_pools uuid n (p ∷ rest) m =
    new_pools uuid (n + 1) rest (insert p.name (default_pool_state (uuid n)) m)

-- `State::new`; the manager's id is drawn after the pools'
unfoldable pub new_state : (ℕ → String) → ℕ → ℕ → Config → String → State
unfolding new_pools
new_state uuid n after config file_hash = record {
  manager_id = uuid after;
  revision = 1;
  config = config;
  file_hash = file_hash;
  pools = new_pools uuid n config.pools [];
  runs = [];
}
