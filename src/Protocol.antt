-- ===== src/Protocol.antt =====
-- The requests of src/protocol.rs, and the data of the replies that src/manager.rs builds as JSON:
-- a constructor for each reply, with the fields that vary.
use runnerctl.Common.{ℕ, String, Bool, true, false, Option, List}
use runnerctl.Config.{AppAuth, Pool}

pub data Request : Type 0 where
  status : (pool : Option String) → Request
  add : (pool : Pool) → Request
  start : (pool : Option String) → (all : Bool) → Request
  stop : (pool : Option String) → (all force : Bool) → Request
  scale : (pool : String) → (replicas : ℕ) → Request
  remove : (pool : String) → (force : Bool) → Request
  upgrade : (pool image : String) → Request
  apply : (text : String) → (revision : ℕ) → Request
  auth : (profile credential : String) → (app : Option AppAuth) → Request
  logs : (pool id : String) → Request
  doctor : Request

unfoldable pub changes_config : Request → Bool
changes_config (Request.add _) = true
changes_config (Request.scale _ _) = true
changes_config (Request.upgrade _ _) = true
changes_config (Request.auth _ _ _) = true
changes_config _ = false

-- `!matches!(&request, Request::Status { .. })`
unfoldable pub mutating : Request → Bool
mutating (Request.status _) = false
mutating _ = true

-- One entry of "runners" in a status.
pub record RunnerStatus : Type 0 where
  pub id : String
  pub phase : String
  pub retiring : Bool
  pub generation : ℕ
  pub drain_reason : Option String

-- One entry of "pools" in a status.
pub record PoolStatus : Type 0 where
  pub name : String
  pub organization : String
  pub repository : Option String
  pub target : String
  pub replicas : ℕ
  pub intent : String
  pub active : ℕ
  pub starting : ℕ
  pub idle : ℕ
  pub busy : ℕ
  pub unknown : ℕ
  pub draining : ℕ
  pub generation : ℕ
  pub error : Option String
  pub retry_at : ℕ
  pub observed_at : ℕ
  pub config : Pool
  pub runners : List RunnerStatus

pub data Reply : Type 0 where
  status : (revision : ℕ) → (pools : List PoolStatus) → Reply
  added : (name intent : String) → Reply
  started : (targets : List String) → Reply
  stopped : (targets : List String) → (pending force : Bool) → Reply
  scaled : (pool : String) → (replicas : ℕ) → Reply
  upgrading : (pool : String) → Reply
  removing : (pool : String) → (force : Bool) → Reply
  profile : (profile : String) → Reply
  applied : (revision : ℕ) → Reply

-- What a client is answered: a reply, a log, or a diagnosis by its result.
pub data Answered : Type 0 where
  reply : Reply → Answered
  logs : (text : List ℕ) → Answered
  diagnosis : (healthy : Bool) → Answered
