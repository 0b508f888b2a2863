-- ===== src/Cli.antt =====
-- The commands of src/main.rs after clap has read them, and the requests that they become. What a
-- terminal answers, the clock, and the manager's answers are a record; each outside step takes the
-- next number, by which it answers.
pub mod Wait
pub mod Follow
pub mod Files
pub mod Login
pub mod Init
pub mod Run
use runnerctl.Common.{
  ℕ, ◌+◌, String, Bool, true, false, Option, none, some, List, [], ◌∷◌, if◌then◌else◌, ◌≡◌, refl,
  sym, ap, arith,
}
use runnerctl.Result.{Error, Result, ok, err, message}
use runnerctl.Config.{AppAuth, Pool}
use runnerctl.F64.{F64}
use runnerctl.Engine.{WriteOutcome}
use runnerctl.Protocol.{Request, Reply, PoolStatus, Answered}

-- `data`, with `data["manager_running"]` where it is there.
pub record Received : Type 0 where
  pub answered : Answered
  pub manager_running : Option Bool

-- `value != false`
abbrev pub is_not_false : Option Bool → Bool
is_not_false (some false) = false
is_not_false _ = true

-- `data["revision"].as_u64()`
abbrev pub revision_of : Answered → Option ℕ
revision_of (Answered.reply (Reply.status revision _)) = some revision
revision_of (Answered.reply (Reply.applied revision)) = some revision
revision_of _ = none

-- `data["pools"].as_array()`
abbrev pub pools_of : Answered → Option (List PoolStatus)
pools_of (Answered.reply (Reply.status _ pools)) = some pools
pools_of _ = none

-- `data["logs"].as_str().unwrap_or_default()`
abbrev pub logs_of : Answered → List ℕ
logs_of (Answered.logs text) = text
logs_of _ = []

-- `data["healthy"]`
abbrev pub healthy_of : Answered → Option Bool
healthy_of (Answered.diagnosis healthy) = some healthy
healthy_of _ = none

-- What a command meets: the answers to its requests, whether `timeout_at` elapsed first, Ctrl+C, how
-- long a request took, and how much later than asked a sleep ended, in nanoseconds; the directory
-- that `--home` names, fresh ids, whether a file was written, and whether a key of an App signs.
pub record Terminal : Type 0 where
  pub home : String
  pub uuid : ℕ → String
  pub write : ℕ → WriteOutcome
  pub io_error : ℕ → String
  pub signs : AppAuth → Result (Unit {0})
  pub answer : ℕ → Request → Result Received
  pub timed_out : ℕ → Bool
  pub interrupted : ℕ → Bool
  pub took : ℕ → ℕ
  pub overslept : ℕ → ℕ
  pub clock_end : ℕ

-- `sent` are the requests so far and `files` the files written, by path and text, the latest first.
pub record Session : Type 0 where
  pub now : ℕ
  pub io : ℕ
  pub sent : List Request
  pub files : List (String × List ℕ)

abbrev pub Call : Type 0 → Type 0
Call A = Session → Result A × Session

module _ {A B : Type 0} where
  abbrev pub proceed : Result A → (A → Call B) → Call B
  proceed (err error) f s = (err error, s)
  proceed (ok a) f s = f a s

  infixl 5 ◌>>=◌ ◌>>◌
  abbrev pub ◌>>=◌ : Call A → (A → Call B) → Call B
  ◌>>=◌ m f s = let (r, s') = m s in proceed r f s'

  abbrev pub ◌>>◌ : Call A → Call B → Call B
  m >> k = m >>= λ _. k

module _ {A : Type 0} where
  abbrev pub return : A → Call A
  return a s = (ok a, s)

  abbrev pub fail : String → Call A
  fail text s = (err (message text), s)

  abbrev pub context : Option A → String → Call A
  context none text = fail text
  context (some a) text = return a

  abbrev pub from_result : Result A → Call A
  from_result r s = (r, s)

abbrev pub ensure : Bool → String → Call (Unit {0})
ensure b text = if b then return tt else fail text

abbrev pub clock : Call ℕ
clock s = (ok s.now, s)

abbrev pub advance : Terminal → Request → Session → Session
advance t request s = record s { now = s.now + t.took s.io; io = s.io + 1; sent = request ∷ s.sent }

-- `dispatch`
abbrev pub send : Terminal → Request → Call Received
send t request s = (t.answer s.io request, advance t request s)

-- `Target`, `WaitArgs`, and the arguments of `pool add`.
pub record Target : Type 0 where
  pub pool : Option String
  pub all : Bool

pub record WaitArgs : Type 0 where
  pub wait : Bool
  pub timeout : ℕ

pub record AddArgs : Type 0 where
  pub name : String
  pub org : Option String
  pub repo : Option String
  pub auth : String
  pub labels : List String
  pub replicas : ℕ
  pub runner_group : String
  pub image : String
  pub docker_socket : Bool
  pub allow_privilege_escalation : Bool
  pub cpus : Option F64
  pub memory : Option String

-- Where `auth login` takes the token from; what was typed is its text.
pub data TokenSource : Type 0 where
  env : (variable : String) → TokenSource
  stdin : (text : Result (List ℕ)) → TokenSource
  prompt : (text : Result (List ℕ)) → TokenSource

-- The key of `auth app`: what `fs::canonicalize` makes of the given path, or a variable.
pub data KeySource : Type 0 where
  private_key : (path : Result String) → KeySource
  key_env : (variable : Option String) → KeySource

-- The commands that end in a request.
pub data Command : Type 0 where
  login : (profile : String) → (source : TokenSource) → Command
  app : (profile app_id : String) → (installation_id : ℕ) → (key : KeySource) → Command
  pool_add : (args : AddArgs) → Command
  pool_list : Command
  pool_show : (name : String) → Command
  pool_remove : (name : String) → (force : Bool) → (wait : WaitArgs) → Command
  config_apply : (text : Result String) → (revision : Option ℕ) → Command
  status : (pool : Option String) → Command
  start : (target : Target) → Command
  stop : (target : Target) → (force : Bool) → (wait : WaitArgs) → Command
  scale : (pool : String) → (replicas : ℕ) → Command
  upgrade : (pool image : String) → Command
  doctor : Command

-- `org.unwrap_or_default()`
abbrev pub or_empty : Option String → String
or_empty none = ""
or_empty (some s) = s

abbrev pub pool_of : AddArgs → Pool
pool_of a = record {
  name = a.name;
  organization = or_empty a.org;
  repository = a.repo;
  auth = a.auth;
  labels = a.labels;
  runner_group = a.runner_group;
  replicas = a.replicas;
  image = a.image;
  docker_socket = a.docker_socket;
  allow_privilege_escalation = a.allow_privilege_escalation;
  cpus = a.cpus;
  memory = a.memory;
}

module _ {A B : Type 0} where
  -- The two halves of a run that succeeds.
  pub bind_ok :
      (m : Call A) (f : A → Call B) (s s' : Session) (b : B)
      → (m >>= f) s ≡ (ok b, s')
      → (a : A) × (s1 : Session) × (m s ≡ (ok a, s1)) × (f a s1 ≡ (ok b, s'))
  bind_ok m f s s' b h = by_result (m s) refl
    where
      by_result :
          (r : Result A × Session)
          → m s ≡ r
          → (a : A) × (s1 : Session) × (m s ≡ (ok a, s1)) × (f a s1 ≡ (ok b, s'))
      by_result (err error, s1) e = absurd (ground arith)
      by_result (ok a, s1) e = (a, s1, e, ground arith)

pub ensure_ok :
    (b : Bool) (text : String) (s s' : Session)
    → ensure b text s ≡ (ok tt, s')
    → (b ≡ true) × (s' ≡ s)
ensure_ok b text s s' h = (ground arith, ground arith)
