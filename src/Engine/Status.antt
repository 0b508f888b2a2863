-- ===== src/Engine/Status.antt =====
-- The status request of `handle_inner` in src/manager.rs.
use runnerctl.Common.{
  ℕ, ◌+◌, String, Bool, true, not, Option, none, some, List, [], ◌∷◌, map, filter, length, str_eq,
  if◌then◌else◌,
}
use Prim.Native.String
use runnerctl.BTreeMap.{contains_key}
use runnerctl.Config.{Pool, target}
use runnerctl.State.{PoolState, Run, State}
use runnerctl.Protocol.{RunnerStatus, PoolStatus, Reply}
use runnerctl.Retiring.{pool_runs}
use runnerctl.Engine.{Exec, pure, gets, ◌>>=◌, ◌>>◌, ensure, index_pool}

-- `count(phase)`
abbrev pub count_phase : String → List Run → ℕ
count_phase phase runs = length (filter (λ r. str_eq r.phase phase) runs)

abbrev pub intent : PoolState → String
intent p = if p.deleting then "deleting" else if p.running then "running" else "stopped"

abbrev pub drain_reason : Run → Option String
drain_reason r =
    if not r.retiring
    then none
    else if str_eq r.phase "idle"
    then some "waiting_for_next_job"
    else if str_eq r.phase "busy"
    then some "job_in_progress"
    else some "awaiting_observation_or_cleanup"

abbrev pub runner_status : Run → RunnerStatus
runner_status r = record {
  id = r.id;
  phase = r.phase;
  retiring = r.retiring;
  generation = r.generation;
  drain_reason = drain_reason r;
}

unfoldable pub pool_status : Pool → PoolState → List Run → PoolStatus
pool_status p ps runs = record {
  name = p.name;
  organization = p.organization;
  repository = p.repository;
  target = target p;
  replicas = p.replicas;
  intent = intent ps;
  active = length runs;
  starting = count_phase "creating" runs + count_phase "starting" runs;
  idle = count_phase "idle" runs;
  busy = count_phase "busy" runs;
  unknown = count_phase "unknown" runs;
  draining = length (filter (λ r. r.retiring) runs);
  generation = ps.generation;
  error = ps.error;
  retry_at = ps.retry_at;
  observed_at = ps.observed_at;
  config = p;
  runners = map runner_status runs;
}

-- `pool.as_ref().is_none_or(|n| n == &p.name)`
abbrev pub selected : Option String → Pool → Bool
selected none p = true
selected (some name) p = str_eq name p.name

unfoldable pub pool_statuses : List Pool → Exec (List PoolStatus)
pool_statuses [] = pure []
pool_statuses (p ∷ rest) = do
  ps ← index_pool p.name
  state ← gets (λ e. e.state)
  others ← pool_statuses rest
  pure (pool_status p ps (pool_runs ps.id state.runs) ∷ others)

abbrev pub known_or_none : Option String → State → Bool
known_or_none none state = true
known_or_none (some name) state = contains_key name state.pools

abbrev unknown_text : Option String → String
unknown_text none = ""
unknown_text (some name) = String.◌++◌ "unknown pool: " name

unfoldable pub handle_status : Option String → Exec Reply
handle_status pool = do
  state ← gets (λ e. e.state)
  ensure (known_or_none pool state) (unknown_text pool)
  pools ← pool_statuses (filter (selected pool) state.config.pools)
  pure (Reply.status state.revision pools)
