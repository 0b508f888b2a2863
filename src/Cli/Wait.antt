-- ===== src/Cli/Wait.antt =====
-- `wait_for_cleanup` of src/main.rs: a status a second until the targets are clean or the time is up.
pub mod Laws
pub mod Cleaned
use runnerctl.Common.{
  ℕ, zero, suc, ◌+◌, ◌*◌, ◌/◌, ◌^◌, min, max, String, Bool, true, false, not, ◌&&◌, Option, none,
  some, List, all, find, ltb, ◌==◌, str_eq, if◌then◌else◌,
}
use runnerctl.Result.{Result, ok, err, message}
use runnerctl.Protocol.{Request, PoolStatus}
use runnerctl.Cli.{
  Received, Terminal, Session, Call, ◌>>=◌, ◌>>◌, return, fail, context, ensure, clock, send,
  advance, is_not_false, pools_of,
}

abbrev pub second : ℕ
second = 10 ^ 9

-- `pools.iter().find(|p| p["name"] == *target).is_none_or(|p| !removed && p["active"] == 0)`
unfoldable pub is_clean : Bool → List PoolStatus → String → Bool
is_clean removed pools target = elim (find (λ p. str_eq p.name target) pools) [
  | none ↦ true
  | some p ↦ not removed && p.active == 0
]

-- `sleep_until(target)`, which ends at that time or later
abbrev pub sleep_until : Terminal → ℕ → Call (Unit {0})
sleep_until t target s =
    (ok tt, record s { now = max s.now target + t.overslept s.io; io = s.io + 1 })

module _ (t : Terminal) (targets : List String) (removed : Bool) (deadline : ℕ) where
  -- `timeout_at(deadline, dispatch(…)).await.context(…)??`
  abbrev pub poll : Call Received
  poll s =
      if t.timed_out s.io
      then fail "cleanup wait timed out; intent is saved and no additional jobs were cancelled"
          (advance t (Request.status none) s)
      else send t (Request.status none) s

  -- The end of a round that found the targets in use.
  unfoldable pub pause : Call Bool
  pause = do
    now ← clock
    ensure (ltb now deadline)
        "cleanup wait timed out; intent is saved and timeout does not force-cancel jobs; idle runners may need one final job"
    interrupted ← λ s. (ok (t.interrupted s.io), s)
    ensure (not interrupted)
        "wait interrupted; cleanup remains pending; stopping the wait does not cancel jobs"
    sleep_until t (min deadline (now + second))
    return false

  -- One round: whether the wait is over.
  unfoldable pub wait_round : Call Bool
  wait_round = do
    status ← poll
    ensure (is_not_false status.manager_running)
        "manager stopped while waiting; cleanup is still pending"
    pools ← context (pools_of status.answered) "missing pools"
    if all (is_clean removed pools) targets then return true else pause

  -- What follows a round.
  abbrev pub after_round :
      (Session → Option (Result (Unit {0}) × Session))
      → Result Bool
      → Session
      → Option (Result (Unit {0}) × Session)
  after_round rest (err error) s = some (err error, s)
  after_round rest (ok true) s = some (ok tt, s)
  after_round rest (ok false) s = rest s

  -- The loop, on fuel; none when the fuel is spent.
  unfoldable pub wait_loop : ℕ → Session → Option (Result (Unit {0}) × Session)
  wait_loop zero s = none
  wait_loop (suc fuel) s = let (r, s') = wait_round s in after_round (wait_loop fuel) r s'

-- The fuel is one round for each second of the timeout, and two more. `Instant::now() + timeout` panics
-- past the clock's end: then there is no result either.
unfoldable pub wait_for_cleanup :
    Terminal → List String → Bool → ℕ → Session → Option (Result (Unit {0}) × Session)
unfolding wait_loop
wait_for_cleanup t targets removed timeout s =
    let waits = wait_loop t targets removed (s.now + timeout) (suc (timeout / second + 1)) s in
    if ltb (s.now + timeout) t.clock_end then waits else none
