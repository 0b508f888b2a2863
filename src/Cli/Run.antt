-- ===== src/Cli/Run.antt =====
-- `run` of src/main.rs for the commands that end in a request: the request and the wait that a
-- command asks for, and what follows the manager's answer.
use runnerctl.Common.{
  ℕ, String, Bool, true, false, Option, none, some, List, [], ◌∷◌, map, if◌then◌else◌,
}
use runnerctl.Result.{Result, err, message}
use runnerctl.Protocol.{Request}
use runnerctl.Cli.{
  Received, Terminal, Session, Call, ◌>>=◌, ◌>>◌, return, context, from_result, ensure, send,
  is_not_false, revision_of, pools_of, healthy_of, Target, WaitArgs, Command, pool_of,
}
use runnerctl.Cli.Login.{login_request, app_request}
use runnerctl.Cli.Wait.{wait_for_cleanup}

-- The targets, whether they are to be removed, and the timeout.
abbrev pub Waiting : Type 0
Waiting = List String × Bool × ℕ

module _ (t : Terminal) where
  -- The revision that is given, or the present one.
  abbrev pub revision_or_present : Option ℕ → Call ℕ
  revision_or_present (some revision) = return revision
  revision_or_present none = do
    received ← send t (Request.status none)
    context (revision_of received.answered) "missing revision"

  abbrev pub all_names : Call (List String)
  all_names = do
    received ← send t (Request.status none)
    pools ← context (pools_of received.answered) "missing pools"
    return (map (λ p. p.name) pools)

  abbrev pub one_name : Option String → Call (List String)
  one_name pool = do name ← context pool "missing pool"; return (name ∷ [])

  abbrev pub stop_waiting : Target → WaitArgs → Call (Option Waiting)
  stop_waiting target wait =
      if wait.wait
      then (do
        targets ← if target.all then all_names else one_name target.pool
        return (some (targets, false, wait.timeout)))
      else return none

  -- The arms of the `match` on the command.
  unfoldable pub plan : Command → Call (Request × Option Waiting)
  plan (Command.login profile source) = do
    request ← login_request t profile source
    return (request, none)
  plan (Command.app profile app_id installation_id key) = do
    request ← app_request t profile app_id installation_id key
    return (request, none)
  plan (Command.pool_add args) = return (Request.add (pool_of args), none)
  plan Command.pool_list = return (Request.status none, none)
  plan (Command.pool_show name) = return (Request.status (some name), none)
  plan (Command.pool_remove name force wait) =
      return (
        Request.remove name force,
        if wait.wait then some (name ∷ [], true, wait.timeout) else none,
      )
  plan (Command.config_apply text revision) = do
    present ← revision_or_present revision
    config ← from_result text
    return (Request.apply config present, none)
  plan (Command.status pool) = return (Request.status pool, none)
  plan (Command.start target) = return (Request.start target.pool target.all, none)
  plan (Command.stop target force wait) = do
    waiting ← stop_waiting target wait
    return (Request.stop target.pool target.all force, waiting)
  plan (Command.scale pool replicas) = return (Request.scale pool replicas, none)
  plan (Command.upgrade pool image) = return (Request.upgrade pool image, none)
  plan Command.doctor = return (Request.doctor, none)

  -- The fuel of the wait is enough, so there is no result only where the deadline's addition panics,
  -- which ends the command as well.
  abbrev pub end_of_wait : Option (Result (Unit {0}) × Session) → Call (Unit {0})
  end_of_wait none s = (err (message "overflow when adding duration to instant"), s)
  end_of_wait (some end) s = end

  abbrev pub await : Option Waiting → Received → Call (Unit {0})
  await none received = return tt
  await (some (targets, removed, timeout)) received = do
    ensure (is_not_false received.manager_running)
        "request saved, but manager is stopped; start the manager before waiting for cleanup"
    λ s. end_of_wait (wait_for_cleanup t targets removed timeout s) s

  unfoldable pub run : Command → Call (Unit {0})
  run command = do
    planned ← plan command
    received ← send t planned.0
    await planned.1 received
    ensure (is_not_false (healthy_of received.answered)) "doctor found failed checks"
