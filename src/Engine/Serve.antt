-- ===== src/Engine/Serve.antt =====
-- The loop of `serve` in src/manager.rs: what happens to the manager, event by event, and its lives
-- from one start to the next.
pub mod Laws
pub mod Ready
use runnerctl.Common.{String, Bool, true, false, Option, none, some, List, [], ◌∷◌, if◌then◌else◌}
use runnerctl.Result.{Error, Result, ok, err, message}
use runnerctl.Protocol.{Request, Reply}
use runnerctl.Engine.{Env, Engine, Exec, Answer, done, failed, panicked, pure, update, ◌>>=◌, ◌>>◌}
use runnerctl.Engine.Handle.{handle_local}
use runnerctl.Engine.Open.{open_engine}
use runnerctl.Engine.Reconcile.{Outside, attempt}
use runnerctl.Engine.Reconcile.Tick.{tick}

-- The arms of the `select!`: SIGTERM or Ctrl+C, the end of the task that accepts connections, a
-- request that a connection sends, and the interval.
pub data Event : Type 0 where
  signal closed ticked : Event
  received : (request : Request) → Event

-- Why the loop breaks.
abbrev pub Break : Type 0
Break = Option (Result (Unit {0}))

-- `if let Err(error) = engine.tick().await { break Err(error); }`
abbrev pub break_on_error : Result (Unit {0}) → Break
break_on_error (ok _) = none
break_on_error (err error) = some (err error)

module _ (env : Env) (o : Outside) where
  -- One round of the loop. The reply goes to the connection, if it still waits.
  unfoldable pub serve_event : Event → Exec Break
  serve_event Event.signal = pure (some (ok tt))
  serve_event Event.closed = pure (some (err (message "request listener stopped")))
  serve_event (Event.received request) = do attempt (handle_local env request); pure none
  serve_event Event.ticked = do result ← attempt (tick env o); pure (break_on_error result)

  abbrev pub unless_broken : Break → Exec Break → Exec Break
  unless_broken none rest = rest
  unless_broken (some result) rest = pure (some result)

  -- The loop over the events of one life; `none` when it still runs behind them.
  unfoldable pub serve_loop : List Event → Exec Break
  serve_loop [] = pure none
  serve_loop (event ∷ events) = do
    broken ← serve_event event
    unless_broken broken (serve_loop events)

  -- `serve`: the manager opens, and its readers get a channel with the state.
  unfoldable pub serve : List Event → Exec Break
  serve events = do
    open_engine env
    update (λ e. record e { snapshot = some e.state })
    serve_loop events

  -- Whatever ends a life, a panic too, leaves the files and the database to the next one.
  unfoldable pub live : List Event → Engine → Engine
  live events e = (serve events e).1

  unfoldable pub lives : List (List Event) → Engine → Engine
  lives [] e = e
  lives (events ∷ later) e = lives later (live events e)
