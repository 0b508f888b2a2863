-- ===== src/Engine/Store.antt =====
-- The database row, config.toml, and the commit of a new configuration: `Store::save`,
-- `Store::load`, `atomic_write`, and `save`, `clean_file` and `commit_config` of the engine.
pub mod Laws
use runnerctl.Common.{
  ℕ, ◌+◌, ◌%◌, ◌^◌, String, Bool, true, false, Option, none, some, str_eq, if◌then◌else◌,
}
use runnerctl.Result.{Result, ok, err, message}
use runnerctl.Config.{Config}
use runnerctl.Config.Memory.{u64_mod}
use runnerctl.Config.Validate.{validate}
use runnerctl.State.{State}
use runnerctl.Engine.{
  Env, WriteOutcome, failed_before, failed_after, written, Engine, Exec, done, pure, lift, gets,
  update, ◌>>=◌, ◌>>◌, ensure, context, next_io,
}

-- The readers of the snapshot, if there are any, get the current state.
unfoldable pub send_snapshot : Exec (Unit {0})
send_snapshot e =
    (done tt, elim e.snapshot [ none ↦ e | some _ ↦ record e { snapshot = some e.state } ])

module _ (env : Env) where
  -- `Store::save`
  unfoldable pub store_save : State → Exec (Unit {0})
  store_save state = do
    n ← next_io
    if env.save_fails n
        then lift (err (message (env.io_error n)))
        else update (λ e. record e { row = some state })

  -- `Store::load`
  unfoldable pub store_load : Exec (Option State)
  store_load = do
    n ← next_io
    if env.load_fails n then lift (err (message (env.io_error n))) else gets (λ e. e.row)

  -- `fs::read_to_string(self.paths.config())`
  unfoldable pub read_config : Exec String
  read_config = do
    n ← next_io
    if env.read_fails n
        then lift (err (message (env.io_error n)))
        else context (← gets (λ e. e.file)) (env.io_error n)

  unfoldable pub after_write : ℕ → String → WriteOutcome → Exec (Unit {0})
  after_write n text failed_before = lift (err (message (env.io_error n)))
  after_write n text failed_after = do
    update (λ e. record e { file = some text })
    lift (err (message (env.io_error n)))
  after_write n text written = update (λ e. record e { file = some text })

  -- `atomic_write` on config.toml
  unfoldable pub write_config : String → Exec (Unit {0})
  unfolding after_write
  write_config text = do n ← next_io; after_write n text (env.write n)

  unfoldable pub save : Exec (Unit {0})
  unfolding store_save send_snapshot
  save = do store_save (← gets (λ e. e.state)); send_snapshot

  unfoldable pub clean_file : Exec (Unit {0})
  unfolding read_config
  clean_file = do
    text ← read_config
    state ← gets (λ e. e.state)
    ensure (str_eq (env.hash text) state.file_hash)
        "config.toml has unapplied changes; run config apply first"

  -- The state that `commit_config` stores.
  abbrev pub committed : Config → String → State → State
  committed next text state = record state {
    config = next;
    revision = (state.revision + 1) % u64_mod;
    file_hash = env.hash text;
  }

  unfoldable pub commit_config : Config → Exec (Unit {0})
  unfolding store_save write_config send_snapshot
  commit_config next = do
    lift (validate next)
    text ← context (env.to_toml next) "cannot serialize the configuration"
    state ← gets (λ e. committed next text e.state)
    store_save state
    update (λ e. record e { state = state })
    write_config text
    update (λ e. record e { cleared = e.cleared + 1 })
    send_snapshot
