-- ===== src/Engine.antt =====
-- The manager's state, `Engine` of src/manager.rs, and the actions on it. What the code calls and
-- does not implement is `Env`: fresh ids, the clock, SHA-256, TOML, and whether each access to the
-- disk or the database succeeds. Each such call takes the next number, `io`, by which `Env` answers.
pub mod Store
pub mod Pools
pub mod Reconcile
pub mod Retry
pub mod Status
pub mod Apply
pub mod Handle
pub mod Sound
pub mod Open
pub mod Serve
pub mod Diagnose
pub mod Connect
use runnerctl.Common.{ℕ, ◌+◌, String, Bool, true, false, Option, none, some, List, if◌then◌else◌}
use runnerctl.Result.{Error, Result, ok, err, message}
use runnerctl.Config.{Config}
use runnerctl.BTreeMap.{BTreeMap, lookup, modify}
use runnerctl.State.{PoolState, State}
use runnerctl.Retiring.{mark_retiring}

-- What `atomic_write` may do: the old file stays, or the new one is in place and the directory
-- could not be synced, or all went well.
pub data WriteOutcome : Type 0 where
  failed_before failed_after written : WriteOutcome

pub record Env : Type 0 where
  pub hash : String → String
  pub to_toml : Config → Option String
  pub from_toml : String → Option Config
  pub uuid : ℕ → String
  pub now : ℕ → ℕ
  pub save_fails : ℕ → Bool
  pub load_fails : ℕ → Bool
  pub read_fails : ℕ → Bool
  pub write : ℕ → WriteOutcome
  pub io_error : ℕ → String

-- What a reconciliation asks of Docker, GitHub and the directories of the runs.
pub data Effect : Type 0 where
  docker_create docker_start docker_archive docker_repair : (id : String) → Effect
  docker_remove : (id : String) → (force : Bool) → Effect
  docker_probe : (image : String) → Effect
  github_remove : (remote_id : ℕ) → Effect
  write_token remove_token make_directory remove_directory write_log : (id : String) → Effect
  remove_log_file : (filename : String) → Effect

-- `row` is the row of SQLite, `file` the text of config.toml, `snapshot` the last value sent to the
-- readers (none before `serve` opens the channel), `cleared` how often `github.clear()` was called,
-- `effects` what was asked of the outside, the latest first.
pub record Engine : Type 0 where
  pub state : State
  pub row : Option State
  pub file : Option String
  pub snapshot : Option State
  pub cursor : ℕ
  pub epoch : ℕ
  pub reconcile_epoch : Option ℕ
  pub cleared : ℕ
  pub boot_time : Option ℕ
  pub effects : List Effect
  pub io : ℕ

-- How a call ends. `panicked` stands for an index or an `unwrap` that fails: it ends the task, and no
-- code of the manager handles it.
pub data Answer {ℓ} (A : Type ℓ) : Type ℓ where
  done : A → Answer A
  failed : Error → Answer A
  panicked : Answer A

-- A method returns the engine also beside an error: what was written stays written.
abbrev pub Exec {ℓ} : Type ℓ → Type ℓ
Exec A = Engine → Answer A × Engine

module _ {ℓ} {A : Type ℓ} where
  unfoldable pub pure : A → Exec A
  pure a e = (done a, e)

  unfoldable pub raise : Error → Exec A
  raise error e = (failed error, e)

  unfoldable pub lift : Result A → Exec A
  lift (ok a) e = (done a, e)
  lift (err error) e = (failed error, e)

  unfoldable pub gets : (Engine → A) → Exec A
  gets f e = (done (f e), e)

  -- `option.context(text)?`
  unfoldable pub context : Option A → String → Exec A
  context none text e = (failed (message text), e)
  context (some a) text e = (done a, e)

unfoldable pub update : (Engine → Engine) → Exec (Unit {0})
update f e = (done tt, f e)

-- `self.state = f(self.state)`
unfoldable pub update_state : (State → State) → Exec (Unit {0})
update_state f e = (done tt, record e { state = f e.state })

-- `ensure!(b, text)`
unfoldable pub ensure : Bool → String → Exec (Unit {0})
ensure true text e = (done tt, e)
ensure false text e = (failed (message text), e)

-- The number of the next outside call.
unfoldable pub next_io : Exec ℕ
next_io e = (done e.io, record e { io = e.io + 1 })

-- `self.state.pools[name]`, and `get_mut(name).unwrap()`
unfoldable pub index_pool : String → Exec PoolState
index_pool name e = elim (lookup name e.state.pools) [ none ↦ (panicked, e) | some p ↦ (done p, e) ]

-- `self.mark_retiring(name)`
unfoldable pub mark : String → Exec (Unit {0})
mark name e = elim (mark_retiring name e.state) [
  | none ↦ (panicked, e)
  | some s ↦ (done tt, record e { state = s })
]

module _ {ℓ κ} {A : Type ℓ} {B : Type κ} where
  abbrev pub continue : Answer A → (A → Exec B) → Exec B
  continue (done a) f e = f a e
  continue (failed error) f e = (failed error, e)
  continue panicked f e = (panicked, e)

  infixl 5 ◌>>=◌ ◌>>◌
  -- Opening this opens the actions above too.
  unfoldable pub ◌>>=◌ : Exec A → (A → Exec B) → Exec B
  unfolding pure raise lift gets context update update_state ensure next_io index_pool mark
  ◌>>=◌ m f e = let (r, e') = m e in continue r f e'

  abbrev pub ◌>>◌ : Exec A → Exec B → Exec B
  m >> k = m >>= λ _. k

-- `*self.state.pools.get_mut(name).unwrap() = f(…)`; returns the pool's state before
unfoldable pub modify_pool : String → (PoolState → PoolState) → Exec PoolState
unfolding ◌>>=◌
modify_pool name f = do
  p ← index_pool name
  update_state (λ s. record s { pools = modify name f s.pools })
  pure p
