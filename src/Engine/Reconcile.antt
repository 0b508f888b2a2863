-- ===== src/Engine/Reconcile.antt =====
-- The calls to the outside that a reconciliation of src/manager.rs makes: `external`, what Docker and
-- GitHub answer, and the small tests on the answers.
pub mod Exits
pub mod Steps
pub mod Pass
pub mod Tick
pub mod Arrivals
pub mod Interrupted
pub mod Laws
pub mod Logs
pub mod Capacity
pub mod Sound
pub mod Calm
pub mod Returns
pub mod Asks
use runnerctl.Common.{
  ℕ, ◌+◌, String, Bool, true, false, not, ◌&&◌, ◌||◌, Option, none, some, List, [], ◌∷◌, ltb, ◌==◌,
  str_eq, if◌then◌else◌,
}
use runnerctl.Result.{Error, Result, ok, err, message, reconcile_interrupted}
use runnerctl.BTreeMap.{lookup, insert}
use runnerctl.State.{Run, State}
use runnerctl.Protocol.{Request}
use runnerctl.Engine.{
  Effect, Env, Engine, Exec, Answer, done, failed, panicked, pure, raise, lift, gets, update,
  update_state, ◌>>=◌, ◌>>◌, next_io,
}
use runnerctl.Engine.Store.{save}
use runnerctl.Engine.Handle.{handle_local}

-- What the code reads of a container that `docker inspect` shows: three labels and the state.
pub record Container : Type 0 where
  pub manager : Option String
  pub run : Option String
  pub pool : Option String
  pub status : Option String
  pub started_at : Option String

pub record RemoteRunner : Type 0 where
  pub id : ℕ
  pub name : String
  pub status : String
  pub busy : Bool

-- An entry of the directory of the logs, with the time since its last change.
pub record LogEntry : Type 0 where
  pub filename : String
  pub is_file : Bool
  pub age_nanos : ℕ

-- The answers of Docker, GitHub and the disk, each by the number of the call, and the requests that
-- arrive while a call is in flight.
pub record Outside : Type 0 where
  pub arrivals : ℕ → List Request
  pub containers : ℕ → Result (List Container)
  pub remotes : ℕ → Result (List RemoteRunner)
  pub token : ℕ → Result String
  pub text : ℕ → Result String
  pub command : ℕ → Result (Unit {0})
  pub boot_time : ℕ → Result ℕ
  pub exists : ℕ → Bool
  pub log_entries : ℕ → Result (List (Result LogEntry))
  pub simple_uuid : ℕ → String
  pub random_byte : ℕ → ℕ
  pub parse_rfc3339 : String → Option ℕ

abbrev pub some_eq : Option String → String → Bool
some_eq none s = false
some_eq (some t) s = str_eq t s

-- `Docker::owned`
unfoldable pub owned : Container → String → Run → Bool
owned c manager run =
    some_eq c.manager manager && some_eq c.run run.id && some_eq c.pool run.pool_id

-- `self.reconcile_epoch.is_some_and(|e| e != self.epoch)`
abbrev pub is_stale : Engine → Bool
is_stale e = elim e.reconcile_epoch [ none ↦ false | some k ↦ not (k == e.epoch) ]

-- The result of a call as a value, as in `match call { Ok(..) .. Err(..) .. }`.
abbrev pub as_result {ℓ} : {A : Type ℓ} → Answer A → Exec (Result A)
as_result (done a) e = (done (ok a), e)
as_result (failed error) e = (done (err error), e)
as_result panicked e = (panicked, e)

unfoldable pub attempt {ℓ} : {A : Type ℓ} → Exec A → Exec (Result A)
attempt m e = let (r, e') = m e in as_result r e'

unfoldable pub check_epoch : Exec (Unit {0})
check_epoch = do stale ← gets is_stale; if stale then raise reconcile_interrupted else pure tt

unfoldable pub index_run : String → Exec Run
index_run id e = elim (lookup id e.state.runs) [ none ↦ (panicked, e) | some r ↦ (done r, e) ]

unfoldable pub insert_run : Run → Exec (Unit {0})
insert_run r = update_state (λ s. record s { runs = insert r.id r s.runs })

-- What a call leaves outside.
unfoldable pub leave : Effect → Exec (Unit {0})
leave effect = update (λ e. record e { effects = effect ∷ e.effects })

module _ (env : Env) where
  -- The requests that arrive are handled one after the other, and each reply is sent to its client.
  unfoldable pub serve_arrivals : List Request → Exec (Unit {0})
  serve_arrivals [] = pure tt
  serve_arrivals (request ∷ rest) = do attempt (handle_local env request); serve_arrivals rest

  module _ (o : Outside) where
    -- `external`: `start` is what the call leaves outside, `answer` what it returns.
    unfoldable pub external {ℓ} : {A : Type ℓ} → Exec (Unit {0}) → (ℕ → Result A) → Exec A
    external start answer = do
      check_epoch
      n ← next_io
      start
      serve_arrivals (o.arrivals n)
      check_epoch
      lift (answer n)
