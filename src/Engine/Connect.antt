-- ===== src/Engine/Connect.antt =====
-- How a request reaches the manager of src/manager.rs: `read_request` and `serve_connection` for those
-- that come over the socket, `Engine::handle` and `dispatch` of src/main.rs for a command that finds
-- no manager. What Docker and GitHub answer is a parameter.
pub mod Laws
pub mod Lines
use runnerctl.Common.{
  ℕ, ◌+◌, ◌-◌, ◌*◌, Bool, true, false, not, ◌&&◌, Option, none, some, List, [], ◌∷◌, ◌==◌, leb,
  length, if◌then◌else◌,
}
use runnerctl.Result.{Error, Result, ok, err, message}
use runnerctl.Config.Names.{validate_image}
use runnerctl.State.{State}
use runnerctl.Protocol.{Request, Reply, Answered}
use runnerctl.Shell.{Text}
use runnerctl.Engine.{
  Env, Engine, Exec, Answer, done, failed, panicked, pure, lift, gets, ◌>>=◌, ◌>>◌,
}
use runnerctl.Engine.Handle.{handle_local}
use runnerctl.Engine.Open.{open_engine}
use runnerctl.Engine.Reconcile.{Container}
use runnerctl.Engine.Diagnose.{Probes, Diagnosis, diagnose, runner_logs}

-- What the requests that ask Docker or GitHub are answered.
pub record Asked : Type 0 where
  pub containers : Result (List Container)
  pub logs : Result Text
  pub image : Result (Unit {0})
  pub probes : Probes

abbrev pub limit : ℕ
limit = 1024 * 1024

-- `take(n)` and `read_line` on the bytes of a stream
abbrev pub take : ℕ → List ℕ → List ℕ
take n [] = []
take n (b ∷ bytes) = let rest = take (n - 1) bytes in if n == 0 then [] else b ∷ rest

abbrev pub read_line : List ℕ → List ℕ
read_line [] = []
read_line (b ∷ bytes) = let rest = read_line bytes in if b == 10 then b ∷ [] else b ∷ rest

abbrev pub ends_with_newline : List ℕ → Bool
ends_with_newline [] = false
ends_with_newline (b ∷ []) = b == 10
ends_with_newline (_ ∷ b ∷ bytes) = ends_with_newline (b ∷ bytes)

-- `read_request`, where `is_utf8` tells UTF-8, which `read_line` wants of a `String`, and `decode` reads
-- JSON
unfoldable pub read_request :
    (is_utf8 : List ℕ → Bool) → (decode : List ℕ → Result Request) → List ℕ → Result Request
read_request is_utf8 decode stream =
    let line = read_line (take (limit + 1) stream) in
    if not (is_utf8 line)
    then err (message "stream did not contain valid UTF-8")
    else if leb (length line) limit && ends_with_newline line
    then decode line
    else err (message "request too large or incomplete")

module _ (asked : Asked) where
  abbrev pub answer_diagnosis : Option Diagnosis → Answer Answered
  answer_diagnosis none = panicked
  answer_diagnosis (some d) = done (Answered.diagnosis d.healthy)

  abbrev pub answer_logs : Result Text → Answer Answered
  answer_logs (err error) = failed error
  answer_logs (ok text) = done (Answered.logs text)

  -- What an upgrade is checked for before the manager takes it up.
  abbrev pub check_upgrade : Request → Result (Unit {0})
  check_upgrade (Request.upgrade pool image) =
      runnerctl.Result.◌>>◌ (validate_image image) asked.image
  check_upgrade _ = ok tt

  -- What a connection does with its request: it answers from the copy of the state, or sends the
  -- request to the loop of `serve`.
  pub data Routed : Type 0 where
    answered : (answer : Answer Answered) → Routed
    forwarded : (request : Request) → Routed

  abbrev pub forward : Result (Unit {0}) → Request → Routed
  forward (err error) request = answered (failed error)
  forward (ok _) request = forwarded request

  -- `serve_connection`, behind `read_request`
  unfoldable pub route : State → Request → Routed
  route state Request.doctor = answered (answer_diagnosis (diagnose asked.probes state))
  route state (Request.logs pool id) =
      answered (answer_logs (runner_logs asked.containers asked.logs state pool id))
  route state request = forward (check_upgrade request) request

  module _ (env : Env) where
    abbrev pub handle_reply : Request → Exec Answered
    handle_reply request = do r ← handle_local env request; pure (Answered.reply r)

    -- `Engine::handle`
    unfoldable pub handle : Request → Exec Answered
    handle Request.doctor e = (answer_diagnosis (diagnose asked.probes e.state), e)
    handle (Request.logs pool id) e =
        (answer_logs (runner_logs asked.containers asked.logs e.state pool id), e)
    handle (Request.upgrade pool image) e =
        (lift (check_upgrade (Request.upgrade pool image))
            >> handle_reply (Request.upgrade pool image))
          e
    handle request e = handle_reply request e

    -- `dispatch` of src/main.rs, when no manager accepts a connection
    unfoldable pub dispatch_alone : Result (Unit {0}) → Request → Exec Answered
    dispatch_alone lock request = do lift lock; open_engine env; handle request
