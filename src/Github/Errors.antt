-- ===== src/Github/Errors.antt =====
-- A response that is awaited, and `response_error` of src/github.rs.
use Prim.Native.String.{◌++◌}
use runnerctl.Common.{ℕ, String, Option, none, some, ◌==◌, if◌then◌else◌}
use runnerctl.BTreeMap.{insert, remove}
use runnerctl.Engine.Retry.{saturating_add}
use runnerctl.Github.{
  Cache, Response, Net, Call, ◌>>=◌, ◌>>◌, return, fail, or_fail, change, next_call, is_rate_limit,
  is_denied, rate_wait,
}

module _ (net : Net) where
  abbrev pub clock : Call ℕ
  clock = next_call >>= λ n. return (net.now n)

  -- The wait and the message of `response_error`.
  unfoldable pub wait_of : Response → ℕ → ℕ → Option ℕ
  wait_of r soon later =
      if is_rate_limit r
      then some (rate_wait r soon later)
      else if is_denied r
      then some 300
      else none

  unfoldable pub message_of : Response → String → String
  message_of r context =
      if is_rate_limit r
      then context ++ " rate limit"
      else if is_denied r
      then context ++ (" authentication/permission error (" ++ (net.show_status r.status ++ ")"))
      else context ++ (" API error (" ++ (net.show_status r.status ++ ")"))

  abbrev pub block : String → Option ℕ → ℕ → String → Cache → Cache
  block key none at text c = c
  block key (some wait) at text c = record c {
    blocked = insert key (saturating_add at wait, text) c.blocked;
  }

  -- What `response_error` does to the shared cache.
  unfoldable pub note_response : Response → String → ℕ → ℕ → ℕ → ℕ → String → Cache → Cache
  note_response r key generation soon later at text c =
      if c.generation == generation
      then block key (wait_of r soon later) at text (
          if r.status == 401
          then record c { installation_tokens = remove key c.installation_tokens }
          else c)
      else c

  unfoldable pub response_error : {A : Type 0} → Response → String → ℕ → String → Call A
  response_error r key generation context = do
    soon ← clock
    later ← clock
    at ← clock
    let text = message_of r context
    change (note_response r key generation soon later at text)
    fail text

  -- A response is awaited; other tasks go on.
  unfoldable pub send : String → Call Response
  send text = do n ← next_call; change (net.meanwhile n); or_fail (net.send n) text
