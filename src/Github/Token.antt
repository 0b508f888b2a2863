-- ===== src/Github/Token.antt =====
-- `access_token` of src/github.rs: a personal token, or one of a GitHub App's installation.
use runnerctl.Common.{ℕ, ◌+◌, String, not, Option, none, some, ltb, ◌==◌, if◌then◌else◌}
use runnerctl.BTreeMap.{lookup, insert}
use runnerctl.Config.{Auth}
use runnerctl.Github.{
  Cache, Body, Net, Call, ◌>>=◌, ◌>>◌, return, from_result, or_fail, shared_now, change, next_call,
  is_success,
}
use runnerctl.Github.Errors.{clock, send, response_error}

module _ (net : Net) where
  -- `now() + 60 < expiry`
  unfoldable pub cached_token : Option (ℕ × String) → Call (Option String)
  cached_token none = return none
  cached_token (some (expiry, token)) = do
    t ← clock net
    if ltb (t + 60) expiry then return (some token) else return none

  abbrev pub store_token : String → ℕ → ℕ → String → Cache → Cache
  store_token key generation expires token c =
      if c.generation == generation
      then record c { installation_tokens = insert key (expires, token) c.installation_tokens }
      else c

  unfoldable pub read_token : String → ℕ → Body → Call String
  read_token key generation body = do
    token ← or_fail body.token "GitHub App installation token missing"
    expires ← or_fail body.expires_at "GitHub App installation token expiry missing"
    change (store_token key generation expires token)
    return token

  unfoldable pub new_token : String → ℕ → Call String
  new_token key generation = do
    n ← next_call
    from_result (net.app_jwt n)
    r ← send net "GitHub App token connection failed"
    if not (is_success r.status)
        then response_error net r key generation "GitHub App installation token"
        else or_fail r.body "invalid GitHub App token response" >>= read_token key generation

  abbrev pub token_or_new : String → ℕ → Option String → Call String
  token_or_new key generation none = new_token key generation
  token_or_new key generation (some token) = return token

  unfoldable pub app_token : String → Call String
  app_token key = do
    c ← shared_now
    found ← cached_token (lookup key c.installation_tokens)
    token_or_new key c.generation found

  unfoldable pub access_token : String → Auth → Call String
  access_token profile auth = elim auth.app [
    | none ↦ next_call >>= λ n. from_result (net.credential n)
    | some app ↦ app_token (net.auth_key profile auth)
  ]
