-- ===== src/Github/Lists.antt =====
-- `request`, `list`, `token` and `remove` of src/github.rs.
use Prim.Native.String.{◌++◌}
use runnerctl.Common.{
  ℕ, zero, suc, ◌-◌, String, not, ◌&&◌, Option, none, some, List, [], length, ltb, ◌==◌,
  if◌then◌else◌,
}
use runnerctl.BTreeMap.{lookup}
use runnerctl.Config.{Auth}
use runnerctl.Engine.Reconcile.{RemoteRunner}
use runnerctl.Github.{
  get_pair, remove_pair, insert_pair, Cache, Body, Response, Net, Call, ◌>>=◌, ◌>>◌, return, fail,
  or_fail, shared_now, change, is_success,
}
use runnerctl.Github.Errors.{clock, send, response_error}
use runnerctl.Github.Token.{access_token}

module _ (net : Net) where
  -- `{message}; retry after {until}`, while the block lasts
  unfoldable pub check_blocked : Option (ℕ × String) → Call (Unit {0})
  check_blocked none = return tt
  check_blocked (some (until, text)) = do
    t ← clock net
    if ltb t until then fail (text ++ ("; retry after " ++ net.show_number until)) else return tt

  -- The body, or none for "not found" and for no content.
  unfoldable pub read_response : Response → String → ℕ → Call (Option Body)
  read_response r key generation =
      if not (is_success r.status) && not (r.status == 404)
      then response_error net r key generation "GitHub"
      else if r.status == 404
      then return none
      else if r.status == 204
      then return none
      else or_fail r.body "invalid GitHub response" >>= λ b. return (some b)

  unfoldable pub request : String → Auth → Call (Option Body)
  request profile auth = do
    let key = net.auth_key profile auth
    c ← shared_now
    check_blocked (lookup key c.blocked)
    access_token net profile auth
    r ← send net "GitHub connection failed"
    read_response r key c.generation

  abbrev pub runners_of : Option Body → Option (Option (List RemoteRunner))
  runners_of none = none
  runners_of (some b) = b.runners

  abbrev pub store_list : String × String → ℕ → ℕ → List RemoteRunner → Cache → Cache
  store_list key generation at runners c =
      if c.generation == generation
      then record c { cache = insert_pair key (at, runners) c.cache }
      else c

  unfoldable pub finish_list : String × String → ℕ → List RemoteRunner → Call (List RemoteRunner)
  finish_list key generation runners = do
    at ← clock net
    change (store_list key generation at runners)
    return runners

  -- The loop over the pages, of which `left` may still be asked for.
  unfoldable pub list_pages :
      String → Auth → String × String → ℕ → ℕ → List RemoteRunner → Call (List RemoteRunner)
  list_pages profile auth key generation zero runners = fail "GitHub pagination limit exceeded"
  list_pages profile auth key generation (suc left) runners = do
    data' ← request profile auth
    parsed ←
        or_fail (runners_of data')
          "cannot list runners; check organization/repository and permissions"
    batch ← or_fail parsed "invalid runners"
    let all' = mathlib.Core.List.◌++◌ runners batch
    if ltb (length batch) 100
        then finish_list key generation all'
        else list_pages profile auth key generation left all'

  -- A list that is younger than `ttl`.
  unfoldable pub cached_list :
      Option (ℕ × List RemoteRunner) → ℕ → Call (Option (List RemoteRunner))
  cached_list none ttl = return none
  cached_list (some (at, runners)) ttl = do
    t ← clock net
    if ltb (t - at) ttl then return (some runners) else return none

  unfoldable pub list_or_fetch :
      String → Auth → String × String → ℕ → Option (List RemoteRunner) → Call (List RemoteRunner)
  list_or_fetch profile auth key generation none = list_pages profile auth key generation 10000 []
  list_or_fetch profile auth key generation (some runners) = return runners

  unfoldable pub list : String → Auth → String → ℕ → Call (List RemoteRunner)
  list profile auth scope ttl = do
    let key : String × String = (net.auth_key profile auth, scope)
    c ← shared_now
    found ← cached_list (get_pair key c.cache) ttl
    list_or_fetch profile auth key c.generation found

  abbrev pub token_of : Option Body → Option String
  token_of none = none
  token_of (some b) = b.token

  unfoldable pub registration_token : String → Auth → Call String
  registration_token profile auth = do
    data' ← request profile auth
    or_fail (token_of data') "registration token unavailable; check permissions"

  unfoldable pub remove_runner : String → Auth → String → Call (Unit {0})
  remove_runner profile auth scope = do
    request profile auth
    change (λ c. record c { cache = remove_pair (net.auth_key profile auth, scope) c.cache })
