-- ===== src/Github/Laws.antt =====
-- The cache and the blocks of src/github.rs.
use Prim.Native.String.{◌++◌}
use runnerctl.Common.{
  ◌⊎◌, inl, inr, Bool-cases, ℕ, ◌+◌, ◌-◌, ◌^◌, ◌<◌, ◌≤◌, String, ◌≡◌, true, false, ◌&&◌, ◌||◌, some,
  List, arith, ◌==◌, str_eq, eq_iff,
}
use runnerctl.Result.{ok, err, message}
use runnerctl.BTreeMap.{lookup}
use runnerctl.BTreeMap.Laws.{lookup-insert}
use runnerctl.Config.{Auth}
use runnerctl.Engine.Retry.{saturating_add}
use runnerctl.Engine.Reconcile.{RemoteRunner}
use runnerctl.Github.{Response, Net, Gh, get_pair, is_rate_limit, is_denied, rate_wait}
use runnerctl.Github.Errors.{wait_of, note_response, message_of, response_error}
use runnerctl.Github.Lists.{check_blocked, cached_list, list_or_fetch, list, request}

module _ (net : Net) where
  -- While a list of the runners is younger than `ttl`, it is returned with no request, and nothing
  -- changes.
  list_cached :
      (profile : String) (auth : Auth) (scope : String) (ttl at : ℕ) (runners : List RemoteRunner)
      (g : Gh)
      → get_pair (net.auth_key profile auth, scope) g.shared.cache ≡ some (at, runners)
      → net.now g.io - at < ttl
      → list net profile auth scope ttl g ≡ (ok runners, record g { io = g.io + 1 })
  unfolding list cached_list list_or_fetch
  list_cached profile auth scope ttl at runners g cached young = ground (arith, cached, young)

  -- While a credential is blocked, a request with it fails at once: nothing is sent, and nothing
  -- changes.
  request_blocked :
      (profile : String) (auth : Auth) (until : ℕ) (text : String) (g : Gh)
      → lookup (net.auth_key profile auth) g.shared.blocked ≡ some (until, text)
      → net.now g.io < until
      → request net profile auth g ≡ (
        err (message (text ++ ("; retry after " ++ net.show_number until))),
        record g { io = g.io + 1 },
      )
  unfolding request check_blocked
  request_blocked profile auth until text g blocked early = ground (arith, blocked, early)

  -- An error that is neither a rate limit nor 401 or 403 blocks nobody: the shared cache is as before.
  -- So it is after any error of a request that began before the cache was cleared.
  response_error_spares :
      (A : Type 0) (r : Response) (key : String) (generation : ℕ) (context : String) (g : Gh)
      → ((is_rate_limit r || is_denied r) && (g.shared.generation == generation)) ≡ false
      → (response_error net {A = A} r key generation context g).1.shared ≡ g.shared
  unfolding response_error note_response wait_of is_denied
  response_error_spares A r key generation context g spared = ground (arith, spared)

  -- A rate limit or a denial blocks the credential it was met with, for a second at least, and no
  -- other, when the cache was not cleared since the request began.
  pub response_error_blocks :
      (A : Type 0) (r : Response) (key other : String) (generation : ℕ) (context : String) (g : Gh)
      → (is_rate_limit r || is_denied r) ≡ true
      → (g.shared.generation == generation) ≡ true
      → net.now (g.io + 1 + 1) < 2 ^ 64 - 1
      → (until : ℕ) × (lookup key
            (response_error net {A = A} r key generation context g).1.shared.blocked
          ≡ some (until, message_of net r context))
        × (net.now (g.io + 1 + 1) < until)
        × ((str_eq other key ≡ true)
            ⊎ (lookup other (response_error net {A = A} r key generation context g).1.shared.blocked
                ≡ lookup other g.shared.blocked))
  unfolding response_error note_response wait_of
  response_error_blocks A r key other generation context g met fresh early =
      elim (Bool-cases (is_rate_limit r)) [
        | inl limited ↦
            blocked_by (rate_wait r (net.now g.io) (net.now (g.io + 1))) (ground (arith, limited))
              (ground arith)
        | inr unlimited ↦ blocked_by 300 (ground (arith, met, unlimited)) (omega arith)
      ]
    where
      blocked_by :
          (wait : ℕ)
          → wait_of net r (net.now g.io) (net.now (g.io + 1)) ≡ some wait
          → 1 ≤ wait
          → (until : ℕ) × (lookup key
                (response_error net {A = A} r key generation context g).1.shared.blocked
              ≡ some (until, message_of net r context))
            × (net.now (g.io + 1 + 1) < until)
            × ((str_eq other key ≡ true)
                ⊎ (lookup other
                      (response_error net {A = A} r key generation context g).1.shared.blocked
                    ≡ lookup other g.shared.blocked))
      blocked_by wait e positive = (
        saturating_add (net.now (g.io + 1 + 1)) wait,
        ground (
          arith,
          e,
          fresh,
          lookup-insert key key
              (saturating_add (net.now (g.io + 1 + 1)) wait, message_of net r context)
              g.shared.blocked,
          eq_iff key key,
        ),
        ground arith,
        elim (Bool-cases (str_eq other key)) [
          | inl same ↦ inl same
          | inr apart ↦ inr (
              ground (
                arith,
                e,
                fresh,
                apart,
                lookup-insert other key
                    (saturating_add (net.now (g.io + 1 + 1)) wait, message_of net r context)
                    g.shared.blocked,
              ))
        ],
      )
