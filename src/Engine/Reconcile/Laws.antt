-- ===== src/Engine/Reconcile/Laws.antt =====
-- What the backoff of src/manager.rs does to the state: `record_failure`, and a `tick` of a pool that
-- waits.
use runnerctl.Common.{
  ℕ, ◌+◌, ◌-◌, ◌%◌, ◌^◌, ◌<◌, ◌≤◌, min, String, ◌≡◌, ◌⊎◌, inl, inr, refl, sym, ◌∙◌, ap, true, ◌&&◌,
  some, List, [], ◌∷◌, arith, length, ltb, leb, get_elem?, eq_iff, Bool-cases,
}
use native.Mathlib.Nat.{mod-add-mod, add-mod_right, mod-eq_of_lt, mod-lt}
use runnerctl.BTreeMap.{lookup, keys}
use runnerctl.BTreeMap.Laws.{lookup-modify}
use runnerctl.Config.Memory.{u64_mod}
use runnerctl.State.{RetryScope, observation, PoolState}
use runnerctl.Engine.{Env, Engine, done, ◌>>=◌, modify_pool}
use runnerctl.Engine.Retry.{saturating_add_u32}
use runnerctl.Engine.Retry.Laws.{retry_delay_bounds}
use runnerctl.Engine.Reconcile.{Outside}
use runnerctl.Engine.Reconcile.Exits.{scope_eq, failed_pool, back_off, record_failure}
use runnerctl.Engine.Reconcile.Tick.{turn, take_turn, tick}

module _ (env : Env) (o : Outside) where
  -- A failure of a known pool returns. While the pool waits for a retry of the same scope, the state
  -- stays as it is. Else, well before the end of time, the retry is between five seconds and ten
  -- minutes from now, the failures are one more, up to the last number of 32 bits, and the error and
  -- the scope are those given.
  pub record_failure_backs_off :
      (name error : String) (scope : RetryScope) (e : Engine) {p : PoolState}
      → lookup name e.state.pools ≡ some p
      → env.now e.io + 600 < 2 ^ 64
      → let e' = (record_failure env o name error scope e).1 in
        ((record_failure env o name error scope e).0 ≡ done tt)
        × ((((ltb (env.now e.io) p.retry_at && scope_eq p.retry_scope scope) ≡ true)
              × (e'.state ≡ e.state))
            ⊎ ((q : PoolState) × (lookup name e'.state.pools ≡ some q)
                × (env.now e.io + 5 ≤ q.retry_at)
                × (q.retry_at ≤ env.now e.io + 600)
                × (q.failures ≡ min (p.failures + 1) (2 ^ 32 - 1))
                × (q.error ≡ some error)
                × (q.retry_scope ≡ scope)))
  unfolding record_failure back_off modify_pool ◌>>=◌
  record_failure_backs_off name error scope e {p = p} known late =
      elim (Bool-cases (ltb (env.now e.io) p.retry_at && scope_eq p.retry_scope scope)) [
        | inl waits ↦ (ground (arith, known, waits), inl (waits, ground (arith, known, waits)))
        | inr due ↦
            let jitter = o.random_byte (e.io + 1) % 7 in
            let bounds =
              retry_delay_bounds (saturating_add_u32 p.failures 1) (saturating_add_u32 p.failures 1)
                jitter (omega arith) in
            (
              ground (arith, known, due),
              inr (
                failed_pool env o error scope (env.now e.io) jitter p,
                ground (
                  arith,
                  known,
                  due,
                  lookup-modify name name (failed_pool env o error scope (env.now e.io) jitter)
                      e.state.pools,
                  eq_iff name name,
                ),
                ground (arith, bounds),
                ground (arith, bounds),
                refl,
                refl,
                refl,
              ),
            )
      ]

  -- A tick whose turn is a pool that waits after a failed observation asks nothing of Docker or GitHub
  -- and leaves the state and the row as they are; the next tick is another pool's turn.
  tick_waits :
      (name : String) (e : Engine) {p : PoolState}
      → turn e.cursor (keys e.state.pools) ≡ some name
      → lookup name e.state.pools ≡ some p
      → env.now e.io < p.retry_at
      → p.retry_scope ≡ observation
      → tick env o e ≡ (done tt, record e { cursor = (e.cursor + 1) % u64_mod; io = e.io + 1 })
  unfolding tick take_turn ◌>>=◌
  tick_waits name e {p = p} here known early scope = ground (arith, here, known, early, scope)

turn-get_elem? :
    (cursor : ℕ) (names : List String)
    → 0 < length names
    → turn cursor names ≡ get_elem? names (cursor % length names)
unfolding turn
turn-get_elem? cursor [] h = absurd (ground arith)
turn-get_elem? cursor (n ∷ names) h = refl

-- Some turn within one round has the place `i`.
turn_at : (cursor i n : ℕ) → i < n → (k : ℕ) × (k < n) × ((cursor + k) % n ≡ i)
turn_at cursor i n h =
    let r = cursor % n in
    elim (Bool-cases (leb r i)) [
      | inl below ↦ (
        i - r,
        ground arith,
        sym (mod-add-mod cursor n (i - r)) ∙ ap (λ x. x % n) (ground arith) ∙ mod-eq_of_lt h,
      )
      | inr above ↦ (
        i + n - r,
        ground (arith, mod-lt cursor {m = n} (ground arith)),
        sym (mod-add-mod cursor n (i + n - r))
            ∙ ap (λ x. x % n) (ground (arith, mod-lt cursor {m = n} (ground arith)))
            ∙ add-mod_right i n
            ∙ mod-eq_of_lt h,
      )
    ]

-- Each pool is the turn of one of the next cursors, of which there are as many as pools.
turn_fair :
    (cursor i : ℕ) (names : List String)
    → i < length names
    → (k : ℕ) × (k < length names) × (turn (cursor + k) names ≡ get_elem? names i)
turn_fair cursor i names h =
    let (k, small, here) = turn_at cursor i (length names) h in
    (k, small, turn-get_elem? (cursor + k) names (ground arith) ∙ ap (get_elem? names) here)
