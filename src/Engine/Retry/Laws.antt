-- ===== src/Engine/Retry/Laws.antt =====
-- The bounds of the backoff of src/manager.rs, and when a pool counts as healthy.
use runnerctl.Common.{
  ◌⊎◌, inl, inr, Bool-cases, ℕ, zero, suc, ◌+◌, ◌^◌, ◌≤◌, min, ◌≡◌, ◌↔◌, refl, Bool, true, false,
  not, ◌&&◌, ◌||◌, none, List, [], ◌∷◌, arith, ltb, length, filter, str_eq,
}
use runnerctl.Config.{Pool}
use runnerctl.Config.Validate.{is_none}
use runnerctl.State.{PoolState, Run}
use runnerctl.Engine.Retry.{
  Reason, retry_delay, health_reasons, pool_health, is_available, is_empty_list, push_if,
  push_error, retry_scheduled, unknown_runners, available_capacity,
}

pow2_positive : (m : ℕ) → 1 ≤ 2 ^ m
pow2_positive zero = omega arith
pow2_positive (suc m) = omega (arith, pow2_positive m)

pow2_mono : (m n : ℕ) → m ≤ n → 2 ^ m ≤ 2 ^ n
pow2_mono zero n h = pow2_positive n
pow2_mono (suc m) zero h = absurd (omega arith)
pow2_mono (suc m) (suc n) h = omega (arith, pow2_mono m n (omega arith))

-- A delay is at least five seconds and at most ten minutes; one more failure never shortens it; and
-- the jitter adds at most six seconds to it.
pub retry_delay_bounds :
    (failures more jitter : ℕ)
    → failures ≤ more
    → (5 ≤ retry_delay failures jitter)
      × (retry_delay failures jitter ≤ 600)
      × (retry_delay failures jitter ≤ retry_delay more jitter)
      × (retry_delay failures jitter ≤ retry_delay failures 0 + 6)
unfolding retry_delay
retry_delay_bounds failures more jitter h =
    let positive = pow2_positive (min failures 7) in
    let mono = pow2_mono (min failures 7) (min more 7) (ground arith) in
    (ground arith, ground arith, ground arith, ground arith)

is_empty-push_if :
    (b : Bool) (r : Reason) (rs : List Reason)
    → is_empty_list (push_if b r rs) ≡ (is_empty_list rs && not b)
is_empty-push_if false r [] = refl
is_empty-push_if false r (q ∷ rs) = refl
is_empty-push_if true r [] = refl
is_empty-push_if true r (q ∷ rs) = refl

-- No reason is there exactly when none applies.
health_reasons_empty :
    (pool : Pool) (state : PoolState) (at available unknown : ℕ)
    → is_empty_list (health_reasons pool state at available unknown) ≡ (
        not (state.running && not state.deleting && ltb 0 pool.replicas)
        || (is_none state.error
            && not (ltb at state.retry_at)
            && not (ltb 0 unknown)
            && not (ltb available pool.replicas)))
unfolding health_reasons
health_reasons_empty pool state at available unknown =
    let first = push_error state.error [] in
    let second = push_if (ltb at state.retry_at) (retry_scheduled state.retry_at) first in
    let third = push_if (ltb 0 unknown) (unknown_runners unknown) second in
    ground (
      arith,
      is_empty-push_if (ltb at state.retry_at) (retry_scheduled state.retry_at) first,
      is_empty-push_if (ltb 0 unknown) (unknown_runners unknown) second,
      is_empty-push_if (ltb available pool.replicas) (available_capacity available pool.replicas)
          third,
    )

-- `pool_health` calls a pool healthy exactly when it should not run (it is stopped, deleting or of
-- no replicas), or when it has no error and no retry ahead, no unknown runner, and as many idle or
-- busy runners as replicas.
pub pool_health_iff :
    (pool : Pool) (state : PoolState) (runs : List Run) (at : ℕ)
    → ((pool_health pool state runs at).healthy ≡ true) ↔ (
        ((state.running && not state.deleting && ltb 0 pool.replicas) ≡ false)
        ⊎ ((state.error ≡ none)
            × (state.retry_at ≤ at)
            × (length (filter (λ (r : Run). str_eq r.phase "unknown") runs) ≡ 0)
            × (pool.replicas ≤ length (filter is_available runs))))
unfolding pool_health
pool_health_iff pool state runs at =
    let available = length (filter is_available runs) in
    let unknown = length (filter (λ (r : Run). str_eq r.phase "unknown") runs) in
    let empty = health_reasons_empty pool state at available unknown in
    (
      λ h. elim (Bool-cases (state.running && not state.deleting && ltb 0 pool.replicas)) [
        | inl managed ↦ inr (ground arith, ground arith, ground arith, ground arith)
        | inr idle ↦ inl idle
      ],
      λ h. elim h [
        | inl idle ↦ ground (arith, empty, idle)
        | inr fine ↦ ground (arith, empty, fine)
      ],
    )
