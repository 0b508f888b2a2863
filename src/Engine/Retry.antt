-- ===== src/Engine/Retry.antt =====
-- Backoff and health of a pool: `retry_delay`, `replenishment_allowed`, `pool_health` and
-- `unexpected_exit` of src/manager.rs.
pub mod Laws
use runnerctl.Common.{
  ℕ, ◌+◌, ◌-◌, ◌*◌, ◌^◌, min, String, Bool, true, false, not, ◌&&◌, ◌||◌, Option, none, some, List,
  [], ◌∷◌, ◌++◌, ltb, leb, length, filter, str_eq, if◌then◌else◌,
}
use runnerctl.Config.{Pool}
use runnerctl.Config.Memory.{u64_mod}
use runnerctl.State.{PoolState, Run}

-- `saturating_add`, `saturating_mul` of `u64`, and `saturating_add` of `u32`
abbrev pub saturating_add : ℕ → ℕ → ℕ
saturating_add a b = min (a + b) (u64_mod - 1)

abbrev pub saturating_mul : ℕ → ℕ → ℕ
saturating_mul a b = min (a * b) (u64_mod - 1)

abbrev pub saturating_add_u32 : ℕ → ℕ → ℕ
saturating_add_u32 a b = min (a + b) (2 ^ 32 - 1)

abbrev pub max_retry_seconds : ℕ
max_retry_seconds = 600

unfoldable pub retry_delay : ℕ → ℕ → ℕ
retry_delay failures jitter =
    let base = min (saturating_mul 5 (2 ^ min failures 7)) max_retry_seconds in
    min (saturating_add base (min jitter 6)) max_retry_seconds

unfoldable pub replenishment_allowed : ℕ → ℕ → Bool
replenishment_allowed retry_at at = leb retry_at at

unfoldable pub unexpected_exit : Run → Bool
unexpected_exit r = not r.completed_job && not r.retiring && not r.force

-- The reasons in the list of `pool_health`, with what their texts show.
pub data Reason : Type 0 where
  error : (text : String) → Reason
  retry_scheduled : (retry_at : ℕ) → Reason
  unknown_runners : (unknown : ℕ) → Reason
  available_capacity : (available replicas : ℕ) → Reason

pub record PoolHealth : Type 0 where
  pub healthy : Bool
  pub available : ℕ
  pub unknown : ℕ
  pub reasons : List Reason

abbrev pub is_available : Run → Bool
is_available r = str_eq r.phase "idle" || str_eq r.phase "busy"

abbrev pub push_if : Bool → Reason → List Reason → List Reason
push_if b reason reasons = if b then reasons ++ reason ∷ [] else reasons

abbrev pub push_error : Option String → List Reason → List Reason
push_error none reasons = reasons
push_error (some text) reasons = reasons ++ Reason.error text ∷ []

abbrev pub is_empty_list : List Reason → Bool
is_empty_list [] = true
is_empty_list (_ ∷ _) = false

unfoldable pub health_reasons : Pool → PoolState → ℕ → ℕ → ℕ → List Reason
health_reasons pool state at available unknown =
    if state.running && not state.deleting && ltb 0 pool.replicas
    then push_if (ltb available pool.replicas) (available_capacity available pool.replicas) (
        push_if (ltb 0 unknown) (unknown_runners unknown) (
          push_if (ltb at state.retry_at) (retry_scheduled state.retry_at)
            (push_error state.error [])))
    else []

unfoldable pub pool_health : Pool → PoolState → List Run → ℕ → PoolHealth
pool_health pool state runs at =
    let available = length (filter is_available runs) in
    let unknown = length (filter (λ r. str_eq r.phase "unknown") runs) in
    let reasons = health_reasons pool state at available unknown in
    record {
      healthy = is_empty_list reasons;
      available = available;
      unknown = unknown;
      reasons = reasons;
    }
