-- ===== src/Config/Validate/Laws.antt =====
-- What a configuration that `Config::validate` of src/config.rs accepts guarantees.
use runnerctl.Common.{
  ℕ, ◌+◌, ◌*◌, ◌^◌, ◌≤◌, ◌<◌, String, ◌≡◌, refl, true, false, List, [], ◌∷◌, arith, all, any,
  length, All, str_eq,
}
use runnerctl.BTreeMap.{BTreeMap, contains_key}
use runnerctl.Result.{ok, both_pass}
use runnerctl.Config.{Auth, Pool, Config}
use runnerctl.Config.Names.{valid_name}
use runnerctl.Config.Validate.{label_ok, validate_pool, validate_pools, sum_replicas, validate}

-- The replicas of all pools, with no bound.
abbrev pub total : List Pool → ℕ
total [] = 0
total (p ∷ rest) = p.replicas + total rest

-- What holds of one pool, with `names` those of the pools before it.
abbrev pub IsFine : BTreeMap Auth → List String → Pool → Type 0
IsFine auths names p =
    (valid_name p.name ≡ true)
    × (any (str_eq p.name) names ≡ false)
    × (contains_key p.auth auths ≡ true)
    × (1 ≤ length p.labels)
    × (length p.labels ≤ 99)
    × (all label_ok p.labels ≡ true)

-- Of all pools, in order.
abbrev pub AreFine : BTreeMap Auth → List String → List Pool → Type 0
AreFine auths names [] = Unit
AreFine auths names (p ∷ rest) = IsFine auths names p × AreFine auths (p.name ∷ names) rest

validate_pool_sound :
    (auths : BTreeMap Auth) (names : List String) (p : Pool)
    → validate_pool auths names p ≡ ok tt
    → IsFine auths names p
unfolding validate_pool
validate_pool_sound auths names p h =
    (ground arith, ground arith, ground arith, ground arith, ground arith, ground arith)

pub validate_pools_sound :
    (auths : BTreeMap Auth) (names : List String) (pools : List Pool)
    → validate_pools auths names pools ≡ ok tt
    → AreFine auths names pools
unfolding validate_pools
validate_pools_sound auths names [] h = tt
validate_pools_sound auths names (p ∷ rest) h =
    let (first, others) = both_pass (validate_pool auths names p) _ h in
    (
      validate_pool_sound auths names p first,
      validate_pools_sound auths (p.name ∷ names) rest others,
    )

total_bound :
    (pools : List Pool)
    → All (λ (p : Pool). p.replicas < 2 ^ 32) pools
    → total pools ≤ length pools * 0xffff_ffff
total_bound [] h = omega arith
total_bound (p ∷ rest) h = ground (arith, total_bound rest h.1, h.0)

sum_replicas-total : (pools : List Pool) → total pools < 2 ^ 64 → sum_replicas pools ≡ total pools
unfolding sum_replicas
sum_replicas-total [] h = refl
sum_replicas-total (p ∷ rest) h = ground (arith, sum_replicas-total rest)

-- An accepted configuration has at least one runner and one creation allowed, and not more creations
-- than runners; its pools have distinct valid names, known profiles, and 1 to 99 acceptable labels
-- each; and when replicas fit 32 bits and there are at most 2 ^ 32 pools, all replicas together,
-- counted without wrap-around, are at most `max_runners`.
pub validate_sound :
    (c : Config)
    → All (λ (p : Pool). p.replicas < 2 ^ 32) c.pools
    → length c.pools ≤ 2 ^ 32
    → validate c ≡ ok tt
    → (1 ≤ c.manager.max_parallel_creates)
      × (c.manager.max_parallel_creates ≤ c.manager.max_runners)
      × AreFine c.auth [] c.pools
      × (total c.pools ≤ c.manager.max_runners)
unfolding validate
validate_sound c small few h =
    let bound = total_bound c.pools small in
    let sum = sum_replicas-total c.pools (ground arith) in
    (
      ground arith,
      ground arith,
      validate_pools_sound c.auth [] c.pools (ground arith),
      ground (arith, sum),
    )
