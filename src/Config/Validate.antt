-- ===== src/Config/Validate.antt =====
-- `Config::validate` and `Config::warnings` of src/config.rs.
pub mod Laws
pub mod Errors
use Prim.Native.String.{◌++◌}
use runnerctl.Common.{
  ℕ, ◌+◌, ◌%◌, String, Bool, true, false, not, ◌&&◌, ◌||◌, Option, none, some, List, [], ◌∷◌, map,
  ltb, leb, ◌==◌, any, all, length, str_eq, if◌then◌else◌,
}
use runnerctl.Common.Text.{codes, byte_len, is_empty, is_blank, contains_char, starts_with}
use runnerctl.BTreeMap.{BTreeMap, contains_key}
use runnerctl.Result.{Result, ok, err, ensure, ◌>>=◌, ◌>>◌}
use runnerctl.F64.{F64, is_finite, at_least_hundredth}
use runnerctl.Config.{AppAuth, Auth, Manager, Pool, Config, api_scope}
use runnerctl.Config.Names.{
  validate_image, valid_org, valid_repo, validate_reference, valid_name, env_char,
}
use runnerctl.Config.Memory.{memory_bytes, u64_mod}

-- One round of the loop over the profiles.
unfoldable pub validate_auth : String → Auth → Result (Unit {0})
validate_auth name auth = do
  ensure (valid_name name) "invalid auth profile name"
  elim auth.app [
    | some app ↦ do
      ensure (is_empty (codes auth.credential)) "choose PAT or GitHub App authentication, not both"
      ensure
          (ltb 0 app.installation_id
            && not (is_empty (codes app.app_id))
            && leb (byte_len (codes app.app_id)) 64
            && all env_char (codes app.app_id))
          "invalid GitHub App identity"
      validate_reference app.private_key
    | none ↦ validate_reference auth.credential
  ]

unfoldable pub validate_auths : BTreeMap Auth → Result (Unit {0})
validate_auths [] = ok tt
validate_auths ((name, auth) ∷ rest) = do validate_auth name auth; validate_auths rest

unfoldable pub label_ok : String → Bool
label_ok label =
    let l = codes label in
    not (is_blank l)
    && leb (byte_len l) 255
    && not (contains_char b',' l || contains_char 10 l || contains_char 13 l)
    && not (starts_with l (codes "pool:"))

unfoldable pub group_ok : String → Bool
group_ok group =
    let g = codes group in not (is_blank g) && not (contains_char 10 g || contains_char 13 g)

unfoldable pub validate_scope : Pool → Result (Unit {0})
validate_scope p = elim p.repository [
  | some repo ↦
      ensure (is_empty (codes p.organization) && valid_repo (codes repo))
        "invalid repository or both organization/repository set"
  | none ↦ ensure (valid_org (codes p.organization)) "invalid organization"
]

abbrev pub is_none {ℓ} : {A : Type ℓ} → Option A → Bool
is_none none = true
is_none (some _) = false

unfoldable pub validate_cpus : Option F64 → Result (Unit {0})
validate_cpus none = ok tt
validate_cpus (some cpus) =
    ensure (is_finite cpus && at_least_hundredth cpus) "cpus must be finite and at least 0.01"

unfoldable pub validate_memory : Option String → Result (Unit {0})
validate_memory none = ok tt
validate_memory (some memory) = do memory_bytes (codes memory); ok tt

-- One round of the loop over the pools; `names` holds the names of the pools before.
unfoldable pub validate_pool : BTreeMap Auth → List String → Pool → Result (Unit {0})
validate_pool auths names p = do
  ensure (valid_name p.name && not (any (str_eq p.name) names))
      ("invalid or duplicate pool name: " ++ p.name)
  validate_scope p
  ensure (is_none p.repository || str_eq p.runner_group "Default")
      "runner groups are only available for organization pools"
  validate_cpus p.cpus
  validate_memory p.memory
  ensure (contains_key p.auth auths) ("unknown auth profile: " ++ p.auth)
  ensure (ltb 0 (length p.labels) && ltb (length p.labels) 100) "pool needs 1..99 custom labels"
  ensure (all label_ok p.labels) "invalid or reserved label"
  ensure (group_ok p.runner_group) "invalid runner group"
  validate_image p.image

unfoldable pub validate_pools : BTreeMap Auth → List String → List Pool → Result (Unit {0})
validate_pools auths names [] = ok tt
validate_pools auths names (p ∷ rest) = do
  validate_pool auths names p
  validate_pools auths (p.name ∷ names) rest

-- `map(|p| u64::from(p.replicas)).sum::<u64>()`
unfoldable pub sum_replicas : List Pool → ℕ
sum_replicas [] = 0
sum_replicas (p ∷ rest) = (p.replicas + sum_replicas rest) % u64_mod

unfoldable pub validate : Config → Result (Unit {0})
validate c = do
  ensure (c.schema_version == 1) "unsupported schema_version"
  ensure (leb 5 c.manager.poll_interval_seconds && leb c.manager.poll_interval_seconds 3600)
      "poll interval must be 5..3600 seconds"
  ensure
      (ltb 0 c.manager.max_runners
        && ltb 0 c.manager.max_parallel_creates
        && leb c.manager.max_parallel_creates c.manager.max_runners)
      "invalid manager capacity"
  validate_auths c.auth
  validate_pools c.auth [] c.pools
  ensure (leb (sum_replicas c.pools) c.manager.max_runners)
      "sum of replicas exceeds max_runners (including stopped pools)"
  ok tt

-- `a.labels.iter().any(|l| b.labels.contains(l))`
abbrev pub share_label : Pool → Pool → Bool
share_label a b = any (λ l. any (str_eq l) b.labels) a.labels

-- The inner loop of `warnings`, over the pools behind `a`.
unfoldable pub shared_with : Pool → List Pool → List String
shared_with a [] = []
shared_with a (b ∷ rest) =
    let more = shared_with a rest in
    if str_eq (api_scope a) (api_scope b) && share_label a b
    then (a.name ++ " and " ++ b.name ++ " share routing labels; use pool:<name> to target a pool")
      ∷ more
    else more

unfoldable pub shared_pairs : List Pool → List String
shared_pairs [] = []
shared_pairs (a ∷ rest) = mathlib.Core.List.◌++◌ (shared_with a rest) (shared_pairs rest)

unfoldable pub warnings : Config → List String
warnings c =
    let pairs = shared_pairs c.pools in
    if ltb 1 c.manager.max_parallel_creates
    then "Provisioning is serialized; max_parallel_creates values above 1 do not enable concurrency"
      ∷ pairs
    else pairs
