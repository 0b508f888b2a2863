-- ===== src/Engine/Diagnose.antt =====
-- `runner_logs` and `diagnose` of src/manager.rs, which read a copy of the state and ask Docker and
-- GitHub. The answers are parameters: a pool is asked about once, and so is an image.
pub mod Laws
pub mod Healthy
use runnerctl.Common.{
  ℕ, String, Bool, true, false, ◌&&◌, Option, none, some, List, [], ◌∷◌, ◌++◌, any, all, str_eq,
  if◌then◌else◌,
}
use runnerctl.Result.{Error, Result, ok, err, ensure, context, ◌>>=◌, ◌>>◌}
use runnerctl.BTreeMap.{BTreeMap, lookup, contains_key, insert}
use runnerctl.Config.{Pool}
use runnerctl.Config.Validate.{warnings}
use runnerctl.State.{PoolState, State}
use runnerctl.Retiring.{pool_runs}
use runnerctl.Image.{RunnerRelease, Check, version_check}
use runnerctl.Shell.{Text}
use runnerctl.Engine.Retry.{PoolHealth, pool_health}
use runnerctl.Engine.Reconcile.{Container, RemoteRunner, owned}
use runnerctl.Engine.Status.{intent}

-- `Docker::list` and `Docker::logs` answer for the container of the run.
unfoldable pub runner_logs :
    Result (List Container) → Result Text → State → String → String → Result Text
runner_logs containers logs state pool id = do
  ps ← context (lookup pool state.pools) "unknown pool"
  run ← context (lookup id state.runs) "runner not active; archived logs are in the logs directory"
  ensure (str_eq run.pool_id ps.id) "runner does not belong to pool"
  found ← containers
  ensure (any (λ c. owned c state.manager_id run) found) "owned container not found"
  logs

-- What Docker, GitHub and the clocks answer: to the list of a pool's runners and to the time by the
-- pool's name, and to the questions on an image by the image.
pub record Probes : Type 0 where
  pub docker : Result String
  pub latest : Result RunnerRelease
  pub runners : String → Result (List RemoteRunner)
  pub image_version : String → Result (Option String)
  pub shares : String → Result (Unit {0})
  pub now : String → ℕ
  pub now_nanos : String → ℕ
  pub parse_rfc3339 : String → Option ℕ

-- The checks, with what their JSON shows.
pub data Diagnostic : Type 0 where
  config_check : (warnings : List String) → Diagnostic
  docker_check : (runtime : Result String) → Diagnostic
  github_check : (pool : String) → (error : Option Error) → Diagnostic
  version_result : (image : String) → (check : Check) → Diagnostic
  image_check : (pool image : String) → (error : Option Error) → Diagnostic
  pool_check :
      (pool : Pool) → (state : PoolState) → (intent : String) → (health : PoolHealth) → Diagnostic
  bind_check : (error : Option Error) → Diagnostic

abbrev pub is_okay : {A : Type 0} → Result A → Bool
is_okay (ok _) = true
is_okay (err _) = false

abbrev pub error_of : {A : Type 0} → Result A → Option Error
error_of (ok _) = none
error_of (err error) = some error

abbrev pub is_absent : Option Error → Bool
is_absent none = true
is_absent (some _) = false

-- `c["ok"] == true`
unfoldable pub passes : Diagnostic → Bool
passes (Diagnostic.config_check _) = true
passes (Diagnostic.docker_check runtime) = is_okay runtime
passes (Diagnostic.github_check _ error) = is_absent error
passes (Diagnostic.version_result _ check) = check.healthy
passes (Diagnostic.image_check _ _ error) = is_absent error
passes (Diagnostic.pool_check _ _ _ h) = h.healthy
passes (Diagnostic.bind_check error) = is_absent error

pub record Diagnosis : Type 0 where
  pub healthy : Bool
  pub revision : ℕ
  pub checks : List Diagnostic

-- The images that were asked about, with their answers.
abbrev pub Images : Type 0
Images = BTreeMap (Result (Option String))

abbrev pub conclude_checks : State → List Diagnostic → Diagnosis
conclude_checks state checks = record {
  healthy = all passes checks;
  revision = state.revision;
  checks = checks;
}

-- The first image that Docker has.
abbrev pub local_image : Images → Option String
local_image [] = none
local_image ((image, found) ∷ seen) = if is_okay found then some image else local_image seen

module _ (probes : Probes) where
  -- `github.latest_runner_release().await.ok()`, unless there are no pools
  abbrev pub latest_release : List Pool → Option RunnerRelease
  latest_release [] = none
  latest_release (_ ∷ _) = elim probes.latest [ err _ ↦ none | ok latest ↦ some latest ]

  abbrev pub see : String → Images → Images
  see image seen =
      if contains_key image seen then seen else insert image (probes.image_version image) seen

  module _ (state : State) (latest : Option RunnerRelease) where
    abbrev pub check_version : String → Option String → Check
    check_version image version =
        version_check probes.parse_rfc3339 (probes.now_nanos image) version latest

    abbrev pub checked_version : String → Result (Option String) → List Diagnostic
    checked_version image (err _) = []
    checked_version image (ok version) =
        Diagnostic.version_result image (check_version image version) ∷ []

    -- An image's version is checked when the image is met first.
    abbrev pub version_checks : Images → String → List Diagnostic
    version_checks seen image =
        if contains_key image seen then [] else checked_version image (probes.image_version image)

    abbrev pub health_of : Pool → PoolState → PoolHealth
    health_of p ps = pool_health p ps (pool_runs ps.id state.runs) (probes.now p.name)

    abbrev pub checks_of : Images → Pool → Result (Option String) → PoolState → List Diagnostic
    checks_of seen p found ps =
        Diagnostic.github_check p.name (error_of (probes.runners p.name))
        ∷ (version_checks seen p.image
            ++ (Diagnostic.image_check p.name p.image (error_of found)
                ∷ Diagnostic.pool_check p ps (intent ps) (health_of p ps)
                ∷ []))

    -- A round of the loop; `none` is the panic of an index.
    unfoldable pub pool_checks : Images → Pool → Option (List Diagnostic)
    pool_checks seen p = elim (lookup p.auth state.config.auth) [
      | none ↦ none
      | some _ ↦ elim (lookup p.image (see p.image seen)) [
        | none ↦ none
        | some found ↦ elim (lookup p.name state.pools) [
          | none ↦ none
          | some ps ↦ some (checks_of seen p found ps)
        ]
      ]
    ]

    abbrev pub add_checks :
        Option (List Diagnostic)
        → Option (List Diagnostic × Images)
        → Option (List Diagnostic × Images)
    add_checks (some checks) (some (later, seen)) = some (checks ++ later, seen)
    add_checks _ _ = none

    unfoldable pub check_pools : Images → List Pool → Option (List Diagnostic × Images)
    check_pools seen [] = some ([], seen)
    check_pools seen (p ∷ rest) =
        add_checks (pool_checks seen p) (check_pools (see p.image seen) rest)

  abbrev pub bind_checks : Images → List Diagnostic
  bind_checks seen = elim (local_image seen) [
    | none ↦ []
    | some image ↦ Diagnostic.bind_check (error_of (probes.shares image)) ∷ []
  ]

  unfoldable pub diagnose : State → Option Diagnosis
  diagnose state =
      elim (check_pools state (latest_release state.config.pools) [] state.config.pools) [
        | none ↦ none
        | some (checks, seen) ↦ some (
            conclude_checks state (
              Diagnostic.config_check (warnings state.config)
              ∷ Diagnostic.docker_check probes.docker
              ∷ (checks ++ bind_checks seen)))
      ]
