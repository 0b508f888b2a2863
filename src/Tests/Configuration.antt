-- ===== src/Tests/Configuration.antt =====
-- The theorems on src/config.rs and on the backoff, on concrete values.
use runnerctl.Common.{
  ◌⊎◌, ◌||◌, ℕ, ◌*◌, ◌^◌, ◌≤◌, ◌<◌, ◌≡◌, ◌↔◌, refl, true, false, not, ◌&&◌, none, some, List, [],
  ◌∷◌, ◌++◌, arith, all, length, filter, ltb, str_eq,
}
use runnerctl.Common.Text.{codes, is_empty, is_ascii_digit, contains_char, codes_eq}
use runnerctl.Result.{ok}
use runnerctl.State.{Run}
use runnerctl.Config.Names.{valid_org, valid_repo, valid_name}
use runnerctl.Config.Names.Laws.{valid_repo_sound}
use runnerctl.Config.Memory.{digits_value, memory_bytes}
use runnerctl.Config.Memory.Laws.{IsUnit, memory_bytes_sound}
use runnerctl.Config.Validate.Laws.{total, AreFine, validate_sound}
use runnerctl.Engine.Retry.{is_available, pool_health}
use runnerctl.Engine.Retry.Laws.{pool_health_iff}
use runnerctl.Retiring.{pool_runs}
use Prim.Native.String.{String}
use runnerctl.Image.{RunnerRelease, version_check}
use runnerctl.Image.Laws.{IsExpired, version_check_iff}
use runnerctl.Docker.{Host, common_args, create_args}
use runnerctl.Docker.Laws.{last_arg, has_pair, create_args_safe}
use runnerctl.Tests.{run_of, config, config_valid, linux, linux_state, runs}

validate_sound_example :
    (1 ≤ config.manager.max_parallel_creates)
    × (config.manager.max_parallel_creates ≤ config.manager.max_runners)
    × AreFine config.auth [] config.pools
    × (total config.pools ≤ config.manager.max_runners)
validate_sound_example = validate_sound config (omega arith, tt) (omega arith) config_valid

half_gibibyte : memory_bytes (codes "512m") ≡ ok (512 * 1024 * 1024)
unfolding memory_bytes
half_gibibyte = refl

memory_bytes_sound_example :
    (digits suffix : List ℕ) × (unit : ℕ) × (codes "512m" ≡ digits ++ suffix)
    × (all is_ascii_digit digits ≡ true)
    × IsUnit suffix unit
    × (512 * 1024 * 1024 ≡ digits_value 0 digits * unit)
    × (6 * 1024 * 1024 ≤ 512 * 1024 * 1024)
    × (512 * 1024 * 1024 < 2 ^ 64)
memory_bytes_sound_example = memory_bytes_sound (codes "512m") (512 * 1024 * 1024) half_gibibyte

repository_valid : valid_repo (codes "acme/tools") ≡ true
unfolding valid_repo valid_org
repository_valid = refl

valid_repo_sound_example :
    (owner repo : List ℕ) × (codes "acme/tools" ≡ owner ++ b'/' ∷ repo)
    × (contains_char b'/' owner ≡ false)
    × (contains_char b'.' owner ≡ false)
    × (contains_char b'/' repo ≡ false)
    × (is_empty owner ≡ false)
    × (is_empty repo ≡ false)
    × (length owner ≤ 39)
    × (length repo ≤ 100)
    × (codes_eq repo (codes ".") ≡ false)
    × (codes_eq repo (codes "..") ≡ false)
valid_repo_sound_example = valid_repo_sound (codes "acme/tools") repository_valid

name_valid : valid_name "linux-1" ≡ true
unfolding valid_name
name_valid = refl

pool_health_iff_example :
    ((pool_health linux linux_state (pool_runs "pool-1" runs) 1000).healthy ≡ true) ↔ (
      ((linux_state.running && not linux_state.deleting && ltb 0 linux.replicas) ≡ false)
      ⊎ ((linux_state.error ≡ none)
          × (linux_state.retry_at ≤ 1000)
          × (length (filter (λ (r : Run). str_eq r.phase "unknown") (pool_runs "pool-1" runs)) ≡ 0)
          × (linux.replicas ≤ length (filter is_available (pool_runs "pool-1" runs)))))
pool_health_iff_example = pool_health_iff linux linux_state (pool_runs "pool-1" runs) 1000

-- The container of a run of the tests.
abbrev host : Host
host = record { home = "/srv/runnerctl"; uid = "1000"; gid = "1000"; show_f64 = λ x. "1.5" }

abbrev run_args : List String
run_args =
    common_args host "0f3e" (run_of "rc-a" 1 100 "creating") ++ "ghcr.io/acme/runner:1.0" ∷ []

args_made : create_args host "0f3e" (run_of "rc-a" 1 100 "creating") ≡ ok run_args
unfolding create_args
args_made = refl

create_args_safe_example :
    (last_arg run_args ≡ some "ghcr.io/acme/runner:1.0")
    × ((linux.allow_privilege_escalation
          || has_pair "--security-opt" "no-new-privileges:true" run_args)
        ≡ true)
create_args_safe_example =
    create_args_safe host "0f3e" (run_of "rc-a" 1 100 "creating") run_args args_made

-- A release whose date reads as 0.
abbrev release : RunnerRelease
release = record { tag_name = "v2.330.0"; published_at = "1970-01-01T00:00:00Z" }

version_check_iff_example :
    ((version_check (λ s. some 0) (10 ^ 18) (some "2.329.0") (some release)).healthy ≡ false) ↔ (
      (latest : RunnerRelease) × (some release ≡ some latest)
      × IsExpired (λ s. some 0) (10 ^ 18) (some "2.329.0") latest)
version_check_iff_example =
    version_check_iff (λ s. some 0) (10 ^ 18) (some "2.329.0") (some release)
