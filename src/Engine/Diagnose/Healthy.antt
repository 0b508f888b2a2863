-- ===== src/Engine/Diagnose/Healthy.antt =====
-- The result of `diagnose` in src/manager.rs against what it looks at.
use runnerctl.Common.{
  String, ◌≡◌, sym, ◌∙◌, inl, inr, Bool, true, ◌&&◌, none, some, List, [], ◌∷◌, ◌++◌, arith, all,
  eq_iff, Option-cases,
}
use runnerctl.BTreeMap.{contains_key}
use runnerctl.Config.{Pool}
use runnerctl.Config.Validate.{validate, warnings}
use runnerctl.Config.Validate.Laws.{AreFine, validate_pools_sound}
use runnerctl.State.{State}
use runnerctl.Engine.Sound.{configured, IsWellFormed}
use runnerctl.Engine.Diagnose.{
  Probes, Diagnostic, Diagnosis, is_okay, passes, latest_release, local_image, bind_checks,
  conclude_checks, diagnose,
}
use runnerctl.Engine.Diagnose.Laws.{
  all-append, is_absent-error_of, pool_fine, met, AreResolved, check_pools-Loops,
}

resolved_of_fine :
    (state : State) (names : List String) (pools : List Pool)
    → AreFine state.config.auth names pools
    → ((name : String) → configured name pools ≡ true → contains_key name state.pools ≡ true)
    → AreResolved state pools
resolved_of_fine state names [] fine h = tt
resolved_of_fine state names (p ∷ rest) fine h = (
  fine.0.2,
  h p.name (ground (arith, eq_iff p.name p.name)),
  resolved_of_fine state (p.name ∷ names) rest fine.1 (λ name c. h name (ground arith)),
)

resolved : (state : State) → IsWellFormed state → AreResolved state state.config.pools
unfolding validate
resolved state w =
    resolved_of_fine state [] state.config.pools
      (validate_pools_sound state.config.auth [] state.config.pools (ground (arith, w.valid)))
      (λ name c. sym (w.matching name) ∙ c)

-- The directory of the runs is shared with the first image that Docker has.
abbrev pub is_shared : Probes → List Pool → Bool
is_shared probes pools = elim (local_image (met probes [] pools)) [
  | none ↦ true
  | some image ↦ is_okay (probes.shares image)
]

bind_checks-is_shared :
    (probes : Probes) (pools : List Pool)
    → all passes (bind_checks probes (met probes [] pools)) ≡ is_shared probes pools
unfolding passes
bind_checks-is_shared probes pools = elim (Option-cases (local_image (met probes [] pools))) [
  | inl missing ↦ ground (arith, missing)
  | inr (image, first) ↦ ground (arith, first, is_absent-error_of (probes.shares image))
]

-- The diagnosis of a well-formed state does not panic, and it is healthy exactly when Docker answers;
-- for each pool GitHub lists the runners, Docker has the image, the image's version is acceptable and
-- the pool is healthy; and Docker shares the directory of the runs with the first image it has.
pub diagnose_healthy :
    (probes : Probes) (state : State)
    → IsWellFormed state
    → (d : Diagnosis) × (diagnose probes state ≡ some d)
      × (d.healthy ≡ (
          is_okay probes.docker
          && all
              (pool_fine probes state (latest_release probes state.config.pools))
              state.config.pools
          && is_shared probes state.config.pools))
unfolding diagnose passes
diagnose_healthy probes state w =
    let pools = state.config.pools in
    let latest = latest_release probes pools in
    let (l, loops, sound, complete) =
      check_pools-Loops probes state latest pools [] (resolved state w)
        (λ i r h. absurd (ground arith)) in
    let split = all-append passes l (bind_checks probes (met probes [] pools)) in
    let none_seen = sound (λ i h. absurd (ground arith)) in
    (
      conclude_checks state (
          Diagnostic.config_check (warnings state.config)
          ∷ Diagnostic.docker_check probes.docker
          ∷ (l ++ bind_checks probes (met probes [] pools))),
      ground (arith, loops),
      ground (arith, split, none_seen, complete, bind_checks-is_shared probes pools),
    )
