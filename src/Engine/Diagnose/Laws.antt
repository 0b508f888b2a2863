-- ===== src/Engine/Diagnose/Laws.antt =====
-- When the diagnosis of src/manager.rs finds everything in order.
use runnerctl.Common.{
  String, ◌≡◌, refl, inl, inr, Bool, true, ◌&&◌, ◌||◌, Option, none, some, List, [], ◌∷◌, ◌++◌,
  arith, all, str_eq, eq_iff, eq_refl, Bool-cases, Option-cases,
}
use runnerctl.Result.{Result, ok, err}
use runnerctl.BTreeMap.{lookup, contains_key}
use runnerctl.BTreeMap.Laws.{lookup-insert, some_of_contains_key}
use runnerctl.Config.{Pool}
use runnerctl.State.{State}
use runnerctl.Image.{RunnerRelease}
use runnerctl.Engine.Status.{intent}
use runnerctl.Engine.Diagnose.{
  Probes, Diagnostic, is_okay, error_of, is_absent, passes, Images, see, checked_version,
  version_checks, health_of, checks_of, pool_checks, check_pools,
}

pub all-append : {A : Type 0} (f : A → Bool) (l m : List A) → all f (l ++ m) ≡ (all f l && all f m)
all-append f [] m = refl
all-append f (x ∷ l) m = ground (arith, all-append f l m)

pub is_absent-error_of : {A : Type 0} (r : Result A) → is_absent (error_of r) ≡ is_okay r
is_absent-error_of (ok a) = refl
is_absent-error_of (err e) = refl

-- Each pool has its profile and its state.
abbrev pub AreResolved : State → List Pool → Type 0
AreResolved state [] = Unit
AreResolved state (p ∷ rest) =
    (contains_key p.auth state.config.auth ≡ true)
    × (contains_key p.name state.pools ≡ true)
    × AreResolved state rest

module _ (probes : Probes) where
  -- The answers that are kept are those that were given.
  abbrev pub IsKnown : Images → Type 0
  IsKnown seen =
      (i : String) (r : Result (Option String))
      → lookup i seen ≡ some r
      → r ≡ probes.image_version i

  see-IsKnown : (image : String) (seen : Images) → IsKnown seen → IsKnown (see probes image seen)
  see-IsKnown image seen known i r h = elim (Bool-cases (contains_key image seen)) [
    | inl there ↦ known i r (ground arith)
    | inr absent ↦
        ground (
          arith,
          lookup-insert i image (probes.image_version image) seen,
          eq_iff i image,
          known i r,
        )
  ]

  lookup-see :
      (image : String) (seen : Images)
      → IsKnown seen
      → lookup image (see probes image seen) ≡ some (probes.image_version image)
  lookup-see image seen known = elim (Option-cases (lookup image seen)) [
    | inl absent ↦
        ground (
          arith,
          absent,
          lookup-insert image image (probes.image_version image) seen,
          eq_refl image,
        )
    | inr (r, found) ↦ ground (arith, found, known image r found)
  ]

  contains_key-see :
      (i image : String) (seen : Images)
      → contains_key i (see probes image seen) ≡ (str_eq i image || contains_key i seen)
  contains_key-see i image seen =
      ground (arith, lookup-insert i image (probes.image_version image) seen, eq_iff i image)

  -- The images after the loop.
  abbrev pub met : Images → List Pool → Images
  met seen [] = seen
  met seen (p ∷ rest) = met (see probes p.image seen) rest

  module _ (state : State) (latest : Option RunnerRelease) where
    -- The check of the image's version passes, if Docker has the image.
    unfoldable pub version_fine : String → Bool
    unfolding passes
    version_fine image =
        all passes (checked_version probes state latest image (probes.image_version image))

    abbrev pub is_healthy : Pool → Bool
    is_healthy p = elim (lookup p.name state.pools) [
      | none ↦ true
      | some ps ↦ (health_of probes state latest p ps).healthy
    ]

    -- What makes a pool fine.
    unfoldable pub pool_fine : Pool → Bool
    pool_fine p =
        is_okay (probes.runners p.name)
        && is_okay (probes.image_version p.image)
        && version_fine p.image
        && is_healthy p

    abbrev pub IsFine : Images → Type 0
    IsFine seen = (i : String) → contains_key i seen ≡ true → version_fine i ≡ true

    pool_checks_lem :
        (seen : Images) (p : Pool)
        → IsKnown seen
        → contains_key p.auth state.config.auth ≡ true
        → contains_key p.name state.pools ≡ true
        → (l : List Diagnostic) × (pool_checks probes state latest seen p ≡ some l)
          × (all passes l ≡ (
              is_okay (probes.runners p.name)
              && (contains_key p.image seen || version_fine p.image)
              && is_okay (probes.image_version p.image)
              && is_healthy p))
    unfolding pool_checks passes version_fine
    pool_checks_lem seen p known has_auth has_state =
        let (auth, found_auth) = some_of_contains_key p.auth state.config.auth has_auth in
        let (ps, found) = some_of_contains_key p.name state.pools has_state in
        let image = probes.image_version p.image in
        (
          checks_of probes state latest seen p image ps,
          ground (arith, found_auth, found, lookup-see p.image seen known),
          ground (
            arith,
            found,
            is_absent-error_of (probes.runners p.name),
            is_absent-error_of image,
            all-append passes (version_checks probes state latest seen p.image) (
                Diagnostic.image_check p.name p.image (error_of image)
                ∷ Diagnostic.pool_check p ps (intent ps) (health_of probes state latest p ps)
                ∷ []),
          ),
        )

    -- What the loop returns, and when all its checks pass.
    abbrev pub Loops : Images → List Pool → Type 0
    Loops seen pools =
        (l : List Diagnostic) × (check_pools probes state latest seen pools
          ≡ some (l, met seen pools))
        × (IsFine seen → all passes l ≡ true → all pool_fine pools ≡ true)
        × (all pool_fine pools ≡ true → all passes l ≡ true)

    IsFine-see :
        (seen : Images) (image : String)
        → IsFine seen
        → (contains_key image seen || version_fine image) ≡ true
        → IsFine (see probes image seen)
    IsFine-see seen image fine h i there =
        ground (arith, contains_key-see i image seen, eq_iff i image, fine i, fine image)

    pub check_pools-Loops :
        (pools : List Pool) (seen : Images)
        → AreResolved state pools
        → IsKnown seen
        → Loops seen pools
    unfolding check_pools pool_fine
    check_pools-Loops [] seen h known = ([], refl, λ fine all_pass. refl, λ fine. refl)
    check_pools-Loops (p ∷ rest) seen (has_auth, has_state, others) known =
        let (l, here, passing) = pool_checks_lem seen p known has_auth has_state in
        let (later, loops, sound, complete) =
          check_pools-Loops rest (see probes p.image seen) others
            (see-IsKnown p.image seen known) in
        let split = all-append passes l later in
        (
          l ++ later,
          ground (arith, here, loops),
          λ fine all_pass. ground (
            arith,
            passing,
            split,
            all_pass,
            fine p.image,
            sound (IsFine-see seen p.image fine (ground (arith, passing, split, all_pass))),
          ),
          λ all_fine. ground (arith, passing, split, all_fine, complete),
        )
