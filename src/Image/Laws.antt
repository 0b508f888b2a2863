-- ===== src/Image/Laws.antt =====
-- When the check of src/image.rs calls an image unhealthy.
use runnerctl.Common.{
  ℕ, ◌+◌, ◌*◌, ◌^◌, ◌≤◌, String, ◌≡◌, ◌↔◌, refl, subst, true, false, Option, none, some, List,
  arith,
}
use runnerctl.Common.Text.{codes}
use runnerctl.Image.{
  RunnerRelease, version, vec_lt, outdated_check, compare_versions, check_installed,
  installed_version, version_check,
}

-- The conditions under which an image is past its deadline.
abbrev pub IsExpired : (String → Option ℕ) → ℕ → Option String → RunnerRelease → Type 0
IsExpired parse_rfc3339 now installed latest =
    (old new : List ℕ) × (published : ℕ) × (installed_version installed ≡ some old)
    × (version (codes latest.tag_name) ≡ some new)
    × (vec_lt old new ≡ true)
    × (parse_rfc3339 latest.published_at ≡ some published)
    × (published + 30 * 86400 * 10 ^ 9 ≤ now)

known_release_iff :
    (parse_rfc3339 : String → Option ℕ) (now : ℕ) (installed : Option String)
    (latest : RunnerRelease)
    → ((version_check parse_rfc3339 now installed (some latest)).healthy ≡ false)
      ↔ IsExpired parse_rfc3339 now installed latest
unfolding version_check check_installed compare_versions outdated_check
known_release_iff parse_rfc3339 now installed latest = (
  λ h.
      by_old (installed_version installed) (version (codes latest.tag_name))
        (parse_rfc3339 latest.published_at) refl refl refl h,
  λ x.
      let (old, new, published, here, there, behind, date, late) = x in
      ground (arith, here, there, behind, date, late),
)
  where
    by_old :
        (o n : Option (List ℕ)) (d : Option ℕ)
        → installed_version installed ≡ o
        → version (codes latest.tag_name) ≡ n
        → parse_rfc3339 latest.published_at ≡ d
        → (version_check parse_rfc3339 now installed (some latest)).healthy ≡ false
        → IsExpired parse_rfc3339 now installed latest
    by_old none n d e f g h = absurd (ground (arith, e, h))
    by_old (some old) none d e f g h = absurd (ground (arith, e, f, h))
    by_old (some old) (some new) none e f g h = absurd (ground (arith, e, f, g, h))
    by_old (some old) (some new) (some published) e f g h =
        (old, new, published, e, f, ground (arith, e, f, g, h), g, ground (arith, e, f, g, h))

unknown_release :
    (parse_rfc3339 : String → Option ℕ) (now : ℕ) (installed : Option String)
    → (version_check parse_rfc3339 now installed none).healthy ≡ false
    → ⊥
unfolding version_check check_installed
unknown_release parse_rfc3339 now installed h = by_old (installed_version installed) refl
  where
    by_old : (o : Option (List ℕ)) → installed_version installed ≡ o → ⊥
    by_old none e = absurd (ground (arith, e, h))
    by_old (some old) e = absurd (ground (arith, e, h))

-- The check fails for an image exactly when its version and the latest release's can be read, it is
-- behind, and the release was published at least thirty days ago; a missing label, an unknown
-- release or an unreadable date never fails it.
pub version_check_iff :
    (parse_rfc3339 : String → Option ℕ) (now : ℕ) (installed : Option String)
    (latest : Option RunnerRelease)
    → ((version_check parse_rfc3339 now installed latest).healthy ≡ false) ↔ (
        (release : RunnerRelease) × (latest ≡ some release)
        × IsExpired parse_rfc3339 now installed release)
version_check_iff parse_rfc3339 now installed none =
    (λ h. absurd (unknown_release parse_rfc3339 now installed h), λ x. absurd (ground (arith, x.1)))
version_check_iff parse_rfc3339 now installed (some latest) =
    let known = known_release_iff parse_rfc3339 now installed latest in
    (
      λ h. (latest, refl, known.0 h),
      λ x. known.1 (subst (IsExpired parse_rfc3339 now installed) (ground (arith, x.1)) x.2),
    )
