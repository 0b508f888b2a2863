-- ===== src/Image.antt =====
-- The check of runner versions in src/image.rs. The clock and RFC 3339 are parameters, in
-- nanoseconds since the epoch.
pub mod Laws
use runnerctl.Common.{
  ℕ, ◌+◌, ◌*◌, ◌^◌, String, Bool, true, false, not, ◌&&◌, ◌||◌, Option, none, some, List, [], ◌∷◌,
  all, length, ltb, leb, ◌==◌, if◌then◌else◌,
}
use runnerctl.Common.Text.{split, codes, is_empty, is_ascii_digit}
use runnerctl.Config.Memory.{parse_u64}

-- `RunnerRelease` of src/github.rs
pub record RunnerRelease : Type 0 where
  pub tag_name : String
  pub published_at : String

-- `trim_start_matches('v')`
abbrev pub trim_v : List ℕ → List ℕ
trim_v [] = []
trim_v (c ∷ cs) = let rest = trim_v cs in if c == b'v' then rest else c ∷ cs

-- `parse::<u64>()`, which takes a sign `+` before the digits
abbrev pub parse_digits : List ℕ → Option ℕ
parse_digits s = if all is_ascii_digit s then parse_u64 s else none

abbrev pub parse_number : List ℕ → Option ℕ
parse_number [] = none
parse_number (c ∷ cs) = if c == b'+' then parse_digits cs else parse_digits (c ∷ cs)

abbrev pub cons_some : Option ℕ → Option (List ℕ) → Option (List ℕ)
cons_some (some n) (some l) = some (n ∷ l)
cons_some _ _ = none

-- `map(…).collect::<Option<Vec<_>>>()`
abbrev pub parse_all : List (List ℕ) → Option (List ℕ)
parse_all [] = some []
parse_all (s ∷ rest) = cons_some (parse_number s) (parse_all rest)

abbrev pub of_three : Option (List ℕ) → Option (List ℕ)
of_three none = none
of_three (some l) = if length l == 3 then some l else none

unfoldable pub version : List ℕ → Option (List ℕ)
version s = of_three (parse_all (split b'.' (trim_v s)))

-- `<` on vectors
unfoldable pub vec_lt : List ℕ → List ℕ → Bool
vec_lt _ [] = false
vec_lt [] (_ ∷ _) = true
vec_lt (a ∷ as') (b ∷ bs) = ltb a b || (a == b && vec_lt as' bs)

-- `installed.and_then(version)`
abbrev pub installed_version : Option String → Option (List ℕ)
installed_version none = none
installed_version (some s) = version (codes s)

-- What the check says, as far as it varies.
pub data Advice : Type 0 where
  unlabelled unknown_latest current : Advice
  outdated : (deadline : Option ℕ) → Advice

pub record Check : Type 0 where
  pub healthy : Bool
  pub advice : Advice

module _ (parse_rfc3339 : String → Option ℕ) (now : ℕ) where
  abbrev pub thirty_days : ℕ
  thirty_days = 30 * 86400 * 10 ^ 9

  -- An installed version behind the latest one: its deadline, and whether that has passed.
  unfoldable pub outdated_check : Option ℕ → Check
  outdated_check none = record { healthy = true; advice = outdated none }
  outdated_check (some published) = record {
    healthy = not (leb (published + thirty_days) now);
    advice = outdated (some (published + thirty_days));
  }

  unfoldable pub compare_versions : List ℕ → RunnerRelease → Option (List ℕ) → Check
  compare_versions installed latest none = record { healthy = true; advice = current }
  compare_versions installed latest (some new) =
      if vec_lt installed new
      then outdated_check (parse_rfc3339 latest.published_at)
      else record { healthy = true; advice = current }

  unfoldable pub check_installed : Option (List ℕ) → Option RunnerRelease → Check
  check_installed none latest = record { healthy = true; advice = unlabelled }
  check_installed (some installed) none = record { healthy = true; advice = unknown_latest }
  check_installed (some installed) (some latest) =
      compare_versions installed latest (version (codes latest.tag_name))

  unfoldable pub version_check : Option String → Option RunnerRelease → Check
  version_check installed latest = check_installed (installed_version installed) latest
