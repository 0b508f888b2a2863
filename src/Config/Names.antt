-- ===== src/Config/Names.antt =====
-- The tests on names and references of src/config.rs: images, organizations, repositories,
-- credential references, and names of pools and profiles.
pub mod Laws
use runnerctl.Common.{
  ℕ, String, Bool, true, false, not, ◌&&◌, ◌||◌, Option, none, some, List, [], ◌∷◌, leb, ◌==◌, any,
  all, if◌then◌else◌,
}
use runnerctl.Common.Text.{
  codes, byte_len, is_empty, is_ascii_alphanumeric, is_whitespace, starts_with_char, contains_char,
  strip_prefix, codes_eq, ends_with, after_last, split_once,
}
use runnerctl.Result.{Result, ok, err, message, ensure, ◌>>=◌, ◌>>◌}

unfoldable pub validate_image : String → Result (Unit {0})
validate_image image =
    let s = codes image in
    do
      ensure (not (is_empty s) && not (starts_with_char b'-' s) && not (any is_whitespace s))
          "invalid image"
      ensure (contains_char b'@' s || contains_char b':' (after_last b'/' s))
          "pin image with a version tag or digest"
      ensure (not (ends_with s (codes ":latest"))) "latest image tag is not allowed; pin a version"
      ok tt

-- `s.as_bytes()[0].is_ascii_alphanumeric()`, behind the test that `s` is not empty
abbrev pub first_alphanumeric : List ℕ → Bool
first_alphanumeric [] = false
first_alphanumeric (c ∷ _) = is_ascii_alphanumeric c

abbrev pub org_char : ℕ → Bool
org_char b = is_ascii_alphanumeric b || b == b'-'

unfoldable pub valid_org : List ℕ → Bool
valid_org s = not (is_empty s) && leb (byte_len s) 39 && all org_char s && first_alphanumeric s

-- `b"-_.".contains(&b)`
abbrev pub repo_char : ℕ → Bool
repo_char b = is_ascii_alphanumeric b || b == b'-' || b == b'_' || b == b'.'

-- The test on the two parts of OWNER/REPO.
abbrev pub valid_parts : List ℕ × List ℕ → Bool
valid_parts (owner, repo) =
    valid_org owner
    && not (is_empty repo)
    && leb (byte_len repo) 100
    && not (codes_eq repo (codes ".") || codes_eq repo (codes ".."))
    && all repo_char repo

unfoldable pub valid_repo : List ℕ → Bool
valid_repo s = elim (split_once b'/' s) [ none ↦ false | some parts ↦ valid_parts parts ]

abbrev pub env_char : ℕ → Bool
env_char b = is_ascii_alphanumeric b || b == b'_'

-- `Path::is_absolute` of Unix: the path starts with a slash.
unfoldable pub validate_reference : String → Result (Unit {0})
validate_reference reference = elim (strip_prefix (codes "file:") (codes reference)) [
  | some p ↦ ensure (starts_with_char b'/' p) "credential file must be absolute"
  | none ↦ elim (strip_prefix (codes "env:") (codes reference)) [
    | some e ↦
        ensure (not (is_empty e) && all env_char e) "invalid credential environment reference"
    | none ↦ err (message "credential must use file: or env:")
  ]
]

abbrev pub name_char : ℕ → Bool
name_char b = is_ascii_alphanumeric b || b == b'-' || b == b'_'

unfoldable pub valid_name : String → Bool
valid_name name =
    let s = codes name in
    not (is_empty s) && leb (byte_len s) 48 && all name_char s && first_alphanumeric s
