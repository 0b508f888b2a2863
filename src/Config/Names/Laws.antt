-- ===== src/Config/Names/Laws.antt =====
-- What the names that src/config.rs accepts look like: they are safe in a URL, a path and a name.
use runnerctl.Common.{
  ℕ, ◌≤◌, String, ◌≡◌, refl, Bool, true, false, not, ◌&&◌, some, List, [], ◌∷◌, ◌++◌, arith, all,
  ◌==◌, length, Option-cases, inl, inr, Bool-cases, ap,
}
use runnerctl.Common.Text.{codes, byte_len, is_empty, contains_char, split_once, codes_eq}
use runnerctl.Config.Names.{org_char, repo_char, name_char, valid_org, valid_repo, valid_name}

eq_of_test : (a b : ℕ) → (a == b) ≡ true → a ≡ b
eq_of_test a b h = ground arith

-- A character outside a class is not among characters of the class.
lacks_char :
    (d : ℕ) (f : ℕ → Bool) (s : List ℕ) → f d ≡ false → all f s ≡ true → contains_char d s ≡ false
lacks_char d f [] h k = refl
lacks_char d f (c ∷ cs) h k = elim (Bool-cases (d == c)) [
  | inl same ↦ absurd (ground (arith, ap f (eq_of_test d c same)))
  | inr differs ↦ ground (arith, lacks_char d f cs h)
]

split_once_lem : (c : ℕ) (s : List ℕ) {a b : List ℕ} → split_once c s ≡ some (a, b) → s ≡ a ++ c ∷ b
split_once_lem c [] h = ground arith
split_once_lem c (d ∷ ds) {a = a} {b = b} h = elim (Option-cases (split_once c ds)) [
  | inl none_here ↦ ground arith
  | inr ((a', b'), found) ↦ ground (arith, split_once_lem c ds found)
]

length-le-byte_len : (s : List ℕ) → length s ≤ byte_len s
length-le-byte_len [] = omega arith
length-le-byte_len (c ∷ s) = ground (arith, length-le-byte_len s)

-- An accepted OWNER/REPO is two parts with one slash between them and none inside, each not empty,
-- of at most 39 and 100 characters; the first has no dot, and the second is neither "." nor "..".
pub valid_repo_sound :
    (s : List ℕ)
    → valid_repo s ≡ true
    → (owner repo : List ℕ) × (s ≡ owner ++ b'/' ∷ repo)
      × (contains_char b'/' owner ≡ false)
      × (contains_char b'.' owner ≡ false)
      × (contains_char b'/' repo ≡ false)
      × (is_empty owner ≡ false)
      × (is_empty repo ≡ false)
      × (length owner ≤ 39)
      × (length repo ≤ 100)
      × (codes_eq repo (codes ".") ≡ false)
      × (codes_eq repo (codes "..") ≡ false)
unfolding valid_repo valid_org
valid_repo_sound s h = elim (Option-cases (split_once b'/' s)) [
  | inl none_here ↦ absurd (ground arith)
  | inr ((owner, repo), found) ↦ (
    owner,
    repo,
    split_once_lem b'/' s found,
    lacks_char b'/' org_char owner refl (ground arith),
    lacks_char b'.' org_char owner refl (ground arith),
    lacks_char b'/' repo_char repo refl (ground arith),
    ground arith,
    ground arith,
    ground (arith, length-le-byte_len owner),
    ground (arith, length-le-byte_len repo),
    ground arith,
    ground arith,
  )
]

-- An accepted name of a pool or a profile has 1 to 48 characters, and neither a slash, a dot, a
-- comma nor a colon is among them.
valid_name_sound :
    (name : String)
    → valid_name name ≡ true
    → (is_empty (codes name) ≡ false)
      × (length (codes name) ≤ 48)
      × (all
            (λ c. not (c == b'/') && not (c == b'.') && not (c == b',') && not (c == b':'))
            (codes name)
          ≡ true)
unfolding valid_name
valid_name_sound name h = (
  ground arith,
  ground (arith, length-le-byte_len (codes name)),
  apart (codes name) (ground arith),
)
  where
    apart :
        (s : List ℕ)
        → all name_char s ≡ true
        → all (λ c. not (c == b'/') && not (c == b'.') && not (c == b',') && not (c == b':')) s
          ≡ true
    apart [] k = refl
    apart (c ∷ cs) k = ground (arith, apart cs)
