-- ===== src/Shell.antt =====
-- What the command line and the installers of src/service.rs do outside: files, directories and
-- programs. An action is recorded in the order of the calls, and whether it succeeds is answered
-- from what was done before. A path is its text, as on Unix.
use runnerctl.Common.{
  ℕ, Bool, true, false, not, ◌&&◌, ◌||◌, List, [], ◌∷◌, ◌++◌, String, ◌==◌, if◌then◌else◌,
}
use runnerctl.Common.Text.{codes, codes_eq, is_empty, starts_with_char, split}
use runnerctl.Common.{filter}
use runnerctl.Result.{Result, ok, err, message}

-- A text by its code points.
abbrev pub Text : Type 0
Text = List ℕ

pub data Action : Type 0 where
  create_directory : (path : Text) → Action
  write_file : (path text : Text) → Action
  remove_file : (path : Text) → Action
  command : (program : String) → (args : List Text) → Action
  take_lock : (path : Text) → Action
  sleep_millis : (millis : ℕ) → Action

-- Whether an action succeeds after those before it, the latest first.
abbrev pub World : Type 0
World = List Action → Action → Bool

abbrev pub Shell : Type 0 → Type 0
Shell A = List Action → Result A × List Action

module _ {A B : Type 0} where
  abbrev pub continue : Result A → (A → Shell B) → Shell B
  continue (err error) f done = (err error, done)
  continue (ok a) f done = f a done

  infixl 5 ◌>>=◌ ◌>>◌
  abbrev pub ◌>>=◌ : Shell A → (A → Shell B) → Shell B
  ◌>>=◌ m f done = let (r, done') = m done in continue r f done'

  abbrev pub ◌>>◌ : Shell A → Shell B → Shell B
  m >> k = m >>= λ _. k

abbrev pub return : {A : Type 0} → A → Shell A
return a done = (ok a, done)

abbrev pub from_result : {A : Type 0} → Result A → Shell A
from_result r done = (r, done)

abbrev pub ensure : Bool → String → Shell (Unit {0})
ensure b text done = (if b then ok tt else err (message text), done)

-- An action, and whether it succeeded.
abbrev pub try : World → Action → Shell Bool
try w a done = (ok (w done a), a ∷ done)

-- An action whose failure is an error.
abbrev pub must : World → Action → String → Shell (Unit {0})
must w a text done = (if w done a then ok tt else err (message text), a ∷ done)

-- `last() == '/'`
abbrev pub ends_with_slash : Text → Bool
ends_with_slash [] = false
ends_with_slash (c ∷ []) = c == b'/'
ends_with_slash (_ ∷ d ∷ ds) = ends_with_slash (d ∷ ds)

-- `Path::join`
unfoldable pub path_join : Text → Text → Text
path_join a b =
    if starts_with_char b'/' b
    then b
    else if is_empty a || ends_with_slash a
    then a ++ b
    else a ++ b'/' ∷ b

-- `Path::components` without the root: empty segments and dots are dropped.
abbrev pub segments : Text → List Text
segments path = filter (λ s. not (is_empty s || codes_eq s (codes "."))) (split b'/' path)

abbrev pub is_prefix : List Text → List Text → Bool
is_prefix [] b = true
is_prefix (x ∷ a) [] = false
is_prefix (x ∷ a) (y ∷ b) = codes_eq x y && is_prefix a b

-- `Path::starts_with`, of absolute paths
unfoldable pub path_starts_with : Text → Text → Bool
path_starts_with path base = is_prefix (segments base) (segments path)
