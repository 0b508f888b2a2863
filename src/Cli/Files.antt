-- ===== src/Cli/Files.antt =====
-- The files that src/main.rs writes through `config::atomic_write`, and the paths of `Path::join`.
use Prim.Native.String.{◌++◌}
use runnerctl.Common.{
  ℕ, ◌+◌, String, ◌≡◌, refl, true, Option, none, some, List, [], ◌||◌, ◌∷◌, arith, if◌then◌else◌,
}
use runnerctl.Common.Text.{
  codes, codes_eq, is_empty, starts_with_char, strip_prefix-append, codes-append,
}
use runnerctl.Result.{ok, err, message}
use runnerctl.Config.Secrets.{File, Surroundings}
use runnerctl.Config.Names.{validate_reference}
use runnerctl.Shell.{Text, ends_with_slash}
use runnerctl.Engine.{WriteOutcome, failed_before, failed_after, written}
use runnerctl.Cli.{Terminal, Session, Call}

-- `Path::join`, on the texts
unfoldable pub join : String → String → String
join a b =
    if starts_with_char b'/' (codes b)
    then b
    else if is_empty (codes a) || ends_with_slash (codes a)
    then a ++ b
    else a ++ ("/" ++ b)

-- `config::atomic_write`, which can fail before or after the file is in place
abbrev pub store : Terminal → WriteOutcome → String → Text → Call (Unit {0})
store t failed_before path text s = (err (message (t.io_error s.io)), record s { io = s.io + 1 })
store t failed_after path text s =
    (err (message (t.io_error s.io)), record s { io = s.io + 1; files = (path, text) ∷ s.files })
store t written path text s = (ok tt, record s { io = s.io + 1; files = (path, text) ∷ s.files })

abbrev pub atomic_write : Terminal → String → Text → Call (Unit {0})
atomic_write t path text s = store t (t.write s.io) path text s

-- What `atomic_write` leaves: regular files with the mode 0600, the latest for each path.
abbrev pub file_at : List ℕ → List (String × Text) → Option File
file_at path [] = none
file_at path ((name, text) ∷ files) =
    if codes_eq (codes name) path
    then some (record { is_file = true; mode = 0x180; text = some text })
    else file_at path files

abbrev pub disk : List (String × Text) → Surroundings
disk files = record { opened = λ path. file_at path files; variable = λ name. none }

codes_eq_refl : (s : List ℕ) → codes_eq s s ≡ true
codes_eq_refl [] = refl
codes_eq_refl (c ∷ s) = ground (arith, codes_eq_refl s)

pub file_at-first :
    (path : String) (text : Text) (files : List (String × Text))
    → file_at (codes path) ((path, text) ∷ files)
      ≡ some (record { is_file = true; mode = 0x180; text = some text })
file_at-first path text files = ground (arith, codes_eq_refl (codes path))

pub atomic_write_ok :
    (t : Terminal) (path : String) (text : Text) (s s' : Session)
    → atomic_write t path text s ≡ (ok tt, s')
    → s'.files ≡ (path, text) ∷ s.files
atomic_write_ok t path text s s' h = ground (arith)

slash_of_append :
    (a b : String)
    → starts_with_char b'/' (codes a) ≡ true
    → starts_with_char b'/' (codes (a ++ b)) ≡ true
slash_of_append a b h = ground (arith, codes-append a b)

-- A path below an absolute path is absolute.
pub join_absolute :
    (a b : String)
    → starts_with_char b'/' (codes a) ≡ true
    → starts_with_char b'/' (codes (join a b)) ≡ true
unfolding join
join_absolute a b h = ground (arith, slash_of_append a b h, slash_of_append a ("/" ++ b) h)

pub file_reference :
    (path : String)
    → starts_with_char b'/' (codes path) ≡ true
    → validate_reference ("file:" ++ path) ≡ ok tt
unfolding validate_reference
file_reference path h =
    ground (arith, codes-append "file:" path, strip_prefix-append (codes "file:") (codes path))
