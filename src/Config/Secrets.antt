-- ===== src/Config/Secrets.antt =====
-- How src/config.rs reads secrets, as on Unix: `open_private`, `secret` and `credential`. The files and
-- the variables of the environment are a parameter.
pub mod Laws
use runnerctl.Common.{
  ℕ, ◌+◌, ◌%◌, Bool, true, false, not, ◌&&◌, Option, none, some, List, [], ◌∷◌, any, leb, ◌==◌,
  if◌then◌else◌,
}
use runnerctl.Common.Text.{codes, byte_len, is_empty, is_whitespace, strip_prefix, trim, take_bytes}
use runnerctl.Result.{Result, ok, err, message, context, ensure, ◌>>=◌, ◌>>◌}
use runnerctl.Config.{Auth}

-- A file: its text is none when it is not UTF-8.
pub record File : Type 0 where
  pub is_file : Bool
  pub mode : ℕ
  pub text : Option (List ℕ)

-- `opened` follows no symbolic link in the last component.
pub record Surroundings : Type 0 where
  pub opened : List ℕ → Option File
  pub variable : List ℕ → Option (List ℕ)

-- `mode & 0o077 == 0`
abbrev pub is_owners_only : ℕ → Bool
is_owners_only mode = mode % 64 == 0

unfoldable pub open_private : Surroundings → List ℕ → Result File
open_private h path = do
  f ← context (h.opened path) "cannot open credential file"
  ensure (f.is_file && is_owners_only f.mode) "credential must be a regular file with mode 0600"
  ok f

-- `take(max_bytes + 1).read_to_string(…)`
abbrev pub read_limited : ℕ → File → Result (List ℕ)
read_limited max_bytes f = do
  text ← context f.text "stream did not contain valid UTF-8"
  context (take_bytes (max_bytes + 1) text) "stream did not contain valid UTF-8"

abbrev pub read_reference : Surroundings → List ℕ → ℕ → Result (List ℕ)
read_reference h reference max_bytes = elim (strip_prefix (codes "file:") reference) [
  | some path ↦ do f ← open_private h path; read_limited max_bytes f
  | none ↦ elim (strip_prefix (codes "env:") reference) [
    | some name ↦ context (h.variable name) "credential environment variable is missing"
    | none ↦ err (message "invalid credential reference")
  ]
]

unfoldable pub secret : Surroundings → List ℕ → ℕ → Result (List ℕ)
secret h reference max_bytes = do
  text ← read_reference h reference max_bytes
  let value = trim text
  ensure (not (is_empty value) && leb (byte_len value) max_bytes) "invalid credential contents"
  ok value

unfoldable pub credential : Surroundings → Auth → Result (List ℕ)
credential h auth = do
  value ← secret h (codes auth.credential) 16384
  ensure (not (any is_whitespace value)) "invalid token contents"
  ok value
