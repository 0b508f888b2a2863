-- ===== src/Cli/Login.antt =====
-- `auth login` and `auth app` of src/main.rs: the checks on what was typed, the file that keeps a
-- token, and the request that comes of it.
pub mod Laws
use Prim.Native.String.{◌++◌}
use runnerctl.Common.{
  ℕ, ◌+◌, String, Bool, true, false, not, ◌&&◌, ◌||◌, Option, none, some, List, [], ◌∷◌, any, leb,
  if◌then◌else◌,
}
use runnerctl.Common.Text.{
  codes, byte_len, is_empty, is_whitespace, starts_with_char, trim, take_bytes,
}
use runnerctl.Result.{Result, ok, err}
use runnerctl.Config.{AppAuth, Auth, Config, default_config}
use runnerctl.Config.Names.{valid_name}
use runnerctl.Config.Validate.{validate}
use runnerctl.Protocol.{Request}
use runnerctl.Shell.{Text, ends_with_slash}
use runnerctl.Cli.Files.{join, atomic_write}
use runnerctl.Cli.{
  Terminal, Session, Call, TokenSource, KeySource, ◌>>=◌, ◌>>◌, return, fail, context, from_result,
  ensure,
}

-- `io::stdin().take(16385).read_to_string(…)?`
abbrev pub read_stdin : Text → Call Text
read_stdin text = context (take_bytes 16385 text) "stream did not contain valid UTF-8"

unfoldable pub valid_token : Text → Bool
valid_token token =
    not (is_empty token) && leb (byte_len token) 16384 && not (any is_whitespace token)

module _ (t : Terminal) where
  -- A path is fresh, so that an unsuccessful change leaves the old credentials intact.
  unfoldable pub save_token : String → Text → Call String
  save_token profile text =
      let token = trim text in
      do
        ensure (valid_token token) "invalid token"
        id ← λ s. (ok (t.uuid s.io), record s { io = s.io + 1 })
        let path = join (join t.home "credentials") (profile ++ ("-" ++ id))
        atomic_write t path token
        return ("file:" ++ path)

  abbrev pub credential_of : String → TokenSource → Call String
  credential_of profile (TokenSource.env variable) = return ("env:" ++ variable)
  credential_of profile (TokenSource.stdin input) = do
    text ← from_result input
    token ← read_stdin text
    save_token profile token
  credential_of profile (TokenSource.prompt input) = do
    text ← from_result input
    save_token profile text

  unfoldable pub login_request : String → TokenSource → Call Request
  login_request profile source = do
    ensure (valid_name profile) "invalid profile name"
    credential ← credential_of profile source
    return (Request.auth profile credential none)

  abbrev pub key_reference : KeySource → Call String
  key_reference (KeySource.private_key path) = do p ← from_result path; return ("file:" ++ p)
  key_reference (KeySource.key_env variable) = do
    v ← context variable "missing private key reference"
    return ("env:" ++ v)

  -- The configuration with only this profile.
  abbrev pub check_config : String → AppAuth → Config
  check_config profile app = record default_config {
    auth = (profile, record { credential = ""; app = some app }) ∷ [];
  }

  unfoldable pub app_request : String → String → ℕ → KeySource → Call Request
  app_request profile app_id installation_id key = do
    ensure (valid_name profile) "invalid profile name"
    private_key ← key_reference key
    let app : AppAuth = record {
      app_id = app_id;
      installation_id = installation_id;
      private_key = private_key;
    }
    from_result (validate (check_config profile app))
    from_result (t.signs app)
    return (Request.auth profile "" (some app))
