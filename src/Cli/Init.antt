-- ===== src/Cli/Init.antt =====
-- `init` of src/main.rs: a new directory's configuration, with one profile whose token has a file.
pub mod Laws
use Prim.Native.String
use Prim.Native.String.{String, ◌++◌}
use Prim.Native.Char.{code}
use runnerctl.Common.{
  ℕ, ◌≡◌, Bool, true, false, not, ◌&&◌, ◌==◌, Option, none, some, List, [], ◌∷◌, if◌then◌else◌,
}
use runnerctl.Common.Text.{codes}
use runnerctl.Result.{Result, ok, err}
use runnerctl.Config.{Auth, Config, default_config}
use runnerctl.Config.Names.{valid_org, valid_repo}
use runnerctl.Shell.{Text}
use runnerctl.Cli.{Terminal, Session, Call, ◌>>=◌, ◌>>◌, return, context, from_result, ensure}
use runnerctl.Cli.Files.{join, atomic_write}

-- What `init` finds: the manager's lock, the files of an earlier one, and TOML.
pub record Place : Type 0 where
  pub lock : Result (Unit {0})
  pub config_exists : Bool
  pub state_exists : Bool
  pub to_toml : Config → Result Text

-- `split('/').next()`
abbrev pub before_slash : String → String
before_slash String.[] = ""
before_slash (String.◌∷◌ c s) =
    let rest = before_slash s in if code c == b'/' then "" else String.◌∷◌ c rest

-- `org.or_else(|| repo.split('/').next())`
abbrev pub profile_of : Option String → Option String → Option String
profile_of (some org) repo = some org
profile_of none (some repo) = some (before_slash repo)
profile_of none none = none

abbrev pub check_org : Option String → Call (Unit {0})
check_org none = return tt
check_org (some org) = ensure (valid_org (codes org)) "invalid organization"

abbrev pub check_repo : Option String → Call (Unit {0})
check_repo none = return tt
check_repo (some repo) = ensure (valid_repo (codes repo)) "invalid repository; use OWNER/REPO"

-- `Auth::pat`
abbrev pub pat : String → Auth
pat credential = record { credential = credential; app = none }

abbrev pub init_config : String → String → Config
init_config home profile = record default_config {
  auth = (profile, pat ("file:" ++ join (join home "credentials") profile)) ∷ [];
}

unfoldable pub init : Terminal → Place → Option String → Option String → Call (Unit {0})
init t place org repo = do
  from_result place.lock
  ensure (not place.config_exists && not place.state_exists) "already initialized"
  check_org org
  check_repo repo
  profile ← context (profile_of org repo) "missing target"
  text ← from_result (place.to_toml (init_config t.home profile))
  atomic_write t (join t.home "config.toml") text
