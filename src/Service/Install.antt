-- ===== src/Service/Install.antt =====
-- What `install` and `uninstall` of src/service.rs read of the host: the environment, the path of the
-- program and the user's number. The children have one installer each.
pub mod Unit
pub mod Agent
pub mod Scheduled
pub mod Laws
use runnerctl.Common.{String, Bool, true, false, [], Option, none, some}
use runnerctl.Result.{Result}
use runnerctl.Shell.{Text}

pub record Host : Type 0 where
  pub var : String → Option Text
  pub current_exe : Result Text
  pub home : Text
  pub uid : Text
  pub wsl_interop : Bool

abbrev pub or_else : Option Text → Text → Text
or_else none default = default
or_else (some t) default = t

abbrev pub is_set : Option Text → Bool
is_set none = false
is_set (some _) = true

abbrev pub user_home : Host → Text
user_home h = or_else (h.var "HOME") []
