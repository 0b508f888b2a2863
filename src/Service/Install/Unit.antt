-- ===== src/Service/Install/Unit.antt =====
-- The installer of src/service.rs on Linux: a user unit of systemd.
use runnerctl.Common.{String, Bool, ◌||◌, [], ◌∷◌, ◌++◌, if◌then◌else◌}
use runnerctl.Common.Text.{codes}
use runnerctl.Shell.{
  Text, Action, create_directory, write_file, command, World, Shell, ◌>>=◌, ◌>>◌, from_result, must,
  path_join,
}
use runnerctl.Service.{quote_unit}
use runnerctl.Service.Install.{Host, or_else, is_set, user_home}

-- What stands before the command line of a unit, and behind it.
abbrev pub unit_head : Text
unit_head =
    codes
      "[Unit]\nDescription=GitHub Actions runner pool manager\nAfter=network-online.target\nWants=network-online.target\n\n[Service]\nType=simple\nExecStart="

abbrev pub unit_tail : Text
unit_tail =
    codes
      " manager\nRestart=on-failure\nRestartSec=10\nUMask=0077\nTimeoutStopSec=300\n\n[Install]\nWantedBy=default.target\n"

abbrev pub unit_directory : Host → Text
unit_directory h =
    path_join (or_else (h.var "XDG_CONFIG_HOME") (path_join (user_home h) (codes ".config")))
      (codes "systemd/user")

abbrev pub wsl : Host → Bool
wsl h = is_set (h.var "WSL_DISTRO_NAME") || h.wsl_interop

abbrev pub systemctl_text : Host → String
systemctl_text h =
    if wsl h
    then "systemctl failed; inspect the user service; on WSL, set [boot] systemd=true in /etc/wsl.conf and run wsl.exe --shutdown"
    else "systemctl failed; inspect the user service"

abbrev pub daemon_reload : Action
daemon_reload = command "systemctl" (codes "--user" ∷ codes "daemon-reload" ∷ [])

abbrev pub enable_now : Action
enable_now =
    command "systemctl"
      (codes "--user" ∷ codes "enable" ∷ codes "--now" ∷ codes "runnerctl.service" ∷ [])

abbrev pub disable_now : Action
disable_now =
    command "systemctl"
      (codes "--user" ∷ codes "disable" ∷ codes "--now" ∷ codes "runnerctl.service" ∷ [])

-- The command line that the unit starts.
abbrev pub exec_start : Text → Text → Text
exec_start exe home = exe ++ (codes " --home " ++ (home ++ unit_tail))

unfoldable pub install_unit : World → Host → Shell (Unit {0})
install_unit w h = do
  must w (create_directory (unit_directory h)) "cannot create the directory"
  exe ← from_result h.current_exe
  quoted_exe ← from_result (quote_unit exe)
  quoted_home ← from_result (quote_unit h.home)
  must w
      (write_file (path_join (unit_directory h) (codes "runnerctl.service"))
        (unit_head ++ exec_start quoted_exe quoted_home))
      "cannot write the unit"
  must w daemon_reload (systemctl_text h)
  must w enable_now (systemctl_text h)

unfoldable pub uninstall_unit : World → Host → Shell (Unit {0})
uninstall_unit w h = must w disable_now (systemctl_text h)
