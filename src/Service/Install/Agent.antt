-- ===== src/Service/Install/Agent.antt =====
-- The installer of src/service.rs on macOS: an agent of launchd.
use runnerctl.Common.{
  String, Bool, false, not, ◌&&◌, List, [], ◌∷◌, ◌++◌, none, some, any, if◌then◌else◌,
}
use runnerctl.Common.Text.{codes}
use runnerctl.Shell.{
  Text, create_directory, write_file, command, World, Shell, ◌>>=◌, ◌>>◌, return, from_result,
  ensure, try, must, path_join, path_starts_with,
}
use runnerctl.Service.{escape_plist}
use runnerctl.Service.Install.{Host, user_home}

abbrev pub label : Text
label = codes "io.runnerctl.manager"

abbrev pub domain : Host → Text
domain h = codes "gui/" ++ h.uid

abbrev pub service : Host → Text
service h = domain h ++ b'/' ∷ label

abbrev pub bootout : World → Host → Shell Bool
bootout w h = try w (command "launchctl" (codes "bootout" ∷ service h ∷ []))

abbrev pub private_folders : List Text
private_folders =
    codes "Desktop" ∷ codes "Documents" ∷ codes "Downloads" ∷ codes "Library/Mobile Documents" ∷ []

-- macOS denies these folders to agents.
unfoldable pub is_private : Host → Text → Bool
is_private h path =
    any (λ folder. path_starts_with path (path_join (user_home h) folder)) private_folders

abbrev pub tag : String → Text → Text
tag name body = codes "<string>" ++ (body ++ codes "</string>\n")

abbrev pub key_line : Text → Text → Text
key_line name value =
    codes "\t\t<key>" ++ (name ++ (codes "</key>\n\t\t<string>" ++ (value ++ codes "</string>\n")))

-- The loop over the variables that the agent keeps.
unfoldable pub environment : Host → List String → Text → Shell Text
environment h [] done = return done
environment h (name ∷ names) done = elim (h.var name) [
  | none ↦ environment h names done
  | some value ↦ from_result (escape_plist value) >>= λ escaped.
      environment h names (done ++ key_line (codes name) escaped)
]

abbrev pub kept_variables : List String
kept_variables = "PATH" ∷ "DOCKER_HOST" ∷ "DOCKER_CONTEXT" ∷ "DOCKER_CONFIG" ∷ []

abbrev pub plist : Text → Text → Text → Text → Text
plist exe home variables log =
    codes
      "<?xml version=\"1.0\" encoding=\"UTF-8\"?>\n<!DOCTYPE plist PUBLIC \"-//Apple//DTD PLIST 1.0//EN\" \"http://www.apple.com/DTDs/PropertyList-1.0.dtd\">\n<plist version=\"1.0\">\n<dict>\n\t<key>Label</key>\n\t<string>io.runnerctl.manager</string>\n\t<key>ProgramArguments</key>\n\t<array>\n\t\t<string>"
    ++ (exe
        ++ (codes "</string>\n\t\t<string>--home</string>\n\t\t<string>"
            ++ (home
                ++ (codes
                      "</string>\n\t\t<string>manager</string>\n\t</array>\n\t<key>EnvironmentVariables</key>\n\t<dict>\n"
                    ++ (variables
                        ++ (codes
                              "\t</dict>\n\t<key>RunAtLoad</key>\n\t<true/>\n\t<key>KeepAlive</key>\n\t<dict>\n\t\t<key>SuccessfulExit</key>\n\t\t<false/>\n\t</dict>\n\t<key>ThrottleInterval</key>\n\t<integer>10</integer>\n\t<key>Umask</key>\n\t<integer>63</integer>\n\t<key>ExitTimeOut</key>\n\t<integer>300</integer>\n\t<key>StandardOutPath</key>\n\t<string>"
                            ++ (log
                                ++ (codes "</string>\n\t<key>StandardErrorPath</key>\n\t<string>"
                                    ++ (log ++ codes "</string>\n</dict>\n</plist>\n")))))))))

abbrev pub agents : Host → Text
agents h = path_join (user_home h) (codes "Library/LaunchAgents")

abbrev pub plist_path : Host → Text
plist_path h = path_join (agents h) (label ++ codes ".plist")

unfoldable pub install_agent : World → Host → Shell (Unit {0})
unfolding is_private environment
install_agent w h = do
  exe ← from_result h.current_exe
  ensure (not (is_private h exe)) "LaunchAgents cannot access the program"
  ensure (not (is_private h h.home)) "LaunchAgents cannot access the home directory"
  must w (create_directory (agents h)) "cannot create the directory"
  variables ← environment h kept_variables []
  log ← from_result (escape_plist (path_join h.home (codes "manager.log")))
  escaped_exe ← from_result (escape_plist exe)
  escaped_home ← from_result (escape_plist h.home)
  must w (write_file (plist_path h) (plist escaped_exe escaped_home variables log))
      "cannot write the property list"
  bootout w h
  enabled ← try w (command "launchctl" (codes "enable" ∷ service h ∷ []))
  started ←
      if enabled
      then try w (command "launchctl" (codes "bootstrap" ∷ domain h ∷ plist_path h ∷ []))
      else return false
  ensure (enabled && started) "launchctl failed; inspect launchctl print"

unfoldable pub uninstall_agent : World → Host → Shell (Unit {0})
uninstall_agent w h = do
  bootout w h
  must w (command "launchctl" (codes "disable" ∷ service h ∷ [])) "launchctl failed"
