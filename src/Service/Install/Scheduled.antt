-- ===== src/Service/Install/Scheduled.antt =====
-- The installer of src/service.rs on Windows: a task of the Task Scheduler, whose XML is UTF-16.
use runnerctl.Common.{
  ℕ, zero, suc, ◌+◌, ◌-◌, ◌/◌, ◌%◌, String, Bool, false, ◌&&◌, List, [], ◌∷◌, ◌++◌, ltb,
  if◌then◌else◌,
}
use runnerctl.Common.Text.{codes}
use runnerctl.Result.{Result}
use runnerctl.Shell.{
  Text, Action, write_file, command, take_lock, sleep_millis, World, Shell, ◌>>=◌, ◌>>◌, return,
  from_result, ensure, try, must,
}
use runnerctl.Service.{quote_argument, escape_xml}
use runnerctl.Service.Install.{Host}

-- `encode_utf16` of one character: a pair of surrogates above 0xffff
abbrev pub utf16 : ℕ → List ℕ
utf16 c =
    if ltb c 0x1_0000
    then c ∷ []
    else (0xd800 + (c - 0x1_0000) / 0x400) ∷ (0xdc00 + (c - 0x1_0000) % 0x400) ∷ []

abbrev pub encode_utf16 : Text → List ℕ
encode_utf16 [] = []
encode_utf16 (c ∷ s) = utf16 c ++ encode_utf16 s

-- `flat_map(u16::to_le_bytes)`
abbrev pub le_bytes : List ℕ → List ℕ
le_bytes [] = []
le_bytes (u ∷ us) = (u % 256) ∷ (u / 256) ∷ le_bytes us

-- A byte order mark, then the text.
unfoldable pub document_bytes : Text → List ℕ
document_bytes body = le_bytes (0xfeff ∷ encode_utf16 body)

abbrev pub arguments : Text → Text → Text
arguments exe home =
    codes "--headless " ++ (exe ++ (codes " --home " ++ (home ++ codes " service run")))

abbrev pub task_document : Text → Text → Text
task_document user arguments =
    codes
      "<?xml version=\"1.0\" encoding=\"UTF-16\"?>\n<Task version=\"1.2\" xmlns=\"http://schemas.microsoft.com/windows/2004/02/mit/task\">\n  <RegistrationInfo>\n    <Description>GitHub Actions runner pool manager</Description>\n  </RegistrationInfo>\n  <Triggers>\n    <LogonTrigger>\n      <Enabled>true</Enabled>\n      <UserId>"
    ++ (user
        ++ (codes
              "</UserId>\n    </LogonTrigger>\n  </Triggers>\n  <Principals>\n    <Principal id=\"Author\">\n      <UserId>"
            ++ (user
                ++ (codes
                      "</UserId>\n      <LogonType>InteractiveToken</LogonType>\n      <RunLevel>LeastPrivilege</RunLevel>\n    </Principal>\n  </Principals>\n  <Settings>\n    <MultipleInstancesPolicy>IgnoreNew</MultipleInstancesPolicy>\n    <DisallowStartIfOnBatteries>false</DisallowStartIfOnBatteries>\n    <StopIfGoingOnBatteries>false</StopIfGoingOnBatteries>\n    <ExecutionTimeLimit>PT0S</ExecutionTimeLimit>\n    <RestartOnFailure>\n      <Interval>PT1M</Interval>\n      <Count>999</Count>\n    </RestartOnFailure>\n    <Priority>5</Priority>\n  </Settings>\n  <Actions Context=\"Author\">\n    <Exec>\n      <Command>%SystemRoot%\\System32\\conhost.exe</Command>\n      <Arguments>"
                    ++ (escape_xml arguments
                        ++ codes "</Arguments>\n    </Exec>\n  </Actions>\n</Task>\n")))))

abbrev pub task_name : Text
task_name = codes "runnerctl-manager"

-- Paths of Windows: a file of the home directory.
abbrev pub home_file : Host → String → Text
home_file h name = h.home ++ b'\\' ∷ codes name

abbrev pub end_task : World → Shell Bool
end_task w = try w (command "schtasks" (codes "/end" ∷ codes "/tn" ∷ task_name ∷ []))

-- `for _ in 0..rounds`, with a break when the lock is free.
unfoldable pub wait_for_lock : World → Host → ℕ → Shell (Unit {0})
wait_for_lock w h zero = return tt
wait_for_lock w h (suc rounds) =
    let again = wait_for_lock w h rounds in
    do
      free ← try w (take_lock (home_file h "manager.lock"))
      if free then return tt else (try w (sleep_millis 100) >> again)

abbrev pub create_task : Text → Action
create_task definition =
    command "schtasks"
      (codes "/create" ∷ codes "/tn" ∷ task_name ∷ codes "/xml" ∷ definition ∷ codes "/f" ∷ [])

abbrev pub run_task : Action
run_task = command "schtasks" (codes "/run" ∷ codes "/tn" ∷ task_name ∷ [])

unfoldable pub install_task : World → Host → Result Text → Shell (Unit {0})
unfolding wait_for_lock
install_task w h user_sid = do
  exe ← from_result h.current_exe
  user ← from_result user_sid
  quoted_exe ← from_result (quote_argument exe)
  quoted_home ← from_result (quote_argument h.home)
  must w
      (write_file (home_file h "service.xml")
        (document_bytes (task_document user (arguments quoted_exe quoted_home))))
      "cannot write the definition"
  end_task w
  wait_for_lock w h 50
  created ← try w (create_task (home_file h "service.xml"))
  started ← if created then try w run_task else return false
  ensure (created && started) "schtasks failed; inspect the task in Task Scheduler"

unfoldable pub uninstall_task : World → Shell (Unit {0})
uninstall_task w = do
  end_task w
  must w (command "schtasks" (codes "/change" ∷ codes "/tn" ∷ task_name ∷ codes "/disable" ∷ []))
      "schtasks failed; inspect the task in Task Scheduler"
