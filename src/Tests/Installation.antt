-- ===== src/Tests/Installation.antt =====
-- The theorems on the installers, on paths with the signs that need quoting.
use runnerctl.Common.{
  ◌≡◌, refl, true, false, none, some, List, [], ◌∷◌, ◌++◌, any, str_eq, if◌then◌else◌,
}
use runnerctl.Common.Text.{codes}
use runnerctl.Result.{ok}
use runnerctl.Shell.{Text, Action, create_directory, write_file, World}
use runnerctl.Service.{quote_unit, quote_argument, escape_plist, breaks_line}
use runnerctl.Service.Systemd.{read_word, read_word-quote_unit}
use runnerctl.Service.Launchd.{read_text, read_text-escape_plist}
use runnerctl.Service.Task.{read_argument, read_argument-quote_argument}
use runnerctl.Service.Install.{Host}
use runnerctl.Service.Install.Unit.{unit_head, enable_now, daemon_reload, exec_start}

abbrev odd_path : Text
odd_path = codes "/opt/100% \\\"$HOME\\\""

read_word-quote_unit_example :
    (q : Text) × (quote_unit odd_path ≡ ok q)
    × (any breaks_line q ≡ false)
    × (read_word (q ++ codes " manager") ≡ some (odd_path, codes " manager"))
read_word-quote_unit_example = read_word-quote_unit odd_path (codes " manager") refl refl

read_argument-quote_argument_example :
    (q : Text) × (quote_argument (codes "C:\\") ≡ ok (b'"' ∷ q))
    × (read_argument 0 (q ++ codes " service run") ≡ some (codes "C:\\", codes " service run"))
read_argument-quote_argument_example =
    read_argument-quote_argument (codes "C:\\") (codes " service run") refl refl

read_text-escape_plist_example :
    (q : Text) × (escape_plist (codes "a<b&c") ≡ ok q)
    × (read_text none (q ++ b'<' ∷ codes "/string>")
        ≡ some (codes "a<b&c", b'<' ∷ codes "/string>"))
read_text-escape_plist_example = read_text-escape_plist (codes "a<b&c") (codes "/string>") refl refl

abbrev host : Host
host = record {
  var = λ name. if str_eq name "HOME" then some (codes "/home/ann") else none;
  current_exe = ok (codes "/usr/bin/runnerctl");
  home = codes "/home/ann/100%";
  uid = codes "1000";
  wsl_interop = false;
}

-- Every action succeeds.
abbrev world : World
world before action = true

abbrev installed : List Action
installed =
    enable_now
    ∷ daemon_reload
    ∷ write_file (codes "/home/ann/.config/systemd/user/runnerctl.service")
        (unit_head ++ exec_start (codes "\"/usr/bin/runnerctl\"") (codes "\"/home/ann/100%%\""))
    ∷ create_directory (codes "/home/ann/.config/systemd/user")
    ∷ []
