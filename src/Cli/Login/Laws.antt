-- ===== src/Cli/Login/Laws.antt =====
-- What `auth login` of src/main.rs has saved, and asks the manager for, when it gets that far.
use Prim.Native.String.{◌++◌}
use runnerctl.Common.{◌≤◌, String, ◌≡◌, Bool, true, false, none, ◌∷◌, any}
use runnerctl.Common.Text.{codes, byte_len, is_empty, is_whitespace, starts_with_char}
use runnerctl.Result.{ok}
use runnerctl.Config.Secrets
use runnerctl.Shell.{Text}
use runnerctl.Cli.{Terminal, Session, TokenSource}
use runnerctl.Cli.Files.{join, disk}

abbrev pub reads_token : TokenSource → Bool
reads_token (TokenSource.env _) = false
reads_token _ = true

-- What could be a token of GitHub, in a new file, from which the manager reads it.
abbrev pub Saved : Terminal → (profile : String) → Session → Session → String → Type 0
Saved t profile s s' reference =
    (path : String) × (token : Text) × (reference ≡ "file:" ++ path)
    × (s'.files ≡ (path, token) ∷ s.files)
    × (starts_with_char b'/' (codes path) ≡ true)
    × ((id : String) × (path ≡ join (join t.home "credentials") (profile ++ ("-" ++ id))))
    × (is_empty token ≡ false)
    × (byte_len token ≤ 16384)
    × (any is_whitespace token ≡ false)
    × (Secrets.credential (disk s'.files) (record { credential = reference; app = none })
        ≡ ok token)
