-- ===== src/Service.antt =====
-- The quoting of paths in src/service.rs, for the three places that paths are written to: a systemd
-- unit, a launchd property list, and the XML of a scheduled task.
pub mod Systemd
pub mod Launchd
pub mod Task
pub mod Install
use runnerctl.Common.{
  ℕ, zero, suc, ◌-◌, ◌+◌, ◌<◌, Bool, true, false, not, ◌&&◌, ◌||◌, List, [], ◌∷◌, ◌++◌, any, length,
  ltb, leb, ◌==◌, if◌then◌else◌,
}
use runnerctl.Common.Text.{codes}
use runnerctl.Result.{Result, ok, err, message, ensure, ◌>>=◌, ◌>>◌}
use runnerctl.Shell.{Text}

-- `str::replace` of a character by a text
unfoldable pub replace : ℕ → Text → Text → Text
replace c by [] = []
replace c by (d ∷ ds) = (if c == d then by else d ∷ []) ++ replace c by ds

-- `contains(['\n', '\r', '\0'])`
abbrev pub breaks_line : ℕ → Bool
breaks_line c = c == 10 || c == 13 || c == 0

-- The replacements of `quote`, in their order.
unfoldable pub escape_unit : Text → Text
unfolding replace
escape_unit s =
    replace b'$' (codes "$$")
      (replace b'%' (codes "%%") (replace b'"' (codes "\\\"") (replace b'\\' (codes "\\\\") s)))

-- `quote` of systemd
unfoldable pub quote_unit : Text → Result Text
quote_unit value = do
  ensure (not (any breaks_line value)) "invalid systemd path"
  ok (b'"' ∷ (escape_unit value ++ b'"' ∷ []))

-- `char::is_control`
abbrev pub is_control : ℕ → Bool
is_control c = ltb c 0x20 || (leb 0x7f c && leb c 0x9f)

-- The replacements of both `escape`s, in their order.
unfoldable pub escape_xml : Text → Text
unfolding replace
escape_xml s =
    replace b'>' (codes "&gt;") (replace b'<' (codes "&lt;") (replace b'&' (codes "&amp;") s))

-- `escape` of launchd
unfoldable pub escape_plist : Text → Result Text
escape_plist value = do
  ensure (not (any is_control value)) "invalid launchd value"
  ok (escape_xml value)

-- `contains(['"', '%', '\0', '\n', '\r'])`
abbrev pub breaks_argument : ℕ → Bool
breaks_argument c = c == b'"' || c == b'%' || c == 0 || c == 10 || c == 13

-- `value.len() - value.trim_end_matches('\\').len()`: `n` backslashes stand before the rest.
abbrev pub trailing_from : ℕ → Text → ℕ
trailing_from n [] = n
trailing_from n (c ∷ cs) = trailing_from (if c == b'\\' then suc n else 0) cs

-- `str::repeat`
abbrev pub repeat : ℕ → ℕ → Text
repeat zero c = []
repeat (suc n) c = c ∷ repeat n c

-- `quote` of the scheduled task
unfoldable pub quote_argument : Text → Result Text
quote_argument value = do
  ensure (not (any breaks_argument value)) "invalid Task Scheduler path"
  ok (b'"' ∷ (value ++ (repeat (trailing_from 0 value) b'\\' ++ b'"' ∷ [])))
