-- ===== src/Service/Systemd.antt =====
-- What systemd makes of a quoted word of a unit, and that it reads back what `quote` of
-- src/service.rs was given.
use runnerctl.Common.{
  ℕ, ◌≡◌, refl, ap, ◌∙◌, Bool, true, false, ◌||◌, [], ◌∷◌, ◌++◌, Option, none, some, any, arith,
  ◌==◌, append_assoc, if◌then◌else◌,
}
use runnerctl.Common.Text.{codes}
use runnerctl.Result.{ok}
use runnerctl.Shell.{Text}
use runnerctl.Service.{replace, escape_unit, quote_unit, breaks_line}

abbrev pub put : ℕ → Option (Text × Text) → Option (Text × Text)
put c none = none
put c (some (s, rest)) = some (c ∷ s, rest)

abbrev pub put_one : ℕ → Option Text → Option Text
put_one c none = none
put_one c (some s) = some (c ∷ s)

-- The word behind an opening quote, up to the closing one, with what follows. Behind a backslash
-- (`escaped`) only a backslash and a quote are known.
pub read_quoted : (escaped : Bool) → Text → Option (Text × Text)
read_quoted escaped [] = none
read_quoted true (c ∷ s) =
    let rest = read_quoted false s in if c == b'\\' || c == b'"' then put c rest else none
read_quoted false (c ∷ s) =
    let escape = read_quoted true s in
    let plain = put c (read_quoted false s) in
    if c == b'"' then some ([], s) else if c == b'\\' then escape else plain

-- A doubled sign stands for the sign; a single one would be expanded.
pub read_doubled : ℕ → (seen : Bool) → Text → Option Text
read_doubled sign true [] = none
read_doubled sign false [] = some []
read_doubled sign true (c ∷ s) =
    let rest = put_one c (read_doubled sign false s) in if c == sign then rest else none
read_doubled sign false (c ∷ s) =
    let twin = read_doubled sign true s in
    let plain = put_one c (read_doubled sign false s) in if c == sign then twin else plain

-- A word ends at white space and at the end of the text; anything else goes on with it.
abbrev pub ends_word : Text → Bool
ends_word [] = true
ends_word (c ∷ s) = c == b' ' || c == 9 || c == 10 || c == 13

-- systemd takes the quotes and the backslashes off, then expands `%`, and in an argument also `$`.
abbrev pub specifiers : Option (Text × Text) → Option (Text × Text)
specifiers none = none
specifiers (some (s, rest)) = elim (read_doubled b'%' false s) [
  | none ↦ none
  | some t ↦ if ends_word rest then some (t, rest) else none
]

abbrev pub variables : Option (Text × Text) → Option (Text × Text)
variables none = none
variables (some (t, rest)) = elim (read_doubled b'$' false t) [
  | none ↦ none
  | some u ↦ some (u, rest)
]

-- The program, the first word of a command line.
unfoldable pub read_program : Text → Option (Text × Text)
unfolding read_quoted read_doubled
read_program [] = none
read_program (c ∷ s) = if c == b'"' then specifiers (read_quoted false s) else none

-- A later word, in which variables are expanded.
unfoldable pub read_word : Text → Option (Text × Text)
unfolding read_program
read_word s = variables (read_program s)

-- The signs that the last two replacements double.
abbrev double : Text → Text
double s = replace b'$' (codes "$$") (replace b'%' (codes "%%") s)

read_quoted-escape :
    (s rest : Text) → read_quoted false (escape_unit s ++ b'"' ∷ rest) ≡ some (double s, rest)
unfolding escape_unit replace read_quoted
read_quoted-escape [] rest = refl
read_quoted-escape (c ∷ s) rest = ground (arith, read_quoted-escape s rest)

read_percent : (s : Text) → read_doubled b'%' false (double s) ≡ some (replace b'$' (codes "$$") s)
unfolding replace read_doubled
read_percent [] = refl
read_percent (c ∷ s) = ground (arith, read_percent s)

read_dollar : (s : Text) → read_doubled b'$' false (replace b'$' (codes "$$") s) ≡ some s
unfolding replace read_doubled
read_dollar [] = refl
read_dollar (c ∷ s) = ground (arith, read_dollar s)

escape_lines : (s : Text) → any breaks_line s ≡ false → any breaks_line (escape_unit s) ≡ false
unfolding escape_unit replace
escape_lines [] h = refl
escape_lines (c ∷ s) h = ground (arith, escape_lines s)

any-append : (p : ℕ → Bool) (s t : Text) → any p (s ++ t) ≡ (any p s || any p t)
any-append p [] t = refl
any-append p (c ∷ s) t = ground (arith, any-append p s t)

read_specifiers :
    (s rest : Text)
    → ends_word rest ≡ true
    → specifiers (some (double s, rest)) ≡ some (replace b'$' (codes "$$") s, rest)
read_specifiers s rest ends = ground (arith, read_percent s, ends)

read_variables :
    (s rest : Text) → variables (some (replace b'$' (codes "$$") s, rest)) ≡ some (s, rest)
read_variables s rest = ground (arith, read_dollar s)

undoubled : (s : Text) → any (λ c. c == b'$') s ≡ false → replace b'$' (codes "$$") s ≡ s
unfolding replace
undoubled [] h = refl
undoubled (c ∷ s) h = ground (arith, undoubled s)

-- A path without a line break, a zero and a dollar sign is quoted, and systemd reads the quoted word
-- as the program of that path.
pub read_program-quote_unit :
    (s rest : Text)
    → any breaks_line s ≡ false
    → any (λ c. c == b'$') s ≡ false
    → ends_word rest ≡ true
    → (q : Text) × (quote_unit s ≡ ok q) × (read_program (q ++ rest) ≡ some (s, rest))
unfolding read_program quote_unit
read_program-quote_unit s rest h no_dollar ends =
    let read : read_quoted false ((escape_unit s ++ b'"' ∷ []) ++ rest) ≡ some (double s, rest) =
      rw (append_assoc (escape_unit s) (b'"' ∷ []) rest) (read_quoted-escape s rest) in
    (
      b'"' ∷ (escape_unit s ++ b'"' ∷ []),
      rw h,
      rw read (read_specifiers s rest ends ∙ ap (λ t. some (t, rest)) (undoubled s no_dollar)),
    )

-- A path without a line break or a zero is quoted, the quoted word stays on one line, and systemd
-- reads it back as it was, whatever else it holds, as an argument before white space or the end.
pub read_word-quote_unit :
    (s rest : Text)
    → any breaks_line s ≡ false
    → ends_word rest ≡ true
    → (q : Text) × (quote_unit s ≡ ok q)
      × (any breaks_line q ≡ false)
      × (read_word (q ++ rest) ≡ some (s, rest))
unfolding read_word read_program quote_unit
read_word-quote_unit s rest h ends =
    let read : read_quoted false ((escape_unit s ++ b'"' ∷ []) ++ rest) ≡ some (double s, rest) =
      rw (append_assoc (escape_unit s) (b'"' ∷ []) rest) (read_quoted-escape s rest) in
    (
      b'"' ∷ (escape_unit s ++ b'"' ∷ []),
      rw h,
      rw (any-append breaks_line (escape_unit s) (b'"' ∷ []), escape_lines s h),
      rw read (ap variables (read_specifiers s rest ends) ∙ read_variables s rest),
    )
