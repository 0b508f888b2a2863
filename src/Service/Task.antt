-- ===== src/Service/Task.antt =====
-- How a Windows program reads a quoted argument, and that it reads back what `quote` of
-- src/service.rs was given.
use runnerctl.Common.{
  ℕ, zero, suc, ◌+◌, Bool, true, ◌||◌, ◌/◌, ◌%◌, ◌≡◌, refl, ◌∙◌, ap, false, [], ◌∷◌, ◌++◌, Option,
  none, some, any, arith, ◌==◌, if◌then◌else◌, append_assoc, append-nil,
}
use runnerctl.Result.{ok}
use runnerctl.Shell.{Text}
use runnerctl.Service.{quote_argument, trailing_from, repeat, breaks_argument}

abbrev pub put_all : Text → Option (Text × Text) → Option (Text × Text)
put_all s none = none
put_all s (some (t, rest)) = some (s ++ t, rest)

-- The argument behind an opening quote, by the rules of `CommandLineToArgvW`: `n` backslashes stand
-- before the text. Backslashes before a quote stand for half as many, and an odd one keeps the quote;
-- all others stand for themselves. An argument goes on behind a closing quote unless a blank or the end
-- follows, which is not read here.
abbrev pub ends_argument : Text → Bool
ends_argument [] = true
ends_argument (c ∷ s) = c == b' ' || c == 9

unfoldable pub read_argument : ℕ → Text → Option (Text × Text)
read_argument n [] = none
read_argument n (c ∷ s) =
    let more = read_argument (suc n) s in
    let kept = put_all (repeat (n / 2) b'\\' ++ b'"' ∷ []) (read_argument 0 s) in
    let plain = put_all (repeat n b'\\' ++ c ∷ []) (read_argument 0 s) in
    if c == b'\\'
    then more
    else if c == b'"'
    then (if n % 2 == 0
        then if ends_argument s then some (repeat (n / 2) b'\\', s) else none
        else kept)
    else plain

read_backslashes :
    (k n : ℕ) (s : Text) → read_argument n (repeat k b'\\' ++ s) ≡ read_argument (k + n) s
unfolding read_argument
read_backslashes zero n s = ground arith
read_backslashes (suc k) n s =
    read_backslashes k (suc n) s ∙ ap (λ m. read_argument m s) (omega arith)

repeat_shift : (n c : ℕ) (s : Text) → repeat n c ++ c ∷ s ≡ repeat (suc n) c ++ s
repeat_shift zero c s = refl
repeat_shift (suc n) c s = ap (λ t. c ∷ t) (repeat_shift n c s)

read_trailing :
    (s rest : Text) (n : ℕ)
    → any breaks_argument s ≡ false
    → ends_argument rest ≡ true
    → read_argument n (s ++ (repeat (trailing_from n s) b'\\' ++ b'"' ∷ rest))
      ≡ some (repeat n b'\\' ++ s, rest)
unfolding read_argument
read_trailing [] rest n h ends =
    rw (read_backslashes n n (b'"' ∷ rest)) (ground (arith, append-nil (repeat n b'\\')))
read_trailing (c ∷ s) rest n h ends = ground (
  arith,
  read_trailing s rest (suc n),
  read_trailing s rest 0,
  repeat_shift n c s,
  append_assoc (repeat n b'\\') (c ∷ []) s,
)

-- A path without quotes, percent signs and line breaks is quoted, and a Windows program reads the
-- quoted argument back as it was, also when the path ends in backslashes, before a blank or the end.
pub read_argument-quote_argument :
    (s rest : Text)
    → any breaks_argument s ≡ false
    → ends_argument rest ≡ true
    → (q : Text) × (quote_argument s ≡ ok (b'"' ∷ q))
      × (read_argument 0 (q ++ rest) ≡ some (s, rest))
unfolding quote_argument
read_argument-quote_argument s rest h ends =
    let tail = repeat (trailing_from 0 s) b'\\' in
    (
      s ++ (tail ++ b'"' ∷ []),
      rw h,
      rw (append_assoc s (tail ++ b'"' ∷ []) rest, append_assoc tail (b'"' ∷ []) rest)
          (read_trailing s rest 0 h ends),
    )
