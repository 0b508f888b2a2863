-- ===== src/Common/Text.antt =====
-- Rust's `str`: whole texts are the native `String`; where the source walks bytes or characters
-- they are the text's code points.
use Prim.Native.Char.{code}
use Prim.Native.Nat.{ℕ, ◌+◌, ◌-◌}
use Prim.Native.String
use Prim.Native.String.{String}
use text.Mathlib.TextLemmas.{nil-append, cons-append}
use mathlib.Core.Path.{◌≡◌, refl, ap, ◌∙◌}
use mathlib.Core.Bool.{Bool, true, false, ◌&&◌, ◌||◌}
use mathlib.Core.List.{List, [], ◌∷◌, ◌++◌}
use mathlib.Core.Option.{Option, none, some}
use mathlib.Core.Option
use native.Mathlib.Omega.{arith}
use runnerctl.Common.Tests.{ltb, leb, ◌==◌, if◌then◌else◌}
use runnerctl.Common.Lists.{any, all, length}

-- `chars()`
abbrev pub codes : String → List ℕ
codes String.[] = []
codes (String.◌∷◌ c s) = code c ∷ codes s

-- The bytes that UTF-8 takes for one character.
abbrev pub len_utf8 : ℕ → ℕ
len_utf8 c = if ltb c 0x80 then 1 else if ltb c 0x800 then 2 else if ltb c 0x1_0000 then 3 else 4

-- `str::len`
abbrev pub byte_len : List ℕ → ℕ
byte_len [] = 0
byte_len (c ∷ cs) = len_utf8 c + byte_len cs

-- `&s[..n]`, which panics past the end and inside a character.
abbrev pub slice_to : ℕ → String → Option String
slice_to n String.[] = if n == 0 then some "" else none
slice_to n (String.◌∷◌ c s) =
    let rest = Option.map (String.◌∷◌ c) (slice_to (n - len_utf8 (code c)) s) in
    if n == 0 then some "" else if ltb n (len_utf8 (code c)) then none else rest

abbrev pub is_sliceable : ℕ → String → Bool
is_sliceable n s = elim (slice_to n s) [ none ↦ false | some _ ↦ true ]

-- `str::is_empty`
abbrev pub is_empty : List ℕ → Bool
is_empty [] = true
is_empty (_ ∷ _) = false

abbrev pub is_ascii_digit : ℕ → Bool
is_ascii_digit c = leb b'0' c && leb c b'9'

abbrev pub is_ascii_alphabetic : ℕ → Bool
is_ascii_alphabetic c = (leb b'a' c && leb c b'z') || (leb b'A' c && leb c b'Z')

abbrev pub is_ascii_alphanumeric : ℕ → Bool
is_ascii_alphanumeric c = is_ascii_digit c || is_ascii_alphabetic c

abbrev pub to_ascii_lowercase : ℕ → ℕ
to_ascii_lowercase c = if leb b'A' c && leb c b'Z' then c + 32 else c

-- `char::is_whitespace`: the code points with the property White_Space.
abbrev pub is_whitespace : ℕ → Bool
is_whitespace c =
    (leb 9 c && leb c 13)
    || c == 0x20
    || c == 0x85
    || c == 0xa0
    || c == 0x1680
    || (leb 0x2000 c && leb c 0x200a)
    || c == 0x2028
    || c == 0x2029
    || c == 0x202f
    || c == 0x205f
    || c == 0x3000

-- `str::starts_with` on a character
abbrev pub starts_with_char : ℕ → List ℕ → Bool
starts_with_char c [] = false
starts_with_char c (d ∷ ds) = c == d

-- `str::contains` on a character
abbrev pub contains_char : ℕ → List ℕ → Bool
contains_char c = any (λ d. c == d)

-- `strip_prefix`
abbrev pub strip_prefix : List ℕ → List ℕ → Option (List ℕ)
strip_prefix [] s = some s
strip_prefix (p ∷ ps) [] = none
strip_prefix (p ∷ ps) (c ∷ cs) = if p == c then strip_prefix ps cs else none

-- `str::starts_with` on a text
abbrev pub starts_with : List ℕ → List ℕ → Bool
starts_with s p = elim (strip_prefix p s) [ none ↦ false | some _ ↦ true ]

-- Equality of code points.
abbrev pub codes_eq : List ℕ → List ℕ → Bool
codes_eq [] [] = true
codes_eq (a ∷ s) (b ∷ t) = a == b && codes_eq s t
codes_eq _ _ = false

-- `str::ends_with` on a text: some suffix is the text.
abbrev pub ends_with : List ℕ → List ℕ → Bool
ends_with [] p = codes_eq [] p
ends_with (c ∷ cs) p = codes_eq (c ∷ cs) p || ends_with cs p

-- `trim().is_empty()`
abbrev pub is_blank : List ℕ → Bool
is_blank = all is_whitespace

-- `rsplit(c).next()`: what stands behind the last `c`, or all.
abbrev pub after_last_from : ℕ → List ℕ → List ℕ → List ℕ
after_last_from c best [] = best
after_last_from c best (d ∷ ds) = after_last_from c (if c == d then ds else best) ds

abbrev pub after_last : ℕ → List ℕ → List ℕ
after_last c s = after_last_from c s s

-- `split_once(c)`
abbrev pub split_once : ℕ → List ℕ → Option (List ℕ × List ℕ)
split_once c [] = none
split_once c (d ∷ ds) =
    if c == d
    then some ([], ds)
    else elim (split_once c ds) [ none ↦ none | some p ↦ some (d ∷ p.0, p.1) ]

-- `split(c)` on the code points
abbrev pub split : ℕ → List ℕ → List (List ℕ)
split c [] = [] ∷ []
split c (d ∷ ds) =
    let rest = split c ds in
    if c == d
    then [] ∷ rest
    else elim rest [ [] ↦ (d ∷ []) ∷ [] | first ∷ others ↦ (d ∷ first) ∷ others ]

pub codes_eq_iff : (s t : List ℕ) → codes_eq s t ≡ true → s ≡ t
codes_eq_iff [] [] h = refl
codes_eq_iff [] (b ∷ t) h = ground arith
codes_eq_iff (a ∷ s) [] h = ground arith
codes_eq_iff (a ∷ s) (b ∷ t) h = ground (arith, codes_eq_iff s t)

-- Text of ASCII alone has one byte to a character.
pub byte_len-eq-length : (s : List ℕ) → all (λ c. ltb c 0x80) s ≡ true → byte_len s ≡ length s
byte_len-eq-length [] h = refl
byte_len-eq-length (c ∷ s) h = ground (arith, byte_len-eq-length s)

-- `trim_start`, `trim_end`, `trim`
abbrev pub trim_start : List ℕ → List ℕ
trim_start [] = []
trim_start (c ∷ cs) = let rest = trim_start cs in if is_whitespace c then rest else c ∷ cs

abbrev pub trim_end : List ℕ → List ℕ
trim_end [] = []
trim_end (c ∷ cs) =
    let rest = trim_end cs in if is_whitespace c && is_empty rest then [] else c ∷ rest

abbrev pub trim : List ℕ → List ℕ
trim s = trim_end (trim_start s)

-- `take(limit).read_to_string(…)`: none when the limit cuts a character.
abbrev pub take_bytes : ℕ → List ℕ → Option (List ℕ)
take_bytes n [] = some []
take_bytes n (c ∷ cs) =
    let rest = take_bytes (n - len_utf8 c) cs in
    if n == 0
    then some []
    else if ltb n (len_utf8 c)
    then none
    else elim rest [ none ↦ none | some s ↦ some (c ∷ s) ]

pub strip_prefix-append : (s t : List ℕ) → strip_prefix s (s ++ t) ≡ some t
strip_prefix-append [] t = refl
strip_prefix-append (c ∷ s) t = ground (arith, strip_prefix-append s t)

pub codes-append : (s t : String) → codes (String.◌++◌ s t) ≡ codes s ++ codes t
codes-append String.[] t = ap codes (nil-append t)
codes-append (String.◌∷◌ c s) t =
    ap codes (cons-append c s t) ∙ ap (λ l. code c ∷ l) (codes-append s t)
