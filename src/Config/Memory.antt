-- ===== src/Config/Memory.antt =====
-- `memory_bytes` of src/config.rs: digits and a suffix b, k, m or g.
pub mod Laws
use runnerctl.Common.{
  ℕ, ◌+◌, ◌-◌, ◌*◌, ◌^◌, String, Bool, Option, none, some, List, [], ◌∷◌, map, ltb, leb, not, ◌&&◌,
  if◌then◌else◌,
}
use runnerctl.Common.Text.{codes, is_empty, is_ascii_digit, to_ascii_lowercase, codes_eq}
use runnerctl.Result.{Result, ok, err, message, ensure, context, ◌>>=◌, ◌>>◌}

abbrev pub u64_mod : ℕ
u64_mod = 2 ^ 64

-- `s.find(|c| !c.is_ascii_digit()).unwrap_or(s.len())`, and the two parts of `s` there
abbrev pub split_digits : List ℕ → List ℕ × List ℕ
split_digits [] = ([], [])
split_digits (c ∷ cs) =
    let rest = split_digits cs in if is_ascii_digit c then (c ∷ rest.0, rest.1) else ([], c ∷ cs)

abbrev pub digits_value : ℕ → List ℕ → ℕ
digits_value acc [] = acc
digits_value acc (c ∷ cs) = digits_value (acc * 10 + (c - b'0')) cs

-- `parse::<u64>()` of a text of digits
abbrev pub parse_u64 : List ℕ → Option ℕ
parse_u64 s =
    if not (is_empty s) && ltb (digits_value 0 s) u64_mod then some (digits_value 0 s) else none

abbrev pub multiplier : List ℕ → Option ℕ
multiplier s =
    let t = map to_ascii_lowercase s in
    if is_empty t
    then some 1
    else if codes_eq t (codes "b")
    then some 1
    else if codes_eq t (codes "k")
    then some 1024
    else if codes_eq t (codes "m")
    then some (1024 * 1024)
    else if codes_eq t (codes "g")
    then some (1024 * 1024 * 1024)
    else none

-- `checked_mul`
abbrev pub checked_mul : ℕ → ℕ → Option ℕ
checked_mul a b = if ltb (a * b) u64_mod then some (a * b) else none

unfoldable pub memory_bytes : List ℕ → Result ℕ
memory_bytes s =
    let parts = split_digits s in
    do
      value ← context (parse_u64 parts.0) "memory must be an integer with optional b/k/m/g suffix"
      m ← context (multiplier parts.1) "memory must use b/k/m/g suffix"
      bytes ← context (checked_mul value m) "memory limit too large"
      ensure (leb (6 * 1024 * 1024) bytes) "memory must be at least 6 MiB"
      ok bytes
