-- ===== src/F64.antt =====
-- Rust's f64 as far as the configuration uses it: a finite number is ± m · 2^(e - 1074), and
-- infinities and NaN are apart. Comparisons are exact.
use runnerctl.Common.{ℕ, ◌*◌, ◌^◌, Bool, true, false, not, ◌&&◌, ◌||◌, leb, ◌==◌}

pub data F64 : Type 0 where
  nan : F64
  infinite : (negative : Bool) → F64
  finite : (negative : Bool) → (m e : ℕ) → F64

abbrev pub is_finite : F64 → Bool
is_finite nan = false
is_finite (infinite _) = false
is_finite (finite _ m e) = true

-- The f64 nearest to 0.01 is 5764607523034235 · 2^-59.
abbrev pub hundredth : ℕ
hundredth = 5764607523034235 * 2 ^ 1015

-- `x >= 0.01`
unfoldable pub at_least_hundredth : F64 → Bool
at_least_hundredth nan = false
at_least_hundredth (infinite negative) = not negative
at_least_hundredth (finite negative m e) = not negative && leb hundredth (m * 2 ^ e)

abbrev pub bool_eq : Bool → Bool → Bool
bool_eq true b = b
bool_eq false b = not b

-- `==`: NaN is equal to nothing, and the zeros are equal.
unfoldable pub f64_eq : F64 → F64 → Bool
f64_eq (infinite a) (infinite b) = bool_eq a b
f64_eq (finite a m e) (finite b n f) = (m * 2 ^ e == n * 2 ^ f) && (bool_eq a b || m == 0)
f64_eq _ _ = false
