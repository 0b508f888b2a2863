-- ===== src/Config/Secrets/Laws.antt =====
-- Which secrets src/config.rs accepts, and that it reads them unchanged.
use Prim.Native.String.{◌++◌}
use runnerctl.Common.{
  ℕ, ◌-◌, ◌≤◌, String, ◌≡◌, refl, true, false, none, some, List, [], ◌∷◌, arith, any,
}
use runnerctl.Common.Text.{
  codes, byte_len, len_utf8, is_empty, is_whitespace, trim, trim_end, take_bytes, codes-append,
  strip_prefix-append,
}
use runnerctl.Result.{ok}
use runnerctl.Config.Secrets.{Surroundings, open_private, secret, credential}

take_bytes-whole : (n : ℕ) (s : List ℕ) → byte_len s ≤ n → take_bytes n s ≡ some s
take_bytes-whole n [] h = refl
take_bytes-whole n (c ∷ s) h = ground (arith, take_bytes-whole (n - len_utf8 c) s)

trim_end-solid : (s : List ℕ) → any is_whitespace s ≡ false → trim_end s ≡ s
trim_end-solid [] h = refl
trim_end-solid (c ∷ s) h = ground (arith, trim_end-solid s)

trim-solid : (s : List ℕ) → any is_whitespace s ≡ false → trim s ≡ s
trim-solid [] h = refl
trim-solid (c ∷ s) h = ground (arith, trim_end-solid (c ∷ s) h)

-- A token alone in a file that only its owner can use, or in a variable, is read as it is.
pub credential_of_file :
    (h : Surroundings) (path : String) (token : List ℕ)
    → h.opened (codes path) ≡ some (record { is_file = true; mode = 0x180; text = some token })
    → is_empty token ≡ false
    → byte_len token ≤ 16384
    → any is_whitespace token ≡ false
    → credential h (record { credential = "file:" ++ path; app = none }) ≡ ok token
unfolding credential secret open_private
credential_of_file h path token here whole short solid = ground (
  arith,
  here,
  codes-append "file:" path,
  strip_prefix-append (codes "file:") (codes path),
  take_bytes-whole 16385 token (omega (arith, short)),
  trim-solid token solid,
)
