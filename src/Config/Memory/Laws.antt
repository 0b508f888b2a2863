-- ===== src/Config/Memory/Laws.antt =====
-- What a memory limit that `memory_bytes` of src/config.rs accepts is.
use runnerctl.Common.{
  ℕ, ◌*◌, ◌^◌, ◌≤◌, ◌<◌, ◌+◌, ◌≡◌, ◌⊎◌, ap, refl, Bool-cases, leb, ◌&&◌, ◌==◌, true, some, List, [],
  ◌∷◌, ◌++◌, arith, all, Option-cases, inl, inr,
}
use runnerctl.Common.Text.{codes, to_ascii_lowercase, is_ascii_digit}
use runnerctl.Result.{ok}
use runnerctl.Config.Memory.{split_digits, digits_value, multiplier, memory_bytes}

split_digits_lem :
    (s : List ℕ)
    → (s ≡ (split_digits s).0 ++ (split_digits s).1)
      × (all is_ascii_digit (split_digits s).0 ≡ true)
split_digits_lem [] = (refl, refl)
split_digits_lem (c ∷ cs) = ground (arith, split_digits_lem cs)

-- The units, in bytes.
abbrev pub IsUnit : List ℕ → ℕ → Type 0
IsUnit suffix unit =
    (((suffix ≡ []) ⊎ (suffix ≡ codes "b") ⊎ (suffix ≡ codes "B")) × (unit ≡ 1))
    ⊎ (((suffix ≡ codes "k") ⊎ (suffix ≡ codes "K")) × (unit ≡ 1024))
    ⊎ (((suffix ≡ codes "m") ⊎ (suffix ≡ codes "M")) × (unit ≡ 1048576))
    ⊎ (((suffix ≡ codes "g") ⊎ (suffix ≡ codes "G")) × (unit ≡ 1073741824))

letter_cases :
    (c lower upper : ℕ)
    → upper + 32 ≡ lower
    → b'A' ≤ upper
    → upper ≤ b'Z'
    → to_ascii_lowercase c ≡ lower
    → ((c ∷ []) ≡ (lower ∷ [])) ⊎ ((c ∷ []) ≡ (upper ∷ []))
letter_cases c lower upper h a z same = elim (Bool-cases (leb b'A' c && leb c b'Z')) [
  | inl big ↦ inr (ap (λ x. x ∷ []) (ground arith))
  | inr small ↦ inl (ap (λ x. x ∷ []) (ground arith))
]

IsUnit-multiplier : (s : List ℕ) (unit : ℕ) → multiplier s ≡ some unit → IsUnit s unit
IsUnit-multiplier [] unit h = inl (inl refl, ground arith)
IsUnit-multiplier (c ∷ []) unit h =
    let t = to_ascii_lowercase c in
    elim (Bool-cases (t == b'b')) [
      | inl b ↦ inl (
        inr (letter_cases c b'b' b'B' (ground arith) (ground arith) (ground arith) (ground arith)),
        ground arith,
      )
      | inr not_b ↦ elim (Bool-cases (t == b'k')) [
        | inl k ↦ inr (
            inl (
              letter_cases c b'k' b'K' (ground arith) (ground arith) (ground arith) (ground arith),
              ground arith,
            ))
        | inr not_k ↦ elim (Bool-cases (t == b'm')) [
          | inl m ↦ inr (
              inr (
                inl (
                  letter_cases c b'm' b'M' (ground arith) (ground arith) (ground arith)
                      (ground arith),
                  ground arith,
                )))
          | inr not_m ↦ elim (Bool-cases (t == b'g')) [
            | inl g ↦ inr (
                inr (
                  inr (
                    letter_cases c b'g' b'G' (ground arith) (ground arith) (ground arith)
                        (ground arith),
                    ground arith,
                  )))
            | inr not_g ↦ absurd (ground arith)
          ]
        ]
      ]
    ]
IsUnit-multiplier (c ∷ d ∷ s) unit h = absurd (ground arith)

-- An accepted limit is digits and a unit, which is a byte (b, or none), a kibibyte (k), a mebibyte (m)
-- or a gibibyte (g), in capitals or not; the result is the decimal value of the digits times the
-- unit, at least 6 MiB, and fits 64 bits.
pub memory_bytes_sound :
    (s : List ℕ) (n : ℕ)
    → memory_bytes s ≡ ok n
    → (digits suffix : List ℕ) × (unit : ℕ) × (s ≡ digits ++ suffix)
      × (all is_ascii_digit digits ≡ true)
      × IsUnit suffix unit
      × (n ≡ digits_value 0 digits * unit)
      × (6 * 1024 * 1024 ≤ n)
      × (n < 2 ^ 64)
unfolding memory_bytes
memory_bytes_sound s n h =
    let (parts, digits) = split_digits_lem s in
    elim (Option-cases (multiplier (split_digits s).1)) [
      | inl none_here ↦ absurd (ground arith)
      | inr (unit, found) ↦ (
        (split_digits s).0,
        (split_digits s).1,
        unit,
        parts,
        digits,
        IsUnit-multiplier (split_digits s).1 unit found,
        ground arith,
        ground arith,
        ground arith,
      )
    ]
