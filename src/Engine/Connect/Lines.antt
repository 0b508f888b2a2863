-- ===== src/Engine/Connect/Lines.antt =====
-- The line in which `send` of src/manager.rs writes a request, and `read_request` reads it.
use runnerctl.Common.{
  ℕ, ◌+◌, ◌-◌, ◌≤◌, ◌<◌, ◌≡◌, refl, ◌⊎◌, Bool, true, false, ltb, not, List, [], ◌∷◌, ◌++◌, arith,
  all, ◌==◌, leb, length, Bool-cases, inl, inr,
}
use runnerctl.Result.{Result, err, message}
use runnerctl.Protocol.{Request}
use runnerctl.Engine.Connect.{limit, take, read_line, ends_with_newline, read_request}

-- The line, when the limit is not reached before its end.
whole_line :
    (n : ℕ) (json rest : List ℕ)
    → all (λ b. not (b == 10)) json ≡ true
    → length json < n
    → read_line (take n (json ++ 10 ∷ rest)) ≡ json ++ 10 ∷ []
whole_line n [] rest solid short = ground arith
whole_line n (b ∷ json) rest solid short = ground (arith, whole_line (n - 1) json rest)

-- What is left of a line that is longer.
cut_line :
    (n : ℕ) (json rest : List ℕ)
    → all (λ b. not (b == 10)) json ≡ true
    → n ≤ length json
    → length (read_line (take n (json ++ 10 ∷ rest))) ≡ n
cut_line n [] rest solid long = ground arith
cut_line n (b ∷ json) rest solid long = ground (arith, cut_line (n - 1) json rest)

length-line : (json : List ℕ) → length (json ++ 10 ∷ []) ≡ length json + 1
length-line [] = refl
length-line (b ∷ json) = ground (arith, length-line json)

ends-line : (json : List ℕ) → ends_with_newline (json ++ 10 ∷ []) ≡ true
ends-line [] = refl
ends-line (b ∷ []) = refl
ends-line (b ∷ c ∷ json) = ends-line (c ∷ json)

-- A request written as JSON without line breaks, and a line break, is read for what it is when the
-- line is UTF-8 and has at most a mebibyte, whatever follows it. A longer one is refused without being
-- decoded: as too large, or as not UTF-8 where the limit cuts it inside a character.
pub read_request-line :
    (is_utf8 : List ℕ → Bool) (decode : List ℕ → Result Request) (json rest : List ℕ)
    → all (λ b. not (b == 10)) json ≡ true
    → is_utf8 (json ++ 10 ∷ []) ≡ true
    → ((length json < limit)
        × (read_request is_utf8 decode (json ++ 10 ∷ rest) ≡ decode (json ++ 10 ∷ [])))
      ⊎ ((limit ≤ length json)
          × ((read_request is_utf8 decode (json ++ 10 ∷ rest)
                ≡ err (message "request too large or incomplete"))
              ⊎ (read_request is_utf8 decode (json ++ 10 ∷ rest)
                  ≡ err (message "stream did not contain valid UTF-8"))))
unfolding read_request
read_request-line is_utf8 decode json rest solid encoded =
    elim (Bool-cases (ltb (length json) limit)) [
      | inl short ↦ inl (
        ground arith,
        ground (
          arith,
          whole_line (limit + 1) json rest,
          length-line json,
          ends-line json,
          encoded,
          short,
        ),
      )
      | inr long ↦ inr (
        ground arith,
        elim (Bool-cases (is_utf8 (read_line (take (limit + 1) (json ++ 10 ∷ rest))))) [
          | inl well ↦ inl (refused well (Bool-cases (leb (length json) limit)) (ground arith))
          | inr broken ↦ inr (ground (arith, broken))
        ],
      )
    ]
  where
    refused :
        is_utf8 (read_line (take (limit + 1) (json ++ 10 ∷ rest))) ≡ true
        → (leb (length json) limit ≡ true) ⊎ (leb (length json) limit ≡ false)
        → limit ≤ length json
        → read_request is_utf8 decode (json ++ 10 ∷ rest)
          ≡ err (message "request too large or incomplete")
    refused encoded (inl whole) long =
        ground (arith, whole_line (limit + 1) json rest, length-line json, encoded)
    refused encoded (inr cut) long = ground (arith, cut_line (limit + 1) json rest, encoded)
