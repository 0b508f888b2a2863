-- ===== src/Docker/Commands/Laws.antt =====
-- How the ids that `docker ps` prints are read.
use runnerctl.Common.{ℕ, ◌≡◌, refl, false, List, [], ◌∷◌, ◌++◌, arith, append-nil, any}
use runnerctl.Common.Text.{is_empty, is_whitespace}
use runnerctl.Docker.Commands.{words_from, split_whitespace}

-- A line for each word.
abbrev pub lines : List (List ℕ) → List ℕ
lines [] = []
lines (word ∷ words) = word ++ 10 ∷ lines words

-- Words with no space in them, and none empty.
abbrev pub AreWords : List (List ℕ) → Type 0
AreWords [] = Unit
AreWords (word ∷ words) =
    (is_empty word ≡ false) × (any is_whitespace word ≡ false) × AreWords words

words_from-append :
    (word s : List ℕ)
    → any is_whitespace word ≡ false
    → words_from (word ++ s) ≡ ((words_from s).0, word ++ (words_from s).1)
words_from-append [] s h = refl
words_from-append (c ∷ word) s h = ground (arith, words_from-append word s)

-- The words of lines are the words that were printed.
split_whitespace-lines :
    (words : List (List ℕ)) → AreWords words → split_whitespace (lines words) ≡ words
unfolding split_whitespace
split_whitespace-lines [] h = refl
split_whitespace-lines ([] ∷ words) h = absurd (ground arith)
split_whitespace-lines ((c ∷ word) ∷ words) h = ground (
  arith,
  words_from-append (c ∷ word) (10 ∷ lines words) h.1,
  append-nil (c ∷ word),
  split_whitespace-lines words h.2,
)
