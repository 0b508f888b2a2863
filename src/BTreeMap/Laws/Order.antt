-- ===== src/BTreeMap/Laws/Order.antt =====
-- Rust's order on `str` is a strict order, and updates keep a map's keys ascending in it, so that
-- no key is there twice.
use Prim.Native.Nat.{Ordering, compare as compare_ℕ}
use Prim.Native.Char.{Char, code}
use Prim.Native.String.{compare, then as then_by}
use Prim.Native.String.compare as cmp
use text.Mathlib.TextEquality.{path_by_compare}
use text.Mathlib.TextPositions.{compare_refl}
use runnerctl.Common.{ℕ, String, ◌≡◌, refl, sym, ◌∙◌, none, [], ◌∷◌, arith}
use runnerctl.BTreeMap.{BTreeMap, lookup, insert, remove, modify, map_values}

nil-cons : (d : Char) (t : String) → compare String.[] (String.◌∷◌ d t) ≡ Ordering.lt
nil-cons d t = λ i. cmp.nil-cons d t i

cons-nil : (c : Char) (s : String) → compare (String.◌∷◌ c s) String.[] ≡ Ordering.gt
cons-nil c s = λ i. cmp.cons-nil c s i

-- The comparison of the rests counts where the first characters are equal.
cons-cons :
    (c d : Char) (s t : String)
    → compare (String.◌∷◌ c s) (String.◌∷◌ d t)
      ≡ then_by (compare_ℕ (code c) (code d)) (compare s t)
cons-cons c d s t = λ i. cmp.cons-cons c d s t i

abbrev pub Less : String → String → Type 0
Less s t = compare s t ≡ Ordering.lt

-- Of the heads by their numbers, of the rests by a law of the rest.
then_by-flip :
    (a b : ℕ) (o p : Ordering)
    → (o ≡ Ordering.gt → p ≡ Ordering.lt)
    → then_by (compare_ℕ a b) o ≡ Ordering.gt
    → then_by (compare_ℕ b a) p ≡ Ordering.lt
then_by-flip a b o p f h = ground arith

then_by_trans :
    (a b c : ℕ) (o p q : Ordering)
    → (o ≡ Ordering.lt → p ≡ Ordering.lt → q ≡ Ordering.lt)
    → then_by (compare_ℕ a b) o ≡ Ordering.lt
    → then_by (compare_ℕ b c) p ≡ Ordering.lt
    → then_by (compare_ℕ a c) q ≡ Ordering.lt
then_by_trans a b c o p q f h k = ground arith

pub compare_flip : (s t : String) → compare s t ≡ Ordering.gt → Less t s
compare_flip String.[] String.[] h = cc h
compare_flip String.[] (String.◌∷◌ d t) h = cc (h, nil-cons d t)
compare_flip (String.◌∷◌ c s) String.[] h = nil-cons c s
compare_flip (String.◌∷◌ c s) (String.◌∷◌ d t) h =
    cons-cons d c t s
    ∙ then_by-flip (code c) (code d) (compare s t) (compare t s) (compare_flip s t)
        (sym (cons-cons c d s t) ∙ h)

not-Less-nil : (s : String) → ¬ Less s String.[]
not-Less-nil String.[] h = cc h
not-Less-nil (String.◌∷◌ c s) h = cc (h, cons-nil c s)

pub Less-trans : (s t u : String) → Less s t → Less t u → Less s u
Less-trans s t String.[] h k = absurd (not-Less-nil t k)
Less-trans s String.[] (String.◌∷◌ e u) h k = absurd (not-Less-nil s h)
Less-trans String.[] (String.◌∷◌ d t) (String.◌∷◌ e u) h k = nil-cons e u
Less-trans (String.◌∷◌ c s) (String.◌∷◌ d t) (String.◌∷◌ e u) h k =
    cons-cons c e s u
    ∙ then_by_trans (code c) (code d) (code e) (compare s t) (compare t u) (compare s u)
        (Less-trans s t u) (sym (cons-cons c d s t) ∙ h) (sym (cons-cons d e t u) ∙ k)

pub Less-irrefl : (s : String) → ¬ Less s s
Less-irrefl s h = cc (h, compare_refl s)

module _ {ℓ} {V : Type ℓ} where
  -- Every key of the map is greater.
  abbrev pub Below : String → BTreeMap V → Type 0
  Below k [] = Unit
  Below k ((j, _) ∷ m) = Less k j × Below k m

  abbrev pub IsSorted : BTreeMap V → Type 0
  IsSorted [] = Unit
  IsSorted ((k, _) ∷ m) = Below k m × IsSorted m

  Below-trans : (i k : String) (m : BTreeMap V) → Less i k → Below k m → Below i m
  Below-trans i k [] h b = tt
  Below-trans i k ((j, _) ∷ m) h b = (Less-trans i k j h b.0, Below-trans i k m h b.1)

  pub lookup_of_Below : (k : String) (m : BTreeMap V) → Below k m → lookup k m ≡ none
  lookup_of_Below k [] b = refl
  lookup_of_Below k ((j, _) ∷ m) b = ground (arith, lookup_of_Below k m b.1)

  Below-insert :
      (i k : String) (v : V) (m : BTreeMap V) → Less i k → Below i m → Below i (insert k v m)
  Below-insert i k v [] h b = (h, tt)
  Below-insert i k v ((j, w) ∷ m) h b = ground (arith, Below-insert i k v m h b.1)

  -- An insertion keeps the keys ascending.
  pub insert-IsSorted : (k : String) (v : V) (m : BTreeMap V) → IsSorted m → IsSorted (insert k v m)
  insert-IsSorted k v [] s = (tt, tt)
  insert-IsSorted k v ((j, w) ∷ m) s = ground (
    arith,
    path_by_compare k j,
    compare_flip k j,
    Below-trans k j m,
    Below-insert j k v m,
    insert-IsSorted k v m s.1,
  )

  Below-remove : (i k : String) (m : BTreeMap V) → Below i m → Below i (remove k m)
  Below-remove i k [] b = tt
  Below-remove i k ((j, w) ∷ m) b = ground (arith, Below-remove i k m b.1)

  pub remove-IsSorted : (k : String) (m : BTreeMap V) → IsSorted m → IsSorted (remove k m)
  remove-IsSorted k [] s = tt
  remove-IsSorted k ((j, w) ∷ m) s = ground (arith, Below-remove j k m s.0, remove-IsSorted k m s.1)

  Below-modify : (i k : String) (f : V → V) (m : BTreeMap V) → Below i m → Below i (modify k f m)
  Below-modify i k f [] b = tt
  Below-modify i k f ((j, w) ∷ m) b = ground (arith, Below-modify i k f m b.1)

  pub modify-IsSorted :
      (k : String) (f : V → V) (m : BTreeMap V) → IsSorted m → IsSorted (modify k f m)
  modify-IsSorted k f [] s = tt
  modify-IsSorted k f ((j, w) ∷ m) s =
      ground (arith, Below-modify j k f m s.0, modify-IsSorted k f m s.1)

  Below-map_values :
      (i : String) (f : V → V) (m : BTreeMap V) → Below i m → Below i (map_values f m)
  Below-map_values i f [] b = tt
  Below-map_values i f ((j, w) ∷ m) b = (b.0, Below-map_values i f m b.1)

  pub map_values-IsSorted : (f : V → V) (m : BTreeMap V) → IsSorted m → IsSorted (map_values f m)
  map_values-IsSorted f [] s = tt
  map_values-IsSorted f ((j, w) ∷ m) s = (Below-map_values j f m s.0, map_values-IsSorted f m s.1)

pub compare_gt_of_Less : (s t : String) → Less s t → compare t s ≡ Ordering.gt
compare_gt_of_Less s t h = by_cases (compare t s) refl
  where
    by_cases : (o : Ordering) → compare t s ≡ o → o ≡ Ordering.gt
    by_cases Ordering.lt e = absurd (Less-irrefl s (Less-trans s t s h e))
    by_cases Ordering.eq e = absurd (Less-irrefl s (cc (h, path_by_compare t s e)))
    by_cases Ordering.gt e = refl
