-- ===== src/BTreeMap/Laws.antt =====
-- The laws of the map: what a lookup finds after each update.
pub mod Order
use runnerctl.Common.{
  String, ◌≡◌, refl, true, Option, none, some, [], ◌∷◌, arith, str_eq, eq_iff, if◌then◌else◌, not,
  ◌&&◌, ◌||◌, inl, inr, Option-cases,
}
use runnerctl.BTreeMap.{BTreeMap, lookup, contains_key, insert, remove, modify, map_values}

module _ {ℓ} {V : Type ℓ} where
  pub lookup-insert :
      (i k : String) (v : V) (m : BTreeMap V)
      → lookup i (insert k v m) ≡ (if str_eq i k then some v else lookup i m)
  lookup-insert i k v [] = refl
  lookup-insert i k v ((j, w) ∷ m) =
      ground (arith, eq_iff i k, eq_iff i j, eq_iff k j, lookup-insert i k v m)

  pub lookup-remove :
      (i k : String) (m : BTreeMap V)
      → lookup i (remove k m) ≡ (if str_eq i k then none else lookup i m)
  lookup-remove i k [] = ground arith
  lookup-remove i k ((j, w) ∷ m) =
      ground (arith, eq_iff i k, eq_iff i j, eq_iff k j, lookup-remove i k m)

  abbrev pub map_option : (V → V) → Option V → Option V
  map_option f none = none
  map_option f (some v) = some (f v)

  pub lookup-modify :
      (i k : String) (f : V → V) (m : BTreeMap V)
      → lookup i (modify k f m) ≡ (if str_eq i k then map_option f (lookup i m) else lookup i m)
  lookup-modify i k f [] = ground arith
  lookup-modify i k f ((j, w) ∷ m) =
      ground (arith, eq_iff i k, eq_iff i j, eq_iff k j, lookup-modify i k f m)

  pub lookup-map_values :
      (i : String) (f : V → V) (m : BTreeMap V)
      → lookup i (map_values f m) ≡ map_option f (lookup i m)
  lookup-map_values i f [] = refl
  lookup-map_values i f ((j, w) ∷ m) = ground (arith, lookup-map_values i f m)

  pub contains_key-insert :
      (i k : String) (v : V) (m : BTreeMap V)
      → contains_key i (insert k v m) ≡ (str_eq i k || contains_key i m)
  contains_key-insert i k v m = ground (arith, lookup-insert i k v m)

  pub contains_key-modify :
      (i k : String) (f : V → V) (m : BTreeMap V) → contains_key i (modify k f m) ≡ contains_key i m
  contains_key-modify i k f m = ground (arith, lookup-modify i k f m)

  pub contains_key-remove :
      (i k : String) (m : BTreeMap V)
      → contains_key i (remove k m) ≡ (not (str_eq i k) && contains_key i m)
  contains_key-remove i k m = ground (arith, lookup-remove i k m)

  pub some_of_contains_key :
      (i : String) (m : BTreeMap V) → contains_key i m ≡ true → (v : V) × (lookup i m ≡ some v)
  some_of_contains_key i m h = elim (Option-cases (lookup i m)) [
    | inl e ↦ absurd (ground arith)
    | inr found ↦ found
  ]
