-- ===== src/BTreeMap.antt =====
-- std's BTreeMap<String, V>: an association list in the order of the keys, which is the order of
-- Rust's `str` (by code points).
pub mod Laws
use Prim.Native.Nat.{Ordering}
use Prim.Native.String.{compare}
use runnerctl.Common.{
  String, Bool, true, false, Option, none, some, List, [], ◌∷◌, map, str_eq, if◌then◌else◌,
}

abbrev pub BTreeMap {ℓ} : Type ℓ → Type ℓ
BTreeMap V = List (String × V)

module _ {ℓ} {V : Type ℓ} where
  abbrev pub lookup : String → BTreeMap V → Option V
  lookup k [] = none
  lookup k ((j, v) ∷ m) = if str_eq k j then some v else lookup k m

  abbrev pub contains_key : String → BTreeMap V → Bool
  contains_key k m = elim (lookup k m) [ none ↦ false | some _ ↦ true ]

  abbrev pub keys : BTreeMap V → List String
  keys = map (λ e. e.0)

  abbrev pub values : BTreeMap V → List V
  values = map (λ e. e.1)

  -- A new key goes before the first greater one.
  abbrev pub insert : String → V → BTreeMap V → BTreeMap V
  insert k v [] = (k, v) ∷ []
  insert k v ((j, w) ∷ m) =
      let rest = insert k v m in
      elim (compare k j) [
        | Ordering.lt ↦ (k, v) ∷ (j, w) ∷ m
        | Ordering.eq ↦ (k, v) ∷ m
        | Ordering.gt ↦ (j, w) ∷ rest
      ]

  abbrev pub remove : String → BTreeMap V → BTreeMap V
  remove k [] = []
  remove k ((j, w) ∷ m) = let rest = remove k m in if str_eq k j then rest else (j, w) ∷ rest

  -- `if let Some(v) = m.get_mut(k) { *v = f(*v) }`
  abbrev pub modify : String → (V → V) → BTreeMap V → BTreeMap V
  modify k f [] = []
  modify k f ((j, w) ∷ m) = (if str_eq k j then (j, f w) else (j, w)) ∷ modify k f m

  -- `for v in m.values_mut() { *v = f(*v) }`
  abbrev pub map_values : (V → V) → BTreeMap V → BTreeMap V
  map_values f [] = []
  map_values f ((j, w) ∷ m) = (j, f w) ∷ map_values f m
