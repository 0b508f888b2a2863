-- ===== src/Retiring/Rank.antt =====
-- The order of the keys, and the place of a key in the sorted list: the number of newer keys.
use text.Mathlib.TextEquality.{path_by_compare}
use runnerctl.Common.{
  ℕ, ◌+◌, ◌≡◌, ◌≢◌, ◌⊎◌, inl, inr, refl, sym, true, false, List, [], ◌∷◌, arith, All, In, Bool,
  length, filter, if◌then◌else◌, Bool-cases,
}
use runnerctl.BTreeMap.Laws.Order.{compare_flip, Less-trans, compare_gt_of_Less}
use runnerctl.Retiring.{Key, newer, insert_key, sort_keys}

newer_asym : (a b : Key) → newer a b ≡ true → newer b a ≡ false
newer_asym a b h = ground (arith, compare_flip a.id b.id)

newer_total : (a b : Key) → a.id ≢ b.id → newer a b ≡ false → newer b a ≡ true
newer_total a b ne h = ground (arith, path_by_compare a.id b.id, compare_gt_of_Less a.id b.id)

newer_trans : (a b c : Key) → newer a b ≡ true → newer b c ≡ true → newer a c ≡ true
newer_trans a b c h k = ground (
  arith,
  compare_flip a.id b.id,
  compare_flip b.id c.id,
  Less-trans c.id b.id a.id,
  compare_gt_of_Less c.id a.id,
  path_by_compare a.id b.id,
)

-- How many keys of the list are newer.
abbrev pub rank : Key → List Key → ℕ
rank k [] = 0
rank k (j ∷ l) = if newer j k then rank k l + 1 else rank k l

rank-insert_key : (k j : Key) (l : List Key) → rank k (insert_key j l) ≡ rank k (j ∷ l)
rank-insert_key k j [] = refl
rank-insert_key k j (i ∷ l) = ground (arith, rank-insert_key k j l)

-- Sorting does not change the rank of a key.
pub rank-sort_keys : (k : Key) (l : List Key) → rank k (sort_keys l) ≡ rank k l
rank-sort_keys k [] = refl
rank-sort_keys k (j ∷ l) = ground (arith, rank-insert_key k j (sort_keys l), rank-sort_keys k l)

-- Newest first.
abbrev pub IsDescending : List Key → Type 0
IsDescending [] = Unit
IsDescending (k ∷ l) = All (λ j. newer k j ≡ true) l × IsDescending l

-- No id is there twice.
abbrev pub Distinct : List Key → Type 0
Distinct [] = Unit
Distinct (k ∷ l) = All (λ j. k.id ≢ j.id) l × Distinct l

All-newer-insert_key :
    (i k : Key) (l : List Key)
    → newer i k ≡ true
    → All (λ j. newer i j ≡ true) l
    → All (λ j. newer i j ≡ true) (insert_key k l)
All-newer-insert_key i k [] h a = (h, tt)
All-newer-insert_key i k (j ∷ l) h a = ground (arith, All-newer-insert_key i k l h a.1)

All-newer_trans :
    (i k : Key) (l : List Key)
    → newer i k ≡ true
    → All (λ j. newer k j ≡ true) l
    → All (λ j. newer i j ≡ true) l
All-newer_trans i k [] h a = tt
All-newer_trans i k (j ∷ l) h a = (newer_trans i k j h a.0, All-newer_trans i k l h a.1)

insert_key-IsDescending :
    (k : Key) (l : List Key)
    → All (λ j. k.id ≢ j.id) l
    → IsDescending l
    → IsDescending (insert_key k l)
insert_key-IsDescending k [] ne d = (tt, tt)
insert_key-IsDescending k (j ∷ l) ne d = elim (Bool-cases (newer j k)) [
  | inl first ↦
      rw first (All-newer-insert_key j k l first d.0, insert_key-IsDescending k l ne.1 d.1)
  | inr later ↦
      let h = newer_total j k (λ e. ne.0 (sym e)) later in
      rw later ((h, All-newer_trans k j l h d.0), d)
]

Distinct-insert_key :
    (k : Key) (l : List Key)
    → All (λ j. k.id ≢ j.id) l
    → (i : Key) → i.id ≢ k.id
    → All (λ j. i.id ≢ j.id) l
    → All (λ j. i.id ≢ j.id) (insert_key k l)
Distinct-insert_key k [] ne i h a = (h, tt)
Distinct-insert_key k (j ∷ l) ne i h a = ground (arith, Distinct-insert_key k l ne.1 i h a.1)

All-ne-sort_keys :
    (i : Key) (l : List Key)
    → Distinct l
    → All (λ j. i.id ≢ j.id) l
    → All (λ j. i.id ≢ j.id) (sort_keys l)
All-ne-sort_keys i [] d a = tt
All-ne-sort_keys i (k ∷ l) d a =
    Distinct-insert_key k (sort_keys l) (All-ne-sort_keys k l d.1 d.0) i a.0
      (All-ne-sort_keys i l d.1 a.1)

pub sort_keys-IsDescending : (l : List Key) → Distinct l → IsDescending (sort_keys l)
sort_keys-IsDescending [] d = tt
sort_keys-IsDescending (k ∷ l) d =
    insert_key-IsDescending k (sort_keys l) (All-ne-sort_keys k l d.1 d.0)
      (sort_keys-IsDescending l d.1)

insert_key-Distinct :
    (k : Key) (l : List Key) → All (λ j. k.id ≢ j.id) l → Distinct l → Distinct (insert_key k l)
insert_key-Distinct k [] a d = (tt, tt)
insert_key-Distinct k (j ∷ l) a d =
    let back : j.id ≢ k.id = λ e. a.0 (sym e) in
    ground (arith, Distinct-insert_key k l a.1 j back d.0, insert_key-Distinct k l a.1 d.1)

pub sort_keys-Distinct : (l : List Key) → Distinct l → Distinct (sort_keys l)
sort_keys-Distinct [] d = tt
sort_keys-Distinct (k ∷ l) d =
    insert_key-Distinct k (sort_keys l) (All-ne-sort_keys k l d.1 d.0) (sort_keys-Distinct l d.1)

In-insert_key : (k j : Key) (l : List Key) → (k ≡ j) ⊎ In k l → In k (insert_key j l)
In-insert_key k j [] m = m
In-insert_key k j (i ∷ l) m = ground (arith, In-insert_key k j l)

pub In-sort_keys : (k : Key) (l : List Key) → In k l → In k (sort_keys l)
In-sort_keys k [] m = elim m [ ]
In-sort_keys k (j ∷ l) (inl e) = In-insert_key k j (sort_keys l) (inl e)
In-sort_keys k (j ∷ l) (inr m) = In-insert_key k j (sort_keys l) (inr (In-sort_keys k l m))

All-insert_key :
    (P : Key → Type 0) (k : Key) (l : List Key) → P k → All P l → All P (insert_key k l)
All-insert_key P k [] p a = (p, tt)
All-insert_key P k (j ∷ l) p a = ground (arith, All-insert_key P k l p a.1)

pub All-sort_keys : (P : Key → Type 0) (l : List Key) → All P l → All P (sort_keys l)
All-sort_keys P [] a = tt
All-sort_keys P (k ∷ l) a = All-insert_key P k (sort_keys l) a.0 (All-sort_keys P l a.1)

-- In a descending list the head has rank zero, and a key behind it one more than in the rest.
pub rank-head : (k : Key) (l : List Key) → All (λ j. newer k j ≡ true) l → rank k l ≡ 0
rank-head k [] a = refl
rank-head k (j ∷ l) a = ground (arith, newer_asym k j, rank-head k l a.1)

pub rank_self : (k : Key) → newer k k ≡ false
rank_self k = ground (arith, newer_asym k k)

length-filter-insert_key :
    (p : Key → Bool) (k : Key) (l : List Key)
    → length (filter p (insert_key k l)) ≡ length (filter p (k ∷ l))
length-filter-insert_key p k [] = refl
length-filter-insert_key p k (j ∷ l) = ground (arith, length-filter-insert_key p k l)

pub length-filter-sort_keys :
    (p : Key → Bool) (l : List Key) → length (filter p (sort_keys l)) ≡ length (filter p l)
length-filter-sort_keys p [] = refl
length-filter-sort_keys p (k ∷ l) =
    ground (arith, length-filter-insert_key p k (sort_keys l), length-filter-sort_keys p l)
