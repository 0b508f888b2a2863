-- ===== src/Retiring/Laws/Exact.antt =====
-- `mark_retiring` on a well-formed map of runs, run by run.
use runnerctl.Common.{
  ◌&&◌, ◌||◌, not, leb, ◌==◌, ◌≤◌, String, ◌≡◌, ◌≢◌, inl, inr, sym, ◌∙◌, subst, true, false, none,
  some, List, [], ◌∷◌, map, arith, All, In, if◌then◌else◌, Bool-cases, eq_iff, eq_refl, str_eq,
  Option-cases, length, filter,
}
use runnerctl.BTreeMap.{BTreeMap, lookup}
use runnerctl.BTreeMap.Laws.{map_option}
use runnerctl.BTreeMap.Laws.Order.{IsSorted, Below, Less, Less-irrefl}
use runnerctl.Config.{Pool}
use runnerctl.State.{Run, PoolState}
use runnerctl.Retiring.{Key, retire_pool, key, in_pool, pool_runs, sort_keys, keep_count}
use runnerctl.Retiring.Rank.{
  rank, rank-sort_keys, Distinct, sort_keys-IsDescending, sort_keys-Distinct, All-sort_keys,
  In-sort_keys, length-filter-sort_keys,
}
use runnerctl.Retiring.Laws.{
  retire_from_other, retire_from_total, retire_from_ranked, retire_from_bound, stays,
}

-- Each run stands under its own id.
abbrev pub IsKeyed : BTreeMap Run → Type 0
IsKeyed [] = Unit
IsKeyed ((k, r) ∷ m) = (r.id ≡ k) × IsKeyed m

-- The keys of the runs of a pool.
abbrev pub pool_keys : String → BTreeMap Run → List Key
pool_keys id runs = map key (pool_runs id runs)

module _ (id : String) where
  All-ne_of_Below :
      (k : String) (m : BTreeMap Run) → Below k m → IsKeyed m → All (λ j. k ≢ j.id) (pool_keys id m)
  All-ne_of_Below k [] b h = tt
  All-ne_of_Below k ((j, r) ∷ m) b h =
      let ne : k ≢ j = λ e. Less-irrefl j (subst (λ x. Less x j) e b.0) in
      ground (arith, All-ne_of_Below k m b.1 h.1)

  pool_keys-Distinct : (m : BTreeMap Run) → IsSorted m → IsKeyed m → Distinct (pool_keys id m)
  pool_keys-Distinct [] s h = tt
  pool_keys-Distinct ((k, r) ∷ m) s h =
      let a : All (λ j. r.id ≢ j.id) (pool_keys id m) = rw h.0 (All-ne_of_Below k m s.0 h.1) in
      ground (arith, pool_keys-Distinct m s.1 h.1)

  -- A run of the pool has its key in the order.
  In-pool_keys :
      (i : String) (r : Run) (m : BTreeMap Run)
      → lookup i m ≡ some r
      → in_pool id r ≡ true
      → In (key r) (pool_keys id m)
  In-pool_keys i r [] e p = cc
  In-pool_keys i r ((k, q) ∷ m) e p = ground (arith, In-pool_keys i r m)

  -- A run of another pool has not.
  not-In-pool_keys :
      (i : String) (r : Run) (m : BTreeMap Run)
      → IsSorted m
      → IsKeyed m
      → lookup i m ≡ some r
      → in_pool id r ≡ false
      → All (λ j. i ≢ j.id) (pool_keys id m)
  not-In-pool_keys i r [] s h e p = tt
  not-In-pool_keys i r ((k, q) ∷ m) s h e p = elim (Bool-cases (str_eq i k)) [
    | inl here ↦ ground (
      arith,
      eq_iff i k,
      subst (λ x. Below x m) (sym ((eq_iff i k).0 here)) s.0,
      All-ne_of_Below i m,
    )
    | inr there ↦ ground (arith, eq_iff i k, not-In-pool_keys i r m s.1 h.1)
  ]

  abbrev pub Present : BTreeMap Run → List Key → Type 0
  Present runs l = All (λ k. lookup k.id runs ≢ none) l

  Present-cons :
      (k : String) (q : Run) (m : BTreeMap Run) (l : List Key)
      → Present m l
      → Present ((k, q) ∷ m) l
  Present-cons k q m [] h = tt
  Present-cons k q m (j ∷ l) h = ground (arith, Present-cons k q m l h.1)

  pool_keys-Present : (m : BTreeMap Run) → IsKeyed m → Present m (pool_keys id m)
  pool_keys-Present [] h = tt
  pool_keys-Present ((k, q) ∷ m) h =
      ground (arith, eq_refl k, Present-cons k q m (pool_keys id m) (pool_keys-Present m h.1))

  not-In_of_none :
      (i : String) (m : BTreeMap Run) (l : List Key)
      → Present m l
      → lookup i m ≡ none
      → All (λ j. i ≢ j.id) l
  not-In_of_none i m [] h e = tt
  not-In_of_none i m (j ∷ l) h e =
      ((λ p. h.0 (subst (λ x. lookup x m ≡ none) p e)), not-In_of_none i m l h.1 e)

  pub id_of_lookup :
      (i : String) (r : Run) (m : BTreeMap Run) → IsKeyed m → lookup i m ≡ some r → r.id ≡ i
  id_of_lookup i r [] h e = cc
  id_of_lookup i r ((k, q) ∷ m) h e = ground (arith, eq_iff i k, id_of_lookup i r m h.1)

-- What becomes of a run of the map, by its pool and its rank among the pool's runs.
abbrev pub treated : PoolState → Pool → BTreeMap Run → Run → Run
treated ps pool runs r =
    let capacity = if ps.running && not ps.deleting then pool.replicas else 0 in
    if in_pool ps.id r
    then if leb capacity (rank (key r) (pool_keys ps.id runs))
        || not (r.generation == ps.generation)
      then record r { retiring = true }
      else r
    else r

module _ (ps : PoolState) (pool : Pool) (runs : BTreeMap Run) (sorted : IsSorted runs)
    (keyed : IsKeyed runs) where
  abbrev order : List Key
  order = sort_keys (pool_keys ps.id runs)

  pub retire_pool_total : (runs' : BTreeMap Run) × (retire_pool ps pool runs ≡ some runs')
  unfolding retire_pool
  retire_pool_total = retire_from_total (keep_count ps pool) ps.generation 0 order runs (
      All-sort_keys (λ k. lookup k.id runs ≢ none) (pool_keys ps.id runs)
        (pool_keys-Present ps.id runs keyed))

  retire_pool-some :
      (runs' : BTreeMap Run) (i : String) (r : Run)
      → retire_pool ps pool runs ≡ some runs'
      → lookup i runs ≡ some r
      → lookup i runs' ≡ some (treated ps pool runs r)
  unfolding retire_pool
  retire_pool-some runs' i r h e = elim (Bool-cases (in_pool ps.id r)) [
    | inl here ↦ ground (
      arith,
      retire_from_ranked (keep_count ps pool) ps.generation 0 order runs runs' (key r)
          (sort_keys-IsDescending (pool_keys ps.id runs)
            (pool_keys-Distinct ps.id runs sorted keyed))
          (sort_keys-Distinct (pool_keys ps.id runs) (pool_keys-Distinct ps.id runs sorted keyed))
          (In-sort_keys (key r) (pool_keys ps.id runs) (In-pool_keys ps.id i r runs e here)) h,
      rank-sort_keys (key r) (pool_keys ps.id runs),
      id_of_lookup ps.id i r runs keyed e,
    )
    | inr there ↦ ground (
      arith,
      retire_from_other (keep_count ps pool) ps.generation 0 order runs runs' i
          (All-sort_keys (λ j. i ≢ j.id) (pool_keys ps.id runs)
            (not-In-pool_keys ps.id i r runs sorted keyed e there))
          h,
    )
  ]

  retire_pool-none :
      (runs' : BTreeMap Run) (i : String)
      → retire_pool ps pool runs ≡ some runs'
      → lookup i runs ≡ none
      → lookup i runs' ≡ none
  unfolding retire_pool
  retire_pool-none runs' i h e =
      retire_from_other (keep_count ps pool) ps.generation 0 order runs runs' i
        (All-sort_keys (λ j. i ≢ j.id) (pool_keys ps.id runs)
          (not-In_of_none ps.id i runs (pool_keys ps.id runs) (pool_keys-Present ps.id runs keyed)
            e))
        h
      ∙ e

  pub lookup-retire_pool :
      (runs' : BTreeMap Run) (i : String)
      → retire_pool ps pool runs ≡ some runs'
      → lookup i runs' ≡ map_option (treated ps pool runs) (lookup i runs)
  lookup-retire_pool runs' i h = elim (Option-cases (lookup i runs)) [
    | inl e ↦ rw e (retire_pool-none runs' i h e)
    | inr (r, e) ↦ rw e (retire_pool-some runs' i r h e)
  ]

  pub retire_pool_bound :
      (runs' : BTreeMap Run)
      → retire_pool ps pool runs ≡ some runs'
      → length (filter (stays runs') (pool_keys ps.id runs)) ≤ keep_count ps pool
  unfolding retire_pool
  retire_pool_bound runs' h = omega (
    arith,
    retire_from_bound (keep_count ps pool) ps.generation 0 order runs runs'
        (sort_keys-IsDescending (pool_keys ps.id runs) (pool_keys-Distinct ps.id runs sorted keyed))
        (sort_keys-Distinct (pool_keys ps.id runs) (pool_keys-Distinct ps.id runs sorted keyed)) h,
    length-filter-sort_keys (stays runs') (pool_keys ps.id runs),
  )
