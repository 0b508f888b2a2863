-- ===== src/Retiring/Laws.antt =====
-- What the loop of `mark_retiring` does to each run, by the run's rank.
pub mod Exact
pub mod Mark
use runnerctl.Common.{
  ℕ, ◌+◌, String, ◌≡◌, ◌≢◌, ◌⊎◌, inl, inr, refl, sym, ◌∙◌, ap, subst, true, false, Option, none,
  some, List, [], ◌∷◌, arith, All, In, if◌then◌else◌, Bool-cases, eq_iff, eq_refl, str_eq, All-In,
  length, filter, ◌≤◌, ◌-◌, not, Bool,
}
use runnerctl.BTreeMap.{BTreeMap, lookup, modify}
use runnerctl.BTreeMap.Laws.{lookup-modify, map_option}
use runnerctl.State.{Run}
use runnerctl.Retiring.{Key, newer, retire_at, retire_from}
use runnerctl.Retiring.Rank.{rank, rank-head, rank_self, IsDescending, Distinct}

-- Whether the run of a key is there and not retiring.
abbrev pub stays : BTreeMap Run → Key → Bool
stays runs k = elim (lookup k.id runs) [ none ↦ false | some r ↦ not r.retiring ]

module _ (keep generation : ℕ) where
  -- Every id of the order is a key of the map: no `unwrap` panics.
  abbrev pub HasIds : List Key → BTreeMap Run → Type 0
  HasIds l runs = All (λ k. lookup k.id runs ≢ none) l

  HasIds-modify :
      (i : String) (f : Run → Run) (l : List Key) (runs : BTreeMap Run)
      → HasIds l runs
      → HasIds l (modify i f runs)
  HasIds-modify i f [] runs h = tt
  HasIds-modify i f (k ∷ l) runs h =
      ground (arith, lookup-modify k.id i f runs, HasIds-modify i f l runs h.1)

  -- A run whose id is not in the order is left alone.
  pub retire_from_other :
      (index : ℕ) (l : List Key) (runs runs' : BTreeMap Run) (i : String)
      → All (λ k. i ≢ k.id) l
      → retire_from keep generation index l runs ≡ some runs'
      → lookup i runs' ≡ lookup i runs
  unfolding retire_from
  retire_from_other index [] runs runs' i a h = ground arith
  retire_from_other index (k ∷ l) runs runs' i a h = ground (
    arith,
    retire_from_other (index + 1) l (modify k.id (retire_at keep generation index) runs) runs' i
        a.1,
    lookup-modify i k.id (retire_at keep generation index) runs,
    eq_iff i k.id,
  )

  -- The loop ends without a panic.
  pub retire_from_total :
      (index : ℕ) (l : List Key) (runs : BTreeMap Run)
      → HasIds l runs
      → (runs' : BTreeMap Run) × (retire_from keep generation index l runs ≡ some runs')
  unfolding retire_from
  retire_from_total index [] runs h = (runs, refl)
  retire_from_total index (k ∷ l) runs h =
      let f = retire_at keep generation index in
      let (runs', e) =
        retire_from_total (index + 1) l (modify k.id f runs) (HasIds-modify k.id f l runs h.1) in
      (runs', ground arith)

  -- The run of a key in the order is treated by the key's rank.
  pub retire_from_ranked :
      (index : ℕ) (l : List Key) (runs runs' : BTreeMap Run) (k : Key)
      → IsDescending l
      → Distinct l
      → In k l
      → retire_from keep generation index l runs ≡ some runs'
      → lookup k.id runs'
        ≡ map_option (retire_at keep generation (index + rank k l)) (lookup k.id runs)
  unfolding retire_from
  retire_from_ranked index [] runs runs' k d u m h = elim m [ ]
  retire_from_ranked index (j ∷ l) runs runs' k d u (inl e) h =
      let f = retire_at keep generation index in
      let rest : retire_from keep generation (index + 1) l (modify j.id f runs) ≡ some runs' =
        ground arith in
      let same = retire_from_other (index + 1) l (modify j.id f runs) runs' j.id u.0 rest in
      subst
        (λ x.
          lookup x.id runs'
          ≡ map_option (retire_at keep generation (index + rank x (j ∷ l))) (lookup x.id runs))
        (sym e)
        (ground (
          arith,
          rank_self j,
          rank-head j l d.0,
          same,
          lookup-modify j.id j.id f runs,
          eq_refl j.id,
        ))
  retire_from_ranked index (j ∷ l) runs runs' k d u (inr m) h =
      let f = retire_at keep generation index in
      let rest : retire_from keep generation (index + 1) l (modify j.id f runs) ≡ some runs' =
        ground arith in
      let ih = retire_from_ranked (index + 1) l (modify j.id f runs) runs' k d.1 u.1 m rest in
      let ne : j.id ≢ k.id = All-In (λ x. j.id ≢ x.id) k l u.0 m in
      let first : newer j k ≡ true = All-In (λ x. newer j x ≡ true) k l d.0 m in
      ground (arith, ih, ne, first, lookup-modify k.id j.id f runs, eq_iff k.id j.id)

  not_stays_late :
      (index : ℕ) (o : Option Run) (runs : BTreeMap Run) (k : Key)
      → lookup k.id runs ≡ map_option (retire_at keep generation index) o
      → keep ≤ index
      → stays runs k ≡ false
  not_stays_late index o runs k e h = ground arith

  -- Of a descending order, the keys that stay are among the first ones.
  pub retire_from_bound :
      (index : ℕ) (l : List Key) (runs runs' : BTreeMap Run)
      → IsDescending l
      → Distinct l
      → retire_from keep generation index l runs ≡ some runs'
      → length (filter (stays runs') l) ≤ keep - index
  unfolding retire_from
  retire_from_bound index [] runs runs' d u h = omega arith
  retire_from_bound index (j ∷ l) runs runs' d u h =
      let f = retire_at keep generation index in
      let rest : retire_from keep generation (index + 1) l (modify j.id f runs) ≡ some runs' =
        ground arith in
      let same = retire_from_other (index + 1) l (modify j.id f runs) runs' j.id u.0 rest in
      let at_head : lookup j.id runs' ≡ map_option f (lookup j.id runs) =
        ground (arith, same, lookup-modify j.id j.id f runs, eq_refl j.id) in
      ground (
        arith,
        retire_from_bound (index + 1) l (modify j.id f runs) runs' d.1 u.1 rest,
        not_stays_late index (lookup j.id runs) runs' j at_head,
      )
