-- ===== src/Engine/Sound/Wf.antt =====
-- Well-formedness of the state under each change that the requests make.
use runnerctl.Common.{
  ℕ, ◌+◌, String, ◌≡◌, refl, sym, ◌∙◌, true, Option, none, some, List, [], ◌∷◌, arith, str_eq,
  Bool-cases, inl, inr,
}
use runnerctl.Result.{ok}
use runnerctl.BTreeMap.{BTreeMap, lookup, contains_key, modify, map_values}
use runnerctl.BTreeMap.Laws.{contains_key-modify}
use runnerctl.BTreeMap.Laws.Order.{IsSorted, modify-IsSorted, map_values-IsSorted}
use runnerctl.Config.{Pool, Config}
use runnerctl.Config.Validate.{validate}
use runnerctl.State.{PoolState, Run, State}
use runnerctl.Retiring.{Key, retire_at, retire_from, retire_pool, mark_retiring, find_pool}
use runnerctl.Retiring.Laws.Exact.{IsKeyed, retire_pool_total}
use runnerctl.Engine.Sound.{configured, IsWellFormed}

IsKeyed-modify :
    (k : String) (f : Run → Run) (m : BTreeMap Run)
    → ((r : Run) → (f r).id ≡ r.id)
    → IsKeyed m
    → IsKeyed (modify k f m)
IsKeyed-modify k f [] h q = tt
IsKeyed-modify k f ((j, r) ∷ m) h q = ground (arith, h r, IsKeyed-modify k f m h q.1)

pub IsKeyed-map_values :
    (f : Run → Run) (m : BTreeMap Run)
    → ((r : Run) → (f r).id ≡ r.id)
    → IsKeyed m
    → IsKeyed (map_values f m)
IsKeyed-map_values f [] h q = tt
IsKeyed-map_values f ((j, r) ∷ m) h q = (h r ∙ q.0, IsKeyed-map_values f m h q.1)

id-retire_at : (keep generation index : ℕ) (r : Run) → (retire_at keep generation index r).id ≡ r.id
id-retire_at keep generation index r = ground arith

retire_from-maps :
    (keep generation index : ℕ) (l : List Key) (runs runs' : BTreeMap Run)
    → IsSorted runs
    → IsKeyed runs
    → retire_from keep generation index l runs ≡ some runs'
    → IsSorted runs' × IsKeyed runs'
unfolding retire_from
retire_from-maps keep generation index [] runs runs' s q h = ground arith
retire_from-maps keep generation index (k ∷ l) runs runs' s q h =
    let f = retire_at keep generation index in
    retire_from-maps keep generation (index + 1) l (modify k.id f runs) runs'
      (modify-IsSorted k.id f runs s)
      (IsKeyed-modify k.id f runs (id-retire_at keep generation index) q) (ground arith)

retire_pool-maps :
    (ps : PoolState) (pool : Pool) (runs runs' : BTreeMap Run)
    → IsSorted runs
    → IsKeyed runs
    → retire_pool ps pool runs ≡ some runs'
    → IsSorted runs' × IsKeyed runs'
unfolding retire_pool
retire_pool-maps ps pool runs runs' s q h = retire_from-maps _ _ 0 _ runs runs' s q h

-- A pool of the configuration is found by its name.
pub find_of_configured :
    (name : String) (pools : List Pool)
    → configured name pools ≡ true
    → (p : Pool) × (find_pool name pools ≡ some p)
find_of_configured name [] h = absurd (ground arith)
find_of_configured name (p ∷ rest) h = elim (Bool-cases (str_eq p.name name)) [
  | inl here ↦ (p, rw here)
  | inr there ↦ let (q, e) = find_of_configured name rest (ground arith) in (q, rw there e)
]

pub configured_of_find :
    (name : String) (pools : List Pool) (p : Pool)
    → find_pool name pools ≡ some p
    → configured name pools ≡ true
configured_of_find name [] p h = absurd (ground arith)
configured_of_find name (q ∷ rest) p h = ground (arith, configured_of_find name rest p)

-- For a known pool `mark_retiring` does not panic, and keeps what is well formed.
pub mark_retiring-IsWellFormed :
    (name : String) (s : State)
    → IsWellFormed s
    → contains_key name s.pools ≡ true
    → (runs' : BTreeMap Run) × (mark_retiring name s ≡ some (record s { runs = runs' }))
      × IsWellFormed (record s { runs = runs' })
unfolding mark_retiring
mark_retiring-IsWellFormed name s w h =
    let (pool, here) = find_of_configured name s.config.pools (w.matching name ∙ h) in
    with_state pool here (lookup name s.pools) refl h
  where
    with_state :
        (pool : Pool)
        → find_pool name s.config.pools ≡ some pool
        → (o : Option PoolState) → lookup name s.pools ≡ o
        → contains_key name s.pools ≡ true
        → (runs' : BTreeMap Run) × (mark_retiring name s ≡ some (record s { runs = runs' }))
          × IsWellFormed (record s { runs = runs' })
    with_state pool here none e h = absurd (ground arith)
    with_state pool here (some ps) e h =
        let (runs', marked) = retire_pool_total ps pool s.runs w.runs_sorted w.runs_keyed in
        let kept = retire_pool-maps ps pool s.runs runs' w.runs_sorted w.runs_keyed marked in
        (
          runs',
          ground arith,
          record {
            valid = w.valid;
            matching = w.matching;
            pools_sorted = w.pools_sorted;
            runs_sorted = kept.0;
            runs_keyed = kept.1;
            manager_id_sliceable = w.manager_id_sliceable;
          },
        )

pub modify-IsWellFormed :
    (name : String) (g : PoolState → PoolState) (s : State)
    → IsWellFormed s
    → IsWellFormed (record s { pools = modify name g s.pools })
modify-IsWellFormed name g s w = record {
  valid = w.valid;
  matching = λ i. w.matching i ∙ sym (contains_key-modify i name g s.pools);
  pools_sorted = modify-IsSorted name g s.pools w.pools_sorted;
  runs_sorted = w.runs_sorted;
  runs_keyed = w.runs_keyed;
  manager_id_sliceable = w.manager_id_sliceable;
}

pub map_runs-IsWellFormed :
    (f : Run → Run) (s : State)
    → ((r : Run) → (f r).id ≡ r.id)
    → IsWellFormed s
    → IsWellFormed (record s { runs = map_values f s.runs })
map_runs-IsWellFormed f s same w = record {
  valid = w.valid;
  matching = w.matching;
  pools_sorted = w.pools_sorted;
  runs_sorted = map_values-IsSorted f s.runs w.runs_sorted;
  runs_keyed = IsKeyed-map_values f s.runs same w.runs_keyed;
  manager_id_sliceable = w.manager_id_sliceable;
}

-- A change of the configuration that keeps the names.
pub config-IsWellFormed :
    (next : Config) (revision : ℕ) (file_hash : String) (s : State)
    → validate next ≡ ok tt
    → ((name : String) → configured name next.pools ≡ configured name s.config.pools)
    → IsWellFormed s
    → IsWellFormed (record s { config = next; revision = revision; file_hash = file_hash })
config-IsWellFormed next revision file_hash s valid same w = record {
  valid = valid;
  matching = λ name. same name ∙ w.matching name;
  pools_sorted = w.pools_sorted;
  runs_sorted = w.runs_sorted;
  runs_keyed = w.runs_keyed;
  manager_id_sliceable = w.manager_id_sliceable;
}

-- New states for the pools, with the same names.
pub pools-IsWellFormed :
    (pools : BTreeMap PoolState) (s : State)
    → IsSorted pools
    → ((name : String) → contains_key name pools ≡ contains_key name s.pools)
    → IsWellFormed s
    → IsWellFormed (record s { pools = pools })
pools-IsWellFormed pools s sorted same w = record {
  valid = w.valid;
  matching = λ name. w.matching name ∙ sym (same name);
  pools_sorted = sorted;
  runs_sorted = w.runs_sorted;
  runs_keyed = w.runs_keyed;
  manager_id_sliceable = w.manager_id_sliceable;
}
