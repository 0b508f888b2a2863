-- ===== src/Retiring.antt =====
-- `mark_retiring` of src/manager.rs: the newest runs of a pool stay, up to its capacity, if they are
-- of its generation; the others retire.
mod Keys
pub mod Rank
pub mod Laws
pub use Keys.{Key, newer}
use Prim.Native.Nat.{Ordering, compare}
use runnerctl.Common.{
  ℕ, ◌+◌, String, Bool, true, false, not, ◌&&◌, ◌||◌, Option, none, some, List, [], ◌∷◌, map, leb,
  ◌==◌, filter, find, str_eq, if◌then◌else◌,
}
use runnerctl.BTreeMap.{BTreeMap, lookup, values, modify}
use runnerctl.Config.{Pool}
use runnerctl.State.{PoolState, Run, State}

-- `(r.generation, r.created_at, r.id.clone())`
abbrev pub key : Run → Key
key r = record { generation = r.generation; created_at = r.created_at; id = r.id }

-- `r.pool_id == ps.id`
abbrev pub in_pool : String → Run → Bool
in_pool id r = str_eq r.pool_id id

-- `runs.values().filter(|r| r.pool_id == ps.id)`
abbrev pub pool_runs : String → BTreeMap Run → List Run
pool_runs id runs = filter (in_pool id) (values runs)

-- `order.sort_by(|a, b| b.cmp(a))`: newest first
abbrev pub insert_key : Key → List Key → List Key
insert_key k [] = k ∷ []
insert_key k (j ∷ l) = let rest = insert_key k l in if newer j k then j ∷ rest else k ∷ j ∷ l

abbrev pub sort_keys : List Key → List Key
sort_keys [] = []
sort_keys (k ∷ l) = insert_key k (sort_keys l)

-- `if running && !deleting { replicas } else { 0 }`
abbrev pub keep_count : PoolState → Pool → ℕ
keep_count ps pool = if ps.running && not ps.deleting then pool.replicas else 0

-- What the loop does to the run at `index` in the order.
abbrev pub retire_at : (keep generation index : ℕ) → Run → Run
retire_at keep generation index r =
    if leb keep index || not (r.generation == generation) then record r { retiring = true } else r

-- The loop over the order; `none` if `get_mut(&id).unwrap()` panics.
unfoldable pub retire_from :
    (keep generation index : ℕ) → List Key → BTreeMap Run → Option (BTreeMap Run)
retire_from keep generation index [] runs = some runs
retire_from keep generation index (k ∷ l) runs =
    let rest =
      retire_from keep generation (index + 1) l
        (modify k.id (retire_at keep generation index) runs) in
    elim (lookup k.id runs) [ none ↦ none | some _ ↦ rest ]

-- The runs after the loop, for a pool and its state.
unfoldable pub retire_pool : PoolState → Pool → BTreeMap Run → Option (BTreeMap Run)
retire_pool ps pool runs =
    retire_from (keep_count ps pool) ps.generation 0 (sort_keys (map key (pool_runs ps.id runs)))
      runs

abbrev pub find_pool : String → List Pool → Option Pool
find_pool name = find (λ p. str_eq p.name name)

-- `none` where the code panics: no such pool, or one without a configuration.
unfoldable pub mark_retiring : String → State → Option State
mark_retiring name state = elim (lookup name state.pools) [
  | none ↦ none
  | some ps ↦ elim (find_pool name state.config.pools) [
    | none ↦ none
    | some pool ↦ elim (retire_pool ps pool state.runs) [
      | none ↦ none
      | some runs ↦ some (record state { runs = runs })
    ]
  ]
]
