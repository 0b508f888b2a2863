-- ===== src/Retiring/Laws/Mark.antt =====
-- `mark_retiring` on the whole state.
use runnerctl.Common.{if◌then◌else◌, not, ◌&&◌, ◌≤◌, String, ◌≡◌, refl, some, arith, length, filter}
use runnerctl.BTreeMap.{lookup}
use runnerctl.BTreeMap.Laws.{map_option}
use runnerctl.BTreeMap.Laws.Order.{IsSorted}
use runnerctl.Config.{Pool}
use runnerctl.State.{PoolState, State}
use runnerctl.Retiring.{mark_retiring, find_pool}
use runnerctl.Retiring.Laws.{stays}
use runnerctl.Retiring.Laws.Exact.{
  IsKeyed, pool_keys, treated, retire_pool_total, lookup-retire_pool, retire_pool_bound,
}

module _ (name : String) (s : State) {ps : PoolState} {pool : Pool}
    (known : lookup name s.pools ≡ some ps) (configured : find_pool name s.config.pools ≡ some pool)
    (sorted : IsSorted s.runs) (keyed : IsKeyed s.runs) where
  -- On a state whose runs stand sorted under their own ids, for a pool that is known and configured,
  -- `mark_retiring` does not panic, and changes nothing but the runs. A run of another pool stays as
  -- it is. A run of the pool stays as it is if its generation is the pool's and fewer than the
  -- pool's capacity of its runs are newer (by generation, then time, then id); else it retires. The
  -- capacity is the replicas of a pool that runs and is not being deleted, and otherwise 0.
  pub mark_retiring_exact :
      (s' : State) × (mark_retiring name s ≡ some s')
      × (s' ≡ record s { runs = s'.runs })
      × ((i : String) → lookup i s'.runs ≡ map_option (treated ps pool s.runs) (lookup i s.runs))
  unfolding mark_retiring
  mark_retiring_exact =
      let (runs', e) = retire_pool_total ps pool s.runs sorted keyed in
      (
        record s { runs = runs' },
        ground (arith, known, configured, e),
        refl,
        λ i. lookup-retire_pool ps pool s.runs sorted keyed runs' i e,
      )

  -- Afterwards at most as many of the pool's runs are not retiring as the pool has replicas, and none
  -- when it does not run or is being deleted.
  pub mark_retiring_bound :
      (s' : State)
      → mark_retiring name s ≡ some s'
      → length (filter (stays s'.runs) (pool_keys ps.id s.runs))
        ≤ (if ps.running && not ps.deleting then pool.replicas else 0)
  unfolding mark_retiring
  mark_retiring_bound s' h =
      let (runs', e) = retire_pool_total ps pool s.runs sorted keyed in
      let same : s' ≡ record s { runs = runs' } = ground (arith, known, configured, e) in
      ground (arith, same, retire_pool_bound ps pool s.runs sorted keyed runs' e)
