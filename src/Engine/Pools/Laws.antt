-- ===== src/Engine/Pools/Laws.antt =====
-- What stop and remove of src/manager.rs do to the pool, to its runs, and to nothing else.
use runnerctl.Common.{
  ◌+◌, String, ◌≡◌, refl, sym, ◌∙◌, ap, subst, ◌≢◌, Bool, true, false, ◌||◌, if◌then◌else◌,
  Bool-cases, inl, inr, Option, none, some, [], ◌∷◌, arith, any, str_eq, eq_iff,
}
use runnerctl.BTreeMap.{BTreeMap, lookup, values, modify, map_values}
use runnerctl.BTreeMap.Laws.{lookup-modify, lookup-map_values, map_option}
use runnerctl.State.{PoolState, Run, State}
use runnerctl.Protocol.{Reply}
use runnerctl.Retiring.{in_pool}
use runnerctl.Engine.{Env, Engine, done, ◌>>=◌, modify_pool}
use runnerctl.Engine.Store.{send_snapshot, store_save, save}
use runnerctl.Engine.Pools.{
  stopped_pool, removed_pool, drain_run, targets, stop_pools, pending, handle_stop, handle_remove,
}

-- After a call: the pool was changed by `f`, its runs drain, and all else is as before.
record IsDrained (e : Engine) (name id : String) (f : PoolState → PoolState) (force : Bool)
    (e' : Engine) : Type 0 where
  pool : lookup name e'.state.pools ≡ map_option f (lookup name e.state.pools)
  other_pools :
      (other : String)
      → str_eq other name ≡ false
      → lookup other e'.state.pools ≡ lookup other e.state.pools
  runs :
      (i : String)
      → lookup i e'.state.runs ≡ map_option (drain_run id force) (lookup i e.state.runs)
  config : e'.state.config ≡ e.state.config
  stored : e'.row ≡ some e'.state

abbrev drained : String → String → (PoolState → PoolState) → Bool → State → State
drained name id f force s = record s {
  pools = modify name f s.pools;
  runs = map_values (drain_run id force) s.runs;
}

-- The engine after `save`.
saved_IsDrained :
    (e e' : Engine) (name id : String) (f : PoolState → PoolState) (force : Bool)
    → e'.state ≡ drained name id f force e.state
    → e'.row ≡ some e'.state
    → IsDrained e name id f force e'
saved_IsDrained e e' name id f force h stored = record {
  pool = ground (arith, h, lookup-modify name name f e.state.pools, eq_iff name name);
  other_pools = λ other differs. ground (arith, h, lookup-modify other name f e.state.pools);
  runs = λ i. ground (arith, h, lookup-map_values i (drain_run id force) e.state.runs);
  config = ground (arith, h);
  stored = stored;
}

-- The same, written out, for a pool that was `p` before the call.
pub record Drains (e : Engine) (name : String) (p : PoolState) (deleting force : Bool) (e' : Engine)
    : Type 0 where
  pub pool :
      lookup name e'.state.pools
      ≡ some (record p {
        running = false;
        deleting = deleting;
        retry_at = if force then 0 else p.retry_at;
      })
  pub other_pools :
      (other : String) → other ≢ name → lookup other e'.state.pools ≡ lookup other e.state.pools
  pub own_runs :
      (i : String) (r : Run)
      → lookup i e.state.runs ≡ some r
      → r.pool_id ≡ p.id
      → lookup i e'.state.runs ≡ some (record r { retiring = true; force = r.force || force })
  pub other_runs :
      (i : String) (r : Run)
      → lookup i e.state.runs ≡ some r
      → r.pool_id ≢ p.id
      → lookup i e'.state.runs ≡ some r
  pub no_runs : (i : String) → lookup i e.state.runs ≡ none → lookup i e'.state.runs ≡ none
  pub config : e'.state.config ≡ e.state.config
  pub stored : e'.row ≡ some e'.state

ne_test : (x y : String) → x ≢ y → str_eq x y ≡ false
ne_test x y h = elim (Bool-cases (str_eq x y)) [
  | inl same ↦ absurd (h ((eq_iff x y).0 same))
  | inr differs ↦ differs
]

Drains-IsDrained :
    (e : Engine) (name : String) (p : PoolState) (deleting : Bool) (f : PoolState → PoolState)
    (force : Bool) (e' : Engine)
    → lookup name e.state.pools ≡ some p
    → f p ≡ record p {
      running = false;
      deleting = deleting;
      retry_at = if force then 0 else p.retry_at;
    }
    → IsDrained e name p.id f force e'
    → Drains e name p deleting force e'
Drains-IsDrained e name p deleting f force e' known same drains = record {
  pool = drains.pool ∙ ap (map_option f) known ∙ ap some same;
  other_pools = λ other differs. drains.other_pools other (ne_test other name differs);
  own_runs = λ i r here own.
      drains.runs i
      ∙ ap (map_option (drain_run p.id force)) here
      ∙ ground (arith, own, eq_iff r.pool_id p.id);
  other_runs = λ i r here other.
      drains.runs i
      ∙ ap (map_option (drain_run p.id force)) here
      ∙ ground (arith, ne_test r.pool_id p.id other);
  no_runs = λ i here. drains.runs i ∙ ap (map_option (drain_run p.id force)) here;
  config = drains.config;
  stored = drains.stored;
}

any_drained :
    (id : String) (force : Bool) (m : BTreeMap Run)
    → any (in_pool id) (values (map_values (drain_run id force) m)) ≡ any (in_pool id) (values m)
any_drained id force [] = refl
any_drained id force ((k, r) ∷ m) = ground (arith, any_drained id force m)

stop_pools_one :
    (name : String) (force : Bool) (e : Engine) {p : PoolState}
    → lookup name e.state.pools ≡ some p
    → stop_pools force (name ∷ []) e
      ≡ (done tt, record e { state = drained name p.id (stopped_pool force) force e.state })
unfolding stop_pools modify_pool ◌>>=◌
stop_pools_one name force e known = ground (arith, known)

module _ (env : Env) where
  save_saves :
      (e : Engine)
      → env.save_fails e.io ≡ false
      → (e' : Engine) × (save env e ≡ (done tt, e'))
        × (e'.state ≡ e.state)
        × (e'.row ≡ some e.state)
  unfolding save store_save send_snapshot ◌>>=◌
  save_saves e saves = by_readers e.snapshot refl
    where
      by_readers :
          (o : Option State)
          → e.snapshot ≡ o
          → (e' : Engine) × (save env e ≡ (done tt, e'))
            × (e'.state ≡ e.state)
            × (e'.row ≡ some e.state)
      by_readers none shown =
          (record e { io = e.io + 1; row = some e.state }, ground (arith, saves, shown), refl, refl)
      by_readers (some t) shown = (
        record e { io = e.io + 1; row = some e.state; snapshot = some e.state },
        ground (arith, saves, shown),
        refl,
        refl,
      )

  handle_stop_drains :
      (name : String) (force : Bool) (e : Engine) {p : PoolState}
      → lookup name e.state.pools ≡ some p
      → env.save_fails e.io ≡ false
      → ((handle_stop env (some name) false force e).0
          ≡ done (Reply.stopped (name ∷ []) (any (in_pool p.id) (values e.state.runs)) force))
        × IsDrained e name p.id
            (stopped_pool force)
            force
            (handle_stop env (some name) false force e).1
  unfolding handle_stop targets stop_pools pending modify_pool ◌>>=◌
  handle_stop_drains name force e {p = p} known saves =
      let s = drained name p.id (stopped_pool force) force e.state in
      let (e', saves', state, row) = save_saves (record e { state = s }) saves in
      let found : lookup name e'.state.pools ≡ some (stopped_pool force p) = ground (
        arith,
        state,
        known,
        lookup-modify name name (stopped_pool force) e.state.pools,
        eq_iff name name,
      ) in
      let left : any (in_pool p.id) (values e'.state.runs)
          ≡ any (in_pool p.id) (values e.state.runs) =
        ground (arith, state, any_drained p.id force e.state.runs) in
      let result : handle_stop env (some name) false force e ≡ (
        done (Reply.stopped (name ∷ []) (any (in_pool p.id) (values e.state.runs)) force),
        e',
      ) =
        ground (arith, known, stop_pools_one name force e known, saves', found, left) in
      (
        ap (λ r. r.0) result,
        subst (λ t. IsDrained e name p.id (stopped_pool force) force t) (sym (ap (λ r. r.1) result))
            (saved_IsDrained e e' name p.id (stopped_pool force) force state
              (row ∙ ap some (sym state))),
      )

  handle_remove_drains :
      (name : String) (force : Bool) (e : Engine) {p : PoolState}
      → lookup name e.state.pools ≡ some p
      → env.save_fails e.io ≡ false
      → ((handle_remove env name force e).0 ≡ done (Reply.removing name force))
        × IsDrained e name p.id (removed_pool force) force (handle_remove env name force e).1
  unfolding handle_remove modify_pool ◌>>=◌
  handle_remove_drains name force e {p = p} known saves =
      let s = drained name p.id (removed_pool force) force e.state in
      let (e', saves', state, row) = save_saves (record e { state = s }) saves in
      let result : handle_remove env name force e ≡ (done (Reply.removing name force), e') =
        ground (arith, known, saves') in
      (
        ap (λ r. r.0) result,
        subst (λ t. IsDrained e name p.id (removed_pool force) force t) (sym (ap (λ r. r.1) result))
            (saved_IsDrained e e' name p.id (removed_pool force) force state
              (row ∙ ap some (sym state))),
      )

  -- When the row can be written, a stop of a known pool answers, says whether runs of the pool are
  -- left, and does this: the pool does not run, and with force its retry time is cleared; its runs are
  -- retiring, and with force forced; the other pools, the other runs and the configuration stay; no
  -- run comes or goes; and the row holds the result.
  pub handle_stop_exact :
      (name : String) (force : Bool) (e : Engine) {p : PoolState}
      → lookup name e.state.pools ≡ some p
      → env.save_fails e.io ≡ false
      → ((handle_stop env (some name) false force e).0
          ≡ done (Reply.stopped (name ∷ []) (any (in_pool p.id) (values e.state.runs)) force))
        × Drains e name p p.deleting force (handle_stop env (some name) false force e).1
  handle_stop_exact name force e {p = p} known saves =
      let (answer, drains) = handle_stop_drains name force e known saves in
      (answer, Drains-IsDrained e name p p.deleting (stopped_pool force) force _ known refl drains)

  -- When the row can be written, a removal of a known pool answers and does the same, and marks the
  -- pool as deleting.
  pub handle_remove_exact :
      (name : String) (force : Bool) (e : Engine) {p : PoolState}
      → lookup name e.state.pools ≡ some p
      → env.save_fails e.io ≡ false
      → ((handle_remove env name force e).0 ≡ done (Reply.removing name force))
        × Drains e name p true force (handle_remove env name force e).1
  handle_remove_exact name force e {p = p} known saves =
      let (answer, drains) = handle_remove_drains name force e known saves in
      (answer, Drains-IsDrained e name p true (removed_pool force) force _ known refl drains)
