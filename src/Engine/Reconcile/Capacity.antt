-- ===== src/Engine/Reconcile/Capacity.antt =====
-- The limits on new runs in `reconcile` of src/manager.rs.
use runnerctl.Common.{
  ℕ, ◌+◌, ◌^◌, ◌<◌, ◌≤◌, String, ◌≡◌, inl, inr, refl, sym, ◌∙◌, ap, Bool, true, false, some, [],
  ◌∷◌, arith, length, Bool-cases, Option-cases, subst,
}
use Prim.Native.String.{◌++◌}
use runnerctl.Common.Text.{slice_to, is_sliceable}
use runnerctl.Result.{Error}
use runnerctl.BTreeMap.{BTreeMap, insert}
use runnerctl.Config.{Pool}
use runnerctl.State.{PoolState, Run, State}
use runnerctl.Retiring.{pool_runs, keep_count}
use runnerctl.Engine.{Env, Engine, Exec, Answer, done, failed, panicked, pure, ◌>>=◌, continue}
use runnerctl.Engine.Store.{save, store_save, send_snapshot}
use runnerctl.Engine.Sound.{IsWorking, bind_of_eq}
use runnerctl.Engine.Reconcile.{Outside, external, insert_run}
use runnerctl.Engine.Reconcile.Interrupted.{external_uninterrupted, IsStart}
use runnerctl.Engine.Reconcile.Pass.{new_run, record_new, replenish, has_room, index_manager_id}

length-insert : (k : String) (r : Run) (m : BTreeMap Run) → length (insert k r m) ≤ length m + 1
length-insert k r [] = omega arith
length-insert k r ((j, q) ∷ m) = ground (arith, length-insert k r m)

-- Runs of a pool, counted in a map.
pool_runs-insert :
    (id k : String) (r : Run) (m : BTreeMap Run)
    → length (pool_runs id (insert k r m)) ≤ length (pool_runs id m) + 1
pool_runs-insert id k r [] = ground arith
pool_runs-insert id k r ((j, q) ∷ m) = ground (arith, pool_runs-insert id k r m)

save_state : (env : Env) (e : Engine) → (save env e).1.state ≡ e.state
unfolding save store_save send_snapshot ◌>>=◌
save_state env e = elim (Bool-cases (env.save_fails e.io)) [
  | inl fails ↦ ground (arith, fails)
  | inr works ↦ ground (arith, works)
]

module _ {A B : Type 0} (m : Exec A) (f : A → Exec B) (e e' : Engine) where
  bind_failed : (error : Error) → m e ≡ (failed error, e') → (m >>= f) e ≡ (failed error, e')
  unfolding ◌>>=◌
  bind_failed error h = ap (λ (r : Answer A × Engine). continue r.0 f r.1) h

  bind_panicked : m e ≡ (panicked, e') → (m >>= f) e ≡ (panicked, e')
  unfolding ◌>>=◌
  bind_panicked h = ap (λ (r : Answer A × Engine). continue r.0 f r.1) h

pure_starts : (env : Env) (o : Outside) → IsStart env o (pure tt)
unfolding ◌>>=◌
pure_starts env o e = (e.effects, refl)

index_manager_id-some :
    (e : Engine) (text : String)
    → slice_to 8 e.state.manager_id ≡ some text
    → index_manager_id e ≡ (done text, e)
unfolding index_manager_id
index_manager_id-some e text h = ground (arith, h)

module _ (env : Env) (o : Outside) (pool : Pool) (ps : PoolState) where
  -- The state after a new run was recorded.
  record_new_state :
      (e : Engine)
      → is_sliceable 8 e.state.manager_id ≡ true
      → (r : Run) × ((record_new env o pool ps e).1.state
          ≡ record e.state { runs = insert r.id r e.state.runs })
  unfolding record_new index_manager_id insert_run ◌>>=◌
  record_new_state e sliceable = elim (Option-cases (slice_to 8 e.state.manager_id)) [
    | inl none_of ↦ absurd (ground (arith, none_of, sliceable))
    | inr (text, sliced) ↦ (
      new_run ("rc-" ++ text ++ "-" ++ o.simple_uuid e.io) pool ps (env.now e.io),
      ap (λ (q : Answer (Unit {0}) × Engine). q.1.state)
            (bind_of_eq index_manager_id _ e e text (index_manager_id-some e text sliced))
          ∙ save_state env _,
    )
  ]

  abbrev pub Fits : ℕ → Engine → Engine → Type 0
  Fits unknown e e' =
      (length e'.state.runs + unknown ≤ e.state.config.manager.max_runners)
      × (length (pool_runs ps.id e'.state.runs) ≤ keep_count ps pool)

  -- The state in the row has at most as many runs, and as many of the pool, as the one in memory.
  abbrev pub HasNoMore : Engine → Type 0
  HasNoMore e =
      (s : State)
      → e.row ≡ some s
      → (length s.runs ≤ length e.state.runs)
        × (length (pool_runs ps.id s.runs) ≤ length (pool_runs ps.id e.state.runs))

  -- Let there be room for a run, the states in memory and in the row be well formed, the one in the
  -- row have no more runs than the one in memory, of all pools and of this one, the row be readable,
  -- the reconciliation have started at the present epoch, and fewer than 2 ^ 64 requests arrive while
  -- it looks for the image. If adding a run returns, the recorded runs and the unrecorded containers
  -- are at most `max_runners`, and the pool's runs at most its replicas.
  pub replenish_within :
      (allow_replenish : Bool) (unexpected_exits unknown : ℕ) (e : Engine)
      → ((n : ℕ) → env.load_fails n ≡ false)
      → IsWorking e
      → HasNoMore e
      → e.reconcile_epoch ≡ some e.epoch
      → e.epoch < 2 ^ 64
      → length (o.arrivals e.io) < 2 ^ 64
      → has_room env o pool ps allow_replenish unexpected_exits e.state unknown ≡ true
      → (replenish env o pool ps e).0 ≡ done tt
      → Fits unknown e (replenish env o pool ps e).1
  unfolding replenish
  replenish_within allow_replenish unexpected_exits unknown e loads w no_more fresh small few room
        returns =
      by_answer (external env o (pure tt) o.command e).0 (external env o (pure tt) o.command e).1
        refl
    where
      by_answer :
          (a : Answer (Unit {0})) (e1 : Engine)
          → external env o (pure tt) o.command e ≡ (a, e1)
          → Fits unknown e (replenish env o pool ps e).1
      by_answer (done u) e1 h =
          let (statuses, w', kept, row, epoch) =
            external_uninterrupted env o (pure tt) o.command e loads (pure_starts env o) w fresh
              small few (ap (λ q. q.0) h) in
          let fewer : (length e1.state.runs ≤ length e.state.runs)
              × (length (pool_runs ps.id e1.state.runs) ≤ length (pool_runs ps.id e.state.runs)) =
            elim kept [
              | inl k ↦
                  let same : e1.state ≡ e.state =
                    sym (ap (λ (q : Answer (Unit {0}) × Engine). q.1.state) h) ∙ k in
                  (ground (arith, same), ground (arith, same))
              | inr k ↦
                  no_more e1.state (k ∙ ap (λ (q : Answer (Unit {0}) × Engine). some q.1.state) h)
            ] in
          let working : IsWorking e1 =
            subst (λ (q : Answer (Unit {0}) × Engine). IsWorking q.1) h w' in
          let (r, recorded) = record_new_state e1 working.0.manager_id_sliceable in
          let whole : (replenish env o pool ps e).1 ≡ (record_new env o pool ps e1).1 =
            ap (λ q. q.1) (bind_of_eq (external env o (pure tt) o.command) _ e e1 u h) in
          let final : (replenish env o pool ps e).1.state.runs ≡ insert r.id r e1.state.runs =
            ap (λ (g : Engine). g.state.runs) whole ∙ ap (λ (t : State). t.runs) recorded in
          (
            ground (arith, final, room, fewer, length-insert r.id r e1.state.runs),
            ground (arith, final, room, fewer, pool_runs-insert ps.id r.id r e1.state.runs),
          )
      by_answer (failed error) e1 h = absurd (
          ground (
            arith,
            returns,
            bind_failed (external env o (pure tt) o.command) (λ _. record_new env o pool ps) e e1
                error h,
          ))
      by_answer panicked e1 h = absurd (
          ground (
            arith,
            returns,
            bind_panicked (external env o (pure tt) o.command) (λ _. record_new env o pool ps) e e1
                h,
          ))
