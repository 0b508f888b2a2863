-- ===== src/Engine/Reconcile/Sound/Ended.antt =====
-- How `reconcile` of src/manager.rs may end, and the removal of a deleted pool.
use runnerctl.Common.{
  String, ◌≡◌, ◌⊎◌, inl, inr, refl, sym, ◌∙◌, ap, subst, not, ◌&&◌, none, List, [], ◌∷◌, arith,
  str_eq, eq_iff, eq_refl,
}
use runnerctl.Result.{ok, message, reconcile_interrupted}
use runnerctl.BTreeMap.{BTreeMap, lookup, remove}
use runnerctl.BTreeMap.Laws.{lookup-remove, contains_key-remove}
use runnerctl.BTreeMap.Laws.Order.{remove-IsSorted}
use runnerctl.Config.{Pool, Config}
use runnerctl.Config.Validate.{validate}
use runnerctl.State.{State}
use runnerctl.Engine.{Env, Engine, Answer, done, failed, panicked, ◌>>=◌}
use runnerctl.Engine.Store.{committed, commit_config, clean_file, read_config}
use runnerctl.Engine.Sound.{configured, IsWellFormed, HasRow, IsWorking, Saved, Outcome}
use runnerctl.Engine.Sound.Store.{commit_config-At}
use runnerctl.Engine.Reconcile.Pass.{without}
use runnerctl.Engine.Reconcile.Sound.Actions.{Keeps-clean_file}
use runnerctl.Engine.Reconcile.Sound.Uncrossed.{IsUncrossed, Plain, Plain-same}
use runnerctl.Engine.Reconcile.Sound.Drop.{StaysAt, commit_config-Stays}

module _ (env : Env) where
  -- How a reconciliation may end: with well-formed states, or with an error of its own that the
  -- reconciliation met uncrossed, after which the pool `name` has no state in memory.
  abbrev pub IsDropped : {A : Type 0} → String → Answer A × Engine → Type 0
  IsDropped name (done a, e) = ⊥
  IsDropped name (failed (message text), e) =
      HasRow e × (lookup name e.state.pools ≡ none) × IsUncrossed e
  IsDropped name (failed reconcile_interrupted, e) = ⊥
  IsDropped name (panicked, e) = ⊥

  abbrev pub IsEnded : {A : Type 0} → String → Answer A × Engine → Type 0
  IsEnded name r = IsWorking r.1 ⊎ IsDropped name r

configured-without :
    (n name : String) (pools : List Pool)
    → configured n (without name pools) ≡ (not (str_eq n name) && configured n pools)
configured-without n name [] = ground arith
configured-without n name (p ∷ rest) =
    ground
      (arith, configured-without n name rest, eq_iff p.name n, eq_iff p.name name, eq_iff n name)

without-IsWellFormed :
    (env : Env) (name text : String) (s : State)
    → IsWellFormed s
    → validate (record s.config { pools = without name s.config.pools }) ≡ ok tt
    → IsWellFormed (
        committed env
          (record s.config { pools = without name s.config.pools })
          text
          (record s { pools = remove name s.pools }))
without-IsWellFormed env name text s w valid = record {
  valid = valid;
  matching = λ n. ground (
    arith,
    configured-without n name s.config.pools,
    contains_key-remove n name s.pools,
    w.matching n,
  );
  pools_sorted = remove-IsSorted name s.pools w.pools_sorted;
  runs_sorted = w.runs_sorted;
  runs_keyed = w.runs_keyed;
  manager_id_sliceable = w.manager_id_sliceable;
}

lookup-remove_self :
    {V : Type 0} (name : String) (m : BTreeMap V) → lookup name (remove name m) ≡ none
lookup-remove_self name m = ground (arith, lookup-remove name name m, eq_refl name)

module _ (env : Env) where
  IsEnded-of_Outcome :
      (name : String) (next : Config) (s : State) (r : Answer (Unit {0})) (e e' : Engine)
      → Outcome
          (λ _ f. (t : String) × (validate next ≡ ok tt) × Saved (committed env next t s) f)
          (r, e')
      → StaysAt env e (r, e')
      → lookup name e.state.pools ≡ none
      → IsUncrossed e
      → IsEnded env name (r, e')
  IsEnded-of_Outcome name next s (done tt) e e' (t, valid, saved) stays gone u =
      inl (subst IsWellFormed (sym saved.0) saved.3, (committed env next t s, saved.1, saved.3))
  IsEnded-of_Outcome name next s (failed (message _)) e e' row stays gone u =
      inr (row, ap (lookup name) stays.0 ∙ gone, ground (arith, stays.1, stays.2, u))
  IsEnded-of_Outcome name next s (failed reconcile_interrupted) e e' row stays gone u =
      absurd (stays.3 refl)
  IsEnded-of_Outcome name next s panicked e e' row stays gone u = absurd row

  pub commit_without :
      (name : String) (e : Engine)
      → IsWorking e
      → IsUncrossed e
      → IsEnded env name (
          commit_config env
            (record e.state.config { pools = without name e.state.config.pools })
            (record e { state = record e.state { pools = remove name e.state.pools } }))
  commit_without name e w u =
      let next = record e.state.config { pools = without name e.state.config.pools } in
      let s = record e.state { pools = remove name e.state.pools } in
      let f = record e { state = s } in
      let stays = commit_config-Stays env next in
      let (r, e') = commit_config env next f in
      IsEnded-of_Outcome name next s r f e'
        ((commit_config-At env s next
            (λ text valid. without-IsWellFormed env name text e.state w.0 valid)).run
          f (refl, w.1))
        (stays.pools f, stays.epoch f, stays.reconciles f, stays.speaks f)
        (lookup-remove_self name e.state.pools) u

  pub clean_file-Plain : Plain (clean_file env)
  unfolding clean_file read_config ◌>>=◌
  clean_file-Plain = Plain-same (clean_file env) (Keeps-clean_file env) (λ e. ground arith)
