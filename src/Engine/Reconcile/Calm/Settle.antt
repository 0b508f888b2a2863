-- ===== src/Engine/Reconcile/Calm/Settle.antt =====
-- The parts of `reconcile` in src/manager.rs before and after its loop: none of them panics.
use runnerctl.Common.{
  ℕ, ◌<◌, String, ◌≡◌, sym, ap, subst, Bool, true, false, Option, none, some, List, [], ◌∷◌, arith,
  if◌then◌else◌, length, ◌&&◌, ◌==◌,
}
use runnerctl.Result.{Error, Result, ok, err}
use runnerctl.BTreeMap.{remove}
use runnerctl.Config.{Pool, Config}
use runnerctl.Config.Memory.{u64_mod}
use runnerctl.State.{PoolState, Run, State}
use runnerctl.Retiring.{pool_runs}
use runnerctl.Engine.{
  Env, Engine, Exec, Answer, done, failed, panicked, pure, ◌>>=◌, ◌>>◌, continue,
}
use runnerctl.Engine.Store.{
  clean_file, commit_config, store_save, write_config, after_write, read_config, send_snapshot,
}
use runnerctl.Engine.Sound.{IsWorking}
use runnerctl.Engine.Handle.Keeps.{Keeps, keeps}
use runnerctl.Engine.Handle.Epoch.{Keeps-clean_file, Keeps-commit_config}
use runnerctl.Engine.Handle.Names.{Names}
use runnerctl.Engine.Reconcile.{Container, LogEntry, Outside}
use runnerctl.Engine.Reconcile.Sound.{Keeps-index_manager_id, index_manager_id_reads}
use runnerctl.Engine.Reconcile.Steps.{Progress}
use runnerctl.Engine.Reconcile.Pass.{
  raise_first, drop_pool, stop_owned, stop_forced, remove_log, expire_entries, expire_logs,
  index_manager_id, record_new, replenish, fill, settle,
}
use runnerctl.Engine.Reconcile.Calm.{Fine, Holds, Calm, Calm-bind, Calm-pure, Calm-gets, Calm-raise}
use runnerctl.Engine.Reconcile.Calm.Calls.{calm}
use runnerctl.Engine.Reconcile.Calm.Steps.{archive-Calm}

-- No panic, and an epoch below 2 ^ 64.
abbrev pub IsSafe : {A : Type 0} → Answer A × Engine → Type 0
IsSafe (r, e) = Fine r × (e.epoch < u64_mod)

pub fine_bind :
    {A B : Type 0} (m : Exec A) (f : A → Exec B)
    → ((e : Engine) → Fine (m e).0)
    → ((a : A) (e : Engine) → Fine (f a e).0)
    → (e : Engine) → Fine ((m >>= f) e).0
unfolding ◌>>=◌
fine_bind {A} {B} m f h k e = let (r, e') = m e in by_answer r e' (h e)
  where
    by_answer : (r : Answer A) (e : Engine) → Fine r → Fine (continue r f e).0
    by_answer (done a) e fine = k a e
    by_answer (failed error) e fine = tt
    by_answer panicked e fine = fine

pub pure-fine : {A : Type 0} (a : A) (e : Engine) → Fine (pure a e).0
unfolding ◌>>=◌
pure-fine a e = tt

module _ (env : Env) where
  clean_file-fine : (e : Engine) → Fine (clean_file env e).0
  unfolding clean_file read_config ◌>>=◌
  clean_file-fine e = ground arith

  commit_config-fine : (next : Config) (e : Engine) → Fine (commit_config env next e).0
  unfolding commit_config store_save write_config after_write send_snapshot ◌>>=◌
  commit_config-fine next e = ground arith

  drop_pool-fine : (o : Outside) (name : String) (e : Engine) → Fine (drop_pool env o name e).0
  unfolding drop_pool ◌>>=◌
  drop_pool-fine o name = fine_bind _ _ clean_file-fine (λ _ e.
      commit_config-fine _
        (record e { state = record e.state { pools = remove name e.state.pools } }))

  drop_pool-Keeps : (o : Outside) (name : String) → Keeps (drop_pool env o name)
  unfolding drop_pool
  drop_pool-Keeps o name = search (keeps, Keeps-clean_file, Keeps-commit_config) depth 20

  pub drop_pool-IsSafe :
      {A : Type 0} (o : Outside) (name : String) (a : A) (e : Engine)
      → e.epoch < u64_mod
      → IsSafe ((drop_pool env o name >> pure a) e)
  drop_pool-IsSafe o name a e small =
      let whole : Keeps (drop_pool env o name >> pure a) =
        search (keeps, drop_pool-Keeps) depth 20 in
      (
        fine_bind _ _ (drop_pool-fine o name) (λ x f. pure-fine a f) e,
        subst (λ n. n < u64_mod) (sym (ap (λ c. c.0) (whole.run e))) small,
      )

module _ (names : Names) where
  -- From a working engine with the names.
  pub record Safe {A : Type 0} (m : Exec A) : Type 0 where
    pub run : (e : Engine) → IsWorking e → Holds names e → IsSafe (m e)

  pub Safe-Calm : {A : Type 0} (m : Exec A) → Calm names m → Safe m
  Safe-Calm m h = record {
    run = λ e w holds. let (fine, holds') = h.run e w holds in (fine, holds'.small);
  }

  Safe-if : {A : Type 0} (b : Bool) (m n : Exec A) → Safe m → Safe n → Safe (if b then m else n)
  Safe-if true m n h k = h
  Safe-if false m n h k = k

  pub IsSafe-continue :
      {A B : Type 0} (r : Answer A) (f : A → Exec B) (e : Engine)
      → ((a : A) → IsSafe (f a e))
      → Fine r
      → e.epoch < u64_mod
      → IsSafe (continue r f e)
  IsSafe-continue (done a) f e k fine small = k a
  IsSafe-continue (failed error) f e k fine small = (tt, small)
  IsSafe-continue panicked f e k fine small = absurd fine

  pub Safe-bind :
      {A B : Type 0} (m : Exec A) (f : A → Exec B)
      → Calm names m
      → ((a : A) → Safe (f a))
      → Safe (m >>= f)
  unfolding ◌>>=◌
  Safe-bind m f h k = record {
    run = λ e w holds.
        let (r, e') = m e in
        let (fine, holds') = h.run e w holds in
        IsSafe-continue r f e' (λ a. (k a).run e' (h.keeps.run e w).working holds') fine
          holds'.small;
  }

module _ (env : Env) (loads : (n : ℕ) → env.load_fails n ≡ false) (o : Outside)
    (names : Names) where
  stop_owned-Calm : (run : Run) (c : Option Container) → Calm names (stop_owned env o run c)
  stop_owned-Calm run none = Calm-pure names tt
  stop_owned-Calm run (some c) = search (calm, loads, archive-Calm) depth 24

  pub stop_forced-Calm :
      (containers : List Container) (runs : List Run)
      → Calm names (stop_forced env o containers runs)
  unfolding stop_forced
  stop_forced-Calm containers [] = Calm-pure names tt
  stop_forced-Calm containers (run ∷ rest) =
      Calm-bind names _ _ (Calm-gets names _) λ manager.
        Calm-bind names _ _ (stop_owned-Calm run _) (λ _. stop_forced-Calm containers rest)

  remove_log-Calm : (filename : String) → Calm names (remove_log env o filename)
  unfolding remove_log
  remove_log-Calm filename = search (calm) depth 24

  expire_entries-Calm :
      (state : State) (entries : List (Result LogEntry))
      → Calm names (expire_entries env o state entries)
  unfolding expire_entries
  expire_entries-Calm state [] = Calm-pure names tt
  expire_entries-Calm state (err error ∷ rest) = Calm-raise names error
  expire_entries-Calm state (ok entry ∷ rest) =
      Calm-bind names _ _ (search (calm, remove_log-Calm) depth 6)
        λ _. expire_entries-Calm state rest

  expire_logs-Calm : Calm names (expire_logs env o)
  unfolding expire_logs
  expire_logs-Calm = search (calm, expire_entries-Calm) depth 24

  index_manager_id-Calm : Calm names index_manager_id
  unfolding index_manager_id
  index_manager_id-Calm = record {
    keeps = Keeps-index_manager_id;
    run = λ e w holds.
        let sliceable = w.0.manager_id_sliceable in
        (ground arith, subst (Holds names) (sym (index_manager_id_reads e)) holds);
  }

  record_new-Calm : (pool : Pool) (ps : PoolState) → Calm names (record_new env o pool ps)
  unfolding record_new
  record_new-Calm pool ps = search (calm, index_manager_id-Calm) depth 24

  replenish-Calm : (pool : Pool) (ps : PoolState) → Calm names (replenish env o pool ps)
  unfolding replenish
  replenish-Calm pool ps = search (calm, loads, record_new-Calm) depth 24

  fill-Calm :
      (pool : Pool) (ps : PoolState) (allow : Bool) (unexpected unknown : ℕ)
      → Calm names (fill env o pool ps allow unexpected unknown)
  unfolding fill
  fill-Calm pool ps allow unexpected unknown =
      search (calm, replenish-Calm, expire_logs-Calm) depth 24

  raise_first-Calm : (error : Option Error) → Calm names (raise_first error)
  unfolding raise_first
  raise_first-Calm none = Calm-pure names tt
  raise_first-Calm (some error) = Calm-raise names error

  pub settle-Safe :
      (name : String) (pool : Pool) (ps : PoolState) (allow : Bool) (unknown : ℕ) (p : Progress)
      → Safe names (settle env o name pool ps allow unknown p)
  unfolding settle
  settle-Safe name pool ps allow unknown p =
      Safe-bind names _ _ (raise_first-Calm p.cleanup_error) λ _.
        Safe-bind names _ _ (Calm-gets names _) λ s.
          Safe-if names (ps.deleting && length (pool_runs ps.id s.runs) == 0)
            (drop_pool env o name >> pure p.unexpected_exits) _
            (record {
              run = λ e w holds. drop_pool-IsSafe env o name p.unexpected_exits e holds.small;
            })
            (Safe-Calm names _ (fill-Calm pool ps allow p.unexpected_exits unknown))
