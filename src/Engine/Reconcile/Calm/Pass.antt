-- ===== src/Engine/Reconcile/Calm/Pass.antt =====
-- `reconcile` of src/manager.rs: no index fails in a pass.
use runnerctl.Common.{
  ℕ, ◌<◌, String, ◌≡◌, sym, ◌∙◌, subst, Bool, true, false, some, List, [], map, arith,
  if◌then◌else◌, length,
}
use runnerctl.BTreeMap.{lookup}
use runnerctl.BTreeMap.Laws.{some_of_contains_key}
use runnerctl.Config.{Auth, Pool}
use runnerctl.Config.Memory.{u64_mod}
use runnerctl.State.{PoolState}
use runnerctl.Retiring.{pool_runs}
use runnerctl.Engine.{
  Env, Engine, Exec, Answer, done, failed, panicked, gets, ◌>>=◌, ◌>>◌, mark, continue,
}
use runnerctl.Engine.Store.{save}
use runnerctl.Engine.Sound.{IsWorking, bind_of_eq}
use runnerctl.Engine.Sound.Wf.{mark_retiring-IsWellFormed}
use runnerctl.Engine.Handle.Names.{Names, Has}
use runnerctl.Engine.Handle.Names.Rules.{mark_retiring-Has}
use runnerctl.Engine.Reconcile.{Container, RemoteRunner, Outside}
use runnerctl.Engine.Reconcile.Steps.{Progress}
use runnerctl.Engine.Reconcile.Pass.{index_auth, rounds, settle}
use runnerctl.Engine.Reconcile.Sound.Loop.{rounds-Keeps}
use runnerctl.Engine.Reconcile.Sound.Uncrossed.{Returned}
use runnerctl.Engine.Reconcile.Calm.{Fine, Holds, Calm}
use runnerctl.Engine.Reconcile.Calm.Calls.{Calm-save}
use runnerctl.Engine.Reconcile.Sound.Actions.{Keeps-save, mark-some}
use runnerctl.Engine.Reconcile.Calm.Saved.{IsSaved, save-IsSaved}
use runnerctl.Engine.Reconcile.Calm.Auth.{some_eq, IsCurrent, Sets}
use runnerctl.Engine.Reconcile.Calm.Loop.{
  names_of, ids_of, IsDistinct, ids_of-IsDistinct, contains_key_of_ids, rounds-Calm,
}
use runnerctl.Engine.Reconcile.Calm.Settle.{IsSafe, Safe, IsSafe-continue, settle-Safe}

module _ (env : Env) (loads : (n : ℕ) → env.load_fails n ≡ false) (o : Outside)
    (few : (n : ℕ) → length (o.arrivals n) < u64_mod) (name : String) where
  abbrev pub alone : Names
  alone = names_of name []

  -- The loop and what follows it, from a state with its runs.
  loop-IsSafe :
      (remotes : List RemoteRunner) (containers : List Container) (allow : Bool) (ids : List String)
      (pool : Pool) (ps : PoolState) (unknown : ℕ) (p : Progress) (e : Engine)
      → IsDistinct ids
      → IsWorking e
      → Holds (names_of name ids) e
      → IsSafe (
          (rounds env o name remotes containers allow ids p
              >>= settle env o name pool ps allow unknown)
            e)
  unfolding ◌>>=◌
  loop-IsSafe remotes containers allow ids pool ps unknown p e distinct w holds =
      let w' = ((rounds-Keeps env loads o name remotes containers allow ids p).run e w).working in
      let (fine, holds') =
        rounds-Calm env loads o name remotes containers allow ids p e distinct w holds in
      let (r, e') = rounds env o name remotes containers allow ids p e in
      IsSafe-continue alone r (settle env o name pool ps allow unknown) e'
        (λ q. (settle-Safe env loads o alone name pool ps allow unknown q).run e' w' holds') fine
        holds'.small

  -- The runs of the pool, from where they are listed.
  save_and_loop-IsSafe :
      (remotes : List RemoteRunner) (containers : List Container) (allow : Bool) (ids : List String)
      (pool : Pool) (ps : PoolState) (unknown : ℕ) (p : Progress) (e : Engine)
      → IsDistinct ids
      → IsWorking e
      → Holds alone e
      → Has (names_of name ids) e.state
      → IsSafe (
          (save env >>= λ _.
          rounds env o name remotes containers allow ids p
          >>= settle env o name pool ps allow unknown)
            e)
  unfolding ◌>>=◌
  save_and_loop-IsSafe remotes containers allow ids pool ps unknown p e distinct w holds has =
      let (fine, holds') = (Calm-save alone env).run e w holds in
      let w' = ((Keeps-save env).run e w).working in
      let (r, f) = save env e in by_save r f (save-IsSaved env e) fine w' holds'
    where
      by_save :
          (r : Answer (Unit {0})) (f : Engine)
          → Returned (λ _. IsSaved e) (r, f)
          → Fine r
          → IsWorking f
          → Holds alone f
          → IsSafe (
              continue r
                (λ _.
                  rounds env o name remotes containers allow ids p
                  >>= settle env o name pool ps allow unknown)
                f)
      by_save (done x) f saved fine w' holds' =
          let has' = subst (Has (names_of name ids)) (sym saved.state) has in
          loop-IsSafe remotes containers allow ids pool ps unknown p f distinct w' (record {
            named = record {
              state = has';
              row = λ t r.
                  subst (Has (names_of name ids)) (some_eq (sym saved.settled.stored ∙ r)) has';
            };
            small = holds'.small;
          })
      by_save (failed error) f saved fine w' holds' = (tt, holds'.small)
      by_save panicked f saved fine w' holds' = absurd fine

  pub marked-IsSafe :
      (remotes : List RemoteRunner) (containers : List Container) (allow : Bool) (pool : Pool)
      (ps : PoolState) (unknown : ℕ) (p : Progress) (e : Engine)
      → IsWorking e
      → Holds alone e
      → IsSafe (
          (do
            ids ← gets (λ e. map (λ r. r.id) (pool_runs ps.id e.state.runs))
            mark name
            save env
            progress ← rounds env o name remotes containers allow ids p
            settle env o name pool ps allow unknown progress)
            e)
  unfolding ◌>>=◌
  marked-IsSafe remotes containers allow pool ps unknown p e w holds =
      let ids = ids_of ps.id e.state.runs in
      let known = holds.named.state.pool in
      let (runs', marked, well) = mark_retiring-IsWellFormed name e.state w.0 known in
      let f = record e { state = record e.state { runs = runs' } } in
      let listed : Has (names_of name ids) e.state = record {
        runs = λ j k. contains_key_of_ids ps.id j e.state.runs w.0.runs_keyed k;
        pool = known;
      } in
      subst IsSafe (sym (bind_of_eq (mark name) _ e f tt (mark-some name e runs' marked))) (
        save_and_loop-IsSafe remotes containers allow ids pool ps unknown p f
          (ids_of-IsDistinct ps.id e.state.runs w.0.runs_sorted w.0.runs_keyed) (well, w.1)
          (record {
            named = record {
              state = record { runs = λ j k. absurd (ground arith); pool = known };
              row = holds.named.row;
            };
            small = holds.small;
          })
          (mark_retiring-Has (names_of name ids) name e.state f.state marked listed))

  module _ (profile : String) where
    -- Before anything crossed the reconciliation.
    pub record Starts {A : Type 0} (m : Exec A) : Type 0 where
      pub run : (e : Engine) → IsWorking e → Holds alone e → IsCurrent profile e → IsSafe (m e)

    pub Starts-Safe : {A : Type 0} (m : Exec A) → Safe alone m → Starts m
    Starts-Safe m h = record { run = λ e w holds set. h.run e w holds }

    pub Starts-if :
        {A : Type 0} (b : Bool) (m n : Exec A) → Starts m → Starts n → Starts (if b then m else n)
    Starts-if true m n h k = h
    Starts-if false m n h k = k

    pub Starts-bind :
        {A B : Type 0} (m : Exec A) (f : A → Exec B)
        → Calm alone m
        → Sets profile m
        → ((a : A) → Starts (f a))
        → Starts (m >>= f)
    unfolding ◌>>=◌
    Starts-bind {A} {B} m f h s k = record {
      run = λ e w holds set.
          let (r, e') = m e in
          let (fine, holds') = h.run e w holds in
          by_answer r e' fine (h.keeps.run e w).working holds' (s.run e w set);
    }
      where
        by_answer :
            (r : Answer A) (e : Engine)
            → Fine r
            → IsWorking e
            → Holds alone e
            → Returned (λ _. IsCurrent profile) (r, e)
            → IsSafe (continue r f e)
        by_answer (done a) e fine w holds set = (k a).run e w holds set
        by_answer (failed error) e fine w holds set = (tt, holds.small)
        by_answer panicked e fine w holds set = absurd fine

    index_auth-some :
        (e : Engine) (a : Auth)
        → lookup profile e.state.config.auth ≡ some a
        → index_auth profile e ≡ (done a, e)
    unfolding index_auth
    index_auth-some e a h = ground arith

    pub Starts-auth :
        {B : Type 0} (f : Auth → Exec B)
        → ((a : Auth) → Starts (f a))
        → Starts (index_auth profile >>= f)
    Starts-auth f k = record {
      run = λ e w holds set.
          let (a, found) = some_of_contains_key profile e.state.config.auth set.state in
          subst IsSafe (sym (bind_of_eq (index_auth profile) f e e a (index_auth-some e a found)))
            ((k a).run e w holds set);
    }
