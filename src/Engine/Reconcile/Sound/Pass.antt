-- ===== src/Engine/Reconcile/Sound/Pass.antt =====
-- `reconcile` of src/manager.rs keeps the states well formed, whatever the outside answers and
-- whatever requests arrive, or ends with the error of a pool that could not be removed.
use runnerctl.Common.{
  ℕ, String, ◌≡◌, inl, inr, refl, sym, subst, Bool, true, false, Option, none, some, List, [], ◌∷◌,
  arith, Option-cases, if◌then◌else◌,
}
use runnerctl.Result.{Error, Result, ok, err, message, reconcile_interrupted}
use runnerctl.Config.{Pool}
use runnerctl.State.{PoolState, Run, State}
use runnerctl.Engine.{
  Env, Engine, Exec, Answer, done, failed, panicked, pure, gets, ◌>>=◌, ◌>>◌, continue,
}
use runnerctl.Engine.Sound.{IsWorking}
use runnerctl.Engine.Reconcile.{Container, LogEntry, RemoteRunner, Outside}
use runnerctl.Engine.Reconcile.Steps.{Progress}
use runnerctl.Engine.Reconcile.Pass.{
  index_auth, raise_first, drop_pool, stop_owned, stop_forced, rounds, remove_log, expire_entries,
  expire_logs, record_new, replenish, fill, settle, work, reconcile,
}
use runnerctl.Engine.Reconcile.Sound.{
  Keeps, Keeps-raise, Keeps-index_manager_id, Keeps-pure, Keeps-reads, Keeps-bind,
}
use runnerctl.Engine.Reconcile.Sound.Actions.{keeping}
use runnerctl.Engine.Reconcile.Sound.Uncrossed.{
  IsUncrossed, Returned, Plain, plain, Plain-pure, Plain-same, Plain-bind, Plain-gets, Plain-if,
  Plain-mark, Plain-save, Plain-context, Plain-index_pool,
}
use runnerctl.Engine.Reconcile.Sound.Calls.{ask-Plain, act-Plain}
use runnerctl.Engine.Reconcile.Sound.Rounds.{has_error, IsClear}
use runnerctl.Engine.Reconcile.Sound.Loop.{rounds-Noted, rounds-Keeps, archive-Plain}
use runnerctl.Engine.Reconcile.Sound.Ended.{IsEnded, commit_without, clean_file-Plain}

module _ (env : Env) (loads : (n : ℕ) → env.load_fails n ≡ false) (o : Outside)
    (name : String) where
  -- A part of the reconciliation of the pool `name` up to its end.
  pub record Ends {A : Type 0} (m : Exec A) : Type 0 where
    pub run : (e : Engine) → IsWorking e → IsUncrossed e → IsEnded env name (m e)

  Ends-Keeps : {A : Type 0} (m : Exec A) → Keeps m → Ends m
  Ends-Keeps m h = record { run = λ e w u. inl (h.run e w).working }

  IsEnded-after :
      {A B : Type 0} (r : Answer A) (f : A → Exec B) (e' : Engine)
      → ((a : A) → Ends (f a))
      → IsWorking e'
      → Returned (λ _. IsUncrossed) (r, e')
      → IsEnded env name (continue r f e')
  IsEnded-after (done a) f e' k w u = (k a).run e' w u
  IsEnded-after (failed error) f e' k w u = inl w
  IsEnded-after panicked f e' k w u = inl w

  Ends-bind :
      {A B : Type 0} (m : Exec A) (f : A → Exec B)
      → Plain m
      → ((a : A) → Ends (f a))
      → Ends (m >>= f)
  unfolding ◌>>=◌
  Ends-bind m f h k = record {
    run = λ e w u.
        let (r, e') = m e in IsEnded-after r f e' k (h.keeps.run e w).working (h.run e w u);
  }

  IsEnded-then_pure :
      {A B : Type 0} (r : Answer A) (b : B) (e' : Engine)
      → IsEnded env name (r, e')
      → IsEnded env name (continue r (λ _. pure b) e')
  unfolding ◌>>=◌
  IsEnded-then_pure (done a) b e' (inl w) = inl w
  IsEnded-then_pure (done a) b e' (inr h) = absurd h
  IsEnded-then_pure (failed error) b e' (inl w) = inl w
  IsEnded-then_pure (failed (message text)) b e' (inr h) = inr h
  IsEnded-then_pure (failed reconcile_interrupted) b e' (inr h) = absurd h
  IsEnded-then_pure panicked b e' (inl w) = inl w
  IsEnded-then_pure panicked b e' (inr h) = absurd h

  Ends-pure : {A B : Type 0} (m : Exec A) (b : B) → Ends m → Ends (m >> pure b)
  unfolding ◌>>=◌
  Ends-pure m b h = record {
    run = λ e w u. let (r, e') = m e in IsEnded-then_pure r b e' (h.run e w u);
  }

  Ends-if : {A : Type 0} (b : Bool) (m n : Exec A) → Ends m → Ends n → Ends (if b then m else n)
  Ends-if true m n h k = h
  Ends-if false m n h k = k

  drop_pool-Ends : Ends (drop_pool env o name)
  unfolding drop_pool ◌>>=◌
  drop_pool-Ends =
      Ends-bind _ _ (clean_file-Plain env)
        λ _. record { run = λ e w u. commit_without env name e w u }

  stop_owned-Plain : (run : Run) (c : Option Container) → Plain (stop_owned env o run c)
  stop_owned-Plain run none = Plain-pure tt
  stop_owned-Plain run (some c) =
      search (plain, archive-Plain env loads o, act-Plain env loads o) depth 24

  stop_forced-Plain :
      (containers : List Container) (runs : List Run) → Plain (stop_forced env o containers runs)
  unfolding stop_forced
  stop_forced-Plain containers [] = Plain-pure tt
  stop_forced-Plain containers (run ∷ rest) =
      Plain-bind (gets _) _ (Plain-gets _)
        λ manager. Plain-bind _ _ (stop_owned-Plain run _) (λ _. stop_forced-Plain containers rest)

  remove_log-Keeps : (filename : String) → Keeps (remove_log env o filename)
  unfolding remove_log
  remove_log-Keeps filename = search (keeping) depth 24

  expire_entries-Keeps :
      (state : State) (entries : List (Result LogEntry))
      → Keeps (expire_entries env o state entries)
  unfolding expire_entries
  expire_entries-Keeps state [] = Keeps-pure tt
  expire_entries-Keeps state (err error ∷ rest) = Keeps-raise error
  expire_entries-Keeps state (ok entry ∷ rest) =
      Keeps-bind _ _ (search (keeping, remove_log-Keeps) depth 6)
        λ _. expire_entries-Keeps state rest

  expire_logs-Keeps : Keeps (expire_logs env o)
  unfolding expire_logs
  expire_logs-Keeps = search (keeping, expire_entries-Keeps) depth 24

  record_new-Keeps : (pool : Pool) (ps : PoolState) → Keeps (record_new env o pool ps)
  unfolding record_new
  record_new-Keeps pool ps = search (keeping, Keeps-index_manager_id) depth 24

  replenish-Keeps : (pool : Pool) (ps : PoolState) → Keeps (replenish env o pool ps)
  unfolding replenish
  replenish-Keeps pool ps = search (keeping, loads, record_new-Keeps) depth 24

  fill-Keeps :
      (pool : Pool) (ps : PoolState) (allow : Bool) (unexpected unknown : ℕ)
      → Keeps (fill env o pool ps allow unexpected unknown)
  unfolding fill
  fill-Keeps pool ps allow unexpected unknown =
      search (keeping, replenish-Keeps, expire_logs-Keeps) depth 24

  raise_first-Plain : (error : Option Error) → Plain (raise_first error)
  unfolding raise_first
  raise_first-Plain none = Plain-pure tt
  raise_first-Plain (some error) = search (plain)

  settle-Ends :
      (pool : Pool) (ps : PoolState) (allow : Bool) (unknown : ℕ) (p : Progress)
      → Ends (settle env o name pool ps allow unknown p)
  unfolding settle
  settle-Ends pool ps allow unknown p = Ends-bind _ _ (raise_first-Plain p.cleanup_error) λ _.
      Ends-bind (gets _) _ (Plain-gets _) λ s.
        Ends-if _ _ _ (Ends-pure (drop_pool env o name) _ drop_pool-Ends)
          (Ends-Keeps _ (fill-Keeps pool ps allow p.unexpected_exits unknown))

  settle_noted :
      (pool : Pool) (ps : PoolState) (allow : Bool) (unknown : ℕ) (p : Progress) (e : Engine)
      → has_error p ≡ true
      → (settle env o name pool ps allow unknown p e).1 ≡ e
  unfolding settle raise_first ◌>>=◌
  settle_noted pool ps allow unknown p e h = elim (Option-cases p.cleanup_error) [
    | inl nothing ↦ absurd (ground arith)
    | inr (error, noted) ↦ rw noted refl
  ]

  -- What follows the loop, from where the loop may end.
  settle_after :
      (pool : Pool) (ps : PoolState) (allow : Bool) (unknown : ℕ) (r : Answer Progress) (e : Engine)
      → IsWorking e
      → Returned (λ p. IsClear (has_error p)) (r, e)
      → IsEnded env name (continue r (settle env o name pool ps allow unknown) e)
  settle_after pool ps allow unknown (done p) e w (inl u) =
      (settle-Ends pool ps allow unknown p).run e w u
  settle_after pool ps allow unknown (done p) e w (inr t) =
      inl (subst IsWorking (sym (settle_noted pool ps allow unknown p e t)) w)
  settle_after pool ps allow unknown (failed error) e w c = inl w
  settle_after pool ps allow unknown panicked e w c = inl w

  index_auth-Plain : (profile : String) → Plain (index_auth profile)
  unfolding index_auth
  index_auth-Plain profile = Plain-same _ (Keeps-reads _ (λ e. ground arith)) (λ e. ground arith)

  rounds_and_settle-Ends :
      (remotes : List RemoteRunner) (containers : List Container) (allow : Bool) (ids : List String)
      (pool : Pool) (ps : PoolState) (unknown : ℕ)
      → Ends (
          rounds env o name remotes containers allow ids
            (record { cleanup_error = none; unexpected_exits = 0 })
          >>= settle env o name pool ps allow unknown)
  unfolding ◌>>=◌
  rounds_and_settle-Ends remotes containers allow ids pool ps unknown = record {
    run = λ e w u.
        let start : Progress = record { cleanup_error = none; unexpected_exits = 0 } in
        let (r, e') = rounds env o name remotes containers allow ids start e in
        settle_after pool ps allow unknown r e'
          ((rounds-Keeps env loads o name remotes containers allow ids start).run e w).working
          ((rounds-Noted env loads o name remotes containers allow ids start).run e w (inl u));
  }

  work-Ends :
      (pool : Pool) (ps : PoolState) (allow : Bool) (containers : List Container)
      → Ends (work env o name pool ps allow containers)
  unfolding work
  work-Ends pool ps allow containers = Ends-bind (gets _) _ (Plain-gets _) λ state.
      Ends-bind _ _ (stop_forced-Plain containers _) λ _.
        Ends-bind (gets _) _ (Plain-gets _) λ still_forced.
          Ends-bind _ _
            (Plain-if still_forced _ _ (ask-Plain env loads o o.containers) (Plain-pure containers))
            λ containers'. Ends-bind _ _ (index_auth-Plain pool.auth) λ _.
              Ends-bind _ _ (ask-Plain env loads o o.remotes) λ remotes.
                Ends-bind (gets _) _ (Plain-gets _) λ ids. Ends-bind _ _ (Plain-mark name) λ _.
                  Ends-bind _ _ (Plain-save env)
                    λ _. rounds_and_settle-Ends remotes containers' allow ids pool ps _

  pub reconcile-Ends : (allow : Bool) → Ends (reconcile env o name allow)
  unfolding reconcile
  reconcile-Ends allow = Ends-bind (gets _) _ (Plain-gets _) λ found.
      Ends-bind _ _ (Plain-context found _) λ pool. Ends-bind _ _ (Plain-index_pool name) λ ps.
        Ends-bind _ _ (ask-Plain env loads o o.containers) λ containers.
          Ends-bind (gets _) _ (Plain-gets _) λ state.
            Ends-if _ _ _
              (Ends-pure _ 0
                (Ends-if ps.deleting _ _ drop_pool-Ends (Ends-Keeps _ (Keeps-pure tt))))
              (work-Ends pool ps allow containers)
