-- ===== src/Engine/Reconcile/Calm/Start.antt =====
-- `reconcile` of src/manager.rs from its start: a state that is well formed and stored.
use runnerctl.Common.{
  ℕ, ◌<◌, String, ◌≡◌, refl, sym, ◌∙◌, subst, Bool, true, false, Option, none, some, List, [], ◌∷◌,
  any, arith, if◌then◌else◌, length, not, ◌&&◌,
}
use runnerctl.Result.{Result}
use runnerctl.BTreeMap.{BTreeMap, contains_key, values}
use runnerctl.BTreeMap.Laws.{some_of_contains_key}
use runnerctl.Config.{Auth, Pool}
use runnerctl.Config.Memory.{u64_mod}
use runnerctl.Config.Validate.{validate}
use runnerctl.Config.Validate.Laws.{AreFine, validate_pools_sound}
use runnerctl.State.{PoolState, State}
use runnerctl.Retiring.{in_pool, find_pool}
use runnerctl.Engine.{Env, Engine, Exec, pure, gets, ◌>>=◌, ◌>>◌, context, index_pool}
use runnerctl.Engine.Sound.{IsWellFormed, bind_of_eq, index_pool-some}
use runnerctl.Engine.Sound.Wf.{configured_of_find}
use runnerctl.Engine.Handle.Names.{Has}
use runnerctl.Engine.Reconcile.{Container, Outside, external}
use runnerctl.Engine.Reconcile.Pass.{drop_pool, work, reconcile}
use runnerctl.Engine.Reconcile.Calm.{Holds, Calm, Calm-pure, Calm-gets, Calm-if}
use runnerctl.Engine.Reconcile.Calm.Calls.{Calm-external}
use runnerctl.Engine.Reconcile.Calm.Auth.{
  some_eq, HasAuth, IsCurrent, Sets, Sets-gets, Sets-pure, Sets-if, Sets-ask, stop_forced-Sets,
}
use runnerctl.Engine.Reconcile.Calm.Loop.{names_of}
use runnerctl.Engine.Reconcile.Calm.Pass.{
  Starts, Starts-if, Starts-bind, Starts-auth, marked-IsSafe,
}
use runnerctl.Engine.Reconcile.Calm.Settle.{IsSafe, stop_forced-Calm, drop_pool-IsSafe}

-- A pool of a valid configuration has a known profile.
auth_of_find :
    (auths : BTreeMap Auth) (names : List String) (pools : List Pool) (name : String) (p : Pool)
    → AreFine auths names pools
    → find_pool name pools ≡ some p
    → contains_key p.auth auths ≡ true
auth_of_find auths names [] name p fine h = absurd (ground arith)
auth_of_find auths names (q ∷ rest) name p fine h =
    ground (arith, auth_of_find auths (q.name ∷ names) rest name p fine.1)

pub known_profile :
    (s : State) (name : String) (p : Pool)
    → IsWellFormed s
    → find_pool name s.config.pools ≡ some p
    → contains_key p.auth s.config.auth ≡ true
unfolding validate
known_profile s name p w found =
    auth_of_find s.config.auth [] s.config.pools name p
      (validate_pools_sound s.config.auth [] s.config.pools (ground (arith, w.valid))) found

pure-IsSafe : {A : Type 0} (a : A) (e : Engine) → e.epoch < u64_mod → IsSafe (pure a e)
unfolding ◌>>=◌
pure-IsSafe a e small = (tt, small)

module _ (env : Env) (loads : (n : ℕ) → env.load_fails n ≡ false) (o : Outside)
    (few : (n : ℕ) → length (o.arrivals n) < u64_mod) (name : String) where
  ask-Calm :
      {A : Type 0} (answer : ℕ → Result A)
      → Calm (names_of name []) (external env o (pure tt) answer)
  ask-Calm answer = Calm-external _ env loads o (pure tt) answer (Calm-pure _ tt)

  module _ (profile : String) where
    Starts-both :
        {A B : Type 0} (m : Exec A) (f : A → Exec B)
        → Calm (names_of name []) m
        → Sets profile m
        → ((a : A) → Starts env loads o few name profile (f a))
        → Starts env loads o few name profile (m >>= f)
    Starts-both = Starts-bind env loads o few name profile

    Starts-read :
        {A B : Type 0} (g : Engine → A) (f : A → Exec B)
        → ((a : A) → Starts env loads o few name profile (f a))
        → Starts env loads o few name profile (gets g >>= f)
    Starts-read g f = Starts-both _ f (Calm-gets _ g) (Sets-gets profile g)

    Starts-ask :
        {A B : Type 0} (answer : ℕ → Result A) (f : A → Exec B)
        → ((a : A) → Starts env loads o few name profile (f a))
        → Starts env loads o few name profile (external env o (pure tt) answer >>= f)
    Starts-ask answer f =
        Starts-both _ f (ask-Calm answer) (Sets-ask profile env loads o few answer)

  work-Starts :
      (pool : Pool) (ps : PoolState) (allow : Bool) (containers : List Container)
      → Starts env loads o few name pool.auth (work env o name pool ps allow containers)
  unfolding work
  work-Starts pool ps allow containers = Starts-read pool.auth _ _ λ state.
      Starts-both pool.auth _ _ (stop_forced-Calm env loads o _ containers _)
        (stop_forced-Sets pool.auth env loads o few containers _)
        λ _. Starts-read pool.auth _ _ λ still_forced.
          Starts-both pool.auth _ _
            (Calm-if _ still_forced _ _ (ask-Calm o.containers) (Calm-pure _ containers))
            (Sets-if pool.auth still_forced _ _ (Sets-ask pool.auth env loads o few o.containers)
              (Sets-pure pool.auth containers))
            λ containers'. Starts-auth env loads o few name pool.auth _ λ a.
              Starts-ask pool.auth _ _ λ remotes. record {
                run = λ e w holds set.
                    marked-IsSafe env loads o few name remotes containers' allow pool ps _ _ e w
                      holds;
              }

  -- What follows the reads of the pool and its state.
  abbrev pass_from : Bool → Pool → PoolState → Exec ℕ
  pass_from allow pool ps = do
    containers ← external env o (pure tt) o.containers
    state ← gets (λ e. e.state)
    if not (any (in_pool ps.id) (values state.runs)) && not ps.running
        then (if ps.deleting then drop_pool env o name else pure tt) >> pure 0
        else work env o name pool ps allow containers

  idle-Starts :
      (profile : String) (b : Bool)
      → Starts env loads o few name profile {A = ℕ}
          ((if b then drop_pool env o name else pure tt) >> pure 0)
  idle-Starts profile true = record {
    run = λ e w holds set. drop_pool-IsSafe env o name 0 e holds.small;
  }
  idle-Starts profile false =
      Starts-both profile _ _ (Calm-pure _ tt) (Sets-pure profile tt)
        λ _. record { run = λ e w holds set. pure-IsSafe 0 e holds.small }

  pass_from-Starts :
      (pool : Pool) (ps : PoolState) (allow : Bool)
      → Starts env loads o few name pool.auth (pass_from allow pool ps)
  pass_from-Starts pool ps allow = Starts-ask pool.auth _ _ λ containers.
      Starts-read pool.auth _ _ λ state.
        Starts-if env loads o few name pool.auth _ _ _ (idle-Starts pool.auth ps.deleting)
          (work-Starts pool ps allow containers)

  -- When a pass starts, the state is the stored one, and the reconciliation has the present epoch.
  pub record IsFresh (e : Engine) : Type 0 where
    pub well_formed : IsWellFormed e.state
    pub stored : e.row ≡ some e.state
    pub started : e.reconcile_epoch ≡ some e.epoch
    pub small : e.epoch < u64_mod

  Holds-fresh :
      (e : Engine) → IsFresh e → contains_key name e.state.pools ≡ true → Holds (names_of name []) e
  Holds-fresh e fresh known =
      let has : Has (names_of name []) e.state = record {
        runs = λ j k. absurd (ground arith);
        pool = known;
      } in
      record {
        named = record {
          state = has;
          row = λ s r. subst (Has (names_of name [])) (some_eq (sym fresh.stored ∙ r)) has;
        };
        small = fresh.small;
      }

  IsCurrent-fresh :
      (profile : String) (e : Engine)
      → IsFresh e
      → contains_key profile e.state.config.auth ≡ true
      → IsCurrent profile e
  IsCurrent-fresh profile e fresh known = record {
    started = fresh.started;
    small = fresh.small;
    state = known;
    row = λ s r. subst (HasAuth profile) (some_eq (sym fresh.stored ∙ r)) known;
  }

  pub reconcile-IsSafe :
      (allow : Bool) (e : Engine) → IsFresh e → IsSafe (reconcile env o name allow e)
  unfolding reconcile ◌>>=◌
  reconcile-IsSafe allow e fresh = by_pool (find_pool name e.state.config.pools) refl
    where
      by_pool :
          (found : Option Pool)
          → find_pool name e.state.config.pools ≡ found
          → IsSafe {A = ℕ} (
              (context found "missing pool config" >>= λ pool.
              index_pool name >>= λ ps. pass_from allow pool ps)
                e)
      by_pool none h = (tt, fresh.small)
      by_pool (some pool) h =
          let known = sym (fresh.well_formed.matching name) ∙ configured_of_find name _ pool h in
          let (ps, found) = some_of_contains_key name e.state.pools known in
          subst IsSafe (sym (bind_of_eq (index_pool name) _ e e ps (index_pool-some name e found)))
            ((pass_from-Starts pool ps allow).run e
              (fresh.well_formed, (e.state, fresh.stored, fresh.well_formed))
              (Holds-fresh e fresh known)
              (IsCurrent-fresh pool.auth e fresh
                (known_profile e.state name pool fresh.well_formed h)))
