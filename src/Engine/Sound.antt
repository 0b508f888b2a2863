-- ===== src/Engine/Sound.antt =====
-- The manager's invariant, and triples for actions: what holds after an action that returns, and,
-- after one that fails, that the row can still be read back.
pub mod Rules
pub mod Wf
pub mod Store
pub mod Targets
pub mod Handlers
pub mod Apply
pub mod Theorem
use runnerctl.Common.{
  String, ◌≡◌, ◌≢◌, ◌⊎◌, inl, inr, refl, Bool, true, false, Option, none, some, List, any, str_eq,
  ◌∙◌, sym, subst, ap, ℕ, ◌+◌, arith, if◌then◌else◌,
}
use runnerctl.Result.{Error, Result, ok, err, message}
use runnerctl.Common.Text.{is_sliceable}
use runnerctl.BTreeMap.{BTreeMap, lookup, contains_key, modify}
use runnerctl.BTreeMap.Laws.{some_of_contains_key}
use runnerctl.BTreeMap.Laws.Order.{IsSorted}
use runnerctl.Config.{Pool, Config}
use runnerctl.Config.Validate.{validate}
use runnerctl.State.{PoolState, Run, State}
use runnerctl.Retiring.Laws.Exact.{IsKeyed}
use runnerctl.Engine.{
  Engine, Exec, Answer, done, failed, panicked, pure, lift, gets, update, ◌>>=◌, ◌>>◌, ensure,
  context, next_io, continue, update_state, index_pool, modify_pool,
}

-- Some pool of the configuration has the name.
abbrev pub configured : String → List Pool → Bool
configured name = any (λ p. str_eq p.name name)

-- The configuration is valid, the pools with a state are those of the configuration, and the maps
-- are ordered, each run under its own id, and the manager's id has a prefix of
-- eight bytes.
pub record IsWellFormed (s : State) : Type 0 where
  pub valid : validate s.config ≡ ok tt
  pub matching : (name : String) → configured name s.config.pools ≡ contains_key name s.pools
  pub pools_sorted : IsSorted s.pools
  pub runs_sorted : IsSorted s.runs
  pub runs_keyed : IsKeyed s.runs
  pub manager_id_sliceable : is_sliceable 8 s.manager_id ≡ true

-- The row holds a well-formed state.
abbrev pub HasRow : Engine → Type 0
HasRow e = (s : State) × (e.row ≡ some s) × IsWellFormed s

-- The readers see the current state, if there are any.
abbrev pub IsShown : Engine → Type 0
IsShown e = (e.snapshot ≡ none) ⊎ (e.snapshot ≡ some e.state)

-- The state in memory is well formed, and is what the row holds and what the readers see.
pub record IsSound (e : Engine) : Type 0 where
  pub well_formed : IsWellFormed e.state
  pub stored : e.row ≡ some e.state
  pub shown : IsShown e

-- The state in memory is well formed, and the row holds a state that is; the two may differ, as they
-- do in the middle of a reconciliation.
abbrev pub IsWorking : Engine → Type 0
IsWorking e = IsWellFormed e.state × HasRow e

-- In the middle of a request, in a known state.
abbrev pub At : State → Engine → Type 0
At s e = (e.state ≡ s) × HasRow e

-- After the state was saved.
abbrev pub Saved : State → Engine → Type 0
Saved s e = (e.state ≡ s) × (e.row ≡ some s) × IsShown e × IsWellFormed s

abbrev pub Outcome : {A : Type 0} → (A → Engine → Type 0) → Answer A × Engine → Type 0
Outcome Q (done a, e) = Q a e
Outcome Q (failed error, e) = HasRow e
Outcome Q (panicked, e) = ⊥

pub record Triple {A : Type 0} (P : Engine → Type 0) (m : Exec A) (Q : A → Engine → Type 0)
    : Type 0 where
  pub run : (e : Engine) → P e → Outcome Q (m e)

module _ {A B : Type 0} {R : B → Engine → Type 0} where
  Outcome-continue :
      (Q : A → Engine → Type 0) (f : A → Exec B) (r : Answer A) (e : Engine)
      → ((a : A) → Triple (Q a) (f a) R)
      → Outcome Q (r, e)
      → Outcome R (continue r f e)
  Outcome-continue Q f (done a) e k q = (k a).run e q
  Outcome-continue Q f (failed error) e k q = q
  Outcome-continue Q f panicked e k q = q

  pub Triple-bind :
      {P : Engine → Type 0} (Q : A → Engine → Type 0) (m : Exec A) (f : A → Exec B)
      → Triple P m Q
      → ((a : A) → Triple (Q a) (f a) R)
      → Triple P (m >>= f) R
  unfolding ◌>>=◌
  Triple-bind Q m f h k = record {
    run = λ e p. let (r, e') = m e in Outcome-continue Q f r e' k (h.run e p);
  }

module _ {A : Type 0} (Q R : A → Engine → Type 0)
    (weaken : (a : A) (e : Engine) → Q a e → R a e) where
  pub Outcome-map : (r : Answer A × Engine) → Outcome Q r → Outcome R r
  Outcome-map (done a, e) q = weaken a e q
  Outcome-map (failed error, e) q = q
  Outcome-map (panicked, e) q = q

  pub Triple-map : {P : Engine → Type 0} (m : Exec A) → Triple P m Q → Triple P m R
  Triple-map m h = record { run = λ e p. Outcome-map (m e) (h.run e p) }

-- Runs of single actions.
pub bind_of_eq :
    {A B : Type 0} (m : Exec A) (f : A → Exec B) (e e' : Engine) (a : A)
    → m e ≡ (done a, e')
    → (m >>= f) e ≡ f a e'
unfolding ◌>>=◌
bind_of_eq m f e e' a h = ap (λ (r : Answer _ × Engine). continue r.0 f r.1) h

pub index_pool-some :
    (name : String) (e : Engine) {p : PoolState}
    → lookup name e.state.pools ≡ some p
    → index_pool name e ≡ (done p, e)
unfolding ◌>>=◌
index_pool-some name e h = ground arith

pub modify_pool-some :
    (name : String) (g : PoolState → PoolState) (e : Engine) {p : PoolState}
    → lookup name e.state.pools ≡ some p
    → modify_pool name g e
      ≡ (done p, record e { state = record e.state { pools = modify name g e.state.pools } })
unfolding modify_pool
modify_pool-some name g e h = ground arith
