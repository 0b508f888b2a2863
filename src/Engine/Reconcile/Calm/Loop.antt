-- ===== src/Engine/Reconcile/Calm/Loop.antt =====
-- The loop of `reconcile` in src/manager.rs over the runs of a pool: no index fails in it.
use runnerctl.Common.{
  ℕ, String, ◌≡◌, ◌≢◌, refl, subst, Bool, true, false, List, [], ◌∷◌, map, any, arith, str_eq,
  eq_iff, eq_refl,
}
use runnerctl.BTreeMap.{BTreeMap, contains_key}
use runnerctl.BTreeMap.Laws.Order.{Less, Less-irrefl, Below, IsSorted}
use runnerctl.State.{Run, State}
use runnerctl.Retiring.{pool_runs}
use runnerctl.Retiring.Laws.Exact.{IsKeyed}
use runnerctl.Engine.{Env, Engine, Exec, Answer, done, failed, panicked, ◌>>=◌, continue}
use runnerctl.Engine.Sound.{IsWorking}
use runnerctl.Engine.Handle.Names.{Names, Has}
use runnerctl.Engine.Reconcile.{Container, RemoteRunner, Outside}
use runnerctl.Engine.Reconcile.Steps.{Progress, round}
use runnerctl.Engine.Reconcile.Pass.{rounds}
use runnerctl.Engine.Reconcile.Sound.Steps.{round-Keeps}
use runnerctl.Engine.Reconcile.Calm.{Fine, Holds}
use runnerctl.Engine.Reconcile.Calm.Round.{round-Calm}

-- The runs of a list, and a pool.
abbrev pub names_of : String → List String → Names
names_of name ids = record { runs = λ j. any (str_eq j) ids; pool = name }

abbrev pub ids_of : String → BTreeMap Run → List String
ids_of id runs = map (λ r. r.id) (pool_runs id runs)

abbrev pub IsDistinct : List String → Type 0
IsDistinct [] = Unit
IsDistinct (id ∷ ids) = (any (str_eq id) ids ≡ false) × IsDistinct ids

above_ids :
    (id k : String) (m : BTreeMap Run)
    → Below k m
    → IsKeyed m
    → any (str_eq k) (ids_of id m) ≡ false
above_ids id k [] b h = refl
above_ids id k ((j, r) ∷ m) b h =
    let ne : k ≢ j = λ e. Less-irrefl j (subst (λ x. Less x j) e b.0) in
    ground (arith, eq_iff k r.id, h.0, above_ids id k m b.1 h.1)

pub ids_of-IsDistinct :
    (id : String) (m : BTreeMap Run) → IsSorted m → IsKeyed m → IsDistinct (ids_of id m)
ids_of-IsDistinct id [] s h = tt
ids_of-IsDistinct id ((k, r) ∷ m) s h =
    let first : any (str_eq r.id) (ids_of id m) ≡ false = rw h.0 (above_ids id k m s.0 h.1) in
    ground (arith, ids_of-IsDistinct id m s.1 h.1)

pub contains_key_of_ids :
    (id j : String) (m : BTreeMap Run)
    → IsKeyed m
    → any (str_eq j) (ids_of id m) ≡ true
    → contains_key j m ≡ true
contains_key_of_ids id j [] h e = absurd (ground arith)
contains_key_of_ids id j ((k, r) ∷ m) h e =
    ground (arith, eq_iff j r.id, eq_iff j k, h.0, contains_key_of_ids id j m h.1)

-- Fewer runs.
pub Holds-fewer :
    (name : String) (ids fewer : List String) (e : Engine)
    → ((j : String) → any (str_eq j) fewer ≡ true → any (str_eq j) ids ≡ true)
    → Holds (names_of name ids) e
    → Holds (names_of name fewer) e
Holds-fewer name ids fewer e h holds = record {
  named = record {
    state = fewer_runs e.state holds.named.state;
    row = λ s r. fewer_runs s (holds.named.row s r);
  };
  small = holds.small;
}
  where
    fewer_runs : (s : State) → Has (names_of name ids) s → Has (names_of name fewer) s
    fewer_runs s has = record { runs = λ j k. has.runs j (h j k); pool = has.pool }

module _ (env : Env) (loads : (n : ℕ) → env.load_fails n ≡ false) (o : Outside) (name : String)
    (remotes : List RemoteRunner) (containers : List Container) (allow : Bool) where
  -- From an engine with the runs of the list.
  pub rounds-Calm :
      (ids : List String) (p : Progress) (e : Engine)
      → IsDistinct ids
      → IsWorking e
      → Holds (names_of name ids) e
      → Fine (rounds env o name remotes containers allow ids p e).0
        × Holds (names_of name []) (rounds env o name remotes containers allow ids p e).1
  unfolding rounds ◌>>=◌
  rounds-Calm [] p e distinct w holds = (tt, holds)
  rounds-Calm (id ∷ rest) p e distinct w holds =
      let here = holds.named.state.runs id (ground (arith, eq_refl id)) in
      let (fine, holds') =
        round-Calm (names_of name rest) env loads o id distinct.0 remotes containers allow p e w
          (Holds-fewer name (id ∷ rest) rest e (λ j k. ground arith) holds) here in
      let w' = ((round-Keeps env loads o name remotes containers allow p id).run e w).working in
      let (r, e') = round env o name remotes containers allow p id e in
      after_round (rounds env o name remotes containers allow rest)
        (λ q f w h. rounds-Calm rest q f distinct.1 w h) r e' fine w' holds'
    where
      after_round :
          (f : Progress → Exec Progress)
          → ((p : Progress) (e : Engine)
              → IsWorking e
              → Holds (names_of name rest) e
              → Fine (f p e).0 × Holds (names_of name []) (f p e).1)
          → (r : Answer Progress) (e : Engine) → Fine r
          → IsWorking e
          → Holds (names_of name rest) e
          → Fine (continue r f e).0 × Holds (names_of name []) (continue r f e).1
      after_round f k (done next) e fine w holds = k next e w holds
      after_round f k (failed error) e fine w holds =
          (tt, Holds-fewer name rest [] e (λ j k. absurd (ground arith)) holds)
      after_round f k panicked e fine w holds = absurd fine
