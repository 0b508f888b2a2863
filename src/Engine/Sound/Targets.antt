-- ===== src/Engine/Sound/Targets.antt =====
-- The loops over the targets of a request keep what the invariant needs.
use runnerctl.Common.{
  String, ◌≡◌, refl, sym, ◌∙◌, subst, Bool, true, false, Option, none, some, List, [], ◌∷◌, arith,
  any, eq_refl, Bool-cases, inl, inr, All,
}
use runnerctl.BTreeMap.{BTreeMap, contains_key, keys, values, modify, map_values}
use runnerctl.BTreeMap.Laws.{contains_key-modify, some_of_contains_key}
use runnerctl.State.{PoolState, Run, State}
use runnerctl.Retiring.{in_pool}
use runnerctl.Engine.{Engine, done, ◌>>=◌}
use runnerctl.Engine.Pools.{
  targets, none_deleting, started_pool, start_pools, stopped_pool, drain_run, stop_pools, pending,
}
use runnerctl.Engine.Sound.{IsWellFormed, At, Saved, Outcome, Triple, Triple-map}
use runnerctl.Engine.Sound.Rules.{
  At-state, At-ensure, At-update_state, At-index_pool, At-modify_pool, At-pure, Triple-if,
}
use runnerctl.Engine.Sound.Wf.{modify-IsWellFormed, map_runs-IsWellFormed}

-- All names are those of pools.
abbrev pub Known : BTreeMap PoolState → List String → Type 0
Known pools = All (λ name. contains_key name pools ≡ true)

pub Known-cons :
    (k : String) (p : PoolState) (pools : BTreeMap PoolState) (names : List String)
    → Known pools names
    → Known ((k, p) ∷ pools) names
Known-cons k p pools [] h = tt
Known-cons k p pools (name ∷ names) h = ground (arith, Known-cons k p pools names h.1)

pub Known-keys : (pools : BTreeMap PoolState) → Known pools (keys pools)
Known-keys [] = tt
Known-keys ((k, p) ∷ pools) =
    ground (arith, eq_refl k, Known-cons k p pools (keys pools) (Known-keys pools))

pub Known-same :
    (a b : BTreeMap PoolState) (names : List String)
    → ((name : String) → contains_key name b ≡ contains_key name a)
    → Known a names
    → Known b names
Known-same a b [] same h = tt
Known-same a b (name ∷ names) same h = (same name ∙ h.0, Known-same a b names same h.1)

pub targets-At :
    (s : State) (pool : Option String) (all : Bool)
    → Triple (At s) (targets pool all) (λ names e. At s e × Known s.pools names)
unfolding targets
targets-At s (some name) all =
    At-ensure s _ _ _
      λ _. At-state s _ (At-ensure s _ _ _ λ known. At-pure s _ (λ e p. (p, (known, tt))))
targets-At s none all =
    At-ensure s _ _ _ λ _. At-state s _ (At-pure s _ (λ e p. (p, Known-keys s.pools)))

pub none_deleting-At :
    (s : State) (names : List String)
    → Known s.pools names
    → Triple (At s) (none_deleting names) (λ _ e. At s e × Unit {0})
unfolding none_deleting
none_deleting-At s [] h = At-pure s _ (λ e p. (p, tt))
none_deleting-At s (name ∷ names) h =
    At-index_pool s name _ h.0
      λ p _. Triple-if p.deleting _ _ (At-pure s _ (λ e q. (q, tt))) (none_deleting-At s names h.1)

-- After some steps the state is another well-formed one, with the same pools.
abbrev pub Became : State → Engine → Type 0
Became s e =
    (t : State) × At t e
    × IsWellFormed t
    × ((name : String) → contains_key name t.pools ≡ contains_key name s.pools)

pub start_pools-At :
    (s : State) (names : List String)
    → IsWellFormed s
    → Known s.pools names
    → Triple (At s) (start_pools names) (λ _. Became s)
unfolding start_pools
start_pools-At s [] w h = At-pure s _ (λ e p. (s, p, w, λ name. refl))
start_pools-At s (name ∷ names) w h = At-modify_pool s name started_pool _ h.0 λ _ _.
    Triple-map (λ _. Became (record s { pools = modify name started_pool s.pools })) (λ _. Became s)
      (λ _ e q. (q.0, q.1, q.2, λ i. q.3 i ∙ contains_key-modify i name started_pool s.pools)) _
      (start_pools-At (record s { pools = modify name started_pool s.pools }) names
        (modify-IsWellFormed name started_pool s w)
        (Known-same s.pools _ names (λ i. contains_key-modify i name started_pool s.pools) h.1))

pub drain_run-id : (id : String) (force : Bool) (r : Run) → (drain_run id force r).id ≡ r.id
drain_run-id id force r = ground arith

pub stop_pools-At :
    (s : State) (force : Bool) (names : List String)
    → IsWellFormed s
    → Known s.pools names
    → Triple (At s) (stop_pools force names) (λ _. Became s)
unfolding stop_pools
stop_pools-At s force [] w h = At-pure s _ (λ e p. (s, p, w, λ name. refl))
stop_pools-At s force (name ∷ names) w h =
    let g = stopped_pool force in
    At-modify_pool s name g _ h.0 λ p _.
      let t = record s { pools = modify name g s.pools } in
      let u = record t { runs = map_values (drain_run p.id force) t.runs } in
      At-update_state t _ _ (
        Triple-map (λ _. Became u) (λ _. Became s)
          (λ _ e q. (q.0, q.1, q.2, λ i. q.3 i ∙ contains_key-modify i name g s.pools)) _
          (stop_pools-At u force names
            (map_runs-IsWellFormed (drain_run p.id force) t (drain_run-id p.id force)
              (modify-IsWellFormed name g s w))
            (Known-same s.pools _ names (λ i. contains_key-modify i name g s.pools) h.1)))

-- For known pools `pending` answers and changes nothing.
pub pending_reads :
    (e : Engine) (names : List String)
    → Known e.state.pools names
    → (b : Bool) × (pending names e ≡ (done b, e))
unfolding pending ◌>>=◌
pending_reads e [] h = (false, refl)
pending_reads e (name ∷ names) h =
    let (p, found) = some_of_contains_key name e.state.pools h.0 in
    let (b, rest) = pending_reads e names h.1 in
    elim (Bool-cases (any (in_pool p.id) (values e.state.runs))) [
      | inl here ↦ (true, ground arith)
      | inr there ↦ (b, ground arith)
    ]

pub pending-Saved :
    (s : State) (names : List String)
    → Known s.pools names
    → Triple (Saved s) (pending names) (λ _. Saved s)
pending-Saved s names h = record {
  run = λ e p.
      let (b, reads) = pending_reads e names (subst (λ t. Known t.pools names) (sym p.0) h) in
      subst (Outcome (λ _. Saved s)) (sym reads) p;
}
