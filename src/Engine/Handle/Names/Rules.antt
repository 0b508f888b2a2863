-- ===== src/Engine/Handle/Names/Rules.antt =====
-- The rules for the actions of a request of src/manager.rs that change the state.
use runnerctl.Common.{
  ℕ, ◌+◌, String, ◌≡◌, refl, sym, ◌∙◌, subst, true, none, some, List, [], ◌∷◌, arith, Option-cases,
  inl, inr,
}
use runnerctl.BTreeMap.{BTreeMap, lookup, contains_key, insert, modify, map_values}
use runnerctl.BTreeMap.Laws.{contains_key-insert, contains_key-modify, lookup-map_values}
use runnerctl.Config.{Pool}
use runnerctl.State.{PoolState, Run, State}
use runnerctl.Retiring.{Key, mark_retiring, retire_at, retire_from, retire_pool, find_pool}
use runnerctl.Engine.{Engine, update_state, mark, modify_pool}
use runnerctl.Engine.Pools.{reset_profile}
use runnerctl.Engine.Handle.Names.{
  Names, Has, IsNamed, Steady, Has-pools, Has-runs, Steady-same, Steady-pure, Steady-raise,
  Steady-panics, Steady-gets, Steady-lift, Steady-context, Steady-if, Steady-ensure, Steady-next_io,
  Steady-file, Steady-cleared, Steady-update_state, Steady-state, Steady-row, Steady-index_pool,
  Steady-send_snapshot, Steady-bind, Steady-read,
}

contains_key-retire_from :
    (j : String) (keep generation index : ℕ) (order : List Key) (runs runs' : BTreeMap Run)
    → retire_from keep generation index order runs ≡ some runs'
    → contains_key j runs' ≡ contains_key j runs
unfolding retire_from
contains_key-retire_from j keep generation index [] runs runs' h = ground arith
contains_key-retire_from j keep generation index (k ∷ order) runs runs' h =
    elim (Option-cases (lookup k.id runs)) [
      | inl gone ↦ absurd (ground arith)
      | inr (r, here) ↦
          contains_key-retire_from j keep generation (index + 1) order
            (modify k.id (retire_at keep generation index) runs) runs' (ground arith)
          ∙ contains_key-modify j k.id _ runs
    ]

module _ (names : Names) where
  pub mark_retiring-Has :
      (name : String) (s s' : State) → mark_retiring name s ≡ some s' → Has names s → Has names s'
  unfolding mark_retiring retire_pool
  mark_retiring-Has name s s' h has = elim (Option-cases (lookup name s.pools)) [
    | inl gone ↦ absurd (ground arith)
    | inr (ps, here) ↦ elim (Option-cases (find_pool name s.config.pools)) [
      | inl unknown ↦ absurd (ground arith)
      | inr (pool, found) ↦ elim (Option-cases (retire_pool ps pool s.runs)) [
        | inl gone ↦ absurd (ground arith)
        | inr (runs', retired) ↦ subst (Has names) (ground arith) (
            Has-runs names runs' s
              (λ j k here. contains_key-retire_from j _ _ _ _ s.runs runs' retired ∙ here) has)
      ]
    ]
  ]

  marked_engine :
      (name : String) (e : Engine) (s : State)
      → mark_retiring name e.state ≡ some s
      → (mark name e).1 ≡ record e { state = s }
  unfolding mark
  marked_engine name e s h = ground arith

  unmarked_engine :
      (name : String) (e : Engine) → mark_retiring name e.state ≡ none → (mark name e).1 ≡ e
  unfolding mark
  unmarked_engine name e h = ground arith

  pub Steady-mark : (name : String) → Steady names (mark name)
  Steady-mark name = record {
    run = λ e n. elim (Option-cases (mark_retiring name e.state)) [
      | inl gone ↦ subst (IsNamed names) (sym (unmarked_engine name e gone)) n
      | inr (s, marked) ↦
          subst (IsNamed names) (sym (marked_engine name e s marked))
            (record { state = mark_retiring-Has name e.state s marked n.state; row = n.row })
    ];
  }

  pub Steady-modify_pools :
      (name : String) (g : PoolState → PoolState)
      → Steady names (update_state (λ s. record s { pools = modify name g s.pools }))
  Steady-modify_pools name g =
      Steady-update_state names _
        λ s has. Has-pools names _ s (λ h. contains_key-modify names.pool name g s.pools ∙ h) has

  pub Steady-modify_pool :
      (name : String) (g : PoolState → PoolState) → Steady names (modify_pool name g)
  unfolding modify_pool
  Steady-modify_pool name g =
      Steady-bind names _ _ (Steady-index_pool names name)
        λ p. Steady-bind names _ _ (Steady-modify_pools name g) (λ _. Steady-pure names p)

  pub map_values-Has :
      (g : Run → Run) (s : State)
      → Has names s
      → Has names (record s { runs = map_values g s.runs })
  map_values-Has g s has =
      Has-runs names _ s (λ j k h. ground (arith, lookup-map_values j g s.runs)) has

  pub Steady-map_runs :
      (g : Run → Run) → Steady names (update_state (λ s. record s { runs = map_values g s.runs }))
  Steady-map_runs g = Steady-update_state names _ (map_values-Has g)

  pub insert_keeps :
      (name : String) (p : PoolState) (m : BTreeMap PoolState)
      → contains_key names.pool m ≡ true
      → contains_key names.pool (insert name p m) ≡ true
  insert_keeps name p m h = ground (arith, contains_key-insert names.pool name p m)

  pub Steady-insert_pool :
      (name : String) (p : PoolState)
      → Steady names (update_state (λ s. record s { pools = insert name p s.pools }))
  Steady-insert_pool name p =
      Steady-update_state names _ λ s has. Has-pools names _ s (insert_keeps name p s.pools) has

  contains_key-reset_profile :
      (j profile : String) (pools : List Pool) (m : BTreeMap PoolState)
      → contains_key j (reset_profile profile pools m) ≡ contains_key j m
  unfolding reset_profile
  contains_key-reset_profile j profile pools [] = refl
  contains_key-reset_profile j profile pools ((k, p) ∷ m) =
      ground (arith, contains_key-reset_profile j profile pools m)

  pub Steady-reset_profile :
      (profile : String)
      → Steady names
          (update_state (λ s. record s { pools = reset_profile profile s.config.pools s.pools }))
  Steady-reset_profile profile = Steady-update_state names _ λ s has.
      Has-pools names _ s
        (λ h. contains_key-reset_profile names.pool profile s.config.pools s.pools ∙ h) has

pub ruleset steady = (
  Steady-bind, Steady-pure, Steady-raise, Steady-panics, Steady-gets, Steady-lift, Steady-context,
  Steady-if, Steady-ensure, Steady-next_io, Steady-file, Steady-cleared, Steady-index_pool,
  Steady-send_snapshot, Steady-mark, Steady-modify_pool, Steady-modify_pools, Steady-map_runs,
  Steady-insert_pool, Steady-reset_profile,
)
