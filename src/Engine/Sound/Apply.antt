-- ===== src/Engine/Sound/Apply.antt =====
-- The apply request, from a well-formed state that the row holds.
use runnerctl.Common.{
  ℕ, String, ◌≡◌, refl, sym, ◌∙◌, subst, true, ◌||◌, Option, none, some, List, [], ◌∷◌, arith, any,
  all, str_eq, eq_iff, Bool-cases, inl, inr,
}
use runnerctl.Result.{ok}
use runnerctl.BTreeMap.{BTreeMap, lookup, contains_key, keys}
use runnerctl.BTreeMap.Laws.{contains_key-modify, contains_key-insert}
use runnerctl.BTreeMap.Laws.Order.{IsSorted, modify-IsSorted, insert-IsSorted}
use runnerctl.Config.{Pool, Config}
use runnerctl.Config.Validate.{validate}
use runnerctl.State.{PoolState, State, default_pool_state}
use runnerctl.Retiring.{find_pool}
use runnerctl.Engine.{Env}
use runnerctl.Engine.Store.{committed}
use runnerctl.Engine.Apply.{
  bump_if, template_changed, apply_at, apply_old, apply_new, apply_pool, apply_pools, mark_all,
  handle_apply,
}
use runnerctl.Engine.Sound.{configured, IsWellFormed, IsSound, At, Triple, Triple-bind, Triple-map}
use runnerctl.Engine.Sound.Rules.{
  At-state, At-gets, At-ensure, At-lift, At-update_state, At-next_io, At-pure, At-call,
}
use runnerctl.Engine.Sound.Wf.{configured_of_find}
use runnerctl.Engine.Sound.Store.{At-mark, At-commit, At-save, At-read, Saved-pure, Saved-gets}
use runnerctl.Engine.Sound.Targets.{Known, Known-keys, Became}

-- The map `m'` is ordered, and has the names of `m` and of the listed pools.
abbrev Extends : BTreeMap PoolState → List Pool → BTreeMap PoolState → Type 0
Extends m pools m' =
    IsSorted m' × ((i : String) → contains_key i m' ≡ (contains_key i m || configured i pools))

module _ (env : Env) (s : State) where
  apply_at-At :
      (new : Pool) (old : Option Pool) (ps : Option PoolState) (m : BTreeMap PoolState)
      → find_pool new.name s.config.pools ≡ old
      → lookup new.name m ≡ ps
      → (configured new.name s.config.pools ≡ true → contains_key new.name m ≡ true)
      → IsSorted m
      → Triple (At s) (apply_at env new old ps m) (λ m' e. At s e × Extends m (new ∷ []) m')
  unfolding apply_at apply_old apply_new
  apply_at-At new none ps m no_old here known sorted = At-next_io s _ λ n. At-pure s _ λ e p. (
    p,
    (
      insert-IsSorted new.name _ m sorted,
      λ i. ground (
        arith,
        contains_key-insert i new.name (default_pool_state (env.uuid n)) m,
        eq_iff i new.name,
        eq_iff new.name i,
      ),
    ),
  )
  apply_at-At new (some old) none m found here known sorted =
      absurd (ground (arith, known (configured_of_find new.name s.config.pools old found)))
  apply_at-At new (some old) (some ps) m found here known sorted = At-ensure s _ _ _ λ _.
      At-state s _ (
        At-ensure s _ _ _ λ _. At-pure s _ λ e p. (
          p,
          (
            modify-IsSorted new.name (bump_if (template_changed old new)) m sorted,
            λ i. ground (
              arith,
              here,
              contains_key-modify i new.name (bump_if (template_changed old new)) m,
              eq_iff new.name i,
            ),
          ),
        ))

  apply_pools-At :
      (pools : List Pool) (m : BTreeMap PoolState)
      → ((i : String) → configured i s.config.pools ≡ true → contains_key i m ≡ true)
      → IsSorted m
      → Triple (At s) (apply_pools env pools m) (λ m' e. At s e × Extends m pools m')
  unfolding apply_pools apply_pool
  apply_pools-At [] m known sorted = At-pure s _ λ e p. (p, (sorted, λ i. ground arith))
  apply_pools-At (new ∷ rest) m known sorted =
      At-call s (Extends m (new ∷ [])) _ _
        (At-state s _ (apply_at-At new _ _ m refl refl (known new.name) sorted))
        λ m₁ first.
          Triple-map (λ m' e. At s e × Extends m₁ rest m') _
            (λ m' e q. (q.0, (q.1.0, λ i. ground (arith, q.1.1 i, first.1 i)))) _
            (apply_pools-At rest m₁ (λ i c. ground (arith, first.1 i, known i c)) first.0)

  mark_all-At :
      (t : State) (names : List String)
      → IsWellFormed t
      → Known t.pools names
      → Triple (At t) (mark_all env names) (λ _. Became t)
  unfolding mark_all
  mark_all-At t [] w h = At-pure t _ (λ e p. (t, p, w, λ name. refl))
  mark_all-At t (name ∷ names) w h =
      At-mark t name _ w h.0 λ runs well. mark_all-At (record t { runs = runs }) names well h.1

-- Every pool that was there is in the new configuration.
covered :
    (old next : List Pool) (i : String)
    → all (λ p. any (λ n. str_eq n.name p.name) next) old ≡ true
    → configured i old ≡ true
    → configured i next ≡ true
covered [] next i h c = absurd (ground arith)
covered (p ∷ old) next i h c = elim (Bool-cases (str_eq p.name i)) [
  | inl here ↦ subst (λ name. configured name next ≡ true) ((eq_iff p.name i).0 here) (ground arith)
  | inr there ↦ covered old next i (ground arith) (ground arith)
]

module _ (env : Env) (s : State) (w : IsWellFormed s) where
  applied-IsWellFormed :
      (next : Config) (m : BTreeMap PoolState) (text : String)
      → all (λ p. any (λ n. str_eq n.name p.name) next.pools) s.config.pools ≡ true
      → Extends s.pools next.pools m
      → validate next ≡ ok tt
      → IsWellFormed (committed env next text (record s { pools = m }))
  applied-IsWellFormed next m text kept ext valid = record {
    valid = valid;
    matching = λ i. ground (arith, ext.1 i, w.matching i, covered s.config.pools next.pools i kept);
    pools_sorted = ext.0;
    runs_sorted = w.runs_sorted;
    runs_keyed = w.runs_keyed;
    manager_id_sliceable = w.manager_id_sliceable;
  }

  pub handle_apply-IsSound :
      (text : String) (revision : ℕ) → Triple (At s) (handle_apply env text revision) (λ _. IsSound)
  unfolding handle_apply
  handle_apply-IsSound text revision = At-state s _ (
      At-ensure s _ _ _ λ _. At-read env s _ λ current. At-ensure s _ _ _ λ _.
        At-lift s _ _ λ next _. At-ensure s _ _ _ λ kept.
          At-call s (Extends s.pools next.pools) _ _
            (apply_pools-At env s next.pools s.pools (λ i c. sym (w.matching i) ∙ c) w.pools_sorted)
            λ m ext. At-ensure s _ _ _ λ _. At-update_state s _ _ (
              At-commit env (record s { pools = m }) next _
                (λ written valid. applied-IsWellFormed next m written kept ext valid)
                λ written valid.
                  let t = committed env next written (record s { pools = m }) in
                  At-gets t (λ (u : State). keys u.pools) _
                    (Triple-bind (λ _. Became t) _ _
                      (mark_all-At env s t (keys m)
                        (applied-IsWellFormed next m written kept ext valid) (Known-keys m))
                      λ _. record {
                        run = λ e q.
                            let (u, p, well, _) = q in
                            (At-save env u _ well
                                (Saved-gets u (λ (v : State). v.revision) _ (Saved-pure u _))).run
                              e p;
                      })))
