-- ===== src/Cli/Wait/Cleaned.antt =====
-- The wait of src/main.rs against the state of the manager of src/manager.rs: the statuses that end
-- the wait are taken from a state in which the targets have no runs.
use runnerctl.Common.{
  Bool-cases, inl, inr, ltb, arith, ◌+◌, ℕ, suc, ◌/◌, String, ◌≡◌, refl, sym, ◌∙◌, ap, subst, Bool,
  true, false, not, ◌&&◌, none, some, List, [], ◌∷◌, all, filter, length, ◌==◌,
}
use runnerctl.Result.{ok}
use runnerctl.BTreeMap.{lookup}
use runnerctl.BTreeMap.Laws.{some_of_contains_key}
use runnerctl.Config.{Pool}
use runnerctl.State.{State}
use runnerctl.Protocol.{Request, Reply, PoolStatus}
use runnerctl.Retiring.{find_pool, pool_runs}
use runnerctl.Engine.{Engine, done, ◌>>=◌}
use runnerctl.Engine.Status.{selected, pool_status, pool_statuses, handle_status}
use runnerctl.Engine.Sound.{IsWellFormed}
use runnerctl.Engine.Sound.Theorem.{AllKnown, filter-AllKnown}
use runnerctl.Protocol.{Answered}
use runnerctl.Cli.{Received, Terminal, Session}
use runnerctl.Cli.Wait.{second, is_clean, wait_for_cleanup}
use runnerctl.Cli.Wait.Laws.{wait_loop-SawClean}

-- No run of the pool is recorded.
abbrev pub is_idle : State → String → Bool
is_idle s name = elim (lookup name s.pools) [
  | none ↦ false
  | some ps ↦ length (pool_runs ps.id s.runs) == 0
]

-- What a wait is for: after a removal that the pool is gone, else that it has no runs or is gone.
abbrev pub is_cleaned : Bool → State → List Pool → String → Bool
is_cleaned removed s pools name = elim (find_pool name pools) [
  | none ↦ true
  | some p ↦ not removed && is_idle s p.name
]

filter-selected : (pools : List Pool) → filter (selected none) pools ≡ pools
filter-selected [] = refl
filter-selected (p ∷ rest) = ap (λ l. p ∷ l) (filter-selected rest)

module _ (e : Engine) where
  -- The statuses, read against the state.
  statuses_of :
      (pools : List Pool)
      → AllKnown e.state pools
      → (l : List PoolStatus) × (pool_statuses pools e ≡ (done l, e))
        × ((removed : Bool) (name : String)
            → is_clean removed l name ≡ is_cleaned removed e.state pools name)
  unfolding pool_statuses pool_status is_clean ◌>>=◌
  statuses_of [] h = ([], refl, λ removed name. refl)
  statuses_of (p ∷ rest) h =
      let (ps, found) = some_of_contains_key p.name e.state.pools h.0 in
      let (l, reads, same) = statuses_of rest h.1 in
      (
        pool_status p ps (pool_runs ps.id e.state.runs) ∷ l,
        ground (arith),
        λ removed name. ground (arith, same removed name),
      )

  status_of :
      IsWellFormed e.state
      → (l : List PoolStatus) × (handle_status none e ≡ (done (Reply.status e.state.revision l), e))
        × ((removed : Bool) (name : String)
            → is_clean removed l name ≡ is_cleaned removed e.state e.state.config.pools name)
  unfolding handle_status ◌>>=◌
  status_of w =
      let known =
        filter-AllKnown e.state (selected none) e.state.config.pools
          (λ name c. sym (w.matching name) ∙ c) in
      let (l, reads, same) = statuses_of (filter (selected none) e.state.config.pools) known in
      (
        l,
        ground (arith, reads),
        λ removed name.
            subst (λ pools. is_clean removed l name ≡ is_cleaned removed e.state pools name)
              (filter-selected e.state.config.pools) (same removed name),
      )

all_of_same :
    (f g : String → Bool) (names : List String)
    → ((name : String) → f name ≡ g name)
    → all f names ≡ true
    → all g names ≡ true
all_of_same f g [] h t = refl
all_of_same f g (n ∷ names) h t = ground (arith, h n, all_of_same f g names h)

-- Let each status that the command receives be the manager's answer in some well-formed state. If
-- the wait succeeds, the answer to one of them came from a state in which every target is gone from
-- the configuration, or, unless its removal was asked for, has no run recorded.
pub wait_for_cleanup_sound :
    (t : Terminal) (targets : List String) (removed : Bool) (timeout : ℕ) (s s' : Session)
    (seen : ℕ → Engine)
    → ((n : ℕ) → IsWellFormed (seen n).state)
    → ((n : ℕ) (r : Received)
        → t.answer n (Request.status none) ≡ ok r
        → (reply : Reply) × (r.answered ≡ Answered.reply reply)
          × ((handle_status none (seen n)).0 ≡ done reply))
    → wait_for_cleanup t targets removed timeout s ≡ some (ok tt, s')
    → (n : ℕ) × (all (is_cleaned removed (seen n).state (seen n).state.config.pools) targets ≡ true)
unfolding wait_for_cleanup
wait_for_cleanup_sound t targets removed timeout s s' seen well answers h =
    let (n, received, pools, answer, running, shown, clean) =
      wait_loop-SawClean t targets removed (s.now + timeout) (suc (timeout / second + 1)) s s'
        (elim (Bool-cases (ltb (s.now + timeout) t.clock_end)) [
          | inl within ↦ ground (arith, h, within)
          | inr past ↦ absurd (ground (arith, h, past))
        ]) in
    let (reply, here, told) = answers n received answer in
    let (l, status, same) = status_of (seen n) (well n) in
    let pools_are : pools ≡ l = ground (arith, status, told, here, shown) in
    (
      n,
      all_of_same _ _ targets (same removed)
          (subst (λ p. all (is_clean removed p) targets ≡ true) pools_are clean),
    )
