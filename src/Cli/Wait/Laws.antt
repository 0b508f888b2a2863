-- ===== src/Cli/Wait/Laws.antt =====
-- The wait of src/main.rs ends soon after its deadline, and when it succeeds the targets were clean.
use runnerctl.Common.{
  ℕ, zero, suc, ◌+◌, ◌*◌, ◌/◌, ◌≤◌, ◌<◌, min, String, ◌≡◌, refl, ap, Bool, true, false, Option,
  none, some, List, arith, all, length,
}
use runnerctl.Result.{Result, ok, err}
use runnerctl.Protocol.{Request, PoolStatus}
use runnerctl.Cli.{Received, Terminal, Session, pools_of, is_not_false}
use runnerctl.Cli.Wait.{
  second, is_clean, pause, wait_round, after_round, wait_loop, wait_for_cleanup,
}

module _ (t : Terminal) (targets : List String) (removed : Bool) (deadline : ℕ) where
  -- A round that is not the last began before the deadline, and ended a second later or at it.
  again_later :
      (s : Session)
      → (wait_round t targets removed deadline s).0 ≡ ok false
      → (s.now < deadline)
        × (min deadline (s.now + second) ≤ (wait_round t targets removed deadline s).1.now)
  unfolding wait_round pause
  again_later s h = ground arith

  one_request :
      (s : Session) → length (wait_round t targets removed deadline s).1.sent ≡ suc (length s.sent)
  unfolding wait_round pause
  one_request s = ground arith

  -- The loop ends, and sends so many requests more.
  abbrev pub EndsWithin : ℕ → Session → Option (Result (Unit {0}) × Session) → Type 0
  EndsWithin rounds s end =
      (r : Result (Unit {0})) × (s' : Session) × (end ≡ some (r, s'))
      × (length s'.sent ≤ length s.sent + rounds)

  EndsWithin-after_round :
      (rounds : ℕ) (rest : Session → Option (Result (Unit {0}) × Session)) (s : Session)
      (r : Result Bool) (s' : Session)
      → wait_round t targets removed deadline s ≡ (r, s')
      → (r ≡ ok false → EndsWithin rounds s' (rest s'))
      → EndsWithin (suc rounds) s (after_round t targets removed deadline rest r s')
  EndsWithin-after_round rounds rest s (err error) s' h k =
      (err error, s', refl, omega (arith, ap (λ q. length q.1.sent) h, one_request s))
  EndsWithin-after_round rounds rest s (ok true) s' h k =
      (ok tt, s', refl, omega (arith, ap (λ q. length q.1.sent) h, one_request s))
  EndsWithin-after_round rounds rest s (ok false) s' h k =
      let (r, s2, ends, few) = k refl in
      (r, s2, ends, omega (arith, ap (λ q. length q.1.sent) h, one_request s, few))

  -- The loop has fuel for each second that is left.
  wait_loop_ends :
      (fuel : ℕ) (s : Session)
      → deadline ≤ s.now + fuel * second
      → EndsWithin (suc fuel) s (wait_loop t targets removed deadline (suc fuel) s)
  unfolding wait_loop
  wait_loop_ends zero s enough =
      let (r, s') = wait_round t targets removed deadline s in
      EndsWithin-after_round 0 (wait_loop t targets removed deadline 0) s r s' refl
        (λ again. absurd (omega (arith, again_later s again)))
  wait_loop_ends (suc fuel) s enough =
      let (r, s') = wait_round t targets removed deadline s in
      EndsWithin-after_round (suc fuel) (wait_loop t targets removed deadline (suc fuel)) s r s'
        refl (λ again. wait_loop_ends fuel s' (omega (arith, again_later s again)))

-- The wait ends, when the deadline is within the clock's range: whatever the manager answers and however long its answers take, it returns or fails
-- after at most one status request for each second of the timeout, and two more. No sleep ends
-- before the time it was asked for.
pub wait_for_cleanup_ends :
    (t : Terminal) (targets : List String) (removed : Bool) (timeout : ℕ) (s : Session)
    → s.now + timeout < t.clock_end
    → (r : Result (Unit {0})) × (s' : Session) × (wait_for_cleanup t targets removed timeout s
        ≡ some (r, s'))
      × (length s'.sent ≤ length s.sent + suc (timeout / second + 1))
unfolding wait_for_cleanup
wait_for_cleanup_ends t targets removed timeout s within =
    let (r, s', ends, few) =
      wait_loop_ends t targets removed (s.now + timeout) (timeout / second + 1) s (omega arith) in
    (r, s', ground (arith, ends, within), few)

-- A status that shows every target clean, from a manager that runs.
abbrev pub SawClean : Terminal → List String → Bool → Type 0
SawClean t targets removed =
    (n : ℕ) × (received : Received) × (pools : List PoolStatus) × (t.answer n (Request.status none)
      ≡ ok received)
    × (is_not_false received.manager_running ≡ true)
    × (pools_of received.answered ≡ some pools)
    × (all (is_clean removed pools) targets ≡ true)

module _ (t : Terminal) (targets : List String) (removed : Bool) (deadline : ℕ) where
  last_round :
      (s : Session)
      → (wait_round t targets removed deadline s).0 ≡ ok true
      → SawClean t targets removed
  unfolding wait_round pause
  last_round s h = by_answer (t.answer s.io (Request.status none)) refl
    where
      by_pools :
          (received : Received) (o : Option (List PoolStatus))
          → t.answer s.io (Request.status none) ≡ ok received
          → pools_of received.answered ≡ o
          → SawClean t targets removed
      by_pools received none e f = absurd (ground arith)
      by_pools received (some pools) e f = (s.io, received, pools, e, ground arith, f, ground arith)

      by_answer :
          (r : Result Received)
          → t.answer s.io (Request.status none) ≡ r
          → SawClean t targets removed
      by_answer (err error) e = absurd (ground arith)
      by_answer (ok received) e = by_pools received (pools_of received.answered) e refl

  SawClean-after_round :
      (rest : Session → Option (Result (Unit {0}) × Session)) (s : Session) (r : Result Bool)
      (s' s2 : Session)
      → (wait_round t targets removed deadline s).0 ≡ r
      → after_round t targets removed deadline rest r s' ≡ some (ok tt, s2)
      → (rest s' ≡ some (ok tt, s2) → SawClean t targets removed)
      → SawClean t targets removed
  SawClean-after_round rest s (err error) s' s2 e h k = absurd (ground arith)
  SawClean-after_round rest s (ok true) s' s2 e h k = last_round s e
  SawClean-after_round rest s (ok false) s' s2 e h k = k h

  pub wait_loop-SawClean :
      (fuel : ℕ) (s s2 : Session)
      → wait_loop t targets removed deadline fuel s ≡ some (ok tt, s2)
      → SawClean t targets removed
  unfolding wait_loop
  wait_loop-SawClean zero s s2 h = absurd (ground arith)
  wait_loop-SawClean (suc fuel) s s2 h =
      let (r, s') = wait_round t targets removed deadline s in
      SawClean-after_round (wait_loop t targets removed deadline fuel) s r s' s2 refl h
        (wait_loop-SawClean fuel s' s2)
