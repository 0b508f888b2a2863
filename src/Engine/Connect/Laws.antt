-- ===== src/Engine/Connect/Laws.antt =====
-- A request that finds no manager is handled as the manager would, and leaves a state that it can
-- start from.
use runnerctl.Common.{true, ℕ, ◌≡◌, ◌≢◌, inl, inr, refl, sym, ◌∙◌, ap, subst, false, List, arith}
use runnerctl.Common.Text.{is_sliceable}
use runnerctl.Result.{Result, ok, err}
use runnerctl.Protocol.{Request, Reply, Answered}
use runnerctl.Engine.{
  Env, Engine, Exec, Answer, done, failed, panicked, pure, lift, ◌>>=◌, ◌>>◌, continue,
}
use runnerctl.Engine.Handle.{handle_local}
use runnerctl.Engine.Sound.{IsSound, IsWorking}
use runnerctl.Engine.Open.{open_engine, open_engine-IsSound}
use runnerctl.Engine.Reconcile.Arrivals.{handle_local-IsWorking}
use runnerctl.Engine.Diagnose.{diagnose, runner_logs}
use runnerctl.Engine.Diagnose.Healthy.{diagnose_healthy}
use runnerctl.Engine.Serve.Laws.{IsStored, open_failed, open_not_panicked}
use runnerctl.Engine.Connect.{
  Asked, answer_diagnosis, answer_logs, check_upgrade, Routed, answered, forwarded, forward,
  handle_reply, handle, dispatch_alone,
}

module _ (asked : Asked) (env : Env) where
  -- What the loop of `serve` does with what a connection makes of a request.
  abbrev pub take_up : Routed asked → Exec Answered
  take_up (answered answer) e = (answer, e)
  take_up (forwarded request) e = handle_reply asked env request e

  take_up-forward :
      (r : Result (Unit {0})) (request : Request) (e : Engine)
      → (lift r >> handle_reply asked env request) e ≡ take_up (forward asked r request) e
  unfolding ◌>>=◌
  take_up-forward (ok x) request e = refl
  take_up-forward (err error) request e = refl

  -- The states are well formed, and no index has failed.
  abbrev pub IsAnswered : Answer Answered × Engine → Type 0
  IsAnswered q = IsWorking q.1 × (q.0 ≢ panicked)

  module _ (loads : (n : ℕ) → env.load_fails n ≡ false) where
    handle_reply-IsAnswered :
        (request : Request) (e : Engine)
        → IsWorking e
        → IsAnswered (handle_reply asked env request e)
    unfolding ◌>>=◌
    handle_reply-IsAnswered request e w =
        let (r, e') = handle_local env request e in
        let (working, fine) = handle_local-IsWorking env loads request e w in
        by_reply r e' working fine
      where
        by_reply :
            (r : Answer Reply) (e' : Engine)
            → IsWorking e'
            → (r ≢ panicked)
            → IsAnswered (continue r (λ x. pure (Answered.reply x)) e')
        by_reply (done x) e' working fine = (working, λ h. absurd (ground arith))
        by_reply (failed error) e' working fine = (working, λ h. absurd (ground arith))
        by_reply panicked e' working fine = absurd (fine refl)

    diagnosis-IsAnswered :
        (e : Engine)
        → IsWorking e
        → IsAnswered (answer_diagnosis asked (diagnose asked.probes e.state), e)
    diagnosis-IsAnswered e w =
        let (d, here, _) = diagnose_healthy asked.probes e.state w.0 in
        (w, λ h. absurd (ground (arith, here, h)))

    logs-IsAnswered :
        (r : Result (List ℕ)) (e : Engine) → IsWorking e → IsAnswered (answer_logs asked r, e)
    logs-IsAnswered (ok text) e w = (w, λ h. absurd (ground arith))
    logs-IsAnswered (err error) e w = (w, λ h. absurd (ground arith))

    upgrade-IsAnswered :
        (r : Result (Unit {0})) (request : Request) (e : Engine)
        → IsWorking e
        → IsAnswered (take_up (forward asked r request) e)
    upgrade-IsAnswered (ok x) request e w = handle_reply-IsAnswered request e w
    upgrade-IsAnswered (err error) request e w = (w, λ h. absurd (ground arith))

    handle-IsAnswered :
        (request : Request) (e : Engine) → IsWorking e → IsAnswered (handle asked env request e)
    unfolding handle
    handle-IsAnswered (Request.upgrade pool image) e w =
        let r = check_upgrade asked (Request.upgrade pool image) in
        subst IsAnswered (sym (take_up-forward r (Request.upgrade pool image) e))
          (upgrade-IsAnswered r (Request.upgrade pool image) e w)
    handle-IsAnswered Request.doctor e w = diagnosis-IsAnswered e w
    handle-IsAnswered (Request.logs pool id) e w =
        logs-IsAnswered (runner_logs asked.containers asked.logs e.state pool id) e w
    handle-IsAnswered (Request.status pool) e w = handle_reply-IsAnswered (Request.status pool) e w
    handle-IsAnswered (Request.add pool) e w = handle_reply-IsAnswered (Request.add pool) e w
    handle-IsAnswered (Request.start pool all) e w =
        handle_reply-IsAnswered (Request.start pool all) e w
    handle-IsAnswered (Request.stop pool all force) e w =
        handle_reply-IsAnswered (Request.stop pool all force) e w
    handle-IsAnswered (Request.scale pool replicas) e w =
        handle_reply-IsAnswered (Request.scale pool replicas) e w
    handle-IsAnswered (Request.remove pool force) e w =
        handle_reply-IsAnswered (Request.remove pool force) e w
    handle-IsAnswered (Request.apply text revision) e w =
        handle_reply-IsAnswered (Request.apply text revision) e w
    handle-IsAnswered (Request.auth profile credential app) e w =
        handle_reply-IsAnswered (Request.auth profile credential app) e w

    -- A command that finds no manager and opens the state itself, whatever its request: when the
    -- database holds nothing or a well-formed state, its reads succeed, and the text of each new UUID has
    -- a prefix of eight bytes, no index fails, and
    -- afterwards it holds nothing or a well-formed state again.
    pub dispatch_alone_keeps :
        (uuids : (n : ℕ) → is_sliceable 8 (env.uuid n) ≡ true) (lock : Result (Unit {0}))
        (request : Request) (e : Engine)
        → IsStored e
        → IsStored (dispatch_alone asked env lock request e).1
          × ((dispatch_alone asked env lock request e).0 ≢ panicked)
    unfolding dispatch_alone ◌>>=◌
    dispatch_alone_keeps uuids (err error) request e stored = (stored, λ h. absurd (ground arith))
    dispatch_alone_keeps uuids (ok x) request e stored =
        let (r, e') = open_engine env e in by_open r e' refl
      where
        by_open :
            (r : Answer (Unit {0})) (e' : Engine)
            → open_engine env e ≡ (r, e')
            → IsStored (continue r (λ _. handle asked env request) e').1
              × ((continue r (λ _. handle asked env request) e').0 ≢ panicked)
        by_open (done y) e' h =
            let sound =
              subst (λ (q : Answer (Unit {0}) × Engine). IsSound q.1) h
                (open_engine-IsSound env uuids e stored
                  (ap (λ (q : Answer (Unit {0}) × Engine). q.0) h)) in
            let (working, fine) =
              handle-IsAnswered request e'
                (sound.well_formed, (e'.state, sound.stored, sound.well_formed)) in
            (inr working.1, fine)
        by_open (failed error) e' h =
            let same = open_failed env e e' error h in
            (
              elim stored [
                | inl empty ↦ inl (same ∙ empty)
                | inr (s, here, well) ↦ inr (s, same ∙ here, well)
              ],
              λ q. absurd (ground arith),
            )
        by_open panicked e' h = absurd (open_not_panicked env e e' h)
