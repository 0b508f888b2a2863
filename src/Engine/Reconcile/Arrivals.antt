-- ===== src/Engine/Reconcile/Arrivals.antt =====
-- The requests that arrive during a call of `external` in src/manager.rs, handled one by one.
use runnerctl.Common.{
  ℕ, ◌+◌, ◌%◌, ◌<◌, ◌≤◌, ◌≡◌, ◌≢◌, ◌⊎◌, inl, inr, refl, sym, ◌∙◌, ap, subst, Bool, true, false,
  some, List, [], ◌∷◌, arith, length, if◌then◌else◌,
}
use runnerctl.Result.{Result, ok, err}
use runnerctl.Config.Memory.{u64_mod}
use runnerctl.Protocol.{Request, Reply, changes_config, mutating}
use runnerctl.Engine.{Env, Engine, Exec, Answer, done, failed, panicked, ◌>>=◌}
use runnerctl.Engine.Handle.{dispatch, handle_inner, bump_epoch, finish, handle_local}
use runnerctl.Engine.Handle.Laws.{reload_of_row}
use runnerctl.Engine.Handle.Epoch.{handle_local_epoch}
use runnerctl.Engine.Status.{handle_status}
use runnerctl.Engine.Sound.{IsWorking, IsWellFormed, Outcome, bind_of_eq}
use runnerctl.Engine.Sound.Theorem.{handle_inner-IsWorking, handle_status_reads}
use runnerctl.Engine.Reconcile.{attempt, as_result, serve_arrivals}

abbrev pub count_mutating : List Request → ℕ
count_mutating [] = 0
count_mutating (r ∷ rest) = (if mutating r then 1 else 0) + count_mutating rest

pub count_mutating-le-length : (requests : List Request) → count_mutating requests ≤ length requests
count_mutating-le-length [] = omega arith
count_mutating-le-length (r ∷ rest) = ground (arith, count_mutating-le-length rest)

-- The state is the old one, or the one that the row holds, and the row is the old one.
abbrev pub IsKept : Engine → Engine → Type 0
IsKept e e' = ((e'.state ≡ e.state) ⊎ (e.row ≡ some e'.state)) × (e'.row ≡ e.row)

pub IsKept-trans : (e f g : Engine) → IsKept e f → IsKept f g → IsKept e g
IsKept-trans e f g (inl a, row) (inl b, row') = (inl (b ∙ a), row' ∙ row)
IsKept-trans e f g (inr a, row) (inl b, row') = (inr (a ∙ ap some (sym b)), row' ∙ row)
IsKept-trans e f g (a, row) (inr b, row') = (inr (sym row ∙ b), row' ∙ row)

module _ (env : Env) (loads : (n : ℕ) → env.load_fails n ≡ false) where
  pub bump_epoch-IsWorking : (b : Bool) (e : Engine) → IsWorking e → IsWorking (bump_epoch env b e)
  bump_epoch-IsWorking true e w = w
  bump_epoch-IsWorking false e w = w

  pub finish-IsWorking :
      (changes : Bool) (r : Answer Reply) (e : Engine)
      → Outcome (λ _. IsWorking) (r, e)
      → IsWorking (finish env changes r e).1 × ((finish env changes r e).0 ≢ panicked)
  unfolding finish ◌>>=◌
  finish-IsWorking changes (done reply) e w = (bump_epoch-IsWorking changes e w, λ h. ground arith)
  finish-IsWorking changes (failed error) e h =
      let (e', reloads, state, row, file, same) = reload_of_row env h.0 e (loads e.io) h.1 in
      rw reloads (
        bump_epoch-IsWorking changes e' (subst IsWellFormed (sym state) h.2, (h.0, row ∙ h.1, h.2)),
        λ p. ground arith,
      )
  finish-IsWorking changes panicked e h = absurd h

  pub handle_local-IsWorking :
      (request : Request) (e : Engine)
      → IsWorking e
      → IsWorking (handle_local env request e).1 × ((handle_local env request e).0 ≢ panicked)
  unfolding handle_local
  handle_local-IsWorking request e w =
      let (r, e') = handle_inner env request e in
      finish-IsWorking (mutating request) r e' (handle_inner-IsWorking env request e w)

  pub finish_status :
      (r : Answer Reply) (e f : Engine)
      → IsWorking e
      → (f ≡ e) × (r ≢ panicked)
      → IsKept e (finish env false r f).1
  unfolding finish ◌>>=◌
  finish_status (done reply) e f w h =
      (inl (ap (λ (g : Engine). g.state) h.0), ap (λ (g : Engine). g.row) h.0)
  finish_status (failed error) e f w h =
      let (s, stored, well) = w.1 in
      let here : f.row ≡ some s = ap (λ (g : Engine). g.row) h.0 ∙ stored in
      let (e', reloads, state, row, file, same) = reload_of_row env s f (loads f.io) here in
      rw reloads (inr (stored ∙ ap some (sym state)), row ∙ ap (λ (g : Engine). g.row) h.0)
  finish_status panicked e f w h = absurd (h.1 refl)

  -- A status keeps the state, or, when it fails, returns to the stored one.
  pub status-IsKept :
      (request : Request) (e : Engine)
      → IsWorking e
      → mutating request ≡ false
      → IsKept e (handle_local env request e).1
  unfolding handle_local handle_inner dispatch mutating changes_config ◌>>=◌
  status-IsKept (Request.status pool) e w h =
      let (same, ends) = handle_status_reads pool e w.0 in
      finish_status (handle_status pool e).0 e (handle_status pool e).1 w (same, ends)
  status-IsKept (Request.add _) e w h = absurd (ground arith)
  status-IsKept (Request.start _ _) e w h = absurd (ground arith)
  status-IsKept (Request.stop _ _ _) e w h = absurd (ground arith)
  status-IsKept (Request.scale _ _) e w h = absurd (ground arith)
  status-IsKept (Request.remove _ _) e w h = absurd (ground arith)
  status-IsKept (Request.upgrade _ _) e w h = absurd (ground arith)
  status-IsKept (Request.apply _ _) e w h = absurd (ground arith)
  status-IsKept (Request.auth _ _ _) e w h = absurd (ground arith)
  status-IsKept (Request.logs _ _) e w h = absurd (ground arith)
  status-IsKept Request.doctor e w h = absurd (ground arith)

  pub attempt_ends :
      (m : Exec Reply) (e : Engine)
      → (m e).0 ≢ panicked
      → (r : Result Reply) × (attempt m e ≡ (done r, (m e).1))
  unfolding attempt
  attempt_ends m e h = let (r, e') = m e in go r e' h
    where
      go :
          (r : Answer Reply) (e : Engine)
          → r ≢ panicked
          → (a : Result Reply) × (as_result r e ≡ (done a, e))
      go (done a) e h = (ok a, refl)
      go (failed error) e h = (err error, refl)
      go panicked e h = absurd (h refl)

  -- After the requests that arrived during a call.
  abbrev pub IsServed : List Request → Engine → Engine → Type 0
  IsServed requests e e' =
      IsWorking e'
      × (e'.epoch ≡ (e.epoch + count_mutating requests) % u64_mod)
      × (e'.reconcile_epoch ≡ e.reconcile_epoch)
      × (e'.effects ≡ e.effects)
      × (count_mutating requests ≡ 0 → IsKept e e')

  pub serve_arrivals_lem :
      (requests : List Request) (e : Engine)
      → IsWorking e
      → e.epoch < u64_mod
      → (e' : Engine) × (serve_arrivals env requests e ≡ (done tt, e')) × IsServed requests e e'
  unfolding serve_arrivals ◌>>=◌
  serve_arrivals_lem [] e w small = (e, refl, (w, ground arith, refl, refl, λ _. (inl refl, refl)))
  serve_arrivals_lem (request ∷ rest) e w small =
      let f = (handle_local env request e).1 in
      let (well, ends) = handle_local-IsWorking request e w in
      let (epoch, reconciles, effects) = handle_local_epoch env request e loads w in
      let (r, first) = attempt_ends (handle_local env request) e ends in
      let (e', others, served) = serve_arrivals_lem rest f well (ground (arith, epoch)) in
      let (w', epoch', reconciles', effects', kept') = served in
      (
        e',
        bind_of_eq (attempt (handle_local env request)) _ e f r first ∙ others,
        (
          w',
          ground (arith, epoch, epoch'),
          reconciles' ∙ reconciles,
          effects' ∙ effects,
          λ none_here.
              IsKept-trans e f e' (status-IsKept request e w (ground arith)) (kept' (ground arith)),
        ),
      )
