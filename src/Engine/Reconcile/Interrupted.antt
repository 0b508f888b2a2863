-- ===== src/Engine/Reconcile/Interrupted.antt =====
-- The interleaving of requests with a call of `external` in src/manager.rs: a call that returns was
-- not crossed by a change.
use runnerctl.Common.{
  ℕ, ◌+◌, ◌^◌, ◌<◌, ◌≡◌, ◌⊎◌, inl, inr, refl, sym, ◌∙◌, ap, subst, true, false, not, some, List, [],
  ◌∷◌, arith, all, length, Bool-cases,
}
use runnerctl.Result.{Result, ok, err, reconcile_interrupted}
use runnerctl.Protocol.{Request, mutating}
use runnerctl.Engine.{Effect, Env, Engine, Exec, done, failed, lift, ◌>>=◌, ◌>>◌, next_io}
use runnerctl.Engine.Sound.{IsWorking, bind_of_eq}
use runnerctl.Engine.Reconcile.{Outside, is_stale, check_epoch, serve_arrivals, external}
use runnerctl.Engine.Reconcile.Arrivals.{
  count_mutating, count_mutating-le-length, serve_arrivals_lem,
}

all_of_none :
    (requests : List Request)
    → count_mutating requests ≡ 0
    → all (λ r. not (mutating r)) requests ≡ true
all_of_none [] h = refl
all_of_none (r ∷ rest) h = ground (arith, all_of_none rest)

module _ {A : Type 0} (r : Result A) (e : Engine) where
  check_then_fresh : is_stale e ≡ false → (check_epoch >> lift r) e ≡ lift r e
  unfolding check_epoch ◌>>=◌
  check_then_fresh h = rw h refl

  check_then_stale :
      is_stale e ≡ true → (check_epoch >> lift r) e ≡ (failed reconcile_interrupted, e)
  unfolding check_epoch ◌>>=◌
  check_then_stale h = rw h refl

lift_engine : {A : Type 0} (r : Result A) (e : Engine) → (lift r e).1 ≡ e
unfolding ◌>>=◌
lift_engine (ok a) e = refl
lift_engine (err error) e = refl

check_epoch_fresh : (e : Engine) → is_stale e ≡ false → check_epoch e ≡ (done tt, e)
unfolding check_epoch ◌>>=◌
check_epoch_fresh e h = rw h refl

next_io_lem : (e : Engine) → next_io e ≡ (done e.io, record e { io = e.io + 1 })
unfolding ◌>>=◌
next_io_lem e = refl

module _ (env : Env) (o : Outside) where
  external_runs :
      {A : Type 0} (start : Exec (Unit {0})) (answer : ℕ → Result A) (e f e' : Engine)
      → is_stale e ≡ false
      → start (record e { io = e.io + 1 }) ≡ (done tt, f)
      → serve_arrivals env (o.arrivals e.io) f ≡ (done tt, e')
      → external env o start answer e ≡ (check_epoch >> lift (answer e.io)) e'
  unfolding external
  external_runs start answer e f e' fresh started served =
      bind_of_eq check_epoch _ e e tt (check_epoch_fresh e fresh)
      ∙ bind_of_eq next_io _ e (record e { io = e.io + 1 }) e.io (next_io_lem e)
      ∙ bind_of_eq start _ _ f tt started
      ∙ bind_of_eq (serve_arrivals env (o.arrivals e.io)) _ f e' tt served

  -- How a call starts: it may leave something outside, and does nothing else.
  abbrev pub IsStart : Exec (Unit {0}) → Type 0
  IsStart start =
      (e : Engine) → (effects : List Effect) × (start e ≡ (done tt, record e { effects = effects }))

  -- Let the row be readable, the states in memory and in the row well formed, the reconciliation
  -- started at the present epoch, an epoch below 2 ^ 64, fewer than 2 ^ 64 requests arriving during
  -- a call, and the call begin by at most leaving something outside. If the call returns, only
  -- status requests arrived during it. Then both states are still well formed, the row and the epoch
  -- are untouched, and so is the state in memory, unless a status failed and brought the row's state
  -- back.
  pub external_uninterrupted :
      {A : Type 0} (start : Exec (Unit {0})) (answer : ℕ → Result A) (e : Engine) {a : A}
      → ((n : ℕ) → env.load_fails n ≡ false)
      → IsStart start
      → IsWorking e
      → e.reconcile_epoch ≡ some e.epoch
      → e.epoch < 2 ^ 64
      → length (o.arrivals e.io) < 2 ^ 64
      → (external env o start answer e).0 ≡ done a
      → (all (λ r. not (mutating r)) (o.arrivals e.io) ≡ true)
        × IsWorking (external env o start answer e).1
        × (((external env o start answer e).1.state ≡ e.state)
            ⊎ (e.row ≡ some (external env o start answer e).1.state))
        × ((external env o start answer e).1.row ≡ e.row)
        × ((external env o start answer e).1.reconcile_epoch
            ≡ some (external env o start answer e).1.epoch)
  external_uninterrupted start answer e {a = a} loads starts w fresh small few returns =
      let (effects, started) = starts (record e { io = e.io + 1 }) in
      let f = record e { io = e.io + 1; effects = effects } in
      let (e', serves, served) = serve_arrivals_lem env loads (o.arrivals e.io) f w small in
      let runs = external_runs start answer e f e' (ground (arith, fresh)) started serves in
      elim (Bool-cases (is_stale e')) [
        | inl stale ↦
            absurd (ground (arith, returns, runs, check_then_stale (answer e.io) e' stale))
        | inr current ↦
            let ends = runs ∙ check_then_fresh (answer e.io) e' current in
            let (w', epoch, reconciles, left, kept) = served in
            let none_here : count_mutating (o.arrivals e.io) ≡ 0 = ground (
              arith,
              current,
              epoch,
              reconciles,
              fresh,
              count_mutating-le-length (o.arrivals e.io),
            ) in
            let here : (external env o start answer e).1 ≡ e' =
              ap (λ r. r.1) ends ∙ lift_engine (answer e.io) e' in
            (
              all_of_none (o.arrivals e.io) none_here,
              subst IsWorking (sym here) w',
              subst (λ g. (g.state ≡ e.state) ⊎ (e.row ≡ some g.state)) (sym here)
                  (kept none_here).0,
              ap (λ (g : Engine). g.row) here ∙ (kept none_here).1,
              subst (λ g. g.reconcile_epoch ≡ some g.epoch) (sym here)
                  (ground (arith, current, reconciles, fresh)),
            )
      ]
