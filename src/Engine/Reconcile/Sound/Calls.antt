-- ===== src/Engine/Reconcile/Sound/Calls.antt =====
-- A call of `external` in src/manager.rs that returns, or fails with an error of its own, was not
-- crossed by a change.
use runnerctl.Common.{
  String, ℕ, ◌≡◌, ◌∙◌, false, some, List, [], ◌∷◌, arith, Bool-cases, Option-cases, inl, inr,
}
use runnerctl.Result.{Result, ok, err, message, reconcile_interrupted}
use runnerctl.Protocol.{Request}
use runnerctl.Engine.{
  docker_probe, Effect, Env, Engine, Exec, Answer, done, failed, panicked, pure, lift, ◌>>=◌, ◌>>◌,
  next_io, continue,
}
use runnerctl.Engine.Handle.{handle_local}
use runnerctl.Engine.Sound.{IsWorking}
use runnerctl.Engine.Reconcile.{
  Outside, attempt, as_result, check_epoch, is_stale, leave, serve_arrivals, external,
}
use runnerctl.Engine.Reconcile.Exits.{ask_boot_time, keep_boot_time}
use runnerctl.Engine.Reconcile.Sound.{
  Keeps, Keeps-pure, Keeps-next_io, Keeps-attempt, Keeps-bind, Keeps-leave,
}
use runnerctl.Engine.Reconcile.Sound.Actions.{
  Keeps-serve_arrivals, Keeps-check_epoch, Keeps-external,
}
use runnerctl.Engine.Reconcile.Sound.Uncrossed.{IsUncrossed, Returned, Plain}

-- Uncrossed, unless the reconciliation is told that it was.
abbrev pub Settled : {A : Type 0} → Answer A × Engine → Type 0
Settled (done a, e) = IsUncrossed e
Settled (failed (message text), e) = IsUncrossed e
Settled (failed reconcile_interrupted, e) = Unit
Settled (panicked, e) = Unit

-- No error but the interruption.
abbrev pub IsQuiet : {A : Type 0} → Answer A → Type 0
IsQuiet (failed (message text)) = ⊥
IsQuiet _ = Unit

abbrev pub Quiet : {A : Type 0} → Exec A → Type 0
Quiet m = (e : Engine) → IsQuiet (m e).0

-- From any working engine in the middle of the reconciliation that started at the epoch `k`.
pub record Settles {A : Type 0} (k : ℕ) (m : Exec A) : Type 0 where
  pub run : (e : Engine) → IsWorking e → e.reconcile_epoch ≡ some k → Settled (m e)

module _ {A B : Type 0} where
  Settled-continue :
      (P : Engine → Type 0) (r : Answer A) (f : A → Exec B) (e : Engine)
      → IsQuiet r
      → ((a : A) → Settled (f a e))
      → Settled (continue r f e)
  Settled-continue P (done a) f e q h = h a
  Settled-continue P (failed reconcile_interrupted) f e q h = tt
  Settled-continue P (failed (message text)) f e q h = absurd q
  Settled-continue P panicked f e q h = tt

  Settles-bind :
      (k : ℕ) (m : Exec A) (f : A → Exec B)
      → Keeps m
      → Quiet m
      → ((a : A) → Settles k (f a))
      → Settles k (m >>= f)
  unfolding ◌>>=◌
  Settles-bind k m f h q s = record {
    run = λ e w started.
        let (r, e') = m e in
        Settled-continue (λ _. Unit) r f e' (q e)
          λ a. (s a).run e' (h.run e w).working ((h.run e w).reconciles ∙ started);
  }

check_epoch-Quiet : Quiet check_epoch
unfolding check_epoch ◌>>=◌
check_epoch-Quiet e = elim (Bool-cases (is_stale e)) [ inl h ↦ rw h tt | inr h ↦ rw h tt ]

next_io-Quiet : Quiet next_io
unfolding ◌>>=◌
next_io-Quiet e = tt

attempt-Quiet : {A : Type 0} (m : Exec A) → Quiet (attempt m)
unfolding attempt
attempt-Quiet {A} m e = let (r, e') = m e in by_answer r e'
  where
    by_answer : (r : Answer A) (e : Engine) → IsQuiet (as_result r e).0
    by_answer (done a) e = tt
    by_answer (failed error) e = tt
    by_answer panicked e = tt

bind-Quiet :
    {A B : Type 0} (m : Exec A) (f : A → Exec B)
    → Quiet m
    → ((a : A) → Quiet (f a))
    → Quiet (m >>= f)
unfolding ◌>>=◌
bind-Quiet {A} {B} m f h k e = let (r, e') = m e in by_answer r e' (h e)
  where
    by_answer : (r : Answer A) (e : Engine) → IsQuiet r → IsQuiet (continue r f e).0
    by_answer (done a) e q = k a e
    by_answer (failed reconcile_interrupted) e q = tt
    by_answer (failed (message text)) e q = absurd q
    by_answer panicked e q = tt

pure-Quiet : Quiet (pure (tt {0}))
unfolding ◌>>=◌
pure-Quiet e = tt

leave-Quiet : (effect : Effect) → Quiet (leave effect)
unfolding leave ◌>>=◌
leave-Quiet effect e = tt

-- The last check: a stale epoch is an interruption.
check_lift-Settles : {A : Type 0} (k : ℕ) (r : Result A) → Settles k (check_epoch >> lift r)
unfolding check_epoch ◌>>=◌
check_lift-Settles {A} k r = record {
  run = λ e w started. elim (Bool-cases (is_stale e)) [
    | inl h ↦ rw h tt
    | inr h ↦ rw h (by_result r e (ground (arith, started, h)))
  ];
}
  where
    by_result : (r : Result A) (e : Engine) → IsUncrossed e → Settled (lift r e)
    by_result (ok a) e u = u
    by_result (err (message text)) e u = u
    by_result (err reconcile_interrupted) e u = tt

module _ (env : Env) (loads : (n : ℕ) → env.load_fails n ≡ false) (o : Outside) where
  serve_arrivals-Quiet : (requests : List Request) → Quiet (serve_arrivals env requests)
  unfolding serve_arrivals
  serve_arrivals-Quiet [] = pure-Quiet
  serve_arrivals-Quiet (request ∷ rest) =
      bind-Quiet (attempt (handle_local env request)) _ (attempt-Quiet (handle_local env request))
        λ _. serve_arrivals-Quiet rest

  pub external-Settles :
      (k : ℕ) {A : Type 0} (start : Exec (Unit {0})) (answer : ℕ → Result A)
      → Keeps start
      → Quiet start
      → Settles k (external env o start answer)
  unfolding external
  external-Settles k start answer h q =
      Settles-bind k check_epoch _ (Keeps-check_epoch env) check_epoch-Quiet λ _.
        Settles-bind k next_io _ Keeps-next_io next_io-Quiet λ n. Settles-bind k start _ h q λ _.
          Settles-bind k (serve_arrivals env (o.arrivals n)) _
            (Keeps-serve_arrivals env loads (o.arrivals n)) (serve_arrivals-Quiet (o.arrivals n))
            λ _. check_lift-Settles k (answer n)

  started_at_epoch : (e : Engine) → IsUncrossed e → (k : ℕ) × (e.reconcile_epoch ≡ some k)
  started_at_epoch e u = elim (Option-cases e.reconcile_epoch) [
    | inl h ↦ absurd (ground arith)
    | inr found ↦ found
  ]

  Returned-of_Settled :
      {A : Type 0} (r : Answer A) (e : Engine) → Settled (r, e) → Returned (λ _. IsUncrossed) (r, e)
  Returned-of_Settled (done a) e h = h
  Returned-of_Settled (failed error) e h = tt
  Returned-of_Settled panicked e h = tt

  pub external-Plain :
      {A : Type 0} (start : Exec (Unit {0})) (answer : ℕ → Result A)
      → Keeps start
      → Quiet start
      → Plain (external env o start answer)
  external-Plain start answer h q = record {
    keeps = Keeps-external env loads o start answer h;
    run = λ e w u.
        let (k, started) = started_at_epoch e u in
        let (r, e') = external env o start answer e in
        Returned-of_Settled r e' ((external-Settles k start answer h q).run e w started);
  }

  -- A call that leaves nothing outside, and one that does.
  pub ask-Plain : {A : Type 0} (answer : ℕ → Result A) → Plain (external env o (pure tt) answer)
  ask-Plain answer = external-Plain (pure tt) answer (Keeps-pure tt) pure-Quiet

  pub act-Plain :
      {A : Type 0} (effect : Effect) (answer : ℕ → Result A)
      → Plain (external env o (leave effect) answer)
  act-Plain effect answer =
      external-Plain (leave effect) answer (Keeps-leave effect) (leave-Quiet effect)

  after_boot_time :
      (r : Answer ℕ) (e : Engine)
      → Settled (r, e)
      → Returned (λ _. IsUncrossed) (continue (as_result r e).0 keep_boot_time (as_result r e).1)
  unfolding keep_boot_time ◌>>=◌
  after_boot_time (done t) e h = h
  after_boot_time (failed (message text)) e h = h
  after_boot_time (failed reconcile_interrupted) e h = tt
  after_boot_time panicked e h = tt

  -- An error of the call is passed over, an interruption is not.
  pub boot_time-Plain :
      (image : String)
      → ((r : Result ℕ) → Keeps (keep_boot_time r))
      → Plain (attempt (ask_boot_time env o image) >>= keep_boot_time)
  unfolding attempt ◌>>=◌
  boot_time-Plain image h = record {
    keeps =
        Keeps-bind (attempt (ask_boot_time env o image)) keep_boot_time
          (Keeps-attempt _ (act-Plain (docker_probe image) o.boot_time).keeps) h;
    run = λ e w u.
        let (k, started) = started_at_epoch e u in
        let (r, e') = ask_boot_time env o image e in
        after_boot_time r e' (
          (external-Settles k (leave (docker_probe image)) o.boot_time (Keeps-leave _)
              (leave-Quiet _)).run
            e w started);
  }
