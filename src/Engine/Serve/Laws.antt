-- ===== src/Engine/Serve/Laws.antt =====
-- The manager over all its lives: its state is well formed while it runs, and what it leaves in the
-- database is enough to start again.
use runnerctl.Common.{
  ℕ, true, ◌≡◌, ◌⊎◌, inl, inr, refl, ◌∙◌, ap, subst, false, none, some, List, [], ◌∷◌, arith,
}
use runnerctl.Result.{Error}
use runnerctl.Common.Text.{is_sliceable}
use runnerctl.Protocol.{Reply}
use runnerctl.Engine.{
  Env, Engine, Exec, Answer, done, failed, panicked, pure, update, ◌>>=◌, ◌>>◌, continue,
}
use runnerctl.Engine.Store.{read_config, store_save, store_load}
use runnerctl.Engine.Handle.{handle_local}
use runnerctl.Engine.Sound.{HasRow, IsSound, IsWorking}
use runnerctl.Engine.Open.{open_engine, first_state, stored_or_first, open_engine-IsSound}
use runnerctl.Engine.Reconcile.{Outside, attempt, as_result}
use runnerctl.Engine.Reconcile.Tick.{tick}
use runnerctl.Engine.Reconcile.Arrivals.{handle_local-IsWorking}
use runnerctl.Engine.Reconcile.Sound.Tick.{IsTicked, tick-IsWorking}
use runnerctl.Engine.Serve.{
  Event, Break, break_on_error, serve_event, unless_broken, serve_loop, serve, live, lives,
}

-- The database holds nothing, or a well-formed state.
abbrev pub IsStored : Engine → Type 0
IsStored e = (e.row ≡ none) ⊎ HasRow e

pub open_failed :
    (env : Env) (e e' : Engine) (error : Error)
    → open_engine env e ≡ (failed error, e')
    → e'.row ≡ e.row
unfolding open_engine first_state stored_or_first read_config store_save store_load ◌>>=◌
open_failed env e e' error h = ground arith

pub open_not_panicked : (env : Env) (e e' : Engine) → open_engine env e ≡ (panicked, e') → ⊥
unfolding open_engine first_state stored_or_first read_config store_save store_load ◌>>=◌
open_not_panicked env e e' h = ground arith

-- While the loop goes on the states are well formed; when it is over the row is left.
abbrev pub IsGoing : Answer Break × Engine → Type 0
IsGoing (done none, e) = IsWorking e
IsGoing (done (some result), e) = HasRow e
IsGoing (failed error, e) = HasRow e
IsGoing (panicked, e) = HasRow e

module _ (env : Env) (loads : (n : ℕ) → env.load_fails n ≡ false)
    (uuids : (n : ℕ) → is_sliceable 8 (env.uuid n) ≡ true) (o : Outside) where
  received-IsGoing :
      (r : Answer Reply) (e : Engine)
      → IsWorking e
      → IsGoing (continue (as_result r e).0 (λ _. pure none) (as_result r e).1)
  unfolding ◌>>=◌
  received-IsGoing (done reply) e w = w
  received-IsGoing (failed error) e w = w
  received-IsGoing panicked e w = w.1

  ticked-IsGoing :
      (r : Answer (Unit {0})) (e : Engine)
      → IsTicked (r, e)
      → IsGoing (continue (as_result r e).0 (λ x. pure (break_on_error x)) (as_result r e).1)
  unfolding ◌>>=◌
  ticked-IsGoing (done x) e (inl w) = w
  ticked-IsGoing (done x) e (inr h) = absurd h.0
  ticked-IsGoing (failed error) e (inl w) = w.1
  ticked-IsGoing (failed error) e (inr h) = h.1
  ticked-IsGoing panicked e (inl w) = w.1
  ticked-IsGoing panicked e (inr h) = absurd h.0

  serve_event-IsGoing :
      (event : Event) (e : Engine) → IsWorking e → IsGoing (serve_event env o event e)
  unfolding serve_event attempt ◌>>=◌
  serve_event-IsGoing Event.signal e w = w.1
  serve_event-IsGoing Event.closed e w = w.1
  serve_event-IsGoing (Event.received request) e w =
      let (r, e') = handle_local env request e in
      received-IsGoing r e' (handle_local-IsWorking env loads request e w).0
  serve_event-IsGoing Event.ticked e w =
      let (r, e') = tick env o e in ticked-IsGoing r e' (tick-IsWorking env loads o e w)

  IsGoing-on :
      (rest : Exec Break) (r : Answer Break) (e : Engine)
      → ((f : Engine) → IsWorking f → IsGoing (rest f))
      → IsGoing (r, e)
      → IsGoing (continue r (λ broken. unless_broken env o broken rest) e)
  unfolding ◌>>=◌
  IsGoing-on rest (done none) e k g = k e g
  IsGoing-on rest (done (some result)) e k g = g
  IsGoing-on rest (failed error) e k g = g
  IsGoing-on rest panicked e k g = g

  serve_loop-IsGoing :
      (events : List Event) (e : Engine) → IsWorking e → IsGoing (serve_loop env o events e)
  unfolding serve_loop ◌>>=◌
  serve_loop-IsGoing [] e w = w
  serve_loop-IsGoing (event ∷ events) e w =
      let (r, e') = serve_event env o event e in
      IsGoing-on (serve_loop env o events) r e' (serve_loop-IsGoing events)
        (serve_event-IsGoing event e w)

  -- After a start that returned, the loop; after one that failed, the row as it was.
  abbrev IsLived : Answer Break × Engine → Type 0
  IsLived (done none, e) = IsWorking e
  IsLived (done (some result), e) = IsStored e
  IsLived (failed error, e) = IsStored e
  IsLived (panicked, e) = IsStored e

  IsLived-of_IsGoing : (r : Answer Break) (e : Engine) → IsGoing (r, e) → IsLived (r, e)
  IsLived-of_IsGoing (done none) e g = g
  IsLived-of_IsGoing (done (some result)) e g = inr g
  IsLived-of_IsGoing (failed error) e g = inr g
  IsLived-of_IsGoing panicked e g = inr g

  pub IsStored-of_IsLived : (r : Answer Break) (e : Engine) → IsLived (r, e) → IsStored e
  IsStored-of_IsLived (done none) e l = inr l.1
  IsStored-of_IsLived (done (some result)) e l = l
  IsStored-of_IsLived (failed error) e l = l
  IsStored-of_IsLived panicked e l = l

  serving : List Event → Exec Break
  serving events = do update (λ e. record e { snapshot = some e.state }); serve_loop env o events

  serving-IsLived : (events : List Event) (e : Engine) → IsSound e → IsLived (serving events e)
  unfolding serving ◌>>=◌
  serving-IsLived events e s =
      let f = record e { snapshot = some e.state } in
      let (r, e') = serve_loop env o events f in
      IsLived-of_IsGoing r e'
        (serve_loop-IsGoing events f (s.well_formed, (e.state, s.stored, s.well_formed)))

  pub serve-IsLived :
      (events : List Event) (e : Engine) → IsStored e → IsLived (serve env o events e)
  unfolding serve serving ◌>>=◌
  serve-IsLived events e row = let (r, e') = open_engine env e in by_open r e' refl
    where
      by_open :
          (r : Answer (Unit {0})) (e' : Engine)
          → open_engine env e ≡ (r, e')
          → IsLived (continue r (λ _. serving events) e')
      by_open (done x) e' h = serving-IsLived events e' (
          subst (λ (q : Answer (Unit {0}) × Engine). IsSound q.1) h
            (open_engine-IsSound env uuids e row (ap (λ (q : Answer (Unit {0}) × Engine). q.0) h)))
      by_open (failed error) e' h =
          let same = open_failed env e e' error h in
          elim row [
            | inl empty ↦ inl (same ∙ empty)
            | inr (s, here, well) ↦ inr (s, same ∙ here, well)
          ]
      by_open panicked e' h = absurd (open_not_panicked env e e' h)

  pub lives-IsStored :
      (past : List (List Event)) (e : Engine) → IsStored e → IsStored (lives env o past e)
  unfolding lives live
  lives-IsStored [] e row = row
  lives-IsStored (events ∷ later) e row =
      let (r, e') = serve env o events e in
      lives-IsStored later e' (IsStored-of_IsLived r e' (serve-IsLived events e row))

  -- Let every read of the row succeed, the text of each new UUID have a prefix of eight bytes, and
  -- the database hold nothing or a well-formed state when the manager is first started. Then whatever
  -- lives it has had, each ended by a signal, an error or a panic, and whatever requests and ticks came in what order in the present life: while the loop
  -- of `serve` still runs, the state in memory is well formed, and so is the one in the database.
  serve-IsWorking :
      (past : List (List Event)) (events : List Event) (e : Engine)
      → IsStored e
      → (serve env o events (lives env o past e)).0 ≡ done none
      → IsWorking (serve env o events (lives env o past e)).1
  serve-IsWorking past events e row runs =
      let f = lives env o past e in
      by_end (serve env o events f) runs (serve-IsLived events f (lives-IsStored past e row))
    where
      by_end : (q : Answer Break × Engine) → q.0 ≡ done none → IsLived q → IsWorking q.1
      by_end (done none, e') h l = l
      by_end (done (some result), e') h l = absurd (ground arith)
      by_end (failed error, e') h l = absurd (ground arith)
      by_end (panicked, e') h l = absurd (ground arith)
