-- ===== src/Engine/Serve/Ready.antt =====
-- The manager of src/manager.rs in any of its lives does not panic, and between the events of its
-- loop the state in memory is the stored one.
use runnerctl.Common.{
  ℕ, true, ◌<◌, ◌≡◌, ◌≢◌, refl, ap, subst, false, none, some, List, [], ◌∷◌, length, arith, inr,
}
use runnerctl.Common.Text.{is_sliceable}
use runnerctl.Config.Memory.{u64_mod}
use runnerctl.Protocol.{Request, Reply}
use runnerctl.Engine.{
  Env, Engine, Exec, Answer, done, failed, panicked, pure, update, ◌>>=◌, ◌>>◌, continue,
}
use runnerctl.Engine.Store.{read_config, store_save, store_load}
use runnerctl.Engine.Handle.{handle_local}
use runnerctl.Engine.Handle.Epoch.{handle_local_epoch}
use runnerctl.Engine.Sound.{IsSound, IsWorking}
use runnerctl.Engine.Sound.Theorem.{handle_local-IsSound}
use runnerctl.Engine.Open.{open_engine, first_state, stored_or_first, open_engine-IsSound}
use runnerctl.Engine.Reconcile.{Outside, attempt, as_result}
use runnerctl.Engine.Reconcile.Tick.{tick}
use runnerctl.Engine.Reconcile.Calm.Tick.{tick-IsOver}
use runnerctl.Engine.Reconcile.Calm.Conclude.{IsReady, IsOver}
use runnerctl.Engine.Serve.{
  Event, Break, break_on_error, serve_event, unless_broken, serve_loop, serve, lives,
}
use runnerctl.Engine.Serve.Laws.{
  IsStored, open_not_panicked, lives-IsStored, IsStored-of_IsLived, serve-IsLived,
}

-- No panic, and while the loop goes on the manager is ready.
abbrev pub IsAlive : Answer Break × Engine → Type 0
IsAlive (done none, e) = IsReady e
IsAlive (done (some result), e) = Unit
IsAlive (failed error, e) = Unit
IsAlive (panicked, e) = ⊥

open_epoch : (env : Env) (e e' : Engine) → open_engine env e ≡ (done tt, e') → e'.epoch ≡ 0
unfolding open_engine first_state stored_or_first read_config store_save store_load ◌>>=◌
open_epoch env e e' h = ground arith

module _ (env : Env) (loads : (n : ℕ) → env.load_fails n ≡ false)
    (uuids : (n : ℕ) → is_sliceable 8 (env.uuid n) ≡ true) (o : Outside)
    (few : (n : ℕ) → length (o.arrivals n) < u64_mod) where
  handle_local-IsReady :
      (request : Request) (e : Engine) → IsReady e → IsReady (handle_local env request e).1
  handle_local-IsReady request e ready =
      let working : IsWorking e =
        (ready.sound.well_formed, (e.state, ready.sound.stored, ready.sound.well_formed)) in
      record {
        sound = (handle_local-IsSound env request e loads ready.sound).0;
        small = ground (arith, (handle_local_epoch env request e loads working).0, ready.small);
      }

  received-IsAlive :
      (r : Answer Reply) (e : Engine)
      → IsReady e
      → r ≢ panicked
      → IsAlive (continue (as_result r e).0 (λ _. pure none) (as_result r e).1)
  unfolding ◌>>=◌
  received-IsAlive (done reply) e ready h = ready
  received-IsAlive (failed error) e ready h = ready
  received-IsAlive panicked e ready h = h refl

  ticked-IsAlive :
      (r : Answer (Unit {0})) (e : Engine)
      → IsOver (r, e)
      → IsAlive (continue (as_result r e).0 (λ x. pure (break_on_error x)) (as_result r e).1)
  unfolding ◌>>=◌
  ticked-IsAlive (done x) e over = over
  ticked-IsAlive (failed error) e over = tt
  ticked-IsAlive panicked e over = over

  serve_event-IsAlive :
      (event : Event) (e : Engine) → IsReady e → IsAlive (serve_event env o event e)
  unfolding serve_event attempt ◌>>=◌
  serve_event-IsAlive Event.signal e ready = tt
  serve_event-IsAlive Event.closed e ready = tt
  serve_event-IsAlive (Event.received request) e ready =
      let (r, e') = handle_local env request e in
      received-IsAlive r e' (handle_local-IsReady request e ready)
        (handle_local-IsSound env request e loads ready.sound).1
  serve_event-IsAlive Event.ticked e ready =
      let (r, e') = tick env o e in ticked-IsAlive r e' (tick-IsOver env loads o few e ready)

  IsAlive-on :
      (rest : Exec Break) (r : Answer Break) (e : Engine)
      → ((f : Engine) → IsReady f → IsAlive (rest f))
      → IsAlive (r, e)
      → IsAlive (continue r (λ broken. unless_broken env o broken rest) e)
  unfolding ◌>>=◌
  IsAlive-on rest (done none) e k alive = k e alive
  IsAlive-on rest (done (some result)) e k alive = tt
  IsAlive-on rest (failed error) e k alive = tt
  IsAlive-on rest panicked e k alive = alive

  serve_loop-IsAlive :
      (events : List Event) (e : Engine) → IsReady e → IsAlive (serve_loop env o events e)
  unfolding serve_loop ◌>>=◌
  serve_loop-IsAlive [] e ready = ready
  serve_loop-IsAlive (event ∷ events) e ready =
      let (r, e') = serve_event env o event e in
      IsAlive-on (serve_loop env o events) r e' (serve_loop-IsAlive events)
        (serve_event-IsAlive event e ready)

  opened-IsAlive :
      (events : List Event) (r : Answer (Unit {0})) (e e' : Engine)
      → IsStored e
      → open_engine env e ≡ (r, e')
      → IsAlive (
          continue r
            (λ _. update (λ f. record f { snapshot = some f.state }) >> serve_loop env o events)
            e')
  unfolding ◌>>=◌
  opened-IsAlive events (done tt) e e' row h =
      let sound =
        subst (λ (q : Answer (Unit {0}) × Engine). IsSound q.1) h
          (open_engine-IsSound env uuids e row (ap (λ (q : Answer (Unit {0}) × Engine). q.0) h)) in
      serve_loop-IsAlive events (record e' { snapshot = some e'.state })
        (record {
          sound = record {
            well_formed = sound.well_formed;
            stored = sound.stored;
            shown = inr refl;
          };
          small = ground (arith, open_epoch env e e' h);
        })
  opened-IsAlive events (failed error) e e' row h = tt
  opened-IsAlive events panicked e e' row h = absurd (open_not_panicked env e e' h)

  -- Let every read of the row succeed, the text of each new UUID have a prefix of eight bytes, fewer
  -- than 2 ^ 64 requests arrive during a call to the outside,
  -- and the database hold nothing or a well-formed state when the manager is first started. Then
  -- whatever lives it has had, each ended by a signal, an error or a panic, and whatever requests and
  -- ticks come in what order in the present life, the manager does not panic in it; while the loop
  -- of `serve` still runs, the state in memory is well formed, and is the one in the database and the
  -- one that the readers see; and when the life ends, the database holds nothing or a well-formed
  -- state.
  pub serve-IsAlive :
      (past : List (List Event)) (events : List Event) (e : Engine)
      → IsStored e
      → IsAlive (serve env o events (lives env o past e))
        × IsStored (serve env o events (lives env o past e)).1
  unfolding serve ◌>>=◌
  serve-IsAlive past events e row =
      let f = lives env o past e in
      let stored = lives-IsStored env loads uuids o past e row in
      let (r, e') = open_engine env f in
      let (q, g) = serve env o events f in
      (
        opened-IsAlive events r f e' stored refl,
        IsStored-of_IsLived env loads uuids o q g (serve-IsLived env loads uuids o events f stored),
      )
