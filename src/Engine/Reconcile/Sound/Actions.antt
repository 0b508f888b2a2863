-- ===== src/Engine/Reconcile/Sound/Actions.antt =====
-- The rules for the actions of a reconciliation of src/manager.rs that change the state, and for its
-- calls to the outside.
use runnerctl.Common.{
  ℕ, ◌+◌, String, ◌≡◌, refl, sym, subst, false, Option, none, some, List, [], ◌∷◌, arith,
  Bool-cases, inl, inr,
}
use runnerctl.Result.{Result}
use runnerctl.BTreeMap.{BTreeMap, insert, remove, contains_key}
use runnerctl.BTreeMap.Laws.Order.{IsSorted, insert-IsSorted, remove-IsSorted}
use runnerctl.State.{Run, State}
use runnerctl.Protocol.{Request}
use runnerctl.Retiring.{mark_retiring}
use runnerctl.Retiring.Laws.Exact.{IsKeyed}
use runnerctl.Engine.{Env, Engine, Exec, done, panicked, gets, update_state, ◌>>=◌, next_io, mark}
use runnerctl.Engine.Store.{save, store_save, send_snapshot, clean_file, read_config}
use runnerctl.Engine.Sound.{IsWellFormed, IsWorking}
use runnerctl.Engine.Sound.Wf.{mark_retiring-IsWellFormed}
use runnerctl.Engine.Handle.{handle_local}
use runnerctl.Engine.Handle.Epoch.{handle_local_epoch}
use runnerctl.Engine.Reconcile.{
  Outside, attempt, check_epoch, is_stale, insert_run, serve_arrivals, external,
}
use runnerctl.Engine.Reconcile.Arrivals.{handle_local-IsWorking}
use runnerctl.Engine.Reconcile.Sound.{
  IsLater, Keeps, IsLater-trans, Keeps-pure, Keeps-raise, Keeps-gets, Keeps-lift, Keeps-context,
  Keeps-attempt, Keeps-if, Keeps-bind, Keeps-ensure, Keeps-next_io, Keeps-leave, Keeps-update_state,
  Keeps-reads, Keeps-index_pool, Keeps-index_run, Keeps-modify_pool, IsLater-refl,
}

IsKeyed-insert :
    (k : String) (r : Run) (m : BTreeMap Run) → r.id ≡ k → IsKeyed m → IsKeyed (insert k r m)
IsKeyed-insert k r [] h q = (h, tt)
IsKeyed-insert k r ((j, v) ∷ m) h q = ground (arith, IsKeyed-insert k r m h q.1)

IsKeyed-remove : (k : String) (m : BTreeMap Run) → IsKeyed m → IsKeyed (remove k m)
IsKeyed-remove k [] q = tt
IsKeyed-remove k ((j, v) ∷ m) q = ground (arith, IsKeyed-remove k m q.1)

-- Other runs, in order and each under its own id.
pub runs-IsWellFormed :
    (f : BTreeMap Run → BTreeMap Run)
    → ((m : BTreeMap Run) → IsSorted m → IsKeyed m → IsSorted (f m) × IsKeyed (f m))
    → (s : State) → IsWellFormed s
    → IsWellFormed (record s { runs = f s.runs })
runs-IsWellFormed f h s w =
    let (sorted, keyed) = h s.runs w.runs_sorted w.runs_keyed in
    record {
      valid = w.valid;
      matching = w.matching;
      pools_sorted = w.pools_sorted;
      runs_sorted = sorted;
      runs_keyed = keyed;
      manager_id_sliceable = w.manager_id_sliceable;
    }

pub Keeps-insert_run : (r : Run) → Keeps (insert_run r)
unfolding insert_run
Keeps-insert_run r = Keeps-update_state _ (
    runs-IsWellFormed (insert r.id r)
      (λ m s q. (insert-IsSorted r.id r m s, IsKeyed-insert r.id r m refl q)))

pub Keeps-remove_run :
    (id : String) → Keeps (update_state (λ s. record s { runs = remove id s.runs }))
Keeps-remove_run id =
    Keeps-update_state _
      (runs-IsWellFormed (remove id) (λ m s q. (remove-IsSorted id m s, IsKeyed-remove id m q)))

mark_unknown :
    (name : String) (s : State) → contains_key name s.pools ≡ false → mark_retiring name s ≡ none
unfolding mark_retiring
mark_unknown name s h = ground arith

pub mark-some :
    (name : String) (e : Engine) (runs : BTreeMap Run)
    → mark_retiring name e.state ≡ some (record e.state { runs = runs })
    → mark name e ≡ (done tt, record e { state = record e.state { runs = runs } })
unfolding mark
mark-some name e runs h = ground arith

mark-none :
    (name : String) (e : Engine) → mark_retiring name e.state ≡ none → mark name e ≡ (panicked, e)
unfolding mark
mark-none name e h = ground arith

pub Keeps-mark : (name : String) → Keeps (mark name)
Keeps-mark name = record {
  run = λ e w. elim (Bool-cases (contains_key name e.state.pools)) [
    | inl known ↦
        let (runs, marked, well) = mark_retiring-IsWellFormed name e.state w.0 known in
        subst (λ r. IsLater e r.1) (sym (mark-some name e runs marked))
          (record { working = (well, w.1); reconciles = refl })
    | inr unknown ↦
        subst (λ r. IsLater e r.1) (sym (mark-none name e (mark_unknown name e.state unknown)))
          (IsLater-refl e w)
  ];
}

module _ (env : Env) where
  pub Keeps-save : Keeps (save env)
  unfolding save store_save send_snapshot ◌>>=◌
  Keeps-save = record {
    run = λ e w. elim (Bool-cases (env.save_fails e.io)) [
      | inl fails ↦ rw fails (record { working = w; reconciles = refl })
      | inr works ↦ rw works (by_readers e w e.snapshot refl)
    ];
  }
    where
      by_readers :
          (e : Engine)
          → IsWorking e
          → (o : Option State) → e.snapshot ≡ o
          → IsLater e (send_snapshot (record e { row = some e.state; io = e.io + 1 })).1
      by_readers e w none h =
          rw h (record { working = (w.0, (e.state, refl, w.0)); reconciles = refl })
      by_readers e w (some t) h =
          rw h (record { working = (w.0, (e.state, refl, w.0)); reconciles = refl })

  read_config_reads : (e : Engine) → (read_config env e).1 ≡ record e { io = e.io + 1 }
  unfolding read_config ◌>>=◌
  read_config_reads e = ground arith

  pub Keeps-clean_file : Keeps (clean_file env)
  unfolding clean_file
  Keeps-clean_file =
      Keeps-bind (read_config env) _
        (record {
          run = λ e w.
              subst (IsLater e) (sym (read_config_reads e))
                (record { working = w; reconciles = refl });
        })
        λ text. Keeps-bind (gets _) _ (Keeps-gets _) (λ s. Keeps-ensure _ _)

  pub Keeps-serve_arrivals :
      ((n : ℕ) → env.load_fails n ≡ false)
      → (requests : List Request) → Keeps (serve_arrivals env requests)
  unfolding serve_arrivals
  Keeps-serve_arrivals loads [] = Keeps-pure tt
  Keeps-serve_arrivals loads (request ∷ rest) =
      Keeps-bind (attempt (handle_local env request)) _
        (Keeps-attempt (handle_local env request) (record {
          run = λ e w. record {
            working = (handle_local-IsWorking env loads request e w).0;
            reconciles = (handle_local_epoch env request e loads w).1;
          };
        }))
        λ _. Keeps-serve_arrivals loads rest

  pub Keeps-check_epoch : Keeps check_epoch
  unfolding check_epoch
  Keeps-check_epoch =
      Keeps-bind (gets is_stale) _ (Keeps-gets is_stale)
        λ stale. Keeps-if stale _ _ (Keeps-raise _) (Keeps-pure tt)

  pub Keeps-external :
      ((n : ℕ) → env.load_fails n ≡ false)
      → (o : Outside) {A : Type 0} (start : Exec (Unit {0})) (answer : ℕ → Result A) → Keeps start
      → Keeps (external env o start answer)
  unfolding external
  Keeps-external loads o start answer h = Keeps-bind check_epoch _ Keeps-check_epoch λ _.
      Keeps-bind next_io _ Keeps-next_io λ n. Keeps-bind start _ h λ _.
        Keeps-bind (serve_arrivals env (o.arrivals n)) _ (Keeps-serve_arrivals loads (o.arrivals n))
          λ _. Keeps-bind check_epoch _ Keeps-check_epoch (λ _. Keeps-lift (answer n))

pub ruleset keeping = (
  Keeps-bind, Keeps-pure, Keeps-raise, Keeps-gets, Keeps-lift, Keeps-context, Keeps-attempt,
  Keeps-if, Keeps-ensure, Keeps-next_io, Keeps-leave, Keeps-index_pool, Keeps-index_run,
  Keeps-modify_pool, Keeps-insert_run, Keeps-remove_run, Keeps-mark, Keeps-save, Keeps-clean_file,
  Keeps-external,
)
