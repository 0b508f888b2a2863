-- ===== src/Engine/Handle/Names.antt =====
-- No request of src/manager.rs removes a run or a pool: the names in the state and in the row stay.
pub mod Rules
pub mod Store
pub mod Apply
pub mod Requests
use runnerctl.Common.{
  ℕ, ◌+◌, String, ◌≡◌, refl, sym, ◌∙◌, ap, subst, Bool, true, false, Option, none, some, List, [],
  ◌∷◌, arith, if◌then◌else◌, str_eq, eq_iff, ◌||◌, Option-cases, inl, inr,
}
use runnerctl.Result.{Error, Result, ok, err}
use runnerctl.BTreeMap.{BTreeMap, lookup, contains_key, insert, modify, map_values}
use runnerctl.BTreeMap.Laws.{contains_key-insert, contains_key-modify, lookup-map_values}
use runnerctl.Config.{Pool, Config}
use runnerctl.State.{PoolState, Run, State}
use runnerctl.Retiring.{Key, mark_retiring, retire_from, retire_pool, find_pool}
use runnerctl.Protocol.{Request, Reply, mutating}
use runnerctl.Engine.{
  Env, WriteOutcome, failed_before, failed_after, written, Engine, Exec, Answer, done, failed,
  panicked, pure, lift, raise, gets, context, update, update_state, ensure, next_io, index_pool,
  mark, continue, ◌>>=◌, ◌>>◌, modify_pool,
}
use runnerctl.Engine.Store.{
  send_snapshot, store_save, store_load, read_config, after_write, write_config, save, clean_file,
  commit_config,
}
use runnerctl.Engine.Pools.{
  targets, none_deleting, start_pools, stop_pools, drain_run, pending, reset_profile, handle_add,
  handle_start, handle_stop, handle_scale, handle_upgrade, handle_remove, handle_auth,
}
use runnerctl.Engine.Status.{pool_statuses, handle_status}
use runnerctl.Engine.Apply.{
  panics, apply_old, apply_new, apply_at, apply_pool, apply_pools, mark_all, handle_apply,
}
use runnerctl.Engine.Handle.{dispatch, handle_inner, reload, bump_epoch, finish, handle_local}

-- Some runs, and a pool, by their names.
pub record Names : Type 0 where
  pub runs : String → Bool
  pub pool : String

module _ (names : Names) where
  -- The runs and the pool are in the state.
  pub record Has (s : State) : Type 0 where
    pub runs : (j : String) → names.runs j ≡ true → contains_key j s.runs ≡ true
    pub pool : contains_key names.pool s.pools ≡ true

  -- They are in the state in memory, and in the row.
  pub record IsNamed (e : Engine) : Type 0 where
    pub state : Has e.state
    pub row : (s : State) → e.row ≡ some s → Has s

  pub record Steady {A : Type 0} (m : Exec A) : Type 0 where
    pub run : (e : Engine) → IsNamed e → IsNamed (m e).1

  -- The same runs, and at least the same pools.
  pub Has-pools :
      (m : BTreeMap PoolState) (s : State)
      → (contains_key names.pool s.pools ≡ true → contains_key names.pool m ≡ true)
      → Has s
      → Has (record s { pools = m })
  Has-pools m s h has = record { runs = has.runs; pool = h has.pool }

  pub Has-runs :
      (m : BTreeMap Run) (s : State)
      → ((j : String)
          → names.runs j ≡ true
          → contains_key j s.runs ≡ true
          → contains_key j m ≡ true)
      → Has s
      → Has (record s { runs = m })
  Has-runs m s h has = record { runs = λ j k. h j k (has.runs j k); pool = has.pool }

  module _ {A : Type 0} where
    -- An action that changes neither the state nor the row.
    pub Steady-same :
        (m : Exec A)
        → ((e : Engine) → (m e).1.state ≡ e.state)
        → ((e : Engine) → (m e).1.row ≡ e.row)
        → Steady m
    Steady-same m h k = record {
      run = λ e n. record {
        state = subst Has (sym (h e)) n.state;
        row = λ s r. n.row s (sym (k e) ∙ r);
      };
    }

    pub Steady-pure : (a : A) → Steady (pure a)
    unfolding ◌>>=◌
    Steady-pure a = record { run = λ e n. n }

    pub Steady-raise : (error : Error) → Steady (raise {A = A} error)
    unfolding ◌>>=◌
    Steady-raise error = record { run = λ e n. n }

    pub Steady-panics : Steady (panics {A = A})
    unfolding panics
    Steady-panics = record { run = λ e n. n }

    pub Steady-gets : (f : Engine → A) → Steady (gets f)
    unfolding ◌>>=◌
    Steady-gets f = record { run = λ e n. n }

    pub Steady-lift : (r : Result A) → Steady (lift r)
    unfolding ◌>>=◌
    Steady-lift (ok a) = record { run = λ e n. n }
    Steady-lift (err error) = record { run = λ e n. n }

    pub Steady-context : (o : Option A) (text : String) → Steady (context o text)
    unfolding ◌>>=◌
    Steady-context none text = record { run = λ e n. n }
    Steady-context (some a) text = record { run = λ e n. n }

    pub Steady-if : (b : Bool) (m n : Exec A) → Steady m → Steady n → Steady (if b then m else n)
    Steady-if true m n h k = h
    Steady-if false m n h k = k

  pub Steady-ensure : (b : Bool) (text : String) → Steady (ensure b text)
  unfolding ◌>>=◌
  Steady-ensure true text = record { run = λ e n. n }
  Steady-ensure false text = record { run = λ e n. n }

  pub Steady-next_io : Steady next_io
  unfolding ◌>>=◌
  Steady-next_io = record { run = λ e n. record { state = n.state; row = n.row } }

  pub Steady-file : (text : String) → Steady (update (λ e. record e { file = some text }))
  unfolding ◌>>=◌
  Steady-file text = record { run = λ e n. record { state = n.state; row = n.row } }

  pub Steady-cleared : Steady (update (λ e. record e { cleared = e.cleared + 1 }))
  unfolding ◌>>=◌
  Steady-cleared = record { run = λ e n. record { state = n.state; row = n.row } }

  pub Steady-update_state :
      (g : State → State) → ((s : State) → Has s → Has (g s)) → Steady (update_state g)
  unfolding ◌>>=◌
  Steady-update_state g h = record {
    run = λ e n. record { state = h e.state n.state; row = n.row };
  }

  -- The state that an action is given has the names.
  pub Steady-state : (s : State) → Has s → Steady (update (λ e. record e { state = s }))
  unfolding ◌>>=◌
  Steady-state s h = record { run = λ e n. record { state = h; row = n.row } }

  pub Steady-row : (s : State) → Has s → Steady (update (λ e. record e { row = some s }))
  unfolding ◌>>=◌
  Steady-row s h = record {
    run = λ e n. record { state = n.state; row = λ t r. subst Has (ground arith) h };
  }

  pub Steady-index_pool : (name : String) → Steady (index_pool name)
  unfolding ◌>>=◌
  Steady-index_pool name = Steady-same (index_pool name) (λ e. ground arith) (λ e. ground arith)

  pub Steady-send_snapshot : Steady send_snapshot
  unfolding send_snapshot
  Steady-send_snapshot = Steady-same send_snapshot (λ e. ground arith) (λ e. ground arith)

  module _ {A B : Type 0} where
    IsNamed-continue :
        (r : Answer A) (f : A → Exec B) (e : Engine)
        → ((a : A) → Steady (f a))
        → IsNamed e
        → IsNamed (continue r f e).1
    IsNamed-continue (done a) f e k n = (k a).run e n
    IsNamed-continue (failed error) f e k n = n
    IsNamed-continue panicked f e k n = n

    pub Steady-bind :
        (m : Exec A) (f : A → Exec B) → Steady m → ((a : A) → Steady (f a)) → Steady (m >>= f)
    unfolding ◌>>=◌
    Steady-bind m f h k = record {
      run = λ e n. let (r, e') = m e in IsNamed-continue r f e' k (h.run e n);
    }

    -- What is read of an engine with the names.
    pub Steady-read :
        (g : Engine → A) (f : A → Exec B)
        → ((e : Engine) → IsNamed e → Steady (f (g e)))
        → Steady (gets g >>= f)
    unfolding ◌>>=◌
    Steady-read g f k = record { run = λ e n. (k e n).run e n }
