-- ===== src/Engine/Reconcile/Sound.antt =====
-- Rules by which the actions of a reconciliation of src/manager.rs keep the manager's state and its
-- row well formed, however they end, and leave alone the epoch that the reconciliation started at.
pub mod Actions
pub mod Steps
pub mod Uncrossed
pub mod Calls
pub mod Rounds
pub mod Loop
pub mod Drop
pub mod Ended
pub mod Pass
pub mod Tick
use runnerctl.Common.{
  ℕ, ◌+◌, String, ◌≡◌, refl, sym, ◌∙◌, ap, subst, Bool, true, false, Option, none, some, List, [],
  ◌∷◌, arith, Bool-cases, inl, inr, if◌then◌else◌, eq_iff,
}
use runnerctl.Result.{Error, Result, ok, err}
use runnerctl.BTreeMap.{BTreeMap, lookup, insert, remove, contains_key, modify}
use runnerctl.BTreeMap.Laws.Order.{IsSorted, insert-IsSorted, remove-IsSorted}
use runnerctl.State.{PoolState, Run, State}
use runnerctl.Protocol.{Request}
use runnerctl.Retiring.{mark_retiring}
use runnerctl.Retiring.Laws.Exact.{IsKeyed}
use runnerctl.Engine.{
  Effect, Env, Engine, Exec, Answer, done, failed, panicked, pure, raise, lift, gets, update,
  update_state, ◌>>=◌, ◌>>◌, ensure, context, next_io, continue, index_pool, modify_pool, mark,
}
use runnerctl.Engine.Store.{save, store_save, send_snapshot, clean_file, read_config}
use runnerctl.Engine.Sound.{IsWellFormed, IsWorking}
use runnerctl.Engine.Reconcile.Pass.{index_manager_id}
use runnerctl.Engine.Sound.Wf.{modify-IsWellFormed, mark_retiring-IsWellFormed}
use runnerctl.Engine.Handle.{handle_local}
use runnerctl.Engine.Handle.Epoch.{handle_local_epoch}
use runnerctl.Engine.Reconcile.{
  Outside, attempt, as_result, check_epoch, is_stale, index_run, insert_run, leave, serve_arrivals,
  external,
}
use runnerctl.Engine.Reconcile.Arrivals.{handle_local-IsWorking}

-- From one state of the engine to a later one.
pub record IsLater (e f : Engine) : Type 0 where
  pub working : IsWorking f
  pub reconciles : f.reconcile_epoch ≡ e.reconcile_epoch

pub record Keeps {A : Type 0} (m : Exec A) : Type 0 where
  pub run : (e : Engine) → IsWorking e → IsLater e (m e).1

pub IsLater-refl : (e : Engine) → IsWorking e → IsLater e e
IsLater-refl e w = record { working = w; reconciles = refl }

pub IsLater-trans : (e f g : Engine) → IsLater e f → IsLater f g → IsLater e g
IsLater-trans e f g p q = record { working = q.working; reconciles = q.reconciles ∙ p.reconciles }

module _ {A : Type 0} where
  pub Keeps-pure : (a : A) → Keeps (pure a)
  unfolding ◌>>=◌
  Keeps-pure a = record { run = IsLater-refl }

  pub Keeps-raise : (error : Error) → Keeps {A = A} (raise error)
  unfolding ◌>>=◌
  Keeps-raise error = record { run = IsLater-refl }

  pub Keeps-gets : (f : Engine → A) → Keeps (gets f)
  unfolding ◌>>=◌
  Keeps-gets f = record { run = IsLater-refl }

  pub Keeps-lift : (r : Result A) → Keeps (lift r)
  unfolding ◌>>=◌
  Keeps-lift (ok a) = record { run = IsLater-refl }
  Keeps-lift (err error) = record { run = IsLater-refl }

  pub Keeps-context : (a : Option A) (text : String) → Keeps (context a text)
  unfolding ◌>>=◌
  Keeps-context none text = record { run = IsLater-refl }
  Keeps-context (some a) text = record { run = IsLater-refl }

  as_result_engine : (r : Answer A) (e : Engine) → (as_result r e).1 ≡ e
  as_result_engine (done a) e = refl
  as_result_engine (failed error) e = refl
  as_result_engine panicked e = refl

  pub Keeps-attempt : (m : Exec A) → Keeps m → Keeps (attempt m)
  unfolding attempt
  Keeps-attempt m h = record {
    run = λ e w. let (r, e') = m e in subst (IsLater e) (sym (as_result_engine r e')) (h.run e w);
  }

  pub Keeps-if : (b : Bool) (m n : Exec A) → Keeps m → Keeps n → Keeps (if b then m else n)
  Keeps-if true m n h k = h
  Keeps-if false m n h k = k

module _ {A B : Type 0} where
  IsLater-continue :
      (r : Answer A) (f : A → Exec B) (e e' : Engine)
      → ((a : A) → Keeps (f a))
      → IsLater e e'
      → IsLater e (continue r f e').1
  IsLater-continue (done a) f e e' k l = IsLater-trans e e' _ l ((k a).run e' l.working)
  IsLater-continue (failed error) f e e' k l = l
  IsLater-continue panicked f e e' k l = l

  pub Keeps-bind :
      (m : Exec A) (f : A → Exec B) → Keeps m → ((a : A) → Keeps (f a)) → Keeps (m >>= f)
  unfolding ◌>>=◌
  Keeps-bind m f h k = record {
    run = λ e w. let (r, e') = m e in IsLater-continue r f e e' k (h.run e w);
  }

pub Keeps-ensure : (b : Bool) (text : String) → Keeps (ensure b text)
unfolding ◌>>=◌
Keeps-ensure true text = record { run = IsLater-refl }
Keeps-ensure false text = record { run = IsLater-refl }

pub Keeps-next_io : Keeps next_io
unfolding ◌>>=◌
Keeps-next_io = record { run = λ e w. record { working = w; reconciles = refl } }

pub Keeps-leave : (effect : Effect) → Keeps (leave effect)
unfolding leave ◌>>=◌
Keeps-leave effect = record { run = λ e w. record { working = w; reconciles = refl } }

pub Keeps-update_state :
    (g : State → State)
    → ((s : State) → IsWellFormed s → IsWellFormed (g s))
    → Keeps (update_state g)
unfolding ◌>>=◌
Keeps-update_state g h = record {
  run = λ e w. record { working = (h e.state w.0, w.1); reconciles = refl };
}

-- An action that only reads.
pub Keeps-reads : {A : Type 0} (m : Exec A) → ((e : Engine) → (m e).1 ≡ e) → Keeps m
Keeps-reads m h = record { run = λ e w. subst (IsLater e) (sym (h e)) (IsLater-refl e w) }

pub Keeps-index_pool : (name : String) → Keeps (index_pool name)
unfolding ◌>>=◌
Keeps-index_pool name = Keeps-reads (index_pool name) (λ e. ground arith)

pub Keeps-index_run : (id : String) → Keeps (index_run id)
unfolding index_run
Keeps-index_run id = Keeps-reads (index_run id) (λ e. ground arith)

pub index_manager_id_reads : (e : Engine) → (index_manager_id e).1 ≡ e
unfolding index_manager_id
index_manager_id_reads e = ground arith

pub Keeps-index_manager_id : Keeps index_manager_id
Keeps-index_manager_id = Keeps-reads index_manager_id index_manager_id_reads

pub Keeps-modify_pool : (name : String) (g : PoolState → PoolState) → Keeps (modify_pool name g)
unfolding modify_pool
Keeps-modify_pool name g = Keeps-bind (index_pool name) _ (Keeps-index_pool name) λ p.
    Keeps-bind (update_state _) _ (Keeps-update_state _ (modify-IsWellFormed name g))
      λ _. Keeps-pure p
