-- ===== src/Engine/Reconcile/Sound/Drop.antt =====
-- The removal of a deleted pool by `reconcile` in src/manager.rs. When its commit fails, the pool has
-- left the states in memory, and nothing has been stored.
use runnerctl.Common.{◌+◌, String, ◌≡◌, ◌≢◌, inl, inr, refl, ◌∙◌, Option, some, arith, Bool-cases}
use runnerctl.Result.{Result, ok, err, reconcile_interrupted}
use runnerctl.Config.{Config}
use runnerctl.Config.Validate.Errors.{Speaks, validate-Speaks}
use runnerctl.State.{State}
use runnerctl.Engine.{
  Env, Engine, Exec, Answer, done, failed, panicked, lift, gets, update, ◌>>=◌, ◌>>◌, context,
  continue,
}
use runnerctl.Engine.Store.{store_save, write_config, send_snapshot, committed, commit_config}

-- An action that leaves the pools' states and the epochs alone, and is not interrupted.
pub record Stays {A : Type 0} (m : Exec A) : Type 0 where
  pub pools : (e : Engine) → (m e).1.state.pools ≡ e.state.pools
  pub epoch : (e : Engine) → (m e).1.epoch ≡ e.epoch
  pub reconciles : (e : Engine) → (m e).1.reconcile_epoch ≡ e.reconcile_epoch
  pub speaks : (e : Engine) → (m e).0 ≢ failed reconcile_interrupted

module _ {A B : Type 0} {F : Type 0} where
  kept_by_continue :
      (field : Engine → F) (r : Answer A) (f : A → Exec B) (e : Engine)
      → ((a : A) → field (f a e).1 ≡ field e)
      → field (continue r f e).1 ≡ field e
  kept_by_continue field (done a) f e k = k a
  kept_by_continue field (failed error) f e k = refl
  kept_by_continue field panicked f e k = refl

module _ {A B : Type 0} where
  spoken_by_continue :
      (r : Answer A) (f : A → Exec B) (e : Engine)
      → r ≢ failed reconcile_interrupted
      → ((a : A) → (f a e).0 ≢ failed reconcile_interrupted)
      → (continue r f e).0 ≢ failed reconcile_interrupted
  spoken_by_continue (done a) f e h k = k a
  spoken_by_continue (failed error) f e h k = λ p. h (cc)
  spoken_by_continue panicked f e h k = λ p. ground arith

  Stays-bind : (m : Exec A) (f : A → Exec B) → Stays m → ((a : A) → Stays (f a)) → Stays (m >>= f)
  unfolding ◌>>=◌
  Stays-bind m f h k = record {
    pools = λ e.
        let (r, e') = m e in
        kept_by_continue (λ g. g.state.pools) r f e' (λ a. (k a).pools e') ∙ h.pools e;
    epoch = λ e.
        let (r, e') = m e in
        kept_by_continue (λ g. g.epoch) r f e' (λ a. (k a).epoch e') ∙ h.epoch e;
    reconciles = λ e.
        let (r, e') = m e in
        kept_by_continue (λ g. g.reconcile_epoch) r f e' (λ a. (k a).reconciles e')
        ∙ h.reconciles e;
    speaks =
        λ e. let (r, e') = m e in spoken_by_continue r f e' (h.speaks e) (λ a. (k a).speaks e');
  }

module _ {A : Type 0} where
  Stays-lift : (r : Result A) → Speaks r → Stays (lift r)
  unfolding ◌>>=◌
  Stays-lift (ok a) s = record {
    pools = λ e. refl;
    epoch = λ e. refl;
    reconciles = λ e. refl;
    speaks = λ e p. ground arith;
  }
  Stays-lift (err error) s = record {
    pools = λ e. refl;
    epoch = λ e. refl;
    reconciles = λ e. refl;
    speaks = λ e p. s.apply (ground arith);
  }

  Stays-context : (o : Option A) (text : String) → Stays (context o text)
  unfolding ◌>>=◌
  Stays-context o text = record {
    pools = λ e. ground arith;
    epoch = λ e. ground arith;
    reconciles = λ e. ground arith;
    speaks = λ e p. ground arith;
  }

  Stays-gets : (f : Engine → A) → Stays (gets f)
  unfolding ◌>>=◌
  Stays-gets f = record {
    pools = λ e. refl;
    epoch = λ e. refl;
    reconciles = λ e. refl;
    speaks = λ e p. ground arith;
  }

module _ (env : Env) where
  store_save-Stays : (s : State) → Stays (store_save env s)
  unfolding store_save ◌>>=◌
  store_save-Stays s = record {
    pools = λ e. ground arith;
    epoch = λ e. ground arith;
    reconciles = λ e. ground arith;
    speaks = λ e p. ground arith;
  }

  write_config-Stays : (text : String) → Stays (write_config env text)
  unfolding write_config ◌>>=◌
  write_config-Stays text = record {
    pools = λ e. ground arith;
    epoch = λ e. ground arith;
    reconciles = λ e. ground arith;
    speaks = λ e p. ground arith;
  }

  send_snapshot-Stays : Stays send_snapshot
  unfolding send_snapshot ◌>>=◌
  send_snapshot-Stays = record {
    pools = λ e. ground arith;
    epoch = λ e. ground arith;
    reconciles = λ e. ground arith;
    speaks = λ e p. ground arith;
  }

  cleared-Stays : Stays (update (λ e. record e { cleared = e.cleared + 1 }))
  unfolding ◌>>=◌
  cleared-Stays = record {
    pools = λ e. refl;
    epoch = λ e. refl;
    reconciles = λ e. refl;
    speaks = λ e p. ground arith;
  }

  -- What `commit_config` does after it has stored the configuration.
  after_store : String → Exec (Unit {0})
  after_store text = do
    write_config env text
    update (λ e. record e { cleared = e.cleared + 1 })
    send_snapshot

  after_store-Stays : (text : String) → Stays (after_store text)
  unfolding after_store
  after_store-Stays text =
      Stays-bind _ _ (write_config-Stays text)
        (λ _. Stays-bind _ _ cleared-Stays (λ _. send_snapshot-Stays))

  store_and_write : (t : State) → String → Exec (Unit {0})
  store_and_write t text = do
    store_save env t
    update (λ e. record e { state = t })
    after_store text

  -- The end of an action, seen from the engine that it started from.
  abbrev pub StaysAt : {A : Type 0} → Engine → Answer A × Engine → Type 0
  StaysAt e (r, e') =
      (e'.state.pools ≡ e.state.pools)
      × (e'.epoch ≡ e.epoch)
      × (e'.reconcile_epoch ≡ e.reconcile_epoch)
      × (r ≢ failed reconcile_interrupted)

  store_and_write-StaysAt :
      (t : State) (text : String) (e : Engine)
      → t.pools ≡ e.state.pools
      → StaysAt e (store_and_write t text e)
  unfolding store_and_write store_save ◌>>=◌
  store_and_write-StaysAt t text e same = elim (Bool-cases (env.save_fails e.io)) [
    | inl fails ↦ rw fails (refl, refl, refl, λ p. ground arith)
    | inr works ↦
        let e2 = record e { io = e.io + 1; row = some t; state = t } in
        let stays = after_store-Stays text in
        rw works (stays.pools e2 ∙ same, stays.epoch e2, stays.reconciles e2, stays.speaks e2)
  ]

  commit-Stays :
      (next : Config) (text : String)
      → Stays (gets (λ e. committed env next text e.state) >>= λ t. store_and_write t text)
  unfolding ◌>>=◌
  commit-Stays next text = record {
    pools = λ e. (store_and_write-StaysAt (committed env next text e.state) text e refl).0;
    epoch = λ e. (store_and_write-StaysAt (committed env next text e.state) text e refl).1;
    reconciles = λ e. (store_and_write-StaysAt (committed env next text e.state) text e refl).2;
    speaks = λ e. (store_and_write-StaysAt (committed env next text e.state) text e refl).3;
  }

  pub commit_config-Stays : (next : Config) → Stays (commit_config env next)
  unfolding commit_config store_and_write after_store
  commit_config-Stays next =
      Stays-bind _ _ (Stays-lift _ (validate-Speaks next))
        λ _. Stays-bind _ _ (Stays-context _ _) (λ text. commit-Stays next text)
