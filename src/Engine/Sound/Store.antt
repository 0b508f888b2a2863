-- ===== src/Engine/Sound/Store.antt =====
-- The rules for the actions on the disk and the database, and for `mark_retiring`.
use runnerctl.Common.{
  ◌+◌, String, ◌≡◌, refl, sym, ◌∙◌, ap, subst, Bool, true, false, Option, none, some, arith,
  Bool-cases, inl, inr, str_eq,
}
use runnerctl.Result.{ok}
use runnerctl.BTreeMap.{BTreeMap, contains_key}
use runnerctl.Config.{Config}
use runnerctl.Config.Validate.{validate}
use runnerctl.State.{Run, State}
use runnerctl.Engine.{
  Env, WriteOutcome, failed_before, failed_after, written, Engine, Exec, done, pure, gets, update,
  ◌>>=◌, ◌>>◌, ensure, mark,
}
use runnerctl.Engine.Store.{
  send_snapshot, store_save, write_config, read_config, save, clean_file, committed, commit_config,
}
use runnerctl.Engine.Sound.{
  IsWellFormed, IsSound, At, Saved, Outcome, Triple, Triple-bind, Triple-map, bind_of_eq,
}
use runnerctl.Engine.Sound.Rules.{At-state, At-gets, At-context, At-lift}
use runnerctl.Engine.Sound.Wf.{mark_retiring-IsWellFormed}

module _ {B : Type 0} (s : State) {R : B → Engine → Type 0} where
  -- `mark_retiring` of a known pool.
  pub At-mark :
      (name : String) (k : Exec B)
      → IsWellFormed s
      → contains_key name s.pools ≡ true
      → ((runs : BTreeMap Run)
          → IsWellFormed (record s { runs = runs })
          → Triple (At (record s { runs = runs })) k R)
      → Triple (At s) (mark name >> k) R
  unfolding mark
  At-mark name k w known h = record {
    run = λ e p.
        let (runs, marked, well) = mark_retiring-IsWellFormed name s w known in
        let here : mark name e ≡ (done tt, record e { state = record s { runs = runs } }) =
          ground (arith, p.0, marked) in
        subst (Outcome R) (sym (bind_of_eq (mark name) (λ _. k) e _ tt here))
          ((h runs well).run (record e { state = record s { runs = runs } }) (refl, p.1));
  }

-- The end of a request.
pub Saved-pure : {B : Type 0} (s : State) (b : B) → Triple (Saved s) (pure b) (λ _. IsSound)
unfolding ◌>>=◌
Saved-pure s b = record {
  run = λ e p. record {
    well_formed = subst IsWellFormed (sym p.0) p.3;
    stored = p.1 ∙ ap some (sym p.0);
    shown = p.2;
  };
}

pub Saved-gets :
    {A B : Type 0} (s : State) (g : State → A) (f : A → Exec B) {R : B → Engine → Type 0}
    → Triple (Saved s) (f (g s)) R
    → Triple (Saved s) (gets (λ e. g e.state) >>= f) R
unfolding ◌>>=◌
Saved-gets s g f {R = R} k = record {
  run = λ e p. subst (λ t. Outcome R (f (g t) e)) (sym p.0) (k.run e p);
}

-- After the row was written, and before the state in memory is.
abbrev Rowed : State → State → Engine → Type 0
Rowed s t e = (e.state ≡ s) × (e.row ≡ some t) × IsWellFormed t

module _ (env : Env) where
  store_save-At : (s t : State) → IsWellFormed t → Triple (At s) (store_save env t) (λ _. Rowed s t)
  unfolding store_save ◌>>=◌
  store_save-At s t w = record {
    run = λ e p. elim (Bool-cases (env.save_fails e.io)) [
      | inl fails ↦ rw fails p.1
      | inr works ↦ rw works (p.0, refl, w)
    ];
  }

  write_config-Rowed :
      (t : State) (text : String) → Triple (Rowed t t) (write_config env text) (λ _. Rowed t t)
  unfolding write_config ◌>>=◌
  write_config-Rowed t text = record { run = λ e p. by_outcome e p (env.write e.io) refl }
    where
      by_outcome :
          (e : Engine)
          → Rowed t t e
          → (w : WriteOutcome) → env.write e.io ≡ w
          → Outcome (λ _. Rowed t t) (write_config env text e)
      by_outcome e p failed_before h = rw h (t, p.1, p.2)
      by_outcome e p failed_after h = rw h (t, p.1, p.2)
      by_outcome e p written h = rw h p

  send_snapshot-Saved : (t : State) → Triple (Rowed t t) send_snapshot (λ _. Saved t)
  unfolding send_snapshot
  send_snapshot-Saved t = record { run = λ e p. by_readers e p e.snapshot refl }
    where
      by_readers :
          (e : Engine)
          → Rowed t t e
          → (o : Option State) → e.snapshot ≡ o
          → Outcome (λ _. Saved t) (send_snapshot e)
      by_readers e p none h = rw h (p.0, p.1, inl h, p.2)
      by_readers e p (some u) h = rw h (p.0, p.1, inr refl, p.2)

  read_config-At : (s : State) → Triple (At s) (read_config env) (λ _. At s)
  unfolding read_config ◌>>=◌
  read_config-At s = record {
    run = λ e p. elim (Bool-cases (env.read_fails e.io)) [
      | inl fails ↦ rw fails p.1
      | inr works ↦ by_file e p works e.file refl
    ];
  }
    where
      by_file :
          (e : Engine)
          → At s e
          → env.read_fails e.io ≡ false
          → (o : Option String) → e.file ≡ o
          → Outcome (λ _. At s) (read_config env e)
      by_file e p works none h = rw (works, h) p.1
      by_file e p works (some t) h = rw (works, h) p

  ensure-At : (s : State) (b : Bool) (text : String) → Triple (At s) (ensure b text) (λ _. At s)
  unfolding ◌>>=◌
  ensure-At s true text = record { run = λ e p. p }
  ensure-At s false text = record { run = λ e p. p.1 }

  clean_file-At : (s : State) → Triple (At s) (clean_file env) (λ _. At s)
  unfolding clean_file
  clean_file-At s =
      Triple-bind (λ _. At s) (read_config env) _ (read_config-At s)
        λ text. At-state s _ (ensure-At s (str_eq (env.hash text) s.file_hash) _)

  set_state-Rowed :
      (s t : State) → Triple (Rowed s t) (update (λ e. record e { state = t })) (λ _. Rowed t t)
  unfolding ◌>>=◌
  set_state-Rowed s t = record { run = λ e p. (refl, p.1, p.2) }

  cleared-Rowed :
      (t : State)
      → Triple (Rowed t t) (update (λ e. record e { cleared = e.cleared + 1 })) (λ _. Rowed t t)
  unfolding ◌>>=◌
  cleared-Rowed t = record { run = λ e p. p }

  pub commit_config-At :
      (s : State) (next : Config)
      → ((text : String) → validate next ≡ ok tt → IsWellFormed (committed env next text s))
      → Triple
          (At s)
          (commit_config env next)
          (λ _ e. (text : String) × (validate next ≡ ok tt) × Saved (committed env next text s) e)
  unfolding commit_config
  commit_config-At s next w = At-lift s (validate next) _ λ _ valid.
      At-context s (env.to_toml next) _ _ λ text _.
        At-gets s (λ state. committed env next text state) _
          (let t = committed env next text s in
            Triple-bind (λ _. Rowed s t) (store_save env t) _ (store_save-At s t (w text valid))
              λ _.
                Triple-bind (λ _. Rowed t t) _ _ (set_state-Rowed s t)
                  λ _.
                    Triple-bind (λ _. Rowed t t) (write_config env text) _
                      (write_config-Rowed t text)
                      λ _.
                        Triple-bind (λ _. Rowed t t) _ _ (cleared-Rowed t)
                          λ _.
                            Triple-map (λ _. Saved t) _ (λ _ e p. (text, valid, p)) send_snapshot
                              (send_snapshot-Saved t))

  save-At : (s : State) → IsWellFormed s → Triple (At s) (save env) (λ _. Saved s)
  unfolding save store_save send_snapshot ◌>>=◌
  save-At s w = record {
    run = λ e p. elim (Bool-cases (env.save_fails e.io)) [
      | inl fails ↦ rw fails p.1
      | inr works ↦ by_readers e p works e.snapshot refl
    ];
  }
    where
      by_readers :
          (e : Engine)
          → At s e
          → env.save_fails e.io ≡ false
          → (o : Option State) → e.snapshot ≡ o
          → Outcome (λ _. Saved s) (save env e)
      by_readers e p works none h = rw (works, h) (p.0, ap some p.0, inl h, w)
      by_readers e p works (some t) h = rw (works, h) (p.0, ap some p.0, inr refl, w)

  -- A request that ends with the commit.
  pub At-commit_last :
      {B : Type 0} (s : State) (next : Config) (b : B)
      → ((text : String) → validate next ≡ ok tt → IsWellFormed (committed env next text s))
      → Triple (At s) (commit_config env next >> pure b) (λ _. IsSound)
  At-commit_last s next b w =
      Triple-bind _ (commit_config env next) (λ _. pure b) (commit_config-At s next w)
        λ _. record {
          run =
              λ e q. let (text, valid, p) = q in (Saved-pure (committed env next text s) b).run e p;
        }

  module _ {B : Type 0} (s : State) {R : B → Engine → Type 0} where
    -- A commit of a valid configuration; the rest of the request starts from what was stored.
    pub At-commit :
        (next : Config) (k : Exec B)
        → ((text : String) → validate next ≡ ok tt → IsWellFormed (committed env next text s))
        → ((text : String) → validate next ≡ ok tt → Triple (At (committed env next text s)) k R)
        → Triple (At s) (commit_config env next >> k) R
    At-commit next k w h =
        Triple-bind _ (commit_config env next) (λ _. k) (commit_config-At s next w)
          λ _. record {
            run = λ e q.
                let (text, valid, p) = q in
                let t = committed env next text s in (h text valid).run e (p.0, (t, p.1, p.3));
          }

    pub At-save :
        (k : Exec B) → IsWellFormed s → Triple (Saved s) k R → Triple (At s) (save env >> k) R
    At-save k w h = Triple-bind _ (save env) (λ _. k) (save-At s w) (λ _. h)

    pub At-read :
        (f : String → Exec B)
        → ((text : String) → Triple (At s) (f text) R)
        → Triple (At s) (read_config env >>= f) R
    At-read f h = Triple-bind _ (read_config env) f (read_config-At s) h

    pub At-clean_file : (k : Exec B) → Triple (At s) k R → Triple (At s) (clean_file env >> k) R
    At-clean_file k h = Triple-bind (λ _. At s) (clean_file env) (λ _. k) (clean_file-At s) (λ _. h)
