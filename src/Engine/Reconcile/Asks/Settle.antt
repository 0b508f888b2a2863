-- ===== src/Engine/Reconcile/Asks/Settle.antt =====
-- What `reconcile` of src/manager.rs asks outside besides the loops over the runs.
use runnerctl.Common.{arith, ℕ, String, Bool, Option, none, some, List, [], ◌∷◌}
use runnerctl.Result.{Error, Result, ok, err}
use runnerctl.Config.{Pool}
use runnerctl.State.{PoolState, State}
use runnerctl.Engine.{Effect, remove_log_file, Env, pure}
use runnerctl.Engine.Handle.Keeps.{Keeps-update_state}
use runnerctl.Engine.Handle.Epoch.{Keeps-clean_file, Keeps-commit_config}
use runnerctl.Engine.Reconcile.{LogEntry, Outside, external}
use runnerctl.Engine.Reconcile.Steps.{Progress}
use runnerctl.Engine.Reconcile.Pass.{
  raise_first, remove_log, expire_entries, expire_logs, drop_pool, index_manager_id, record_new,
  replenish, fill, settle,
}
use runnerctl.Engine.Reconcile.Asks.{
  Asks, Asks-same, Asks-raise, Asks-lift, Asks-leave, Asks-next_io, Asks-external, Asks-Keeps,
  Asks-pure, Asks-bind, Asks-if, Asks-gets, Asks-insert_run, Asks-save,
}
use runnerctl.Engine.Reconcile.Asks.Pass.{Spares}

Asks-raise_first : {P : Effect → Type 0} (x : Option Error) → Asks P (raise_first x)
unfolding raise_first
Asks-raise_first none = Asks-pure tt
Asks-raise_first (some error) = Asks-raise error

module _ (env : Env) (o : Outside) where
  pub Asks-outside :
      {A : Type 0} (answer : ℕ → Result A) → Asks (Spares o) (external env o (pure tt) answer)
  Asks-outside answer = Asks-external env o _ answer (Asks-pure tt)

  Asks-expire_entries :
      (s : State) (entries : List (Result LogEntry))
      → Asks (Spares o) (expire_entries env o s entries)
  unfolding expire_entries remove_log
  Asks-expire_entries s [] = Asks-pure tt
  Asks-expire_entries s (err error ∷ rest) = Asks-raise error
  Asks-expire_entries s (ok entry ∷ rest) =
      Asks-bind _ _
        (Asks-if _ _ _
          (Asks-bind _ _ Asks-next_io λ n.
            Asks-bind _ _ (Asks-leave (remove_log_file entry.filename) tt)
              λ _. Asks-lift (o.command n))
          (Asks-pure tt))
        λ _. Asks-expire_entries s rest

  Asks-expire_logs : Asks (Spares o) (expire_logs env o)
  unfolding expire_logs
  Asks-expire_logs = Asks-bind _ _ Asks-next_io λ n.
      Asks-bind _ _ (Asks-lift (o.log_entries n))
        λ entries. Asks-bind _ _ (Asks-gets _) λ s. Asks-expire_entries s entries

  pub Asks-drop_pool : (name : String) → Asks (Spares o) (drop_pool env o name)
  unfolding drop_pool
  Asks-drop_pool name = Asks-bind _ _ (Asks-Keeps _ (Keeps-clean_file env)) λ _.
      Asks-bind _ _ (Asks-gets _) λ config.
        Asks-bind _ _ (Asks-Keeps _ (Keeps-update_state _))
          λ _. Asks-Keeps _ (Keeps-commit_config env _)

  Asks-index_manager_id : Asks (Spares o) index_manager_id
  unfolding index_manager_id
  Asks-index_manager_id = Asks-same _ λ e. ground arith

  Asks-replenish : (pool : Pool) (ps : PoolState) → Asks (Spares o) (replenish env o pool ps)
  unfolding replenish record_new
  Asks-replenish pool ps = Asks-bind _ _ (Asks-outside o.command) λ _.
      Asks-bind _ _ Asks-index_manager_id λ manager.
        Asks-bind _ _ Asks-next_io λ n. Asks-bind _ _ (Asks-insert_run _) λ _. Asks-save env

  pub Asks-settle :
      (name : String) (pool : Pool) (ps : PoolState) (allow : Bool) (unknown : ℕ) (p : Progress)
      → Asks (Spares o) (settle env o name pool ps allow unknown p)
  unfolding settle fill
  Asks-settle name pool ps allow unknown p = Asks-bind _ _ (Asks-raise_first p.cleanup_error) λ _.
      Asks-bind _ _ (Asks-gets _) λ s.
        Asks-if _ _ _ (Asks-bind _ _ (Asks-drop_pool name) λ _. Asks-pure _) (
          Asks-bind _ _ (Asks-gets _) λ s'.
            Asks-bind _ _ (Asks-if _ _ _ (Asks-replenish pool ps) (Asks-pure tt))
              λ _. Asks-bind _ _ Asks-expire_logs λ _. Asks-pure _)
