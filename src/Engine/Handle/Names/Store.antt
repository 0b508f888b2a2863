-- ===== src/Engine/Handle/Names/Store.antt =====
-- The accesses of src/manager.rs to the row and to config.toml keep the names.
use runnerctl.Common.{ℕ, String}
use runnerctl.Config.{Config}
use runnerctl.State.{State}
use runnerctl.Engine.{Env, WriteOutcome, failed_before, failed_after, written}
use runnerctl.Engine.Store.{
  store_save, read_config, after_write, write_config, save, clean_file, committed, commit_config,
}
use runnerctl.Engine.Handle.Names.{
  Names, Has, Steady, Steady-lift, Steady-context, Steady-state, Steady-row, Steady-send_snapshot,
  Steady-bind, Steady-read,
}
use runnerctl.Engine.Handle.Names.Rules.{steady}

module _ (names : Names) (env : Env) where
  pub Steady-read_config : Steady names (read_config env)
  unfolding read_config
  Steady-read_config = search steady depth 20

  pub Steady-clean_file : Steady names (clean_file env)
  unfolding clean_file
  Steady-clean_file = search (steady, Steady-read_config) depth 20

  Steady-after_write :
      (n : ℕ) (text : String) (o : WriteOutcome) → Steady names (after_write env n text o)
  unfolding after_write
  Steady-after_write n text failed_before = search steady depth 20
  Steady-after_write n text failed_after = search steady depth 20
  Steady-after_write n text written = search steady depth 20

  Steady-write_config : (text : String) → Steady names (write_config env text)
  unfolding write_config
  Steady-write_config text = search (steady, Steady-after_write) depth 20

  Steady-store_save : (s : State) → Has names s → Steady names (store_save env s)
  unfolding store_save
  Steady-store_save s has = search (steady, Steady-row, has) depth 20

  pub Steady-save : Steady names (save env)
  unfolding save
  Steady-save =
      Steady-read names (λ e. e.state) _
        λ e n.
          Steady-bind names _ _ (Steady-store_save e.state n.state)
            (λ _. Steady-send_snapshot names)

  pub Steady-commit_config : (next : Config) → Steady names (commit_config env next)
  unfolding commit_config
  Steady-commit_config next = Steady-bind names _ _ (Steady-lift names _) λ _.
      Steady-bind names _ _ (Steady-context names _ _) λ text.
        Steady-read names (λ e. committed env next text e.state) _
          λ e n.
            let has : Has names (committed env next text e.state) = record {
              runs = n.state.runs;
              pool = n.state.pool;
            } in
            Steady-bind names _ _ (Steady-store_save _ has) λ _.
              Steady-bind names _ _ (Steady-state names _ has)
                (λ _. search (steady, Steady-write_config) depth 20)
