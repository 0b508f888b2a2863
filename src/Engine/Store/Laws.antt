-- ===== src/Engine/Store/Laws.antt =====
-- The order of the writes in `commit_config` of src/manager.rs: SQLite first, config.toml after it.
use runnerctl.Common.{
  ◌+◌, String, ◌≡◌, ◌⊎◌, inl, inr, refl, ap, false, Option, none, some, arith, eq_iff, Bool-cases,
}
use runnerctl.Result.{Result, ok, err}
use runnerctl.Config.{Config}
use runnerctl.Config.Validate.{validate}
use runnerctl.State.{State}
use runnerctl.Engine.{Env, WriteOutcome, failed_before, failed_after, written, Engine, done, ◌>>=◌}
use runnerctl.Engine.Store.{
  send_snapshot, store_save, read_config, after_write, write_config, clean_file, committed,
  commit_config,
}

send_snapshot_keeps :
    (e : Engine)
    → ((send_snapshot e).1.file ≡ e.file)
      × ((send_snapshot e).1.row ≡ e.row)
      × ((send_snapshot e).1.state ≡ e.state)
unfolding send_snapshot
send_snapshot_keeps e = ground arith

module _ (env : Env) (next : Config) where
  -- What the disk and the row may hold after the commit.
  abbrev IsOrdered : Engine → Engine → Type 0
  IsOrdered e e' =
      (e'.file ≡ e.file)
      ⊎ ((text : String) × (env.to_toml next ≡ some text)
          × (e'.file ≡ some text)
          × (e'.row ≡ some (committed env next text e.state)))

  -- However a commit ends, config.toml is the old file, or it is the new configuration and the row
  -- already holds that configuration with the hash of exactly this text.
  pub commit_config_row_first :
      (e : Engine)
      → ((commit_config env next e).1.file ≡ e.file)
        ⊎ ((text : String) × (env.to_toml next ≡ some text)
            × ((commit_config env next e).1.file ≡ some text)
            × ((commit_config env next e).1.row ≡ some (committed env next text e.state)))
  unfolding commit_config store_save write_config after_write send_snapshot ◌>>=◌
  commit_config_row_first e = by_validate (validate next) refl
    where
      by_write :
          (text : String)
          → validate next ≡ ok tt
          → env.to_toml next ≡ some text
          → env.save_fails e.io ≡ false
          → (w : WriteOutcome) → env.write (e.io + 1) ≡ w
          → IsOrdered e (commit_config env next e).1
      by_write text valid toml saves failed_before h = rw (valid, toml, saves, h) (inl refl)
      by_write text valid toml saves failed_after h =
          rw (valid, toml, saves, h) (inr (text, refl, refl, refl))
      by_write text valid toml saves written h =
          rw (valid, toml, saves, h)
            (let kept = send_snapshot_keeps _ in inr (text, refl, kept.0, kept.1))

      by_text :
          validate next ≡ ok tt
          → (o : Option String) → env.to_toml next ≡ o
          → IsOrdered e (commit_config env next e).1
      by_text valid none toml = rw (valid, toml) (inl refl)
      by_text valid (some text) toml = elim (Bool-cases (env.save_fails e.io)) [
        | inl fails ↦ rw (valid, toml, fails) (inl refl)
        | inr saves ↦ by_write text valid toml saves (env.write (e.io + 1)) refl
      ]

      by_validate : (r : Result Unit) → validate next ≡ r → IsOrdered e (commit_config env next e).1
      by_validate (ok tt) valid = by_text valid (env.to_toml next) refl
      by_validate (err error) invalid = rw invalid (inl refl)

  -- The file holds a text that the state in memory knows.
  abbrev HasText : Engine → Type 0
  HasText e = (text : String) × (e.file ≡ some text) × (e.state.file_hash ≡ env.hash text)

  commit_config-HasText :
      (e : Engine) → (commit_config env next e).0 ≡ done tt → HasText (commit_config env next e).1
  unfolding commit_config store_save write_config after_write ◌>>=◌
  commit_config-HasText e returns = by_validate (validate next) refl
    where
      by_write :
          (text : String)
          → validate next ≡ ok tt
          → env.to_toml next ≡ some text
          → env.save_fails e.io ≡ false
          → (w : WriteOutcome) → env.write (e.io + 1) ≡ w
          → HasText (commit_config env next e).1
      by_write text valid toml saves failed_before h =
          absurd (ground (arith, returns, valid, toml, saves, h))
      by_write text valid toml saves failed_after h =
          absurd (ground (arith, returns, valid, toml, saves, h))
      by_write text valid toml saves written h =
          rw (valid, toml, saves, h)
            (let kept = send_snapshot_keeps _ in
              (text, kept.0, ap (λ (s : State). s.file_hash) kept.2))

      by_text :
          validate next ≡ ok tt
          → (o : Option String) → env.to_toml next ≡ o
          → HasText (commit_config env next e).1
      by_text valid none toml = absurd (ground (arith, returns, valid, toml))
      by_text valid (some text) toml = elim (Bool-cases (env.save_fails e.io)) [
        | inl fails ↦ absurd (ground (arith, returns, valid, toml, fails))
        | inr saves ↦ by_write text valid toml saves (env.write (e.io + 1)) refl
      ]

      by_validate : (r : Result Unit) → validate next ≡ r → HasText (commit_config env next e).1
      by_validate (ok tt) valid = by_text valid (env.to_toml next) refl
      by_validate (err error) invalid = absurd (ground (arith, returns, invalid))

  clean_file_passes :
      (e : Engine) → HasText e → env.read_fails e.io ≡ false → (clean_file env e).0 ≡ done tt
  unfolding clean_file read_config ◌>>=◌
  clean_file_passes e (text, here, known) reads =
      ground (arith, eq_iff (env.hash text) (env.hash text))

  -- After a commit that returns, config.toml is unedited: the next read of it passes `clean_file`.
  pub clean_file-commit_config :
      (e : Engine)
      → (commit_config env next e).0 ≡ done tt
      → env.read_fails (commit_config env next e).1.io ≡ false
      → (clean_file env (commit_config env next e).1).0 ≡ done tt
  clean_file-commit_config e returns =
      clean_file_passes (commit_config env next e).1 (commit_config-HasText e returns)
