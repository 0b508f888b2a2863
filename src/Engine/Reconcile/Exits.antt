-- ===== src/Engine/Reconcile/Exits.antt =====
-- The end of a run in src/manager.rs: `observed_phase`, `note_exit`, `stopped_by_reboot`, `archive`
-- and `record_failure`.
use runnerctl.Common.{
  ℕ, ◌+◌, ◌%◌, String, Bool, true, false, not, ◌&&◌, Option, none, some, ltb, str_eq, if◌then◌else◌,
}
use runnerctl.Common.Text.{codes, starts_with}
use runnerctl.Result.{Result, ok, err, message, reconcile_interrupted}
use runnerctl.BTreeMap.{lookup}
use runnerctl.State.{RetryScope, observation, provisioning, PoolState, Run}
use runnerctl.Engine.{
  Effect, docker_archive, docker_probe, write_log, Env, Exec, pure, raise, lift, gets, update,
  ◌>>=◌, ◌>>◌, context, next_io, modify_pool,
}
use runnerctl.Engine.Store.{save}
use runnerctl.Engine.Retry.{saturating_add, saturating_add_u32, retry_delay, unexpected_exit}
use runnerctl.Engine.Reconcile.{
  Container, RemoteRunner, Outside, attempt, leave, insert_run, external,
}

unfoldable pub observed_phase : Option RemoteRunner → String
observed_phase none = "unknown"
observed_phase (some r) =
    if r.busy then "busy" else if str_eq r.status "online" then "idle" else "unknown"

-- `ReconcileReport::note_exit` on the count
unfoldable pub note_exit : Run → Bool → ℕ → ℕ
note_exit run interrupted unexpected_exits =
    if unexpected_exit run && not interrupted then unexpected_exits + 1 else unexpected_exits

abbrev pub scope_eq : RetryScope → RetryScope → Bool
scope_eq observation observation = true
scope_eq provisioning provisioning = true
scope_eq _ _ = false

-- `c["State"]["StartedAt"]` tells that the container ran.
abbrev pub ever_started : Option String → Bool
ever_started none = false
ever_started (some s) = not (starts_with (codes s) (codes "0001-"))

abbrev pub is_some_nat : Option ℕ → Bool
is_some_nat none = false
is_some_nat (some _) = true

module _ (o : Outside) where
  unfoldable pub started_at : Container → Option ℕ
  started_at c = elim c.started_at [ none ↦ none | some s ↦ o.parse_rfc3339 s ]

  abbrev pub before_boot : Option ℕ → Option ℕ → Bool
  before_boot (some t) (some boot_time) = ltb t boot_time
  before_boot _ _ = false

  unfoldable pub started_before_boot : Container → Option ℕ → Bool
  started_before_boot c boot_time = before_boot (started_at c) boot_time

-- The answer to `Docker::boot_time`.
unfoldable pub keep_boot_time : Result ℕ → Exec (Unit {0})
keep_boot_time (ok boot_time) = update (λ e. record e { boot_time = some boot_time })
keep_boot_time (err reconcile_interrupted) = raise reconcile_interrupted
keep_boot_time (err (message _)) = pure tt

module _ (env : Env) (o : Outside) where
  -- `Docker::boot_time` runs a container of the image, which Docker removes when it ends.
  abbrev pub ask_boot_time : String → Exec ℕ
  ask_boot_time image = external env o (leave (docker_probe image)) o.boot_time

  unfoldable pub stopped_by_reboot : Container → (image : String) → Exec Bool
  stopped_by_reboot c image = do
    boot_time ← gets (λ e. e.boot_time)
    if is_some_nat (started_at o c) && not (started_before_boot o c boot_time)
        then attempt (ask_boot_time image) >>= keep_boot_time
        else pure tt
    gets (λ e. started_before_boot o c e.boot_time)

  -- `config::atomic_write` or another access to the disk of the run `id`
  unfoldable pub on_disk : Effect → Exec (Unit {0})
  on_disk effect = do n ← next_io; leave effect; lift (o.command n)

  -- What `archive` does with a run whose log is not saved yet.
  unfoldable pub archive_new : Run → Container → Exec Run
  archive_new run c = do
    external env o (pure tt) o.text
    on_disk (write_log run.id)
    if ever_started c.started_at
        then external env o (leave (docker_archive run.id)) o.command
        else pure tt
    let saved = record run { log_saved = true }
    insert_run saved
    save env
    pure saved

  unfoldable pub archive : Run → Container → Exec Run
  archive run c = if run.log_saved then pure run else archive_new run c

  -- The pool's state after one more failure at `at`, with the jitter given.
  abbrev pub failed_pool : String → RetryScope → ℕ → ℕ → PoolState → PoolState
  failed_pool error scope at jitter p = record p {
    failures = saturating_add_u32 p.failures 1;
    retry_at = saturating_add at (retry_delay (saturating_add_u32 p.failures 1) jitter);
    retry_scope = scope;
    error = some error;
  }

  unfoldable pub back_off : String → String → RetryScope → ℕ → Exec (Unit {0})
  back_off name error scope at = do
    m ← next_io
    modify_pool name (failed_pool error scope at (o.random_byte m % 7))
    pure tt

  unfoldable pub record_failure : String → String → RetryScope → Exec (Unit {0})
  record_failure name error scope = do
    n ← next_io
    p ← context (← gets (λ e. lookup name e.state.pools)) "pool disappeared"
    let at = env.now n
    if ltb at p.retry_at && scope_eq p.retry_scope scope
        then pure tt
        else back_off name error scope at
