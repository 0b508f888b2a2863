-- ===== src/Engine/Reconcile/Calm/Round.antt =====
-- A round of the loop of `reconcile` in src/manager.rs: no index fails, and the runs with other ids
-- stay.
use runnerctl.Common.{
  ℕ, String, ◌≡◌, ap, if◌then◌else◌, subst, sym, Bool, true, false, Option, none, some, List, ◌∙◌,
  find, str_eq,
}
use runnerctl.BTreeMap.{contains_key}
use runnerctl.BTreeMap.Laws.{some_of_contains_key}
use runnerctl.State.{Run}
use runnerctl.Retiring.Laws.Exact.{id_of_lookup}
use runnerctl.Engine.{Env, Engine, Answer, pure}
use runnerctl.Engine.Sound.{IsWorking, bind_of_eq}
use runnerctl.Engine.Handle.Names.{Names}
use runnerctl.Engine.Reconcile.{owned, Container, RemoteRunner, Outside, index_run}
use runnerctl.Engine.Reconcile.Exits.{archive_new, archive}
use runnerctl.Engine.Reconcile.Steps.{
  Progress, reset_failures, forget, clean_and_forget, retire_container, stopped, ended, act, round,
  with_remote,
}
use runnerctl.Engine.Reconcile.Sound.Steps.{or_note-Keeps, forget-Keeps, clean_and_forget-Keeps}
use runnerctl.Engine.Reconcile.Calm.{
  Fine, Holds, Calm, Calm-pure, Calm-bind, Calm-modify_pool, Calm-remove_run, Calm-if, Calm-gets,
  Calm-insert_run, Calm-next_io, Calm-attempt,
}
use runnerctl.Engine.Reconcile.Calm.Calls.{calm, Calm-save}
use runnerctl.Engine.Reconcile.Returns.{
  index_run-some, Returns, Returns-pure, Returns-bind, Returns-then, Returns-attempt,
}
use runnerctl.Engine.Reconcile.Calm.Steps.{
  Calm-then, or_note-Calm, observe-Calm, stopped_by_reboot-Calm, restart-Calm, create-Calm,
  cleanup-Calm, retire_container-Calm,
}

module _ (names : Names) (env : Env) (loads : (n : ℕ) → env.load_fails n ≡ false) (o : Outside)
    (id : String) (other : names.runs id ≡ false) where
  abbrev Named : Run → Type 0
  Named run = run.id ≡ id

  reset_failures-Calm : (completed : Bool) → Calm names (reset_failures env o completed names.pool)
  reset_failures-Calm completed =
      Calm-if names completed _ _
        (Calm-bind names _ _ (Calm-modify_pool names _) (λ _. Calm-pure names tt))
        (Calm-pure names tt)

  forget-Calm :
      (run : Run) (interrupted : Bool) (p : Progress)
      → Named run
      → Calm names (forget env o names.pool run interrupted p)
  unfolding forget
  forget-Calm run interrupted p named =
      Calm-bind names _ _ (reset_failures-Calm run.completed_job) λ _.
        Calm-bind names _ _ (Calm-remove_run names run.id (ap names.runs named ∙ other))
          λ _. Calm-bind names _ _ (Calm-save names env) (λ _. Calm-pure names _)

  clean_and_forget-Calm :
      (run : Run) (interrupted : Bool) (p : Progress)
      → Named run
      → Calm names (clean_and_forget env o names.pool run interrupted p)
  unfolding clean_and_forget
  clean_and_forget-Calm run interrupted p named =
      Calm-then names _ _
        (Calm-attempt names _
          (Calm-bind names _ _ (cleanup-Calm names env loads o run) (λ _. Calm-pure names run)))
        (Returns-attempt {Q = Named} _ (Returns-bind _ _ (λ _. Returns-pure run named)))
        (λ result.
          or_note-Keeps env loads o p result _
            (λ run'. forget-Keeps env loads o names.pool run' interrupted p))
        λ result q.
          or_note-Calm names env o p result _
            (λ run' is_ok. forget-Calm run' interrupted p (q run' is_ok))

  Returns-archive : (run : Run) (c : Container) → Named run → Returns Named (archive env o run c)
  unfolding archive archive_new
  Returns-archive run c named = by_saved run.log_saved
    where
      by_saved : (b : Bool) → Returns Named (if b then pure run else archive_new env o run c)
      by_saved true = Returns-pure run named
      by_saved false = Returns-bind _ _ λ _. Returns-bind _ _ λ _.
          Returns-bind _ _ λ _. Returns-bind _ _ λ _. Returns-bind _ _ λ _. Returns-pure _ named

  Returns-retire_container :
      (run : Run) (c : Container) → Named run → Returns Named (retire_container env o run c)
  unfolding retire_container
  Returns-retire_container run c named =
      Returns-then {R = Named} _ _ (Returns-archive run c named)
        (λ saved same. Returns-bind _ _ (λ _. Returns-pure saved same))

  stopped-Calm :
      (run : Run) (c : Container) (p : Progress)
      → Named run
      → Calm names (stopped env o names.pool run c p)
  unfolding stopped
  stopped-Calm run c p named = Calm-bind names _ _ (Calm-next_io names) λ n.
      Calm-bind names _ _
        (Calm-if names _ _ _ (stopped_by_reboot-Calm names env loads o c run.pool.image)
          (Calm-pure names false))
        λ interrupted. Calm-bind names _ _ (Calm-insert_run names _) λ _.
          Calm-bind names _ _ (Calm-save names env) λ _.
            Calm-then names _ _ (Calm-attempt names _ (retire_container-Calm names env loads o _ c))
              (Returns-attempt {Q = Named} _ (Returns-retire_container _ c named))
              (λ result.
                or_note-Keeps env loads o p result _
                  (λ run'. clean_and_forget-Keeps env loads o names.pool run' interrupted p))
              λ result q.
                or_note-Calm names env o p result _
                  (λ run' is_ok. clean_and_forget-Calm run' interrupted p (q run' is_ok))

  ended-Calm :
      (c : Option Container) (run : Run) (p : Progress)
      → Named run
      → Calm names (ended env o names.pool c run p)
  unfolding ended
  ended-Calm none run p named = clean_and_forget-Calm run false p named
  ended-Calm (some c) run p named = stopped-Calm run c p named

  act-Calm :
      (remote : Option RemoteRunner) (c : Option Container) (allow : Bool) (p : Progress)
      (run : Run)
      → Named run
      → Calm names (act env o names.pool remote c allow p run)
  act-Calm remote c allow p run named =
      search (calm, observe-Calm, restart-Calm, create-Calm, loads, ended-Calm, named) depth 24

  with_remote-Named :
      (remote : Option RemoteRunner) (run : Run) → Named run → Named (with_remote remote run)
  with_remote-Named none run named = named
  with_remote-Named (some r) run named = named

  -- The round of a recorded run.
  pub round-Calm :
      (remotes : List RemoteRunner) (containers : List Container) (allow : Bool) (p : Progress)
      (e : Engine)
      → IsWorking e
      → Holds names e
      → contains_key id e.state.runs ≡ true
      → Fine (round env o names.pool remotes containers allow p id e).0
        × Holds names (round env o names.pool remotes containers allow p id e).1
  unfolding round
  round-Calm remotes containers allow p e w holds here =
      let (stored, found) = some_of_contains_key id e.state.runs here in
      let named = id_of_lookup "" id stored e.state.runs w.0.runs_keyed found in
      let remote = find (λ r. str_eq r.name id) remotes in
      let run = with_remote remote stored in
      subst (λ (q : Answer Progress × Engine). Fine q.0 × Holds names q.1)
        (sym (bind_of_eq (index_run id) _ e e stored (index_run-some id e stored found)))
        ((Calm-bind names _ _ (Calm-gets names _) λ manager.
            act-Calm remote (find (λ c. owned c manager run) containers) allow p run
              (with_remote-Named remote stored named)).run
          e w holds)
