-- ===== src/Engine/Reconcile/Asks/Allows.antt =====
-- What may be done outside for a run, by the labels and the states of the containers that Docker
-- shows, as `reconcile` of src/manager.rs reads them.
use runnerctl.Common.{
  String, ◌≡◌, ◌≢◌, refl, ap, sym, ◌∙◌, true, false, Option, none, some, List, [], ◌∷◌, arith, find,
  eq_iff, All, In, inl, inr, Bool-cases,
}
use runnerctl.State.{Run}
use runnerctl.Engine.{
  Effect, docker_create, docker_start, docker_archive, docker_repair, docker_probe, docker_remove,
  github_remove, write_token, remove_token, make_directory, remove_directory, write_log,
  remove_log_file,
}
use runnerctl.Engine.Reconcile.{Container, Outside, owned, some_eq}
use runnerctl.Engine.Reconcile.Steps.{container_status, is_live, is_missing}
use runnerctl.Engine.Reconcile.Asks.Steps.{IsListed, Regards}

-- The three labels.
abbrev pub HasLabels : String → Run → Container → Type 0
HasLabels manager run c =
    (c.manager ≡ some manager) × (c.run ≡ some run.id) × (c.pool ≡ some run.pool_id)

abbrev pub IsStopped : Container → Type 0
IsStopped c =
    (c.status ≢ some "running") × (c.status ≢ some "restarting") × (c.status ≢ some "paused")

-- One of the containers has the labels.
abbrev pub HasContainer : String → Run → List Container → (Container → Type 0) → Type 0
HasContainer manager run containers Q =
    (c : Container) × In c containers × HasLabels manager run c × Q c

abbrev pub Allows : Outside → String → Run → List Container → Effect → Type 0
Allows o manager run containers (docker_create id) =
    (id ≡ run.id)
    × All (λ c. ¬ HasLabels manager run c) containers
    × (run.phase ≡ "creating")
    × (run.retiring ≡ false)
Allows o manager run containers (docker_start id) = (id ≡ run.id) × (run.retiring ≡ false)
Allows o manager run containers (docker_archive id) =
    (id ≡ run.id) × HasContainer manager run containers (λ c. Unit {0})
Allows o manager run containers (docker_repair id) = (id ≡ run.id) × (run.pool.docker_socket ≡ true)
Allows o manager run containers (docker_probe image) =
    (image ≡ run.pool.image) × HasContainer manager run containers IsStopped
Allows o manager run containers (docker_remove id force) =
    (id ≡ run.id) × (force ≡ false) × HasContainer manager run containers IsStopped
Allows o manager run containers (github_remove id) = IsListed o run.id id
Allows o manager run containers (write_token id) = id ≡ run.id
Allows o manager run containers (remove_token id) = id ≡ run.id
Allows o manager run containers (make_directory id) = id ≡ run.id
Allows o manager run containers (remove_directory id) = id ≡ run.id
Allows o manager run containers (write_log id) = id ≡ run.id
Allows o manager run containers (remove_log_file filename) = ⊥

some_eq_iff : (x : Option String) (s : String) → some_eq x s ≡ true → x ≡ some s
some_eq_iff none s h = absurd (ground arith)
some_eq_iff (some t) s h = ap some ((eq_iff t s).0 h)

some_eq_refl : (x : Option String) (s : String) → x ≡ some s → some_eq x s ≡ true
some_eq_refl none s h = absurd (ground arith)
some_eq_refl (some t) s h = ground (arith, eq_iff t s)

HasLabels-owned :
    (manager : String) (run : Run) (c : Container)
    → owned c manager run ≡ true
    → HasLabels manager run c
unfolding owned
HasLabels-owned manager run c h = (
  some_eq_iff c.manager manager (ground arith),
  some_eq_iff c.run run.id (ground arith),
  some_eq_iff c.pool run.pool_id (ground arith),
)

owned-HasLabels :
    (manager : String) (run : Run) (c : Container)
    → HasLabels manager run c
    → owned c manager run ≡ true
unfolding owned
owned-HasLabels manager run c h =
    let m = some_eq_refl c.manager manager h.0 in
    let r = some_eq_refl c.run run.id h.1 in
    let p = some_eq_refl c.pool run.pool_id h.2 in ground arith

IsStopped-is_live : (c : Container) → is_live c.status ≡ false → IsStopped c
IsStopped-is_live c h = (
  λ s. absurd (ground (arith, some_eq_refl c.status "running" s)),
  λ s. absurd (ground (arith, some_eq_refl c.status "restarting" s)),
  λ s. absurd (ground (arith, some_eq_refl c.status "paused" s)),
)

module _ (manager : String) (run : Run) where
  none_carries :
      (l : List Container)
      → is_missing (find (λ c. owned c manager run) l) ≡ true
      → All (λ c. ¬ HasLabels manager run c) l
  none_carries [] h = tt
  none_carries (c ∷ l) h = (
    λ labels. absurd (ground (arith, owned-HasLabels manager run c labels)),
    none_carries l (elim (Bool-cases (owned c manager run)) [
      | inl o ↦ absurd (ground arith)
      | inr o ↦ ground arith
    ]),
  )

  carries :
      (Q : Container → Type 0) (l : List Container)
      → is_missing (find (λ c. owned c manager run) l) ≡ false
      → ((c : Container) → find (λ x. owned x manager run) l ≡ some c → Q c)
      → HasContainer manager run l Q
  carries Q [] h q = absurd (ground arith)
  carries Q (c ∷ l) h q = elim (Bool-cases (owned c manager run)) [
    | inl o ↦ (c, inl refl, HasLabels-owned manager run c o, q c (ground arith))
    | inr o ↦
        let (x, here, labels, good) = carries Q l (ground arith) (λ y found. q y (ground arith)) in
        (x, inr here, labels, good)
  ]

module _ (o : Outside) (manager : String) (run : Run) (l : List Container) where
  pub Allows-Regards :
      (x : Effect) → Regards o run (find (λ c. owned c manager run) l) x → Allows o manager run l x
  Allows-Regards (docker_create id) h =
      (h.0, none_carries manager run l h.1, (eq_iff run.phase "creating").0 h.2, h.3)
  Allows-Regards (docker_start id) h = h
  Allows-Regards (docker_archive id) h = (h.0, carries manager run _ l h.1 (λ c found. tt))
  Allows-Regards (docker_repair id) h = h
  Allows-Regards (docker_probe image) h = (
    h.0,
    carries manager run IsStopped l h.1
        (λ c found. IsStopped-is_live c (sym (ap (λ x. is_live (container_status x)) found) ∙ h.2)),
  )
  Allows-Regards (docker_remove id force) h = (
    h.0,
    h.1,
    carries manager run IsStopped l h.2
        (λ c found. IsStopped-is_live c (sym (ap (λ x. is_live (container_status x)) found) ∙ h.3)),
  )
  Allows-Regards (github_remove id) h = h
  Allows-Regards (write_token id) h = h
  Allows-Regards (remove_token id) h = h
  Allows-Regards (make_directory id) h = h
  Allows-Regards (remove_directory id) h = h
  Allows-Regards (write_log id) h = h
  Allows-Regards (remove_log_file filename) h = h
