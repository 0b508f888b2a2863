-- ===== src/Engine/Reconcile/Logs.antt =====
-- `expire_logs` of src/manager.rs: which files of the logs' directory go.
use runnerctl.Common.{
  ℕ, ◌+◌, ◌*◌, ◌^◌, ◌<◌, String, ◌≡◌, refl, sym, ◌∙◌, ap, subst, Bool, true, false, List, [], ◌∷◌,
  ◌++◌, any, arith, All, eq_iff, eq_refl, if◌then◌else◌, inl, inr, In,
}
use runnerctl.Common.Text.{codes, starts_with}
use runnerctl.Result.{Error, Result, ok, err}
use runnerctl.BTreeMap.{BTreeMap, contains_key, keys}
use runnerctl.State.{State}
use runnerctl.Engine.{
  Effect, remove_log_file, Env, Engine, Answer, done, failed, pure, raise, lift, gets, update,
  ◌>>=◌, next_io,
}
use runnerctl.Engine.Retry.{saturating_mul}
use runnerctl.Engine.Reconcile.{LogEntry, Outside, leave}
use runnerctl.Engine.Reconcile.Pass.{is_expired, remove_log, expire_entries, expire_logs}
use runnerctl.Engine.Reconcile.Asks.{
  Adds, Adds-weaken, Asks, Asks-bind, Asks-pure, Asks-raise, Asks-lift, Asks-leave, Asks-next_io,
}

module _ {V : Type 0} (p : String → Bool) where
  any_of_key :
      (m : BTreeMap V) (id : String)
      → any p (keys m) ≡ false
      → contains_key id m ≡ true
      → p id ≡ false
  any_of_key [] id h here = absurd (ground arith)
  any_of_key ((j, v) ∷ m) id h here = ground (arith, eq_iff id j, any_of_key m id)

  any_of_none :
      (m : BTreeMap V)
      → ((id : String) → contains_key id m ≡ true → p id ≡ false)
      → any p (keys m) ≡ false
  any_of_none [] h = refl
  any_of_none ((j, v) ∷ m) h =
      let rest = any_of_none m (λ id here. h id (ground arith)) in
      let first = h j (ground (arith, eq_refl j)) in ground arith

-- A file older than the retention, whose name starts with no recorded run's id.
pub record IsExpired (state : State) (entry : LogEntry) : Type 0 where
  is_a_file : entry.is_file ≡ true
  is_old : saturating_mul state.config.manager.log_retention_days 86400 * 10 ^ 9 < entry.age_nanos
  is_of_no_run :
      (id : String)
      → contains_key id state.runs ≡ true
      → starts_with (codes entry.filename) (codes id) ≡ false

IsExpired-is_expired :
    (state : State) (entry : LogEntry) → is_expired state entry ≡ true → IsExpired state entry
unfolding is_expired
IsExpired-is_expired state entry h = record {
  is_a_file = ground arith;
  is_old = ground arith;
  is_of_no_run = λ id here.
      any_of_key (λ i. starts_with (codes entry.filename) (codes i)) state.runs id (ground arith)
        here;
}

is_expired-IsExpired :
    (state : State) (entry : LogEntry) → IsExpired state entry → is_expired state entry ≡ true
unfolding is_expired
is_expired-IsExpired state entry x =
    let file = x.is_a_file in
    let old = x.is_old in
    let none_of =
      any_of_none (λ id. starts_with (codes entry.filename) (codes id)) state.runs x.is_of_no_run in
    ground arith

-- The removal of an expired one of the entries.
abbrev Removal : State → List (Result LogEntry) → Effect → Type 0
Removal state entries x =
    (entry : LogEntry) × In (ok entry) entries
    × IsExpired state entry
    × (x ≡ remove_log_file entry.filename)

-- The removal of an expired file of the listing.
abbrev Expires : Outside → State → ℕ → Effect → Type 0
Expires o state n x =
    (entries : List (Result LogEntry)) × (o.log_entries n ≡ ok entries) × Removal state entries x

-- The entry was read, and if it is expired its removal is in the record.
abbrev pub IsGone : State → Engine → Result LogEntry → Type 0
IsGone state e (ok entry) = IsExpired state entry → In (remove_log_file entry.filename) e.effects
IsGone state e (err error) = ⊥

abbrev Gone : State → List (Result LogEntry) → Engine → Type 0
Gone state entries e = All (IsGone state e) entries

In-append : {A : Type 0} (a : A) (l m : List A) → In a m → In a (l ++ m)
In-append a [] m h = h
In-append a (x ∷ l) m h = inr (In-append a l m h)

In-Adds :
    (P : Effect → Type 0) (x : Effect) (e e' : Engine)
    → Adds P e e'
    → In x e.effects
    → In x e'.effects
In-Adds P x e e' (l, same, _) h =
    subst (λ (k : List Effect). In x k) (sym same) (In-append x l e.effects h)

module _ (env : Env) (o : Outside) (state : State) where
  Asks-expire_entries :
      (all rest : List (Result LogEntry))
      → ((entry : LogEntry) → In (ok entry) rest → In (ok entry) all)
      → Asks (Removal state all) (expire_entries env o state rest)
  unfolding expire_entries remove_log
  Asks-expire_entries all [] within = Asks-pure tt
  Asks-expire_entries all (err error ∷ rest) within = Asks-raise error
  Asks-expire_entries all (ok entry ∷ rest) within =
      Asks-bind _ _
        (when_expired (is_expired state entry) λ h. Asks-bind _ _ Asks-next_io λ n.
          Asks-bind _ _
            (Asks-leave (remove_log_file entry.filename)
              (entry, within entry (inl refl), IsExpired-is_expired state entry h, refl))
            λ _. Asks-lift (o.command n))
        λ _. Asks-expire_entries all rest (λ x h. within x (inr h))
    where
      when_expired :
          (b : Bool)
          → (b ≡ true → Asks (Removal state all) (remove_log env o entry.filename))
          → Asks (Removal state all) (if b then remove_log env o entry.filename else pure tt)
      when_expired true h = h refl
      when_expired false h = Asks-pure tt

  removed_one :
      (entry : LogEntry) (rest : List (Result LogEntry)) (e : Engine)
      → (expire_entries env o state (ok entry ∷ rest) e).0 ≡ done tt
      → (e' : Engine) × (expire_entries env o state (ok entry ∷ rest) e
          ≡ expire_entries env o state rest e')
        × (IsExpired state entry → In (remove_log_file entry.filename) e'.effects)
  unfolding expire_entries remove_log ◌>>=◌ next_io leave update lift pure
  removed_one entry rest e h = by_test (is_expired state entry) refl (o.command e.io) refl
    where
      by_test :
          (b : Bool)
          → is_expired state entry ≡ b
          → (r : Result (Unit {0})) → o.command e.io ≡ r
          → (e' : Engine) × (expire_entries env o state (ok entry ∷ rest) e
              ≡ expire_entries env o state rest e')
            × (IsExpired state entry → In (remove_log_file entry.filename) e'.effects)
      by_test true is_b (ok tt) is_r = (
        record e { io = e.io + 1; effects = remove_log_file entry.filename ∷ e.effects },
        ground (arith, is_b, is_r),
        λ x. inl refl,
      )
      by_test true is_b (err error) is_r = absurd (ground (arith, is_b, is_r))
      by_test false is_b r is_r = (
        e,
        ground (arith, is_b),
        λ x. absurd (ground (arith, is_expired-IsExpired state entry x)),
      )

  unread :
      (error : Error) (rest : List (Result LogEntry)) (e : Engine)
      → (expire_entries env o state (err error ∷ rest) e).0 ≡ done tt
      → ⊥
  unfolding expire_entries raise
  unread error rest e h = ground (arith, h)

  removed_all :
      (entries : List (Result LogEntry)) (e : Engine)
      → (expire_entries env o state entries e).0 ≡ done tt
      → Gone state entries (expire_entries env o state entries e).1
  removed_all [] e h = tt
  removed_all (err error ∷ rest) e h = absurd (unread error rest e h)
  removed_all (ok entry ∷ rest) e h =
      let (e', same, gone) = removed_one entry rest e h in
      let later = (Asks-expire_entries rest rest (λ x i. i)).run e' in
      subst (λ (q : Answer (Unit {0}) × Engine). Gone state (ok entry ∷ rest) q.1) (sym same)
        (
          (λ x.
              In-Adds (Removal state rest) _ e' (expire_entries env o state rest e').1 later
                (gone x)),
          removed_all rest e' (sym (ap (λ (q : Answer (Unit {0}) × Engine). q.0) same) ∙ h),
        )

-- What is left to do with the answer of the listing.
unfoldable listed :
    Env → Outside → Engine → Result (List (Result LogEntry)) → Answer (Unit {0}) × Engine
listed env o e (err error) = (failed error, record e { io = e.io + 1 })
listed env o e (ok entries) = expire_entries env o e.state entries (record e { io = e.io + 1 })

expire_logs-listed :
    (env : Env) (o : Outside) (e : Engine)
    → expire_logs env o e ≡ listed env o e (o.log_entries e.io)
unfolding expire_logs ◌>>=◌ next_io gets lift listed
expire_logs-listed env o e = ground arith

abbrev pub Removes : Outside → Engine → Answer (Unit {0}) × Engine → Type 0
Removes o e (answer, e') =
    Adds (Expires o e.state e.io) e e'
    × (answer ≡ done tt
        → (entries : List (Result LogEntry)) × (o.log_entries e.io ≡ ok entries)
          × Gone e.state entries e')

listed-Removes :
    (env : Env) (o : Outside) (e : Engine) (r : Result (List (Result LogEntry)))
    → o.log_entries e.io ≡ r
    → Removes o e (listed env o e r)
unfolding listed
listed-Removes env o e (err error) is_r = (([], refl, tt), λ h. absurd (ground arith))
listed-Removes env o e (ok entries) is_r =
    let start = record e { io = e.io + 1 } in
    let removals = (Asks-expire_entries env o e.state entries entries (λ x i. i)).run start in
    (
      Adds-weaken (Removal e.state entries) (Expires o e.state e.io) start
          (expire_entries env o e.state entries start).1 (λ x removal. (entries, is_r, removal))
          removals,
      λ h. (entries, is_r, removed_all env o e.state entries start h),
    )

-- Whatever the disk answers, `expire_logs` removes only files of the listing that are older than the
-- retention and whose name starts with no recorded run's id; when it succeeds, it has read every entry
-- of the listing and removed every such file.
pub expire_logs_exact : (env : Env) (o : Outside) (e : Engine) → Removes o e (expire_logs env o e)
expire_logs_exact env o e =
    subst (Removes o e) (sym (expire_logs-listed env o e))
      (listed-Removes env o e (o.log_entries e.io) refl)
