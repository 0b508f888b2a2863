-- ===== src/Engine/Open.antt =====
-- The start of the manager: `Engine::open` of src/manager.rs, and that it establishes the invariant.
use runnerctl.Common.{
  ℕ, ◌+◌, String, ◌≡◌, ◌⊎◌, inl, inr, refl, sym, ◌∙◌, ap, subst, true, false, ◌||◌, Option, none,
  some, List, [], ◌∷◌, arith, length, eq_iff, Bool-cases,
}
use runnerctl.Result.{Result, ok, err}
use runnerctl.BTreeMap.{BTreeMap, contains_key, insert}
use runnerctl.BTreeMap.Laws.{contains_key-insert}
use runnerctl.BTreeMap.Laws.Order.{IsSorted, insert-IsSorted}
use runnerctl.Common.Text.{is_sliceable}
use runnerctl.Config.{Pool, Config}
use runnerctl.Config.Validate.{validate}
use runnerctl.State.{PoolState, default_pool_state, State, new_pools, new_state}
use runnerctl.Engine.{
  Env, Engine, Exec, Answer, done, failed, panicked, pure, lift, update, ◌>>=◌, ◌>>◌, next_io,
}
use runnerctl.Engine.Store.{store_save, store_load, read_config}
use runnerctl.Engine.Apply.{parse}
use runnerctl.Engine.Sound.{configured, IsWellFormed, HasRow, IsSound, bind_of_eq}

-- `Self { state, cursor: 0, … }`
abbrev pub opened : State → Engine → Engine
opened s e = record e {
  state = s;
  snapshot = none;
  cursor = 0;
  epoch = 0;
  reconcile_epoch = none;
  boot_time = none;
}

module _ (env : Env) where
  -- The first start: the state is made from config.toml, and saved.
  unfoldable pub first_state : Exec State
  first_state = do
    text ← read_config env
    config ← lift (parse env text)
    n ← next_io
    let s = new_state env.uuid n (n + length config.pools) config (env.hash text)
    store_save env s
    pure s

  unfoldable pub stored_or_first : Option State → Exec State
  stored_or_first (some s) = pure s
  stored_or_first none = first_state

  unfoldable pub open_engine : Exec (Unit {0})
  open_engine = do s ← store_load env >>= stored_or_first; update (opened s)

contains_key-new_pools :
    (uuid : ℕ → String) (n : ℕ) (pools : List Pool) (m : BTreeMap PoolState) (name : String)
    → contains_key name (new_pools uuid n pools m) ≡ (configured name pools || contains_key name m)
unfolding new_pools
contains_key-new_pools uuid n [] m name = refl
contains_key-new_pools uuid n (p ∷ rest) m name = ground (
  arith,
  contains_key-new_pools uuid (n + 1) rest (insert p.name (default_pool_state (uuid n)) m) name,
  contains_key-insert name p.name (default_pool_state (uuid n)) m,
  eq_iff name p.name,
  eq_iff p.name name,
)

new_pools-IsSorted :
    (uuid : ℕ → String) (n : ℕ) (pools : List Pool) (m : BTreeMap PoolState)
    → IsSorted m
    → IsSorted (new_pools uuid n pools m)
unfolding new_pools
new_pools-IsSorted uuid n [] m h = h
new_pools-IsSorted uuid n (p ∷ rest) m h =
    new_pools-IsSorted uuid (n + 1) rest _
      (insert-IsSorted p.name (default_pool_state (uuid n)) m h)

new_state-IsWellFormed :
    (uuid : ℕ → String) (n after : ℕ) (config : Config) (hash : String)
    → validate config ≡ ok tt
    → is_sliceable 8 (uuid after) ≡ true
    → IsWellFormed (new_state uuid n after config hash)
unfolding new_state
new_state-IsWellFormed uuid n after config hash valid sliceable = record {
  valid = valid;
  matching = λ name. ground (arith, contains_key-new_pools uuid n config.pools [] name);
  pools_sorted = new_pools-IsSorted uuid n config.pools [] tt;
  runs_sorted = tt;
  runs_keyed = tt;
  manager_id_sliceable = sliceable;
}

parse_valid : (env : Env) (text : String) (c : Config) → parse env text ≡ ok c → validate c ≡ ok tt
unfolding parse
parse_valid env text c h = ground (arith, h)

-- The state and the row after the state was found or made.
abbrev IsFirst : State → Engine → Type 0
IsFirst s e = (e.row ≡ some s) × IsWellFormed s

opened-IsSound : (s : State) (e : Engine) → IsFirst s e → IsSound (opened s e)
opened-IsSound s e h = record { well_formed = h.1; stored = h.0; shown = inl refl }

module _ (env : Env) (uuids : (n : ℕ) → is_sliceable 8 (env.uuid n) ≡ true) where
  first_state_lem : (e e' : Engine) (s : State) → first_state env e ≡ (done s, e') → IsFirst s e'
  unfolding first_state read_config store_save ◌>>=◌
  first_state_lem e e' s h = by_reads (Bool-cases (env.read_fails e.io))
    where
      by_saves :
          (text : String) (c : Config)
          → env.read_fails e.io ≡ false
          → e.file ≡ some text
          → parse env text ≡ ok c
          → (env.save_fails (e.io + 1 + 1) ≡ true) ⊎ (env.save_fails (e.io + 1 + 1) ≡ false)
          → IsFirst s e'
      by_saves text c reads here parses (inl fails) =
          absurd (ground (arith, h, reads, here, parses, fails))
      by_saves text c reads here parses (inr saves) =
          let made = new_state env.uuid (e.io + 1) (e.io + 1 + length c.pools) c (env.hash text) in
          let same : s ≡ made = ground (arith, h, reads, here, parses, saves) in
          let row : e'.row ≡ some made = ground (arith, h, reads, here, parses, saves) in
          (
            row ∙ ap some (sym same),
            subst IsWellFormed (sym same) (
                new_state-IsWellFormed env.uuid (e.io + 1) (e.io + 1 + length c.pools) c
                  (env.hash text) (parse_valid env text c parses) (uuids _)),
          )

      by_parse :
          (text : String) (r : Result Config)
          → env.read_fails e.io ≡ false
          → e.file ≡ some text
          → parse env text ≡ r
          → IsFirst s e'
      by_parse text (ok c) reads here parses =
          by_saves text c reads here parses (Bool-cases (env.save_fails (e.io + 1 + 1)))
      by_parse text (err error) reads here parses = absurd (ground (arith, h, reads, here, parses))

      by_file : (o : Option String) → env.read_fails e.io ≡ false → e.file ≡ o → IsFirst s e'
      by_file none reads here = absurd (ground (arith, h, reads, here))
      by_file (some text) reads here = by_parse text (parse env text) reads here refl

      by_reads : (env.read_fails e.io ≡ true) ⊎ (env.read_fails e.io ≡ false) → IsFirst s e'
      by_reads (inl fails) = absurd (ground (arith, h, fails))
      by_reads (inr reads) = by_file e.file reads refl

  found_or_made :
      (e e' : Engine) (s : State)
      → (e.row ≡ none) ⊎ HasRow e
      → (store_load env >>= stored_or_first env) e ≡ (done s, e')
      → IsFirst s e'
  unfolding store_load stored_or_first ◌>>=◌
  found_or_made e e' s row h = elim (Bool-cases (env.load_fails e.io)) [
    | inl fails ↦ absurd (ground (arith, h, fails))
    | inr loads ↦ elim row [
      | inl empty ↦
          first_state_lem (record e { io = e.io + 1 }) e' s (ground (arith, h, loads, empty))
      | inr (stored, here, well) ↦
          let same : s ≡ stored = ground (arith, h, loads, here) in
          (ground (arith, h, loads, here), subst IsWellFormed (sym same) well)
    ]
  ]

  -- The manager starts sound: when the text of each new UUID has a prefix of eight bytes, SQLite holds
  -- no state or a well-formed one, and `open` returns, the state in memory is well formed and is the one in SQLite, whether it was read or made from
  -- config.toml.
  pub open_engine-IsSound :
      (e : Engine)
      → (e.row ≡ none) ⊎ HasRow e
      → (open_engine env e).0 ≡ done tt
      → IsSound (open_engine env e).1
  unfolding open_engine ◌>>=◌
  open_engine-IsSound e row returns = by_answer r.0 r.1 refl
    where
      r : Answer State × Engine
      r = (store_load env >>= stored_or_first env) e

      by_answer : (a : Answer State) (e' : Engine) → r ≡ (a, e') → IsSound (open_engine env e).1
      by_answer (done s) e' h =
          subst IsSound
            (sym (ap (λ q. q.1) (bind_of_eq (store_load env >>= stored_or_first env) _ e e' s h)))
            (opened-IsSound s e' (found_or_made e e' s row h))
      by_answer (failed error) e' h = absurd (ground (arith, h, returns))
      by_answer panicked e' h = absurd (ground (arith, h, returns))
