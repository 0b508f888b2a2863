-- ===== src/Result.antt =====
-- anyhow's Result: an error carries the text that a client is shown, or is the marker
-- `ReconcileInterrupted` of src/manager.rs, which the manager recognises by its type.
use runnerctl.Common.{String, ◌≡◌, refl, arith, if◌then◌else◌, Bool, Option, none, some}

pub data Error : Type 0 where
  message : String → Error
  reconcile_interrupted : Error

pub data Result {ℓ} (A : Type ℓ) : Type ℓ where
  err : Error → Result A
  ok : A → Result A

-- `option.context(text)?`
abbrev pub context {ℓ} : {A : Type ℓ} → Option A → String → Result A
context (some a) text = ok a
context none text = err (message text)

-- `ensure!(b, text)`
abbrev pub ensure : Bool → String → Result (Unit {0})
ensure b text = if b then ok tt else err (message text)

module _ {ℓ κ} {A : Type ℓ} {B : Type κ} where
  infixl 5 ◌>>=◌
  -- The operator `?`.
  abbrev pub ◌>>=◌ : Result A → (A → Result B) → Result B
  ◌>>=◌ (err error) rest = err error
  ◌>>=◌ (ok a) rest = rest a

module _ {ℓ κ} {A : Type ℓ} {B : Type κ} where
  infixl 5 ◌>>◌
  -- `first?; second`
  abbrev pub ◌>>◌ : Result A → Result B → Result B
  first >> second = first >>= λ _. second

-- A sequence of two checks passes when both do.
pub both_pass :
    (first second : Result (Unit {0}))
    → (first >> second) ≡ ok tt
    → (first ≡ ok tt) × (second ≡ ok tt)
both_pass (err error) second h = absurd (ground arith)
both_pass (ok tt) second h = (refl, h)

-- The first step of a sequence that succeeds.
pub ok_first :
    {A B : Type 0} (r : Result A) (f : A → Result B) (b : B)
    → (r >>= f) ≡ ok b
    → (a : A) × (r ≡ ok a) × (f a ≡ ok b)
ok_first (err error) f b h = absurd (ground arith)
ok_first (ok a) f b h = (a, refl, h)

pub some_of_context :
    {A : Type 0} (o : Option A) (text : String) (a : A) → context o text ≡ ok a → o ≡ some a
some_of_context none text a h = absurd (ground arith)
some_of_context (some x) text a h = ground arith

pub ok_eq : {A : Type 0} {a b : A} → ok a ≡ ok b → a ≡ b
ok_eq h = ground arith
