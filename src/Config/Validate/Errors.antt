-- ===== src/Config/Validate/Errors.antt =====
-- The checks of src/config.rs fail with a text for the client, never with the marker of an
-- interrupted reconciliation.
use runnerctl.Common.{
  String, ◌≢◌, Bool, true, false, Option, none, some, List, [], ◌∷◌, arith, not, ◌&&◌, ltb, leb,
  all,
}
use runnerctl.Common.Text.{codes, is_empty, byte_len}
use runnerctl.Result.{Result, ok, err, message, reconcile_interrupted, context, ensure, ◌>>=◌, ◌>>◌}
use runnerctl.BTreeMap.{BTreeMap}
use runnerctl.F64.{F64}
use runnerctl.Config.{AppAuth, Auth, Pool, Config}
use runnerctl.Config.Names.{validate_image, validate_reference, env_char}
use runnerctl.Config.Memory.{memory_bytes}
use runnerctl.Config.Validate.{
  validate_auth, validate_auths, validate_scope, validate_cpus, validate_memory, validate_pool,
  validate_pools, validate,
}

pub record Speaks {A : Type 0} (r : Result A) : Type 0 where
  pub apply : r ≢ err reconcile_interrupted

module _ {A : Type 0} where
  Speaks-ok : (a : A) → Speaks (ok a)
  Speaks-ok a = record { apply = λ h. ground arith }

  Speaks-err : (text : String) → Speaks {A = A} (err (message text))
  Speaks-err text = record { apply = λ h. ground arith }

  Speaks-context : (o : Option A) (text : String) → Speaks (context o text)
  Speaks-context none text = Speaks-err text
  Speaks-context (some a) text = Speaks-ok a

Speaks-ensure : (b : Bool) (text : String) → Speaks (ensure b text)
Speaks-ensure true text = Speaks-ok tt
Speaks-ensure false text = Speaks-err text

module _ {A B : Type 0} where
  Speaks-bind :
      (r : Result A) (f : A → Result B) → Speaks r → ((a : A) → Speaks (f a)) → Speaks (r >>= f)
  Speaks-bind (ok a) f h k = k a
  Speaks-bind (err error) f h k = record { apply = λ e. h.apply (cc) }

ruleset speaking = (Speaks-bind, Speaks-ok, Speaks-err, Speaks-context, Speaks-ensure)

validate_image-Speaks : (image : String) → Speaks (validate_image image)
unfolding validate_image
validate_image-Speaks image = search (speaking) depth 12

validate_reference-Speaks : (reference : String) → Speaks (validate_reference reference)
unfolding validate_reference
validate_reference-Speaks reference = record { apply = λ h. ground arith }

validate_auth-Speaks : (name : String) (auth : Auth) → Speaks (validate_auth name auth)
unfolding validate_auth
validate_auth-Speaks name auth = Speaks-bind _ _ (Speaks-ensure _ _) (λ _. by_app auth.app)
  where
    by_app :
        (app : Option AppAuth)
        → Speaks (elim app [
          | some app ↦ do
            ensure
                (is_empty (codes auth.credential))
                "choose PAT or GitHub App authentication, not both"
            ensure
                (ltb 0 app.installation_id
                  && not (is_empty (codes app.app_id))
                  && leb (byte_len (codes app.app_id)) 64
                  && all env_char (codes app.app_id))
                "invalid GitHub App identity"
            validate_reference app.private_key
          | none ↦ validate_reference auth.credential
        ])
    by_app none = validate_reference-Speaks auth.credential
    by_app (some app) = search (speaking, validate_reference-Speaks) depth 12

validate_auths-Speaks : (auths : BTreeMap Auth) → Speaks (validate_auths auths)
unfolding validate_auths
validate_auths-Speaks [] = Speaks-ok tt
validate_auths-Speaks ((name, auth) ∷ rest) =
    Speaks-bind _ _ (validate_auth-Speaks name auth) (λ _. validate_auths-Speaks rest)

validate_scope-Speaks : (p : Pool) → Speaks (validate_scope p)
unfolding validate_scope
validate_scope-Speaks p = record { apply = λ h. ground arith }

validate_cpus-Speaks : (cpus : Option F64) → Speaks (validate_cpus cpus)
unfolding validate_cpus
validate_cpus-Speaks none = Speaks-ok tt
validate_cpus-Speaks (some cpus) = Speaks-ensure _ _

validate_memory-Speaks : (memory : Option String) → Speaks (validate_memory memory)
unfolding validate_memory memory_bytes
validate_memory-Speaks none = Speaks-ok tt
validate_memory-Speaks (some memory) = search (speaking) depth 12

validate_pool-Speaks :
    (auths : BTreeMap Auth) (names : List String) (p : Pool) → Speaks (validate_pool auths names p)
unfolding validate_pool
validate_pool-Speaks auths names p =
    search
      (
        speaking, validate_scope-Speaks, validate_cpus-Speaks, validate_memory-Speaks,
        validate_image-Speaks,
      )
      depth 30

validate_pools-Speaks :
    (auths : BTreeMap Auth) (names : List String) (pools : List Pool)
    → Speaks (validate_pools auths names pools)
unfolding validate_pools
validate_pools-Speaks auths names [] = Speaks-ok tt
validate_pools-Speaks auths names (p ∷ rest) =
    Speaks-bind _ _ (validate_pool-Speaks auths names p)
      (λ _. validate_pools-Speaks auths (p.name ∷ names) rest)

pub validate-Speaks : (c : Config) → Speaks (validate c)
unfolding validate
validate-Speaks c = search (speaking, validate_auths-Speaks, validate_pools-Speaks) depth 30
