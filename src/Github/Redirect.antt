-- ===== src/Github/Redirect.antt =====
-- The redirects that the client of `Github::with_base` in src/github.rs follows. A URL and its origin
-- are parameters, and what HTTP does with the answer is `IsChain`.
use runnerctl.Common.{
  ◌≤◌, ◌≡◌, ◌↔◌, subst, String, Bool, true, not, ◌||◌, List, [], ◌∷◌, length, all, ltb,
  if◌then◌else◌, arith,
}
use runnerctl.Result.{Result, ok, ◌>>=◌, ok_eq}

-- What a policy answers to a redirect.
pub data Redirect : Type 0 where
  stop : Redirect
  follow : Redirect

-- Reads of a URL, and the equality of origins.
pub record Urls (Url Origin : Type 0) : Type 0 where
  pub parse : String → Result Url
  pub origin : Url → Origin
  pub same : Origin → Origin → Bool

module _ {Url Origin : Type 0} (urls : Urls Url Origin) where
  -- `Policy::custom(…)`: `previous` are the URLs requested so far.
  unfoldable pub redirect_policy : Origin → (previous : List Url) → Url → Redirect
  redirect_policy origin previous url =
      if not (ltb (length previous) 5) || not (urls.same (urls.origin url) origin)
      then stop
      else follow

  -- `with_base`, up to the building of the client.
  unfoldable pub with_base : String → Result (List Url → Url → Redirect)
  with_base base = do url ← urls.parse base; ok (redirect_policy (urls.origin url))

  -- URLs that a client requests one after the other, the latest first, when the first is at
  -- `origin` and each other one is the target of a redirect that the policy follows.
  abbrev pub IsChain : Origin → (List Url → Url → Redirect) → List Url → Type 0
  IsChain origin policy [] = ⊥
  IsChain origin policy (url ∷ []) = urls.same (urls.origin url) origin ≡ true
  IsChain origin policy (next ∷ url ∷ previous) =
      (policy (url ∷ previous) next ≡ follow) × IsChain origin policy (url ∷ previous)

  -- All at the origin, and at most five.
  abbrev pub IsWithin : Origin → List Url → Type 0
  IsWithin origin requested =
      (all (λ u. urls.same (urls.origin u) origin) requested ≡ true) × (length requested ≤ 5)

  IsWithin-of_chain :
      (origin : Origin) (url : Url) (previous : List Url)
      → IsChain origin (redirect_policy origin) (url ∷ previous)
      → IsWithin origin (url ∷ previous)
  unfolding redirect_policy
  IsWithin-of_chain origin url [] h = (ground arith, omega arith)
  IsWithin-of_chain origin next (url ∷ previous) (followed, h) =
      ground (arith, followed, IsWithin-of_chain origin url previous h)

  IsChain-of_within :
      (origin : Origin) (url : Url) (previous : List Url)
      → IsWithin origin (url ∷ previous)
      → IsChain origin (redirect_policy origin) (url ∷ previous)
  unfolding redirect_policy
  IsChain-of_within origin url [] h = ground arith
  IsChain-of_within origin next (url ∷ previous) h =
      (ground arith, IsChain-of_within origin url previous (ground arith))

  -- The URLs that a client of `with_base base` can request one after the other, the first at the
  -- origin of `base`, are exactly those of this origin, and at most five: the token goes nowhere else,
  -- and a renamed repository is followed.
  pub redirects_stay :
      (base : String) (at : Url) (policy : List Url → Url → Redirect) (url : Url)
      (previous : List Url)
      → urls.parse base ≡ ok at
      → with_base base ≡ ok policy
      → IsChain (urls.origin at) policy (url ∷ previous)
        ↔ IsWithin (urls.origin at) (url ∷ previous)
  unfolding with_base
  redirects_stay base at policy url previous parsed made =
      subst
        (λ p.
          IsChain (urls.origin at) p (url ∷ previous) ↔ IsWithin (urls.origin at) (url ∷ previous))
        (ok_eq
          (subst (λ r. (r >>= λ u. ok (redirect_policy (urls.origin u))) ≡ ok policy) parsed made))
        (
          IsWithin-of_chain (urls.origin at) url previous,
          IsChain-of_within (urls.origin at) url previous,
        )
