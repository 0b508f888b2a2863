-- ===== src/Github/Jwt/Laws.antt =====
-- The token of src/github.rs's `app_jwt` as its reader takes it apart.
use runnerctl.Common.{
  ℕ, ◌+◌, ◌≤◌, ◌<◌, ◌≡◌, refl, subst, false, Option, none, some, List, [], ◌∷◌, ◌++◌, ◌==◌,
  if◌then◌else◌, arith,
}
use runnerctl.Common.Text.{contains_char, split_once, codes}
use runnerctl.Result.{ok, context, ok_first, ok_eq, some_of_context}
use runnerctl.Config.{AppAuth}
use runnerctl.Config.Memory.{u64_mod}
use runnerctl.Config.Secrets.{Surroundings, secret}
use runnerctl.Github.Jwt.{Crypto, app_jwt, claims_at, jwt_header, pem_body, read_key}

-- `rsplit_once(c)`
abbrev pub rsplit_once : ℕ → List ℕ → Option (List ℕ × List ℕ)
rsplit_once c [] = none
rsplit_once c (d ∷ ds) = elim (rsplit_once c ds) [
  | some (before, after) ↦ some (d ∷ before, after)
  | none ↦ if c == d then some ([], ds) else none
]

split_once-append :
    (c : ℕ) (s t : List ℕ) → contains_char c s ≡ false → split_once c (s ++ c ∷ t) ≡ some (s, t)
split_once-append c [] t h = ground arith
split_once-append c (d ∷ s) t h = ground (arith, split_once-append c s t)

rsplit_once-without : (c : ℕ) (s : List ℕ) → contains_char c s ≡ false → rsplit_once c s ≡ none
rsplit_once-without c [] h = refl
rsplit_once-without c (d ∷ s) h = ground (arith, rsplit_once-without c s)

rsplit_once-append :
    (c : ℕ) (s t : List ℕ) → contains_char c t ≡ false → rsplit_once c (s ++ c ∷ t) ≡ some (s, t)
rsplit_once-append c [] t h = ground (arith, rsplit_once-without c t h)
rsplit_once-append c (d ∷ s) t h = ground (arith, rsplit_once-append c s t h)

-- The parts of a token, with the key and the signature that it has.
abbrev pub IsSigned : {Key : Type 0} → Crypto Key → AppAuth → ℕ → List ℕ → Type 0
IsSigned {Key} crypto app at jwt =
    (key : Key) × (text claims signature : List ℕ) × (rsplit_once b'.' jwt
      ≡ some (text, crypto.url_encode signature))
    × (crypto.sign key text ≡ some signature)
    × (split_once b'.' text ≡ some (crypto.url_encode jwt_header, crypto.url_encode claims))
    × (crypto.claims_json (claims_at app at) ≡ ok claims)

-- When base64 writes no dot, a token that is returned at a time `at` before the end of the clock
-- splits at its last dot into a text and the signature of this text, and the text splits at its
-- first dot into the header and the claims. The claims are those of the App, issued at the latest at
-- `at`, valid after `at`, and for at most the ten minutes that GitHub allows.
pub app_jwt-IsSigned :
    {Key : Type 0} (crypto : Crypto Key) (h : Surroundings) (app : AppAuth) (at : ℕ) (jwt : List ℕ)
    → ((bytes : List ℕ) → contains_char b'.' (crypto.url_encode bytes) ≡ false)
    → at + 540 < u64_mod
    → app_jwt crypto h app at ≡ ok jwt
    → IsSigned crypto app at jwt
      × (claims_at app at).iat ≤ at
      × at < (claims_at app at).exp
      × (claims_at app at).exp ≤ (claims_at app at).iat + 600
unfolding app_jwt
app_jwt-IsSigned crypto h app at jwt dots early returned =
    let (pem, here, after_pem) = ok_first (secret h (codes app.private_key) 65536) _ jwt returned in
    let (der, decoded, after_der) =
      ok_first (context (crypto.standard_decode (pem_body pem)) _) _ jwt after_pem in
    let (key, read, after_key) = ok_first (read_key crypto pem der) _ jwt after_der in
    let (claims, written, after_claims) =
      ok_first (crypto.claims_json (claims_at app at)) _ jwt after_key in
    let text = crypto.url_encode jwt_header ++ b'.' ∷ crypto.url_encode claims in
    let (signature, signs, after_signature) =
      ok_first (context (crypto.sign key text) _) _ jwt after_claims in
    (
      (
        key,
        text,
        claims,
        signature,
        subst (λ j. rsplit_once b'.' j ≡ some (text, crypto.url_encode signature))
            (ok_eq after_signature) (rsplit_once-append b'.' text _ (dots signature)),
        some_of_context _ _ signature signs,
        split_once-append b'.' _ _ (dots jwt_header),
        written,
      ),
      omega arith,
      omega (arith, early),
      omega (arith, early),
    )
