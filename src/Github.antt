-- ===== src/Github.antt =====
-- The client of GitHub's API in src/github.rs: the cache that all tasks share, and the calls on it. HTTP,
-- the clock, and what other tasks do to the cache while a response is awaited are parameters.
pub mod Errors
pub mod Token
pub mod Lists
pub mod Jwt
pub mod Redirect
pub mod Laws
use Prim.Native.String.{◌++◌}
use runnerctl.Common.{
  ℕ, zero, suc, ◌+◌, ◌-◌, ◌%◌, max, min, String, Bool, true, false, not, ◌&&◌, ◌||◌, Option, none,
  some, List, [], ◌∷◌, length, ltb, ◌==◌, str_eq, if◌then◌else◌,
}
use runnerctl.Result.{Error, Result, ok, err, message}
use runnerctl.BTreeMap.{BTreeMap, lookup, insert, remove}
use runnerctl.Config.{AppAuth, Auth}
use runnerctl.Config.Memory.{u64_mod}
use runnerctl.Engine.Retry.{saturating_add}
use runnerctl.Engine.Reconcile.{RemoteRunner}

-- A map of lists, by profile key and scope.
abbrev pub PairMap : Type 0 → Type 0
PairMap V = List ((String × String) × V)

abbrev pub pair_eq : String × String → String × String → Bool
pair_eq (a, b) (c, d) = str_eq a c && str_eq b d

module _ {V : Type 0} where
  abbrev pub get_pair : String × String → PairMap V → Option V
  get_pair k [] = none
  get_pair k ((j, v) ∷ m) = if pair_eq k j then some v else get_pair k m

  abbrev pub remove_pair : String × String → PairMap V → PairMap V
  remove_pair k [] = []
  remove_pair k ((j, v) ∷ m) =
      let rest = remove_pair k m in if pair_eq k j then rest else (j, v) ∷ rest

  abbrev pub insert_pair : String × String → V → PairMap V → PairMap V
  insert_pair k v m = (k, v) ∷ remove_pair k m

pub record Cache : Type 0 where
  pub cache : PairMap (ℕ × List RemoteRunner)
  pub blocked : BTreeMap (ℕ × String)
  pub installation_tokens : BTreeMap (ℕ × String)
  pub generation : ℕ

-- `Github::clear`
unfoldable pub clear : Cache → Cache
clear c = record {
  cache = [];
  blocked = [];
  installation_tokens = [];
  generation = (c.generation + 1) % u64_mod;
}

-- What the code reads of a JSON body: absent members are `none`, and runners that do not parse too.
pub record Body : Type 0 where
  pub token : Option String
  pub expires_at : Option ℕ
  pub runners : Option (Option (List RemoteRunner))

pub record Response : Type 0 where
  pub status : ℕ
  pub remaining : Option String
  pub retry_after : Option ℕ
  pub reset : Option ℕ
  pub body : Option Body

-- `send` is none when there is no connection.
pub record Net : Type 0 where
  pub auth_key : String → Auth → String
  pub now : ℕ → ℕ
  pub credential : ℕ → Result String
  pub app_jwt : ℕ → Result String
  pub send : ℕ → Option Response
  pub meanwhile : ℕ → Cache → Cache
  pub show_status : ℕ → String
  pub show_number : ℕ → String

pub record Gh : Type 0 where
  pub shared : Cache
  pub io : ℕ

abbrev pub Call : Type 0 → Type 0
Call A = Gh → Result A × Gh

module _ {A B : Type 0} where
  infixl 5 ◌>>=◌ ◌>>◌
  abbrev pub proceed : Result A → (A → Call B) → Call B
  proceed (err error) f g = (err error, g)
  proceed (ok a) f g = f a g

  abbrev pub ◌>>=◌ : Call A → (A → Call B) → Call B
  ◌>>=◌ m f g = let (r, g') = m g in proceed r f g'

  abbrev pub ◌>>◌ : Call A → Call B → Call B
  ◌>>◌ m k = m >>= λ _. k

abbrev pub return : {A : Type 0} → A → Call A
return a g = (ok a, g)

abbrev pub fail : {A : Type 0} → String → Call A
fail text g = (err (message text), g)

abbrev pub from_result : {A : Type 0} → Result A → Call A
from_result r g = (r, g)

abbrev pub or_fail : {A : Type 0} → Option A → String → Call A
or_fail none text = fail text
or_fail (some a) text = return a

abbrev pub shared_now : Call Cache
shared_now g = (ok g.shared, g)

abbrev pub change : (Cache → Cache) → Call (Unit {0})
change f g = (ok tt, record g { shared = f g.shared })

abbrev pub next_call : Call ℕ
next_call g = (ok g.io, record g { io = g.io + 1 })

abbrev pub some_text : Option String → String → Bool
some_text none s = false
some_text (some t) s = str_eq t s

abbrev pub is_some_delay : Option ℕ → Bool
is_some_delay none = false
is_some_delay (some _) = true

-- The statuses that the code names.
abbrev pub is_success : ℕ → Bool
is_success status = not (ltb status 200) && ltb status 300

-- Too many requests, by the status or a header.
unfoldable pub is_rate_limit : Response → Bool
is_rate_limit r = r.status == 429 || some_text r.remaining "0" || is_some_delay r.retry_after

unfoldable pub is_denied : Response → Bool
is_denied r = r.status == 401 || r.status == 403

-- `.max(1)` of the delay, or of the time to the reset; `soon` and `later` are the clock's answers
abbrev pub rate_wait : Response → ℕ → ℕ → ℕ
rate_wait r soon later = elim r.retry_after [
  | some delay ↦ max delay 1
  | none ↦ max ((elim r.reset [ none ↦ soon + 60 | some t ↦ t ]) - later) 1
]
