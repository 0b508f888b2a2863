-- ===== src/Docker/Laws.antt =====
-- What the container of a run is created with.
use Prim.Native.String
use runnerctl.Common.{
  ℕ, String, ◌≡◌, inl, inr, refl, ◌∙◌, ap, Bool, true, false, not, ◌&&◌, ◌||◌, Option, none, some,
  List, [], ◌∷◌, ◌++◌, map, arith, all, str_eq, Bool-cases, if◌then◌else◌,
}
use runnerctl.Common.Text.{split, codes, contains_char, codes-append}
use runnerctl.Result.{Result, ok, err}
use runnerctl.Config.{Pool}
use runnerctl.Config.Names.{valid_name, name_char}
use runnerctl.Config.Validate.{label_ok}
use runnerctl.State.{Run}
use runnerctl.Docker.{Host, join_with, runner_labels, socket_args, common_args, create_args}

split-append :
    (c : ℕ) (a s : List ℕ) → contains_char c a ≡ false → split c (a ++ c ∷ s) ≡ a ∷ split c s
split-append c [] s h = ground arith
split-append c (d ∷ a) s h = ground (arith, split-append c a s)

split_whole : (c : ℕ) (a : List ℕ) → contains_char c a ≡ false → split c a ≡ a ∷ []
split_whole c [] h = refl
split_whole c (d ∷ a) h = ground (arith, split_whole c a)

abbrev no_comma : String → Bool
no_comma s = not (contains_char b',' (codes s))

split-join_with :
    (x : String) (rest : List String)
    → all no_comma (x ∷ rest) ≡ true
    → split b',' (codes (join_with "," (x ∷ rest))) ≡ map codes (x ∷ rest)
unfolding join_with
split-join_with x [] h = split_whole b',' (codes x) (ground arith)
split-join_with x (y ∷ rest) h =
    ap (split b',')
      (codes-append x _ ∙ ap (λ s. codes x ++ s) (codes-append "," (join_with "," (y ∷ rest))))
    ∙ split-append b',' (codes x) (codes (join_with "," (y ∷ rest))) (ground arith)
    ∙ ap (λ l. codes x ∷ l) (split-join_with y rest (ground arith))

no_comma_of_label : (label : String) → label_ok label ≡ true → no_comma label ≡ true
unfolding label_ok
no_comma_of_label label h = ground arith

no_comma_of_labels :
    (labels : List String) → all label_ok labels ≡ true → all no_comma labels ≡ true
no_comma_of_labels [] h = refl
no_comma_of_labels (l ∷ labels) h = ground (arith, no_comma_of_label l, no_comma_of_labels labels)

no_comma_of_name_chars : (s : List ℕ) → all name_char s ≡ true → contains_char b',' s ≡ false
no_comma_of_name_chars [] h = refl
no_comma_of_name_chars (c ∷ s) h = ground (arith, no_comma_of_name_chars s)

no_comma_of_pool_name :
    (name : String) → valid_name name ≡ true → no_comma (String.◌++◌ "pool:" name) ≡ true
unfolding valid_name
no_comma_of_pool_name name h =
    ground (arith, codes-append "pool:" name, no_comma_of_name_chars (codes name))

all-append :
    (f : String → Bool) (xs ys : List String)
    → all f xs ≡ true
    → all f ys ≡ true
    → all f (xs ++ ys) ≡ true
all-append f [] ys h k = k
all-append f (x ∷ xs) ys h k = ground (arith, all-append f xs ys)

split-append_last :
    (xs : List String) (y : String)
    → all no_comma (xs ++ y ∷ []) ≡ true
    → split b',' (codes (join_with "," (xs ++ y ∷ []))) ≡ map codes (xs ++ y ∷ [])
split-append_last [] y h = split-join_with y [] h
split-append_last (x ∷ xs) y h = split-join_with x (xs ++ y ∷ []) h

-- For a pool whose labels and name are valid, splitting RUNNER_LABELS at the commas gives back the
-- pool's labels, in order, and the label that the manager adds for the pool.
split-runner_labels :
    (pool : Pool)
    → all label_ok pool.labels ≡ true
    → valid_name pool.name ≡ true
    → split b',' (codes (runner_labels pool))
      ≡ map codes (pool.labels ++ String.◌++◌ "pool:" pool.name ∷ [])
unfolding runner_labels
split-runner_labels pool labels name =
    split-append_last pool.labels (String.◌++◌ "pool:" pool.name) (
      all-append no_comma pool.labels _ (no_comma_of_labels pool.labels labels)
        (ground (arith, no_comma_of_pool_name pool.name name)))

-- The last argument, or nothing.
abbrev pub last_arg : List String → Option String
last_arg [] = none
last_arg (x ∷ []) = some x
last_arg (x ∷ y ∷ rest) = last_arg (y ∷ rest)

last_arg-append : (xs : List String) (y : String) → last_arg (xs ++ y ∷ []) ≡ some y
last_arg-append [] y = refl
last_arg-append (x ∷ []) y = refl
last_arg-append (x ∷ z ∷ xs) y = last_arg-append (z ∷ xs) y

last_arg-suffix :
    (xs zs : List String) {y : String} → last_arg zs ≡ some y → last_arg (xs ++ zs) ≡ some y
last_arg-suffix [] zs h = h
last_arg-suffix (x ∷ []) [] h = absurd (ground arith)
last_arg-suffix (x ∷ []) (z ∷ zs) h = h
last_arg-suffix (x ∷ w ∷ xs) zs h = last_arg-suffix (w ∷ xs) zs h

-- An option and its value stand one after the other.
abbrev pub has_pair : String → String → List String → Bool
has_pair flag value [] = false
has_pair flag value (x ∷ []) = false
has_pair flag value (x ∷ y ∷ rest) =
    (str_eq x flag && str_eq y value) || has_pair flag value (y ∷ rest)

has_pair-append :
    (flag value : String) (xs zs : List String)
    → has_pair flag value xs ≡ true
    → has_pair flag value (xs ++ zs) ≡ true
has_pair-append flag value [] zs h = absurd (ground arith)
has_pair-append flag value (x ∷ []) zs h = absurd (ground arith)
has_pair-append flag value (x ∷ y ∷ xs) zs h =
    ground (arith, has_pair-append flag value (y ∷ xs) zs)

common_args_secured :
    (h : Host) (manager : String) (run : Run)
    → run.pool.allow_privilege_escalation ≡ false
    → has_pair "--security-opt" "no-new-privileges:true" (common_args h manager run) ≡ true
unfolding common_args
common_args_secured h manager run off = ground (arith, off)

create_args_parts :
    (h : Host) (manager : String) (run : Run) (args : List String)
    → create_args h manager run ≡ ok args
    → (socket : List String) × (args ≡ common_args h manager run ++ (socket ++ run.pool.image ∷ []))
unfolding create_args
create_args_parts h manager run args made =
    by_socket (if run.pool.docker_socket then socket_args h run else ok []) refl
  where
    by_socket :
        (r : Result (List String))
        → (if run.pool.docker_socket then socket_args h run else ok []) ≡ r
        → (socket : List String) × (args
            ≡ common_args h manager run ++ (socket ++ run.pool.image ∷ []))
    by_socket (ok socket) e = (socket, ground (arith, made, e))
    by_socket (err error) e = absurd (ground (arith, made, e))

-- The container of a run is created from the pool's image, which is the last argument, so that no
-- option follows it; and privilege escalation is turned off unless the pool allows it.
pub create_args_safe :
    (h : Host) (manager : String) (run : Run) (args : List String)
    → create_args h manager run ≡ ok args
    → (last_arg args ≡ some run.pool.image)
      × ((run.pool.allow_privilege_escalation
            || has_pair "--security-opt" "no-new-privileges:true" args)
          ≡ true)
create_args_safe h manager run args made =
    let (socket, parts) = create_args_parts h manager run args made in
    let rest = socket ++ run.pool.image ∷ [] in
    (
      ap last_arg parts
          ∙ last_arg-suffix (common_args h manager run) rest
              (last_arg-append socket run.pool.image),
      elim (Bool-cases run.pool.allow_privilege_escalation) [
        | inl allowed ↦ ground (arith, allowed)
        | inr off ↦
            let paired =
              has_pair-append "--security-opt" "no-new-privileges:true" (common_args h manager run)
                rest (common_args_secured h manager run off) in
            ground (arith, off, paired, parts)
      ],
    )
