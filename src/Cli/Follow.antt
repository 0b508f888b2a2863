-- ===== src/Cli/Follow.antt =====
-- The logs command of src/main.rs: each round prints what the log has gained since the one before.
use runnerctl.Common.{
  ◌≡◌, refl, Bool, true, false, Option, none, some, List, [], ◌∷◌, ◌++◌, arith, if◌then◌else◌,
}
use runnerctl.Common.Text.{strip_prefix, strip_prefix-append}
use runnerctl.Result.{Result, ok, err}
use runnerctl.Shell.{Text}
use runnerctl.Protocol.{Answered}
use runnerctl.Cli.{Received, logs_of}

-- A round: the answer, and whether Ctrl+C came before the next one.
abbrev pub Round : Type 0
Round = Result Received × Bool

-- What a round prints: the new end, or all when the log does not go on from the previous one.
unfoldable pub print_change : Text → Text → Text
print_change previous logs = elim (strip_prefix previous logs) [
  | some suffix ↦ suffix
  | none ↦ logs
]

-- What is printed in the rounds, and how the loop ended, if it did.
unfoldable pub watch : Bool → Text → List Round → Text × Option (Result (Unit {0}))
watch follow previous [] = ([], none)
watch follow previous ((err error, interrupted) ∷ rounds) = ([], some (err error))
watch follow previous ((ok received, interrupted) ∷ rounds) =
    let logs = logs_of received.answered in
    let printed = print_change previous logs in
    let rest = watch follow logs rounds in
    if follow
    then (if interrupted then (printed, some (ok tt)) else (printed ++ rest.0, rest.1))
    else (printed, some (ok tt))

-- The rounds of a log that gains these parts one after the other.
abbrev pub growing : Text → List Text → List Round
growing logs [] = []
growing logs (part ∷ parts) =
    (ok (record { answered = Answered.logs (logs ++ part); manager_running = none }), false)
    ∷ growing (logs ++ part) parts

abbrev pub concat : List Text → Text
concat [] = []
concat (part ∷ parts) = part ++ concat parts

print_change-append : (s t : Text) → print_change s (s ++ t) ≡ t
unfolding print_change
print_change-append s t = ground (arith, strip_prefix-append s t)

-- A log that only grows is printed once: after any number of rounds the output is what the log has
-- gained since the first one, and the loop goes on.
watch-growing :
    (logs : Text) (parts : List Text) → watch true logs (growing logs parts) ≡ (concat parts, none)
unfolding watch
watch-growing logs [] = refl
watch-growing logs (part ∷ parts) =
    ground (arith, print_change-append logs part, watch-growing (logs ++ part) parts)
