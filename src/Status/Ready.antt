-- ===== src/Status/Ready.antt =====
-- status/k8s.go: `statusIsReady`, and the loop of `Status` that waits for it.
use cilium_cli.Prelude.{
  ℕ, String, Option, none, some, List, [], ◌∷◌, all, length, lookup, Bool, true, false, not, ◌&&◌,
  ◌||◌, ltb, string_eq, if◌then◌else◌,
}
use cilium_cli.Status.{ErrorCountMap, Status, total_errors, total_warnings}
use cilium_cli.Status.Collect.{Client}
use cilium_cli.Status.Tasks.{ended, deadlocked, unfinished, status}

-- the parameters of the collector that the waiting reads
pub record Parameters : Type 0 where
  pub wait : Bool
  pub ignore_warnings : Bool
  pub warning_free_pods : List String

abbrev pub is_free : ErrorCountMap → Bool
is_free pods =
    all (λ entry. not (ltb 0 (length entry.1.warnings) || ltb 0 (length entry.1.errors))) pods

abbrev pub is_free_at : Status → String → Bool
is_free_at s name = elim (lookup name s.errors) [ none ↦ true | some pods ↦ is_free pods ]

abbrev pub no_name : List String → Bool
no_name [] = true
no_name (name ∷ names) = false

-- `statusIsReady`
unfoldable pub status_is_ready : Parameters → Status → Bool
status_is_ready k s =
    if ltb 0 (total_errors s)
    then false
    else if not k.ignore_warnings && no_name k.warning_free_pods && ltb 0 (total_warnings s)
    then false
    else all (is_free_at s) k.warning_free_pods

-- `Status` returns a status, reports a timeout with the most recent one, or never returns
pub data Waited : Type 0 where
  returned : Status → Waited
  timed_out : Option Status → Waited
  hangs : Waited

-- A round of the loop: what the cluster answers, and the order in which the tasks run.
abbrev pub Round : Type 0
Round = List ℕ × Client

-- The loop of `Status`, for the rounds that start before the time is up.
unfoldable pub wait_loop : Parameters → List Round → Option Status → Waited
wait_loop k [] recent = timed_out recent
wait_loop k (round ∷ rounds) recent = elim (status round.0 round.1) [
  | ended s ↦
      if not (status_is_ready k s) && k.wait then wait_loop k rounds (some s) else returned s
  | deadlocked ↦ hangs
  | unfinished ↦ hangs
]
