-- ===== src/Status/Schedules.antt =====
-- status/k8s.go: however the sections of the tasks interleave, the errors that each of them adds are
-- there when all tasks have ended.
use cilium_cli.Prelude.{
  ℕ, zero, suc, ◌+◌, ◌≤◌, Option, none, some, List, [], ◌∷◌, Bool, true, false, ◌≡◌, refl, subst,
  arith, if◌then◌else◌,
}
use cilium_cli.Status.{Status, total_errors}
use cilium_cli.Status.Tasks.{
  Ended, ended, deadlocked, unfinished, Section, Task, then_run, pick, all_ended, run_if,
  run_schedule,
}

-- where the section ends, it has added `n` errors or more
abbrev pub Adds : ℕ → Section → Type 0
Adds n section = (s s' : Status) → section s ≡ ended s' → n + total_errors s ≤ total_errors s'

abbrev pub TaskAdds : ℕ → Task → Type 0
TaskAdds n [] = n ≡ 0
TaskAdds n (section ∷ task) = (m : ℕ) × (k : ℕ) × (n ≡ m + k) × Adds m section × TaskAdds k task

abbrev pub QueueAdds : ℕ → List Task → Type 0
QueueAdds n [] = n ≡ 0
QueueAdds n (task ∷ queue) = (m : ℕ) × (k : ℕ) × (n ≡ m + k) × TaskAdds m task × QueueAdds k queue

abbrev SectionAdds : ℕ → Option Section → Type 0
SectionAdds n none = n ≡ 0
SectionAdds n (some section) = Adds n section

pick-QueueAdds :
    (i n : ℕ) (queue : List Task)
    → QueueAdds n queue
    → (m : ℕ) × (k : ℕ) × (n ≡ m + k)
      × SectionAdds m (pick i queue).0
      × QueueAdds k (pick i queue).1
unfolding pick
pick-QueueAdds zero n [] h = (0, n, omega arith, refl, h)
pick-QueueAdds (suc i) n [] h = (0, n, omega arith, refl, h)
pick-QueueAdds zero n ([] ∷ queue) h = (0, n, omega arith, refl, h)
pick-QueueAdds zero n ((section ∷ task) ∷ queue) (m, k, e, (m', k', e', adds, rest), h) =
    (m', k' + k, omega (arith, e, e'), adds, (k', k, refl, rest, h))
pick-QueueAdds (suc i) n (task ∷ queue) (m, k, e, here, h) =
    let (m', k', e', adds, rest) = pick-QueueAdds i k queue h in
    (m', m + k', omega (arith, e, e'), adds, (m, k', refl, here, rest))

all_ended-TaskAdds :
    (n : ℕ) (queue : List Task) → all_ended queue ≡ true → QueueAdds n queue → n ≡ 0
all_ended-TaskAdds n [] e h = h
all_ended-TaskAdds n ([] ∷ queue) e (m, k, e', here, h) =
    omega (arith, e', here, all_ended-TaskAdds k queue e h)
all_ended-TaskAdds n ((section ∷ task) ∷ queue) e h = absurd cc

pub ended_injective : {s s' : Status} → ended s ≡ ended s' → s ≡ s'
ended_injective h = cc

run_if-Adds :
    (n : ℕ) (section : Option Section) (s s' : Status)
    → SectionAdds n section
    → run_if section s ≡ ended s'
    → n + total_errors s ≤ total_errors s'
run_if-Adds n none s s' h e =
    subst (λ x. n + total_errors s ≤ total_errors x) (ended_injective e) (omega (arith, h))
run_if-Adds n (some section) s s' h e = h s s' e

then_run-ended :
    (x : Ended) (rest : Status → Ended) (s' : Status)
    → then_run x rest ≡ ended s'
    → (s : Status) × (x ≡ ended s) × (rest s ≡ ended s')
then_run-ended (ended s) rest s' h = (s, refl, h)
then_run-ended deadlocked rest s' h = absurd cc
then_run-ended unfinished rest s' h = absurd cc

last-Adds :
    (b : Bool) (n : ℕ) (s s' : Status)
    → (b ≡ true → n ≡ 0)
    → (if b then ended s else unfinished) ≡ ended s'
    → n + total_errors s ≤ total_errors s'
last-Adds true n s s' h e =
    subst (λ x. n + total_errors s ≤ total_errors x) (ended_injective e) (omega (arith, h refl))
last-Adds false n s s' h e = absurd cc

pub run_schedule-Adds :
    (schedule : List ℕ) (n : ℕ) (queue : List Task) (s s' : Status)
    → QueueAdds n queue
    → run_schedule schedule queue s ≡ ended s'
    → n + total_errors s ≤ total_errors s'
unfolding run_schedule
run_schedule-Adds [] n queue s s' h e =
    last-Adds (all_ended queue) n s s' (λ all. all_ended-TaskAdds n queue all h) e
run_schedule-Adds (i ∷ schedule) n queue s s' h e =
    let (m, k, sum, adds, rest) = pick-QueueAdds i n queue h in
    let (s1, first, others) =
      then_run-ended (run_if (pick i queue).0 s) (run_schedule schedule (pick i queue).1) s' e in
    omega (
      arith,
      sum,
      run_if-Adds m (pick i queue).0 s s1 adds first,
      run_schedule-Adds schedule k (pick i queue).1 s1 s' rest others,
    )
