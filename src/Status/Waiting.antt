-- ===== src/Status/Waiting.antt =====
-- status/k8s.go: what `statusIsReady` asks for, and what `Status` returns when it waits for it.
use cilium_cli.Prelude.{
  ℕ, suc, String, Option, some, List, [], ◌∷◌, get_elem?, all, All, length, Bool, true, false, not,
  ◌&&◌, ltb, string_eq, lookup, none, ◌≡◌, ◌≢◌, ◌⊎◌, inl, inr, refl, subst, arith, if◌then◌else◌,
  ◌↔◌, Map,
}
use cilium_cli.Status.{ErrorCount, ErrorCountMap, Status, total, total_errors, total_warnings}
use cilium_cli.Status.Tasks.{Ended, ended, deadlocked, unfinished, status}
use cilium_cli.Status.Ready.{
  Parameters, is_free, is_free_at, no_name, status_is_ready, returned, hangs, Round, wait_loop,
}
use cilium_cli.Status.Healthy.{IsHealthy, status-IsHealthy}

-- each entry of a map of maps has the property
abbrev pub Each : (ErrorCount → Type 0) → Status → Type 0
Each P s = All (λ pods. All (λ pod. P pod.1) pods.1) s.errors

-- the pods at the name, if the status has any, have neither warnings nor errors
abbrev pub IsFreeAt : Status → String → Type 0
IsFreeAt s name =
    (pods : ErrorCountMap)
    → lookup name s.errors ≡ some pods
    → All (λ pod. (pod.1.warnings ≡ []) × (pod.1.errors ≡ [])) pods

empty_list {ℓ} : {A : Type ℓ} (xs : List A) → (length xs ≡ 0) ↔ (xs ≡ [])
empty_list [] = (λ h. refl, λ h. refl)
empty_list (x ∷ xs) = (λ h. absurd (omega (arith, h)), λ h. absurd cc)

total-none {ℓ κ} :
    {V : Type ℓ} (measure : V → ℕ) (P : V → Type κ) (m : Map String V)
    → ((v : V) → (measure v ≡ 0) ↔ P v)
    → (total measure m ≡ 0) ↔ All (λ entry. P entry.1) m
unfolding total
total-none measure P [] h = (λ e. tt, λ e. refl)
total-none measure P (entry ∷ m) h =
    let rest = total-none measure P m h in
    (
      λ e. ((h entry.1).0 (omega (arith, e)), rest.0 (omega (arith, e))),
      λ all. omega (arith, (h entry.1).1 all.0, rest.1 all.1),
    )

none_anywhere :
    {A : Type 0} (field : ErrorCount → List A) (s : Status)
    → (total (total (λ c. length (field c))) s.errors ≡ 0) ↔ Each (λ c. field c ≡ []) s
none_anywhere field s =
    total-none (total (λ c. length (field c))) (All (λ pod. field pod.1 ≡ [])) s.errors (λ pods.
      total-none (λ c. length (field c)) (λ c. field c ≡ []) pods (λ c. empty_list (field c)))

is_free-All :
    (pods : ErrorCountMap)
    → (is_free pods ≡ true) ↔ All (λ pod. (pod.1.warnings ≡ []) × (pod.1.errors ≡ [])) pods
is_free-All [] = (λ h. tt, λ h. refl)
is_free-All (pod ∷ pods) =
    let rest = is_free-All pods in
    let no_warning = empty_list pod.1.warnings in
    let no_error = empty_list pod.1.errors in
    (
      λ h. ((no_warning.0 (ground arith), no_error.0 (ground arith)), rest.0 (ground arith)),
      λ all. ground (arith, no_warning.1 all.0.0, no_error.1 all.0.1, rest.1 all.1),
    )

is_free_at-IsFreeAt :
    (s : Status) (name : String) (found : Option ErrorCountMap)
    → lookup name s.errors ≡ found
    → (is_free_at s name ≡ true) ↔ IsFreeAt s name
is_free_at-IsFreeAt s name none e = (λ h. λ pods. λ e'. absurd (cc), λ h. rw (e, is_free_at) refl)
is_free_at-IsFreeAt s name (some pods) e = (
  λ h. λ pods'. λ e'. (is_free-All pods').0 (rw (e', is_free_at) at h),
  λ h. rw (e, is_free_at) ((is_free-All pods).1 (h pods e)),
)

all_free :
    (s : Status) (names : List String) → (all (is_free_at s) names ≡ true) ↔ All (IsFreeAt s) names
all_free s [] = (λ h. tt, λ h. refl)
all_free s (name ∷ names) =
    let first = is_free_at-IsFreeAt s name (lookup name s.errors) refl in
    let rest = all_free s names in
    (
      λ h. (first.0 (ground arith), rest.0 (ground arith)),
      λ h. ground (arith, first.1 h.0, rest.1 h.1),
    )

tests :
    (errors warnings : ℕ) (ignore no_names free : Bool)
    → ((if ltb 0 errors
          then false
          else if not ignore && no_names && ltb 0 warnings
          then false
          else free)
        ≡ true)
      ↔ ((errors ≡ 0) × ((ignore ≡ true) ⊎ (no_names ≡ false) ⊎ (warnings ≡ 0)) × (free ≡ true))
tests errors warnings ignore no_names free = ground arith

named : (names : List String) → (no_name names ≡ false) ↔ (names ≢ [])
named [] = (λ h. absurd cc, λ h. absurd (h refl))
named (name ∷ names) = (λ h. λ e. cc, λ h. refl)

or_either : {A B C D E : Type 0} → (B ↔ C) → (D ↔ E) → (A ⊎ B ⊎ D) ↔ (A ⊎ C ⊎ E)
or_either h g = (
  λ x. elim x [
    | inl a ↦ inl a
    | inr y ↦ inr (elim y [ inl b ↦ inl (h.0 b) | inr d ↦ inr (g.0 d) ])
  ],
  λ x. elim x [
    | inl a ↦ inl a
    | inr y ↦ inr (elim y [ inl c ↦ inl (h.1 c) | inr e ↦ inr (g.1 e) ])
  ],
)

-- `statusIsReady` accepts a status exactly when no pod has an error, no pod has a warning unless
-- warnings are ignored or some names are asked to be free of them, and the pods at each name that is
-- asked to be free of warnings, where the status has pods at that name, have neither warnings nor
-- errors.
pub status_is_ready-ready :
    (k : Parameters) (s : Status)
    → (status_is_ready k s ≡ true) ↔ (
        Each (λ c. c.errors ≡ []) s
        × ((k.ignore_warnings ≡ true) ⊎ (k.warning_free_pods ≢ []) ⊎ Each (λ c. c.warnings ≡ []) s)
        × All (IsFreeAt s) k.warning_free_pods)
unfolding status_is_ready
status_is_ready-ready k s =
    let parts =
      tests (total_errors s) (total_warnings s) k.ignore_warnings (no_name k.warning_free_pods)
        (all (is_free_at s) k.warning_free_pods) in
    let errors = none_anywhere (λ c. c.errors) s in
    let warnings = or_either (named k.warning_free_pods) (none_anywhere (λ c. c.warnings) s) in
    let free = all_free s k.warning_free_pods in
    (
      λ h. (errors.0 (parts.0 h).0, warnings.0 (parts.0 h).1, free.0 (parts.0 h).2),
      λ h. parts.1 (errors.1 h.0, warnings.1 h.1, free.1 h.2),
    )

ready-total_errors : (k : Parameters) (s : Status) → status_is_ready k s ≡ true → total_errors s ≡ 0
ready-total_errors k s h = (none_anywhere (λ c. c.errors) s).1 ((status_is_ready-ready k s).0 h).0

returned_injective : {s s' : Status} → returned s ≡ returned s' → s ≡ s'
returned_injective h = cc

abbrev Found : Parameters → List Round → Status → Type 0
Found k rounds s =
    (i : ℕ) × (round : Round) × (get_elem? rounds i ≡ some round)
    × (status round.0 round.1 ≡ ended s)
    × (status_is_ready k s ≡ true)
    × IsHealthy round.1

later :
    (k : Parameters) (round : Round) (rounds : List Round) (s : Status)
    → Found k rounds s
    → Found k (round ∷ rounds) s
later k round rounds s (i, found, at, ended_, ready, healthy) =
    (suc i, found, at, ended_, ready, healthy)

one_round :
    (k : Parameters) (round : Round) (rounds : List Round) (s s' : Status) (ready : Bool)
    → status_is_ready k s' ≡ ready
    → status round.0 round.1 ≡ ended s'
    → k.wait ≡ true
    → (if not ready && k.wait then wait_loop k rounds (some s') else returned s') ≡ returned s
    → (wait_loop k rounds (some s') ≡ returned s → Found k rounds s)
    → Found k (round ∷ rounds) s
one_round k round rounds s s' true ready e w h go =
    subst (λ x. Found k (round ∷ rounds) x) (returned_injective h)
      (
        0,
        round,
        refl,
        e,
        ready,
        status-IsHealthy round.1 round.0 s' e (ready-total_errors k s' ready),
      )
one_round k round rounds s s' false ready e w h go =
    later k round rounds s
      (go (subst (λ b. (if b then wait_loop k rounds (some s') else returned s') ≡ returned s) w h))

any_round :
    (k : Parameters) (round : Round) (rounds : List Round) (s : Status) (x : Ended)
    → status round.0 round.1 ≡ x
    → k.wait ≡ true
    → elim x [
      | ended s' ↦
          if not (status_is_ready k s') && k.wait then wait_loop k rounds (some s') else returned s'
      | deadlocked ↦ hangs
      | unfinished ↦ hangs
    ]
      ≡ returned s
    → ((recent : Option Status) → wait_loop k rounds recent ≡ returned s → Found k rounds s)
    → Found k (round ∷ rounds) s
any_round k round rounds s (ended s') e w h go =
    one_round k round rounds s s' (status_is_ready k s') refl e w h (go (some s'))
any_round k round rounds s deadlocked e w h go = absurd cc
any_round k round rounds s unfinished e w h go = absurd cc

-- Where `Status` waits and returns a status, it is that of one of its rounds, it is ready, and in that
-- round, whatever the order in which the tasks ran: the agents' DaemonSet has all its pods ready and
-- its latest change rolled out, the operator's deployment as well unless there is none, and so have
-- Hubble Relay, the Hubble UI and the cluster mesh where they could be fetched; and where the pods of
-- the agents could be listed, none of them has failed, and the agent of each running one answers
-- without a failure.
pub wait_loop-IsHealthy :
    (k : Parameters) (rounds : List Round) (recent : Option Status) (s : Status)
    → k.wait ≡ true
    → wait_loop k rounds recent ≡ returned s
    → (i : ℕ) × (round : Round) × (get_elem? rounds i ≡ some round)
      × (status round.0 round.1 ≡ ended s)
      × (status_is_ready k s ≡ true)
      × IsHealthy round.1
unfolding wait_loop
wait_loop-IsHealthy k [] recent s w h = absurd cc
wait_loop-IsHealthy k (round ∷ rounds) recent s w h =
    any_round k round rounds s (status round.0 round.1) refl w h
      (λ recent'. wait_loop-IsHealthy k rounds recent' s w)
