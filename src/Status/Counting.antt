-- ===== src/Status/Counting.antt =====
-- status/status.go: how many errors and warnings each operation adds to the totals.
use cilium_cli.Prelude.{
  ℕ, zero, suc, ◌+◌, String, Option, none, some, List, [], ◌∷◌, ◌++◌, length, length-append, Map,
  insert, get_or, lookup, Bool, true, false, not, ◌==◌, string_eq, if◌then◌else◌, nat_eq, ◌≡◌, refl,
  arith, subst, sym,
}
use cilium_cli.Status.{
  Issue, subsystem_issue, status_not_retrieved, controller_fails, ErrorCount, ErrorCountMap,
  no_issue, Subsystem, Controller, StatusResponse, Status, change_pod, change_error_count,
  add_aggregated_error, add_aggregated_warning, set_disabled, total, total_errors,
}
use cilium_cli.Status.Parse.{
  answered, not_answered, parse_subsystem_state, parse_subsystem, health, parse_controller,
  parse_controllers, parse_status_response,
}

-- an entry that is replaced
pub total-insert {ℓ} :
    {V : Type ℓ} (measure : V → ℕ) (zero_value : V) (k : String) (v : V) (m : Map String V)
    → measure zero_value ≡ 0
    → total measure (insert k v m) + measure (get_or zero_value k m) ≡ total measure m + measure v
unfolding total insert get_or lookup
total-insert measure zero_value k v [] h = omega (arith, h)
total-insert measure zero_value k v ((j, w) ∷ m) h =
    ground (arith, total-insert measure zero_value k v m h, h)

module _ (count : ErrorCount → ℕ) (count_none : count no_issue ≡ 0) where
  -- the change of one count
  pub total-change_error_count :
      (deployment pod : String) (change : ErrorCount → ErrorCount) (n : ℕ) (s : Status)
      → ((c : ErrorCount) → count (change c) ≡ n + count c)
      → total (total count) (change_error_count deployment pod change s).errors
        ≡ n + total (total count) s.errors
  unfolding change_error_count total
  total-change_error_count deployment pod change n s h =
      let pods : ErrorCountMap = get_or [] deployment s.errors in
      let c : ErrorCount = get_or no_issue pod pods in
      omega (
        arith,
        total-insert (total count) [] deployment (change_pod pod change pods) s.errors refl,
        total-insert count no_issue pod (change c) pods count_none,
        h c,
      )

pub errors-add_aggregated_error :
    (deployment pod : String) (issue : Issue) (s : Status)
    → total_errors (add_aggregated_error deployment pod issue s) ≡ suc (total_errors s)
errors-add_aggregated_error deployment pod issue s = omega (
  arith,
  total-change_error_count (λ c. length c.errors) refl deployment pod
      (λ c. record c { errors = c.errors ++ (issue ∷ []) }) 1 s
      (λ c. omega (arith, length-append c.errors (issue ∷ []))),
)

pub errors-add_aggregated_warning :
    (deployment pod : String) (issue : Issue) (s : Status)
    → total_errors (add_aggregated_warning deployment pod issue s) ≡ total_errors s
errors-add_aggregated_warning deployment pod issue s = omega (
  arith,
  total-change_error_count (λ c. length c.errors) refl deployment pod
      (λ c. record c { warnings = c.warnings ++ (issue ∷ []) }) 0 s (λ c. omega arith),
)

pub errors-set_disabled :
    (deployment pod : String) (disabled : Bool) (s : Status)
    → total_errors (set_disabled deployment pod disabled s) ≡ total_errors s
errors-set_disabled deployment pod disabled s = omega (
  arith,
  total-change_error_count (λ c. length c.errors) refl deployment pod
      (λ c. record c { disabled = disabled }) 0 s (λ c. omega arith),
)

abbrev pub one_if : Bool → ℕ
one_if true = 1
one_if false = 0

-- The failures that the agent reports: its subsystems in the state "failure", and its controllers that
-- failed the last time they ran.
abbrev pub subsystem_failures : (String → String) → Option Subsystem → ℕ
subsystem_failures to_lower none = 0
subsystem_failures to_lower (some sub) = one_if (to_lower sub.state == "failure")

abbrev pub controller_failures : Option ℕ → ℕ
controller_failures none = 0
controller_failures (some n) = one_if (not (n == 0))

abbrev pub controllers_failures : List Controller → ℕ
controllers_failures [] = 0
controllers_failures (c ∷ cs) = controller_failures c.consecutive_failures + controllers_failures cs

abbrev pub failures : (String → String) → StatusResponse → ℕ
failures to_lower r =
    subsystem_failures to_lower r.cilium
    + subsystem_failures to_lower (health r.cluster)
    + subsystem_failures to_lower r.hubble
    + subsystem_failures to_lower r.kubernetes
    + subsystem_failures to_lower r.kvstore
    + controllers_failures r.controllers

module _ (to_lower : String → String) (deployment pod : String) where
  state_errors :
      (warns fails : Bool) (issue : Issue) (s : Status)
      → (warns ≡ true → fails ≡ false)
      → total_errors (
          if warns
          then add_aggregated_warning deployment pod issue s
          else if fails
          then add_aggregated_error deployment pod issue s
          else s)
        ≡ one_if fails + total_errors s
  state_errors true fails issue s h =
      rw (h refl) (omega (arith, errors-add_aggregated_warning deployment pod issue s))
  state_errors false true issue s h =
      omega (arith, errors-add_aggregated_error deployment pod issue s)
  state_errors false false issue s h = omega arith

  warning_is_no_failure :
      (state : String) → (state == "warning") ≡ true → (state == "failure") ≡ false
  warning_is_no_failure state h =
      subst (λ x. (x == "failure") ≡ false) (sym ((string_eq.same_iff state "warning").0 h)) refl

  errors-parse_subsystem_state :
      (name : String) (sub : Subsystem) (s : Status)
      → total_errors (parse_subsystem_state to_lower deployment pod name sub s)
        ≡ one_if (to_lower sub.state == "failure") + total_errors s
  unfolding parse_subsystem_state
  errors-parse_subsystem_state name sub s =
      state_errors (to_lower sub.state == "warning") (to_lower sub.state == "failure")
        (subsystem_issue name sub.msg) s (warning_is_no_failure (to_lower sub.state))

  errors-parse_subsystem :
      (name : String) (sub : Option Subsystem) (s : Status)
      → total_errors (parse_subsystem to_lower deployment pod name sub s)
        ≡ subsystem_failures to_lower sub + total_errors s
  errors-parse_subsystem name none s = omega arith
  errors-parse_subsystem name (some sub) s = errors-parse_subsystem_state name sub s

  errors-parse_controller :
      (name : String) (n : Option ℕ) (msg : String) (s : Status)
      → total_errors (parse_controller to_lower deployment pod name n msg s)
        ≡ controller_failures n + total_errors s
  errors-parse_controller name none msg s = omega arith
  errors-parse_controller name (some zero) msg s = omega arith
  errors-parse_controller name (some (suc n)) msg s =
      ground
        (arith, errors-add_aggregated_error deployment pod (controller_fails name (suc n) msg) s)

  errors-parse_controllers :
      (cs : List Controller) (s : Status)
      → total_errors (parse_controllers to_lower deployment pod cs s)
        ≡ controllers_failures cs + total_errors s
  unfolding parse_controllers
  errors-parse_controllers [] s = omega arith
  errors-parse_controllers (c ∷ cs) s =
      let s' =
        parse_controller to_lower deployment pod c.name c.consecutive_failures c.last_failure s in
      omega (
        arith,
        errors-parse_controllers cs s',
        errors-parse_controller c.name c.consecutive_failures c.last_failure s,
      )

  -- The answer of an agent adds one error for each of its failures, and an answer that could not be had
  -- adds one.
  pub errors-parse_status_response :
      (r : StatusResponse) (msg : String) (s : Status)
      → (total_errors (parse_status_response to_lower deployment pod (answered r) s)
          ≡ failures to_lower r + total_errors s)
        × (total_errors (parse_status_response to_lower deployment pod (not_answered msg) s)
            ≡ suc (total_errors s))
  unfolding parse_status_response
  errors-parse_status_response r msg s = (
    (let parse = parse_subsystem to_lower deployment pod in
        let s1 : Status = parse "Cilium" r.cilium s in
        let s2 : Status = parse "Health" (health r.cluster) s1 in
        let s3 : Status = parse "Hubble" r.hubble s2 in
        let s4 : Status = parse "Kubernetes" r.kubernetes s3 in
        let s5 : Status = parse "Kvstore" r.kvstore s4 in
        omega (
          arith,
          errors-parse_subsystem "Cilium" r.cilium s,
          errors-parse_subsystem "Health" (health r.cluster) s1,
          errors-parse_subsystem "Hubble" r.hubble s2,
          errors-parse_subsystem "Kubernetes" r.kubernetes s3,
          errors-parse_subsystem "Kvstore" r.kvstore s4,
          errors-parse_controllers r.controllers s5,
        )),
    errors-add_aggregated_error deployment pod (status_not_retrieved msg) s,
  )
