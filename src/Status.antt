-- ===== src/Status.antt =====
-- status/status.go: the status of Cilium, with the errors and the warnings of each deployment's pods.
pub mod Parse
pub mod Collect
pub mod Tasks
pub mod Ready
pub mod Counting
pub mod Sections
pub mod Schedules
pub mod TaskErrors
pub mod Healthy
pub mod Waiting
use cilium_cli.Prelude.{
  ℕ, ◌+◌, String, Option, none, some, List, [], ◌∷◌, ◌++◌, Map, get_or, insert, lookup, Bool, true,
  false, length, ltb, string_eq, ◌||◌, if◌then◌else◌,
}

-- what an error or a warning of the source says
pub data Issue : Type 0 where
  api_error : String → Issue
  pods_not_ready pods_not_available : ℕ → Issue
  rollout_not_started : Issue
  rolling_out : ℕ → ℕ → Issue
  pod_is_pending : Issue
  pod_has_failed : String → String → Issue
  not_deployed : Issue
  no_pods_found : Issue
  is_not_available : Issue
  subsystem_issue : String → String → Issue
  status_not_retrieved : String → Issue
  controller_fails : String → ℕ → String → Issue

pub record ErrorCount : Type 0 where
  pub errors : List Issue
  pub warnings : List Issue
  pub disabled : Bool

abbrev pub no_issue : ErrorCount
no_issue = record { errors = []; warnings = []; disabled = false }

abbrev pub ErrorCountMap : Type 0
ErrorCountMap = Map String ErrorCount

abbrev pub ErrorCountMapMap : Type 0
ErrorCountMapMap = Map String ErrorCountMap

pub record PodsCount : Type 0 where
  pub all_pods : ℕ
  pub by_cilium : ℕ

pub record PodStateCount : Type 0 where
  pub type_name : String
  pub desired : ℕ
  pub ready : ℕ
  pub available : ℕ
  pub unavailable : ℕ

-- the state and the message of a subsystem
pub record Subsystem : Type 0 where
  pub state : String
  pub msg : String

pub record Controller : Type 0 where
  pub name : String
  pub consecutive_failures : Option ℕ
  pub last_failure : String

-- the parts of the agent's answer that are read: the cluster has the state of its health checks
pub record StatusResponse : Type 0 where
  pub cilium : Option Subsystem
  pub cluster : Option (Option Subsystem)
  pub hubble : Option Subsystem
  pub kubernetes : Option Subsystem
  pub kvstore : Option Subsystem
  pub controllers : List Controller

pub record Status : Type 0 where
  pub image_count : Map String (Map String ℕ)
  pub phase_count : Map String (Map String ℕ)
  pub pod_state : Map String PodStateCount
  pub pods_count : PodsCount
  pub cilium_status : Map String (Option StatusResponse)
  pub errors : ErrorCountMapMap
  pub collection_errors : List Issue

-- `newStatus`
abbrev pub new_status : Status
new_status = record {
  image_count = [];
  phase_count = [];
  pod_state = [];
  pods_count = record { all_pods = 0; by_cilium = 0 };
  cilium_status = [];
  errors = [];
  collection_errors = [];
}

-- `aggregatedErrorCount`, and what is done to the count that it points to
abbrev pub change_pod : String → (ErrorCount → ErrorCount) → ErrorCountMap → ErrorCountMap
change_pod pod change m = insert pod (change (get_or no_issue pod m)) m

unfoldable pub change_error_count : String → String → (ErrorCount → ErrorCount) → Status → Status
change_error_count deployment pod change s = record s {
  errors = insert deployment (change_pod pod change (get_or [] deployment s.errors)) s.errors;
}

-- `SetDisabled`
abbrev pub set_disabled : String → String → Bool → Status → Status
set_disabled deployment pod disabled =
    change_error_count deployment pod (λ c. record c { disabled = disabled })

-- `AddAggregatedError`
abbrev pub add_aggregated_error : String → String → Issue → Status → Status
add_aggregated_error deployment pod issue =
    change_error_count deployment pod (λ c. record c { errors = c.errors ++ (issue ∷ []) })

-- `AddAggregatedWarning`
abbrev pub add_aggregated_warning : String → String → Issue → Status → Status
add_aggregated_warning deployment pod issue =
    change_error_count deployment pod (λ c. record c { warnings = c.warnings ++ (issue ∷ []) })

-- `CollectionError`
abbrev pub collection_error : Issue → Status → Status
collection_error issue s = record s { collection_errors = s.collection_errors ++ (issue ∷ []) }

-- the sum of a measure over the entries of a map
unfoldable pub total {ℓ} : {V : Type ℓ} → (V → ℕ) → Map String V → ℕ
total measure [] = 0
total measure (entry ∷ m) = measure entry.1 + total measure m

-- `totalErrors`
abbrev pub total_errors : Status → ℕ
total_errors s = total (total (λ c. length c.errors)) s.errors

-- `totalWarnings`
abbrev pub total_warnings : Status → ℕ
total_warnings s = total (total (λ c. length c.warnings)) s.errors

-- the parts of the text of `statusSummary`, "OK" where there is none
pub data Part : Type 0 where
  errors_part warnings_part : ℕ → Part
  disabled_part : Part

abbrev pub any_disabled : ErrorCountMap → Bool
any_disabled [] = false
any_disabled ((pod, c) ∷ m) = c.disabled || any_disabled m

abbrev pub summary_of : ErrorCountMap → List Part
summary_of pods =
    let errors = total (λ c. length c.errors) pods in
    let warnings = total (λ c. length c.warnings) pods in
    (if ltb 0 errors then errors_part errors ∷ [] else [])
    ++ ((if ltb 0 warnings then warnings_part warnings ∷ [] else [])
        ++ (if any_disabled pods then disabled_part ∷ [] else []))

-- `statusSummary`
unfoldable pub status_summary : String → Status → List Part
status_summary name s = elim (lookup name s.errors) [ none ↦ [] | some pods ↦ summary_of pods ]
