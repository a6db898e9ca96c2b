-- ===== src/Status/Parse.antt =====
-- status/status.go: how the agent's answer becomes errors and warnings.
use cilium_cli.Prelude.{
  ℕ, zero, suc, String, Option, none, some, List, [], ◌∷◌, ◌==◌, string_eq, if◌then◌else◌,
}
use cilium_cli.Status.{
  subsystem_issue, status_not_retrieved, controller_fails, Subsystem, Controller, StatusResponse,
  Status, add_aggregated_error, add_aggregated_warning,
}

-- the answer of `cilium status`, or the text of an error
pub data Answer : Type 0 where
  answered : StatusResponse → Answer
  not_answered : String → Answer

abbrev pub health : Option (Option Subsystem) → Option Subsystem
health none = none
health (some sub) = sub

module _ (to_lower : String → String) (deployment pod : String) where
  -- `parseCiliumSubsystemState`
  unfoldable pub parse_subsystem_state : String → Subsystem → Status → Status
  parse_subsystem_state name sub s =
      if to_lower sub.state == "warning"
      then add_aggregated_warning deployment pod (subsystem_issue name sub.msg) s
      else if to_lower sub.state == "failure"
      then add_aggregated_error deployment pod (subsystem_issue name sub.msg) s
      else s

  -- `parseCiliumSubsystemStatus`, and the tests for nil around it
  abbrev pub parse_subsystem : String → Option Subsystem → Status → Status
  parse_subsystem name none s = s
  parse_subsystem name (some sub) s = parse_subsystem_state name sub s

  abbrev pub parse_controller : String → Option ℕ → String → Status → Status
  parse_controller name none msg s = s
  parse_controller name (some zero) msg s = s
  parse_controller name (some (suc n)) msg s =
      add_aggregated_error deployment pod (controller_fails name (suc n) msg) s

  unfoldable pub parse_controllers : List Controller → Status → Status
  parse_controllers [] s = s
  parse_controllers (c ∷ cs) s =
      parse_controllers cs (parse_controller c.name c.consecutive_failures c.last_failure s)

  -- `parseStatusResponse`
  unfoldable pub parse_status_response : Answer → Status → Status
  parse_status_response (not_answered msg) s =
      add_aggregated_error deployment pod (status_not_retrieved msg) s
  parse_status_response (answered r) s = parse_controllers r.controllers (
      parse_subsystem "Kvstore" r.kvstore (
        parse_subsystem "Kubernetes" r.kubernetes (
          parse_subsystem "Hubble" r.hubble
            (parse_subsystem "Health" (health r.cluster) (parse_subsystem "Cilium" r.cilium s)))))
