-- ===== src/Tests/Status.antt =====
-- The status of a cluster with one agent, whose relay can be listed or not.
use cilium_cli.Prelude.{
  All, ◌≢◌, ℕ, none, some, List, [], ◌∷◌, get_elem?, true, false, ◌==◌, string_eq, if◌then◌else◌,
  ◌≡◌, ◌⊎◌, ◌↔◌, refl, lookup, insert, get_or,
}
use cilium_cli.Status.{
  Status, StatusResponse, new_status, add_aggregated_warning, change_error_count, total,
  pod_is_pending,
}
use cilium_cli.Status.Parse.{
  answered, parse_status_response, parse_subsystem_state, parse_controllers,
}
use cilium_cli.Status.Collect.{
  Pod, Workload, Client, Fetched, fetched, not_found, fetch_error, record_workload, pod_loop,
  count_all, count_pods,
}
use cilium_cli.Status.Tasks.{
  ended, deadlocked, run_schedule, pick, optional_section, tasks, pod_tasks, before_tasks, status,
}
use cilium_cli.Status.Ready.{Parameters, status_is_ready, Waited, returned, Round, wait_loop}
use cilium_cli.Status.Healthy.{IsHealthy}
use cilium_cli.Status.Waiting.{IsFreeAt, Each, status_is_ready-ready, wait_loop-IsHealthy}

abbrev workload : Workload
workload = record {
  desired = 1;
  ready = 1;
  available = 1;
  unavailable = 0;
  updated = 1;
  generation = 2;
  observed_generation = 2;
}

abbrev agent : Pod
agent = record {
  name = "cilium-7x9bq";
  phase = "Running";
  reason = "";
  message = "";
  images = "cilium:v1.13" ∷ [];
  host_network = true;
  agent_runs = true;
  why_not = "";
}

abbrev response : StatusResponse
response = record {
  cilium = some (record { state = "Ok"; msg = "" });
  cluster = some none;
  hubble = none;
  kubernetes = some (record { state = "Ok"; msg = "1.26" });
  kvstore = none;
  controllers = record { name = "sync"; consecutive_failures = some 0; last_failure = "" } ∷ [];
}

abbrev client_with : Fetched (List Pod) → Client
client_with relay_pods = record {
  daemon_set = λ name. fetched workload;
  deployment = λ name.
      if name == "cilium-operator"
      then fetched workload
      else if name == "hubble-relay"
      then fetched workload
      else not_found;
  pods = λ selector.
      if selector == "k8s-app=cilium"
      then fetched (agent ∷ [])
      else if selector == "k8s-app=hubble-relay"
      then relay_pods
      else fetched [];
  all_pods = fetched (agent ∷ []);
  cilium_endpoints = fetched 0;
  cilium_status = λ name. answered response;
  to_lower = λ text. if text == "Ok" then "ok" else text;
}

-- the tasks in the order in which they are submitted
abbrev schedule : List ℕ
schedule = 0 ∷ 0 ∷ 1 ∷ 1 ∷ 2 ∷ 2 ∷ 3 ∷ 3 ∷ 4 ∷ 4 ∷ 5 ∷ 5 ∷ 6 ∷ []

-- where the pods of the relay cannot be listed, its task waits for a lock that it holds
relay_deadlocks : status schedule (client_with (fetch_error "forbidden")) ≡ deadlocked
unfolding status run_schedule pick tasks pod_tasks before_tasks optional_section record_workload
    pod_loop count_all count_pods parse_status_response parse_subsystem_state parse_controllers
    change_error_count lookup insert get_or
relay_deadlocks = refl

abbrev waiting : Parameters
waiting = record { wait = true; ignore_warnings = false; warning_free_pods = "cilium" ∷ [] }

abbrev round : Round
round = (schedule, client_with (fetched []))

abbrev status_of : Waited → Status
status_of (returned s) = s
status_of _ = new_status

abbrev final : Status
final = status_of (wait_loop waiting (round ∷ []) none)

wait_returns : wait_loop waiting (round ∷ []) none ≡ returned final
unfolding wait_loop status_is_ready status run_schedule pick tasks pod_tasks before_tasks
    optional_section record_workload pod_loop count_all count_pods parse_status_response
    parse_subsystem_state parse_controllers change_error_count lookup insert get_or total
wait_returns = refl

wait_loop-IsHealthy_example :
    (i : ℕ) × (r : Round) × (get_elem? (round ∷ []) i ≡ some r)
    × (status r.0 r.1 ≡ ended final)
    × (status_is_ready waiting final ≡ true)
    × IsHealthy r.1
wait_loop-IsHealthy_example = wait_loop-IsHealthy waiting (round ∷ []) none final refl wait_returns

abbrev with_warning : Status
with_warning = add_aggregated_warning "cilium" "cilium-7x9bq" pod_is_pending new_status

warning_not_ready : status_is_ready waiting with_warning ≡ false
unfolding status_is_ready change_error_count lookup insert get_or total
warning_not_ready = refl

status_is_ready-ready_example : (status_is_ready waiting with_warning ≡ true) ↔ (
    Each (λ c. c.errors ≡ []) with_warning
    × ((waiting.ignore_warnings ≡ true)
        ⊎ (waiting.warning_free_pods ≢ [])
        ⊎ Each (λ c. c.warnings ≡ []) with_warning)
    × All (IsFreeAt with_warning) waiting.warning_free_pods)
status_is_ready-ready_example = status_is_ready-ready waiting with_warning
