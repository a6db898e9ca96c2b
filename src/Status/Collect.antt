-- ===== src/Status/Collect.antt =====
-- status/k8s.go: what is collected of a deployment, a DaemonSet, the pods of either and all pods.
use cilium_cli.Prelude.{
  ℕ, suc, ◌+◌, ◌-◌, String, Option, none, some, List, [], ◌∷◌, Map, insert, get_or, Bool, true,
  false, not, ◌&&◌, ◌||◌, ◌==◌, string_eq, nat_eq, ltb, if◌then◌else◌,
}
use cilium_cli.Status.{
  Issue, api_error, pods_not_ready, pods_not_available, rollout_not_started, rolling_out,
  pod_is_pending, pod_has_failed, no_pods_found, is_not_available, Status, PodStateCount,
  add_aggregated_error, add_aggregated_warning,
}
use cilium_cli.Status.Parse.{Answer}

-- A pod, with the images of its containers, whether its agent container runs, and the text that tells
-- why not.
pub record Pod : Type 0 where
  pub name : String
  pub phase : String
  pub reason : String
  pub message : String
  pub images : List String
  pub host_network : Bool
  pub agent_runs : Bool
  pub why_not : String

-- the counts and the generations of a Deployment or a DaemonSet
pub record Workload : Type 0 where
  pub desired : ℕ
  pub ready : ℕ
  pub available : ℕ
  pub unavailable : ℕ
  pub updated : ℕ
  pub generation : ℕ
  pub observed_generation : ℕ

pub data Fetched (A : Type 0) : Type 0 where
  fetched : A → Fetched A
  nothing_fetched : Fetched A
  not_found : Fetched A
  fetch_error : String → Fetched A

-- what the API answers during one round, and `strings.ToLower`
pub record Client : Type 0 where
  pub daemon_set : String → Fetched Workload
  pub deployment : String → Fetched Workload
  pub pods : String → Fetched (List Pod)
  pub all_pods : Fetched (List Pod)
  pub cilium_endpoints : Fetched ℕ
  pub cilium_status : String → Answer
  pub to_lower : String → String

abbrev pub add_if : Bool → (Status → Status) → Status → Status
add_if true change s = change s
add_if false change s = s

-- The checks that a Deployment and a DaemonSet have in common. The counts are not negative; the number
-- of the unavailable pods is that over the pods that are not ready.
abbrev pub workload_issues : String → Workload → Status → Status
workload_issues name w s =
    add_if (ltb w.updated w.desired)
      (add_aggregated_error name name (rolling_out w.updated w.desired))
      (add_if (not (w.generation == w.observed_generation))
        (add_aggregated_error name name rollout_not_started)
        (add_if (ltb w.desired (w.unavailable + w.ready))
          (add_aggregated_warning name name
            (pods_not_available (w.unavailable + w.ready - w.desired)))
          (add_if (ltb w.ready w.desired)
            (add_aggregated_error name name (pods_not_ready (w.desired - w.ready))) s)))

abbrev pub state_count : String → Workload → PodStateCount
state_count type_name w = record {
  type_name = type_name;
  desired = w.desired;
  ready = w.ready;
  available = w.available;
  unavailable = w.unavailable;
}

unfoldable pub record_workload : String → String → Workload → Status → Status
record_workload type_name name w s =
    workload_issues name w
      (record s { pod_state = insert name (state_count type_name w) s.pod_state })

-- what `deploymentStatus` does to the status
abbrev pub deployment_change : String → Fetched Workload → Status → Status
deployment_change name (fetched w) s = record_workload "Deployment" name w s
deployment_change name nothing_fetched s = s
deployment_change name not_found s = s
deployment_change name (fetch_error msg) s = s

-- whether `deploymentStatus` answers that the deployment is disabled
abbrev pub is_disabled : Fetched Workload → Bool
is_disabled not_found = true
is_disabled _ = false

-- the error of `deploymentStatus`
abbrev pub deployment_error : Fetched Workload → Option Issue
deployment_error (fetched w) = none
deployment_error nothing_fetched = some is_not_available
deployment_error not_found = none
deployment_error (fetch_error msg) = some (api_error msg)

-- what `daemonSetStatus` does to the status, and its error
abbrev pub daemon_set_change : String → Fetched Workload → Status → Status
daemon_set_change name (fetched w) s = record_workload "DaemonSet" name w s
daemon_set_change name nothing_fetched s = s
daemon_set_change name not_found s = s
daemon_set_change name (fetch_error msg) s = s

abbrev pub daemon_set_error : Fetched Workload → Option Issue
daemon_set_error (fetched w) = none
daemon_set_error nothing_fetched = some is_not_available
daemon_set_error not_found = some (api_error "not found")
daemon_set_error (fetch_error msg) = some (api_error msg)

abbrev pub count_one : String → Map String ℕ → Map String ℕ
count_one key counts = insert key (suc (get_or 0 key counts)) counts

unfoldable pub count_all : List String → Map String ℕ → Map String ℕ
count_all [] counts = counts
count_all (key ∷ keys) counts = count_all keys (count_one key counts)

abbrev pub phase_change : String → Pod → Status → Status
phase_change name pod s =
    if pod.phase == "Pending"
    then add_aggregated_warning name pod.name pod_is_pending s
    else if pod.phase == "Failed"
    then add_aggregated_error name pod.name (pod_has_failed pod.reason pod.message) s
    else s

-- the loop of `podStatus`, with the counts of the phases and the images so far
unfoldable pub pod_loop : String → List Pod → Map String ℕ → Map String ℕ → Status → Status
pod_loop name [] phases images s = record s {
  phase_count = insert name phases s.phase_count;
  image_count = insert name images s.image_count;
}
pod_loop name (pod ∷ pods) phases images s =
    pod_loop name pods (count_one pod.phase phases) (count_all pod.images images)
      (phase_change name pod s)

-- `podStatus`: what it does to the status, and its error
abbrev pub pod_change : String → Fetched (List Pod) → Status → Status
pod_change name (fetched pods) s = pod_loop name pods [] [] s
pod_change name nothing_fetched s = s
pod_change name not_found s = s
pod_change name (fetch_error msg) s = s

abbrev pub pod_error : {A : Type 0} → Fetched A → Option Issue
pod_error (fetched a) = none
pod_error nothing_fetched = some no_pods_found
pod_error not_found = some (api_error "not found")
pod_error (fetch_error msg) = some (api_error msg)

abbrev pub is_counted : Pod → Bool
is_counted pod = not pod.host_network && ((pod.phase == "Running") || (pod.phase == "Pending"))

unfoldable pub count_pods : List Pod → ℕ
count_pods [] = 0
count_pods (pod ∷ pods) = let rest = count_pods pods in if is_counted pod then suc rest else rest

abbrev pub set_pods_count : ℕ → ℕ → Status → Status
set_pods_count all_pods by_cilium s = record s {
  pods_count = record { all_pods = all_pods; by_cilium = by_cilium };
}

-- `podCount`: what it does to the status, and its error
abbrev pub pod_count_change : Fetched (List Pod) → Fetched ℕ → Status → Status
pod_count_change (fetched pods) (fetched n) s = set_pods_count (count_pods pods) n s
pod_count_change (fetched pods) nothing_fetched s = set_pods_count (count_pods pods) 0 s
pod_count_change nothing_fetched (fetched n) s = set_pods_count 0 n s
pod_count_change nothing_fetched nothing_fetched s = set_pods_count 0 0 s
pod_count_change _ _ s = s

abbrev pub count_error : {A : Type 0} → Fetched A → Option Issue
count_error (fetched a) = none
count_error nothing_fetched = none
count_error not_found = some (api_error "not found")
count_error (fetch_error msg) = some (api_error msg)

abbrev pub first_error : Option Issue → Option Issue → Option Issue
first_error (some issue) _ = some issue
first_error none error = error
