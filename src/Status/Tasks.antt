-- ===== src/Status/Tasks.antt =====
-- status/k8s.go: `status`, whose tasks run at the same time. What a task does under the lock of the
-- status is one section, since nothing else writes meanwhile.
use cilium_cli.Prelude.{
  ℕ, zero, suc, String, Option, none, some, List, [], ◌∷◌, insert, lookup, Bool, true, false, ◌==◌,
  string_eq, if◌then◌else◌,
}
use cilium_cli.Status.{
  Issue, not_deployed, Status, new_status, StatusResponse, set_disabled, add_aggregated_error,
  add_aggregated_warning, collection_error,
}
use cilium_cli.Status.Parse.{Answer, answered, not_answered, parse_status_response}
use cilium_cli.Status.Collect.{
  Pod, Client, Fetched, fetched, nothing_fetched, not_found, fetch_error, deployment_change,
  is_disabled, deployment_error, daemon_set_change, daemon_set_error, pod_change, pod_error,
  pod_count_change, count_error, first_error,
}

-- A section ends, or its goroutine waits for a lock that it holds itself. A schedule may also stop
-- before every task has ended.
pub data Ended : Type 0 where
  ended : Status → Ended
  deadlocked : Ended
  unfinished : Ended

abbrev pub Section : Type 0
Section = Status → Ended

abbrev pub Task : Type 0
Task = List Section

abbrev pub on_error : Option Issue → (Issue → Status → Status) → Status → Status
on_error none change s = s
on_error (some issue) change s = change issue s

abbrev pub collect : Issue → Status → Status
collect issue s = collection_error issue s

abbrev pub add_and_collect : String → Issue → Status → Status
add_and_collect name issue s = collection_error issue (add_aggregated_error name name issue s)

module _ (client : Client) where
  abbrev pub agent_task : Task
  agent_task =
      (λ s. ended (daemon_set_change "cilium" (client.daemon_set "cilium") s))
      ∷ (λ s.
          ended
            (on_error (daemon_set_error (client.daemon_set "cilium")) (add_and_collect "cilium") s))
      ∷ []

  abbrev pub deployment_section : String → Section
  deployment_section name s = ended (deployment_change name (client.deployment name) s)

  -- the error of `podStatus` is returned, and dropped by the worker pool
  abbrev pub operator_section : Section
  operator_section s =
      let d = client.deployment "cilium-operator" in
      ended (
        pod_change "cilium-operator" (client.pods "name=cilium-operator") (
          on_error (deployment_error d) (add_and_collect "cilium-operator")
            (set_disabled "cilium-operator" "cilium-operator" (is_disabled d) s)))

  abbrev pub operator_task : Task
  operator_task = deployment_section "cilium-operator" ∷ operator_section ∷ []

  -- an error of the deployment, by whether its pods were counted before
  abbrev pub missing : String → Bool → Issue → Status → Status
  missing name true issue s = add_and_collect name issue s
  missing name false issue s = add_aggregated_warning name name not_deployed s

  abbrev pub has_state : String → Status → Bool
  has_state name s = elim (lookup name s.pod_state) [ none ↦ false | some count ↦ true ]

  -- where the pods cannot be listed, the section locks the status again, which it has locked
  abbrev pub pods_section : String → Fetched (List Pod) → Section
  pods_section name (fetched pods) s = ended (pod_change name (fetched pods) s)
  pods_section name nothing_fetched s = deadlocked
  pods_section name not_found s = deadlocked
  pods_section name (fetch_error msg) s = deadlocked

  unfoldable pub optional_section : String → String → Section
  optional_section name selector s =
      let d = client.deployment name in
      let s' =
        on_error (deployment_error d) (missing name (has_state name s))
          (set_disabled name name (is_disabled d) s) in
      if has_state name s then pods_section name (client.pods selector) s' else ended s'

  -- the tasks of Hubble Relay, of the Hubble UI and of the cluster mesh
  abbrev pub optional_task : String → String → Task
  optional_task name selector =
      deployment_section name ∷ (λ s. optional_section name selector s) ∷ []

  abbrev pub pod_count_task : Task
  pod_count_task =
      (λ s. ended (pod_count_change client.all_pods client.cilium_endpoints s))
      ∷ (λ s. ended (
          on_error (first_error (count_error client.all_pods) (count_error client.cilium_endpoints))
            collect s))
      ∷ []

  abbrev pub response : Answer → Option StatusResponse
  response (answered r) = some r
  response (not_answered msg) = none

  abbrev pub agent_answer : Pod → Answer
  agent_answer pod =
      if pod.agent_runs then client.cilium_status pod.name else not_answered pod.why_not

  abbrev pub pod_task : Pod → Task
  pod_task pod =
      (λ s.
        (let s' = parse_status_response client.to_lower "cilium" pod.name (agent_answer pod) s in
          ended (record s' {
            cilium_status = insert pod.name (response (agent_answer pod)) s'.cilium_status;
          })))
      ∷ []

  -- the tasks that the callback of `podStatus` adds
  unfoldable pub pod_tasks : List Pod → List Task
  pod_tasks [] = []
  pod_tasks (pod ∷ pods) =
      let rest = pod_tasks pods in if pod.phase == "Running" then pod_task pod ∷ rest else rest

  abbrev pub agent_pods : Fetched (List Pod) → List Pod
  agent_pods (fetched pods) = pods
  agent_pods _ = []

  -- all tasks that `status` submits
  unfoldable pub tasks : List Task
  tasks =
      agent_task
      ∷ operator_task
      ∷ optional_task "hubble-relay" "k8s-app=hubble-relay"
      ∷ optional_task "hubble-ui" "k8s-app=hubble-ui"
      ∷ optional_task "clustermesh-apiserver" "k8s-app=clustermesh-apiserver"
      ∷ pod_count_task
      ∷ pod_tasks (agent_pods (client.pods "k8s-app=cilium"))

  -- the status before the tasks run
  unfoldable pub before_tasks : Status
  before_tasks =
      let pods = client.pods "k8s-app=cilium" in
      on_error (pod_error pods) collect (pod_change "cilium" pods new_status)

abbrev pub then_run : Ended → (Status → Ended) → Ended
then_run (ended s) rest = rest s
then_run deadlocked rest = deadlocked
then_run unfinished rest = unfinished

-- the next section of the task at an index, and the tasks with what is left of it
unfoldable pub pick : ℕ → List Task → Option Section × List Task
pick i [] = (none, [])
pick zero ([] ∷ queue) = (none, [] ∷ queue)
pick zero ((section ∷ task) ∷ queue) = (some section, task ∷ queue)
pick (suc i) (task ∷ queue) = let (section, rest) = pick i queue in (section, task ∷ rest)

abbrev pub all_ended : List Task → Bool
all_ended [] = true
all_ended ([] ∷ queue) = all_ended queue
all_ended ((section ∷ task) ∷ queue) = false

abbrev pub run_if : Option Section → Status → Ended
run_if none s = ended s
run_if (some section) s = section s

-- The schedule says whose section runs next; an index without a section is passed over. The pool
-- has finished when every task has.
unfoldable pub run_schedule : List ℕ → List Task → Status → Ended
run_schedule [] queue s = if all_ended queue then ended s else unfinished
run_schedule (i ∷ schedule) queue s =
    let (section, rest) = pick i queue in then_run (run_if section s) (run_schedule schedule rest)

-- `status`, by the order in which the scheduler runs the sections of its tasks
unfoldable pub status : List ℕ → Client → Ended
status schedule client = run_schedule schedule (tasks client) (before_tasks client)
