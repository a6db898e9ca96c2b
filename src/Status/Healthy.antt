-- ===== src/Status/Healthy.antt =====
-- status/k8s.go: where `Status` waits and returns, Cilium is healthy in the round that it returns.
use cilium_cli.Prelude.{
  ℕ, ◌+◌, ◌≤◌, String, List, [], ◌∷◌, All, Bool, true, false, ◌==◌, string_eq, nat_eq, ◌≡◌, ◌⊎◌,
  inl, inr, refl, subst, arith, if◌then◌else◌,
}
use cilium_cli.Status.{Status, StatusResponse, new_status, total_errors}
use cilium_cli.Status.Parse.{Answer, answered, not_answered}
use cilium_cli.Status.Collect.{
  Pod, Workload, Client, Fetched, fetched, nothing_fetched, not_found, fetch_error,
  deployment_error, daemon_set_error, pod_error, pod_change,
}
use cilium_cli.Status.Tasks.{
  ended, Task, agent_answer, pod_task, pod_tasks, agent_pods, tasks, before_tasks, status,
}
use cilium_cli.Status.Counting.{failures, one_if}
use cilium_cli.Status.Sections.{
  workload_errors, error_of, fetched_errors, failed_pods, listed_failures, errors-pod_change,
}
use cilium_cli.Status.Schedules.{TaskAdds, QueueAdds, run_schedule-Adds}
use cilium_cli.Status.TaskErrors.{
  answer_errors, agent_problems, operator_errors, agent_task-Adds, operator_task-Adds,
  optional_task-Adds, pod_count_task-Adds, pod_task-Adds, errors-collect,
}

-- enough pods are ready, the latest change was seen, and it is rolled out
abbrev pub IsRolledOut : Workload → Type 0
IsRolledOut w =
    (w.desired ≤ w.ready) × (w.generation ≡ w.observed_generation) × (w.desired ≤ w.updated)

abbrev pub IsDeployed : Fetched Workload → Type 0
IsDeployed d = (w : Workload) × (d ≡ fetched w) × IsRolledOut w

abbrev pub is_fetched : Fetched Workload → Bool
is_fetched (fetched w) = true
is_fetched _ = false

-- the agent of a running pod answers, and reports no failure
abbrev pub IsWell : Client → Pod → Type 0
IsWell client pod =
    ((pod.phase == "Failed") ≡ false)
    × (((pod.phase == "Running") ≡ false)
        ⊎ ((r : StatusResponse) × (pod.agent_runs ≡ true)
            × (client.cilium_status pod.name ≡ answered r)
            × (failures client.to_lower r ≡ 0)))

abbrev pub IsHealthy : Client → Type 0
IsHealthy client =
    IsDeployed (client.daemon_set "cilium")
    × ((client.deployment "cilium-operator" ≡ not_found)
        ⊎ IsDeployed (client.deployment "cilium-operator"))
    × All
        (λ name.
          (is_fetched (client.deployment name) ≡ false) ⊎ IsDeployed (client.deployment name))
        ("hubble-relay" ∷ "hubble-ui" ∷ "clustermesh-apiserver" ∷ [])
    × ((pods : List Pod) → client.pods "k8s-app=cilium" ≡ fetched pods → All (IsWell client) pods)

module _ (client : Client) where
  abbrev answers : List Pod → ℕ
  answers [] = 0
  answers (pod ∷ pods) =
      (if pod.phase == "Running"
        then answer_errors client.to_lower (agent_answer client pod)
        else 0)
      + answers pods

  add_task :
      (b : Bool) (n k : ℕ) (task : Task) (queue : List Task)
      → TaskAdds n task
      → QueueAdds k queue
      → QueueAdds ((if b then n else 0) + k) (if b then task ∷ queue else queue)
  add_task true n k task queue h h' = (n, k, refl, h, h')
  add_task false n k task queue h h' = subst (λ x. QueueAdds x queue) (omega arith) h'

  pod_tasks-Adds : (pods : List Pod) → QueueAdds (answers pods) (pod_tasks client pods)
  unfolding pod_tasks
  pod_tasks-Adds [] = refl
  pod_tasks-Adds (pod ∷ pods) =
      add_task (pod.phase == "Running") _ (answers pods) (pod_task client pod)
        (pod_tasks client pods) (pod_task-Adds client pod) (pod_tasks-Adds pods)

  abbrev optional_errors : String → ℕ
  optional_errors name = fetched_errors (client.deployment name)

  abbrev agents : List Pod
  agents = agent_pods client (client.pods "k8s-app=cilium")

  abbrev problems : ℕ
  problems =
      agent_problems client
      + (fetched_errors (client.deployment "cilium-operator")
          + operator_errors client
          + (optional_errors "hubble-relay"
              + 0
              + (optional_errors "hubble-ui"
                  + 0
                  + (optional_errors "clustermesh-apiserver" + 0 + (0 + 0 + answers agents)))))

  tasks-Adds : QueueAdds problems (tasks client)
  unfolding tasks
  tasks-Adds = (
    _,
    _,
    refl,
    agent_task-Adds client,
    (
      _,
      _,
      refl,
      operator_task-Adds client,
      (
        _,
        _,
        refl,
        optional_task-Adds client "hubble-relay" "k8s-app=hubble-relay",
        (
          _,
          _,
          refl,
          optional_task-Adds client "hubble-ui" "k8s-app=hubble-ui",
          (
            _,
            _,
            refl,
            optional_task-Adds client "clustermesh-apiserver" "k8s-app=clustermesh-apiserver",
            (_, _, refl, pod_count_task-Adds client, pod_tasks-Adds agents),
          ),
        ),
      ),
    ),
  )

  errors-before_tasks :
      listed_failures (client.pods "k8s-app=cilium") ≤ total_errors (before_tasks client)
  unfolding before_tasks
  errors-before_tasks =
      let pods = client.pods "k8s-app=cilium" in
      let s : Status = pod_change "cilium" pods new_status in
      omega (
        arith,
        errors-collect client (pod_error pods) s,
        errors-pod_change "cilium" pods new_status,
      )

  errors-status :
      (schedule : List ℕ) (s : Status)
      → status schedule client ≡ ended s
      → problems + listed_failures (client.pods "k8s-app=cilium") ≤ total_errors s
  unfolding status
  errors-status schedule s e = omega (
    arith,
    errors-before_tasks,
    run_schedule-Adds schedule problems (tasks client) (before_tasks client) s tasks-Adds e,
  )

  rolled_out : (w : Workload) → workload_errors w ≡ 0 → IsRolledOut w
  rolled_out w h = ground arith

  daemon_set-IsDeployed :
      (d : Fetched Workload) → fetched_errors d + error_of (daemon_set_error d) ≡ 0 → IsDeployed d
  daemon_set-IsDeployed (fetched w) h = (w, refl, rolled_out w (omega (arith, h)))
  daemon_set-IsDeployed nothing_fetched h = absurd (omega (arith, h))
  daemon_set-IsDeployed not_found h = absurd (omega (arith, h))
  daemon_set-IsDeployed (fetch_error msg) h = absurd (omega (arith, h))

  deployment-IsDeployed :
      (d : Fetched Workload)
      → fetched_errors d + error_of (deployment_error d) ≡ 0
      → (d ≡ not_found) ⊎ IsDeployed d
  deployment-IsDeployed (fetched w) h = inr (w, refl, rolled_out w (omega (arith, h)))
  deployment-IsDeployed nothing_fetched h = absurd (omega (arith, h))
  deployment-IsDeployed not_found h = inl refl
  deployment-IsDeployed (fetch_error msg) h = absurd (omega (arith, h))

  optional-IsDeployed :
      (d : Fetched Workload) → fetched_errors d ≡ 0 → (is_fetched d ≡ false) ⊎ IsDeployed d
  optional-IsDeployed (fetched w) h = inr (w, refl, rolled_out w h)
  optional-IsDeployed nothing_fetched h = inl refl
  optional-IsDeployed not_found h = inl refl
  optional-IsDeployed (fetch_error msg) h = inl refl

  well_answered :
      (runs : Bool) (answer : Answer) (why : String)
      → answer_errors client.to_lower (if runs then answer else not_answered why) ≡ 0
      → (r : StatusResponse) × (runs ≡ true)
        × (answer ≡ answered r)
        × (failures client.to_lower r ≡ 0)
  well_answered true (answered r) why h = (r, refl, refl, h)
  well_answered true (not_answered msg) why h = absurd (omega (arith, h))
  well_answered false answer why h = absurd (omega (arith, h))

  running_well :
      (running : Bool) (pod : Pod)
      → (if running then answer_errors client.to_lower (agent_answer client pod) else 0) ≡ 0
      → (running ≡ false)
        ⊎ ((r : StatusResponse) × (pod.agent_runs ≡ true)
            × (client.cilium_status pod.name ≡ answered r)
            × (failures client.to_lower r ≡ 0))
  running_well false pod h = inl refl
  running_well true pod h =
      inr (well_answered pod.agent_runs (client.cilium_status pod.name) pod.why_not h)

  not_failed : (b : Bool) → one_if b ≡ 0 → b ≡ false
  not_failed true h = absurd (omega (arith, h))
  not_failed false h = refl

  All-IsWell :
      (pods : List Pod) → answers pods ≡ 0 → failed_pods pods ≡ 0 → All (IsWell client) pods
  All-IsWell [] h h' = tt
  All-IsWell (pod ∷ pods) h h' = (
    (
      not_failed (pod.phase == "Failed") (omega (arith, h')),
      running_well (pod.phase == "Running") pod (omega (arith, h)),
    ),
    All-IsWell pods (omega (arith, h)) (omega (arith, h')),
  )

  failed_agents :
      (pods : Fetched (List Pod))
      → listed_failures pods ≡ 0
      → failed_pods (agent_pods client pods) ≡ 0
  failed_agents (fetched pods) h = h
  failed_agents nothing_fetched h = refl
  failed_agents not_found h = refl
  failed_agents (fetch_error msg) h = refl

  pub status-IsHealthy :
      (schedule : List ℕ) (s : Status)
      → status schedule client ≡ ended s
      → total_errors s ≡ 0
      → IsHealthy client
  status-IsHealthy schedule s e h =
      let bound = errors-status schedule s e in
      (
        daemon_set-IsDeployed (client.daemon_set "cilium") (omega (arith, bound, h)),
        deployment-IsDeployed (client.deployment "cilium-operator") (omega (arith, bound, h)),
        (
          optional-IsDeployed (client.deployment "hubble-relay") (omega (arith, bound, h)),
          (
            optional-IsDeployed (client.deployment "hubble-ui") (omega (arith, bound, h)),
            (
              optional-IsDeployed (client.deployment "clustermesh-apiserver")
                  (omega (arith, bound, h)),
              tt,
            ),
          ),
        ),
        λ pods. λ e.
            subst (λ found. All (IsWell client) (agent_pods client found)) e
              (All-IsWell agents (omega (arith, bound, h))
                (failed_agents (client.pods "k8s-app=cilium") (omega (arith, bound, h)))),
      )
