-- ===== src/Status/TaskErrors.antt =====
-- status/k8s.go: how many errors each task of `status` adds at least.
use cilium_cli.Prelude.{
  ℕ, ◌+◌, ◌≤◌, String, Option, none, some, List, [], ◌∷◌, Bool, true, false, string_eq, nat_eq, ◌≡◌,
  refl, subst, arith, if◌then◌else◌,
}
use cilium_cli.Status.{Issue, Status, StatusResponse, total_errors, set_disabled, not_deployed}
use cilium_cli.Status.Parse.{Answer, answered, not_answered, parse_status_response}
use cilium_cli.Status.Collect.{
  Pod, Workload, Client, Fetched, fetched, nothing_fetched, not_found, fetch_error,
  deployment_change, deployment_error, is_disabled, daemon_set_error, daemon_set_change,
  pod_count_change, count_error, first_error,
}
use cilium_cli.Status.Tasks.{
  ended, Section, on_error, collect, add_and_collect, agent_task, deployment_section,
  operator_section, operator_task, missing, has_state, pods_section, optional_section,
  optional_task, pod_count_task, agent_answer, pod_task,
}
use cilium_cli.Status.Counting.{
  errors-set_disabled, errors-add_aggregated_warning, failures, errors-parse_status_response,
}
use cilium_cli.Status.Sections.{
  error_of, errors-on_error, fetched_errors, errors-deployment_change, errors-daemon_set_change,
  listed_failures, errors-pod_change,
}
use cilium_cli.Status.Schedules.{Adds, TaskAdds, ended_injective}

abbrev pub answer_errors : (String → String) → Answer → ℕ
answer_errors to_lower (answered r) = failures to_lower r
answer_errors to_lower (not_answered msg) = 1

-- a section that never fails to end, by what it does to the number of errors
exactly :
    (n : ℕ) (change : Status → Status)
    → ((s : Status) → total_errors (change s) ≡ n + total_errors s)
    → Adds n (λ s. ended (change s))
exactly n change h s s' e =
    subst (λ x. n + total_errors s ≤ total_errors x) (ended_injective e) (omega (arith, h s))

one_section : (n : ℕ) (x : Section) → Adds n x → TaskAdds n (x ∷ [])
one_section n x h = (n, 0, omega arith, h, refl)

two_sections : (m n : ℕ) (x y : Section) → Adds m x → Adds n y → TaskAdds (m + n) (x ∷ y ∷ [])
two_sections m n x y h h' = (m, n, refl, h, one_section n y h')

abbrev no_response : StatusResponse
no_response = record {
  cilium = none;
  cluster = none;
  hubble = none;
  kubernetes = none;
  kvstore = none;
  controllers = [];
}

module _ (client : Client) where
  abbrev pub agent_problems : ℕ
  agent_problems =
      let d = client.daemon_set "cilium" in fetched_errors d + error_of (daemon_set_error d)

  pub agent_task-Adds : TaskAdds agent_problems (agent_task client)
  agent_task-Adds =
      let d = client.daemon_set "cilium" in
      two_sections (fetched_errors d) (error_of (daemon_set_error d)) _ _
        (exactly (fetched_errors d) (daemon_set_change "cilium" d)
          (errors-daemon_set_change "cilium" d))
        (exactly (error_of (daemon_set_error d))
          (on_error (daemon_set_error d) (add_and_collect "cilium"))
          (errors-on_error "cilium" (daemon_set_error d)))

  deployment_section-Adds :
      (name : String)
      → Adds (fetched_errors (client.deployment name)) (deployment_section client name)
  deployment_section-Adds name =
      exactly (fetched_errors (client.deployment name))
        (deployment_change name (client.deployment name))
        (errors-deployment_change name (client.deployment name))

  abbrev pub operator_errors : ℕ
  operator_errors =
      listed_failures (client.pods "name=cilium-operator")
      + error_of (deployment_error (client.deployment "cilium-operator"))

  operator_section-Adds : Adds operator_errors (operator_section client)
  operator_section-Adds s s' e =
      let d = client.deployment "cilium-operator" in
      let pods = client.pods "name=cilium-operator" in
      let s1 : Status = set_disabled "cilium-operator" "cilium-operator" (is_disabled d) s in
      let s2 : Status = on_error (deployment_error d) (add_and_collect "cilium-operator") s1 in
      subst (λ x. operator_errors + total_errors s ≤ total_errors x) (ended_injective e)
        (omega (
          arith,
          errors-set_disabled "cilium-operator" "cilium-operator" (is_disabled d) s,
          errors-on_error "cilium-operator" (deployment_error d) s1,
          errors-pod_change "cilium-operator" pods s2,
        ))

  pub operator_task-Adds :
      TaskAdds
        (fetched_errors (client.deployment "cilium-operator") + operator_errors)
        (operator_task client)
  operator_task-Adds =
      two_sections (fetched_errors (client.deployment "cilium-operator")) operator_errors _ _
        (deployment_section-Adds "cilium-operator") operator_section-Adds

  errors-missing :
      (name : String) (counted : Bool) (d : Fetched Workload) (s : Status)
      → total_errors s
        ≤ total_errors (on_error (deployment_error d) (missing client name counted) s)
  errors-missing name counted (fetched w) s = omega arith
  errors-missing name counted not_found s = omega arith
  errors-missing name true nothing_fetched s =
      omega (arith, errors-on_error name (deployment_error nothing_fetched) s)
  errors-missing name true (fetch_error msg) s =
      omega (arith, errors-on_error name (deployment_error (fetch_error msg)) s)
  errors-missing name false nothing_fetched s =
      omega (arith, errors-add_aggregated_warning name name not_deployed s)
  errors-missing name false (fetch_error msg) s =
      omega (arith, errors-add_aggregated_warning name name not_deployed s)

  pods_section-Adds :
      (name : String) (pods : Fetched (List Pod)) → Adds 0 (pods_section client name pods)
  pods_section-Adds name (fetched pods) s s' e =
      subst (λ x. 0 + total_errors s ≤ total_errors x) (ended_injective e)
        (omega (arith, errors-pod_change name (fetched pods) s))
  pods_section-Adds name nothing_fetched s s' e = absurd cc
  pods_section-Adds name not_found s s' e = absurd cc
  pods_section-Adds name (fetch_error msg) s s' e = absurd cc

  either_section :
      (b : Bool) (name : String) (pods : Fetched (List Pod))
      → Adds 0 (λ s. if b then pods_section client name pods s else ended s)
  either_section true name pods s s' e = pods_section-Adds name pods s s' e
  either_section false name pods s s' e =
      subst (λ x. 0 + total_errors s ≤ total_errors x) (ended_injective e) (omega arith)

  optional_section-Adds :
      (name selector : String) → Adds 0 (λ s. optional_section client name selector s)
  unfolding optional_section
  optional_section-Adds name selector s s' e =
      let d = client.deployment name in
      let s1 : Status = set_disabled name name (is_disabled d) s in
      let s2 : Status =
        on_error (deployment_error d) (missing client name (has_state client name s)) s1 in
      omega (
        arith,
        errors-set_disabled name name (is_disabled d) s,
        errors-missing name (has_state client name s) d s1,
        either_section (has_state client name s) name (client.pods selector) s2 s' e,
      )

  pub optional_task-Adds :
      (name selector : String)
      → TaskAdds (fetched_errors (client.deployment name) + 0) (optional_task client name selector)
  optional_task-Adds name selector =
      two_sections (fetched_errors (client.deployment name)) 0 _ _ (deployment_section-Adds name)
        (optional_section-Adds name selector)

  errors-pod_count_change :
      (pods : Fetched (List Pod)) (endpoints : Fetched ℕ) (s : Status)
      → total_errors (pod_count_change pods endpoints s) ≡ total_errors s
  errors-pod_count_change (fetched pods) (fetched n) s = refl
  errors-pod_count_change (fetched pods) nothing_fetched s = refl
  errors-pod_count_change (fetched pods) not_found s = refl
  errors-pod_count_change (fetched pods) (fetch_error msg) s = refl
  errors-pod_count_change nothing_fetched (fetched n) s = refl
  errors-pod_count_change nothing_fetched nothing_fetched s = refl
  errors-pod_count_change nothing_fetched not_found s = refl
  errors-pod_count_change nothing_fetched (fetch_error msg) s = refl
  errors-pod_count_change not_found endpoints s = refl
  errors-pod_count_change (fetch_error msg) endpoints s = refl

  pub errors-collect :
      (issue : Option Issue) (s : Status) → total_errors (on_error issue collect s) ≡ total_errors s
  errors-collect none s = refl
  errors-collect (some issue) s = refl

  pub pod_count_task-Adds : TaskAdds (0 + 0) (pod_count_task client)
  pod_count_task-Adds =
      let error = first_error (count_error client.all_pods) (count_error client.cilium_endpoints) in
      two_sections 0 0 _ _
        (exactly 0 (pod_count_change client.all_pods client.cilium_endpoints)
          (λ s. omega (arith, errors-pod_count_change client.all_pods client.cilium_endpoints s)))
        (exactly 0 (on_error error collect) (λ s. omega (arith, errors-collect error s)))

  errors-parse :
      (pod : String) (answer : Answer) (s : Status)
      → total_errors (parse_status_response client.to_lower "cilium" pod answer s)
        ≡ answer_errors client.to_lower answer + total_errors s
  errors-parse pod (answered r) s =
      (errors-parse_status_response client.to_lower "cilium" pod r "" s).0
  errors-parse pod (not_answered msg) s =
      omega (arith, (errors-parse_status_response client.to_lower "cilium" pod no_response msg s).1)

  pub pod_task-Adds :
      (pod : Pod)
      → TaskAdds (answer_errors client.to_lower (agent_answer client pod)) (pod_task client pod)
  pod_task-Adds pod =
      let answer = agent_answer client pod in
      one_section (answer_errors client.to_lower answer) _ (λ s s' e.
        subst (λ x. answer_errors client.to_lower answer + total_errors s ≤ total_errors x)
          (ended_injective e) (omega (arith, errors-parse pod.name answer s)))
