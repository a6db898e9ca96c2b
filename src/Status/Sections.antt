-- ===== src/Status/Sections.antt =====
-- status/k8s.go: what the sections of the tasks add to the number of errors.
use cilium_cli.Prelude.{
  ℕ, ◌+◌, String, Option, none, some, List, [], ◌∷◌, Map, insert, Bool, true, false, not, ◌==◌,
  string_eq, nat_eq, if◌then◌else◌, ltb, ◌≡◌, refl, arith, subst, sym, ◌-◌,
}
use cilium_cli.Status.{
  Issue, Status, add_aggregated_error, add_aggregated_warning, total_errors, pods_not_ready,
  pods_not_available, rollout_not_started, rolling_out, pod_is_pending, pod_has_failed,
}
use cilium_cli.Status.Collect.{
  Pod, Workload, Fetched, fetched, nothing_fetched, not_found, fetch_error, add_if, workload_issues,
  state_count, record_workload, deployment_change, daemon_set_change, count_one, count_all,
  phase_change, pod_loop, pod_change,
}
use cilium_cli.Status.Tasks.{on_error, add_and_collect}
use cilium_cli.Status.Counting.{errors-add_aggregated_error, errors-add_aggregated_warning, one_if}

-- the errors of a workload: it has too few ready pods, its latest change was not seen yet, or it is not
-- rolled out
abbrev pub workload_errors : Workload → ℕ
workload_errors w =
    one_if (ltb w.ready w.desired)
    + one_if (not (w.generation == w.observed_generation))
    + one_if (ltb w.updated w.desired)

errors-add_if :
    (b : Bool) (name : String) (issue : Issue) (s : Status)
    → (total_errors (add_if b (add_aggregated_error name name issue) s) ≡ one_if b + total_errors s)
      × (total_errors (add_if b (add_aggregated_warning name name issue) s) ≡ total_errors s)
errors-add_if true name issue s = (
  omega (arith, errors-add_aggregated_error name name issue s),
  errors-add_aggregated_warning name name issue s,
)
errors-add_if false name issue s = (omega arith, refl)

errors-workload_issues :
    (name : String) (w : Workload) (s : Status)
    → total_errors (workload_issues name w s) ≡ workload_errors w + total_errors s
errors-workload_issues name w s =
    let not_ready = ltb w.ready w.desired in
    let s1 : Status =
      add_if not_ready (add_aggregated_error name name (pods_not_ready (w.desired - w.ready))) s in
    let s2 : Status =
      add_if (ltb w.desired (w.unavailable + w.ready))
        (add_aggregated_warning name name
          (pods_not_available (w.unavailable + w.ready - w.desired)))
        s1 in
    let s3 : Status =
      add_if (not (w.generation == w.observed_generation))
        (add_aggregated_error name name rollout_not_started) s2 in
    omega (
      arith,
      (errors-add_if not_ready name (pods_not_ready (w.desired - w.ready)) s).0,
      (errors-add_if (ltb w.desired (w.unavailable + w.ready)) name
          (pods_not_available (w.unavailable + w.ready - w.desired)) s1).1,
      (errors-add_if (not (w.generation == w.observed_generation)) name rollout_not_started s2).0,
      (errors-add_if (ltb w.updated w.desired) name (rolling_out w.updated w.desired) s3).0,
    )

pub errors-record_workload :
    (type_name name : String) (w : Workload) (s : Status)
    → total_errors (record_workload type_name name w s) ≡ workload_errors w + total_errors s
unfolding record_workload
errors-record_workload type_name name w s =
    errors-workload_issues name w
      (record s { pod_state = insert name (state_count type_name w) s.pod_state })

abbrev pub error_of : Option Issue → ℕ
error_of none = 0
error_of (some issue) = 1

pub errors-on_error :
    (name : String) (issue : Option Issue) (s : Status)
    → total_errors (on_error issue (add_and_collect name) s) ≡ error_of issue + total_errors s
errors-on_error name none s = omega arith
errors-on_error name (some issue) s = omega (arith, errors-add_aggregated_error name name issue s)

-- the errors that a workload accounts for, by the answer of the API
abbrev pub fetched_errors : Fetched Workload → ℕ
fetched_errors (fetched w) = workload_errors w
fetched_errors _ = 0

pub errors-deployment_change :
    (name : String) (d : Fetched Workload) (s : Status)
    → total_errors (deployment_change name d s) ≡ fetched_errors d + total_errors s
errors-deployment_change name (fetched w) s = errors-record_workload "Deployment" name w s
errors-deployment_change name nothing_fetched s = omega arith
errors-deployment_change name not_found s = omega arith
errors-deployment_change name (fetch_error msg) s = omega arith

pub errors-daemon_set_change :
    (name : String) (d : Fetched Workload) (s : Status)
    → total_errors (daemon_set_change name d s) ≡ fetched_errors d + total_errors s
errors-daemon_set_change name (fetched w) s = errors-record_workload "DaemonSet" name w s
errors-daemon_set_change name nothing_fetched s = omega arith
errors-daemon_set_change name not_found s = omega arith
errors-daemon_set_change name (fetch_error msg) s = omega arith

-- the pods that have failed
abbrev pub failed_pods : List Pod → ℕ
failed_pods [] = 0
failed_pods (pod ∷ pods) = one_if (pod.phase == "Failed") + failed_pods pods

pending_or_failed :
    (pending fails : Bool) (name pod : String) (failure : Issue) (s : Status)
    → (pending ≡ true → fails ≡ false)
    → total_errors (
        if pending
        then add_aggregated_warning name pod pod_is_pending s
        else if fails
        then add_aggregated_error name pod failure s
        else s)
      ≡ one_if fails + total_errors s
pending_or_failed true fails name pod failure s h =
    rw (h refl) (omega (arith, errors-add_aggregated_warning name pod pod_is_pending s))
pending_or_failed false true name pod failure s h =
    omega (arith, errors-add_aggregated_error name pod failure s)
pending_or_failed false false name pod failure s h = omega arith

pending_is_not_failed : (phase : String) → (phase == "Pending") ≡ true → (phase == "Failed") ≡ false
pending_is_not_failed phase h =
    subst (λ x. (x == "Failed") ≡ false) (sym ((string_eq.same_iff phase "Pending").0 h)) refl

errors-phase_change :
    (name : String) (pod : Pod) (s : Status)
    → total_errors (phase_change name pod s) ≡ one_if (pod.phase == "Failed") + total_errors s
errors-phase_change name pod s =
    pending_or_failed (pod.phase == "Pending") (pod.phase == "Failed") name pod.name
      (pod_has_failed pod.reason pod.message) s (pending_is_not_failed pod.phase)

pub errors-pod_loop :
    (name : String) (pods : List Pod) (phases images : Map String ℕ) (s : Status)
    → total_errors (pod_loop name pods phases images s) ≡ failed_pods pods + total_errors s
unfolding pod_loop
errors-pod_loop name [] phases images s = omega arith
errors-pod_loop name (pod ∷ pods) phases images s = omega (
  arith,
  errors-pod_loop name pods (count_one pod.phase phases) (count_all pod.images images)
      (phase_change name pod s),
  errors-phase_change name pod s,
)

abbrev pub listed_failures : Fetched (List Pod) → ℕ
listed_failures (fetched pods) = failed_pods pods
listed_failures _ = 0

pub errors-pod_change :
    (name : String) (pods : Fetched (List Pod)) (s : Status)
    → total_errors (pod_change name pods s) ≡ listed_failures pods + total_errors s
errors-pod_change name (fetched pods) s = errors-pod_loop name pods [] [] s
errors-pod_change name nothing_fetched s = omega arith
errors-pod_change name not_found s = omega arith
errors-pod_change name (fetch_error msg) s = omega arith
