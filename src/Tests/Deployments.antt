-- ===== src/Tests/Deployments.antt =====
-- The deployment on one cluster with several nodes, one of which is without Cilium, and on two clusters.
use cilium_cli.Prelude.{
  ◌≡◌, refl, List, [], ◌∷◌, All, Bool, true, false, ◌==◌, string_eq, some, none, if◌then◌else◌, any,
  arith, inr, String,
}
use cilium_cli.Install.Objects.{Object, object_eq, Api, done, not_found, already_exists, listed}
use cilium_cli.Status.Collect.{Workload, fetched, not_found as no_deployment}
use cilium_cli.Deployments.{
  Parameters, World, deploy, deploy_echo, deploy_other_node, deploy_without_cilium, ensure,
  ensure_deployment, ours,
}
use cilium_cli.Deployments.Kept.{Serving, HasAll}
use cilium_cli.Deployments.Waiting.{
  Snapshot, WasAvailable, wait_for_deployments, wait_for_deployments-WasAvailable,
}
use cilium_cli.Deployments.Listed.{wanted, deploy-HasAll}

abbrev holds : Object → List Object → Bool
holds o s = any (λ x. x == o) s

abbrev api : Api
api = record {
  State = List Object;
  Content = Unit {0};
  read = λ s. λ o. if holds o s then some tt else none;
  create = λ o. λ s. if holds o s then (s, already_exists) else (o ∷ s, done);
  unanswered = λ o. λ s. false;
  update = λ o. λ s. (s, done);
  patch = λ o. λ s. (s, done);
  delete = λ o. λ s. (s, not_found);
  get = λ o. λ s. if holds o s then done else not_found;
  list_pods = λ s. some [];
  list_endpoints = λ s. listed [];
}

api-Serving : Serving api
api-Serving = record {
  create_then_get = λ o. λ s. λ h. ground (arith, object_eq.same_iff o o);
  create_keeps = λ o. λ p. λ s. λ h. ground (arith, object_eq.same_iff o p);
}

abbrev parameters_for : String → Parameters
parameters_for multi = record {
  namespace = "cilium-test";
  force_deploy = false;
  perf = false;
  perf_host_net = false;
  single_node = false;
  multi_cluster = multi;
  node_without_cilium = true;
  ingress_controller = true;
  nodes_listed = true;
  patience = 3;
}

abbrev one : Parameters
one = parameters_for ""

abbrev two : Parameters
two = parameters_for "cluster2"

abbrev empty_world : World api one
empty_world = record { first = []; second = [] }

abbrev two_worlds : World api two
two_worlds = record { first = []; second = [] }

deploy_succeeds : (deploy api one empty_world).1 ≡ some tt
unfolding deploy deploy_echo deploy_other_node deploy_without_cilium ensure ensure_deployment
deploy_succeeds = refl

deploy-HasAll_example : HasAll api one (wanted one) (deploy api one empty_world).0
deploy-HasAll_example =
    deploy-HasAll api api-Serving one empty_world (inr (refl, refl, refl)) deploy_succeeds

-- on two clusters the deployment succeeds, but what is waited for in the second one is in the first
two_succeed : (deploy api two two_worlds).1 ≡ some tt
unfolding deploy deploy_echo deploy_other_node deploy_without_cilium ensure ensure_deployment
two_succeed = refl

external_missing :
    api.get (ours api two "Deployment" "echo-external-node") (deploy api two two_worlds).0.second
    ≡ not_found
unfolding deploy deploy_echo deploy_other_node deploy_without_cilium ensure ensure_deployment
external_missing = refl

-- a service account that an interrupted run has left makes the next run fail
abbrev interrupted : World api one
interrupted = record {
  first = record { kind = "ServiceAccount"; namespace = "cilium-test"; name = "client" } ∷ [];
  second = [];
}

retry_fails : (deploy api one interrupted).1 ≡ none
unfolding deploy deploy_echo deploy_other_node deploy_without_cilium ensure ensure_deployment
retry_fails = refl

abbrev available : Workload
available = record {
  desired = 1;
  ready = 1;
  available = 1;
  unavailable = 0;
  updated = 1;
  generation = 1;
  observed_generation = 1;
}

abbrev snapshots : List Snapshot
snapshots =
    (λ name. no_deployment)
    ∷ (λ name. if name == "client" then fetched available else no_deployment)
    ∷ (λ name. fetched available)
    ∷ []

wait_succeeds : wait_for_deployments ("client" ∷ "client2" ∷ []) snapshots ≡ true
unfolding wait_for_deployments
wait_succeeds = refl

wait_for_deployments-WasAvailable_example : All (WasAvailable snapshots) ("client" ∷ "client2" ∷ [])
wait_for_deployments-WasAvailable_example =
    wait_for_deployments-WasAvailable ("client" ∷ "client2" ∷ []) snapshots wait_succeeds
