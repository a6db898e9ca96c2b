-- ===== src/Deployments.antt =====
-- connectivity/check/deployment.go: `deploy`, which creates what the tests run against, the list of the
-- deployments that are waited for, and the wait.
pub mod Kept
pub mod Made
pub mod Waiting
pub mod Listed
use cilium_cli.Prelude.{
  ℕ, zero, suc, String, Option, none, some, List, [], ◌∷◌, ◌++◌, Bool, true, false, not, ◌&&◌, ◌||◌,
  ◌==◌, string_eq, if◌then◌else◌,
}
use cilium_cli.Prelude.Acts.{Act, ◌>>=◌, ◌>>◌}
use cilium_cli.Install.Objects.{Object, Api, Reply, done, not_found, already_exists, failed}

-- The parameters of the tests that `deploy` reads, the features that it asks for, and whether the nodes
-- could be listed. `patience` bounds the wait for a namespace to disappear, which the source does not.
pub record Parameters : Type 0 where
  pub namespace : String
  pub force_deploy : Bool
  pub perf : Bool
  pub perf_host_net : Bool
  pub single_node : Bool
  pub multi_cluster : String
  pub node_without_cilium : Bool
  pub ingress_controller : Bool
  pub nodes_listed : Bool
  pub patience : ℕ

-- the two clients, which reach one cluster unless there are several
pub data Client : Type 0 where
  src_client dst_client : Client

abbrev pub is_multi : Parameters → Bool
is_multi k = not (k.multi_cluster == "")

-- `newPerfDeploymentNameManager`, `ClientName`, `ServerName` and `ClientAcrossName`
abbrev pub perf_client : Parameters → String
perf_client k = if k.perf_host_net then "perf-client-host-net" else "perf-client"

abbrev pub perf_server : Parameters → String
perf_server k = if k.perf_host_net then "perf-server-host-net" else "perf-server"

abbrev pub perf_client_across : Parameters → String
perf_client_across k =
    if k.perf_host_net then "perf-client-other-node-host-net" else "perf-client-other-node"

-- `deploymentList`: the deployments of either client
abbrev pub src_list : Parameters → List String
src_list k =
    if not k.perf
    then "client" ∷ "client2" ∷ "echo-same-node" ∷ []
    else perf_client k ∷ perf_server k ∷ (if k.single_node then [] else perf_client_across k ∷ [])

abbrev pub dst_list : Parameters → List String
dst_list k =
    (if (is_multi k || not k.single_node) && not k.perf then "echo-other-node" ∷ [] else [])
    ++ (if k.node_without_cilium then "echo-external-node" ∷ [] else [])

module _ (api : Api) (k : Parameters) where
  -- the second cluster is there only where there are several
  pub record World : Type 0 where
    pub first : api.State
    pub second : api.State

  abbrev pub Doing : Type 0
  Doing = Act World (Unit {0})

  abbrev pub ok : Doing
  ok w = (w, some tt)

  abbrev pub reaches_first : Client → Bool
  reaches_first src_client = true
  reaches_first dst_client = not (is_multi k)

  abbrev pub at : Bool → World → api.State
  at true w = w.first
  at false w = w.second

  abbrev pub put : Bool → api.State → World → World
  put true s w = record w { first = s }
  put false s w = record w { second = s }

  abbrev pub cluster : Client → World → api.State
  cluster client w = at (reaches_first client) w

  abbrev pub set_cluster : Client → api.State → World → World
  set_cluster client s w = put (reaches_first client) s w

  abbrev pub succeeds : Reply → Option (Unit {0})
  succeeds done = some tt
  succeeds _ = none

  abbrev pub create : Client → Object → Doing
  create client o w =
      let (s, reply) = api.create o (cluster client w) in (set_cluster client s w, succeeds reply)

  abbrev pub ours : String → String → Object
  ours kind name = record { kind = kind; namespace = k.namespace; name = name }

  abbrev pub namespace_object : Object
  namespace_object = record { kind = "Namespace"; namespace = ""; name = k.namespace }

  abbrev pub is_done : Reply → Bool
  is_done done = true
  is_done _ = false

  -- an object that the API does not give is created by `act`
  abbrev pub unless_there : Client → Object → Doing → Doing
  unless_there client o act w =
      if is_done (api.get o (cluster client w)) then (w, some tt) else act w

  unfoldable pub ensure : Client → Object → Doing
  ensure client o = unless_there client o (create client o)

  -- a deployment, which has a service account of its name
  unfoldable pub ensure_deployment : Client → String → Doing
  ensure_deployment client name =
      unless_there client (ours "Deployment" name)
        (create client (ours "ServiceAccount" name) >> create client (ours "Deployment" name))

  abbrev pub when : Bool → Doing → Doing
  when condition act w = if condition then act w else (w, some tt)

  -- the error of a deletion is dropped
  abbrev pub delete : Client → Object → World → World
  delete client o w = set_cluster client (api.delete o (cluster client w)).0 w

  unfoldable pub delete_objects : Client → List Object → World → World
  delete_objects client [] w = w
  delete_objects client (o ∷ objects) w = delete_objects client objects (delete client o w)

  -- the wait until the namespace cannot be got, `none` where the patience is at its end
  unfoldable pub wait_gone : ℕ → Client → Doing
  wait_gone zero client w =
      if is_done (api.get namespace_object (cluster client w)) then (w, none) else (w, some tt)
  wait_gone (suc n) client w =
      let rest = wait_gone n client (delete client namespace_object w) in
      if is_done (api.get namespace_object (cluster client w)) then rest else (w, some tt)

  -- `deleteDeployments`
  unfoldable pub delete_deployments : Client → Doing
  delete_deployments client w = wait_gone k.patience client (
      delete_objects client
        (ours "Deployment" "echo-same-node"
          ∷ ours "Deployment" "echo-other-node"
          ∷ ours "Deployment" "client"
          ∷ ours "Deployment" "client2"
          ∷ ours "ServiceAccount" "echo-same-node"
          ∷ ours "ServiceAccount" "echo-other-node"
          ∷ ours "ServiceAccount" "client"
          ∷ ours "ServiceAccount" "client2"
          ∷ ours "Service" "echo-same-node"
          ∷ ours "Service" "echo-other-node"
          ∷ ours "ConfigMap" "coredns-configmap"
          ∷ namespace_object
          ∷ [])
        w)

  abbrev pub check_nodes : Doing
  check_nodes w = if k.nodes_listed then (w, some tt) else (w, none)

  -- the deployments for a performance test
  unfoldable pub deploy_perf : Doing
  deploy_perf = do
    check_nodes
    ensure_deployment src_client (perf_client k)
    ensure_deployment src_client (perf_server k)
    when (not k.single_node) (ensure_deployment src_client (perf_client_across k))

  unfoldable pub deploy_without_cilium : Doing
  deploy_without_cilium = do
    ensure src_client (ours "DaemonSet" "host-netns")
    ensure_deployment src_client "echo-external-node"

  unfoldable pub deploy_other_node : Doing
  deploy_other_node = do
    ensure dst_client (ours "Service" "echo-other-node")
    ensure_deployment dst_client "echo-other-node"
    when k.node_without_cilium deploy_without_cilium

  -- what is deployed for the other tests
  unfoldable pub deploy_echo : Doing
  deploy_echo = do
    when (is_multi k) (when k.force_deploy (delete_deployments dst_client))
    when (is_multi k) (ensure dst_client namespace_object)
    ensure src_client (ours "Service" "echo-same-node")
    when (is_multi k) (ensure src_client (ours "Service" "echo-other-node"))
    ensure src_client (ours "ConfigMap" "coredns-configmap")
    when (is_multi k) (ensure dst_client (ours "ConfigMap" "coredns-configmap"))
    ensure_deployment src_client "echo-same-node"
    ensure_deployment src_client "client"
    ensure_deployment src_client "client2"
    when (not k.single_node || is_multi k) deploy_other_node
    when k.ingress_controller (ensure src_client (ours "Ingress" "ingress-service"))

  -- `deploy`
  unfoldable pub deploy : Doing
  deploy = do
    when k.force_deploy (delete_deployments src_client)
    ensure src_client namespace_object
    if k.perf then deploy_perf else deploy_echo
