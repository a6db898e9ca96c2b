-- ===== src/Install/Requests.antt =====
-- install/install.go, install/certs.go, install/encryption.go and internal/certs/certs.go: the
-- certificates and the objects that `Install` asks for.
use cilium_cli.Prelude.{
  String, Option, none, some, List, [], ◌∷◌, map, Bool, true, false, ◌==◌, string_eq, Map,
  if◌then◌else◌,
}
use cilium_cli.Prelude.Acts.{◌>>=◌, ◌>>◌}
use cilium_cli.Install.{encryption_ipsec}
use cilium_cli.Install.Objects.{Object, Api, Reply, done, not_found, already_exists, failed}
use cilium_cli.Install.Manifests.{
  Named, Chart, Manifests, agent_daemon_set, operator_deployment, node_init_daemon_set,
  service_account, cluster_role, cluster_role_binding, roles, role_bindings, resource_quotas,
  ingress_class, ingress_service, ingress_endpoint, needs_node_init, file_of,
}
use cilium_cli.Install.Steps.{
  Variable, quota_variable, agent_role, operator_role, agent_binding, operator_binding,
  delete_object, delete_held, Doing, nothing, giving_up, push_rollback_step, create_and_push,
  request, create_or_update_and_push, each_held, kind_of,
}
use cilium_cli.Install.Cluster.{
  Setup, in_cluster, in_namespace, ours, ca_secret, create_ours, create_in_cluster,
  generate_config_map,
}

module _ (api : Api) (chart : Chart) (env : Setup api chart) where
  open chart use {name_of}

  abbrev pub checked : Bool → Doing api
  checked true = nothing api
  checked false = giving_up api

  abbrev pub inherit_ca : Doing api
  inherit_ca k =
      if env.inherit_ca == ""
      then (k, some tt)
      else if env.inherited_ca
      then create_and_push api (ca_secret api chart env) (delete_object (ca_secret api chart env)) k
      else (k, none)

  abbrev pub create_ca : Doing api
  create_ca k =
      if env.ca_generated then request api api.create (ca_secret api chart env) k else (k, none)

  abbrev pub create_ca_if : Reply → Doing api
  create_ca_if done = nothing api
  create_ca_if not_found = create_ca
  create_ca_if already_exists = giving_up api
  create_ca_if failed = giving_up api

  -- `GetOrCreateCASecret`
  abbrev pub get_or_create_ca_secret : Doing api
  get_or_create_ca_secret k = create_ca_if (api.get (ca_secret api chart env) k.cluster) k

  -- a secret that cannot be loaded is deleted by the rollback, also where it was found
  abbrev pub load_ca : Doing api
  load_ca k =
      if env.ca_is_complete k.cluster
      then (k, some tt)
      else (push_rollback_step api (delete_object (ca_secret api chart env)) k, none)

  -- `installCerts`
  unfoldable pub install_certs : Doing api
  install_certs = do
    inherit_ca
    get_or_create_ca_secret
    load_ca
    checked env.certificate_generated
    create_ours api chart env "Secret" "hubble-server-certs" "hubble-server-certs"

  unfoldable pub label_nodes : List String → Doing api
  label_nodes [] = nothing api
  label_nodes (node ∷ nodes) =
      request api api.patch (in_cluster "Node" node) >>= λ _. label_nodes nodes

  abbrev pub create_quota : Named → Doing api
  create_quota (namespace, name) =
      create_and_push api (ours api chart env "ResourceQuota" name) (delete_held quota_variable)

  abbrev pub create_quotas : Manifests chart → Doing api
  create_quotas manifests =
      each_held api quota_variable create_quota
        (map (λ quota. (env.namespace, quota.1)) (resource_quotas chart manifests))

  unfoldable pub create_accounts : Manifests chart → Doing api
  create_accounts manifests = do
    create_ours api chart env "ServiceAccount" (service_account chart manifests "cilium") "cilium"
    create_ours api chart env "ServiceAccount" (service_account chart manifests "cilium-operator")
        "cilium-operator"

  unfoldable pub create_cluster_roles : Manifests chart → Doing api
  create_cluster_roles manifests = do
    create_in_cluster api chart env "ClusterRole" (cluster_role chart manifests "cilium") "cilium"
    create_in_cluster api chart env "ClusterRoleBinding"
        (cluster_role_binding chart manifests "cilium") "cilium"
    create_in_cluster api chart env "ClusterRole" (cluster_role chart manifests "cilium-operator")
        "cilium-operator"
    create_in_cluster api chart env "ClusterRoleBinding"
        (cluster_role_binding chart manifests "cilium-operator") "cilium-operator"

  abbrev pub encryption_secret : Object
  encryption_secret = ours api chart env "Secret" "cilium-ipsec-keys"

  abbrev pub create_key : Reply → Doing api
  create_key done = nothing api
  create_key _ =
      if env.random_key
      then create_and_push api encryption_secret (delete_object encryption_secret)
      else giving_up api

  -- `createEncryptionSecret`
  abbrev pub create_encryption_secret : Doing api
  create_encryption_secret k = create_key (api.get encryption_secret k.cluster) k

  unfoldable pub encryption : Doing api
  encryption k =
      if k.params.encryption == encryption_ipsec then create_encryption_secret k else (k, some tt)

  abbrev pub create_class : Option String → Doing api
  create_class none = nothing api
  create_class (some name) = create_in_cluster api chart env "IngressClass" name "cilium"

  abbrev pub create_service : Option Named → Doing api
  create_service none = nothing api
  create_service (some (namespace, name)) =
      create_and_push api (in_namespace "Service" namespace name)
        (delete_object (in_namespace "Service" namespace name))

  -- created in the namespace of the service, and deleted in its own, which is empty
  abbrev pub create_endpoint : Option Named → Option Named → Doing api
  create_endpoint _ none = nothing api
  create_endpoint none (some endpoint) = nothing api
  create_endpoint (some service) (some (namespace, name)) =
      create_and_push api (in_namespace "Endpoints" service.0 name)
        (delete_object (in_namespace "Endpoints" namespace name))

  unfoldable pub ingress : Manifests chart → Doing api
  ingress manifests = do
    create_class (ingress_class chart manifests)
    create_service (ingress_service chart manifests)
    create_endpoint (ingress_service chart manifests) (ingress_endpoint chart manifests)

  unfoldable pub create_secrets_namespace : String → Doing api
  create_secrets_namespace name =
      if name == ""
      then nothing api
      else create_and_push api (in_cluster "Namespace" name)
          (delete_object (in_cluster "Namespace" name))

  abbrev pub create_role : Variable → Named → Doing api
  create_role v (namespace, name) =
      create_or_update_and_push api (in_namespace (kind_of v) namespace name) (delete_held v)

  unfoldable pub create_roles : Manifests chart → Doing api
  create_roles manifests = do
    each_held api agent_role (create_role agent_role) (roles chart manifests "cilium-secrets")
    each_held api agent_binding (create_role agent_binding)
        (role_bindings chart manifests "cilium-secrets")
    each_held api operator_role (create_role operator_role)
        (roles chart manifests "cilium-operator-secrets")
    each_held api operator_binding (create_role operator_binding)
        (role_bindings chart manifests "cilium-operator-secrets")

  abbrev pub config_map_name : Manifests chart → String
  config_map_name manifests = name_of (file_of chart manifests "templates/cilium-configmap.yaml")

  abbrev pub create_config_map : Manifests chart → Option (Map String String) → Doing api
  create_config_map manifests none = giving_up api
  create_config_map manifests (some data_) =
      create_ours api chart env "ConfigMap" (config_map_name manifests) "cilium-config"

  unfoldable pub configure : Manifests chart → Doing api
  configure manifests k =
      create_config_map manifests (generate_config_map api chart env manifests k.params) k

  abbrev pub create_node_init : Manifests chart → Doing api
  create_node_init manifests =
      if needs_node_init chart env.surroundings.flavor.kind
      then create_ours api chart env "DaemonSet" (node_init_daemon_set chart manifests)
          (node_init_daemon_set chart manifests)
      else nothing api

  unfoldable pub create_workloads : Manifests chart → Doing api
  create_workloads manifests = do
    create_node_init manifests
    create_ours api chart env "DaemonSet" (agent_daemon_set chart manifests) "cilium"
    create_ours api chart env "Deployment" (operator_deployment chart manifests) "cilium-operator"
