-- ===== src/Install/Created.antt =====
-- install/install.go, install/certs.go and install/encryption.go: the later requests keep track of such
-- an object.
use cilium_cli.Install.Objects.{object_eq}
use cilium_cli.Prelude.{
  String, Option, none, some, List, Map, Bool, false, ◌==◌, string_eq, ◌≡◌, refl, inr,
  if◌then◌else◌,
}
use cilium_cli.Prelude.Acts.{◌>>◌}
use cilium_cli.Install.{encryption_ipsec}
use cilium_cli.Install.Objects.{Object, Api, Lawful, Reply, done, not_found, already_exists, failed}
use cilium_cli.Install.Manifests.{
  Named, Chart, Manifests, ingress_class, roles, role_bindings, node_init_daemon_set,
  needs_node_init, ingress_service, ingress_endpoint, agent_daemon_set, operator_deployment,
}
use cilium_cli.Install.Steps.{
  Variable, agent_role, operator_role, agent_binding, operator_binding, kind_of, delete_object,
  delete_held, Doing, nothing, giving_up, create_and_push, each_held,
}
use cilium_cli.Install.Cluster.{
  Setup, in_cluster, in_namespace, ours, create_ours, generate_config_map,
}
use cilium_cli.Install.Requests.{
  encryption_secret, create_key, create_encryption_secret, encryption, create_class, create_service,
  create_endpoint, ingress, create_secrets_namespace, create_role, create_roles, create_config_map,
  config_map_name, configure, create_node_init, create_workloads,
}
use cilium_cli.Install.Traced.{create_other-Traced, create_or_update-Traced, each_held-Traced}
use cilium_cli.Install.Preserved.{Conventional, IsTracked, other_kind}
use cilium_cli.Install.Phases.{either}
use cilium_cli.Install.Recorded.{
  Keep, own, rest, fails, follows, one_of, follow_ours, ours-Keep, in_cluster-Keep,
}
use cilium_cli.Install.Requests.{config_map_name}

module _ (api : Api) (law : Lawful api) (s0 : api.State) (p : Object) (chart : Chart)
    (env : Setup api chart) (tracked : IsTracked api chart env p) where
  abbrev Holding : Doing api → Type 0
  Holding = Keep api law s0 p chart env tracked

  holds : Holding (nothing api)
  holds = rest api law s0 p chart env tracked

  follow : (m n : Doing api) → Holding m → Holding n → Holding (m >> n)
  follow = follows api law s0 p chart env tracked

  choice : (b : Bool) (m n : Doing api) → Holding m → Holding n → Holding (if b then m else n)
  choice = one_of api law s0 p chart env tracked

  branch :
      (b : Bool) (m n : Doing api) → Holding m → Holding n → Holding (λ k. if b then m k else n k)
  branch = either api law s0 p chart env tracked

  itself : (o : Object) → Holding (create_and_push api o (delete_object o))
  itself = own api law s0 p chart env tracked

  failing : Holding (giving_up api)
  failing = fails api law s0 p chart env tracked

  new_key : Holding (create_key api chart env not_found)
  new_key =
      choice env.random_key
        (create_and_push api (encryption_secret api chart env)
          (delete_object (encryption_secret api chart env)))
        (giving_up api) (itself (encryption_secret api chart env)) failing

  create_key-Keep : (reply : Reply) → Holding (create_key api chart env reply)
  create_key-Keep done = holds
  create_key-Keep not_found = new_key
  create_key-Keep already_exists = new_key
  create_key-Keep failed = new_key

  pub encryption-Keep : Holding (encryption api chart env)
  unfolding encryption
  encryption-Keep k =
      branch (k.params.encryption == encryption_ipsec) (create_encryption_secret api chart env)
        (nothing api)
        (λ k'. create_key-Keep (api.get (encryption_secret api chart env) k'.cluster) k') holds k

  create_service-Keep : (service : Option Named) → Holding (create_service api chart env service)
  create_service-Keep none = holds
  create_service-Keep (some (namespace, name)) = itself (in_namespace "Service" namespace name)

  create_endpoint-Keep :
      (service endpoint : Option Named) → Holding (create_endpoint api chart env service endpoint)
  create_endpoint-Keep none none = holds
  create_endpoint-Keep (some service) none = holds
  create_endpoint-Keep none (some endpoint) = holds
  create_endpoint-Keep (some service) (some (namespace, name)) =
      create_other-Traced api law s0 p (in_namespace "Endpoints" service.0 name)
        (delete_object (in_namespace "Endpoints" namespace name))
        (other_kind (in_namespace "Endpoints" service.0 name) p tracked.no_endpoints)
        (inr (other_kind (in_namespace "Endpoints" namespace name) p tracked.no_endpoints, refl))

  create_class-Keep :
      (class : Option String)
      → ((name : String) → class ≡ some name → name ≡ "cilium")
      → Holding (create_class api chart env class)
  create_class-Keep none h = holds
  create_class-Keep (some name) h =
      in_cluster-Keep api law s0 p chart env tracked "IngressClass" name "cilium" (h name refl)

  pub create_secrets_namespace-Keep :
      (name : String) → Holding (create_secrets_namespace api chart env name)
  unfolding create_secrets_namespace
  create_secrets_namespace-Keep name =
      choice (name == "") (nothing api)
        (create_and_push api (in_cluster "Namespace" name)
          (delete_object (in_cluster "Namespace" name)))
        holds (itself (in_cluster "Namespace" name))

  -- `v` holds a kind of object that is not that of the object
  held_roles-Keep :
      (v : Variable) (names : List Named)
      → (kind_of v == p.kind) ≡ false
      → Holding (each_held api v (create_role api chart env v) names)
  held_roles-Keep v names other =
      each_held-Traced api law s0 p v (create_role api chart env v) names (λ named.
        create_or_update-Traced api law s0 p (in_namespace (kind_of v) named.0 named.1)
          (delete_held v) (other_kind (in_namespace (kind_of v) named.0 named.1) p other) tt)

  follow_roles :
      (v : Variable) (names : List Named)
      → (kind_of v == p.kind) ≡ false
      → (n : Doing api) → Holding n
      → Holding (each_held api v (create_role api chart env v) names >> n)
  follow_roles v names other n h =
      follow (each_held api v (create_role api chart env v) names) n (held_roles-Keep v names other)
        h

  pub create_roles-Keep : (m : Manifests chart) → Holding (create_roles api chart env m)
  unfolding create_roles
  create_roles-Keep m = follow_roles agent_role (roles chart m "cilium-secrets") tracked.no_role _ (
      follow_roles agent_binding (role_bindings chart m "cilium-secrets") tracked.no_role_binding _
        (follow_roles operator_role (roles chart m "cilium-operator-secrets") tracked.no_role
          (each_held api operator_binding (create_role api chart env operator_binding)
            (role_bindings chart m "cilium-operator-secrets"))
          (held_roles-Keep operator_binding (role_bindings chart m "cilium-operator-secrets")
            tracked.no_role_binding)))

  create_node_init-Keep : (m : Manifests chart) → Holding (create_node_init api chart env m)
  create_node_init-Keep m =
      choice (needs_node_init chart env.surroundings.flavor.kind)
        (create_ours api chart env "DaemonSet" (node_init_daemon_set chart m)
          (node_init_daemon_set chart m))
        (nothing api) (itself (ours api chart env "DaemonSet" (node_init_daemon_set chart m))) holds

  module _ (m : Manifests chart) (names : Conventional api chart env m) where
    pub ingress-Keep : Holding (ingress api chart env m)
    unfolding ingress
    ingress-Keep =
        follow (create_class api chart env (ingress_class chart m)) _
          (create_class-Keep (ingress_class chart m) names.class)
          (follow (create_service api chart env (ingress_service chart m)) _
            (create_service-Keep (ingress_service chart m))
            (create_endpoint-Keep (ingress_service chart m) (ingress_endpoint chart m)))

    create_config_map-Keep :
        (data_ : Option (Map String String)) → Holding (create_config_map api chart env m data_)
    create_config_map-Keep none = failing
    create_config_map-Keep (some data_) =
        ours-Keep api law s0 p chart env tracked "ConfigMap" (config_map_name api chart env m)
          "cilium-config" names.config_map

    pub configure-Keep : Holding (configure api chart env m)
    unfolding configure
    configure-Keep k = create_config_map-Keep (generate_config_map api chart env m k.params) k

    pub create_workloads-Keep : Holding (create_workloads api chart env m)
    unfolding create_workloads
    create_workloads-Keep = follow (create_node_init api chart env m) _ (create_node_init-Keep m) (
        follow_ours api law s0 p chart env tracked "DaemonSet" (agent_daemon_set chart m) "cilium"
          names.agent
          (create_ours api chart env "Deployment" (operator_deployment chart m) "cilium-operator")
          (ours-Keep api law s0 p chart env tracked "Deployment" (operator_deployment chart m)
            "cilium-operator" names.operator))
