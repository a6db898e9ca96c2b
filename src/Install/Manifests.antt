-- ===== src/Install/Manifests.antt =====
-- install/install.go, install/rbac.go and install/node_init.go: the objects that the rendered chart
-- describes, each under the file that the version of the chart has it in.
use cilium_cli.Prelude.{
  String, Option, none, some, List, [], Bool, true, false, ◌==◌, string_eq, Map, lookup,
  if◌then◌else◌,
}
use cilium_cli.Install.{
  Kind, kind_unknown, kind_minikube, kind_kind, kind_eks, kind_gke, kind_aks, kind_microk8s,
  kind_rancher_desktop, kind_k3s,
}

-- a namespace and a name in it
abbrev pub Named : Type 0
Named = String × String

-- The chart: what `versioncheck` answers of its version, and what the rendered files hold.
-- `name_of` and its like read YAML, an empty one where the file is missing.
pub record Chart : Type 1 where
  pub Yaml : Type 0
  pub empty_yaml : Yaml
  pub in_range : String → Bool
  pub name_of : Yaml → String
  pub namespace_of : Yaml → String
  pub names_of : Yaml → List Named
  pub data_of : Yaml → Map String String

module _ (chart : Chart) where
  open chart use {Yaml, empty_yaml, in_range, name_of, namespace_of, names_of, data_of}

  abbrev pub Manifests : Type 0
  Manifests = Map String Yaml

  -- `k.manifests[file]`
  abbrev pub file_of : Manifests → String → Yaml
  file_of manifests file = elim (lookup file manifests) [ none ↦ empty_yaml | some yaml ↦ yaml ]

  abbrev pub since_1_11 : String → String → String
  since_1_11 new old = if in_range ">1.10.99" then new else if in_range ">=1.9.0" then old else ""

  -- `generateAgentDaemonSet`, the name of what it returns
  abbrev pub agent_daemon_set : Manifests → String
  agent_daemon_set manifests = name_of (
      file_of manifests (
        since_1_11 "templates/cilium-agent/daemonset.yaml" "templates/cilium-agent-daemonset.yaml"))

  -- `generateOperatorDeployment`
  abbrev pub operator_deployment : Manifests → String
  operator_deployment manifests = name_of (
      file_of manifests (
        since_1_11 "templates/cilium-operator/deployment.yaml"
          "templates/cilium-operator-deployment.yaml"))

  -- `generateNodeInitDaemonSet`
  abbrev pub node_init_daemon_set : Manifests → String
  node_init_daemon_set manifests = name_of (
      file_of manifests (
        since_1_11 "templates/cilium-nodeinit/daemonset.yaml"
          "templates/cilium-nodeinit-daemonset.yaml"))

  abbrev pub agent_or_operator : String → String → String → String → String → String
  agent_or_operator agent operator agent_file operator_file name =
      if name == agent then agent_file else if name == operator then operator_file else ""

  -- `NewServiceAccount`
  abbrev pub service_account : Manifests → String → String
  service_account manifests name = name_of (
      file_of manifests (
        since_1_11
          (agent_or_operator "cilium" "cilium-operator" "templates/cilium-agent/serviceaccount.yaml"
            "templates/cilium-operator/serviceaccount.yaml" name)
          (agent_or_operator "cilium" "cilium-operator" "templates/cilium-agent-serviceaccount.yaml"
            "templates/cilium-operator-serviceaccount.yaml" name)))

  -- `NewClusterRole`
  abbrev pub cluster_role : Manifests → String → String
  cluster_role manifests name = name_of (
      file_of manifests (
        since_1_11
          (agent_or_operator "cilium" "cilium-operator" "templates/cilium-agent/clusterrole.yaml"
            "templates/cilium-operator/clusterrole.yaml" name)
          (agent_or_operator "cilium" "cilium-operator" "templates/cilium-agent-clusterrole.yaml"
            "templates/cilium-operator-clusterrole.yaml" name)))

  -- `NewClusterRoleBinding`
  abbrev pub cluster_role_binding : Manifests → String → String
  cluster_role_binding manifests name = name_of (
      file_of manifests (
        since_1_11
          (agent_or_operator "cilium" "cilium-operator"
            "templates/cilium-agent/clusterrolebinding.yaml"
            "templates/cilium-operator/clusterrolebinding.yaml" name)
          (agent_or_operator "cilium" "cilium-operator"
            "templates/cilium-agent-clusterrolebinding.yaml"
            "templates/cilium-operator-clusterrolebinding.yaml" name)))

  abbrev pub names_in : Manifests → String → List Named
  names_in manifests file = elim (lookup file manifests) [ none ↦ [] | some yaml ↦ names_of yaml ]

  -- `NewRole`
  abbrev pub roles : Manifests → String → List Named
  roles manifests name = names_in manifests (
      if in_range ">1.11.99"
      then agent_or_operator "cilium-secrets" "cilium-operator-secrets"
          "templates/cilium-agent/role.yaml" "templates/cilium-operator/role.yaml" name
      else "")

  -- `NewRoleBinding`
  abbrev pub role_bindings : Manifests → String → List Named
  role_bindings manifests name = names_in manifests (
      if in_range ">1.11.99"
      then agent_or_operator "cilium-secrets" "cilium-operator-secrets"
          "templates/cilium-agent/rolebinding.yaml" "templates/cilium-operator/rolebinding.yaml"
          name
      else "")

  -- `generateResourceQuotas`
  abbrev pub resource_quotas : Manifests → List Named
  resource_quotas manifests = names_in manifests "templates/cilium-resource-quota.yaml"

  -- `generateIngressClass`
  abbrev pub ingress_class : Manifests → Option String
  ingress_class manifests =
      elim (lookup (if in_range ">=1.12.0" then "templates/cilium-ingress-class.yaml" else "")
        manifests) [ none ↦ none | some yaml ↦ some (name_of yaml) ]

  abbrev pub ingress_file : String
  ingress_file = if in_range ">=1.13.0" then "templates/cilium-ingress-service.yaml" else ""

  -- `generateIngressService`
  abbrev pub ingress_service : Manifests → Option Named
  ingress_service manifests = elim (lookup ingress_file manifests) [
    | none ↦ none
    | some yaml ↦ some (namespace_of yaml, name_of yaml)
  ]

  -- `generateIngressEndpoint`, which has a name and no namespace
  abbrev pub ingress_endpoint : Manifests → Option Named
  ingress_endpoint manifests = elim (lookup ingress_file manifests) [
    | none ↦ none
    | some yaml ↦ some ("", "cilium-ingress")
  ]

  -- `getSecretNamespace`
  abbrev pub secret_namespace : Manifests → String
  secret_namespace manifests =
      elim (lookup (if in_range ">1.11.99" then "templates/cilium-secrets-namespace.yaml" else "")
        manifests) [ none ↦ "" | some yaml ↦ name_of yaml ]

  -- `needsNodeInit`
  abbrev pub needs_node_init : Kind → Bool
  needs_node_init kind_aks = true
  needs_node_init kind_gke = true
  needs_node_init kind_eks = in_range "<=1.13.1"
  needs_node_init kind_unknown = false
  needs_node_init kind_minikube = false
  needs_node_init kind_kind = false
  needs_node_init kind_microk8s = false
  needs_node_init kind_rancher_desktop = false
  needs_node_init kind_k3s = false
