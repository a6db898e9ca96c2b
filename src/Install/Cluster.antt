-- ===== src/Install/Cluster.antt =====
-- install/install.go, install/certs.go, install/encryption.go and install/azure.go: `Install`, the
-- installation that creates the objects of Cilium one after the other.
use cilium_cli.Prelude.{
  String, Option, none, some, List, [], ◌∷◌, Bool, not, ◌&&◌, ◌==◌, string_eq, Map, get_or, insert,
  if◌then◌else◌,
}
use cilium_cli.Prelude.Acts.{◌>>=◌}
use cilium_cli.Install.{
  Kind, kind_unknown, kind_minikube, kind_kind, kind_eks, kind_gke, kind_aks, kind_microk8s,
  kind_rancher_desktop, kind_k3s, Parameters, Surroundings, datapath_aws_eni, datapath_gke,
  datapath_azure,
}
use cilium_cli.Install.Autodetect.{autodetect_and_validate}
use cilium_cli.Install.Azure.{azure_setup_service_principal}
use cilium_cli.Install.Objects.{Object, Api, Reply, done, not_found, already_exists, failed}
use cilium_cli.Install.Manifests.{Chart, Manifests, file_of}
use cilium_cli.Install.Steps.{
  delete_object, Installer, Doing, nothing, giving_up, create_and_push, request,
}

-- The parameters of the installation and what the code outside answers: whether the versions could be
-- listed, whether the values of Helm set the native CIDR and what gcloud says it is, the rendered
-- chart, the secret of the other cluster, the generated keys and certificates, whether the CA's secret
-- has a key and a certificate, and whether Cilium becomes ready in time.
pub record Setup (api : Api) (chart : Chart) : Type 0 where
  pub surroundings : Surroundings
  pub list_versions : Bool
  pub versions_listed : Bool
  pub namespace : String
  pub helm_values_secret_name : String
  pub helm_gen_values_file : String
  pub helm_values_set_cidr : Option Bool
  pub gke_native_routing_cidr : Option String
  pub rendered : Parameters → String → Option (Manifests chart)
  pub config_overwrites : Map String String
  pub inherit_ca : String
  pub inherited_ca : Bool
  pub ca_generated : Bool
  pub ca_is_complete : api.State → Bool
  pub certificate_generated : Bool
  pub random_key : Bool
  pub nodes_without_cilium : List String
  pub wait : Bool
  pub restart_unmanaged_pods : Bool
  pub becomes_ready : api.State → Bool
  pub rollback : Bool

abbrev pub in_cluster : String → String → Object
in_cluster kind name = record { kind = kind; namespace = ""; name = name }

abbrev pub in_namespace : String → String → String → Object
in_namespace kind namespace name = record { kind = kind; namespace = namespace; name = name }

abbrev pub aws_node : Object
aws_node = in_namespace "DaemonSet" "kube-system" "aws-node"

module _ (api : Api) (chart : Chart) (env : Setup api chart) where
  open chart use {in_range, name_of, data_of}

  abbrev pub ours : String → String → Object
  ours kind name = in_namespace kind env.namespace name

  abbrev pub ca_secret : Object
  ca_secret = ours "Secret" "cilium-ca"

  -- an object of the installer's namespace is created, and deleted under the name that it is to have
  abbrev pub create_ours : String → String → String → Doing api
  create_ours kind created name =
      create_and_push api (ours kind created) (delete_object (ours kind name))

  abbrev pub create_in_cluster : String → String → String → Doing api
  create_in_cluster kind created name =
      create_and_push api (in_cluster kind created) (delete_object (in_cluster kind name))

  -- `k.params` after an operation on it
  abbrev pub on_params :
      (Parameters → Parameters × Option (Unit {0}))
      → Installer api
      → Installer api × Option (Unit {0})
  on_params operation k =
      let (params, result) = operation k.params in (record k { params = params }, result)

  abbrev pub set_cidr : Option String → Doing api
  set_cidr none = giving_up api
  set_cidr (some cidr) = λ k. (record k { native_routing_cidr = cidr }, some tt)

  abbrev pub gke_cidr : Option Bool → Doing api
  gke_cidr none = giving_up api
  gke_cidr (some set) = λ k.
      if (k.native_routing_cidr == "") && not set
      then set_cidr env.gke_native_routing_cidr k
      else (k, some tt)

  abbrev pub service_principal : Doing api
  service_principal k =
      if k.params.datapath_mode == datapath_azure
      then on_params (azure_setup_service_principal env.surroundings) k
      else (k, some tt)

  abbrev pub preinstall_kind : Kind → Doing api
  preinstall_kind kind_gke = gke_cidr env.helm_values_set_cidr
  preinstall_kind kind_aks = service_principal
  preinstall_kind kind_unknown = nothing api
  preinstall_kind kind_minikube = nothing api
  preinstall_kind kind_kind = nothing api
  preinstall_kind kind_eks = nothing api
  preinstall_kind kind_microk8s = nothing api
  preinstall_kind kind_rancher_desktop = nothing api
  preinstall_kind kind_k3s = nothing api

  -- `preinstall`
  unfoldable pub preinstall : Doing api
  preinstall = on_params (autodetect_and_validate env.surroundings) >>= λ _.
      preinstall_kind env.surroundings.flavor.kind

  abbrev pub helm_secret : Object
  helm_secret = ours "Secret" env.helm_values_secret_name

  abbrev pub store_if : Reply → Doing api
  store_if done = request api api.update helm_secret
  store_if not_found = request api api.create helm_secret
  store_if already_exists = request api api.create helm_secret
  store_if failed = request api api.create helm_secret

  unfoldable pub store_helm_values : Doing api
  store_helm_values k = store_if (api.get helm_secret k.cluster) k

  abbrev pub overwrite : Map String String → Map String String → Map String String
  overwrite [] data_ = data_
  overwrite ((key, value) ∷ more) data_ = overwrite more (insert key value data_)

  abbrev pub config_file : Manifests chart → Option (Map String String)
  config_file manifests =
      if in_range ">=1.9.0"
      then some (
          overwrite env.config_overwrites
            (data_of (file_of chart manifests "templates/cilium-configmap.yaml")))
      else none

  -- what `install-no-conntrack-iptables-rules` asks for
  abbrev pub allows_no_conntrack : Parameters → Map String String → Bool
  allows_no_conntrack params data_ =
      not (params.datapath_mode == datapath_aws_eni)
      && not (params.datapath_mode == datapath_gke)
      && not (params.datapath_mode == datapath_azure)
      && (get_or "" "tunnel" data_ == "disabled")
      && (get_or "" "kube-proxy-replacement" data_ == "strict")
      && (get_or "" "enable-bpf-masquerade" data_ == "true")
      && (get_or "" "cni-chaining-mode" data_ == "")

  abbrev pub check_config : Parameters → Option (Map String String) → Option (Map String String)
  check_config params none = none
  check_config params (some data_) =
      if get_or "" "install-no-conntrack-iptables-rules" data_ == "true"
      then (if allows_no_conntrack params data_ then some data_ else none)
      else some data_

  -- `generateConfigMap`, the data of what it returns
  unfoldable pub generate_config_map : Manifests chart → Parameters → Option (Map String String)
  generate_config_map manifests params = check_config params (config_file manifests)

  abbrev pub evict_aws_node : Reply → Doing api
  evict_aws_node done = request api api.patch aws_node
  evict_aws_node not_found = nothing api
  evict_aws_node already_exists = nothing api
  evict_aws_node failed = nothing api

  abbrev pub unless_chained : Option (Map String String) → Doing api
  unless_chained none = giving_up api
  unless_chained (some data_) = λ k.
      if get_or "" "cni-chaining-mode" data_ == "aws-cni"
      then (k, some tt)
      else evict_aws_node (api.get aws_node k.cluster) k

  abbrev pub create_aks_secret : Manifests chart → Reply → Doing api
  create_aks_secret manifests done = nothing api
  create_aks_secret manifests _ =
      if in_range ">=1.12.0"
      then create_ours "Secret"
          (name_of (file_of chart manifests "templates/cilium-operator/secret.yaml")) "cilium-azure"
      else giving_up api

  -- `createAKSSecrets`
  unfoldable pub create_aks_secrets : Manifests chart → Doing api
  create_aks_secrets manifests k =
      create_aks_secret manifests (api.get (ours "Secret" "cilium-azure") k.cluster) k

  abbrev pub prepare_aks : Manifests chart → Doing api
  prepare_aks manifests k =
      if (k.params.datapath_mode == datapath_azure) && in_range ">=1.12.0"
      then create_aks_secrets manifests k
      else (k, some tt)

  unfoldable pub prepare_kind : Manifests chart → Kind → Doing api
  prepare_kind manifests kind_eks = λ k. unless_chained (generate_config_map manifests k.params) k
  prepare_kind manifests kind_aks = prepare_aks manifests
  prepare_kind manifests kind_gke = nothing api
  prepare_kind manifests kind_unknown = nothing api
  prepare_kind manifests kind_minikube = nothing api
  prepare_kind manifests kind_kind = nothing api
  prepare_kind manifests kind_microk8s = nothing api
  prepare_kind manifests kind_rancher_desktop = nothing api
  prepare_kind manifests kind_k3s = nothing api
