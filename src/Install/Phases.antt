-- ===== src/Install/Phases.antt =====
-- install/install.go, install/certs.go, install/encryption.go and install/azure.go: each part of
-- `Install` keeps track of such an object.
use cilium_cli.Prelude.{
  String, Option, none, some, Map, Bool, true, false, not, ◌&&◌, ◌==◌, string_eq, ◌≡◌, refl,
  if◌then◌else◌, get_or,
}
use cilium_cli.Prelude.Acts.{◌>>◌}
use cilium_cli.Install.{
  Kind, kind_unknown, kind_minikube, kind_kind, kind_eks, kind_gke, kind_aks, kind_microk8s,
  kind_rancher_desktop, kind_k3s, Parameters, datapath_azure,
}
use cilium_cli.Install.Autodetect.{autodetect_and_validate}
use cilium_cli.Install.Azure.{azure_setup_service_principal}
use cilium_cli.Install.Objects.{Object, Api, Lawful, Reply, done, not_found, already_exists, failed}
use cilium_cli.Install.Manifests.{Chart, Manifests, file_of}
use cilium_cli.Install.Steps.{Doing, nothing, giving_up, request}
use cilium_cli.Install.Cluster.{
  Setup, aws_node, ours, helm_secret, create_ours, on_params, set_cidr, gke_cidr, service_principal,
  preinstall_kind, preinstall, store_if, store_helm_values, generate_config_map, evict_aws_node,
  unless_chained, create_aks_secret, create_aks_secrets, prepare_aks, prepare_kind,
}
use cilium_cli.Install.Traced.{request-Traced}
use cilium_cli.Install.Preserved.{
  IsTracked, Keeps, then-Keeps, nothing-Keeps, giving_up-Keeps, if-Keeps, ours-Keeps,
}

module _ (api : Api) (law : Lawful api) (s0 : api.State) (p : Object) (chart : Chart)
    (env : Setup api chart) (tracked : IsTracked api chart env p) where
  abbrev pub Keeping : Doing api → Type 0
  Keeping = Keeps api law s0 p

  pub idle : Keeping (nothing api)
  idle = nothing-Keeps api law s0 p

  pub stops : Keeping (giving_up api)
  stops = giving_up-Keeps api law s0 p

  pub both : (m n : Doing api) → Keeping m → Keeping n → Keeping (m >> n)
  both = then-Keeps api law s0 p

  pub either :
      (b : Bool) (m n : Doing api) → Keeping m → Keeping n → Keeping (λ k. if b then m k else n k)
  either = if-Keeps api law s0 p

  pub choose : (b : Bool) (m n : Doing api) → Keeping m → Keeping n → Keeping (if b then m else n)
  choose true m n h h' = h
  choose false m n h h' = h'

  set_cidr-Keeps : (cidr : Option String) → Keeping (set_cidr api chart env cidr)
  set_cidr-Keeps none k t = t
  set_cidr-Keeps (some cidr) k t = t

  gke_cidr-Keeps : (set : Option Bool) → Keeping (gke_cidr api chart env set)
  gke_cidr-Keeps none k = stops k
  gke_cidr-Keeps (some set) k =
      either ((k.native_routing_cidr == "") && not set)
        (set_cidr api chart env env.gke_native_routing_cidr) (nothing api)
        (set_cidr-Keeps env.gke_native_routing_cidr) idle k

  on_params-Keeps :
      (operation : Parameters → Parameters × Option (Unit {0}))
      → Keeping (on_params api chart env operation)
  on_params-Keeps operation k t = t

  service_principal-Keeps : Keeping (service_principal api chart env)
  service_principal-Keeps k =
      either (k.params.datapath_mode == datapath_azure)
        (on_params api chart env (azure_setup_service_principal env.surroundings)) (nothing api)
        (on_params-Keeps (azure_setup_service_principal env.surroundings)) idle k

  preinstall_kind-Keeps : (kind : Kind) → Keeping (preinstall_kind api chart env kind)
  preinstall_kind-Keeps kind_gke = gke_cidr-Keeps env.helm_values_set_cidr
  preinstall_kind-Keeps kind_aks = service_principal-Keeps
  preinstall_kind-Keeps kind_unknown = idle
  preinstall_kind-Keeps kind_minikube = idle
  preinstall_kind-Keeps kind_kind = idle
  preinstall_kind-Keeps kind_eks = idle
  preinstall_kind-Keeps kind_microk8s = idle
  preinstall_kind-Keeps kind_rancher_desktop = idle
  preinstall_kind-Keeps kind_k3s = idle

  pub preinstall-Keeps : Keeping (preinstall api chart env)
  unfolding preinstall
  preinstall-Keeps =
      both (on_params api chart env (autodetect_and_validate env.surroundings))
        (preinstall_kind api chart env env.surroundings.flavor.kind)
        (on_params-Keeps (autodetect_and_validate env.surroundings))
        (preinstall_kind-Keeps env.surroundings.flavor.kind)

  create_helm-Keeps : Keeping (request api api.create (helm_secret api chart env))
  create_helm-Keeps =
      request-Traced api law s0 p api.create (helm_secret api chart env)
        (λ s. law.create_others (helm_secret api chart env) p s tracked.not_helm_secret)

  store_if-Keeps : (reply : Reply) → Keeping (store_if api chart env reply)
  store_if-Keeps done =
      request-Traced api law s0 p api.update (helm_secret api chart env)
        (λ s. law.update_others (helm_secret api chart env) p s tracked.not_helm_secret)
  store_if-Keeps not_found = create_helm-Keeps
  store_if-Keeps already_exists = create_helm-Keeps
  store_if-Keeps failed = create_helm-Keeps

  pub store_helm_values-Keeps : Keeping (store_helm_values api chart env)
  unfolding store_helm_values
  store_helm_values-Keeps k = store_if-Keeps (api.get (helm_secret api chart env) k.cluster) k

  evict_aws_node-Keeps : (reply : Reply) → Keeping (evict_aws_node api chart env reply)
  evict_aws_node-Keeps done =
      request-Traced api law s0 p api.patch aws_node
        (λ s. law.patch_others aws_node p s tracked.not_aws_node)
  evict_aws_node-Keeps not_found = idle
  evict_aws_node-Keeps already_exists = idle
  evict_aws_node-Keeps failed = idle

  unless_chained-Keeps :
      (data_ : Option (Map String String)) → Keeping (unless_chained api chart env data_)
  unless_chained-Keeps none k = stops k
  unless_chained-Keeps (some data_) k =
      either (get_or "" "cni-chaining-mode" data_ == "aws-cni") (nothing api)
        (evict_aws_node api chart env (api.get aws_node k.cluster)) idle
        (evict_aws_node-Keeps (api.get aws_node k.cluster)) k

  aks_secret-Keeps :
      (m : Manifests chart)
      → chart.name_of (file_of chart m "templates/cilium-operator/secret.yaml") ≡ "cilium-azure"
      → Keeping (create_aks_secret api chart env m not_found)
  aks_secret-Keeps m e =
      choose (chart.in_range ">=1.12.0")
        (create_ours api chart env "Secret"
          (chart.name_of (file_of chart m "templates/cilium-operator/secret.yaml")) "cilium-azure")
        (giving_up api)
        (ours-Keeps api law s0 p chart env "Secret"
          (chart.name_of (file_of chart m "templates/cilium-operator/secret.yaml")) "cilium-azure"
          e)
        stops

  create_aks_secret-Keeps :
      (m : Manifests chart) (reply : Reply)
      → chart.name_of (file_of chart m "templates/cilium-operator/secret.yaml") ≡ "cilium-azure"
      → Keeping (create_aks_secret api chart env m reply)
  create_aks_secret-Keeps m done e = idle
  create_aks_secret-Keeps m not_found e = aks_secret-Keeps m e
  create_aks_secret-Keeps m already_exists e = aks_secret-Keeps m e
  create_aks_secret-Keeps m failed e = aks_secret-Keeps m e

  prepare_aks-Keeps :
      (m : Manifests chart)
      → chart.name_of (file_of chart m "templates/cilium-operator/secret.yaml") ≡ "cilium-azure"
      → Keeping (prepare_aks api chart env m)
  unfolding create_aks_secrets
  prepare_aks-Keeps m e k =
      either ((k.params.datapath_mode == datapath_azure) && chart.in_range ">=1.12.0")
        (create_aks_secrets api chart env m) (nothing api)
        (λ k'.
          create_aks_secret-Keeps m
            (api.get (ours api chart env "Secret" "cilium-azure") k'.cluster) e k')
        idle k

  pub prepare_kind-Keeps :
      (m : Manifests chart) (kind : Kind)
      → (kind ≡ kind_aks
          → chart.name_of (file_of chart m "templates/cilium-operator/secret.yaml")
            ≡ "cilium-azure")
      → Keeping (prepare_kind api chart env m kind)
  unfolding prepare_kind
  prepare_kind-Keeps m kind_eks h =
      λ k. unless_chained-Keeps (generate_config_map api chart env m k.params) k
  prepare_kind-Keeps m kind_aks h = prepare_aks-Keeps m (h refl)
  prepare_kind-Keeps m kind_gke h = idle
  prepare_kind-Keeps m kind_unknown h = idle
  prepare_kind-Keeps m kind_minikube h = idle
  prepare_kind-Keeps m kind_kind h = idle
  prepare_kind-Keeps m kind_microk8s h = idle
  prepare_kind-Keeps m kind_rancher_desktop h = idle
  prepare_kind-Keeps m kind_k3s h = idle
