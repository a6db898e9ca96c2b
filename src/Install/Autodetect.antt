-- ===== src/Install/Autodetect.antt =====
-- install/autodetect.go: the parameters that the installer finds out, and the checks before it starts.
use cilium_cli.Prelude.{
  String, Option, none, some, List, [], ◌∷◌, ◌++◌, Bool, true, false, not, ◌&&◌, ◌||◌, ◌==◌,
  string_eq, if◌then◌else◌, any,
}
use cilium_cli.Prelude.Acts.{◌>>=◌}
use cilium_cli.Install.{
  datapath_tunnel, datapath_aws_eni, datapath_gke, datapath_azure, datapath_aks_byocni,
  encryption_unspecified, encryption_disabled, encryption_ipsec, encryption_wireguard, Kind,
  kind_unknown, kind_minikube, kind_kind, kind_eks, kind_gke, kind_aks, kind_microk8s,
  kind_rancher_desktop, kind_k3s, Parameters, Subset, Check, Surroundings, Operation,
}
use cilium_cli.Install.Azure.{azure_autodetect}

abbrev pub is_kind : Kind → Bool
is_kind kind_kind = true
is_kind _ = false

abbrev pub is_k3s : Kind → Bool
is_k3s kind_k3s = true
is_k3s _ = false

module _ (env : Surroundings) where
  abbrev pub ok : Operation
  ok k = (k, some tt)

  abbrev pub failed : Operation
  failed k = (k, none)

  abbrev pub set_mode : String → Operation
  set_mode mode k = (record k { datapath_mode = mode }, some tt)

  abbrev pub disable_kpr : Bool → Operation
  disable_kpr with_kpr k =
      if with_kpr && (k.kube_proxy_replacement == "")
      then (record k { kube_proxy_replacement = "disabled" }, some tt)
      else (k, some tt)

  abbrev pub azure_mode : Operation
  azure_mode k = set_mode (if k.azure.is_byocni then datapath_aks_byocni else datapath_azure) k

  abbrev pub mode_of_kind : Bool → Kind → Operation
  mode_of_kind with_kpr kind_kind = set_mode datapath_tunnel >>= λ _. disable_kpr with_kpr
  mode_of_kind with_kpr kind_minikube = set_mode datapath_tunnel
  mode_of_kind with_kpr kind_eks = set_mode datapath_aws_eni
  mode_of_kind with_kpr kind_gke = set_mode datapath_gke
  mode_of_kind with_kpr kind_aks =
      azure_autodetect env >>= (λ _. azure_mode) >>= λ _. disable_kpr with_kpr
  mode_of_kind with_kpr kind_unknown = set_mode datapath_tunnel
  mode_of_kind with_kpr kind_microk8s = set_mode datapath_tunnel
  mode_of_kind with_kpr kind_rancher_desktop = set_mode datapath_tunnel
  mode_of_kind with_kpr kind_k3s = set_mode datapath_tunnel

  -- `detectDatapathMode`
  unfoldable pub detect_datapath_mode : Bool → Operation
  detect_datapath_mode with_kpr k =
      if k.datapath_mode == "" then mode_of_kind with_kpr env.flavor.kind k else (k, some tt)

  -- `checkDisabled`
  abbrev pub check_disabled : Parameters → String → Bool
  check_disabled k name = any (λ n. n == name) k.disable_checks

  unfoldable pub run_checks : List Check → Operation
  run_checks [] k = (k, some tt)
  run_checks (check ∷ checks) k =
      let rest = run_checks checks k in
      if check_disabled k check.name then rest else if check.succeeds then rest else (k, none)

  abbrev pub set_cluster_name : Operation
  set_cluster_name k =
      if k.cluster_name == "" && not (env.flavor.cluster_name == "")
      then (record k { cluster_name = env.with_dashes env.flavor.cluster_name }, some tt)
      else (k, some tt)

  abbrev pub check_cluster_name : Operation
  check_cluster_name k =
      if env.contains k.cluster_name "."
      then (k, none)
      else if env.is_cluster_name k.cluster_name
      then (k, some tt)
      else (k, none)

  abbrev pub is_encryption : String → Bool
  is_encryption mode =
      mode == encryption_disabled
      || mode == encryption_ipsec
      || mode == encryption_wireguard
      || mode == encryption_unspecified

  abbrev pub check_encryption : Operation
  check_encryption k = if is_encryption k.encryption then (k, some tt) else (k, none)

  abbrev pub add_values : List String → Parameters → Parameters
  add_values values k = record k { helm_values = k.helm_values ++ values }

  -- the address and the port of the first subset, `none` where the detection fails
  abbrev pub subset_server : Subset → Option (String × String)
  subset_server subset = elim subset.addresses [
    | [] ↦ none
    | address ∷ _ ↦ elim subset.ports [ [] ↦ none | port ∷ _ ↦ some (address, env.show_port port) ]
  ]

  abbrev pub kind_server : Option (List Subset) → Option (String × String)
  kind_server none = none
  kind_server (some []) = none
  kind_server (some (subset ∷ subsets)) = subset_server subset

  abbrev pub server_of_kind : Kind → Option (String × String)
  server_of_kind kind =
      if is_kind kind then kind_server env.kubernetes_endpoints else some env.api_server

  abbrev pub replace_kube_proxy : Option (String × String) → Operation
  replace_kube_proxy none = failed
  replace_kube_proxy (some (host, port)) = λ k. (
    if not (host == "") && not (port == "")
        then add_values
            ("kubeProxyReplacement=strict"
              ∷ env.concat "k8sServiceHost=" host
              ∷ env.concat "k8sServicePort=" port
              ∷ [])
            k
        else k,
    some tt,
  )

  abbrev pub without_kube_proxy : Option (List String) → Operation
  without_kube_proxy none = ok
  without_kube_proxy (some names) =
      if any (λ name. env.contains name "kube-proxy") names
      then ok
      else replace_kube_proxy (server_of_kind env.flavor.kind)

  -- `autodetectKubeProxy`
  unfoldable pub autodetect_kube_proxy : Operation
  autodetect_kube_proxy k =
      if k.user_set_kube_proxy_replacement || is_k3s env.flavor.kind
      then (k, some tt)
      else without_kube_proxy env.daemon_sets k

  -- The loop of `autoEnableBPFMasq`: whether the values ask for the replacement in the mode strict,
  -- where `strict` tells what is found already, and neither set the masquerading nor enable IPv6.
  unfoldable pub wants_masq : Bool → List String → Bool
  wants_masq strict [] = strict
  wants_masq strict (param ∷ params) =
      if not strict && (param == "kubeProxyReplacement=strict")
      then wants_masq true params
      else if env.has_prefix param "bpf.masquerade"
      then false
      else if env.has_prefix param "ipv6.enabled=true"
      then false
      else wants_masq strict params

  -- `autoEnableBPFMasq`
  unfoldable pub auto_enable_bpf_masq : Parameters → Parameters
  auto_enable_bpf_masq k =
      if wants_masq (k.kube_proxy_replacement == "strict") k.helm_values
      then add_values ("bpf.masquerade=true" ∷ []) k
      else k

  -- The error of `autodetectKubeProxy` is dropped.
  abbrev pub last_detections : Operation
  last_detections k = (auto_enable_bpf_masq (autodetect_kube_proxy k).0, some tt)

  -- the rest of `autodetectAndValidate` from the check of the encryption, that of the cluster name, the
  -- datapath mode and the cluster name on
  abbrev pub from_encryption : Operation
  from_encryption = check_encryption >>= λ _. last_detections

  abbrev pub from_name_check : Operation
  from_name_check = check_cluster_name >>= λ _. from_encryption

  abbrev pub from_mode : Operation
  from_mode = detect_datapath_mode true >>= λ _. from_name_check

  abbrev pub from_name : Operation
  from_name = set_cluster_name >>= λ _. from_mode

  -- `autodetectAndValidate`
  unfoldable pub autodetect_and_validate : Operation
  autodetect_and_validate = run_checks (env.checks env.flavor.kind) >>= λ _. from_name
