-- ===== src/Features/Detect.antt =====
-- connectivity/check/features.go: `detectFeatures` reads the features of each Cilium agent.
use cilium_cli.Prelude.{
  String, Option, none, some, List, [], ◌∷◌, Bool, true, false, not, ◌&&◌, ◌||◌, Map, lookup,
  get_or, ◌==◌, string_eq, if◌then◌else◌, any,
}
use cilium_cli.Features.{
  Feature, FeatureSet, status, set_enabled, set_mode, feature_cni_chaining,
  feature_monitor_aggregation, feature_l7_proxy, feature_host_firewall, feature_icmp_policy,
  feature_tunnel, feature_endpoint_routes, feature_kpr_mode, feature_kpr_external_ips,
  feature_kpr_graceful_termination, feature_kpr_host_port, feature_kpr_socket_lb,
  feature_kpr_node_port, feature_kpr_session_affinity, feature_host_port,
  feature_node_without_cilium, feature_health_checking, feature_encryption_pod,
  feature_encryption_node, feature_ipv4, feature_ipv6, feature_flavor, feature_secret_backend_k8s,
  feature_cnp, feature_knp, feature_auth_mtls_spiffe, feature_ingress_controller,
  feature_egress_gateway,
}

pub record RuntimeConfig : Type 0 where
  pub monitor_aggregation : String
  pub enable_icmp_rules : Bool
  pub enable_health_checking : Bool
  pub enable_endpoint_health_checking : Bool
  pub encrypt_node : Bool
  pub enable_k8s_network_policy : Bool

pub record KprFeatures : Type 0 where
  pub external_ips : Option Bool
  pub host_port : Option Bool
  pub graceful_termination : Option Bool
  pub node_port : Option Bool
  pub session_affinity : Option Bool
  pub socket_lb : Option Bool

pub record KubeProxyReplacement : Type 0 where
  pub mode : String
  pub features : Option KprFeatures

-- `models.StatusResponse`: the modes of the parts that are there
pub record StatusResponse : Type 0 where
  pub cni_chaining : Option String
  pub has_proxy : Bool
  pub host_firewall : Option String
  pub kube_proxy_replacement : Option KubeProxyReplacement
  pub encryption : Option String

pub record Node : Type 0 where
  pub name : String
  pub labels : Map String String

pub data CrdAnswer : Type 0 where
  crd_found crd_not_found crd_error : CrdAnswer

-- What the cluster and the agent answer; `none` stands for an error. The rules of the cluster role
-- are given by their resources.
pub record Facts : Type 0 where
  pub config_map : Option (Option (Map String String))
  pub runtime_config : Option RuntimeConfig
  pub nodes : Option (List Node)
  pub cilium_status : Option StatusResponse
  pub cluster_role : Option (List (List String))
  pub flavor : String
  pub crd : CrdAnswer

-- From Go's library and the semver library: `strings.ToLower`, `strings.Join` with a comma, and
-- whether the agents' version is below 1.14.0 or at least that.
pub record DetectLibrary : Type 0 where
  pub to_lower : String → String
  pub join : List String → String
  pub below_1_14 : Bool
  pub from_1_14 : Bool

abbrev pub parse_bool_status : String → Bool
parse_bool_status s = s == "Enabled" || s == "enabled" || s == "True" || s == "true"

-- `cm.Data[key]`, and the same with a default
abbrev pub is_on : Map String String → String → Bool
is_on cm key = get_or "" key cm == "true"

-- `extractFeaturesFromConfigMap`
abbrev pub from_config_map_data : Map String String → FeatureSet → FeatureSet
from_config_map_data cm fs =
    let chaining = get_or "none" "cni-chaining-mode" cm in
    let tunnel = get_or "disabled" "tunnel" cm in
    let fs = set_mode feature_cni_chaining (not (chaining == "none")) chaining fs in
    let fs = set_mode feature_tunnel (not (tunnel == "disabled")) tunnel fs in
    let fs = set_enabled feature_ipv4 (is_on cm "enable-ipv4") fs in
    let fs = set_enabled feature_ipv6 (is_on cm "enable-ipv6") fs in
    let fs = set_enabled feature_endpoint_routes (is_on cm "enable-endpoint-routes") fs in
    let fs = set_enabled feature_auth_mtls_spiffe (is_on cm "mesh-auth-mtls-enabled") fs in
    let fs = set_enabled feature_ingress_controller (is_on cm "enable-ingress-controller") fs in
    set_enabled feature_egress_gateway (is_on cm "enable-ipv4-egress-gateway") fs

unfoldable pub extract_from_config_map :
    Option (Option (Map String String)) → FeatureSet → Option FeatureSet
extract_from_config_map none fs = none
extract_from_config_map (some none) fs = none
extract_from_config_map (some (some cm)) fs = some (from_config_map_data cm fs)

module _ (lib : DetectLibrary) where
  -- `isFeatureKNPEnabled`
  unfoldable pub is_feature_knp_enabled : Bool → Option Bool
  is_feature_knp_enabled flag =
      if flag
      then some true
      else if lib.below_1_14
      then some true
      else if lib.from_1_14
      then some false
      else none

  abbrev pub with_knp : Option Bool → FeatureSet → Option FeatureSet
  with_knp none fs = none
  with_knp (some b) fs = some (set_enabled feature_knp b fs)

  -- `extractFeaturesFromRuntimeConfig`
  unfoldable pub extract_from_runtime_config : Option RuntimeConfig → FeatureSet → Option FeatureSet
  extract_from_runtime_config none fs = none
  extract_from_runtime_config (some cfg) fs =
      let fs =
        set_mode feature_monitor_aggregation (not (cfg.monitor_aggregation == "none"))
          cfg.monitor_aggregation fs in
      let fs = set_enabled feature_icmp_policy cfg.enable_icmp_rules fs in
      let fs =
        set_enabled feature_health_checking
          (cfg.enable_health_checking && cfg.enable_endpoint_health_checking) fs in
      let fs = set_enabled feature_encryption_node cfg.encrypt_node fs in
      with_knp (is_feature_knp_enabled cfg.enable_k8s_network_policy) fs

  abbrev pub can_node_run_cilium : Node → Bool
  can_node_run_cilium node = elim (lookup "cilium.io/no-schedule" node.labels) [
    | none ↦ true
    | some val ↦ val == "false"
  ]

  abbrev pub names_without_cilium : List Node → List String
  names_without_cilium [] = []
  names_without_cilium (node ∷ nodes) =
      let rest = names_without_cilium nodes in
      if can_node_run_cilium node then rest else node.name ∷ rest

  abbrev pub is_nonempty : List String → Bool
  is_nonempty [] = false
  is_nonempty (x ∷ xs) = true

  -- `extractFeaturesFromNodes`
  unfoldable pub extract_from_nodes : Option (List Node) → FeatureSet → Option FeatureSet
  extract_from_nodes none fs = none
  extract_from_nodes (some nodes) fs =
      let names = names_without_cilium nodes in
      some (set_mode feature_node_without_cilium (is_nonempty names) (lib.join names) fs)

  abbrev pub set_present : Feature → Option Bool → FeatureSet → FeatureSet
  set_present feature none fs = fs
  set_present feature (some b) fs = set_enabled feature b fs

  abbrev pub from_kpr_features : Option KprFeatures → FeatureSet → FeatureSet
  from_kpr_features none fs = fs
  from_kpr_features (some f) fs =
      let fs = set_present feature_kpr_external_ips f.external_ips fs in
      let fs = set_present feature_kpr_host_port f.host_port fs in
      let fs = set_present feature_kpr_graceful_termination f.graceful_termination fs in
      let fs = set_present feature_kpr_node_port f.node_port fs in
      let fs = set_present feature_kpr_session_affinity f.session_affinity fs in
      set_present feature_kpr_socket_lb f.socket_lb fs

  abbrev pub from_kpr : Option KubeProxyReplacement → FeatureSet → FeatureSet
  from_kpr none fs = set_mode feature_kpr_mode false "Disabled" fs
  from_kpr (some kpr) fs =
      set_mode feature_kpr_mode (not (kpr.mode == "Disabled")) kpr.mode
        (from_kpr_features kpr.features fs)

  abbrev pub chaining_mode : Option String → FeatureSet → String
  chaining_mode (some mode) fs = mode
  chaining_mode none fs = (status fs feature_cni_chaining).mode

  abbrev pub encryption_mode : Option String → String
  encryption_mode none = "disabled"
  encryption_mode (some mode) = lib.to_lower mode

  abbrev pub firewall_status : Option String → Bool
  firewall_status none = false
  firewall_status (some mode) = parse_bool_status mode

  -- `extractFeaturesFromCiliumStatus`
  unfoldable pub extract_from_cilium_status : Option StatusResponse → FeatureSet → Option FeatureSet
  extract_from_cilium_status none fs = none
  extract_from_cilium_status (some st) fs =
      let mode = chaining_mode st.cni_chaining fs in
      let fs = set_mode feature_cni_chaining (not (mode == "") && not (mode == "none")) mode fs in
      let fs = set_enabled feature_l7_proxy st.has_proxy fs in
      let fs = set_enabled feature_host_firewall (firewall_status st.host_firewall) fs in
      let fs = from_kpr st.kube_proxy_replacement fs in
      let encryption = encryption_mode st.encryption in
      some (set_mode feature_encryption_pod (not (encryption == "disabled")) encryption fs)

  -- `canAccessK8sResourceSecret`
  abbrev pub can_access_secrets : List (List String) → Bool
  can_access_secrets rules = any (any (λ resource. resource == "secrets")) rules

  -- `extractFeaturesFromClusterRole`
  unfoldable pub extract_from_cluster_role :
      Option (List (List String)) → FeatureSet → Option FeatureSet
  extract_from_cluster_role none fs = none
  extract_from_cluster_role (some rules) fs =
      some (set_enabled feature_secret_backend_k8s (can_access_secrets rules) fs)

  -- `extractFeaturesFromK8sCluster`
  unfoldable pub extract_from_k8s_cluster : String → FeatureSet → FeatureSet
  extract_from_k8s_cluster kind fs =
      set_mode feature_flavor (not (kind == "invalid")) (lib.to_lower kind) fs

  -- `deriveFeatures`
  unfoldable pub derive_features : FeatureSet → FeatureSet
  derive_features fs =
      set_enabled feature_host_port
        ((status fs feature_cni_chaining).enabled
            && ((status fs feature_cni_chaining).mode == "portmap")
            && not (status fs feature_host_firewall).enabled
          || (status fs feature_kpr_host_port).enabled)
        fs

  -- `extractFeaturesFromCRDs`
  unfoldable pub extract_from_crds : CrdAnswer → FeatureSet → Option FeatureSet
  extract_from_crds crd_found fs = some (set_enabled feature_cnp true fs)
  extract_from_crds crd_not_found fs = some (set_enabled feature_cnp false fs)
  extract_from_crds crd_error fs = none
