-- ===== src/Features.antt =====
-- connectivity/check/features.go: the features of a Cilium installation, what tests require of them, and
-- how they are detected.
pub mod Requirement
pub mod Detect
pub mod Detection
pub mod Agreement
use cilium_cli.Prelude.{
  String, Option, none, some, List, [], ◌∷◌, ◌++◌, Bool, true, false, not, ◌&&◌, ◌||◌, Map, lookup,
  insert, get_or, ◌==◌, Eq, string_eq, bool_eq, if◌then◌else◌, any,
}

abbrev pub Feature : Type 0
Feature = String

abbrev pub feature_cni_chaining : Feature
feature_cni_chaining = "cni-chaining"

abbrev pub feature_monitor_aggregation : Feature
feature_monitor_aggregation = "monitor-aggregation"

abbrev pub feature_l7_proxy : Feature
feature_l7_proxy = "l7-proxy"

abbrev pub feature_host_firewall : Feature
feature_host_firewall = "host-firewall"

abbrev pub feature_icmp_policy : Feature
feature_icmp_policy = "icmp-policy"

abbrev pub feature_tunnel : Feature
feature_tunnel = "tunnel"

abbrev pub feature_endpoint_routes : Feature
feature_endpoint_routes = "endpoint-routes"

abbrev pub feature_kpr_mode : Feature
feature_kpr_mode = "kpr-mode"

abbrev pub feature_kpr_external_ips : Feature
feature_kpr_external_ips = "kpr-external-ips"

abbrev pub feature_kpr_graceful_termination : Feature
feature_kpr_graceful_termination = "kpr-graceful-termination"

abbrev pub feature_kpr_host_port : Feature
feature_kpr_host_port = "kpr-hostport"

abbrev pub feature_kpr_socket_lb : Feature
feature_kpr_socket_lb = "kpr-socket-lb"

abbrev pub feature_kpr_node_port : Feature
feature_kpr_node_port = "kpr-nodeport"

abbrev pub feature_kpr_session_affinity : Feature
feature_kpr_session_affinity = "kpr-session-affinity"

abbrev pub feature_host_port : Feature
feature_host_port = "host-port"

abbrev pub feature_node_without_cilium : Feature
feature_node_without_cilium = "node-without-cilium"

abbrev pub feature_health_checking : Feature
feature_health_checking = "health-checking"

abbrev pub feature_encryption_pod : Feature
feature_encryption_pod = "encryption-pod"

abbrev pub feature_encryption_node : Feature
feature_encryption_node = "encryption-node"

abbrev pub feature_ipv4 : Feature
feature_ipv4 = "ipv4"

abbrev pub feature_ipv6 : Feature
feature_ipv6 = "ipv6"

abbrev pub feature_flavor : Feature
feature_flavor = "flavor"

abbrev pub feature_secret_backend_k8s : Feature
feature_secret_backend_k8s = "secret-backend-k8s"

abbrev pub feature_cnp : Feature
feature_cnp = "cilium-network-policy"

abbrev pub feature_knp : Feature
feature_knp = "k8s-network-policy"

abbrev pub feature_auth_mtls_spiffe : Feature
feature_auth_mtls_spiffe = "auth-mtls-spiffe"

abbrev pub feature_ingress_controller : Feature
feature_ingress_controller = "ingress-controller"

abbrev pub feature_egress_gateway : Feature
feature_egress_gateway = "enable-ipv4-egress-gateway"

pub record FeatureStatus : Type 0 where
  pub enabled : Bool
  pub mode : String

abbrev pub FeatureSet : Type 0
FeatureSet = Map Feature FeatureStatus

-- `fs[feature]`, which is the zero value where the feature is missing
abbrev pub status : FeatureSet → Feature → FeatureStatus
status fs feature = get_or (record { enabled = false; mode = "" }) feature fs

-- a feature that is on or off, and one with a mode
abbrev pub set_enabled : Feature → Bool → FeatureSet → FeatureSet
set_enabled feature b = insert feature (record { enabled = b; mode = "" })

abbrev pub set_mode : Feature → Bool → String → FeatureSet → FeatureSet
set_mode feature b mode = insert feature (record { enabled = b; mode = mode })

pub record FeatureRequirement : Type 0 where
  pub feature : Feature
  pub requires_enabled : Bool
  pub enabled : Bool
  pub requires_mode : Bool
  pub mode : String

abbrev pub require_feature_enabled : Feature → FeatureRequirement
require_feature_enabled feature = record {
  feature = feature;
  requires_enabled = true;
  enabled = true;
  requires_mode = false;
  mode = "";
}

abbrev pub require_feature_disabled : Feature → FeatureRequirement
require_feature_disabled feature = record (require_feature_enabled feature) { enabled = false }

abbrev pub require_feature_mode : Feature → String → FeatureRequirement
require_feature_mode feature mode = record {
  feature = feature;
  requires_enabled = false;
  enabled = false;
  requires_mode = true;
  mode = mode;
}

abbrev pub violates : FeatureRequirement → FeatureStatus → Bool
violates req s =
    req.requires_enabled && not (req.enabled == s.enabled)
    || req.requires_mode && not (req.mode == s.mode)

-- `MatchRequirements`
unfoldable pub match_requirements : FeatureSet → List FeatureRequirement → Bool
match_requirements fs [] = true
match_requirements fs (req ∷ reqs) =
    if violates req (status fs req.feature) then false else match_requirements fs reqs

-- `==` of two requirements
abbrev pub same_requirement : FeatureRequirement → FeatureRequirement → Bool
same_requirement a b =
    (a.feature == b.feature)
    && (a.requires_enabled == b.requires_enabled)
    && (a.enabled == b.enabled)
    && (a.requires_mode == b.requires_mode)
    && (a.mode == b.mode)

-- `WithFeatureRequirements`: the requirements of the test, with the new ones that it has not yet
unfoldable pub with_feature_requirements :
    List FeatureRequirement → List FeatureRequirement → List FeatureRequirement
with_feature_requirements own [] = own
with_feature_requirements own (target ∷ reqs) =
    with_feature_requirements
      (if any (same_requirement target) own then own else own ++ target ∷ []) reqs
