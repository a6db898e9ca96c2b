-- ===== src/Tests/Features.antt =====
-- Two pods whose features agree.
use cilium_cli.Prelude.{
  ◌≡◌, refl, [], ◌∷◌, true, false, ◌&&◌, Option, none, some, All, lookup, insert, get_or,
}
use cilium_cli.Features.{
  FeatureSet, FeatureRequirement, require_feature_enabled, require_feature_mode,
  feature_cni_chaining, feature_host_port, match_requirements, with_feature_requirements,
}
use cilium_cli.Features.Requirement.{Extends, with_feature_requirements-match}
use cilium_cli.Features.Detect.{
  Facts, DetectLibrary, crd_found, extract_from_config_map, extract_from_runtime_config,
  extract_from_nodes, extract_from_cilium_status, extract_from_cluster_role,
  extract_from_k8s_cluster, derive_features, extract_from_crds, is_feature_knp_enabled,
}
use cilium_cli.Features.Detection.{
  detect_pod, validate_rest, validate_feature_set, detect_features, detect_pod-HostPortAsDerived,
  HostPortAsDerived,
}
use cilium_cli.Features.Agreement.{SatisfiesSame, detect_features-SatisfiesSame}

abbrev library : DetectLibrary
library = record { to_lower = λ s. s; join = λ names. "node"; below_1_14 = false; from_1_14 = true }

abbrev facts : Facts
facts = record {
  config_map = some (some (("cni-chaining-mode", "portmap") ∷ ("enable-ipv4", "true") ∷ []));
  runtime_config = some (record {
    monitor_aggregation = "none";
    enable_icmp_rules = true;
    enable_health_checking = true;
    enable_endpoint_health_checking = false;
    encrypt_node = false;
    enable_k8s_network_policy = true;
  });
  nodes = some (record { name = "node"; labels = [] } ∷ []);
  cilium_status = some (record {
    cni_chaining = none;
    has_proxy = true;
    host_firewall = some "Disabled";
    kube_proxy_replacement = none;
    encryption = none;
  });
  cluster_role = some (("pods" ∷ "secrets" ∷ []) ∷ []);
  flavor = "kind";
  crd = crd_found;
}

abbrev found_or : Option FeatureSet → FeatureSet
found_or none = []
found_or (some fs) = fs

abbrev found : FeatureSet
found = found_or (detect_pod library facts)

pod_is_found : detect_pod library facts ≡ some found
unfolding detect_pod extract_from_config_map extract_from_runtime_config extract_from_nodes
    extract_from_cilium_status extract_from_cluster_role extract_from_k8s_cluster derive_features
    extract_from_crds is_feature_knp_enabled insert lookup get_or
pod_is_found = refl

pods_are_found : detect_features library [] (facts ∷ facts ∷ []) ≡ some (found, [])
unfolding detect_features validate_rest validate_feature_set detect_pod extract_from_config_map
    extract_from_runtime_config extract_from_nodes extract_from_cilium_status
    extract_from_cluster_role extract_from_k8s_cluster derive_features extract_from_crds
    is_feature_knp_enabled insert lookup get_or
pods_are_found = refl

detect_pod-HostPortAsDerived_example : HostPortAsDerived library found
detect_pod-HostPortAsDerived_example = detect_pod-HostPortAsDerived library facts found pod_is_found

detect_features-SatisfiesSame_example : All (SatisfiesSame library found) (facts ∷ facts ∷ [])
detect_features-SatisfiesSame_example =
    detect_features-SatisfiesSame library [] found (facts ∷ facts ∷ []) pods_are_found

abbrev chained : FeatureRequirement
chained = require_feature_mode feature_cni_chaining "portmap"

abbrev has_port : FeatureRequirement
has_port = require_feature_enabled feature_host_port

with_feature_requirements-match_example :
    Extends (chained ∷ []) (with_feature_requirements (chained ∷ []) (chained ∷ has_port ∷ []))
    × (match_requirements found (with_feature_requirements (chained ∷ []) (chained ∷ has_port ∷ []))
        ≡ (match_requirements found (chained ∷ [])
            && match_requirements found (chained ∷ has_port ∷ [])))
with_feature_requirements-match_example =
    with_feature_requirements-match found (chained ∷ []) (chained ∷ has_port ∷ [])
