-- ===== src/Tests/Install.antt =====
-- An installation on a cluster of the kind `kind`, without kube-proxy.
use cilium_cli.Prelude.{
  ◌≡◌, refl, [], ◌∷◌, true, false, ◌&&◌, ◌||◌, ◌==◌, string_eq, some, none, if◌then◌else◌,
}
use cilium_cli.Install.{Parameters, Surroundings, kind_kind}
use cilium_cli.Install.Autodetect.{
  detect_datapath_mode, run_checks, autodetect_kube_proxy, wants_masq, auto_enable_bpf_masq,
  autodetect_and_validate, add_values,
}
use cilium_cli.Install.Masquerading.{is_due, auto_enable_bpf_masq-due}
use cilium_cli.Install.Validity.{Valid, autodetect_and_validate-Valid}

abbrev pub surroundings : Surroundings
surroundings = record {
  flavor = record { kind = kind_kind; cluster_name = "kind-dev" };
  checks = λ kind. record { name = "minimum-version"; succeeds = true } ∷ [];
  az = λ args. none;
  account_id = λ bytes. none;
  aks_cluster_info = λ bytes. none;
  principal = λ bytes. none;
  daemon_sets = some ("kindnet" ∷ []);
  api_server = ("127.0.0.1", "6443");
  kubernetes_endpoints = some (record { addresses = "10.0.0.1" ∷ []; ports = 6443 ∷ [] } ∷ []);
  with_dashes = λ name. name;
  contains = λ text. λ part. text == part;
  has_prefix = λ text.
      λ prefix. text == prefix || (text == "bpf.masquerade=true") && (prefix == "bpf.masquerade");
  is_cluster_name = λ name. name == "kind-dev";
  concat = λ a. λ b. b;
  show_port = λ port. "6443";
}

abbrev pub parameters : Parameters
parameters = record {
  datapath_mode = "";
  kube_proxy_replacement = "";
  user_set_kube_proxy_replacement = false;
  cluster_name = "";
  encryption = "wireguard";
  disable_checks = [];
  helm_values = "ipam.mode=kubernetes" ∷ [];
  azure = record {
    resource_group_name = "";
    aks_node_resource_group = "";
    subscription_name = "";
    subscription_id = "";
    tenant_id = "";
    client_id = "";
    client_secret = "";
    is_byocni = false;
  };
}

parameters_succeed : (autodetect_and_validate surroundings parameters).1 ≡ some tt
unfolding autodetect_and_validate run_checks detect_datapath_mode autodetect_kube_proxy
    auto_enable_bpf_masq wants_masq
parameters_succeed = refl

autodetect_and_validate-Valid_example :
    Valid surroundings parameters (autodetect_and_validate surroundings parameters).0
autodetect_and_validate-Valid_example =
    autodetect_and_validate-Valid surroundings parameters parameters_succeed

abbrev strict : Parameters
strict = record parameters {
  helm_values = "ipam.mode=kubernetes" ∷ "kubeProxyReplacement=strict" ∷ [];
}

auto_enable_bpf_masq-due_example : auto_enable_bpf_masq surroundings strict ≡ (
    if is_due surroundings strict
    then add_values surroundings ("bpf.masquerade=true" ∷ []) strict
    else strict)
auto_enable_bpf_masq-due_example = auto_enable_bpf_masq-due surroundings refl refl strict
