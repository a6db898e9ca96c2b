-- ===== src/Tests/Rollback.antt =====
-- An installation on a cluster that has every namespace and refuses each Deployment.
use cilium_cli.Prelude.{
  String, ◌≡◌, refl, List, [], ◌∷◌, Bool, true, false, ◌||◌, ◌==◌, string_eq, nat_eq, some, none,
  if◌then◌else◌, any, some_injective, subst, arith, lookup, insert, get_or,
}
use cilium_cli.Install.Autodetect.{
  detect_datapath_mode, run_checks, autodetect_kube_proxy, wants_masq, auto_enable_bpf_masq,
  autodetect_and_validate,
}
use cilium_cli.Install.Objects.{
  Object, object_eq, Api, Lawful, Reply, done, not_found, already_exists, failed, listed,
}
use cilium_cli.Install.Manifests.{Chart, Manifests}
use cilium_cli.Install.Leftover.{create_quotas-Left}
use cilium_cli.Install.Steps.{
  quota_variable, delete_held, delete_object, Installer, push_rollback_step, create_and_push,
  request, create_or_update_and_push, each_held, run_steps, target, rollback_installation,
}
use cilium_cli.Install.Requests.{
  install_certs, label_nodes, create_quotas, create_accounts, create_cluster_roles, encryption,
  ingress, create_secrets_namespace, create_roles, configure, create_workloads,
}
use cilium_cli.Install.Installation.{install, install_manifests, install_command}
use cilium_cli.Install.Cluster.{
  Setup, preinstall, store_helm_values, prepare_kind, generate_config_map,
}
use cilium_cli.Install.Preserved.{Conventional, IsTracked}
use cilium_cli.Install.Restored.{is_reported, install_command-Restored}
use cilium_cli.Tests.Install.{surroundings, parameters}

abbrev is_namespace : Object → Bool
is_namespace o = o.kind == "Namespace"

abbrev holds : Object → List Object → Bool
holds o s = any (λ x. x == o) s

abbrev without : Object → List Object → List Object
without o [] = []
without o (x ∷ xs) = let rest = without o xs in if x == o then rest else x ∷ rest

abbrev creating : Object → List Object → List Object × Reply
creating o s =
    if (o.kind == "Deployment") || is_namespace o
    then (s, failed)
    else if holds o s
    then (s, already_exists)
    else (o ∷ s, done)

abbrev deleting : Object → List Object → List Object × Reply
deleting o s =
    if is_namespace o
    then (s, failed)
    else if holds o s
    then (without o s, done)
    else (s, not_found)

abbrev api : Api
api = record {
  State = List Object;
  Content = Unit {0};
  read = λ s. λ o. if is_namespace o || holds o s then some tt else none;
  create = creating;
  unanswered = λ o. λ s. false;
  update = λ o. λ s. (s, done);
  patch = λ o. λ s. (s, done);
  delete = deleting;
  get = λ o. λ s. if holds o s then done else not_found;
  list_pods = λ s. some [];
  list_endpoints = λ s. listed [];
}

without-holds :
    (o p : Object) (s : List Object) → holds p (without o s) ≡ (if o == p then false else holds p s)
without-holds o p [] = ground (arith, object_eq.same_iff o p)
without-holds o p (x ∷ xs) = ground (
  arith,
  without-holds o p xs,
  object_eq.same_iff o p,
  object_eq.same_iff x o,
  object_eq.same_iff x p,
)

api_lawful : Lawful api
api_lawful = record {
  create_was_absent = λ o. λ s. λ h. ground arith;
  create_refused = λ o. λ s. λ h. λ answered. ground arith;
  create_others = λ o. λ p. λ s. λ h. ground arith;
  update_others = λ o. λ p. λ s. λ h. refl;
  patch_others = λ o. λ p. λ s. λ h. refl;
  delete_done = λ o. λ s. λ h. ground (arith, without-holds o o s, object_eq.same_iff o o);
  delete_absent = λ o. λ p. λ s. λ h. ground (arith, without-holds o p s);
  delete_others = λ o. λ p. λ s. λ h. λ h'. ground (arith, without-holds o p s);
  needs_namespace = λ o. λ p. λ s. λ h. λ h'. ground arith;
}

abbrev chart : Chart
chart = record {
  Yaml = String;
  empty_yaml = "";
  in_range = λ range. (range == ">1.10.99") || (range == ">=1.9.0");
  name_of = λ yaml. yaml;
  namespace_of = λ yaml. "kube-system";
  names_of = λ yaml. [];
  data_of = λ yaml. [];
}

abbrev manifests : Manifests chart
manifests =
    ("templates/cilium-agent/serviceaccount.yaml", "cilium")
    ∷ ("templates/cilium-operator/serviceaccount.yaml", "cilium-operator")
    ∷ ("templates/cilium-agent/clusterrole.yaml", "cilium")
    ∷ ("templates/cilium-operator/clusterrole.yaml", "cilium-operator")
    ∷ ("templates/cilium-agent/clusterrolebinding.yaml", "cilium")
    ∷ ("templates/cilium-operator/clusterrolebinding.yaml", "cilium-operator")
    ∷ ("templates/cilium-agent/daemonset.yaml", "cilium")
    ∷ ("templates/cilium-operator/deployment.yaml", "cilium-operator")
    ∷ ("templates/cilium-configmap.yaml", "cilium-config")
    ∷ ("templates/cilium-operator/secret.yaml", "cilium-azure")
    ∷ []

abbrev values_with : (c : Chart) → Manifests c → Setup api c
values_with c manifests_of_c = record {
  surroundings = surroundings;
  list_versions = false;
  versions_listed = true;
  namespace = "kube-system";
  helm_values_secret_name = "cilium-cli-helm-values";
  helm_gen_values_file = "";
  helm_values_set_cidr = some false;
  gke_native_routing_cidr = none;
  rendered = λ params. λ cidr. some manifests_of_c;
  config_overwrites = [];
  inherit_ca = "";
  inherited_ca = false;
  ca_generated = true;
  ca_is_complete = λ s. true;
  certificate_generated = true;
  random_key = true;
  nodes_without_cilium = [];
  wait = true;
  restart_unmanaged_pods = true;
  becomes_ready = λ s. true;
  rollback = true;
}

abbrev values : Setup api chart
values = values_with chart manifests

abbrev installer : Installer api
installer = record {
  cluster = [];
  params = parameters;
  native_routing_cidr = "";
  rollback_steps = [];
  held = [];
}

abbrev account : Object
account = record { kind = "ServiceAccount"; namespace = "kube-system"; name = "cilium" }

account-IsTracked : IsTracked api chart values account
account-IsTracked = record {
  no_quota = refl;
  no_role = refl;
  no_role_binding = refl;
  no_endpoints = refl;
  no_node = refl;
  no_pod = refl;
  not_aws_node = refl;
  not_ca_secret = refl;
  not_helm_secret = refl;
}

manifests-Conventional :
    (m : Manifests chart) → some manifests ≡ some m → Conventional api chart values m
unfolding lookup
manifests-Conventional m e =
    subst (λ n. Conventional api chart values n) (some_injective e)
      (record {
        agent_account = refl;
        operator_account = refl;
        agent_role = refl;
        operator_role = refl;
        agent_binding = refl;
        operator_binding = refl;
        agent = refl;
        operator = refl;
        config_map = refl;
        class = λ name. λ h. absurd cc;
        azure_secret = λ h. refl;
      })

installation_fails : (install api chart values installer).1 ≡ none
unfolding install preinstall autodetect_and_validate run_checks detect_datapath_mode
    autodetect_kube_proxy auto_enable_bpf_masq wants_masq install_manifests store_helm_values
    request prepare_kind install_certs create_and_push push_rollback_step label_nodes each_held
    create_accounts create_cluster_roles encryption ingress create_secrets_namespace create_roles
    configure generate_config_map create_workloads create_or_update_and_push lookup insert get_or
installation_fails = refl

account_gone : is_reported api account (install_command api chart values installer) ≡ false
unfolding install_command install preinstall autodetect_and_validate run_checks detect_datapath_mode
    autodetect_kube_proxy auto_enable_bpf_masq wants_masq install_manifests store_helm_values
    request prepare_kind install_certs create_and_push push_rollback_step label_nodes each_held
    create_accounts create_cluster_roles encryption ingress create_secrets_namespace create_roles
    configure generate_config_map create_workloads create_or_update_and_push lookup insert get_or
    rollback_installation run_steps target
account_gone = refl

install_command-Restored_example :
    api.read (install_command api chart values installer).cluster account
    ≡ api.read installer.cluster account
install_command-Restored_example =
    install_command-Restored api api_lawful chart values installer account account-IsTracked
      (λ params. λ cidr. manifests-Conventional) refl refl (λ s. refl) installation_fails
      account_gone

-- a chart with two resource quotas
abbrev quota_chart : Chart
quota_chart = record {
  Yaml = String;
  empty_yaml = "";
  in_range = λ range. true;
  name_of = λ yaml. yaml;
  namespace_of = λ yaml. "kube-system";
  names_of = λ yaml. ("", "cilium-resource-quota") ∷ ("", "cilium-operator-resource-quota") ∷ [];
  data_of = λ yaml. [];
}

abbrev quotas : Manifests quota_chart
quotas = ("templates/cilium-resource-quota.yaml", "") ∷ []

abbrev quota_values : Setup api quota_chart
quota_values = values_with quota_chart quotas

abbrev first_quota : Object
first_quota = record {
  kind = "ResourceQuota";
  namespace = "kube-system";
  name = "cilium-resource-quota";
}

-- the installer has pushed the step that deletes a certificate
abbrev with_certificate : Installer api
with_certificate = record installer {
  rollback_steps =
      delete_object
        (record { kind = "Secret"; namespace = "kube-system"; name = "hubble-server-certs" })
      ∷ [];
}

abbrev after_quotas : Installer api
after_quotas = (create_quotas api quota_chart quota_values quotas with_certificate).0

last_is_other :
    (o : Object)
    → target after_quotas.held (delete_held quota_variable) ≡ some o
    → (o == first_quota) ≡ false
unfolding target each_held create_and_push push_rollback_step lookup insert
last_is_other o h = subst (λ q. (q == first_quota) ≡ false) (some_injective h) refl

-- the first quota is there after the loop
first_quota_created : api.read after_quotas.cluster first_quota ≡ some tt
unfolding each_held create_and_push push_rollback_step lookup insert
first_quota_created = refl

create_quotas-Left_example :
    api.read (rollback_installation api quota_values.rollback after_quotas).cluster first_quota
    ≡ api.read after_quotas.cluster first_quota
create_quotas-Left_example =
    create_quotas-Left api quota_chart quota_values first_quota api_lawful quotas with_certificate
      ((refl, refl), tt) last_is_other
