-- ===== src/Install/Installation.antt =====
-- install/install.go: `Install`, which makes its requests one after the other, the restart of the pods
-- that Cilium does not manage, and the rollback.
use cilium_cli.Prelude.{
  String, Option, none, some, List, [], ◌∷◌, Bool, not, ◌&&◌, ◌||◌, ◌==◌, string_eq, any,
  if◌then◌else◌,
}
use cilium_cli.Prelude.Acts.{◌>>=◌, ◌>>◌}
use cilium_cli.Install.Objects.{Api, Pod, Endpoints, listed, no_such_resource, not_listed}
use cilium_cli.Install.Manifests.{Chart, Manifests, secret_namespace}
use cilium_cli.Install.Steps.{Installer, Doing, nothing, giving_up, Rollback, rollback_installation}
use cilium_cli.Install.Cluster.{Setup, in_namespace, preinstall, store_helm_values, prepare_kind}
use cilium_cli.Install.Requests.{
  checked, install_certs, label_nodes, create_quotas, create_accounts, create_cluster_roles,
  encryption, ingress, create_secrets_namespace, create_roles, configure, create_workloads,
}

module _ (api : Api) (chart : Chart) (env : Setup api chart) where
  unfoldable pub wait_ready : Doing api
  wait_ready k =
      if env.wait || env.restart_unmanaged_pods
      then checked api chart env (env.becomes_ready k.cluster) k
      else (k, some tt)

  -- one pod of `restartUnmanagedPods`
  abbrev pub is_unmanaged : List (String × String) → Pod → Bool
  is_unmanaged managed pod =
      not (pod.phase == "Succeeded")
      && not pod.host_network
      && not (any (λ p. (p.0 == pod.namespace) && (p.1 == pod.name)) managed)

  -- an error of the deletion is only printed
  unfoldable pub restart : List (String × String) → List Pod → Installer api → Installer api
  restart managed [] k = k
  restart managed (pod ∷ pods) k = restart managed pods (
      if is_unmanaged managed pod
      then record k {
        cluster = (api.delete (in_namespace "Pod" pod.namespace pod.name) k.cluster).0;
      }
      else k)

  abbrev pub restart_with : List Pod → Endpoints → Doing api
  restart_with pods (listed managed) k = (restart managed pods k, some tt)
  restart_with pods no_such_resource k = (restart [] pods k, some tt)
  restart_with pods not_listed k = (k, none)

  abbrev pub restart_pods : Option (List Pod) → Doing api
  restart_pods none = giving_up api
  restart_pods (some []) = nothing api
  restart_pods (some (pod ∷ pods)) = λ k. restart_with (pod ∷ pods) (api.list_endpoints k.cluster) k

  -- `restartUnmanagedPods`
  unfoldable pub restart_unmanaged_pods : Doing api
  restart_unmanaged_pods k = restart_pods (api.list_pods k.cluster) k

  unfoldable pub finish : Doing api
  finish =
      wait_ready >>= λ _. if env.restart_unmanaged_pods then restart_unmanaged_pods else nothing api

  -- the requests of `Install`, from the secret with the values of Helm on
  unfoldable pub install_manifests : Manifests chart → Doing api
  install_manifests manifests = do
    store_helm_values api chart env
    prepare_kind api chart env manifests env.surroundings.flavor.kind
    install_certs api chart env
    label_nodes api chart env env.nodes_without_cilium
    create_quotas api chart env manifests
    create_accounts api chart env manifests
    create_cluster_roles api chart env manifests
    encryption api chart env
    ingress api chart env manifests
    create_secrets_namespace api chart env (secret_namespace chart manifests)
    create_roles api chart env manifests
    configure api chart env manifests
    create_workloads api chart env manifests
    finish

  abbrev pub install_rendered : Option (Manifests chart) → Doing api
  install_rendered none = giving_up api
  install_rendered (some manifests) =
      if env.helm_gen_values_file == "" then install_manifests manifests else nothing api

  abbrev pub render_and_install : Doing api
  render_and_install k = install_rendered (env.rendered k.params k.native_routing_cidr) k

  -- `Install`
  unfoldable pub install : Doing api
  install =
      if env.list_versions
      then checked api chart env env.versions_listed
      else preinstall api chart env >>= λ _. render_and_install

  abbrev pub rolled_back : Installer api × Option (Unit {0}) → Rollback api
  rolled_back (k, some tt) = record { cluster = k.cluster; cannot_delete = [] }
  rolled_back (k, none) = rollback_installation api env.rollback k

  -- The command: `Install`, and `RollbackInstallation` where it fails.
  unfoldable pub install_command : Installer api → Rollback api
  install_command k = rolled_back (install k)
