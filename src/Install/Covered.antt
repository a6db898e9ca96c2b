-- ===== src/Install/Covered.antt =====
-- install/install.go, install/certs.go and install/encryption.go: the rest of `Install` keeps track of such
-- an object.
use cilium_cli.Install.Objects.{object_eq}
use cilium_cli.Prelude.{
  String, Option, none, some, List, [], ◌∷◌, Bool, true, false, ◌||◌, ◌==◌, string_eq, ◌≡◌, refl,
  if◌then◌else◌,
}
use cilium_cli.Prelude.Acts.{◌>>◌}
use cilium_cli.Install.{Parameters}
use cilium_cli.Install.Objects.{
  Object, Api, Lawful, Pod, Endpoints, listed, no_such_resource, not_listed, contains,
}
use cilium_cli.Install.Manifests.{Chart, Manifests}
use cilium_cli.Install.Steps.{delete_object, Installer, Doing, nothing, giving_up, create_and_push}
use cilium_cli.Install.Cluster.{Setup, in_namespace, preinstall, store_helm_values, prepare_kind}
use cilium_cli.Install.Requests.{
  checked, install_certs, label_nodes, create_quotas, create_accounts, create_cluster_roles,
  encryption, ingress, create_secrets_namespace, create_roles, configure, create_workloads,
}
use cilium_cli.Install.Traced.{Traced, unchanged}
use cilium_cli.Install.Preserved.{Conventional, IsTracked, other_kind}
use cilium_cli.Install.Phases.{either}
use cilium_cli.Install.Installation.{
  wait_ready, restart, restart_with, restart_pods, restart_unmanaged_pods, finish,
  install_manifests, install_rendered, render_and_install, install,
}
use cilium_cli.Install.Phases.{preinstall-Keeps, store_helm_values-Keeps, prepare_kind-Keeps}
use cilium_cli.Install.Recorded.{
  Keep, own, rest, fails, follows, one_of, checked-Keep, install_certs-Keep, label_nodes-Keep,
  create_quotas-Keep, create_accounts-Keep, create_cluster_roles-Keep,
}
use cilium_cli.Install.Manifests.{secret_namespace}
use cilium_cli.Install.Installation.{is_unmanaged}
use cilium_cli.Install.Created.{
  encryption-Keep, create_secrets_namespace-Keep, create_roles-Keep, ingress-Keep, configure-Keep,
  create_workloads-Keep,
}

module _ (api : Api) (law : Lawful api) (s0 : api.State) (p : Object) (chart : Chart)
    (env : Setup api chart) (tracked : IsTracked api chart env p) where
  abbrev Holding : Doing api → Type 0
  Holding = Keep api law s0 p chart env tracked

  holds : Holding (nothing api)
  holds = rest api law s0 p chart env tracked

  follow : (m n : Doing api) → Holding m → Holding n → Holding (m >> n)
  follow = follows api law s0 p chart env tracked

  choice : (b : Bool) (m n : Doing api) → Holding m → Holding n → Holding (if b then m else n)
  choice = one_of api law s0 p chart env tracked

  branch :
      (b : Bool) (m n : Doing api) → Holding m → Holding n → Holding (λ k. if b then m k else n k)
  branch = either api law s0 p chart env tracked

  itself : (o : Object) → Holding (create_and_push api o (delete_object o))
  itself = own api law s0 p chart env tracked

  failing : Holding (giving_up api)
  failing = fails api law s0 p chart env tracked

  wait_ready-Keep : Holding (wait_ready api chart env)
  unfolding wait_ready
  wait_ready-Keep k =
      branch (env.wait || env.restart_unmanaged_pods)
        (λ k'. checked api chart env (env.becomes_ready k'.cluster) k') (nothing api)
        (λ k'. checked-Keep api law s0 p chart env tracked (env.becomes_ready k'.cluster) k') holds
        k

  delete_pod :
      (pod : Object) (k : Installer api)
      → (pod == p) ≡ false
      → contains pod p ≡ false
      → Traced api law s0 p k
      → Traced api law s0 p (record k { cluster = (api.delete pod k.cluster).0 })
  delete_pod pod k other outside t =
      unchanged api law s0 p k.cluster (api.delete pod k.cluster).0 k.rollback_steps
        (law.delete_others pod p k.cluster other outside) t

  restart_one-Traced :
      (unmanaged : Bool) (pod : Pod) (k : Installer api)
      → Traced api law s0 p k
      → Traced api law s0 p (
          if unmanaged
          then record k {
            cluster = (api.delete (in_namespace "Pod" pod.namespace pod.name) k.cluster).0;
          }
          else k)
  restart_one-Traced true pod k t =
      delete_pod (in_namespace "Pod" pod.namespace pod.name) k
        (other_kind (in_namespace "Pod" pod.namespace pod.name) p tracked.no_pod) refl t
  restart_one-Traced false pod k t = t

  restart-Traced :
      (managed : List (String × String)) (pods : List Pod) (k : Installer api)
      → Traced api law s0 p k
      → Traced api law s0 p (restart api chart env managed pods k)
  unfolding restart
  restart-Traced managed [] k t = t
  restart-Traced managed (pod ∷ pods) k t =
      restart-Traced managed pods _
        (restart_one-Traced (is_unmanaged api chart env managed pod) pod k t)

  restart_with-Keep :
      (pods : List Pod) (endpoints : Endpoints)
      → Holding (restart_with api chart env pods endpoints)
  restart_with-Keep pods (listed managed) k t = restart-Traced managed pods k t
  restart_with-Keep pods no_such_resource k t = restart-Traced [] pods k t
  restart_with-Keep pods not_listed k t = t

  restart_pods-Keep : (pods : Option (List Pod)) → Holding (restart_pods api chart env pods)
  restart_pods-Keep none = failing
  restart_pods-Keep (some []) = holds
  restart_pods-Keep (some (pod ∷ pods)) =
      λ k. restart_with-Keep (pod ∷ pods) (api.list_endpoints k.cluster) k

  restart_unmanaged_pods-Keep : Holding (restart_unmanaged_pods api chart env)
  unfolding restart_unmanaged_pods
  restart_unmanaged_pods-Keep k = restart_pods-Keep (api.list_pods k.cluster) k

  finish-Keep : Holding (finish api chart env)
  unfolding finish
  finish-Keep =
      follow (wait_ready api chart env)
        (if env.restart_unmanaged_pods then restart_unmanaged_pods api chart env else nothing api)
        wait_ready-Keep
        (choice env.restart_unmanaged_pods (restart_unmanaged_pods api chart env) (nothing api)
          restart_unmanaged_pods-Keep holds)

  module _ (m : Manifests chart) (names : Conventional api chart env m) where
    -- what is created after the quotas
    pub objects-Keep : Holding (
        create_accounts api chart env m
        >> (create_cluster_roles api chart env m
            >> (encryption api chart env
                >> (ingress api chart env m
                    >> (create_secrets_namespace api chart env (secret_namespace chart m)
                        >> (create_roles api chart env m
                            >> (configure api chart env m
                                >> (create_workloads api chart env m >> finish api chart env))))))))
    objects-Keep =
        follow (create_accounts api chart env m) _
          (create_accounts-Keep api law s0 p chart env tracked m names)
          (follow (create_cluster_roles api chart env m) _
            (create_cluster_roles-Keep api law s0 p chart env tracked m names)
            (follow (encryption api chart env) _ (encryption-Keep api law s0 p chart env tracked) (
              follow (ingress api chart env m) _
                (ingress-Keep api law s0 p chart env tracked m names)
                (follow (create_secrets_namespace api chart env (secret_namespace chart m)) _
                  (create_secrets_namespace-Keep api law s0 p chart env tracked
                    (secret_namespace chart m))
                  (follow (create_roles api chart env m) _
                    (create_roles-Keep api law s0 p chart env tracked m)
                    (follow (configure api chart env m) _
                      (configure-Keep api law s0 p chart env tracked m names)
                      (follow (create_workloads api chart env m) (finish api chart env)
                        (create_workloads-Keep api law s0 p chart env tracked m names)
                        finish-Keep)))))))

  install_manifests-Keep :
      (m : Manifests chart)
      → Conventional api chart env m
      → Holding (install_manifests api chart env m)
  unfolding install_manifests
  install_manifests-Keep m names =
      follow (store_helm_values api chart env) _
        (store_helm_values-Keeps api law s0 p chart env tracked)
        (follow (prepare_kind api chart env m env.surroundings.flavor.kind) _
          (prepare_kind-Keeps api law s0 p chart env tracked m env.surroundings.flavor.kind
            names.azure_secret)
          (follow (install_certs api chart env) _
            (install_certs-Keep api law s0 p chart env tracked)
            (follow (label_nodes api chart env env.nodes_without_cilium) _
              (label_nodes-Keep api law s0 p chart env tracked env.nodes_without_cilium)
              (follow (create_quotas api chart env m) _
                (create_quotas-Keep api law s0 p chart env tracked m) (objects-Keep m names)))))

  install_rendered-Keep :
      (rendered : Option (Manifests chart))
      → ((m : Manifests chart) → rendered ≡ some m → Conventional api chart env m)
      → Holding (install_rendered api chart env rendered)
  install_rendered-Keep none h = failing
  install_rendered-Keep (some m) h =
      choice (env.helm_gen_values_file == "") (install_manifests api chart env m) (nothing api)
        (install_manifests-Keep m (h m refl)) holds

  -- `Install`, where the chart names its objects as the installer does
  pub install-Keep :
      ((params : Parameters) (cidr : String) (m : Manifests chart)
        → env.rendered params cidr ≡ some m
        → Conventional api chart env m)
      → Holding (install api chart env)
  unfolding install
  install-Keep names =
      choice env.list_versions (checked api chart env env.versions_listed)
        (preinstall api chart env >> render_and_install api chart env)
        (checked-Keep api law s0 p chart env tracked env.versions_listed)
        (follow (preinstall api chart env) (render_and_install api chart env)
          (preinstall-Keeps api law s0 p chart env tracked)
          (λ k.
            install_rendered-Keep (env.rendered k.params k.native_routing_cidr)
              (names k.params k.native_routing_cidr) k))
