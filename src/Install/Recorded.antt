-- ===== src/Install/Recorded.antt =====
-- install/install.go, install/certs.go and install/encryption.go: the requests of `Install` keep track of
-- such an object.
use cilium_cli.Prelude.{
  String, none, List, [], ◌∷◌, Bool, true, false, ◌==◌, string_eq, ◌≡◌, refl, inr, if◌then◌else◌,
  map,
}
use cilium_cli.Prelude.Acts.{◌>>◌}
use cilium_cli.Install.Objects.{Object, Api, Lawful, Reply, done, not_found, already_exists, failed}
use cilium_cli.Install.Manifests.{
  Chart, Manifests, resource_quotas, service_account, cluster_role, cluster_role_binding,
}
use cilium_cli.Install.Steps.{
  quota_variable, delete_object, delete_held, Doing, nothing, giving_up, push_rollback_step,
  create_and_push, request,
}
use cilium_cli.Install.Cluster.{Setup, in_cluster, ours, ca_secret, create_ours, create_in_cluster}
use cilium_cli.Install.Requests.{
  checked, inherit_ca, create_ca, create_ca_if, get_or_create_ca_secret, load_ca, install_certs,
  label_nodes, create_quota, create_quotas, create_accounts, create_cluster_roles,
}
use cilium_cli.Install.Traced.{
  create_and_push-Traced, create_other-Traced, request-Traced, each_held-Traced, pushed,
}
use cilium_cli.Install.Preserved.{Conventional, IsTracked, other_kind, ours-Keeps, in_cluster-Keeps}
use cilium_cli.Install.Phases.{Keeping, idle, stops, both, either, choose}

module _ (api : Api) (law : Lawful api) (s0 : api.State) (p : Object) (chart : Chart)
    (env : Setup api chart) (tracked : IsTracked api chart env p) where
  abbrev pub Keep : Doing api → Type 0
  Keep = Keeping api law s0 p chart env tracked

  pub own : (o : Object) → Keep (create_and_push api o (delete_object o))
  own = create_and_push-Traced api law s0 p

  pub ours-Keep :
      (kind created name : String)
      → created ≡ name
      → Keep (create_ours api chart env kind created name)
  ours-Keep = ours-Keeps api law s0 p chart env

  pub in_cluster-Keep :
      (kind created name : String)
      → created ≡ name
      → Keep (create_in_cluster api chart env kind created name)
  in_cluster-Keep = in_cluster-Keeps api law s0 p chart env

  pub rest : Keep (nothing api)
  rest = idle api law s0 p chart env tracked

  pub fails : Keep (giving_up api)
  fails = stops api law s0 p chart env tracked

  pub follows : (m n : Doing api) → Keep m → Keep n → Keep (m >> n)
  follows = both api law s0 p chart env tracked

  pub one_of : (b : Bool) (m n : Doing api) → Keep m → Keep n → Keep (if b then m else n)
  one_of = choose api law s0 p chart env tracked

  pub follow_ours :
      (kind created name : String)
      → created ≡ name
      → (n : Doing api) → Keep n
      → Keep (create_ours api chart env kind created name >> n)
  follow_ours kind created name e n h =
      follows (create_ours api chart env kind created name) n (ours-Keep kind created name e) h

  pub follow_in_cluster :
      (kind created name : String)
      → created ≡ name
      → (n : Doing api) → Keep n
      → Keep (create_in_cluster api chart env kind created name >> n)
  follow_in_cluster kind created name e n h =
      follows (create_in_cluster api chart env kind created name) n
        (in_cluster-Keep kind created name e) h

  inherit_ca-Keep : Keep (inherit_ca api chart env)
  inherit_ca-Keep =
      either api law s0 p chart env tracked (env.inherit_ca == "") (nothing api)
        (λ k.
          if env.inherited_ca
          then create_and_push api (ca_secret api chart env)
              (delete_object (ca_secret api chart env)) k
          else (k, none))
        rest
        (either api law s0 p chart env tracked env.inherited_ca
          (create_and_push api (ca_secret api chart env) (delete_object (ca_secret api chart env)))
          (giving_up api) (own (ca_secret api chart env)) fails)

  create_ca-Keep : Keep (create_ca api chart env)
  create_ca-Keep =
      either api law s0 p chart env tracked env.ca_generated
        (request api api.create (ca_secret api chart env)) (giving_up api)
        (request-Traced api law s0 p api.create (ca_secret api chart env)
          (λ s. law.create_others (ca_secret api chart env) p s tracked.not_ca_secret))
        fails

  create_ca_if-Keep : (reply : Reply) → Keep (create_ca_if api chart env reply)
  create_ca_if-Keep done = rest
  create_ca_if-Keep not_found = create_ca-Keep
  create_ca_if-Keep already_exists = fails
  create_ca_if-Keep failed = fails

  load_ca-Keep : Keep (load_ca api chart env)
  unfolding push_rollback_step
  load_ca-Keep k =
      either api law s0 p chart env tracked (env.ca_is_complete k.cluster) (nothing api)
        (λ k'. (push_rollback_step api (delete_object (ca_secret api chart env)) k', none)) rest
        (λ k' t.
          pushed api law s0 p k'.cluster (delete_object (ca_secret api chart env)) k'.rollback_steps
            (inr (tracked.not_ca_secret, refl)) t)
        k

  pub checked-Keep : (b : Bool) → Keep (checked api chart env b)
  checked-Keep true = rest
  checked-Keep false = fails

  pub install_certs-Keep : Keep (install_certs api chart env)
  unfolding install_certs
  install_certs-Keep = follows (inherit_ca api chart env) _ inherit_ca-Keep (
      follows (get_or_create_ca_secret api chart env) _
        (λ k. create_ca_if-Keep (api.get (ca_secret api chart env) k.cluster) k)
        (follows (load_ca api chart env) _ load_ca-Keep (
          follows (checked api chart env env.certificate_generated) _
            (checked-Keep env.certificate_generated)
            (own (ours api chart env "Secret" "hubble-server-certs")))))

  pub label_nodes-Keep : (nodes : List String) → Keep (label_nodes api chart env nodes)
  unfolding label_nodes
  label_nodes-Keep [] = rest
  label_nodes-Keep (node ∷ nodes) =
      follows (request api api.patch (in_cluster "Node" node)) (label_nodes api chart env nodes)
        (request-Traced api law s0 p api.patch (in_cluster "Node" node) (λ s.
          law.patch_others (in_cluster "Node" node) p s
            (other_kind (in_cluster "Node" node) p tracked.no_node)))
        (label_nodes-Keep nodes)

  pub create_quotas-Keep : (m : Manifests chart) → Keep (create_quotas api chart env m)
  create_quotas-Keep m =
      each_held-Traced api law s0 p quota_variable (create_quota api chart env)
        (map (λ quota. (env.namespace, quota.1)) (resource_quotas chart m))
        (λ named.
          create_other-Traced api law s0 p (ours api chart env "ResourceQuota" named.1)
            (delete_held quota_variable)
            (other_kind (ours api chart env "ResourceQuota" named.1) p tracked.no_quota) tt)

  module _ (m : Manifests chart) (names : Conventional api chart env m) where
    pub create_accounts-Keep : Keep (create_accounts api chart env m)
    unfolding create_accounts
    create_accounts-Keep =
        follow_ours "ServiceAccount" (service_account chart m "cilium") "cilium" names.agent_account
          (create_ours api chart env "ServiceAccount" (service_account chart m "cilium-operator")
            "cilium-operator")
          (ours-Keep "ServiceAccount" (service_account chart m "cilium-operator") "cilium-operator"
            names.operator_account)

    operator_binding-Keep : Keep (
        create_in_cluster api chart env "ClusterRoleBinding"
          (cluster_role_binding chart m "cilium-operator")
          "cilium-operator")
    operator_binding-Keep =
        in_cluster-Keep "ClusterRoleBinding" (cluster_role_binding chart m "cilium-operator")
          "cilium-operator" names.operator_binding

    pub create_cluster_roles-Keep : Keep (create_cluster_roles api chart env m)
    unfolding create_cluster_roles
    create_cluster_roles-Keep =
        follow_in_cluster "ClusterRole" (cluster_role chart m "cilium") "cilium" names.agent_role _
          (follow_in_cluster "ClusterRoleBinding" (cluster_role_binding chart m "cilium") "cilium"
            names.agent_binding _
            (follow_in_cluster "ClusterRole" (cluster_role chart m "cilium-operator")
              "cilium-operator" names.operator_role
              (create_in_cluster api chart env "ClusterRoleBinding"
                (cluster_role_binding chart m "cilium-operator") "cilium-operator")
              operator_binding-Keep))
