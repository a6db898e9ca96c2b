-- ===== src/Install/Preserved.antt =====
-- install/install.go, install/certs.go and install/encryption.go: each part of the installation keeps
-- track of an object that the installer deletes in its rollback under the name it created it with.
use cilium_cli.Prelude.{
  String, some, Bool, true, false, ◌==◌, string_eq, ◌≡◌, refl, subst, if◌then◌else◌,
}
use cilium_cli.Prelude.Acts.{◌>>=◌, Kept, bind-Kept}
use cilium_cli.Install.{kind_aks}
use cilium_cli.Install.Objects.{Object, object_eq, Api, Lawful}
use cilium_cli.Install.Manifests.{
  Chart, Manifests, agent_daemon_set, operator_deployment, service_account, cluster_role,
  cluster_role_binding, ingress_class, file_of,
}
use cilium_cli.Install.Steps.{Doing, nothing, giving_up}
use cilium_cli.Install.Cluster.{
  Setup, in_cluster, aws_node, ours, ca_secret, helm_secret, create_ours, create_in_cluster,
}
use cilium_cli.Install.Traced.{Traced, create_and_push-Traced}

-- The chart names its objects as the installer does, for each part of it that is created.
pub record Conventional (api : Api) (chart : Chart) (env : Setup api chart) (m : Manifests chart)
    : Type 0 where
  pub agent_account : service_account chart m "cilium" ≡ "cilium"
  pub operator_account : service_account chart m "cilium-operator" ≡ "cilium-operator"
  pub agent_role : cluster_role chart m "cilium" ≡ "cilium"
  pub operator_role : cluster_role chart m "cilium-operator" ≡ "cilium-operator"
  pub agent_binding : cluster_role_binding chart m "cilium" ≡ "cilium"
  pub operator_binding : cluster_role_binding chart m "cilium-operator" ≡ "cilium-operator"
  pub agent : agent_daemon_set chart m ≡ "cilium"
  pub operator : operator_deployment chart m ≡ "cilium-operator"
  pub config_map :
      chart.name_of (file_of chart m "templates/cilium-configmap.yaml") ≡ "cilium-config"
  pub class : (name : String) → ingress_class chart m ≡ some name → name ≡ "cilium"
  pub azure_secret :
      env.surroundings.flavor.kind ≡ kind_aks
      → chart.name_of (file_of chart m "templates/cilium-operator/secret.yaml") ≡ "cilium-azure"

-- The object is none of those that the installer changes without creating them, deletes by a variable
-- of a loop, deletes in another namespace, or creates without a step for them.
pub record IsTracked (api : Api) (chart : Chart) (env : Setup api chart) (p : Object) : Type 0 where
  pub no_quota : ("ResourceQuota" == p.kind) ≡ false
  pub no_role : ("Role" == p.kind) ≡ false
  pub no_role_binding : ("RoleBinding" == p.kind) ≡ false
  pub no_endpoints : ("Endpoints" == p.kind) ≡ false
  pub no_node : ("Node" == p.kind) ≡ false
  pub no_pod : ("Pod" == p.kind) ≡ false
  pub not_aws_node : (aws_node == p) ≡ false
  pub not_ca_secret : (ca_secret api chart env == p) ≡ false
  pub not_helm_secret : (helm_secret api chart env == p) ≡ false

pub other_kind : (o p : Object) → (o.kind == p.kind) ≡ false → (o == p) ≡ false
other_kind o p h = rw h refl

module _ (api : Api) (law : Lawful api) (s0 : api.State) (p : Object) where
  abbrev pub Keeps : Doing api → Type 0
  Keeps act = Kept (Traced api law s0 p) act

  pub then-Keeps : (m n : Doing api) → Keeps m → Keeps n → Keeps (m >>= λ _. n)
  then-Keeps m n h h' = bind-Kept (Traced api law s0 p) m (λ _. n) h (λ _. h')

  pub nothing-Keeps : Keeps (nothing api)
  nothing-Keeps k t = t

  pub giving_up-Keeps : Keeps (giving_up api)
  giving_up-Keeps k t = t

  pub if-Keeps :
      (b : Bool) (m n : Doing api) → Keeps m → Keeps n → Keeps (λ k. if b then m k else n k)
  if-Keeps true m n h h' = h
  if-Keeps false m n h h' = h'

  module _ (chart : Chart) (env : Setup api chart) where
    pub ours-Keeps :
        (kind created name : String)
        → created ≡ name
        → Keeps (create_ours api chart env kind created name)
    ours-Keeps kind created name e =
        subst (λ x. Keeps (create_ours api chart env kind created x)) e
          (create_and_push-Traced api law s0 p (ours api chart env kind created))

    pub in_cluster-Keeps :
        (kind created name : String)
        → created ≡ name
        → Keeps (create_in_cluster api chart env kind created name)
    in_cluster-Keeps kind created name e =
        subst (λ x. Keeps (create_in_cluster api chart env kind created x)) e
          (create_and_push-Traced api law s0 p (in_cluster kind created))
