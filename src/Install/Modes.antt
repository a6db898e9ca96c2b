-- ===== src/Install/Modes.antt =====
-- install/autodetect.go: `detectDatapathMode` and what it leaves as it was.
use cilium_cli.Prelude.{
  String, Option, none, some, Bool, true, false, not, ◌&&◌, ◌||◌, ◌==◌, string_eq, if◌then◌else◌,
  ◌≡◌, refl, Bool-cases, inl, inr,
}
use cilium_cli.Prelude.Acts.{◌>>=◌, Kept, bind-Kept, Ensures, bind-Ensures}
use cilium_cli.Install.{
  datapath_tunnel, datapath_aws_eni, datapath_gke, datapath_azure, datapath_aks_byocni, Kind,
  kind_unknown, kind_minikube, kind_kind, kind_eks, kind_gke, kind_aks, kind_microk8s,
  kind_rancher_desktop, kind_k3s, Parameters, AksClusterInfo, Surroundings,
}
use cilium_cli.Install.Azure.{
  set_subscription, ask_az, account_args, azure_retrieve_subscription_id, set_cluster_info,
  cluster_args, azure_retrieve_aks_cluster_info, azure_autodetect,
}
use cilium_cli.Install.Autodetect.{disable_kpr, azure_mode, mode_of_kind}

abbrev After : (Parameters → Type 0) → Parameters × Option (Unit {0}) → Type 0
After Q x = Q x.0

pub if-kept {ℓ κ} :
    {A : Type ℓ} (Q : A → Type κ) (b : Bool) {x y : A} → Q x → Q y → Q (if b then x else y)
if-kept Q true p q = p
if-kept Q false p q = q

pub if-cases {ℓ κ} :
    {A : Type ℓ} (Q : A → Type κ) (b : Bool) {x y : A}
    → (b ≡ true → Q x)
    → (b ≡ false → Q y)
    → Q (if b then x else y)
if-cases Q true p q = p refl
if-cases Q false p q = q refl

module _ (env : Surroundings) where
  -- the encryption, the Helm values and the checks left out are as they were
  abbrev pub Unchanged : Parameters → Parameters → Type 0
  Unchanged k k' = (k'.encryption ≡ k.encryption) × (k'.helm_values ≡ k.helm_values)

  module _ (k : Parameters) where
    set_subscription-Unchanged : (id : Option String) → Kept (Unchanged k) (set_subscription env id)
    set_subscription-Unchanged none s h = h
    set_subscription-Unchanged (some id) s h = h

    subscription-Unchanged : Kept (Unchanged k) (azure_retrieve_subscription_id env)
    unfolding azure_retrieve_subscription_id
    subscription-Unchanged s h =
        if-kept (After (Unchanged k)) (s.azure.subscription_id == "")
          (set_subscription-Unchanged (ask_az env env.account_id (account_args env s)) s h) h

    set_cluster_info-Unchanged :
        (info : Option AksClusterInfo) → Kept (Unchanged k) (set_cluster_info env info)
    set_cluster_info-Unchanged none s h = h
    set_cluster_info-Unchanged (some info) s h =
        if-kept (After (Unchanged k)) (info.network_plugin == "none") h h

    cluster_info-Unchanged : Kept (Unchanged k) (azure_retrieve_aks_cluster_info env)
    unfolding azure_retrieve_aks_cluster_info
    cluster_info-Unchanged s h =
        if-kept (After (Unchanged k)) (not (s.azure.aks_node_resource_group == "")) h (
          if-kept (After (Unchanged k)) (s.azure.resource_group_name == "") h
            (set_cluster_info-Unchanged (ask_az env env.aks_cluster_info (cluster_args env s)) s h))

    pub azure-Unchanged : Kept (Unchanged k) (azure_autodetect env)
    unfolding azure_autodetect
    azure-Unchanged =
        bind-Kept (Unchanged k) (azure_retrieve_subscription_id env)
          (λ _. azure_retrieve_aks_cluster_info env) subscription-Unchanged
          (λ _. cluster_info-Unchanged)

    disable_kpr-Unchanged : (b : Bool) → Kept (Unchanged k) (disable_kpr env b)
    disable_kpr-Unchanged b s h =
        if-kept (After (Unchanged k)) (b && (s.kube_proxy_replacement == "")) h h

  abbrev pub is_mode : String → Bool
  is_mode mode =
      mode == datapath_tunnel
      || mode == datapath_aws_eni
      || mode == datapath_gke
      || mode == datapath_azure
      || mode == datapath_aks_byocni

  -- a mode that the user gave stays, and else it is one of the known modes
  abbrev pub mode_settled : Parameters → Parameters → Bool
  mode_settled k k' =
      if k.datapath_mode == ""
      then is_mode k'.datapath_mode
      else k'.datapath_mode == k.datapath_mode

  -- the encryption and the Helm values are as they were, and the mode is a known one
  abbrev pub WithMode : Parameters → Parameters → Type 0
  WithMode k k' = Unchanged k k' × (is_mode k'.datapath_mode ≡ true)

  module _ (k : Parameters) where
    disable_kpr-WithMode : (b : Bool) → Kept (WithMode k) (disable_kpr env b)
    disable_kpr-WithMode b s h =
        if-kept (After (WithMode k)) (b && (s.kube_proxy_replacement == "")) h h

    azure_mode-WithMode : Ensures (Unchanged k) (azure_mode env) (WithMode k)
    azure_mode-WithMode s a h e = elim (Bool-cases s.azure.is_byocni) [
      | inl byocni ↦ (h, rw byocni refl)
      | inr azure ↦ (h, rw azure refl)
    ]

    pub mode_of_kind-WithMode :
        (b : Bool) (kind : Kind) → Ensures (Unchanged k) (mode_of_kind env b kind) (WithMode k)
    mode_of_kind-WithMode b kind_unknown s a h e = (h, refl)
    mode_of_kind-WithMode b kind_minikube s a h e = (h, refl)
    mode_of_kind-WithMode b kind_eks s a h e = (h, refl)
    mode_of_kind-WithMode b kind_gke s a h e = (h, refl)
    mode_of_kind-WithMode b kind_microk8s s a h e = (h, refl)
    mode_of_kind-WithMode b kind_rancher_desktop s a h e = (h, refl)
    mode_of_kind-WithMode b kind_k3s s a h e = (h, refl)
    mode_of_kind-WithMode b kind_kind s a h e = disable_kpr-WithMode b _ (h, refl)
    mode_of_kind-WithMode b kind_aks s a h e =
        bind-Ensures (Unchanged k) (WithMode k) (WithMode k)
          (azure_autodetect env >>= (λ _. azure_mode env)) (λ _. disable_kpr env b)
          (bind-Ensures (Unchanged k) (Unchanged k) (WithMode k) (azure_autodetect env)
            (λ _. azure_mode env) (λ s a h e. azure-Unchanged k s h) (λ _. azure_mode-WithMode))
          (λ _. λ s a h e. disable_kpr-WithMode b s h) s a h e
