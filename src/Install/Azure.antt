-- ===== src/Install/Azure.antt =====
-- install/azure.go: what is asked of the `az` command.
use cilium_cli.Prelude.{
  String, Option, none, some, List, [], ◌∷◌, true, not, ◌&&◌, ◌||◌, ◌==◌, string_eq, if◌then◌else◌,
}
use cilium_cli.Prelude.Acts.{◌>>=◌}
use cilium_cli.Install.{
  Parameters, AzureParameters, Surroundings, AksClusterInfo, Principal, Operation,
}

abbrev pub failing : Operation
failing k = (k, none)

module _ (env : Surroundings) where
  abbrev pub account_args : Parameters → List String
  account_args k =
      "account"
      ∷ "show"
      ∷ (if k.azure.subscription_name == ""
          then []
          else "--subscription" ∷ k.azure.subscription_name ∷ [])

  abbrev pub set_azure : AzureParameters → Operation
  set_azure a k = (record k { azure = a }, some tt)

  abbrev pub set_subscription : Option String → Operation
  set_subscription none = failing
  set_subscription (some id) = λ k. set_azure (record k.azure { subscription_id = id }) k

  -- an answer of `az`, read from JSON
  abbrev pub ask_az {ℓ} : {A : Type ℓ} → (String → Option A) → List String → Option A
  ask_az read args = elim (env.az args) [ none ↦ none | some bytes ↦ read bytes ]

  -- `azureRetrieveSubscriptionID`
  unfoldable pub azure_retrieve_subscription_id : Operation
  azure_retrieve_subscription_id k =
      if k.azure.subscription_id == ""
      then set_subscription (ask_az env.account_id (account_args k)) k
      else (k, some tt)

  abbrev pub set_cluster_info : Option AksClusterInfo → Operation
  set_cluster_info none = failing
  set_cluster_info (some info) = λ k.
      if info.network_plugin == "none"
      then set_azure (record k.azure { is_byocni = true }) k
      else set_azure (record k.azure { aks_node_resource_group = info.node_resource_group }) k

  abbrev pub cluster_args : Parameters → List String
  cluster_args k =
      "aks" ∷ "show" ∷ "--subscription" ∷ k.azure.subscription_id ∷ "--resource-group"
      ∷ k.azure.resource_group_name ∷ "--name" ∷ k.cluster_name ∷ []

  -- `azureRetrieveAKSClusterInfo`
  unfoldable pub azure_retrieve_aks_cluster_info : Operation
  azure_retrieve_aks_cluster_info k =
      if not (k.azure.aks_node_resource_group == "")
      then (k, some tt)
      else if k.azure.resource_group_name == ""
      then (k, none)
      else set_cluster_info (ask_az env.aks_cluster_info (cluster_args k)) k

  -- `azureAutodetect`
  unfoldable pub azure_autodetect : Operation
  azure_autodetect = azure_retrieve_subscription_id >>= λ _. azure_retrieve_aks_cluster_info

  abbrev pub principal_args : Parameters → List String
  principal_args k =
      "ad"
      ∷ "sp"
      ∷ "create-for-rbac"
      ∷ "--scopes"
      ∷ env.concat (env.concat "/subscriptions/" k.azure.subscription_id)
          (env.concat "/resourceGroups/" k.azure.aks_node_resource_group)
      ∷ "--role"
      ∷ "Contributor"
      ∷ []

  abbrev pub set_principal : Option Principal → Operation
  set_principal none = failing
  set_principal (some p) = λ k.
      set_azure
        (record k.azure { tenant_id = p.tenant; client_id = p.app_id; client_secret = p.password })
        k

  abbrev pub autodetect_if_missing : Operation
  autodetect_if_missing k =
      if k.azure.subscription_id == "" || k.azure.aks_node_resource_group == ""
      then azure_autodetect k
      else (k, some tt)

  abbrev pub principal_step : Operation
  principal_step k =
      if (k.azure.tenant_id == "") && (k.azure.client_id == "") && (k.azure.client_secret == "")
      then set_principal (ask_az env.principal (principal_args k)) k
      else if k.azure.tenant_id == "" || k.azure.client_id == "" || k.azure.client_secret == ""
      then (k, none)
      else (k, some tt)

  -- `azureSetupServicePrincipal`
  unfoldable pub azure_setup_service_principal : Operation
  azure_setup_service_principal = autodetect_if_missing >>= λ _. principal_step
