-- ===== src/Install.antt =====
-- install/autodetect.go and install/azure.go: the parameters of an installation, and what is asked of
-- the cluster and of Azure to complete them.
pub mod Objects
pub mod Manifests
pub mod Steps
pub mod Cluster
pub mod Requests
pub mod Installation
pub mod Traced
pub mod Preserved
pub mod Phases
pub mod Recorded
pub mod Created
pub mod Covered
pub mod Restored
pub mod Leftover
pub mod Azure
pub mod Autodetect
pub mod Masquerading
pub mod Modes
pub mod Validity
use cilium_cli.Prelude.{ℕ, String, Option, none, some, List, Bool}
use cilium_cli.Prelude.Acts.{Act}

abbrev pub datapath_tunnel : String
datapath_tunnel = "tunnel"

abbrev pub datapath_aws_eni : String
datapath_aws_eni = "aws-eni"

abbrev pub datapath_gke : String
datapath_gke = "gke"

abbrev pub datapath_azure : String
datapath_azure = "azure"

abbrev pub datapath_aks_byocni : String
datapath_aks_byocni = "aks-byocni"

abbrev pub encryption_unspecified : String
encryption_unspecified = ""

abbrev pub encryption_disabled : String
encryption_disabled = "disabled"

abbrev pub encryption_ipsec : String
encryption_ipsec = "ipsec"

abbrev pub encryption_wireguard : String
encryption_wireguard = "wireguard"

pub data Kind : Type 0 where
  kind_unknown kind_minikube kind_kind kind_eks kind_gke kind_aks kind_microk8s : Kind
  kind_rancher_desktop kind_k3s : Kind

pub record Flavor : Type 0 where
  pub kind : Kind
  pub cluster_name : String

pub record AzureParameters : Type 0 where
  pub resource_group_name : String
  pub aks_node_resource_group : String
  pub subscription_name : String
  pub subscription_id : String
  pub tenant_id : String
  pub client_id : String
  pub client_secret : String
  pub is_byocni : Bool

-- the parameters that the detection reads or sets
pub record Parameters : Type 0 where
  pub datapath_mode : String
  pub kube_proxy_replacement : String
  pub user_set_kube_proxy_replacement : Bool
  pub cluster_name : String
  pub encryption : String
  pub disable_checks : List String
  pub helm_values : List String
  pub azure : AzureParameters

-- `endpoints` of a service: the addresses and the ports of each subset
pub record Subset : Type 0 where
  pub addresses : List String
  pub ports : List ℕ

-- a validation check for a kind of cluster, and whether it succeeds
pub record Check : Type 0 where
  pub name : String
  pub succeeds : Bool

pub record AksClusterInfo : Type 0 where
  pub node_resource_group : String
  pub network_plugin : String

pub record Principal : Type 0 where
  pub app_id : String
  pub password : String
  pub tenant : String

-- What the `az` command and the cluster answer, `none` for an error, and what Go's library computes:
-- the output of `az` as read from JSON, `strings.ReplaceAll` of "_" by "-", `strings.Contains`,
-- `strings.HasPrefix`, the regular expression for a cluster name, concatenation, and a port as digits.
pub record Surroundings : Type 0 where
  pub flavor : Flavor
  pub checks : Kind → List Check
  pub az : List String → Option String
  pub account_id : String → Option String
  pub aks_cluster_info : String → Option AksClusterInfo
  pub principal : String → Option Principal
  pub daemon_sets : Option (List String)
  pub api_server : String × String
  pub kubernetes_endpoints : Option (List Subset)
  pub with_dashes : String → String
  pub contains : String → String → Bool
  pub has_prefix : String → String → Bool
  pub is_cluster_name : String → Bool
  pub concat : String → String → String
  pub show_port : ℕ → String

-- an operation of the installer, which may return an error
abbrev pub Operation : Type 0
Operation = Act Parameters (Unit {0})
