-- ===== src/Requests.antt =====
-- The validated requests of api/gem_api/models: clusters.py, workstation.py and edge_router.py.
pub mod Fields
pub mod Clusters
use gem_gdc_emulation_enviro.Prelude.{Text, ℕ, Option, List}

-- GcpTargetRequest of validators.py
pub record GcpTargetRequest : Type 0 where
  pub project_id : Option Text
  pub zone : Option Text
  pub region : Option Text
  pub provisioning_sa_email : Option Text

pub record SecondaryNetworkConfig : Type 0 where
  pub name : Text
  pub vlan_id : ℕ
  pub subnet : Text
  pub gateway : Text
  pub vip_pool : Text
  pub pod_cidr : Text
  pub per_node_ipam_size : ℕ

pub record ClusterCreateRequest : Type 0 where
  pub target : GcpTargetRequest
  pub open target use *
  pub cluster_name : Text
  pub hardware_variant : Text
  pub emulate_gdc_version : Text
  pub gcp_cluster_admin_sa : Option Text
  pub gce_network : Text
  pub gce_subnetwork : Text
  pub node_storage_size : Text
  pub pod_cidr_blocks : Text
  pub services_cidr_blocks : Text
  pub max_pods_per_node : ℕ
  pub secondary_networks : Option (List SecondaryNetworkConfig)

pub record ClusterDeleteRequest : Type 0 where
  pub target : GcpTargetRequest
  pub open target use *
  pub cluster_name : Text
  pub tf_state_bucket : Option Text

pub record WorkstationCreateRequest : Type 0 where
  pub target : GcpTargetRequest
  pub open target use *
  pub gce_network : Text
  pub gce_subnetwork : Text
  pub workstation_ip : Option Text

pub record WorkstationDeleteRequest : Type 0 where
  pub target : GcpTargetRequest
  pub open target use *
  pub tf_state_bucket : Option Text

pub record EdgeRouterCreateRequest : Type 0 where
  pub target : GcpTargetRequest
  pub open target use *
  pub edge_router_name : Text
  pub machine_type : Text
  pub gce_network : Text
  pub gce_subnetwork : Text

pub record EdgeRouterDeleteRequest : Type 0 where
  pub target : GcpTargetRequest
  pub open target use *
  pub edge_router_name : Text
  pub tf_state_bucket : Option Text
