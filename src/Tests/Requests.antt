-- ===== src/Tests/Requests.antt =====
-- Runs of the validators of cluster requests and of the manifest.
use gem_gdc_emulation_enviro.Prelude.Strings.{rsplit_head}
use gem_gdc_emulation_enviro.Validators.Zone.{validate_zone_and_region, is_zone}
use gem_gdc_emulation_enviro.Prelude.{codes, ◌+◌, ◌*◌, ◌≡◌, refl, none, some, [], ◌∷◌, arith}
use gem_gdc_emulation_enviro.Validators.Errors.{ok}
use gem_gdc_emulation_enviro.Validators.Sanitize.{is_placeholder, absent, str}
use gem_gdc_emulation_enviro.Validators.Addresses.{parse_address, parse_network}
use gem_gdc_emulation_enviro.Validators.Addresses.RoundTrip.{address_text, network_text}
use gem_gdc_emulation_enviro.Validators.Networks.{validate_cidr, validate_gateway}
use gem_gdc_emulation_enviro.Validators.Networks.Accepted.{network_text-accepted}
use gem_gdc_emulation_enviro.Requests.{ClusterCreateRequest}
use gem_gdc_emulation_enviro.Requests.Clusters.{Catalog, ClusterCreateBody, validate_cluster_create}
use gem_gdc_emulation_enviro.Requests.Clusters.Accepted.{IsValidCluster}
use gem_gdc_emulation_enviro.Manifest.{catalog}
use gem_gdc_emulation_enviro.Manifest.Defaults.{catalog-IsValidCluster}
use gem_gdc_emulation_enviro.Tests.Data.{setup, source}

network_text-accepted_example :
    (validate_gateway (address_text 172 16 12 1) ≡ ok (address_text 172 16 12 1))
    × (parse_address (address_text 172 16 12 1) ≡ some (((172 * 256 + 16) * 256 + 12) * 256 + 1))
    × (validate_cidr (network_text 172 16 12 1 24) ≡ ok (network_text 172 16 12 1 24))
    × (parse_network (network_text 172 16 12 1 24)
        ≡ some record { address = ((172 * 256 + 16) * 256 + 12) * 256 + 1; prefix = 24 })
network_text-accepted_example =
    network_text-accepted 172 16 12 1 24 (omega arith) (omega arith) (omega arith) (omega arith)
      (omega arith)

abbrev read_catalog : Catalog
read_catalog = record {
  hardware_variants = codes "g2-small-64gb" ∷ codes "g2-large" ∷ [];
  default_hardware_variant = codes "g2-large";
  gdc_versions = codes "1.13.0" ∷ [];
  default_gdc_version = codes "1.13.0";
}

-- A body with a secondary network.
abbrev body : ClusterCreateBody
body = record {
  target = record {
    project_id = absent;
    zone = str (codes "us-central1-b");
    region = absent;
    provisioning_sa_email = absent;
  };
  cluster_name = some (codes "edge-1");
  hardware_variant = none;
  emulate_gdc_version = some (codes "1.13.0");
  gcp_cluster_admin_sa = absent;
  gce_network = none;
  gce_subnetwork = none;
  node_storage_size = some (codes "200GB");
  pod_cidr_blocks = none;
  services_cidr_blocks = none;
  max_pods_per_node = some 110;
  secondary_networks = some (
      record {
        name = some (codes "vlan-123");
        vlan_id = some 123;
        subnet = some (codes "172.16.12.0/24");
        gateway = some (codes "172.16.12.1");
        vip_pool = some (codes "172.16.12.200-172.16.12.250");
        pod_cidr = none;
        per_node_ipam_size = none;
      }
      ∷ []);
}

abbrev accepted_request : ClusterCreateRequest
accepted_request = record {
  target = record {
    project_id = none;
    zone = some (codes "us-central1-b");
    region = some (codes "us-central1");
    provisioning_sa_email = none;
  };
  cluster_name = codes "edge-1";
  hardware_variant = codes "g2-large";
  emulate_gdc_version = codes "1.13.0";
  gcp_cluster_admin_sa = none;
  gce_network = codes "gem-clusters-vpc";
  gce_subnetwork = codes "gem-clusters-subnet";
  node_storage_size = codes "200GB";
  pod_cidr_blocks = codes "10.0.0.0/17";
  services_cidr_blocks = codes "10.96.0.0/12";
  max_pods_per_node = 110;
  secondary_networks = some (
      record {
        name = codes "vlan-123";
        vlan_id = 123;
        subnet = codes "172.16.12.0/24";
        gateway = codes "172.16.12.1";
        vip_pool = codes "172.16.12.200-172.16.12.250";
        pod_cidr = codes "10.12.0.0/22";
        per_node_ipam_size = 24;
      }
      ∷ []);
}

catalog-IsValidCluster_example : IsValidCluster setup.settings read_catalog accepted_request
unfolding catalog validate_cluster_create validate_zone_and_region is_placeholder is_zone
    rsplit_head
catalog-IsValidCluster_example =
    catalog-IsValidCluster source read_catalog setup.settings body accepted_request refl refl
