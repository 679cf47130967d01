-- ===== src/Requests/Clusters.antt =====
-- The validation of request bodies in api/gem_api/models/clusters.py, and GcpTargetRequest of
-- api/gem_api/models/validators.py. A body holds JSON values of the types that its model declares.
pub mod Networks
pub mod Accepted
use gem_gdc_emulation_enviro.Requests.Fields.{
  after, refused, FieldError, Validated, valid, invalid, of_result, ◌<*>◌, required, defaulted,
  any_value, in_range, each_item,
}
use gem_gdc_emulation_enviro.Prelude.{
  Text, codes, ℕ, ◌+◌, ◌-◌, List, Option, none, some, is_empty, length, ltb, if◌then◌else◌,
}
use gem_gdc_emulation_enviro.Prelude.Strings.{is_member}
use gem_gdc_emulation_enviro.Config.{Settings}
use gem_gdc_emulation_enviro.Validators.Errors.{bad_option, long_node_names, Result, ok, err, ◌>>=◌}
use gem_gdc_emulation_enviro.Validators.Sanitize.{Input, sanitize_optional_str}
use gem_gdc_emulation_enviro.Validators.Names.{
  validate_email_or_sa, validate_project_id, validate_storage_size, validate_gce_resource_name,
}
use gem_gdc_emulation_enviro.Validators.Zone.{validate_zone_and_region}
use gem_gdc_emulation_enviro.Validators.Networks.{
  validate_network_name, validate_cidr, validate_gateway,
}
use gem_gdc_emulation_enviro.Requests.{
  GcpTargetRequest, SecondaryNetworkConfig, ClusterCreateRequest, ClusterDeleteRequest,
}

-- What the manifest lists, and its defaults.
pub record Catalog : Type 0 where
  pub hardware_variants : List Text
  pub default_hardware_variant : Text
  pub gdc_versions : List Text
  pub default_gdc_version : Text

pub record TargetBody : Type 0 where
  pub project_id : Input
  pub zone : Input
  pub region : Input
  pub provisioning_sa_email : Input

pub record SecondaryNetworkBody : Type 0 where
  pub name : Option Text
  pub vlan_id : Option ℕ
  pub subnet : Option Text
  pub gateway : Option Text
  pub vip_pool : Option Text
  pub pod_cidr : Option Text
  pub per_node_ipam_size : Option ℕ

pub record ClusterCreateBody : Type 0 where
  pub target : TargetBody
  pub cluster_name : Option Text
  pub hardware_variant : Option Text
  pub emulate_gdc_version : Option Text
  pub gcp_cluster_admin_sa : Input
  pub gce_network : Option Text
  pub gce_subnetwork : Option Text
  pub node_storage_size : Option Text
  pub pod_cidr_blocks : Option Text
  pub services_cidr_blocks : Option Text
  pub max_pods_per_node : Option ℕ
  pub secondary_networks : Option (List SecondaryNetworkBody)

pub record ClusterDeleteBody : Type 0 where
  pub target : TargetBody
  pub cluster_name : Option Text
  pub tf_state_bucket : Input

-- The field validators of GcpTargetRequest.
unfoldable pub target_fields : TargetBody → Validated GcpTargetRequest
unfolding sanitize_optional_str validate_project_id validate_email_or_sa
target_fields b =
    valid (λ p z r sa. record { project_id = p; zone = z; region = r; provisioning_sa_email = sa })
    <*> of_result (codes "project_id") (validate_project_id (sanitize_optional_str b.project_id))
    <*> valid (sanitize_optional_str b.zone)
    <*> valid (sanitize_optional_str b.region)
    <*> of_result (codes "provisioning_sa_email") (
        validate_email_or_sa (sanitize_optional_str b.provisioning_sa_email)
          (codes "provisioning_sa_email"))

-- validate_gcp_target_parameters
unfoldable pub validate_gcp_target_parameters : GcpTargetRequest → Result GcpTargetRequest
validate_gcp_target_parameters t = do
  zr ← validate_zone_and_region t.zone t.region
  ok (record t { zone = zr.0; region = zr.1 })

unfoldable pub validate_secondary_network : SecondaryNetworkBody → Validated SecondaryNetworkConfig
unfolding validate_network_name validate_cidr validate_gateway
validate_secondary_network b =
    valid (λ n v s g vips p size. record {
      name = n;
      vlan_id = v;
      subnet = s;
      gateway = g;
      vip_pool = vips;
      pod_cidr = p;
      per_node_ipam_size = size;
    })
    <*> required (codes "name") (λ v. of_result (codes "name") (validate_network_name v)) b.name
    <*> required (codes "vlan_id") (in_range (codes "vlan_id") 1 4094) b.vlan_id
    <*> required (codes "subnet") (λ v. of_result (codes "subnet") (validate_cidr v)) b.subnet
    <*> required (codes "gateway") (λ v. of_result (codes "gateway") (validate_gateway v)) b.gateway
    <*> required (codes "vip_pool") any_value b.vip_pool
    <*> defaulted (codes "10.12.0.0/22") (λ v. of_result (codes "pod_cidr") (validate_cidr v))
        b.pod_cidr
    <*> defaulted 24 any_value b.per_node_ipam_size

-- validate_hardware_variant and validate_gdc_version
unfoldable pub validate_option : Text → List Text → Text → Result Text
unfolding is_member
validate_option field options v =
    if is_member v options then ok v else err (bad_option field v options)

abbrev pub validate_networks :
    Option (List SecondaryNetworkBody) → Validated (Option (List SecondaryNetworkConfig))
validate_networks none = valid none
validate_networks (some bodies) =
    valid some <*> each_item (codes "secondary_networks") 0 validate_secondary_network bodies

-- validate_cluster_name, the same for both requests
abbrev pub validate_cluster_name : Text → Validated Text
validate_cluster_name v =
    of_result (codes "cluster_name") (validate_gce_resource_name v (codes "cluster_name") 26)

-- validate_network_cidr
abbrev pub validate_network_cidr : Text → Text → Validated Text
validate_network_cidr field v = of_result field (validate_cidr v)

unfoldable pub cluster_fields : Catalog → ClusterCreateBody → Validated ClusterCreateRequest
unfolding target_fields validate_option validate_secondary_network validate_gce_resource_name
    sanitize_optional_str validate_email_or_sa validate_storage_size validate_cidr
cluster_fields catalog b =
    valid (λ t n v g sa net sub size pods services max_pods nets. record {
      target = t;
      cluster_name = n;
      hardware_variant = v;
      emulate_gdc_version = g;
      gcp_cluster_admin_sa = sa;
      gce_network = net;
      gce_subnetwork = sub;
      node_storage_size = size;
      pod_cidr_blocks = pods;
      services_cidr_blocks = services;
      max_pods_per_node = max_pods;
      secondary_networks = nets;
    })
    <*> target_fields b.target
    <*> defaulted (codes "gem-cluster-1") validate_cluster_name b.cluster_name
    <*> defaulted catalog.default_hardware_variant
        (λ v.
          of_result (codes "hardware_variant")
            (validate_option (codes "hardware_variant") catalog.hardware_variants v))
        b.hardware_variant
    <*> defaulted catalog.default_gdc_version
        (λ v.
          of_result (codes "emulate_gdc_version")
            (validate_option (codes "emulate_gdc_version") catalog.gdc_versions v))
        b.emulate_gdc_version
    <*> of_result (codes "gcp_cluster_admin_sa") (
        validate_email_or_sa (sanitize_optional_str b.gcp_cluster_admin_sa)
          (codes "gcp_cluster_admin_sa"))
    <*> defaulted (codes "gem-clusters-vpc") any_value b.gce_network
    <*> defaulted (codes "gem-clusters-subnet") any_value b.gce_subnetwork
    <*> defaulted (codes "100GB")
        (λ v. of_result (codes "node_storage_size") (validate_storage_size v)) b.node_storage_size
    <*> defaulted (codes "10.0.0.0/17") (validate_network_cidr (codes "pod_cidr_blocks"))
        b.pod_cidr_blocks
    <*> defaulted (codes "10.96.0.0/12") (validate_network_cidr (codes "services_cidr_blocks"))
        b.services_cidr_blocks
    <*> defaulted 250 (in_range (codes "max_pods_per_node") 1 250) b.max_pods_per_node
    <*> validate_networks b.secondary_networks

-- `value or default`
abbrev pub given_or : Option Text → Text → Text
given_or none d = d
given_or (some v) d = if is_empty v then d else v

-- What the names of the nodes have besides the three names.
abbrev pub node_name_length : Text → Text → Text → ℕ
node_name_length cname z pid = length cname + length z + length pid + 15

unfoldable pub validate_cluster_parameters :
    Settings → ClusterCreateRequest → Result ClusterCreateRequest
validate_cluster_parameters settings r =
    let pid = given_or r.project_id settings.default_project_id in
    let z = given_or r.zone settings.default_zone in
    let room = 63 - length z - length pid - 15 in
    if ltb 63 (node_name_length r.cluster_name z pid)
    then err (long_node_names r.cluster_name pid z (if ltb 1 room then room else 1))
    else ok r

-- The validators behind the fields: the parent's first.
unfoldable pub check_cluster : Settings → ClusterCreateRequest → Result ClusterCreateRequest
unfolding validate_gcp_target_parameters validate_cluster_parameters
check_cluster settings r = do
  t ← validate_gcp_target_parameters r.target
  validate_cluster_parameters settings (record r { target = t })

unfoldable pub validate_cluster_create :
    Settings → Catalog → ClusterCreateBody → Validated ClusterCreateRequest
unfolding cluster_fields check_cluster
validate_cluster_create settings catalog b =
    after (cluster_fields catalog b) (check_cluster settings)

unfoldable pub delete_fields : ClusterDeleteBody → Validated ClusterDeleteRequest
unfolding target_fields validate_gce_resource_name sanitize_optional_str
delete_fields b =
    valid (λ t n bucket. record { target = t; cluster_name = n; tf_state_bucket = bucket })
    <*> target_fields b.target
    <*> required (codes "cluster_name") validate_cluster_name b.cluster_name
    <*> valid (sanitize_optional_str b.tf_state_bucket)

unfoldable pub check_delete : ClusterDeleteRequest → Result ClusterDeleteRequest
unfolding validate_gcp_target_parameters
check_delete r = do t ← validate_gcp_target_parameters r.target; ok (record r { target = t })

unfoldable pub validate_cluster_delete : ClusterDeleteBody → Validated ClusterDeleteRequest
unfolding delete_fields check_delete
validate_cluster_delete b = after (delete_fields b) check_delete
