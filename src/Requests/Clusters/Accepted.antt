-- ===== src/Requests/Clusters/Accepted.antt =====
-- What the bodies of cluster requests hold once api/gem_api/models/clusters.py has accepted them.
use gem_gdc_emulation_enviro.Requests.Clusters.Networks.{
  IsValidNetwork, secondary_network-IsValid, Ensures-IsCidr, IsCidr-of,
}
use gem_gdc_emulation_enviro.Validators.Networks.Accepted.{passed, IsCidr}
use gem_gdc_emulation_enviro.Prelude.{
  Text, codes, ℕ, ◌≤◌, ◌≡◌, refl, sym, subst, Option, none, some, List, All, true, Bool-cases, inl,
  inr, arith, ltb,
}
use gem_gdc_emulation_enviro.Prelude.Strings.{is_member}
use gem_gdc_emulation_enviro.Config.{Settings}
use gem_gdc_emulation_enviro.Validators.Errors.{Result, ok, err, ◌>>=◌, bad_option}
use gem_gdc_emulation_enviro.Validators.Names.{validate_gce_resource_name}
use gem_gdc_emulation_enviro.Validators.Names.Accepted.{
  IsResourceName, validate_gce_resource_name_iff,
}
use gem_gdc_emulation_enviro.Validators.Zone.{validate_zone_and_region}
use gem_gdc_emulation_enviro.Validators.Zone.Consistency.{
  Consistent, validate_zone_and_region-Consistent,
}
use gem_gdc_emulation_enviro.Validators.Networks.{validate_cidr}
use gem_gdc_emulation_enviro.Requests.{
  GcpTargetRequest, SecondaryNetworkConfig, ClusterCreateRequest,
}
use gem_gdc_emulation_enviro.Requests.Fields.{valid, of_result}
use gem_gdc_emulation_enviro.Requests.Fields.Ensures.{
  Ensures, Ensures-valid, Ensures-of_result, Ensures-defaulted, Ensures-<*>, Ensures-any, InRange,
  Ensures-in_range, Ensures-each_item, Ensures-after,
}
use gem_gdc_emulation_enviro.Requests.Clusters.{
  Catalog, SecondaryNetworkBody, ClusterCreateBody, validate_gcp_target_parameters, validate_option,
  validate_networks, validate_cluster_name, cluster_fields, given_or, node_name_length,
  validate_cluster_parameters, check_cluster, validate_cluster_create,
}

default_pod_blocks : IsCidr (codes "10.0.0.0/17")
unfolding validate_cidr
default_pod_blocks = IsCidr-of (codes "10.0.0.0/17") refl

default_service_blocks : IsCidr (codes "10.96.0.0/12")
unfolding validate_cidr
default_service_blocks = IsCidr-of (codes "10.96.0.0/12") refl

default_name : IsResourceName 26 (codes "gem-cluster-1")
unfolding validate_gce_resource_name
default_name =
    ((validate_gce_resource_name_iff (codes "gem-cluster-1") (codes "cluster_name") 26
        (codes "gem-cluster-1")).0
      refl).1

-- An optional list of networks, each of them valid.
pub AllValid : Option (List SecondaryNetworkConfig) → Type 0
AllValid none = Unit
AllValid (some nets) = All IsValidNetwork nets

Ensures-networks : (o : Option (List SecondaryNetworkBody)) → Ensures AllValid (validate_networks o)
unfolding AllValid
Ensures-networks none = Ensures-valid AllValid none tt
Ensures-networks (some bodies) =
    Ensures-<*> (All IsValidNetwork) AllValid (valid some) _ (Ensures-valid _ some (λ nets h. h)) (
      Ensures-each_item IsValidNetwork (codes "secondary_networks") 0 _ bodies
        secondary_network-IsValid)

Ensures-name : (v : Text) → Ensures (IsResourceName 26) (validate_cluster_name v)
Ensures-name v =
    Ensures-of_result (IsResourceName 26) (codes "cluster_name") _
      (λ w e. ((validate_gce_resource_name_iff v (codes "cluster_name") 26 w).0 e).1)

-- A value that the catalog lists.
IsListed : List Text → Text → Type 0
IsListed options v = is_member v options ≡ true

Ensures-option :
    (field : Text) (options : List Text) (v : Text)
    → Ensures (IsListed options) (of_result field (validate_option field options v))
unfolding validate_option IsListed
Ensures-option field options v = Ensures-of_result (IsListed options) field _ (λ w e.
    let (listed, same) = passed (is_member v options) (bad_option field v options) e in
    subst (IsListed options) (sym same) listed)

-- What the field validators establish.
pub record FieldsValid (catalog : Catalog) (r : ClusterCreateRequest) : Type 0 where
  pub name : IsResourceName 26 r.cluster_name
  pub variant : is_member r.hardware_variant catalog.hardware_variants ≡ true
  pub version : is_member r.emulate_gdc_version catalog.gdc_versions ≡ true
  pub pods : IsCidr r.pod_cidr_blocks
  pub services : IsCidr r.services_cidr_blocks
  pub max_pods : InRange 1 250 r.max_pods_per_node
  pub networks : AllValid r.secondary_networks

module _ (catalog : Catalog)
    (variant_listed : is_member catalog.default_hardware_variant catalog.hardware_variants ≡ true)
    (version_listed : is_member catalog.default_gdc_version catalog.gdc_versions ≡ true) where
  cluster_fields-FieldsValid :
      (b : ClusterCreateBody) → Ensures (FieldsValid catalog) (cluster_fields catalog b)
  unfolding cluster_fields IsListed
  cluster_fields-FieldsValid b =
      Ensures-<*> AllValid (FieldsValid catalog) _ _
        (Ensures-<*> (InRange 1 250) _ _ _
          (Ensures-<*> IsCidr _ _ _
            (Ensures-<*> IsCidr _ _ _
              (Ensures-<*> (λ size. Unit {0}) _ _ _
                (Ensures-<*> (λ sub. Unit {0}) _ _ _
                  (Ensures-<*> (λ net. Unit {0}) _ _ _
                    (Ensures-<*> (λ sa. Unit {0}) _ _ _
                      (Ensures-<*> (IsListed catalog.gdc_versions) _ _ _
                        (Ensures-<*> (IsListed catalog.hardware_variants) _ _ _
                          (Ensures-<*> (IsResourceName 26) _ _ _
                            (Ensures-<*> (λ t. Unit {0}) _ _ _
                              (Ensures-valid _ _
                                (λ t ht n hn v hv g hg sa hsa net hnet sub hsub size hsize pods
                                    hpods services hservices most hmost nets hnets.
                                  record {
                                    name = hn;
                                    variant = hv;
                                    version = hg;
                                    pods = hpods;
                                    services = hservices;
                                    max_pods = hmost;
                                    networks = hnets;
                                  }))
                              (Ensures-any _))
                            (Ensures-defaulted (IsResourceName 26) _ _ b.cluster_name default_name
                              Ensures-name))
                          (Ensures-defaulted (IsListed catalog.hardware_variants) _ _
                            b.hardware_variant variant_listed
                            (Ensures-option (codes "hardware_variant") catalog.hardware_variants)))
                        (Ensures-defaulted (IsListed catalog.gdc_versions) _ _ b.emulate_gdc_version
                          version_listed
                          (Ensures-option (codes "emulate_gdc_version") catalog.gdc_versions)))
                      (Ensures-any _))
                    (Ensures-any _))
                  (Ensures-any _))
                (Ensures-any _))
              (Ensures-defaulted IsCidr _ _ b.pod_cidr_blocks default_pod_blocks
                (Ensures-IsCidr (codes "pod_cidr_blocks"))))
            (Ensures-defaulted IsCidr _ _ b.services_cidr_blocks default_service_blocks
              (Ensures-IsCidr (codes "services_cidr_blocks"))))
          (Ensures-defaulted (InRange 1 250) _ _ b.max_pods_per_node
            (record { above = omega arith; below = omega arith })
            (Ensures-in_range (codes "max_pods_per_node") 1 250)))
        (Ensures-networks b.secondary_networks)

-- The bound on the names of a cluster's nodes, in this project and zone.
abbrev pub node_names : Settings → ClusterCreateRequest → ℕ
node_names settings r =
    node_name_length r.cluster_name (given_or r.zone settings.default_zone)
      (given_or r.project_id settings.default_project_id)

-- A request that the pipelines can build.
pub record IsValidCluster (settings : Settings) (catalog : Catalog) (r : ClusterCreateRequest)
    : Type 0 where
  pub fields : FieldsValid catalog r
  pub located : Consistent (r.zone, r.region)
  pub short : node_names settings r ≤ 63

bind_ok :
    {A B : Type 0} (m : Result A) (f : A → Result B) (b : B)
    → (m >>= f) ≡ ok b
    → (a : A) × (m ≡ ok a) × (f a ≡ ok b)
bind_ok (ok a) f b h = (a, refl, h)
bind_ok (err e) f b h = absurd (cc h)

ok_inj : {A : Type 0} {a b : A} → ok a ≡ ok b → a ≡ b
ok_inj e = cc e

located_target :
    (t u : GcpTargetRequest)
    → validate_gcp_target_parameters t ≡ ok u
    → Consistent (u.zone, u.region)
unfolding validate_gcp_target_parameters
located_target t u h =
    let (zr, e, f) = bind_ok (validate_zone_and_region t.zone t.region) _ u h in
    subst (λ (v : GcpTargetRequest). Consistent (v.zone, v.region)) (ok_inj f)
      (validate_zone_and_region-Consistent t.zone t.region zr e)

short_names :
    (settings : Settings) (r s : ClusterCreateRequest)
    → validate_cluster_parameters settings r ≡ ok s
    → (r ≡ s) × (node_names settings r ≤ 63)
unfolding validate_cluster_parameters
short_names settings r s h = elim (Bool-cases (ltb 63 (node_names settings r))) [
  | inl e ↦ absurd (cc (rw (e, validate_cluster_parameters) at h))
  | inr e ↦ (ok_inj (rw (e, validate_cluster_parameters) at h), ground arith)
]

check_cluster-IsValid :
    (settings : Settings) (catalog : Catalog) (r s : ClusterCreateRequest)
    → FieldsValid catalog r
    → check_cluster settings r ≡ ok s
    → IsValidCluster settings catalog s
unfolding check_cluster
check_cluster-IsValid settings catalog r s fields h =
    let (t, e, f) = bind_ok (validate_gcp_target_parameters r.target) _ s h in
    let (same, short) = short_names settings (record r { target = t }) s f in
    subst (IsValidCluster settings catalog) same record {
      fields = record {
        name = fields.name;
        variant = fields.variant;
        version = fields.version;
        pods = fields.pods;
        services = fields.services;
        max_pods = fields.max_pods;
        networks = fields.networks;
      };
      located = located_target r.target t e;
      short = short;
    }

-- A body for a new cluster that is accepted gives a request with a resource name of at most 26
-- characters, a listed hardware variant and GDC version, IPv4 blocks, 1 to 250 pods per node, valid
-- secondary networks, a zone in its region, and names of nodes of at most 63 characters. The condition
-- is that the manifest lists its own defaults.
pub validate_cluster_create-IsValid :
    (settings : Settings) (catalog : Catalog) (b : ClusterCreateBody) (r : ClusterCreateRequest)
    → is_member catalog.default_hardware_variant catalog.hardware_variants ≡ true
    → is_member catalog.default_gdc_version catalog.gdc_versions ≡ true
    → validate_cluster_create settings catalog b ≡ valid r
    → IsValidCluster settings catalog r
unfolding validate_cluster_create
validate_cluster_create-IsValid settings catalog b r variant version h =
    let accepted =
      Ensures-after (FieldsValid catalog) (IsValidCluster settings catalog)
        (cluster_fields catalog b) (check_cluster settings)
        (cluster_fields-FieldsValid catalog variant version b)
        (check_cluster-IsValid settings catalog) in
    accepted.holds r h
