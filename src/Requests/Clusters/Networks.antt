-- ===== src/Requests/Clusters/Networks.antt =====
-- The secondary networks that api/gem_api/models/clusters.py accepts.
use gem_gdc_emulation_enviro.Prelude.{Text, codes, ◌≡◌, refl}
use gem_gdc_emulation_enviro.Validators.Errors.{ok}
use gem_gdc_emulation_enviro.Validators.Networks.{
  validate_cidr, validate_gateway, validate_network_name,
}
use gem_gdc_emulation_enviro.Validators.Networks.Accepted.{
  IsCidr, IsAddress, IsNetworkName, validate_cidr_iff, validate_gateway_iff, accepted-IsNetworkName,
}
use gem_gdc_emulation_enviro.Requests.{SecondaryNetworkConfig}
use gem_gdc_emulation_enviro.Requests.Fields.{of_result}
use gem_gdc_emulation_enviro.Requests.Fields.Ensures.{
  Ensures, Ensures-valid, Ensures-of_result, Ensures-required, Ensures-defaulted, Ensures-<*>,
  Ensures-any, InRange, Ensures-in_range,
}
use gem_gdc_emulation_enviro.Requests.Clusters.{SecondaryNetworkBody, validate_secondary_network}

-- A secondary network that the pipelines can configure.
pub record IsValidNetwork (n : SecondaryNetworkConfig) : Type 0 where
  pub name : IsNetworkName n.name
  pub vlan : InRange 1 4094 n.vlan_id
  pub subnet : IsCidr n.subnet
  pub gateway : IsAddress n.gateway
  pub pods : IsCidr n.pod_cidr

pub Ensures-IsCidr : (field v : Text) → Ensures IsCidr (of_result field (validate_cidr v))
Ensures-IsCidr field v =
    Ensures-of_result IsCidr field (validate_cidr v) (λ w e. ((validate_cidr_iff v w).0 e).1)

Ensures-gateway : (field v : Text) → Ensures IsAddress (of_result field (validate_gateway v))
Ensures-gateway field v =
    Ensures-of_result IsAddress field (validate_gateway v)
      (λ w e. ((validate_gateway_iff v w).0 e).1)

Ensures-IsNetworkName :
    (field v : Text) → Ensures IsNetworkName (of_result field (validate_network_name v))
Ensures-IsNetworkName field v =
    Ensures-of_result IsNetworkName field (validate_network_name v)
      (λ w e. (accepted-IsNetworkName v w e).1)

pub IsCidr-of : (v : Text) → validate_cidr v ≡ ok v → IsCidr v
IsCidr-of v h = ((validate_cidr_iff v v).0 h).1

default_pods : IsCidr (codes "10.12.0.0/22")
unfolding validate_cidr
default_pods = IsCidr-of (codes "10.12.0.0/22") refl

-- A secondary network that is accepted has a DNS-1123 name, a VLAN from 1 to 4094, IPv4 blocks and an
-- IPv4 gateway.
pub secondary_network-IsValid :
    (b : SecondaryNetworkBody) → Ensures IsValidNetwork (validate_secondary_network b)
unfolding validate_secondary_network
secondary_network-IsValid b =
    Ensures-<*> (λ size. Unit {0}) IsValidNetwork _ _
      (Ensures-<*> IsCidr _ _ _
        (Ensures-<*> (λ vips. Unit {0}) _ _ _
          (Ensures-<*> IsAddress _ _ _
            (Ensures-<*> IsCidr _ _ _
              (Ensures-<*> (InRange 1 4094) _ _ _
                (Ensures-<*> IsNetworkName _ _ _
                  (Ensures-valid _ _ (λ n hn v hv s hs g hg vips hvips p hp size hsize. record {
                    name = hn;
                    vlan = hv;
                    subnet = hs;
                    gateway = hg;
                    pods = hp;
                  }))
                  (Ensures-required IsNetworkName (codes "name") _ b.name
                    (Ensures-IsNetworkName (codes "name"))))
                (Ensures-required (InRange 1 4094) (codes "vlan_id") _ b.vlan_id
                  (Ensures-in_range (codes "vlan_id") 1 4094)))
              (Ensures-required IsCidr (codes "subnet") _ b.subnet
                (Ensures-IsCidr (codes "subnet"))))
            (Ensures-required IsAddress (codes "gateway") _ b.gateway
              (Ensures-gateway (codes "gateway"))))
          (Ensures-any _))
        (Ensures-defaulted IsCidr _ _ b.pod_cidr default_pods (Ensures-IsCidr (codes "pod_cidr"))))
      (Ensures-any _)
