-- ===== src/Kubernetes/Models.antt =====
-- The models of virtual machines and pods in api/gem_api/models/vms.py and pods.py.
use gem_gdc_emulation_enviro.Prelude.{Text, ℕ, List, Option, Bool}
use gem_gdc_emulation_enviro.Prelude.Dict.{Dict}

pub record VirtualMachineDeployRequest : Type 0 where
  pub name : Text
  pub namespace : Text
  pub cpus : ℕ
  pub memory : Text
  pub image : Text

pub record VirtualMachineItem : Type 0 where
  pub name : Text
  pub namespace : Text
  pub status : Text
  pub cpus : ℕ
  pub memory : Text
  pub ip : Option Text
  pub image : Text
  pub uptime : Option Text
  pub power_state : Text

pub record VirtualMachinePowerResponse : Type 0 where
  pub success : Bool
  pub vm_name : Text
  pub power_state : Text
  pub message : Text

pub record GenericActionResponse : Type 0 where
  pub success : Bool
  pub message : Text

pub record PodCreateRequest : Type 0 where
  pub name : Text
  pub namespace : Text
  pub image : Text
  pub command : Option (List Text)
  pub port : Option ℕ
  pub env : Option (Dict Text)
  pub labels : Option (Dict Text)
  pub annotations : Option (Dict Text)
  pub raw_manifest : Option Text

pub record ContainerStatusItem : Type 0 where
  pub name : Text
  pub image : Text
  pub ready : Bool
  pub state : Text

pub record PodItem : Type 0 where
  pub name : Text
  pub namespace : Text
  pub status : Text
  pub ready : Text
  pub restarts : ℕ
  pub age : Option Text
  pub ip : Option Text
  pub node_name : Option Text
  pub containers : List ContainerStatusItem

pub record PodActionResponse : Type 0 where
  pub success : Bool
  pub pod_name : Text
  pub namespace : Text
  pub message : Text
