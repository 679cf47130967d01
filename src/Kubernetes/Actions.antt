-- ===== src/Kubernetes/Actions.antt =====
-- The operations of K8sService in api/gem_api/services/k8s_client.py that change a cluster, and
-- their handlers in api/gem_api/routers/cluster_operations.py, which pass their arguments on.
use gem_gdc_emulation_enviro.Kubernetes.Models.{
  VirtualMachineDeployRequest, VirtualMachineItem, VirtualMachinePowerResponse,
  GenericActionResponse, PodCreateRequest, PodItem, PodActionResponse,
}
use gem_gdc_emulation_enviro.Prelude.{
  Text, codes, ℕ, List, [], ◌∷◌, ◌++◌, Option, none, some, Bool, true, if◌then◌else◌, is_empty,
}
use gem_gdc_emulation_enviro.Prelude.Strings.{decimal}
use gem_gdc_emulation_enviro.Json.{Json, text, num, bool, arr, obj, nil, cons, end, field, dumps}
use gem_gdc_emulation_enviro.Exceptions.{Outcome, ◌>>=◌, returned, ◌&◌, quoted}
use gem_gdc_emulation_enviro.Kubernetes.{Host, Call, Explanation, exec_kubectl, raise_for_kubectl}

abbrev one : Text → Json → Json
one key v = obj (field key v end)

-- The manifest of deploy_vm.
unfoldable pub vm_manifest : VirtualMachineDeployRequest → Json
vm_manifest r = obj (
    field (codes "apiVersion") (text (codes "kubevirt.io/v1")) (
      field (codes "kind") (text (codes "VirtualMachine")) (
        field (codes "metadata")
          (obj
            (field (codes "name") (text r.name) (field (codes "namespace") (text r.namespace) end)))
          (field (codes "spec")
            (obj (
              field (codes "running") (bool true) (
                field (codes "template")
                  (one (codes "spec") (
                    obj (
                      field (codes "domain")
                        (obj (
                          field (codes "devices")
                            (one (codes "disks") (
                              arr (
                                cons
                                  (obj (
                                    field (codes "disk") (one (codes "bus") (text (codes "virtio")))
                                      (field (codes "name") (text (codes "containerdisk")) end)))
                                  nil)))
                            (field (codes "resources")
                              (one (codes "requests") (
                                obj (
                                  field (codes "memory") (text r.memory)
                                    (field (codes "cpu") (num r.cpus) end))))
                              end)))
                        (field (codes "volumes")
                          (arr (
                            cons
                              (obj (
                                field (codes "name") (text (codes "containerdisk")) (
                                  field (codes "containerDisk") (one (codes "image") (text r.image))
                                    end)))
                              nil))
                          end))))
                  end)))
            end))))

pub data Response : Type 0 where
  vm : VirtualMachineItem → Response
  power : VirtualMachinePowerResponse → Response
  done : GenericActionResponse → Response
  pod : PodItem → Response
  pod_done : PodActionResponse → Response

abbrev grace_args : Option ℕ → List Text
grace_args none = []
grace_args (some seconds) = (codes "--grace-period=" & decimal seconds) ∷ []

-- "{kind} '{name}'", and what it is or is not in its namespace.
abbrev object : Text → Text → Text
object kind name = kind & codes " " & quoted name

abbrev missing_in : Text → Text → Text → Option Text
missing_in kind name namespace =
    some (object kind name & codes " not found in namespace " & quoted namespace & codes ".")

abbrev present_in : Text → Text → Text → Option Text
present_in kind name namespace =
    some (object kind name & codes " already exists in namespace " & quoted namespace & codes ".")

abbrev virtual_machine : Text
virtual_machine = codes "VirtualMachine"

abbrev pub state_text : Bool → Text
state_text running = if running then codes "Running" else codes "Stopped"

-- A call of kubectl, whose failure is raised, and what is returned behind it.
unfoldable pub call_kubectl :
    Host → Text → List Text → Option Text → Explanation → Response → Outcome Response × List Call
unfolding exec_kubectl raise_for_kubectl
call_kubectl host cluster_name args input_data x response =
    let (result, calls) = exec_kubectl host cluster_name args input_data in
    (raise_for_kubectl result.rc result.stderr x >>= λ _. returned response, calls)

unfoldable pub deploy_vm : Host → Text → VirtualMachineDeployRequest → Outcome Response × List Call
unfolding call_kubectl dumps vm_manifest
deploy_vm host cluster_name r =
    call_kubectl host cluster_name (codes "create" ∷ codes "-f" ∷ codes "-" ∷ [])
      (some (dumps (vm_manifest r)))
      record {
        action = codes "deploy " & object virtual_machine r.name;
        not_found = none;
        conflict = present_in virtual_machine r.name r.namespace;
      }
      (vm record {
        name = r.name;
        namespace = r.namespace;
        status = codes "Running";
        cpus = r.cpus;
        memory = r.memory;
        ip = some (codes "10.240.1.50");
        image = r.image;
        uptime = some (codes "1m");
        power_state = codes "Running";
      })

unfoldable pub power_vm : Host → Text → Text → Bool → Text → Outcome Response × List Call
unfolding call_kubectl dumps
power_vm host cluster_name vm_name running namespace =
    call_kubectl host cluster_name
      (codes "patch"
        ∷ codes "virtualmachine"
        ∷ vm_name
        ∷ codes "-n"
        ∷ namespace
        ∷ codes "--type=merge"
        ∷ codes "-p"
        ∷ dumps (one (codes "spec") (one (codes "running") (bool running)))
        ∷ [])
      none
      record {
        action = codes "set power state of " & object virtual_machine vm_name;
        not_found = missing_in virtual_machine vm_name namespace;
        conflict = none;
      }
      (power record {
        success = true;
        vm_name = vm_name;
        power_state = state_text running;
        message =
            codes "VM "
            & quoted vm_name
            & codes " power state set to "
            & state_text running
            & codes ".";
      })

unfoldable pub delete_vm : Host → Text → Text → Text → Outcome Response × List Call
unfolding call_kubectl
delete_vm host cluster_name vm_name namespace =
    call_kubectl host cluster_name
      (codes "delete" ∷ codes "virtualmachine" ∷ vm_name ∷ codes "-n" ∷ namespace ∷ []) none
      record {
        action = codes "delete " & object virtual_machine vm_name;
        not_found = missing_in virtual_machine vm_name namespace;
        conflict = none;
      }
      (done record {
        success = true;
        message = object virtual_machine vm_name & codes " deleted successfully.";
      })

unfoldable pub create_pod : Host → Text → PodCreateRequest → Outcome Response × List Call
unfolding call_kubectl
create_pod host cluster_name r =
    let image = if is_empty r.image then codes "nginx:alpine" else r.image in
    call_kubectl host cluster_name
      (codes "run" ∷ r.name ∷ (codes "--image=" & image) ∷ codes "-n" ∷ r.namespace ∷ []) none
      record {
        action = codes "create " & object (codes "Pod") r.name;
        not_found = none;
        conflict = present_in (codes "Pod") r.name r.namespace;
      }
      (pod record {
        name = r.name;
        namespace = r.namespace;
        status = codes "Running";
        ready = codes "1/1";
        restarts = 0;
        age = some (codes "1m");
        ip = some (codes "10.0.1.20");
        node_name = some (cluster_name & codes "-node1");
        containers =
            record { name = r.name; image = image; ready = true; state = codes "running" } ∷ [];
      })

unfoldable pub delete_pod : Host → Text → Text → Text → Option ℕ → Outcome Response × List Call
unfolding call_kubectl decimal
delete_pod host cluster_name pod_name namespace grace_period_seconds =
    call_kubectl host cluster_name
      ((codes "delete" ∷ codes "pod" ∷ pod_name ∷ codes "-n" ∷ namespace ∷ [])
        ++ grace_args grace_period_seconds)
      none
      record {
        action = codes "delete " & object (codes "Pod") pod_name;
        not_found = missing_in (codes "Pod") pod_name namespace;
        conflict = none;
      }
      (pod_done record {
        success = true;
        pod_name = pod_name;
        namespace = namespace;
        message = object (codes "Pod") pod_name & codes " deleted successfully.";
      })

-- A request that changes a cluster, and its handler in cluster_operations.py.
pub data Action : Type 0 where
  post_vm : VirtualMachineDeployRequest → Action
  post_power : Text → Bool → Text → Action
  remove_vm : Text → Text → Action
  post_pod : PodCreateRequest → Action
  remove_pod : Text → Text → Option ℕ → Action

unfoldable pub handle : Host → Text → Action → Outcome Response × List Call
unfolding deploy_vm power_vm delete_vm create_pod delete_pod
handle host cluster_name (post_vm request) = deploy_vm host cluster_name request
handle host cluster_name (post_power vm_name running namespace) =
    power_vm host cluster_name vm_name running namespace
handle host cluster_name (remove_vm vm_name namespace) =
    delete_vm host cluster_name vm_name namespace
handle host cluster_name (post_pod request) = create_pod host cluster_name request
handle host cluster_name (remove_pod pod_name namespace grace_period_seconds) =
    delete_pod host cluster_name pod_name namespace grace_period_seconds
