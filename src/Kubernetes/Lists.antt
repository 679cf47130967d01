-- ===== src/Kubernetes/Lists.antt =====
-- The lists of pods and of virtual machines in api/gem_api/services/k8s_client.py. json.loads and the
-- way in which pydantic reads a bool are parameters.
pub mod Reads
pub mod Items
pub mod Listed
use gem_gdc_emulation_enviro.Kubernetes.Actions.{state_text}
use gem_gdc_emulation_enviro.Prelude.{
  Text, codes, ℕ, suc, ◌+◌, List, [], ◌∷◌, ◌++◌, Option, none, some, Bool, true, false, ◌&&◌, not,
  is_empty, if◌then◌else◌, length,
}
use gem_gdc_emulation_enviro.Prelude.Strings.{decimal}
use gem_gdc_emulation_enviro.Exceptions.{
  Exception, Outcome, ◌>>=◌, returned, raised, attribute_error, other_error, ◌&◌,
}
use gem_gdc_emulation_enviro.Kubernetes.{Host, Call, Result, is_zero, exec_kubectl}
use gem_gdc_emulation_enviro.Kubernetes.Models.{ContainerStatusItem, PodItem, VirtualMachineItem}
use gem_gdc_emulation_enviro.Kubernetes.Values.{
  null, type_error, Value, bool, num, text, arr, nil, cons, obj, end, validation_error, get,
  iterate, in_value, as_text, as_optional_text, as_number, is_true, each,
}

-- json.loads, where none stands for a JSONDecodeError, and pydantic's reading of a bool.
pub record Parser : Type 0 where
  pub loads : Text → Option Value
  pub as_bool : Value → Option Bool

abbrev empty_object : Value
empty_object = obj end

abbrev empty_array : Value
empty_array = arr nil

-- `[] if the body raises one of these: JSONDecodeError, KeyError, IndexError, TypeError, ValueError`.
-- AttributeError is not among them; what pydantic raises is a ValueError.
abbrev pub or_empty {ℓ} : {A : Type ℓ} → Outcome (List A) → Outcome (List A)
or_empty (returned xs) = returned xs
or_empty (raised (other_error name message)) = returned []
or_empty (raised e) = raised e

abbrev read_bool : Option Bool → Outcome Bool
read_bool none = validation_error
read_bool (some b) = returned b

abbrev pub ready_count : List ContainerStatusItem → ℕ
ready_count [] = 0
ready_count (c ∷ cs) = if c.ready then suc (ready_count cs) else ready_count cs

abbrev pub ready_text : List ContainerStatusItem → Text
ready_text [] = codes "1/1"
ready_text (c ∷ cs) = decimal (ready_count (c ∷ cs)) & codes "/" & decimal (length (c ∷ cs))

abbrev total : List ℕ → ℕ
total [] = 0
total (n ∷ ns) = n + total ns

abbrev restart_count : Value → Outcome ℕ
restart_count c = get c (codes "restartCount") (num 0) >>= as_number

-- interfaces[0]: an index of a dict is a KeyError.
abbrev first_item : Value → Outcome Value
first_item (arr (cons v vs)) = returned v
first_item (text (c ∷ s)) = returned (text (c ∷ []))
first_item (obj ms) = raised (other_error (codes "KeyError") (codes "0"))
first_item _ = type_error

abbrev ip_address : Value → Outcome Value
ip_address (obj ms) = get (obj ms) (codes "ipAddress") null
ip_address _ = returned null

-- `["-n", namespace] if namespace else ["-A"]`
abbrev namespace_args : Option Text → List Text
namespace_args none = codes "-A" ∷ []
namespace_args (some namespace) =
    if is_empty namespace then codes "-A" ∷ [] else codes "-n" ∷ namespace ∷ []

abbrev selector_args : Option Text → List Text
selector_args none = []
selector_args (some selector) = if is_empty selector then [] else codes "-l" ∷ selector ∷ []

abbrev pub vm_args : Option Text → List Text
vm_args namespace =
    (codes "get" ∷ codes "virtualmachines.kubevirt.io" ∷ codes "-o" ∷ codes "json" ∷ [])
    ++ namespace_args namespace

abbrev pub pod_args : Option Text → Option Text → List Text
pod_args namespace label_selector =
    (codes "get" ∷ codes "pods" ∷ codes "-o" ∷ codes "json" ∷ [])
    ++ (namespace_args namespace ++ selector_args label_selector)

module _ (parser : Parser) where
  -- `c.get("state", {})` as one of three words
  unfoldable pub container_state : Value → Outcome Text
  container_state c = do
    c_state ← get c (codes "state") empty_object
    runs ← in_value (codes "running") c_state
    if runs then returned (codes "running") else (do
      over ← in_value (codes "terminated") c_state
      returned (if over then codes "terminated" else codes "waiting"))

  unfoldable pub read_container : Value → Outcome ContainerStatusItem
  unfolding container_state
  read_container c = do
    state ← container_state c
    name ← get c (codes "name") (text []) >>= as_text
    image ← get c (codes "image") (text []) >>= as_text
    ready ← get c (codes "ready") (bool false) >>= λ v. read_bool (parser.as_bool v)
    returned record { name = name; image = image; ready = ready; state = state }

  unfoldable pub read_pod : Value → Outcome PodItem
  unfolding each read_container
  read_pod pod = do
    meta ← get pod (codes "metadata") empty_object
    pod_status ← get pod (codes "status") empty_object
    statuses ← get pod_status (codes "containerStatuses") empty_array >>= iterate
    containers ← each read_container statuses
    name_value ← get meta (codes "name") (text [])
    namespace_value ← get meta (codes "namespace") (text (codes "default"))
    phase ← get pod_status (codes "phase") (text (codes "Running"))
    restarts ← each restart_count statuses
    ip_value ← get pod_status (codes "podIP") (text (codes "10.0.1.1"))
    spec ← get pod (codes "spec") empty_object
    node ← get spec (codes "nodeName") (text [])
    name ← as_text name_value
    namespace ← as_text namespace_value
    status ← as_text phase
    ip ← as_optional_text ip_value
    node_name ← as_optional_text node
    returned record {
      name = name;
      namespace = namespace;
      status = status;
      ready = ready_text containers;
      restarts = total restarts;
      age = some (codes "10m");
      ip = ip;
      node_name = node_name;
      containers = containers;
    }

  unfoldable pub read_vm : Value → Outcome VirtualMachineItem
  read_vm vm = do
    meta ← get vm (codes "metadata") empty_object
    spec ← get vm (codes "spec") empty_object
    status_obj ← get vm (codes "status") empty_object
    running ← get spec (codes "running") null
    interfaces ← get status_obj (codes "interfaces") null
    first_iface ← if is_true interfaces then first_item interfaces else returned empty_object
    vm_ip ← ip_address first_iface
    name_value ← get meta (codes "name") (text [])
    namespace_value ← get meta (codes "namespace") (text (codes "default"))
    name ← as_text name_value
    namespace ← as_text namespace_value
    ip ← as_optional_text vm_ip
    returned record {
      name = name;
      namespace = namespace;
      status = state_text (is_true running);
      cpus = 2;
      memory = codes "4Gi";
      ip = ip;
      image = codes "ubuntu-22.04-server";
      uptime = some (codes "1h");
      power_state = state_text (is_true running);
    }

  -- The items of the document that kubectl printed.
  abbrev read_document {ℓ} : {A : Type ℓ} → (Value → Outcome A) → Option Value → Outcome (List A)
  read_document read none = raised (other_error (codes "JSONDecodeError") [])
  read_document read (some document) = do
    items ← get document (codes "items") empty_array >>= iterate
    each read items

  -- `if rc == 0 and stdout`, and the except clause behind it.
  unfoldable pub read_listing {ℓ} : {A : Type ℓ} → (Value → Outcome A) → Result → Outcome (List A)
  unfolding each
  read_listing read result =
      if is_zero result.rc && not (is_empty result.stdout)
      then or_empty (read_document read (parser.loads result.stdout))
      else returned []

  unfoldable pub list_vms :
      Host → Text → Option Text → Outcome (List VirtualMachineItem) × List Call
  unfolding exec_kubectl read_listing read_vm
  list_vms host cluster_name namespace =
      let (result, calls) = exec_kubectl host cluster_name (vm_args namespace) none in
      (read_listing read_vm result, calls)

  unfoldable pub list_pods :
      Host → Text → Option Text → Option Text → Outcome (List PodItem) × List Call
  unfolding exec_kubectl read_listing read_pod
  list_pods host cluster_name namespace label_selector =
      let (result, calls) =
        exec_kubectl host cluster_name (pod_args namespace label_selector) none in
      (read_listing read_pod result, calls)
