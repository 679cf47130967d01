-- ===== src/Kubernetes/Status.antt =====
-- get_cluster_status of api/gem_api/services/k8s_client.py, with the models of
-- api/gem_api/models/status.py.
pub mod Connected
use gem_gdc_emulation_enviro.Prelude.{
  Text, codes, ℕ, ◌*◌, List, [], ◌∷◌, Option, none, some, Bool, true, false, ◌&&◌, not, is_empty,
  if◌then◌else◌, length,
}
use gem_gdc_emulation_enviro.Prelude.Strings.{decimal}
use gem_gdc_emulation_enviro.Exceptions.{Outcome, ◌>>=◌, returned, raised, other_error, ◌&◌}
use gem_gdc_emulation_enviro.Kubernetes.{Host, Call, Result, is_zero, exec_kubectl}
use gem_gdc_emulation_enviro.Kubernetes.Values.{
  Value, null, text, arr, nil, obj, end, get, iterate, in_value, is_text, is_true, as_text, each,
}
use gem_gdc_emulation_enviro.Kubernetes.Lists.{Parser, read_listing}

pub record NodeStatusItem : Type 0 where
  pub name : Text
  pub status : Text
  pub role : Text
  pub ip : Text
  pub cpu_usage : Text
  pub cpu_percent : ℕ
  pub mem_usage : Text
  pub mem_percent : ℕ

pub record ClusterMetrics : Type 0 where
  pub total_cpu : Text
  pub used_cpu : Text
  pub total_mem : Text
  pub used_mem : Text
  pub storage_allocated : Text

pub record ClusterStatusResponse : Type 0 where
  pub connected : Bool
  pub cluster_name : Text
  pub mode : Text
  pub nodes : List NodeStatusItem
  pub metrics : Option ClusterMetrics

-- `"…/master" in labels or "…/control-plane" in labels`
unfoldable pub is_control_plane : Value → Outcome Bool
is_control_plane labels = do
  master ← in_value (codes "node-role.kubernetes.io/master") labels
  if master then returned true else in_value (codes "node-role.kubernetes.io/control-plane") labels

-- `for cond in conditions`, which stops at the condition Ready that holds.
unfoldable pub is_ready : List Value → Outcome Bool
is_ready [] = returned false
is_ready (cond ∷ conditions) =
    let later = is_ready conditions in
    get cond (codes "type") null >>= λ type.
    if is_text (codes "Ready") type
    then (get cond (codes "status") null >>= λ status.
        if is_text (codes "True") status then returned true else later)
    else later

-- `for addr in addresses`, which stops at the first InternalIP.
unfoldable pub internal_ip : List Value → Outcome Value
internal_ip [] = returned (text [])
internal_ip (addr ∷ addresses) =
    let later = internal_ip addresses in
    get addr (codes "type") null >>= λ type.
    if is_text (codes "InternalIP") type then get addr (codes "address") (text []) else later

unfoldable pub read_node : Value → Outcome NodeStatusItem
unfolding is_control_plane is_ready internal_ip
read_node node = do
  meta ← get node (codes "metadata") (obj end)
  node_status ← get node (codes "status") (obj end)
  name_value ← get meta (codes "name") (text [])
  labels ← get meta (codes "labels") (obj end)
  control ← is_control_plane labels
  conditions ← get node_status (codes "conditions") (arr nil) >>= iterate
  ready ← is_ready conditions
  addresses ← get node_status (codes "addresses") (arr nil) >>= iterate
  node_ip ← internal_ip addresses
  name ← as_text name_value
  ip ← as_text (if is_true node_ip then node_ip else text (codes "10.200.54.2"))
  returned record {
    name = name;
    status = if ready then codes "Ready" else codes "NotReady";
    role = if control then codes "Control Plane" else codes "Worker";
    ip = ip;
    cpu_usage = codes "320m";
    cpu_percent = 4;
    mem_usage = codes "3100Mi";
    mem_percent = 5;
  }

-- The metrics of these nodes, and the response without any.
abbrev pub metrics_of : ℕ → ClusterMetrics
metrics_of count = record {
  total_cpu = decimal (count * 32) & codes " vCPU";
  used_cpu = codes "18 vCPU";
  total_mem = decimal (count * 64) & codes " GB";
  used_mem = codes "42 GB";
  storage_allocated = codes "850 GB / 3.9 TB";
}

unfoldable pub status_of_nodes : Text → List NodeStatusItem → ClusterStatusResponse
status_of_nodes cluster_name [] = record {
  connected = false;
  cluster_name = cluster_name;
  mode = codes "Disconnected";
  nodes = [];
  metrics = none;
}
status_of_nodes cluster_name (n ∷ nodes) = record {
  connected = true;
  cluster_name = cluster_name;
  mode = codes "Live Connected";
  nodes = n ∷ nodes;
  metrics = some (metrics_of (length (n ∷ nodes)));
}

-- No node, no output and output that cannot be read all end in the same response.
unfoldable pub get_cluster_status : Parser → Host → Text → Outcome ClusterStatusResponse × List Call
unfolding exec_kubectl read_listing read_node status_of_nodes
get_cluster_status parser host cluster_name =
    let (result, calls) =
      exec_kubectl host cluster_name (codes "get" ∷ codes "nodes" ∷ codes "-o" ∷ codes "json" ∷ [])
        none in
    (
      read_listing parser read_node result >>= λ nodes.
          returned (status_of_nodes cluster_name nodes),
      calls,
    )
