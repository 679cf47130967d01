-- ===== src/Kubernetes/Status/Connected.antt =====
-- The responses of get_cluster_status in api/gem_api/services/k8s_client.py.
use gem_gdc_emulation_enviro.Prelude.{
  Text, codes, ◌≡◌, ◌⊎◌, List, [], ◌∷◌, none, some, true, false, length,
}
use gem_gdc_emulation_enviro.Exceptions.{Outcome, returned, raised, attribute_error}
use gem_gdc_emulation_enviro.Kubernetes.{Execution, is_empty, Option}
use gem_gdc_emulation_enviro.Kubernetes.Lists.{Parser}
use gem_gdc_emulation_enviro.Kubernetes.Lists.Reads.{Reads}
use gem_gdc_emulation_enviro.Kubernetes.Lists.Listed.{Listed}
use gem_gdc_emulation_enviro.Kubernetes.Status.{
  NodeStatusItem, ClusterStatusResponse, metrics_of, read_node,
}

-- The same use of the processor and of the memory on every node.
pub record IsNode (n : NodeStatusItem) : Type 0 where
  pub role : (n.role ≡ codes "Worker") ⊎ (n.role ≡ codes "Control Plane")
  pub status : (n.status ≡ codes "Ready") ⊎ (n.status ≡ codes "NotReady")
  pub cpu : n.cpu_percent ≡ 4
  pub mem : n.mem_percent ≡ 5

-- The response for these nodes: connected where there are any, with metrics that their number alone
-- gives, and otherwise disconnected and without metrics.
pub record IsStatus (nodes : List NodeStatusItem) (r : ClusterStatusResponse) : Type 0 where
  pub shown : r.nodes ≡ nodes
  pub shape :
      ((r.connected ≡ true)
        × (r.mode ≡ codes "Live Connected")
        × (is_empty nodes ≡ false)
        × (r.metrics ≡ some (metrics_of (length nodes))))
      ⊎ ((r.connected ≡ false)
          × (r.mode ≡ codes "Disconnected")
          × (nodes ≡ [])
          × (r.metrics ≡ none))

-- How the question for the status ends, against what became of the call of kubectl: with the response
-- for the nodes that are listed, or in the exception that leaves the list.
pub data Answers (parser : Parser) (x : Option Execution)
    : Outcome ClusterStatusResponse → Type 0 where
  answers :
      (nodes : List NodeStatusItem) (r : ClusterStatusResponse)
      → Listed parser IsNode read_node x (returned nodes)
      → IsStatus nodes r
      → Answers parser x (returned r)
  left_out :
      Listed parser IsNode read_node x (raised attribute_error)
      → Answers parser x (raised attribute_error)

abbrev pub node_args : List Text
node_args = codes "get" ∷ codes "nodes" ∷ codes "-o" ∷ codes "json" ∷ []
