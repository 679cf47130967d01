-- ===== src/Tests/Kubernetes.antt =====
-- Runs of the operations that change a cluster through kubectl.
use gem_gdc_emulation_enviro.Prelude.{Bool, codes, ◌≡◌, refl, none, some, [], ◌∷◌, true, false}
use gem_gdc_emulation_enviro.Kubernetes.Values.{
  Value, bool, text, arr, obj, nil, cons, member, end, is_true,
}
use gem_gdc_emulation_enviro.Kubernetes.Lists.{pod_args, read_pod, Parser, list_pods}
use gem_gdc_emulation_enviro.Kubernetes.Lists.Items.{ShowsItsContainers}
use gem_gdc_emulation_enviro.Kubernetes.Lists.Listed.{execution, Listed, list_pods-Listed}
use gem_gdc_emulation_enviro.Kubernetes.Models.{PodCreateRequest}
use gem_gdc_emulation_enviro.Kubernetes.{kubectl_call, Host, pos, completed}
use gem_gdc_emulation_enviro.Kubernetes.Actions.{remove_pod, create_pod, handle}
use gem_gdc_emulation_enviro.Kubernetes.Failures.{Cases, handle-Cases, create_pod-ignores}

-- kubectl exits with 1 on every call.
abbrev host : Host
host = record {
  has_kubectl = true;
  is_file = λ path. false;
  kubeconfig = none;
  home = codes "/root";
  run = λ call. completed (pos 1) [] (codes "Error from server (NotFound): pods \"web\" not found");
}

handle-Cases_example :
    Cases host (handle host (codes "edge-1") (remove_pod (codes "web") (codes "default") none))
handle-Cases_example =
    handle-Cases host (codes "edge-1") (remove_pod (codes "web") (codes "default") none)

abbrev web : PodCreateRequest
web = record {
  name = codes "web";
  namespace = codes "default";
  image = codes "nginx:alpine";
  command = none;
  port = none;
  env = none;
  labels = none;
  annotations = none;
  raw_manifest = none;
}

abbrev web_with_port : PodCreateRequest
web_with_port = record web { port = some 80; command = some (codes "nginx" ∷ []) }

create_pod-ignores_example :
    create_pod host (codes "edge-1") web ≡ create_pod host (codes "edge-1") web_with_port
create_pod-ignores_example =
    create_pod-ignores host (codes "edge-1") web web_with_port refl refl refl

-- kubectl exits with 0 and prints.
abbrev answering : Host
answering = record host { run = λ call. completed (pos 0) (codes "{}") [] }

-- A document with one item, which is the same for pods and nodes: its containers are one that is ready
-- and one that is not.
abbrev container : Bool → Value
container ready = obj (
    member (codes "ready") (bool ready)
      (member (codes "state") (obj (member (codes "running") (obj end) end)) end))

abbrev document : Value
document = obj (
    member (codes "items")
      (arr (
        cons
          (obj (
            member (codes "metadata") (obj (member (codes "name") (text (codes "web")) end)) (
              member (codes "status")
                (obj (
                  member (codes "containerStatuses")
                    (arr (cons (container true) (cons (container false) nil))) end))
                end)))
          nil))
      end)

abbrev parser : Parser
parser = record { loads = λ s. some document; as_bool = λ v. some (is_true v) }

list_pods-Listed_example :
    Listed parser ShowsItsContainers
      (read_pod parser)
      (execution answering (kubectl_call answering (codes "edge-1") (pod_args none none) none))
      (list_pods parser answering (codes "edge-1") none none).0
list_pods-Listed_example = list_pods-Listed parser answering (codes "edge-1") none none
