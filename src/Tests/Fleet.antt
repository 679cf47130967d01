-- ===== src/Tests/Fleet.antt =====
-- A run of the list of clusters.
use gem_gdc_emulation_enviro.Prelude.Dict
use gem_gdc_emulation_enviro.Prelude.{Text, codes, refl, none, some, Option, [], ◌∷◌, true, ℕ}
use gem_gdc_emulation_enviro.Kubernetes.{pos}
use gem_gdc_emulation_enviro.Kubernetes.Values.{
  lookup, Value, text, arr, obj, nil, cons, member, end,
}
use gem_gdc_emulation_enviro.Gcp.{Gcloud, completed, ClusterListResponse, list_clusters}
use gem_gdc_emulation_enviro.Gcp.Discovered.{ListsRunning, list_clusters-ListsRunning}
use gem_gdc_emulation_enviro.Tests.Data.{setup, source}

abbrev membership : Text → Text → Value
membership name code = obj (
    member (codes "name") (text name)
      (member (codes "state") (obj (member (codes "code") (text code) end)) end))

abbrev three : Value → Option ℕ
three v = some 3

-- gcloud lists a cluster that is ready and one that is created.
abbrev gcloud : Gcloud
gcloud = record {
  has_gcloud = true;
  run = λ argv. completed (pos 0) (codes "[]");
  loads = λ s. some (
      arr (
        cons (membership (codes "projects/p/memberships/edge-1") (codes "ready"))
          (cons (membership (codes "projects/p/memberships/edge-2") (codes "CREATING")) nil)));
  as_int = three;
  shown = λ v. codes "None";
}

abbrev response : ClusterListResponse
response = record {
  clusters =
      record {
        name = codes "edge-1";
        location = codes "us-central1-a";
        master_version = codes "1.34.100-gke.97";
        status = codes "RUNNING";
        node_count = 3;
        endpoint = none;
        create_time = none;
        hardware_variant = some (codes "g2-large");
        gdc_version = none;
        emulate_gdc_version = some (codes "1.13.0");
        project_id = some (codes "edge-lab");
      }
      ∷ [];
  total = 1;
}

list_clusters-ListsRunning_example : ListsRunning gcloud setup.settings.default_project_id response
unfolding list_clusters lookup Dict.put
list_clusters-ListsRunning_example =
    list_clusters-ListsRunning gcloud source setup.settings none response refl
