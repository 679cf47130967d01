-- ===== src/Kubernetes/Syncs.antt =====
-- list_rootsyncs of api/gem_api/services/k8s_client.py, with RootSyncItem of
-- api/gem_api/models/configsync.py.
pub mod Commits
use gem_gdc_emulation_enviro.Prelude.{Text, codes, ℕ, zero, suc, List, [], ◌∷◌, none}
use gem_gdc_emulation_enviro.Exceptions.{Outcome, ◌>>=◌, returned}
use gem_gdc_emulation_enviro.Kubernetes.{Host, Call, exec_kubectl}
use gem_gdc_emulation_enviro.Kubernetes.Values.{
  Value, text, obj, end, arr, type_error, validation_error, get, as_text,
}
use gem_gdc_emulation_enviro.Kubernetes.Lists.{Parser, read_listing}

pub record RootSyncItem : Type 0 where
  pub name : Text
  pub namespace : Text
  pub repo : Text
  pub branch : Text
  pub dir : Text
  pub auth : Text
  pub period : Text
  pub status : Text
  pub commit : Text
  pub last_synced : Text
  pub message : Text

-- s[:n]
abbrev pub first_codes : ℕ → Text → Text
first_codes zero s = []
first_codes (suc n) [] = []
first_codes (suc n) (c ∷ s) = c ∷ first_codes n s

-- value[:9] as a str field: a slice of a list is no str, and nothing else has slices.
abbrev pub short_text : Value → Outcome Text
short_text (text s) = returned (first_codes 9 s)
short_text (arr vs) = validation_error
short_text _ = type_error

-- value.get(key, {}).get(inner, default)
abbrev pub get_in : Value → Text → Text → Value → Outcome Value
get_in v key inner default = get v key (obj end) >>= λ w. get w inner default

unfoldable pub read_rootsync : Value → Outcome RootSyncItem
read_rootsync sync = do
  meta ← get sync (codes "metadata") (obj end)
  spec ← get_in sync (codes "spec") (codes "git") (obj end)
  status_obj ← get sync (codes "status") (obj end)
  name_value ← get meta (codes "name") (text [])
  namespace_value ← get meta (codes "namespace") (text (codes "config-management-system"))
  repo_value ← get spec (codes "repo") (text [])
  branch_value ← get spec (codes "branch") (text (codes "main"))
  dir_value ← get spec (codes "dir") (text (codes "/"))
  auth_value ← get spec (codes "auth") (text (codes "none"))
  period_value ← get spec (codes "period") (text (codes "15s"))
  status_value ← get_in status_obj (codes "sync") (codes "status") (text (codes "SYNCED"))
  commit_value ← get_in status_obj (codes "sync") (codes "commit") (text [])
  updated_value ← get_in status_obj (codes "sync") (codes "lastUpdate") (text [])
  commit ← short_text commit_value
  name ← as_text name_value
  namespace ← as_text namespace_value
  repo ← as_text repo_value
  branch ← as_text branch_value
  dir ← as_text dir_value
  auth ← as_text auth_value
  period ← as_text period_value
  status ← as_text status_value
  last_synced ← as_text updated_value
  returned record {
    name = name;
    namespace = namespace;
    repo = repo;
    branch = branch;
    dir = dir;
    auth = auth;
    period = period;
    status = status;
    commit = commit;
    last_synced = last_synced;
    message = codes "RootSync status retrieved from cluster.";
  }

unfoldable pub list_rootsyncs : Parser → Host → Text → Outcome (List RootSyncItem) × List Call
unfolding exec_kubectl read_listing read_rootsync
list_rootsyncs parser host cluster_name =
    let (result, calls) =
      exec_kubectl host cluster_name
        (codes "get"
          ∷ codes "rootsyncs.configsync.gke.io"
          ∷ codes "-A"
          ∷ codes "-o"
          ∷ codes "json"
          ∷ [])
        none in
    (read_listing parser read_rootsync result, calls)
