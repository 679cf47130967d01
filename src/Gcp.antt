-- ===== src/Gcp.antt =====
-- api/gem_api/services/gcp_client.py: listing projects and the clusters of a fleet through gcloud. The
-- process and the reading of its JSON are inputs.
pub mod Reports
pub mod Discovered
use gem_gdc_emulation_enviro.Prelude.{
  Text, codes, ℕ, ◌+◌, ◌-◌, List, [], ◌∷◌, ◌++◌, Option, none, some, Bool, true, false, ◌&&◌, not,
  is_empty, if◌then◌else◌, length, text_eq, leb, ◌==◌,
}
use gem_gdc_emulation_enviro.Prelude.Dict
use gem_gdc_emulation_enviro.Prelude.Dict.{Dict, values}
use gem_gdc_emulation_enviro.Prelude.Strings.{decimal, split}
use gem_gdc_emulation_enviro.Exceptions.{
  Exception, Outcome, ◌>>=◌, returned, raised, attribute_error, other_error, ◌&◌,
}
use gem_gdc_emulation_enviro.Config.{Settings}
use gem_gdc_emulation_enviro.Manifest.{
  Source, get_default_hardware_variant, get_default_gdc_version,
}
use gem_gdc_emulation_enviro.Kubernetes.{ℤ, is_zero}
use gem_gdc_emulation_enviro.Kubernetes.Values.{
  Value, null, num, text, obj, end, validation_error, get, iterate, as_text, as_optional_text,
  is_true, each,
}

-- What a call of gcloud does: it ends with a return code and its output, or raises TimeoutError, OSError
-- or ValueError.
pub data Ended : Type 0 where
  completed : ℤ → List ℕ → Ended
  failed : Ended

-- The host, json.loads on the decoded output, where none is a ValueError, pydantic's reading of an int,
-- and the str() of a value that is no text.
pub record Gcloud : Type 0 where
  pub has_gcloud : Bool
  pub run : List Text → Ended
  pub loads : List ℕ → Option Value
  pub as_int : Value → Option ℕ
  pub shown : Value → Text

pub record ProjectItem : Type 0 where
  pub project_id : Text
  pub name : Text

pub record ClusterInfo : Type 0 where
  pub name : Text
  pub location : Text
  pub master_version : Text
  pub status : Text
  pub node_count : ℕ
  pub endpoint : Option Text
  pub create_time : Option Text
  pub hardware_variant : Option Text
  pub gdc_version : Option Text
  pub emulate_gdc_version : Option Text
  pub project_id : Option Text

pub record ClusterListResponse : Type 0 where
  pub clusters : List ClusterInfo
  pub total : ℕ

-- str.upper, on the code points whose upper case is in A to Z or the underscore.
abbrev upper_code : ℕ → Text
upper_code c =
    if leb b'a' c && leb c b'z'
    then (c - 32) ∷ []
    else if c == 0x131
    then codes "I"
    else if c == 0x17f
    then codes "S"
    else if leb 0xfb05 c && leb c 0xfb06
    then codes "ST"
    else c ∷ []

unfoldable pub upper : Text → Text
upper [] = []
upper (c ∷ s) = upper_code c ++ upper s

-- _FLEET_STATUS_MAP
abbrev pub fleet_status_map : List (Text × Text)
fleet_status_map =
    (codes "READY", codes "RUNNING")
    ∷ (codes "OK", codes "RUNNING")
    ∷ (codes "RUNNING", codes "RUNNING")
    ∷ (codes "CREATING", codes "PROVISIONING")
    ∷ (codes "UPDATING", codes "PROVISIONING")
    ∷ (codes "RECONCILING", codes "PROVISIONING")
    ∷ (codes "PROVISIONING", codes "PROVISIONING")
    ∷ (codes "DEGRADED", codes "DEGRADED")
    ∷ (codes "SERVICE_DEGRADED", codes "DEGRADED")
    ∷ (codes "DELETING", codes "STOPPED")
    ∷ (codes "STOPPING", codes "STOPPED")
    ∷ (codes "STOPPED", codes "STOPPED")
    ∷ []

unfoldable pub find_status : Text → List (Text × Text) → Text
unfolding text_eq
find_status code [] = codes "ERROR"
find_status code ((key, status) ∷ entries) =
    let later = find_status code entries in if text_eq key code then status else later

unfoldable pub map_fleet_status : Text → Text
unfolding upper find_status
map_fleet_status state_code = find_status (upper state_code) fleet_status_map

-- Whether the except clauses catch an exception: neither AttributeError nor TypeError.
abbrev pub is_caught : Exception → Bool
is_caught (other_error name message) = not (text_eq name (codes "TypeError"))
is_caught _ = false

-- value or default
abbrev value_or : Value → Value → Value
value_or v default = if is_true v then v else default

abbrev read_int : Option ℕ → Outcome ℕ
read_int none = validation_error
read_int (some n) = returned n

-- s.split("/")[-1], for a value that has the method
abbrev last_of : List Text → Text
last_of [] = []
last_of (p ∷ []) = p
last_of (p ∷ q ∷ parts) = last_of (q ∷ parts)

abbrev pub raw_name : Value → Outcome Text
raw_name (text s) = returned (last_of (split b'/' s))
raw_name _ = raised attribute_error

module _ (gcloud : Gcloud) where
  abbrev str_of : Value → Text
  str_of (text s) = s
  str_of v = gcloud.shown v

  -- What one membership adds: nothing, or a cluster under its name.
  unfoldable pub read_membership : Text → Text → Text → Text → Value → Outcome (Option ClusterInfo)
  unfolding map_fleet_status split
  read_membership pid zone default_hw default_gdc m = do
    name ← get m (codes "name") (text []) >>= raw_name
    if is_empty name then returned none else (do
      monitoring ← get m (codes "monitoringConfig") (obj end)
      location ← get monitoring (codes "location") null
      endpoint ← get m (codes "endpoint") (obj end)
      k8s_meta ← get endpoint (codes "kubernetesMetadata") (obj end)
      version ← get k8s_meta (codes "kubernetesApiServerVersion") (text (codes "1.34.100-gke.97"))
      node_count ← get k8s_meta (codes "nodeCount") (num 3)
      state ← get m (codes "state") (obj end)
      code ← get state (codes "code") (text (codes "READY"))
      if not (text_eq (map_fleet_status (str_of code)) (codes "RUNNING"))
          then returned none
          else (do
            created ← get m (codes "createTime") null
            loc ← as_text (value_or location (text zone))
            master_version ← as_text version
            nodes ← read_int (gcloud.as_int node_count)
            create_time ← as_optional_text created
            returned (
                some record {
                  name = name;
                  location = loc;
                  master_version = master_version;
                  status = map_fleet_status (str_of code);
                  node_count = nodes;
                  endpoint = none;
                  create_time = create_time;
                  hardware_variant = some default_hw;
                  gdc_version = none;
                  emulate_gdc_version = some default_gdc;
                  project_id = some pid;
                })))

  -- The loop over the memberships. What was found before an exception stays found.
  abbrev pub add : Dict ClusterInfo → Option ClusterInfo → Dict ClusterInfo
  add found none = found
  add found (some c) = Dict.put found c.name c

  abbrev discovered :
      Outcome (Option ClusterInfo)
      → (Dict ClusterInfo → Dict ClusterInfo × Option Exception)
      → Dict ClusterInfo
      → Dict ClusterInfo × Option Exception
  discovered (returned o) later found = later (add found o)
  discovered (raised e) later found = (found, some e)

  unfoldable pub discover :
      (Value → Outcome (Option ClusterInfo))
      → List Value
      → Dict ClusterInfo
      → Dict ClusterInfo × Option Exception
  discover read [] found = (found, none)
  discover read (m ∷ memberships) found = discovered (read m) (discover read memberships) found

  -- The document of gcloud, where an exception that is not caught leaves.
  abbrev finish : Dict ClusterInfo × Option Exception → Outcome (Dict ClusterInfo)
  finish (found, none) = returned found
  finish (found, some e) = if is_caught e then returned found else raised e

  abbrev discover_in :
      (Value → Outcome (Option ClusterInfo)) → Outcome (List Value) → Outcome (Dict ClusterInfo)
  discover_in read (returned memberships) = finish (discover read memberships [])
  discover_in read (raised e) = finish ([], some e)

  abbrev discover_document :
      (Value → Outcome (Option ClusterInfo)) → Option Value → Outcome (Dict ClusterInfo)
  discover_document read none = returned []
  discover_document read (some document) = discover_in read (iterate document)

  -- `if proc.returncode == 0 and stdout`
  abbrev output_of : Ended → Option (List ℕ)
  output_of failed = none
  output_of (completed rc stdout) =
      if is_zero rc && not (is_empty stdout) then some stdout else none

  abbrev discover_output :
      (Value → Outcome (Option ClusterInfo)) → Option (List ℕ) → Outcome (Dict ClusterInfo)
  discover_output read none = returned []
  discover_output read (some stdout) = discover_document read (gcloud.loads stdout)

  abbrev project_or_default : Option Text → Text → Text
  project_or_default none default = default
  project_or_default (some p) default = if is_empty p then default else p

  abbrev memberships_args : Text → List Text
  memberships_args pid =
      codes "gcloud"
      ∷ codes "container"
      ∷ codes "fleet"
      ∷ codes "memberships"
      ∷ codes "list"
      ∷ (codes "--project=" & pid)
      ∷ codes "--format=json"
      ∷ []

  unfoldable pub found_clusters : Text → Text → Text → Text → Outcome (Dict ClusterInfo)
  unfolding discover read_membership
  found_clusters pid zone default_hw default_gdc =
      if gcloud.has_gcloud
      then discover_output (read_membership pid zone default_hw default_gdc)
          (output_of (gcloud.run (memberships_args pid)))
      else returned []

  unfoldable pub list_clusters : Source → Settings → Option Text → Outcome ClusterListResponse
  unfolding get_default_hardware_variant get_default_gdc_version found_clusters
  list_clusters source settings project_id = do
    default_hw ← get_default_hardware_variant source
    default_gdc ← get_default_gdc_version source
    found ←
        found_clusters (project_or_default project_id settings.default_project_id)
          settings.default_zone default_hw default_gdc
    returned record { clusters = values found; total = length (values found) }

  -- A project with an id, whose name is the id unless it has one.
  abbrev keep_project : Value → Value → Outcome (List ProjectItem)
  keep_project p id =
      if is_true id
      then (get p (codes "name") id >>= as_text >>= λ name. as_text id >>= λ project_id.
          returned (record { project_id = project_id; name = name } ∷ []))
      else returned []

  unfoldable pub read_project : Value → Outcome (List ProjectItem)
  read_project p = get p (codes "projectId") null >>= λ id. keep_project p id

  abbrev concat : List (List ProjectItem) → List ProjectItem
  concat [] = []
  concat (ps ∷ pss) = ps ++ concat pss

  abbrev read_projects : Option Value → Outcome (List ProjectItem)
  read_projects none = returned []
  read_projects (some document) = do
    items ← iterate document
    projects ← each read_project items
    returned (concat projects)

  -- The except clause of list_projects.
  abbrev caught_projects : Outcome (List ProjectItem) → Outcome (List ProjectItem)
  caught_projects (returned ps) = returned ps
  caught_projects (raised e) = if is_caught e then returned [] else raised e

  abbrev projects_in : Option (List ℕ) → Outcome (List ProjectItem)
  projects_in none = returned []
  projects_in (some stdout) = caught_projects (read_projects (gcloud.loads stdout))

  unfoldable pub list_projects : ℕ → Outcome (List ProjectItem)
  unfolding each read_project decimal
  list_projects limit =
      if gcloud.has_gcloud
      then projects_in (
          output_of (
            gcloud.run (
              codes "gcloud"
              ∷ codes "projects"
              ∷ codes "list"
              ∷ (codes "--limit=" & decimal limit)
              ∷ codes "--format=json"
              ∷ [])))
      else returned []
