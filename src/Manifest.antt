-- ===== src/Manifest.antt =====
-- api/gem_api/manifest.py: the Ansible group variables as the API reads them.
pub mod Defaults
use gem_gdc_emulation_enviro.Prelude.{
  Text, codes, List, [], ◌∷◌, ◌++◌, map, Option, none, some, Bool, true, false, not, ◌&&◌, is_empty,
  if◌then◌else◌, text_eq,
}
use gem_gdc_emulation_enviro.Prelude.Strings.{is_member}
use gem_gdc_emulation_enviro.Exceptions.{◌>>=◌, Outcome, returned, raised, other_error, ◌&◌}
use gem_gdc_emulation_enviro.Requests.Clusters.{Catalog}

-- What yaml.safe_load returns. A scalar that is no text comes with its truth value, and all but texts
-- and None with their str().
mutual
  pub data Yaml : Type 0 where
    null : Yaml
    text : Text → Yaml
    scalar : Bool → Text → Yaml
    sequence : Text → Items → Yaml
    mapping : Text → Entries → Yaml

  pub data Items : Type 0 where
    nil : Items
    item : Yaml → Items → Items

  pub data Entries : Type 0 where
    end : Entries
    entry : Text → Yaml → Entries → Entries

abbrev pub str_of : Yaml → Text
str_of null = codes "None"
str_of (text s) = s
str_of (scalar b s) = s
str_of (sequence s items) = s
str_of (mapping s entries) = s

-- bool(v)
abbrev pub is_truthy : Yaml → Bool
is_truthy null = false
is_truthy (text s) = not (is_empty s)
is_truthy (scalar b s) = b
is_truthy (sequence s nil) = false
is_truthy (sequence s (item x items)) = true
is_truthy (mapping s end) = false
is_truthy (mapping s (entry k x entries)) = true

abbrev pub keys : Entries → List Text
keys end = []
keys (entry k v entries) = k ∷ keys entries

abbrev pub strs : Items → List Text
strs nil = []
strs (item v items) = str_of v ∷ strs items

-- data.get(key)
unfoldable pub get : Entries → Text → Yaml
unfolding text_eq
get end key = null
get (entry k v entries) key = if text_eq k key then v else get entries key

-- What opening a candidate path shows: there is no file, reading or parsing it raises, or its content.
pub data Reading : Type 0 where
  no_file : Reading
  broken : Text → Reading
  parsed : Yaml → Reading

pub record Source : Type 0 where
  pub read : Text → Reading
  -- os.getenv("GEM_GROUP_VARS_PATH")
  pub env_path : Option Text
  pub repo_root : Text
  -- the third parent of manifest.py
  pub module_root : Text

abbrev group_vars : Text → Text
group_vars root = root & codes "/ansible/group_vars/all.yaml"

abbrev default_paths : Source → List Text
default_paths s = group_vars s.repo_root ∷ group_vars (codes "/app") ∷ group_vars s.module_root ∷ []

unfoldable pub candidate_paths : Source → List Text
candidate_paths s = elim s.env_path [
  | none ↦ default_paths s
  | some path ↦ if is_empty path then default_paths s else path ∷ []
]

-- "\n".join(f" - {p}" for p in paths)
abbrev listing : List Text → Text
listing [] = []
listing (p ∷ []) = codes " - " & p
listing (p ∷ q ∷ paths) = codes " - " & p & (10 ∷ listing (q ∷ paths))

unfoldable pub not_found_message : List Text → Text
not_found_message paths =
    codes "Could not locate 'ansible/group_vars/all.yaml'. Searched candidate locations:"
    & (10 ∷ listing paths)

abbrev runtime_error : Text → Outcome Entries
runtime_error message = raised (other_error (codes "RuntimeError") message)

abbrev value_error {ℓ} : {A : Type ℓ} → Text → Outcome A
value_error message = raised (other_error (codes "ValueError") message)

-- `for path in candidate_paths`: a document that is no mapping is passed over.
unfoldable pub first_mapping : (Text → Reading) → List Text → List Text → Outcome Entries
unfolding not_found_message
first_mapping read searched [] = runtime_error (not_found_message searched)
first_mapping read searched (path ∷ paths) =
    let later = first_mapping read searched paths in
    elim (read path) [
      | no_file ↦ later
      | broken e ↦
          runtime_error (codes "Failed to parse Ansible group_vars at '" & path & codes "': " & e)
      | parsed document ↦ elim document [ mapping s entries ↦ returned entries | _ ↦ later ]
    ]

unfoldable pub load_group_vars : Source → Outcome Entries
unfolding first_mapping candidate_paths
load_group_vars s = first_mapping s.read (candidate_paths s) (candidate_paths s)

-- `isinstance(versions_map, dict) and versions_map`, with its keys.
abbrev pub versions_of : Yaml → Outcome (List Text)
versions_of (mapping s (entry k v entries)) = returned (k ∷ keys entries)
versions_of _ =
    value_error (codes "Missing or empty 'emulated_gdc_versions' in ansible/group_vars/all.yaml")

abbrev pub variants_of : Yaml → Outcome (List Text)
variants_of (sequence s (item v items)) = returned (str_of v ∷ strs items)
variants_of _ =
    value_error (codes "Missing or empty 'hardware_variants' in ansible/group_vars/all.yaml")

unfoldable pub get_valid_gdc_versions : Source → Outcome (List Text)
unfolding load_group_vars get
get_valid_gdc_versions s = do
  vars ← load_group_vars s
  versions_of (get vars (codes "emulated_gdc_versions"))

-- versions[0]: an IndexError on an empty list.
abbrev pub first_of : List Text → Outcome Text
first_of [] = raised (other_error (codes "IndexError") (codes "list index out of range"))
first_of (v ∷ vs) = returned v

unfoldable pub get_default_gdc_version : Source → Outcome Text
unfolding get_valid_gdc_versions
get_default_gdc_version s = do versions ← get_valid_gdc_versions s; first_of versions

-- `isinstance(entry, dict) and entry.get("abm_version")`
abbrev abm_of : Yaml → Option Text
abm_of (mapping s entries) =
    let v = get entries (codes "abm_version") in if is_truthy v then some (str_of v) else none
abm_of _ = none

abbrev abm_in : Yaml → Text → Option Text
abm_in (mapping s entries) gdc_version = abm_of (get entries gdc_version)
abm_in _ gdc_version = none

unfoldable pub get_abm_version : Source → Text → Outcome (Option Text)
unfolding load_group_vars get
get_abm_version s gdc_version = do
  vars ← load_group_vars s
  returned (abm_in (get vars (codes "emulated_gdc_versions")) gdc_version)

unfoldable pub get_valid_hardware_variants : Source → Outcome (List Text)
unfolding load_group_vars get
get_valid_hardware_variants s = do
  vars ← load_group_vars s
  variants_of (get vars (codes "hardware_variants"))

-- `if default_variant and str(default_variant) in get_valid_hardware_variants()`, or the first variant.
unfoldable pub choose_variant : Yaml → List Text → Outcome Text
unfolding is_member
choose_variant default_variant variants =
    if is_truthy default_variant && is_member (str_of default_variant) variants
    then returned (str_of default_variant)
    else first_of variants

unfoldable pub get_default_hardware_variant : Source → Outcome Text
unfolding load_group_vars get get_valid_hardware_variants choose_variant
get_default_hardware_variant s = do
  vars ← load_group_vars s
  variants ← get_valid_hardware_variants s
  choose_variant (get vars (codes "default_hardware_variant")) variants

-- What the models of requests read from the manifest.
unfoldable pub catalog : Source → Outcome Catalog
unfolding get_valid_gdc_versions get_default_gdc_version get_valid_hardware_variants
    get_default_hardware_variant
catalog s = do
  variants ← get_valid_hardware_variants s
  default_variant ← get_default_hardware_variant s
  versions ← get_valid_gdc_versions s
  default_version ← get_default_gdc_version s
  returned record {
    hardware_variants = variants;
    default_hardware_variant = default_variant;
    gdc_versions = versions;
    default_gdc_version = default_version;
  }
