-- ===== src/Validators/Errors.antt =====
-- The ValueErrors that api/gem_api/models raises, with the texts of their messages.
use gem_gdc_emulation_enviro.Prelude.{Text, codes, ℕ, List, [], ◌∷◌, ◌++◌}
use gem_gdc_emulation_enviro.Prelude.Strings.{decimal}
use gem_gdc_emulation_enviro.Prelude.Strings.Sorting.{sorted}

pub data ValueError : Type 0 where
  swapped : Text → Text → ValueError
  zone_is_region bad_zone : Text → ValueError
  region_is_zone : Text → Text → ValueError
  bad_region : Text → ValueError
  mismatch : Text → Text → Text → ValueError
  bad_email : Text → Text → ValueError
  bad_project_id bad_storage_size : Text → ValueError
  empty_name : Text → ValueError
  long_name : Text → Text → ℕ → ValueError
  bad_name : Text → Text → ValueError
  bad_cidr bad_address : Text → ValueError
  empty_network_name : ValueError
  bad_network_name : Text → ValueError
  bad_option : Text → Text → List Text → ValueError
  long_node_names : Text → Text → Text → ℕ → ValueError

pub data Result {ℓ} (A : Type ℓ) : Type ℓ where
  ok : A → Result A
  err : ValueError → Result A

infixl 5 ◌>>=◌ ◌>>◌
abbrev pub ◌>>=◌ {ℓ κ} : {A : Type ℓ} {B : Type κ} → Result A → (A → Result B) → Result B
ok a >>= f = f a
err e >>= f = err e

abbrev pub ◌>>◌ {ℓ κ} : {A : Type ℓ} {B : Type κ} → Result A → Result B → Result B
m >> k = m >>= λ _. k

infixr 65 ◌&◌
abbrev ◌&◌ : Text → Text → Text
s & t = s ++ t

-- 'v', as the messages quote a value.
abbrev quoted : Text → Text
quoted v = codes "'" & v & codes "'"

-- ', '.join(options)
abbrev comma_separated : List Text → Text
comma_separated [] = []
comma_separated (o ∷ []) = o
comma_separated (o ∷ p ∷ options) = o & codes ", " & comma_separated (p ∷ options)

-- The messages of the validators for zones, regions, addresses of service accounts, names, networks and
-- options.
pub message : ValueError → Text
message (swapped z r) =
    codes "Invalid GCP zone "
    & quoted z
    & codes " and region "
    & quoted r
    & codes ": zone and region are swapped. In GCP, "
    & quoted z
    & codes " is a region and "
    & quoted r
    & codes " is a zone. Expected zone="
    & quoted r
    & codes " and region="
    & quoted z
    & codes "."
message (zone_is_region z) =
    codes "Invalid GCP zone "
    & quoted z
    & codes ". "
    & quoted z
    & codes " is a GCP region; zones must include a zone letter suffix such as '"
    & z
    & codes "-a' or '"
    & z
    & codes "-b'."
message (bad_zone z) =
    codes "Invalid GCP zone "
    & quoted z
    & codes
        ". Zones must follow the format '<region>-<zone_letter>' (e.g., 'us-central1-a', 'us-east5-b')."
message (region_is_zone r derived) =
    codes "Invalid GCP region "
    & quoted r
    & codes ". "
    & quoted r
    & codes " is a GCP zone; regions must not include a zone letter suffix (e.g., "
    & quoted derived
    & codes ")."
message (bad_region r) =
    codes "Invalid GCP region "
    & quoted r
    & codes
        ". Regions must follow the format '<location>-<name>' (e.g., 'us-central1', 'us-east5')."
message (mismatch r z expected) =
    codes "Region "
    & quoted r
    & codes " does not match zone "
    & quoted z
    & codes " (expected region "
    & quoted expected
    & codes ")."
message (bad_email field v) =
    codes "Invalid "
    & field
    & codes " "
    & quoted v
    & codes ". Must be a valid service account email address."
message (bad_project_id v) =
    codes "Invalid project_id "
    & quoted v
    & codes
        ". GCP project IDs must be lowercase alphanumeric with hyphens, starting with a letter and ending with a letter or digit."
message (bad_storage_size v) =
    codes "Invalid node_storage_size " & quoted v & codes ". Expected format like '100GB' or '1TB'."
message (empty_name field) = field & codes " cannot be empty."
message (long_name field v max_len) =
    field
    & codes " "
    & quoted v
    & codes " exceeds the maximum allowed length of "
    & decimal max_len
    & codes " characters."
message (bad_name field v) =
    field
    & codes " "
    & quoted v
    & codes " must be lowercase alphanumeric with hyphens, starting with a letter."
message (bad_cidr v) = quoted v & codes " is not a valid IPv4 CIDR block."
message (bad_address v) = quoted v & codes " is not a valid IPv4 address."
message empty_network_name = codes "Secondary network name cannot be empty."
message (bad_network_name v) =
    codes "Secondary network name "
    & quoted v
    & codes " must be a valid DNS-1123 label (lowercase alphanumeric and hyphens)."
message (long_node_names name project zone max_len) =
    codes "Cluster name "
    & quoted name
    & codes " is too long for project "
    & quoted project
    & codes " and zone "
    & quoted zone
    & codes
        ". Combined node FQDNs would exceed the 63-character Kubernetes metadata limit. Maximum allowed length for this project/zone is "
    & decimal max_len
    & codes " characters."
message (bad_option field v options) =
    codes "Invalid "
    & field
    & codes " "
    & quoted v
    & codes ". Allowed options: "
    & comma_separated (sorted options)
    & codes "."
