-- ===== src/Config.antt =====
-- Settings of api/gem_api/config.py, as they are resolved, and the names that it derives.
pub mod Resolving
use gem_gdc_emulation_enviro.Prelude.{Text, codes, if◌then◌else◌, is_empty}
use gem_gdc_emulation_enviro.Prelude.Strings.{has_code, split, init, join}
use gem_gdc_emulation_enviro.Exceptions.{◌&◌}

pub record Settings : Type 0 where
  pub repo_root : Text
  pub default_project_id : Text
  pub default_zone : Text
  pub log_dir : Text

-- Settings.default_region
unfoldable pub default_region : Settings → Text
default_region s =
    if has_code b'-' s.default_zone
    then join b'-' (init (split b'-' s.default_zone))
    else codes "us-central1"

-- `project_id or self.default_project_id`
abbrev project_or_default : Settings → Text → Text
project_or_default s project_id = if is_empty project_id then s.default_project_id else project_id

unfoldable pub get_provisioning_sa : Settings → Text → Text
get_provisioning_sa s project_id =
    codes "tf-provisioner@" & project_or_default s project_id & codes ".iam.gserviceaccount.com"

unfoldable pub get_cluster_admin_sa : Settings → Text → Text
get_cluster_admin_sa s project_id =
    codes "gem-cluster-admin@" & project_or_default s project_id & codes ".iam.gserviceaccount.com"

unfoldable pub get_tf_state_bucket : Settings → Text → Text
get_tf_state_bucket s project_id = codes "gem-" & project_or_default s project_id & codes "-tfstate"
