-- ===== src/Runner/Context.antt =====
-- _prepare_gcp_context and _build_tf_init_cmd of api/gem_api/services/runner.py.
use gem_gdc_emulation_enviro.Prelude.{
  Text, codes, List, [], ◌∷◌, ◌++◌, Option, is_empty, if◌then◌else◌, or_else,
}
use gem_gdc_emulation_enviro.Prelude.Dict
use gem_gdc_emulation_enviro.Prelude.Dict.{Dict}
use gem_gdc_emulation_enviro.Exceptions.{◌&◌}
use gem_gdc_emulation_enviro.Config.{
  Settings, default_region, get_provisioning_sa, get_tf_state_bucket,
}
use gem_gdc_emulation_enviro.Requests.{GcpTargetRequest}
use gem_gdc_emulation_enviro.Validators.Sanitize.{clean_str}
use gem_gdc_emulation_enviro.Runner.Location.{resolve_zone_and_region}

pub record GcpContext : Type 0 where
  pub project_id : Text
  pub zone : Text
  pub region : Text
  pub provisioning_sa : Text
  pub bucket : Text
  -- the environment of the subprocesses
  pub env : Dict Text

-- The variables in the order of the assignments.
unfoldable pub set_all : List (Text × Text) → Dict Text → Dict Text
set_all [] env = env
set_all ((k, v) ∷ vars) env = set_all vars (Dict.put env k v)

-- `if provisioning_sa:`
abbrev impersonation : Text → List (Text × Text)
impersonation sa =
    if is_empty sa
    then []
    else (codes "TF_VAR_provisioning_sa_email", sa)
      ∷ (codes "GOOGLE_IMPERSONATE_SERVICE_ACCOUNT", sa)
      ∷ []

module _ (settings : Settings) (environ : Dict Text) where
  unfoldable pub prepare_gcp_context : GcpTargetRequest → Text → Text → Option Text → GcpContext
  unfolding set_all
  prepare_gcp_context request operation_id cluster_name tf_state_bucket =
      let project_id = or_else (clean_str request.project_id) settings.default_project_id in
      let location =
        resolve_zone_and_region request.zone request.region settings.default_zone
          (default_region settings) in
      let sa =
        or_else (clean_str request.provisioning_sa_email)
          (get_provisioning_sa settings project_id) in
      record {
        project_id = project_id;
        zone = location.0;
        region = location.1;
        provisioning_sa = sa;
        bucket = or_else (clean_str tf_state_bucket) (get_tf_state_bucket settings project_id);
        env =
            set_all
              ((codes "CLUSTER_NAME", cluster_name)
                ∷ (codes "PROJECT_ID", project_id)
                ∷ (codes "GEM_GCP_ZONE", location.0)
                ∷ (codes "TF_DATA_DIR", settings.log_dir & codes "/.terraform-" & operation_id)
                ∷ (codes "TF_VAR_project_id", project_id)
                ∷ (codes "TF_VAR_zone", location.0)
                ∷ (codes "TF_VAR_region", location.1)
                ∷ impersonation sa)
              environ;
      }

unfoldable pub build_tf_init_cmd : Text → Text → Text → List Text
build_tf_init_cmd bucket prefix provisioning_sa =
    (codes "terraform"
      ∷ codes "init"
      ∷ codes "-upgrade"
      ∷ codes "-input=false"
      ∷ codes "-reconfigure"
      ∷ (codes "-backend-config=bucket=" & bucket)
      ∷ (codes "-backend-config=prefix=" & prefix)
      ∷ [])
    ++ (if is_empty provisioning_sa
        then []
        else (codes "-backend-config=impersonate_service_account=" & provisioning_sa) ∷ [])
