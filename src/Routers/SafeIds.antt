-- ===== src/Routers/SafeIds.antt =====
-- The names that the validators accept, as ids of operations: the handlers use the cluster name and
-- the name of the edge router as the id.
use gem_gdc_emulation_enviro.Prelude.{Text, ℕ, ◌≡◌, refl, true, false}
use gem_gdc_emulation_enviro.Validators.Errors.{ok}
use gem_gdc_emulation_enviro.Validators.Names.{validate_gce_resource_name}
use gem_gdc_emulation_enviro.Validators.Names.Accepted.{
  validate_gce_resource_name_iff, IsSafeId, gce_name-IsSafeId,
}
use gem_gdc_emulation_enviro.Operations.World.{Environment, is_bad_id, has_log_path}

safe_id_is_not_bad : (v : Text) → IsSafeId v → is_bad_id v ≡ false
unfolding is_bad_id
safe_id_is_not_bad v safe =
    rw (safe.not_empty, safe.no_slash, safe.no_backslash, safe.no_parent) refl

-- A name that validate_gce_resource_name returns is an operation id with a log file:
-- _get_log_file_path does not raise for it. The condition is that the path of the id resolves inside
-- the log directory, which is so unless a symbolic link stands there.
pub validated_name-has_log_path :
    (env : Environment) (val field_name : Text) (max_len : ℕ) (v : Text)
    → validate_gce_resource_name val field_name max_len ≡ ok v
    → env.resolves_inside v ≡ true
    → has_log_path env v ≡ true
unfolding has_log_path
validated_name-has_log_path env val field_name max_len v accepted inside =
    let (_, name) = (validate_gce_resource_name_iff val field_name max_len v).0 accepted in
    rw (safe_id_is_not_bad v (gce_name-IsSafeId v name.named), inside) refl
