-- ===== src/Validators/Names.antt =====
-- The validators of single fields in api/gem_api/models/validators.py.
pub mod Accepted
use gem_gdc_emulation_enviro.Prelude.{
  Text, ℕ, Option, none, some, if◌then◌else◌, is_empty, length, ltb,
}
use gem_gdc_emulation_enviro.Prelude.Strings.{strip}
use gem_gdc_emulation_enviro.Regex.{matches}
use gem_gdc_emulation_enviro.Validators.Patterns.{
  email_regex, gcp_project_id_regex, storage_size_regex, gce_name_regex,
}
use gem_gdc_emulation_enviro.Validators.Errors.{
  bad_email, bad_project_id, bad_storage_size, empty_name, long_name, bad_name, Result, ok, err,
}
use gem_gdc_emulation_enviro.Validators.Sanitize.{of_option, sanitize_optional_str}

unfoldable pub validate_email_or_sa : Option Text → Text → Result (Option Text)
unfolding sanitize_optional_str matches
validate_email_or_sa val field_name = elim (sanitize_optional_str (of_option val)) [
  | none ↦ ok none
  | some v ↦ if matches email_regex v then ok (some v) else err (bad_email field_name v)
]

unfoldable pub validate_project_id : Option Text → Result (Option Text)
unfolding sanitize_optional_str matches
validate_project_id val = elim (sanitize_optional_str (of_option val)) [
  | none ↦ ok none
  | some v ↦ if matches gcp_project_id_regex v then ok (some v) else err (bad_project_id v)
]

unfoldable pub validate_storage_size : Text → Result Text
unfolding strip matches
validate_storage_size val =
    let v = strip val in if matches storage_size_regex v then ok v else err (bad_storage_size v)

unfoldable pub validate_gce_resource_name : Text → Text → ℕ → Result Text
unfolding strip matches
validate_gce_resource_name val field_name max_len =
    let v = strip val in
    if is_empty v
    then err (empty_name field_name)
    else if ltb max_len (length v)
    then err (long_name field_name v max_len)
    else if matches gce_name_regex v
    then ok v
    else err (bad_name field_name v)
