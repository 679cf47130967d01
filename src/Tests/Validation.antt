-- ===== src/Tests/Validation.antt =====
-- Runs of the validators and of the location of a request.
use gem_gdc_emulation_enviro.Prelude.{Text, codes, ◌≡◌, refl, ◌↔◌, ◌⊎◌, none, some, true}
use gem_gdc_emulation_enviro.Prelude.Strings.{strip, rsplit_head}
use gem_gdc_emulation_enviro.Regex.{Matches}
use gem_gdc_emulation_enviro.Validators.Patterns.{email_regex}
use gem_gdc_emulation_enviro.Validators.Errors.{ok, err, swapped, region_is_zone, bad_email}
use gem_gdc_emulation_enviro.Validators.Sanitize.{of_option, sanitize_optional_str, is_placeholder}
use gem_gdc_emulation_enviro.Validators.Names.{validate_gce_resource_name, validate_email_or_sa}
use gem_gdc_emulation_enviro.Validators.Names.Accepted.{
  IsResourceName, validate_gce_resource_name_iff, validate_email_or_sa_cases,
}
use gem_gdc_emulation_enviro.Validators.Zone.{is_zone, is_region, validate_zone_and_region}
use gem_gdc_emulation_enviro.Validators.Zone.Consistency.{
  LiesIn, Consistent, validate_zone_and_region-Consistent, validate_zone_and_region_fixed,
  validate_zone_and_region_swapped, validate_zone_and_region_zone_as_region,
}
use gem_gdc_emulation_enviro.Runner.Location.{resolve_zone_and_region}
use gem_gdc_emulation_enviro.Runner.Location.Agreement.{
  resolve_zone_and_region_validated, region_alone_disagrees,
}
use gem_gdc_emulation_enviro.Operations.World.{has_log_path}
use gem_gdc_emulation_enviro.Routers.SafeIds.{validated_name-has_log_path}
use gem_gdc_emulation_enviro.Tests.Data.{readings}

abbrev central : Text
central = codes "us-central1"

abbrev central_a : Text
central_a = codes "us-central1-a"

central_a-in : LiesIn central_a central
unfolding is_zone is_region
central_a-in = record { letter = b'a'; is_letter = refl; named = refl; zone = refl; region = refl }

validate_zone_and_region-Consistent_example : Consistent (some central_a, some central)
unfolding validate_zone_and_region sanitize_optional_str strip is_placeholder is_zone is_region
    rsplit_head
validate_zone_and_region-Consistent_example =
    validate_zone_and_region-Consistent (some (codes " us-central1-a ")) (some (codes "string"))
      (some central_a, some central) refl

validate_zone_and_region_fixed_example :
    validate_zone_and_region (some central_a) (some central) ≡ ok (some central_a, some central)
validate_zone_and_region_fixed_example =
    validate_zone_and_region_fixed (some central_a) (some central) central_a-in

validate_zone_and_region_swapped_example :
    validate_zone_and_region (some central) (some central_a) ≡ err (swapped central central_a)
unfolding is_zone is_region
validate_zone_and_region_swapped_example =
    validate_zone_and_region_swapped central central_a refl refl

validate_zone_and_region_zone_as_region_example :
    (derived : Text) × (validate_zone_and_region none (some central_a)
      ≡ err (region_is_zone central_a derived))
    × LiesIn central_a derived
unfolding is_zone
validate_zone_and_region_zone_as_region_example =
    validate_zone_and_region_zone_as_region central_a refl

validate_gce_resource_name_iff_example :
    (validate_gce_resource_name (codes " edge-1 ") (codes "cluster_name") 63 ≡ ok (codes "edge-1"))
    ↔ ((codes "edge-1" ≡ strip (codes " edge-1 ")) × IsResourceName 63 (codes "edge-1"))
validate_gce_resource_name_iff_example =
    validate_gce_resource_name_iff (codes " edge-1 ") (codes "cluster_name") 63 (codes "edge-1")

validate_email_or_sa_cases_example :
    ((sanitize_optional_str (of_option (some (codes "a@b.co"))) ≡ none)
      × (validate_email_or_sa (some (codes "a@b.co")) (codes "email") ≡ ok none))
    ⊎ ((v : Text) × (sanitize_optional_str (of_option (some (codes "a@b.co"))) ≡ some v)
        × (((Matches email_regex v)
              × (validate_email_or_sa (some (codes "a@b.co")) (codes "email") ≡ ok (some v)))
            ⊎ ((¬ (Matches email_regex v))
                × (validate_email_or_sa (some (codes "a@b.co")) (codes "email")
                    ≡ err (bad_email (codes "email") v)))))
validate_email_or_sa_cases_example =
    validate_email_or_sa_cases (some (codes "a@b.co")) (codes "email")

validated_name-has_log_path_example : has_log_path readings (codes "edge-1") ≡ true
unfolding validate_gce_resource_name
validated_name-has_log_path_example =
    validated_name-has_log_path readings (codes " edge-1 ") (codes "cluster_name") 63
      (codes "edge-1") refl refl

resolve_zone_and_region_validated_example :
    resolve_zone_and_region (some central_a) (some central) (codes "us-east1-b") (codes "us-east1")
    ≡ (central_a, central)
resolve_zone_and_region_validated_example =
    resolve_zone_and_region_validated central_a central (codes "us-east1-b") (codes "us-east1")
      central_a-in

region_alone_disagrees_example :
    (validate_zone_and_region none (some (codes "us-east1")) ≡ ok (none, some (codes "us-east1")))
    × (resolve_zone_and_region none (some (codes "us-east1")) central_a central
        ≡ (central_a, codes "us-east1"))
    × (¬ (LiesIn central_a (codes "us-east1")))
unfolding is_zone is_region rsplit_head
region_alone_disagrees_example =
    region_alone_disagrees (codes "us-east1") central_a central refl refl (λ e. cc)
