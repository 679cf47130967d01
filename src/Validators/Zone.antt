-- ===== src/Validators/Zone.antt =====
-- validate_zone_and_region of api/gem_api/models/validators.py.
pub mod Shape
pub mod Consistency
use gem_gdc_emulation_enviro.Prelude.{
  Text, Option, none, some, Bool, ◌&&◌, not, if◌then◌else◌, is_empty, text_eq,
}
use gem_gdc_emulation_enviro.Prelude.Strings.{rsplit_head}
use gem_gdc_emulation_enviro.Regex.{matches}
use gem_gdc_emulation_enviro.Validators.Patterns.{gcp_zone_regex, gcp_region_regex}
use gem_gdc_emulation_enviro.Validators.Errors.{
  swapped, zone_is_region, bad_zone, region_is_zone, bad_region, mismatch, Result, ok, err, ◌>>◌,
}
use gem_gdc_emulation_enviro.Validators.Sanitize.{of_option, sanitize_optional_str}

-- GCP_ZONE_REGEX.match, GCP_REGION_REGEX.match
unfoldable pub is_zone : Text → Bool
unfolding matches
is_zone z = matches gcp_zone_regex z

unfoldable pub is_region : Text → Bool
unfolding matches
is_region r = matches gcp_region_regex r

-- `z and r and GCP_REGION_REGEX.match(z) and GCP_ZONE_REGEX.match(r)`
abbrev pub are_swapped : Text → Text → Bool
are_swapped z r = not (is_empty z) && (not (is_empty r) && (is_region z && is_zone r))

check_swapped : Option Text → Option Text → Result (Unit {0})
check_swapped (some z) (some r) = if are_swapped z r then err (swapped z r) else ok tt
check_swapped _ _ = ok tt

check_zone : Option Text → Result (Unit {0})
check_zone none = ok tt
check_zone (some z) =
    if is_zone z then ok tt else if is_region z then err (zone_is_region z) else err (bad_zone z)

check_region : Option Text → Result (Unit {0})
check_region none = ok tt
check_region (some r) =
    if is_region r
    then ok tt
    else if is_zone r
    then err (region_is_zone r (rsplit_head b'-' r))
    else err (bad_region r)

-- The cross-validation, and the region that a zone alone determines.
cross_check : Option Text → Option Text → Result (Option Text × Option Text)
cross_check (some z) (some r) =
    let expected = rsplit_head b'-' z in
    if text_eq r expected then ok (some z, some r) else err (mismatch r z expected)
cross_check (some z) none = ok (some z, some (rsplit_head b'-' z))
cross_check none r = ok (none, r)

-- The checks behind the two calls of sanitize_optional_str.
unfoldable pub check_sanitized : Option Text → Option Text → Result (Option Text × Option Text)
unfolding check_swapped check_zone check_region cross_check
check_sanitized z r = do check_swapped z r; check_zone z; check_region r; cross_check z r

unfoldable pub validate_zone_and_region :
    Option Text → Option Text → Result (Option Text × Option Text)
unfolding check_sanitized
validate_zone_and_region zone region =
    check_sanitized (sanitize_optional_str (of_option zone))
      (sanitize_optional_str (of_option region))
