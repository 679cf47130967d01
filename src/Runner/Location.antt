-- ===== src/Runner/Location.antt =====
-- _resolve_zone_and_region of api/gem_api/services/runner.py.
pub mod Agreement
use gem_gdc_emulation_enviro.Prelude.{
  Text, Option, none, some, ◌&&◌, not, is_empty, if◌then◌else◌, or_else, Bool,
}
use gem_gdc_emulation_enviro.Prelude.Strings.{has_code, split, init, join}
use gem_gdc_emulation_enviro.Validators.Sanitize.{clean_str}
use gem_gdc_emulation_enviro.Validators.Zone.{is_zone, is_region}

-- The region that is derived where none is given: `"-".join(z.split("-")[:-1])`.
unfoldable pub derive_region : Text → Text → Text
derive_region z default_region =
    if has_code b'-' z then join b'-' (init (split b'-' z)) else default_region

-- `z and r and GCP_REGION_REGEX.match(z) and GCP_ZONE_REGEX.match(r)`
abbrev are_swapped : Text → Text → Bool
are_swapped z r = not (is_empty z) && (not (is_empty r) && (is_region z && is_zone r))

unfoldable pub resolve_zone_and_region : Option Text → Option Text → Text → Text → Text × Text
unfolding derive_region
resolve_zone_and_region raw_zone raw_region default_zone default_region =
    let z = or_else (clean_str raw_zone) default_zone in
    elim (clean_str raw_region) [
      | none ↦ (z, derive_region z default_region)
      | some r ↦ if are_swapped z r then (r, z) else (z, r)
    ]
