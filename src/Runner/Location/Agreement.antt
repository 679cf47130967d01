-- ===== src/Runner/Location/Agreement.antt =====
-- Whether the location that a pipeline uses is the one that the request's validator accepted.
use gem_gdc_emulation_enviro.Prelude.{Text, ◌≡◌, ◌≢◌, none, some, true, arith}
use gem_gdc_emulation_enviro.Prelude.Strings.{has_code, rsplit_head}
use gem_gdc_emulation_enviro.Prelude.Strings.Splitting.{join-init-split}
use gem_gdc_emulation_enviro.Validators.Errors.{ok}
use gem_gdc_emulation_enviro.Validators.Sanitize.{clean_str-none}
use gem_gdc_emulation_enviro.Validators.Zone.{is_zone, is_region, validate_zone_and_region}
use gem_gdc_emulation_enviro.Validators.Zone.Shape.{
  region-sanitized, zone-sanitized, zone-not-region,
}
use gem_gdc_emulation_enviro.Validators.Zone.Consistency.{
  LiesIn, LiesIn-rsplit_head, validate_zone_and_region_fixed,
}
use gem_gdc_emulation_enviro.Runner.Location.{derive_region, resolve_zone_and_region}

-- A location with a zone, as the validator accepts it, is used unchanged, whatever the defaults.
pub resolve_zone_and_region_validated :
    (z r default_zone default_region : Text)
    → LiesIn z r
    → resolve_zone_and_region (some z) (some r) default_zone default_region ≡ (z, r)
unfolding resolve_zone_and_region
resolve_zone_and_region_validated z r default_zone default_region h =
    ground (
      arith,
      (zone-sanitized z h.zone).1,
      (region-sanitized r h.region).1,
      zone-not-region z h.zone,
    )

-- The region of a zone, derived by splitting and joining, is the one that rsplit finds.
pub derive_region-eq-rsplit_head :
    (z default_region : Text)
    → has_code b'-' z ≡ true
    → derive_region z default_region ≡ rsplit_head b'-' z
unfolding derive_region
derive_region-eq-rsplit_head z default_region h = rw h (join-init-split b'-' z h)

-- A request for a region alone, other than that of the default zone, passes the validator; but the
-- pipeline then uses it together with the default zone, which does not lie in it.
pub region_alone_disagrees :
    (r default_zone default_region : Text)
    → is_region r ≡ true
    → is_zone default_zone ≡ true
    → rsplit_head b'-' default_zone ≢ r
    → (validate_zone_and_region none (some r) ≡ ok (none, some r))
      × (resolve_zone_and_region none (some r) default_zone default_region ≡ (default_zone, r))
      × (¬ (LiesIn default_zone r))
unfolding resolve_zone_and_region
region_alone_disagrees r default_zone default_region hr hz other = (
  validate_zone_and_region_fixed none (some r) hr,
  ground (arith, clean_str-none, (region-sanitized r hr).1, zone-not-region default_zone hz),
  λ l. other (LiesIn-rsplit_head l),
)
