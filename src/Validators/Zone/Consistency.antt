-- ===== src/Validators/Zone/Consistency.antt =====
-- What validate_zone_and_region accepts, and what it makes of it.
use gem_gdc_emulation_enviro.Prelude.{
  Text, ℕ, ◌≡◌, refl, ap, ◌∙◌, subst, true, false, inl, inr, is_empty, [], ◌∷◌, ◌++◌, arith, some,
  none, Option, text_eq, text_eq_iff, Bool-cases,
}
use gem_gdc_emulation_enviro.Prelude.Strings.{rsplit_head}
use gem_gdc_emulation_enviro.Prelude.Strings.Splitting.{rsplit_head-append}
use gem_gdc_emulation_enviro.Validators.Patterns.{lower_case}
use gem_gdc_emulation_enviro.Validators.Errors.{Result, ok, err, swapped, region_is_zone, ◌>>◌}
use gem_gdc_emulation_enviro.Validators.Sanitize.{of_option, sanitize_optional_str}
use gem_gdc_emulation_enviro.Validators.Zone.{
  is_zone, is_region, check_swapped, check_zone, check_region, cross_check, check_sanitized,
  validate_zone_and_region,
}
use gem_gdc_emulation_enviro.Validators.Zone.Shape.{
  region-sanitized, zone-sanitized, zone-not-region, zone-region, is_zone-IsZoneShaped,
  is_region-IsRegionShaped,
}

-- A zone lies in its region: its name is the region's, a dash and a letter.
pub record LiesIn (z r : Text) : Type 0 where
  pub letter : ℕ
  pub is_letter : lower_case letter ≡ true
  pub named : z ≡ r ++ b'-' ∷ letter ∷ []
  pub zone : is_zone z ≡ true
  pub region : is_region r ≡ true

-- A location that the validator may hand on: nothing, a region alone, or a zone in its region.
abbrev pub Consistent : Option Text × Option Text → Type 0
Consistent (none, none) = Unit
Consistent (none, some r) = is_region r ≡ true
Consistent (some z, none) = ⊥
Consistent (some z, some r) = LiesIn z r

pub zone-LiesIn : (z : Text) → is_zone z ≡ true → LiesIn z (rsplit_head b'-' z)
zone-LiesIn z h = record {
  letter = (is_zone-IsZoneShaped z h).letter;
  is_letter = (is_zone-IsZoneShaped z h).is_letter;
  named = (zone-region z h).0;
  zone = h;
  region = (zone-region z h).1;
}

pub LiesIn-rsplit_head : {z r : Text} → LiesIn z r → rsplit_head b'-' z ≡ r
LiesIn-rsplit_head {r} h =
    ap (rsplit_head b'-') h.named
    ∙ rsplit_head-append b'-' r (h.letter ∷ []) (ground (arith, h.is_letter))

-- Neither expression matches the empty text.
region-not-empty : (r : Text) → is_region r ≡ true → is_empty r ≡ false
region-not-empty [] h = absurd (omega (arith, (is_region-IsRegionShaped [] h).dashes))
region-not-empty (c ∷ r) h = refl

zone-not-empty : (z : Text) → is_zone z ≡ true → is_empty z ≡ false
unfolding is_zone
zone-not-empty [] h = cc
zone-not-empty (c ∷ z) h = refl

check_zone-ok : (z : Text) → check_zone (some z) ≡ ok tt → is_zone z ≡ true
unfolding check_zone
check_zone-ok z h = ground arith

check_region-ok : (r : Text) → check_region (some r) ≡ ok tt → is_region r ≡ true
unfolding check_region
check_region-ok r h = ground arith

then-eq-ok :
    {A : Type 0} (m : Result (Unit {0})) (k : Result A) {a : A}
    → (m >> k) ≡ ok a
    → (m ≡ ok tt) × (k ≡ ok a)
then-eq-ok (ok u) k h = (refl, h)
then-eq-ok (err e) k h = cc

accepted : {p q : Option Text × Option Text} → ok p ≡ ok q → Consistent p → Consistent q
accepted h c = subst Consistent (let e : _ ≡ _ = cc h in e) c

-- The checks on sanitized values, one after the other.
region_passes : (r : Text) → is_region r ≡ true → check_sanitized none (some r) ≡ ok (none, some r)
unfolding check_sanitized
region_passes r h = ground arith

zone_passes : (z r : Text) → LiesIn z r → check_sanitized (some z) (some r) ≡ ok (some z, some r)
unfolding check_sanitized
zone_passes z r h =
    let same : rsplit_head b'-' z ≡ r = LiesIn-rsplit_head h in
    ground (arith, zone-not-region z h.zone, same, text_eq_iff r (rsplit_head b'-' z))

swap_refused :
    (z r : Text)
    → is_region z ≡ true
    → is_zone r ≡ true
    → check_sanitized (some z) (some r) ≡ err (swapped z r)
unfolding check_sanitized
swap_refused z r hz hr = ground (arith, region-not-empty z hz, zone-not-empty r hr)

zone_refused :
    (r : Text)
    → is_zone r ≡ true
    → check_sanitized none (some r) ≡ err (region_is_zone r (rsplit_head b'-' r))
unfolding check_sanitized
zone_refused r hr = ground (arith, zone-not-region r hr)

cross_check-Consistent :
    (z r : Option Text) (out : Option Text × Option Text)
    → check_zone z ≡ ok tt
    → check_region r ≡ ok tt
    → cross_check z r ≡ ok out
    → Consistent out
unfolding cross_check
cross_check-Consistent (some z) (some r) out hz hr h =
    elim (Bool-cases (text_eq r (rsplit_head b'-' z))) [
      | inl e ↦
          let same : r ≡ rsplit_head b'-' z = (text_eq_iff r (rsplit_head b'-' z)).0 e in
          accepted (rw e at h) (rw same (zone-LiesIn z (check_zone-ok z hz)))
      | inr e ↦ cc (rw e at h)
    ]
cross_check-Consistent (some z) none out hz hr h = accepted h (zone-LiesIn z (check_zone-ok z hz))
cross_check-Consistent none (some r) out hz hr h = accepted h (check_region-ok r hr)
cross_check-Consistent none none out hz hr h = accepted h tt

-- What passes all the checks is consistent.
check_sanitized-Consistent :
    (z r : Option Text) (out : Option Text × Option Text)
    → check_sanitized z r ≡ ok out
    → Consistent out
unfolding check_sanitized
check_sanitized-Consistent z r out h =
    let past_swap = then-eq-ok (check_swapped z r) _ h in
    let past_zone = then-eq-ok (check_zone z) _ past_swap.1 in
    let past_region = then-eq-ok (check_region r) _ past_zone.1 in
    cross_check-Consistent z r out past_zone.0 past_region.0 past_region.1

-- Whenever validate_zone_and_region accepts a request's zone and region, the pair that it returns
-- is consistent: nothing at all, a region alone, or a zone with the region in which it lies.
pub validate_zone_and_region-Consistent :
    (raw_zone raw_region : Option Text) (out : Option Text × Option Text)
    → validate_zone_and_region raw_zone raw_region ≡ ok out
    → Consistent out
unfolding validate_zone_and_region
validate_zone_and_region-Consistent raw_zone raw_region out h =
    check_sanitized-Consistent (sanitize_optional_str (of_option raw_zone))
      (sanitize_optional_str (of_option raw_region)) out h

-- Validating a consistent pair succeeds and changes nothing. So the validator accepts what it
-- returned before, and every zone that is given in its region.
pub validate_zone_and_region_fixed :
    (raw_zone raw_region : Option Text)
    → Consistent (raw_zone, raw_region)
    → validate_zone_and_region raw_zone raw_region ≡ ok (raw_zone, raw_region)
unfolding validate_zone_and_region sanitize_optional_str
validate_zone_and_region_fixed none none h = refl
validate_zone_and_region_fixed none (some r) h = rw (region-sanitized r h).0 (region_passes r h)
validate_zone_and_region_fixed (some z) none h = absurd h
validate_zone_and_region_fixed (some z) (some r) h =
    rw ((zone-sanitized z h.zone).0, (region-sanitized r h.region).0) (zone_passes z r h)

-- A region given as zone together with a zone given as region is refused as swapped.
pub validate_zone_and_region_swapped :
    (z r : Text)
    → is_region z ≡ true
    → is_zone r ≡ true
    → validate_zone_and_region (some z) (some r) ≡ err (swapped z r)
unfolding validate_zone_and_region
validate_zone_and_region_swapped z r hz hr =
    rw ((region-sanitized z hz).0, (zone-sanitized r hr).0) (swap_refused z r hz hr)

-- A zone given as the only region is refused, and the message names the region in which it lies.
pub validate_zone_and_region_zone_as_region :
    (r : Text)
    → is_zone r ≡ true
    → (derived : Text) × (validate_zone_and_region none (some r) ≡ err (region_is_zone r derived))
      × LiesIn r derived
unfolding validate_zone_and_region sanitize_optional_str
validate_zone_and_region_zone_as_region r hr =
    (rsplit_head b'-' r, rw (zone-sanitized r hr).0 (zone_refused r hr), zone-LiesIn r hr)
