-- ===== src/Validators/Zone/Shape.antt =====
-- What a text that matches GCP_ZONE_REGEX or GCP_REGION_REGEX looks like.
use gem_gdc_emulation_enviro.Prelude.{
  Text, codes, ℕ, ◌≡◌, refl, sym, ap, ◌∙◌, ◌≢◌, true, false, not, inl, inr, [], ◌∷◌, ◌++◌, arith,
  all, ◌==◌, some, text_eq, text_eq_iff, Bool-cases,
}
use gem_gdc_emulation_enviro.Prelude.Strings.{is_space, strip, lower, rsplit_head, is_member}
use gem_gdc_emulation_enviro.Prelude.Strings.Stripping.{strip_of_all}
use gem_gdc_emulation_enviro.Prelude.Strings.Splitting.{rsplit_head-append}
use gem_gdc_emulation_enviro.Regex.{Matches}
use gem_gdc_emulation_enviro.Regex.Decides.{matches_iff}
use gem_gdc_emulation_enviro.Regex.Words.{
  count, count-append, all-append, all_weaken, plus-all, count-eq-zero,
}
use gem_gdc_emulation_enviro.Validators.Patterns.{
  lower_case, lower_alnum, lower_alnum_dash, gcp_region_regex, gcp_zone_regex,
}
use gem_gdc_emulation_enviro.Validators.Sanitize.{
  str, is_placeholder, sanitize_optional_str, clean_str,
}
use gem_gdc_emulation_enviro.Validators.Zone.{is_zone, is_region}

-- What both expressions give, as far as the other proofs need it.
pub record IsRegionShaped (r : Text) : Type 0 where
  pub plain : all lower_alnum_dash r ≡ true
  pub dashes : count b'-' r ≡ 1

pub record IsZoneShaped (z : Text) : Type 0 where
  pub region : Text
  pub letter : ℕ
  pub is_letter : lower_case letter ≡ true
  pub parts : z ≡ region ++ b'-' ∷ letter ∷ []
  pub is_region : is_region region ≡ true

lower_case_plain : (c : ℕ) → lower_case c ≡ true → lower_alnum_dash c ≡ true
lower_case_plain c h = ground arith

lower_alnum_plain : (c : ℕ) → lower_alnum c ≡ true → lower_alnum_dash c ≡ true
lower_alnum_plain c h = ground arith

Matches-IsRegionShaped : (r : Text) → Matches gcp_region_regex r → IsRegionShaped r
Matches-IsRegionShaped r (w, t, e, hw, (x, v, et, (d, ed, hd), hv)) =
    let (w_lower, _) = plus-all lower_case w hw in
    let (v_alnum, _) = plus-all lower_alnum v hv in
    let dash : d ≡ b'-' = ground arith in
    let shape : r ≡ w ++ b'-' ∷ v =
      e ∙ ap (λ u. w ++ u) (et ∙ ap (λ u. u ++ v) (ed ∙ ap (λ (k : ℕ). k ∷ []) dash)) in
    let w_plain = all_weaken lower_case lower_alnum_dash w lower_case_plain w_lower in
    let v_plain = all_weaken lower_alnum lower_alnum_dash v lower_alnum_plain v_alnum in
    let w_zero = count-eq-zero lower_case b'-' w refl w_lower in
    let v_zero = count-eq-zero lower_alnum b'-' v refl v_alnum in
    record {
      plain = rw shape (all-append lower_alnum_dash w (b'-' ∷ v) w_plain v_plain);
      dashes = rw (shape, count-append b'-' w (b'-' ∷ v)) (omega (arith, w_zero, v_zero));
    }

pub is_region-IsRegionShaped : (r : Text) → is_region r ≡ true → IsRegionShaped r
unfolding is_region
is_region-IsRegionShaped r h = Matches-IsRegionShaped r ((matches_iff gcp_region_regex r).0 h)

pub is_zone-IsZoneShaped : (z : Text) → is_zone z ≡ true → IsZoneShaped z
unfolding is_zone is_region
is_zone-IsZoneShaped z h =
    let (r, t, e, hr, (x, l, et, (d, ed, hd), (c, el, hc))) = (matches_iff gcp_zone_regex z).0 h in
    let dash : d ≡ b'-' = ground arith in
    record {
      region = r;
      letter = c;
      is_letter = hc;
      parts =
          e
          ∙ ap (λ u. r ++ u)
              (et ∙ ap (λ u. u ++ l) (ed ∙ ap (λ (k : ℕ). k ∷ []) dash) ∙ ap (λ u. b'-' ∷ u) el);
      is_region = (matches_iff gcp_region_regex r).1 hr;
    }

-- A region with a dash and a letter behind it is a zone.
pub is_zone-append :
    (r : Text) (c : ℕ)
    → is_region r ≡ true
    → lower_case c ≡ true
    → is_zone (r ++ b'-' ∷ c ∷ []) ≡ true
unfolding is_zone is_region
is_zone-append r c hr hc = (matches_iff gcp_zone_regex (r ++ b'-' ∷ c ∷ [])).1 (
  r,
  b'-' ∷ c ∷ [],
  refl,
  (matches_iff gcp_region_regex r).0 hr,
  (b'-' ∷ [], c ∷ [], refl, (b'-', refl, refl), (c, refl, hc)),
)

count-lower : (s : Text) → count b'-' (lower s) ≡ count b'-' s
unfolding lower
count-lower [] = refl
count-lower (c ∷ s) = ground (arith, count-lower s)

lower-ne : (v w : Text) → count b'-' v ≢ 0 → count b'-' w ≡ 0 → text_eq (lower v) w ≡ false
lower-ne v w h z = elim (Bool-cases (text_eq (lower v) w)) [
  | inl e ↦
      absurd (h (sym (count-lower v) ∙ ap (λ t. count b'-' t) ((text_eq_iff (lower v) w).0 e) ∙ z))
  | inr e ↦ e
]

-- No placeholder has a dash.
not-is_placeholder : (v : Text) → count b'-' v ≢ 0 → is_placeholder v ≡ false
unfolding is_placeholder is_member
not-is_placeholder [] h = absurd (h refl)
not-is_placeholder (c ∷ s) h =
    let v : Text = c ∷ s in
    rw (
      lower-ne v (codes "string") h refl,
      lower-ne v (codes "none") h refl,
      lower-ne v (codes "null") h refl,
      lower-ne v (codes "undefined") h refl,
    )

plain-not-is_space : (c : ℕ) → lower_alnum_dash c ≡ true → not (is_space c) ≡ true
unfolding is_space
plain-not-is_space c h = ground arith

strip_of_plain : (s : Text) → all lower_alnum_dash s ≡ true → strip s ≡ s
strip_of_plain s h =
    strip_of_all s (all_weaken lower_alnum_dash (λ c. not (is_space c)) s plain-not-is_space h)

-- Sanitizing leaves a plain text with a dash as it is.
plain-sanitized :
    (s : Text)
    → all lower_alnum_dash s ≡ true
    → count b'-' s ≢ 0
    → (sanitize_optional_str (str s) ≡ some s) × (clean_str (some s) ≡ some s)
unfolding sanitize_optional_str clean_str
plain-sanitized s h n = rw (strip_of_plain s h, not-is_placeholder s n) (refl, refl)

module _ (r : Text) (h : is_region r ≡ true) where
  pub region-sanitized : (sanitize_optional_str (str r) ≡ some r) × (clean_str (some r) ≡ some r)
  region-sanitized =
      let s = is_region-IsRegionShaped r h in plain-sanitized r s.plain (omega (arith, s.dashes))

module _ (z : Text) (h : is_zone z ≡ true) where
  zone-count : count b'-' z ≡ 2
  zone-count =
      let s = is_zone-IsZoneShaped z h in
      let r = is_region-IsRegionShaped s.region s.is_region in
      let letter : (s.letter == b'-') ≡ false = ground (arith, s.is_letter) in
      rw (s.parts, count-append b'-' s.region (b'-' ∷ s.letter ∷ []))
        (ground (arith, r.dashes, letter))

  zone-plain : all lower_alnum_dash z ≡ true
  zone-plain =
      let s = is_zone-IsZoneShaped z h in
      let r = is_region-IsRegionShaped s.region s.is_region in
      let tail : all lower_alnum_dash (b'-' ∷ s.letter ∷ []) ≡ true = ground (arith, s.is_letter) in
      rw s.parts (all-append lower_alnum_dash s.region (b'-' ∷ s.letter ∷ []) r.plain tail)

  pub zone-sanitized : (sanitize_optional_str (str z) ≡ some z) × (clean_str (some z) ≡ some z)
  zone-sanitized = plain-sanitized z zone-plain (omega (arith, zone-count))

  -- No text is both a zone and a region.
  pub zone-not-region : is_region z ≡ false
  zone-not-region = elim (Bool-cases (is_region z)) [
    | inl e ↦ absurd (omega (arith, zone-count, (is_region-IsRegionShaped z e).dashes))
    | inr e ↦ e
  ]

  -- The region of a zone is what stands in front of its last dash, and it is a region.
  pub zone-region :
      (z ≡ rsplit_head b'-' z ++ b'-' ∷ (is_zone-IsZoneShaped z h).letter ∷ [])
      × (is_region (rsplit_head b'-' z) ≡ true)
  zone-region =
      let s = is_zone-IsZoneShaped z h in
      let head : rsplit_head b'-' z ≡ s.region =
        ap (rsplit_head b'-') s.parts
        ∙ rsplit_head-append b'-' s.region (s.letter ∷ []) (ground (arith, s.is_letter)) in
      (rw head s.parts, rw head s.is_region)
