-- ===== src/Config/Resolving.antt =====
-- How api/gem_api/config.py finds the default project and the default zone: in the environment, in the
-- configuration of gcloud, or a constant. The environment and the runs of gcloud are inputs.
use gem_gdc_emulation_enviro.Prelude.{
  arith, Text, codes, ◌≡◌, refl, Option, none, some, Bool, true, false, not, ◌&&◌, is_empty,
  if◌then◌else◌, Bool-cases, inl, inr, text_eq,
}
use gem_gdc_emulation_enviro.Prelude.Strings.{strip}
use gem_gdc_emulation_enviro.Prelude.Strings.Stripping.{strip-strip}
use gem_gdc_emulation_enviro.Kubernetes.{ℤ, is_zero}

-- os.getenv, whether shutil.which finds gcloud, and what `gcloud config get-value` returns and prints for
-- a key, where none is an exception that the code catches.
pub record Surroundings : Type 0 where
  pub getenv : Text → Option Text
  pub has_gcloud : Bool
  pub get_value : Text → Option (ℤ × Text)

-- os.getenv(key, default)
abbrev or_default : Option Text → Text → Text
or_default none default = default
or_default (some s) default = s

-- What gcloud printed, if it is a value.
unfoldable pub configured : Option (ℤ × Text) → Option Text
configured none = none
configured (some (rc, stdout)) =
    let val = strip stdout in
    if is_zero rc && (not (is_empty val) && not (text_eq val (codes "(unset)")))
    then some val
    else none

-- The branch of gcloud, then the constant.
abbrev or_fallback : Option Text → Text → Text
or_fallback none fallback = fallback
or_fallback (some val) fallback = val

module _ (surroundings : Surroundings) where
  -- os.getenv(first, os.getenv(second, ""))
  abbrev environment_value : Text → Text → Text
  environment_value first second =
      or_default (surroundings.getenv first) (or_default (surroundings.getenv second) (codes ""))

  unfoldable pub resolve_default_project : Text
  resolve_default_project =
      let pid = strip (environment_value (codes "PROJECT_ID") (codes "GCP_PROJECT")) in
      if not (is_empty pid)
      then pid
      else if surroundings.has_gcloud
      then or_fallback (configured (surroundings.get_value (codes "project")))
          (codes "gem-default-project")
      else codes "gem-default-project"

  unfoldable pub resolve_default_zone : Text
  resolve_default_zone =
      let zone = strip (environment_value (codes "GEM_GCP_ZONE") (codes "CLOUDSDK_COMPUTE_ZONE")) in
      if not (is_empty zone)
      then zone
      else if surroundings.has_gcloud
      then or_fallback (configured (surroundings.get_value (codes "compute/zone")))
          (codes "us-central1-a")
      else codes "us-central1-a"

-- A text that is not empty and has no white space around it.
abbrev pub IsResolved : Text → Type 0
IsResolved s = (is_empty s ≡ false) × (strip s ≡ s)

-- What gcloud prints counts only if it is not empty, and is used without the white space around it.
configured-IsResolved :
    (printed : Option (ℤ × Text)) (fallback : Text)
    → IsResolved fallback
    → IsResolved (or_fallback (configured printed) fallback)
unfolding configured
configured-IsResolved none fallback h = h
configured-IsResolved (some (rc, stdout)) fallback h =
    elim (Bool-cases (
      is_zero rc
      && (not (is_empty (strip stdout)) && not (text_eq (strip stdout) (codes "(unset)"))))) [
        | inl e ↦ rw e (ground arith, strip-strip stdout)
        | inr e ↦ rw e h
      ]

choice-IsResolved :
    (s : Text) (has_gcloud : Bool) (printed : Option (ℤ × Text)) (fallback : Text)
    → IsResolved fallback
    → IsResolved (
        if not (is_empty (strip s))
        then strip s
        else if has_gcloud
        then or_fallback (configured printed) fallback
        else fallback)
choice-IsResolved s has_gcloud printed fallback h = elim (Bool-cases (is_empty (strip s))) [
  | inl e ↦ rw e (by_gcloud has_gcloud)
  | inr e ↦ rw e (e, strip-strip s)
]
  where
    by_gcloud :
        (b : Bool) → IsResolved (if b then or_fallback (configured printed) fallback else fallback)
    by_gcloud true = configured-IsResolved printed fallback h
    by_gcloud false = h

-- The default project is not empty and has no white space around it, whatever the environment and gcloud
-- give.
pub resolve_default_project-IsResolved :
    (surroundings : Surroundings) → IsResolved (resolve_default_project surroundings)
unfolding resolve_default_project strip
resolve_default_project-IsResolved s =
    choice-IsResolved (environment_value s (codes "PROJECT_ID") (codes "GCP_PROJECT")) s.has_gcloud
      (s.get_value (codes "project")) (codes "gem-default-project") (refl, refl)

-- The default zone is not empty and has no white space around it, whatever the environment and gcloud
-- give.
pub resolve_default_zone-IsResolved :
    (surroundings : Surroundings) → IsResolved (resolve_default_zone surroundings)
unfolding resolve_default_zone strip
resolve_default_zone-IsResolved s =
    choice-IsResolved (environment_value s (codes "GEM_GCP_ZONE") (codes "CLOUDSDK_COMPUTE_ZONE"))
      s.has_gcloud (s.get_value (codes "compute/zone")) (codes "us-central1-a") (refl, refl)
