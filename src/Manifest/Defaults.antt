-- ===== src/Manifest/Defaults.antt =====
-- The defaults of api/gem_api/manifest.py among the values that it lists.
use gem_gdc_emulation_enviro.Prelude.{
  codes, ◌∙◌, Text, ◌≡◌, refl, sym, subst, List, [], ◌∷◌, true, Bool-cases, inl, inr, both_true,
  text_eq_refl, ◌&&◌,
}
use gem_gdc_emulation_enviro.Prelude.Strings.{is_member}
use gem_gdc_emulation_enviro.Exceptions.{Outcome, returned, raised, ◌>>=◌}
use gem_gdc_emulation_enviro.Config.{Settings}
use gem_gdc_emulation_enviro.Requests.{ClusterCreateRequest}
use gem_gdc_emulation_enviro.Requests.Fields.{valid}
use gem_gdc_emulation_enviro.Requests.Clusters.{Catalog, ClusterCreateBody, validate_cluster_create}
use gem_gdc_emulation_enviro.Requests.Clusters.Accepted.{
  IsValidCluster, validate_cluster_create-IsValid,
}
use gem_gdc_emulation_enviro.Manifest.{
  Yaml, str_of, is_truthy, Source, load_group_vars, get, first_of, choose_variant,
  get_valid_gdc_versions, get_default_gdc_version, get_valid_hardware_variants,
  get_default_hardware_variant, catalog,
}

bind_returned :
    {A B : Type 0} (m : Outcome A) (f : A → Outcome B) (b : B)
    → (m >>= f) ≡ returned b
    → (a : A) × (m ≡ returned a) × (f a ≡ returned b)
bind_returned (returned a) f b h = (a, refl, h)
bind_returned (raised e) f b h = absurd (cc h)

returned_inj : {A : Type 0} {a b : A} → returned a ≡ returned b → a ≡ b
returned_inj e = cc e

first_of-member : (vs : List Text) (v : Text) → first_of vs ≡ returned v → is_member v vs ≡ true
unfolding is_member
first_of-member [] v h = absurd (cc h)
first_of-member (w ∷ vs) v h = rw (sym (returned_inj h), text_eq_refl w) refl

choose_variant-member :
    (d : Yaml) (vs : List Text) (v : Text)
    → choose_variant d vs ≡ returned v
    → is_member v vs ≡ true
unfolding choose_variant
choose_variant-member d vs v h = elim (Bool-cases (is_truthy d && is_member (str_of d) vs)) [
  | inl e ↦
      subst (λ t. is_member t vs ≡ true) (returned_inj (rw (e, choose_variant) at h))
        (both_true _ _ e).1
  | inr e ↦ first_of-member vs v (rw (e, choose_variant) at h)
]

-- The catalog's defaults are listed.
pub record ListsDefaults (c : Catalog) : Type 0 where
  pub variant : is_member c.default_hardware_variant c.hardware_variants ≡ true
  pub version : is_member c.default_gdc_version c.gdc_versions ≡ true

default_version-member :
    (s : Source) (vs : List Text) (v : Text)
    → get_valid_gdc_versions s ≡ returned vs
    → get_default_gdc_version s ≡ returned v
    → is_member v vs ≡ true
unfolding get_default_gdc_version
default_version-member s vs v hs h = first_of-member vs v (rw (hs, get_default_gdc_version) at h)

default_variant-member :
    (s : Source) (vs : List Text) (v : Text)
    → get_valid_hardware_variants s ≡ returned vs
    → get_default_hardware_variant s ≡ returned v
    → is_member v vs ≡ true
unfolding get_default_hardware_variant
default_variant-member s vs v hs h =
    let (vars, _, e) = bind_returned (load_group_vars s) _ v h in
    let (ws, f, g) = bind_returned (get_valid_hardware_variants s) _ v e in
    subst (λ (us : List Text). is_member v us ≡ true) (returned_inj (sym f ∙ hs))
      (choose_variant-member (get vars (codes "default_hardware_variant")) ws v g)

-- Wherever the manifest can be read, its default variant and its default version are listed.
pub catalog-ListsDefaults : (s : Source) (c : Catalog) → catalog s ≡ returned c → ListsDefaults c
unfolding catalog
catalog-ListsDefaults s c h =
    let (variants, e1, h1) = bind_returned (get_valid_hardware_variants s) _ c h in
    let (variant, e2, h2) = bind_returned (get_default_hardware_variant s) _ c h1 in
    let (versions, e3, h3) = bind_returned (get_valid_gdc_versions s) _ c h2 in
    let (version, e4, h4) = bind_returned (get_default_gdc_version s) _ c h3 in
    subst ListsDefaults (returned_inj h4) record {
      variant = default_variant-member s variants variant e1 e2;
      version = default_version-member s versions version e3 e4;
    }

-- Where the manifest can be read, every body for a new cluster that is accepted gives a valid request,
-- whether its fields are given or take their defaults.
pub catalog-IsValidCluster :
    (s : Source) (c : Catalog) (settings : Settings) (b : ClusterCreateBody)
    (r : ClusterCreateRequest)
    → catalog s ≡ returned c
    → validate_cluster_create settings c b ≡ valid r
    → IsValidCluster settings c r
catalog-IsValidCluster s c settings b r h accepted =
    let listed = catalog-ListsDefaults s c h in
    validate_cluster_create-IsValid settings c b r listed.variant listed.version accepted
