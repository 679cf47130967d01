-- ===== src/Validators/Names/Accepted.antt =====
-- The names of resources and the e-mail addresses that api/gem_api/models/validators.py accepts.
use gem_gdc_emulation_enviro.Prelude.{
  Text, codes, ℕ, ◌≤◌, ◌≡◌, refl, sym, ap, ◌∙◌, ◌↔◌, ◌⊎◌, inl, inr, true, false, is_empty, length,
  [], ◌∷◌, arith, some, none, Option, Bool-cases, Option-cases, all, ◌==◌, subst,
}
use gem_gdc_emulation_enviro.Prelude.Strings.{strip, contains}
use gem_gdc_emulation_enviro.Regex.{Matches, matches, opt, seq, star, one_of}
use gem_gdc_emulation_enviro.Regex.Decides.{matches_iff}
use gem_gdc_emulation_enviro.Regex.Words.{all-append, star-all}
use gem_gdc_emulation_enviro.Validators.Patterns.{
  gce_name_regex, lower_case, lower_alnum, lower_alnum_dash, email_regex,
}
use gem_gdc_emulation_enviro.Validators.Errors.{ok, err, bad_email}
use gem_gdc_emulation_enviro.Validators.Sanitize.{of_option, sanitize_optional_str}
use gem_gdc_emulation_enviro.Validators.Names.{validate_gce_resource_name, validate_email_or_sa}

-- What a GCE resource name is, for a limit on its length.
pub record IsResourceName (max_len : ℕ) (v : Text) : Type 0 where
  pub short : length v ≤ max_len
  pub named : Matches gce_name_regex v

gce_name-not-empty : (v : Text) → matches gce_name_regex v ≡ true → is_empty v ≡ false
unfolding matches
gce_name-not-empty [] h = cc
gce_name-not-empty (c ∷ v) h = refl

accepts_name :
    (val field_name : Text) (max_len : ℕ)
    → IsResourceName max_len (strip val)
    → validate_gce_resource_name val field_name max_len ≡ ok (strip val)
unfolding validate_gce_resource_name
accepts_name val field_name max_len h =
    let found = (matches_iff gce_name_regex (strip val)).1 h.named in
    ground (arith, found, gce_name-not-empty (strip val) found, h.short)

accepted_name :
    (val field_name : Text) (max_len : ℕ) (v : Text)
    → validate_gce_resource_name val field_name max_len ≡ ok v
    → (v ≡ strip val) × (length (strip val) ≤ max_len) × (matches gce_name_regex (strip val) ≡ true)
unfolding validate_gce_resource_name
accepted_name val field_name max_len v h = (ground arith, ground arith, ground arith)

-- validate_gce_resource_name accepts a value exactly when the value, stripped, is a name that
-- GCE_NAME_REGEX matches and that has at most max_len characters; then it returns the stripped name.
pub validate_gce_resource_name_iff :
    (val field_name : Text) (max_len : ℕ) (v : Text)
    → (validate_gce_resource_name val field_name max_len ≡ ok v)
      ↔ ((v ≡ strip val) × IsResourceName max_len v)
validate_gce_resource_name_iff val field_name max_len v = (
  λ h.
      let (same, short, found) = accepted_name val field_name max_len v h in
      (
        same,
        subst (IsResourceName max_len) (sym same)
            (record { short = short; named = (matches_iff gce_name_regex (strip val)).0 found }),
      ),
  λ (same, n).
      accepts_name val field_name max_len (subst (IsResourceName max_len) same n)
      ∙ ap ok (sym same),
)

lower_case_plain : (c : ℕ) → lower_case c ≡ true → lower_alnum_dash c ≡ true
lower_case_plain c h = ground arith

lower_alnum_plain : (c : ℕ) → lower_alnum c ≡ true → lower_alnum_dash c ≡ true
lower_alnum_plain c h = ground arith

tail-plain :
    (b : Text)
    → Matches (opt (seq (star (one_of lower_alnum_dash)) (one_of lower_alnum))) b
    → all lower_alnum_dash b ≡ true
tail-plain b (inl e) = rw e
tail-plain b (inr (m, l, e, hm, (d, el, hd))) =
    let last : all lower_alnum_dash l ≡ true = rw el (ground (arith, lower_alnum_plain d hd)) in
    rw e (all-append lower_alnum_dash m l (star-all lower_alnum_dash m hm) last)

gce_name-plain : (v : Text) → Matches gce_name_regex v → all lower_alnum_dash v ≡ true
gce_name-plain v (a, b, e, (c, ea, hc), tail) =
    let head : all lower_alnum_dash a ≡ true = rw ea (ground (arith, lower_case_plain c hc)) in
    rw e (all-append lower_alnum_dash a b head (tail-plain b tail))

-- A code point outside the class does not occur, nor does a text that begins with it.
plain-not-contains :
    (s p : Text) (d : ℕ)
    → lower_alnum_dash d ≡ false
    → all lower_alnum_dash s ≡ true
    → contains s (d ∷ p) ≡ false
unfolding contains
plain-not-contains [] p d n h = refl
plain-not-contains (c ∷ s) p d n h =
    let other : (c == d) ≡ false =
      ground (arith, λ (e : c ≡ d). subst (λ k. lower_alnum_dash k ≡ false) (sym e) n) in
    ground (arith, other, plain-not-contains s p d n)

-- The operation ids that stay inside the log directory.
pub record IsSafeId (v : Text) : Type 0 where
  pub not_empty : is_empty v ≡ false
  pub no_slash : contains v (codes "/") ≡ false
  pub no_backslash : contains v (92 ∷ []) ≡ false
  pub no_parent : contains v (codes "..") ≡ false

pub gce_name-IsSafeId : (v : Text) → Matches gce_name_regex v → IsSafeId v
gce_name-IsSafeId v h =
    let plain = gce_name-plain v h in
    record {
      not_empty = gce_name-not-empty v ((matches_iff gce_name_regex v).1 h);
      no_slash = plain-not-contains v [] b'/' refl plain;
      no_backslash = plain-not-contains v [] 92 refl plain;
      no_parent = plain-not-contains v (codes ".") b'.' refl plain;
    }

-- What an optional field may hold after its validator: nothing, or a text that the pattern matches.
module _ (val : Option Text) where
  -- validate_email_or_sa never changes a sanitized value, and fails exactly on one that
  -- EMAIL_REGEX does not match.
  pub validate_email_or_sa_cases :
      (field_name : Text)
      → ((sanitize_optional_str (of_option val) ≡ none)
          × (validate_email_or_sa val field_name ≡ ok none))
        ⊎ ((v : Text) × (sanitize_optional_str (of_option val) ≡ some v)
            × (((Matches email_regex v) × (validate_email_or_sa val field_name ≡ ok (some v)))
                ⊎ ((¬ (Matches email_regex v))
                    × (validate_email_or_sa val field_name ≡ err (bad_email field_name v)))))
  unfolding validate_email_or_sa
  validate_email_or_sa_cases field_name =
      elim (Option-cases (sanitize_optional_str (of_option val))) [
        | inl e ↦ inl (e, rw (e, validate_email_or_sa))
        | inr (v, e) ↦ inr (
          v,
          e,
          elim (Bool-cases (matches email_regex v)) [
            | inl m ↦ inl ((matches_iff email_regex v).0 m, rw (e, m, validate_email_or_sa))
            | inr m ↦
                inr (λ w. cc (m, (matches_iff email_regex v).1 w), rw (e, m, validate_email_or_sa))
          ],
        )
      ]
