-- ===== src/Validators/Sanitize.antt =====
-- sanitize_optional_str of api/gem_api/models/validators.py and _clean_str of
-- api/gem_api/services/runner.py.
use gem_gdc_emulation_enviro.Prelude.{
  Text, codes, ◌≡◌, refl, arith, Option, none, some, List, [], ◌∷◌, Bool, ◌||◌, if◌then◌else◌,
  is_empty,
}
use gem_gdc_emulation_enviro.Prelude.Strings.Stripping.{strip-strip}
use gem_gdc_emulation_enviro.Prelude.Strings.{strip, lower, is_member}

-- A value of type Any: None, a str, or another value with its str(val).
pub data Input : Type 0 where
  absent : Input
  str : Text → Input
  other : Text → Input

-- The str or None that a field declares.
abbrev pub of_option : Option Text → Input
of_option none = absent
of_option (some s) = str s

abbrev pub placeholders : List Text
placeholders = codes "string" ∷ codes "none" ∷ codes "null" ∷ codes "undefined" ∷ []

-- `not v or v.lower() in ("string", "none", "null", "undefined")`
unfoldable pub is_placeholder : Text → Bool
unfolding lower is_member
is_placeholder v = is_empty v || is_member (lower v) placeholders

unfoldable pub sanitize_optional_str : Input → Option Text
sanitize_optional_str absent = none
sanitize_optional_str (other s) = some s
sanitize_optional_str (str val) = let v = strip val in if is_placeholder v then none else some v

unfoldable pub clean_str : Option Text → Option Text
clean_str none = none
clean_str (some val) = let v = strip val in if is_placeholder v then none else some v

pub clean_str-none : clean_str none ≡ none
unfolding clean_str
clean_str-none = refl

-- The two functions are the same one on a str or None.
pub clean_str-eq-sanitize_optional_str :
    (val : Option Text) → clean_str val ≡ sanitize_optional_str (of_option val)
unfolding clean_str sanitize_optional_str
clean_str-eq-sanitize_optional_str none = refl
clean_str-eq-sanitize_optional_str (some v) = refl

-- Sanitizing what was sanitized changes nothing.
pub sanitize_optional_str_idem :
    (v w : Text) → sanitize_optional_str (str v) ≡ some w → sanitize_optional_str (str w) ≡ some w
unfolding sanitize_optional_str
sanitize_optional_str_idem v w h = ground (arith, strip-strip v)
