-- ===== src/Kubernetes/Values.antt =====
-- Values as json.loads returns them, and the operations on them that api/gem_api/services/k8s_client.py
-- uses, with what each raises on a value of another type.
use gem_gdc_emulation_enviro.Prelude.{
  Text, codes, ℕ, List, [], ◌∷◌, Option, none, some, Bool, true, false, ◌||◌, if◌then◌else◌,
  text_eq, is_empty, not, ◌==◌,
}
use gem_gdc_emulation_enviro.Prelude.Strings.{contains}
use gem_gdc_emulation_enviro.Exceptions.{
  Outcome, ◌>>=◌, returned, raised, attribute_error, other_error,
}

mutual
  pub data Value : Type 0 where
    null : Value
    bool : Bool → Value
    num : ℕ → Value
    text : Text → Value
    arr : Items → Value
    obj : Members → Value

  pub data Items : Type 0 where
    nil : Items
    cons : Value → Items → Items

  pub data Members : Type 0 where
    end : Members
    member : Text → Value → Members → Members

abbrev pub type_error {ℓ} : {A : Type ℓ} → Outcome A
type_error = raised (other_error (codes "TypeError") [])

abbrev pub validation_error {ℓ} : {A : Type ℓ} → Outcome A
validation_error = raised (other_error (codes "ValidationError") [])

-- The last member with this name, or the default.
unfoldable pub lookup : Members → Text → Value → Value
unfolding text_eq
lookup end key default = default
lookup (member k v ms) key default =
    let later = lookup ms key v in
    let other = lookup ms key default in if text_eq k key then later else other

-- value.get(key, default): only a dict has the method.
abbrev pub get : Value → Text → Value → Outcome Value
get (obj ms) key default = returned (lookup ms key default)
get _ key default = raised attribute_error

abbrev pub values_of : Items → List Value
values_of nil = []
values_of (cons v vs) = v ∷ values_of vs

abbrev pub names_of : Members → List Value
names_of end = []
names_of (member k v ms) = text k ∷ names_of ms

abbrev pub letters_of : Text → List Value
letters_of [] = []
letters_of (c ∷ s) = text (c ∷ []) ∷ letters_of s

-- `for x in value`
abbrev pub iterate : Value → Outcome (List Value)
iterate (arr vs) = returned (values_of vs)
iterate (obj ms) = returned (names_of ms)
iterate (text s) = returned (letters_of s)
iterate _ = type_error

unfoldable pub has_name : Members → Text → Bool
unfolding text_eq
has_name end key = false
has_name (member k v ms) key = text_eq k key || has_name ms key

abbrev pub is_text : Text → Value → Bool
is_text key (text s) = text_eq s key
is_text key _ = false

abbrev pub has_text : Items → Text → Bool
has_text nil key = false
has_text (cons v vs) key = is_text key v || has_text vs key

-- `key in value`
abbrev pub in_value : Text → Value → Outcome Bool
in_value key (obj ms) = returned (has_name ms key)
in_value key (arr vs) = returned (has_text vs key)
in_value key (text s) = returned (contains s key)
in_value key _ = type_error

-- A field of type str, and one of type str | None.
abbrev pub as_text : Value → Outcome Text
as_text (text s) = returned s
as_text _ = validation_error

abbrev pub as_optional_text : Value → Outcome (Option Text)
as_optional_text null = returned none
as_optional_text (text s) = returned (some s)
as_optional_text _ = validation_error

-- One summand of sum().
abbrev pub as_number : Value → Outcome ℕ
as_number (num n) = returned n
as_number (bool b) = returned (if b then 1 else 0)
as_number _ = type_error

-- bool(value)
abbrev pub is_true : Value → Bool
is_true null = false
is_true (bool b) = b
is_true (num n) = not (n == 0)
is_true (text s) = not (is_empty s)
is_true (arr nil) = false
is_true (arr (cons v vs)) = true
is_true (obj end) = false
is_true (obj (member k v ms)) = true

-- A list comprehension or loop whose body may raise.
unfoldable pub each {ℓ κ} : {A : Type ℓ} {B : Type κ} → (A → Outcome B) → List A → Outcome (List B)
each f [] = returned []
each f (x ∷ xs) = do y ← f x; ys ← each f xs; returned (y ∷ ys)
