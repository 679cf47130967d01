-- ===== src/Requests/Fields.antt =====
-- How pydantic validates the fields of a model in api/gem_api/models: a default is not validated, and
-- the errors of all fields are reported together, in the order of the fields.
pub mod Ensures
use gem_gdc_emulation_enviro.Prelude.{
  Text, ℕ, suc, List, [], ◌∷◌, ◌++◌, map, Option, none, some, ◌&&◌, leb, if◌then◌else◌,
}
use gem_gdc_emulation_enviro.Validators.Errors.{ValueError, Result, ok, err}

-- Where an error stands.
pub data Part : Type 0 where
  name : Text → Part
  index : ℕ → Part

pub data Problem : Type 0 where
  missing out_of_range : Problem
  refused : ValueError → Problem

pub record FieldError : Type 0 where
  pub loc : List Part
  pub problem : Problem

pub data Validated {ℓ} (A : Type ℓ) : Type ℓ where
  valid : A → Validated A
  invalid : List FieldError → Validated A

abbrev pub fails {ℓ} : {A : Type ℓ} → Text → Problem → Validated A
fails field problem = invalid (record { loc = name field ∷ []; problem = problem } ∷ [])

-- The result of a field validator.
abbrev pub of_result {ℓ} : {A : Type ℓ} → Text → Result A → Validated A
of_result field (ok a) = valid a
of_result field (err e) = fails field (refused e)

-- One field more: the errors of both sides are reported.
infixl 20 ◌<*>◌
abbrev pub ◌<*>◌ {ℓ κ} : {A : Type ℓ} {B : Type κ} → Validated (A → B) → Validated A → Validated B
valid f <*> valid a = valid (f a)
valid f <*> invalid es = invalid es
invalid es <*> valid a = invalid es
invalid es <*> invalid fs = invalid (es ++ fs)

-- A field with no default, and one with a default, and what validates a value that is given.
abbrev pub required {ℓ} : {A : Type ℓ} → Text → (A → Validated A) → Option A → Validated A
required field check none = fails field missing
required field check (some a) = check a

abbrev pub defaulted {ℓ} : {A : Type ℓ} → A → (A → Validated A) → Option A → Validated A
defaulted default check none = valid default
defaulted default check (some a) = check a

abbrev pub any_value {ℓ} : {A : Type ℓ} → A → Validated A
any_value a = valid a

-- Field(ge=low, le=high)
abbrev pub in_range : Text → ℕ → ℕ → ℕ → Validated ℕ
in_range field low high n = if leb low n && leb n high then valid n else fails field out_of_range

-- The errors of an item of a list, at its place.
abbrev below_item : Text → ℕ → FieldError → FieldError
below_item field i e = record e { loc = name field ∷ index i ∷ e.loc }

abbrev at_item {ℓ} : {A : Type ℓ} → Text → ℕ → Validated A → Validated A
at_item field i (valid a) = valid a
at_item field i (invalid es) = invalid (map (below_item field i) es)

abbrev pub each_item {ℓ κ} :
    {A : Type ℓ} {B : Type κ} → Text → ℕ → (A → Validated B) → List A → Validated (List B)
each_item field i check [] = valid []
each_item field i check (a ∷ items) =
    valid (λ b bs. b ∷ bs) <*> at_item field i (check a) <*> each_item field (suc i) check items

-- A model validator, which runs only where no field has an error.
abbrev of_model {ℓ} : {A : Type ℓ} → Result A → Validated A
of_model (ok b) = valid b
of_model (err e) = invalid (record { loc = []; problem = refused e } ∷ [])

abbrev pub after {ℓ κ} : {A : Type ℓ} {B : Type κ} → Validated A → (A → Result B) → Validated B
after (invalid es) check = invalid es
after (valid a) check = of_model (check a)
