-- ===== src/Requests/Fields/Ensures.antt =====
-- What holds of a model whose fields pydantic accepts, from what holds of each field.
use gem_gdc_emulation_enviro.Prelude.{
  Text, ℕ, suc, ◌≤◌, ◌≡◌, refl, List, [], ◌∷◌, Option, none, some, ◌&&◌, leb, Bool-cases, inl, inr,
  arith, All, subst,
}
use gem_gdc_emulation_enviro.Validators.Errors.{Result, ok, err}
use gem_gdc_emulation_enviro.Requests.Fields.{
  of_model, FieldError, Validated, valid, invalid, of_result, ◌<*>◌, required, defaulted, in_range,
  at_item, each_item, after,
}

-- Whatever is accepted has the property.
pub record Ensures {ℓ κ} {A : Type ℓ} (P : A → Type κ) (v : Validated A) : Type (ℓ ⊔ κ) where
  pub holds : (a : A) → v ≡ valid a → P a

valid_inj {ℓ} : {A : Type ℓ} {a b : A} → valid a ≡ valid b → a ≡ b
valid_inj e = cc e

module _ {ℓ κ} {A : Type ℓ} (P : A → Type κ) where
  pub Ensures-valid : (a : A) → P a → Ensures P (valid a)
  Ensures-valid a h = record { holds = λ b e. subst P (valid_inj e) h }

  pub Ensures-invalid : (es : List FieldError) → Ensures P (invalid es)
  Ensures-invalid es = record { holds = λ b e. absurd (cc e) }

  pub Ensures-of_result :
      (field : Text) (m : Result A) → ((a : A) → m ≡ ok a → P a) → Ensures P (of_result field m)
  Ensures-of_result field (ok a) h = Ensures-valid a (h a refl)
  Ensures-of_result field (err e) h = Ensures-invalid _

  pub Ensures-required :
      (field : Text) (check : A → Validated A) (o : Option A)
      → ((a : A) → Ensures P (check a))
      → Ensures P (required field check o)
  Ensures-required field check none h = Ensures-invalid _
  Ensures-required field check (some a) h = h a

  pub Ensures-defaulted :
      (d : A) (check : A → Validated A) (o : Option A)
      → P d
      → ((a : A) → Ensures P (check a))
      → Ensures P (defaulted d check o)
  Ensures-defaulted d check none hd h = Ensures-valid d hd
  Ensures-defaulted d check (some a) hd h = h a

  Ensures-at_item :
      (field : Text) (i : ℕ) (v : Validated A) → Ensures P v → Ensures P (at_item field i v)
  Ensures-at_item field i (valid a) h = h
  Ensures-at_item field i (invalid es) h = Ensures-invalid _

  Ensures-of_model : (m : Result A) → ((a : A) → m ≡ ok a → P a) → Ensures P (of_model m)
  Ensures-of_model (ok a) h = Ensures-valid a (h a refl)
  Ensures-of_model (err e) h = Ensures-invalid _

-- A field more, for a property of the fields together.
pub Ensures-<*> {ℓ κ μ ν} :
    {A : Type ℓ} {B : Type κ} (P : A → Type μ) (R : B → Type ν) (f : Validated (A → B))
    (v : Validated A)
    → Ensures (λ g. (a : A) → P a → R (g a)) f
    → Ensures P v
    → Ensures R (f <*> v)
Ensures-<*> P R (valid g) (valid a) hf hv =
    Ensures-valid R (g a) (hf.holds g refl a (hv.holds a refl))
Ensures-<*> P R (valid g) (invalid es) hf hv = Ensures-invalid R _
Ensures-<*> P R (invalid es) (valid a) hf hv = Ensures-invalid R _
Ensures-<*> P R (invalid es) (invalid fs) hf hv = Ensures-invalid R _

pub Ensures-any {ℓ} : {A : Type ℓ} (v : Validated A) → Ensures (λ a. Unit {0}) v
Ensures-any v = record { holds = λ a e. tt }

-- The bounds of a number.
pub record InRange (low high n : ℕ) : Type 0 where
  pub above : low ≤ n
  pub below : n ≤ high

pub Ensures-in_range :
    (field : Text) (low high n : ℕ) → Ensures (InRange low high) (in_range field low high n)
Ensures-in_range field low high n = elim (Bool-cases (leb low n && leb n high)) [
  | inl e ↦
      rw e
        (Ensures-valid (InRange low high) n record { above = ground arith; below = ground arith })
  | inr e ↦ rw e (Ensures-invalid (InRange low high) _)
]

pub Ensures-each_item {ℓ κ μ} :
    {A : Type ℓ} {B : Type κ} (P : B → Type μ) (field : Text) (i : ℕ) (check : A → Validated B)
    (items : List A)
    → ((a : A) → Ensures P (check a))
    → Ensures (All P) (each_item field i check items)
Ensures-each_item P field i check [] h = Ensures-valid (All P) [] tt
Ensures-each_item P field i check (a ∷ items) h =
    Ensures-<*> (All P) (All P) (valid (λ b bs. b ∷ bs) <*> at_item field i (check a))
      (each_item field (suc i) check items)
      (Ensures-<*> P (λ g. (bs : _) → All P bs → All P (g bs)) (valid (λ b bs. b ∷ bs))
        (at_item field i (check a)) (Ensures-valid _ (λ b bs. b ∷ bs) (λ b hb bs hbs. (hb, hbs)))
        (Ensures-at_item P field i (check a) (h a)))
      (Ensures-each_item P field (suc i) check items h)

pub Ensures-after {ℓ κ μ ν} :
    {A : Type ℓ} {B : Type κ} (P : A → Type μ) (Q : B → Type ν) (v : Validated A)
    (check : A → Result B)
    → Ensures P v
    → ((a : A) (b : B) → P a → check a ≡ ok b → Q b)
    → Ensures Q (after v check)
Ensures-after P Q (invalid es) check hv h = Ensures-invalid Q es
Ensures-after P Q (valid a) check hv h =
    Ensures-of_model Q (check a) (λ b e. h a b (hv.holds a refl) e)
