-- ===== src/Prelude/Strings/Stripping.antt =====
-- What strip and rstrip leave.
use Prim.Native.Nat.{ℕ}
use mathlib.Core.Path.{◌≡◌, refl, ◌∙◌, ap}
use mathlib.Core.Logic.{inl, inr}
use mathlib.Core.Bool.{true, false, not}
use mathlib.Core.List.{[], ◌∷◌}
use native.Mathlib.Omega.{arith}
use gem_gdc_emulation_enviro.Prelude.Tests.{Bool-cases}
use gem_gdc_emulation_enviro.Prelude.Lists.{all}
use gem_gdc_emulation_enviro.Prelude.Strings.{Text, is_space, lstrip, rstrip, cons_stripped, strip}

abbrev pub StartsClean : Text → Type 0
StartsClean [] = Unit
StartsClean (c ∷ s) = is_space c ≡ false

lstrip-StartsClean : (s : Text) → StartsClean (lstrip s)
unfolding lstrip
lstrip-StartsClean [] = tt
lstrip-StartsClean (c ∷ s) = elim (Bool-cases (is_space c)) [
  | inl e ↦ rw e (lstrip-StartsClean s)
  | inr e ↦ rw e e
]

lstrip_of_StartsClean : (s : Text) → StartsClean s → lstrip s ≡ s
unfolding lstrip
lstrip_of_StartsClean [] h = refl
lstrip_of_StartsClean (c ∷ s) h = rw h

cons_stripped-StartsClean :
    (c : ℕ) (s : Text) → is_space c ≡ false → StartsClean (cons_stripped c s)
cons_stripped-StartsClean c [] h = rw h h
cons_stripped-StartsClean c (d ∷ s) h = h

rstrip-StartsClean : (s : Text) → StartsClean s → StartsClean (rstrip s)
unfolding rstrip
rstrip-StartsClean [] h = tt
rstrip-StartsClean (c ∷ s) h = cons_stripped-StartsClean c (rstrip s) h

-- A text that rstrip leaves as it is stays so under one more code point in front.
rstrip-cons_stripped :
    (c : ℕ) (s : Text) → rstrip s ≡ s → rstrip (cons_stripped c s) ≡ cons_stripped c s
unfolding rstrip
rstrip-cons_stripped c [] h = ground arith
rstrip-cons_stripped c (d ∷ s) h = ap (cons_stripped c) h

pub rstrip-rstrip : (s : Text) → rstrip (rstrip s) ≡ rstrip s
unfolding rstrip
rstrip-rstrip [] = refl
rstrip-rstrip (c ∷ s) = rstrip-cons_stripped c (rstrip s) (rstrip-rstrip s)

-- Stripping a second time changes nothing.
pub strip-strip : (s : Text) → strip (strip s) ≡ strip s
unfolding strip
strip-strip s =
    ap rstrip
      (lstrip_of_StartsClean (rstrip (lstrip s)) (rstrip-StartsClean _ (lstrip-StartsClean s)))
    ∙ rstrip-rstrip (lstrip s)

rstrip_of_all : (s : Text) → all (λ c. not (is_space c)) s ≡ true → rstrip s ≡ s
unfolding rstrip
rstrip_of_all [] h = refl
rstrip_of_all (c ∷ s) h = rw (rstrip_of_all s (ground arith)) (cons_clean s)
  where
    cons_clean : (t : Text) → cons_stripped c t ≡ c ∷ t
    cons_clean [] = ground arith
    cons_clean (d ∷ t) = refl

StartsClean-of_all : (s : Text) → all (λ c. not (is_space c)) s ≡ true → StartsClean s
StartsClean-of_all [] h = tt
StartsClean-of_all (c ∷ s) h = ground arith

-- A text without white space is its own strip.
pub strip_of_all : (s : Text) → all (λ c. not (is_space c)) s ≡ true → strip s ≡ s
unfolding strip
strip_of_all s h = ap rstrip (lstrip_of_StartsClean s (StartsClean-of_all s h)) ∙ rstrip_of_all s h
