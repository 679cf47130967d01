-- ===== src/Prelude/Strings/Splitting.antt =====
-- Splitting at a separator: the part before the last one, found in two ways.
use Prim.Native.Nat.{ℕ}
use mathlib.Core.Path.{◌≡◌, refl, sym, ap}
use mathlib.Core.Bool.{true, false}
use mathlib.Core.Logic.{inl, inr, ◌≢◌}
use mathlib.Core.Option.{none, some}
use mathlib.Core.List.{List, [], ◌∷◌, ◌++◌}
use native.Mathlib.Omega.{arith}
use gem_gdc_emulation_enviro.Prelude.Tests.{◌==◌, Bool-cases}
use gem_gdc_emulation_enviro.Prelude.Strings.{
  Text, has_code, before_last, rsplit_head, cons_head, split, init, join,
}

before_last-eq-none : (d : ℕ) (s : Text) → has_code d s ≡ false → before_last d s ≡ none
unfolding before_last
before_last-eq-none d [] h = refl
before_last-eq-none d (c ∷ s) h = ground (arith, before_last-eq-none d s)

-- The part before the last separator, where what follows holds none.
pub before_last-append :
    (d : ℕ) (a b : Text) → has_code d b ≡ false → before_last d (a ++ d ∷ b) ≡ some a
unfolding before_last
before_last-append d [] b h = ground (arith, before_last-eq-none d b h)
before_last-append d (c ∷ a) b h = rw (before_last-append d a b h)

pub rsplit_head-append :
    (d : ℕ) (a b : Text) → has_code d b ≡ false → rsplit_head d (a ++ d ∷ b) ≡ a
unfolding rsplit_head
rsplit_head-append d a b h = rw (before_last-append d a b h)

-- `split` gives at least one part, and more than one exactly where the separator occurs.
abbrev Parts : ℕ → Text → List Text → Type 0
Parts d s [] = ⊥
Parts d s (p ∷ []) = (before_last d s ≡ none) × (p ≡ s)
Parts d s (p ∷ q ∷ ps) = before_last d s ≡ some (join d (init (p ∷ q ∷ ps)))

join-cons_part : (d c : ℕ) (p : Text) (ps : List Text) → join d ((c ∷ p) ∷ ps) ≡ c ∷ join d (p ∷ ps)
join-cons_part d c p [] = refl
join-cons_part d c p (q ∷ ps) = refl

Parts-separator :
    (d c : ℕ) (s : Text) (ps : List Text)
    → (c == d) ≡ true
    → Parts d s ps
    → Parts d (c ∷ s) ([] ∷ ps)
unfolding before_last
Parts-separator d c s [] n h = absurd h
Parts-separator d c s (p ∷ []) n (h, e) = ground arith
Parts-separator d c s (p ∷ q ∷ ps) n h =
    rw (h, before_last) (ap some (ap (λ (k : ℕ). k ∷ join d (p ∷ init (q ∷ ps))) (ground arith)))

Parts-cons_head :
    (d c : ℕ) (s : Text) (ps : List Text)
    → (c == d) ≡ false
    → Parts d s ps
    → Parts d (c ∷ s) (cons_head c ps)
unfolding before_last
Parts-cons_head d c s [] n h = absurd h
Parts-cons_head d c s (p ∷ []) n (h, e) = (ground arith, ap (λ t. c ∷ t) e)
Parts-cons_head d c s (p ∷ q ∷ ps) n h =
    rw (h, before_last) (ap some (sym (join-cons_part d c p _)))

split-Parts : (d : ℕ) (s : Text) → Parts d s (split d s)
unfolding split before_last
split-Parts d [] = (refl, refl)
split-Parts d (c ∷ s) = elim (Bool-cases (c == d)) [
  | inl e ↦ rw e (Parts-separator d c s (split d s) e (split-Parts d s))
  | inr e ↦ rw e (Parts-cons_head d c s (split d s) e (split-Parts d s))
]

before_last-ne-none : (d : ℕ) (s : Text) → has_code d s ≡ true → before_last d s ≢ none
unfolding before_last
before_last-ne-none d [] h = cc
before_last-ne-none d (c ∷ s) h = ground (arith, before_last-ne-none d s)

join-init_of_Parts :
    (d : ℕ) (s : Text) (ps : List Text)
    → has_code d s ≡ true
    → Parts d s ps
    → join d (init ps) ≡ rsplit_head d s
unfolding rsplit_head
join-init_of_Parts d s [] h k = absurd k
join-init_of_Parts d s (p ∷ []) h (n, _) = absurd (before_last-ne-none d s h n)
join-init_of_Parts d s (p ∷ q ∷ ps) h k = rw k

-- Joining all parts but the last again is what rsplit leaves in front of the last separator.
pub join-init-split :
    (d : ℕ) (s : Text) → has_code d s ≡ true → join d (init (split d s)) ≡ rsplit_head d s
join-init-split d s h = join-init_of_Parts d s (split d s) h (split-Parts d s)
