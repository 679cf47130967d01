-- ===== src/Regex/Words.antt =====
-- Words of classes of code points: what every code point of them satisfies, and how often a
-- separator occurs.
use gem_gdc_emulation_enviro.Prelude.{
  Text, ℕ, suc, ◌+◌, ◌≡◌, refl, sym, subst, ◌≢◌, Bool, true, false, List, [], ◌∷◌, ◌++◌, arith, All,
  all, if◌then◌else◌, ◌==◌,
}
use gem_gdc_emulation_enviro.Regex.{one_of, star, plus, Matches}
use mathlib.Core.List.{flatten}

-- How often d occurs.
abbrev pub count : ℕ → Text → ℕ
count d [] = 0
count d (c ∷ s) = if c == d then suc (count d s) else count d s

pub count-append : (d : ℕ) (s t : Text) → count d (s ++ t) ≡ count d s + count d t
count-append d [] t = omega arith
count-append d (c ∷ s) t = ground (arith, count-append d s t)

pub all-append :
    (p : ℕ → Bool) (s t : Text) → all p s ≡ true → all p t ≡ true → all p (s ++ t) ≡ true
all-append p [] t h k = k
all-append p (c ∷ s) t h k = ground (arith, all-append p s t)

pub all_weaken :
    (p q : ℕ → Bool) (s : Text)
    → ((c : ℕ) → p c ≡ true → q c ≡ true)
    → all p s ≡ true
    → all q s ≡ true
all_weaken p q [] w h = refl
all_weaken p q (c ∷ s) w h = ground (arith, w c, all_weaken p q s w)

module _ (p : ℕ → Bool) where
  all-flatten : (parts : List Text) → All (Matches (one_of p)) parts → all p (flatten parts) ≡ true
  unfolding flatten
  all-flatten [] h = refl
  all-flatten (s ∷ parts) ((c, e, h), hs) = rw e (let rest = all-flatten parts hs in ground arith)

  -- Every code point of a word of [p]* is in the class.
  pub star-all : (s : Text) → Matches (star (one_of p)) s → all p s ≡ true
  star-all s (parts, e, hs) = rw e (all-flatten parts hs)

  -- Every code point of a word of [p]+ is in the class, and there is one.
  pub plus-all : (s : Text) → Matches (plus (one_of p)) s → (all p s ≡ true) × (s ≢ [])
  plus-all s (a, b, e, (c, ea, h), hb) =
      let rest : all p b ≡ true = star-all b hb in rw (e, ea) (ground arith, cc)

  -- A separator that is not in the class does not occur.
  pub count-eq-zero : (d : ℕ) (s : Text) → p d ≡ false → all p s ≡ true → count d s ≡ 0
  count-eq-zero d [] n h = refl
  count-eq-zero d (c ∷ s) n h =
      ground (arith, count-eq-zero d s n, λ (e : c ≡ d). subst (λ k. p k ≡ false) (sym e) n)
