-- ===== src/Regex/Decides.antt =====
-- The matcher by derivatives and the language of an expression.
use gem_gdc_emulation_enviro.Prelude.{
  Text, ℕ, ◌≡◌, refl, sym, ◌∙◌, ap, subst, ◌↔◌, inl, inr, Bool, true, ◌&&◌, List, [], ◌∷◌, ◌++◌,
  arith, All, Bool-cases,
}
use gem_gdc_emulation_enviro.Regex.{
  Regex, never, empty_text, one_of, seq, alt, star, nullable, deriv, matches, Matches,
}
use mathlib.Core.List.{flatten, append-eq-nil_iff, cons≢nil, head-eq_of_cons-eq, tail-eq_of_cons-eq}

and-true : (a b : Bool) → (a && b) ≡ true → (a ≡ true) × (b ≡ true)
and-true a b h = ground arith

both-true : {a b : Bool} → a ≡ true → b ≡ true → (a && b) ≡ true
both-true h k = ground arith

nullable_sound : (r : Regex) → nullable r ≡ true → Matches r []
unfolding flatten
nullable_sound never h = cc
nullable_sound empty_text h = refl
nullable_sound (one_of p) h = cc
nullable_sound (seq r q) h =
    let (hr, hq) = and-true (nullable r) (nullable q) h in
    ([], [], refl, nullable_sound r hr, nullable_sound q hq)
nullable_sound (alt r q) h = elim (Bool-cases (nullable r)) [
  | inl e ↦ inl (nullable_sound r e)
  | inr e ↦ inr (nullable_sound q (ground arith))
]
nullable_sound (star r) h = ([], refl, tt)

nullable_complete : (r : Regex) → Matches r [] → nullable r ≡ true
nullable_complete never h = absurd h
nullable_complete empty_text h = refl
nullable_complete (one_of p) (c, e, h) = cc
nullable_complete (seq r q) (a, b, e, hr, hq) =
    let parts : (a ≡ []) × (b ≡ []) = append-eq-nil_iff.0 (sym e) in
    both-true (nullable_complete r (subst (Matches r) parts.0 hr))
      (nullable_complete q (subst (Matches q) parts.1 hq))
nullable_complete (alt r q) (inl h) = ground (arith, nullable_complete r h)
nullable_complete (alt r q) (inr h) = ground (arith, nullable_complete q h)
nullable_complete (star r) h = refl

module _ (c : ℕ) (r q : Regex) (s : Text) where
  -- The head c belongs to the word of `r`.
  seq_front :
      ((a : Text) → Matches (deriv c r) a → Matches r (c ∷ a))
      → Matches (seq (deriv c r) q) s
      → Matches (seq r q) (c ∷ s)
  seq_front onward (a, b, e, hr, hq) = (c ∷ a, b, ap (λ t. c ∷ t) e, onward a hr, hq)

  -- It may belong to the word of `q` where `r` matches nothing.
  seq_after_nothing :
      ((a : Text) → Matches (deriv c r) a → Matches r (c ∷ a))
      → (Matches (deriv c q) s → Matches q (c ∷ s))
      → Matches r []
      → Matches (alt (seq (deriv c r) q) (deriv c q)) s
      → Matches (seq r q) (c ∷ s)
  seq_after_nothing onward later n (inl m) = seq_front onward m
  seq_after_nothing onward later n (inr m) = ([], c ∷ s, refl, n, later m)

-- What the derivative matches is what the expression matches behind c.
deriv_sound : (c : ℕ) (r : Regex) (s : Text) → Matches (deriv c r) s → Matches r (c ∷ s)
unfolding deriv flatten
deriv_sound c never s h = h
deriv_sound c empty_text s h = absurd h
deriv_sound c (one_of p) s h = elim (Bool-cases (p c)) [
  | inl e ↦ (c, ap (λ t. c ∷ t) (rw e at h), e)
  | inr e ↦ absurd (rw e at h)
]
deriv_sound c (seq r q) s h = elim (Bool-cases (nullable r)) [
  | inl e ↦
      seq_after_nothing c r q s (deriv_sound c r) (deriv_sound c q s) (nullable_sound r e)
        (rw e at h)
  | inr e ↦ seq_front c r q s (deriv_sound c r) (rw e at h)
]
deriv_sound c (alt r q) s (inl h) = inl (deriv_sound c r s h)
deriv_sound c (alt r q) s (inr h) = inr (deriv_sound c q s h)
deriv_sound c (star r) s (a, b, e, hr, (parts, eb, hs)) =
    ((c ∷ a) ∷ parts, ap (λ t. c ∷ t) (e ∙ ap (λ t. a ++ t) eb), (deriv_sound c r a hr, hs))

deriv_complete : (c : ℕ) (r : Regex) (s : Text) → Matches r (c ∷ s) → Matches (deriv c r) s
unfolding deriv flatten
deriv_complete c never s h = h
deriv_complete c empty_text s h = absurd (cons≢nil h)
deriv_complete c (one_of p) s (d, e, h) =
    let same : p c ≡ true = ap p (head-eq_of_cons-eq e) ∙ h in rw same (tail-eq_of_cons-eq e)
deriv_complete c (seq r q) s ([], b, e, hr, hq) =
    rw (nullable_complete r hr) (inr (deriv_complete c q s (subst (Matches q) (sym e) hq)))
deriv_complete c (seq r q) s (d ∷ a, b, e, hr, hq) =
    let hr' : Matches r (c ∷ a) = subst (λ k. Matches r (k ∷ a)) (sym (head-eq_of_cons-eq e)) hr in
    let front : Matches (seq (deriv c r) q) s =
      (a, b, tail-eq_of_cons-eq e, deriv_complete c r a hr', hq) in
    elim (Bool-cases (nullable r)) [ inl n ↦ rw n (inl front) | inr n ↦ rw n front ]
deriv_complete c (alt r q) s (inl h) = inl (deriv_complete c r s h)
deriv_complete c (alt r q) s (inr h) = inr (deriv_complete c q s h)
deriv_complete c (star r) s (parts, e, hs) = star_front parts e hs (deriv_complete c r)
  where
    star_front :
        (parts : List Text)
        → c ∷ s ≡ flatten parts
        → All (Matches r) parts
        → ((a : Text) → Matches r (c ∷ a) → Matches (deriv c r) a)
        → Matches (seq (deriv c r) (star r)) s
    star_front [] e hs onward = absurd (cons≢nil e)
    star_front ([] ∷ parts) e (h, hs) onward = star_front parts e hs onward
    star_front ((d ∷ a) ∷ parts) e (h, hs) onward = (
      a,
      flatten parts,
      tail-eq_of_cons-eq e,
      onward a (subst (λ k. Matches r (k ∷ a)) (sym (head-eq_of_cons-eq e)) h),
      (parts, refl, hs),
    )

matches_sound : (r : Regex) (s : Text) → matches r s ≡ true → Matches r s
unfolding matches
matches_sound r [] h = nullable_sound r h
matches_sound r (c ∷ s) h = deriv_sound c r s (matches_sound (deriv c r) s h)

matches_complete : (r : Regex) (s : Text) → Matches r s → matches r s ≡ true
unfolding matches
matches_complete r [] h = nullable_complete r h
matches_complete r (c ∷ s) h = matches_complete (deriv c r) s (deriv_complete c r s h)

-- The matcher accepts a text exactly when the text belongs to the language of the expression.
pub matches_iff : (r : Regex) (s : Text) → (matches r s ≡ true) ↔ Matches r s
matches_iff r s = (matches_sound r s, matches_complete r s)
