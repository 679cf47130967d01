-- ===== src/Operations/Subscribers/Delivery.antt =====
-- What a subscriber has in its queue after a publication.
use gem_gdc_emulation_enviro.Prelude.{
  refl, false, Text, ℕ, zero, suc, ◌-◌, ◌≤◌, ◌<◌, ◌≡◌, sym, ap, ◌∙◌, List, [], ◌∷◌, ◌++◌, Option,
  true, ltb, leb, length, drop, take_last, length-append, arith, Bool-cases, inl, inr,
}
use gem_gdc_emulation_enviro.Operations.Subscribers.{is_full, Queue, offer_loop, offer}

-- Dropping the head, or nothing.
take_last-cons :
    {A : Type 0} (m : ℕ) (x : A) (xs : List A)
    → m ≤ length xs
    → take_last m (x ∷ xs) ≡ take_last m xs
take_last-cons m x xs h =
    ap (λ (k : ℕ). drop k (x ∷ xs))
      (let e : suc (length xs) - m ≡ suc (length xs - m) = omega arith in e)

pub take_last_all : {A : Type 0} (m : ℕ) (xs : List A) → length xs ≤ m → take_last m xs ≡ xs
take_last_all m xs h = ap (λ (k : ℕ). drop k xs) (let e : length xs - m ≡ 0 = omega arith in e)

offer_loop-items :
    (f m : ℕ) (xs : List (Option Text)) (item : Option Text)
    → 0 < m
    → length xs < f
    → (offer_loop f (record { maxsize = m; items = xs }) item).items ≡ take_last m (xs ++ item ∷ [])
unfolding offer_loop
offer_loop-items zero m xs item h k = absurd (omega arith)
offer_loop-items (suc f) m [] item h k = ground (arith, take_last_all m (item ∷ []) (omega arith))
offer_loop-items (suc f) m (x ∷ xs) item h k =
    let pos : ltb 0 m ≡ true = ground arith in
    elim (Bool-cases (leb m (suc (length xs)))) [
      | inl full ↦
          rw (pos, full)
            (offer_loop-items f m xs item h (omega arith)
              ∙ sym (
                  take_last-cons m x (xs ++ item ∷ [])
                    (ground (arith, length-append xs (item ∷ [])))))
      | inr room ↦
          rw (pos, room)
            (sym (
              take_last_all m (x ∷ xs ++ item ∷ []) (ground (arith, length-append xs (item ∷ [])))))
    ]

-- The last maxsize items of what the queue held and the new one: the newest item is never lost,
-- and of a slow client only the oldest are.
pub items-offer :
    (q : Queue) (item : Option Text)
    → 0 < q.maxsize
    → (offer item q).items ≡ take_last q.maxsize (q.items ++ item ∷ [])
unfolding offer
items-offer q item h =
    offer_loop-items (suc (length q.items)) q.maxsize q.items item h (omega arith)

-- An offer to a queue that is not full.
pub offer-room :
    (q : Queue) (item : Option Text)
    → is_full q ≡ false
    → offer item q ≡ record q { items = q.items ++ item ∷ [] }
unfolding offer offer_loop
offer-room q item h = rw h refl
