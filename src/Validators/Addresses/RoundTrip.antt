-- ===== src/Validators/Addresses/RoundTrip.antt =====
-- Addresses and networks that are printed, and parsed again.
use gem_gdc_emulation_enviro.Regex.Words.{all-append, all_weaken}
use gem_gdc_emulation_enviro.Exceptions.{◌&◌}
use gem_gdc_emulation_enviro.Prelude.{
  codes, ◌*◌, ◌+◌, List, ap, not, ◌∙◌, both_true, Text, ℕ, zero, suc, ◌≤◌, ◌<◌, ◌≡◌, refl, [], ◌∷◌,
  ◌++◌, Option, none, some, Bool, true, false, ◌&&◌, ◌==◌, arith, Bool-cases, inl, inr, all,
}
use gem_gdc_emulation_enviro.Prelude.Strings.{is_space, has_code, split, decimal}
use gem_gdc_emulation_enviro.Validators.Patterns.{digit}
use gem_gdc_emulation_enviro.Validators.Addresses.{
  of_parts, parse_network, of_octets, parse_address, parse_octet, parse_prefix,
}

-- str(IPv4Address), from the four octets.
abbrev pub address_text : ℕ → ℕ → ℕ → ℕ → Text
address_text a b c d =
    decimal a & codes "." & decimal b & codes "." & decimal c & codes "." & decimal d

-- The address with a prefix length.
abbrev pub network_text : ℕ → ℕ → ℕ → ℕ → ℕ → Text
network_text a b c d p = address_text a b c d & codes "/" & decimal p

-- A test of every number below a limit.
all_below : ℕ → (ℕ → Bool) → Bool
all_below zero p = true
all_below (suc k) p = p k && all_below k p

below : (k : ℕ) (p : ℕ → Bool) → all_below k p ≡ true → (n : ℕ) → n < k → p n ≡ true
unfolding all_below
below zero p h n l = absurd (omega arith)
below (suc k) p h n l = elim (Bool-cases (n == k)) [
  | inl e ↦ let same : n ≡ k = ground arith in rw same (ground arith)
  | inr e ↦ below k p (ground arith) n (ground arith)
]

abbrev is_just : ℕ → Option ℕ → Bool
is_just n none = false
is_just n (some m) = m == n

reads_octet : ℕ → Bool
unfolding decimal parse_octet
reads_octet n = is_just n (parse_octet (decimal n)) && all digit (decimal n)

octets_read : all_below 256 reads_octet ≡ true
unfolding all_below reads_octet
octets_read = refl

reads_prefix : ℕ → Bool
unfolding decimal parse_prefix
reads_prefix n = is_just n (parse_prefix (decimal n)) && all digit (decimal n)

prefixes_read : all_below 33 reads_prefix ≡ true
unfolding all_below reads_prefix
prefixes_read = refl

is_just-eq : (n : ℕ) (o : Option ℕ) → is_just n o ≡ true → o ≡ some n
is_just-eq n none h = absurd (cc h)
is_just-eq n (some m) h = ground arith

octet_read : (n : ℕ) → n < 256 → (parse_octet (decimal n) ≡ some n) × (all digit (decimal n) ≡ true)
unfolding reads_octet
octet_read n h =
    let t : reads_octet n ≡ true = below 256 reads_octet octets_read n h in
    let (read, digits) = both_true _ _ t in (is_just-eq n (parse_octet (decimal n)) read, digits)

prefix_read :
    (n : ℕ) → n ≤ 32 → (parse_prefix (decimal n) ≡ some n) × (all digit (decimal n) ≡ true)
unfolding reads_prefix
prefix_read n h =
    let t : reads_prefix n ≡ true = below 33 reads_prefix prefixes_read n (omega arith) in
    let (read, digits) = both_true _ _ t in (is_just-eq n (parse_prefix (decimal n)) read, digits)

-- A digit is no separator.
digit-other : (c d : ℕ) → digit d ≡ false → digit c ≡ true → (c == d) ≡ false
digit-other c d nd h = elim (Bool-cases (c == d)) [
  | inl e ↦ let same : c ≡ d = ground arith in absurd (cc (nd, h, same))
  | inr e ↦ e
]

has_code-digits : (d : ℕ) (a : Text) → digit d ≡ false → all digit a ≡ true → has_code d a ≡ false
has_code-digits d [] nd h = refl
has_code-digits d (c ∷ a) nd h =
    let (first, rest) = both_true (digit c) (all digit a) h in
    rw (digit-other c d nd first, has_code-digits d a nd rest) refl

has_code-append :
    (d : ℕ) (a b : Text) → has_code d a ≡ false → has_code d b ≡ false → has_code d (a ++ b) ≡ false
has_code-append d [] b h k = k
has_code-append d (c ∷ a) b h k = ground (arith, has_code-append d a b)

-- Splitting behind a part without the separator.
split-append : (d : ℕ) (a s : Text) → has_code d a ≡ false → split d (a ++ d ∷ s) ≡ a ∷ split d s
unfolding split
split-append d [] s h = ground arith
split-append d (c ∷ a) s h =
    rw (split-append d a s (ground arith), (let e : (c == d) ≡ false = ground arith in e)) refl

split-whole : (d : ℕ) (a : Text) → has_code d a ≡ false → split d a ≡ a ∷ []
unfolding split
split-whole d [] h = refl
split-whole d (c ∷ a) h =
    rw (split-whole d a (ground arith), (let e : (c == d) ≡ false = ground arith in e)) refl

digit-not-space : (c : ℕ) → digit c ≡ true → not (is_space c) ≡ true
unfolding is_space
digit-not-space c h = ground arith

not_space-digits : (s : Text) → all digit s ≡ true → all (λ c. not (is_space c)) s ≡ true
not_space-digits s = all_weaken digit (λ c. not (is_space c)) s digit-not-space

-- Four octets, and what their texts are.
module _ (a b c d : ℕ) (a_low : a < 256) (b_low : b < 256) (c_low : c < 256) (d_low : d < 256) where
  no_code : (k : ℕ) → digit k ≡ false → (n : ℕ) → n < 256 → has_code k (decimal n) ≡ false
  no_code k nd n h = has_code-digits k (decimal n) nd (octet_read n h).1

  split-address_text :
      split b'.' (address_text a b c d) ≡ decimal a ∷ decimal b ∷ decimal c ∷ decimal d ∷ []
  split-address_text =
      split-append b'.' (decimal a) (decimal b & codes "." & decimal c & codes "." & decimal d)
        (no_code b'.' refl a a_low)
      ∙ ap (λ (t : List Text). decimal a ∷ t)
          (split-append b'.' (decimal b) (decimal c & codes "." & decimal d)
              (no_code b'.' refl b b_low)
            ∙ ap (λ (t : List Text). decimal b ∷ t)
                (split-append b'.' (decimal c) (decimal d) (no_code b'.' refl c c_low)
                  ∙ ap (λ (t : List Text). decimal c ∷ t)
                      (split-whole b'.' (decimal d) (no_code b'.' refl d d_low))))

  no_slash : has_code b'/' (address_text a b c d) ≡ false
  no_slash =
      has_code-append b'/' (decimal a)
        (codes "." & decimal b & codes "." & decimal c & codes "." & decimal d)
        (no_code b'/' refl a a_low)
        (has_code-append b'/' (decimal b) (codes "." & decimal c & codes "." & decimal d)
          (no_code b'/' refl b b_low)
          (has_code-append b'/' (decimal c) (codes "." & decimal d) (no_code b'/' refl c c_low)
            (no_code b'/' refl d d_low)))

  pub not_space-address_text : all (λ c. not (is_space c)) (address_text a b c d) ≡ true
  unfolding is_space
  not_space-address_text =
      let visible : ℕ → Bool = λ k. not (is_space k) in
      let octet : (n : ℕ) → n < 256 → all visible (decimal n) ≡ true =
        λ n h. not_space-digits (decimal n) (octet_read n h).1 in
      all-append visible (decimal a)
        (codes "." & decimal b & codes "." & decimal c & codes "." & decimal d) (octet a a_low)
        (all-append visible (codes "." & decimal b) (codes "." & decimal c & codes "." & decimal d)
          (octet b b_low)
          (all-append visible (codes "." & decimal c) (codes "." & decimal d) (octet c c_low)
            (octet d d_low)))

  -- The text of an address is parsed as the number of its octets.
  pub parse_address-address_text :
      parse_address (address_text a b c d) ≡ some (((a * 256 + b) * 256 + c) * 256 + d)
  unfolding parse_address of_octets
  parse_address-address_text =
      rw
        (
          no_slash,
          split-address_text,
          (octet_read a a_low).0,
          (octet_read b b_low).0,
          (octet_read c c_low).0,
          (octet_read d d_low).0,
        )
        refl

  module _ (p : ℕ) (p_low : p ≤ 32) where
    split-network_text : split b'/' (network_text a b c d p) ≡ address_text a b c d ∷ decimal p ∷ []
    split-network_text =
        split-append b'/' (address_text a b c d) (decimal p) no_slash
        ∙ ap (λ (t : List Text). address_text a b c d ∷ t)
            (split-whole b'/' (decimal p)
              (has_code-digits b'/' (decimal p) refl (prefix_read p p_low).1))

    pub not_space-network_text : all (λ c. not (is_space c)) (network_text a b c d p) ≡ true
    unfolding is_space
    not_space-network_text =
        all-append (λ k. not (is_space k)) (address_text a b c d) (codes "/" & decimal p)
          not_space-address_text (not_space-digits (decimal p) (prefix_read p p_low).1)

    -- The text of a network is parsed as its address and its prefix length.
    pub parse_network-network_text :
        parse_network (network_text a b c d p)
        ≡ some record { address = ((a * 256 + b) * 256 + c) * 256 + d; prefix = p }
    unfolding parse_network of_parts
    parse_network-network_text =
        rw (split-network_text, parse_address-address_text, (prefix_read p p_low).0) refl
