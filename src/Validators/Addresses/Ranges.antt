-- ===== src/Validators/Addresses/Ranges.antt =====
-- The numbers that texts of addresses and of networks stand for.
use gem_gdc_emulation_enviro.Prelude.{
  ◌&&◌, leb, Bool, ◌==◌, if◌then◌else◌, subst, ◌∙◌, Text, ℕ, ◌+◌, ◌-◌, ◌*◌, ◌/◌, ◌^◌, ◌≤◌, ◌<◌, ◌≡◌,
  refl, List, [], ◌∷◌, Option, none, some, true, false, Bool-cases, Option-cases, inl, inr, arith,
}
use gem_gdc_emulation_enviro.Prelude.Strings.{split}
use gem_gdc_emulation_enviro.Validators.Addresses.{
  digits_value, is_decimal, parse_octet, address_of, of_octets, parse_address, trailing_zeros,
  prefix_of_mask, prefix_of_address, parse_prefix, Network, network_of, of_parts, parse_network,
}

octet_range : (s : Text) (n : ℕ) → parse_octet s ≡ some n → n < 256
unfolding parse_octet
octet_range s n h = ground arith

address_of-range :
    (a b c d : Option ℕ) (n : ℕ)
    → ((m : ℕ) → a ≡ some m → m < 256)
    → ((m : ℕ) → b ≡ some m → m < 256)
    → ((m : ℕ) → c ≡ some m → m < 256)
    → ((m : ℕ) → d ≡ some m → m < 256)
    → address_of a b c d ≡ some n
    → n < 2 ^ 32
address_of-range none b c d n ha hb hc hd h = absurd (cc h)
address_of-range (some a) none c d n ha hb hc hd h = absurd (cc h)
address_of-range (some a) (some b) none d n ha hb hc hd h = absurd (cc h)
address_of-range (some a) (some b) (some c) none n ha hb hc hd h = absurd (cc h)
address_of-range (some a) (some b) (some c) (some d) n ha hb hc hd h =
    let e : ((a * 256 + b) * 256 + c) * 256 + d ≡ n = some_inj h in
    omega (arith, ha a refl, hb b refl, hc c refl, hd d refl)
  where
    some_inj : {m k : ℕ} → some m ≡ some k → m ≡ k
    some_inj e = cc

of_octets-range : (parts : List Text) (n : ℕ) → of_octets parts ≡ some n → n < 2 ^ 32
unfolding of_octets
of_octets-range (a ∷ b ∷ c ∷ d ∷ []) n h =
    address_of-range (parse_octet a) (parse_octet b) (parse_octet c) (parse_octet d) n
      (octet_range a) (octet_range b) (octet_range c) (octet_range d) h
of_octets-range _ n h = absurd (cc h)

-- An address that IPv4Address accepts is a number of 32 bits.
pub parse_address-range : (s : Text) (n : ℕ) → parse_address s ≡ some n → n < 2 ^ 32
unfolding parse_address
parse_address-range s n h = of_octets-range (split b'.' s) n (ground arith)

prefix_of_mask-range : (n p : ℕ) → prefix_of_mask n ≡ some p → p ≤ 32
unfolding prefix_of_mask
prefix_of_mask-range n p h =
    let zeros = trailing_zeros 32 n in
    omega (arith, chosen (n / 2 ^ zeros == 2 ^ (32 - zeros) - 1) (32 - zeros) p h)
  where
    chosen : (b : Bool) (q p : ℕ) → (if b then some q else none) ≡ some p → q ≡ p
    chosen true q p h = cc
    chosen false q p h = absurd (cc h)

prefix_of_address-range : (m : Option ℕ) (p : ℕ) → prefix_of_address m ≡ some p → p ≤ 32
unfolding prefix_of_address
prefix_of_address-range none p h = absurd (cc h)
prefix_of_address-range (some n) p h = elim (Option-cases (prefix_of_mask n)) [
  | inl e ↦ prefix_of_mask-range (2 ^ 32 - 1 - n) p (rw (e, prefix_of_address) at h)
  | inr (q, e) ↦ prefix_of_mask-range n p (e ∙ (rw (e, prefix_of_address) at h))
]

parse_prefix-range : (s : Text) (p : ℕ) → parse_prefix s ≡ some p → p ≤ 32
unfolding parse_prefix
parse_prefix-range s p h = elim (Bool-cases (is_decimal s && leb (digits_value 0 s) 32)) [
  | inl e ↦ ground arith
  | inr e ↦ prefix_of_address-range (of_octets (split b'.' s)) p (rw (e, parse_prefix) at h)
]

network_of-range :
    (a p : Option ℕ) (n : Network)
    → ((m : ℕ) → a ≡ some m → m < 2 ^ 32)
    → ((m : ℕ) → p ≡ some m → m ≤ 32)
    → network_of a p ≡ some n
    → (n.address < 2 ^ 32) × (n.prefix ≤ 32)
network_of-range none p n ha hp h = absurd (cc h)
network_of-range (some a) none n ha hp h = absurd (cc h)
network_of-range (some a) (some p) n ha hp h =
    let e : record { address = a; prefix = p } ≡ n = some_inj h in
    subst (λ (k : Network). (k.address < 2 ^ 32) × (k.prefix ≤ 32)) e (ha a refl, hp p refl)
  where
    some_inj : {m k : Network} → some m ≡ some k → m ≡ k
    some_inj e = cc

of_parts-range :
    (parts : List Text) (n : Network)
    → of_parts parts ≡ some n
    → (n.address < 2 ^ 32) × (n.prefix ≤ 32)
unfolding of_parts
of_parts-range (a ∷ []) n h =
    network_of-range (parse_address a) (some 32) n (parse_address-range a)
      (λ m e. omega (arith, some_inj e)) h
  where
    some_inj : {m k : ℕ} → some m ≡ some k → m ≡ k
    some_inj e = cc
of_parts-range (a ∷ p ∷ []) n h =
    network_of-range (parse_address a) (parse_prefix p) n (parse_address-range a)
      (parse_prefix-range p) h
of_parts-range _ n h = absurd (cc h)

-- A network that IPv4Network accepts has an address of 32 bits and a prefix of at most 32, whether the
-- text gives the prefix as a number, as a netmask or as a hostmask.
pub parse_network-range :
    (s : Text) (n : Network) → parse_network s ≡ some n → (n.address < 2 ^ 32) × (n.prefix ≤ 32)
unfolding parse_network
parse_network-range s n h = of_parts-range (split b'/' s) n h
