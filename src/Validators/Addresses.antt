-- ===== src/Validators/Addresses.antt =====
-- Python's ipaddress.IPv4Address and ipaddress.IPv4Network(_, strict=False), which the validators of
-- api/gem_api/models/clusters.py call on a text.
pub mod Ranges
pub mod RoundTrip
use gem_gdc_emulation_enviro.Prelude.{
  Text, codes, ℕ, zero, suc, ◌+◌, ◌-◌, ◌*◌, ◌/◌, ◌%◌, ◌^◌, List, [], ◌∷◌, Option, none, some, Bool,
  not, ◌&&◌, ◌==◌, if◌then◌else◌, is_empty, all, length, ltb, leb, text_eq,
}
use gem_gdc_emulation_enviro.Prelude.Strings.{has_code, split, starts_with}
use gem_gdc_emulation_enviro.Validators.Patterns.{digit}

-- int(s) for a text of ASCII digits, from the left.
unfoldable pub digits_value : ℕ → Text → ℕ
digits_value acc [] = acc
digits_value acc (c ∷ s) = digits_value (acc * 10 + (c - b'0')) s

-- s.isascii() and s.isdigit()
abbrev pub is_decimal : Text → Bool
is_decimal s = not (is_empty s) && all digit s

-- One to three digits, without a leading zero, up to 255.
unfoldable pub parse_octet : Text → Option ℕ
unfolding digits_value text_eq starts_with
parse_octet s =
    if is_decimal s
      && (not (ltb 3 (length s))
          && (not (not (text_eq s (codes "0")) && starts_with s (codes "0"))
              && not (ltb 255 (digits_value 0 s))))
    then some (digits_value 0 s)
    else none

-- int.from_bytes of the four octets, in network order.
abbrev pub address_of : Option ℕ → Option ℕ → Option ℕ → Option ℕ → Option ℕ
address_of (some a) (some b) (some c) (some d) = some (((a * 256 + b) * 256 + c) * 256 + d)
address_of _ _ _ _ = none

unfoldable pub of_octets : List Text → Option ℕ
unfolding parse_octet
of_octets (a ∷ b ∷ c ∷ d ∷ []) =
    address_of (parse_octet a) (parse_octet b) (parse_octet c) (parse_octet d)
of_octets _ = none

-- IPv4Address(s), as a number.
unfoldable pub parse_address : Text → Option ℕ
unfolding of_octets split
parse_address s = if has_code b'/' s then none else of_octets (split b'.' s)

-- The zero bits at the right end of a number of this many bits.
unfoldable pub trailing_zeros : ℕ → ℕ → ℕ
trailing_zeros zero n = 0
trailing_zeros (suc bits) n =
    let rest = trailing_zeros bits (n / 2) in if n % 2 == 0 then suc rest else 0

-- The prefix length of a mask: ones, and then zeros.
unfoldable pub prefix_of_mask : ℕ → Option ℕ
unfolding trailing_zeros
prefix_of_mask n =
    let zeros = trailing_zeros 32 n in
    if n / 2 ^ zeros == 2 ^ (32 - zeros) - 1 then some (32 - zeros) else none

-- A netmask, or else a hostmask: the complement of one.
unfoldable pub prefix_of_address : Option ℕ → Option ℕ
unfolding prefix_of_mask
prefix_of_address none = none
prefix_of_address (some n) = elim (prefix_of_mask n) [
  | some p ↦ some p
  | none ↦ prefix_of_mask (2 ^ 32 - 1 - n)
]

-- What follows the slash: a prefix length, or a mask.
unfoldable pub parse_prefix : Text → Option ℕ
unfolding digits_value prefix_of_address of_octets split
parse_prefix s =
    if is_decimal s && leb (digits_value 0 s) 32
    then some (digits_value 0 s)
    else prefix_of_address (of_octets (split b'.' s))

pub record Network : Type 0 where
  pub address : ℕ
  pub prefix : ℕ

abbrev pub network_of : Option ℕ → Option ℕ → Option Network
network_of (some address) (some prefix) = some record { address = address; prefix = prefix }
network_of _ _ = none

-- IPv4Network(s, strict=False), with its address as it was given: the host bits are not cleared.
unfoldable pub of_parts : List Text → Option Network
unfolding parse_address parse_prefix
of_parts (a ∷ []) = network_of (parse_address a) (some 32)
of_parts (a ∷ p ∷ []) = network_of (parse_address a) (parse_prefix p)
of_parts _ = none

unfoldable pub parse_network : Text → Option Network
unfolding of_parts split
parse_network s = of_parts (split b'/' s)
