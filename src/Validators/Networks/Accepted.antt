-- ===== src/Validators/Networks/Accepted.antt =====
-- The blocks, addresses and names that the validators of secondary networks accept.
use gem_gdc_emulation_enviro.Regex.Decides.{matches_iff}
use gem_gdc_emulation_enviro.Validators.Addresses.RoundTrip.{
  address_text, network_text, not_space-address_text, not_space-network_text,
  parse_address-address_text, parse_network-network_text,
}
use gem_gdc_emulation_enviro.Validators.Errors.{
  bad_network_name, bad_address, ok, err, ValueError, bad_cidr,
}
use gem_gdc_emulation_enviro.Prelude.Strings.Stripping.{strip_of_all, strip-strip}
use gem_gdc_emulation_enviro.Prelude.{
  ◌+◌, ◌*◌, inr, inl, ◌∙◌, is_empty, ap, Bool-cases, ◌↔◌, Bool, Text, ℕ, ◌≤◌, ◌<◌, ◌^◌, ◌≡◌, refl,
  sym, subst, none, some, Option, is_some, true, false, if◌then◌else◌,
}
use gem_gdc_emulation_enviro.Prelude.Strings.{strip}
use gem_gdc_emulation_enviro.Regex.{matches, Matches}
use gem_gdc_emulation_enviro.Validators.Patterns.{network_name_regex}
use gem_gdc_emulation_enviro.Validators.Addresses.{Network, parse_address, parse_network}
use gem_gdc_emulation_enviro.Validators.Addresses.Ranges.{parse_address-range, parse_network-range}
use gem_gdc_emulation_enviro.Validators.Networks.{
  validate_network_name, validate_gateway, validate_cidr,
}

-- A text that stands for an IPv4 network, whose address has 32 bits and whose prefix at most 32.
pub record IsCidr (v : Text) : Type 0 where
  pub network : Network
  pub parsed : parse_network v ≡ some network
  pub address_low : network.address < 2 ^ 32
  pub prefix_low : network.prefix ≤ 32
  pub stripped : strip v ≡ v

pub record IsAddress (v : Text) : Type 0 where
  pub address : ℕ
  pub parsed : parse_address v ≡ some address
  pub address_low : address < 2 ^ 32
  pub stripped : strip v ≡ v

pub record IsNetworkName (v : Text) : Type 0 where
  pub named : Matches network_name_regex v
  pub stripped : strip v ≡ v

-- What the test of a validator lets through.
pub passed :
    {v w : Text} (b : Bool) (e : ValueError)
    → (if b then ok v else err e) ≡ ok w
    → (b ≡ true) × (w ≡ v)
passed true e h = (refl, cc)
passed false e h = absurd (cc h)

found : {A : Type 0} (o : Option A) → is_some o ≡ true → (a : A) × (o ≡ some a)
found none h = absurd (cc h)
found (some a) h = (a, refl)

is_some_of : {A : Type 0} (o : Option A) (a : A) → o ≡ some a → is_some o ≡ true
is_some_of o a e = rw e refl

accepted-IsCidr : (val v : Text) → validate_cidr val ≡ ok v → (v ≡ strip val) × IsCidr v
unfolding validate_cidr
accepted-IsCidr val v h =
    let (t, same) = passed (is_some (parse_network (strip val))) (bad_cidr (strip val)) h in
    let (n, e) = found (parse_network (strip val)) t in
    let (low, short) = parse_network-range (strip val) n e in
    (
      same,
      subst IsCidr (sym same) record {
        network = n;
        parsed = e;
        address_low = low;
        prefix_low = short;
        stripped = strip-strip val;
      },
    )

-- validate_cidr accepts a block exactly when the block, stripped, stands for an IPv4 network, and
-- returns it stripped. Its address has 32 bits, and its prefix is at most 32.
pub validate_cidr_iff : (val v : Text) → (validate_cidr val ≡ ok v) ↔ ((v ≡ strip val) × IsCidr v)
unfolding validate_cidr
validate_cidr_iff val v = (
  accepted-IsCidr val v,
  λ (same, c).
      let parsed : is_some (parse_network (strip val)) ≡ true =
        is_some_of (parse_network (strip val)) c.network (ap parse_network (sym same) ∙ c.parsed) in
      rw parsed (ap ok (sym same)),
)

accepted-IsAddress : (val v : Text) → validate_gateway val ≡ ok v → (v ≡ strip val) × IsAddress v
unfolding validate_gateway
accepted-IsAddress val v h =
    let (t, same) = passed (is_some (parse_address (strip val))) (bad_address (strip val)) h in
    let (n, e) = found (parse_address (strip val)) t in
    (
      same,
      subst IsAddress (sym same) record {
        address = n;
        parsed = e;
        address_low = parse_address-range (strip val) n e;
        stripped = strip-strip val;
      },
    )

-- validate_gateway accepts a gateway exactly when it stands, stripped, for an IPv4 address.
pub validate_gateway_iff :
    (val v : Text) → (validate_gateway val ≡ ok v) ↔ ((v ≡ strip val) × IsAddress v)
unfolding validate_gateway
validate_gateway_iff val v = (
  accepted-IsAddress val v,
  λ (same, c).
      let parsed : is_some (parse_address (strip val)) ≡ true =
        is_some_of (parse_address (strip val)) c.address (ap parse_address (sym same) ∙ c.parsed) in
      rw parsed (ap ok (sym same)),
)

-- The name of a secondary network that validate_network_name accepts is a DNS-1123 label.
pub accepted-IsNetworkName :
    (val v : Text) → validate_network_name val ≡ ok v → (v ≡ strip val) × IsNetworkName v
unfolding validate_network_name
accepted-IsNetworkName val v h = elim (Bool-cases (is_empty (strip val))) [
  | inl e ↦ absurd (cc (rw (e, validate_network_name) at h))
  | inr e ↦
      let (t, same) =
        passed (matches network_name_regex (strip val)) (bad_network_name (strip val))
          (rw (e, validate_network_name) at h) in
      (
        same,
        subst IsNetworkName (sym same) record {
          named = (matches_iff network_name_regex (strip val)).0 t;
          stripped = strip-strip val;
        },
      )
]

-- The text that prints four octets is accepted as a gateway, and behind it a prefix length up to 32 is
-- accepted as a CIDR block. Parsing gives back the octets and the prefix length.
pub network_text-accepted :
    (a b c d p : ℕ)
    → a < 256
    → b < 256
    → c < 256
    → d < 256
    → p ≤ 32
    → (validate_gateway (address_text a b c d) ≡ ok (address_text a b c d))
      × (parse_address (address_text a b c d) ≡ some (((a * 256 + b) * 256 + c) * 256 + d))
      × (validate_cidr (network_text a b c d p) ≡ ok (network_text a b c d p))
      × (parse_network (network_text a b c d p)
          ≡ some record { address = ((a * 256 + b) * 256 + c) * 256 + d; prefix = p })
unfolding validate_gateway validate_cidr
network_text-accepted a b c d p ha hb hc hd hp =
    let address = parse_address-address_text a b c d ha hb hc hd in
    let network = parse_network-network_text a b c d ha hb hc hd p hp in
    let bare = strip_of_all (address_text a b c d) (not_space-address_text a b c d ha hb hc hd) in
    let full =
      strip_of_all (network_text a b c d p) (not_space-network_text a b c d ha hb hc hd p hp) in
    (rw (bare, address) refl, address, rw (full, network) refl, network)
