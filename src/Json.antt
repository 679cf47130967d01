-- ===== src/Json.antt =====
-- json.dumps, as api/gem_api/services uses it: the default separators, and ASCII only.
use gem_gdc_emulation_enviro.Prelude.{
  Text, codes, ℕ, Bool, true, false, ◌+◌, ◌-◌, ◌/◌, ◌%◌, [], ◌∷◌, ◌++◌, if◌then◌else◌, leb, ltb,
  ◌==◌, ◌&&◌,
}
use gem_gdc_emulation_enviro.Prelude.Strings.{decimal}

mutual
  pub data Json : Type 0 where
    text : Text → Json
    num : ℕ → Json
    bool : Bool → Json
    arr : Items → Json
    obj : Fields → Json

  pub data Items : Type 0 where
    nil : Items
    cons : Json → Items → Items

  pub data Fields : Type 0 where
    end : Fields
    field : Text → Json → Fields → Fields

abbrev hex_digit : ℕ → ℕ
hex_digit n = if leb n 9 then b'0' + n else b'a' + (n - 10)

-- \uXXXX
abbrev escape_unit : ℕ → Text
escape_unit n =
    92
    ∷ b'u'
    ∷ hex_digit (n / 4096 % 16)
    ∷ hex_digit (n / 256 % 16)
    ∷ hex_digit (n / 16 % 16)
    ∷ hex_digit (n % 16)
    ∷ []

-- A code point beyond the first plane is two units.
abbrev escape_code : ℕ → Text
escape_code c =
    if ltb c 0x10000
    then escape_unit c
    else escape_unit (0xd800 + (c - 0x10000) / 1024) ++ escape_unit (0xdc00 + (c - 0x10000) % 1024)

abbrev encode_code : ℕ → Text
encode_code c =
    if c == 34
    then 92 ∷ 34 ∷ []
    else if c == 92
    then 92 ∷ 92 ∷ []
    else if c == 10
    then 92 ∷ b'n' ∷ []
    else if c == 13
    then 92 ∷ b'r' ∷ []
    else if c == 9
    then 92 ∷ b't' ∷ []
    else if c == 12
    then 92 ∷ b'f' ∷ []
    else if c == 8
    then 92 ∷ b'b' ∷ []
    else if leb 32 c && leb c 126
    then c ∷ []
    else escape_code c

encode_codes : Text → Text
encode_codes [] = []
encode_codes (c ∷ s) = encode_code c ++ encode_codes s

encode_text : Text → Text
unfolding encode_codes
encode_text s = 34 ∷ encode_codes s ++ 34 ∷ []

unfoldable mutual
  unfolding encode_text decimal

  pub dumps : Json → Text
  dumps (text s) = encode_text s
  dumps (num n) = decimal n
  dumps (bool true) = codes "true"
  dumps (bool false) = codes "false"
  dumps (arr xs) = codes "[" ++ dumps_items xs ++ codes "]"
  dumps (obj fs) = codes "{" ++ dumps_fields fs ++ codes "}"

  pub dumps_items : Items → Text
  dumps_items nil = []
  dumps_items (cons x nil) = dumps x
  dumps_items (cons x (cons y ys)) = dumps x ++ codes ", " ++ dumps_items (cons y ys)

  pub dumps_fields : Fields → Text
  dumps_fields end = []
  dumps_fields (field k v end) = encode_text k ++ codes ": " ++ dumps v
  dumps_fields (field k v (field k' v' fs)) =
      encode_text k ++ codes ": " ++ dumps v ++ codes ", " ++ dumps_fields (field k' v' fs)
