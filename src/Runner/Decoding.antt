-- ===== src/Runner/Decoding.antt =====
-- bytes.decode("utf-8", errors="replace"): a state machine over the bytes. Each maximal part of an
-- ill-formed sequence gives one U+FFFD.
use gem_gdc_emulation_enviro.Prelude.{
  Text, ℕ, ◌+◌, ◌*◌, ◌-◌, List, [], ◌∷◌, ◌&&◌, leb, ltb, ◌==◌, if◌then◌else◌,
}

-- Inside a sequence: the number of continuation bytes to come, the range of the next one, and the
-- bits so far. None to come is the state between two characters.
record Decoder : Type 0 where
  left : ℕ
  low : ℕ
  high : ℕ
  bits : ℕ

abbrev between : Decoder
between = record { left = 0; low = 0x80; high = 0xbf; bits = 0 }

abbrev sequence : ℕ → ℕ → ℕ → ℕ → Decoder
sequence left low high bits = record { left = left; low = low; high = high; bits = bits }

abbrev replacement : ℕ
replacement = 0xfffd

-- A byte that starts a character.
lead : ℕ → Text × Decoder
lead b =
    if ltb b 0x80
    then (b ∷ [], between)
    else if leb 0xc2 b && leb b 0xdf
    then ([], sequence 1 0x80 0xbf (b - 0xc0))
    else if leb 0xe0 b && leb b 0xef
    then (
      [],
      sequence 2 (if b == 0xe0 then 0xa0 else 0x80) (if b == 0xed then 0x9f else 0xbf) (b - 0xe0),
    )
    else if leb 0xf0 b && leb b 0xf4
    then (
      [],
      sequence 3 (if b == 0xf0 then 0x90 else 0x80) (if b == 0xf4 then 0x8f else 0xbf) (b - 0xf0),
    )
    else (replacement ∷ [], between)

abbrev after_replacement : Text × Decoder → Text × Decoder
after_replacement (out, d) = (replacement ∷ out, d)

step : Decoder → ℕ → Text × Decoder
unfolding lead
step d b =
    if d.left == 0
    then lead b
    else if leb d.low b && leb b d.high
    then (let bits = d.bits * 64 + (b - 0x80) in
        if d.left == 1 then (bits ∷ [], between) else ([], sequence (d.left - 1) 0x80 0xbf bits))
    else after_replacement (lead b)

abbrev emit : Text → Text → Text
emit [] rest = rest
emit (c ∷ out) rest = c ∷ emit out rest

decode_from : Decoder → List ℕ → Text
decode_from d [] = if d.left == 0 then [] else replacement ∷ []
decode_from d (b ∷ bytes) = let next = step d b in emit next.0 (decode_from next.1 bytes)

unfoldable pub decode : List ℕ → Text
unfolding decode_from step
decode bytes = decode_from between bytes
