-- ===== src/Prelude/Strings.antt =====
-- Python's str as the list of its code points, with the methods that the API calls: strip,
-- rstrip, lower, startswith, `in`, split and rsplit. A literal is written `codes "..."`.
pub mod Stripping
pub mod Splitting
pub mod Sorting
use Prim.Native.Nat.{ℕ, zero, suc, ◌+◌, ◌/◌, ◌%◌}
use Prim.Native.Char.{code}
use Prim.Native.String.{String}
use mathlib.Core.Path.{◌≡◌, refl}
use mathlib.Core.Logic.{◌↔◌}
use mathlib.Core.Bool.{Bool, true, false, ◌&&◌, ◌||◌}
use mathlib.Core.List.{List, [], ◌∷◌, ◌++◌, map}
use mathlib.Core.Option.{Option, none, some}
use native.Mathlib.Omega.{arith}
use gem_gdc_emulation_enviro.Prelude.Tests.{leb, ◌==◌, if◌then◌else◌, or_else}
use gem_gdc_emulation_enviro.Prelude.Lists.{is_empty, any}

abbrev pub Text : Type 0
Text = List ℕ

abbrev pub codes : String → Text
codes String.[] = []
codes (String.◌∷◌ c s) = code c ∷ codes s

unfoldable pub text_eq : Text → Text → Bool
text_eq [] [] = true
text_eq [] (d ∷ t) = false
text_eq (c ∷ s) [] = false
text_eq (c ∷ s) (d ∷ t) = c == d && text_eq s t

pub text_eq_iff : (s t : Text) → (text_eq s t ≡ true) ↔ (s ≡ t)
unfolding text_eq
text_eq_iff [] [] = ground arith
text_eq_iff [] (d ∷ t) = ground arith
text_eq_iff (c ∷ s) [] = ground arith
text_eq_iff (c ∷ s) (d ∷ t) = ground (arith, text_eq_iff s t)

pub text_eq_refl : (s : Text) → text_eq s s ≡ true
text_eq_refl s = (text_eq_iff s s).1 refl

-- `s in (a, b, ...)` for a tuple of texts.
unfoldable pub is_member : Text → List Text → Bool
unfolding text_eq
is_member s [] = false
is_member s (t ∷ ts) = text_eq s t || is_member s ts

-- str.isspace for one code point: what `strip` and `rstrip` remove.
unfoldable pub is_space : ℕ → Bool
is_space c =
    (leb 9 c && leb c 13)
    || ((leb 28 c && leb c 32)
        || (c == 0x85
            || (c == 0xa0
                || (c == 0x1680
                    || ((leb 0x2000 c && leb c 0x200a)
                        || (c == 0x2028
                            || (c == 0x2029 || (c == 0x202f || (c == 0x205f || c == 0x3000)))))))))

unfoldable pub lstrip : Text → Text
unfolding is_space
lstrip [] = []
lstrip (c ∷ s) = let rest = lstrip s in if is_space c then rest else c ∷ s

-- One code point in front of a text that is stripped at its right end already.
abbrev pub cons_stripped : ℕ → Text → Text
cons_stripped c [] = if is_space c then [] else c ∷ []
cons_stripped c (d ∷ s) = c ∷ d ∷ s

unfoldable pub rstrip : Text → Text
unfolding is_space
rstrip [] = []
rstrip (c ∷ s) = cons_stripped c (rstrip s)

unfoldable pub strip : Text → Text
unfolding lstrip rstrip
strip s = rstrip (lstrip s)

-- The lower case of ASCII letters. A letter outside ASCII that lower() takes into ASCII is only
-- the Kelvin sign, which gives k: no text that the API compares with has a k.
abbrev pub lower_code : ℕ → ℕ
lower_code c = if leb b'A' c && leb c b'Z' then c + 32 else c

unfoldable pub lower : Text → Text
lower = map lower_code

-- s.startswith(p)
unfoldable pub starts_with : Text → Text → Bool
starts_with s [] = true
starts_with [] (d ∷ p) = false
starts_with (c ∷ s) (d ∷ p) = c == d && starts_with s p

-- p in s
unfoldable pub contains : Text → Text → Bool
unfolding starts_with
contains [] p = is_empty p
contains (c ∷ s) p = starts_with (c ∷ s) p || contains s p

abbrev pub has_code : ℕ → Text → Bool
has_code d s = any (λ c. c == d) s

-- str(n): the decimal digits, by repeated division. The fuel n + 1 is enough, as n / 10 < n.
decimal_from : ℕ → ℕ → Text → Text
decimal_from zero n acc = acc
decimal_from (suc f) n acc =
    let digit = b'0' + n % 10 in
    let more = decimal_from f (n / 10) (digit ∷ acc) in if leb n 9 then digit ∷ acc else more

unfoldable pub decimal : ℕ → Text
unfolding decimal_from
decimal n = decimal_from (suc n) n []

-- s.rpartition on one separator: what stands before the last d, if there is one.
unfoldable pub before_last : ℕ → Text → Option Text
before_last d [] = none
before_last d (c ∷ s) = elim (before_last d s) [
  | some h ↦ some (c ∷ h)
  | none ↦ if c == d then some [] else none
]

-- s.rsplit(d, 1)[0]: the whole text where d does not occur.
unfoldable pub rsplit_head : ℕ → Text → Text
unfolding before_last
rsplit_head d s = or_else (before_last d s) s

abbrev pub cons_head : ℕ → List Text → List Text
cons_head c [] = (c ∷ []) ∷ []
cons_head c (part ∷ parts) = (c ∷ part) ∷ parts

-- s.split(d)
unfoldable pub split : ℕ → Text → List Text
split d [] = [] ∷ []
split d (c ∷ s) = if c == d then [] ∷ split d s else cons_head c (split d s)

-- parts[:-1]
abbrev pub init : List Text → List Text
init [] = []
init (x ∷ []) = []
init (x ∷ y ∷ xs) = x ∷ init (y ∷ xs)

-- d.join(parts)
abbrev pub join : ℕ → List Text → Text
join d [] = []
join d (x ∷ []) = x
join d (x ∷ y ∷ xs) = x ++ d ∷ join d (y ∷ xs)
