-- ===== src/Regex.antt =====
-- The regular expressions of api/gem_api/models/validators.py, read as Python's `re` reads them.
-- A pattern `^r$` is tried by `match` on stripped text, which ends in no newline, so that `$` is the
-- end of the text. Matching is by derivatives.
pub mod Decides
pub mod Words
use gem_gdc_emulation_enviro.Prelude.{
  Text, ℕ, ◌≡◌, ◌⊎◌, Bool, true, false, ◌&&◌, ◌||◌, List, [], ◌∷◌, ◌++◌, if◌then◌else◌, All, ◌==◌,
}
use mathlib.Core.List.{flatten}

pub data Regex : Type 0 where
  never empty_text : Regex
  one_of : (ℕ → Bool) → Regex
  seq alt : Regex → Regex → Regex
  star : Regex → Regex

-- r+
abbrev pub plus : Regex → Regex
plus r = seq r (star r)

-- r?
abbrev pub opt : Regex → Regex
opt r = alt empty_text r

abbrev pub char : ℕ → Regex
char d = one_of (λ c. c == d)

-- A literal text.
abbrev pub literal : Text → Regex
literal [] = empty_text
literal (c ∷ s) = seq (char c) (literal s)

abbrev pub nullable : Regex → Bool
nullable never = false
nullable empty_text = true
nullable (one_of p) = false
nullable (seq r q) = nullable r && nullable q
nullable (alt r q) = nullable r || nullable q
nullable (star r) = true

-- What is left to match behind the code point c.
unfoldable pub deriv : ℕ → Regex → Regex
deriv c never = never
deriv c empty_text = never
deriv c (one_of p) = if p c then empty_text else never
deriv c (seq r q) = if nullable r then alt (seq (deriv c r) q) (deriv c q) else seq (deriv c r) q
deriv c (alt r q) = alt (deriv c r) (deriv c q)
deriv c (star r) = seq (deriv c r) (star r)

unfoldable pub matches : Regex → Text → Bool
unfolding deriv
matches r [] = nullable r
matches r (c ∷ s) = matches (deriv c r) s

-- The language of an expression.
abbrev pub Matches : Regex → Text → Type 0
Matches never s = ⊥
Matches empty_text s = s ≡ []
Matches (one_of p) s = (c : ℕ) × (s ≡ c ∷ []) × (p c ≡ true)
Matches (seq r q) s = (a : Text) × (b : Text) × (s ≡ a ++ b) × Matches r a × Matches q b
Matches (alt r q) s = Matches r s ⊎ Matches q s
Matches (star r) s = (parts : List Text) × (s ≡ flatten parts) × All (Matches r) parts
