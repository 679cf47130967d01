-- ===== src/Prelude/Strings/Sorting.antt =====
-- sorted() on a list of texts, by their code points.
use mathlib.Core.Bool.{Bool, true, false}
use mathlib.Core.List.{List, [], ◌∷◌}
use gem_gdc_emulation_enviro.Prelude.Tests.{ltb, ◌==◌, if◌then◌else◌}
use gem_gdc_emulation_enviro.Prelude.Strings.{Text}

-- s <= t
unfoldable pub text_le : Text → Text → Bool
text_le [] t = true
text_le (c ∷ s) [] = false
text_le (c ∷ s) (d ∷ t) = let later = text_le s t in if c == d then later else ltb c d

unfoldable pub insert : Text → List Text → List Text
unfolding text_le
insert s [] = s ∷ []
insert s (t ∷ ts) = let later = insert s ts in if text_le s t then s ∷ t ∷ ts else t ∷ later

-- A stable sort.
unfoldable pub sorted : List Text → List Text
unfolding insert
sorted [] = []
sorted (t ∷ ts) = insert t (sorted ts)
