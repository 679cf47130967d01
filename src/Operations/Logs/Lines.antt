-- ===== src/Operations/Logs/Lines.antt =====
-- Lines that are written to a log file of api/gem_api/services/operations.py, and read back.
use gem_gdc_emulation_enviro.Prelude.{
  Text, ℕ, ◌≡◌, refl, ap, ◌∙◌, List, [], ◌∷◌, ◌++◌, append_assoc, map, Bool, true, false, not, ◌||◌,
  ◌==◌, all, All, arith,
}
use mathlib.Core.Path.{ap₂}
use gem_gdc_emulation_enviro.Prelude.Strings.{rstrip}
use gem_gdc_emulation_enviro.Operations.Logs.{universal_newlines, lines_of, read_lines}

abbrev pub is_line_code : ℕ → Bool
is_line_code c = not (c == 10 || c == 13)

-- A line as the manager keeps it: without a line break, and with no white space at its end.
pub record IsLogLine (l : Text) : Type 0 where
  pub one_line : all is_line_code l ≡ true
  pub stripped : rstrip l ≡ l

-- What the file holds behind these lines.
abbrev pub file_text : List Text → Text
file_text [] = []
file_text (l ∷ ls) = l ++ 10 ∷ file_text ls

pub file_text-append :
    (ls : List Text) (l : Text) → file_text ls ++ (l ++ 10 ∷ []) ≡ file_text (ls ++ l ∷ [])
file_text-append [] l = refl
file_text-append (x ∷ ls) l =
    append_assoc x (10 ∷ file_text ls) (l ++ 10 ∷ [])
    ∙ ap (λ t. x ++ 10 ∷ t) (file_text-append ls l)

universal_newlines-line :
    (l rest : Text)
    → all is_line_code l ≡ true
    → universal_newlines false (l ++ 10 ∷ rest) ≡ l ++ 10 ∷ universal_newlines false rest
unfolding universal_newlines
universal_newlines-line [] rest h = refl
universal_newlines-line (c ∷ l) rest h = ground (arith, universal_newlines-line l rest)

lines_of-line :
    (l rest : Text) → all is_line_code l ≡ true → lines_of (l ++ 10 ∷ rest) ≡ l ∷ lines_of rest
unfolding lines_of
lines_of-line [] rest h = refl
lines_of-line (c ∷ l) rest h = ground (arith, lines_of-line l rest)

pub read_lines-file_text : (ls : List Text) → All IsLogLine ls → read_lines (file_text ls) ≡ ls
unfolding read_lines
read_lines-file_text [] h = refl
read_lines-file_text (l ∷ ls) (h, hs) =
    ap (λ t. map rstrip (lines_of t)) (universal_newlines-line l (file_text ls) h.one_line)
    ∙ ap (map rstrip) (lines_of-line l (universal_newlines false (file_text ls)) h.one_line)
    ∙ ap₂ (λ (x : Text) (xs : List Text). x ∷ xs) h.stripped (read_lines-file_text ls hs)
