-- ===== src/Runner/Output/Chunks.antt =====
-- Where the output of a subprocess of api/gem_api/services/runner.py is cut into chunks.
use gem_gdc_emulation_enviro.Prelude.{
  ℕ, ◌≡◌, refl, List, [], ◌∷◌, ◌++◌, false, Bool-cases, inl, inr, ◌==◌,
}
use gem_gdc_emulation_enviro.Runner.Output.{cut_lines, newline, cons_line, cons_first}

-- Cut the rest again, with more output behind it.
abbrev resume : List (List ℕ) × List ℕ → List ℕ → List (List ℕ) × List ℕ
resume (lines, rest) more = let cut = cut_lines (rest ++ more) in (lines ++ cut.0, cut.1)

cons_line-resume :
    (cut : List (List ℕ) × List ℕ) (y : List ℕ)
    → cons_line (resume cut y) ≡ resume (cons_line cut) y
cons_line-resume (lines, rest) y = refl

cons_first-resume :
    (b : ℕ) (cut : List (List ℕ) × List ℕ) (y : List ℕ)
    → (b == newline) ≡ false
    → cons_first b (resume cut y) ≡ resume (cons_first b cut) y
unfolding cut_lines
cons_first-resume b ([], rest) y e = rw e refl
cons_first-resume b (line ∷ lines, rest) y e = refl

pub cut_lines-++ : (x y : List ℕ) → cut_lines (x ++ y) ≡ resume (cut_lines x) y
unfolding cut_lines
cut_lines-++ [] y = refl
cut_lines-++ (b ∷ x) y = elim (Bool-cases (b == newline)) [
  | inl e ↦ rw (e, cut_lines-++ x y) (cons_line-resume (cut_lines x) y)
  | inr e ↦ rw (e, cut_lines-++ x y) (cons_first-resume b (cut_lines x) y e)
]
