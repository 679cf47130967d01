-- ===== src/Runner/Output.antt =====
-- The output of a subprocess in _execute_command of api/gem_api/services/runner.py: the buffer
-- that is cut into lines, and what a line says of the progress.
pub mod Chunks
use gem_gdc_emulation_enviro.Prelude.{
  Text, codes, ℕ, zero, suc, ◌+◌, ◌*◌, List, [], ◌∷◌, ◌++◌, Option, none, some, Bool, ◌||◌, length,
  ltb, ◌==◌, if◌then◌else◌, or_else, is_empty,
}
use gem_gdc_emulation_enviro.Prelude.Strings.{contains, starts_with, strip, rstrip}
use gem_gdc_emulation_enviro.Exceptions.{◌&◌}
use gem_gdc_emulation_enviro.Runner.Decoding.{decode}

abbrev newline : ℕ
newline = 10

-- The loop `while b"\n" in buffer`: the complete lines, and what is left in the buffer.
abbrev cons_first : ℕ → List (List ℕ) × List ℕ → List (List ℕ) × List ℕ
cons_first b ([], rest) = ([], b ∷ rest)
cons_first b (line ∷ lines, rest) = ((b ∷ line) ∷ lines, rest)

abbrev cons_line : List (List ℕ) × List ℕ → List (List ℕ) × List ℕ
cons_line (lines, rest) = ([] ∷ lines, rest)

unfoldable pub cut_lines : List ℕ → List (List ℕ) × List ℕ
cut_lines [] = ([], [])
cut_lines (b ∷ buffer) =
    if b == newline then cons_line (cut_lines buffer) else cons_first b (cut_lines buffer)

abbrev pub buffer_limit : ℕ
buffer_limit = 1024 * 1024

-- `buffer.decode("utf-8", errors="replace").rstrip()`
unfoldable pub text_of_line : List ℕ → Text
unfolding decode
text_of_line raw = rstrip (decode raw)

skip : Text → Text → Text
skip [] s = s
skip (d ∷ p) [] = []
skip (d ∷ p) (c ∷ s) = skip p s

behind_first : Text → Text → Option Text
behind_first p [] = none
behind_first p (c ∷ s) =
    let later = behind_first p s in if starts_with (c ∷ s) p then some (skip p (c ∷ s)) else later

-- `s.split(p, 1)[-1]`
unfoldable pub after_first : Text → Text → Text
unfolding behind_first skip starts_with
after_first p s = or_else (behind_first p s) s

-- `s.rstrip("] *")`
abbrev is_mark : ℕ → Bool
is_mark c = c == b']' || (c == b' ' || c == b'*')

abbrev cons_unmarked : ℕ → Text → Text
cons_unmarked c [] = if is_mark c then [] else c ∷ []
cons_unmarked c (d ∷ s) = c ∷ d ∷ s

unfoldable pub rstrip_marks : Text → Text
rstrip_marks [] = []
rstrip_marks (c ∷ s) = cons_unmarked c (rstrip_marks s)

-- The message that a logged line gives the operation, if it is one of progress.
unfoldable pub progress_message : Text → Option Text
unfolding contains after_first rstrip_marks strip
progress_message line =
    if contains line (codes "TASK [")
    then some (codes "Ansible task: " & rstrip_marks (after_first (codes "TASK [") line))
    else if contains line (codes "Creating...")
        || (contains line (codes "Modifying...") || contains line (codes "Destroying..."))
    then some (codes "Terraform resource update: " & strip line)
    else none
