-- ===== src/Runner/Execute/Chunking.antt =====
-- The loop of _execute_command in api/gem_api/services/runner.py, for output that is split into reads
-- in different places.
use gem_gdc_emulation_enviro.Prelude.{
  Text, ℕ, ◌≡◌, refl, ap, sym, ◌∙◌, List, [], ◌∷◌, ◌++◌, append_assoc, false, ltb, length,
}
use gem_gdc_emulation_enviro.Exceptions.{Outcome, returned, raised}
use gem_gdc_emulation_enviro.Operations.World.{Environment}
use gem_gdc_emulation_enviro.Runner.Output.{cut_lines, buffer_limit}
use gem_gdc_emulation_enviro.Runner.Output.Chunks.{cut_lines-++}
use gem_gdc_emulation_enviro.Runner.Machine.{
  ProcessEvent, chunk, Machine, Action, pure, continue, ◌>>=◌, ◌>>◌,
}
use gem_gdc_emulation_enviro.Runner.Execute.{flush, handle_line, handle_lines, read_output}

module _ {ℓ κ μ} {A : Type ℓ} {B : Type κ} {C : Type μ} where
  continue-continue :
      (o : Outcome A × Machine) (f : A → Action B) (g : B → Action C)
      → continue (continue o f) g ≡ continue o λ x. f x >>= g
  unfolding ◌>>=◌
  continue-continue (returned x, m) f g = refl
  continue-continue (raised e, m) f g = refl

then_assoc : (a b c : Action (Unit {0})) → (a >> b) >> c ≡ a >> (b >> c)
unfolding ◌>>◌ ◌>>=◌
then_assoc a b c i m = continue-continue (a m) (λ _. b) (λ _. c) i

module _ (env : Environment) (k : Text) where
  handle_lines-++ :
      (xs ys : List (List ℕ)) (a : Action (Unit {0}))
      → handle_lines env k (xs ++ ys) >> a ≡ handle_lines env k xs >> (handle_lines env k ys >> a)
  unfolding handle_lines ◌>>◌ ◌>>=◌
  handle_lines-++ [] ys a = refl
  handle_lines-++ (x ∷ xs) ys a =
      then_assoc (handle_line env k x) (handle_lines env k (xs ++ ys)) a
      ∙ ap (λ c. handle_line env k x >> c) (handle_lines-++ xs ys a)
      ∙ sym (then_assoc (handle_line env k x) (handle_lines env k xs) (handle_lines env k ys >> a))

  -- The reads behind a cut.
  abbrev behind : List ProcessEvent → List (List ℕ) × List ℕ → Action (Unit {0})
  behind events cut =
      handle_lines env k cut.0 >> (flush env k cut.1 >>= λ rest. read_output env k events rest)

  flush_small :
      (rest : List ℕ) → ltb buffer_limit (length rest) ≡ false → flush env k rest ≡ pure rest
  unfolding flush
  flush_small rest small = rw small refl

  pure_bind : {A : Type 0} (rest : List ℕ) (f : List ℕ → Action A) → pure rest >>= f ≡ f rest
  unfolding ◌>>=◌
  pure_bind rest f = refl

  -- Two reads of output, neither empty, log the same lines and give the operation the same messages as
  -- one read of both, with the same buffer and the same output to come. The condition is that what the
  -- first read leaves in the buffer stays within the mebibyte that is kept of an unfinished line.
  pub read_output_joined :
      (b : ℕ) (x : List ℕ) (c : ℕ) (y : List ℕ) (events : List ProcessEvent) (buffer : List ℕ)
      → ltb buffer_limit (length (cut_lines (buffer ++ b ∷ x)).1) ≡ false
      → read_output env k (chunk (b ∷ x) ∷ chunk (c ∷ y) ∷ events) buffer
        ≡ read_output env k (chunk ((b ∷ x) ++ c ∷ y) ∷ events) buffer
  unfolding read_output
  read_output_joined b x c y events buffer small =
      let first = cut_lines (buffer ++ b ∷ x) in
      let second = cut_lines (first.1 ++ c ∷ y) in
      let joined : cut_lines (buffer ++ ((b ∷ x) ++ c ∷ y)) ≡ (first.0 ++ second.0, second.1) =
        ap cut_lines (sym (append_assoc buffer (b ∷ x) (c ∷ y)))
        ∙ cut_lines-++ (buffer ++ b ∷ x) (c ∷ y) in
      let reads : List ℕ → Action (Unit {0}) = λ rest. behind events (cut_lines (rest ++ c ∷ y)) in
      ap (λ a. handle_lines env k first.0 >> a)
        (ap (λ a. a >>= reads) (flush_small first.1 small) ∙ pure_bind first.1 reads)
      ∙ sym (
          handle_lines-++ first.0 second.0
            (flush env k second.1 >>= λ rest. read_output env k events rest))
      ∙ sym (ap (behind events) joined)
