-- ===== src/Runner/Along/Commands.antt =====
-- A command and the sample lines of a mock step of api/gem_api/services/runner.py, for a relation that
-- their parts keep.
use gem_gdc_emulation_enviro.Prelude.{
  Text, codes, ℕ, List, [], ◌∷◌, ◌++◌, Bool, true, false, Bool-cases, some, inl, inr, if◌then◌else◌,
}
use gem_gdc_emulation_enviro.Exceptions.{
  Exception, http, attribute_error, cancelled_error, other_error, Outcome, returned, raised, ◌&◌,
  quoted,
}
use gem_gdc_emulation_enviro.Operations.World.{Environment, World, get_record}
use gem_gdc_emulation_enviro.Runner.Machine.{
  Run, no_start, run, Command, ReturnCode, Machine, Action, pure, raise, ◌>>=◌, ◌>>◌,
  status_is_cancelled, is_failure, return_code_text,
}
use gem_gdc_emulation_enviro.Runner.Execute.{
  no_update, log, update, start_process, with_process, check_exit, watch, log_exception,
  run_command, nap, sample_loop, read_output, exception_text, head_of, cancelled_meanwhile,
}
use gem_gdc_emulation_enviro.Runner.Along.{
  IsPreorder, Along, Along-bind, Along-then, Along-pure, Along-raise, read_output-Along,
}

-- An action that reads the machine before it chooses.
pub Along-choice {ℓ} :
    {A : Type ℓ} (R : Machine → Machine → Type 0) (b : Machine → Bool) (a c : Action A)
    → Along R a
    → Along R c
    → Along R (λ m. if b m then a m else c m)
Along-choice R b a c ka kc = record {
  at = λ m. elim (Bool-cases (b m)) [ inl e ↦ rw e (ka.at m) | inr e ↦ rw e (kc.at m) ];
}

-- What a relation needs: that the parts of a command keep it.
pub record IsKept (env : Environment) (k : Text) (R : Machine → Machine → Type 0) : Type 0 where
  pub preorder : IsPreorder R
  pub log_line : (line : Text) → Along R (log env k line)
  pub report :
      (message : Text) → Along R (update env k (record no_update { message = some message }))
  pub cancellation : Along R (cancelled_meanwhile env k)
  pub inputs :
      (m : Machine) (runs : List Run) (naps : List Bool) (executed : List Command)
      → R m (record m { runs = runs; naps = naps; executed = executed })
  pub process : (pid : ℕ) (m : Machine) → R m (record m { world = with_process env k pid m.world })

module _ (env : Environment) (k : Text) (R : Machine → Machine → Type 0) (h : IsKept env k R) where
  start_process-of :
      (c : Command) (w : World) (runs : List Run) (naps : List Bool) (executed : List Command)
      → (let m : Machine = record { world = w; runs = runs; naps = naps; executed = executed } in
          R m (start_process env k c m).1)
  unfolding start_process
  start_process-of c w [] naps executed = h.preorder.same _
  start_process-of c w (no_start x ∷ rest) naps executed = h.inputs _ rest naps executed
  start_process-of c w (run pid events code ∷ rest) naps executed =
      let runs = run pid events code ∷ rest in
      let m : Machine = record { world = w; runs = runs; naps = naps; executed = executed } in
      let m' = record m { world = with_process env k pid w } in
      h.preorder.composed m m' _ (h.process pid m) (h.inputs m' rest naps (executed ++ c ∷ []))

  start_process-Along : (c : Command) → Along R (start_process env k c)
  start_process-Along c = record { at = λ m. start_process-of c m.world m.runs m.naps m.executed }

  log-raise-Along :
      (line : Text) (e : Exception) → Along R (log env k line >> raise {A = Unit {0}} e)
  log-raise-Along line e =
      Along-then R h.preorder (log env k line) (raise e) (h.log_line line)
        (Along-raise R h.preorder e)

  check_exit-Along : (name : Text) (code : ReturnCode) → Along R (check_exit env k name code)
  unfolding check_exit
  check_exit-Along name code =
      let message =
        codes "Command "
        & quoted name
        & codes " failed with return code "
        & return_code_text code in
      let failing =
        log env k (codes "ERROR: " & message)
        >> raise (other_error (codes "RuntimeError") message) in
      Along-choice R (λ m. status_is_cancelled (get_record m.world k)) (pure tt)
        (λ m. if is_failure code then failing m else pure tt m) (Along-pure R h.preorder tt)
        (Along-choice R (λ _. is_failure code) failing (pure tt) (log-raise-Along _ _)
          (Along-pure R h.preorder tt))

  watch-Along : (name : Text) (r : Run) → Along R (watch env k name r)
  unfolding watch
  watch-Along name (no_start e) = Along-raise R h.preorder e
  watch-Along name (run pid events code) =
      Along-then R h.preorder (read_output env k events []) (check_exit env k name code)
        (read_output-Along env k R h.preorder h.log_line h.report h.cancellation events [])
        (check_exit-Along name code)

  logged :
      (e : Exception) (n m : Machine)
      → R n m
      → R n
          (if status_is_cancelled (get_record m.world k)
            then (raised e, m)
            else (log env k (codes "Execution exception: " & exception_text e)
                  >> raise {A = Unit {0}} e)
                m).1
  logged e n m before = h.preorder.composed n m _ before (
      (Along-choice R (λ m. status_is_cancelled (get_record m.world k)) (raise e)
          (log env k (codes "Execution exception: " & exception_text e) >> raise e)
          (Along-raise R h.preorder e) (log-raise-Along _ e)).at
        m)

  log_exception-of :
      (n : Machine) (o : Outcome (Unit {0}) × Machine) → R n o.1 → R n (log_exception env k o).1
  unfolding log_exception
  log_exception-of n (returned x, m) before = before
  log_exception-of n (raised cancelled_error, m) before = before
  log_exception-of n (raised (http code detail), m) before = logged (http code detail) n m before
  log_exception-of n (raised attribute_error, m) before = logged attribute_error n m before
  log_exception-of n (raised (other_error name shown), m) before =
      logged (other_error name shown) n m before

  pub run_command-Along : (c : Command) → Along R (run_command env k c)
  unfolding run_command
  run_command-Along c = record {
    at = λ m. log_exception-of m ((start_process env k c >>= watch env k (head_of c.cmd)) m) (
        (Along-bind R h.preorder (start_process env k c) (watch env k (head_of c.cmd))
            (start_process-Along c) (watch-Along (head_of c.cmd))).at
          m);
  }

  nap-of :
      (w : World) (runs : List Run) (naps : List Bool) (executed : List Command)
      → (let m : Machine = record { world = w; runs = runs; naps = naps; executed = executed } in
          R m (nap env k m).1)
  unfolding nap
  nap-of w runs [] executed = h.preorder.same _
  nap-of w runs (false ∷ rest) executed = h.inputs _ runs rest executed
  nap-of w runs (true ∷ rest) executed =
      let m : Machine = record {
        world = w;
        runs = runs;
        naps = true ∷ rest;
        executed = executed;
      } in
      h.preorder.composed m (record m { naps = rest }) _ (h.inputs m runs rest executed)
        (h.cancellation.at (record m { naps = rest }))

  nap-Along : Along R (nap env k)
  nap-Along = record { at = λ m. nap-of m.world m.runs m.naps m.executed }

  pub sample_loop-Along : (lines : List Text) → Along R (sample_loop env k lines)
  unfolding sample_loop
  sample_loop-Along [] = Along-pure R h.preorder tt
  sample_loop-Along (line ∷ lines) =
      Along-choice R (λ m. status_is_cancelled (get_record m.world k)) (pure tt)
        (log env k line >> nap env k >> sample_loop env k lines) (Along-pure R h.preorder tt)
        (Along-then R h.preorder (log env k line >> nap env k) (sample_loop env k lines)
          (Along-then R h.preorder (log env k line) (nap env k) (h.log_line line) nap-Along)
          (sample_loop-Along lines))
