-- ===== src/Runner/Keeps/Commands.antt =====
-- The record of an operation under a command and a mock step of api/gem_api/services/runner.py.
use gem_gdc_emulation_enviro.Prelude.{Text, codes, ℕ, List, [], ◌∷◌, some}
use gem_gdc_emulation_enviro.Exceptions.{◌&◌}
use gem_gdc_emulation_enviro.Operations.Model.{running}
use gem_gdc_emulation_enviro.Operations.World.{Environment, get_record}
use gem_gdc_emulation_enviro.Operations.Manager.Views.{get_record-set_record_self}
use gem_gdc_emulation_enviro.Runner.Machine.{Command, Machine, pure, ◌>>◌, is_over}
use gem_gdc_emulation_enviro.Runner.Execute.{
  log, update, with_process, run_command, execute_command, sample_loop, mock_step, no_update, words,
}
use gem_gdc_emulation_enviro.Runner.Along.Commands.{
  IsKept, Along-choice, run_command-Along, sample_loop-Along,
}
use gem_gdc_emulation_enviro.Runner.Keeps.{
  Kept, Kept-IsPreorder, IsHeld, Keeps, Keeps-then, Keeps-pure, log-Keeps, update-Keeps,
  cancelled_meanwhile-Keeps,
}
use gem_gdc_emulation_enviro.Runner.Pipelines.Common.{Step, MockStep, run_steps, run_mock_steps}

module _ (env : Environment) (k : Text) where
  with_process-IsHeld :
      (pid : ℕ) (m : Machine) → IsHeld k m.world → IsHeld k (with_process env k pid m.world)
  with_process-IsHeld pid m (r, held) =
      rw (held, with_process) (_, get_record-set_record_self m.world k _)

  Kept-IsKept : IsKept env k (Kept k)
  Kept-IsKept = record {
    preorder = Kept-IsPreorder k;
    log_line = log-Keeps env k;
    report = λ message. update-Keeps env k _;
    cancellation = cancelled_meanwhile-Keeps env k;
    inputs = λ m runs naps executed h. h;
    process = λ pid m h. with_process-IsHeld pid m h;
  }

  execute_command-Keeps :
      (c : Command) (name message : Text) → Keeps k (execute_command env k c name message)
  unfolding execute_command
  execute_command-Keeps c name message =
      let told = update env k (record no_update {
        status = some running;
        current_step = some name;
        message = some message;
      }) in
      let line =
        log env k (codes "> Running: " & words c.cmd & codes " (cwd: " & c.cwd & codes ")") in
      Along-choice (Kept k) (λ m. is_over (get_record m.world k)) (pure tt)
        (told >> line >> run_command env k c) (Keeps-pure k tt)
        (Keeps-then k (told >> line) (run_command env k c)
          (Keeps-then k told line (update-Keeps env k _) (log-Keeps env k _))
          (run_command-Along env k (Kept k) Kept-IsKept c))

  mock_step-Keeps :
      (name message : Text) (lines : List Text) → Keeps k (mock_step env k name message lines)
  unfolding mock_step
  mock_step-Keeps name message lines =
      let told = update env k (record no_update {
        status = some running;
        current_step = some name;
        message = some message;
      }) in
      Along-choice (Kept k) (λ m. is_over (get_record m.world k)) (pure tt)
        (told >> sample_loop env k lines) (Keeps-pure k tt)
        (Keeps-then k told (sample_loop env k lines) (update-Keeps env k _)
          (sample_loop-Along env k (Kept k) Kept-IsKept lines))

  pub run_steps-Keeps : (steps : List Step) → Keeps k (run_steps env k steps)
  unfolding run_steps
  run_steps-Keeps [] = Keeps-pure k tt
  run_steps-Keeps (s ∷ steps) =
      Keeps-then k (execute_command env k s.command s.step_name s.step_message)
        (run_steps env k steps) (execute_command-Keeps s.command s.step_name s.step_message)
        (run_steps-Keeps steps)

  pub run_mock_steps-Keeps : (steps : List MockStep) → Keeps k (run_mock_steps env k steps)
  unfolding run_mock_steps
  run_mock_steps-Keeps [] = Keeps-pure k tt
  run_mock_steps-Keeps (s ∷ steps) =
      Keeps-then k (mock_step env k s.step_name s.step_message s.sample_logs)
        (run_mock_steps env k steps) (mock_step-Keeps s.step_name s.step_message s.sample_logs)
        (run_mock_steps-Keeps steps)
