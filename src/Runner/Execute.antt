-- ===== src/Runner/Execute.antt =====
-- _execute_command, _mock_step, _finalize_pipeline and _fail_pipeline of
-- api/gem_api/services/runner.py.
pub mod Chunking
use gem_gdc_emulation_enviro.Prelude.{
  Text, codes, ℕ, ◌+◌, List, [], ◌∷◌, ◌++◌, Option, none, some, Bool, true, false, is_empty,
  if◌then◌else◌, length, ltb,
}
use gem_gdc_emulation_enviro.Prelude.Strings.{decimal}
use gem_gdc_emulation_enviro.Exceptions.{
  Exception, http, attribute_error, cancelled_error, other_error, Outcome, returned, raised, ◌&◌,
  quoted,
}
use gem_gdc_emulation_enviro.Operations.Model.{running, succeeded, failed, stamp}
use gem_gdc_emulation_enviro.Operations.World.{Environment, World, get_record, set_record}
use gem_gdc_emulation_enviro.Operations.Manager.{
  Update, update_operation, append_log, cancel_operation,
}
use gem_gdc_emulation_enviro.Runner.Output.{cut_lines, buffer_limit, text_of_line, progress_message}
use gem_gdc_emulation_enviro.Runner.Machine.{
  ProcessEvent, chunk, cancel, ReturnCode, is_failure, return_code_text, Run, no_start, run,
  Command, Machine, Action, pure, raise, ◌>>=◌, ◌>>◌, call, status_is_cancelled, is_over,
  interrupts,
}

-- `' '.join(cmd)`
unfoldable pub words : List Text → Text
words [] = []
words (w ∷ []) = w
words (w ∷ v ∷ ws) = w & codes " " & words (v ∷ ws)

-- str(e)
unfoldable pub exception_text : Exception → Text
exception_text (http code detail) = decimal code & codes ": " & detail
exception_text attribute_error = codes "object has no attribute 'HTTP_404_NOT_FOUND'"
exception_text cancelled_error = []
exception_text (other_error name shown) = shown

abbrev pub head_of : List Text → Text
head_of [] = []
head_of (w ∷ ws) = w

abbrev pub no_update : Update
no_update = record {
  status = none;
  current_step = none;
  message = none;
  error = none;
  completed = false;
}

module _ (env : Environment) (operation_id : Text) where
  unfoldable pub log : Text → Action (Unit {0})
  log line = call (append_log env operation_id line)

  unfoldable pub update : Update → Action (Unit {0})
  update u = call (update_operation env operation_id u) >> pure tt

  -- A user cancels while the pipeline waits.
  unfoldable pub cancelled_meanwhile : Action (Unit {0})
  cancelled_meanwhile m =
      let before = get_record m.world operation_id in
      let m' = record m { world = (cancel_operation env operation_id m.world).1 } in
      if interrupts env before then (raised cancelled_error, m') else (returned tt, m')

  -- A line that is logged and nothing more, unless it is empty.
  unfoldable pub log_raw : List ℕ → Action (Unit {0})
  unfolding text_of_line
  log_raw raw = let line = text_of_line raw in if is_empty line then pure tt else log line

  unfoldable pub report_progress : Option Text → Action (Unit {0})
  report_progress none = pure tt
  report_progress (some message) = update (record no_update { message = some message })

  -- A complete line, which may also say how far the command is.
  unfoldable pub handle_line : List ℕ → Action (Unit {0})
  unfolding text_of_line report_progress
  handle_line raw =
      let line = text_of_line raw in
      if is_empty line then pure tt else log line >> report_progress (progress_message line)

  unfoldable pub handle_lines : List (List ℕ) → Action (Unit {0})
  handle_lines [] = pure tt
  handle_lines (raw ∷ raws) = handle_line raw >> handle_lines raws

  -- A rest of more than a mebibyte without a newline is logged as it is.
  unfoldable pub flush : List ℕ → Action (List ℕ)
  flush rest = if ltb buffer_limit (length rest) then log_raw rest >> pure [] else pure rest

  -- The loop `while True` over process.stdout.read(): it ends with the output, or at an empty chunk.
  unfoldable pub read_output : List ProcessEvent → List ℕ → Action (Unit {0})
  unfolding flush handle_lines
  read_output [] buffer = if is_empty buffer then pure tt else log_raw buffer
  read_output (cancel ∷ events) buffer = cancelled_meanwhile >> read_output events buffer
  read_output (chunk [] ∷ events) buffer = if is_empty buffer then pure tt else log_raw buffer
  read_output (chunk (b ∷ bytes) ∷ events) buffer = do
    let cut = cut_lines (buffer ++ b ∷ bytes)
    handle_lines cut.0
    rest ← flush cut.1
    read_output events rest

  -- `record.process = process`
  abbrev pub with_process : ℕ → World → World
  with_process pid w = elim (get_record w operation_id) [
    | none ↦ w
    | some r ↦ set_record w operation_id (record r { process = some pid })
  ]

  unfoldable pub start_process : Command → Machine → Outcome Run × Machine
  start_process c m = elim m.runs [
    | [] ↦ (raised (other_error (codes "FileNotFoundError") []), m)
    | no_start e ∷ rest ↦ (raised e, record m { runs = rest })
    | run pid events code ∷ rest ↦ (
      returned (run pid events code),
      record m { world = with_process pid m.world; runs = rest; executed = m.executed ++ c ∷ [] },
    )
  ]

  -- Behind process.wait().
  unfoldable pub check_exit : Text → ReturnCode → Action (Unit {0})
  check_exit name code m =
      let message =
        codes "Command "
        & quoted name
        & codes " failed with return code "
        & return_code_text code in
      if status_is_cancelled (get_record m.world operation_id)
      then (returned tt, m)
      else if is_failure code
      then (log (codes "ERROR: " & message) >> raise (other_error (codes "RuntimeError") message)) m
      else (returned tt, m)

  unfoldable pub watch : Text → Run → Action (Unit {0})
  unfolding check_exit
  watch name (no_start e) = raise e
  watch name (run pid events code) = read_output events [] >> check_exit name code

  -- `except Exception`: the exception goes on behind a line in the log.
  unfoldable pub log_exception : Outcome (Unit {0}) × Machine → Outcome (Unit {0}) × Machine
  log_exception (returned x, m) = (returned x, m)
  log_exception (raised cancelled_error, m) = (raised cancelled_error, m)
  log_exception (raised e, m) =
      if status_is_cancelled (get_record m.world operation_id)
      then (raised e, m)
      else (log (codes "Execution exception: " & exception_text e) >> raise e) m

  unfoldable pub run_command : Command → Action (Unit {0})
  unfolding start_process watch log_exception
  run_command c m = log_exception ((start_process c >>= watch (head_of c.cmd)) m)

  unfoldable pub execute_command : Command → Text → Text → Action (Unit {0})
  unfolding run_command words
  execute_command c step_name step_message m =
      if is_over (get_record m.world operation_id)
      then (returned tt, m)
      else (update (record no_update {
        status = some running;
        current_step = some step_name;
        message = some step_message;
      })
            >> log (codes "> Running: " & words c.cmd & codes " (cwd: " & c.cwd & codes ")")
            >> run_command c)
          m

  -- `await asyncio.sleep(delay)` of a mock step.
  unfoldable pub nap : Action (Unit {0})
  nap m = elim m.naps [
    | [] ↦ (returned tt, m)
    | false ∷ rest ↦ (returned tt, record m { naps = rest })
    | true ∷ rest ↦ cancelled_meanwhile (record m { naps = rest })
  ]

  unfoldable pub sample_loop : List Text → Action (Unit {0})
  unfolding nap
  sample_loop [] m = (returned tt, m)
  sample_loop (line ∷ lines) m =
      if status_is_cancelled (get_record m.world operation_id)
      then (returned tt, m)
      else (log line >> nap >> sample_loop lines) m

  unfoldable pub mock_step : Text → Text → List Text → Action (Unit {0})
  unfolding sample_loop
  mock_step step_name step_message sample_logs m =
      if is_over (get_record m.world operation_id)
      then (returned tt, m)
      else (update (record no_update {
        status = some running;
        current_step = some step_name;
        message = some step_message;
      })
            >> sample_loop sample_logs)
          m

  -- `datetime.now(UTC)`, read for the line behind a cluster build.
  unfoldable pub log_completion_line : Action (Unit {0})
  log_completion_line m =
      log
        (codes "["
          & stamp (env.now m.world.clock)
          & codes "] Cluster build completed successfully.")
        (record m { world = record m.world { clock = m.world.clock + 1 } })

  unfoldable pub finalize_pipeline : Text → Bool → Action (Unit {0})
  unfolding log_completion_line
  finalize_pipeline success_message log_completion m =
      if is_over (get_record m.world operation_id)
      then (returned tt, m)
      else (update (record {
        status = some succeeded;
        current_step = some (codes "Completed");
        message = some success_message;
        error = none;
        completed = true;
      })
            >> (if log_completion then log_completion_line else pure tt))
          m

  unfoldable pub fail_pipeline : Text → Exception → Action (Unit {0})
  unfolding exception_text
  fail_pipeline error_label e m =
      if is_over (get_record m.world operation_id)
      then (returned tt, m)
      else update
          (record {
            status = some failed;
            current_step = some (codes "Failed");
            message = some (error_label & codes ": " & exception_text e);
            error = some (exception_text e);
            completed = true;
          })
          m

  unfoldable pub recover : Text → Outcome (Unit {0}) × Machine → Outcome (Unit {0}) × Machine
  unfolding fail_pipeline
  recover error_label (returned x, m) = (returned x, m)
  recover error_label (raised cancelled_error, m) = (raised cancelled_error, m)
  recover error_label (raised e, m) = fail_pipeline error_label e m

  -- `except Exception as e` of a pipeline. CancelledError is no Exception, and goes on.
  unfoldable pub guarded : Text → Action (Unit {0}) → Action (Unit {0})
  unfolding recover
  guarded error_label body m = recover error_label (body m)
