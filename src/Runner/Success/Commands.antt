-- ===== src/Runner/Success/Commands.antt =====
-- What it takes for a pipeline of api/gem_api/services/runner.py to go on behind a command.
use gem_gdc_emulation_enviro.Prelude.{
  Text, codes, ℕ, ◌≡◌, refl, sym, ap, subst, ◌∙◌, List, some, [], ◌∷◌, ◌++◌, append_assoc,
  append-nil, map, length, suc, false, Bool-cases, inl, inr, if◌then◌else◌,
}
use gem_gdc_emulation_enviro.Exceptions.{
  Exception, http, attribute_error, cancelled_error, other_error, Outcome, returned, raised, ◌&◌,
}
use gem_gdc_emulation_enviro.Operations.Model.{running}
use gem_gdc_emulation_enviro.Operations.World.{Environment, get_record}
use gem_gdc_emulation_enviro.Runner.Along.{Along-then}
use gem_gdc_emulation_enviro.Runner.Machine.{
  ProcessEvent, exited, Run, no_start, run, Command, Machine, raise, ◌>>=◌, ◌>>◌, is_over,
  status_is_cancelled,
}
use gem_gdc_emulation_enviro.Runner.Execute.{
  log, update, read_output, start_process, check_exit, watch, log_exception, run_command,
  execute_command, exception_text, no_update, words, head_of,
}
use gem_gdc_emulation_enviro.Runner.Ends.{run_steps_idle}
use gem_gdc_emulation_enviro.Runner.Pipelines.Common.{Step, run_steps}
use gem_gdc_emulation_enviro.Runner.Success.{
  Quiet, Quiet-IsPreorder, log-Quiet, update-Quiet, read_output-Quiet, After, After-map, After-then,
  After-Quiet, After-raise, CleanRun, Cleanly, check_exit-After,
}

CleanRun-Quiet : {c : Command} {m n o : Machine} → Quiet m n → CleanRun c n o → CleanRun c m o
CleanRun-Quiet {c} (p, q) clean = record {
  pid = clean.pid;
  events = clean.events;
  ran = sym p ∙ clean.ran;
  started = clean.started ∙ ap (λ l. l ++ c ∷ []) q;
}

module _ (env : Environment) (k : Text) where
  log_exception-After :
      (o : Outcome (Unit {0}) × Machine) (q : Machine → Type 0)
      → After o q
      → After (log_exception env k o) q
  unfolding log_exception
  log_exception-After (returned x, m) q h = h
  log_exception-After (raised e, m) q h = failing e
    where
      logged :
          (e : Exception)
          → After
              (if status_is_cancelled (get_record m.world k)
                then (raised e, m)
                else (log env k (codes "Execution exception: " & exception_text e) >> raise e) m)
              q
      logged e = elim (Bool-cases (status_is_cancelled (get_record m.world k))) [
        | inl c ↦ rw c tt
        | inr c ↦ rw c (After-raise m (log env k _) e q)
      ]

      failing : (e : Exception) → After (log_exception env k (raised e, m)) q
      failing cancelled_error = tt
      failing (http code detail) = logged (http code detail)
      failing attribute_error = logged attribute_error
      failing (other_error name shown) = logged (other_error name shown)

  start_process-After :
      (c : Command) (name : Text) (m : Machine) (runs : List Run)
      → m.runs ≡ runs
      → After ((start_process env k c >>= watch env k name) m) (Cleanly env k c m)
  unfolding start_process watch ◌>>=◌
  start_process-After c name m [] e = rw e tt
  start_process-After c name m (no_start x ∷ rest) e = rw e tt
  start_process-After c name m (run pid events code ∷ rest) e = rw e (
      After-Quiet _ (read_output env k events []) (check_exit env k name code) _
        (read_output-Quiet env k events [])
        λ n (quiet, kept).
          After-map (check_exit env k name code n) _ _ (check_exit-After env k name code n)
            λ o exit live.
              let (same, zero_exit) = exit live in
              record {
                pid = pid;
                events = events;
                ran =
                    ap (λ x. run pid events x ∷ rest) zero_exit
                    ∙ ap (λ r. run pid events (exited 0) ∷ r)
                        (sym quiet ∙ sym (ap (λ (v : Machine). v.runs) same));
                started = ap (λ (v : Machine). v.executed) same ∙ kept;
              })

  run_command-After :
      (c : Command) (m : Machine) → After (run_command env k c m) (Cleanly env k c m)
  unfolding run_command
  run_command-After c m =
      log_exception-After ((start_process env k c >>= watch env k (head_of c.cmd)) m)
        (Cleanly env k c m) (start_process-After c (head_of c.cmd) m m.runs refl)

  execute_command-After :
      (c : Command) (name message : Text) (m : Machine)
      → After (execute_command env k c name message m) (Cleanly env k c m)
  unfolding execute_command
  execute_command-After c name message m =
      let told = update env k (record no_update {
        status = some running;
        current_step = some name;
        message = some message;
      }) in
      let line =
        log env k (codes "> Running: " & words c.cmd & codes " (cwd: " & c.cwd & codes ")") in
      elim (Bool-cases (is_over (get_record m.world k))) [
        | inl over ↦ rw over (λ live. absurd (cc (over, live)))
        | inr going ↦ rw going (
            After-Quiet m (told >> line) (run_command env k c) (Cleanly env k c m)
              (Along-then Quiet Quiet-IsPreorder told line (update-Quiet env k _)
                (log-Quiet env k _))
              λ n quiet.
                After-map (run_command env k c n) (Cleanly env k c n) (Cleanly env k c m)
                  (run_command-After c n) λ o clean live. CleanRun-Quiet quiet (clean live))
      ]

-- What a subprocess that exits with 0 is: its pid and its output.
abbrev pub exits_with_zero : ℕ × List ProcessEvent → Run
exits_with_zero (pid, events) = run pid events (exited 0)

-- The commands of the steps were started, in this order and each once, and every one of them exited
-- with 0.
pub record AllClean (steps : List Step) (m n : Machine) : Type 0 where
  pub outputs : List (ℕ × List ProcessEvent)
  pub one_each : length outputs ≡ length steps
  pub ran : m.runs ≡ map exits_with_zero outputs ++ n.runs
  pub started : n.executed ≡ m.executed ++ map (λ (s : Step). s.command) steps

AllClean-cons :
    (s : Step) (steps : List Step) (m o n : Machine)
    → CleanRun s.command m o
    → AllClean steps o n
    → AllClean (s ∷ steps) m n
AllClean-cons s steps m o n clean rest = record {
  outputs = (clean.pid, clean.events) ∷ rest.outputs;
  one_each = ap suc rest.one_each;
  ran = clean.ran ∙ ap (λ r. run clean.pid clean.events (exited 0) ∷ r) rest.ran;
  started =
      rest.started
      ∙ ap (λ l. l ++ map (λ (s : Step). s.command) steps) clean.started
      ∙ append_assoc m.executed (s.command ∷ []) (map (λ (s : Step). s.command) steps);
}

module _ (env : Environment) (k : Text) where
  run_steps-After :
      (steps : List Step) (m : Machine)
      → After
          (run_steps env k steps m)
          λ n. is_over (get_record n.world k) ≡ false → AllClean steps m n
  unfolding run_steps
  run_steps-After [] m = λ live. record {
    outputs = [];
    one_each = refl;
    ran = refl;
    started = sym (append-nil m.executed);
  }
  run_steps-After (s ∷ steps) m =
      After-then m (execute_command env k s.command s.step_name s.step_message)
        (run_steps env k steps) (Cleanly env k s.command m) _
        (execute_command-After env k s.command s.step_name s.step_message m)
        λ o clean. elim (Bool-cases (is_over (get_record o.world k))) [
          | inl over ↦ rw (run_steps_idle env k steps o over) (λ live. absurd (cc (over, live)))
          | inr going ↦
              After-map (run_steps env k steps o) _ _ (run_steps-After steps o)
                λ n rest live. AllClean-cons s steps m o n (clean going) (rest live)
        ]

-- Where the steps of a pipeline come back and the operation is not cancelled, the command of every
-- step was started, in order and each once, and every one of them exited with 0.
pub run_steps-AllClean :
    (env : Environment) (k : Text) (steps : List Step) (m n : Machine)
    → run_steps env k steps m ≡ (returned tt, n)
    → is_over (get_record n.world k) ≡ false
    → AllClean steps m n
run_steps-AllClean env k steps m n back going =
    subst (λ o. After o λ v. is_over (get_record v.world k) ≡ false → AllClean steps m v) back
      (run_steps-After env k steps m) going
