-- ===== src/Runner/Leads/Commands.antt =====
-- The commands and mock steps of api/gem_api/services/runner.py as steps of the manager.
use gem_gdc_emulation_enviro.Prelude.{
  [], ◌∷◌, inr, sym, subst, Bool-cases, List, or_else, if◌then◌else◌, inl, Text, codes, ℕ, ◌≡◌, ◌⊎◌,
  refl, some, false,
}
use gem_gdc_emulation_enviro.Exceptions.{◌&◌}
use gem_gdc_emulation_enviro.Operations.Model.{
  OperationRecord, OperationStatus, running, cancelled, is_terminal, is_cancelled,
}
use gem_gdc_emulation_enviro.Operations.World.{Environment, World, get_record}
use gem_gdc_emulation_enviro.Operations.Manager.Steps.{
  IsPipelineUpdate, reports, begins, Step, Reach, here, next, Reach-trans,
}
use gem_gdc_emulation_enviro.Runner.Machine.{call, is_over, Machine, Command, ◌>>◌}
use gem_gdc_emulation_enviro.Runner.Execute.{
  run_command, sample_loop, words, no_update, log, update, cancelled_meanwhile, execute_command,
  mock_step, with_process,
}
use gem_gdc_emulation_enviro.Runner.Along.{Along-after, Along-pure, IsPreorder, Along, Along-then}
use gem_gdc_emulation_enviro.Operations.Manager.{
  append_log, update_operation, Update, cancel_operation,
}
use gem_gdc_emulation_enviro.Operations.Manager.Views.{get_record-set_record_self}
use gem_gdc_emulation_enviro.Operations.Manager.Lifecycle.{HasStatus, cancel_operation_final}
use gem_gdc_emulation_enviro.Runner.Keeps.{append_log-keeps_status, update_operation-status}
use gem_gdc_emulation_enviro.Runner.Pipelines.Common
use gem_gdc_emulation_enviro.Runner.Pipelines.Common.{MockStep, run_steps, run_mock_steps}
use gem_gdc_emulation_enviro.Runner.Along.Commands.{IsKept, run_command-Along, sample_loop-Along}
use gem_gdc_emulation_enviro.Runner.Leads.{
  update-world, interrupts, with_process-Leads, update-Leads, log-Leads,
}

-- A pipeline may act on a status that is not a final one, or after a cancellation.
abbrev pub IsOpen : OperationStatus → Type 0
IsOpen s = (is_terminal s ≡ false) ⊎ (s ≡ cancelled)

-- The manager holds the operation, and its status is open.
abbrev pub IsLive : Text → World → Type 0
IsLive k w = (r : OperationRecord) × (get_record w k ≡ some r) × IsOpen r.status

IsLive-of_status :
    (k : Text) (w : World) (s : OperationStatus) → HasStatus w k s → IsOpen s → IsLive k w
IsLive-of_status k w s (r, held, is) opened = (r, held, subst IsOpen (sym is) opened)

unfinished : (s : OperationStatus) → IsOpen s → is_cancelled s ≡ false → is_terminal s ≡ false
unfinished s (inl f) h = f
unfinished s (inr c) h = absurd (cc (c, h))

module _ (env : Environment) (k : Text) where
  -- Where the operation is live, the manager comes by its steps to a state where it is live.
  abbrev pub Goes : Machine → Machine → Type 0
  Goes m n = IsLive k m.world → Reach env m.world n.world × IsLive k n.world

  pub Goes-IsPreorder : IsPreorder Goes
  Goes-IsPreorder = record {
    same = λ m h. (here, h);
    composed = λ m n o f g h. (Reach-trans (f h).0 (g (f h).1).0, (g (f h).1).1);
  }

  log-Goes : (line : Text) → Along Goes (log env k line)
  unfolding log call
  log-Goes line = record {
    at = λ m (r, held, opened). (
      (log-Leads env k line).at m,
      IsLive-of_status k (append_log env k line m.world).1 r.status
          (append_log-keeps_status env k line m.world r held) opened,
    );
  }

  update-Goes :
      (u : Update) (s : OperationStatus) (m : Machine) (r : OperationRecord)
      → get_record m.world k ≡ some r
      → IsPipelineUpdate m.world k u
      → or_else u.status r.status ≡ s
      → IsOpen s
      → Reach env m.world (update env k u m).1.world × IsLive k (update env k u m).1.world
  update-Goes u s m r held p e opened = (
    update-Leads env k u m p,
    subst (IsLive k) (sym (update-world env k u m)) (
        IsLive-of_status k (update_operation env k u m.world).1 s
          (subst (HasStatus (update_operation env k u m.world).1 k) e
            (update_operation-status env k u m.world r held).0)
          opened),
  )

  report-Goes :
      (message : Text) → Along Goes (update env k (record no_update { message = some message }))
  report-Goes message = record {
    at = λ m (r, held, opened). update-Goes _ r.status m r held (reports refl refl) refl opened;
  }

  after_cancel : (s : OperationStatus) → IsOpen s → IsOpen (if is_terminal s then s else cancelled)
  after_cancel s opened = elim (Bool-cases (is_terminal s)) [
    | inl t ↦ rw t opened
    | inr f ↦ rw f (inr refl)
  ]

  cancelled_meanwhile-Goes : Along Goes (cancelled_meanwhile env k)
  unfolding cancelled_meanwhile
  cancelled_meanwhile-Goes = record {
    at = λ m (r, held, opened).
        let (r', found, _, status) = cancel_operation_final env k m.world r held in
        let live : IsLive k (cancel_operation env k m.world).1 =
          IsLive-of_status k (cancel_operation env k m.world).1
            (if is_terminal r.status then r.status else cancelled) (r', found, status)
            (after_cancel r.status opened) in
        elim (Bool-cases (interrupts env (get_record m.world k))) [
          | inl e ↦ rw e (next here (Step.cancel k), live)
          | inr e ↦ rw e (next here (Step.cancel k), live)
        ];
  }

  with_process-IsLive : (pid : ℕ) (w : World) → IsLive k w → IsLive k (with_process env k pid w)
  with_process-IsLive pid w (r, held, opened) =
      rw (held, with_process) (_, get_record-set_record_self w k _, opened)

  pub Goes-IsKept : IsKept env k Goes
  Goes-IsKept = record {
    preorder = Goes-IsPreorder;
    log_line = log-Goes;
    report = report-Goes;
    cancellation = cancelled_meanwhile-Goes;
    inputs = λ m runs naps executed h. (here, h);
    process = λ pid m h. (with_process-Leads env k pid m.world, with_process-IsLive pid m.world h);
  }

  -- The update with which a command or a mock step begins.
  abbrev beginning : Text → Text → Update
  beginning name message = record no_update {
    status = some running;
    current_step = some name;
    message = some message;
  }

  begin-Goes :
      (name message : Text) (m : Machine)
      → is_over (get_record m.world k) ≡ false
      → Goes m (update env k (beginning name message) m).1
  begin-Goes name message m over (r, held, opened) =
      let not_cancelled : is_cancelled r.status ≡ false = rw held at over in
      update-Goes _ running m r held
        (begins r held (unfinished r.status opened not_cancelled) refl refl) refl (inl refl)

  pub execute_command-Goes :
      (c : Command) (name message : Text) → Along Goes (execute_command env k c name message)
  unfolding execute_command
  execute_command-Goes c name message = record {
    at = λ m. elim (Bool-cases (is_over (get_record m.world k))) [
      | inl e ↦ rw e (Goes-IsPreorder.same m)
      | inr e ↦
          let line = codes "> Running: " & words c.cmd & codes " (cwd: " & c.cwd & codes ")" in
          let told = update env k (beginning name message) in
          rw e (
            Along-after Goes Goes-IsPreorder (told >> log env k line) (run_command env k c) m
              (Along-after Goes Goes-IsPreorder told (log env k line) m
                (begin-Goes name message m e) (log-Goes line))
              (run_command-Along env k Goes Goes-IsKept c))
    ];
  }

  pub mock_step-Goes :
      (name message : Text) (lines : List Text) → Along Goes (mock_step env k name message lines)
  unfolding mock_step
  mock_step-Goes name message lines = record {
    at = λ m. elim (Bool-cases (is_over (get_record m.world k))) [
      | inl e ↦ rw e (Goes-IsPreorder.same m)
      | inr e ↦ rw e (
          Along-after Goes Goes-IsPreorder (update env k (beginning name message))
            (sample_loop env k lines) m (begin-Goes name message m e)
            (sample_loop-Along env k Goes Goes-IsKept lines))
    ];
  }

  pub run_steps-Goes : (steps : List Common.Step) → Along Goes (run_steps env k steps)
  unfolding run_steps
  run_steps-Goes [] = Along-pure Goes Goes-IsPreorder tt
  run_steps-Goes (s ∷ steps) =
      Along-then Goes Goes-IsPreorder (execute_command env k s.command s.step_name s.step_message)
        (run_steps env k steps) (execute_command-Goes s.command s.step_name s.step_message)
        (run_steps-Goes steps)

  pub run_mock_steps-Goes : (steps : List MockStep) → Along Goes (run_mock_steps env k steps)
  unfolding run_mock_steps
  run_mock_steps-Goes [] = Along-pure Goes Goes-IsPreorder tt
  run_mock_steps-Goes (s ∷ steps) =
      Along-then Goes Goes-IsPreorder (mock_step env k s.step_name s.step_message s.sample_logs)
        (run_mock_steps env k steps) (mock_step-Goes s.step_name s.step_message s.sample_logs)
        (run_mock_steps-Goes steps)
