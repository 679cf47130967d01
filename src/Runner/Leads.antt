-- ===== src/Runner/Leads.antt =====
-- The calls of the manager by api/gem_api/services/runner.py as steps of the manager.
pub mod Commands
pub mod Pipelines
use gem_gdc_emulation_enviro.Prelude.{
  inr, inl, sym, arith, Bool-cases, List, subst, Option-cases, Text, ℕ, ◌≡◌, refl, some, false,
}
use gem_gdc_emulation_enviro.Exceptions.{raised, returned, Outcome, Exception}
use gem_gdc_emulation_enviro.Operations.Model.{
  OperationRecord, OperationStatus, succeeded, failed, is_terminal, is_cancelled,
}
use gem_gdc_emulation_enviro.Operations.World.{Environment, World, get_record}
use gem_gdc_emulation_enviro.Operations.Manager.{Update, update_operation}
use gem_gdc_emulation_enviro.Operations.Manager.Steps.{
  IsPipelineUpdate, reports, begins, ends, Step, Reach, here, next, Reach-trans,
}
use gem_gdc_emulation_enviro.Runner.Machine.{
  in_world, interrupts, continue, Machine, Command, Action, pure, ◌>>=◌, ◌>>◌, call,
}
use gem_gdc_emulation_enviro.Runner.Execute.{
  run_command, sample_loop, log, update, cancelled_meanwhile, execute_command, mock_step,
  finalize_pipeline, fail_pipeline, with_process,
}
use gem_gdc_emulation_enviro.Runner.Along.{Along-pure, IsPreorder, Along}
use gem_gdc_emulation_enviro.Runner.Along.Commands.{IsKept, run_command-Along, sample_loop-Along}

module _ (env : Environment) (k : Text) where
  -- The manager comes from one state to the other by its steps.
  abbrev pub Leads : Machine → Machine → Type 0
  Leads m n = Reach env m.world n.world

  pub Leads-IsPreorder : IsPreorder Leads
  Leads-IsPreorder = record { same = λ m. here; composed = λ m n o f g. Reach-trans f g }

  pub log-Leads : (line : Text) → Along Leads (log env k line)
  unfolding log call
  log-Leads line = record { at = λ m. next here (Step.log k line) }

  -- update returns behind the update or raises: the state is the same.
  pub update-world :
      (u : Update) (m : Machine) → (update env k u m).1.world ≡ (update_operation env k u m.world).1
  unfolding update call ◌>>◌ ◌>>=◌
  update-world u m = behind (update_operation env k u m.world)
    where
      behind :
          (o : Outcome OperationRecord × World)
          → (continue {0, 0} (in_world {0} o m) (λ _. pure {0} tt)).1.world ≡ o.1
      behind (returned r, w) = refl
      behind (raised e, w) = refl

  pub update-Leads :
      (u : Update) (m : Machine) → IsPipelineUpdate m.world k u → Leads m (update env k u m).1
  update-Leads u m p =
      subst (Reach env m.world) (sym (update-world u m)) (next here (Step.update k u p))

  pub cancelled_meanwhile-Leads : Along Leads (cancelled_meanwhile env k)
  unfolding cancelled_meanwhile
  cancelled_meanwhile-Leads = record {
    at = λ m. elim (Bool-cases (interrupts env (get_record m.world k))) [
      | inl e ↦ rw e (next here (Step.cancel k))
      | inr e ↦ rw e (next here (Step.cancel k))
    ];
  }

  pub with_process-Leads : (pid : ℕ) (w : World) → Reach env w (with_process env k pid w)
  with_process-Leads pid w = elim (Option-cases (get_record w k)) [
    | inl e ↦ rw (e, with_process) here
    | inr (r, e) ↦ rw (e, with_process) (next here (Step.spawn k pid r e))
  ]
