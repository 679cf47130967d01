-- ===== src/Operations/Manager/Changes.antt =====
-- The record that each method of OperationManager writes, up to log lines and subscribers.
use gem_gdc_emulation_enviro.Prelude.{
  Text, ℕ, ◌+◌, ◌≡◌, refl, ap, ◌∙◌, Option, none, some, arith, or_else, [],
}
use gem_gdc_emulation_enviro.Prelude.Dict
use gem_gdc_emulation_enviro.Prelude.Dict.{Dict}
use gem_gdc_emulation_enviro.Exceptions.{Outcome, returned, raised}
use gem_gdc_emulation_enviro.Operations.Model.{OperationRecord, OperationCancelResponse}
use gem_gdc_emulation_enviro.Operations.World.{Environment, World, get_record, set_record}
use gem_gdc_emulation_enviro.Operations.Manager.{
  Update, apply_update, update_operation, attach_task, TaskEnd, end_record, finalize_record,
  cancelled_record, cancel_active, stop_task, stop_process, respond, announce_end, cancel_line,
}
use gem_gdc_emulation_enviro.Operations.Manager.Views.{
  progresses_of, progresses, announce_end-progresses,
}

-- The progress behind a method is the old one with one record replaced.
abbrev pub Replaces : Text → OperationRecord → World → World → Type 0
Replaces k r w w' = progresses w' ≡ progresses_of (Dict.put w.operations k r)

pub update_operation-Replaces :
    (env : Environment) (k : Text) (u : Update) (w : World) (r : OperationRecord)
    → get_record w k ≡ some r
    → Replaces k
        (apply_update u (env.now w.clock) (env.now (w.clock + 1)) r)
        w
        (update_operation env k u w).1
unfolding update_operation
update_operation-Replaces env k u w r h = rw (h, update_operation)

pub attach_task-Replaces :
    (k : Text) (task : ℕ) (w : World) (r : OperationRecord)
    → get_record w k ≡ some r
    → Replaces k (record r { task = some task }) w (attach_task k task w)
unfolding attach_task
attach_task-Replaces k task w r h = rw (h, attach_task)

module _ (env : Environment) (k : Text) (w : World) (r : OperationRecord) where
  -- The record of an operation whose task ended without a final status.
  abbrev pub ended : TaskEnd → OperationRecord
  ended end = record (end_record k end r) {
    updated_at = env.now w.clock;
    completed_at = some (env.now (w.clock + 1));
  }

  pub finalize_record-Replaces :
      (end : TaskEnd) → Replaces k (ended end) w (finalize_record env k end r w).1
  unfolding finalize_record
  finalize_record-Replaces end =
      announce_end-progresses env k (or_else (end_record k end r).message [])
        (set_record (record w { clock = w.clock + 2 }) k (ended end))

  -- The record of an operation that a user cancelled.
  abbrev pub stopped : OperationRecord
  stopped = cancelled_record k (env.now w.clock) (env.now (w.clock + 1)) r

  operations-stop_process :
      (pid : Option ℕ) (v : World) → (stop_process env pid v).operations ≡ v.operations
  operations-stop_process none v = refl
  operations-stop_process (some pid) v = ground arith

  operations-stop_task :
      (task : Option ℕ) (v : World) → (stop_task env task v).operations ≡ v.operations
  operations-stop_task none v = refl
  operations-stop_task (some task) v = ground arith

  world-respond :
      (m : Outcome (Unit {0}) × World) (response : OperationCancelResponse)
      → (respond m response).1 ≡ m.1
  world-respond (returned x, v) response = refl
  world-respond (raised e, v) response = refl

  pub cancel_active-Replaces : Replaces k stopped w (cancel_active env k r w).1
  unfolding cancel_active
  cancel_active-Replaces =
      let w1 = set_record (record w { clock = w.clock + 2 }) k stopped in
      let w2 = stop_process env r.process w1 in
      let w3 = stop_task env r.task w2 in
      let line = cancel_line (env.now w.clock) in
      let unchanged : w3.operations ≡ w1.operations =
        operations-stop_task r.task w2 ∙ operations-stop_process r.process w1 in
      ap progresses (world-respond (announce_end env k line w3) _)
      ∙ announce_end-progresses env k line w3
      ∙ ap progresses_of unchanged
