-- ===== src/Tests/Managing.antt =====
-- Runs of the operation manager.
use gem_gdc_emulation_enviro.Prelude.{
  ap, false, Text, codes, ◌≡◌, ◌≢◌, refl, ◌↔◌, none, some, true, ◌∷◌, [], ◌++◌, arith,
  if◌then◌else◌, take_last,
}
use gem_gdc_emulation_enviro.Prelude.Dict
use gem_gdc_emulation_enviro.Prelude.Dict.{values}
use gem_gdc_emulation_enviro.Exceptions.{raised, http, status_400_bad_request, status_409_conflict}
use gem_gdc_emulation_enviro.Operations.Model.{
  is_cancelled, succeeded, running, OperationRecord, cluster_create, cluster_delete, cancelled,
  is_terminal, new_record, buffer_line,
}
use gem_gdc_emulation_enviro.Operations.Subscribers.{offer}
use gem_gdc_emulation_enviro.Operations.Subscribers.Delivery.{items-offer}
use gem_gdc_emulation_enviro.Operations.World.{
  World, empty_world, get_record, has_log_path, invalid_id_detail, init_log_file,
}
use gem_gdc_emulation_enviro.Operations.Manager.{
  update_operation, Update, find_conflict, register_operation, append_log, finished, finalize_task,
  cancel_operation, attach_task, init_line,
}
use gem_gdc_emulation_enviro.Operations.Manager.Views.{progresses, append_log-progresses}
use gem_gdc_emulation_enviro.Operations.Manager.Steps.{
  register, attach, update, begins, ends, Reach, here, next,
}
use gem_gdc_emulation_enviro.Operations.Manager.Steps.Invariants.{IsConsistent, Reach-IsConsistent}
use gem_gdc_emulation_enviro.Operations.Manager.Lifecycle.{
  HasStatus, finalize_task_final, cancel_operation_final, finalize_task_frees, status_of_end,
}
use gem_gdc_emulation_enviro.Operations.Manager.Refusals.{
  IsBusy, register_operation_conflict_iff, register_operation_locks, cancel_operation_twice,
}
use gem_gdc_emulation_enviro.Runner.Keeps.{update_operation-status}
use gem_gdc_emulation_enviro.Tests.Data.{readings, edge, attached_world}

pub reached : Reach readings empty_world attached_world
reached =
    next (next here (register edge cluster_create edge (codes "Init") (codes "Starting")))
      (attach edge 7)

attached-IsConsistent : IsConsistent attached_world
attached-IsConsistent = Reach-IsConsistent reached

items-offer_example :
    (offer none (record { maxsize = 1; items = some (codes "line") ∷ [] })).items
    ≡ take_last 1 ((some (codes "line") ∷ []) ++ none ∷ [])
items-offer_example =
    items-offer (record { maxsize = 1; items = some (codes "line") ∷ [] }) none (omega arith)

append_log-progresses_example :
    progresses (append_log readings edge (codes "PLAY RECAP") attached_world).1
    ≡ progresses attached_world
append_log-progresses_example =
    append_log-progresses readings edge (codes "PLAY RECAP") attached_world

abbrev fresh : OperationRecord
fresh =
    new_record edge cluster_create edge (codes "Init") (codes "Starting") 4 (readings.now 0)
      (readings.now 1)

abbrev pub the_record : OperationRecord
the_record = record (buffer_line (init_line fresh) fresh) { task = some 7 }

pub is_held : get_record attached_world edge ≡ some the_record
unfolding register_operation attach_task Dict.get has_log_path init_log_file Dict.put
is_held = refl

-- A pipeline starts a command of the operation, and then ends it.
abbrev starts : Update
starts = record {
  status = some running;
  current_step = some (codes "Init");
  message = none;
  error = none;
  completed = false;
}

abbrev succeeds : Update
succeeds = record {
  status = some succeeded;
  current_step = none;
  message = none;
  error = none;
  completed = true;
}

abbrev running_world : World
running_world = (update_operation readings edge starts attached_world).1

running_record : HasStatus running_world edge running
running_record = (update_operation-status readings edge starts attached_world the_record is_held).0

Reach-IsConsistent_example : IsConsistent (update_operation readings edge succeeds running_world).1
unfolding buffer_line new_record
Reach-IsConsistent_example = Reach-IsConsistent (
    next (next reached (update edge starts (begins the_record is_held refl refl refl))) (
      update edge succeeds (
        ends running_record.0 succeeded running_record.1 (ap is_cancelled running_record.2) refl
          refl refl)))

abbrev stopped_world : World
stopped_world = record empty_world {
  operations = (edge, record the_record { status = cancelled }) ∷ [];
}

finalize_task_final_example :
    (r' : OperationRecord) × (get_record
        (finalize_task readings edge 7 finished attached_world).1
        edge
      ≡ some r')
    × (is_terminal r'.status ≡ true)
    × (r'.status
        ≡ (if is_terminal the_record.status then the_record.status else status_of_end finished))
finalize_task_final_example =
    finalize_task_final readings edge attached_world the_record is_held 7 finished refl

cancel_operation_final_example :
    (r' : OperationRecord) × (get_record (cancel_operation readings edge attached_world).1 edge
      ≡ some r')
    × (is_terminal r'.status ≡ true)
    × (r'.status ≡ (if is_terminal the_record.status then the_record.status else cancelled))
cancel_operation_final_example =
    cancel_operation_final readings edge attached_world the_record is_held

finalize_task_frees_example :
    find_conflict (values (finalize_task readings edge 7 finished attached_world).1.operations) edge
    ≡ none
unfolding new_record buffer_line
finalize_task_frees_example =
    finalize_task_frees readings edge attached_world the_record 7 finished
      attached-IsConsistent.exclusive is_held refl refl

register_operation_conflict_iff_example : IsBusy (values attached_world.operations) edge ↔ (
    (detail : Text) × (register_operation readings
        (codes "b")
        cluster_delete
        edge
        (codes "s")
        (codes "m")
        attached_world
      ≡ (raised (http status_409_conflict detail), attached_world)))
register_operation_conflict_iff_example =
    register_operation_conflict_iff readings (codes "b") cluster_delete edge (codes "s") (codes "m")
      attached_world

register_operation_locks_example :
    ((register_operation readings
        (codes "a/b")
        cluster_create
        edge
        (codes "s")
        (codes "m")
        empty_world).0
      ≡ raised (http status_400_bad_request (invalid_id_detail (codes "a/b"))))
    × (find_conflict
          (values
            (register_operation readings
              (codes "a/b")
              cluster_create
              edge
              (codes "s")
              (codes "m")
              empty_world).1.operations)
          edge
        ≢ none)
unfolding has_log_path find_conflict
register_operation_locks_example =
    register_operation_locks readings (codes "a/b") cluster_create edge (codes "s") (codes "m")
      empty_world refl refl

cancel_operation_twice_example :
    (cancel_operation readings edge (cancel_operation readings edge attached_world).1).1
    ≡ (cancel_operation readings edge attached_world).1
cancel_operation_twice_example =
    cancel_operation_twice readings edge attached_world the_record is_held
