-- ===== src/Operations/Manager.antt =====
-- OperationManager of api/gem_api/services/operations.py: each method as a function on the state.
-- A method that holds the lock, or has no `await`, is one step.
pub mod Views
pub mod Exclusion
pub mod Changes
pub mod Steps
pub mod Lifecycle
pub mod Refusals
use gem_gdc_emulation_enviro.Prelude.{
  Text, codes, ℕ, ◌+◌, List, [], ◌∷◌, map, Option, none, some, Bool, true, false, ◌&&◌, not,
  is_empty, if◌then◌else◌, text_eq, or_else, ◌==◌,
}
use gem_gdc_emulation_enviro.Prelude.Strings.{rstrip, starts_with}
use gem_gdc_emulation_enviro.Prelude.Dict.{values}
use gem_gdc_emulation_enviro.Exceptions.{
  http, attribute_error, Outcome, returned, raised, status_404_not_found, status_409_conflict, ◌&◌,
  quoted,
}
use gem_gdc_emulation_enviro.Operations.Model.{
  OperationStatus, failed, cancelled, OperationType, status_text, type_text, is_active, is_terminal,
  DateTime, stamp, OperationRecord, new_record, buffer_line, OperationResponse, to_response,
  OperationCancelResponse,
}
use gem_gdc_emulation_enviro.Operations.Subscribers.{publish}
use gem_gdc_emulation_enviro.Operations.World.{
  Environment, sigterm, force_kill_later, cancel_task, World, get_record, set_record, perform,
  has_log_path, invalid_id_detail, get_log_file_path, init_log_file, append_log_file,
}

-- The first active operation on the resource, in the order of the dict.
unfoldable pub find_conflict : List OperationRecord → Text → Option OperationRecord
unfolding text_eq
find_conflict [] target = none
find_conflict (op ∷ ops) target =
    if text_eq op.target_resource target && is_active op.status
    then some op
    else find_conflict ops target

unfoldable pub conflict_detail : OperationRecord → Text → Text
conflict_detail op target =
    codes "An active operation "
    & quoted op.operation_id
    & codes " of type "
    & quoted (type_text op.operation_type)
    & codes " is already in progress for target resource "
    & quoted target
    & codes "."

unfoldable pub init_line : OperationRecord → Text
unfolding stamp
init_line r =
    codes "["
    & stamp r.created_at
    & codes "] Registered operation "
    & r.operation_id
    & codes " ("
    & type_text r.operation_type
    & codes ") on "
    & r.target_resource
    & codes "."

module _ (env : Environment) where
  -- The record is in the dict before the path of its log file is computed, which may raise.
  unfoldable pub register_new :
      Text → OperationType → Text → Text → Text → World → Outcome OperationRecord × World
  unfolding new_record init_log_file buffer_line has_log_path invalid_id_detail get_log_file_path
  register_new operation_id operation_type target initial_step initial_message w =
      let r =
        new_record operation_id operation_type target initial_step initial_message
          env.max_log_buffer_lines (env.now w.clock) (env.now (w.clock + 1)) in
      let w' = set_record (record w { clock = w.clock + 2 }) operation_id r in
      let logged = buffer_line (init_line r) r in
      (
        get_log_file_path env operation_id (returned logged),
        if has_log_path env operation_id
            then set_record (init_log_file env operation_id (init_line r) w') operation_id logged
            else w',
      )

  unfoldable pub register_operation :
      Text → OperationType → Text → Text → Text → World → Outcome OperationRecord × World
  unfolding find_conflict register_new
  register_operation operation_id operation_type target initial_step initial_message w =
      elim (find_conflict (values w.operations) target) [
        | some op ↦ (raised (http status_409_conflict (conflict_detail op target)), w)
        | none ↦ register_new operation_id operation_type target initial_step initial_message w
      ]

-- The optional arguments of update_operation.
pub record Update : Type 0 where
  pub status : Option OperationStatus
  pub current_step : Option Text
  pub message : Option Text
  pub error : Option Text
  pub completed : Bool

-- `if value is not None: field = value`
abbrev assign_text : Option Text → Option Text → Option Text
assign_text none old = old
assign_text (some v) old = some v

-- `self._publish(record, item)`
abbrev pub publish_to : Option Text → OperationRecord → OperationRecord
publish_to item r = record r { subscribers = publish r.subscribers item }

unfoldable pub apply_update : Update → DateTime → DateTime → OperationRecord → OperationRecord
apply_update u updated completed_at r =
    let r' = record r {
      updated_at = updated;
      status = or_else u.status r.status;
      current_step = assign_text u.current_step r.current_step;
      message = assign_text u.message r.message;
      error = assign_text u.error r.error;
    } in
    if u.completed then publish_to none (record r' { completed_at = some completed_at }) else r'

module _ (env : Environment) where
  -- The parameter `status` hides the module `status` of fastapi. So where the record is missing,
  -- `status.HTTP_404_NOT_FOUND` is looked up on None or on an OperationStatus, and that raises.
  unfoldable pub update_operation : Text → Update → World → Outcome OperationRecord × World
  unfolding apply_update
  update_operation operation_id u w = elim (get_record w operation_id) [
    | none ↦ (raised attribute_error, w)
    | some r ↦
        let r' = apply_update u (env.now w.clock) (env.now (w.clock + 1)) r in
        let w' = record w { clock = if u.completed then w.clock + 2 else w.clock + 1 } in
        (returned r', set_record w' operation_id r')
  ]

-- The line as it is kept, or `none` for an empty one, which is dropped.
unfoldable pub format_line : DateTime → Text → Option Text
unfolding rstrip starts_with stamp
format_line now log_line =
    let line = rstrip log_line in
    if is_empty line
    then none
    else if starts_with line (codes "[20")
    then some line
    else some (codes "[" & stamp now & codes "] " & line)

-- datetime.now() is read only where a prefix is added.
abbrev pub clock_after : Text → ℕ → ℕ
clock_after log_line clock =
    let line = rstrip log_line in
    if is_empty line then clock else if starts_with line (codes "[20") then clock else clock + 1

module _ (env : Environment) where
  unfoldable pub append_line : Text → Text → OperationRecord → World → Outcome (Unit {0}) × World
  unfolding buffer_line append_log_file get_log_file_path has_log_path
  append_line operation_id line r w =
      let buffered = buffer_line line r in
      let w' = set_record w operation_id buffered in
      (
        get_log_file_path env operation_id (returned tt),
        if has_log_path env operation_id
            then set_record (append_log_file env operation_id line w') operation_id
                (publish_to (some line) buffered)
            else w',
      )

  unfoldable pub append_log : Text → Text → World → Outcome (Unit {0}) × World
  unfolding format_line append_line
  append_log operation_id log_line w = elim (get_record w operation_id) [
    | none ↦ (returned tt, w)
    | some r ↦ elim (format_line (env.now w.clock) log_line) [
      | none ↦ (returned tt, w)
      | some line ↦
          append_line operation_id line r (record w { clock = clock_after log_line w.clock })
    ]
  ]

-- The handle of the background task; the callback on its end is finalize_task.
unfoldable pub attach_task : Text → ℕ → World → World
attach_task operation_id task w = elim (get_record w operation_id) [
  | none ↦ w
  | some r ↦ set_record w operation_id (record r { task = some task })
]

-- How a background task ended: cancelled, with a value, or with an exception that is shown as
-- `{type(exc).__name__}: {exc}`.
pub data TaskEnd : Type 0 where
  was_cancelled finished : TaskEnd
  died : Text → TaskEnd

unfoldable pub cancelled_message : Text → Text
cancelled_message operation_id = codes "Operation " & quoted operation_id & codes " was cancelled."

abbrev pub failed_with : Text → OperationRecord → OperationRecord
failed_with error r = record r {
  status = failed;
  current_step = some (codes "Failed");
  error = some error;
  message = some (codes "Operation failed: " & error);
}

unfoldable pub end_record : Text → TaskEnd → OperationRecord → OperationRecord
unfolding cancelled_message
end_record operation_id was_cancelled r = record r {
  status = cancelled;
  current_step = some (codes "Cancelled");
  message = some (cancelled_message operation_id);
}
end_record operation_id finished r =
    failed_with (codes "Pipeline exited without reporting a final status.") r
end_record operation_id (died shown) r = failed_with shown r

abbrev is_task : ℕ → Option ℕ → Bool
is_task task none = false
is_task task (some t) = t == task

-- `self._publish(record, item)` for the record of an id.
abbrev pub publish_at : Text → Option Text → World → World
publish_at operation_id item w = elim (get_record w operation_id) [
  | none ↦ w
  | some r ↦ set_record w operation_id (publish_to item r)
]

-- What follows a statement that may raise.
abbrev pub then_if_returned :
    Outcome (Unit {0}) × World → (World → World) → Outcome (Unit {0}) × World
then_if_returned (returned x, w) f = (returned x, f w)
then_if_returned (raised e, w) f = (raised e, w)

module _ (env : Environment) where
  -- append_log(operation_id, record.message) and the end-of-stream sentinel.
  unfoldable pub announce_end : Text → Text → World → Outcome (Unit {0}) × World
  unfolding append_log
  announce_end operation_id line w =
      then_if_returned (append_log env operation_id line w) (publish_at operation_id none)

  unfoldable pub finalize_record :
      Text → TaskEnd → OperationRecord → World → Outcome (Unit {0}) × World
  unfolding end_record announce_end
  finalize_record operation_id end r w =
      let r' = record (end_record operation_id end r) {
        updated_at = env.now w.clock;
        completed_at = some (env.now (w.clock + 1));
      } in
      announce_end operation_id (or_else r'.message [])
        (set_record (record w { clock = w.clock + 2 }) operation_id r')

  unfoldable pub finalize_task : Text → ℕ → TaskEnd → World → Outcome (Unit {0}) × World
  unfolding finalize_record
  finalize_task operation_id task end w = elim (get_record w operation_id) [
    | none ↦ (returned tt, w)
    | some r ↦
        if is_task task r.task && not (is_terminal r.status)
        then finalize_record operation_id end r w
        else (returned tt, w)
  ]

-- OperationManager.get_operation, OperationManager.list_operations
unfoldable pub get_operation : Text → World → Option OperationResponse
get_operation operation_id w = elim (get_record w operation_id) [
  | none ↦ none
  | some r ↦ some (to_response r)
]

unfoldable pub list_operations : World → List OperationResponse
list_operations w = map to_response (values w.operations)

unfoldable pub user_cancelled_message : Text → Text
user_cancelled_message operation_id =
    codes "Operation "
    & quoted operation_id
    & codes " was cancelled and background processes terminated."

abbrev pub cancelled_record : Text → DateTime → DateTime → OperationRecord → OperationRecord
cancelled_record operation_id completed updated r = record r {
  status = cancelled;
  completed_at = some completed;
  message = some (user_cancelled_message operation_id);
  updated_at = updated;
}

unfoldable pub cancel_line : DateTime → Text
cancel_line completed = codes "[" & stamp completed & codes "] Operation cancelled by user request."

-- SIGTERM now and SIGKILL two seconds later, where a subprocess runs.
abbrev stop_process : Environment → Option ℕ → World → World
stop_process env none w = w
stop_process env (some pid) w =
    if env.is_running pid then perform (force_kill_later pid) (perform (sigterm pid) w) else w

abbrev stop_task : Environment → Option ℕ → World → World
stop_task env none w = w
stop_task env (some task) w = if env.is_done task then w else perform (cancel_task task) w

abbrev respond :
    Outcome (Unit {0}) × World → OperationCancelResponse → Outcome OperationCancelResponse × World
respond (returned x, w) response = (returned response, w)
respond (raised e, w) response = (raised e, w)

unfoldable pub finished_message : Text → OperationStatus → Text
finished_message operation_id status =
    codes "Operation "
    & quoted operation_id
    & codes " has already finished with status "
    & quoted (status_text status)
    & codes "."

unfoldable pub not_found_detail : Text → Text
not_found_detail operation_id = codes "Operation " & quoted operation_id & codes " not found."

module _ (env : Environment) where
  unfoldable pub cancel_active :
      Text → OperationRecord → World → Outcome OperationCancelResponse × World
  unfolding announce_end cancel_line user_cancelled_message
  cancel_active operation_id r w =
      let completed = env.now w.clock in
      let r' = cancelled_record operation_id completed (env.now (w.clock + 1)) r in
      let w' = set_record (record w { clock = w.clock + 2 }) operation_id r' in
      respond
        (announce_end env operation_id (cancel_line completed)
          (stop_task env r.task (stop_process env r.process w')))
        (record {
          success = true;
          operation_id = operation_id;
          status = cancelled;
          message = user_cancelled_message operation_id;
        })

  unfoldable pub cancel_operation : Text → World → Outcome OperationCancelResponse × World
  unfolding cancel_active finished_message
  cancel_operation operation_id w = elim (get_record w operation_id) [
    | none ↦ (raised (http status_404_not_found (not_found_detail operation_id)), w)
    | some r ↦
        if is_terminal r.status
        then (
          returned (record {
            success = false;
            operation_id = operation_id;
            status = r.status;
            message = finished_message operation_id r.status;
          }),
          w,
        )
        else cancel_active operation_id r w
  ]

-- OperationManager.reset
abbrev pub reset : World → World
reset w = record w { operations = [] }
