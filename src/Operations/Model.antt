-- ===== src/Operations/Model.antt =====
-- api/gem_api/models/operations.py, and OperationRecord of api/gem_api/services/operations.py.
use gem_gdc_emulation_enviro.Prelude.{
  Text, codes, ℕ, ◌+◌, ◌/◌, ◌%◌, ◌++◌, ◌∷◌, [], List, Option, some, none, Bool, true, false,
  take_last,
}
use gem_gdc_emulation_enviro.Exceptions.{◌&◌}
use gem_gdc_emulation_enviro.Operations.Subscribers.{Queue}

pub data OperationStatus : Type 0 where
  queued running succeeded failed cancelled : OperationStatus

pub data OperationType : Type 0 where
  cluster_create cluster_delete workstation_create workstation_delete : OperationType
  edge_router_create edge_router_delete : OperationType

-- The values of the two StrEnums, which is what an f-string shows.
abbrev pub status_text : OperationStatus → Text
status_text queued = codes "QUEUED"
status_text running = codes "RUNNING"
status_text succeeded = codes "SUCCEEDED"
status_text failed = codes "FAILED"
status_text cancelled = codes "CANCELLED"

abbrev pub type_text : OperationType → Text
type_text cluster_create = codes "CLUSTER_CREATE"
type_text cluster_delete = codes "CLUSTER_DELETE"
type_text workstation_create = codes "WORKSTATION_CREATE"
type_text workstation_delete = codes "WORKSTATION_DELETE"
type_text edge_router_create = codes "EDGE_ROUTER_CREATE"
type_text edge_router_delete = codes "EDGE_ROUTER_DELETE"

-- `status in (QUEUED, RUNNING)`, and `status in (SUCCEEDED, FAILED, CANCELLED)`.
abbrev pub is_active : OperationStatus → Bool
is_active queued = true
is_active running = true
is_active _ = false

abbrev pub is_terminal : OperationStatus → Bool
is_terminal succeeded = true
is_terminal failed = true
is_terminal cancelled = true
is_terminal _ = false

abbrev pub is_cancelled : OperationStatus → Bool
is_cancelled cancelled = true
is_cancelled _ = false

-- datetime in UTC
pub record DateTime : Type 0 where
  pub year : ℕ
  pub month : ℕ
  pub day : ℕ
  pub hour : ℕ
  pub minute : ℕ
  pub second : ℕ
  pub microsecond : ℕ

abbrev pub two_digits : ℕ → Text
two_digits n = (b'0' + n / 10 % 10) ∷ (b'0' + n % 10) ∷ []

abbrev four_digits : ℕ → Text
four_digits n = two_digits (n / 100) ++ two_digits n

-- strftime("%Y-%m-%dT%H:%M:%SZ")
unfoldable pub stamp : DateTime → Text
stamp t =
    four_digits t.year
    & codes "-"
    & two_digits t.month
    & codes "-"
    & two_digits t.day
    & codes "T"
    & two_digits t.hour
    & codes ":"
    & two_digits t.minute
    & codes ":"
    & two_digits t.second
    & codes "Z"

pub record OperationRecord : Type 0 where
  pub operation_id : Text
  pub operation_type : OperationType
  pub target_resource : Text
  pub status : OperationStatus
  pub current_step : Option Text
  pub message : Option Text
  pub created_at : DateTime
  pub updated_at : DateTime
  pub completed_at : Option DateTime
  pub error : Option Text
  -- deque(maxlen=max_buffer_lines)
  pub max_buffer_lines : ℕ
  pub log_buffer : List Text
  pub subscribers : List Queue
  -- the pid of the subprocess, and the identity of the background task
  pub process : Option ℕ
  pub task : Option ℕ

-- OperationRecord.__init__, with the two readings of the clock.
unfoldable pub new_record :
    Text → OperationType → Text → Text → Text → ℕ → DateTime → DateTime → OperationRecord
new_record operation_id operation_type target initial_step initial_message max_lines created
      updated =
    record {
      operation_id = operation_id;
      operation_type = operation_type;
      target_resource = target;
      status = queued;
      current_step = some initial_step;
      message = some initial_message;
      created_at = created;
      updated_at = updated;
      completed_at = none;
      error = none;
      max_buffer_lines = max_lines;
      log_buffer = [];
      subscribers = [];
      process = none;
      task = none;
    }

-- log_buffer.append(line), which drops the oldest line of a full deque.
unfoldable pub buffer_line : Text → OperationRecord → OperationRecord
buffer_line line r = record r {
  log_buffer = take_last r.max_buffer_lines (r.log_buffer ++ line ∷ []);
}

pub record OperationResponse : Type 0 where
  pub operation_id : Text
  pub operation_type : OperationType
  pub status : OperationStatus
  pub target_resource : Text
  pub current_step : Option Text
  pub message : Option Text
  pub created_at : DateTime
  pub updated_at : DateTime
  pub completed_at : Option DateTime
  pub error : Option Text

-- OperationRecord.to_response
unfoldable pub to_response : OperationRecord → OperationResponse
to_response r = record {
  operation_id = r.operation_id;
  operation_type = r.operation_type;
  status = r.status;
  target_resource = r.target_resource;
  current_step = r.current_step;
  message = r.message;
  created_at = r.created_at;
  updated_at = r.updated_at;
  completed_at = r.completed_at;
  error = r.error;
}

pub record OperationCancelResponse : Type 0 where
  pub success : Bool
  pub operation_id : Text
  pub status : OperationStatus
  pub message : Text

pub record OperationAcceptedResponse : Type 0 where
  pub operation_id : Text
  pub status : OperationStatus
  pub message : Text
  pub target_resource : Option Text
