-- ===== src/Routers/Logs.antt =====
-- get_operation_logs of api/gem_api/routers/operations.py.
use gem_gdc_emulation_enviro.Prelude.{Text, codes, ℕ, List, Option, none, some, Bool, if◌then◌else◌}
use gem_gdc_emulation_enviro.Exceptions.{
  Outcome, returned, raised, http, status_404_not_found, ◌>>=◌, ◌&◌, quoted,
}
use gem_gdc_emulation_enviro.Operations.Model.{OperationStatus, OperationResponse}
use gem_gdc_emulation_enviro.Operations.World.{Environment}
use gem_gdc_emulation_enviro.Operations.Manager
use gem_gdc_emulation_enviro.Operations.Logs.{get_logs}
use gem_gdc_emulation_enviro.Routers.{Api}

pub record OperationLogsResponse : Type 0 where
  pub operation_id : Text
  pub status : Option OperationStatus
  pub log_lines : List Text

-- A snapshot, or the events of stream_logs for the id.
pub data LogsAnswer : Type 0 where
  snapshot : OperationLogsResponse → LogsAnswer
  events : Text → LogsAnswer

abbrev status_of : Option OperationResponse → Option OperationStatus
status_of none = none
status_of (some op) = some op.status

abbrev stream_of : Text → Option OperationResponse → Outcome LogsAnswer
stream_of operation_id none =
    raised
      (http status_404_not_found (codes "Operation " & quoted operation_id & codes " not found."))
stream_of operation_id (some op) = returned (events operation_id)

unfoldable pub get_operation_logs :
    Environment → Text → Option ℕ → Bool → Api → Outcome LogsAnswer × Api
unfolding get_logs
get_operation_logs env operation_id tail stream api =
    let op = Manager.get_operation operation_id api.world in
    let (lines, w) = get_logs env operation_id tail api.world in
    if stream then (stream_of operation_id op, api) else (
      lines >>= λ log_lines. returned (
          snapshot
            record { operation_id = operation_id; status = status_of op; log_lines = log_lines }),
      record api { world = w },
    )
