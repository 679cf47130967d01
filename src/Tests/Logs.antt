-- ===== src/Tests/Logs.antt =====
-- Runs of the log of an operation and of its streams.
use gem_gdc_emulation_enviro.Prelude.{Text, codes, ◌≡◌, refl, some, List, [], ◌∷◌, ◌++◌}
use gem_gdc_emulation_enviro.Exceptions.{returned}
use gem_gdc_emulation_enviro.Operations.Model.{
  OperationRecord, cluster_create, running, new_record, buffer_line,
}
use gem_gdc_emulation_enviro.Operations.World.{empty_world, has_log_path}
use gem_gdc_emulation_enviro.Operations.Manager.{find_conflict, append_log, format_line}
use gem_gdc_emulation_enviro.Operations.Logs.{get_logs}
use gem_gdc_emulation_enviro.Operations.Logs.Mirror.{
  Mirrors, Shows, visible, register_operation-Mirrors, append_log-Mirrors, get_logs-Mirrors,
}
use gem_gdc_emulation_enviro.Operations.Streams.{Stream, open_stream, receive, resume}
use gem_gdc_emulation_enviro.Operations.Streams.Account.{given}
use gem_gdc_emulation_enviro.Tests.Data.{readings, edge, registered_world}

abbrev two_lines : List Text
two_lines = codes "terraform init" ∷ codes "" ∷ []

started : (first : Text) × Mirrors registered_world edge (first ∷ [])
unfolding find_conflict has_log_path
started =
    register_operation-Mirrors readings edge cluster_create edge (codes "Init") (codes "Starting")
      empty_world refl refl refl refl refl

abbrev recap : Text
recap = codes "[2026-03-14T15:09:26Z] PLAY RECAP"

append_log-Mirrors_example :
    Mirrors
      (append_log readings edge (codes "PLAY RECAP") registered_world).1
      edge
      ((started.0 ∷ []) ++ recap ∷ [])
unfolding has_log_path format_line
append_log-Mirrors_example =
    append_log-Mirrors readings edge (codes "PLAY RECAP") recap registered_world (started.0 ∷ [])
      started.1 refl refl refl refl

get_logs-Mirrors_example :
    (shown : List Text) × ((get_logs readings edge (some 1) registered_world).0 ≡ returned shown)
    × Shows
        (some 1)
        (visible readings registered_world started.1.op.max_buffer_lines (started.0 ∷ []))
        shown
unfolding has_log_path
get_logs-Mirrors_example =
    get_logs-Mirrors readings edge (some 1) registered_world (started.0 ∷ []) started.1 refl

-- A record with one line.
abbrev record_with_line : OperationRecord
unfolding new_record buffer_line
record_with_line =
    let t = readings.now 0 in
    buffer_line (codes "a")
      (new_record edge cluster_create edge (codes "Init") (codes "Starting") 4 t t)

-- A line is published while the snapshot is read.
abbrev queued_stream : Stream
queued_stream = receive (some (codes "b")) (open_stream record_with_line)

-- The client reads the snapshot, and then the line, while the operation runs.
abbrev replayed_stream : Stream
replayed_stream = (resume running queued_stream).0

abbrev got : List Text
got = given (resume running queued_stream).1 ++ given (resume running replayed_stream).1
