-- ===== src/Operations/Streams/Ends.antt =====
-- What a stream of a log gives its client until the operation is over.
use gem_gdc_emulation_enviro.Prelude.{
  refl, Text, ℕ, refl, List, [], ◌∷◌, ◌++◌, map, Option, none, some,
}
use gem_gdc_emulation_enviro.Operations.Model.{OperationStatus, OperationRecord}
use gem_gdc_emulation_enviro.Operations.Streams.{
  Turn, Stage, replaying, Stream, Progress, yielded, waiting, finished, open_stream, receive,
  collect,
}

-- A stream with these lines in its queue, and then the end-of-stream mark.
abbrev ending : List Text → Stage → List Text → Stream
ending seen stage ls = record {
  seen = seen;
  stage = stage;
  queue = record { maxsize = 100; items = map some ls ++ none ∷ [] };
}

abbrev more : List Text → List Text × Progress → List Text × Progress
more ls p = (ls ++ p.0, p.1)

module _ (status : OperationStatus) (seen : List Text) where
  -- What the client gets from a turn on.
  collect_from : ℕ → Turn → List Text × Progress
  collect_from f t = elim t.progress [
    | yielded line ↦ more (line ∷ []) (
        collect status f record {
          seen = seen;
          stage = t.stage;
          queue = record { maxsize = 100; items = t.items };
        })
    | waiting ↦ ([], waiting)
    | finished ↦ ([], finished)
  ]

-- The publications of these lines, in order.
abbrev pub receive_lines : List Text → Stream → Stream
receive_lines [] s = s
receive_lines (l ∷ ls) s = receive_lines ls (receive (some l) s)

-- A stream that still replays, and what is in its queue.
abbrev replay : List Text → List Text → List (Option Text) → Stream
replay seen left items = record {
  seen = seen;
  stage = replaying left;
  queue = record { maxsize = 100; items = items };
}

-- The stream of a new subscriber who has not read yet, behind these publications and the end-of-stream mark.
abbrev pub ended_stream : OperationRecord → List Text → Stream
ended_stream r ls = receive none (receive_lines ls (open_stream r))
