-- ===== src/Operations/Streams.antt =====
-- OperationManager.stream_logs of api/gem_api/services/operations.py: a client that follows the log of
-- an operation. A stream has its own queue, which is its entry in `subscribers` of the record.
pub mod Account
pub mod Ends
use gem_gdc_emulation_enviro.Prelude.{
  Text, codes, ℕ, zero, suc, List, [], ◌∷◌, ◌++◌, map, Option, none, some, Bool, true, false,
  if◌then◌else◌,
}
use gem_gdc_emulation_enviro.Prelude.Strings.{is_member}
use gem_gdc_emulation_enviro.Exceptions.{
  Outcome, returned, raised, http, status_404_not_found, ◌&◌, quoted,
}
use gem_gdc_emulation_enviro.Operations.Subscribers.{Queue, offer}
use gem_gdc_emulation_enviro.Operations.Model.{OperationStatus, is_terminal, OperationRecord}
use gem_gdc_emulation_enviro.Operations.World.{World, get_record}

-- Where the generator stands: in the loop over `seen`, with the lines still to come, in the loop that
-- empties the queue, in the loop that waits for new lines, or behind `finally`.
pub data Stage : Type 0 where
  replaying : List Text → Stage
  draining following closed : Stage

pub record Stream : Type 0 where
  pub seen : List Text
  pub stage : Stage
  pub queue : Queue

-- The generator gives a line to the client, waits in `queue.get()`, or returns.
pub data Progress : Type 0 where
  yielded : Text → Progress
  waiting finished : Progress

-- What a resumption of the generator leaves.
pub record Turn : Type 0 where
  pub stage : Stage
  pub items : List (Option Text)
  pub progress : Progress

-- `while True: line = await queue.get()`
abbrev pub follow : List (Option Text) → Turn
follow [] = record { stage = following; items = []; progress = waiting }
follow (none ∷ items) = record { stage = closed; items = items; progress = finished }
follow (some line ∷ items) = record { stage = following; items = items; progress = yielded line }

-- `while not queue.empty()`
unfoldable pub drain : List Text → List (Option Text) → Turn
unfolding is_member
drain seen [] = record { stage = closed; items = []; progress = finished }
drain seen (none ∷ items) = record { stage = closed; items = items; progress = finished }
drain seen (some line ∷ items) =
    let later = drain seen items in
    if is_member line seen
    then later
    else record { stage = draining; items = items; progress = yielded line }

-- One resumption, with the status that the record has when the loop over `seen` ends.
unfoldable pub turn : OperationStatus → List Text → Stage → List (Option Text) → Turn
unfolding drain
turn status seen (replaying (line ∷ lines)) items = record {
  stage = replaying lines;
  items = items;
  progress = yielded line;
}
turn status seen (replaying []) items =
    if is_terminal status then drain seen items else follow items
turn status seen draining items = drain seen items
turn status seen following items = follow items
turn status seen closed items = record { stage = closed; items = items; progress = finished }

unfoldable pub resume : OperationStatus → Stream → Stream × Progress
unfolding turn
resume status s =
    let t = turn status s.seen s.stage s.queue.items in
    (record s { stage = t.stage; queue = record s.queue { items = t.items } }, t.progress)

-- A new subscriber, with a snapshot of the lines so far.
unfoldable pub open_stream : OperationRecord → Stream
open_stream r = record {
  seen = r.log_buffer;
  stage = replaying r.log_buffer;
  queue = record { maxsize = 100; items = [] };
}

unfoldable pub no_operation_detail : Text → Text
no_operation_detail operation_id = codes "Operation " & quoted operation_id & codes " not found."

unfoldable pub stream_logs : Text → World → Outcome Stream
unfolding open_stream no_operation_detail
stream_logs operation_id w = elim (get_record w operation_id) [
  | none ↦ raised (http status_404_not_found (no_operation_detail operation_id))
  | some r ↦ returned (open_stream r)
]

abbrev pub is_open : Stage → Bool
is_open closed = false
is_open _ = true

-- What a publication means for the stream: a closed one has left the subscribers.
unfoldable pub receive : Option Text → Stream → Stream
unfolding offer
receive item s = if is_open s.stage then record s { queue = offer item s.queue } else s

-- What the client gets, until the generator waits or returns.
unfoldable pub collect : OperationStatus → ℕ → Stream → List Text × Progress
unfolding resume
collect status zero s = ([], waiting)
collect status (suc f) s =
    let t = resume status s in
    elim t.1 [
      | yielded line ↦ (let later = collect status f t.0 in (line ∷ later.0, later.1))
      | waiting ↦ ([], waiting)
      | finished ↦ ([], finished)
    ]
