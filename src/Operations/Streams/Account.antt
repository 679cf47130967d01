-- ===== src/Operations/Streams/Account.antt =====
-- What the client of a stream has got, against what was published.
use gem_gdc_emulation_enviro.Prelude.{
  sym, sym, Text, ◌≡◌, List, [], ◌∷◌, ◌++◌, map, Option, none, some, true, false, ◌⊎◌,
  if◌then◌else◌,
}
use gem_gdc_emulation_enviro.Prelude.Strings.{is_member}
use gem_gdc_emulation_enviro.Operations.Subscribers.{is_full}
use gem_gdc_emulation_enviro.Operations.Model.{is_terminal, OperationStatus, OperationRecord}
use gem_gdc_emulation_enviro.Operations.Streams.{
  Bool, Turn, Stage, replaying, draining, following, closed, Stream, Progress, yielded, resume,
  open_stream, is_open, receive,
}

-- The lines that the snapshot does not hold.
abbrev pub unseen : List Text → List Text → List Text
unseen seen [] = []
unseen seen (l ∷ ls) = if is_member l seen then unseen seen ls else l ∷ unseen seen ls

abbrev pub given : Progress → List Text
given (yielded l) = l ∷ []
given _ = []

-- Whether the operation had ended when the snapshot was through, once that is known.
abbrev pub noted : OperationStatus → Stage → Option Bool → Option Bool
noted status (replaying []) over = some (is_terminal status)
noted status _ over = over

-- The steps of a stream on a record with these lines: what was published to it, what its client got,
-- whether the operation had ended when the snapshot was through, and where the stream stands. No
-- publication finds the queue full.
pub data Reached (r : OperationRecord)
    : List (Option Text) → List Text → Option Bool → Stream → Type 0 where
  opened : Reached r [] [] none (open_stream r)
  published :
      {o : List (Option Text)} {d : List Text} {over : Option Bool} {s : Stream}
      (item : Option Text)
      → Reached r o d over s
      → is_open s.stage ≡ true
      → is_full s.queue ≡ false
      → Reached r (o ++ item ∷ []) d over (receive item s)
  resumed :
      {o : List (Option Text)} {d : List Text} {over : Option Bool} {s : Stream}
      (status : OperationStatus)
      → Reached r o d over s
      → Reached r o (d ++ given (resume status s).1) (noted status s.stage over) (resume status s).0

-- What the client has got, behind the snapshot, of the lines that the stream took from its queue: all of
-- them if the operation ran when the snapshot was through, and otherwise those that are not in it.
pub Since : List Text → Option Bool → List Text → List Text → Type 0
Since seen none taken d = ⊥
Since seen (some false) taken d = d ≡ seen ++ taken
Since seen (some true) taken d = d ≡ seen ++ unseen seen taken

-- What the client has got of the snapshot and of these lines.
pub Delivered : List Text → Stage → Option Bool → List Text → List Text → Type 0
Delivered seen (replaying lines) over taken d = (over ≡ none) × (taken ≡ []) × (d ++ lines ≡ seen)
Delivered seen following over taken d = (over ≡ some false) × Since seen over taken d
Delivered seen draining over taken d = (over ≡ some true) × Since seen over taken d
Delivered seen closed over taken d = Since seen over taken d

-- What was published: the lines taken, and what is queued still. A closed stream has taken everything
-- up to the end-of-stream mark, or everything there was.
pub Published : Stage → List Text → List (Option Text) → List (Option Text) → Type 0
Published closed taken items o =
    (o ≡ map some taken ++ none ∷ items) ⊎ ((o ≡ map some taken) × (items ≡ []))
Published _ taken items o = o ≡ map some taken ++ items

-- The account of a stream: the lines that it took from its queue explain both.
pub record Accounted (seen : List Text) (stage : Stage) (over : Option Bool)
    (items o : List (Option Text)) (d : List Text) : Type 0 where
  pub taken : List Text
  pub delivered : Delivered seen stage over taken d
  pub published : Published stage taken items o

module _ (seen : List Text) (o : List (Option Text)) where
  -- The account behind a turn.
  AccountedBehind : Option Bool → Turn → List Text → Type 0
  AccountedBehind over t d = Accounted seen t.stage over t.items o (d ++ given t.progress)
