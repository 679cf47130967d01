-- ===== src/Operations/Manager/Views.antt =====
-- What each method of OperationManager leaves alone: the progress of an operation is its record
-- without the log lines and the queues of the subscribers.
use gem_gdc_emulation_enviro.Prelude.{
  Text, ◌≡◌, refl, sym, ap, ◌∙◌, [], ◌∷◌, Option, none, some, arith, Bool-cases, Option-cases, inl,
  inr, text_eq, text_eq_iff, text_eq_refl,
}
use mathlib.Core.Path.{ap₂}
use mathlib.Core.Option
use gem_gdc_emulation_enviro.Prelude.Dict
use gem_gdc_emulation_enviro.Prelude.Dict.{Dict, get-put}
use gem_gdc_emulation_enviro.Exceptions.{Outcome, returned, raised}
use gem_gdc_emulation_enviro.Operations.Model.{OperationRecord, buffer_line}
use gem_gdc_emulation_enviro.Operations.World.{
  Environment, World, get_record, set_record, has_log_path, append_log_file, init_log_file,
}
use gem_gdc_emulation_enviro.Operations.Manager.{
  publish_to, publish_at, format_line, clock_after, append_line, append_log, announce_end,
  then_if_returned,
}

abbrev pub progress : OperationRecord → OperationRecord
progress r = record r { log_buffer = []; subscribers = [] }

abbrev pub progresses_of : Dict OperationRecord → Dict OperationRecord
progresses_of [] = []
progresses_of ((k, r) ∷ d) = (k, progress r) ∷ progresses_of d

-- The operations with their progress, in the order of the dict.
abbrev pub progresses : World → Dict OperationRecord
progresses w = progresses_of w.operations

pub get-progresses :
    (d : Dict OperationRecord) (j : Text)
    → Dict.get (progresses_of d) j ≡ Option.map progress (Dict.get d j)
unfolding Dict.get
get-progresses [] j = refl
get-progresses ((k, r) ∷ d) j = ground (arith, get-progresses d j)

-- What the progress at an id says about the record that is held there.
pub record_of_progress :
    (w : World) (j : Text) (p : OperationRecord)
    → Dict.get (progresses w) j ≡ some p
    → (r : OperationRecord) × (get_record w j ≡ some r) × (progress r ≡ p)
record_of_progress w j p h = elim (Option-cases (get_record w j)) [
  | inl e ↦ cc (sym h ∙ get-progresses w.operations j ∙ ap (Option.map progress) e)
  | inr (r, e) ↦
      (r, e, some_inj (ap (Option.map progress) (sym e) ∙ sym (get-progresses w.operations j) ∙ h))
]
  where
    some_inj : {a b : OperationRecord} → some a ≡ some b → a ≡ b
    some_inj e = cc

pub get-put_self :
    (d : Dict OperationRecord) (k : Text) (r : OperationRecord)
    → Dict.get (Dict.put d k r) k ≡ some r
get-put_self d k r = rw (get-put d k k r, text_eq_refl k)

pub get_record-set_record_self :
    (w : World) (k : Text) (r : OperationRecord) → get_record (set_record w k r) k ≡ some r
get_record-set_record_self w k r = rw (get-put w.operations k k r, text_eq_refl k)

-- Writing a record with the same progress changes no progress.
pub progresses-put :
    (d : Dict OperationRecord) (k : Text) (r r' : OperationRecord)
    → Dict.get d k ≡ some r
    → progress r' ≡ progress r
    → progresses_of (Dict.put d k r') ≡ progresses_of d
unfolding Dict.get Dict.put
progresses-put [] k r r' h e = cc
progresses-put ((j, s) ∷ d) k r r' h e = elim (Bool-cases (text_eq j k)) [
  | inl same ↦
      let found : some s ≡ some r = rw same at h in
      let key : j ≡ k = (text_eq_iff j k).0 same in
      let kept : progress r' ≡ progress s = cc in
      rw same (ap₂ (λ (i : Text) (p : OperationRecord). (i, p) ∷ progresses_of d) (sym key) kept)
  | inr other ↦ rw other (ap (λ t. (j, progress s) ∷ t) (progresses-put d k r r' (rw other at h) e))
]

pub progresses-set_record :
    (w : World) (k : Text) (r r' : OperationRecord)
    → get_record w k ≡ some r
    → progress r' ≡ progress r
    → progresses (set_record w k r') ≡ progresses w
progresses-set_record w k r r' h e = progresses-put w.operations k r r' h e

module _ (env : Environment) where
  pub operations-init_log_file :
      (k line : Text) (w : World) → (init_log_file env k line w).operations ≡ w.operations
  unfolding init_log_file
  operations-init_log_file k line w = ground arith

  pub operations-append_log_file :
      (k line : Text) (w : World) → (append_log_file env k line w).operations ≡ w.operations
  unfolding append_log_file
  operations-append_log_file k line w = ground arith

  append_line-progresses :
      (k line : Text) (r : OperationRecord) (w : World)
      → get_record w k ≡ some r
      → progresses (append_line env k line r w).1 ≡ progresses w
  unfolding append_line
  append_line-progresses k line r w h =
      let buffered = buffer_line line r in
      let w1 = set_record w k buffered in
      let w2 = append_log_file env k line w1 in
      let kept = operations-append_log_file k line w1 in
      let found : get_record w2 k ≡ some buffered =
        ap (λ d. Dict.get d k) kept ∙ get_record-set_record_self w k buffered in
      let written = progresses-set_record w k r buffered h (unfold buffer_line in refl) in
      elim (Bool-cases (has_log_path env k)) [
        | inl e ↦ rw e (
            progresses-set_record w2 k buffered (publish_to (some line) buffered) found refl
            ∙ ap progresses_of kept
            ∙ written)
        | inr e ↦ rw e written
      ]

  -- append_log changes the record of no operation but for its log lines and the queues of its
  -- subscribers, whether it raises or not.
  pub append_log-progresses :
      (k line : Text) (w : World) → progresses (append_log env k line w).1 ≡ progresses w
  unfolding append_log
  append_log-progresses k line w = elim (Option-cases (get_record w k)) [
    | inl e ↦ rw (e, append_log)
    | inr (r, e) ↦ elim (Option-cases (format_line (env.now w.clock) line)) [
      | inl f ↦ rw (e, f, append_log)
      | inr (l, f) ↦
          rw (e, f, append_log)
            (append_line-progresses k l r (record w { clock = clock_after line w.clock }) e)
    ]
  ]

  publish_at-progresses :
      (k : Text) (item : Option Text) (w : World) → progresses (publish_at k item w) ≡ progresses w
  publish_at-progresses k item w = elim (Option-cases (get_record w k)) [
    | inl e ↦ rw (e, publish_at)
    | inr (r, e) ↦ rw (e, publish_at) (progresses-set_record w k r (publish_to item r) e refl)
  ]

  -- Nor does announcing the end of an operation.
  pub announce_end-progresses :
      (k line : Text) (w : World) → progresses (announce_end env k line w).1 ≡ progresses w
  unfolding announce_end
  announce_end-progresses k line w =
      then-progresses (append_log env k line w) ∙ append_log-progresses k line w
    where
      then-progresses :
          (m : Outcome (Unit {0}) × World)
          → progresses (then_if_returned m (publish_at k none)).1 ≡ progresses m.1
      then-progresses (returned x, v) = publish_at-progresses k none v
      then-progresses (raised e, v) = refl
