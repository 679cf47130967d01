-- ===== src/Operations/Manager/Refusals.antt =====
-- The calls that OperationManager refuses, and what they leave behind.
use gem_gdc_emulation_enviro.Prelude.{
  Text, ◌≤◌, ◌≡◌, ◌≢◌, ◌↔◌, refl, sym, ap, ◌∙◌, [], ◌∷◌, List, none, some, true, false, ◌&&◌, arith,
  Bool-cases, Option-cases, inl, inr, text_eq, text_eq_iff,
}
use mathlib.Core.List.{Memᴰ}
use gem_gdc_emulation_enviro.Prelude.Dict
use gem_gdc_emulation_enviro.Prelude.Dict.{Dict, values}
use gem_gdc_emulation_enviro.Exceptions.{
  Outcome, raised, http, status_400_bad_request, status_409_conflict,
}
use gem_gdc_emulation_enviro.Operations.Model.{
  OperationRecord, OperationType, is_terminal, is_active,
}
use gem_gdc_emulation_enviro.Operations.World.{
  Environment, World, get_record, has_log_path, invalid_id_detail,
}
use gem_gdc_emulation_enviro.Operations.Manager.{
  find_conflict, conflict_detail, register_new, register_operation, cancel_operation,
}
use gem_gdc_emulation_enviro.Operations.Manager.Exclusion.{
  active_on, active_on_of_progresses, active_on-put_new, active_on-put_old, find_conflict-eq-none,
  register_new-progresses, started, started_on, weight,
}
use gem_gdc_emulation_enviro.Operations.Manager.Lifecycle.{cancel_operation_final}

-- An operation that is active on a resource.
pub record IsBusy (ops : List OperationRecord) (target : Text) : Type 0 where
  pub op : OperationRecord
  pub held : Memᴰ op ops
  pub on : op.target_resource ≡ target
  pub active : is_active op.status ≡ true

find_conflict_sound :
    (ops : List OperationRecord) (target : Text) (op : OperationRecord)
    → find_conflict ops target ≡ some op
    → IsBusy ops target
unfolding find_conflict
find_conflict_sound [] target op h = cc
find_conflict_sound (r ∷ ops) target op h =
    elim (Bool-cases (text_eq r.target_resource target && is_active r.status)) [
      | inl e ↦ record {
        op = r;
        held = Memᴰ.head refl;
        on = (text_eq_iff r.target_resource target).0 (ground arith);
        active = ground arith;
      }
      | inr e ↦
          let b = find_conflict_sound ops target op (rw e at h) in
          record { op = b.op; held = Memᴰ.tail b.held; on = b.on; active = b.active }
    ]

find_conflict_complete :
    (ops : List OperationRecord) (target : Text) (op : OperationRecord)
    → Memᴰ op ops
    → op.target_resource ≡ target
    → is_active op.status ≡ true
    → find_conflict ops target ≢ none
unfolding find_conflict
find_conflict_complete [] target op m on active h = elim m [ ]
find_conflict_complete (r ∷ ops) target op (Memᴰ.head e) on active h =
    let same : text_eq r.target_resource target ≡ true =
      (text_eq_iff r.target_resource target).1
        (ap (λ (p : OperationRecord). p.target_resource) (sym e) ∙ on) in
    let busy : is_active r.status ≡ true =
      ap (λ (p : OperationRecord). is_active p.status) (sym e) ∙ active in
    cc (rw (same, busy) at h)
find_conflict_complete (r ∷ ops) target op (Memᴰ.tail m) on active h =
    elim (Bool-cases (text_eq r.target_resource target && is_active r.status)) [
      | inl e ↦ cc (rw e at h)
      | inr e ↦ find_conflict_complete ops target op m on active (rw e at h)
    ]

weight_le_active_on :
    (t k : Text) (d : Dict OperationRecord) (r : OperationRecord)
    → Dict.get d k ≡ some r
    → weight t r ≤ active_on t d
unfolding Dict.get
weight_le_active_on t k [] r h = cc
weight_le_active_on t k ((j, s) ∷ d) r h = elim (Bool-cases (text_eq j k)) [
  | inl e ↦
      let one : s ≡ r = some_inj (rw e at h) in
      let same : weight t s ≡ weight t r = ap (weight t) one in omega (arith, same)
  | inr e ↦ omega (arith, weight_le_active_on t k d r (rw e at h))
]
  where
    some_inj : {a b : OperationRecord} → some a ≡ some b → a ≡ b
    some_inj e = cc

settled_cancel :
    (env : Environment) (k : Text) (w : World) (r : OperationRecord)
    → get_record w k ≡ some r
    → is_terminal r.status ≡ true
    → (cancel_operation env k w).1 ≡ w
unfolding cancel_operation
settled_cancel env k w r held t = rw (held, t, cancel_operation)

module _ (env : Environment) (k : Text) (ty : OperationType) (target step msg : Text)
    (w : World) where
  -- A registration that nothing blocks raises no 409.
  register_new-not_409 :
      (detail : Text)
      → (register_new env k ty target step msg w).0 ≢ raised (http status_409_conflict detail)
  unfolding register_new
  register_new-not_409 detail = elim (Bool-cases (has_log_path env k)) [
    | inl e ↦ rw e (λ h. cc h)
    | inr e ↦ rw e (λ h. not_409 h)
  ]
    where
      not_409 :
          {d : Text}
          → ◌≡◌ {A = Outcome OperationRecord}
              (raised (http status_400_bad_request d))
              (raised (http status_409_conflict detail))
          → ⊥
      not_409 h = ground arith

  -- register_operation raises 409 exactly where an operation is active on the resource, and then it
  -- changes nothing.
  pub register_operation_conflict_iff : IsBusy (values w.operations) target ↔ (
      (detail : Text) × (register_operation env k ty target step msg w
        ≡ (raised (http status_409_conflict detail), w)))
  unfolding register_operation
  register_operation_conflict_iff = (forwards, backwards)
    where
      forwards :
          IsBusy (values w.operations) target
          → (detail : Text) × (register_operation env k ty target step msg w
              ≡ (raised (http status_409_conflict detail), w))
      forwards b = elim (Option-cases (find_conflict (values w.operations) target)) [
        | inl e ↦
            absurd (find_conflict_complete (values w.operations) target b.op b.held b.on b.active e)
        | inr (op, e) ↦ (conflict_detail op target, rw (e, register_operation))
      ]

      backwards :
          ((detail : Text) × (register_operation env k ty target step msg w
              ≡ (raised (http status_409_conflict detail), w)))
          → IsBusy (values w.operations) target
      backwards (detail, h) = elim (Option-cases (find_conflict (values w.operations) target)) [
        | inl e ↦ absurd (
            register_new-not_409 detail
              (ap (λ (p : Outcome OperationRecord × World). p.0) (rw (e, register_operation) at h)))
        | inr (op, e) ↦ find_conflict_sound (values w.operations) target op e
      ]

  -- A registration on a free resource under an id without a log path raises 400, but its record
  -- stays: from then on a registration on the same resource finds a conflict.
  pub register_operation_locks :
      has_log_path env k ≡ false
      → find_conflict (values w.operations) target ≡ none
      → ((register_operation env k ty target step msg w).0
          ≡ raised (http status_400_bad_request (invalid_id_detail k)))
        × (find_conflict
              (values (register_operation env k ty target step msg w).1.operations)
              target
            ≢ none)
  unfolding register_operation
  register_operation_locks bad free =
      (rw (free, register_operation) refused, rw (free, register_operation) locked)
    where
      refused :
          (register_new env k ty target step msg w).0
          ≡ raised (http status_400_bad_request (invalid_id_detail k))
      refused = rw (bad, register_new)

      locked :
          find_conflict (values (register_new env k ty target step msg w).1.operations) target
          ≢ none
      locked e =
          let r = started env k ty target step msg w in
          let w' = (register_new env k ty target step msg w).1 in
          let none_active = find_conflict-eq-none target w'.operations e in
          let counted =
            active_on_of_progresses target w'.operations (Dict.put w.operations k r)
              (register_new-progresses env k ty target step msg w) in
          let one = started_on env k ty target step msg w in
          elim (Option-cases (get_record w k)) [
            | inl g ↦
                omega
                  (arith, none_active, counted, one, active_on-put_new target k w.operations r g)
            | inr (old, g) ↦ omega (
              arith,
              none_active,
              counted,
              one,
              active_on-put_old target k w.operations old r g,
              find_conflict-eq-none target w.operations free,
              weight_of_none old g,
            )
          ]
        where
          weight_of_none :
              (old : OperationRecord) → get_record w k ≡ some old → weight target old ≡ 0
          weight_of_none old g = omega (
            arith,
            active_on-put_old target k w.operations old old g,
            weight_le_active_on target k w.operations old g,
            find_conflict-eq-none target w.operations free,
          )

-- A second cancellation changes nothing.
pub cancel_operation_twice :
    (env : Environment) (k : Text) (w : World) (r : OperationRecord)
    → get_record w k ≡ some r
    → (cancel_operation env k (cancel_operation env k w).1).1 ≡ (cancel_operation env k w).1
unfolding cancel_operation
cancel_operation_twice env k w r held =
    let (r', found, final, _) = cancel_operation_final env k w r held in
    settled_cancel env k (cancel_operation env k w).1 r' found final
