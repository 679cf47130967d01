-- ===== src/Operations/Manager/Exclusion.antt =====
-- How many operations are active on a resource, and what register_operation makes of it.
use gem_gdc_emulation_enviro.Prelude.{
  Text, ℕ, ◌+◌, ◌≤◌, ◌<◌, text_eq_refl, ◌≡◌, refl, sym, ap, ◌∙◌, subst, [], ◌∷◌, none, some, false,
  ◌&&◌, arith, Bool-cases, Option-cases, inl, inr, text_eq, text_eq_iff, if◌then◌else◌,
}
use gem_gdc_emulation_enviro.Prelude.Dict
use gem_gdc_emulation_enviro.Prelude.Dict.{Dict, values}
use gem_gdc_emulation_enviro.Operations.Model.{
  OperationRecord, OperationType, is_active, new_record, buffer_line,
}
use gem_gdc_emulation_enviro.Operations.World.{
  Environment, World, get_record, set_record, has_log_path, init_log_file,
}
use gem_gdc_emulation_enviro.Operations.Manager.{
  find_conflict, init_line, register_new, register_operation,
}
use gem_gdc_emulation_enviro.Operations.Manager.Views.{
  progresses_of, progresses, progresses-set_record, operations-init_log_file,
  get_record-set_record_self,
}

-- 1 for an active operation on the resource, and 0 for any other.
abbrev pub weight : Text → OperationRecord → ℕ
weight t r = if text_eq r.target_resource t && is_active r.status then 1 else 0

abbrev pub active_on : Text → Dict OperationRecord → ℕ
active_on t [] = 0
active_on t ((k, r) ∷ d) = weight t r + active_on t d

-- No resource has two active operations.
abbrev pub Exclusive : World → Type 0
Exclusive w = (t : Text) → active_on t w.operations ≤ 1

active_on-progresses :
    (t : Text) (d : Dict OperationRecord) → active_on t (progresses_of d) ≡ active_on t d
active_on-progresses t [] = refl
active_on-progresses t ((k, r) ∷ d) = ap (λ (n : ℕ). weight t r + n) (active_on-progresses t d)

-- The count depends on the progress only.
pub active_on_of_progresses :
    (t : Text) (d e : Dict OperationRecord)
    → progresses_of d ≡ progresses_of e
    → active_on t d ≡ active_on t e
active_on_of_progresses t d e h =
    sym (active_on-progresses t d) ∙ ap (active_on t) h ∙ active_on-progresses t e

pub active_on-put_new :
    (t k : Text) (d : Dict OperationRecord) (r : OperationRecord)
    → Dict.get d k ≡ none
    → active_on t (Dict.put d k r) ≡ active_on t d + weight t r
unfolding Dict.get Dict.put
active_on-put_new t k [] r h = omega arith
active_on-put_new t k ((j, s) ∷ d) r h = elim (Bool-cases (text_eq j k)) [
  | inl same ↦ cc (rw same at h)
  | inr other ↦ rw other (omega (arith, active_on-put_new t k d r (rw other at h)))
]

pub active_on-put_old :
    (t k : Text) (d : Dict OperationRecord) (r r' : OperationRecord)
    → Dict.get d k ≡ some r
    → active_on t (Dict.put d k r') + weight t r ≡ active_on t d + weight t r'
unfolding Dict.get Dict.put
active_on-put_old t k [] r r' h = cc
active_on-put_old t k ((j, s) ∷ d) r r' h = elim (Bool-cases (text_eq j k)) [
  | inl same ↦
      let found : some s ≡ some r = rw same at h in
      let e : weight t s ≡ weight t r = ap (weight t) (some_inj found) in rw same (omega arith)
  | inr other ↦ rw other (omega (arith, active_on-put_old t k d r r' (rw other at h)))
]
  where
    some_inj : {a b : OperationRecord} → some a ≡ some b → a ≡ b
    some_inj e = cc

-- The search for a conflict fails exactly where nothing is active on the resource.
pub find_conflict-eq-none :
    (t : Text) (d : Dict OperationRecord) → find_conflict (values d) t ≡ none → active_on t d ≡ 0
unfolding find_conflict
find_conflict-eq-none t [] h = refl
find_conflict-eq-none t ((k, r) ∷ d) h =
    elim (Bool-cases (text_eq r.target_resource t && is_active r.status)) [
      | inl e ↦ cc (rw e at h)
      | inr e ↦ rw e (omega (arith, find_conflict-eq-none t d (rw e at h)))
    ]

pub find_conflict-eq-some :
    (t : Text) (d : Dict OperationRecord) (op : OperationRecord)
    → find_conflict (values d) t ≡ some op
    → 0 < active_on t d
unfolding find_conflict
find_conflict-eq-some t [] op h = cc
find_conflict-eq-some t ((k, r) ∷ d) op h =
    elim (Bool-cases (text_eq r.target_resource t && is_active r.status)) [
      | inl e ↦ rw e (omega arith)
      | inr e ↦ rw e (omega (arith, find_conflict-eq-some t d op (rw e at h)))
    ]

module _ (env : Environment) (id : Text) (ty : OperationType) (target step msg : Text)
    (w : World) where
  -- The record with which the operation starts.
  abbrev pub started : OperationRecord
  started =
      new_record id ty target step msg env.max_log_buffer_lines (env.now w.clock)
        (env.now (w.clock + 1))

  -- Whether or not the id has a log path, the record is in the dict behind a registration.
  pub register_new-progresses :
      progresses (register_new env id ty target step msg w).1
      ≡ progresses_of (Dict.put w.operations id started)
  unfolding register_new
  register_new-progresses =
      let w1 = set_record (record w { clock = w.clock + 2 }) id started in
      let w2 = init_log_file env id (init_line started) w1 in
      let kept = operations-init_log_file env id (init_line started) w1 in
      let found : get_record w2 id ≡ some started =
        ap (λ d. Dict.get d id) kept
        ∙ get_record-set_record_self (record w { clock = w.clock + 2 }) id started in
      elim (Bool-cases (has_log_path env id)) [
        | inl e ↦ rw e (
            progresses-set_record w2 id started (buffer_line (init_line started) started) found
              (unfold buffer_line in refl)
            ∙ ap progresses_of kept)
        | inr e ↦ rw e
      ]

  weight-started : (t : Text) → text_eq target t ≡ false → weight t started ≡ 0
  unfolding new_record
  weight-started t h = rw h

  weight-started-le : (t : Text) → weight t started ≤ 1
  unfolding new_record
  weight-started-le t = ground arith

  pub started_on : weight target started ≡ 1
  unfolding new_record
  started_on = rw text_eq_refl

  active_on-put-started :
      (t : Text)
      → active_on t (Dict.put w.operations id started) ≤ active_on t w.operations + weight t started
  active_on-put-started t = elim (Option-cases (get_record w id)) [
    | inl e ↦ omega (arith, active_on-put_new t id w.operations started e)
    | inr (r, e) ↦ omega (arith, active_on-put_old t id w.operations r started e)
  ]

  register_new-Exclusive :
      Exclusive w
      → active_on target w.operations ≡ 0
      → Exclusive (register_new env id ty target step msg w).1
  register_new-Exclusive h z t =
      let after : active_on t (register_new env id ty target step msg w).1.operations
          ≡ active_on t (Dict.put w.operations id started) =
        active_on_of_progresses t _ _ register_new-progresses in
      elim (Bool-cases (text_eq target t)) [
        | inl same ↦
            let e : active_on t w.operations ≡ 0 =
              subst (λ u. active_on u w.operations ≡ 0) ((text_eq_iff target t).0 same) z in
            omega (arith, after, active_on-put-started t, weight-started-le t, e)
        | inr other ↦ omega (arith, after, active_on-put-started t, weight-started t other, h t)
      ]

  -- A registration, accepted or refused, never makes two operations active on one resource.
  pub register_operation-Exclusive :
      Exclusive w → Exclusive (register_operation env id ty target step msg w).1
  unfolding register_operation
  register_operation-Exclusive h =
      elim (Option-cases (find_conflict (values w.operations) target)) [
        | inl e ↦
            rw (e, register_operation)
              (register_new-Exclusive h (find_conflict-eq-none target w.operations e))
        | inr (op, e) ↦ rw (e, register_operation) h
      ]
