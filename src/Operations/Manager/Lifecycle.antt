-- ===== src/Operations/Manager/Lifecycle.antt =====
-- The end of an operation in OperationManager of api/gem_api/services/operations.py.
use gem_gdc_emulation_enviro.Prelude.{
  Text, ℕ, ◌≡◌, refl, sym, ap, ◌∙◌, none, some, Bool, true, false, not, ◌&&◌, arith, Bool-cases,
  Option-cases, inl, inr, text_eq_refl, if◌then◌else◌,
}
use gem_gdc_emulation_enviro.Prelude.Dict
use gem_gdc_emulation_enviro.Prelude.Dict.{values, get-put}
use gem_gdc_emulation_enviro.Operations.Model.{
  OperationRecord, OperationStatus, cancelled, failed, is_terminal, is_active,
}
use gem_gdc_emulation_enviro.Operations.World.{Environment, World, get_record}
use gem_gdc_emulation_enviro.Operations.Manager.{
  find_conflict, TaskEnd, was_cancelled, finished, died, end_record, is_task, finalize_task,
  cancel_operation,
}
use gem_gdc_emulation_enviro.Operations.Manager.Views.{progress}
use gem_gdc_emulation_enviro.Operations.Manager.Exclusion.{
  weight, Exclusive, active_on_of_progresses, active_on-put_old, find_conflict-eq-some,
}
use gem_gdc_emulation_enviro.Operations.Manager.Changes.{
  Replaces, ended, finalize_record-Replaces, stopped, cancel_active-Replaces,
}
use gem_gdc_emulation_enviro.Operations.Manager.Steps.{
  is_active_of_unfinished, record_behind, ended_final,
}

-- The record at j behind the replacement of the record at k.
after_put :
    (w w' : World) (k j : Text) (r s : OperationRecord)
    → Replaces k r w w'
    → Dict.get (Dict.put w.operations k r) j ≡ some s
    → (s' : OperationRecord) × (get_record w' j ≡ some s') × (progress s' ≡ progress s)
after_put w w' k j r s e g = record_behind (Dict.put w.operations k r) w'.operations j s (sym e) g

put_self :
    (w : World) (k : Text) (r : OperationRecord) → Dict.get (Dict.put w.operations k r) k ≡ some r
put_self w k r = rw (get-put w.operations k k r, text_eq_refl k)

-- The status of the operation at an id.
abbrev pub HasStatus : World → Text → OperationStatus → Type 0
HasStatus w k s = (r : OperationRecord) × (get_record w k ≡ some r) × (r.status ≡ s)

-- The status that stands for an end of a task.
abbrev pub status_of_end : TaskEnd → OperationStatus
status_of_end was_cancelled = cancelled
status_of_end finished = failed
status_of_end (died shown) = failed

end_record-status :
    (k : Text) (end : TaskEnd) (r : OperationRecord)
    → (end_record k end r).status ≡ status_of_end end
unfolding end_record
end_record-status k was_cancelled r = refl
end_record-status k finished r = refl
end_record-status k (died shown) r = refl

module _ (env : Environment) (k : Text) (w : World) (r : OperationRecord)
    (held : get_record w k ≡ some r) where
  -- When the background task of an operation ends, in whatever way, the operation has a final
  -- status behind it: the one that it had if that was final, and otherwise CANCELLED if the task
  -- was cancelled, and FAILED if it came back or died of an exception.
  pub finalize_task_final :
      (task : ℕ) (end : TaskEnd)
      → r.task ≡ some task
      → (r' : OperationRecord) × (get_record (finalize_task env k task end w).1 k ≡ some r')
        × (is_terminal r'.status ≡ true)
        × (r'.status ≡ (if is_terminal r.status then r.status else status_of_end end))
  unfolding finalize_task
  finalize_task_final task end mine = elim (Bool-cases (is_terminal r.status)) [
    | inl t ↦ (r, settled_already t, t, rw t refl)
    | inr f ↦
        let (r', found, same) =
          after_put w (finalize_task env k task end w).1 k k (ended env k w r end)
            (ended env k w r end) (replaces f) (put_self w k (ended env k w r end)) in
        (
          r',
          found,
          ap (λ (p : OperationRecord). is_terminal p.status) same ∙ (ended_final env w k r end).2,
          rw f (ap (λ (p : OperationRecord). p.status) same ∙ end_record-status k end r),
        )
  ]
    where
      guard :
          (b : Bool)
          → is_terminal r.status ≡ b
          → (is_task task r.task && not (is_terminal r.status)) ≡ not b
      guard b e = rw (mine, e) (ground arith)

      settled_already :
          is_terminal r.status ≡ true → get_record (finalize_task env k task end w).1 k ≡ some r
      settled_already t = rw (held, guard true t, finalize_task) held

      replaces :
          is_terminal r.status ≡ false
          → Replaces k (ended env k w r end) w (finalize_task env k task end w).1
      replaces f = rw (held, guard false f, finalize_task) (finalize_record-Replaces env k w r end)

  -- A cancellation leaves the operation with a final status: CANCELLED if it had not ended, and
  -- otherwise the one that it had.
  pub cancel_operation_final :
      (r' : OperationRecord) × (get_record (cancel_operation env k w).1 k ≡ some r')
      × (is_terminal r'.status ≡ true)
      × (r'.status ≡ (if is_terminal r.status then r.status else cancelled))
  unfolding cancel_operation
  cancel_operation_final = elim (Bool-cases (is_terminal r.status)) [
    | inl t ↦ (r, rw (held, t, cancel_operation) held, t, rw t)
    | inr f ↦
        let (r', found, same) =
          after_put w (cancel_operation env k w).1 k k (stopped env k w r) (stopped env k w r)
            (replaces f) (put_self w k (stopped env k w r)) in
        let status : r'.status ≡ cancelled = ap (λ (p : OperationRecord). p.status) same in
        (r', found, rw status, rw (f, status))
  ]
    where
      replaces :
          is_terminal r.status ≡ false
          → Replaces k (stopped env k w r) w (cancel_operation env k w).1
      replaces f = rw (held, f, cancel_operation) (cancel_active-Replaces env k w r)

-- Where at most one operation is active on a resource and the task of that operation ends, the
-- resource is free: the next registration on it finds no conflict.
pub finalize_task_frees :
    (env : Environment) (k : Text) (w : World) (r : OperationRecord) (task : ℕ) (end : TaskEnd)
    → Exclusive w
    → get_record w k ≡ some r
    → r.task ≡ some task
    → is_terminal r.status ≡ false
    → find_conflict (values (finalize_task env k task end w).1.operations) r.target_resource ≡ none
unfolding finalize_task
finalize_task_frees env k w r task end alone held mine f =
    elim (Option-cases (find_conflict (values (finalize_task env k task end w).1.operations) t)) [
      | inl e ↦ e
      | inr (op, e) ↦ absurd (
          omega (
            arith,
            find_conflict-eq-some t (finalize_task env k task end w).1.operations op e,
            active_on_of_progresses t (finalize_task env k task end w).1.operations
                (Dict.put w.operations k r') replaces,
            active_on-put_old t k w.operations r r' held,
            was_active,
            no_more,
            alone t,
          ))
    ]
  where
    t : Text
    t = r.target_resource

    r' : OperationRecord
    r' = ended env k w r end

    guard : (is_task task r.task && not (is_terminal r.status)) ≡ true
    guard = rw (mine, f) (ground arith)

    replaces : Replaces k r' w (finalize_task env k task end w).1
    replaces = rw (held, guard, finalize_task) (finalize_record-Replaces env k w r end)

    was_active : weight t r ≡ 1
    was_active = rw (text_eq_refl t, is_active_of_unfinished r.status f)

    final : (s : OperationStatus) → is_terminal s ≡ true → is_active s ≡ false
    final s h = ground arith

    no_more : weight t r' ≡ 0
    no_more = let e = final r'.status (ended_final env w k r end).2 in ground (arith, e)
