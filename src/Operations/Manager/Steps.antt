-- ===== src/Operations/Manager/Steps.antt =====
-- OperationManager of api/gem_api/services/operations.py as a state machine: its steps and what each
-- of them may change.
pub mod Invariants
use gem_gdc_emulation_enviro.Prelude.{
  Text, ℕ, ◌+◌, ◌≤◌, ◌≡◌, refl, sym, ap, ◌∙◌, subst, Option, some, true, false, not, ◌&&◌, arith,
  Bool-cases, Option-cases, inl, inr, ◌⊎◌, text_eq, text_eq_iff, or_else, is_some,
}
use mathlib.Core.Option
use gem_gdc_emulation_enviro.Prelude.Dict
use gem_gdc_emulation_enviro.Prelude.Dict.{Dict, values, get-put}
use gem_gdc_emulation_enviro.Operations.Model.{
  OperationRecord, OperationStatus, queued, running, OperationType, is_terminal, is_active,
  is_cancelled, cancelled, new_record, DateTime,
}
use gem_gdc_emulation_enviro.Operations.World.{Environment, World, get_record, empty_world}
use gem_gdc_emulation_enviro.Operations.Manager.{
  set_record, none, find_conflict, Update, apply_update, register_new, register_operation,
  update_operation, append_log, attach_task, TaskEnd, was_cancelled, finished, died, end_record,
  is_task, finalize_task, cancel_operation,
}
use gem_gdc_emulation_enviro.Operations.Manager.Views.{
  progress, progresses_of, progresses, get-progresses, append_log-progresses,
}
use gem_gdc_emulation_enviro.Operations.Manager.Exclusion.{
  weight, Exclusive, active_on_of_progresses, active_on-put_old, register_operation-Exclusive,
  started, register_new-progresses,
}
use gem_gdc_emulation_enviro.Operations.Manager.Changes.{
  Replaces, update_operation-Replaces, attach_task-Replaces, ended, finalize_record-Replaces,
  stopped, cancel_active-Replaces,
}

-- The calls of update_operation that the pipelines of services/runner.py make: a message, the start of
-- a command on an operation without a final status, and the end of a pipeline, which is not reported
-- for a cancelled operation. update_operation itself checks nothing.
pub data IsPipelineUpdate (w : World) (k : Text) (u : Update) : Type 0 where
  reports : u.status ≡ none → u.completed ≡ false → IsPipelineUpdate w k u
  begins :
      (r : OperationRecord)
      → get_record w k ≡ some r
      → is_terminal r.status ≡ false
      → u.status ≡ some running
      → u.completed ≡ false
      → IsPipelineUpdate w k u
  ends :
      (r : OperationRecord) (s : OperationStatus)
      → get_record w k ≡ some r
      → is_cancelled r.status ≡ false
      → u.status ≡ some s
      → is_terminal s ≡ true
      → u.completed ≡ true
      → IsPipelineUpdate w k u

pub data Step (env : Environment) (w : World) : World → Type 0 where
  register :
      (k : Text) (ty : OperationType) (target step msg : Text)
      → Step env w (register_operation env k ty target step msg w).1
  attach : (k : Text) (task : ℕ) → Step env w (attach_task k task w)
  log : (k line : Text) → Step env w (append_log env k line w).1
  update :
      (k : Text) (u : Update) → IsPipelineUpdate w k u → Step env w (update_operation env k u w).1
  -- `record.process = process`, and a reading of the clock, by the runner
  tick : Step env w (record w { clock = w.clock + 1 })
  spawn :
      (k : Text) (pid : ℕ) (r : OperationRecord)
      → get_record w k ≡ some r
      → Step env w (set_record w k (record r { process = some pid }))
  finalize : (k : Text) (task : ℕ) (end : TaskEnd) → Step env w (finalize_task env k task end w).1
  cancel : (k : Text) → Step env w (cancel_operation env k w).1

-- The states that steps lead to.
pub data Reach (env : Environment) (w : World) : World → Type 0 where
  here : Reach env w w
  next : {v u : World} → Reach env w v → Step env v u → Reach env w u

pub Reach-trans :
    {env : Environment} {u v w : World} → Reach env u v → Reach env v w → Reach env u w
Reach-trans p here = p
Reach-trans p (next q st) = next (Reach-trans p q) st

-- What a method does to the operations, as far as the invariants see it.
pub data Change (w w' : World) : Type 0 where
  nothing : progresses w' ≡ progresses w → Change w w'
  replaced :
      (k : Text) (r r' : OperationRecord)
      → get_record w k ≡ some r
      → Replaces k r' w w'
      → (r'.operation_id ≡ r.operation_id)
      → (r'.target_resource ≡ r.target_resource)
      → (is_active r'.status ≡ true → is_active r.status ≡ true)
      → (r.status ≡ cancelled → r'.status ≡ cancelled)
      → (is_some r.completed_at ≡ is_terminal r.status
          → is_some r'.completed_at ≡ is_terminal r'.status)
      → Change w w'

pub some_inj : {A : Type 0} {a b : A} → some a ≡ some b → a ≡ b
some_inj e = cc

-- A record behind a step, from equal progress.
pub record_behind :
    (d e : Dict OperationRecord) (k : Text) (r : OperationRecord)
    → progresses_of d ≡ progresses_of e
    → Dict.get d k ≡ some r
    → (s : OperationRecord) × (Dict.get e k ≡ some s) × (progress s ≡ progress r)
record_behind d e k r h g = elim (Option-cases (Dict.get e k)) [
  | inl n ↦ cc (same n)
  | inr (s, n) ↦ (s, n, some_inj (same n))
]
  where
    same :
        {o : Option OperationRecord} → Dict.get e k ≡ o → Option.map progress o ≡ some (progress r)
    same n =
        ap (Option.map progress) (sym n)
        ∙ sym (get-progresses e k)
        ∙ ap (λ x. Dict.get x k) (sym h)
        ∙ get-progresses d k
        ∙ ap (Option.map progress) g

pub is_active_of_unfinished : (s : OperationStatus) → is_terminal s ≡ false → is_active s ≡ true
is_active_of_unfinished queued h = refl
is_active_of_unfinished running h = refl
is_active_of_unfinished _ h = cc

not_active_of_terminal : (s : OperationStatus) → is_terminal s ≡ true → is_active s ≡ true → ⊥
not_active_of_terminal queued h a = cc
not_active_of_terminal running h a = cc
not_active_of_terminal _ h a = cc

module _ (env : Environment) (w : World) (k : Text) where
  attach_task-Change : (task : ℕ) → Change w (attach_task k task w)
  unfolding attach_task
  attach_task-Change task = elim (Option-cases (get_record w k)) [
    | inl e ↦ nothing (rw (e, attach_task))
    | inr (r, e) ↦
        replaced k r (record r { task = some task }) e (attach_task-Replaces k task w r e) refl refl
          (λ h. h) (λ h. h) (λ h. h)
  ]

  module _ (u : Update) (r : OperationRecord) (t1 t2 : DateTime) where
    pub apply_update-fields :
        ((apply_update u t1 t2 r).operation_id ≡ r.operation_id)
        × ((apply_update u t1 t2 r).target_resource ≡ r.target_resource)
        × ((apply_update u t1 t2 r).status ≡ or_else u.status r.status)
    unfolding apply_update
    apply_update-fields = (ground arith, ground arith, ground arith)

    -- The time of completion is set with a final status, and kept without a new one.
    apply_update-settled :
        (s : OperationStatus)
        → or_else u.status r.status ≡ s
        → ((u.completed ≡ true) × (is_terminal s ≡ true))
          ⊎ ((u.completed ≡ false) × (is_terminal s ≡ is_terminal r.status))
        → is_some r.completed_at ≡ is_terminal r.status
        → is_some (apply_update u t1 t2 r).completed_at
          ≡ is_terminal (apply_update u t1 t2 r).status
    unfolding apply_update
    apply_update-settled s e (inl (c, t)) h = rw c (sym (ap is_terminal e ∙ t))
    apply_update-settled s e (inr (c, t)) h = rw c (h ∙ sym (ap is_terminal e ∙ t))

  -- An update, by what it does to the status.
  update_operation-replaced :
      (u : Update) (r : OperationRecord) (s : OperationStatus)
      → get_record w k ≡ some r
      → or_else u.status r.status ≡ s
      → (is_active s ≡ true → is_active r.status ≡ true)
      → (r.status ≡ cancelled → s ≡ cancelled)
      → ((u.completed ≡ true) × (is_terminal s ≡ true))
        ⊎ ((u.completed ≡ false) × (is_terminal s ≡ is_terminal r.status))
      → Change w (update_operation env k u w).1
  update_operation-replaced u r s held e active stays completes =
      let t1 = env.now w.clock in
      let t2 = env.now (w.clock + 1) in
      let fields = apply_update-fields u r t1 t2 in
      let status : (apply_update u t1 t2 r).status ≡ s = fields.2 ∙ e in
      replaced k r (apply_update u t1 t2 r) held (update_operation-Replaces env k u w r held)
        fields.0 fields.1 (λ a. active (sym (ap is_active status) ∙ a)) (λ h. status ∙ stays h)
        (apply_update-settled u r t1 t2 s e completes)

  update_operation-Change :
      (u : Update) → IsPipelineUpdate w k u → Change w (update_operation env k u w).1
  unfolding update_operation
  update_operation-Change u (reports e c) = elim (Option-cases (get_record w k)) [
    | inl absent ↦ nothing (rw (absent, update_operation))
    | inr (r, held) ↦
        update_operation-replaced u r r.status held (rw e refl) (λ a. a) (λ h. h) (inr (c, refl))
  ]
  update_operation-Change u (begins r held f e c) =
      update_operation-replaced u r running held (rw e refl)
        (λ _. is_active_of_unfinished r.status f) (λ h. absurd (cc (ap is_terminal h, f)))
        (inr (c, sym f))
  update_operation-Change u (ends r s held live e t c) =
      update_operation-replaced u r s held (rw e refl) (λ a. absurd (not_active_of_terminal s t a))
        (λ h. absurd (cc (ap is_cancelled h, live))) (inl (c, t))

  pub ended_final :
      (r : OperationRecord) (end : TaskEnd)
      → ((ended env k w r end).operation_id ≡ r.operation_id)
        × ((ended env k w r end).target_resource ≡ r.target_resource)
        × (is_terminal (ended env k w r end).status ≡ true)
        × (is_some (ended env k w r end).completed_at ≡ true)
  unfolding end_record
  ended_final r was_cancelled = (refl, refl, refl, refl)
  ended_final r finished = (refl, refl, refl, refl)
  ended_final r (died shown) = (refl, refl, refl, refl)

  pub finalize_task-Change :
      (task : ℕ) (end : TaskEnd) → Change w (finalize_task env k task end w).1
  unfolding finalize_task
  finalize_task-Change task end = elim (Option-cases (get_record w k)) [
    | inl e ↦ nothing (rw (e, finalize_task))
    | inr (r, e) ↦ elim (Bool-cases (is_task task r.task && not (is_terminal r.status))) [
      | inl t ↦
          let unfinished : is_terminal r.status ≡ false = ground arith in
          let (id, target, final, done) = ended_final r end in
          let replaces : Replaces k (ended env k w r end) w (finalize_task env k task end w).1 =
            rw (e, t, finalize_task) (finalize_record-Replaces env k w r end) in
          replaced k r (ended env k w r end) e replaces id target
            (λ a. absurd (not_active_of_terminal _ final a))
            (λ h. absurd (cc (ap is_terminal h, unfinished))) (λ _. done ∙ sym final)
      | inr f ↦ nothing (rw (e, f, finalize_task))
    ]
  ]

  pub cancel_operation-Change : Change w (cancel_operation env k w).1
  unfolding cancel_operation
  cancel_operation-Change = elim (Option-cases (get_record w k)) [
    | inl e ↦ nothing (rw (e, cancel_operation))
    | inr (r, e) ↦ elim (Bool-cases (is_terminal r.status)) [
      | inl t ↦ nothing (rw (e, t, cancel_operation))
      | inr f ↦
          let replaces : Replaces k (stopped env k w r) w (cancel_operation env k w).1 =
            rw (e, f, cancel_operation) (cancel_active-Replaces env k w r) in
          replaced k r (stopped env k w r) e replaces refl refl (λ a. cc a) (λ h. refl) (λ _. refl)
    ]
  ]

-- A step is a registration or a change of one record at most.
pub Step-cases :
    {env : Environment} {w w' : World}
    → Step env w w'
    → Change w w'
      ⊎ ((k : Text) × (ty : OperationType) × (target : Text) × (step : Text) × (msg : Text) × (w'
            ≡ (register_operation env k ty target step msg w).1))
Step-cases (register k ty target step msg) = inr (k, ty, target, step, msg, refl)
Step-cases {env} {w} (attach k task) = inl (attach_task-Change env w k task)
Step-cases {env} {w} (log k line) = inl (nothing (append_log-progresses env k line w))
Step-cases {env} {w} (update k u p) = inl (update_operation-Change env w k u p)
Step-cases tick = inl (nothing refl)
Step-cases {env} {w} (spawn k pid r held) =
    inl (
      replaced k r (record r { process = some pid }) held refl refl refl (λ a. a) (λ h. h) (λ h. h))
Step-cases {env} {w} (finalize k task end) = inl (finalize_task-Change env w k task end)
Step-cases {env} {w} (cancel k) = inl (cancel_operation-Change env w k)
