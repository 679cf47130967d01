-- ===== src/Operations/Manager/Steps/Invariants.antt =====
-- The invariants of OperationManager of api/gem_api/services/operations.py.
use gem_gdc_emulation_enviro.Prelude.{
  Text, ◌≤◌, ◌≡◌, refl, sym, ◌∙◌, subst, some, arith, Bool-cases, Option-cases, inl, inr, text_eq,
  text_eq_iff, is_some,
}
use gem_gdc_emulation_enviro.Prelude.Dict
use gem_gdc_emulation_enviro.Prelude.Dict.{Dict, values, get-put}
use gem_gdc_emulation_enviro.Operations.Model.{
  OperationRecord, OperationType, is_terminal, new_record,
}
use gem_gdc_emulation_enviro.Operations.World.{Environment, World, get_record, empty_world}
use gem_gdc_emulation_enviro.Operations.Manager.{find_conflict, register_new, register_operation}
use gem_gdc_emulation_enviro.Operations.Manager.Views.{progress, progresses_of, progresses}
use gem_gdc_emulation_enviro.Operations.Manager.Exclusion.{
  weight, Exclusive, active_on_of_progresses, active_on-put_old, register_operation-Exclusive,
  started, register_new-progresses,
}
use gem_gdc_emulation_enviro.Operations.Manager.Steps.{
  Step, Reach, here, next, Change, nothing, replaced, Step-cases, record_behind, some_inj,
}

-- A record stands under its own id, and has a time of completion exactly where its status is final.
abbrev pub IsSettled : Text → OperationRecord → Type 0
IsSettled k r = (r.operation_id ≡ k) × (is_some r.completed_at ≡ is_terminal r.status)

abbrev pub AllSettled : World → Type 0
AllSettled w = (k : Text) (r : OperationRecord) → get_record w k ≡ some r → IsSettled k r

pub record IsConsistent (w : World) : Type 0 where
  pub exclusive : Exclusive w
  pub settled : AllSettled w

IsSettled-of_progress :
    (k : Text) (s r : OperationRecord) → progress s ≡ progress r → IsSettled k s → IsSettled k r
IsSettled-of_progress k s r e h = subst (IsSettled k) e h

AllSettled-of_progresses :
    (w : World) (d : Dict OperationRecord)
    → progresses w ≡ progresses_of d
    → ((k : Text) (r : OperationRecord) → Dict.get d k ≡ some r → IsSettled k r)
    → AllSettled w
AllSettled-of_progresses w d e h k r g =
    let (s, found, same) = record_behind w.operations d k r e g in
    IsSettled-of_progress k s r same (h k s found)

AllSettled-put :
    (w : World) (k : Text) (r : OperationRecord)
    → AllSettled w
    → IsSettled k r
    → (j : Text) (s : OperationRecord) → Dict.get (Dict.put w.operations k r) j ≡ some s
    → IsSettled j s
AllSettled-put w k r h good j s g = elim (Bool-cases (text_eq k j)) [
  | inl same ↦
      let found : some r ≡ some s = rw (get-put w.operations k j r, same) at g in
      subst (λ i. IsSettled i s) ((text_eq_iff k j).0 same)
        (subst (IsSettled k) (some_inj found) good)
  | inr other ↦ h j s (rw (get-put w.operations k j r, other) at g)
]

Change-IsConsistent : {w w' : World} → Change w w' → IsConsistent w → IsConsistent w'
Change-IsConsistent {w} {w'} (nothing e) c = record {
  exclusive = λ t. rw (active_on_of_progresses t w'.operations w.operations e) (c.exclusive t);
  settled = AllSettled-of_progresses w' w.operations e c.settled;
}
Change-IsConsistent {w} {w'} (replaced k r r' held e id target active final completes) c = record {
  exclusive = λ t.
      let lighter : weight t r' ≤ weight t r = rw target (ground arith) in
      omega (
        arith,
        active_on_of_progresses t w'.operations (Dict.put w.operations k r') e,
        active_on-put_old t k w.operations r r' held,
        lighter,
        c.exclusive t,
      );
  settled = AllSettled-of_progresses w' (Dict.put w.operations k r') e (
      AllSettled-put w k r' c.settled
        (id ∙ (c.settled k r held).0, completes (c.settled k r held).1));
}

module _ (env : Environment) (k : Text) (ty : OperationType) (target step msg : Text)
    (w : World) where
  started-IsSettled : IsSettled k (started env k ty target step msg w)
  unfolding new_record
  started-IsSettled = (refl, refl)

  register_operation-AllSettled :
      AllSettled w → AllSettled (register_operation env k ty target step msg w).1
  unfolding register_operation
  register_operation-AllSettled h =
      elim (Option-cases (find_conflict (values w.operations) target)) [
        | inl e ↦
            rw (e, register_operation)
              (AllSettled-of_progresses (register_new env k ty target step msg w).1
                (Dict.put w.operations k (started env k ty target step msg w))
                (register_new-progresses env k ty target step msg w)
                (AllSettled-put w k (started env k ty target step msg w) h started-IsSettled))
        | inr (op, e) ↦ rw (e, register_operation) h
      ]

  register_operation-IsConsistent :
      IsConsistent w → IsConsistent (register_operation env k ty target step msg w).1
  register_operation-IsConsistent c = record {
    exclusive = register_operation-Exclusive env k ty target step msg w c.exclusive;
    settled = register_operation-AllSettled c.settled;
  }

-- Every step of the manager keeps its invariants.
pub Step-IsConsistent :
    {env : Environment} {w w' : World} → Step env w w' → IsConsistent w → IsConsistent w'
Step-IsConsistent {env} {w} st c = elim (Step-cases st) [
  | inl change ↦ Change-IsConsistent change c
  | inr (k, ty, target, step, msg, e) ↦
      subst IsConsistent (sym e) (register_operation-IsConsistent env k ty target step msg w c)
]

empty-IsConsistent : IsConsistent empty_world
unfolding Dict.get
empty-IsConsistent = record { exclusive = λ t. omega arith; settled = λ k r h. cc h }

-- In every state that the manager reaches from its start, by registrations, attached tasks and
-- processes, log lines, readings of the clock, updates, ends of tasks and cancellations in any order: no
-- resource has two active operations, each record stands under its own id, and a record has a time of
-- completion exactly where its status is final. The condition is that update_operation, which checks
-- nothing, is called as the pipelines call it: for a message at any time, with RUNNING only where the
-- status is not a final one, and with `completed` for a final status, given where the operation is not
-- cancelled.
pub Reach-IsConsistent : {env : Environment} {w : World} → Reach env empty_world w → IsConsistent w
Reach-IsConsistent here = empty-IsConsistent
Reach-IsConsistent (next path st) = Step-IsConsistent st (Reach-IsConsistent path)
