-- ===== src/Runner/Keeps.antt =====
-- The record of its operation under the actions of api/gem_api/services/runner.py.
pub mod Commands
use gem_gdc_emulation_enviro.Prelude.{
  Text, ℕ, ◌+◌, ◌≡◌, sym, ap, ◌∙◌, List, [], ◌∷◌, ◌++◌, Option, none, some, Bool, true, false,
  Bool-cases, inl, inr, if◌then◌else◌, or_else, is_empty, ltb, length,
}
use gem_gdc_emulation_enviro.Exceptions.{Exception, Outcome, returned, raised}
use gem_gdc_emulation_enviro.Operations.Model.{OperationRecord}
use gem_gdc_emulation_enviro.Operations.World.{Environment, World, get_record, set_record}
use gem_gdc_emulation_enviro.Operations.Manager.{Update, apply_update, update_operation, append_log}
use gem_gdc_emulation_enviro.Operations.Manager.Views.{
  append_log-progresses, get_record-set_record_self,
}
use gem_gdc_emulation_enviro.Operations.Manager.Steps.{record_behind, apply_update-fields}
use gem_gdc_emulation_enviro.Operations.Manager.Lifecycle.{HasStatus, cancel_operation_final}
use gem_gdc_emulation_enviro.Runner.Along.{
  IsPreorder, Along, Along-bind, Along-then, Along-pure, Along-raise, Along-if, read_output-Along,
}
use gem_gdc_emulation_enviro.Runner.Machine.{
  ProcessEvent, chunk, cancel, Machine, Action, pure, raise, ◌>>=◌, ◌>>◌, call, continue,
  interrupts,
}
use gem_gdc_emulation_enviro.Runner.Execute.{
  log, update, cancelled_meanwhile, log_raw, report_progress, handle_line, handle_lines, flush,
  read_output,
}
use gem_gdc_emulation_enviro.Runner.Output.{buffer_limit, cut_lines, progress_message, text_of_line}

-- The manager holds a record at the id.
abbrev pub IsHeld : Text → World → Type 0
IsHeld k w = (r : OperationRecord) × (get_record w k ≡ some r)

abbrev pub Kept : Text → Machine → Machine → Type 0
Kept k m n = IsHeld k m.world → IsHeld k n.world

Kept-IsPreorder : (k : Text) → IsPreorder (Kept k)
Kept-IsPreorder k = record { same = λ m h. h; composed = λ m n o f g h. g (f h) }

abbrev pub Keeps {ℓ} : {A : Type ℓ} → Text → Action A → Type ℓ
Keeps k a = Along (Kept k) a

pub append_log-keeps_status :
    (env : Environment) (k line : Text) (w : World) (r : OperationRecord)
    → get_record w k ≡ some r
    → HasStatus (append_log env k line w).1 k r.status
append_log-keeps_status env k line w r held =
    let (s, found, same) =
      record_behind w.operations (append_log env k line w).1.operations k r
        (sym (append_log-progresses env k line w)) held in
    (s, found, ap (λ (p : OperationRecord). p.status) same)

pub update_operation-status :
    (env : Environment) (k : Text) (u : Update) (w : World) (r : OperationRecord)
    → get_record w k ≡ some r
    → HasStatus (update_operation env k u w).1 k (or_else u.status r.status)
      × ((update_operation env k u w).0
          ≡ returned (apply_update u (env.now w.clock) (env.now (w.clock + 1)) r))
unfolding update_operation
update_operation-status env k u w r held =
    let t1 = env.now w.clock in
    let t2 = env.now (w.clock + 1) in
    let r' = apply_update u t1 t2 r in
    let w' = record w { clock = if u.completed then w.clock + 2 else w.clock + 1 } in
    let written : (update_operation env k u w).1 ≡ set_record w' k r' =
      rw (held, update_operation) in
    let found : get_record (update_operation env k u w).1 k ≡ some r' =
      ap (λ v. get_record v k) written ∙ get_record-set_record_self w' k r' in
    ((r', found, (apply_update-fields env w k u r t1 t2).2), rw (held, update_operation))

module _ {ℓ κ} {A : Type ℓ} {B : Type κ} (k : Text) where
  pub Keeps-bind :
      (a : Action A) (f : A → Action B) → Keeps k a → ((x : A) → Keeps k (f x)) → Keeps k (a >>= f)
  Keeps-bind a f ka kf = Along-bind (Kept k) (Kept-IsPreorder k) a f ka kf

  pub Keeps-then : (a : Action A) (b : Action B) → Keeps k a → Keeps k b → Keeps k (a >> b)
  Keeps-then a b ka kb = Along-then (Kept k) (Kept-IsPreorder k) a b ka kb

module _ {ℓ} {A : Type ℓ} (k : Text) where
  pub Keeps-pure : (a : A) → Keeps k (pure a)
  Keeps-pure a = Along-pure (Kept k) (Kept-IsPreorder k) a

  pub Keeps-raise : (e : Exception) → Keeps k (raise {A = A} e)
  Keeps-raise e = Along-raise (Kept k) (Kept-IsPreorder k) e

  pub Keeps-if : (b : Bool) (a c : Action A) → Keeps k a → Keeps k c → Keeps k (if b then a else c)
  Keeps-if b a c ka kc = Along-if (Kept k) b a c ka kc

module _ (env : Environment) (k : Text) where
  pub log-Keeps : (line : Text) → Keeps k (log env k line)
  unfolding log call
  log-Keeps line = record {
    at = λ m (r, h).
        let (s, found, _) = append_log-keeps_status env k line m.world r h in (s, found);
  }

  pub update-Keeps : (u : Update) → Keeps k (update env k u)
  unfolding update call
  update-Keeps u =
      Keeps-then k (call (update_operation env k u)) (pure tt)
        (record {
          at = λ m (r, h).
              let (s, found, _) = (update_operation-status env k u m.world r h).0 in (s, found);
        })
        (Keeps-pure k tt)

  pub cancelled_meanwhile-Keeps : Keeps k (cancelled_meanwhile env k)
  unfolding cancelled_meanwhile
  cancelled_meanwhile-Keeps = record {
    at = λ m (r, h).
        let (s, found, _, _) = cancel_operation_final env k m.world r h in
        elim (Bool-cases (interrupts env (get_record m.world k))) [
          | inl e ↦ rw e (s, found)
          | inr e ↦ rw e (s, found)
        ];
  }

  pub read_output-Keeps :
      (events : List ProcessEvent) (buffer : List ℕ) → Keeps k (read_output env k events buffer)
  read_output-Keeps =
      read_output-Along env k (Kept k) (Kept-IsPreorder k) log-Keeps (λ message. update-Keeps _)
        cancelled_meanwhile-Keeps
