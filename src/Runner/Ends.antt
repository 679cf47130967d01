-- ===== src/Runner/Ends.antt =====
-- How a pipeline of api/gem_api/services/runner.py ends.
pub mod Pipelines
use gem_gdc_emulation_enviro.Prelude.{
  Text, codes, List, [], ◌∷◌, ◌≡◌, refl, sym, ap, ◌∙◌, Bool, true, false, Bool-cases, Option, none,
  some, inl, inr, if◌then◌else◌, ◌+◌, or_else, arith, subst,
}
use gem_gdc_emulation_enviro.Exceptions.{
  ◌&◌, Exception, http, attribute_error, cancelled_error, other_error, Outcome, returned, raised,
}
use gem_gdc_emulation_enviro.Operations.Model.{
  OperationStatus, succeeded, failed, is_terminal, is_cancelled, OperationRecord, stamp,
}
use gem_gdc_emulation_enviro.Operations.World.{Environment, World, get_record}
use gem_gdc_emulation_enviro.Operations.Manager.{Update, update_operation, append_log}
use gem_gdc_emulation_enviro.Operations.Manager.Lifecycle.{HasStatus}
use gem_gdc_emulation_enviro.Runner.Machine.{
  Machine, Action, continue, in_world, pure, raise, ◌>>=◌, ◌>>◌, call, is_over,
}
use gem_gdc_emulation_enviro.Runner.Execute.{
  log, update, log_completion_line, finalize_pipeline, fail_pipeline, recover, guarded,
  execute_command, mock_step,
}
use gem_gdc_emulation_enviro.Runner.Keeps.{
  IsHeld, Keeps, Keeps-raise, append_log-keeps_status, update_operation-status,
}
use gem_gdc_emulation_enviro.Runner.Keeps.Commands.{run_steps-Keeps, run_mock_steps-Keeps}
use gem_gdc_emulation_enviro.Runner.Pipelines.Common.{Step, MockStep, run_steps, run_mock_steps}

-- The record at k is there, in a status that is final.
abbrev pub HasEnded : Text → World → Type 0
HasEnded k w = (s : OperationStatus) × HasStatus w k s × (is_terminal s ≡ true)

-- What a pipeline leaves: an operation that has ended, or CancelledError.
abbrev pub IsEnd : Text → Outcome (Unit {0}) × Machine → Type 0
IsEnd k (returned x, m) = HasEnded k m.world
IsEnd k (raised e, m) = e ≡ cancelled_error

-- The operation has ended, or there is an exception and the record is there still.
Settles : Text → Outcome (Unit {0}) × Machine → Type 0
Settles k (returned x, m) = HasEnded k m.world
Settles k (raised e, m) = IsHeld k m.world

ended-Settles : (k : Text) (o : Outcome (Unit {0}) × Machine) → HasEnded k o.1.world → Settles k o
unfolding Settles
ended-Settles k (returned x, m) ended = ended
ended-Settles k (raised e, m) (s, (r, held, same), final) = (r, held)

cancelled_is_terminal : (s : OperationStatus) → is_cancelled s ≡ true → is_terminal s ≡ true
cancelled_is_terminal s e = ground arith

over-HasEnded :
    (k : Text) (m : Machine)
    → IsHeld k m.world
    → is_over (get_record m.world k) ≡ true
    → HasEnded k m.world
over-HasEnded k m (r, held) over =
    (r.status, (r, held, refl), cancelled_is_terminal r.status (rw (sym (ap is_over held)) over))

module _ (env : Environment) (k : Text) where
  updated : Update → Machine → Machine
  updated u m = record m { world = (update_operation env k u m.world).1 }

  update_lem :
      (u : Update) (m : Machine) → IsHeld k m.world → update env k u m ≡ (returned tt, updated u m)
  unfolding update ◌>>◌ ◌>>=◌ call updated
  update_lem u m (r, held) =
      let (_, back) = update_operation-status env k u m.world r held in
      ap
        (λ o.
          continue (in_world (o, (update_operation env k u m.world).1) m)
            (λ _. pure {A = Unit {0}} tt))
        back

  updated-HasEnded :
      (u : Update) (s : OperationStatus) (m : Machine)
      → u.status ≡ some s
      → is_terminal s ≡ true
      → IsHeld k m.world
      → HasEnded k (updated u m).world
  unfolding updated
  updated-HasEnded u s m e final (r, held) =
      let (status, _) = update_operation-status env k u m.world r held in
      (
        s,
        subst
            (λ (o : Option OperationStatus).
              HasStatus (update_operation env k u m.world).1 k (or_else o r.status))
            e status,
        final,
      )

  update-leaves :
      (u : Update) (s : OperationStatus) (m : Machine)
      → u.status ≡ some s
      → is_terminal s ≡ true
      → IsHeld k m.world
      → IsEnd k (update env k u m)
  update-leaves u s m e final h = rw (update_lem u m h) (updated-HasEnded u s m e final h)

  log_completion-HasEnded :
      (b : Bool) (m : Machine)
      → HasEnded k m.world
      → HasEnded k ((if b then log_completion_line env k else pure tt) m).1.world
  unfolding log_completion_line log call
  log_completion-HasEnded true m (s, (r, held, same), final) =
      let w = record m.world { clock = m.world.clock + 1 } in
      let line =
        codes "["
        & stamp (env.now m.world.clock)
        & codes "] Cluster build completed successfully." in
      (
        s,
        subst (λ t. HasStatus (append_log env k line w).1 k t) same
            (append_log-keeps_status env k line w r held),
        final,
      )
  log_completion-HasEnded false m h = h

  fail_pipeline-IsEnd :
      (label : Text) (e : Exception) (m : Machine)
      → IsHeld k m.world
      → IsEnd k (fail_pipeline env k label e m)
  unfolding fail_pipeline
  fail_pipeline-IsEnd label e m h = elim (Bool-cases (is_over (get_record m.world k))) [
    | inl over ↦ rw over (over-HasEnded k m h over)
    | inr live ↦ rw live (update-leaves _ failed m refl refl h)
  ]

  finalize_pipeline-Settles :
      (message : Text) (b : Bool) (m : Machine)
      → IsHeld k m.world
      → Settles k (finalize_pipeline env k message b m)
  unfolding finalize_pipeline ◌>>◌ ◌>>=◌ Settles
  finalize_pipeline-Settles message b m h = elim (Bool-cases (is_over (get_record m.world k))) [
    | inl over ↦ rw over (over-HasEnded k m h over)
    | inr live ↦
        rw (live, update_lem _ m h)
          (ended-Settles k _
            (log_completion-HasEnded b _ (updated-HasEnded _ succeeded m refl refl h)))
  ]

  recover_raised :
      (label : Text) (e : Exception) (m : Machine)
      → IsHeld k m.world
      → IsEnd k (recover env k label (raised e, m))
  unfolding recover
  recover_raised label cancelled_error m h = refl
  recover_raised label (http code detail) m h = fail_pipeline-IsEnd label (http code detail) m h
  recover_raised label attribute_error m h = fail_pipeline-IsEnd label attribute_error m h
  recover_raised label (other_error name shown) m h =
      fail_pipeline-IsEnd label (other_error name shown) m h

  recover_settled :
      (label : Text) (o : Outcome (Unit {0}) × Machine)
      → Settles k o
      → IsEnd k (recover env k label o)
  unfolding recover Settles
  recover_settled label (returned x, m) ended = ended
  recover_settled label (raised e, m) h = recover_raised label e m h

  recover_finalize :
      (label message : Text) (b : Bool) (o : Outcome (Unit {0}) × Machine)
      → IsHeld k o.1.world
      → IsEnd k (recover env k label (continue o λ _. finalize_pipeline env k message b))
  recover_finalize label message b (returned x, m) h =
      recover_settled label (finalize_pipeline env k message b m)
        (finalize_pipeline-Settles message b m h)
  recover_finalize label message b (raised e, m) h = recover_raised label e m h

  pub guarded-IsEnd :
      (label message : Text) (b : Bool) (steps : Action (Unit {0})) (m : Machine)
      → Keeps k steps
      → IsHeld k m.world
      → IsEnd k (guarded env k label (steps >> finalize_pipeline env k message b) m)
  unfolding guarded ◌>>◌ ◌>>=◌
  guarded-IsEnd label message b steps m ks h =
      recover_finalize label message b (steps m) (ks.at m h)

  pub recover_idle :
      (label : Text) (o : Outcome (Unit {0}) × Machine)
      → is_over (get_record o.1.world k) ≡ true
      → (recover env k label o).1 ≡ o.1
  unfolding recover fail_pipeline
  recover_idle label (returned x, m) over = refl
  recover_idle label (raised cancelled_error, m) over = refl
  recover_idle label (raised (http code detail), m) over = rw over refl
  recover_idle label (raised attribute_error, m) over = rw over refl
  recover_idle label (raised (other_error name shown), m) over = rw over refl

  continue_idle :
      (message : Text) (b : Bool) (o : Outcome (Unit {0}) × Machine)
      → is_over (get_record o.1.world k) ≡ true
      → (continue o λ _. finalize_pipeline env k message b).1 ≡ o.1
  unfolding finalize_pipeline
  continue_idle message b (returned x, m) over = rw over refl
  continue_idle message b (raised e, m) over = refl

  pub guarded_idle :
      (label message : Text) (b : Bool) (steps : Action (Unit {0})) (m : Machine)
      → (steps m).1 ≡ m
      → is_over (get_record m.world k) ≡ true
      → (guarded env k label (steps >> finalize_pipeline env k message b) m).1 ≡ m
  unfolding guarded ◌>>◌ ◌>>=◌
  guarded_idle label message b steps m idle over =
      let o = continue (steps m) (λ _. finalize_pipeline env k message b) in
      let same : o.1 ≡ m =
        continue_idle message b (steps m)
          (subst (λ (n : Machine). is_over (get_record n.world k) ≡ true) (sym idle) over)
        ∙ idle in
      recover_idle label o
        (subst (λ (n : Machine). is_over (get_record n.world k) ≡ true) (sym same) over)
      ∙ same

  pub run_steps_idle :
      (steps : List Step) (m : Machine)
      → is_over (get_record m.world k) ≡ true
      → run_steps env k steps m ≡ (returned tt, m)
  unfolding run_steps ◌>>◌ ◌>>=◌ execute_command
  run_steps_idle [] m over = refl
  run_steps_idle (s ∷ steps) m over = rw over (run_steps_idle steps m over)

  pub run_mock_steps_idle :
      (steps : List MockStep) (m : Machine)
      → is_over (get_record m.world k) ≡ true
      → run_mock_steps env k steps m ≡ (returned tt, m)
  unfolding run_mock_steps ◌>>◌ ◌>>=◌ mock_step
  run_mock_steps_idle [] m over = refl
  run_mock_steps_idle (s ∷ steps) m over = rw over (run_mock_steps_idle steps m over)
