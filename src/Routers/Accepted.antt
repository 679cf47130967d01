-- ===== src/Routers/Accepted.antt =====
-- What the handlers under api/gem_api/routers do when they accept a request, and when they refuse it.
use gem_gdc_emulation_enviro.Prelude.{
  Text, ℕ, ◌≡◌, ◌∙◌, true, subst, refl, sym, ap, [], ◌∷◌, ◌++◌, length, some, Bool-cases,
  Option-cases, inl, inr,
}
use gem_gdc_emulation_enviro.Exceptions.{Outcome, returned, raised}
use gem_gdc_emulation_enviro.Operations.Model.{
  OperationRecord, OperationAcceptedResponse, OperationType, queued, cancelled, is_cancelled,
}
use gem_gdc_emulation_enviro.Operations.World.{Environment, World, get_record, has_log_path}
use gem_gdc_emulation_enviro.Operations.Manager.{
  register_operation, register_new, attach_task, find_conflict,
}
use gem_gdc_emulation_enviro.Operations.Manager.Views.{get-put_self, get_record-set_record_self}
use gem_gdc_emulation_enviro.Prelude.Dict.{values}
use gem_gdc_emulation_enviro.Runner.Pipelines.{
  Pipeline, build_cluster, teardown_cluster, build_workstation, teardown_workstation,
  build_edge_router, teardown_edge_router, run_pipeline,
}
use gem_gdc_emulation_enviro.Operations.Manager.Lifecycle.{cancel_operation_final}
use gem_gdc_emulation_enviro.Runner.Machine.{Machine, is_over}
use gem_gdc_emulation_enviro.Runner.Ends.{IsEnd}
use gem_gdc_emulation_enviro.Runner.Ends.Pipelines.{run_pipeline-IsEnd, run_pipeline_over}
use gem_gdc_emulation_enviro.Runner.Pipelines.Common.{Setup}
use gem_gdc_emulation_enviro.Routers.{
  cancel_operation, Api, Start, accept, start_operation, create_cluster, delete_cluster,
  create_workstation, delete_workstation, create_edge_router, delete_edge_router, handle,
}

-- A handler has accepted a request: one task more, which runs the pipeline of this request under the
-- id that the response names, and the manager holds a queued record for it with the task.
pub record IsAccepted (p : Pipeline) (api after : Api) (response : OperationAcceptedResponse)
    : Type 0 where
  pub spawned : after.tasks ≡ api.tasks ++ (response.operation_id, p) ∷ []
  pub op : OperationRecord
  pub held : get_record after.world response.operation_id ≡ some op
  pub task : op.task ≡ some (length api.tasks)
  pub fresh : op.status ≡ queued
  pub told : response.status ≡ queued
  pub target : response.target_resource ≡ some op.target_resource

-- What a handler leaves behind.
abbrev pub Answers : Pipeline → Api → Outcome OperationAcceptedResponse × Api → Type 0
Answers p api (returned response, after) = IsAccepted p api after response
Answers p api (raised e, after) = after.tasks ≡ api.tasks

-- What a registration that returns has put in the dict.
Registered : Text → Text → Outcome OperationRecord × World → Type 0
Registered k target (returned r, w) =
    (get_record w k ≡ some r) × (r.status ≡ queued) × (r.target_resource ≡ target)
Registered k target (raised e, w) = Unit {0}

module _ (env : Environment) where
  register_operation-Registered :
      (k : Text) (ty : OperationType) (target step msg : Text) (w : World)
      → Registered k target (register_operation env k ty target step msg w)
  unfolding register_operation Registered
  register_operation-Registered k ty target step msg w =
      elim (Option-cases (find_conflict (values w.operations) target)) [
        | inl free ↦
            rw (free, register_operation)
              (elim (Bool-cases (has_log_path env k)) [
                | inl good ↦ rw (good, register_new) (get-put_self _ k _, refl, refl)
                | inr bad ↦ rw (bad, register_new) tt
              ])
        | inr (op, e) ↦ rw (e, register_operation) tt
      ]

  attach_held :
      (k : Text) (task : ℕ) (w : World) (r : OperationRecord)
      → get_record w k ≡ some r
      → get_record (attach_task k task w) k ≡ some (record r { task = some task })
  unfolding attach_task
  attach_held k task w r held =
      rw (held, attach_task) (get_record-set_record_self w k (record r { task = some task }))

  accept-Answers :
      (s : Start) (p : Pipeline) (api : Api) (o : Outcome OperationRecord × World)
      → Registered s.operation_id s.target_resource o
      → Answers p api (accept s p api.tasks o)
  unfolding accept Registered
  accept-Answers s p api (raised e, w) done = refl
  accept-Answers s p api (returned r, w) (held, fresh, target) = record {
    spawned = refl;
    op = record r { task = some (length api.tasks) };
    held = attach_held s.operation_id (length api.tasks) w r held;
    task = refl;
    fresh = fresh;
    told = fresh;
    target = ap some (sym target);
  }

  start_operation-Answers :
      (s : Start) (p : Pipeline) (api : Api) → Answers p api (start_operation env s p api)
  unfolding start_operation
  start_operation-Answers s p api =
      accept-Answers s p api
        (register_operation env s.operation_id s.operation_type s.target_resource s.initial_step
          s.initial_message api.world)
        (register_operation-Registered s.operation_id s.operation_type s.target_resource
          s.initial_step s.initial_message api.world)

  -- A create or delete handler that returns a response has made one task, which runs the pipeline of
  -- its request under the operation id of the response; the manager holds a queued record at that id,
  -- with this task and the target resource of the response. A handler that raises makes no task.
  pub handle-Answers : (p : Pipeline) (api : Api) → Answers p api (handle env p api)
  unfolding create_cluster delete_cluster create_workstation delete_workstation create_edge_router
      delete_edge_router
  handle-Answers (build_cluster request) api = start_operation-Answers _ (build_cluster request) api
  handle-Answers (teardown_cluster request) api =
      start_operation-Answers _ (teardown_cluster request) api
  handle-Answers (build_workstation request) api =
      start_operation-Answers _ (build_workstation request) api
  handle-Answers (teardown_workstation request) api =
      start_operation-Answers _ (teardown_workstation request) api
  handle-Answers (build_edge_router request) api =
      start_operation-Answers _ (build_edge_router request) api
  handle-Answers (teardown_edge_router request) api =
      start_operation-Answers _ (teardown_edge_router request) api

-- An accepted request comes to an end: if its pipeline runs from what the handler left, whatever its
-- commands do, then it leaves the operation of the response in a final status, or it ends in
-- CancelledError.
pub handle_ends :
    (s : Setup) (p : Pipeline) (api after : Api) (response : OperationAcceptedResponse)
    (m : Machine)
    → handle s.readings p api ≡ (returned response, after)
    → m.world ≡ after.world
    → IsEnd response.operation_id (run_pipeline s response.operation_id p m)
handle_ends s p api after response m accepted here =
    let accepting : IsAccepted p api after response =
      subst (Answers p api) accepted (handle-Answers s.readings p api) in
    run_pipeline-IsEnd s response.operation_id p m
      (accepting.op, ap (λ w. get_record w response.operation_id) here ∙ accepting.held)

-- A user who cancels an accepted operation before its task starts keeps it from doing anything: the
-- pipeline starts no command and changes nothing.
pub cancelled_before_start :
    (s : Setup) (p : Pipeline) (api after : Api) (response : OperationAcceptedResponse)
    (m : Machine)
    → handle s.readings p api ≡ (returned response, after)
    → m.world ≡ (cancel_operation s.readings response.operation_id after).1.world
    → (run_pipeline s response.operation_id p m).1 ≡ m
unfolding cancel_operation
cancelled_before_start s p api after response m accepted here =
    let accepting : IsAccepted p api after response =
      subst (Answers p api) accepted (handle-Answers s.readings p api) in
    let (r, found, _, status) =
      cancel_operation_final s.readings response.operation_id after.world accepting.op
        accepting.held in
    let was_cancelled : r.status ≡ cancelled = rw accepting.fresh at status in
    let over : is_over (get_record m.world response.operation_id) ≡ true =
      ap (λ w. is_over (get_record w response.operation_id)) here
      ∙ ap is_over found
      ∙ ap is_cancelled was_cancelled in
    run_pipeline_over s response.operation_id p m over
