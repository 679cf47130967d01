-- ===== src/Runner/Ends/Pipelines.antt =====
-- The six pipelines of api/gem_api/services/runner.py, from start to end.
use gem_gdc_emulation_enviro.Prelude.{
  Text, List, ◌≡◌, refl, ap, Bool, true, false, Option, if◌then◌else◌,
}
use gem_gdc_emulation_enviro.Exceptions.{Outcome, returned, raised}
use gem_gdc_emulation_enviro.Operations.World.{get_record}
use gem_gdc_emulation_enviro.Requests.{ClusterCreateRequest}
use gem_gdc_emulation_enviro.Runner.Machine.{Machine, Action, is_over}
use gem_gdc_emulation_enviro.Runner.Keeps.{IsHeld, Keeps, Keeps-if, Keeps-raise}
use gem_gdc_emulation_enviro.Runner.Keeps.Commands.{run_steps-Keeps, run_mock_steps-Keeps}
use gem_gdc_emulation_enviro.Runner.Ends.{
  IsEnd, guarded-IsEnd, guarded_idle, run_steps_idle, run_mock_steps_idle,
}
use gem_gdc_emulation_enviro.Runner.Pipelines.{
  Pipeline, build_cluster, teardown_cluster, build_workstation, teardown_workstation,
  build_edge_router, teardown_edge_router, run_pipeline,
}
use gem_gdc_emulation_enviro.Runner.Pipelines.Common.{
  Setup, Step, MockStep, run_steps, run_mock_steps, is_mock_enabled,
}
use gem_gdc_emulation_enviro.Runner.Pipelines.Cluster.{
  run_cluster_create, run_cluster_delete, cluster_create_with, cluster_create_steps,
  cluster_create_mock, cluster_delete_steps, cluster_delete_mock,
}
use gem_gdc_emulation_enviro.Runner.Pipelines.Workstation.{
  run_workstation_create, run_workstation_delete, workstation_create_steps, workstation_create_mock,
  workstation_delete_steps, workstation_delete_mock,
}
use gem_gdc_emulation_enviro.Runner.Pipelines.EdgeRouter.{
  run_edge_router_create, run_edge_router_delete, edge_router_create_steps, edge_router_create_mock,
  edge_router_delete_steps, edge_router_delete_mock,
}

module _ (s : Setup) (k : Text) where
  either-Keeps :
      (mocks : List MockStep) (steps : List Step)
      → Keeps k (
          if is_mock_enabled s
          then run_mock_steps s.readings k mocks
          else run_steps s.readings k steps)
  either-Keeps mocks steps =
      Keeps-if k (is_mock_enabled s) (run_mock_steps s.readings k mocks)
        (run_steps s.readings k steps) (run_mock_steps-Keeps s.readings k mocks)
        (run_steps-Keeps s.readings k steps)

  if_idle :
      (b : Bool) (a c : Action (Unit {0})) (m : Machine)
      → (a m).1 ≡ m
      → (c m).1 ≡ m
      → ((if b then a else c) m).1 ≡ m
  if_idle true a c m ia ic = ia
  if_idle false a c m ia ic = ic

  steps_idle :
      (steps : List Step) (m : Machine)
      → is_over (get_record m.world k) ≡ true
      → (run_steps s.readings k steps m).1 ≡ m
  steps_idle steps m over =
      ap (λ (o : Outcome (Unit {0}) × Machine). o.1) (run_steps_idle s.readings k steps m over)

  mocks_idle :
      (mocks : List MockStep) (m : Machine)
      → is_over (get_record m.world k) ≡ true
      → (run_mock_steps s.readings k mocks m).1 ≡ m
  mocks_idle mocks m over =
      ap (λ (o : Outcome (Unit {0}) × Machine). o.1) (run_mock_steps_idle s.readings k mocks m over)

  either_idle :
      (mocks : List MockStep) (steps : List Step) (m : Machine)
      → is_over (get_record m.world k) ≡ true
      → ((if is_mock_enabled s
            then run_mock_steps s.readings k mocks
            else run_steps s.readings k steps)
          m).1
        ≡ m
  either_idle mocks steps m over =
      if_idle (is_mock_enabled s) (run_mock_steps s.readings k mocks) (run_steps s.readings k steps)
        m (mocks_idle mocks m over) (steps_idle steps m over)

  create_with-Keeps :
      (request : ClusterCreateRequest) (o : Outcome (Option Text))
      → Keeps k (cluster_create_with s k request o)
  unfolding cluster_create_with
  create_with-Keeps request (returned version) = run_steps-Keeps s.readings k _
  create_with-Keeps request (raised e) = Keeps-raise k e

  create_with_idle :
      (request : ClusterCreateRequest) (o : Outcome (Option Text)) (m : Machine)
      → is_over (get_record m.world k) ≡ true
      → (cluster_create_with s k request o m).1 ≡ m
  unfolding cluster_create_with
  create_with_idle request (returned version) m over =
      steps_idle (cluster_create_steps s k request version) m over
  create_with_idle request (raised e) m over = refl

  -- A pipeline whose operation the manager holds either comes back with the operation in a final
  -- status (succeeded, failed or cancelled), whatever its commands print and return and whether or
  -- not they start, or it ends in CancelledError. No other exception leaves it.
  pub run_pipeline-IsEnd :
      (p : Pipeline) (m : Machine) → IsHeld k m.world → IsEnd k (run_pipeline s k p m)
  unfolding run_cluster_create run_cluster_delete run_workstation_create run_workstation_delete
      run_edge_router_create run_edge_router_delete
  run_pipeline-IsEnd (build_cluster request) m h =
      guarded-IsEnd s.readings k _ _ _ _ m
        (Keeps-if k (is_mock_enabled s) _ _
          (run_mock_steps-Keeps s.readings k (cluster_create_mock request))
          (create_with-Keeps request (s.get_abm_version request.emulate_gdc_version)))
        h
  run_pipeline-IsEnd (teardown_cluster request) m h =
      guarded-IsEnd s.readings k _ _ _ _ m
        (either-Keeps cluster_delete_mock (cluster_delete_steps s k request)) h
  run_pipeline-IsEnd (build_workstation request) m h =
      guarded-IsEnd s.readings k _ _ _ _ m
        (either-Keeps workstation_create_mock (workstation_create_steps s k request)) h
  run_pipeline-IsEnd (teardown_workstation request) m h =
      guarded-IsEnd s.readings k _ _ _ _ m
        (either-Keeps workstation_delete_mock (workstation_delete_steps s k request)) h
  run_pipeline-IsEnd (build_edge_router request) m h =
      guarded-IsEnd s.readings k _ _ _ _ m
        (either-Keeps edge_router_create_mock (edge_router_create_steps s k request)) h
  run_pipeline-IsEnd (teardown_edge_router request) m h =
      guarded-IsEnd s.readings k _ _ _ _ m
        (either-Keeps edge_router_delete_mock (edge_router_delete_steps s k request)) h

  -- A pipeline whose operation was cancelled before it starts, or is not there, changes nothing: it
  -- starts no command, writes no log line and leaves every record as it is.
  pub run_pipeline_over :
      (p : Pipeline) (m : Machine)
      → is_over (get_record m.world k) ≡ true
      → (run_pipeline s k p m).1 ≡ m
  unfolding run_cluster_create run_cluster_delete run_workstation_create run_workstation_delete
      run_edge_router_create run_edge_router_delete
  run_pipeline_over (build_cluster request) m over =
      guarded_idle s.readings k _ _ _ _ m
        (if_idle (is_mock_enabled s) (run_mock_steps s.readings k (cluster_create_mock request))
          (cluster_create_with s k request (s.get_abm_version request.emulate_gdc_version)) m
          (mocks_idle (cluster_create_mock request) m over)
          (create_with_idle request (s.get_abm_version request.emulate_gdc_version) m over))
        over
  run_pipeline_over (teardown_cluster request) m over =
      guarded_idle s.readings k _ _ _ _ m
        (either_idle cluster_delete_mock (cluster_delete_steps s k request) m over) over
  run_pipeline_over (build_workstation request) m over =
      guarded_idle s.readings k _ _ _ _ m
        (either_idle workstation_create_mock (workstation_create_steps s k request) m over) over
  run_pipeline_over (teardown_workstation request) m over =
      guarded_idle s.readings k _ _ _ _ m
        (either_idle workstation_delete_mock (workstation_delete_steps s k request) m over) over
  run_pipeline_over (build_edge_router request) m over =
      guarded_idle s.readings k _ _ _ _ m
        (either_idle edge_router_create_mock (edge_router_create_steps s k request) m over) over
  run_pipeline_over (teardown_edge_router request) m over =
      guarded_idle s.readings k _ _ _ _ m
        (either_idle edge_router_delete_mock (edge_router_delete_steps s k request) m over) over
