-- ===== src/Runner/Pipelines.antt =====
-- The pipelines of api/gem_api/services/runner.py, a create and a delete for each kind of resource.
pub mod Common
pub mod Cluster
pub mod Workstation
pub mod EdgeRouter
use gem_gdc_emulation_enviro.Prelude.{Text}
use gem_gdc_emulation_enviro.Requests.{
  ClusterCreateRequest, ClusterDeleteRequest, WorkstationCreateRequest, WorkstationDeleteRequest,
  EdgeRouterCreateRequest, EdgeRouterDeleteRequest,
}
use gem_gdc_emulation_enviro.Runner.Machine.{Action}
use gem_gdc_emulation_enviro.Runner.Pipelines.Common.{Setup}
use gem_gdc_emulation_enviro.Runner.Pipelines.Cluster.{run_cluster_create, run_cluster_delete}
use gem_gdc_emulation_enviro.Runner.Pipelines.Workstation.{
  run_workstation_create, run_workstation_delete,
}
use gem_gdc_emulation_enviro.Runner.Pipelines.EdgeRouter.{
  run_edge_router_create, run_edge_router_delete,
}

-- A request, with the method of ProcessRunner that carries it out.
pub data Pipeline : Type 0 where
  build_cluster : ClusterCreateRequest → Pipeline
  teardown_cluster : ClusterDeleteRequest → Pipeline
  build_workstation : WorkstationCreateRequest → Pipeline
  teardown_workstation : WorkstationDeleteRequest → Pipeline
  build_edge_router : EdgeRouterCreateRequest → Pipeline
  teardown_edge_router : EdgeRouterDeleteRequest → Pipeline

abbrev pub run_pipeline : Setup → Text → Pipeline → Action (Unit {0})
run_pipeline s operation_id (build_cluster request) = run_cluster_create s operation_id request
run_pipeline s operation_id (teardown_cluster request) = run_cluster_delete s operation_id request
run_pipeline s operation_id (build_workstation request) =
    run_workstation_create s operation_id request
run_pipeline s operation_id (teardown_workstation request) =
    run_workstation_delete s operation_id request
run_pipeline s operation_id (build_edge_router request) =
    run_edge_router_create s operation_id request
run_pipeline s operation_id (teardown_edge_router request) =
    run_edge_router_delete s operation_id request
