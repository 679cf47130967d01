-- ===== src/Routers.antt =====
-- The handlers under api/gem_api/routers that start a background operation: create and delete of
-- clusters.py, workstation.py and edge_router.py, and get and cancel of operations.py.
pub mod Accepted
pub mod SafeIds
pub mod Logs
use gem_gdc_emulation_enviro.Prelude.{Text, codes, ℕ, List, [], ◌∷◌, ◌++◌, none, some, length}
use gem_gdc_emulation_enviro.Exceptions.{
  Outcome, returned, raised, http, status_404_not_found, ◌&◌, quoted,
}
use gem_gdc_emulation_enviro.Operations.Model.{
  OperationType, cluster_create, cluster_delete, workstation_create, workstation_delete,
  edge_router_create, edge_router_delete, OperationRecord, OperationAcceptedResponse,
  OperationResponse, OperationCancelResponse,
}
use gem_gdc_emulation_enviro.Operations.World.{Environment, World}
use gem_gdc_emulation_enviro.Operations.Manager
use gem_gdc_emulation_enviro.Operations.Manager.{register_operation, attach_task}
use gem_gdc_emulation_enviro.Requests.{
  ClusterCreateRequest, ClusterDeleteRequest, WorkstationCreateRequest, WorkstationDeleteRequest,
  EdgeRouterCreateRequest, EdgeRouterDeleteRequest,
}
use gem_gdc_emulation_enviro.Runner.Pipelines.{
  Pipeline, build_cluster, teardown_cluster, build_workstation, teardown_workstation,
  build_edge_router, teardown_edge_router,
}

-- The manager, and the tasks that asyncio.create_task has made: the n-th runs this pipeline for this
-- operation.
pub record Api : Type 0 where
  pub world : World
  pub tasks : List (Text × Pipeline)

-- What the handlers pass to register_operation, and say in their response.
pub record Start : Type 0 where
  pub operation_id : Text
  pub operation_type : OperationType
  pub target_resource : Text
  pub initial_step : Text
  pub initial_message : Text
  pub accepted_message : Text

-- Behind register_operation: the task is made and attached, unless there was an exception.
unfoldable pub accept :
    Start
    → Pipeline
    → List (Text × Pipeline)
    → Outcome OperationRecord × World
    → Outcome OperationAcceptedResponse × Api
accept s p tasks (raised e, w) = (raised e, record { world = w; tasks = tasks })
accept s p tasks (returned r, w) = (
  returned record {
    operation_id = s.operation_id;
    status = r.status;
    message = s.accepted_message;
    target_resource = some s.target_resource;
  },
  record {
    world = attach_task s.operation_id (length tasks) w;
    tasks = tasks ++ (s.operation_id, p) ∷ [];
  },
)

unfoldable pub start_operation :
    Environment → Start → Pipeline → Api → Outcome OperationAcceptedResponse × Api
unfolding accept
start_operation env s p api = accept s p api.tasks (
    register_operation env s.operation_id s.operation_type s.target_resource s.initial_step
      s.initial_message api.world)

unfoldable pub create_cluster :
    Environment → ClusterCreateRequest → Api → Outcome OperationAcceptedResponse × Api
create_cluster env request =
    start_operation env
      record {
        operation_id = request.cluster_name;
        operation_type = cluster_create;
        target_resource = request.cluster_name;
        initial_step = codes "Terraform Provisioning (1/2)";
        initial_message =
            codes "Starting build for cluster " & quoted request.cluster_name & codes "...";
        accepted_message =
            codes "Cluster build initiated for " & quoted request.cluster_name & codes ".";
      }
      (build_cluster request)

unfoldable pub delete_cluster :
    Environment → ClusterDeleteRequest → Api → Outcome OperationAcceptedResponse × Api
delete_cluster env request =
    start_operation env
      record {
        operation_id = request.cluster_name;
        operation_type = cluster_delete;
        target_resource = request.cluster_name;
        initial_step = codes "Ansible Cleanup (1/2)";
        initial_message =
            codes "Starting teardown for cluster " & quoted request.cluster_name & codes "...";
        accepted_message =
            codes "Cluster teardown initiated for " & quoted request.cluster_name & codes ".";
      }
      (teardown_cluster request)

unfoldable pub create_workstation :
    Environment → WorkstationCreateRequest → Api → Outcome OperationAcceptedResponse × Api
create_workstation env request =
    start_operation env
      record {
        operation_id = codes "gem-admin-ws";
        operation_type = workstation_create;
        target_resource = codes "gem-admin-ws";
        initial_step = codes "Terraform Provisioning (1/2)";
        initial_message = codes "Starting Admin Workstation build...";
        accepted_message = codes "Admin Workstation build initiated.";
      }
      (build_workstation request)

unfoldable pub delete_workstation :
    Environment → WorkstationDeleteRequest → Api → Outcome OperationAcceptedResponse × Api
delete_workstation env request =
    start_operation env
      record {
        operation_id = codes "gem-admin-ws";
        operation_type = workstation_delete;
        target_resource = codes "gem-admin-ws";
        initial_step = codes "Terraform Destruction (1/1)";
        initial_message = codes "Starting Admin Workstation teardown...";
        accepted_message = codes "Admin Workstation teardown initiated.";
      }
      (teardown_workstation request)

unfoldable pub create_edge_router :
    Environment → EdgeRouterCreateRequest → Api → Outcome OperationAcceptedResponse × Api
create_edge_router env request =
    start_operation env
      record {
        operation_id = request.edge_router_name;
        operation_type = edge_router_create;
        target_resource = request.edge_router_name;
        initial_step = codes "Terraform Provisioning (1/2)";
        initial_message =
            codes "Starting build for edge router " & quoted request.edge_router_name & codes "...";
        accepted_message =
            codes "Edge router build initiated for " & quoted request.edge_router_name & codes ".";
      }
      (build_edge_router request)

unfoldable pub delete_edge_router :
    Environment → EdgeRouterDeleteRequest → Api → Outcome OperationAcceptedResponse × Api
delete_edge_router env request =
    start_operation env
      record {
        operation_id = request.edge_router_name;
        operation_type = edge_router_delete;
        target_resource = request.edge_router_name;
        initial_step = codes "Terraform Destruction (1/1)";
        initial_message =
            codes "Starting teardown for edge router "
            & quoted request.edge_router_name
            & codes "...";
        accepted_message =
            codes "Edge router teardown initiated for "
            & quoted request.edge_router_name
            & codes ".";
      }
      (teardown_edge_router request)

-- The handler of a request.
abbrev pub handle : Environment → Pipeline → Api → Outcome OperationAcceptedResponse × Api
handle env (build_cluster request) = create_cluster env request
handle env (teardown_cluster request) = delete_cluster env request
handle env (build_workstation request) = create_workstation env request
handle env (teardown_workstation request) = delete_workstation env request
handle env (build_edge_router request) = create_edge_router env request
handle env (teardown_edge_router request) = delete_edge_router env request

-- get_operation of operations.py
unfoldable pub get_operation : Text → Api → Outcome OperationResponse
get_operation operation_id api = elim (Manager.get_operation operation_id api.world) [
  | none ↦
      raised
        (http status_404_not_found (codes "Operation " & quoted operation_id & codes " not found."))
  | some op ↦ returned op
]

-- cancel_operation of operations.py
unfoldable pub cancel_operation : Environment → Text → Api → Outcome OperationCancelResponse × Api
cancel_operation env operation_id api =
    let (o, w) = Manager.cancel_operation env operation_id api.world in
    (o, record api { world = w })
