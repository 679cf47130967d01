-- ===== src/Tests/Running.antt =====
-- Runs of the handlers and of the pipelines.
use gem_gdc_emulation_enviro.Prelude.{inl, codes, ◌≡◌, refl, some, ◌∷◌, [], List}
use gem_gdc_emulation_enviro.Prelude.Dict
use gem_gdc_emulation_enviro.Operations.Model.{
  buffer_line, new_record, OperationAcceptedResponse, queued,
}
use gem_gdc_emulation_enviro.Operations.World.{
  empty_world, has_log_path, init_log_file, append_log_file,
}
use gem_gdc_emulation_enviro.Operations.Manager.{
  register_operation, find_conflict, attach_task, update_operation, append_log, append_line,
  format_line,
}
use gem_gdc_emulation_enviro.Runner.Machine.{chunk, Machine, run, exited, call, ◌>>◌, ◌>>=◌}
use gem_gdc_emulation_enviro.Prelude.Dict
use gem_gdc_emulation_enviro.Runner.Execute.{
  execute_command, run_command, start_process, watch, check_exit, log_exception, update, log,
  read_output,
}
use gem_gdc_emulation_enviro.Runner.Pipelines.Common.{Step, run_steps}
use gem_gdc_emulation_enviro.Runner.Success.Commands.{AllClean, run_steps-AllClean}
use gem_gdc_emulation_enviro.Runner.Output.{cut_lines}
use gem_gdc_emulation_enviro.Runner.Execute.Chunking.{read_output_joined}
use gem_gdc_emulation_enviro.Runner.Ends.{IsEnd}
use gem_gdc_emulation_enviro.Runner.Ends.Pipelines.{run_pipeline-IsEnd, run_pipeline_over}
use gem_gdc_emulation_enviro.Runner.Pipelines.{run_pipeline}
use gem_gdc_emulation_enviro.Routers.{
  Api, handle, delete_edge_router, start_operation, accept, cancel_operation,
}
use gem_gdc_emulation_enviro.Routers.Accepted.{
  Answers, handle-Answers, handle_ends, cancelled_before_start,
}
use gem_gdc_emulation_enviro.Tests.Data.{
  readings, setup, teardown, idle_api, machine_in, edge, attached_world,
}
use gem_gdc_emulation_enviro.Tests.Managing.{the_record, is_held, reached}
use gem_gdc_emulation_enviro.Operations.Manager.Steps.{Reach}
use gem_gdc_emulation_enviro.Operations.Manager.Steps.Invariants.{IsConsistent}
use gem_gdc_emulation_enviro.Runner.Leads.Commands.{IsLive}
use gem_gdc_emulation_enviro.Runner.Leads.Pipelines.{run_pipeline-Reach, run_pipeline-IsConsistent}

abbrev response : OperationAcceptedResponse
response = record {
  operation_id = codes "rtr";
  status = queued;
  message = codes "Edge router teardown initiated for 'rtr'.";
  target_resource = some (codes "rtr");
}

abbrev answered : Api
answered = (handle readings teardown idle_api).1

handle_ends_example :
    IsEnd (codes "rtr") (run_pipeline setup (codes "rtr") teardown (machine_in answered.world))
unfolding delete_edge_router start_operation accept register_operation find_conflict has_log_path
handle_ends_example =
    handle_ends setup teardown idle_api answered response (machine_in answered.world) refl refl

cancelled_before_start_example :
    (run_pipeline setup
      (codes "rtr")
      teardown
      (machine_in (cancel_operation readings (codes "rtr") answered).1.world)).1
    ≡ machine_in (cancel_operation readings (codes "rtr") answered).1.world
unfolding delete_edge_router start_operation accept register_operation find_conflict has_log_path
cancelled_before_start_example =
    cancelled_before_start setup teardown idle_api answered response
      (machine_in (cancel_operation readings (codes "rtr") answered).1.world) refl refl

handle-Answers_example : Answers teardown idle_api (handle readings teardown idle_api)
handle-Answers_example = handle-Answers readings teardown idle_api

live : IsLive edge attached_world
unfolding new_record buffer_line
live = (the_record, is_held, inl refl)

run_pipeline-Reach_example :
    Reach setup.readings attached_world
      (run_pipeline setup edge teardown (machine_in attached_world)).1.world
run_pipeline-Reach_example = run_pipeline-Reach setup edge teardown (machine_in attached_world) live

run_pipeline-IsConsistent_example :
    IsConsistent (run_pipeline setup edge teardown (machine_in attached_world)).1.world
run_pipeline-IsConsistent_example =
    run_pipeline-IsConsistent setup edge teardown (machine_in attached_world) reached live

run_pipeline-IsEnd_example :
    IsEnd edge (run_pipeline setup edge teardown (machine_in attached_world))
run_pipeline-IsEnd_example =
    run_pipeline-IsEnd setup edge teardown (machine_in attached_world) (the_record, is_held)

run_pipeline_over_example :
    (run_pipeline setup edge teardown (machine_in empty_world)).1 ≡ machine_in empty_world
unfolding Dict.get
run_pipeline_over_example = run_pipeline_over setup edge teardown (machine_in empty_world) refl

read_output_joined_example :
    read_output readings edge (chunk (codes "Cre") ∷ chunk (codes "ating...") ∷ []) []
    ≡ read_output readings edge (chunk (codes "Creating...") ∷ []) []
unfolding cut_lines
read_output_joined_example =
    read_output_joined readings edge b'C' (codes "re") b'a' (codes "ting...") [] [] refl

abbrev one_step : List Step
one_step =
    record {
      command = record {
        cmd = codes "terraform" ∷ codes "init" ∷ [];
        cwd = codes "/srv/gem";
        env = [];
      };
      step_name = codes "Terraform Init (1/1)";
      step_message = codes "Initializing Terraform backend...";
    }
    ∷ []

abbrev clean_machine : Machine
clean_machine = record {
  world = attached_world;
  runs = run 41 [] (exited 0) ∷ [];
  naps = [];
  executed = [];
}

run_steps-AllClean_example :
    AllClean one_step clean_machine (run_steps readings edge one_step clean_machine).1
unfolding run_steps execute_command run_command start_process watch check_exit log_exception update
    log call ◌>>◌ ◌>>=◌ update_operation append_log append_line format_line register_operation
    attach_task Dict.get Dict.put has_log_path init_log_file append_log_file read_output
run_steps-AllClean_example =
    run_steps-AllClean readings edge one_step clean_machine
      (run_steps readings edge one_step clean_machine).1 refl refl
