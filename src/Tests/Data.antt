-- ===== src/Tests/Data.antt =====
-- Readings, settings, requests and states for the runs of the code under api/gem_api.
use gem_gdc_emulation_enviro.Manifest.{
  text, sequence, mapping, item, nil, entry, end, Source, parsed,
}
use gem_gdc_emulation_enviro.Prelude.{Text, codes, List, [], ◌∷◌, none, some, true, false}
use gem_gdc_emulation_enviro.Exceptions.{returned}
use gem_gdc_emulation_enviro.Operations.Model.{cluster_create}
use gem_gdc_emulation_enviro.Operations.World.{Environment, World, empty_world}
use gem_gdc_emulation_enviro.Operations.Manager.{register_operation, attach_task}
use gem_gdc_emulation_enviro.Runner.Machine.{chunk, exited, Run, run, Machine}
use gem_gdc_emulation_enviro.Runner.Pipelines.{Pipeline, teardown_edge_router}
use gem_gdc_emulation_enviro.Runner.Pipelines.Common.{Setup}
use gem_gdc_emulation_enviro.Routers.{Api}

-- No file fails to open, and no task is done.
abbrev pub readings : Environment
readings = record {
  now = λ n. record {
    year = 2026;
    month = 3;
    day = 14;
    hour = 15;
    minute = 9;
    second = 26;
    microsecond = n;
  };
  open_fails = λ n. false;
  resolves_inside = λ id. true;
  max_log_buffer_lines = 4;
  is_running = λ pid. true;
  is_done = λ task. false;
}

abbrev pub setup : Setup
setup = record {
  readings = readings;
  settings = record {
    repo_root = codes "/srv/gem";
    default_project_id = codes "edge-lab";
    default_zone = codes "us-central1-a";
    log_dir = codes "/var/log/gem";
  };
  environ = [];
  mock_runner = none;
  get_abm_version = λ version. returned (some (codes "1.30.200"));
}

abbrev pub teardown : Pipeline
teardown = teardown_edge_router record {
  target = record { project_id = none; zone = none; region = none; provisioning_sa_email = none };
  edge_router_name = codes "rtr";
  tf_state_bucket = none;
}

abbrev pub idle_api : Api
idle_api = record { world = empty_world; tasks = [] }

-- terraform init prints a line and exits with 0, and terraform destroy exits with 1.
abbrev pub failing_runs : List Run
failing_runs =
    run 41 (chunk (codes "Initializing the backend...") ∷ chunk (10 ∷ []) ∷ []) (exited 0)
    ∷ run 42 [] (exited 1)
    ∷ []

abbrev pub machine_in : World → Machine
machine_in w = record { world = w; runs = failing_runs; naps = []; executed = [] }

-- One registered build with its task.
abbrev pub edge : Text
edge = codes "edge-1"

abbrev pub registered_world : World
registered_world =
    (register_operation readings edge cluster_create edge (codes "Init") (codes "Starting")
      empty_world).1

abbrev pub attached_world : World
attached_world = attach_task edge 7 registered_world

-- The manifest, which lists one version and two variants.
abbrev pub source : Source
source = record {
  read = λ path. parsed (
      mapping (codes "{...}") (
        entry (codes "emulated_gdc_versions")
          (mapping (codes "{...}") (entry (codes "1.13.0") (mapping (codes "{}") end) end))
          (entry (codes "hardware_variants")
            (sequence (codes "[...]")
              (item (text (codes "g2-small-64gb")) (item (text (codes "g2-large")) nil)))
            (entry (codes "default_hardware_variant") (text (codes "g2-large")) end))));
  env_path = none;
  repo_root = codes "/srv/gem";
  module_root = codes "/srv/gem/src";
}
