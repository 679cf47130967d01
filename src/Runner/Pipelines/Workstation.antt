-- ===== src/Runner/Pipelines/Workstation.antt =====
-- run_workstation_create and run_workstation_delete of api/gem_api/services/runner.py.
use gem_gdc_emulation_enviro.Prelude.{
  Text, codes, List, [], ◌∷◌, ◌++◌, Option, none, some, false, is_empty, if◌then◌else◌,
}
use gem_gdc_emulation_enviro.Requests.{WorkstationCreateRequest, WorkstationDeleteRequest}
use gem_gdc_emulation_enviro.Json.{end}
use gem_gdc_emulation_enviro.Runner.Context.{set_all, prepare_gcp_context, build_tf_init_cmd}
use gem_gdc_emulation_enviro.Runner.Machine.{Action, ◌>>◌}
use gem_gdc_emulation_enviro.Runner.Execute.{finalize_pipeline, guarded}
use gem_gdc_emulation_enviro.Runner.Pipelines.Common.{
  Setup, is_mock_enabled, Step, MockStep, run_steps, run_mock_steps, terraform_dir, ansible_dir,
  tf_var, terraform, if_given, location_vars, playbook, location_fields,
}

unfoldable pub workstation_create_mock : List MockStep
workstation_create_mock =
    record {
      step_name = codes "Terraform Provisioning (1/2)";
      step_message = codes "Provisioning admin workstation compute instance...";
      sample_logs =
          codes "google_compute_instance.admin_workstation: Creating..."
          ∷ codes "google_compute_instance.admin_workstation: Creation complete after 20s"
          ∷ [];
    }
    ∷ record {
      step_name = codes "Ansible Configuration (2/2)";
      step_message = codes "Installing bmctl, Docker, and admin tools...";
      sample_logs =
          codes "PLAY [Configure GEM Admin Workstation] *****************************"
          ∷ codes "TASK [workstation : Install bmctl binaries] ************************"
          ∷ codes "PLAY RECAP **********************************************************"
          ∷ [];
    }
    ∷ []

unfoldable pub workstation_delete_mock : List MockStep
workstation_delete_mock =
    record {
      step_name = codes "Terraform Destruction (1/1)";
      step_message = codes "Destroying admin workstation VM...";
      sample_logs =
          codes "google_compute_instance.admin_workstation: Destroying..."
          ∷ codes "Destroy complete! Resources: 2 destroyed."
          ∷ [];
    }
    ∷ []

-- `request.workstation_ip or '10.10.0.2'`
abbrev workstation_address : Option Text → Text
workstation_address none = codes "10.10.0.2"
workstation_address (some ip) = if is_empty ip then codes "10.10.0.2" else ip

module _ (s : Setup) (operation_id : Text) where
  unfoldable pub workstation_create_steps : WorkstationCreateRequest → List Step
  unfolding set_all prepare_gcp_context build_tf_init_cmd
  workstation_create_steps request =
      let c =
        prepare_gcp_context s.settings s.environ request.target operation_id (codes "none") none in
      let env =
        set_all
          ((codes "TF_VAR_gce_network", request.gce_network)
            ∷ (codes "TF_VAR_gce_subnetwork", request.gce_subnetwork)
            ∷ [])
          c.env in
      record {
        command = record {
          cmd = build_tf_init_cmd c.bucket (codes "admin-workstation/state") c.provisioning_sa;
          cwd = terraform_dir s (codes "admin-workstation");
          env = env;
        };
        step_name = codes "Terraform Init (1/2)";
        step_message = codes "Initializing admin workstation Terraform...";
      }
      ∷ record {
        command = record {
          cmd = terraform (codes "apply") (
              location_vars c (
                (tf_var (codes "gce_network") request.gce_network
                  ∷ tf_var (codes "gce_subnetwork") request.gce_subnetwork
                  ∷ tf_var (codes "workstation_ip") (workstation_address request.workstation_ip)
                  ∷ [])
                ++ if_given (codes "provisioning_sa_email") c.provisioning_sa));
          cwd = terraform_dir s (codes "admin-workstation");
          env = env;
        };
        step_name = codes "Terraform Provisioning (1/2)";
        step_message = codes "Provisioning admin workstation VM...";
      }
      ∷ record {
        command = record {
          cmd = playbook (codes "admin-workstation.yaml") (location_fields c end);
          cwd = ansible_dir s;
          env = env;
        };
        step_name = codes "Ansible Configuration (2/2)";
        step_message = codes "Configuring admin workstation tools and binaries...";
      }
      ∷ []

  unfoldable pub run_workstation_create : WorkstationCreateRequest → Action (Unit {0})
  unfolding workstation_create_mock
  run_workstation_create request =
      guarded s.readings operation_id (codes "Workstation build failed") (
        (if is_mock_enabled s
          then run_mock_steps s.readings operation_id workstation_create_mock
          else run_steps s.readings operation_id (workstation_create_steps request))
        >> finalize_pipeline s.readings operation_id
            (codes "Admin workstation provisioned and configured successfully.") false)

  unfoldable pub workstation_delete_steps : WorkstationDeleteRequest → List Step
  unfolding prepare_gcp_context build_tf_init_cmd
  workstation_delete_steps request =
      let c =
        prepare_gcp_context s.settings s.environ request.target operation_id (codes "none")
          request.tf_state_bucket in
      record {
        command = record {
          cmd = build_tf_init_cmd c.bucket (codes "admin-workstation/state") c.provisioning_sa;
          cwd = terraform_dir s (codes "admin-workstation");
          env = c.env;
        };
        step_name = codes "Terraform Init (1/1)";
        step_message = codes "Initializing Terraform backend...";
      }
      ∷ record {
        command = record {
          cmd =
              terraform (codes "destroy")
                (location_vars c (if_given (codes "provisioning_sa_email") c.provisioning_sa));
          cwd = terraform_dir s (codes "admin-workstation");
          env = c.env;
        };
        step_name = codes "Terraform Destruction (1/1)";
        step_message = codes "Destroying admin workstation resources...";
      }
      ∷ []

  unfoldable pub run_workstation_delete : WorkstationDeleteRequest → Action (Unit {0})
  unfolding workstation_delete_mock
  run_workstation_delete request =
      guarded s.readings operation_id (codes "Workstation teardown failed") (
        (if is_mock_enabled s
          then run_mock_steps s.readings operation_id workstation_delete_mock
          else run_steps s.readings operation_id (workstation_delete_steps request))
        >> finalize_pipeline s.readings operation_id
            (codes "Admin workstation destroyed successfully.") false)
