-- ===== src/Runner/Pipelines/EdgeRouter.antt =====
-- run_edge_router_create and run_edge_router_delete of api/gem_api/services/runner.py.
use gem_gdc_emulation_enviro.Prelude.{Text, codes, List, [], ◌∷◌, ◌++◌, none, false, if◌then◌else◌}
use gem_gdc_emulation_enviro.Requests.{EdgeRouterCreateRequest, EdgeRouterDeleteRequest}
use gem_gdc_emulation_enviro.Json.{end, text, field}
use gem_gdc_emulation_enviro.Runner.Context.{set_all, prepare_gcp_context, build_tf_init_cmd}
use gem_gdc_emulation_enviro.Runner.Machine.{Action, ◌>>◌}
use gem_gdc_emulation_enviro.Runner.Execute.{finalize_pipeline, guarded}
use gem_gdc_emulation_enviro.Runner.Pipelines.Common.{
  Setup, is_mock_enabled, Step, MockStep, run_steps, run_mock_steps, terraform_dir, ansible_dir,
  tf_var, terraform, if_given, location_vars, playbook,
}

unfoldable pub edge_router_create_mock : List MockStep
edge_router_create_mock =
    record {
      step_name = codes "Terraform Provisioning (1/2)";
      step_message = codes "Provisioning edge router compute instance...";
      sample_logs =
          codes "google_compute_instance.edge_router: Creating..."
          ∷ codes "google_compute_instance.edge_router: Creation complete after 15s"
          ∷ [];
    }
    ∷ record {
      step_name = codes "Ansible Configuration (2/2)";
      step_message = codes "Configuring Traefik proxy and MetalLB VIP routing...";
      sample_logs =
          codes "PLAY [Configure GEM Edge Router] **********************************"
          ∷ codes "TASK [edge_router : Install and configure Traefik] *****************"
          ∷ codes "PLAY RECAP **********************************************************"
          ∷ [];
    }
    ∷ []

unfoldable pub edge_router_delete_mock : List MockStep
edge_router_delete_mock =
    record {
      step_name = codes "Terraform Destruction (1/1)";
      step_message = codes "Destroying edge router VM...";
      sample_logs =
          codes "google_compute_instance.edge_router: Destroying..."
          ∷ codes "Destroy complete! Resources: 2 destroyed."
          ∷ [];
    }
    ∷ []

module _ (s : Setup) (operation_id : Text) where
  unfoldable pub edge_router_create_steps : EdgeRouterCreateRequest → List Step
  unfolding set_all prepare_gcp_context build_tf_init_cmd
  edge_router_create_steps request =
      let c =
        prepare_gcp_context s.settings s.environ request.target operation_id (codes "none") none in
      let env =
        set_all
          ((codes "TF_VAR_edge_router_name", request.edge_router_name)
            ∷ (codes "TF_VAR_machine_type", request.machine_type)
            ∷ (codes "TF_VAR_gce_network", request.gce_network)
            ∷ (codes "TF_VAR_gce_subnetwork", request.gce_subnetwork)
            ∷ [])
          c.env in
      record {
        command = record {
          cmd = build_tf_init_cmd c.bucket (codes "edge-router/state") c.provisioning_sa;
          cwd = terraform_dir s (codes "edge-router");
          env = env;
        };
        step_name = codes "Terraform Init (1/2)";
        step_message = codes "Initializing edge router Terraform...";
      }
      ∷ record {
        command = record {
          cmd = terraform (codes "apply") (
              location_vars c (
                (tf_var (codes "edge_router_name") request.edge_router_name
                  ∷ tf_var (codes "machine_type") request.machine_type
                  ∷ tf_var (codes "gce_network") request.gce_network
                  ∷ tf_var (codes "gce_subnetwork") request.gce_subnetwork
                  ∷ [])
                ++ if_given (codes "provisioning_sa_email") c.provisioning_sa));
          cwd = terraform_dir s (codes "edge-router");
          env = env;
        };
        step_name = codes "Terraform Provisioning (1/2)";
        step_message = codes "Provisioning edge router VM...";
      }
      ∷ record {
        command = record {
          cmd = playbook (codes "edge-router.yaml") (
              field (codes "project_id") (text c.project_id) (
                field (codes "zone") (text c.zone) (
                  field (codes "region") (text c.region)
                    (field (codes "edge_router_name") (text request.edge_router_name) end))));
          cwd = ansible_dir s;
          env = env;
        };
        step_name = codes "Ansible Configuration (2/2)";
        step_message = codes "Configuring Traefik reverse proxy and VIP routing...";
      }
      ∷ []

  unfoldable pub run_edge_router_create : EdgeRouterCreateRequest → Action (Unit {0})
  unfolding edge_router_create_mock
  run_edge_router_create request =
      guarded s.readings operation_id (codes "Edge router build failed") (
        (if is_mock_enabled s
          then run_mock_steps s.readings operation_id edge_router_create_mock
          else run_steps s.readings operation_id (edge_router_create_steps request))
        >> finalize_pipeline s.readings operation_id
            (codes "Edge router provisioned and configured successfully.") false)

  unfoldable pub edge_router_delete_steps : EdgeRouterDeleteRequest → List Step
  unfolding set_all prepare_gcp_context build_tf_init_cmd
  edge_router_delete_steps request =
      let c =
        prepare_gcp_context s.settings s.environ request.target operation_id (codes "none")
          request.tf_state_bucket in
      let env = set_all ((codes "TF_VAR_edge_router_name", request.edge_router_name) ∷ []) c.env in
      record {
        command = record {
          cmd = build_tf_init_cmd c.bucket (codes "edge-router/state") c.provisioning_sa;
          cwd = terraform_dir s (codes "edge-router");
          env = env;
        };
        step_name = codes "Terraform Init (1/1)";
        step_message = codes "Initializing Terraform backend...";
      }
      ∷ record {
        command = record {
          cmd = terraform (codes "destroy") (
              location_vars c (
                tf_var (codes "edge_router_name") request.edge_router_name
                ∷ if_given (codes "provisioning_sa_email") c.provisioning_sa));
          cwd = terraform_dir s (codes "edge-router");
          env = env;
        };
        step_name = codes "Terraform Destruction (1/1)";
        step_message = codes "Destroying edge router resources...";
      }
      ∷ []

  unfoldable pub run_edge_router_delete : EdgeRouterDeleteRequest → Action (Unit {0})
  unfolding edge_router_delete_mock
  run_edge_router_delete request =
      guarded s.readings operation_id (codes "Edge router teardown failed") (
        (if is_mock_enabled s
          then run_mock_steps s.readings operation_id edge_router_delete_mock
          else run_steps s.readings operation_id (edge_router_delete_steps request))
        >> finalize_pipeline s.readings operation_id (codes "Edge router destroyed successfully.")
            false)
