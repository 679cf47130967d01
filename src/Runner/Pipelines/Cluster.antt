-- ===== src/Runner/Pipelines/Cluster.antt =====
-- run_cluster_create and run_cluster_delete of api/gem_api/services/runner.py.
use gem_gdc_emulation_enviro.Prelude.{
  Text, codes, List, [], ◌∷◌, ◌++◌, Option, none, some, true, false, is_empty, if◌then◌else◌,
  or_else, ◌==◌,
}
use gem_gdc_emulation_enviro.Prelude.Strings.{decimal}
use gem_gdc_emulation_enviro.Exceptions.{Outcome, returned, raised, ◌&◌, quoted}
use gem_gdc_emulation_enviro.Config.{get_cluster_admin_sa}
use gem_gdc_emulation_enviro.Requests.{
  SecondaryNetworkConfig, ClusterCreateRequest, ClusterDeleteRequest,
}
use gem_gdc_emulation_enviro.Json.{Json, Items, Fields, text, num, arr, obj, nil, cons, end, field}
use gem_gdc_emulation_enviro.Validators.Sanitize.{clean_str}
use gem_gdc_emulation_enviro.Runner.Context.{
  GcpContext, set_all, prepare_gcp_context, build_tf_init_cmd,
}
use gem_gdc_emulation_enviro.Runner.Machine.{Action, raise, ◌>>◌}
use gem_gdc_emulation_enviro.Runner.Execute.{finalize_pipeline, guarded}
use gem_gdc_emulation_enviro.Runner.Pipelines.Common.{
  Setup, is_mock_enabled, Step, MockStep, run_steps, run_mock_steps, terraform_dir, ansible_dir,
  tf_var, terraform, if_given, playbook, location_fields,
}

-- net.model_dump()
unfoldable pub dump_network : SecondaryNetworkConfig → Json
dump_network net = obj (
    field (codes "name") (text net.name) (
      field (codes "vlan_id") (num net.vlan_id) (
        field (codes "subnet") (text net.subnet) (
          field (codes "gateway") (text net.gateway) (
            field (codes "vip_pool") (text net.vip_pool) (
              field (codes "pod_cidr") (text net.pod_cidr)
                (field (codes "per_node_ipam_size") (num net.per_node_ipam_size) end)))))))

abbrev dump_networks : List SecondaryNetworkConfig → Items
dump_networks [] = nil
dump_networks (net ∷ nets) = cons (dump_network net) (dump_networks nets)

abbrev networks_field : Option (List SecondaryNetworkConfig) → Fields
networks_field none = end
networks_field (some []) = end
networks_field (some (net ∷ nets)) =
    field (codes "secondary_networks") (arr (dump_networks (net ∷ nets))) end

-- `if value: extra_vars[name] = value`
abbrev field_if_given : Text → Text → Fields → Fields
field_if_given name value more = if is_empty value then more else field name (text value) more

unfoldable pub cluster_extra_vars : ClusterCreateRequest → GcpContext → Text → Fields
unfolding dump_network
cluster_extra_vars request c cluster_admin_sa =
    field (codes "cluster_name") (text request.cluster_name) (
      location_fields c (
        field (codes "emulate_gdc_version") (text request.emulate_gdc_version) (
          field_if_given (codes "pod_cidr_blocks") request.pod_cidr_blocks (
            field_if_given (codes "services_cidr_blocks") request.services_cidr_blocks (
              let rest =
                field_if_given (codes "gcp_cluster_admin_sa") cluster_admin_sa
                  (networks_field request.secondary_networks) in
              if request.max_pods_per_node == 0
              then rest
              else field (codes "max_pods_per_node") (num request.max_pods_per_node) rest)))))

unfoldable pub cluster_create_mock : ClusterCreateRequest → List MockStep
cluster_create_mock request =
    record {
      step_name = codes "Terraform Provisioning (1/2)";
      step_message = codes "Provisioning cluster compute instances and networking...";
      sample_logs =
          codes "google_compute_instance.cluster_nodes[0]: Creating..."
          ∷ codes "google_compute_instance.cluster_nodes[1]: Creating..."
          ∷ codes "google_compute_instance.cluster_nodes[2]: Creating..."
          ∷ codes "google_compute_instance.cluster_nodes: Creation complete after 35s"
          ∷ codes "Apply complete! Resources: 6 added, 0 changed, 0 destroyed."
          ∷ [];
    }
    ∷ record {
      step_name = codes "Ansible Configuration (2/2)";
      step_message = codes "Configuring VXLAN overlay, TopoLVM storage, and GDC deployment...";
      sample_logs =
          codes "PLAY [Configure GEM Cluster Nodes] **********************************"
          ∷ codes "TASK [vxlan : Configure overlay network interfaces] *****************"
          ∷ codes "TASK [topolvm : Setup LVM volume group and TopoLVM daemon] *********"
          ∷ codes "TASK [gdc_deploy : Deploy Anthos Bare Metal cluster] ****************"
          ∷ codes "PLAY RECAP **********************************************************"
          ∷ (request.cluster_name & codes "-node1 : ok=42   changed=18   unreachable=0    failed=0")
          ∷ [];
    }
    ∷ []

module _ (s : Setup) (operation_id : Text) where
  -- The commands, for the bmctl version that belongs to the requested GDC version.
  unfoldable pub cluster_create_steps : ClusterCreateRequest → Option Text → List Step
  unfolding set_all prepare_gcp_context build_tf_init_cmd cluster_extra_vars
  cluster_create_steps request abm_version =
      let c =
        prepare_gcp_context s.settings s.environ request.target operation_id request.cluster_name
          none in
      let admin =
        or_else (clean_str request.gcp_cluster_admin_sa)
          (get_cluster_admin_sa s.settings c.project_id) in
      let bmctl_version = or_else abm_version [] in
      let env =
        set_all
          (((codes "TF_VAR_cluster_name", request.cluster_name)
              ∷ (codes "TF_VAR_hardware_variant", request.hardware_variant)
              ∷ (codes "TF_VAR_gce_network", request.gce_network)
              ∷ (codes "TF_VAR_gce_subnetwork", request.gce_subnetwork)
              ∷ (codes "TF_VAR_node_storage_size", request.node_storage_size)
              ∷ (codes "TF_VAR_pod_cidr_blocks", request.pod_cidr_blocks)
              ∷ (codes "TF_VAR_services_cidr_blocks", request.services_cidr_blocks)
              ∷ (codes "TF_VAR_max_pods_per_node", decimal request.max_pods_per_node)
              ∷ [])
            ++ (if is_empty bmctl_version
                then []
                else (codes "TF_VAR_bmctl_version", bmctl_version) ∷ [])
            ++ (if is_empty admin then [] else (codes "TF_VAR_gcp_cluster_admin_sa", admin) ∷ []))
          c.env in
      record {
        command = record {
          cmd =
              build_tf_init_cmd c.bucket (codes "clusters/" & request.cluster_name & codes "/state")
                c.provisioning_sa;
          cwd = terraform_dir s (codes "cluster");
          env = env;
        };
        step_name = codes "Terraform Init (1/2)";
        step_message = codes "Initializing Terraform backend and providers...";
      }
      ∷ record {
        command = record {
          cmd = terraform (codes "apply") (
              (tf_var (codes "project_id") c.project_id
                ∷ tf_var (codes "cluster_name") request.cluster_name
                ∷ tf_var (codes "zone") c.zone
                ∷ tf_var (codes "region") c.region
                ∷ tf_var (codes "hardware_variant") request.hardware_variant
                ∷ tf_var (codes "gce_network") request.gce_network
                ∷ tf_var (codes "gce_subnetwork") request.gce_subnetwork
                ∷ tf_var (codes "node_storage_size") request.node_storage_size
                ∷ [])
              ++ if_given (codes "provisioning_sa_email") c.provisioning_sa
              ++ if_given (codes "bmctl_version") bmctl_version);
          cwd = terraform_dir s (codes "cluster");
          env = env;
        };
        step_name = codes "Terraform Provisioning (1/2)";
        step_message = codes "Applying Terraform infrastructure resources...";
      }
      ∷ record {
        command = record {
          cmd = playbook (codes "create-cluster.yaml") (cluster_extra_vars request c admin);
          cwd = ansible_dir s;
          env = env;
        };
        step_name = codes "Ansible Configuration (2/2)";
        step_message = codes "Running Ansible cluster deployment playbook...";
      }
      ∷ []

  unfoldable pub cluster_create_with :
      ClusterCreateRequest → Outcome (Option Text) → Action (Unit {0})
  cluster_create_with request (returned version) =
      run_steps s.readings operation_id (cluster_create_steps request version)
  cluster_create_with request (raised e) = raise e

  unfoldable pub run_cluster_create : ClusterCreateRequest → Action (Unit {0})
  unfolding cluster_create_with cluster_create_mock
  run_cluster_create request =
      guarded s.readings operation_id (codes "Cluster provisioning failed") (
        (if is_mock_enabled s
          then run_mock_steps s.readings operation_id (cluster_create_mock request)
          else cluster_create_with request (s.get_abm_version request.emulate_gdc_version))
        >> finalize_pipeline s.readings operation_id
            (codes "Cluster "
              & quoted request.cluster_name
              & codes " provisioned and configured successfully.")
            true)

unfoldable pub cluster_delete_mock : List MockStep
cluster_delete_mock =
    record {
      step_name = codes "Ansible Cleanup (1/2)";
      step_message = codes "Resetting cluster nodes and unregistering GKE hub membership...";
      sample_logs =
          codes "PLAY [Clean up GEM Cluster Nodes] **********************************"
          ∷ codes "TASK [cleanup : Reset Anthos Bare Metal cluster] *******************"
          ∷ codes "TASK [cleanup : Remove VXLAN overlay interfaces] *******************"
          ∷ codes "PLAY RECAP **********************************************************"
          ∷ [];
    }
    ∷ record {
      step_name = codes "Terraform Destruction (2/2)";
      step_message = codes "Destroying cluster node VMs and cloud resources...";
      sample_logs =
          codes "google_compute_instance.cluster_nodes[0]: Destroying..."
          ∷ codes "google_compute_instance.cluster_nodes[1]: Destroying..."
          ∷ codes "google_compute_instance.cluster_nodes[2]: Destroying..."
          ∷ codes "Destroy complete! Resources: 6 destroyed."
          ∷ [];
    }
    ∷ []

module _ (s : Setup) (operation_id : Text) where
  unfoldable pub cluster_delete_steps : ClusterDeleteRequest → List Step
  unfolding set_all prepare_gcp_context build_tf_init_cmd
  cluster_delete_steps request =
      let c =
        prepare_gcp_context s.settings s.environ request.target operation_id request.cluster_name
          request.tf_state_bucket in
      let env = set_all ((codes "TF_VAR_cluster_name", request.cluster_name) ∷ []) c.env in
      record {
        command = record {
          cmd =
              playbook (codes "cleanup.yaml")
                (field (codes "cluster_name") (text request.cluster_name) (location_fields c end));
          cwd = ansible_dir s;
          env = env;
        };
        step_name = codes "Ansible Cleanup (1/2)";
        step_message = codes "Executing Ansible cluster cleanup playbook...";
      }
      ∷ record {
        command = record {
          cmd =
              build_tf_init_cmd c.bucket (codes "clusters/" & request.cluster_name & codes "/state")
                c.provisioning_sa;
          cwd = terraform_dir s (codes "cluster");
          env = env;
        };
        step_name = codes "Terraform Init (2/2)";
        step_message = codes "Initializing Terraform backend...";
      }
      ∷ record {
        command = record {
          cmd = terraform (codes "destroy") (
              (tf_var (codes "project_id") c.project_id
                ∷ tf_var (codes "cluster_name") request.cluster_name
                ∷ tf_var (codes "zone") c.zone
                ∷ tf_var (codes "region") c.region
                ∷ [])
              ++ if_given (codes "provisioning_sa_email") c.provisioning_sa);
          cwd = terraform_dir s (codes "cluster");
          env = env;
        };
        step_name = codes "Terraform Destruction (2/2)";
        step_message = codes "Destroying compute instances and network bindings...";
      }
      ∷ []

  unfoldable pub run_cluster_delete : ClusterDeleteRequest → Action (Unit {0})
  unfolding cluster_delete_mock
  run_cluster_delete request = guarded s.readings operation_id (codes "Cluster teardown failed") (
      (if is_mock_enabled s
        then run_mock_steps s.readings operation_id cluster_delete_mock
        else run_steps s.readings operation_id (cluster_delete_steps request))
      >> finalize_pipeline s.readings operation_id
          (codes "Cluster " & quoted request.cluster_name & codes " successfully torn down.") false)
