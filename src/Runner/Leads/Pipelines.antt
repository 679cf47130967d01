-- ===== src/Runner/Leads/Pipelines.antt =====
-- The pipelines of api/gem_api/services/runner.py as steps of the manager.
use gem_gdc_emulation_enviro.Prelude.{
  inr, inl, Bool-cases, List, ◌+◌, Text, refl, Option, Bool, if◌then◌else◌,
}
use gem_gdc_emulation_enviro.Exceptions.{
  Exception, http, attribute_error, cancelled_error, other_error, Outcome, returned, raised,
}
use gem_gdc_emulation_enviro.Operations.Model.{succeeded, failed, is_cancelled}
use gem_gdc_emulation_enviro.Operations.World.{Environment, World, empty_world}
use gem_gdc_emulation_enviro.Operations.Manager.Steps.{ends, Step, Reach, here, next, Reach-trans}
use gem_gdc_emulation_enviro.Operations.Manager.Steps.Invariants.{IsConsistent, Reach-IsConsistent}
use gem_gdc_emulation_enviro.Requests.{ClusterCreateRequest}
use gem_gdc_emulation_enviro.Runner.Machine.{Machine, Action, pure, ◌>>◌}
use gem_gdc_emulation_enviro.Runner.Execute.{
  log_completion_line, finalize_pipeline, fail_pipeline, recover, guarded,
}
use gem_gdc_emulation_enviro.Runner.Along.{
  IsPreorder, Along, Along-after, Along-pure, Along-raise, Along-if,
}
use gem_gdc_emulation_enviro.Runner.Keeps.{IsHeld, log-Keeps, update-Keeps}
use gem_gdc_emulation_enviro.Runner.Leads.{update-Leads, log-Leads}
use gem_gdc_emulation_enviro.Runner.Leads.Commands.{
  IsLive, Goes, Goes-IsPreorder, run_steps-Goes, run_mock_steps-Goes,
}
use gem_gdc_emulation_enviro.Runner.Pipelines.{
  Pipeline, build_cluster, teardown_cluster, build_workstation, teardown_workstation,
  build_edge_router, teardown_edge_router, run_pipeline,
}
use gem_gdc_emulation_enviro.Runner.Pipelines.Common
use gem_gdc_emulation_enviro.Runner.Pipelines.Common.{
  Setup, MockStep, run_steps, run_mock_steps, is_mock_enabled,
}
use gem_gdc_emulation_enviro.Runner.Pipelines.Cluster.{
  run_cluster_create, run_cluster_delete, cluster_create_with, cluster_create_mock,
  cluster_delete_steps, cluster_delete_mock,
}
use gem_gdc_emulation_enviro.Runner.Pipelines.Workstation.{
  run_workstation_create, run_workstation_delete, workstation_create_steps, workstation_create_mock,
  workstation_delete_steps, workstation_delete_mock,
}
use gem_gdc_emulation_enviro.Runner.Pipelines.EdgeRouter.{
  run_edge_router_create, run_edge_router_delete, edge_router_create_steps, edge_router_create_mock,
  edge_router_delete_steps, edge_router_delete_mock,
}

module _ (env : Environment) (k : Text) where
  -- The manager still holds the operation, whatever its status.
  abbrev Reaches : Machine → Machine → Type 0
  Reaches m n = IsHeld k m.world → Reach env m.world n.world × IsHeld k n.world

  Reaches-IsPreorder : IsPreorder Reaches
  Reaches-IsPreorder = record {
    same = λ m h. (here, h);
    composed = λ m n o f g h. (Reach-trans (f h).0 (g (f h).1).0, (g (f h).1).1);
  }

  log_completion_line-Reaches : Along Reaches (log_completion_line env k)
  unfolding log_completion_line
  log_completion_line-Reaches = record {
    at = λ m h.
        let n : Machine = record m { world = record m.world { clock = m.world.clock + 1 } } in
        (Reach-trans (next here Step.tick) ((log-Leads env k _).at n), (log-Keeps env k _).at n h);
  }

  finalize_pipeline-Reaches :
      (message : Text) (b : Bool) → Along Reaches (finalize_pipeline env k message b)
  unfolding finalize_pipeline
  finalize_pipeline-Reaches message b = record {
    at = λ m (r, held). elim (Bool-cases (is_cancelled r.status)) [
      | inl c ↦ rw (held, c) (here, (r, held))
      | inr c ↦
          rw (held, c)
            (Along-after Reaches Reaches-IsPreorder _
              (if b then log_completion_line env k else pure tt) m
              (λ h. (
                update-Leads env k _ m (ends r succeeded held c refl refl refl),
                (update-Keeps env k _).at m h,
              ))
              (Along-if Reaches b _ _ log_completion_line-Reaches
                (Along-pure Reaches Reaches-IsPreorder tt))
              (r, held))
    ];
  }

  fail_pipeline-Reach :
      (label : Text) (e : Exception) (m : Machine)
      → IsHeld k m.world
      → Reach env m.world (fail_pipeline env k label e m).1.world
  unfolding fail_pipeline
  fail_pipeline-Reach label e m (r, held) = elim (Bool-cases (is_cancelled r.status)) [
    | inl c ↦ rw (held, c) here
    | inr c ↦ rw (held, c) (update-Leads env k _ m (ends r failed held c refl refl refl))
  ]

  recover-Reach :
      (label : Text) (w : World) (o : Outcome (Unit {0}) × Machine)
      → Reach env w o.1.world × IsHeld k o.1.world
      → Reach env w (recover env k label o).1.world
  unfolding recover
  recover-Reach label w (returned x, m) h = h.0
  recover-Reach label w (raised cancelled_error, m) h = h.0
  recover-Reach label w (raised (http code detail), m) h =
      Reach-trans h.0 (fail_pipeline-Reach label (http code detail) m h.1)
  recover-Reach label w (raised attribute_error, m) h =
      Reach-trans h.0 (fail_pipeline-Reach label attribute_error m h.1)
  recover-Reach label w (raised (other_error name shown), m) h =
      Reach-trans h.0 (fail_pipeline-Reach label (other_error name shown) m h.1)

  guarded-Reach :
      (label message : Text) (b : Bool) (steps : Action (Unit {0})) (m : Machine)
      → Along (Goes env k) steps
      → IsLive k m.world
      → Reach env m.world
          (guarded env k label (steps >> finalize_pipeline env k message b) m).1.world
  unfolding guarded
  guarded-Reach label message b steps m go live =
      let (path, (r, held, _)) = go.at m live in
      recover-Reach label m.world _ (
        Along-after Reaches Reaches-IsPreorder steps (finalize_pipeline env k message b) m
          (λ h. (path, (r, held))) (finalize_pipeline-Reaches message b) (live.0, live.1))

module _ (s : Setup) (k : Text) where
  either-Goes :
      (mocks : List MockStep) (steps : List Common.Step)
      → Along (Goes s.readings k) (
          if is_mock_enabled s
          then run_mock_steps s.readings k mocks
          else run_steps s.readings k steps)
  either-Goes mocks steps =
      Along-if (Goes s.readings k) (is_mock_enabled s) _ _ (run_mock_steps-Goes s.readings k mocks)
        (run_steps-Goes s.readings k steps)

  create_with-Goes :
      (request : ClusterCreateRequest) (o : Outcome (Option Text))
      → Along (Goes s.readings k) (cluster_create_with s k request o)
  unfolding cluster_create_with
  create_with-Goes request (returned version) = run_steps-Goes s.readings k _
  create_with-Goes request (raised e) =
      Along-raise (Goes s.readings k) (Goes-IsPreorder s.readings k) e

  -- All that a pipeline does to the state of the manager are steps of the manager, whatever its commands
  -- print and return, if its operation has not ended or was cancelled when it starts. So its calls of
  -- update_operation, which checks nothing, are among those that the step relation allows.
  pub run_pipeline-Reach :
      (p : Pipeline) (m : Machine)
      → IsLive k m.world
      → Reach s.readings m.world (run_pipeline s k p m).1.world
  unfolding run_cluster_create run_cluster_delete run_workstation_create run_workstation_delete
      run_edge_router_create run_edge_router_delete
  run_pipeline-Reach (build_cluster request) m h =
      guarded-Reach s.readings k _ _ _ _ m
        (Along-if (Goes s.readings k) (is_mock_enabled s) _ _
          (run_mock_steps-Goes s.readings k (cluster_create_mock request))
          (create_with-Goes request (s.get_abm_version request.emulate_gdc_version)))
        h
  run_pipeline-Reach (teardown_cluster request) m h =
      guarded-Reach s.readings k _ _ _ _ m
        (either-Goes cluster_delete_mock (cluster_delete_steps s k request)) h
  run_pipeline-Reach (build_workstation request) m h =
      guarded-Reach s.readings k _ _ _ _ m
        (either-Goes workstation_create_mock (workstation_create_steps s k request)) h
  run_pipeline-Reach (teardown_workstation request) m h =
      guarded-Reach s.readings k _ _ _ _ m
        (either-Goes workstation_delete_mock (workstation_delete_steps s k request)) h
  run_pipeline-Reach (build_edge_router request) m h =
      guarded-Reach s.readings k _ _ _ _ m
        (either-Goes edge_router_create_mock (edge_router_create_steps s k request)) h
  run_pipeline-Reach (teardown_edge_router request) m h =
      guarded-Reach s.readings k _ _ _ _ m
        (either-Goes edge_router_delete_mock (edge_router_delete_steps s k request)) h

  -- A pipeline keeps the invariants of the manager, whatever its commands print and return: if it runs in
  -- a state that the manager reaches by its steps, on an operation that has not ended or was cancelled,
  -- then behind it, too, no resource has two active operations, each record stands under its own id, and
  -- a record has a time of completion exactly where its status is final.
  pub run_pipeline-IsConsistent :
      (p : Pipeline) (m : Machine)
      → Reach s.readings empty_world m.world
      → IsLive k m.world
      → IsConsistent (run_pipeline s k p m).1.world
  run_pipeline-IsConsistent p m path live =
      Reach-IsConsistent (Reach-trans path (run_pipeline-Reach p m live))
