-- ===== src/Planning/Handoff.antt =====
-- What becomes of the tasks of an admitted plan: createAdmittedPlanExecutionArtifact of
-- packages/planning/src/index.ts and prepareExecutionRun of packages/execution/src/index.ts. The
-- references and the evidence of the artifact are left out, and so is assertAdmittedPlanExecutionArtifact,
-- which checks them.
pub mod Checked
pub mod Runs
use protostar.Base.{String, List, Option, none, some, map}
use protostar.Planning.Types.{AcceptanceTestRef, PlanTask}
use protostar.Planning.Order.{topo_sort_plan_tasks}
use protostar.Execution.Tasks.{ExecutionTask, ExecutionRunPlan, pending}

pub record ArtifactTask : Type 0 where
  pub plan_task_id : String
  pub title : String
  pub depends_on : List String
  pub target_files : Option (List String)
  pub acceptance_test_refs : Option (List AcceptanceTestRef)
  pub adapter_ref : Option String

abbrev pub artifact_task : PlanTask → ArtifactTask
artifact_task t = record {
  plan_task_id = t.id;
  title = t.title;
  depends_on = t.depends_on;
  target_files = t.target_files;
  acceptance_test_refs = t.acceptance_test_refs;
  adapter_ref = t.adapter_ref;
}

abbrev pub map_sorted : Option (List PlanTask) → Option (List ArtifactTask)
map_sorted none = none
map_sorted (some sorted) = some (map artifact_task sorted)

-- The `tasks` of the artifact; `none` stands for a search that runs out of fuel.
unfoldable pub create_artifact_tasks : List PlanTask → Option (List ArtifactTask)
create_artifact_tasks tasks = map_sorted (topo_sort_plan_tasks tasks)

abbrev pub pending_task : ArtifactTask → ExecutionTask
pending_task t = record {
  plan_task_id = t.plan_task_id;
  title = t.title;
  status = pending;
  depends_on = t.depends_on;
  target_files = t.target_files;
  adapter_ref = t.adapter_ref;
}

unfoldable pub prepare_execution_run : String → String → List ArtifactTask → ExecutionRunPlan
prepare_execution_run run_id plan_id tasks = record {
  run_id = run_id;
  plan_id = plan_id;
  tasks = map pending_task tasks;
}
