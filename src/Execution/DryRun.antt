-- ===== src/Execution/DryRun.antt =====
-- runExecutionDryRun of packages/execution/src/index.ts. `now k` is what the k-th call of the clock
-- returns; the code calls it once for each event that it pushes. `none` stands for the Error that
-- the code throws when a task has no result.
pub mod Steps
pub mod Outcomes
pub mod Runs
pub mod Results
use Prim.Native.String
use protostar.Base.{
  ℕ, String, Bool, true, false, not, List, [], ◌∷◌, ◌++◌, Option, none, some, Dict, get, put, has,
  all, filter, length, is_empty, if◌then◌else◌,
}
use protostar.Execution.Tasks.{
  StageArtifactRef, TaskStatus, pending, running, succeeded, failed, ExecutionTask,
  ExecutionRunPlan, EventType, task_pending, task_running, task_succeeded, task_failed,
  LifecycleEvent, DryRunTaskResult, DryRunResult,
}

abbrev pub is_succeeded : TaskStatus → Bool
is_succeeded succeeded = true
is_succeeded _ = false

abbrev evidence_uri : String → String
evidence_uri id = String.◌++◌ (String.◌++◌ "execution-evidence/" id) ".json"

unfoldable pub task_evidence_ref : String → Bool → StageArtifactRef
task_evidence_ref id passed = record {
  stage = "execution";
  kind = if passed then "dry-run-task-pass" else "dry-run-task-failure";
  uri = evidence_uri id;
  sha256 = none;
  description = some (
      String.◌++◌
        (String.◌++◌
          (if passed
            then "Dry-run evidence for completed task "
            else "Dry-run evidence for failed task ")
          id)
        ".");
}

-- The variables that the loop over the tasks assigns to.
pub record RunState : Type 0 where
  pub task_status : Dict DryRunTaskResult
  pub events : List LifecycleEvent
  pub evidence : List StageArtifactRef

abbrev pub start : RunState
start = record { task_status = []; events = []; evidence = [] }

-- `taskStatus.get(id)?.status === "succeeded"`.
abbrev pub result_succeeded : Option DryRunTaskResult → Bool
result_succeeded none = false
result_succeeded (some r) = is_succeeded r.task.status

module _ (run_id : String) (fail_ids : List String) (now : ℕ → String) where
  -- The fields that every event has.
  abbrev event : EventType → TaskStatus → ExecutionTask → RunState → LifecycleEvent
  event type status task s = record {
    type = type;
    run_id = run_id;
    plan_task_id = task.plan_task_id;
    at = now (length s.events);
    attempt = none;
    status = status;
    reason = none;
    blocked_by = none;
    evidence = none;
  }

  abbrev push : LifecycleEvent → RunState → RunState
  push e s = record s { events = s.events ++ e ∷ [] }

  abbrev finish :
      ExecutionTask → TaskStatus → List StageArtifactRef → Option String → RunState → RunState
  finish task status refs reason s = record s {
    task_status =
        put s.task_status task.plan_task_id
          (record { task = record task { status = status }; evidence = refs; reason = reason });
    evidence = s.evidence ++ refs;
  }

  unfoldable pub failed_dependencies : ExecutionTask → RunState → List String
  failed_dependencies task s =
      filter (λ d. not (result_succeeded (get s.task_status d))) task.depends_on

  -- The early `continue` of a task whose dependencies did not succeed.
  unfoldable pub block_task : ExecutionTask → List String → RunState → RunState
  block_task task blockers s =
      let s' = finish task failed [] (some "dependency-failed") s in
      push
        (record (event task_failed failed task s') {
          blocked_by = some blockers;
          reason = some "dependency-failed";
        })
        s'

  unfoldable pub fail_task : ExecutionTask → RunState → RunState
  unfolding task_evidence_ref
  fail_task task s =
      let refs = task_evidence_ref task.plan_task_id false ∷ [] in
      let s' = finish task failed refs (some "Injected dry-run failure.") s in
      push
        (record (event task_failed failed task s') {
          reason = some "Injected dry-run failure.";
          evidence = some refs;
        })
        s'

  unfoldable pub pass_task : ExecutionTask → RunState → RunState
  unfolding task_evidence_ref
  pass_task task s =
      let refs = task_evidence_ref task.plan_task_id true ∷ [] in
      let s' = finish task succeeded refs none s in
      push (record (event task_succeeded succeeded task s') { evidence = some refs }) s'

  -- One round of the loop.
  unfoldable pub run_task : ExecutionTask → RunState → RunState
  unfolding failed_dependencies block_task fail_task pass_task
  run_task task s =
      let s₁ = push (event task_pending pending task s) s in
      let blockers = failed_dependencies task s₁ in
      if is_empty blockers
      then (let s₂ = push (event task_running running task s₁) s₁ in
          if has fail_ids task.plan_task_id then fail_task task s₂ else pass_task task s₂)
      else block_task task blockers s₁

  unfoldable pub run_tasks : List ExecutionTask → RunState → RunState
  unfolding run_task
  run_tasks [] s = s
  run_tasks (task ∷ tasks) s = run_tasks tasks (run_task task s)

-- `tasks.map((task) => taskStatus.get(task.planTaskId))`, which throws on a missing result.
unfoldable pub collect : Dict DryRunTaskResult → List ExecutionTask → Option (List DryRunTaskResult)
collect m [] = some []
collect m (task ∷ tasks) = elim (get m task.plan_task_id) [
  | none ↦ none
  | some r ↦ elim (collect m tasks) [ none ↦ none | some rs ↦ some (r ∷ rs) ]
]

unfoldable pub run_execution_dry_run :
    ExecutionRunPlan → List String → (ℕ → String) → Option DryRunResult
unfolding run_tasks collect
run_execution_dry_run plan fail_ids now =
    let s = run_tasks plan.run_id fail_ids now plan.tasks start in
    elim (collect s.task_status plan.tasks) [
      | none ↦ none
      | some tasks ↦ some (record {
        run_id = plan.run_id;
        plan_id = plan.plan_id;
        status = if all (λ r. is_succeeded r.task.status) tasks then succeeded else failed;
        tasks = tasks;
        events = s.events;
        evidence = s.evidence;
      })
    ]
