-- ===== src/Execution/Tasks.antt =====
-- The data of packages/execution/src/index.ts: tasks, plans, lifecycle events, dry-run results.
use protostar.Base.{ℕ, String, List, Option}

-- `StageArtifactRef` of packages/artifacts/src/index.ts. A stage is named by its text.
pub record StageArtifactRef : Type 0 where
  pub stage : String
  pub kind : String
  pub uri : String
  pub sha256 : Option String
  pub description : Option String

pub data TaskStatus : Type 0 where
  pending running succeeded failed timeout cancelled : TaskStatus

pub record ExecutionTask : Type 0 where
  pub plan_task_id : String
  pub title : String
  pub status : TaskStatus
  pub depends_on : List String
  pub target_files : Option (List String)
  pub adapter_ref : Option String

-- `ExecutionRunPlan`, without the evidence and the workspace, which the dry run does not read.
pub record ExecutionRunPlan : Type 0 where
  pub run_id : String
  pub plan_id : String
  pub tasks : List ExecutionTask

pub data EventType : Type 0 where
  task_pending task_running task_succeeded task_failed task_timeout task_cancelled : EventType

pub record LifecycleEvent : Type 0 where
  pub type : EventType
  pub run_id : String
  pub plan_task_id : String
  pub at : String
  pub attempt : Option ℕ
  pub status : TaskStatus
  pub reason : Option String
  pub blocked_by : Option (List String)
  pub evidence : Option (List StageArtifactRef)

pub record DryRunTaskResult : Type 0 where
  pub task : ExecutionTask
  pub evidence : List StageArtifactRef
  pub reason : Option String

pub record DryRunResult : Type 0 where
  pub run_id : String
  pub plan_id : String
  pub status : TaskStatus
  pub tasks : List DryRunTaskResult
  pub events : List LifecycleEvent
  pub evidence : List StageArtifactRef
