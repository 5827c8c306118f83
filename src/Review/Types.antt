-- ===== src/Review/Types.antt =====
-- The data of packages/review/src that the review-repair loop handles: gates, findings, critiques,
-- iteration records, lifecycle events and artifacts.
use protostar.Base.{ℕ, String, List, Option}
use protostar.Base.Number.{Number}
use protostar.Execution.Tasks.{StageArtifactRef}
use protostar.Repair.Synthesis.{RepairPlan}

pub data Verdict : Type 0 where
  pass repair block : Verdict

pub data Severity : Type 0 where
  info minor major critical : Severity

-- The rule of a finding is named by its text.
pub record ReviewFinding : Type 0 where
  pub rule_id : String
  pub severity : Severity
  pub summary : String
  pub evidence : List StageArtifactRef
  pub repair_task_id : Option String

-- `ReviewGate`, without the optional scores, which the loop does not read.
pub record ReviewGate : Type 0 where
  pub plan_id : String
  pub run_id : String
  pub verdict : Verdict
  pub findings : List ReviewFinding

-- Of the result of the mechanical checks the loop reads the changed files; the rest is its text.
pub record MechanicalCheckResult : Type 0 where
  pub diff_name_only : List String
  pub details : String

pub record JudgeCritique : Type 0 where
  pub judge_id : String
  pub model : String
  pub rubric : List (String × Number)
  pub verdict : Verdict
  pub rationale : String
  pub task_refs : List String

pub record ModelReviewResult : Type 0 where
  pub verdict : Verdict
  pub critiques : List JudgeCritique

-- `ExecutionRunResult`: the artifacts, and its attempt.
pub record ExecutionRunResult : Type 0 where
  pub attempt : ℕ
  pub journal_artifact : StageArtifactRef
  pub diff_artifact : Option StageArtifactRef

abbrev pub ReviewRepairPlan : Type 0
ReviewRepairPlan = RepairPlan ReviewFinding JudgeCritique

pub data BlockReason : Type 0 where
  budget_exhausted critical_finding mechanical_block model_block : BlockReason

pub record IterationRecord : Type 0 where
  pub attempt : ℕ
  pub mechanical : MechanicalCheckResult
  pub mechanical_gate : ReviewGate
  pub model : Option ModelReviewResult
  pub repair_plan : Option ReviewRepairPlan

pub data ReviewEvent : Type 0 where
  review_iteration_started : (run_id : String) (attempt : ℕ) (at : String) → ReviewEvent
  mechanical_verdict :
      (run_id : String) (attempt : ℕ) → Verdict → (findings_count : ℕ) (at : String) → ReviewEvent
  model_verdict :
      (run_id : String) (attempt : ℕ)
      → Verdict
      → (judge_ids : List String) (at : String) → ReviewEvent
  repair_plan_emitted :
      (run_id : String) (attempt : ℕ) (repair_task_ids : List String) (at : String) → ReviewEvent
  repair_plan_refined : (run_id : String) (attempt : ℕ) (at : String) → ReviewEvent
  loop_approved : (run_id : String) (final_attempt : ℕ) (decision_uri at : String) → ReviewEvent
  loop_blocked :
      (run_id : String) → BlockReason → (final_attempt : ℕ) (block_uri at : String) → ReviewEvent
  loop_budget_exhausted : (run_id : String) (attempted : ℕ) (block_uri at : String) → ReviewEvent

-- `ReviewDecisionArtifact`; its two verdicts are the constant "pass".
pub record DecisionArtifact : Type 0 where
  pub run_id : String
  pub plan_id : String
  pub authorized_at : String
  pub final_iteration : ℕ
  pub final_diff_artifact : StageArtifactRef

-- What reviewBlockArtifact returns; its status is the constant "block".
pub record BlockArtifact : Type 0 where
  pub run_id : String
  pub plan_id : String
  pub reason : BlockReason
  pub iterations : List IterationRecord
  pub final_diff_artifact : StageArtifactRef
  pub max_repair_loops : ℕ
  pub attempted : ℕ

pub record DeliveryAuthorization : Type 0 where
  pub run_id : String
  pub decision_path : String

pub data LoopResult : Type 0 where
  approved :
      DeliveryAuthorization
      → (final_attempt : ℕ) (decision_path : String) → List IterationRecord
      → LoopResult
  blocked :
      BlockReason → (final_attempt : ℕ) (block_path : String) → List IterationRecord → LoopResult
