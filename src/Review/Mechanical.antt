-- ===== src/Review/Mechanical.antt =====
-- The mechanical gate of packages/review/src/index.ts: createMechanicalReviewGate compares an
-- execution and its dry run with the admitted plan and turns what it finds into a verdict.
pub mod Agreement
pub mod Verdicts
pub mod Loop
pub mod Rounds
pub mod Repairs
pub mod Plans
mod Examples
use Prim.Native.String
use protostar.Base.{
  String, Bool, true, false, not, ◌&&◌, ◌||◌, List, [], ◌∷◌, ◌++◌, Option, none, some, Dict, get,
  put, keys, ◌==◌, has, any, flat_map, map, is_empty, or_else, if◌then◌else◌,
}
use protostar.Execution.Tasks.{
  StageArtifactRef, TaskStatus, succeeded, failed, ExecutionTask, ExecutionRunPlan,
  DryRunTaskResult, DryRunResult,
}
use protostar.Execution.DryRun.{is_succeeded}
use protostar.Planning.Handoff.{ArtifactTask}
use protostar.Review.Types.{
  Verdict, pass, repair, block, Severity, major, critical, ReviewFinding, ReviewGate,
}
use protostar.Review.Loop.{unique, finding_ids}

-- The fields of the evidence of an admitted plan that are compared.
pub record PlanEvidence : Type 0 where
  pub plan_id : String
  pub intent_id : String
  pub plan_graph_uri : String
  pub planning_admission_artifact : String
  pub planning_admission_uri : String
  pub validation_source : String
  pub proof_source : String

-- What the gate reads of an `AdmittedPlanExecutionArtifact`.
pub record AdmittedPlan : Type 0 where
  pub plan_id : String
  pub evidence : PlanEvidence
  pub tasks : List ArtifactTask

-- An `ExecutionRunPlan` with the evidence in its field `admittedPlan`.
pub record DerivedExecution : Type 0 where
  pub plan : ExecutionRunPlan
  pub admitted_plan : PlanEvidence

pub record MechanicalReviewGateInput : Type 0 where
  pub admitted_plan : AdmittedPlan
  pub execution : DerivedExecution
  pub execution_result : DryRunResult

abbrev artifact_ref : String → String → String → String → StageArtifactRef
artifact_ref stage kind uri description = record {
  stage = stage;
  kind = kind;
  uri = uri;
  sha256 = none;
  description = some description;
}

abbrev pub planning_admission_artifact : StageArtifactRef
planning_admission_artifact =
    artifact_ref "planning" "planning-admission" "planning-admission.json"
      "Planning admission evidence that admitted the reviewed plan."

abbrev pub execution_plan_artifact : StageArtifactRef
execution_plan_artifact =
    artifact_ref "execution" "execution-plan" "execution-plan.json"
      "Execution task ordering derived from the plan graph."

abbrev pub execution_result_artifact : StageArtifactRef
execution_result_artifact =
    artifact_ref "execution" "execution-result" "execution-result.json" "Dry-run execution result."

-- `finding` with the severity "critical" and no repair task.
abbrev pub inconsistency : String → List StageArtifactRef → ReviewFinding
inconsistency summary evidence = record {
  rule_id = "execution-result-consistency";
  severity = critical;
  summary = summary;
  evidence = evidence;
  repair_task_id = none;
}

unfoldable pub same_admitted_plan_evidence : PlanEvidence → PlanEvidence → Bool
same_admitted_plan_evidence left right =
    left.plan_id == right.plan_id
    && (left.intent_id == right.intent_id
        && (left.plan_graph_uri == right.plan_graph_uri
            && (left.planning_admission_artifact == right.planning_admission_artifact
                && (left.planning_admission_uri == right.planning_admission_uri
                    && (left.validation_source == right.validation_source
                        && left.proof_source == right.proof_source)))))

-- Equal length and equal values at each index.
unfoldable pub same_ordered_values : List String → List String → Bool
same_ordered_values [] [] = true
same_ordered_values (x ∷ xs) (y ∷ ys) = x == y && same_ordered_values xs ys
same_ordered_values _ _ = false

-- What the gate compares of a task: its title and its dependencies.
abbrev pub Contract : Type 0
Contract = String × List String

abbrev pub artifact_contract : ArtifactTask → Contract
artifact_contract t = (t.title, t.depends_on)

abbrev pub execution_contract : ExecutionTask → Contract
execution_contract t = (t.title, t.depends_on)

abbrev pub result_contract : DryRunTaskResult → Contract
result_contract r = execution_contract r.task

unfoldable pub differs : Contract → Contract → Bool
unfolding same_ordered_values
differs (title, deps) (title', deps') =
    not (title == title') || not (same_ordered_values deps deps')

-- `new Map(xs.map((x) => [id of x, contract of x]))`
module _ {A : Type 0} (id : A → String) (contract : A → Contract) where
  unfoldable pub contracts_from : List A → Dict Contract → Dict Contract
  contracts_from [] m = m
  contracts_from (x ∷ xs) m = contracts_from xs (put m (id x) (contract x))

abbrev pub artifact_contracts : List ArtifactTask → Dict Contract
artifact_contracts ts = contracts_from (λ t. t.plan_task_id) artifact_contract ts []

abbrev pub execution_contracts : List ExecutionTask → Dict Contract
execution_contracts ts = contracts_from (λ t. t.plan_task_id) execution_contract ts []

abbrev pub result_contracts : List DryRunTaskResult → Dict Contract
result_contracts rs = contracts_from (λ r. r.task.plan_task_id) result_contract rs []

-- The findings on one task of one of the two artifacts; the texts are of the callers.
unfoldable pub contract_findings :
    (missing mismatch : String)
    → List StageArtifactRef
    → Option Contract
    → Option Contract
    → List ReviewFinding
unfolding differs
contract_findings missing mismatch refs admitted none = inconsistency missing refs ∷ []
contract_findings missing mismatch refs none (some c) = []
contract_findings missing mismatch refs (some a) (some c) =
    if differs c a then inconsistency mismatch refs ∷ [] else []

abbrev around : String → String → String → String
around before id after = String.◌++◌ (String.◌++◌ before id) after

-- One round of the loop over the expected task ids.
unfoldable pub task_findings :
    (admitted execution result : Dict Contract) → String → List ReviewFinding
unfolding contract_findings
task_findings admitted execution result id =
    contract_findings (around "Plan task " id " is missing from the execution plan.")
      (around "Execution plan task " id " does not match the admitted plan artifact task contract.")
      (planning_admission_artifact ∷ execution_plan_artifact ∷ []) (get admitted id)
      (get execution id)
    ++ contract_findings (around "Plan task " id " is missing from the execution result.")
        (around "Execution result task " id
          " does not match the admitted plan artifact task contract.")
        (planning_admission_artifact ∷ execution_result_artifact ∷ []) (get admitted id)
        (get result id)

abbrev all_artifacts : List StageArtifactRef
all_artifacts =
    planning_admission_artifact ∷ execution_plan_artifact ∷ execution_result_artifact ∷ []

-- One round of the loop over the ids of the execution plan and of the result.
unfoldable pub foreign_findings : Dict Contract → String → List ReviewFinding
foreign_findings admitted id =
    if has (keys admitted) id
    then []
    else inconsistency
        (around "Execution artifacts reference task " id ", which is not in the reviewed plan.")
        all_artifacts
      ∷ []

unfoldable pub when : Bool → ReviewFinding → List ReviewFinding
when b f = if b then f ∷ [] else []

-- The three findings that stand before the loops.
unfoldable pub artifact_findings : MechanicalReviewGateInput → List ReviewFinding
unfolding same_admitted_plan_evidence when
artifact_findings input =
    let plan = input.execution.plan in
    let result = input.execution_result in
    when (not (plan.run_id == result.run_id)) (
      inconsistency
        (String.◌++◌
          (around "Execution result runId " result.run_id " does not match execution runId ")
          (String.◌++◌ plan.run_id "."))
        (execution_result_artifact ∷ []))
    ++ (when
          (not (plan.plan_id == input.admitted_plan.plan_id)
            || not (result.plan_id == input.admitted_plan.plan_id))
          (inconsistency "Execution artifacts do not all reference the admitted plan id."
            all_artifacts)
        ++ when
            (not (
              same_admitted_plan_evidence input.execution.admitted_plan
                input.admitted_plan.evidence))
            (inconsistency
              "Execution plan was not derived from the reviewed admitted plan artifact evidence."
              (planning_admission_artifact ∷ execution_plan_artifact ∷ [])))

abbrev pub task_ids_of : List ExecutionTask → List String
task_ids_of ts = unique [] (map (λ t. t.plan_task_id) ts)

abbrev pub result_ids_of : List DryRunTaskResult → List String
result_ids_of rs = unique [] (map (λ r. r.task.plan_task_id) rs)

unfoldable pub review_execution_consistency : MechanicalReviewGateInput → List ReviewFinding
unfolding artifact_findings task_findings foreign_findings contracts_from
review_execution_consistency input =
    let admitted = artifact_contracts input.admitted_plan.tasks in
    let tasks = input.execution.plan.tasks in
    let results = input.execution_result.tasks in
    artifact_findings input
    ++ (flat_map (task_findings admitted (execution_contracts tasks) (result_contracts results))
          (keys admitted)
        ++ flat_map (foreign_findings admitted) (task_ids_of tasks ++ result_ids_of results))

unfoldable pub review_execution_completion : DryRunResult → List ReviewFinding
review_execution_completion result =
    if is_succeeded result.status
    then []
    else record {
      rule_id = "execution-completed";
      severity = major;
      summary = "Execution did not pass; review gate requires repair before release.";
      evidence = execution_result_artifact ∷ [];
      repair_task_id = none;
    }
      ∷ []

abbrev or_result : List StageArtifactRef → List StageArtifactRef
or_result [] = execution_result_artifact ∷ []
or_result (r ∷ rs) = r ∷ rs

abbrev is_failed : TaskStatus → Bool
is_failed failed = true
is_failed _ = false

unfoldable pub task_evidence_findings : DryRunTaskResult → List ReviewFinding
task_evidence_findings r =
    if is_failed r.task.status
    then record {
      rule_id = "execution-completed";
      severity = major;
      summary =
          String.◌++◌ (around "Execution task " r.task.plan_task_id " failed: ")
            (or_else r.reason "no reason recorded");
      evidence = or_result r.evidence;
      repair_task_id = some r.task.plan_task_id;
    }
      ∷ []
    else if is_empty r.evidence
    then record {
      rule_id = "task-evidence-present";
      severity = major;
      summary = around "Succeeded execution task " r.task.plan_task_id " has no evidence artifact.";
      evidence = execution_result_artifact ∷ [];
      repair_task_id = some r.task.plan_task_id;
    }
      ∷ []
    else []

unfoldable pub review_task_evidence : DryRunResult → List ReviewFinding
unfolding task_evidence_findings
review_task_evidence result = flat_map task_evidence_findings result.tasks

abbrev pub is_critical : Severity → Bool
is_critical critical = true
is_critical _ = false

unfoldable pub verdict_of : List ReviewFinding → Verdict
verdict_of findings =
    if any (λ f. is_critical f.severity) findings
    then block
    else if is_empty findings
    then pass
    else repair

-- createReviewGate, behind its assert on the artifact.
unfoldable pub create_review_gate :
    AdmittedPlan → DerivedExecution → List ReviewFinding → ReviewGate
unfolding verdict_of
create_review_gate plan execution findings = record {
  plan_id = plan.plan_id;
  run_id = execution.plan.run_id;
  verdict = verdict_of findings;
  findings = findings;
}

-- createMechanicalReviewGate, behind its assert on the artifact.
unfoldable pub create_mechanical_review_gate : MechanicalReviewGateInput → ReviewGate
unfolding create_review_gate review_execution_consistency review_execution_completion
    review_task_evidence
create_mechanical_review_gate input = create_review_gate input.admitted_plan input.execution (
    review_execution_consistency input
    ++ (review_execution_completion input.execution_result
        ++ review_task_evidence input.execution_result))

unfoldable pub unique_repair_task_ids : ReviewGate → List String
unique_repair_task_ids gate = unique [] (flat_map (λ f. finding_ids f.repair_task_id) gate.findings)
