-- ===== src/Review/Mechanical/Examples.antt =====
-- The mechanical review of a plan of three tasks.
use protostar.Base.{
  ℕ, ◌≡◌, ◌≢◌, ◌≤◌, ◌↔◌, refl, String, Bool, true, List, [], ◌∷◌, none, some, arith, length,
}
use protostar.Base.Number.{pos}
use protostar.Execution.Tasks.{DryRunResult, failed}
use protostar.Execution.DryRun.{run_execution_dry_run}
use protostar.Planning.Examples.{
  three_tasks, three_tasks_ok, three_tasks_clear, three_tasks_well_formed,
}
use protostar.Planning.Handoff.{ArtifactTask, create_artifact_tasks, prepare_execution_run}
use protostar.Review.Types.{pass, block}
use protostar.Review.Mechanical.{
  PlanEvidence, AdmittedPlan, MechanicalReviewGateInput, create_mechanical_review_gate,
}
use protostar.Review.Mechanical.Agreement.{IsConsistent, IsComplete}
use protostar.Review.Mechanical.Verdicts.{create_mechanical_review_gate-verdict}
use protostar.Review.Mechanical.Loop.{
  LoopAction, approved, repair_and_retry, repair_limit_reached, LoopOutcome, returned,
  ReviewExecutionLoopInput, run_mechanical_review_execution_loop, max_loops, whole, between, allows,
  is_reached, exited_unexpectedly,
}
use protostar.Review.Mechanical.Rounds.{prepared}
use protostar.Review.Mechanical.Repairs.{
  Returns, run_mechanical_review_execution_loop-Returns,
  run_mechanical_review_execution_loop-approved,
}
use protostar.Review.Mechanical.Plans.{admitted, loop_of, checked_plan-approved}

abbrev evidence : PlanEvidence
evidence = record {
  plan_id = "plan";
  intent_id = "intent";
  plan_graph_uri = "plan.json";
  planning_admission_artifact = "planning-admission.json";
  planning_admission_uri = "planning-admission.json";
  validation_source = "planning-admission";
  proof_source = "PlanGraph";
}

abbrev artifact_task : String → List String → ArtifactTask
artifact_task id depends_on = record {
  plan_task_id = id;
  title = "a task";
  depends_on = depends_on;
  target_files = none;
  acceptance_test_refs = none;
  adapter_ref = none;
}

abbrev two_tasks : AdmittedPlan
two_tasks =
    admitted "plan" evidence
      (artifact_task "task-a" [] ∷ artifact_task "task-b" ("task-a" ∷ []) ∷ [])

abbrev clock : ℕ → ℕ → String
clock a k = "now"

abbrev accept : AdmittedPlan → Bool
accept plan = true

abbrev statuses : LoopOutcome → List LoopAction
statuses (returned r) = r.status ∷ []
statuses _ = []

-- A failure of the first task blocks the second; one repair clears both.
repaired_once :
    statuses (loop_of accept two_tasks "run" (some ("task-a" ∷ [])) (some (whole (pos 1))) clock)
    ≡ approved ∷ []
unfolding run_mechanical_review_execution_loop run_execution_dry_run prepare_execution_run
repaired_once = refl

not_repaired :
    statuses (loop_of accept two_tasks "run" (some ("task-a" ∷ [])) none clock)
    ≡ repair_limit_reached ∷ []
unfolding run_mechanical_review_execution_loop run_execution_dry_run prepare_execution_run
not_repaired = refl

-- A result of another run, without its tasks.
abbrev foreign_result : DryRunResult
foreign_result = record {
  run_id = "other";
  plan_id = "plan";
  status = failed;
  tasks = [];
  events = [];
  evidence = [];
}

abbrev foreign_input : MechanicalReviewGateInput
foreign_input = record {
  admitted_plan = two_tasks;
  execution = prepared "run" two_tasks;
  execution_result = foreign_result;
}

foreign_blocked : (create_mechanical_review_gate foreign_input).verdict ≡ block
unfolding create_mechanical_review_gate prepare_execution_run
foreign_blocked = refl

create_mechanical_review_gate-verdict_example :
    (((create_mechanical_review_gate foreign_input).verdict ≡ block)
      ↔ (¬ (IsConsistent foreign_input)))
    × (((create_mechanical_review_gate foreign_input).verdict ≡ pass)
        ↔ (IsConsistent foreign_input × IsComplete foreign_result))
create_mechanical_review_gate-verdict_example = create_mechanical_review_gate-verdict foreign_input

abbrev two_tasks_input : ReviewExecutionLoopInput
two_tasks_input = record {
  admitted_plan = two_tasks;
  execution = prepared "run" two_tasks;
  initial_fail_task_ids = some ("task-a" ∷ []);
  max_repair_loops = some (whole (pos 3));
  now = clock;
}

run_mechanical_review_execution_loop-Returns_example :
    Returns
      (run_mechanical_review_execution_loop accept 4 two_tasks_input)
      (λ r. (r.status ≢ repair_and_retry) × (length r.iterations ≤ 4))
unfolding max_loops
run_mechanical_review_execution_loop-Returns_example =
    run_mechanical_review_execution_loop-Returns accept two_tasks_input 3 4 refl refl (omega arith)

-- With a bound between 0 and 1 and a failure the loop throws.
half-exits :
    run_mechanical_review_execution_loop accept 4
      (record two_tasks_input { max_repair_loops = some (between (pos 0)) })
    ≡ exited_unexpectedly
unfolding max_loops allows is_reached
half-exits =
    run_mechanical_review_execution_loop-approved two_tasks "run" (some ("task-a" ∷ []))
      (some (between (pos 0))) clock (refl, (refl, tt)) (refl, refl, (refl, refl, tt)) accept 2 refl

checked_plan-approved_example :
    (artifact : List ArtifactTask) × (create_artifact_tasks three_tasks ≡ some artifact)
    × Returns
        (loop_of accept
          (admitted "plan" evidence artifact)
          "run"
          (some ("task-v" ∷ []))
          (some (whole (pos 1)))
          clock)
        (λ r. (r.status ≡ approved) × (length r.iterations ≤ 2))
unfolding max_loops allows
checked_plan-approved_example =
    checked_plan-approved accept three_tasks "plan" evidence "run" (some ("task-v" ∷ []))
      (some (whole (pos 1))) clock three_tasks_ok three_tasks_well_formed three_tasks_clear
      (λ a e. refl) refl
