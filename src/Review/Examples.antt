-- ===== src/Review/Examples.antt =====
-- A review-repair loop of two rounds, which repairs and then approves, and one whose budget is used
-- up.
use protostar.Base.{ℕ, zero, suc, ◌≤◌, ◌≡◌, refl, List, [], ◌∷◌, none, some}
use protostar.Execution.Tasks.{StageArtifactRef}
use protostar.Repair.Subgraph.{
  compute_repair_subgraph, first_unknown, add_dependents, dependents_by_task_id, select,
}
use protostar.Repair.Synthesis.{
  synthesize_repair_plan, group_findings, group_critiques, group_refs, repairs_of,
}
use protostar.Review.Types.{
  Verdict, pass, repair, major, ReviewGate, MechanicalCheckResult, ExecutionRunResult,
  IterationRecord, budget_exhausted, LoopResult, approved, blocked, DeliveryAuthorization,
}
use protostar.Review.Effects.{
  History, World, reviewed, unchanged, service_rejected, Outcome, done, thrown, and_then, answered,
  IsExpected,
}
use protostar.Review.Loop.{
  LoopInput, unique_repair_task_ids, model_block_from_error, block_artifact, block_loop,
  budget_exhausted_loop, approve_loop, refine, deterministic_plan, repair_tasks, repair_or_stop,
  ask_model, after_model, after_checks, review_round, review_rounds, run_review_repair_loop,
}
use protostar.Review.Loop.Justified.{
  WasApproved, IsPassed, IsGround, EndsWith, IsCounted, decisions,
}
use protostar.Review.Loop.Runs.{
  run_review_repair_loop-approved, run_review_repair_loop-blocked,
  run_review_repair_loop-IsExpected,
}

abbrev journal : StageArtifactRef
journal = record {
  stage = "execution";
  kind = "journal";
  uri = "journal.jsonl";
  sha256 = none;
  description = none;
}

abbrev gate : Verdict → ReviewGate
gate pass = record { plan_id = "plan-1"; run_id = "run-1"; verdict = pass; findings = [] }
gate verdict = record {
  plan_id = "plan-1";
  run_id = "run-1";
  verdict = verdict;
  findings =
      record {
        rule_id = "build-failed";
        severity = major;
        summary = "The build failed.";
        evidence = [];
        repair_task_id = some "a";
      }
      ∷ [];
}

abbrev checked : MechanicalCheckResult
checked = record { diff_name_only = "src/a.ts" ∷ []; details = "" }

abbrev execution : ℕ → ExecutionRunResult
execution n = record { attempt = n; journal_artifact = journal; diff_artifact = none }

-- The mechanical checks ask for a repair in the first attempt, and pass later.
abbrev verdict_at : ℕ → Verdict
verdict_at zero = repair
verdict_at (suc n) = pass

abbrev services : World
services = record {
  now = λ h. "now";
  check = λ h attempt e. some (gate (verdict_at attempt), checked);
  review = λ h e g names. reviewed (record { verdict = pass; critiques = [] });
  refine = some (λ h attempt plan. some unchanged);
  execute = λ h attempt plan. some (execution attempt);
  persist = λ h e. some "review-decision.json";
}

-- A machine on which no mechanical check runs.
abbrev broken : World
broken = record services { check = λ h attempt e. none }

abbrev with_budget : ℕ → LoopInput
with_budget max = record {
  run_id = "run-1";
  plan_id = "plan-1";
  tasks = record { plan_task_id = "a"; depends_on = [] } ∷ [];
  initial_execution = execution 0;
  max_repair_loops = some max;
}

abbrev iterations : Outcome LoopResult → List IterationRecord
iterations (done (approved auth n path its)) = its
iterations (done (blocked reason n path its)) = its
iterations (thrown e) = []

loop : Unit {0}
unfolding and_then answered compute_repair_subgraph first_unknown add_dependents
    dependents_by_task_id select synthesize_repair_plan group_findings group_critiques group_refs
    repairs_of unique_repair_task_ids model_block_from_error block_artifact block_loop
    budget_exhausted_loop approve_loop refine deterministic_plan repair_tasks repair_or_stop
    ask_model after_model after_checks review_round review_rounds run_review_repair_loop
loop = tt

abbrev repaired : Outcome LoopResult × History
repaired = run_review_repair_loop services (with_budget 2) []

abbrev authorization : DeliveryAuthorization
authorization = record { run_id = "run-1"; decision_path = "review-decision.json" }

repaired_run :
    repaired
    ≡ (done (approved authorization 1 "review-decision.json" (iterations repaired.0)), repaired.1)
unfolding loop
repaired_run = refl

run_review_repair_loop-approved_example :
    (1 ≤ 2)
    × IsCounted 1 (iterations repaired.0) repaired.1
    × (decisions repaired.1 ≡ 1)
    × EndsWith
        (λ r.
          (r.attempt ≡ 1)
          × IsPassed r
          × WasApproved services "run-1" 1 "review-decision.json" r repaired.1)
        (iterations repaired.0)
    × (authorization ≡ record { run_id = "run-1"; decision_path = "review-decision.json" })
run_review_repair_loop-approved_example =
    run_review_repair_loop-approved services (with_budget 2) refl repaired_run

abbrev unrepaired : Outcome LoopResult × History
unrepaired = run_review_repair_loop services (with_budget 0) []

unrepaired_run : unrepaired ≡ (
  done (blocked budget_exhausted 0 "review-decision.json" (iterations unrepaired.0)),
  unrepaired.1,
)
unfolding loop
unrepaired_run = refl

run_review_repair_loop-blocked_example :
    (0 ≤ 0)
    × IsCounted 0 (iterations unrepaired.0) unrepaired.1
    × (decisions unrepaired.1 ≡ 0)
    × EndsWith (λ r. (r.attempt ≡ 0) × IsGround 0 budget_exhausted r) (iterations unrepaired.0)
run_review_repair_loop-blocked_example =
    run_review_repair_loop-blocked services (with_budget 0) refl unrepaired_run

broken_run :
    run_review_repair_loop broken (with_budget 2) []
    ≡ (thrown service_rejected, (run_review_repair_loop broken (with_budget 2) []).1)
unfolding loop
broken_run = refl

run_review_repair_loop-IsExpected_example : IsExpected service_rejected
run_review_repair_loop-IsExpected_example =
    run_review_repair_loop-IsExpected broken (with_budget 2) refl broken_run
