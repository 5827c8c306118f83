-- ===== src/Review/Mechanical/Loop.antt =====
-- runMechanicalReviewExecutionLoop of packages/review/src/index.ts. What
-- assertReviewAdmittedPlanArtifact says of the artifact, the same in every round, is a parameter;
-- `now a k` is the k-th call of the clock in round `a`. Of the number `maxRepairLoops`, which may be
-- no whole number, the model keeps what its comparisons with whole numbers read.
use protostar.Base.{
  ℕ, zero, suc, ◌+◌, String, Bool, true, false, not, ◌||◌, List, [], ◌∷◌, ◌++◌, Option, none, some,
  has, filter, is_empty, leb, or_else, if◌then◌else◌,
}
use protostar.Base.Number.{ℤ, pos, negsuc}
use protostar.Execution.Tasks.{DryRunResult}
use protostar.Execution.DryRun.{run_execution_dry_run}
use protostar.Review.Types.{pass, repair, block, ReviewGate}
use protostar.Review.Loop.{unique}
use protostar.Review.Mechanical.{
  AdmittedPlan, DerivedExecution, create_mechanical_review_gate, unique_repair_task_ids,
}

-- A number as its comparisons with whole numbers know it: `between z` is any that is larger than `z`
-- and smaller than `z + 1`.
pub data LoopCount : Type 0 where
  nan neg_inf pos_inf : LoopCount
  whole between : ℤ → LoopCount

-- One that is not negative: `n` itself or, where it is not whole, between `n` and `n + 1`.
pub data Limit : Type 0 where
  up_to : (n : ℕ) (is_whole : Bool) → Limit
  unbounded no_number : Limit

pub data LoopAction : Type 0 where
  approved repair_and_retry blocked repair_limit_reached : LoopAction

pub record LoopIteration : Type 0 where
  pub attempt : ℕ
  pub action : LoopAction
  pub execution_result : DryRunResult
  pub review_gate : ReviewGate
  pub repair_task_ids : List String

-- `ReviewExecutionLoopStatus` is the action of the last iteration.
pub record ReviewExecutionLoopResult : Type 0 where
  pub status : LoopAction
  pub max_repair_loops : Limit
  pub iterations : List LoopIteration
  pub final_execution_result : DryRunResult
  pub final_review_gate : ReviewGate

pub data LoopOutcome : Type 0 where
  returned : ReviewExecutionLoopResult → LoopOutcome
  -- The three errors: of the artifact, of the dry run, and of a loop that ends by its condition.
  invalid_artifact missing_result exited_unexpectedly : LoopOutcome
  out_of_fuel : LoopOutcome

pub record ReviewExecutionLoopInput : Type 0 where
  pub admitted_plan : AdmittedPlan
  pub execution : DerivedExecution
  pub initial_fail_task_ids : Option (List String)
  pub max_repair_loops : Option LoopCount
  pub now : ℕ → ℕ → String

-- `Math.max(0, input.maxRepairLoops ?? 0)`: NaN stays.
unfoldable pub max_loops : Option LoopCount → Limit
max_loops none = up_to 0 true
max_loops (some nan) = no_number
max_loops (some neg_inf) = up_to 0 true
max_loops (some pos_inf) = unbounded
max_loops (some (whole (pos n))) = up_to n true
max_loops (some (whole (negsuc n))) = up_to 0 true
max_loops (some (between (pos n))) = up_to n false
max_loops (some (between (negsuc n))) = up_to 0 true

-- `attempt <= maxRepairLoops`
unfoldable pub allows : Limit → ℕ → Bool
allows (up_to n w) attempt = leb attempt n
allows unbounded attempt = true
allows no_number attempt = false

-- `attempt >= maxRepairLoops`
unfoldable pub is_reached : Limit → ℕ → Bool
is_reached (up_to n true) attempt = leb n attempt
is_reached (up_to n false) attempt = leb (n + 1) attempt
is_reached unbounded attempt = false
is_reached no_number attempt = false

module _ (input : ReviewExecutionLoopInput) (max_repair_loops : Limit) where
  unfoldable pub gate_of : DryRunResult → ReviewGate
  unfolding create_mechanical_review_gate
  gate_of result = create_mechanical_review_gate (record {
    admitted_plan = input.admitted_plan;
    execution = input.execution;
    execution_result = result;
  })

  unfoldable pub iteration : ℕ → LoopAction → DryRunResult → LoopIteration
  unfolding gate_of unique_repair_task_ids
  iteration attempt action result = record {
    attempt = attempt;
    action = action;
    execution_result = result;
    review_gate = gate_of result;
    repair_task_ids = unique_repair_task_ids (gate_of result);
  }

  abbrev pub finish : List LoopIteration → LoopIteration → LoopOutcome
  finish iterations i = returned (record {
    status = i.action;
    max_repair_loops = max_repair_loops;
    iterations = iterations ++ i ∷ [];
    final_execution_result = i.execution_result;
    final_review_gate = i.review_gate;
  })

  -- What the round does, by the verdict and the exhaustion of the budget.
  unfoldable pub action_of : ℕ → ReviewGate → LoopAction
  unfolding is_reached unique_repair_task_ids
  action_of attempt gate = elim gate.verdict [
    | pass ↦ approved
    | block ↦ blocked
    | repair ↦
        if is_reached max_repair_loops attempt || is_empty (unique_repair_task_ids gate)
        then repair_limit_reached
        else repair_and_retry
  ]

  -- What follows a round with its action: `next` is the loop from the next attempt on.
  unfoldable pub after_round :
      (next : List String → List LoopIteration → LoopOutcome)
      → LoopAction
      → LoopIteration
      → List String
      → List LoopIteration
      → LoopOutcome
  after_round next repair_and_retry i fail_ids iterations =
      next (filter (λ id. not (has i.repair_task_ids id)) fail_ids) (iterations ++ i ∷ [])
  after_round next _ i fail_ids iterations = finish iterations i

  -- A round from the result of its dry run on.
  unfoldable pub review_round :
      (next : List String → List LoopIteration → LoopOutcome)
      → ℕ
      → List String
      → List LoopIteration
      → Option DryRunResult
      → LoopOutcome
  unfolding iteration action_of gate_of after_round
  review_round next attempt fail_ids iterations none = missing_result
  review_round next attempt fail_ids iterations (some result) =
      let action = action_of attempt (gate_of result) in
      after_round next action (iteration attempt action result) fail_ids iterations

  unfoldable pub loop_rounds : (fuel attempt : ℕ) → List String → List LoopIteration → LoopOutcome
  unfolding review_round allows
  loop_rounds zero attempt fail_ids iterations = out_of_fuel
  loop_rounds (suc fuel) attempt fail_ids iterations =
      let rest =
        review_round (loop_rounds fuel (attempt + 1)) attempt fail_ids iterations
          (run_execution_dry_run input.execution.plan fail_ids (input.now attempt)) in
      if allows max_repair_loops attempt then rest else exited_unexpectedly

-- The fuel counts the tests of the loop's condition.
unfoldable pub run_mechanical_review_execution_loop :
    (is_valid : AdmittedPlan → Bool) (fuel : ℕ) → ReviewExecutionLoopInput → LoopOutcome
unfolding max_loops loop_rounds
run_mechanical_review_execution_loop is_valid fuel input =
    if is_valid input.admitted_plan
    then loop_rounds input (max_loops input.max_repair_loops) fuel 0
        (unique [] (or_else input.initial_fail_task_ids [])) []
    else invalid_artifact
