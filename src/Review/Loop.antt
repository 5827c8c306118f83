-- ===== src/Review/Loop.antt =====
-- runReviewRepairLoop of packages/review/src/run-review-repair-loop.ts, with its helpers.
pub mod Justified
mod Steps
pub mod Runs
use protostar.Base.{
  ℕ, zero, suc, ◌+◌, String, Bool, true, false, List, [], ◌∷◌, ◌++◌, map, flat_map, Option, none,
  some, or_else, has, length, is_empty, nat_eq, leb, if◌then◌else◌,
}
use protostar.Base.Number.{Number, fin, pos}
use protostar.Execution.Tasks.{StageArtifactRef}
use protostar.Repair.Subgraph.{
  PlanNode, node_ids, selected, unknown_repair_task as unknown_task, stalled,
  compute_repair_subgraph,
}
use protostar.Repair.Synthesis.{RepairTask, synthesize_repair_plan}
use protostar.Review.Types.{
  Verdict, pass, repair, block, ReviewFinding, ReviewGate, MechanicalCheckResult, JudgeCritique,
  ModelReviewResult, ExecutionRunResult, ReviewRepairPlan, BlockReason, budget_exhausted,
  mechanical_block, model_block, IterationRecord, ReviewEvent, review_iteration_started,
  mechanical_verdict, model_verdict, repair_plan_emitted, repair_plan_refined, loop_approved,
  loop_blocked, loop_budget_exhausted, DecisionArtifact, BlockArtifact, LoopResult, approved,
  blocked,
}
use protostar.Review.Effects.{
  Effect, append_event, check_mechanically, review_by_model, refine_plan, execute_repair_tasks,
  write_iteration_dir, write_review_decision, write_review_block, History, ModelAnswer, reviewed,
  failed_with, Refined, unchanged, replaced, World, LoopError, missing_max_repair_loops,
  empty_repair_synthesis, unknown_repair_task, exited_unexpectedly, out_of_fuel, M, and_then, ◌>>=◌,
  ◌>>◌, pure, throw, answered,
}

-- What the loop reads of its input, beside the services.
pub record LoopInput : Type 0 where
  pub run_id : String
  pub plan_id : String
  pub tasks : List PlanNode
  pub initial_execution : ExecutionRunResult
  -- `budget.maxRepairLoops`, or `none` where it is not a non-negative integer.
  pub max_repair_loops : Option ℕ

-- `[...new Set(ids)]`: the first of equal ids stays.
abbrev pub unique : (seen ids : List String) → List String
unique seen [] = []
unique seen (id ∷ ids) = if has seen id then unique seen ids else id ∷ unique (id ∷ seen) ids

abbrev pub finding_ids : Option String → List String
finding_ids none = []
finding_ids (some id) = id ∷ []

abbrev pub critiques_of : Option ModelReviewResult → List JudgeCritique
critiques_of none = []
critiques_of (some m) = m.critiques

unfoldable pub unique_repair_task_ids : ReviewGate → Option ModelReviewResult → List String
unique_repair_task_ids gate model = unique [] (
    flat_map (λ f. finding_ids f.repair_task_id) gate.findings
    ++ flat_map (λ c. c.task_refs) (critiques_of model))

unfoldable pub model_block_from_error : String → List String → ModelReviewResult
model_block_from_error message task_refs = record {
  verdict = block;
  critiques =
      record {
        judge_id = "model-reviewer";
        model = "unknown";
        rubric = ("adapter", fin (pos 0)) ∷ [];
        verdict = block;
        rationale = message;
        task_refs = task_refs;
      }
      ∷ [];
}

abbrev pub final_diff_artifact : ExecutionRunResult → StageArtifactRef
final_diff_artifact e = or_else e.diff_artifact e.journal_artifact

-- `model !== undefined && model.verdict !== "pass" ? { model } : {}`.
abbrev pub model_to_repair : Option ModelReviewResult → List JudgeCritique
model_to_repair none = []
model_to_repair (some m) = elim m.verdict [ pass ↦ [] | _ ↦ m.critiques ]

-- What the body of the loop comes to.
pub data Round : Type 0 where
  finished : LoopResult → Round
  continued : ExecutionRunResult → List IterationRecord → Round

module _ (world : World) (input : LoopInput) (max : ℕ) where
  abbrev pub persist : Effect → M String
  persist e h = answered e h (world.persist h e)

  abbrev pub append : (String → ReviewEvent) → M String
  append event h = persist (append_event (event (world.now h))) h

  abbrev pub now : M String
  now h = pure (world.now h) h

  unfoldable pub block_artifact :
      BlockReason → ℕ → List IterationRecord → ExecutionRunResult → BlockArtifact
  block_artifact reason attempt its execution = record {
    run_id = input.run_id;
    plan_id = input.plan_id;
    reason = reason;
    iterations = its;
    final_diff_artifact = final_diff_artifact execution;
    max_repair_loops = max;
    attempted = attempt;
  }

  -- The function `block`.
  unfoldable pub block_loop : BlockReason → ℕ → List IterationRecord → ExecutionRunResult → M Round
  unfolding block_artifact
  block_loop reason attempt its execution = do
    path ← persist (write_review_block (block_artifact reason attempt its execution))
    append (loop_blocked input.run_id reason attempt path)
    pure (finished (blocked reason attempt path its))

  unfoldable pub budget_exhausted_loop : ℕ → List IterationRecord → ExecutionRunResult → M Round
  unfolding block_artifact
  budget_exhausted_loop attempt its execution = do
    path ← persist (write_review_block (block_artifact budget_exhausted attempt its execution))
    append (loop_budget_exhausted input.run_id attempt path)
    append (loop_blocked input.run_id budget_exhausted attempt path)
    pure (finished (blocked budget_exhausted attempt path its))

  -- The end of a round whose two verdicts are "pass".
  unfoldable pub approve_loop : ℕ → List IterationRecord → ExecutionRunResult → M Round
  approve_loop attempt its execution = do
    at ← now
    path ← persist (
        write_review_decision (record {
          run_id = input.run_id;
          plan_id = input.plan_id;
          authorized_at = at;
          final_iteration = attempt;
          final_diff_artifact = final_diff_artifact execution;
        }))
    append (loop_approved input.run_id attempt path)
    pure (
        finished
          (approved (record { run_id = input.run_id; decision_path = path }) attempt path its))

  -- recordIteration, the push and writeIterationDir, which every way out of a round makes.
  abbrev pub record_iteration : IterationRecord → List IterationRecord → M (List IterationRecord)
  record_iteration r its = do
    persist (write_iteration_dir r.attempt r.mechanical r.model r.repair_plan)
    pure (its ++ r ∷ [])

  unfoldable pub refine : ℕ → ReviewRepairPlan → M ReviewRepairPlan
  refine attempt plan = elim world.refine [
    | none ↦ pure plan
    | some refiner ↦ λ h.
        and_then (answered (refine_plan attempt plan) h (refiner h attempt plan)) (elim [
          | unchanged ↦ pure plan
          | replaced plan' ↦ do append (repair_plan_refined input.run_id attempt); pure plan'
        ])
  ]

  -- computeRepairSubgraph and synthesizeRepairPlan, with what they throw.
  unfoldable pub deterministic_plan :
      ℕ → ReviewGate → Option ModelReviewResult → List String → M ReviewRepairPlan
  deterministic_plan attempt gate model ids = elim (compute_repair_subgraph input.tasks ids) [
    | unknown_task id ↦ throw (unknown_repair_task id)
    | stalled ↦ throw out_of_fuel
    | selected dependents ↦
        elim (synthesize_repair_plan (λ f. f.repair_task_id) (λ c. c.task_refs) input.run_id attempt
          (node_ids input.tasks) gate.findings (model_to_repair model) dependents) [
            | none ↦ throw empty_repair_synthesis
            | some plan ↦ pure plan
          ]
  ]

  unfoldable pub repair_tasks :
      ℕ
      → MechanicalCheckResult
      → ReviewGate
      → Option ModelReviewResult
      → List String
      → List IterationRecord
      → M Round
  unfolding deterministic_plan refine
  repair_tasks attempt result gate model ids its = do
    plan₀ ← deterministic_plan attempt gate model ids
    plan ← refine attempt plan₀
    append (repair_plan_emitted input.run_id attempt (map (λ t. t.plan_task_id) plan.repairs))
    its' ←
        record_iteration
          (record {
            attempt = attempt;
            mechanical = result;
            mechanical_gate = gate;
            model = model;
            repair_plan = some plan;
          })
          its
    execution ← λ h.
        answered (execute_repair_tasks (attempt + 1) plan) h (world.execute h (attempt + 1) plan)
    pure (continued execution its')

  abbrev pub unrepaired :
      ℕ → MechanicalCheckResult → ReviewGate → Option ModelReviewResult → IterationRecord
  unrepaired attempt result gate model = record {
    attempt = attempt;
    mechanical = result;
    mechanical_gate = gate;
    model = model;
    repair_plan = none;
  }

  abbrev pub reason_without_tasks : Verdict → BlockReason
  reason_without_tasks repair = mechanical_block
  reason_without_tasks _ = model_block

  -- The round from `if (attempt === maxRepairLoops)` on.
  unfoldable pub repair_or_stop :
      ℕ
      → MechanicalCheckResult
      → ReviewGate
      → Option ModelReviewResult
      → ExecutionRunResult
      → List IterationRecord
      → M Round
  unfolding budget_exhausted_loop block_loop repair_tasks unique_repair_task_ids
  repair_or_stop attempt result gate model execution its =
      if nat_eq attempt max
      then (do
        its' ← record_iteration (unrepaired attempt result gate model) its
        budget_exhausted_loop attempt its' execution)
      else if is_empty (unique_repair_task_ids gate model)
      then (do
        its' ← record_iteration (unrepaired attempt result gate model) its
        block_loop (reason_without_tasks gate.verdict) attempt its' execution)
      else repair_tasks attempt result gate model (unique_repair_task_ids gate model) its

  -- The `try` around the model reviewer.
  unfoldable pub ask_model :
      ExecutionRunResult → ReviewGate → MechanicalCheckResult → M ModelReviewResult
  unfolding model_block_from_error
  ask_model execution gate result h = elim (world.review h execution gate result.diff_name_only) [
    | reviewed m ↦ pure m (review_by_model execution gate result.diff_name_only ∷ h)
    | failed_with message ↦
        pure (model_block_from_error message (node_ids input.tasks))
          (review_by_model execution gate result.diff_name_only ∷ h)
  ]

  -- What a model verdict leads to, where the mechanical verdict is "pass".
  unfoldable pub after_model :
      ℕ
      → MechanicalCheckResult
      → ReviewGate
      → ModelReviewResult
      → ExecutionRunResult
      → List IterationRecord
      → M Round
  unfolding approve_loop block_loop repair_or_stop
  after_model attempt result gate model execution its = elim model.verdict [
    | pass ↦ do
      its' ← record_iteration (unrepaired attempt result gate (some model)) its
      approve_loop attempt its' execution
    | block ↦ do
      its' ← record_iteration (unrepaired attempt result gate (some model)) its
      block_loop model_block attempt its' execution
    | repair ↦ repair_or_stop attempt result gate (some model) execution its
  ]

  unfoldable pub after_checks :
      ℕ → ReviewGate × MechanicalCheckResult → ExecutionRunResult → List IterationRecord → M Round
  unfolding block_loop ask_model after_model repair_or_stop
  after_checks attempt (gate, result) execution its = elim gate.verdict [
    | block ↦ do
      its' ← record_iteration (unrepaired attempt result gate none) its
      block_loop mechanical_block attempt its' execution
    | pass ↦ do
      model ← ask_model execution gate result
      append
          (model_verdict input.run_id attempt model.verdict (map (λ c. c.judge_id) model.critiques))
      after_model attempt result gate model execution its
    | repair ↦ repair_or_stop attempt result gate none execution its
  ]

  -- The body of the `for` loop.
  unfoldable pub review_round : ℕ → ExecutionRunResult → List IterationRecord → M Round
  unfolding after_checks
  review_round attempt execution its = do
    append (review_iteration_started input.run_id attempt)
    checked ←
        λ h. answered (check_mechanically attempt execution) h (world.check h attempt execution)
    append
        (mechanical_verdict input.run_id attempt (checked.0).verdict (length (checked.0).findings))
    after_checks attempt checked execution its

  unfoldable pub review_rounds : ℕ → ℕ → ExecutionRunResult → List IterationRecord → M LoopResult
  unfolding review_round
  review_rounds zero attempt execution its = throw out_of_fuel
  review_rounds (suc fuel) attempt execution its = elim (leb attempt max) [
    | false ↦ throw exited_unexpectedly
    | true ↦ do
      round ← review_round attempt execution its
      elim round [
        | finished r ↦ pure r
        | continued execution' its' ↦ review_rounds fuel (attempt + 1) execution' its'
      ]
  ]

-- The rounds are numbered from 0 to `maxRepairLoops`, and the loop tests once more at its end.
unfoldable pub run_review_repair_loop : World → LoopInput → M LoopResult
unfolding review_rounds
run_review_repair_loop world input = elim input.max_repair_loops [
  | none ↦ throw missing_max_repair_loops
  | some max ↦ review_rounds world input max (max + 2) 0 input.initial_execution []
]
