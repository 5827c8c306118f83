-- ===== src/Review/Mechanical/Plans.antt =====
-- From the checks of a plan to the end of the mechanical review loop.
use protostar.Base.{
  refl, [], map, IsDistinct, Bool-cases, inl, inr, ℕ, ◌≡◌, ◌≤◌, String, Bool, true, false, List,
  Option, some, arith, all, length,
}
use protostar.Planning.Types.{PlanTask}
use protostar.Planning.Graph.{task_ids, is_plan_task_id, construct_plan_task_dependency_graph}
use protostar.Planning.Cycles.{has_dependency_cycle}
use protostar.Planning.Handoff.{ArtifactTask, create_artifact_tasks}
use protostar.Planning.Handoff.Runs.{checked_plan-CanRun}
use protostar.Review.Mechanical.{PlanEvidence, AdmittedPlan}
use protostar.Review.Mechanical.Loop.{
  approved, LoopOutcome, LoopCount, Limit, up_to, unbounded, no_number, max_loops, allows,
  is_reached, run_mechanical_review_execution_loop,
}
use protostar.Review.Mechanical.Rounds.{prepared}
use protostar.Review.Mechanical.Repairs.{
  Returns, EndsAs, expected_end, is_injected, run_mechanical_review_execution_loop-approved,
}
use protostar.Execution.DryRun.Steps.{ids}
use protostar.Execution.DryRun.Outcomes.{CanRun}
use protostar.Planning.Handoff.{pending_task}

abbrev pub admitted : String → PlanEvidence → List ArtifactTask → AdmittedPlan
admitted plan_id evidence tasks = record { plan_id = plan_id; evidence = evidence; tasks = tasks }

-- The loop of a prepared plan, with the initial failures, the bound and the clock, and fuel for two
-- rounds.
abbrev pub loop_of :
    (AdmittedPlan → Bool)
    → AdmittedPlan
    → String
    → Option (List String)
    → Option LoopCount
    → (ℕ → ℕ → String)
    → LoopOutcome
loop_of is_valid plan run_id initial loops now =
    run_mechanical_review_execution_loop is_valid 2 (record {
      admitted_plan = plan;
      execution = prepared run_id plan;
      initial_fail_task_ids = initial;
      max_repair_loops = loops;
      now = now;
    })

allows_one :
    (bound : Limit) → allows bound 1 ≡ true → (allows bound 0 ≡ true) × (is_reached bound 0 ≡ false)
unfolding allows is_reached
allows_one (up_to n true) h = (ground arith, ground arith)
allows_one (up_to n false) h = (ground arith, ground arith)
allows_one unbounded h = (refl, refl)
allows_one no_number h = cc

module _ (plan : AdmittedPlan) (run_id : String) (initial : Option (List String))
    (loops : Option LoopCount) (now : ℕ → ℕ → String)
    (distinct : IsDistinct (ids (map pending_task plan.tasks)))
    (can_run : CanRun [] [] (map pending_task plan.tasks)) where
  -- A bound of at least 1 leaves the two ends that approve.
  approved_end :
      (bound : Limit) (o : LoopOutcome)
      → allows bound 1 ≡ true
      → EndsAs plan run_id initial loops now distinct can_run o
          (expected_end plan run_id initial loops now distinct can_run bound)
      → Returns o (λ r. (r.status ≡ approved) × (length r.iterations ≤ 2))
  approved_end bound o again ends =
      let (within, more) = allows_one bound again in
      elim (Bool-cases (is_injected plan run_id initial loops now distinct can_run)) [
        | inl injected ↦
            let (r, e, (status, count)) = rw (within, more, again, injected) at ends in
            (r, e, (status, omega arith))
        | inr not_injected ↦
            let (r, e, (status, count)) = rw (within, not_injected) at ends in
            (r, e, (status, omega arith))
      ]

-- For a plan whose dependency graph is reported as sound, whose ids are well formed and in which the
-- search finds no cycle, and whose artifact is valid: with a bound of at least 1, whole or not, the review
-- of its prepared execution approves after two iterations at most, whichever tasks fail at first.
pub checked_plan-approved :
    (is_valid : AdmittedPlan → Bool) (tasks : List PlanTask) (plan_id : String)
    (evidence : PlanEvidence) (run_id : String) (initial : Option (List String))
    (loops : Option LoopCount) (now : ℕ → ℕ → String)
    → (construct_plan_task_dependency_graph tasks).ok ≡ true
    → all is_plan_task_id (task_ids tasks) ≡ true
    → has_dependency_cycle (construct_plan_task_dependency_graph tasks).graph ≡ some false
    → ((artifact : List ArtifactTask)
        → create_artifact_tasks tasks ≡ some artifact
        → is_valid (admitted plan_id evidence artifact) ≡ true)
    → allows (max_loops loops) 1 ≡ true
    → (artifact : List ArtifactTask) × (create_artifact_tasks tasks ≡ some artifact)
      × Returns
          (loop_of is_valid (admitted plan_id evidence artifact) run_id initial loops now)
          (λ r. (r.status ≡ approved) × (length r.iterations ≤ 2))
checked_plan-approved is_valid tasks plan_id evidence run_id initial loops now ok well_formed
      no_cycle valid allowed =
    let (artifact, created, distinct, can_run) =
      checked_plan-CanRun tasks ok well_formed no_cycle in
    let plan = admitted plan_id evidence artifact in
    (
      artifact,
      created,
      approved_end plan run_id initial loops now distinct can_run (max_loops loops) _ allowed (
          run_mechanical_review_execution_loop-approved plan run_id initial loops now distinct
            can_run is_valid 0 (valid artifact created)),
    )
