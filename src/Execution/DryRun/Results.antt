-- ===== src/Execution/DryRun/Results.antt =====
-- What the results of a dry run keep of their tasks, and which of them have failed.
use protostar.Base.{
  ℕ, ◌≡◌, refl, sym, subst, ◌∙◌, ◌⊎◌, inl, inr, String, true, false, List, [], ◌∷◌, none, some,
  arith, eq_refl, Dict, get, put, get-put, has, all, All, IsDistinct, is_empty, Bool-cases,
  Option-cases,
}
use protostar.Execution.Tasks.{
  succeeded, failed, ExecutionTask, ExecutionRunPlan, DryRunTaskResult, DryRunResult,
}
use protostar.Execution.DryRun.{
  task_evidence_ref, RunState, start, run_task, run_tasks, collect, run_execution_dry_run,
}
use protostar.Execution.DryRun.Steps.{ids, done, run_task-get, is_empty-filter-not}

-- A result has succeeded with evidence, or failed.
abbrev pub IsSettled : DryRunTaskResult → Type 0
IsSettled r =
    ((r.task.status ≡ succeeded) × (is_empty r.evidence ≡ false)) ⊎ (r.task.status ≡ failed)

-- A result of the task, settled, and failed where the failure was injected.
abbrev pub IsResultOf : List String → ExecutionTask → DryRunTaskResult → Type 0
IsResultOf fail_ids t r =
    (r.task.plan_task_id ≡ t.plan_task_id)
    × (r.task.title ≡ t.title)
    × (r.task.depends_on ≡ t.depends_on)
    × IsSettled r
    × (has fail_ids t.plan_task_id ≡ true → r.task.status ≡ failed)

-- One result for each task, in their order.
abbrev pub AreResultsOf : List String → List ExecutionTask → List DryRunTaskResult → Type 0
AreResultsOf fail_ids [] [] = Unit
AreResultsOf fail_ids (t ∷ ts) (r ∷ rs) = IsResultOf fail_ids t r × AreResultsOf fail_ids ts rs
AreResultsOf fail_ids _ _ = ⊥

get-put_self :
    (m : Dict DryRunTaskResult) (k : String) (r : DryRunTaskResult) → get (put m k r) k ≡ some r
get-put_self m k r = ground (arith, get-put m k k r, eq_refl k)

collect_cons :
    (m : Dict DryRunTaskResult) (t : ExecutionTask) (ts : List ExecutionTask) (r : DryRunTaskResult)
    (rs : List DryRunTaskResult)
    → get m t.plan_task_id ≡ some r
    → collect m (t ∷ ts) ≡ some rs
    → (rs' : List DryRunTaskResult) × (collect m ts ≡ some rs') × (rs ≡ r ∷ rs')
unfolding collect
collect_cons m t ts r rs stored e = elim (Option-cases (collect m ts)) [
  | inl threw ↦ absurd (ground arith)
  | inr (rs', got) ↦ (rs', got, ground arith)
]

module _ (run_id : String) (fail_ids : List String) (now : ℕ → String) where
  abbrev StoresResult : ExecutionTask → RunState → Type 0
  StoresResult t s =
      (r : DryRunTaskResult) × (get s.task_status t.plan_task_id ≡ some r) × IsResultOf fail_ids t r

  run_task-StoresResult :
      (t : ExecutionTask) (s : RunState) → StoresResult t (run_task run_id fail_ids now t s)
  unfolding run_task
  run_task-StoresResult t s = elim (Bool-cases (all (done s) t.depends_on)) [
    | inr blocked ↦
        rw (is_empty-filter-not (done s) t.depends_on, blocked)
          (
            record {
              task = record t { status = failed };
              evidence = [];
              reason = some "dependency-failed";
            },
            get-put_self s.task_status t.plan_task_id _,
            (refl, refl, refl, inr refl, λ _. refl),
          )
    | inl ready ↦ elim (Bool-cases (has fail_ids t.plan_task_id)) [
      | inl injected ↦
          rw (is_empty-filter-not (done s) t.depends_on, ready, injected)
            (
              record {
                task = record t { status = failed };
                evidence = task_evidence_ref t.plan_task_id false ∷ [];
                reason = some "Injected dry-run failure.";
              },
              get-put_self s.task_status t.plan_task_id _,
              (refl, refl, refl, inr refl, λ _. refl),
            )
      | inr fine ↦
          rw (is_empty-filter-not (done s) t.depends_on, ready, fine)
            (
              record {
                task = record t { status = succeeded };
                evidence = task_evidence_ref t.plan_task_id true ∷ [];
                reason = none;
              },
              get-put_self s.task_status t.plan_task_id _,
              (refl, refl, refl, inl (refl, refl), λ h. cc),
            )
    ]
  ]

  -- A task that is not in the list keeps its result.
  run_tasks-get_other :
      (ts : List ExecutionTask) (s : RunState) (j : String)
      → has (ids ts) j ≡ false
      → get (run_tasks run_id fail_ids now ts s).task_status j ≡ get s.task_status j
  unfolding run_tasks
  run_tasks-get_other [] s j h = refl
  run_tasks-get_other (t ∷ ts) s j h =
      let (_, _, _, got) = run_task-get run_id fail_ids now t s in
      ground (arith, run_tasks-get_other ts (run_task run_id fail_ids now t s) j, got j)

  run_tasks-StoresResult :
      (ts : List ExecutionTask) (s : RunState)
      → IsDistinct (ids ts)
      → All (λ t. StoresResult t (run_tasks run_id fail_ids now ts s)) ts
  unfolding run_tasks
  run_tasks-StoresResult [] s d = tt
  run_tasks-StoresResult (t ∷ ts) s (d, ds) =
      let s' = run_task run_id fail_ids now t s in
      let (r, stored, is_result) = run_task-StoresResult t s in
      (
        (r, run_tasks-get_other ts s' t.plan_task_id d ∙ stored, is_result),
        run_tasks-StoresResult ts s' ds,
      )

  collect-AreResultsOf :
      (ts : List ExecutionTask) (s : RunState) (rs : List DryRunTaskResult)
      → All (λ t. StoresResult t s) ts
      → collect s.task_status ts ≡ some rs
      → AreResultsOf fail_ids ts rs
  unfolding collect
  collect-AreResultsOf [] s [] h e = tt
  collect-AreResultsOf [] s (r ∷ rs) h e = absurd (ground arith)
  collect-AreResultsOf (t ∷ ts) s rs ((r, stored, is_result), h) e =
      let (rs', collected, all_of) = collect_cons s.task_status t ts r rs stored e in
      subst (AreResultsOf fail_ids (t ∷ ts)) (sym all_of)
        (is_result, collect-AreResultsOf ts s rs' h collected)

-- Where the ids of the tasks differ, the results are those of the tasks, in order.
pub run_execution_dry_run-AreResultsOf :
    (plan : ExecutionRunPlan) (fail_ids : List String) (now : ℕ → String)
    → IsDistinct (ids plan.tasks)
    → (r : DryRunResult) → run_execution_dry_run plan fail_ids now ≡ some r
    → AreResultsOf fail_ids plan.tasks r.tasks
      × (r.run_id ≡ plan.run_id)
      × (r.plan_id ≡ plan.plan_id)
unfolding run_execution_dry_run
run_execution_dry_run-AreResultsOf plan fail_ids now d r ran =
    let s = run_tasks plan.run_id fail_ids now plan.tasks start in
    elim (Option-cases (collect s.task_status plan.tasks)) [
      | inl threw ↦ absurd (ground arith)
      | inr (rs, collected) ↦ (
        subst (AreResultsOf fail_ids plan.tasks) (ground arith) (
            collect-AreResultsOf plan.run_id fail_ids now plan.tasks s rs
              (run_tasks-StoresResult plan.run_id fail_ids now plan.tasks start d) collected),
        ground arith,
        ground arith,
      )
    ]
