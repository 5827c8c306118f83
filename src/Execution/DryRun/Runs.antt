-- ===== src/Execution/DryRun/Runs.antt =====
-- Whole dry runs: they end with a result for each task, and go as the reference run.
use protostar.Base.{
  ℕ, ◌≡◌, refl, ◌∙◌, ap, ap₂, ◌↔◌, ◌⊎◌, inl, inr, String, Bool, true, List, [], ◌∷◌, some, arith,
  eq_refl, map, Dict, get, has, all, All, IsDistinct, is_some, if◌then◌else◌, Option-cases,
}
use protostar.Execution.Tasks.{
  ExecutionTask, ExecutionRunPlan, succeeded, failed, DryRunTaskResult, DryRunResult,
}
use protostar.Execution.DryRun.{
  is_succeeded, result_succeeded, start, run_tasks, collect, run_execution_dry_run,
}
use protostar.Execution.DryRun.Steps.{ids, label, IsKeyed}
use protostar.Execution.DryRun.Outcomes.{
  outcomes, trace, CanRun, outcomes-CanRun, run_tasks-is_some, run_tasks-IsKeyed,
  run_tasks-outcomes, run_tasks-trace, IsFresh, IsFresh-nil,
}

abbrev pub result_id : DryRunTaskResult → String
result_id r = r.task.plan_task_id

abbrev pub has_succeeded : DryRunTaskResult → Bool
has_succeeded r = is_succeeded r.task.status

abbrev HasResults : Dict DryRunTaskResult → List String → Type 0
HasResults m xs = All (λ i. is_some (get m i) ≡ true) xs

collect_total :
    (m : Dict DryRunTaskResult) (ts : List ExecutionTask)
    → IsKeyed m
    → HasResults m (ids ts)
    → (rs : List DryRunTaskResult) × (collect m ts ≡ some rs)
      × (map result_id rs ≡ ids ts)
      × (map has_succeeded rs ≡ map (λ t. result_succeeded (get m t.plan_task_id)) ts)
unfolding collect
collect_total m [] keyed h = ([], refl, refl, refl)
collect_total m (t ∷ ts) keyed (h, hs) = elim (Option-cases (get m t.plan_task_id)) [
  | inl missing ↦ absurd (cc (rw missing at h))
  | inr (r, found) ↦
      let (rs, collected, named, done) = collect_total m ts keyed hs in
      (r ∷ rs, ground arith, ap₂ ◌∷◌ (keyed _ r found) named, ground arith)
]

pub all-map-has_succeeded :
    (rs : List DryRunTaskResult) → all has_succeeded rs ≡ all (λ b. b) (map has_succeeded rs)
all-map-has_succeeded [] = refl
all-map-has_succeeded (r ∷ rs) = rw (all-map-has_succeeded rs)

module _ (plan : ExecutionRunPlan) (fail_ids : List String) (now : ℕ → String) where
  abbrev final : Dict DryRunTaskResult
  final = (run_tasks plan.run_id fail_ids now plan.tasks start).task_status

  HasResults-ids :
      (xs : List String)
      → ((j : String) → has xs j ≡ true → is_some (get final j) ≡ true)
      → HasResults final xs
  HasResults-ids [] h = tt
  HasResults-ids (x ∷ xs) h =
      (h x (ground (arith, eq_refl x)), HasResults-ids xs (λ j e. h j (ground arith)))

  final_total :
      (rs : List DryRunTaskResult) × (collect final plan.tasks ≡ some rs)
      × (map result_id rs ≡ ids plan.tasks)
      × (map has_succeeded rs ≡ map (λ t. result_succeeded (get final t.plan_task_id)) plan.tasks)
  final_total =
      collect_total final plan.tasks
        (run_tasks-IsKeyed plan.run_id fail_ids now plan.tasks start (λ j r e. cc))
        (HasResults-ids (ids plan.tasks)
          (λ j e. ground (arith, run_tasks-is_some plan.run_id fail_ids now plan.tasks start j)))

  -- The result that the run returns, given those of its tasks.
  abbrev reported : List DryRunTaskResult → DryRunResult
  reported rs =
      let s = run_tasks plan.run_id fail_ids now plan.tasks start in
      record {
        run_id = plan.run_id;
        plan_id = plan.plan_id;
        status = if all has_succeeded rs then succeeded else failed;
        tasks = rs;
        events = s.events;
        evidence = s.evidence;
      }

  -- The dry run always ends with a result: it never throws, whatever the plan, and reports on
  -- exactly the plan's tasks, in the plan's order.
  pub run_execution_dry_run_total :
      (r : DryRunResult) × (run_execution_dry_run plan fail_ids now ≡ some r)
      × (map result_id r.tasks ≡ ids plan.tasks)
  unfolding run_execution_dry_run
  run_execution_dry_run_total =
      let (rs, collected, named, _) = final_total in (reported rs, ground arith, named)

  -- What a run that returned says of the list of results.
  pub ran_results :
      {r : DryRunResult}
      → run_execution_dry_run plan fail_ids now ≡ some r
      → (map has_succeeded r.tasks
          ≡ map (λ t. result_succeeded (get final t.plan_task_id)) plan.tasks)
        × (r.status ≡ (if all has_succeeded r.tasks then succeeded else failed))
        × (r.events ≡ (run_tasks plan.run_id fail_ids now plan.tasks start).events)
  unfolding run_execution_dry_run
  ran_results ran = let (rs, collected, _, done) = final_total in ground arith

  module _ (distinct : IsDistinct (ids plan.tasks)) {r : DryRunResult}
      (ran : run_execution_dry_run plan fail_ids now ≡ some r) where
    -- Where the plan's task ids differ, a task succeeds in the dry run exactly when it does in the
    -- reference run: it is not injected to fail, and each of its dependencies stands before it in
    -- the plan and has succeeded.
    pub run_execution_dry_run-outcomes : map has_succeeded r.tasks ≡ outcomes fail_ids [] plan.tasks
    unfolding IsFresh
    run_execution_dry_run-outcomes =
        (ran_results ran).0
        ∙ run_tasks-outcomes plan.run_id fail_ids now plan.tasks start [] distinct (IsFresh-nil _)
            (λ j. refl)

    -- Where the plan's task ids differ, the run succeeds exactly when no task is injected to fail
    -- and every task stands behind all of its dependencies; otherwise it fails.
    pub run_execution_dry_run-succeeded_iff :
        ((r.status ≡ succeeded) ↔ CanRun fail_ids [] plan.tasks)
        × ((r.status ≡ succeeded) ⊎ (r.status ≡ failed))
    run_execution_dry_run-succeeded_iff =
        let (_, status, _) = ran_results ran in
        let all_outcomes =
          all-map-has_succeeded r.tasks ∙ ap (all (λ b. b)) run_execution_dry_run-outcomes in
        ground (arith, outcomes-CanRun fail_ids [] plan.tasks)

    -- Where the plan's task ids differ, the events are, task by task in the plan's order: pending
    -- and failed for a task with a dependency that did not succeed before it; otherwise pending,
    -- running, and failed or succeeded as the failure was injected or not.
    pub run_execution_dry_run-trace : map label r.events ≡ trace fail_ids [] plan.tasks
    unfolding IsFresh
    run_execution_dry_run-trace =
        ap (map label) (ran_results ran).2
        ∙ run_tasks-trace plan.run_id fail_ids now plan.tasks start [] distinct (IsFresh-nil _)
            (λ j. refl)
