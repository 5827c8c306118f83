-- ===== src/Execution/Examples.antt =====
-- The dry run and the journal at small inputs: a plan of three tasks and a journal with a task that
-- a crash left running.
use protostar.Base.{
  ℕ, ◌≡◌, refl, String, true, false, List, [], ◌∷◌, ◌++◌, map, none, some, get, All, ◌≤◌, ◌↔◌, ◌⊎◌,
  or_else,
}
use protostar.Execution.Tasks.{
  ExecutionTask, ExecutionRunPlan, pending, succeeded, failed, DryRunResult, StageArtifactRef,
  task_pending, task_running, task_succeeded, task_failed,
}
use protostar.Execution.DryRun.{
  run_execution_dry_run, run_tasks, run_task, failed_dependencies, block_task, fail_task, pass_task,
  task_evidence_ref, collect,
}
use protostar.Execution.DryRun.Steps.{label}
use protostar.Execution.DryRun.Outcomes.{CanRun}
use protostar.Execution.DryRun.Runs.{
  has_succeeded, run_execution_dry_run-outcomes, run_execution_dry_run-succeeded_iff,
  run_execution_dry_run-trace,
}
use protostar.Execution.Journal as J
use protostar.Execution.Journal.{
  TaskJournalEvent, EventKind, orphan_event, reduce_events, reduce_journal_to_snapshot,
  latest_by_task, replay_running, replay_orphaned_tasks,
}
use protostar.Execution.Journal.Latest.{latest, tasked, Attains}
use protostar.Execution.Journal.Replay.{
  reduce_journal_to_snapshot-latest, replay_orphaned_tasks-settled,
  replay_orphaned_tasks_idempotent,
}

abbrev task : String → List String → ExecutionTask
task id deps = record {
  plan_task_id = id;
  title = id;
  status = pending;
  depends_on = deps;
  target_files = none;
  adapter_ref = none;
}

abbrev three_tasks : ExecutionRunPlan
three_tasks = record {
  run_id = "run-1";
  plan_id = "plan-1";
  tasks = task "a" [] ∷ task "b" ("a" ∷ []) ∷ task "c" ("b" ∷ []) ∷ [];
}

abbrev clock : ℕ → String
clock k = "now"

abbrev nothing : DryRunResult
nothing = record {
  run_id = "";
  plan_id = "";
  status = pending;
  tasks = [];
  events = [];
  evidence = [];
}

dry_run : Unit {0}
unfolding run_execution_dry_run run_tasks run_task failed_dependencies block_task fail_task
    pass_task task_evidence_ref collect
dry_run = tt

-- The run with task "b" injected to fail.
abbrev result : DryRunResult
result = or_else (run_execution_dry_run three_tasks ("b" ∷ []) clock) nothing

ran : run_execution_dry_run three_tasks ("b" ∷ []) clock ≡ some result
unfolding dry_run
ran = refl

run_execution_dry_run-outcomes_example : map has_succeeded result.tasks ≡ true ∷ false ∷ false ∷ []
run_execution_dry_run-outcomes_example =
    run_execution_dry_run-outcomes three_tasks ("b" ∷ []) clock (refl, (refl, (refl, tt))) ran

run_execution_dry_run-succeeded_iff_example :
    ((result.status ≡ succeeded) ↔ CanRun ("b" ∷ []) [] three_tasks.tasks)
    × ((result.status ≡ succeeded) ⊎ (result.status ≡ failed))
run_execution_dry_run-succeeded_iff_example =
    run_execution_dry_run-succeeded_iff three_tasks ("b" ∷ []) clock (refl, (refl, (refl, tt))) ran

run_execution_dry_run-trace_example :
    map label result.events
    ≡ (task_pending, "a")
      ∷ (task_running, "a")
      ∷ (task_succeeded, "a")
      ∷ (task_pending, "b")
      ∷ (task_running, "b")
      ∷ (task_failed, "b")
      ∷ (task_pending, "c")
      ∷ (task_failed, "c")
      ∷ []
run_execution_dry_run-trace_example =
    run_execution_dry_run-trace three_tasks ("b" ∷ []) clock (refl, (refl, (refl, tt))) ran

abbrev event : ℕ → String → ℕ → EventKind → TaskJournalEvent
event seq id attempt kind = record {
  run_id = "run-1";
  plan_task_id = id;
  at = "then";
  attempt = attempt;
  seq = seq;
  kind = kind;
}

abbrev report : StageArtifactRef
report = record {
  stage = "execution";
  kind = "task-evidence";
  uri = "evidence.json";
  sha256 = none;
  description = none;
}

-- Task "a" has succeeded; task "b" was running, in its second attempt.
abbrev crashed : List TaskJournalEvent
crashed =
    event 1 "a" 1 J.task_running
    ∷ event 2 "b" 1 J.task_running
    ∷ event 3 "a" 1 (J.task_succeeded report)
    ∷ event 4 "b" 2 J.task_running
    ∷ []

journal : Unit {0}
unfolding reduce_journal_to_snapshot reduce_events replay_orphaned_tasks latest_by_task
    replay_running
journal = tt

reduce_journal_to_snapshot-latest_example :
    let s = reduce_journal_to_snapshot "run-1" "now" crashed in
    ((j : String) → get s.tasks j ≡ tasked (latest j crashed))
    × All (λ e. e.seq ≤ s.last_event_seq) crashed
    × ((s.last_event_seq ≡ 0) ⊎ Attains s.last_event_seq crashed)
reduce_journal_to_snapshot-latest_example = reduce_journal_to_snapshot-latest "run-1" "now" crashed

replay_orphaned_tasks-settled_example :
    get
      (reduce_journal_to_snapshot "run-1" "now"
        (crashed ++ replay_orphaned_tasks "run-1" "now" 5 crashed)).tasks
      "b"
    ≡ some (record {
      status = failed;
      attempt = 2;
      evidence_artifact = none;
      last_transition_at = "now";
    })
unfolding journal
replay_orphaned_tasks-settled_example =
    replay_orphaned_tasks-settled "run-1" "now" "now" 5 crashed "b"

replay_orphaned_tasks_idempotent_example :
    replay_orphaned_tasks "run-1" "now" 6 (crashed ++ replay_orphaned_tasks "run-1" "now" 5 crashed)
    ≡ []
replay_orphaned_tasks_idempotent_example =
    replay_orphaned_tasks_idempotent "run-1" "now" 5 6 crashed
