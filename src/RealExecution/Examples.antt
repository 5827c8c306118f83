-- ===== src/RealExecution/Examples.antt =====
-- A run of the executor over a journal with one finished and one orphaned task.
use protostar.Base.{
  ℕ, ◌≡◌, refl, String, true, false, List, [], ◌∷◌, Option, none, some, ◌==◌, if◌then◌else◌, map,
  has, get, ◌&&◌, ◌++◌,
}
use protostar.Authority.Envelope.{write, trusted, CapabilityEnvelope, no_budget}
use protostar.Execution.Tasks.{
  StageArtifactRef, pending, task_pending, task_running, task_succeeded, task_failed, ExecutionTask,
}
use protostar.Execution.Journal.{
  EventKind, TaskJournalEvent, reduce_journal_to_snapshot, replay_orphaned_tasks,
}
use protostar.Repo.Host.{Host}
use protostar.Repo.ChangeSet.{applied}
use protostar.Repo.Examples.{host}
use protostar.RealExecution.Types.{token, final, change_set, live, Services, Ended, done}
use protostar.RealExecution.Run.{
  RunRealExecutionInput, RunRealExecutionResult, run_real_execution, remaining_tasks,
}
use protostar.RealExecution.Tasks.{empty_evidence}
use protostar.RealExecution.Logic.{Label, label_of}
use protostar.RealExecution.Journals.{IsTraced, run_real_execution-IsTraced, ids_of}
use protostar.RealExecution.Resume.{never_started, remaining_tasks-replay_orphaned_tasks}

abbrev workspace_host : Host
workspace_host = record host {
  resolve_from = λ root p. if p == "src/a.ts" then "/w/src/a.ts" else p;
  relative = λ root p. if p == "/w/src/a.ts" then "src/a.ts" else "..";
  parse_patch = λ d.
      some (record { old_file_name = none; new_file_name = some "b/src/a.ts"; hunks = [] } ∷ []);
}

abbrev envelope : CapabilityEnvelope
envelope = record {
  repo_scopes = record { workspace = "main"; path = "src"; access = write } ∷ [];
  tool_permissions = [];
  execute_grants = none;
  allow_dirty = none;
  network = none;
  budget = no_budget;
}

abbrev task : String → List String → ExecutionTask
task id targets = record {
  plan_task_id = id;
  title = id;
  status = pending;
  depends_on = [];
  target_files = some targets;
  adapter_ref = none;
}

abbrev ref : StageArtifactRef
ref = record { stage = "execution"; kind = "k"; uri = "u"; sha256 = none; description = none }

abbrev existing : List TaskJournalEvent
existing =
    record {
      run_id = "r";
      plan_task_id = "done";
      at = "0";
      attempt = 1;
      seq = 1;
      kind = EventKind.task_succeeded ref;
    }
    ∷ record {
      run_id = "r";
      plan_task_id = "orphan";
      at = "0";
      attempt = 1;
      seq = 2;
      kind = EventKind.task_running;
    }
    ∷ []

abbrev input : RunRealExecutionInput
input = record {
  run_plan = record {
    run_id = "r";
    plan_id = "p";
    tasks = task "done" [] ∷ task "orphan" [] ∷ task "edit" ("src/a.ts" ∷ []) ∷ [];
  };
  writes = record {
    workspace = record { root = "/w"; default_branch = none; trust = trusted };
    resolved_envelope = envelope;
    workspace_root = "/w";
  };
  snapshot_every_n_events = none;
  has_sentinel = true;
  repair = none;
  existing = some existing;
}

-- Everything is resolved, and the adapter edits one file.
abbrev services : Services
services = record {
  now = λ k. "now";
  persist = λ h e. true;
  target_exists = λ h p. some false;
  root_aborted = λ h. none;
  task_signal = λ h. live;
  adapter_id = "adapter";
  execute = λ h t attempt. some (
      token "t"
      ∷ final (
          change_set (record { path = "src/a.ts"; diff = "new"; pre_image_sha256 = "old" } ∷ [])
            empty_evidence)
      ∷ []);
  apply = λ h ps.
      some
        (record { path = "src/a.ts"; status = applied; error = none; touched_files = none } ∷ []);
  print = λ n. "1";
}

abbrev labels : Option (Ended RunRealExecutionResult) → List (ℕ × Label)
labels (some (done result t)) = map label_of t.journal
labels _ = []

run_real_execution-IsTraced_example :
    (r : Ended RunRealExecutionResult) × (run_real_execution workspace_host services input ≡ some r)
    × IsTraced workspace_host services input existing r
run_real_execution-IsTraced_example =
    run_real_execution-IsTraced workspace_host services input existing refl

-- The orphan is replayed as failed, and only the task that is left runs.
input-labels :
    labels (run_real_execution workspace_host services input)
    ≡ (1, (task_succeeded, "done"))
      ∷ (2, (task_running, "orphan"))
      ∷ (3, (task_failed, "orphan"))
      ∷ (4, (task_pending, "edit"))
      ∷ (5, (task_running, "edit"))
      ∷ (6, (task_succeeded, "edit"))
      ∷ []
unfolding run_real_execution protostar.Execution.Journal.replay_orphaned_tasks
    protostar.RealExecution.Emission.perform protostar.Execution.Journal.reduce_journal_to_snapshot
    protostar.RealExecution.Emission.emit
    protostar.RealExecution.Tasks.is_synthetic_pre_handoff_verification_task
    protostar.RealExecution.Patches.materialize_missing_authorized_write_targets
    protostar.Authority.Operations.authorize_workspace_op
    protostar.RealExecution.Patches.patches_from_change_set
    protostar.Repo.ChangeSet.mint_patch_request protostar.Repo.ChangeSet.canonicalize_relative_path
    protostar.Repo.ChangeSet.strip_diff_prefix protostar.RealExecution.Emission.next_seq
input-labels = refl

-- The orphan is not taken up again.
remaining_tasks-replay_orphaned_tasks_example :
    has
      (ids_of (
        remaining_tasks none
          (reduce_journal_to_snapshot "r" "now"
            (existing ++ replay_orphaned_tasks "r" "now" 3 existing))
          input.run_plan.tasks))
      "orphan"
    ≡ true && never_started (get (reduce_journal_to_snapshot "r" "now" existing).tasks "orphan")
remaining_tasks-replay_orphaned_tasks_example =
    remaining_tasks-replay_orphaned_tasks "r" "now" "now" 3 existing input.run_plan.tasks "orphan"
