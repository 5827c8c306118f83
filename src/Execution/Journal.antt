-- ===== src/Execution/Journal.antt =====
-- The task journal of packages/execution/src: journal-types.ts, snapshot.ts and orphan-replay.ts.
-- The snapshot's `tasks` is a plain object in the code; here it is a map, which agrees for the task
-- ids that a plan can have (they begin with "task-", so none is a number or a prototype's name).
pub mod Latest
pub mod Replay
pub mod Lines
use protostar.Base.{ℕ, ◌+◌, max, String, List, [], ◌∷◌, ◌++◌, Option, none, some, Dict, get, put}
use protostar.Execution.Tasks.{
  StageArtifactRef, TaskStatus, pending, running, succeeded, failed, timeout, cancelled,
}

pub data RetryReason : Type 0 where
  transient parse_reformat orphaned_by_crash repair : RetryReason

pub data CancelCause : Type 0 where
  sigint sentinel abort : CancelCause

-- The `kind` of a `TaskJournalEvent` with the fields that it adds.
pub data EventKind : Type 0 where
  task_pending task_running : EventKind
  task_succeeded : StageArtifactRef → EventKind
  task_failed :
      (reason : String)
      → Option RetryReason
      → (error_class : Option String) → Option StageArtifactRef
      → EventKind
  task_timeout : Option StageArtifactRef → EventKind
  task_cancelled : CancelCause → Option StageArtifactRef → EventKind

-- `TaskJournalEvent`; its schemaVersion is the constant "1.0.0".
pub record TaskJournalEvent : Type 0 where
  pub run_id : String
  pub plan_task_id : String
  pub at : String
  pub attempt : ℕ
  pub seq : ℕ
  pub kind : EventKind

pub record SnapshotTask : Type 0 where
  pub status : TaskStatus
  pub attempt : ℕ
  pub evidence_artifact : Option StageArtifactRef
  pub last_transition_at : String

pub record ExecutionSnapshot : Type 0 where
  pub run_id : String
  pub generated_at : String
  pub last_event_seq : ℕ
  pub tasks : Dict SnapshotTask

abbrev pub status_from_kind : EventKind → TaskStatus
status_from_kind task_pending = pending
status_from_kind task_running = running
status_from_kind (task_succeeded _) = succeeded
status_from_kind (task_failed _ _ _ _) = failed
status_from_kind (task_timeout _) = timeout
status_from_kind (task_cancelled _ _) = cancelled

abbrev pub evidence_from_kind : EventKind → Option StageArtifactRef
evidence_from_kind task_pending = none
evidence_from_kind task_running = none
evidence_from_kind (task_succeeded ref) = some ref
evidence_from_kind (task_failed _ _ _ ref) = ref
evidence_from_kind (task_timeout ref) = ref
evidence_from_kind (task_cancelled _ ref) = ref

abbrev pub task_from_event : TaskJournalEvent → SnapshotTask
task_from_event e = record {
  status = status_from_kind e.kind;
  attempt = e.attempt;
  evidence_artifact = evidence_from_kind e.kind;
  last_transition_at = e.at;
}

-- The loop of reduceJournalToSnapshot, with its variables `lastEventSeq` and `tasks`.
unfoldable pub reduce_events : List TaskJournalEvent → ℕ → Dict SnapshotTask → ℕ × Dict SnapshotTask
reduce_events [] last tasks = (last, tasks)
reduce_events (e ∷ es) last tasks =
    reduce_events es (max last e.seq) (put tasks e.plan_task_id (task_from_event e))

unfoldable pub reduce_journal_to_snapshot :
    (run_id generated_at : String) → List TaskJournalEvent → ExecutionSnapshot
unfolding reduce_events
reduce_journal_to_snapshot run_id generated_at events =
    let (last, tasks) = reduce_events events 0 [] in
    record { run_id = run_id; generated_at = generated_at; last_event_seq = last; tasks = tasks }

-- The first loop of replayOrphanedTasks: the latest event of each task, in the order of the tasks'
-- first events.
unfoldable pub latest_by_task :
    List TaskJournalEvent → Dict TaskJournalEvent → Dict TaskJournalEvent
latest_by_task [] m = m
latest_by_task (e ∷ es) m = latest_by_task es (put m e.plan_task_id e)

abbrev pub orphan_event : (run_id now_iso : String) → ℕ → TaskJournalEvent → TaskJournalEvent
orphan_event run_id now_iso seq e = record {
  run_id = run_id;
  plan_task_id = e.plan_task_id;
  at = now_iso;
  attempt = e.attempt;
  seq = seq;
  kind = task_failed "orphaned-by-crash" (some orphaned_by_crash) none none;
}

-- The second loop, with its variable `seq`.
unfoldable pub replay_running :
    (run_id now_iso : String) → Dict TaskJournalEvent → ℕ → List TaskJournalEvent
replay_running run_id now_iso [] seq = []
replay_running run_id now_iso ((k, e) ∷ m) seq = elim e.kind [
  | task_running ↦ orphan_event run_id now_iso seq e ∷ replay_running run_id now_iso m (seq + 1)
  | _ ↦ replay_running run_id now_iso m seq
]

unfoldable pub replay_orphaned_tasks :
    (run_id now_iso : String) → (next_seq : ℕ) → List TaskJournalEvent → List TaskJournalEvent
unfolding latest_by_task replay_running
replay_orphaned_tasks run_id now_iso next_seq events =
    replay_running run_id now_iso (latest_by_task events []) next_seq
