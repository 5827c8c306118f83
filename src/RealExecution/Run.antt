-- ===== src/RealExecution/Run.antt =====
-- runRealExecution: the journal is read and its orphans are replayed, and the tasks that are left are
-- run until one stops the run.
use protostar.Base.{
  ℕ, String, Bool, true, false, not, List, [], ◌∷◌, ◌++◌, Option, none, some, get, has, filter,
  is_some, or_else,
}
use protostar.Execution.Tasks.{
  TaskStatus, pending, running, ExecutionTask, ExecutionRunPlan, LifecycleEvent,
}
use protostar.Execution.Journal.{
  TaskJournalEvent, SnapshotTask, ExecutionSnapshot, reduce_journal_to_snapshot,
  replay_orphaned_tasks,
}
use protostar.Repo.Host.{Host}
use protostar.RealExecution.Types.{
  AdapterEvidence, append_event, Services, RunState, Ended, done, M, ◌>>=◌, ◌>>◌, pure, read_state,
}
use protostar.RealExecution.Emission.{perform, now_iso, next_seq}
use protostar.RealExecution.Patches.{WriteContext}
use protostar.RealExecution.Tasks.{RunOutcome, complete, TaskEnd, next, stop, RunContext, run_task}

pub record RepairInput : Type 0 where
  pub attempt : ℕ
  pub dependent_task_ids : List String

pub record RunRealExecutionInput : Type 0 where
  pub run_plan : ExecutionRunPlan
  pub writes : WriteContext
  pub snapshot_every_n_events : Option ℕ
  pub has_sentinel : Bool
  pub repair : Option RepairInput
  -- What readExistingJournalEvents gives; `none` is an error other than a missing file.
  pub existing : Option (List TaskJournalEvent)

pub record RunRealExecutionResult : Type 0 where
  pub outcome : RunOutcome
  pub events : List LifecycleEvent
  pub per_task_evidence : List (String × AdapterEvidence)

abbrev is_settled : TaskStatus → Bool
is_settled pending = false
is_settled running = false
is_settled _ = true

-- A task without an entry in the snapshot has no status.
abbrev pub is_settled_entry : Option SnapshotTask → Bool
is_settled_entry none = false
is_settled_entry (some t) = is_settled t.status

abbrev pub is_remaining : Option RepairInput → ExecutionSnapshot → String → Bool
is_remaining none snapshot id = not (is_settled_entry (get snapshot.tasks id))
is_remaining (some repair) snapshot id = has repair.dependent_task_ids id

unfoldable pub remaining_tasks :
    Option RepairInput → ExecutionSnapshot → List ExecutionTask → List ExecutionTask
remaining_tasks repair snapshot tasks =
    filter (λ t. is_remaining repair snapshot t.plan_task_id) tasks

abbrev attempt_of : Option RepairInput → ℕ
attempt_of none = 1
attempt_of (some repair) = repair.attempt

abbrev pub context_of : RunRealExecutionInput → RunContext
context_of input = record {
  run_id = input.run_plan.run_id;
  writes = input.writes;
  snapshot_every = or_else input.snapshot_every_n_events 20;
  has_sentinel = input.has_sentinel;
  attempt = attempt_of input.repair;
  is_repair = is_some input.repair;
}

-- The state behind the reading of the journal.
abbrev pub started : List TaskJournalEvent → RunState
started events = record {
  history = [];
  ticks = 0;
  seq = next_seq events;
  events_since_snapshot = 0;
  journal = events;
  events = [];
  per_task_evidence = [];
}

-- `allJournalEvents.push(event)`
unfoldable pub join_journal : TaskJournalEvent → M (Unit {0})
join_journal e s = done tt (record s { journal = s.journal ++ e ∷ [] })

abbrev pub continue_with : TaskEnd → M RunOutcome → M RunOutcome
continue_with next rest = rest
continue_with (stop outcome) rest = pure outcome

module _ (host : Host) (services : Services) where
  unfoldable pub run_tasks : RunContext → List ExecutionTask → M RunOutcome
  unfolding run_task
  run_tasks context [] = pure complete
  run_tasks context (task ∷ tasks) = do
    end ← run_task host services context task
    continue_with end (run_tasks context tasks)

  unfoldable pub append_replayed : List TaskJournalEvent → M (Unit {0})
  unfolding join_journal
  append_replayed [] = pure tt
  append_replayed (e ∷ es) = do
    perform services (append_event e)
    join_journal e
    append_replayed es

  abbrev replay : String → M (Unit {0})
  replay run_id = do
    at ← now_iso services
    events ← read_state (λ s. s.journal)
    append_replayed (replay_orphaned_tasks run_id at (next_seq events) events)

  -- `seq` is set anew behind the replay.
  unfoldable pub count_on : M (Unit {0})
  count_on s = done tt (record s { seq = next_seq s.journal })

  -- `completedAtStart`
  abbrev snapshot_at_start : String → M ExecutionSnapshot
  snapshot_at_start run_id = do
    at ← now_iso services
    events ← read_state (λ s. s.journal)
    pure (reduce_journal_to_snapshot run_id at events)

  abbrev pub conclude : RunOutcome → M RunRealExecutionResult
  conclude outcome = read_state (λ s. record {
    outcome = outcome;
    events = s.events;
    per_task_evidence = s.per_task_evidence;
  })

  -- The steps behind the reading of the journal.
  unfoldable pub run_from_journal : RunRealExecutionInput → M RunRealExecutionResult
  unfolding append_replayed count_on remaining_tasks run_tasks
  run_from_journal input = do
    replay input.run_plan.run_id
    count_on
    snapshot ← snapshot_at_start input.run_plan.run_id
    outcome ←
        run_tasks (context_of input) (remaining_tasks input.repair snapshot input.run_plan.tasks)
    conclude outcome

  abbrev pub from_existing :
      Option (List TaskJournalEvent) → RunRealExecutionInput → Option (Ended RunRealExecutionResult)
  from_existing none input = none
  from_existing (some events) input = some (run_from_journal input (started events))

  -- `none` where the journal cannot be read.
  unfoldable pub run_real_execution : RunRealExecutionInput → Option (Ended RunRealExecutionResult)
  unfolding run_from_journal
  run_real_execution input = from_existing input.existing input
