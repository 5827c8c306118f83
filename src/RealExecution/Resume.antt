-- ===== src/RealExecution/Resume.antt =====
-- What a run over an old journal takes up again.
use protostar.Base.{
  ℕ, ◌≡◌, refl, ap, ◌∙◌, inl, inr, String, Bool, true, false, not, ◌&&◌, ◌++◌, List, [], ◌∷◌,
  Option, none, some, get, has, filter, arith, eq_iff, Bool-cases,
}
use protostar.Execution.Tasks.{
  TaskStatus, pending, running, succeeded, failed, timeout, cancelled, ExecutionTask,
}
use protostar.Execution.Journal.{
  TaskJournalEvent, SnapshotTask, reduce_journal_to_snapshot, replay_orphaned_tasks,
}
use protostar.Execution.Journal.Replay.{map_settled, replay_orphaned_tasks-settled}
use protostar.RealExecution.Run.{is_settled_entry, is_remaining, remaining_tasks}
use protostar.RealExecution.Journals.{ids_of}

-- A task without an event, or with a pending one as its latest.
abbrev is_pending : TaskStatus → Bool
is_pending pending = true
is_pending _ = false

abbrev pub never_started : Option SnapshotTask → Bool
never_started none = true
never_started (some t) = is_pending t.status

has-filter :
    (p : String → Bool) (tasks : List ExecutionTask) (j : String)
    → has (ids_of (filter (λ t. p t.plan_task_id) tasks)) j ≡ has (ids_of tasks) j && p j
has-filter p [] j = refl
has-filter p (t ∷ ts) j = elim (Bool-cases (p t.plan_task_id)) [
  | inl kept ↦ ground (arith, kept, eq_iff t.plan_task_id j, has-filter p ts j)
  | inr dropped ↦ ground (arith, dropped, eq_iff t.plan_task_id j, has-filter p ts j)
]

settled-never_started :
    (now_iso : String) (o : Option SnapshotTask)
    → not (is_settled_entry (map_settled now_iso o)) ≡ never_started o
settled-never_started now_iso none = refl
settled-never_started now_iso (some t) = by_status t.status refl
  where
    by_status :
        (status : TaskStatus)
        → t.status ≡ status
        → not (is_settled_entry (map_settled now_iso (some t))) ≡ is_pending t.status
    by_status pending e = rw e
    by_status running e = rw e
    by_status succeeded e = rw e
    by_status failed e = rw e
    by_status timeout e = rw e
    by_status cancelled e = rw e

-- Without a repair, the tasks that are left behind the replay are, whatever the journal, those of the
-- plan that have no event in the journal or a pending one as their latest. So a task whose latest
-- event is a running one, as of one that a crash cut off, is not taken up again.
pub remaining_tasks-replay_orphaned_tasks :
    (run_id now_iso generated_at : String) (next_seq : ℕ) (events : List TaskJournalEvent)
    (tasks : List ExecutionTask) (j : String)
    → let replayed = replay_orphaned_tasks run_id now_iso next_seq events in
      let before = reduce_journal_to_snapshot run_id generated_at events in
      let after = reduce_journal_to_snapshot run_id generated_at (events ++ replayed) in
      has (ids_of (remaining_tasks none after tasks)) j
      ≡ has (ids_of tasks) j && never_started (get before.tasks j)
unfolding remaining_tasks
remaining_tasks-replay_orphaned_tasks run_id now_iso generated_at next_seq events tasks j =
    let replayed = replay_orphaned_tasks run_id now_iso next_seq events in
    let before = reduce_journal_to_snapshot run_id generated_at events in
    let after = reduce_journal_to_snapshot run_id generated_at (events ++ replayed) in
    has-filter (is_remaining none after) tasks j
    ∙ ap (λ b. has (ids_of tasks) j && b)
        (ap (λ o. not (is_settled_entry o))
            (replay_orphaned_tasks-settled run_id now_iso generated_at next_seq events j)
          ∙ settled-never_started now_iso (get before.tasks j))
