-- ===== src/RealExecution/Journals.antt =====
-- What a run of the executor leaves in the journal, whether it ends or throws.
use protostar.Base.{
  ℕ, ◌+◌, ◌≡◌, refl, sym, subst, ap, ◌∙◌, ◌⊎◌, inl, inr, String, List, [], ◌∷◌, ◌++◌, some, map,
  append-nil,
}
use protostar.Execution.Tasks.{task_succeeded, ExecutionTask}
use protostar.Execution.Journal.{
  TaskJournalEvent, reduce_journal_to_snapshot, replay_orphaned_tasks,
}
use protostar.Repo.Host.{Host}
use protostar.RealExecution.Types.{Services, RunState, Ended, done, thrown, M, and_then}
use protostar.RealExecution.Emission.{next_seq}
use protostar.RealExecution.Tasks.{RunOutcome, complete, TaskEnd, next, stop, RunContext}
use protostar.RealExecution.Run.{
  RunRealExecutionInput, RunRealExecutionResult, context_of, started, remaining_tasks, run_tasks,
  continue_with, count_on, run_from_journal, run_real_execution, from_existing, conclude,
}
use protostar.RealExecution.Logic.{
  Label, numbered, label_of, event_label, IsSound, IsHalted, Ensures, ended, cut, Ensures-and_then,
  Ensures-weaken, ends_pure,
}
use protostar.RealExecution.Replay.{Replays, replayed, replay_cut, append_replayed-Replays}
use protostar.RealExecution.Traces.{ran, TaskTrace}
use protostar.RealExecution.Bodies.{run_task-TaskTrace}

-- How a run of tasks ends, with the labels of its events: tasks that succeed, until one stops the
-- run or none is left.
abbrev pub RunTrace : List String → RunOutcome → List Label → Type 0
RunTrace [] outcome ks = (outcome ≡ complete) × (ks ≡ [])
RunTrace (id ∷ ids) outcome ks =
    ((ls : List Label) × (ks ≡ ran task_succeeded id ++ ls) × RunTrace ids outcome ls)
    ⊎ TaskTrace id (stop outcome) ks

abbrev pub ids_of : List ExecutionTask → List String
ids_of tasks = map (λ t. t.plan_task_id) tasks

module _ (host : Host) (services : Services) where
  continue-RunTrace :
      (context : RunContext) (task : ExecutionTask) (tasks : List ExecutionTask) (end : TaskEnd)
      (t : RunState) (ks : List Label)
      → Ensures host context.writes t
          (RunTrace (ids_of tasks))
          (run_tasks host services context tasks t)
      → TaskTrace task.plan_task_id end ks
      → Ensures host context.writes t
          (λ outcome ls. RunTrace (ids_of (task ∷ tasks)) outcome (ks ++ ls))
          (continue_with end (run_tasks host services context tasks) t)
  continue-RunTrace context task tasks next t ks rest finished =
      Ensures-weaken host context.writes
        (λ outcome ls trace. inl (ls, ap (λ js. js ++ ls) finished, trace)) rest
  continue-RunTrace context task tasks (stop outcome) t ks rest h =
      ends_pure host context.writes outcome t
        (inr (subst (TaskTrace task.plan_task_id (stop outcome)) (sym (append-nil ks)) h))

  run_tasks-RunTrace :
      (context : RunContext) (tasks : List ExecutionTask) (s : RunState)
      → Ensures host context.writes s
          (RunTrace (ids_of tasks))
          (run_tasks host services context tasks s)
  unfolding run_tasks
  run_tasks-RunTrace context [] s = ends_pure host context.writes complete s (refl, refl)
  run_tasks-RunTrace context (task ∷ tasks) s =
      Ensures-and_then host context.writes _ (run_task-TaskTrace host services context task s)
        (λ end t ks h.
          continue-RunTrace context task tasks end t ks (run_tasks-RunTrace context tasks t) h)

  module _ (input : RunRealExecutionInput) where
    -- What is left to run behind these events, by a snapshot of the time that the clock gives.
    abbrev pub left : List TaskJournalEvent → ℕ → List String
    left all tick = ids_of (
        remaining_tasks input.repair
          (reduce_journal_to_snapshot input.run_plan.run_id (services.now tick) all)
          input.run_plan.tasks)

    -- A run that ended: the journal goes on by the trace of the tasks that were left, the result
    -- lists these events, the journal is the old one with what was appended to its file, and no effect
    -- was unsafe.
    abbrev pub Completed :
        (old all : List TaskJournalEvent) → ℕ → RunRealExecutionResult → RunState → Type 0
    Completed old all tick result t =
        (ks : List Label) × (map label_of t.journal
          ≡ map label_of all ++ numbered (next_seq all) ks)
        × RunTrace (left all tick) result.outcome ks
        × (map event_label result.events ≡ ks)
        × IsSound host input.writes old t

    -- A run that threw behind the replay.
    abbrev pub Interrupted : (old all : List TaskJournalEvent) → RunState → Type 0
    Interrupted old all t =
        ((ks : List Label) × (map label_of t.journal
            ≡ map label_of all ++ numbered (next_seq all) ks))
        × IsHalted host input.writes old t

    abbrev Behind : (old all : List TaskJournalEvent) → ℕ → Ended RunRealExecutionResult → Type 0
    Behind old all tick (done result t) = Completed old all tick result t
    Behind old all tick (thrown t) = Interrupted old all t

    -- A run from the events of a journal.
    abbrev pub IsTraced : List TaskJournalEvent → Ended RunRealExecutionResult → Type 0
    IsTraced events (done result t) =
        Completed events
          (events
            ++ replay_orphaned_tasks input.run_plan.run_id (services.now 0) (next_seq events)
                events)
          1 result t
    IsTraced events (thrown t) =
        Interrupted events
          (events
            ++ replay_orphaned_tasks input.run_plan.run_id (services.now 0) (next_seq events)
                events)
          t
        ⊎ ((ds : List TaskJournalEvent) × (rest : List TaskJournalEvent) × (replay_orphaned_tasks
                input.run_plan.run_id (services.now 0) (next_seq events) events
              ≡ ds ++ rest)
            × (t.journal ≡ events ++ ds)
            × IsHalted host input.writes events t)

    conclude-Behind :
        (old : List TaskJournalEvent) (tick : ℕ) (s : RunState) {r : Ended RunOutcome}
        → s.events ≡ []
        → s.seq ≡ next_seq s.journal
        → IsSound host input.writes old s
        → Ensures host input.writes s (RunTrace (left s.journal tick)) r
        → Behind old s.journal tick (and_then r (conclude host services))
    conclude-Behind old tick s none_yet seq safe (ended outcome t ks ((j, keeps), n, e) trace) = (
      ks,
      j ∙ ap (λ m. map label_of s.journal ++ numbered m ks) seq,
      trace,
      e ∙ ap (λ es. map event_label es ++ ks) none_yet,
      keeps old safe,
    )
    conclude-Behind old tick s none_yet seq safe (cut t ks (j, keeps)) =
        ((ks, j ∙ ap (λ m. map label_of s.journal ++ numbered m ks) seq), keeps old safe)

    abbrev counted : RunState → RunState
    counted t = record t { seq = next_seq t.journal; ticks = t.ticks + 1 }

    -- The run behind the replay.
    counted-Behind :
        (old : List TaskJournalEvent) (t : RunState)
        → t.events ≡ []
        → IsSound host input.writes old t
        → Behind old t.journal t.ticks (
            and_then
              (run_tasks host services
                (context_of input)
                (remaining_tasks input.repair
                  (reduce_journal_to_snapshot input.run_plan.run_id
                    (services.now t.ticks)
                    t.journal)
                  input.run_plan.tasks)
                (counted t))
              (conclude host services))
    counted-Behind old t none_yet safe =
        conclude-Behind old t.ticks (counted t) none_yet refl safe
          (run_tasks-RunTrace (context_of input) _ (counted t))

    abbrev behind : M RunRealExecutionResult
    behind t =
        and_then
          (run_tasks host services (context_of input)
            (remaining_tasks input.repair
              (reduce_journal_to_snapshot input.run_plan.run_id (services.now t.ticks) t.journal)
              input.run_plan.tasks)
            (counted t))
          (conclude host services)

    Behind-IsTraced :
        (events : List TaskJournalEvent) (r : Ended RunRealExecutionResult)
        → Behind events
            (events
              ++ replay_orphaned_tasks input.run_plan.run_id
                  (services.now 0)
                  (next_seq events)
                  events)
            1
            r
        → IsTraced events r
    Behind-IsTraced events (done result t) h = h
    Behind-IsTraced events (thrown t) h = inl h

    Replays-IsTraced :
        (events : List TaskJournalEvent) {r : Ended (Unit {0})}
        → Replays host services input.writes
            (record (started events) { ticks = 1 })
            (replay_orphaned_tasks input.run_plan.run_id (services.now 0) (next_seq events) events)
            r
        → IsTraced events (and_then r (λ _. behind))
    Replays-IsTraced events (replayed t j none_yet ticks safe) = Behind-IsTraced events (behind t) (
        subst (λ all. Behind events all 1 (behind t)) j
          (subst (λ tick. Behind events t.journal tick (behind t)) ticks
            (counted-Behind events t none_yet (safe events (tt, sym (append-nil _))))))
    Replays-IsTraced events (replay_cut t ds rest split j safe) =
        inr (ds, rest, split, j, safe events (tt, sym (append-nil _)))

    run_from_journal-IsTraced :
        (events : List TaskJournalEvent)
        → IsTraced events (run_from_journal host services input (started events))
    unfolding run_from_journal count_on
    run_from_journal-IsTraced events =
        Replays-IsTraced events (append_replayed-Replays host services input.writes _ _)

    -- For every plan, every journal that can be read and all answers of the services, a run of the
    -- executor ends or throws in one of these ways. It ends: the journal in memory is that of the
    -- events that were read and then those whose append to the file was asked for, in order; this
    -- journal holds, in order, the types
    -- and tasks of the events that were there, of the replay of the orphaned tasks, and of new
    -- events, which are numbered on from the largest number without a gap; the new ones are pending,
    -- running and succeeded for each task that was left, in the order of the plan, until none is left
    -- or a task stops the run: one that succeeded (complete), one that was cancelled before or
    -- behind its start (cancelled), one that timed out or one that failed (block); and the result
    -- lists the types and tasks of just these new events. Or it throws: the journal in memory holds
    -- the old events and a first part of the replay, or all of both and new events numbered on; and
    -- the appends that were asked for are those of this journal and at most one more. In all cases
    -- every file that was created is the place below the root, or the root, of a target whose write
    -- is authorized, and every patch that was handed on is for a path whose write is authorized, in
    -- an operation on the workspace's root, and passes the check of its three paths.
    pub run_real_execution-IsTraced :
        (events : List TaskJournalEvent)
        → input.existing ≡ some events
        → (r : Ended RunRealExecutionResult) × (run_real_execution host services input ≡ some r)
          × IsTraced events r
    unfolding run_real_execution
    run_real_execution-IsTraced events e = (
      run_from_journal host services input (started events),
      ap (λ existing. from_existing host services existing input) e,
      run_from_journal-IsTraced events,
    )
