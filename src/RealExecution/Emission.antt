-- ===== src/RealExecution/Emission.antt =====
-- `emit` of runRealExecution: an event is appended to the journal, kept, and followed by a snapshot
-- after a number of events or at the end of a task.
use protostar.Base.{
  ℕ, ◌+◌, max, String, Bool, true, false, ◌||◌, List, [], ◌∷◌, ◌++◌, Option, none, some, leb,
  if◌then◌else◌,
}
use protostar.Execution.Tasks.{
  StageArtifactRef, EventType, task_pending, task_running, task_succeeded, task_failed,
  task_timeout, task_cancelled, LifecycleEvent,
}
use protostar.Execution.Journal.{
  EventKind, TaskJournalEvent, status_from_kind, evidence_from_kind, reduce_journal_to_snapshot,
}
use protostar.RealExecution.Types.{
  Effect, append_event, write_snapshot, Services, done, thrown, M, ◌>>=◌, ◌>>◌, read_state,
}

abbrev pub type_of : EventKind → EventType
type_of EventKind.task_pending = task_pending
type_of EventKind.task_running = task_running
type_of (EventKind.task_succeeded _) = task_succeeded
type_of (EventKind.task_failed _ _ _ _) = task_failed
type_of (EventKind.task_timeout _) = task_timeout
type_of (EventKind.task_cancelled _ _) = task_cancelled

abbrev reason_from_kind : EventKind → Option String
reason_from_kind (EventKind.task_failed reason _ _ _) = some reason
reason_from_kind _ = none

abbrev to_list : Option StageArtifactRef → Option (List StageArtifactRef)
to_list none = none
to_list (some ref) = some (ref ∷ [])

unfoldable pub lifecycle_from_journal : TaskJournalEvent → LifecycleEvent
lifecycle_from_journal e = record {
  type = type_of e.kind;
  run_id = e.run_id;
  plan_task_id = e.plan_task_id;
  at = e.at;
  attempt = some e.attempt;
  status = status_from_kind e.kind;
  reason = reason_from_kind e.kind;
  blocked_by = none;
  evidence = to_list (evidence_from_kind e.kind);
}

unfoldable pub is_terminal : EventKind → Bool
is_terminal EventKind.task_pending = false
is_terminal EventKind.task_running = false
is_terminal _ = true

-- The largest sequence number so far.
unfoldable pub max_seq : List TaskJournalEvent → ℕ → ℕ
max_seq [] n = n
max_seq (e ∷ es) n = max_seq es (max n e.seq)

unfoldable pub next_seq : List TaskJournalEvent → ℕ
unfolding max_seq
next_seq events = max_seq events 0 + 1

module _ (services : Services) where
  -- An awaited call; it is noted whether it is resolved or not.
  unfoldable pub perform : Effect → M (Unit {0})
  perform e s =
      let s' = record s { history = e ∷ s.history } in
      if services.persist s.history e then done tt s' else thrown s'

  -- `nowIso()`
  abbrev pub now_iso : M String
  now_iso s = done (services.now s.ticks) (record s { ticks = s.ticks + 1 })

  unfoldable pub reset_count : M (Unit {0})
  reset_count s = done tt (record s { events_since_snapshot = 0 })

  -- The event joins the lists, and its number is taken before it is appended.
  unfoldable pub take_seq : M (Unit {0})
  take_seq s = done tt (record s { seq = s.seq + 1 })

  unfoldable pub keep_event : TaskJournalEvent → M (Unit {0})
  unfolding lifecycle_from_journal
  keep_event e s = done tt (record s {
    journal = s.journal ++ e ∷ [];
    events = s.events ++ lifecycle_from_journal e ∷ [];
    events_since_snapshot = s.events_since_snapshot + 1;
  })

  module _ (run_id : String) (snapshot_every : ℕ) where
    unfoldable pub snapshot_if_due : TaskJournalEvent → M (Unit {0})
    unfolding is_terminal perform reset_count
    snapshot_if_due e s =
        if leb snapshot_every s.events_since_snapshot || is_terminal e.kind
        then (do
          at ← now_iso
          perform (write_snapshot (reduce_journal_to_snapshot run_id at s.journal))
          reset_count)
            s
        else done tt s

    abbrev journal_event : EventKind → String → ℕ → String → ℕ → TaskJournalEvent
    journal_event kind id attempt at seq = record {
      run_id = run_id;
      plan_task_id = id;
      at = at;
      attempt = attempt;
      seq = seq;
      kind = kind;
    }

    unfoldable pub emit_event : TaskJournalEvent → M (Unit {0})
    unfolding take_seq perform keep_event snapshot_if_due
    emit_event e = do take_seq; perform (append_event e); keep_event e; snapshot_if_due e

    -- The arguments of `emit`, with `at: nowIso()`.
    unfoldable pub emit : EventKind → String → ℕ → M (Unit {0})
    unfolding emit_event
    emit kind id attempt = do
      at ← now_iso
      seq ← read_state (λ s. s.seq)
      emit_event (journal_event kind id attempt at seq)
