-- ===== src/Execution/Journal/Replay.antt =====
-- The snapshot of a journal, and the replay of the tasks that a crash left running.
use protostar.Base.{
  ℕ, ◌+◌, ◌≤◌, ◌≡◌, refl, sym, ap, ◌∙◌, ◌⊎◌, inl, inr, String, Bool, true, false, List, [], ◌∷◌,
  ◌++◌, Option, none, some, arith, eq_iff, eq_refl, Dict, get, keys, has, has-keys, IsDistinct, All,
  first_some, Bool-cases, if◌then◌else◌,
}
use protostar.Execution.Tasks.{running, failed}
use protostar.Execution.Journal.{
  EventKind, task_running, TaskJournalEvent, SnapshotTask, task_from_event,
  reduce_journal_to_snapshot, latest_by_task, orphan_event, replay_running, replay_orphaned_tasks,
}
use protostar.Execution.Journal.Latest.{
  latest, tasked, latest-append, reduce_events-get, reduce_events-le, reduce_events-Attains,
  Attains, latest_by_task-get, latest_by_task-IsDistinct, IsOwn,
}

-- The snapshot is the journal's last word: each task is as its last event left it, a task with no
-- event is absent, and the last sequence number is at least every event's, and one of them or 0.
pub reduce_journal_to_snapshot-latest :
    (run_id generated_at : String) (events : List TaskJournalEvent)
    → let s = reduce_journal_to_snapshot run_id generated_at events in
      ((j : String) → get s.tasks j ≡ tasked (latest j events))
      × All (λ e. e.seq ≤ s.last_event_seq) events
      × ((s.last_event_seq ≡ 0) ⊎ Attains s.last_event_seq events)
unfolding reduce_journal_to_snapshot
reduce_journal_to_snapshot-latest run_id generated_at events = (
  λ j. ground (arith, reduce_events-get events 0 [] j),
  (reduce_events-le events 0 []).1,
  reduce_events-Attains events 0 [],
)

-- What the replay makes of a task of the snapshot: one that was running has failed, in the same
-- attempt, and any other is as it was.
abbrev pub settled : String → SnapshotTask → SnapshotTask
settled now_iso t = elim t.status [
  | running ↦ record {
    status = failed;
    attempt = t.attempt;
    evidence_artifact = none;
    last_transition_at = now_iso;
  }
  | _ ↦ t
]

abbrev pub map_settled : String → Option SnapshotTask → Option SnapshotTask
map_settled now_iso none = none
map_settled now_iso (some t) = some (settled now_iso t)

abbrev is_running : EventKind → Bool
is_running task_running = true
is_running _ = false

-- The task of the replayed event, if the latest event is a running one.
abbrev orphaned : String → Option TaskJournalEvent → Option SnapshotTask
orphaned now_iso none = none
orphaned now_iso (some e) =
    if is_running e.kind then some (settled now_iso (task_from_event e)) else none

get_absent : (m : Dict TaskJournalEvent) (j : String) → has (keys m) j ≡ false → get m j ≡ none
get_absent m j h = ground (arith, has-keys m j)

module _ (run_id now_iso : String) where
  replay_running-latest :
      (m : Dict TaskJournalEvent) (seq : ℕ) (j : String)
      → IsDistinct (keys m)
      → IsOwn m
      → tasked (latest j (replay_running run_id now_iso m seq)) ≡ orphaned now_iso (get m j)
  unfolding replay_running
  replay_running-latest [] seq j d o = refl
  replay_running-latest ((k, e) ∷ m) seq j (d, ds) (o, os) = ground (
    arith,
    eq_iff k j,
    get_absent m j,
    replay_running-latest m seq j ds os,
    replay_running-latest m (seq + 1) j ds os,
  )

  replay_orphaned_tasks-latest :
      (next_seq : ℕ) (events : List TaskJournalEvent) (j : String)
      → tasked (latest j (replay_orphaned_tasks run_id now_iso next_seq events))
        ≡ orphaned now_iso (latest j events)
  unfolding replay_orphaned_tasks
  replay_orphaned_tasks-latest next_seq events j =
      let (d, o) = latest_by_task-IsDistinct events [] tt tt in
      replay_running-latest (latest_by_task events []) next_seq j d o
      ∙ ap (orphaned now_iso) (ground (arith, latest_by_task-get events [] j))

-- In a map without doubles the tail's entries are entries of the whole.
tail-get :
    (k : String) (x : TaskJournalEvent) (m : Dict TaskJournalEvent) (j : String)
    (e : TaskJournalEvent)
    → has (keys m) k ≡ false
    → get m j ≡ some e
    → get ((k, x) ∷ m) j ≡ some e
tail-get k x m j e h g = ground (arith, eq_iff k j, has-keys m j, has-keys m k)

replay_running-nil :
    (run_id now_iso : String) (m : Dict TaskJournalEvent) (seq : ℕ)
    → IsDistinct (keys m)
    → ((j : String) (e : TaskJournalEvent) → get m j ≡ some e → is_running e.kind ≡ false)
    → replay_running run_id now_iso m seq ≡ []
unfolding replay_running
replay_running-nil run_id now_iso [] seq d h = refl
replay_running-nil run_id now_iso ((k, x) ∷ m) seq (d, ds) h = ground (
  arith,
  h k x (ground (arith, eq_refl k)),
  replay_running-nil run_id now_iso m seq ds (λ j e g. h j e (tail-get k x m j e d g)),
)

-- Appending the replayed events settles the snapshot: each task that was running has failed, in the
-- attempt that it was in and at the time of the replay, every other task is unchanged, and no task
-- appears or disappears. So no task is running.
pub replay_orphaned_tasks-settled :
    (run_id now_iso generated_at : String) (next_seq : ℕ) (events : List TaskJournalEvent)
    (j : String)
    → let replayed = replay_orphaned_tasks run_id now_iso next_seq events in
      let before = reduce_journal_to_snapshot run_id generated_at events in
      let after = reduce_journal_to_snapshot run_id generated_at (events ++ replayed) in
      get after.tasks j ≡ map_settled now_iso (get before.tasks j)
replay_orphaned_tasks-settled run_id now_iso generated_at next_seq events j =
    let replayed = replay_orphaned_tasks run_id now_iso next_seq events in
    (reduce_journal_to_snapshot-latest run_id generated_at (events ++ replayed)).0 j
    ∙ ap tasked (latest-append j events replayed)
    ∙ settle (latest j events) (latest j replayed)
        (replay_orphaned_tasks-latest run_id now_iso next_seq events j)
    ∙ ap (map_settled now_iso)
        (sym ((reduce_journal_to_snapshot-latest run_id generated_at events).0 j))
  where
    settle :
        (old new : Option TaskJournalEvent)
        → tasked new ≡ orphaned now_iso old
        → tasked (first_some new old) ≡ map_settled now_iso (tasked old)
    settle old new h = ground arith

-- A second replay finds nothing to do.
pub replay_orphaned_tasks_idempotent :
    (run_id now_iso : String) (next_seq next_seq' : ℕ) (events : List TaskJournalEvent)
    → replay_orphaned_tasks run_id now_iso next_seq'
        (events ++ replay_orphaned_tasks run_id now_iso next_seq events)
      ≡ []
unfolding replay_orphaned_tasks
replay_orphaned_tasks_idempotent run_id now_iso next_seq next_seq' events =
    let all_events = events ++ replay_orphaned_tasks run_id now_iso next_seq events in
    replay_running-nil run_id now_iso (latest_by_task all_events []) next_seq'
      (latest_by_task-IsDistinct all_events [] tt tt).0
      (λ j e g.
        quiet (latest j events) (latest j (replay_orphaned_tasks run_id now_iso next_seq events)) e
          (replay_orphaned_tasks-latest run_id now_iso next_seq events j)
          (ground (
            arith,
            latest_by_task-get all_events [] j,
            latest-append j events (replay_orphaned_tasks run_id now_iso next_seq events),
          )))
  where
    quiet :
        (old new : Option TaskJournalEvent) (e : TaskJournalEvent)
        → tasked new ≡ orphaned now_iso old
        → first_some new old ≡ some e
        → is_running e.kind ≡ false
    quiet old new e h g = ground arith

-- The failures by crash of tasks whose last event in the journal is `running`, numbered from `n` on
-- with no gap.
pub data IsReplay (run_id now_iso : String) (events : List TaskJournalEvent)
    : ℕ → List TaskJournalEvent → Type 0 where
  nil : {n : ℕ} → IsReplay run_id now_iso events n []
  cons :
      {n : ℕ} {es : List TaskJournalEvent} (e : TaskJournalEvent)
      → latest e.plan_task_id events ≡ some e
      → e.kind ≡ task_running
      → IsReplay run_id now_iso events (n + 1) es
      → IsReplay run_id now_iso events n (orphan_event run_id now_iso n e ∷ es)

is_running-eq : (k : EventKind) → is_running k ≡ true → k ≡ task_running
is_running-eq k h = ground arith

module _ (run_id now_iso : String) where
  replay_running_none : (seq : ℕ) → replay_running run_id now_iso [] seq ≡ []
  unfolding replay_running
  replay_running_none seq = refl

  replay_running_step :
      (k : String) (e : TaskJournalEvent) (m : Dict TaskJournalEvent) (seq : ℕ)
      → replay_running run_id now_iso ((k, e) ∷ m) seq ≡ (
          if is_running e.kind
          then orphan_event run_id now_iso seq e ∷ replay_running run_id now_iso m (seq + 1)
          else replay_running run_id now_iso m seq)
  unfolding replay_running
  replay_running_step k e m seq = ground arith

module _ (run_id now_iso : String) (events : List TaskJournalEvent) where
  replay_running-IsReplay :
      (m : Dict TaskJournalEvent) (seq : ℕ)
      → IsDistinct (keys m)
      → IsOwn m
      → ((j : String) (e : TaskJournalEvent) → get m j ≡ some e → latest j events ≡ some e)
      → IsReplay run_id now_iso events seq (replay_running run_id now_iso m seq)
  replay_running-IsReplay [] seq d o h = rw (replay_running_none run_id now_iso seq) nil
  replay_running-IsReplay ((k, e) ∷ m) seq (d, ds) (o, os) h =
      let later =
        λ (n : ℕ). replay_running-IsReplay m n ds os (λ j x g. h j x (tail-get k e m j x d g)) in
      elim (Bool-cases (is_running e.kind)) [
        | inl on ↦
            rw (replay_running_step run_id now_iso k e m seq, on)
              (cons e (ap (λ i. latest i events) o ∙ h k e (ground (arith, eq_refl k)))
                (is_running-eq e.kind on) (later (seq + 1)))
        | inr off ↦ rw (replay_running_step run_id now_iso k e m seq, off) (later seq)
      ]

-- The replay lists the crash failures of tasks whose last event is `running`, numbered from
-- `next_seq` on with no gap.
pub replay_orphaned_tasks-IsReplay :
    (run_id now_iso : String) (next_seq : ℕ) (events : List TaskJournalEvent)
    → IsReplay run_id now_iso events next_seq (replay_orphaned_tasks run_id now_iso next_seq events)
unfolding replay_orphaned_tasks
replay_orphaned_tasks-IsReplay run_id now_iso next_seq events =
    let (d, o) = latest_by_task-IsDistinct events [] tt tt in
    replay_running-IsReplay run_id now_iso events (latest_by_task events []) next_seq d o
      (λ j e g. ground (arith, latest_by_task-get events [] j))
