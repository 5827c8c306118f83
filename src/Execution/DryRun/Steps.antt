-- ===== src/Execution/DryRun/Steps.antt =====
-- What one round of the dry run does to the map of results and to the event log.
use protostar.Base.{
  ℕ, ◌≡◌, refl, inl, inr, String, Bool, true, false, not, ◌&&◌, List, [], ◌∷◌, ◌++◌, none, some,
  map-append, arith, eq_iff, ◌==◌, map, append_assoc, Dict, get, get-put, has, all, filter,
  is_empty, if◌then◌else◌, Bool-cases,
}
use protostar.Execution.Tasks.{
  succeeded, failed, ExecutionTask, EventType, task_pending, task_running, task_succeeded,
  task_failed, LifecycleEvent, DryRunTaskResult,
}
use protostar.Execution.DryRun.{
  is_succeeded, result_succeeded, task_evidence_ref, RunState, run_task,
}

abbrev pub ids : List ExecutionTask → List String
ids [] = []
ids (t ∷ ts) = t.plan_task_id ∷ ids ts

-- The task `j` has succeeded so far.
abbrev pub done : RunState → String → Bool
done s j = result_succeeded (get s.task_status j)

-- An event's type and task.
abbrev pub label : LifecycleEvent → EventType × String
label e = (e.type, e.plan_task_id)

abbrev pub labels : String → List EventType → List (EventType × String)
labels id [] = []
labels id (k ∷ ks) = (k, id) ∷ labels id ks

-- Each result is stored under the id of its task.
abbrev pub IsKeyed : Dict DryRunTaskResult → Type 0
IsKeyed m = (j : String) (r : DryRunTaskResult) → get m j ≡ some r → r.task.plan_task_id ≡ j

pub is_empty-filter-not :
    (p : String → Bool) (xs : List String) → is_empty (filter (λ x. not (p x)) xs) ≡ all p xs
is_empty-filter-not p [] = refl
is_empty-filter-not p (x ∷ xs) = ground (arith, is_empty-filter-not p xs)

module _ (run_id : String) (fail_ids : List String) (now : ℕ → String) where
  -- Whether the task succeeds when its turn comes.
  abbrev pub passes : ExecutionTask → RunState → Bool
  passes t s = all (done s) t.depends_on && not (has fail_ids t.plan_task_id)

  -- The types of the events that the task's turn adds.
  abbrev pub phases : ExecutionTask → RunState → List EventType
  phases t s =
      if all (done s) t.depends_on
      then (if has fail_ids t.plan_task_id
          then task_pending ∷ task_running ∷ task_failed ∷ []
          else task_pending ∷ task_running ∷ task_succeeded ∷ [])
      else task_pending ∷ task_failed ∷ []

  pub run_task-get :
      (t : ExecutionTask) (s : RunState)
      → (r : DryRunTaskResult) × (r.task.plan_task_id ≡ t.plan_task_id)
        × (is_succeeded r.task.status ≡ passes t s)
        × ((j : String)
            → get (run_task run_id fail_ids now t s).task_status j
              ≡ (if t.plan_task_id == j then some r else get s.task_status j))
  unfolding run_task
  run_task-get t s = elim (Bool-cases (all (done s) t.depends_on)) [
    | inr blocked ↦
        rw (is_empty-filter-not (done s) t.depends_on, blocked)
          (
            record {
              task = record t { status = failed };
              evidence = [];
              reason = some "dependency-failed";
            },
            refl,
            refl,
            λ j. get-put s.task_status t.plan_task_id j _,
          )
    | inl ready ↦ elim (Bool-cases (has fail_ids t.plan_task_id)) [
      | inl injected ↦
          rw (is_empty-filter-not (done s) t.depends_on, ready, injected)
            (
              record {
                task = record t { status = failed };
                evidence = task_evidence_ref t.plan_task_id false ∷ [];
                reason = some "Injected dry-run failure.";
              },
              refl,
              refl,
              λ j. get-put s.task_status t.plan_task_id j _,
            )
      | inr fine ↦
          rw (is_empty-filter-not (done s) t.depends_on, ready, fine)
            (
              record {
                task = record t { status = succeeded };
                evidence = task_evidence_ref t.plan_task_id true ∷ [];
                reason = none;
              },
              refl,
              refl,
              λ j. get-put s.task_status t.plan_task_id j _,
            )
    ]
  ]

  pub run_task-done :
      (t : ExecutionTask) (s : RunState) (j : String)
      → done (run_task run_id fail_ids now t s) j
        ≡ (if t.plan_task_id == j then passes t s else done s j)
  run_task-done t s j =
      let (r, _, outcome, got) = run_task-get t s in
      elim (Bool-cases (t.plan_task_id == j)) [
        | inl same ↦ rw (got j, same) outcome
        | inr other ↦ rw (got j, other)
      ]

  pub run_task-IsKeyed :
      (t : ExecutionTask) (s : RunState)
      → IsKeyed s.task_status
      → IsKeyed (run_task run_id fail_ids now t s).task_status
  run_task-IsKeyed t s keyed j r' e =
      let (r, named, _, got) = run_task-get t s in
      elim (Bool-cases (t.plan_task_id == j)) [
        | inl same ↦ ground (arith, got j, eq_iff t.plan_task_id j)
        | inr other ↦ keyed j r' (ground (arith, got j))
      ]

  -- The turn of a task appends its events, in the order of its phases.
  pub run_task-events :
      (t : ExecutionTask) (s : RunState)
      → map label (run_task run_id fail_ids now t s).events
        ≡ map label s.events ++ labels t.plan_task_id (phases t s)
  unfolding run_task
  run_task-events t s = elim (Bool-cases (all (done s) t.depends_on)) [
    | inr blocked ↦
        rw (is_empty-filter-not (done s) t.depends_on, blocked) (simp (map-append, append_assoc))
    | inl ready ↦ elim (Bool-cases (has fail_ids t.plan_task_id)) [
      | inl injected ↦
          rw (is_empty-filter-not (done s) t.depends_on, ready, injected)
            (simp (map-append, append_assoc))
      | inr fine ↦
          rw (is_empty-filter-not (done s) t.depends_on, ready, fine)
            (simp (map-append, append_assoc))
    ]
  ]
