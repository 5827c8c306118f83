-- ===== src/Execution/DryRun/Outcomes.antt =====
-- The dry run against a reference run that knows only which tasks have succeeded so far.
use protostar.Base.{
  ℕ, ◌≡◌, refl, ◌∙◌, sym, ap₂, ◌↔◌, inl, inr, String, Bool, true, false, not, ◌&&◌, ◌||◌, List, [],
  ◌∷◌, ◌++◌, arith, eq_iff, eq_refl, map, append_assoc, append-nil, get, has, all, All, IsDistinct,
  is_some, if◌then◌else◌, Bool-cases,
}
use protostar.Execution.Tasks.{
  ExecutionTask, EventType, task_pending, task_running, task_succeeded, task_failed,
}
use protostar.Execution.DryRun.{RunState, run_task, run_tasks}
use protostar.Execution.DryRun.Steps.{
  ids, done, label, labels, IsKeyed, passes, run_task-get, run_task-done, run_task-IsKeyed,
  run_task-events,
}

-- The reference run: `seen` are the tasks that have succeeded.
module _ (fail_ids : List String) where
  abbrev pub passes_after : List String → ExecutionTask → Bool
  passes_after seen t = all (has seen) t.depends_on && not (has fail_ids t.plan_task_id)

  abbrev pub seen_after : List String → ExecutionTask → List String
  seen_after seen t = if passes_after seen t then t.plan_task_id ∷ seen else seen

  abbrev pub outcomes : List String → List ExecutionTask → List Bool
  outcomes seen [] = []
  outcomes seen (t ∷ ts) = passes_after seen t ∷ outcomes (seen_after seen t) ts

  abbrev pub phases_after : List String → ExecutionTask → List EventType
  phases_after seen t =
      if all (has seen) t.depends_on
      then (if has fail_ids t.plan_task_id
          then task_pending ∷ task_running ∷ task_failed ∷ []
          else task_pending ∷ task_running ∷ task_succeeded ∷ [])
      else task_pending ∷ task_failed ∷ []

  abbrev pub trace : List String → List ExecutionTask → List (EventType × String)
  trace seen [] = []
  trace seen (t ∷ ts) = labels t.plan_task_id (phases_after seen t) ++ trace (seen_after seen t) ts

  -- Every task can run: none is injected to fail, and each stands behind its dependencies.
  abbrev pub CanRun : List String → List ExecutionTask → Type 0
  CanRun seen [] = Unit
  CanRun seen (t ∷ ts) =
      (has fail_ids t.plan_task_id ≡ false)
      × (all (has seen) t.depends_on ≡ true)
      × CanRun (t.plan_task_id ∷ seen) ts

  pub outcomes-CanRun :
      (seen : List String) (ts : List ExecutionTask)
      → (all (λ b. b) (outcomes seen ts) ≡ true) ↔ CanRun seen ts
  outcomes-CanRun seen [] = (λ _. tt, λ _. refl)
  outcomes-CanRun seen (t ∷ ts) = ground (arith, outcomes-CanRun (t.plan_task_id ∷ seen) ts)

all_ext :
    (p q : String → Bool) (xs : List String) → ((x : String) → p x ≡ q x) → all p xs ≡ all q xs
all_ext p q [] h = refl
all_ext p q (x ∷ xs) h = ground (arith, h x, all_ext p q xs h)

module _ (run_id : String) (fail_ids : List String) (now : ℕ → String) where
  abbrev after : List ExecutionTask → RunState → RunState
  after = run_tasks run_id fail_ids now

  -- Every task of the list has a result afterwards, and no result is lost.
  pub run_tasks-is_some :
      (ts : List ExecutionTask) (s : RunState) (j : String)
      → is_some (get (after ts s).task_status j) ≡ (has (ids ts) j || is_some (get s.task_status j))
  unfolding run_tasks
  run_tasks-is_some [] s j = refl
  run_tasks-is_some (t ∷ ts) s j =
      let (r, _, _, got) = run_task-get run_id fail_ids now t s in
      ground (arith, run_tasks-is_some ts (run_task run_id fail_ids now t s) j, got j)

  pub run_tasks-IsKeyed :
      (ts : List ExecutionTask) (s : RunState)
      → IsKeyed s.task_status
      → IsKeyed (after ts s).task_status
  unfolding run_tasks
  run_tasks-IsKeyed [] s h = h
  run_tasks-IsKeyed (t ∷ ts) s h =
      run_tasks-IsKeyed ts _ (run_task-IsKeyed run_id fail_ids now t s h)

  -- A task that is not in the list keeps its result.
  run_tasks-done_other :
      (ts : List ExecutionTask) (s : RunState) (j : String)
      → has (ids ts) j ≡ false
      → done (after ts s) j ≡ done s j
  unfolding run_tasks
  run_tasks-done_other [] s j h = refl
  run_tasks-done_other (t ∷ ts) s j h = ground (
    arith,
    run_tasks-done_other ts (run_task run_id fail_ids now t s) j,
    run_task-done run_id fail_ids now t s j,
  )

  -- Where `seen` lists what has succeeded, a turn goes as in the reference run.
  passes-passes_after :
      (t : ExecutionTask) (s : RunState) (seen : List String)
      → ((j : String) → done s j ≡ has seen j)
      → passes run_id fail_ids now t s ≡ passes_after fail_ids seen t
  passes-passes_after t s seen h = rw (all_ext (done s) (has seen) t.depends_on h)

  run_task-seen_after :
      (t : ExecutionTask) (s : RunState) (seen : List String)
      → has seen t.plan_task_id ≡ false
      → ((j : String) → done s j ≡ has seen j)
      → (j : String)
      → done (run_task run_id fail_ids now t s) j ≡ has (seen_after fail_ids seen t) j
  run_task-seen_after t s seen fresh h j = ground (
    arith,
    run_task-done run_id fail_ids now t s j,
    passes-passes_after t s seen h,
    h j,
    eq_iff t.plan_task_id j,
  )

unfoldable pub IsFresh : List String → List String → Type 0
IsFresh seen xs = All (λ i. has seen i ≡ false) xs

pub IsFresh-nil : (xs : List String) → IsFresh [] xs
unfolding IsFresh
IsFresh-nil [] = tt
IsFresh-nil (x ∷ xs) = (refl, IsFresh-nil xs)

IsFresh-cons :
    (seen : List String) (x : String) (xs : List String)
    → has xs x ≡ false
    → IsFresh seen xs
    → IsFresh (x ∷ seen) xs
unfolding IsFresh
IsFresh-cons seen x [] h k = tt
IsFresh-cons seen x (y ∷ ys) h (k, ks) =
    (ground (arith, eq_iff x y, eq_iff y x), IsFresh-cons seen x ys (ground arith) ks)

IsFresh-seen_after :
    (fail_ids seen : List String) (t : ExecutionTask) (xs : List String)
    → has xs t.plan_task_id ≡ false
    → IsFresh seen xs
    → IsFresh (seen_after fail_ids seen t) xs
IsFresh-seen_after fail_ids seen t xs h k = elim (Bool-cases (passes_after fail_ids seen t)) [
  | inl e ↦ rw e (IsFresh-cons seen t.plan_task_id xs h k)
  | inr e ↦ rw e k
]

module _ (run_id : String) (fail_ids : List String) (now : ℕ → String) where
  pub run_tasks-outcomes :
      (ts : List ExecutionTask) (s : RunState) (seen : List String)
      → IsDistinct (ids ts)
      → IsFresh seen (ids ts)
      → ((j : String) → done s j ≡ has seen j)
      → map (λ t. done (run_tasks run_id fail_ids now ts s) t.plan_task_id) ts
        ≡ outcomes fail_ids seen ts
  unfolding run_tasks IsFresh
  run_tasks-outcomes [] s seen d f h = refl
  run_tasks-outcomes (t ∷ ts) s seen (d, ds) (f, fs) h =
      let s' = run_task run_id fail_ids now t s in
      let same = run_task-seen_after run_id fail_ids now t s seen f h in
      ap₂ ◌∷◌
        (ground (
          arith,
          run_tasks-done_other run_id fail_ids now ts s' t.plan_task_id,
          run_task-done run_id fail_ids now t s t.plan_task_id,
          eq_refl t.plan_task_id,
          passes-passes_after run_id fail_ids now t s seen h,
        ))
        (run_tasks-outcomes ts s' _ ds (IsFresh-seen_after fail_ids seen t (ids ts) d fs) same)

  pub run_tasks-trace :
      (ts : List ExecutionTask) (s : RunState) (seen : List String)
      → IsDistinct (ids ts)
      → IsFresh seen (ids ts)
      → ((j : String) → done s j ≡ has seen j)
      → map label (run_tasks run_id fail_ids now ts s).events
        ≡ map label s.events ++ trace fail_ids seen ts
  unfolding run_tasks IsFresh
  run_tasks-trace [] s seen d f h = sym (append-nil _)
  run_tasks-trace (t ∷ ts) s seen (d, ds) (f, fs) h =
      let s' = run_task run_id fail_ids now t s in
      let same = run_task-seen_after run_id fail_ids now t s seen f h in
      run_tasks-trace ts s' _ ds (IsFresh-seen_after fail_ids seen t (ids ts) d fs) same
      ∙ rw (
        run_task-events run_id fail_ids now t s,
        all_ext (done s) (has seen) t.depends_on h,
        append_assoc,
      )
