-- ===== src/Planning/Handoff/Runs.antt =====
-- From the checks of a plan to a dry run of its tasks.
use protostar.Base.{
  ℕ, ◌+◌, ◌≡◌, refl, sym, subst, ap, ◌∙◌, inl, inr, String, Bool, true, false, List, [], ◌∷◌,
  Option, none, some, arith, ◌==◌, eq_iff, eq_refl, Dict, get, put, get-put, has, map, length,
  or_else, is_some, is_empty, all, All, IsDistinct, Bool-cases,
}
use protostar.Planning.Types.{PlanTask}
use protostar.Planning.Graph.{
  task_ids, is_plan_task_id, collect_duplicate_task_id_violations,
  construct_plan_task_dependency_graph,
}
use protostar.Planning.Graph.Edges.{declares_dependency}
use protostar.Planning.Open.{open_keys-nil, open_keys_mono}
use protostar.Planning.Cycles.{has_dependency_cycle}
use protostar.Planning.Cycles.Acyclic.{Reaches, Reaches-weaken}
use protostar.Planning.Cycles.Search.{Decides, has_dependency_cycle_lem}
use protostar.Planning.Order.{
  Sort, unsorted, by_id, visit, visit_each, sorted_tasks, topo_sort_plan_tasks,
}
use protostar.Planning.Order.Sorting.{depends, Ready, is_present, Done, Found}
use protostar.Planning.Order.Topological.{Searching, visit-Done, visit_each-Done}
use protostar.Planning.Handoff.{
  ArtifactTask, artifact_task, map_sorted, create_artifact_tasks, pending_task,
  prepare_execution_run,
}
use protostar.Planning.Handoff.Checked.{
  duplicates-IsDistinct, by_id-get, by_id-own, by_id-keyed, depends-declares_dependency,
  ok-distinct_and_known,
}
use protostar.Execution.Tasks.{ExecutionTask, DryRunResult, succeeded}
use protostar.Execution.DryRun.{run_execution_dry_run}
use protostar.Execution.DryRun.Steps.{ids}
use protostar.Execution.DryRun.Outcomes.{CanRun}
use protostar.Execution.DryRun.Runs.{
  run_execution_dry_run_total, run_execution_dry_run-succeeded_iff,
}

Ready-weaken :
    (p q : String → Bool) (seen : List String) (ts : List PlanTask)
    → ((x : String) → q x ≡ p x)
    → Ready p seen ts
    → Ready q seen ts
Ready-weaken p q seen [] f r = tt
Ready-weaken p q seen (t ∷ ts) f (r, rs) =
    (λ d e k. r d e (sym (f d) ∙ k), Ready-weaken p q (t.id ∷ seen) ts f rs)

known-has :
    (m : Dict PlanTask) (ts : List PlanTask) (x : String)
    → All (λ t. get m t.id ≡ some t) ts
    → has (task_ids ts) x ≡ true
    → is_some (get m x) ≡ true
known-has m [] x own h = cc
known-has m (t ∷ ts) x (o, own) h = elim (Bool-cases (t.id == x)) [
  | inl same ↦ subst (λ i. is_some (get m i) ≡ true) ((eq_iff t.id x).0 same) (ap is_some o)
  | inr other ↦ known-has m ts x own (ground arith)
]

-- The tasks are in an order in which they can run: `sorted` has the ids of `tasks`, none of them
-- twice, each of its tasks is the one that `tasks` has for its id, and stands behind its dependencies.
abbrev pub Sorts : (tasks sorted : List PlanTask) → Type 0
Sorts tasks sorted =
    IsDistinct (task_ids sorted)
    × ((x : String) → has (task_ids sorted) x ≡ has (task_ids tasks) x)
    × All (λ t. get (by_id tasks []) t.id ≡ some t) sorted
    × Ready (has (task_ids tasks)) [] sorted

module _ (tasks : List PlanTask)
    (no_duplicates : is_empty (collect_duplicate_task_id_violations tasks) ≡ true)
    (well_formed : all is_plan_task_id (task_ids tasks) ≡ true)
    (no_cycle : has_dependency_cycle (construct_plan_task_dependency_graph tasks).graph
      ≡ some false) where
  acyclic : (x : String) → ¬ Reaches (depends (by_id tasks [])) x x
  unfolding Decides
  acyclic x r =
      subst (Decides (declares_dependency tasks)) no_cycle (has_dependency_cycle_lem tasks)
        (x, Reaches-weaken (depends-declares_dependency tasks no_duplicates well_formed) r)

  Sorts-found :
      (s : Sort) → Found (by_id tasks []) [] (task_ids tasks) unsorted s → Sorts tasks s.sorted
  Sorts-found s (h, _, found) =
      let m = by_id tasks [] in
      let present = λ (x : String). (by_id-get tasks [] x).0 in
      (
        h.distinct,
        λ x. ground (arith, found x, present x, known-has m s.sorted x h.known),
        h.known,
        Ready-weaken (is_present m) (has (task_ids tasks)) [] s.sorted
            (λ x. ground (arith, present x)) h.ready,
      )

  finish :
      (o : Option Sort)
      → Done (by_id tasks []) (Found (by_id tasks []) [] (task_ids tasks) unsorted) o
      → (sorted : List PlanTask) × (sorted_tasks o ≡ some sorted) × Sorts tasks sorted
  finish none f = absurd f
  finish (some s) f = (s.sorted, refl, Sorts-found s f)

  -- For a plan without duplicate ids whose ids are well formed and whose graph has no cycle, the
  -- topological sort ends with the plan's own tasks, each once and behind those of its
  -- dependencies that are tasks of the plan.
  pub topo_sort_plan_tasks_lem :
      (sorted : List PlanTask) × (topo_sort_plan_tasks tasks ≡ some sorted) × Sorts tasks sorted
  unfolding topo_sort_plan_tasks Searching
  topo_sort_plan_tasks_lem =
      let m = by_id tasks [] in
      let keyed = by_id-keyed tasks [] (λ d t e. cc) in
      finish (visit_each (visit (length m + 1) m) tasks unsorted) (
        visit_each-Done m keyed acyclic (visit (length m + 1) m) tasks unsorted
          (λ t v o h.
            visit-Done m keyed acyclic (length m + 1) [] t v
              (omega (arith, open_keys_mono [] v.visited m (λ x e. cc), open_keys-nil m)) o h
              (λ x e. cc))
          (by_id-own tasks [] (duplicates-IsDistinct tasks no_duplicates well_formed))
          (record { marked = λ x. refl; distinct = tt; apart = λ x e. cc; ready = tt; known = tt }))

all_intro :
    (seen xs : List String)
    → ((x : String) → has xs x ≡ true → has seen x ≡ true)
    → all (has seen) xs ≡ true
all_intro seen [] h = refl
all_intro seen (x ∷ xs) h =
    ground (arith, h x, eq_refl x, all_intro seen xs (λ y e. h y (ground arith)))

-- The tasks that the dry run of a plan goes through.
abbrev handed_over : List PlanTask → List ExecutionTask
handed_over ts = map pending_task (map artifact_task ts)

ids-handed_over : (ts : List PlanTask) → ids (handed_over ts) ≡ task_ids ts
ids-handed_over [] = refl
ids-handed_over (t ∷ ts) = ap (λ is. t.id ∷ is) (ids-handed_over ts)

Ready-CanRun :
    (p : String → Bool) (seen : List String) (ts : List PlanTask)
    → All (λ t. (d : String) → has t.depends_on d ≡ true → p d ≡ true) ts
    → Ready p seen ts
    → CanRun [] seen (handed_over ts)
Ready-CanRun p seen [] k r = tt
Ready-CanRun p seen (t ∷ ts) (k, ks) (r, rs) = (
  refl,
  all_intro seen t.depends_on (λ d e. r d e (k d e)),
  Ready-CanRun p (t.id ∷ seen) ts ks rs,
)

by_id-All :
    (P : PlanTask → Type 0) (ts : List PlanTask) (m : Dict PlanTask)
    → All P ts
    → ((x : String) (t : PlanTask) → get m x ≡ some t → P t)
    → (x : String) (t : PlanTask) → get (by_id ts m) x ≡ some t
    → P t
unfolding by_id
by_id-All P [] m h k = k
by_id-All P (u ∷ ts) m (h, hs) k = by_id-All P ts (put m u.id u) hs (λ x t e.
    elim (Bool-cases (u.id == x)) [
      | inl same ↦ subst P (ap (λ o. or_else o t) (rw same at (sym (get-put m u.id x u) ∙ e))) h
      | inr other ↦ k x t (ground (arith, sym (get-put m u.id x u) ∙ e))
    ])

All-known :
    (P : PlanTask → Type 0) (m : Dict PlanTask) (ts : List PlanTask)
    → ((x : String) (t : PlanTask) → get m x ≡ some t → P t)
    → All (λ t. get m t.id ≡ some t) ts
    → All P ts
All-known P m [] k h = tt
All-known P m (t ∷ ts) k (h, hs) = (k t.id t h, All-known P m ts k hs)

-- Where the dependency graph is reported as sound, every id is well formed and the search finds no
-- cycle, the tasks are handed over with distinct ids and each behind its dependencies.
pub checked_plan-CanRun :
    (tasks : List PlanTask)
    → (construct_plan_task_dependency_graph tasks).ok ≡ true
    → all is_plan_task_id (task_ids tasks) ≡ true
    → has_dependency_cycle (construct_plan_task_dependency_graph tasks).graph ≡ some false
    → (artifact : List ArtifactTask) × (create_artifact_tasks tasks ≡ some artifact)
      × IsDistinct (ids (map pending_task artifact))
      × CanRun [] [] (map pending_task artifact)
unfolding create_artifact_tasks
checked_plan-CanRun tasks ok well_formed no_cycle =
    let (no_duplicates, references) = ok-distinct_and_known tasks ok in
    let (sorted, found, (distinct, _, known, ready)) =
      topo_sort_plan_tasks_lem tasks no_duplicates well_formed no_cycle in
    (
      map artifact_task sorted,
      ap map_sorted found,
      subst IsDistinct (sym (ids-handed_over sorted)) distinct,
      Ready-CanRun (has (task_ids tasks)) [] sorted
          (All-known _ (by_id tasks []) sorted (by_id-All _ tasks [] references (λ x t e. cc))
            known)
          ready,
    )

-- A plan that the checks let through can be carried out: where the dependency graph is reported as
-- sound, every id is well formed and the search finds no cycle, the plan's tasks are handed over, in
-- an order in which their dry run without injected failures ends with the status `succeeded`.
pub checked_plan-dry_run :
    (tasks : List PlanTask) (run_id plan_id : String) (now : ℕ → String)
    → (construct_plan_task_dependency_graph tasks).ok ≡ true
    → all is_plan_task_id (task_ids tasks) ≡ true
    → has_dependency_cycle (construct_plan_task_dependency_graph tasks).graph ≡ some false
    → (artifact : List ArtifactTask) × (r : DryRunResult) × (create_artifact_tasks tasks
        ≡ some artifact)
      × (run_execution_dry_run (prepare_execution_run run_id plan_id artifact) [] now ≡ some r)
      × (r.status ≡ succeeded)
unfolding prepare_execution_run
checked_plan-dry_run tasks run_id plan_id now ok well_formed no_cycle =
    let (artifact, created, distinct, can_run) =
      checked_plan-CanRun tasks ok well_formed no_cycle in
    let plan = prepare_execution_run run_id plan_id artifact in
    let (r, ran, _) = run_execution_dry_run_total plan [] now in
    let (iff, _) = run_execution_dry_run-succeeded_iff plan [] now distinct ran in
    (artifact, r, created, ran, iff.1 can_run)
