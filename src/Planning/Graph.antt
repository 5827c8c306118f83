-- ===== src/Planning/Graph.antt =====
-- constructPlanTaskDependencyGraphInternal and its helpers, of packages/planning/src/index.ts.
mod Duplicates
mod EdgeList
pub mod Edges
use Prim.Native.String
use Prim.Native.Char.{Char, code}
use protostar.Base.{
  ℕ, zero, suc, ◌+◌, String, Bool, true, false, not, ◌&&◌, ◌||◌, List, [], ◌∷◌, ◌++◌, map, flat_map,
  Option, none, some, Dict, get, put, has, is_some, is_empty, leb, nat_eq, ◌==◌, if◌then◌else◌,
}
use protostar.Planning.Types.{
  PlanTask, DependencyEdge, DependencyNode, DependencyGraph, DuplicateTaskId, duplicate_task_id,
  DependencyViolation, invalid_task_dependency_id, self_task_dependency, missing_task_dependency,
}

abbrev pub task_ids : List PlanTask → List String
task_ids [] = []
task_ids (t ∷ ts) = t.id ∷ task_ids ts

abbrev in_range : ℕ → ℕ → Char → Bool
in_range lo hi c = leb lo (code c) && leb (code c) hi

-- `[a-zA-Z0-9]`
is_alphanumeric : Char → Bool
is_alphanumeric c = in_range b'a' b'z' c || (in_range b'A' b'Z' c || in_range b'0' b'9' c)

-- `[a-zA-Z0-9_-]*`
is_id_tail : String → Bool
unfolding is_alphanumeric
is_id_tail String.[] = true
is_id_tail (String.◌∷◌ c s) =
    (is_alphanumeric c || (nat_eq (code c) b'_' || nat_eq (code c) b'-')) && is_id_tail s

is_id_body : String → Bool
unfolding is_alphanumeric is_id_tail
is_id_body String.[] = false
is_id_body (String.◌∷◌ c s) = is_alphanumeric c && is_id_tail s

-- What follows `prefix`, read off character by character.
after_prefix : List Char → String → Option String
after_prefix [] s = some s
after_prefix (p ∷ ps) String.[] = none
after_prefix (p ∷ ps) (String.◌∷◌ c s) =
    if nat_eq (code p) (code c) then after_prefix ps s else none

abbrev task_prefix : List Char
task_prefix = "t" ∷ "a" ∷ "s" ∷ "k" ∷ "-" ∷ []

abbrev passes : (String → Bool) → Option String → Bool
passes p none = false
passes p (some s) = p s

-- `/^task-[a-zA-Z0-9][a-zA-Z0-9_-]*$/.test(value)`
unfoldable pub is_plan_task_id : String → Bool
unfolding is_id_body after_prefix
is_plan_task_id s = passes is_id_body (after_prefix task_prefix s)

-- collectDuplicateTaskIdViolations; `firsts` is firstTaskIndexById.
unfoldable pub duplicates_from : ℕ → Dict ℕ → List PlanTask → List DuplicateTaskId
duplicates_from index firsts [] = []
duplicates_from index firsts (t ∷ ts) = elim (get firsts t.id) [
  | none ↦ duplicates_from (index + 1) (put firsts t.id index) ts
  | some first_index ↦
      duplicate_task_id t.id first_index index ∷ duplicates_from (index + 1) firsts ts
]

unfoldable pub collect_duplicate_task_id_violations : List PlanTask → List DuplicateTaskId
unfolding duplicates_from
collect_duplicate_task_id_violations tasks = duplicates_from 0 [] tasks

abbrev pub duplicate_id : DuplicateTaskId → String
duplicate_id (duplicate_task_id id _ _) = id

-- The loop that makes a node for each id of a task that is well formed.
unfoldable pub add_nodes : List PlanTask → Dict DependencyNode → Dict DependencyNode
add_nodes [] m = m
add_nodes (t ∷ ts) m = add_nodes ts (
    if not (is_plan_task_id t.id) || is_some (get m t.id)
    then m
    else put m t.id (record { depends_on = []; depended_on_by = [] }))

abbrev pub update :
    (DependencyNode → DependencyNode)
    → Option DependencyNode
    → String
    → Dict DependencyNode
    → Dict DependencyNode
update f none k m = m
update f (some n) k m = put m k (f n)

-- `nodeByTaskId.get(id)?.dependsOn.push(dependency)`
abbrev pub push_depends_on : Dict DependencyNode → String → String → Dict DependencyNode
push_depends_on m id dependency =
    update (λ n. record n { depends_on = n.depends_on ++ dependency ∷ [] }) (get m id) id m

abbrev pub push_depended_on_by : Dict DependencyNode → String → String → Dict DependencyNode
push_depended_on_by m id dependent =
    update (λ n. record n { depended_on_by = n.depended_on_by ++ dependent ∷ [] }) (get m id) id m

-- What the loop over the dependencies appends to.
pub record Construction : Type 0 where
  pub nodes : Dict DependencyNode
  pub edges : List DependencyEdge
  pub dependency_violations : List (ℕ × DependencyViolation)

abbrev pub report : ℕ → Option DependencyViolation → Construction → Construction
report task_index none c = c
report task_index (some v) c = record c {
  dependency_violations = c.dependency_violations ++ (task_index, v) ∷ [];
}

abbrev pub add_edge : PlanTask → String → ℕ → Construction → Construction
add_edge task dependency index c = record c {
  nodes = push_depended_on_by (push_depends_on c.nodes task.id dependency) dependency task.id;
  edges =
      c.edges
      ++ record {
        dependent_task_id = task.id;
        dependency_task_id = dependency;
        dependency_index = index;
      }
        ∷ [];
}

module _ (ids duplicates : List String) where
  unfoldable pub validate_task_dependency_reference :
      PlanTask → String → ℕ → Option DependencyViolation
  validate_task_dependency_reference task dependency index =
      if not (is_plan_task_id dependency)
      then some (invalid_task_dependency_id task.id dependency index)
      else if dependency == task.id && not (has duplicates task.id)
      then some (self_task_dependency task.id dependency index)
      else if not (has ids dependency)
      then some (missing_task_dependency task.id dependency index)
      else none

  unfoldable pub is_resolvable_dependency_graph_edge : PlanTask → String → Bool
  is_resolvable_dependency_graph_edge task dependency =
      is_plan_task_id task.id
      && (is_plan_task_id dependency
          && (has ids dependency
              && (not (has duplicates task.id) && not (has duplicates dependency))))

  -- The inner loop, over the dependencies of a task.
  unfoldable pub add_dependencies : ℕ → PlanTask → ℕ → List String → Construction → Construction
  unfolding validate_task_dependency_reference
  add_dependencies task_index task index [] c = c
  add_dependencies task_index task index (d ∷ ds) c =
      let reported = report task_index (validate_task_dependency_reference task d index) c in
      add_dependencies task_index task (index + 1) ds (
        if is_resolvable_dependency_graph_edge task d
        then add_edge task d index reported
        else reported)

  unfoldable pub add_tasks : ℕ → List PlanTask → Construction → Construction
  unfolding add_dependencies
  add_tasks task_index [] c = c
  add_tasks task_index (t ∷ ts) c =
      add_tasks (task_index + 1) ts (add_dependencies task_index t 0 t.depends_on c)

abbrev pub duplicates_of : List PlanTask → List String
duplicates_of tasks = map duplicate_id (collect_duplicate_task_id_violations tasks)

unfoldable pub construct : List PlanTask → Construction
unfolding add_nodes add_tasks collect_duplicate_task_id_violations
construct tasks =
    add_tasks (task_ids tasks) (duplicates_of tasks) 0 tasks
      (record { nodes = add_nodes tasks []; edges = []; dependency_violations = [] })

pub record GraphConstruction : Type 0 where
  pub ok : Bool
  pub graph : DependencyGraph
  pub duplicate_violations : List DuplicateTaskId
  pub dependency_violations : List DependencyViolation

-- Both lists are one list in the code, the duplicates first.
unfoldable pub construct_plan_task_dependency_graph : List PlanTask → GraphConstruction
unfolding construct
construct_plan_task_dependency_graph tasks =
    let c = construct tasks in
    let duplicates = collect_duplicate_task_id_violations tasks in
    record {
      ok = is_empty duplicates && is_empty c.dependency_violations;
      graph = record { nodes = c.nodes; edges = c.edges };
      duplicate_violations = duplicates;
      dependency_violations = map (λ v. v.1) c.dependency_violations;
    }
