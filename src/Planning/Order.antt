-- ===== src/Planning/Order.antt =====
-- topoSortPlanTasks of packages/planning/src/index.ts: a depth-first search that appends a task once
-- its dependencies are appended. Its recursion takes fuel; `none` stands for running out of it.
pub mod Sorting
pub mod Topological
use protostar.Base.{
  ℕ, zero, suc, ◌+◌, String, true, false, List, [], ◌∷◌, ◌++◌, Option, none, some, Dict, get, put,
  has, length,
}
use protostar.Planning.Types.{PlanTask}

-- `new Map(tasks.map((task) => [task.id, task]))`
unfoldable pub by_id : List PlanTask → Dict PlanTask → Dict PlanTask
by_id [] m = m
by_id (t ∷ ts) m = by_id ts (put m t.id t)

pub record Sort : Type 0 where
  pub visited : List String
  pub sorted : List PlanTask

abbrev pub unsorted : Sort
unsorted = record { visited = []; sorted = [] }

abbrev pub and_then : Option Sort → (Sort → Option Sort) → Option Sort
and_then none k = none
and_then (some s) k = k s

abbrev pub enter : PlanTask → Sort → Sort
enter t s = record s { visited = t.id ∷ s.visited }

abbrev pub append : PlanTask → Sort → Option Sort
append t s = some (record s { sorted = s.sorted ++ t ∷ [] })

unfoldable pub visit_dependencies :
    (PlanTask → Sort → Option Sort) → Dict PlanTask → List String → Sort → Option Sort
visit_dependencies call m [] s = some s
visit_dependencies call m (d ∷ ds) s =
    let rest = visit_dependencies call m ds in
    elim (get m d) [ none ↦ rest s | some t ↦ and_then (call t s) rest ]

unfoldable pub visit : ℕ → Dict PlanTask → PlanTask → Sort → Option Sort
unfolding visit_dependencies
visit zero m t s = none
visit (suc fuel) m t s = elim (has s.visited t.id) [
  | true ↦ some s
  | false ↦ and_then (visit_dependencies (visit fuel m) m t.depends_on (enter t s)) (append t)
]

unfoldable pub visit_each : (PlanTask → Sort → Option Sort) → List PlanTask → Sort → Option Sort
visit_each call [] s = some s
visit_each call (t ∷ ts) s = and_then (call t s) (visit_each call ts)

abbrev pub sorted_tasks : Option Sort → Option (List PlanTask)
sorted_tasks none = none
sorted_tasks (some s) = some s.sorted

unfoldable pub topo_sort_plan_tasks : List PlanTask → Option (List PlanTask)
unfolding visit visit_each by_id
topo_sort_plan_tasks tasks =
    let m = by_id tasks [] in sorted_tasks (visit_each (visit (length m + 1) m) tasks unsorted)
