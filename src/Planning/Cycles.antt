-- ===== src/Planning/Cycles.antt =====
-- hasDependencyCycle of packages/planning/src/index.ts: a search that keeps the tasks it is visiting
-- and those it has left. Its recursion takes fuel; `stalled` stands for running out of it.
pub mod Acyclic
pub mod Search
use protostar.Base.{
  ℕ, zero, suc, ◌+◌, String, Bool, true, false, List, [], ◌∷◌, Option, none, some, Dict, get, put,
  keys, has, length, or_else,
}
use protostar.Planning.Types.{DependencyNode, DependencyGraph}

-- `dependencyIdsByTaskId`, from the graph's nodes in their order.
unfoldable pub dependency_ids_by_task_id :
    Dict DependencyNode → Dict (List String) → Dict (List String)
dependency_ids_by_task_id [] m = m
dependency_ids_by_task_id ((id, n) ∷ nodes) m =
    dependency_ids_by_task_id nodes (put m id n.depends_on)

pub data Visit : Type 0 where
  cyclic : Visit
  clear : (visited : List String) → Visit
  stalled : Visit

-- What is done when a visit returns false.
abbrev pub after : Visit → (List String → Visit) → Visit
after cyclic k = cyclic
after (clear visited) k = k visited
after stalled k = stalled

-- `for (const dependency of …) if (visit(dependency)) return true;`
unfoldable pub visit_all : (String → List String → Visit) → List String → List String → Visit
visit_all visit_one [] visited = clear visited
visit_all visit_one (d ∷ ds) visited = after (visit_one d visited) (visit_all visit_one ds)

-- `visiting` holds the calls that are open: a visit that returns false takes its task off again.
unfoldable pub visit :
    ℕ → Dict (List String) → (visiting : List String) → String → List String → Visit
unfolding visit_all
visit zero m visiting id visited = stalled
visit (suc fuel) m visiting id visited = elim (has visited id) [
  | true ↦ clear visited
  | false ↦ elim (has visiting id) [
    | true ↦ cyclic
    | false ↦
        after (visit_all (visit fuel m (id ∷ visiting)) (or_else (get m id) []) visited)
          (λ visited'. clear (id ∷ visited'))
  ]
]

abbrev pub is_cyclic : Visit → Option Bool
is_cyclic cyclic = some true
is_cyclic (clear visited) = some false
is_cyclic stalled = none

-- `graph.nodes.some((node) => visit(node.taskId))`; a call is open at most once for each node.
unfoldable pub has_dependency_cycle : DependencyGraph → Option Bool
unfolding dependency_ids_by_task_id visit visit_all
has_dependency_cycle graph =
    let m = dependency_ids_by_task_id graph.nodes [] in
    is_cyclic (visit_all (visit (length m + 1) m []) (keys graph.nodes) [])
