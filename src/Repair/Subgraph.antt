-- ===== src/Repair/Subgraph.antt =====
-- computeRepairSubgraph of packages/repair/src/compute-repair-subgraph.ts. The worklist loop takes
-- fuel; `stalled` stands for running out of it and is never returned (Subgraph/Search).
mod Search
pub mod Affected
use protostar.Base.{
  ℕ, zero, suc, ◌+◌, String, Bool, true, false, List, [], ◌∷◌, ◌++◌, Option, none, some, Dict, get,
  put, has, filter, length, or_else, if◌then◌else◌,
}

-- A task of the admitted plan, as far as the routine reads it.
pub record PlanNode : Type 0 where
  pub plan_task_id : String
  pub depends_on : List String

abbrev pub node_ids : List PlanNode → List String
node_ids [] = []
node_ids (t ∷ ts) = t.plan_task_id ∷ node_ids ts

pub data SubgraphResult : Type 0 where
  selected : List String → SubgraphResult
  unknown_repair_task : String → SubgraphResult
  stalled : SubgraphResult

-- The loop that throws UnknownRepairTaskError at the first id that is no task's.
unfoldable pub first_unknown : List String → List String → Option String
first_unknown task_ids [] = none
first_unknown task_ids (id ∷ ids) = if has task_ids id then first_unknown task_ids ids else some id

-- `dependentsByTaskId`: the inner loop, over the dependencies of one task.
unfoldable pub add_dependents : String → List String → Dict (List String) → Dict (List String)
add_dependents task_id [] m = m
add_dependents task_id (dependency ∷ ds) m =
    add_dependents task_id ds (put m dependency (or_else (get m dependency) [] ++ task_id ∷ []))

unfoldable pub dependents_by_task_id : List PlanNode → Dict (List String) → Dict (List String)
unfolding add_dependents
dependents_by_task_id [] m = m
dependents_by_task_id (t ∷ ts) m =
    dependents_by_task_id ts (add_dependents t.plan_task_id t.depends_on m)

-- The `while` loop; `chosen` is the set `selected`, last element first.
unfoldable pub select :
    ℕ → Dict (List String) → (chosen pending : List String) → Option (List String)
select fuel m chosen [] = some chosen
select zero m chosen (id ∷ pending) = none
select (suc fuel) m chosen (id ∷ pending) = elim (has chosen id) [
  | true ↦ select fuel m chosen pending
  | false ↦ select fuel m (id ∷ chosen) (pending ++ or_else (get m id) [])
]

abbrev pub edges : Dict (List String) → ℕ
edges [] = 0
edges ((k, ds) ∷ m) = length ds + edges m

unfoldable pub compute_repair_subgraph :
    List PlanNode → (repair_task_ids : List String) → SubgraphResult
unfolding first_unknown dependents_by_task_id select
compute_repair_subgraph tasks repair_task_ids =
    elim (first_unknown (node_ids tasks) repair_task_ids) [
      | some id ↦ unknown_repair_task id
      | none ↦
          let m = dependents_by_task_id tasks [] in
          elim repair_task_ids [
            | [] ↦ selected []
            | id ∷ ids ↦ elim (select (length (id ∷ ids) + edges m) m [] (id ∷ ids)) [
              | none ↦ stalled
              | some chosen ↦ selected (filter (has chosen) (node_ids tasks))
            ]
          ]
    ]
