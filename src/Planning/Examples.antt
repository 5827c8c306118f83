-- ===== src/Planning/Examples.antt =====
-- Tests of the planning modules, and their theorems at a plan of three tasks: a verification, an
-- implementation behind it and a release behind that.
use protostar.Base.{
  ℕ, ◌≡◌, refl, String, true, false, List, [], ◌∷◌, Option, none, some, has, all, is_empty,
}
use protostar.Base.{keys}
use protostar.Authority.Envelope.{no_budget}
use protostar.Planning.Types.{
  PlanTaskKind, verification, implementation, release, low, RequiredCapabilities, PlanTask,
}
use protostar.Planning.Graph.{
  task_ids, is_plan_task_id, collect_duplicate_task_id_violations,
  construct_plan_task_dependency_graph, is_resolvable_dependency_graph_edge,
}
use protostar.Planning.Graph.Edges.{
  depends_on_of, has_edge, declares_dependency,
  construct_plan_task_dependency_graph-declares_dependency,
}
use protostar.Planning.Cycles.{has_dependency_cycle}
use protostar.Planning.Cycles.Search.{Decides, has_dependency_cycle_lem}
use protostar.Planning.Order.{topo_sort_plan_tasks}
use protostar.Planning.Handoff.Runs.{Sorts, topo_sort_plan_tasks_lem}
use protostar.Planning.Verification.{
  PreHandoffGrantKind, pr, has_preceding_verification_task,
  release_grant_missing_verification_evidence, collect_release_grant_task_violations,
  collect_pre_handoff_verification_task_violations,
}
use protostar.Planning.Verification.Grants.{
  IsPassedWhen, IsReleasable, IsReadyForHandoff, collect_release_grant_task_violations_lem,
  collect_pre_handoff_verification_task_violations_lem,
}
use protostar.Base.{All}

abbrev no_capabilities : RequiredCapabilities
no_capabilities = record {
  repo_scopes = [];
  tool_permissions = [];
  execute_grants = none;
  allow_dirty = none;
  network = none;
  budget = no_budget;
}

abbrev task : String → PlanTaskKind → List String → PlanTask
task id kind depends_on = record {
  id = id;
  title = "a task";
  kind = kind;
  depends_on = depends_on;
  covers = [];
  target_files = none;
  acceptance_test_refs = none;
  adapter_ref = none;
  required_capabilities = no_capabilities;
  risk = low;
}

abbrev pub three_tasks : List PlanTask
three_tasks =
    task "task-r" release ("task-i" ∷ [])
    ∷ task "task-i" implementation ("task-v" ∷ [])
    ∷ task "task-v" verification []
    ∷ []

abbrev circle : List PlanTask
circle = task "task-a" release ("task-b" ∷ []) ∷ task "task-b" release ("task-a" ∷ []) ∷ []

abbrev sorted_ids : Option (List PlanTask) → List String
sorted_ids none = []
sorted_ids (some ts) = task_ids ts

pub three_tasks_ok : (construct_plan_task_dependency_graph three_tasks).ok ≡ true
unfolding construct_plan_task_dependency_graph is_resolvable_dependency_graph_edge is_plan_task_id
three_tasks_ok = refl

pub three_tasks_clear :
    has_dependency_cycle (construct_plan_task_dependency_graph three_tasks).graph ≡ some false
unfolding construct_plan_task_dependency_graph has_dependency_cycle
    is_resolvable_dependency_graph_edge is_plan_task_id
three_tasks_clear = refl

circle_found : has_dependency_cycle (construct_plan_task_dependency_graph circle).graph ≡ some true
unfolding construct_plan_task_dependency_graph has_dependency_cycle
    is_resolvable_dependency_graph_edge is_plan_task_id
circle_found = refl

pub three_tasks_well_formed : all is_plan_task_id (task_ids three_tasks) ≡ true
unfolding is_plan_task_id
three_tasks_well_formed = refl

three_tasks_distinct : is_empty (collect_duplicate_task_id_violations three_tasks) ≡ true
unfolding collect_duplicate_task_id_violations
three_tasks_distinct = refl

three_tasks_sorted :
    sorted_ids (topo_sort_plan_tasks three_tasks) ≡ "task-v" ∷ "task-i" ∷ "task-r" ∷ []
unfolding topo_sort_plan_tasks
three_tasks_sorted = refl

three_tasks_released :
    collect_release_grant_task_violations three_tasks
      (construct_plan_task_dependency_graph three_tasks).graph
      ("task-r" ∷ [])
    ≡ some []
unfolding collect_release_grant_task_violations construct_plan_task_dependency_graph
    has_preceding_verification_task is_resolvable_dependency_graph_edge is_plan_task_id
three_tasks_released = refl

circle_not_released :
    collect_release_grant_task_violations circle
      (construct_plan_task_dependency_graph circle).graph
      ("task-a" ∷ [])
    ≡ some (release_grant_missing_verification_evidence "task-a" ∷ [])
unfolding collect_release_grant_task_violations construct_plan_task_dependency_graph
    has_preceding_verification_task is_resolvable_dependency_graph_edge is_plan_task_id
circle_not_released = refl

construct_plan_task_dependency_graph-DependsOn_example :
    let graph = (construct_plan_task_dependency_graph three_tasks).graph in
    (has (depends_on_of graph.nodes "task-i") "task-v"
      ≡ declares_dependency three_tasks "task-i" "task-v")
    × (has_edge graph.edges "task-i" "task-v" ≡ declares_dependency three_tasks "task-i" "task-v")
construct_plan_task_dependency_graph-DependsOn_example =
    construct_plan_task_dependency_graph-declares_dependency three_tasks "task-i" "task-v"

has_dependency_cycle_lem_example :
    Decides
      (declares_dependency circle)
      (has_dependency_cycle (construct_plan_task_dependency_graph circle).graph)
has_dependency_cycle_lem_example = has_dependency_cycle_lem circle

topo_sort_plan_tasks_lem_example :
    (sorted : List PlanTask) × (topo_sort_plan_tasks three_tasks ≡ some sorted)
    × Sorts three_tasks sorted
topo_sort_plan_tasks_lem_example =
    topo_sort_plan_tasks_lem three_tasks three_tasks_distinct three_tasks_well_formed
      three_tasks_clear

abbrev clock : ℕ → String
clock k = "now"

collect_release_grant_task_violations_lem_example :
    IsPassedWhen (All (IsReleasable three_tasks) ("task-r" ∷ [])) (
      collect_release_grant_task_violations three_tasks
        (construct_plan_task_dependency_graph three_tasks).graph
        ("task-r" ∷ []))
collect_release_grant_task_violations_lem_example =
    collect_release_grant_task_violations_lem three_tasks ("task-r" ∷ [])

abbrev triggers : List (String × PreHandoffGrantKind)
triggers = ("task-i", pr) ∷ []

collect_pre_handoff_verification_task_violations_lem_example :
    IsPassedWhen (All (IsReadyForHandoff three_tasks) (keys triggers)) (
      collect_pre_handoff_verification_task_violations three_tasks
        (construct_plan_task_dependency_graph three_tasks).graph
        triggers)
collect_pre_handoff_verification_task_violations_lem_example =
    collect_pre_handoff_verification_task_violations_lem three_tasks triggers
