-- ===== src/Repair/Examples.antt =====
-- Repairs at small inputs: a plan of three tasks in a chain and one beside it.
use protostar.Base.{
  ◌≡◌, refl, String, true, List, [], ◌∷◌, Option, none, some, has, filter, ◌↔◌, ◌≢◌,
}
use protostar.Repair.Subgraph.{
  PlanNode, node_ids, selected, compute_repair_subgraph, first_unknown, add_dependents,
  dependents_by_task_id, select,
}
use protostar.Repair.Subgraph.Affected.{Affected, compute_repair_subgraph-Affected}
use protostar.Repair.Synthesis.{synthesize_repair_plan}
use protostar.Repair.Synthesis.Plans.{synthesize_repair_plan-repairs_for}
use protostar.Repair.Proposal.{
  PlanTask, Proposal, ProposalError, refused, admitted, admit_repair_plan_proposal,
}
use protostar.Repair.Proposal.Admission.{IsAdmissible, admit_repair_plan_proposal-IsAdmissible}

abbrev nodes : List PlanNode
nodes =
    record { plan_task_id = "a"; depends_on = [] }
    ∷ record { plan_task_id = "b"; depends_on = "a" ∷ [] }
    ∷ record { plan_task_id = "c"; depends_on = "b" ∷ [] }
    ∷ record { plan_task_id = "d"; depends_on = [] }
    ∷ []

selected_two : compute_repair_subgraph nodes ("b" ∷ []) ≡ selected ("b" ∷ "c" ∷ [])
unfolding compute_repair_subgraph first_unknown dependents_by_task_id add_dependents select
selected_two = refl

compute_repair_subgraph-Affected_example :
    ((x : String) → (has ("b" ∷ "c" ∷ []) x ≡ true) ↔ Affected nodes ("b" ∷ []) x)
    × ("b" ∷ "c" ∷ [] ≡ filter (has ("b" ∷ "c" ∷ [])) (node_ids nodes))
compute_repair_subgraph-Affected_example =
    compute_repair_subgraph-Affected nodes ("b" ∷ []) ("b" ∷ "c" ∷ []) selected_two

-- A finding is the id of the task that it names, and a critique the list of its references.
abbrev named : String → Option String
named id = some id

abbrev refs : List String → List String
refs ids = ids

synthesize_repair_plan-repairs_for_example :
    synthesize_repair_plan named refs "run-1" 0
      ("a" ∷ "b" ∷ "c" ∷ [])
      ("b" ∷ "b" ∷ [])
      (("a" ∷ "z" ∷ []) ∷ [])
      ("c" ∷ [])
    ≡ some (record {
      run_id = "run-1";
      attempt = 0;
      repairs =
          record {
            plan_task_id = "a";
            mechanical_critiques = [];
            model_critiques = some (("a" ∷ "z" ∷ []) ∷ []);
          }
          ∷ record {
            plan_task_id = "b";
            mechanical_critiques = "b" ∷ "b" ∷ [];
            model_critiques = none;
          }
          ∷ [];
      dependent_task_ids = "c" ∷ [];
    })
synthesize_repair_plan-repairs_for_example =
    synthesize_repair_plan-repairs_for named refs ("b" ∷ "b" ∷ []) (("a" ∷ "z" ∷ []) ∷ []) "run-1" 0
      ("a" ∷ "b" ∷ "c" ∷ []) ("c" ∷ [])

abbrev plan_tasks : List PlanTask
plan_tasks = record { id = "a"; scope_paths = "src" ∷ []; tools = "node" ∷ [] } ∷ []

-- The correction asks for a path that its task does not have.
abbrev expanding : Proposal
expanding = record {
  failing_task_ids = "a" ∷ [];
  corrections =
      record {
        target_task_id = "a";
        summary = "Fix it.";
        required_capabilities =
            some (record { repo_scopes = some ("docs" ∷ []); tool_permissions = none });
      }
      ∷ [];
}

admit_repair_plan_proposal-IsAdmissible_example :
    ((admit_repair_plan_proposal expanding plan_tasks ("a" ∷ [])
        ≡ admitted expanding.failing_task_ids expanding.corrections)
      ↔ IsAdmissible expanding plan_tasks ("a" ∷ []))
    × (¬ IsAdmissible expanding plan_tasks ("a" ∷ [])
        → (errors : List ProposalError) × (admit_repair_plan_proposal expanding plan_tasks
              ("a" ∷ [])
            ≡ refused errors)
          × (errors ≢ []))
admit_repair_plan_proposal-IsAdmissible_example =
    admit_repair_plan_proposal-IsAdmissible expanding plan_tasks ("a" ∷ [])
