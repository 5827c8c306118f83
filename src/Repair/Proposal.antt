-- ===== src/Repair/Proposal.antt =====
-- admitRepairPlanProposal of packages/repair/src/admit-repair-plan-proposal.ts. An error text is the
-- constructor that stands for its template, with the values that the template shows.
pub mod Admission
use protostar.Base.{
  ℕ, suc, ◌+◌, String, Bool, true, false, List, [], ◌∷◌, ◌++◌, map, Option, none, some, Dict, get,
  put, has, is_empty, if◌then◌else◌,
}

-- What the validator reads of a plan task: its id, the paths of its repo scopes and its tools.
pub record PlanTask : Type 0 where
  pub id : String
  pub scope_paths : List String
  pub tools : List String

-- `requiredCapabilities` of a correction; each part may be absent.
pub record RequiredCapabilities : Type 0 where
  pub repo_scopes : Option (List String)
  pub tool_permissions : Option (List String)

pub record Correction : Type 0 where
  pub target_task_id : String
  pub summary : String
  pub required_capabilities : Option RequiredCapabilities

pub record Proposal : Type 0 where
  pub failing_task_ids : List String
  pub corrections : List Correction

pub data ProposalError : Type 0 where
  unknown_failing_task : String → ProposalError
  unknown_target_task : (index : ℕ) → String → ProposalError
  scope_expansion : (index : ℕ) (scope task : String) → ProposalError
  tool_expansion : (index : ℕ) (tool task : String) → ProposalError

pub data ProposalResult : Type 0 where
  admitted : (failing_task_ids : List String) → List Correction → ProposalResult
  refused : List ProposalError → ProposalResult

unfoldable pub unknown_failing : List String → List String → List ProposalError
unknown_failing failing [] = []
unknown_failing failing (id ∷ ids) =
    if has failing id
    then unknown_failing failing ids
    else unknown_failing_task id ∷ unknown_failing failing ids

-- `tasksById`: a later task takes the place of an earlier one with its id.
unfoldable pub tasks_by_id : List PlanTask → Dict PlanTask → Dict PlanTask
tasks_by_id [] m = m
tasks_by_id (t ∷ ts) m = tasks_by_id ts (put m t.id t)

-- The values that are not allowed, each as an error.
unfoldable pub beyond :
    (String → ProposalError) → (allowed wanted : List String) → List ProposalError
beyond error allowed [] = []
beyond error allowed (x ∷ xs) =
    if has allowed x then beyond error allowed xs else error x ∷ beyond error allowed xs

abbrev beyond? : (String → ProposalError) → List String → Option (List String) → List ProposalError
beyond? error allowed none = []
beyond? error allowed (some wanted) = beyond error allowed wanted

abbrev expansion : Option RequiredCapabilities → PlanTask → ℕ → List ProposalError
expansion none task index = []
expansion (some required) task index =
    beyond? (λ x. scope_expansion index x task.id) task.scope_paths required.repo_scopes
    ++ beyond? (λ x. tool_expansion index x task.id) task.tools required.tool_permissions

unfoldable pub detect_capability_expansion : Correction → PlanTask → ℕ → List ProposalError
unfolding beyond
detect_capability_expansion correction task index =
    expansion correction.required_capabilities task index

abbrev correction_errors : Option PlanTask → Correction → ℕ → List ProposalError
correction_errors none c index = unknown_target_task index c.target_task_id ∷ []
correction_errors (some task) c index = detect_capability_expansion c task index

unfoldable pub corrections_errors : Dict PlanTask → List Correction → ℕ → List ProposalError
unfolding detect_capability_expansion
corrections_errors m [] index = []
corrections_errors m (c ∷ cs) index =
    correction_errors (get m c.target_task_id) c index ++ corrections_errors m cs (index + 1)

unfoldable pub admit_repair_plan_proposal :
    Proposal → (tasks : List PlanTask) → (failing_task_ids : List String) → ProposalResult
unfolding unknown_failing tasks_by_id corrections_errors
admit_repair_plan_proposal proposal tasks failing_task_ids =
    let errors =
      unknown_failing failing_task_ids proposal.failing_task_ids
      ++ corrections_errors (tasks_by_id tasks []) proposal.corrections 0 in
    if is_empty errors
    then admitted proposal.failing_task_ids proposal.corrections
    else refused errors
