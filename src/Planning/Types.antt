-- ===== src/Planning/Types.antt =====
-- The data of packages/planning/src/index.ts: tasks, the dependency graph and its violations. A title
-- and the texts of a violation are shown by their values.
use Prim.Native.Nat.{ℕ}
use protostar.Base.{String, Bool, List, Option, Dict}
use protostar.Authority.Envelope.{
  RepoScopeGrant, ToolPermissionGrant, ExecuteGrant, FactoryBudget, Network,
}

pub data PlanTaskKind : Type 0 where
  research design implementation verification release : PlanTaskKind

pub data RiskLevel : Type 0 where
  low medium high : RiskLevel

-- `workspace.allowDirty` is the one field of a required workspace.
pub record RequiredCapabilities : Type 0 where
  pub repo_scopes : List RepoScopeGrant
  pub tool_permissions : List ToolPermissionGrant
  pub execute_grants : Option (List ExecuteGrant)
  pub allow_dirty : Option Bool
  pub network : Option Network
  pub budget : FactoryBudget

pub record AcceptanceTestRef : Type 0 where
  pub ac_id : String
  pub test_file : String
  pub test_name : String

pub record PlanTask : Type 0 where
  pub id : String
  pub title : String
  pub kind : PlanTaskKind
  pub depends_on : List String
  pub covers : List String
  pub target_files : Option (List String)
  pub acceptance_test_refs : Option (List AcceptanceTestRef)
  pub adapter_ref : Option String
  pub required_capabilities : RequiredCapabilities
  pub risk : RiskLevel

pub record DependencyEdge : Type 0 where
  pub dependent_task_id : String
  pub dependency_task_id : String
  pub dependency_index : ℕ

-- A node without its id, which is its key in the map.
pub record DependencyNode : Type 0 where
  pub depends_on : List String
  pub depended_on_by : List String

pub record DependencyGraph : Type 0 where
  pub nodes : Dict DependencyNode
  pub edges : List DependencyEdge

pub data DuplicateTaskId : Type 0 where
  duplicate_task_id : (id : String) (first_index duplicate_index : ℕ) → DuplicateTaskId

pub data DependencyViolation : Type 0 where
  invalid_task_dependency_id self_task_dependency missing_task_dependency :
      (task_id dependency : String) (dependency_index : ℕ) → DependencyViolation
