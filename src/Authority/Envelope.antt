-- ===== src/Authority/Envelope.antt =====
-- Capability envelopes: packages/intent/src/capability-envelope.ts and
-- packages/authority/src/precedence/tiers.ts.
use protostar.Base.{String, Bool, List, Option, none}
use protostar.Base.Number.{Number}

pub data Access : Type 0 where
  read write execute : Access

pub record RepoScopeGrant : Type 0 where
  pub workspace : String
  pub path : String
  pub access : Access

-- A permission level and a risk are named by their texts.
pub record ToolPermissionGrant : Type 0 where
  pub tool : String
  pub permission_level : Option String
  pub reason : String
  pub risk : String

pub record ExecuteGrant : Type 0 where
  pub command : String
  pub scope : String
  pub reason : Option String

-- The limits that the intersection and the budget checks read.
pub record FactoryBudget : Type 0 where
  pub max_usd : Option Number
  pub max_tokens : Option Number
  pub timeout_ms : Option Number
  pub max_repair_loops : Option Number

pub data BudgetField : Type 0 where
  max_usd max_tokens timeout_ms max_repair_loops : BudgetField

abbrev pub limit : FactoryBudget → BudgetField → Option Number
limit b max_usd = b.max_usd
limit b max_tokens = b.max_tokens
limit b timeout_ms = b.timeout_ms
limit b max_repair_loops = b.max_repair_loops

abbrev pub no_budget : FactoryBudget
no_budget = record { max_usd = none; max_tokens = none; timeout_ms = none; max_repair_loops = none }

pub data NetworkAllow : Type 0 where
  deny loopback allowlist : NetworkAllow

pub record Network : Type 0 where
  pub allow : NetworkAllow
  pub allowed_hosts : Option (List String)

-- `CapabilityEnvelope`; `workspace.allowDirty` is the one field of its workspace.
pub record CapabilityEnvelope : Type 0 where
  pub repo_scopes : List RepoScopeGrant
  pub tool_permissions : List ToolPermissionGrant
  pub execute_grants : Option (List ExecuteGrant)
  pub allow_dirty : Option Bool
  pub network : Option Network
  pub budget : FactoryBudget

pub data TierName : Type 0 where
  confirmed_intent policy repo_policy operator_settings : TierName

pub data TrustOverride : Type 0 where
  trusted untrusted : TrustOverride

pub record TierEnvelope : Type 0 where
  pub repo_scopes : Option (List RepoScopeGrant)
  pub tool_permissions : Option (List ToolPermissionGrant)
  pub execute_grants : Option (List ExecuteGrant)
  pub allow_dirty : Option Bool
  pub network : Option Network
  pub budget : Option FactoryBudget
  pub allowed_scopes : Option (List String)
  pub budget_caps : Option FactoryBudget
  pub denied_tools : Option (List String)
  pub trust_override : Option TrustOverride

pub record TierConstraint : Type 0 where
  pub tier : TierName
  pub envelope : TierEnvelope
  pub source : String
