-- ===== src/Authority/Tiers.antt =====
-- What the intersection reads of a tier: the keys of its grants, its lists with the defaults of
-- packages/authority/src/precedence/intersect.ts, its network and its budget.
use Prim.Native.String
use protostar.Base.{String, Bool, true, false, List, [], map, Option, none, some, or_else}
use protostar.Authority.Envelope.{
  Access, read, write, execute, RepoScopeGrant, ToolPermissionGrant, ExecuteGrant, FactoryBudget,
  no_budget, NetworkAllow, deny, loopback, Network, TierConstraint,
}

abbrev pub access_text : Access → String
access_text read = "read"
access_text write = "write"
access_text execute = "execute"

-- `a`, a zero character, and `b`.
abbrev pub joined : String → String → String
joined a b = String.◌++◌ a (String.◌++◌ "\0" b)

unfoldable pub repo_scope_key : RepoScopeGrant → String
repo_scope_key g = joined g.workspace (joined g.path (access_text g.access))

unfoldable pub tool_permission_key : ToolPermissionGrant → String
tool_permission_key g = joined g.tool (or_else g.permission_level "")

unfoldable pub execute_grant_key : ExecuteGrant → String
execute_grant_key g = joined g.command g.scope

abbrev allowed_scope : String → RepoScopeGrant
allowed_scope scope = record { workspace = "*"; path = scope; access = read }

unfoldable pub repo_scopes_for_tier : TierConstraint → List RepoScopeGrant
repo_scopes_for_tier t =
    or_else t.envelope.repo_scopes (map allowed_scope (or_else t.envelope.allowed_scopes []))

abbrev pub tools_of : TierConstraint → List ToolPermissionGrant
tools_of t = or_else t.envelope.tool_permissions []

abbrev pub executes_of : TierConstraint → List ExecuteGrant
executes_of t = or_else t.envelope.execute_grants []

abbrev pub is_dirty_allowed : Option Bool → Bool
is_dirty_allowed none = false
is_dirty_allowed (some b) = b

abbrev pub no_network : Network
no_network = record { allow = deny; allowed_hosts = none }

abbrev pub network_of : TierConstraint → Network
network_of t = or_else t.envelope.network no_network

abbrev pub hosts_of : Network → List String
hosts_of n = or_else n.allowed_hosts []

abbrev pub is_deny : NetworkAllow → Bool
is_deny deny = true
is_deny _ = false

abbrev pub is_loopback : NetworkAllow → Bool
is_loopback loopback = true
is_loopback _ = false

abbrev pub budget_of : TierConstraint → FactoryBudget
budget_of t = or_else t.envelope.budget_caps (or_else t.envelope.budget no_budget)
