-- ===== src/Authority/Operations.antt =====
-- packages/authority/src/authorized-ops and packages/authority/src/workspace-trust/predicate.ts: what
-- is checked before an operation is authorized. The texts of the errors are shown by constructors.
-- `parse_url` stands for the URL constructor, with `none` where that throws.
pub mod Keys
pub mod Least
pub mod Limits
mod Examples
use Prim.Native.String
use Prim.Native.Char.{Char, code}
use text.Mathlib.Text.{starts_with}
use protostar.Base.{
  ℕ, String, Bool, true, false, not, ◌&&◌, ◌||◌, List, [], ◌∷◌, ◌++◌, Option, none, some, or_else,
  ◌==◌, has, any, is_empty, leb, nat_eq, if◌then◌else◌,
}
use protostar.Base.Number.{Number, fin, pos, le_num, is_finite}
use protostar.Authority.Envelope.{
  Access, read, write, execute, RepoScopeGrant, ToolPermissionGrant, ExecuteGrant, BudgetField,
  limit, NetworkAllow, deny, loopback, allowlist, Network, CapabilityEnvelope, TrustOverride,
  trusted, untrusted,
}

abbrev access_rank : Access → ℕ
access_rank read = 0
access_rank write = 1
access_rank execute = 2

-- `path === scope || path.startsWith(scope + "/")`, with "." for all paths.
abbrev pub is_within : String → String → Bool
is_within scope path = scope == "." || (path == scope || starts_with path (String.◌++◌ scope "/"))

-- A workspace's trust has the two values of a tier's.
pub record WorkspaceRef : Type 0 where
  pub root : String
  pub default_branch : Option String
  pub trust : TrustOverride

-- The test that hasWorkspaceGrant makes of a scope.
abbrev pub scope_grants : WorkspaceRef → String → Access → RepoScopeGrant → Bool
scope_grants workspace path access scope =
    (scope.workspace == workspace.root || scope.workspace == "main")
    && (is_within scope.path path && leb (access_rank access) (access_rank scope.access))

unfoldable pub has_workspace_grant : CapabilityEnvelope → WorkspaceRef → String → Access → Bool
has_workspace_grant envelope workspace path access =
    any (scope_grants workspace path access) envelope.repo_scopes

abbrev pub grant_executes : String → String → ExecuteGrant → Bool
grant_executes command cwd grant = grant.command == command && is_within grant.scope cwd

unfoldable pub has_execute_grant : CapabilityEnvelope → String → String → Bool
has_execute_grant envelope command cwd =
    any (grant_executes command cwd) (or_else envelope.execute_grants [])

abbrev pub network_allowed_levels : List String
network_allowed_levels = "use" ∷ "execute" ∷ "admin" ∷ []

abbrev pub is_network_level : Option String → Bool
is_network_level none = false
is_network_level (some level) = has network_allowed_levels level

abbrev pub grants_network : ToolPermissionGrant → Bool
grants_network grant = grant.tool == "network" && is_network_level grant.permission_level

unfoldable pub has_network_grant : CapabilityEnvelope → Bool
has_network_grant envelope = any grants_network envelope.tool_permissions

abbrev pub is_within_cap : Number → Option Number → Bool
is_within_cap amount none = false
is_within_cap amount (some cap) = le_num amount cap

unfoldable pub has_budget_grant : CapabilityEnvelope → BudgetField → Number → Bool
has_budget_grant envelope budget_key amount =
    is_within_cap amount (limit envelope.budget budget_key)

pub data ExecutionScope : Type 0 where
  no_scope workspace_readonly workspace : ExecutionScope

pub record TrustRefusalEvidence : Type 0 where
  pub workspace_root : String
  pub declared_trust : TrustOverride
  pub requested_access : Access
  pub requested_scope : Option ExecutionScope

abbrev is_workspace : Option ExecutionScope → Bool
is_workspace (some workspace) = true
is_workspace _ = false

abbrev pub is_read : Access → Bool
is_read read = true
is_read _ = false

abbrev pub is_trusted : TrustOverride → Bool
is_trusted trusted = true
is_trusted untrusted = false

-- The evidence of a refusal, or nothing.
unfoldable pub assert_trusted_workspace_for_grant :
    WorkspaceRef → Access → Option ExecutionScope → Option TrustRefusalEvidence
assert_trusted_workspace_for_grant ref access scope =
    if is_read access && not (is_workspace scope)
    then none
    else if not (is_trusted ref.trust)
    then some (record {
      workspace_root = ref.root;
      declared_trust = ref.trust;
      requested_access = access;
      requested_scope = scope;
    })
    else none

pub data OperationError : Type 0 where
  workspace_not_trusted : TrustRefusalEvidence → OperationError
  no_repo_scope no_execute_grant no_network_grant no_budget_grant : OperationError
  shell_metacharacters invalid_amount : OperationError
  url_not_parseable url_not_http network_required network_refused : OperationError
  host_not_loopback host_not_listed : (host : String) → OperationError

-- `{ ok: true, authorized }` or `{ ok: false, errors }`.
pub data AuthorizeResult (A : Type 0) : Type 0 where
  authorized : A → AuthorizeResult A
  refused : (errors : List OperationError) → AuthorizeResult A

abbrev pub conclude : {A : Type 0} → A → List OperationError → AuthorizeResult A
conclude op [] = authorized op
conclude op (e ∷ es) = refused (e ∷ es)

-- An error where the test fails.
abbrev pub demand : Bool → OperationError → List OperationError
demand true e = []
demand false e = e ∷ []

abbrev pub trust_errors : Option TrustRefusalEvidence → List OperationError
trust_errors none = []
trust_errors (some evidence) = workspace_not_trusted evidence ∷ []

pub record WorkspaceOp : Type 0 where
  pub workspace : WorkspaceRef
  pub path : String
  pub access : Access
  pub resolved_envelope : CapabilityEnvelope

unfoldable pub authorize_workspace_op : WorkspaceOp → AuthorizeResult WorkspaceOp
unfolding has_workspace_grant assert_trusted_workspace_for_grant
authorize_workspace_op input = conclude input (
    trust_errors (assert_trusted_workspace_for_grant input.workspace input.access none)
    ++ demand (has_workspace_grant input.resolved_envelope input.workspace input.path input.access)
        no_repo_scope)

pub record SubprocessOp : Type 0 where
  pub command : String
  pub args : List String
  pub cwd : String
  pub resolved_envelope : CapabilityEnvelope

-- A blank, or one of `;&|`$<>`.
is_shell_character : ℕ → Bool
is_shell_character c =
    nat_eq c b' '
    || (nat_eq c b';'
        || (nat_eq c b'&'
            || (nat_eq c b'|'
                || (nat_eq c b'`' || (nat_eq c b'$' || (nat_eq c b'<' || nat_eq c b'>'))))))

unfoldable pub has_shell_metacharacters : String → Bool
unfolding is_shell_character
has_shell_metacharacters String.[] = false
has_shell_metacharacters (String.◌∷◌ c s) =
    is_shell_character (code c) || has_shell_metacharacters s

unfoldable pub authorize_subprocess_op : SubprocessOp → AuthorizeResult SubprocessOp
unfolding has_execute_grant has_shell_metacharacters
authorize_subprocess_op input = conclude input (
    demand (not (has_shell_metacharacters input.command)) shell_metacharacters
    ++ demand (has_execute_grant input.resolved_envelope input.command input.cwd) no_execute_grant)

-- `boundary` names who spends; it is not read.
pub record BudgetOp : Type 0 where
  pub boundary : String
  pub budget_key : BudgetField
  pub amount : Number
  pub resolved_envelope : CapabilityEnvelope

unfoldable pub authorize_budget_op : BudgetOp → AuthorizeResult BudgetOp
unfolding has_budget_grant
authorize_budget_op input = conclude input (
    demand (is_finite input.amount && le_num (fin (pos 0)) input.amount) invalid_amount
    ++ demand (has_budget_grant input.resolved_envelope input.budget_key input.amount)
        no_budget_grant)

pub record Url : Type 0 where
  pub protocol : String
  pub hostname : String

pub record NetworkOp : Type 0 where
  pub method : String
  pub url : String
  pub resolved_envelope : CapabilityEnvelope

-- `hostname.replace(/^\[(.*)\]$/, "$1")`; a host name has no line breaks.
drop_bracket : String → Option String
drop_bracket String.[] = none
drop_bracket (String.◌∷◌ c String.[]) = if nat_eq (code c) b']' then some String.[] else none
drop_bracket (String.◌∷◌ c s) = cons c (drop_bracket s)
  where
    cons : Char → Option String → Option String
    cons c none = none
    cons c (some s) = some (String.◌∷◌ c s)

unfoldable pub strip_brackets : String → String
unfolding drop_bracket
strip_brackets String.[] = String.[]
strip_brackets (String.◌∷◌ c s) =
    if nat_eq (code c) b'[' then or_else (drop_bracket s) (String.◌∷◌ c s) else String.◌∷◌ c s

abbrev loopback_hosts : List String
loopback_hosts = "localhost" ∷ "127.0.0.1" ∷ "::1" ∷ []

abbrev pub is_loopback_host : String → Bool
is_loopback_host hostname = has loopback_hosts hostname

abbrev pub host_errors : String → Option Network → List OperationError
host_errors hostname none = network_required ∷ []
host_errors hostname (some n) = of_level n.allow
  where
    of_level : NetworkAllow → List OperationError
    of_level deny = network_refused ∷ []
    of_level loopback =
        demand (is_loopback_host (strip_brackets hostname))
          (host_not_loopback (strip_brackets hostname))
    of_level allowlist =
        demand (has (or_else n.allowed_hosts []) hostname) (host_not_listed hostname)

abbrev pub url_errors : Option Url → Option Network → List OperationError
url_errors none network = url_not_parseable ∷ []
url_errors (some url) network =
    demand (url.protocol == "http:" || url.protocol == "https:") url_not_http
    ++ host_errors url.hostname network

unfoldable pub authorize_network_op : (String → Option Url) → NetworkOp → AuthorizeResult NetworkOp
unfolding has_network_grant strip_brackets
authorize_network_op parse_url input = conclude input (
    url_errors (parse_url input.url) input.resolved_envelope.network
    ++ demand (has_network_grant input.resolved_envelope) no_network_grant)
