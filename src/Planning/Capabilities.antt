-- ===== src/Planning/Capabilities.antt =====
-- The checks of a task's required capabilities against the envelope of the intent, of
-- packages/planning/src/index.ts: collectRequired…EnvelopeViolations and what they call. A violation
-- is shown by the index or the budget key that its path has. A risk and a permission level are texts;
-- one that is none of the code's has no rank, and its comparisons are false.
pub mod Tiers
mod Examples
use Prim.Native.String
use Prim.Native.Char.{Char, code}
use text.Mathlib.Text.{starts_with}
use protostar.Base.{
  ℕ, ◌+◌, String, Bool, true, false, not, ◌&&◌, ◌||◌, List, [], ◌∷◌, ◌++◌, Option, none, some,
  or_else, ◌==◌, any, leb, nat_eq, if◌then◌else◌,
}
use protostar.Base.Number.{Number, le_num, is_finite}
use protostar.Base.Whitespace.{is_space}
use protostar.Authority.Envelope.{
  Access, read, write, execute, RepoScopeGrant, ToolPermissionGrant, ExecuteGrant, FactoryBudget,
  BudgetField, max_usd, max_tokens, timeout_ms, max_repair_loops, limit, CapabilityEnvelope,
}
use protostar.Planning.Types.{RequiredCapabilities}

abbrev slash : Char
slash = "/"

abbrev is_slash : Char → Bool
is_slash c = nat_eq (code c) b'/'

-- `path.replace(/\\/g, "/")`
to_slashes : String → String
to_slashes String.[] = String.[]
to_slashes (String.◌∷◌ c s) = String.◌∷◌ (if nat_eq (code c) b'\\' then slash else c) (to_slashes s)

-- `replace(/\/+/g, "/")`
collapse_slashes : String → String
collapse_slashes String.[] = String.[]
collapse_slashes (String.◌∷◌ c String.[]) = String.◌∷◌ c String.[]
collapse_slashes (String.◌∷◌ c (String.◌∷◌ d s)) =
    let rest = collapse_slashes (String.◌∷◌ d s) in
    if is_slash c && is_slash d then rest else String.◌∷◌ c rest

-- `replace(/\/$/, "")`
drop_trailing_slash : String → String
drop_trailing_slash String.[] = String.[]
drop_trailing_slash (String.◌∷◌ c String.[]) =
    if is_slash c then String.[] else String.◌∷◌ c String.[]
drop_trailing_slash (String.◌∷◌ c (String.◌∷◌ d s)) =
    String.◌∷◌ c (drop_trailing_slash (String.◌∷◌ d s))

trim_start : String → String
trim_start String.[] = String.[]
trim_start (String.◌∷◌ c s) =
    let rest = trim_start s in if is_space (code c) then rest else String.◌∷◌ c s

trim_end : String → String
trim_end String.[] = String.[]
trim_end (String.◌∷◌ c s) =
    let rest = trim_end s in
    if rest == "" && is_space (code c) then String.[] else String.◌∷◌ c rest

-- `slice(2)` of a text with at least two characters.
abbrev after_two : String → String
after_two String.[] = String.[]
after_two (String.◌∷◌ c String.[]) = String.[]
after_two (String.◌∷◌ c (String.◌∷◌ d s)) = s

unfoldable pub normalize_repo_scope_path_for_containment : String → String
unfolding to_slashes collapse_slashes drop_trailing_slash trim_start trim_end is_space
normalize_repo_scope_path_for_containment path =
    let normalized =
      trim_end (trim_start (drop_trailing_slash (collapse_slashes (to_slashes path)))) in
    if normalized == "" || normalized == "./"
    then "."
    else if starts_with normalized "./"
    then after_two normalized
    else normalized

unfoldable pub repo_scope_path_covers : String → String → Bool
unfolding normalize_repo_scope_path_for_containment
repo_scope_path_covers admitted_path required_path =
    let admitted = normalize_repo_scope_path_for_containment admitted_path in
    let required = normalize_repo_scope_path_for_containment required_path in
    admitted == "." || (required == admitted || starts_with required (String.◌++◌ admitted "/"))

abbrev pub repo_scope_access_covers : Access → Access → Bool
repo_scope_access_covers read read = true
repo_scope_access_covers write read = true
repo_scope_access_covers execute read = false
repo_scope_access_covers write write = true
repo_scope_access_covers execute execute = true
repo_scope_access_covers admitted required = false

abbrev pub repo_scope_covers_required_scope : RepoScopeGrant → RepoScopeGrant → Bool
repo_scope_covers_required_scope admitted required =
    admitted.workspace == required.workspace
    && (repo_scope_access_covers admitted.access required.access
        && repo_scope_path_covers admitted.path required.path)

-- RISK_LEVEL_RANK and TOOL_PERMISSION_LEVEL_RANK.
abbrev risk_level_rank : String → Option ℕ
risk_level_rank risk =
    if risk == "low"
    then some 1
    else if risk == "medium"
    then some 2
    else if risk == "high"
    then some 3
    else none

abbrev tool_permission_level_rank : String → Option ℕ
tool_permission_level_rank level =
    if level == "read"
    then some 1
    else if level == "use"
    then some 2
    else if level == "write"
    then some 3
    else if level == "execute"
    then some 4
    else if level == "admin"
    then some 5
    else none

-- `admitted >= required`
abbrev rank_covers : Option ℕ → Option ℕ → Bool
rank_covers none required = false
rank_covers (some a) none = false
rank_covers (some a) (some r) = leb r a

unfoldable pub risk_level_covers : String → String → Bool
risk_level_covers admitted required =
    rank_covers (risk_level_rank admitted) (risk_level_rank required)

unfoldable pub tool_permission_level_covers : String → String → Bool
tool_permission_level_covers admitted required =
    rank_covers (tool_permission_level_rank admitted) (tool_permission_level_rank required)

abbrev pub tool_permission_level_for_grant : ToolPermissionGrant → String
tool_permission_level_for_grant grant = or_else grant.permission_level "use"

abbrev pub tool_permission_covers_required_permission :
    ToolPermissionGrant → ToolPermissionGrant → Bool
tool_permission_covers_required_permission admitted required =
    (admitted.tool == required.tool || admitted.tool == "*")
    && (risk_level_covers admitted.risk required.risk
        && tool_permission_level_covers (tool_permission_level_for_grant admitted)
            (tool_permission_level_for_grant required))

abbrev pub execute_grant_admits : ExecuteGrant → ExecuteGrant → Bool
execute_grant_admits grant required =
    grant.command == required.command && grant.scope == required.scope

pub data EnvelopeViolation : Type 0 where
  repo_scope_outside tool_permission_outside execute_grant_outside : (index : ℕ) → EnvelopeViolation
  budget_outside : BudgetField → EnvelopeViolation

-- A violation for each required entry that no entry of the envelope covers.
abbrev pub uncovered :
    {A : Type 0}
    → (ℕ → EnvelopeViolation)
    → (A → A → Bool)
    → List A
    → ℕ
    → List A
    → List EnvelopeViolation
uncovered violation covers admitted index [] = []
uncovered violation covers admitted index (r ∷ rs) =
    let rest = uncovered violation covers admitted (index + 1) rs in
    if any (λ a. covers a r) admitted then rest else violation index ∷ rest

abbrev pub is_within_budget : Option Number → Option Number → Bool
is_within_budget none admitted = true
is_within_budget (some r) none = false
is_within_budget (some r) (some a) = is_finite a && le_num r a

abbrev pub budget_violation : FactoryBudget → FactoryBudget → BudgetField → List EnvelopeViolation
budget_violation required admitted key =
    if is_within_budget (limit required key) (limit admitted key)
    then []
    else budget_outside key ∷ []

unfoldable pub collect_required_budget_envelope_violations :
    RequiredCapabilities → CapabilityEnvelope → List EnvelopeViolation
collect_required_budget_envelope_violations required envelope =
    let check = budget_violation required.budget envelope.budget in
    check max_usd ++ (check max_tokens ++ (check timeout_ms ++ check max_repair_loops))

abbrev pub collect_required_repo_scope_envelope_violations :
    RequiredCapabilities → CapabilityEnvelope → List EnvelopeViolation
collect_required_repo_scope_envelope_violations required envelope =
    uncovered repo_scope_outside repo_scope_covers_required_scope envelope.repo_scopes 0
      required.repo_scopes

abbrev pub collect_required_tool_permission_envelope_violations :
    RequiredCapabilities → CapabilityEnvelope → List EnvelopeViolation
collect_required_tool_permission_envelope_violations required envelope =
    uncovered tool_permission_outside tool_permission_covers_required_permission
      envelope.tool_permissions 0 required.tool_permissions

abbrev pub collect_required_execute_grant_envelope_violations :
    RequiredCapabilities → CapabilityEnvelope → List EnvelopeViolation
collect_required_execute_grant_envelope_violations required envelope =
    uncovered execute_grant_outside execute_grant_admits (or_else envelope.execute_grants []) 0
      (or_else required.execute_grants [])

-- collectTaskRequiredCapabilityEnvelopeViolations, without the check of the planning grant model.
unfoldable pub collect_envelope_violations :
    RequiredCapabilities → CapabilityEnvelope → List EnvelopeViolation
unfolding collect_required_budget_envelope_violations
collect_envelope_violations required envelope =
    collect_required_repo_scope_envelope_violations required envelope
    ++ (collect_required_tool_permission_envelope_violations required envelope
        ++ (collect_required_execute_grant_envelope_violations required envelope
            ++ collect_required_budget_envelope_violations required envelope))
