-- ===== src/Planning/Capabilities/Tiers.antt =====
-- A task that stays within the resolved envelope stays within the envelope of every tier.
use protostar.Base.{
  String, eq_iff, ℕ, ◌+◌, ◌≡◌, refl, sym, subst, ap, ap₂, ◌∙◌, Bool, true, false, ◌&&◌, ◌||◌, List,
  [], ◌∷◌, ◌++◌, Option, none, some, or_else, arith, ◌==◌, any, all, All, is_empty, Bool-cases, inl,
  inr, if◌then◌else◌,
}
use protostar.Base.Number.{Number, le_num}
use protostar.Authority.Envelope.{
  RepoScopeGrant, ToolPermissionGrant, ExecuteGrant, BudgetField, max_usd, max_tokens, timeout_ms,
  max_repair_loops, limit, TierConstraint,
}
use protostar.Authority.Tiers.{
  repo_scope_key, tool_permission_key, execute_grant_key, repo_scopes_for_tier, tools_of,
  executes_of,
}
use protostar.Authority.Precedence.{intersect_envelopes, intersect_by_key}
use protostar.Authority.Precedence.Limits.{
  IsLimitOfSome, IsLeastLimit, intersect_envelopes-IsLeastLimit,
}
use protostar.Authority.Operations.Keys.{
  is_plain_scope, is_plain_execute, is_plain_tool, execute_grant_key-injective,
  tool_permission_key-injective,
}
use protostar.Authority.Operations.Least.{
  resolved, is_plain, every_tier, same_scope, any-intersect_execute_grants,
  any-subtract_denied_tools, any-filter,
}
use protostar.Authority.Operations.Limits.{within_least}
use protostar.Planning.Types.{RequiredCapabilities}
use protostar.Planning.Capabilities.{
  repo_scope_covers_required_scope, tool_permission_covers_required_permission,
  tool_permission_level_covers, tool_permission_level_for_grant, execute_grant_admits,
  EnvelopeViolation, repo_scope_outside, tool_permission_outside, execute_grant_outside,
  budget_outside, uncovered, is_within_budget, budget_violation,
  collect_required_budget_envelope_violations, collect_envelope_violations,
}

is_empty-append :
    (es fs : List EnvelopeViolation)
    → is_empty (es ++ fs) ≡ true
    → (is_empty es ≡ true) × (is_empty fs ≡ true)
is_empty-append [] fs h = (refl, h)
is_empty-append (e ∷ es) fs h = cc

module _ {A : Type 0} (violation : ℕ → EnvelopeViolation) (covers : A → A → Bool)
    (admitted : List A) where
  uncovered-none :
      (index : ℕ) (rs : List A)
      → is_empty (uncovered violation covers admitted index rs) ≡ true
      → All (λ r. any (λ a. covers a r) admitted ≡ true) rs
  uncovered-none index [] h = tt
  uncovered-none index (r ∷ rs) h = elim (Bool-cases (any (λ a. covers a r) admitted)) [
    | inl covered ↦ (covered, uncovered-none (index + 1) rs (rw covered at h))
    | inr outside ↦ cc (rw outside at h)
  ]

All-weaken :
    {A : Type 0} (P Q : A → Type 0) (rs : List A) → ((r : A) → P r → Q r) → All P rs → All Q rs
All-weaken P Q [] f h = tt
All-weaken P Q (r ∷ rs) f (h, hs) = (f r h, All-weaken P Q rs f hs)

execute_grant_admits-respects :
    (required x y : ExecuteGrant)
    → is_plain_execute x ≡ true
    → is_plain_execute y ≡ true
    → execute_grant_key x ≡ execute_grant_key y
    → execute_grant_admits x required ≡ true
    → execute_grant_admits y required ≡ true
execute_grant_admits-respects required x y h k e r =
    let (commands, scopes) = execute_grant_key-injective x y h k e in
    sym (ap₂ (λ c s. c == required.command && s == required.scope) commands scopes) ∙ r

scope_covers-respects :
    (required x y : RepoScopeGrant)
    → is_plain_scope x ≡ true
    → is_plain_scope y ≡ true
    → repo_scope_key x ≡ repo_scope_key y
    → repo_scope_covers_required_scope x required ≡ true
    → repo_scope_covers_required_scope y required ≡ true
scope_covers-respects required x y h k e r =
    subst (λ g. repo_scope_covers_required_scope g required ≡ true) (same_scope x y h k e) r

-- The level that a grant names, where one that names none, or an empty text, counts as "use".
abbrev named_level : ToolPermissionGrant → String
named_level grant =
    let level = or_else grant.permission_level "" in if level == "" then "use" else level

-- The grant is of the required tool, or of all tools, at a level that covers the required one.
abbrev pub grants_level : ToolPermissionGrant → ToolPermissionGrant → Bool
grants_level required grant =
    (grant.tool == required.tool || grant.tool == "*")
    && tool_permission_level_covers (named_level grant) (tool_permission_level_for_grant required)

grants_level-respects :
    (required x y : ToolPermissionGrant)
    → is_plain_tool x ≡ true
    → is_plain_tool y ≡ true
    → tool_permission_key x ≡ tool_permission_key y
    → grants_level required x ≡ true
    → grants_level required y ≡ true
grants_level-respects required x y h k e r =
    let (tools, levels) = tool_permission_key-injective x y h k e in
    sym (
      ap₂
        (λ tool level.
          (tool == required.tool || tool == "*")
          && tool_permission_level_covers (if level == "" then "use" else level)
              (tool_permission_level_for_grant required))
        tools levels)
    ∙ r

any_weaken :
    {A : Type 0} (p q : A → Bool) (xs : List A)
    → ((x : A) → p x ≡ true → q x ≡ true)
    → any p xs ≡ true
    → any q xs ≡ true
any_weaken p q [] f h = h
any_weaken p q (x ∷ xs) f h = ground (arith, f x, any_weaken p q xs f)

-- What a task requires of a limit, every finite limit of a tier allows.
abbrev pub IsWithinLimits : List TierConstraint → BudgetField → Option Number → Type 0
IsWithinLimits tiers key none = Unit
IsWithinLimits tiers key (some r) = (v : Number) → IsLimitOfSome key tiers v → le_num r v ≡ true

limit_within :
    (key : BudgetField) (tiers : List TierConstraint) (required admitted : Option Number)
    → IsLeastLimit key tiers admitted
    → is_within_budget required admitted ≡ true
    → IsWithinLimits tiers key required
limit_within key tiers none admitted least h = tt
limit_within key tiers (some r) none least h = cc
limit_within key tiers (some r) (some a) least h =
    (within_least key tiers r (some a) least (ground arith)).1

budget_violation-none :
    (t : TierConstraint) (ts : List TierConstraint) (required : RequiredCapabilities)
    (key : BudgetField)
    → is_empty (budget_violation required.budget (resolved t ts).budget key) ≡ true
    → IsWithinLimits (t ∷ ts) key (limit required.budget key)
budget_violation-none t ts required key h =
    limit_within key (t ∷ ts) (limit required.budget key) (limit (resolved t ts).budget key)
      (intersect_envelopes-IsLeastLimit t ts key)
      (go (is_within_budget (limit required.budget key) (limit (resolved t ts).budget key)) h)
  where
    go : (b : Bool) → is_empty (if b then [] else budget_outside key ∷ []) ≡ true → b ≡ true
    go true h = refl
    go false h = cc

-- A grant whose level is the empty text covers no level.
blank-covers : (r : String) → tool_permission_level_covers "" r ≡ false
unfolding tool_permission_level_covers
blank-covers r = refl

named_level-covers :
    (o : Option String) (r : String)
    → tool_permission_level_covers (or_else o "use") r ≡ true
    → tool_permission_level_covers (if or_else o "" == "" then "use" else or_else o "") r ≡ true
named_level-covers none r h = h
named_level-covers (some level) r h = elim (Bool-cases (level == "")) [
  | inl blank ↦ absurd (
      cc
        (h, blank-covers r, ap (λ l. tool_permission_level_covers l r) ((eq_iff level "").0 blank)))
  | inr named ↦ rw named h
]

covers-grants_level :
    (a r : ToolPermissionGrant)
    → tool_permission_covers_required_permission a r ≡ true
    → grants_level r a ≡ true
covers-grants_level a r k =
    ground (arith, named_level-covers a.permission_level (tool_permission_level_for_grant r))

-- The first tier has a permission that covers each required one in tool, risk and level: the resolved
-- permissions are the first tier's own, and the risk is not part of the key by which the others are
-- compared.
abbrev pub IsCoveredByFirst : TierConstraint → RequiredCapabilities → Type 0
IsCoveredByFirst t required =
    All (λ r. any (λ a. tool_permission_covers_required_permission a r) (tools_of t) ≡ true)
      required.tool_permissions

-- What every tier allows of what is required.
abbrev pub IsAllowedByAll : List TierConstraint → RequiredCapabilities → Type 0
IsAllowedByAll tiers required =
    All
      (λ r.
        all (λ u. any (λ a. repo_scope_covers_required_scope a r) (repo_scopes_for_tier u)) tiers
        ≡ true)
      required.repo_scopes
    × All (λ r. all (λ u. any (grants_level r) (tools_of u)) tiers ≡ true) required.tool_permissions
    × All (λ r. all (λ u. any (λ a. execute_grant_admits a r) (executes_of u)) tiers ≡ true)
        (or_else required.execute_grants [])
    × ((key : BudgetField) → IsWithinLimits tiers key (limit required.budget key))

module _ (t : TierConstraint) (ts : List TierConstraint)
    (plain : all is_plain (t ∷ ts) ≡ true) where
  scopes_allowed :
      (rs : List RepoScopeGrant)
      → is_empty (
          uncovered repo_scope_outside repo_scope_covers_required_scope
            (resolved t ts).repo_scopes
            0
            rs)
        ≡ true
      → All
          (λ r.
            all
              (λ u. any (λ a. repo_scope_covers_required_scope a r) (repo_scopes_for_tier u))
              (t ∷ ts)
            ≡ true)
          rs
  unfolding intersect_envelopes
  scopes_allowed rs h =
      All-weaken _ _ rs
        (λ r covered.
          every_tier t ts plain repo_scope_key is_plain_scope
            (λ a. repo_scope_covers_required_scope a r) repo_scopes_for_tier
            (scope_covers-respects r) (λ u k. ground arith) covered)
        (uncovered-none repo_scope_outside repo_scope_covers_required_scope _ 0 rs h)

  tools_allowed :
      (rs : List ToolPermissionGrant)
      → is_empty (
          uncovered tool_permission_outside tool_permission_covers_required_permission
            (resolved t ts).tool_permissions
            0
            rs)
        ≡ true
      → All (λ r. all (λ u. any (grants_level r) (tools_of u)) (t ∷ ts) ≡ true) rs
  unfolding intersect_envelopes
  tools_allowed rs h =
      All-weaken _ _ rs
        (λ r covered.
          every_tier t ts plain tool_permission_key is_plain_tool (grants_level r) tools_of
            (grants_level-respects r) (λ u k. ground arith)
            (any-subtract_denied_tools (grants_level r) _ (t ∷ ts) (
              any_weaken _ (grants_level r) (resolved t ts).tool_permissions
                (λ a. covers-grants_level a r) covered)))
        (uncovered-none tool_permission_outside tool_permission_covers_required_permission _ 0 rs h)

  tools_covered :
      (rs : List ToolPermissionGrant)
      → is_empty (
          uncovered tool_permission_outside tool_permission_covers_required_permission
            (resolved t ts).tool_permissions
            0
            rs)
        ≡ true
      → All (λ r. any (λ a. tool_permission_covers_required_permission a r) (tools_of t) ≡ true) rs
  unfolding intersect_envelopes intersect_by_key
  tools_covered rs h =
      All-weaken _ _ rs
        (λ r covered.
          any-filter (λ a. tool_permission_covers_required_permission a r) _ (tools_of t)
            (any-subtract_denied_tools (λ a. tool_permission_covers_required_permission a r) _
              (t ∷ ts) covered))
        (uncovered-none tool_permission_outside tool_permission_covers_required_permission _ 0 rs h)

  executes_allowed :
      (rs : List ExecuteGrant)
      → is_empty (
          uncovered execute_grant_outside execute_grant_admits
            (or_else (resolved t ts).execute_grants [])
            0
            rs)
        ≡ true
      → All (λ r. all (λ u. any (λ a. execute_grant_admits a r) (executes_of u)) (t ∷ ts) ≡ true) rs
  unfolding intersect_envelopes
  executes_allowed rs h =
      All-weaken _ _ rs
        (λ r covered.
          every_tier t ts plain execute_grant_key is_plain_execute (λ a. execute_grant_admits a r)
            executes_of (execute_grant_admits-respects r) (λ u k. ground arith)
            (any-intersect_execute_grants (λ a. execute_grant_admits a r) (t ∷ ts) covered))
        (uncovered-none execute_grant_outside execute_grant_admits _ 0 rs h)

limits_allowed :
    (t : TierConstraint) (ts : List TierConstraint) (required : RequiredCapabilities)
    → is_empty (collect_required_budget_envelope_violations required (resolved t ts)) ≡ true
    → (key : BudgetField) → IsWithinLimits (t ∷ ts) key (limit required.budget key)
unfolding collect_required_budget_envelope_violations
limits_allowed t ts required h key =
    let check = budget_violation required.budget (resolved t ts).budget in
    let (usd, h₁) = is_empty-append (check max_usd) _ h in
    let (tokens, h₂) = is_empty-append (check max_tokens) _ h₁ in
    let (timeout, loops) = is_empty-append (check timeout_ms) _ h₂ in
    elim key as (λ key. IsWithinLimits (t ∷ ts) key (limit required.budget key)) [
      | max_usd ↦ budget_violation-none t ts required max_usd usd
      | max_tokens ↦ budget_violation-none t ts required max_tokens tokens
      | timeout_ms ↦ budget_violation-none t ts required timeout_ms timeout
      | max_repair_loops ↦ budget_violation-none t ts required max_repair_loops loops
    ]

-- Where a task's required capabilities have no violation under the envelope that the tiers resolve to,
-- every tier has a scope that covers each required scope, a permission for each required tool or for
-- all tools at a level that covers the required one, and each required execute grant, and every
-- required amount is within the finite limits of the tiers; and the first tier has a permission that
-- covers each required one in its risk too. Of the other tiers' risks nothing is said, since the code
-- does not compare them. The texts of the tiers' grants are assumed to have no zero character.
pub collect_envelope_violations-IsAllowedByAll :
    (t : TierConstraint) (ts : List TierConstraint)
    → all is_plain (t ∷ ts) ≡ true
    → (required : RequiredCapabilities)
    → is_empty (collect_envelope_violations required (resolved t ts)) ≡ true
    → IsAllowedByAll (t ∷ ts) required × IsCoveredByFirst t required
unfolding collect_envelope_violations
collect_envelope_violations-IsAllowedByAll t ts plain required h =
    let (scopes, h₁) =
      is_empty-append
        (uncovered repo_scope_outside repo_scope_covers_required_scope _ 0 required.repo_scopes) _
        h in
    let (tools, h₂) =
      is_empty-append
        (uncovered tool_permission_outside tool_permission_covers_required_permission _ 0
          required.tool_permissions)
        _ h₁ in
    let (executes, limits) =
      is_empty-append
        (uncovered execute_grant_outside execute_grant_admits _ 0
          (or_else required.execute_grants []))
        _ h₂ in
    (
      (
        scopes_allowed t ts plain required.repo_scopes scopes,
        tools_allowed t ts plain required.tool_permissions tools,
        executes_allowed t ts plain (or_else required.execute_grants []) executes,
        limits_allowed t ts required limits,
      ),
      tools_covered t ts plain required.tool_permissions tools,
    )
