-- ===== src/Authority/Examples.antt =====
-- A policy and a repository policy that are intersected.
use protostar.Base.{◌≡◌, String, true, false, List, [], ◌∷◌, none, some, all, has, or_else}
use protostar.Base.Number.{fin, pos}
use protostar.Authority.Envelope.{
  read, RepoScopeGrant, ToolPermissionGrant, max_usd, limit, no_budget, allowlist, Network, policy,
  repo_policy, TierConstraint,
}
use protostar.Authority.Precedence.{listed, denied_tools, intersect_envelopes}
use protostar.Authority.Tiers.{
  tool_permission_key, execute_grant_key, executes_of, repo_scopes_for_tier, tools_of,
}
use protostar.Authority.Precedence.Scopes.{
  intersect_envelopes-tool_permissions, intersect_envelopes-execute_grants, has_tool,
}
use protostar.Authority.Precedence.Limits.{IsLeastLimit, intersect_envelopes-IsLeastLimit}
use protostar.Authority.Precedence.Statuses.{is_blocked, intersect_envelopes-blocked}

abbrev scope : String → RepoScopeGrant
scope path = record { workspace = "main"; path = path; access = read }

abbrev tool : String → ToolPermissionGrant
tool name = record { tool = name; permission_level = some "use"; reason = ""; risk = "low" }

abbrev of_hosts : List String → Network
of_hosts hosts = record { allow = allowlist; allowed_hosts = some hosts }

abbrev tier_policy : TierConstraint
tier_policy = record {
  tier = policy;
  envelope = record {
    repo_scopes = some (scope "src" ∷ scope "docs" ∷ []);
    tool_permissions = some (tool "node" ∷ tool "network" ∷ []);
    execute_grants = none;
    allow_dirty = some false;
    network = some (of_hosts ("a.example" ∷ "b.example" ∷ []));
    budget = some (record no_budget { max_usd = some (fin (pos 8)) });
    allowed_scopes = none;
    budget_caps = none;
    denied_tools = none;
    trust_override = none;
  };
  source = "policy.json";
}

abbrev tier_repo : TierConstraint
tier_repo = record {
  tier = repo_policy;
  envelope = record {
    repo_scopes = some (scope "src" ∷ []);
    tool_permissions = some (tool "node" ∷ tool "network" ∷ []);
    execute_grants = none;
    allow_dirty = some true;
    network = some (of_hosts ("b.example" ∷ []));
    budget = none;
    allowed_scopes = none;
    budget_caps = some (record no_budget { max_usd = some (fin (pos 5)) });
    denied_tools = some ("network" ∷ []);
    trust_override = none;
  };
  source = "repo-policy.json";
}

intersect_envelopes-execute_grants_example :
    listed execute_grant_key
      (or_else
        (intersect_envelopes (tier_policy ∷ tier_repo ∷ [])).resolved_envelope.execute_grants
        [])
      "k"
    ≡ all (λ t. listed execute_grant_key (executes_of t) "k") (tier_policy ∷ tier_repo ∷ [])
intersect_envelopes-execute_grants_example =
    intersect_envelopes-execute_grants tier_policy (tier_repo ∷ []) "k"

intersect_envelopes-tool_permissions_example :
    let granted =
      (intersect_envelopes (tier_policy ∷ tier_repo ∷ [])).resolved_envelope.tool_permissions in
    (listed tool_permission_key granted (tool_permission_key (tool "node")) ≡ true
      → all
          (λ t. listed tool_permission_key (tools_of t) (tool_permission_key (tool "node")))
          (tier_policy ∷ tier_repo ∷ [])
        ≡ true)
    × (has (denied_tools (tier_policy ∷ tier_repo ∷ [])) "network" ≡ true
        → has_tool granted "network" ≡ false)
intersect_envelopes-tool_permissions_example =
    intersect_envelopes-tool_permissions tier_policy (tier_repo ∷ [])
      (tool_permission_key (tool "node")) "network"

intersect_envelopes-IsLeastLimit_example :
    IsLeastLimit max_usd
      (tier_policy ∷ tier_repo ∷ [])
      (limit (intersect_envelopes (tier_policy ∷ tier_repo ∷ [])).resolved_envelope.budget max_usd)
intersect_envelopes-IsLeastLimit_example =
    intersect_envelopes-IsLeastLimit tier_policy (tier_repo ∷ []) max_usd

intersect_envelopes-blocked_example :
    is_blocked (intersect_envelopes (tier_policy ∷ tier_repo ∷ [])).status ≡ true
unfolding repo_scopes_for_tier
intersect_envelopes-blocked_example = intersect_envelopes-blocked tier_policy (tier_repo ∷ [])
