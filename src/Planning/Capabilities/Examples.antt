-- ===== src/Planning/Capabilities/Examples.antt =====
-- Tests of the envelope checks, and their theorem at two tiers.
use protostar.Base.{◌≡◌, refl, String, true, false, List, [], ◌∷◌, none, some, all, is_empty}
use protostar.Base.Number.{Number, fin, pos}
use protostar.Authority.Envelope.{
  Access, read, write, RepoScopeGrant, no_budget, policy, repo_policy, TierName, TierConstraint,
  max_usd,
}
use protostar.Authority.Tiers.{
  repo_scopes_for_tier, repo_scope_key, tool_permission_key, execute_grant_key,
}
use protostar.Authority.Precedence.{intersect_envelopes}
use protostar.Authority.Operations.Keys.{has_no_zero}
use protostar.Authority.Operations.Least.{is_plain, resolved}
use protostar.Planning.Types.{RequiredCapabilities}
use protostar.Planning.Capabilities.{
  repo_scope_path_covers, budget_outside, risk_level_covers, tool_permission_level_covers,
  collect_envelope_violations,
}
use protostar.Planning.Capabilities.Tiers.{
  IsAllowedByAll, IsCoveredByFirst, collect_envelope_violations-IsAllowedByAll,
}

-- The comparison of paths is one of texts.
same_folder : repo_scope_path_covers "./src/" "src\\a.ts" ≡ true
unfolding repo_scope_path_covers
same_folder = refl

longer_name : repo_scope_path_covers "src" "srcs/a.ts" ≡ false
unfolding repo_scope_path_covers
longer_name = refl

parent_folder : repo_scope_path_covers "src" "src/../secrets" ≡ true
unfolding repo_scope_path_covers
parent_folder = refl

abbrev scope : String → Access → RepoScopeGrant
scope path access = record { workspace = "main"; path = path; access = access }

abbrev tier_of : TierName → Number → TierConstraint
tier_of name usd = record {
  tier = name;
  envelope = record {
    repo_scopes = some (scope "src" write ∷ []);
    tool_permissions = some (
        record { tool = "node"; permission_level = some "use"; reason = ""; risk = "medium" } ∷ []);
    execute_grants = some (record { command = "pnpm"; scope = "."; reason = none } ∷ []);
    allow_dirty = none;
    network = none;
    budget = some (record no_budget { max_usd = some usd });
    allowed_scopes = none;
    budget_caps = none;
    denied_tools = none;
    trust_override = none;
  };
  source = "a file";
}

abbrev first : TierConstraint
first = tier_of policy (fin (pos 9))

abbrev others : List TierConstraint
others = tier_of repo_policy (fin (pos 7)) ∷ []

abbrev spending : Number → RequiredCapabilities
spending usd = record {
  repo_scopes = scope "src/a.ts" read ∷ [];
  tool_permissions =
      record { tool = "node"; permission_level = none; reason = ""; risk = "low" } ∷ [];
  execute_grants = some (record { command = "pnpm"; scope = "."; reason = none } ∷ []);
  allow_dirty = none;
  network = none;
  budget = record no_budget { max_usd = some usd };
}

first_and_others_plain : all is_plain (first ∷ others) ≡ true
unfolding has_no_zero repo_scopes_for_tier
first_and_others_plain = refl

spending_too_much :
    collect_envelope_violations (spending (fin (pos 8))) (resolved first others)
    ≡ budget_outside max_usd ∷ []
unfolding collect_envelope_violations intersect_envelopes repo_scopes_for_tier repo_scope_key
    tool_permission_key execute_grant_key repo_scope_path_covers risk_level_covers
    tool_permission_level_covers
spending_too_much = refl

spending_allowed :
    is_empty (collect_envelope_violations (spending (fin (pos 5))) (resolved first others)) ≡ true
unfolding collect_envelope_violations intersect_envelopes repo_scopes_for_tier repo_scope_key
    tool_permission_key execute_grant_key repo_scope_path_covers risk_level_covers
    tool_permission_level_covers
spending_allowed = refl

collect_envelope_violations-IsAllowedByAll_example :
    IsAllowedByAll (first ∷ others) (spending (fin (pos 5)))
    × IsCoveredByFirst first (spending (fin (pos 5)))
collect_envelope_violations-IsAllowedByAll_example =
    collect_envelope_violations-IsAllowedByAll first others first_and_others_plain
      (spending (fin (pos 5))) spending_allowed
