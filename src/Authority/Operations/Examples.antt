-- ===== src/Authority/Operations/Examples.antt =====
-- The theorems on authorized operations at two tiers, with the operations that they allow.
use protostar.Base.{
  ◌≡◌, refl, String, true, false, ◌&&◌, ◌||◌, List, [], ◌∷◌, Option, none, some, all, any, ◌==◌,
}
use protostar.Base.Number.{Number, fin, pos, le_num, is_finite}
use protostar.Authority.Envelope.{
  write, max_usd, no_budget, allowlist, policy, repo_policy, TierName, TierConstraint, trusted,
}
use protostar.Authority.Tiers.{
  repo_scopes_for_tier, executes_of, tools_of, repo_scope_key, execute_grant_key,
  tool_permission_key,
}
use protostar.Authority.Precedence.{intersect_envelopes}
use protostar.Authority.Precedence.Limits.{IsLimitOfSome}
use protostar.Authority.Operations.{
  scope_grants, grant_executes, grants_network, WorkspaceRef, is_read, is_trusted, WorkspaceOp,
  authorize_workspace_op, SubprocessOp, has_shell_metacharacters, authorize_subprocess_op, BudgetOp,
  authorize_budget_op, Url, NetworkOp, authorize_network_op,
}
use protostar.Authority.Operations.Keys.{has_no_zero}
use protostar.Authority.Operations.Least.{
  resolved, is_plain, is_authorized, authorize_workspace_op-least, authorize_subprocess_op-least,
}
use protostar.Authority.Operations.Limits.{
  IsCallable, authorize_budget_op-within, authorize_network_op-IsCallable,
}

abbrev tier_of : TierName → Number → List String → TierConstraint
tier_of name usd hosts = record {
  tier = name;
  envelope = record {
    repo_scopes = some (record { workspace = "main"; path = "src"; access = write } ∷ []);
    tool_permissions = some (
        record { tool = "network"; permission_level = some "use"; reason = ""; risk = "low" } ∷ []);
    execute_grants = some (record { command = "pnpm"; scope = "."; reason = none } ∷ []);
    allow_dirty = none;
    network = some (record { allow = allowlist; allowed_hosts = some hosts });
    budget = some (record no_budget { max_usd = some usd });
    allowed_scopes = none;
    budget_caps = none;
    denied_tools = none;
    trust_override = none;
  };
  source = "a file";
}

abbrev first : TierConstraint
first = tier_of policy (fin (pos 9)) ("api.example" ∷ "b.example" ∷ [])

abbrev others : List TierConstraint
others = tier_of repo_policy (fin (pos 7)) ("api.example" ∷ []) ∷ []

first_and_others_plain : all is_plain (first ∷ others) ≡ true
unfolding has_no_zero repo_scopes_for_tier
first_and_others_plain = refl

abbrev checkout : WorkspaceRef
checkout = record { root = "/w"; default_branch = none; trust = trusted }

abbrev write_op : WorkspaceOp
write_op = record {
  workspace = checkout;
  path = "src/a.ts";
  access = write;
  resolved_envelope = resolved first others;
}

write_op_authorized : is_authorized (authorize_workspace_op write_op) ≡ true
unfolding authorize_workspace_op intersect_envelopes repo_scopes_for_tier repo_scope_key
write_op_authorized = refl

authorize_workspace_op-least_example :
    (all
        (λ u. any (scope_grants checkout "src/a.ts" write) (repo_scopes_for_tier u))
        (first ∷ others)
      ≡ true)
    × (is_read write || is_trusted trusted ≡ true)
authorize_workspace_op-least_example =
    authorize_workspace_op-least first others first_and_others_plain checkout "src/a.ts" write
      write_op_authorized

abbrev install_op : SubprocessOp
install_op = record {
  command = "pnpm";
  args = "install" ∷ [];
  cwd = "/w";
  resolved_envelope = resolved first others;
}

install_op_authorized : is_authorized (authorize_subprocess_op install_op) ≡ true
unfolding authorize_subprocess_op intersect_envelopes execute_grant_key
install_op_authorized = refl

authorize_subprocess_op-least_example :
    (all (λ u. any (grant_executes "pnpm" "/w") (executes_of u)) (first ∷ others) ≡ true)
    × (has_shell_metacharacters "pnpm" ≡ false)
authorize_subprocess_op-least_example =
    authorize_subprocess_op-least first others first_and_others_plain "pnpm" ("install" ∷ []) "/w"
      install_op_authorized

abbrev spend_op : BudgetOp
spend_op = record {
  boundary = "network";
  budget_key = max_usd;
  amount = fin (pos 5);
  resolved_envelope = resolved first others;
}

spend_op_authorized : is_authorized (authorize_budget_op spend_op) ≡ true
unfolding authorize_budget_op intersect_envelopes
spend_op_authorized = refl

authorize_budget_op-within_example :
    (is_finite (fin (pos 5)) && le_num (fin (pos 0)) (fin (pos 5)) ≡ true)
    × ((v : Number) × IsLimitOfSome max_usd (first ∷ others) v)
    × ((v : Number) → IsLimitOfSome max_usd (first ∷ others) v → le_num (fin (pos 5)) v ≡ true)
authorize_budget_op-within_example =
    authorize_budget_op-within first others "network" max_usd (fin (pos 5)) spend_op_authorized

abbrev parse_example : String → Option Url
parse_example text = elim (text == "https://api.example/") [
  | true ↦ some (record { protocol = "https:"; hostname = "api.example" })
  | false ↦ none
]

abbrev fetch_op : NetworkOp
fetch_op = record {
  method = "GET";
  url = "https://api.example/";
  resolved_envelope = resolved first others;
}

fetch_op_authorized : is_authorized (authorize_network_op parse_example fetch_op) ≡ true
unfolding authorize_network_op intersect_envelopes tool_permission_key
fetch_op_authorized = refl

authorize_network_op-IsCallable_example :
    ((parsed : Url) × (parse_example "https://api.example/" ≡ some parsed)
      × IsCallable (first ∷ others) parsed)
    × (all (λ u. any grants_network (tools_of u)) (first ∷ others) ≡ true)
authorize_network_op-IsCallable_example =
    authorize_network_op-IsCallable first others first_and_others_plain parse_example "GET"
      "https://api.example/" fetch_op_authorized
