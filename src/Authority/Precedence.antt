-- ===== src/Authority/Precedence.antt =====
-- intersectEnvelopes of packages/authority/src/precedence/intersect.ts. The texts of a denial are
-- its constructor; the copies that the code makes are the values themselves.
pub mod Scopes
pub mod Limits
pub mod Networks
pub mod Statuses
use Prim.Native.Nat.{Ordering}
use Prim.Native.String
use protostar.Base.{
  ℕ, String, Bool, true, false, not, ◌&&◌, ◌||◌, List, [], ◌∷◌, ◌++◌, map, flat_map, Option, none,
  some, or_else, is_some, ◌==◌, has, any, all, filter, is_empty, if◌then◌else◌,
}
use protostar.Base.Number.{Number, nan, neg_inf, pos_inf, fin, le_num, is_finite, min_num}
use protostar.Authority.Envelope.{
  Access, read, write, execute, RepoScopeGrant, ToolPermissionGrant, ExecuteGrant, FactoryBudget,
  BudgetField, max_usd, max_tokens, timeout_ms, max_repair_loops, limit, no_budget, NetworkAllow,
  deny, loopback, allowlist, Network, CapabilityEnvelope, TierName, TrustOverride, trusted,
  untrusted, TierEnvelope, TierConstraint,
}
use protostar.Authority.Tiers.{
  access_text, joined, repo_scope_key, tool_permission_key, execute_grant_key, repo_scopes_for_tier,
  tools_of, executes_of, is_dirty_allowed, no_network, network_of, hosts_of, is_deny, is_loopback,
  budget_of,
}
use protostar.Authority.Sameness.{same_string_set, same_network, same_envelope_for_precedence}

pub data Axis : Type 0 where
  repo_scopes tool_permissions execute_grants : Axis

-- `PrecedenceDecisionDeniedAxis`: the tier, what it denies, and the source that its text shows.
pub data Denial : Type 0 where
  empty_axis : TierName → Axis → (source : String) → Denial
  denied_tool : TierName → (tool source : String) → Denial
  untrusted_workspace : TierName → (source : String) → Denial

pub data Status : Type 0 where
  no_conflict resolved blocked_by_tier : Status

pub record PrecedenceDecision : Type 0 where
  pub status : Status
  pub resolved_envelope : CapabilityEnvelope
  pub tiers : List TierConstraint
  pub blocked_by : List Denial

-- Some entry of the list has the key.
abbrev pub listed : {A : Type 0} → (A → String) → List A → String → Bool
listed key_of xs k = any (λ x. key_of x == k) xs

unfoldable pub intersect_by_key : {A : Type 0} → (A → String) → List (List A) → List A
intersect_by_key key_of [] = []
intersect_by_key key_of (first ∷ rest) =
    filter (λ item. all (λ list. listed key_of list (key_of item)) rest) first

unfoldable pub intersect_execute_grants : List TierConstraint → Option (List ExecuteGrant)
unfolding intersect_by_key
intersect_execute_grants tiers =
    if all (λ t. not (is_some t.envelope.execute_grants)) tiers
    then none
    else some (intersect_by_key execute_grant_key (map executes_of tiers))

-- `firstHosts.filter((host) => restHosts.every((hosts) => hosts.includes(host)))`.
abbrev pub common_hosts : List Network → List String
common_hosts [] = []
common_hosts (first ∷ rest) = filter (λ h. all (λ n. has (hosts_of n) h) rest) (hosts_of first)

unfoldable pub intersect_network : List TierConstraint → Network
intersect_network tiers =
    let networks = map network_of tiers in
    if any (λ n. is_deny n.allow) networks
    then no_network
    else if any (λ n. is_loopback n.allow) networks
    then record { allow = loopback; allowed_hosts = none }
    else if is_empty (common_hosts networks)
    then no_network
    else record { allow = allowlist; allowed_hosts = some (common_hosts networks) }

abbrev finite : Option Number → List Number
finite none = []
finite (some v) = if is_finite v then v ∷ [] else []

-- The finite limits that the tiers set for a field.
abbrev pub limits : BudgetField → List TierConstraint → List Number
limits field [] = []
limits field (t ∷ ts) = finite (limit (budget_of t) field) ++ limits field ts

abbrev foldl_min : Number → List Number → Number
foldl_min a [] = a
foldl_min a (v ∷ vs) = foldl_min (min_num a v) vs

-- `Math.min(...values)`, or nothing where there are none.
abbrev pub least : List Number → Option Number
least [] = none
least (v ∷ vs) = some (foldl_min v vs)

unfoldable pub intersect_budgets : List TierConstraint → FactoryBudget
intersect_budgets tiers = record {
  max_usd = least (limits max_usd tiers);
  max_tokens = least (limits max_tokens tiers);
  timeout_ms = least (limits timeout_ms tiers);
  max_repair_loops = least (limits max_repair_loops tiers);
}

abbrev pub denied_tools : List TierConstraint → List String
denied_tools tiers = flat_map (λ t. or_else t.envelope.denied_tools []) tiers

unfoldable pub subtract_denied_tools :
    List ToolPermissionGrant → List TierConstraint → List ToolPermissionGrant
subtract_denied_tools grants tiers =
    if is_empty (denied_tools tiers)
    then grants
    else filter (λ g. not (has (denied_tools tiers) g.tool)) grants

abbrev pub is_axis_empty : Axis → TierConstraint → Bool
is_axis_empty repo_scopes t = is_empty (repo_scopes_for_tier t)
is_axis_empty tool_permissions t = is_empty (tools_of t)
is_axis_empty execute_grants t = is_empty (executes_of t)

unfoldable pub collect_empty_axis_denials : List TierConstraint → Axis → List Denial
collect_empty_axis_denials tiers axis =
    if any (λ t. not (is_axis_empty axis t)) tiers
    then flat_map (λ t. if is_axis_empty axis t then empty_axis t.tier axis t.source ∷ [] else [])
        tiers
    else []

unfoldable pub collect_denied_tool_entries : List TierConstraint → List Denial
collect_denied_tool_entries tiers =
    flat_map
      (λ t. map (λ tool. denied_tool t.tier tool t.source) (or_else t.envelope.denied_tools []))
      tiers

abbrev pub untrusted_entry : TierConstraint → Option TrustOverride → List Denial
untrusted_entry t (some untrusted) = untrusted_workspace t.tier t.source ∷ []
untrusted_entry t _ = []

unfoldable pub collect_untrusted_entries : List TierConstraint → List Denial
collect_untrusted_entries tiers = flat_map (λ t. untrusted_entry t t.envelope.trust_override) tiers

abbrev pub open_envelope : CapabilityEnvelope
open_envelope = record {
  repo_scopes = [];
  tool_permissions = [];
  execute_grants = none;
  allow_dirty = some false;
  network = some no_network;
  budget = no_budget;
}

unfoldable pub blocked_by_of : List TierConstraint → List Denial
unfolding collect_empty_axis_denials collect_denied_tool_entries collect_untrusted_entries
blocked_by_of tiers =
    collect_empty_axis_denials tiers repo_scopes
    ++ (collect_empty_axis_denials tiers tool_permissions
        ++ (collect_empty_axis_denials tiers execute_grants
            ++ (collect_denied_tool_entries tiers ++ collect_untrusted_entries tiers)))

unfoldable pub resolve : List TierConstraint → CapabilityEnvelope
unfolding intersect_by_key subtract_denied_tools intersect_execute_grants intersect_network
    intersect_budgets
resolve tiers = record {
  repo_scopes = intersect_by_key repo_scope_key (map repo_scopes_for_tier tiers);
  tool_permissions =
      subtract_denied_tools (intersect_by_key tool_permission_key (map tools_of tiers)) tiers;
  execute_grants = intersect_execute_grants tiers;
  allow_dirty =
      some (not (is_empty tiers) && all (λ t. is_dirty_allowed t.envelope.allow_dirty) tiers);
  network = some (intersect_network tiers);
  budget = intersect_budgets tiers;
}

abbrev pub status_of : List TierConstraint → List Denial → CapabilityEnvelope → Status
status_of tiers (d ∷ ds) envelope = blocked_by_tier
status_of tiers [] envelope =
    if all (λ t. same_envelope_for_precedence t envelope) tiers then no_conflict else resolved

unfoldable pub intersect_envelopes : List TierConstraint → PrecedenceDecision
unfolding blocked_by_of resolve
intersect_envelopes [] = record {
  status = no_conflict;
  resolved_envelope = open_envelope;
  tiers = [];
  blocked_by = [];
}
intersect_envelopes (t ∷ ts) =
    let tiers = t ∷ ts in
    record {
      status = status_of tiers (blocked_by_of tiers) (resolve tiers);
      resolved_envelope = resolve tiers;
      tiers = tiers;
      blocked_by = blocked_by_of tiers;
    }
