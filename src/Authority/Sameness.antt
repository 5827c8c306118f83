-- ===== src/Authority/Sameness.antt =====
-- sameEnvelopeForPrecedence of packages/authority/src/precedence/intersect.ts: a tier asks for just
-- what the resolved envelope grants.
use Prim.Native.Nat.{Ordering}
use Prim.Native.String
use protostar.Base.{
  String, Bool, true, false, not, ◌&&◌, List, [], ◌∷◌, map, Option, none, some, or_else, ◌==◌, all,
  if◌then◌else◌,
}
use protostar.Base.Number.{Number, le_num}
use protostar.Authority.Envelope.{
  max_usd, max_tokens, timeout_ms, max_repair_loops, limit, NetworkAllow, deny, loopback, allowlist,
  Network, CapabilityEnvelope, TierConstraint,
}
use protostar.Authority.Tiers.{
  repo_scope_key, tool_permission_key, execute_grant_key, tools_of, executes_of, is_dirty_allowed,
  no_network, hosts_of, budget_of,
}

-- A list in order. Any order of texts will do: sorted lists are only compared with one another.
insert : String → List String → List String
insert k [] = k ∷ []
insert k (j ∷ js) = elim (String.compare k j) [ Ordering.gt ↦ j ∷ insert k js | _ ↦ k ∷ j ∷ js ]

sort : List String → List String
unfolding insert
sort [] = []
sort (k ∷ ks) = insert k (sort ks)

abbrev same_list : List String → List String → Bool
same_list [] [] = true
same_list (x ∷ xs) (y ∷ ys) = x == y && same_list xs ys
same_list _ _ = false

unfoldable pub same_string_set : List String → List String → Bool
unfolding sort
same_string_set left right = same_list (sort left) (sort right)

abbrev same_number : Option Number → Option Number → Bool
same_number none none = true
same_number (some a) (some b) = le_num a b && le_num b a
same_number _ _ = false

abbrev same_allow : NetworkAllow → NetworkAllow → Bool
same_allow deny deny = true
same_allow loopback loopback = true
same_allow allowlist allowlist = true
same_allow _ _ = false

abbrev same_bool : Bool → Bool → Bool
same_bool a b = if a then b else not b

unfoldable pub same_network : Option Network → Option Network → Bool
unfolding same_string_set
same_network left right =
    let l = or_else left no_network in
    let r = or_else right no_network in
    same_allow l.allow r.allow && same_string_set (hosts_of l) (hosts_of r)

unfoldable pub same_envelope_for_precedence : TierConstraint → CapabilityEnvelope → Bool
unfolding same_string_set same_network
same_envelope_for_precedence t right =
    let left = t.envelope in
    let same_keys = same_string_set in
    same_keys (map repo_scope_key (or_else left.repo_scopes []))
      (map repo_scope_key right.repo_scopes)
    && same_keys (map tool_permission_key (tools_of t))
        (map tool_permission_key right.tool_permissions)
    && same_keys (map execute_grant_key (executes_of t))
        (map execute_grant_key (or_else right.execute_grants []))
    && same_bool (is_dirty_allowed left.allow_dirty) (is_dirty_allowed right.allow_dirty)
    && same_network left.network right.network
    && all (λ f. same_number (limit (budget_of t) f) (limit right.budget f))
        (max_usd ∷ max_tokens ∷ timeout_ms ∷ max_repair_loops ∷ [])
