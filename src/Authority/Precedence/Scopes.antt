-- ===== src/Authority/Precedence/Scopes.antt =====
-- Least privilege: what the resolved envelope grants, every tier grants.
use protostar.Base.{
  ◌≡◌, refl, sym, ap, ◌∙◌, String, Bool, true, false, not, ◌&&◌, List, [], ◌∷◌, map, arith, ◌==◌,
  eq_iff, has, any, all, filter, is_empty, Bool-cases, inl, inr, or_else, is_some,
}
use protostar.Authority.Envelope.{ToolPermissionGrant, TierConstraint}
use protostar.Authority.Precedence.{
  intersect_execute_grants, listed, intersect_by_key, subtract_denied_tools, denied_tools,
  intersect_envelopes,
}
use protostar.Authority.Tiers.{
  repo_scope_key, tool_permission_key, execute_grant_key, executes_of, repo_scopes_for_tier,
  tools_of,
}

module _ {A : Type 0} (key_of : A → String) where
  all_ext_key :
      (rest : List (List A)) (j k : String)
      → (j == k) ≡ true
      → all (λ list. listed key_of list j) rest ≡ all (λ list. listed key_of list k) rest
  all_ext_key rest j k e = ap (λ i. all (λ list. listed key_of list i) rest) ((eq_iff j k).0 e)

  listed-filter :
      (rest : List (List A)) (xs : List A) (k : String)
      → listed key_of (filter (λ x. all (λ list. listed key_of list (key_of x)) rest) xs) k
        ≡ (listed key_of xs k && all (λ list. listed key_of list k) rest)
  listed-filter rest [] k = refl
  listed-filter rest (x ∷ xs) k =
      ground (arith, listed-filter rest xs k, all_ext_key rest (key_of x) k)

  -- A key is in the intersection exactly when it is in every list.
  intersect_by_key-listed :
      (first : List A) (rest : List (List A)) (k : String)
      → listed key_of (intersect_by_key key_of (first ∷ rest)) k
        ≡ all (λ list. listed key_of list k) (first ∷ rest)
  unfolding intersect_by_key
  intersect_by_key-listed first rest k = listed-filter rest first k

all-map :
    {A : Type 0} (key_of : A → String) (f : TierConstraint → List A) (ts : List TierConstraint)
    (k : String)
    → all (λ list. listed key_of list k) (map f ts) ≡ all (λ t. listed key_of (f t) k) ts
all-map key_of f [] k = refl
all-map key_of f (t ∷ ts) k = rw (all-map key_of f ts k)

-- With at least one tier, a repo scope (workspace, path and access, as the code's key joins them)
-- is granted exactly when every tier lists it.
pub intersect_envelopes-repo_scopes :
    (t : TierConstraint) (ts : List TierConstraint) (k : String)
    → listed repo_scope_key (intersect_envelopes (t ∷ ts)).resolved_envelope.repo_scopes k
      ≡ all (λ t. listed repo_scope_key (repo_scopes_for_tier t) k) (t ∷ ts)
unfolding intersect_envelopes
intersect_envelopes-repo_scopes t ts k =
    intersect_by_key-listed repo_scope_key (repo_scopes_for_tier t) (map repo_scopes_for_tier ts) k
    ∙ all-map repo_scope_key repo_scopes_for_tier (t ∷ ts) k

no_execute_grants :
    (ts : List TierConstraint) (k : String)
    → all (λ t. not (is_some t.envelope.execute_grants)) ts ≡ true
    → is_empty ts ≡ false
    → all (λ t. listed execute_grant_key (executes_of t) k) ts ≡ false
no_execute_grants [] k h e = cc
no_execute_grants (t ∷ ts) k h e = ground arith

intersect_execute_grants-listed :
    (tiers : List TierConstraint) (k : String)
    → is_empty tiers ≡ false
    → listed execute_grant_key (intersect_by_key execute_grant_key (map executes_of tiers)) k
      ≡ all (λ t. listed execute_grant_key (executes_of t) k) tiers
    → listed execute_grant_key (or_else (intersect_execute_grants tiers) []) k
      ≡ all (λ t. listed execute_grant_key (executes_of t) k) tiers
unfolding intersect_execute_grants
intersect_execute_grants-listed tiers k some_tier e =
    elim (Bool-cases (all (λ t. not (is_some t.envelope.execute_grants)) tiers)) [
      | inl unset ↦
          rw (unset, intersect_execute_grants) (sym (no_execute_grants tiers k unset some_tier))
      | inr set ↦ rw (set, intersect_execute_grants) e
    ]

-- With at least one tier, an execute grant (command and scope, as the code's key joins them) is
-- given exactly when every tier lists it; a tier without execute grants lists none.
pub intersect_envelopes-execute_grants :
    (t : TierConstraint) (ts : List TierConstraint) (k : String)
    → listed execute_grant_key
        (or_else (intersect_envelopes (t ∷ ts)).resolved_envelope.execute_grants [])
        k
      ≡ all (λ t. listed execute_grant_key (executes_of t) k) (t ∷ ts)
unfolding intersect_envelopes
intersect_envelopes-execute_grants t ts k = intersect_execute_grants-listed (t ∷ ts) k refl (
    intersect_by_key-listed execute_grant_key (executes_of t) (map executes_of ts) k
    ∙ all-map execute_grant_key executes_of (t ∷ ts) k)

-- Some grant is of the tool.
abbrev pub has_tool : List ToolPermissionGrant → String → Bool
has_tool gs tool = any (λ g. g.tool == tool) gs

has_tool-filter :
    (denied : List String) (gs : List ToolPermissionGrant) (tool : String)
    → has denied tool ≡ true
    → has_tool (filter (λ g. not (has denied g.tool)) gs) tool ≡ false
has_tool-filter denied [] tool h = refl
has_tool-filter denied (g ∷ gs) tool h =
    ground (arith, has_tool-filter denied gs tool h, eq_iff g.tool tool)

has-is_empty : (xs : List String) (x : String) → is_empty xs ≡ true → has xs x ≡ false
has-is_empty [] x h = refl
has-is_empty (y ∷ ys) x h = cc

listed-filter-sub :
    {A : Type 0} (key_of : A → String) (p : A → Bool) (xs : List A) (k : String)
    → listed key_of (filter p xs) k ≡ true
    → listed key_of xs k ≡ true
listed-filter-sub key_of p [] k h = h
listed-filter-sub key_of p (x ∷ xs) k h = ground (arith, listed-filter-sub key_of p xs k)

subtract_denied_tools_sound :
    (tiers : List TierConstraint) (gs : List ToolPermissionGrant) (k tool : String) {b : Bool}
    → listed tool_permission_key gs k ≡ b
    → let granted = subtract_denied_tools gs tiers in
      (listed tool_permission_key granted k ≡ true → b ≡ true)
      × (has (denied_tools tiers) tool ≡ true → has_tool granted tool ≡ false)
unfolding subtract_denied_tools
subtract_denied_tools_sound tiers gs k tool e = elim (Bool-cases (is_empty (denied_tools tiers))) [
  | inl none_denied ↦
      rw (none_denied, subtract_denied_tools)
        (λ h. sym e ∙ h, λ h. cc (has-is_empty (denied_tools tiers) tool none_denied))
  | inr some_denied ↦
      rw (some_denied, subtract_denied_tools)
        (
          λ h. sym e ∙ listed-filter-sub tool_permission_key _ gs k h,
          has_tool-filter (denied_tools tiers) gs tool,
        )
]

-- With at least one tier, every tool permission that is granted (tool and level, as the code's key
-- joins them) is listed by every tier, and no tool that a tier denies is granted at any level.
pub intersect_envelopes-tool_permissions :
    (t : TierConstraint) (ts : List TierConstraint) (k tool : String)
    → let granted = (intersect_envelopes (t ∷ ts)).resolved_envelope.tool_permissions in
      (listed tool_permission_key granted k ≡ true
        → all (λ t. listed tool_permission_key (tools_of t) k) (t ∷ ts) ≡ true)
      × (has (denied_tools (t ∷ ts)) tool ≡ true → has_tool granted tool ≡ false)
unfolding intersect_envelopes
intersect_envelopes-tool_permissions t ts k tool = subtract_denied_tools_sound (t ∷ ts) _ k tool (
    intersect_by_key-listed tool_permission_key (tools_of t) (map tools_of ts) k
    ∙ all-map tool_permission_key tools_of (t ∷ ts) k)
