-- ===== src/Authority/Operations/Least.antt =====
-- Least privilege of operations: what is authorized under the envelope that the tiers resolve to,
-- every tier allows.
use protostar.Base.{
  ◌≡◌, refl, sym, subst, ap, ap₂, ◌∙◌, String, Bool, true, false, not, ◌&&◌, ◌||◌, List, [], ◌∷◌,
  ◌++◌, Option, none, some, or_else, map, arith, ◌==◌, has, any, all, filter, is_some, is_empty,
  if◌then◌else◌,
}
use protostar.Authority.Envelope.{
  Access, RepoScopeGrant, ToolPermissionGrant, ExecuteGrant, CapabilityEnvelope, TierConstraint,
}
use protostar.Authority.Tiers.{
  repo_scope_key, tool_permission_key, execute_grant_key, repo_scopes_for_tier, tools_of,
  executes_of,
}
use protostar.Authority.Precedence.{
  intersect_by_key, intersect_execute_grants, subtract_denied_tools, denied_tools,
  intersect_envelopes,
}
use protostar.Authority.Operations.{
  is_within, scope_grants, grant_executes, network_allowed_levels, is_network_level, grants_network,
  has_workspace_grant, has_execute_grant, WorkspaceRef, is_read, is_trusted,
  assert_trusted_workspace_for_grant, AuthorizeResult, authorized, refused, conclude, demand,
  trust_errors, authorize_workspace_op, has_shell_metacharacters, authorize_subprocess_op,
  OperationError, no_repo_scope, no_execute_grant, shell_metacharacters,
}
use protostar.Authority.Operations.Keys.{
  is_plain_scope, is_plain_execute, is_plain_tool, repo_scope_key-injective,
  execute_grant_key-injective, tool_permission_key-injective, intersect_by_key-any,
}

abbrev pub is_authorized : {A : Type 0} → AuthorizeResult A → Bool
is_authorized (authorized op) = true
is_authorized (refused errors) = false

abbrev pub resolved : TierConstraint → List TierConstraint → CapabilityEnvelope
resolved t ts = (intersect_envelopes (t ∷ ts)).resolved_envelope

-- Scopes with the same key are the same.
pub same_scope :
    (x y : RepoScopeGrant)
    → is_plain_scope x ≡ true
    → is_plain_scope y ≡ true
    → repo_scope_key x ≡ repo_scope_key y
    → x ≡ y
same_scope x y h k e =
    let (workspaces, paths, accesses) = repo_scope_key-injective x y h k e in
    λ i. record { workspace = workspaces i; path = paths i; access = accesses i }

scope_grants-respects :
    (workspace : WorkspaceRef) (path : String) (access : Access) (x y : RepoScopeGrant)
    → is_plain_scope x ≡ true
    → is_plain_scope y ≡ true
    → repo_scope_key x ≡ repo_scope_key y
    → scope_grants workspace path access x ≡ true
    → scope_grants workspace path access y ≡ true
scope_grants-respects workspace path access x y h k e r =
    subst (λ g. scope_grants workspace path access g ≡ true) (same_scope x y h k e) r

grant_executes-respects :
    (command cwd : String) (x y : ExecuteGrant)
    → is_plain_execute x ≡ true
    → is_plain_execute y ≡ true
    → execute_grant_key x ≡ execute_grant_key y
    → grant_executes command cwd x ≡ true
    → grant_executes command cwd y ≡ true
grant_executes-respects command cwd x y h k e r =
    let (commands, scopes) = execute_grant_key-injective x y h k e in
    subst (λ c. c == command && is_within y.scope cwd ≡ true) commands
      (subst (λ s. x.command == command && is_within s cwd ≡ true) scopes r)

level_text :
    (level : Option String) → is_network_level level ≡ has network_allowed_levels (or_else level "")
level_text none = refl
level_text (some text) = refl

pub grants_network-respects :
    (x y : ToolPermissionGrant)
    → is_plain_tool x ≡ true
    → is_plain_tool y ≡ true
    → tool_permission_key x ≡ tool_permission_key y
    → grants_network x ≡ true
    → grants_network y ≡ true
grants_network-respects x y h k e r =
    let (tools, levels) = tool_permission_key-injective x y h k e in
    let same =
      ap₂ (λ tool level. tool == "network" && has network_allowed_levels level) tools levels in
    ground (arith, same, level_text x.permission_level, level_text y.permission_level)

-- The grants of the tiers have texts without a zero character, in the parts that a key joins.
abbrev pub is_plain : TierConstraint → Bool
is_plain t =
    all is_plain_scope (repo_scopes_for_tier t)
    && (all is_plain_execute (executes_of t) && all is_plain_tool (tools_of t))

all-map :
    {A : Type 0} (p : List A → Bool) (f : TierConstraint → List A) (ts : List TierConstraint)
    → all p (map f ts) ≡ all (λ t. p (f t)) ts
all-map p f [] = refl
all-map p f (t ∷ ts) = ap (λ b. p (f t) && b) (all-map p f ts)

all_weaken :
    (p q : TierConstraint → Bool) (ts : List TierConstraint)
    → ((t : TierConstraint) → p t ≡ true → q t ≡ true)
    → all p ts ≡ true
    → all q ts ≡ true
all_weaken p q [] f h = refl
all_weaken p q (t ∷ ts) f h = ground (arith, f t, all_weaken p q ts f)

pub conclude-errors :
    {A : Type 0} (op : A) (es : List OperationError) → is_authorized (conclude op es) ≡ is_empty es
conclude-errors op [] = refl
conclude-errors op (e ∷ es) = refl

pub is_empty-append :
    (es fs : List OperationError)
    → is_empty (es ++ fs) ≡ true
    → (is_empty es ≡ true) × (is_empty fs ≡ true)
is_empty-append [] fs h = (refl, h)
is_empty-append (e ∷ es) fs h = cc

pub is_empty-demand : (b : Bool) (e : OperationError) → is_empty (demand b e) ≡ b
is_empty-demand true e = refl
is_empty-demand false e = refl

assert_trusted-checked :
    (workspace : WorkspaceRef) (access : Access)
    → is_empty (trust_errors (assert_trusted_workspace_for_grant workspace access none)) ≡ true
    → is_read access || is_trusted workspace.trust ≡ true
unfolding assert_trusted_workspace_for_grant
assert_trusted-checked workspace access h = ground arith

pub any-filter :
    {A : Type 0} (p q : A → Bool) (xs : List A) → any p (filter q xs) ≡ true → any p xs ≡ true
any-filter p q [] h = h
any-filter p q (x ∷ xs) h = ground (arith, any-filter p q xs)

pub any-intersect_execute_grants :
    (p : ExecuteGrant → Bool) (tiers : List TierConstraint)
    → any p (or_else (intersect_execute_grants tiers) []) ≡ true
    → any p (intersect_by_key execute_grant_key (map executes_of tiers)) ≡ true
unfolding intersect_execute_grants
any-intersect_execute_grants p tiers h =
    pick (all (λ t. not (is_some t.envelope.execute_grants)) tiers) h
  where
    pick :
        (b : Bool)
        → any p (
            or_else
              (if b
                then none
                else some (intersect_by_key execute_grant_key (map executes_of tiers)))
              [])
          ≡ true
        → any p (intersect_by_key execute_grant_key (map executes_of tiers)) ≡ true
    pick true h = cc
    pick false h = h

pub any-subtract_denied_tools :
    (p : ToolPermissionGrant → Bool) (gs : List ToolPermissionGrant) (tiers : List TierConstraint)
    → any p (subtract_denied_tools gs tiers) ≡ true
    → any p gs ≡ true
unfolding subtract_denied_tools
any-subtract_denied_tools p gs tiers h = pick (is_empty (denied_tools tiers)) h
  where
    kept : List ToolPermissionGrant
    kept = filter (λ g. not (has (denied_tools tiers) g.tool)) gs

    pick : (b : Bool) → any p (if b then gs else kept) ≡ true → any p gs ≡ true
    pick true h = h
    pick false h = any-filter p _ gs h

module _ (t : TierConstraint) (ts : List TierConstraint)
    (plain : all is_plain (t ∷ ts) ≡ true) where
  -- A test of a grant by its key, from the resolved envelope to each tier.
  pub every_tier :
      {A : Type 0} (key_of : A → String) (is_plain_grant p : A → Bool) (f : TierConstraint → List A)
      → ((x y : A)
          → is_plain_grant x ≡ true
          → is_plain_grant y ≡ true
          → key_of x ≡ key_of y
          → p x ≡ true
          → p y ≡ true)
      → ((u : TierConstraint) → is_plain u ≡ true → all is_plain_grant (f u) ≡ true)
      → any p (intersect_by_key key_of (map f (t ∷ ts))) ≡ true
      → all (λ u. any p (f u)) (t ∷ ts) ≡ true
  every_tier key_of is_plain_grant p f respects plain_grants h =
      sym (all-map (any p) f (t ∷ ts))
      ∙ intersect_by_key-any key_of is_plain_grant p respects (f t) (map f ts)
          (all-map (all is_plain_grant) f (t ∷ ts)
            ∙ all_weaken is_plain (λ u. all is_plain_grant (f u)) (t ∷ ts) plain_grants plain)
          h

  -- Where a workspace operation is authorized under the envelope that the tiers resolve to, every
  -- tier lists a scope that grants it, and the workspace is trusted unless the access is `read`. The
  -- texts of the tiers' grants are assumed to have no zero character, with which the code joins them.
  pub authorize_workspace_op-least :
      (workspace : WorkspaceRef) (path : String) (access : Access)
      → is_authorized (
          authorize_workspace_op (record {
            workspace = workspace;
            path = path;
            access = access;
            resolved_envelope = resolved t ts;
          }))
        ≡ true
      → (all (λ u. any (scope_grants workspace path access) (repo_scopes_for_tier u)) (t ∷ ts)
          ≡ true)
        × (is_read access || is_trusted workspace.trust ≡ true)
  unfolding authorize_workspace_op has_workspace_grant intersect_envelopes
  authorize_workspace_op-least workspace path access h =
      let es = trust_errors (assert_trusted_workspace_for_grant workspace access none) in
      let (trust, granted) = is_empty-append es _ (sym (conclude-errors _ (es ++ _)) ∙ h) in
      (
        every_tier repo_scope_key is_plain_scope (scope_grants workspace path access)
            repo_scopes_for_tier (scope_grants-respects workspace path access) (λ u k. ground arith)
            (sym (is_empty-demand _ no_repo_scope) ∙ granted),
        assert_trusted-checked workspace access trust,
      )

  -- Where a subprocess is authorized under the envelope that the tiers resolve to, its command has no
  -- blank and no shell metacharacter, and every tier lists an execute grant of that command for the
  -- directory. The texts of the tiers' grants are assumed to have no zero character.
  pub authorize_subprocess_op-least :
      (command : String) (args : List String) (cwd : String)
      → is_authorized (
          authorize_subprocess_op (record {
            command = command;
            args = args;
            cwd = cwd;
            resolved_envelope = resolved t ts;
          }))
        ≡ true
      → (all (λ u. any (grant_executes command cwd) (executes_of u)) (t ∷ ts) ≡ true)
        × (has_shell_metacharacters command ≡ false)
  unfolding authorize_subprocess_op has_execute_grant intersect_envelopes
  authorize_subprocess_op-least command args cwd h =
      let es = demand (not (has_shell_metacharacters command)) shell_metacharacters in
      let (clean, granted) = is_empty-append es _ (sym (conclude-errors _ (es ++ _)) ∙ h) in
      (
        every_tier execute_grant_key is_plain_execute (grant_executes command cwd) executes_of
            (grant_executes-respects command cwd) (λ u k. ground arith)
            (any-intersect_execute_grants (grant_executes command cwd) (t ∷ ts)
              (sym (is_empty-demand _ no_execute_grant) ∙ granted)),
        ground
            (arith, is_empty-demand (not (has_shell_metacharacters command)) shell_metacharacters),
      )
