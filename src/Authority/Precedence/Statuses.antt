-- ===== src/Authority/Precedence/Statuses.antt =====
-- When the decision is blocked by a tier.
use protostar.Base.{
  ◌≡◌, refl, ap, ◌∙◌, Bool, true, false, not, ◌&&◌, ◌||◌, List, [], ◌∷◌, ◌++◌, map, flat_map,
  Option, none, some, arith, any, is_empty, or_else, Bool-cases, inl, inr,
}
use protostar.Authority.Envelope.{TierConstraint, TrustOverride, trusted, untrusted}
use protostar.Authority.Precedence.{
  Axis, repo_scopes, tool_permissions, execute_grants, Denial, Status, blocked_by_tier,
  is_axis_empty, untrusted_entry, collect_empty_axis_denials, collect_denied_tool_entries,
  collect_untrusted_entries, blocked_by_of, status_of, resolve, intersect_envelopes,
}

abbrev pub is_blocked : Status → Bool
is_blocked blocked_by_tier = true
is_blocked _ = false

-- A tier has nothing on the axis while another has something.
abbrev pub is_mixed : Axis → List TierConstraint → Bool
is_mixed axis ts = any (λ t. not (is_axis_empty axis t)) ts && any (λ t. is_axis_empty axis t) ts

abbrev is_untrusted : Option TrustOverride → Bool
is_untrusted (some untrusted) = true
is_untrusted _ = false

abbrev pub distrusts : TierConstraint → Bool
distrusts t = is_untrusted t.envelope.trust_override

abbrev pub denies_tools : TierConstraint → Bool
denies_tools t = not (is_empty (or_else t.envelope.denied_tools []))

is_empty-append : {A : Type 0} (xs ys : List A) → is_empty (xs ++ ys) ≡ (is_empty xs && is_empty ys)
is_empty-append [] ys = refl
is_empty-append (x ∷ xs) ys = refl

is_empty-flat_map :
    {A B : Type 0} (f : A → List B) (p : A → Bool) (xs : List A)
    → ((x : A) → not (is_empty (f x)) ≡ p x)
    → not (is_empty (flat_map f xs)) ≡ any p xs
is_empty-flat_map f p [] h = refl
is_empty-flat_map f p (x ∷ xs) h =
    ground (arith, h x, is_empty-append (f x) (flat_map f xs), is_empty-flat_map f p xs h)

untrusted_entry-is_empty :
    (t : TierConstraint) (o : Option TrustOverride)
    → not (is_empty (untrusted_entry t o)) ≡ is_untrusted o
untrusted_entry-is_empty t none = refl
untrusted_entry-is_empty t (some trusted) = refl
untrusted_entry-is_empty t (some untrusted) = refl

is_empty-map : {A B : Type 0} (f : A → B) (xs : List A) → is_empty (map f xs) ≡ is_empty xs
is_empty-map f [] = refl
is_empty-map f (x ∷ xs) = refl

collect_empty_axis_denials-is_mixed :
    (ts : List TierConstraint) (axis : Axis)
    → not (is_empty (collect_empty_axis_denials ts axis)) ≡ is_mixed axis ts
unfolding collect_empty_axis_denials
collect_empty_axis_denials-is_mixed ts axis =
    elim (Bool-cases (any (λ t. not (is_axis_empty axis t)) ts)) [
      | inr none_set ↦ rw (none_set, collect_empty_axis_denials) refl
      | inl some_set ↦
          rw (some_set, collect_empty_axis_denials)
            (is_empty-flat_map _ (λ t. is_axis_empty axis t) ts (λ t. ground arith))
    ]

not_empty-append :
    {A : Type 0} (xs ys : List A) {a b : Bool}
    → not (is_empty xs) ≡ a
    → not (is_empty ys) ≡ b
    → not (is_empty (xs ++ ys)) ≡ (a || b)
not_empty-append [] ys e f = ground arith
not_empty-append (x ∷ xs) ys e f = ground arith

denied_tools-is_empty :
    (ts : List TierConstraint)
    → not (is_empty (collect_denied_tool_entries ts)) ≡ any denies_tools ts
unfolding collect_denied_tool_entries
denied_tools-is_empty ts =
    is_empty-flat_map _ denies_tools ts
      (λ t. ap not (is_empty-map _ (or_else t.envelope.denied_tools [])))

untrusted-is_empty :
    (ts : List TierConstraint) → not (is_empty (collect_untrusted_entries ts)) ≡ any distrusts ts
unfolding collect_untrusted_entries
untrusted-is_empty ts =
    is_empty-flat_map _ distrusts ts (λ t. untrusted_entry-is_empty t t.envelope.trust_override)

blocked_by_of-is_empty :
    (ts : List TierConstraint)
    → not (is_empty (blocked_by_of ts)) ≡ (
        is_mixed repo_scopes ts
        || (is_mixed tool_permissions ts
            || (is_mixed execute_grants ts || (any denies_tools ts || any distrusts ts))))
unfolding blocked_by_of
blocked_by_of-is_empty ts =
    not_empty-append _ _ (collect_empty_axis_denials-is_mixed ts repo_scopes) (
      not_empty-append _ _ (collect_empty_axis_denials-is_mixed ts tool_permissions) (
        not_empty-append _ _ (collect_empty_axis_denials-is_mixed ts execute_grants)
          (not_empty-append _ _ (denied_tools-is_empty ts) (untrusted-is_empty ts))))

status_of-is_blocked :
    (ts : List TierConstraint) (ds : List Denial)
    → is_blocked (status_of ts ds (resolve ts)) ≡ not (is_empty ds)
status_of-is_blocked ts [] = ground arith
status_of-is_blocked ts (d ∷ ds) = refl

-- With at least one tier, the decision is blocked exactly when a tier denies a tool, or marks the
-- workspace untrusted, or has an empty list of repo scopes, of tool permissions or of execute grants
-- while another tier's list is not empty.
pub intersect_envelopes-blocked :
    (t : TierConstraint) (ts : List TierConstraint)
    → is_blocked (intersect_envelopes (t ∷ ts)).status ≡ (
        is_mixed repo_scopes (t ∷ ts)
        || (is_mixed tool_permissions (t ∷ ts)
            || (is_mixed execute_grants (t ∷ ts)
                || (any denies_tools (t ∷ ts) || any distrusts (t ∷ ts)))))
unfolding intersect_envelopes
intersect_envelopes-blocked t ts =
    status_of-is_blocked (t ∷ ts) (blocked_by_of (t ∷ ts)) ∙ blocked_by_of-is_empty (t ∷ ts)
