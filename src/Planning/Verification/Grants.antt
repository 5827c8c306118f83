-- ===== src/Planning/Verification/Grants.antt =====
-- The checks of the grants for releases and for pull requests: when they have no violation.
use protostar.Base.{
  ◌≡◌, refl, sym, subst, ap, ◌∙◌, ◌↔◌, inl, inr, String, Bool, true, false, not, ◌||◌, List, [],
  ◌∷◌, ◌++◌, Option, none, some, arith, ◌==◌, eq_iff, eq_refl, Dict, get, put, get-put, keys, has,
  has-keys, is_some, is_empty, All, or_else, Bool-cases, if◌then◌else◌,
}
use protostar.Planning.Types.{PlanTask}
use protostar.Planning.Graph.{construct, construct_plan_task_dependency_graph}
use protostar.Planning.Graph.Edges.{declares_dependency}
use protostar.Planning.Cycles.{dependency_ids_by_task_id}
use protostar.Planning.Cycles.Acyclic.{Reaches, Reaches-weaken, edge, deps}
use protostar.Planning.Cycles.Search.{construct-deps}
use protostar.Planning.Verification.{
  PreHandoffGrantKind, GrantKinds, VerificationViolation,
  release_grant_without_explicit_release_task, release_grant_missing_verification_evidence,
  verification_required_by_envelope, Violations, verifies, is_release_task,
  is_execution_handoff_task, collect_unique_plan_tasks_by_id, has_preceding_verification_task,
  unless, both, release_check, check_releases, handoff_check, check_handoffs, group_triggers,
  add_kind, no_kinds, collect_release_grant_task_violations,
  collect_pre_handoff_verification_task_violations,
}
use protostar.Planning.Verification.Search.{Precedes, has_preceding_verification_task-Precedes}

-- The check ends, and it has no violation exactly when `P` holds.
abbrev pub IsPassedWhen : Type 0 → Option Violations → Type 0
IsPassedWhen P o = (vs : Violations) × (o ≡ some vs) × ((is_empty vs ≡ true) ↔ P)

passes_iff : (P Q : Type 0) (o : Option Violations) → P ↔ Q → IsPassedWhen P o → IsPassedWhen Q o
passes_iff P Q o f (vs, e, h) = (vs, e, (λ k. f.0 (h.0 k), λ q. h.1 (f.1 q)))

both-IsPassedWhen :
    (P Q : Type 0) (o o' : Option Violations)
    → IsPassedWhen P o
    → IsPassedWhen Q o'
    → IsPassedWhen (P × Q) (both o o')
both-IsPassedWhen P Q o o' (vs, e, h) (ws, e', h') = (
  vs ++ ws,
  rw (e, e') refl,
  (λ k. (h.0 (front vs k), h'.0 (back vs k)), λ (p, q). joined vs (h.1 p) (h'.1 q)),
)
  where
    front : (vs : Violations) → is_empty (vs ++ ws) ≡ true → is_empty vs ≡ true
    front [] k = refl
    front (v ∷ vs) k = k

    back : (vs : Violations) → is_empty (vs ++ ws) ≡ true → is_empty ws ≡ true
    back [] k = k
    back (v ∷ vs) k = cc

    joined :
        (vs : Violations) → is_empty vs ≡ true → is_empty ws ≡ true → is_empty (vs ++ ws) ≡ true
    joined [] k k' = k'
    joined (v ∷ vs) k k' = cc

-- `id` depends, through one or more steps, on a verification task whose id no other task has.
abbrev pub IsVerified : List PlanTask → String → Type 0
IsVerified tasks id =
    (x : String) × Reaches (declares_dependency tasks) id x
    × (verifies (get (collect_unique_plan_tasks_by_id tasks) x) ≡ true)

module _ (tasks : List PlanTask) where
  abbrev unique : Dict PlanTask
  unique = collect_unique_plan_tasks_by_id tasks

  abbrev m : Dict (List String)
  m = dependency_ids_by_task_id (construct tasks).nodes []

  unless-IsPassedWhen :
      (id : String) (v : VerificationViolation)
      → IsPassedWhen (IsVerified tasks id) (unless (has_preceding_verification_task unique m id) v)
  unless-IsPassedWhen id v =
      decide (has_preceding_verification_task unique m id)
        (has_preceding_verification_task-Precedes unique m id)
    where
      decide :
          (o : Option Bool)
          → Precedes (edge (deps m)) (λ x. verifies (get unique x)) id o
          → IsPassedWhen (IsVerified tasks id) (unless o v)
      decide none h = absurd h
      decide (some true) (x, r, h) = (
        [],
        refl,
        (λ _. (x, Reaches-weaken (λ x y e. sym (construct-deps tasks x y) ∙ e) r, h), λ _. refl),
      )
      decide (some false) h = (
        v ∷ [],
        refl,
        (
          λ k. cc,
          λ (x, r, k). cc (h x (Reaches-weaken (λ x y e. construct-deps tasks x y ∙ e) r), k),
        ),
      )

  -- What the check of a release condition asks for, of a task that alone has its id.
  abbrev pub IsReleasable : String → Type 0
  IsReleasable id =
      (t : PlanTask) → get unique id ≡ some t → (is_release_task t ≡ true) × IsVerified tasks id

  -- What holds of the task that `unique` has for `id`.
  given :
      (P : PlanTask → Type 0) (id : String) (t : PlanTask)
      → get unique id ≡ some t
      → P t ↔ ((u : PlanTask) → get unique id ≡ some u → P u)
  given P id t e = (λ p u k. subst P (ap (λ o. or_else o t) (sym e ∙ k)) p, λ f. f t e)

  release_check-IsPassedWhen :
      (id : String) (o : Option PlanTask)
      → get unique id ≡ o
      → IsPassedWhen (IsReleasable id) (release_check unique m id o)
  release_check-IsPassedWhen id none e = ([], refl, (λ _ t k. cc (sym e ∙ k), λ _. refl))
  release_check-IsPassedWhen id (some t) e =
      passes_iff _ (IsReleasable id) (release_check unique m id (some t))
        (given (λ u. (is_release_task u ≡ true) × IsVerified tasks id) id t e)
        (pick (is_release_task t) refl)
    where
      v : VerificationViolation
      v = release_grant_missing_verification_evidence id

      pick :
          (b : Bool)
          → is_release_task t ≡ b
          → IsPassedWhen ((is_release_task t ≡ true) × IsVerified tasks id) (
              if not b
              then some (release_grant_without_explicit_release_task id ∷ [])
              else unless (has_preceding_verification_task unique m id) v)
      pick true holds =
          passes_iff (IsVerified tasks id) _
            (unless (has_preceding_verification_task unique m id) v) (λ h. (holds, h), λ (_, h). h)
            (unless-IsPassedWhen id v)
      pick false fails = (_, refl, (λ k. cc, λ (holds, _). cc (holds, fails)))

  check_releases-IsPassedWhen :
      (conditions : List String)
      → IsPassedWhen (All IsReleasable conditions) (check_releases unique m conditions)
  unfolding check_releases
  check_releases-IsPassedWhen [] = ([], refl, (λ _. tt, λ _. refl))
  check_releases-IsPassedWhen (id ∷ ids) =
      both-IsPassedWhen (IsReleasable id) (All IsReleasable ids) _ _
        (release_check-IsPassedWhen id (get unique id) refl) (check_releases-IsPassedWhen ids)

  -- What the check before the handoff asks for.
  abbrev pub IsReadyForHandoff : String → Type 0
  IsReadyForHandoff id =
      (t : PlanTask)
      → get unique id ≡ some t
      → is_execution_handoff_task t ≡ true
      → IsVerified tasks id

  handoff_check-IsPassedWhen :
      (id : String) (kinds : GrantKinds) (o : Option PlanTask)
      → get unique id ≡ o
      → IsPassedWhen (IsReadyForHandoff id) (handoff_check unique m id kinds o)
  handoff_check-IsPassedWhen id kinds none e = ([], refl, (λ _ t k. cc (sym e ∙ k), λ _. refl))
  handoff_check-IsPassedWhen id kinds (some t) e =
      passes_iff _ (IsReadyForHandoff id) (handoff_check unique m id kinds (some t))
        (given (λ u. is_execution_handoff_task u ≡ true → IsVerified tasks id) id t e)
        (pick (is_execution_handoff_task t) refl)
    where
      v : VerificationViolation
      v = verification_required_by_envelope id kinds

      pick :
          (b : Bool)
          → is_execution_handoff_task t ≡ b
          → IsPassedWhen
              (is_execution_handoff_task t ≡ true → IsVerified tasks id)
              (if not b then some [] else unless (has_preceding_verification_task unique m id) v)
      pick true holds =
          passes_iff (IsVerified tasks id) _
            (unless (has_preceding_verification_task unique m id) v) (λ h _. h, λ h. h holds)
            (unless-IsPassedWhen id v)
      pick false fails = ([], refl, (λ _ holds. cc (holds, fails), λ _. refl))

  check_handoffs-IsPassedWhen :
      (groups : Dict GrantKinds)
      → IsPassedWhen (All IsReadyForHandoff (keys groups)) (check_handoffs unique m groups)
  unfolding check_handoffs
  check_handoffs-IsPassedWhen [] = ([], refl, (λ _. tt, λ _. refl))
  check_handoffs-IsPassedWhen ((id, kinds) ∷ rest) =
      both-IsPassedWhen (IsReadyForHandoff id) (All IsReadyForHandoff (keys rest)) _ _
        (handoff_check-IsPassedWhen id kinds (get unique id) refl)
        (check_handoffs-IsPassedWhen rest)

-- The grouped triggers have the ids of the triggers.
group_triggers-is_some :
    (triggers : List (String × PreHandoffGrantKind)) (m : Dict GrantKinds) (x : String)
    → is_some (get (group_triggers triggers m) x) ≡ (has (keys triggers) x || is_some (get m x))
unfolding group_triggers
group_triggers-is_some [] m x = refl
group_triggers-is_some ((id, kind) ∷ triggers) m x =
    let kinds = add_kind kind (or_else (get m id) no_kinds) in
    ground (arith, group_triggers-is_some triggers (put m id kinds) x, get-put m id x kinds)

All-has :
    (P : String → Type 0) (xs ys : List String)
    → ((x : String) → has ys x ≡ true → has xs x ≡ true)
    → All P xs
    → All P ys
All-has P xs [] f h = tt
All-has P xs (y ∷ ys) f h =
    (pick xs (f y (ground (arith, eq_refl y))) h, All-has P xs ys (λ x e. f x (ground arith)) h)
  where
    pick : (xs : List String) → has xs y ≡ true → All P xs → P y
    pick [] e h = cc
    pick (x ∷ xs) e (h, hs) = elim (Bool-cases (x == y)) [
      | inl same ↦ subst P ((eq_iff x y).0 same) h
      | inr other ↦ pick xs (ground arith) hs
    ]

-- The check of the release conditions ends, and it reports nothing exactly when each of their tasks
-- that alone has its id is of the kind `release` and depends, through one or more steps, on a
-- verification task that alone has its id.
pub collect_release_grant_task_violations_lem :
    (tasks : List PlanTask) (conditions : List String)
    → IsPassedWhen (All (IsReleasable tasks) conditions) (
        collect_release_grant_task_violations tasks
          (construct_plan_task_dependency_graph tasks).graph
          conditions)
unfolding collect_release_grant_task_violations construct_plan_task_dependency_graph
collect_release_grant_task_violations_lem tasks conditions =
    check_releases-IsPassedWhen tasks conditions

-- The check of the triggers ends, and it reports nothing exactly when each of their tasks that alone
-- has its id and is of the kind `implementation` depends, through one or more steps, on a
-- verification task that alone has its id.
pub collect_pre_handoff_verification_task_violations_lem :
    (tasks : List PlanTask) (triggers : List (String × PreHandoffGrantKind))
    → IsPassedWhen (All (IsReadyForHandoff tasks) (keys triggers)) (
        collect_pre_handoff_verification_task_violations tasks
          (construct_plan_task_dependency_graph tasks).graph
          triggers)
unfolding collect_pre_handoff_verification_task_violations construct_plan_task_dependency_graph
collect_pre_handoff_verification_task_violations_lem tasks triggers =
    let groups = group_triggers triggers [] in
    let same = λ (x : String). has-keys groups x ∙ group_triggers-is_some triggers [] x in
    passes_iff _ _ (check_handoffs (unique tasks) (m tasks) groups)
      (
        All-has (IsReadyForHandoff tasks) (keys groups) (keys triggers)
            (λ x e. ground (arith, same x)),
        All-has (IsReadyForHandoff tasks) (keys triggers) (keys groups)
            (λ x e. ground (arith, same x)),
      )
      (check_handoffs-IsPassedWhen tasks groups)
