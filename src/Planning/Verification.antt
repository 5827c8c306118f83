-- ===== src/Planning/Verification.antt =====
-- hasPrecedingVerificationTask, collectReleaseGrantTaskViolations and
-- collectPreHandoffVerificationTaskViolations of packages/planning/src/index.ts. The search keeps a
-- stack, here with its top first, and takes fuel; `none` stands for running out of it.
pub mod Search
pub mod Grants
use protostar.Base.{
  ℕ, zero, suc, ◌+◌, String, Bool, true, false, not, ◌&&◌, List, [], ◌∷◌, ◌++◌, Option, none, some,
  Dict, get, put, has, length, nat_eq, or_else, if◌then◌else◌,
}
use protostar.Planning.Types.{
  PlanTaskKind, verification, release, implementation, PlanTask, DependencyGraph, DependencyNode,
}
use protostar.Planning.Graph.{is_plan_task_id}
use protostar.Planning.Cycles.{dependency_ids_by_task_id}

abbrev is_verification : PlanTaskKind → Bool
is_verification verification = true
is_verification _ = false

abbrev is_release : PlanTaskKind → Bool
is_release release = true
is_release _ = false

abbrev is_implementation : PlanTaskKind → Bool
is_implementation implementation = true
is_implementation _ = false

abbrev pub is_release_task : PlanTask → Bool
is_release_task t = is_release t.kind

abbrev pub is_execution_handoff_task : PlanTask → Bool
is_execution_handoff_task t = is_implementation t.kind

unfoldable pub count_ids : List PlanTask → Dict ℕ → Dict ℕ
count_ids [] counts = counts
count_ids (t ∷ ts) counts = count_ids ts (put counts t.id (or_else (get counts t.id) 0 + 1))

unfoldable pub set_unique : Dict ℕ → List PlanTask → Dict PlanTask → Dict PlanTask
set_unique counts [] m = m
set_unique counts (t ∷ ts) m =
    set_unique counts ts
      (if is_plan_task_id t.id && nat_eq (or_else (get counts t.id) 0) 1 then put m t.id t else m)

unfoldable pub collect_unique_plan_tasks_by_id : List PlanTask → Dict PlanTask
unfolding count_ids set_unique
collect_unique_plan_tasks_by_id tasks = set_unique (count_ids tasks []) tasks []

-- `stack.push(...ids)`
abbrev pub push_all : List String → List String → List String
push_all [] stack = stack
push_all (id ∷ ids) stack = push_all ids (id ∷ stack)

-- `taskById.get(id)?.kind === "verification"`
abbrev pub verifies : Option PlanTask → Bool
verifies none = false
verifies (some t) = is_verification t.kind

-- How often a task is pushed at most.
abbrev pub listed : Dict (List String) → ℕ
listed [] = 0
listed ((k, ds) ∷ m) = length ds + listed m

module _ (task_by_id : Dict PlanTask) (m : Dict (List String)) where
  abbrev pub dependencies : String → List String
  dependencies id = or_else (get m id) []

  unfoldable pub search_stack : ℕ → List String → List String → Option Bool
  search_stack zero visited stack = none
  search_stack (suc fuel) visited [] = some false
  search_stack (suc fuel) visited (id ∷ stack) = elim (has visited id) [
    | true ↦ search_stack fuel visited stack
    | false ↦ elim (verifies (get task_by_id id)) [
      | true ↦ some true
      | false ↦ search_stack fuel (id ∷ visited) (push_all (dependencies id) stack)
    ]
  ]

  unfoldable pub has_preceding_verification_task : String → Option Bool
  unfolding search_stack
  has_preceding_verification_task id =
      let stack = push_all (dependencies id) [] in
      search_stack (length stack + listed m + 1) [] stack

-- PlanningAdmissionPreHandoffGrantKind, and a set of them.
pub data PreHandoffGrantKind : Type 0 where
  write pr : PreHandoffGrantKind

pub record GrantKinds : Type 0 where
  pub has_write : Bool
  pub has_pr : Bool

abbrev pub no_kinds : GrantKinds
no_kinds = record { has_write = false; has_pr = false }

pub data VerificationViolation : Type 0 where
  release_grant_without_explicit_release_task release_grant_missing_verification_evidence :
      (task_id : String) → VerificationViolation
  verification_required_by_envelope :
      (task_id : String) (grant_kinds : GrantKinds) → VerificationViolation

abbrev pub Violations : Type 0
Violations = List VerificationViolation

-- `[]` where the search says true.
abbrev pub unless : Option Bool → VerificationViolation → Option Violations
unless none v = none
unless (some true) v = some []
unless (some false) v = some (v ∷ [])

abbrev pub both : Option Violations → Option Violations → Option Violations
both none _ = none
both (some vs) none = none
both (some vs) (some ws) = some (vs ++ ws)

module _ (task_by_id : Dict PlanTask) (m : Dict (List String)) where
  abbrev pub release_check : String → Option PlanTask → Option Violations
  release_check id none = some []
  release_check id (some t) =
      if not (is_release_task t)
      then some (release_grant_without_explicit_release_task id ∷ [])
      else unless (has_preceding_verification_task task_by_id m id)
          (release_grant_missing_verification_evidence id)

  -- The conditions are shown by the ids of their tasks.
  unfoldable pub check_releases : List String → Option Violations
  check_releases [] = some []
  check_releases (id ∷ ids) = both (release_check id (get task_by_id id)) (check_releases ids)

  abbrev pub handoff_check : String → GrantKinds → Option PlanTask → Option Violations
  handoff_check id kinds none = some []
  handoff_check id kinds (some t) =
      if not (is_execution_handoff_task t)
      then some []
      else unless (has_preceding_verification_task task_by_id m id)
          (verification_required_by_envelope id kinds)

  unfoldable pub check_handoffs : Dict GrantKinds → Option Violations
  check_handoffs [] = some []
  check_handoffs ((id, kinds) ∷ rest) =
      both (handoff_check id kinds (get task_by_id id)) (check_handoffs rest)

unfoldable pub collect_release_grant_task_violations :
    List PlanTask → DependencyGraph → List String → Option Violations
unfolding collect_unique_plan_tasks_by_id dependency_ids_by_task_id check_releases
collect_release_grant_task_violations tasks graph conditions =
    check_releases (collect_unique_plan_tasks_by_id tasks)
      (dependency_ids_by_task_id graph.nodes []) conditions

abbrev pub add_kind : PreHandoffGrantKind → GrantKinds → GrantKinds
add_kind write kinds = record kinds { has_write = true }
add_kind pr kinds = record kinds { has_pr = true }

-- triggerGrantKindsByTaskId, from the triggers as pairs of a task's id and a kind of grant.
unfoldable pub group_triggers :
    List (String × PreHandoffGrantKind) → Dict GrantKinds → Dict GrantKinds
group_triggers [] m = m
group_triggers ((id, kind) ∷ triggers) m =
    group_triggers triggers (put m id (add_kind kind (or_else (get m id) no_kinds)))

unfoldable pub collect_pre_handoff_verification_task_violations :
    List PlanTask → DependencyGraph → List (String × PreHandoffGrantKind) → Option Violations
unfolding collect_unique_plan_tasks_by_id dependency_ids_by_task_id check_handoffs group_triggers
collect_pre_handoff_verification_task_violations tasks graph triggers =
    check_handoffs (collect_unique_plan_tasks_by_id tasks)
      (dependency_ids_by_task_id graph.nodes []) (group_triggers triggers [])
