-- ===== src/Repair/Proposal/Admission.antt =====
-- Which proposals are admitted.
use protostar.Base.{
  ℕ, ◌+◌, ◌≡◌, ◌≢◌, refl, sym, ◌∙◌, ◌↔◌, String, true, List, [], ◌∷◌, ◌++◌, Option, none, some,
  arith, ◌==◌, Dict, get, put, get-put, first_some, has, All, is_empty, iff_trans, iff_both, subst,
  if◌then◌else◌,
}
use protostar.Repair.Proposal.{
  PlanTask, RequiredCapabilities, Correction, Proposal, ProposalError, admitted, refused,
  unknown_failing, tasks_by_id, beyond, beyond?, expansion, detect_capability_expansion,
  correction_errors, corrections_errors, admit_repair_plan_proposal,
}

-- The plan's last task with the id.
abbrev pub task_of : List PlanTask → String → Option PlanTask
task_of [] id = none
task_of (t ∷ ts) id = first_some (task_of ts id) (if t.id == id then some t else none)

abbrev pub AllIn : (allowed : List String) → List String → Type 0
AllIn allowed xs = All (λ x. has allowed x ≡ true) xs

abbrev pub AllIn? : (allowed : List String) → Option (List String) → Type 0
AllIn? allowed none = Unit
AllIn? allowed (some xs) = AllIn allowed xs

-- The capabilities that a correction asks for are among those of its task.
abbrev pub IsWithin : PlanTask → Option RequiredCapabilities → Type 0
IsWithin t none = Unit
IsWithin t (some r) = AllIn? t.scope_paths r.repo_scopes × AllIn? t.tools r.tool_permissions

-- The correction's target is a task of the plan, and it stays within that task's capabilities.
abbrev pub IsSound : Option PlanTask → Correction → Type 0
IsSound none c = ⊥
IsSound (some t) c = IsWithin t c.required_capabilities

tasks_by_id-get :
    (ts : List PlanTask) (m : Dict PlanTask) (id : String)
    → get (tasks_by_id ts m) id ≡ first_some (task_of ts id) (get m id)
unfolding tasks_by_id
tasks_by_id-get [] m id = refl
tasks_by_id-get (t ∷ ts) m id =
    ground (arith, tasks_by_id-get ts (put m t.id t) id, get-put m t.id id t)

first_some-none : {A : Type 0} (o : Option A) → first_some o none ≡ o
first_some-none none = refl
first_some-none (some a) = refl

append-eq-nil_iff : {A : Type 0} (xs ys : List A) → (xs ++ ys ≡ []) ↔ ((xs ≡ []) × (ys ≡ []))
append-eq-nil_iff [] ys = (λ e. (refl, e), λ e. e.1)
append-eq-nil_iff (x ∷ xs) ys = (λ e. cc, λ e. cc)

beyond-nil_iff :
    (error : String → ProposalError) (allowed xs : List String)
    → (beyond error allowed xs ≡ []) ↔ AllIn allowed xs
unfolding beyond
beyond-nil_iff error allowed [] = (λ _. tt, λ _. refl)
beyond-nil_iff error allowed (x ∷ xs) = ground (arith, beyond-nil_iff error allowed xs)

unknown_failing-nil_iff :
    (failing xs : List String) → (unknown_failing failing xs ≡ []) ↔ AllIn failing xs
unfolding unknown_failing
unknown_failing-nil_iff failing [] = (λ _. tt, λ _. refl)
unknown_failing-nil_iff failing (x ∷ xs) = ground (arith, unknown_failing-nil_iff failing xs)

beyond?-nil_iff :
    (error : String → ProposalError) (allowed : List String) (o : Option (List String))
    → (beyond? error allowed o ≡ []) ↔ AllIn? allowed o
beyond?-nil_iff error allowed none = (λ _. tt, λ _. refl)
beyond?-nil_iff error allowed (some xs) = beyond-nil_iff error allowed xs

expansion-nil_iff :
    (required : Option RequiredCapabilities) (t : PlanTask) (index : ℕ)
    → (expansion required t index ≡ []) ↔ IsWithin t required
expansion-nil_iff none t index = (λ _. tt, λ _. refl)
expansion-nil_iff (some r) t index = iff_trans (append-eq-nil_iff _ _) (
    iff_both (beyond?-nil_iff _ t.scope_paths r.repo_scopes)
      (beyond?-nil_iff _ t.tools r.tool_permissions))

correction_errors-nil_iff :
    (o : Option PlanTask) (c : Correction) (index : ℕ)
    → (correction_errors o c index ≡ []) ↔ IsSound o c
unfolding detect_capability_expansion
correction_errors-nil_iff none c index = (λ e. cc, λ e. absurd e)
correction_errors-nil_iff (some t) c index = expansion-nil_iff c.required_capabilities t index

corrections_errors-nil_iff :
    (m : Dict PlanTask) (cs : List Correction) (index : ℕ)
    → (corrections_errors m cs index ≡ []) ↔ All (λ c. IsSound (get m c.target_task_id) c) cs
unfolding corrections_errors
corrections_errors-nil_iff m [] index = (λ _. tt, λ _. refl)
corrections_errors-nil_iff m (c ∷ cs) index = iff_trans (append-eq-nil_iff _ _) (
    iff_both (correction_errors-nil_iff (get m c.target_task_id) c index)
      (corrections_errors-nil_iff m cs (index + 1)))

All-IsSound-task_of :
    (tasks : List PlanTask) (cs : List Correction)
    → All (λ c. IsSound (get (tasks_by_id tasks []) c.target_task_id) c) cs
      ↔ All (λ c. IsSound (task_of tasks c.target_task_id) c) cs
All-IsSound-task_of tasks [] = (λ h. h, λ h. h)
All-IsSound-task_of tasks (c ∷ cs) =
    let e =
      tasks_by_id-get tasks [] c.target_task_id
      ∙ first_some-none (task_of tasks c.target_task_id) in
    iff_both (λ h. subst (λ o. IsSound o c) e h, λ h. subst (λ o. IsSound o c) (sym e) h)
      (All-IsSound-task_of tasks cs)

-- What makes a proposal sound: it claims failing tasks only, and each correction is sound.
abbrev pub IsAdmissible : Proposal → List PlanTask → (failing_task_ids : List String) → Type 0
IsAdmissible p tasks failing_task_ids =
    AllIn failing_task_ids p.failing_task_ids
    × All (λ c. IsSound (task_of tasks c.target_task_id) c) p.corrections

verdict_of_errors :
    (P : Type 0) (ids : List String) (cs : List Correction) (errors : List ProposalError)
    → (errors ≡ []) ↔ P
    → let r = if is_empty errors then admitted ids cs else refused errors in
      ((r ≡ admitted ids cs) ↔ P)
      × (¬ P → (errors : List ProposalError) × (r ≡ refused errors) × (errors ≢ []))
verdict_of_errors P ids cs [] iff = ((λ _. iff.0 refl, λ _. refl), λ h. absurd (h (iff.0 refl)))
verdict_of_errors P ids cs (x ∷ xs) iff =
    ((λ e. cc, λ i. absurd (cc (iff.1 i))), λ _. (x ∷ xs, refl, λ e. cc))

-- A proposal is admitted, unchanged, exactly when every task that it calls failing is failing,
-- every correction's target is a task of the plan, and every correction's repo scopes and tools are
-- among its target's; otherwise it is refused with at least one error.
pub admit_repair_plan_proposal-IsAdmissible :
    (p : Proposal) (tasks : List PlanTask) (failing_task_ids : List String)
    → ((admit_repair_plan_proposal p tasks failing_task_ids
          ≡ admitted p.failing_task_ids p.corrections)
        ↔ IsAdmissible p tasks failing_task_ids)
      × (¬ IsAdmissible p tasks failing_task_ids
          → (errors : List ProposalError) × (admit_repair_plan_proposal p tasks failing_task_ids
              ≡ refused errors)
            × (errors ≢ []))
unfolding admit_repair_plan_proposal
admit_repair_plan_proposal-IsAdmissible p tasks failing_task_ids =
    verdict_of_errors _ p.failing_task_ids p.corrections _ (
      iff_trans (append-eq-nil_iff _ _) (
        iff_both (unknown_failing-nil_iff failing_task_ids p.failing_task_ids) (
          iff_trans (corrections_errors-nil_iff (tasks_by_id tasks []) p.corrections 0)
            (All-IsSound-task_of tasks p.corrections))))
