-- ===== src/Repair/Synthesis/Plans.antt =====
-- The synthesised plan is the one that plain filters give.
use protostar.Base.{
  ℕ, ◌≡◌, refl, ap, ap₂, ◌∙◌, inl, inr, String, true, List, [], ◌∷◌, ◌++◌, Option, none, some, Dict,
  get, is_empty, Bool-cases, if◌then◌else◌,
}
use protostar.Repair.Synthesis.{
  Group, repair_of, repairs_of, group_findings, group_critiques, synthesize_repair_plan,
}
use protostar.Repair.Synthesis.Groups.{
  findings_for, critiques_for, repair_for, repairs_for, group_findings-get, group_critiques-get,
  repair_of-add, add_critiques,
}

module _ {F C : Type 0} (repair_task_id : F → Option String) (task_refs : C → List String)
    (findings : List F) (critiques : List C) where
  abbrev groups : Dict (Group F C)
  groups =
      group_critiques repair_task_id task_refs critiques
        (group_findings repair_task_id task_refs findings [])

  repair_of-groups :
      (id : String)
      → repair_of id (get groups id) ≡ repair_for repair_task_id task_refs findings critiques id
  repair_of-groups id =
      ap (repair_of id) (
        group_critiques-get repair_task_id task_refs critiques
          (group_findings repair_task_id task_refs findings []) id
        ∙ ap
            (λ o.
              add_critiques repair_task_id task_refs o
                (critiques_for repair_task_id task_refs id critiques))
            (group_findings-get repair_task_id task_refs findings [] id))
      ∙ repair_of-add repair_task_id task_refs id
          (findings_for repair_task_id task_refs id findings)
          (critiques_for repair_task_id task_refs id critiques)

  repairs_of-groups :
      (ids : List String)
      → repairs_of groups ids ≡ repairs_for repair_task_id task_refs findings critiques ids
  unfolding repairs_of
  repairs_of-groups [] = refl
  repairs_of-groups (id ∷ ids) = ap₂ ◌++◌ (repair_of-groups id) (repairs_of-groups ids)

  repairs_of-empty :
      (m : Dict (Group F C)) (ids : List String) → is_empty m ≡ true → repairs_of m ids ≡ []
  unfolding repairs_of
  repairs_of-empty [] [] h = refl
  repairs_of-empty [] (id ∷ ids) h = repairs_of-empty [] ids h
  repairs_of-empty (x ∷ m) ids h = cc

  -- The synthesis throws when no task of the plan is named by a finding or a critique. Otherwise
  -- its repairs are, in the plan's order, the tasks that are named, each with the findings that
  -- name it in their order and with each critique once for each reference to it.
  pub synthesize_repair_plan-repairs_for :
      (run_id : String) (attempt : ℕ) (ids dependent_task_ids : List String)
      → let repairs = repairs_for repair_task_id task_refs findings critiques ids in
        synthesize_repair_plan repair_task_id task_refs run_id attempt ids findings critiques
          dependent_task_ids
        ≡ (if is_empty repairs
            then none
            else some (record {
              run_id = run_id;
              attempt = attempt;
              repairs = repairs;
              dependent_task_ids = dependent_task_ids;
            }))
  unfolding synthesize_repair_plan
  synthesize_repair_plan-repairs_for run_id attempt ids dependent_task_ids =
      elim (Bool-cases (is_empty groups)) [
        | inl none_named ↦
            rw (← repairs_of-groups ids, none_named, repairs_of-empty groups ids none_named)
        | inr named ↦ rw (← repairs_of-groups ids, named)
      ]
