-- ===== src/Repair/Synthesis.antt =====
-- synthesizeRepairPlan of packages/repair/src/synthesize-repair-plan.ts, for any type of mechanical
-- findings and of model critiques, which it reads through `repairTaskId` and `taskRefs`. `none`
-- stands for EmptyRepairSynthesisError.
mod Groups
pub mod Plans
use protostar.Base.{
  ℕ, String, Bool, List, [], ◌∷◌, ◌++◌, Option, none, some, Dict, get, put, or_else, is_empty,
  if◌then◌else◌,
}

pub record Group (F C : Type 0) : Type 0 where
  pub mechanical_critiques : List F
  pub model_critiques : List C

pub record RepairTask (F C : Type 0) : Type 0 where
  pub plan_task_id : String
  pub mechanical_critiques : List F
  pub model_critiques : Option (List C)

pub record RepairPlan (F C : Type 0) : Type 0 where
  pub run_id : String
  pub attempt : ℕ
  pub repairs : List (RepairTask F C)
  pub dependent_task_ids : List String

module _ {F C : Type 0} where
  abbrev empty_group : Group F C
  empty_group = record { mechanical_critiques = []; model_critiques = [] }

  -- `groupFor(groups, taskId).mechanicalCritiques.push(finding)`; the group is shared with the map.
  abbrev push_mechanical : Dict (Group F C) → String → F → Dict (Group F C)
  push_mechanical m id f =
      let g = or_else (get m id) empty_group in
      put m id (record g { mechanical_critiques = g.mechanical_critiques ++ f ∷ [] })

  abbrev push_model : Dict (Group F C) → String → C → Dict (Group F C)
  push_model m id c =
      let g = or_else (get m id) empty_group in
      put m id (record g { model_critiques = g.model_critiques ++ c ∷ [] })

  -- An entry of the flatMap over the plan's tasks.
  abbrev pub repair_of : String → Option (Group F C) → List (RepairTask F C)
  repair_of id none = []
  repair_of id (some g) =
      record {
        plan_task_id = id;
        mechanical_critiques = g.mechanical_critiques;
        model_critiques = if is_empty g.model_critiques then none else some g.model_critiques;
      }
      ∷ []

  unfoldable pub repairs_of : Dict (Group F C) → List String → List (RepairTask F C)
  repairs_of m [] = []
  repairs_of m (id ∷ ids) = repair_of id (get m id) ++ repairs_of m ids

module _ {F C : Type 0} (repair_task_id : F → Option String) (task_refs : C → List String) where
  abbrev group_finding : F → Option String → Dict (Group F C) → Dict (Group F C)
  group_finding f none m = m
  group_finding f (some id) m = push_mechanical m id f

  unfoldable pub group_findings : List F → Dict (Group F C) → Dict (Group F C)
  group_findings [] m = m
  group_findings (f ∷ fs) m = group_findings fs (group_finding f (repair_task_id f) m)

  unfoldable pub group_refs : C → List String → Dict (Group F C) → Dict (Group F C)
  group_refs c [] m = m
  group_refs c (id ∷ ids) m = group_refs c ids (push_model m id c)

  unfoldable pub group_critiques : List C → Dict (Group F C) → Dict (Group F C)
  unfolding group_refs
  group_critiques [] m = m
  group_critiques (c ∷ cs) m = group_critiques cs (group_refs c (task_refs c) m)

  -- `plan_task_ids` are the ids of the plan's tasks; `critiques` is empty where the code has no model.
  unfoldable pub synthesize_repair_plan :
      (run_id : String) (attempt : ℕ) (plan_task_ids : List String) (findings : List F)
      (critiques : List C) (dependent_task_ids : List String)
      → Option (RepairPlan F C)
  unfolding group_findings group_critiques repairs_of
  synthesize_repair_plan run_id attempt plan_task_ids findings critiques dependent_task_ids =
      let m = group_critiques critiques (group_findings findings []) in
      if is_empty m
      then none
      else (let repairs = repairs_of m plan_task_ids in
          if is_empty repairs
          then none
          else some (record {
            run_id = run_id;
            attempt = attempt;
            repairs = repairs;
            dependent_task_ids = dependent_task_ids;
          }))
