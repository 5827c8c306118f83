-- ===== src/Planning/Slicing/Parts.antt =====
-- The tasks of a sliced plan are parts of the tasks of the plan.
use protostar.Base.{
  ◌≡◌, refl, inl, inr, String, true, List, [], ◌∷◌, ◌++◌, Option, none, some, or_else, Dict, get,
  All, IsDistinct, is_empty, Bool-cases,
}
use protostar.Planning.Types.{PlanTask}
use protostar.Planning.Graph.{task_ids}
use protostar.Planning.Order.{by_id}
use protostar.Planning.Handoff.Checked.{by_id-own}
use protostar.Planning.Slicing.{
  TaskSlice, scope_paths, tool_names, grouped, replacement, replaced_tasks, build_slice_tasks,
  rewrite_dependencies, last_slices, redirect, CandidatePlan, sliced_plan, Admission, admitted,
  rejected, sliced, after_admission, admit_work_slicing,
}
use protostar.Planning.Slicing.Bounds.{Within, IsWithin, Checked, Passes, group_slices-Checked}

-- `u` does a part of what the task `t` does: its kind, coverage and risk are those of `t`, and it
-- stays within the files of `t`, the paths of its scopes and the names of its tools.
abbrev pub IsPartOf : PlanTask → PlanTask → Type 0
IsPartOf t u =
    (u.kind ≡ t.kind)
    × (u.covers ≡ t.covers)
    × (u.risk ≡ t.risk)
    × Within (or_else u.target_files []) (or_else t.target_files [])
    × Within (scope_paths u.required_capabilities) (scope_paths t.required_capabilities)
    × Within (tool_names u.required_capabilities) (tool_names t.required_capabilities)

All-weaken :
    (P Q : PlanTask → Type 0) (us : List PlanTask)
    → ((u : PlanTask) → P u → Q u)
    → All P us
    → All Q us
All-weaken P Q [] f h = tt
All-weaken P Q (u ∷ us) f (h, hs) = (f u h, All-weaken P Q us f hs)

All-append :
    (P : PlanTask → Type 0) (us ws : List PlanTask) → All P us → All P ws → All P (us ++ ws)
All-append P [] ws h k = k
All-append P (u ∷ us) ws (h, hs) k = (h, All-append P us ws hs k)

module _ (t : PlanTask) (last : Dict String) where
  build_slice_tasks-IsPartOf :
      (base : List String) (slices : List TaskSlice)
      → All (λ s. IsWithin s t) slices
      → All (IsPartOf t) (build_slice_tasks t last base slices)
  unfolding build_slice_tasks
  build_slice_tasks-IsPartOf base [] h = tt
  build_slice_tasks-IsPartOf base (s ∷ slices) ((files, scopes, tools), hs) =
      ((refl, refl, refl, files, scopes, tools), build_slice_tasks-IsPartOf (s.id ∷ []) slices hs)

-- `u` is a part of a task of the plan.
abbrev pub IsPartOfSome : List PlanTask → PlanTask → Type 0
IsPartOfSome tasks u = (t : PlanTask) × (get (by_id tasks []) t.id ≡ some t) × IsPartOf t u

module _ (tasks : List PlanTask) (m : Dict (List TaskSlice))
    (checked : (p : String) (slices : List TaskSlice)
      → get m p ≡ some slices
      → All (Passes (by_id tasks []) p) slices) where
  replacement-IsPartOf :
      (t : PlanTask) (o : Option (List TaskSlice))
      → get (by_id tasks []) t.id ≡ some t
      → get m t.id ≡ o
      → All (IsPartOf t) (replacement (last_slices m) t o)
  unfolding rewrite_dependencies Passes
  replacement-IsPartOf t none own e = ((refl, refl, refl, λ x k. k, λ x k. k, λ x k. k), tt)
  replacement-IsPartOf t (some slices) own e =
      build_slice_tasks-IsPartOf t (last_slices m) (redirect (last_slices m) t.depends_on) slices
        (pick slices (checked t.id slices e))
    where
      pick :
          (slices : List TaskSlice)
          → All (Passes (by_id tasks []) t.id) slices
          → All (λ s. IsWithin s t) slices
      pick [] h = tt
      pick (s ∷ slices) (h, hs) = (h t own, pick slices hs)

  replaced_tasks-IsPartOfSome :
      (ts : List PlanTask)
      → All (λ t. get (by_id tasks []) t.id ≡ some t) ts
      → All (IsPartOfSome tasks) (replaced_tasks ts m)
  unfolding replaced_tasks
  replaced_tasks-IsPartOfSome [] h = tt
  replaced_tasks-IsPartOfSome (t ∷ ts) (own, h) =
      All-append (IsPartOfSome tasks) (replacement (last_slices m) t (get m t.id))
        (replaced_tasks ts m)
        (All-weaken (IsPartOf t) (IsPartOfSome tasks) (replacement (last_slices m) t (get m t.id))
          (λ u part. (t, own, part)) (replacement-IsPartOf t (get m t.id) own refl))
        (replaced_tasks-IsPartOfSome ts h)

grouped-Checked :
    (tasks : List PlanTask) (slices : List TaskSlice)
    → is_empty (grouped tasks slices).errors ≡ true
    → Checked (by_id tasks []) (grouped tasks slices)
unfolding grouped Checked
grouped-Checked tasks slices h =
    (group_slices-Checked (by_id tasks []) 0 slices _ h).1 (λ p ss e. cc)

accepted :
    {A Reason : Type 0} (a : A) (o : Admission A Reason)
    → after_admission o ≡ sliced a
    → o ≡ admitted a
accepted a (admitted b) e = cc e
accepted a (rejected reasons) e = cc

-- Where the slices of a plan with distinct ids are admitted, what was handed to the admission is a
-- plan each of whose tasks is a part of a task of the plan: its kind, coverage and risk are those of
-- that task, and it stays within that task's files, the paths of its scopes and the names of its tools.
pub admit_work_slicing-IsPartOfSome :
    {A Reason : Type 0} (admit_candidate_plan : CandidatePlan → Admission A Reason)
    (slices : List TaskSlice) (plan : CandidatePlan) (a : A)
    → IsDistinct (task_ids plan.tasks)
    → admit_work_slicing admit_candidate_plan slices plan ≡ sliced a
    → (candidate : CandidatePlan) × (admit_candidate_plan candidate ≡ admitted a)
      × All (IsPartOfSome plan.tasks) candidate.tasks
unfolding admit_work_slicing Checked Passes
admit_work_slicing-IsPartOfSome admit_candidate_plan slices plan a distinct h =
    elim (Bool-cases (is_empty (grouped plan.tasks slices).errors)) [
      | inl valid ↦
          let m = (grouped plan.tasks slices).slices_by_parent in
          (
            sliced_plan plan m,
            accepted a (admit_candidate_plan (sliced_plan plan m)) (rw valid at h),
            replaced_tasks-IsPartOfSome plan.tasks m (grouped-Checked plan.tasks slices valid)
                plan.tasks (by_id-own plan.tasks [] distinct),
          )
      | inr invalid ↦ cc (rw invalid at h)
    ]
