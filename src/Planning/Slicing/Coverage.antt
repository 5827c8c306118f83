-- ===== src/Planning/Slicing/Coverage.antt =====
-- Slicing keeps what the plan covers: criteria and acceptance tests.
use mathlib.Core.Path.{fun_ext}
use protostar.Base.{
  ℕ, ◌+◌, ◌≡◌, refl, sym, ap, ◌∙◌, inl, inr, String, false, not, ◌&&◌, ◌||◌, List, [], ◌∷◌, ◌++◌,
  flat_map, filter, Option, none, some, or_else, arith, ◌==◌, Dict, get, get-put, has, has-append,
  is_empty, Bool-cases,
}
use protostar.Planning.Types.{PlanTask}
use protostar.Planning.Coverage.{
  covered_ids, ref_ids, referred_ids, ac_coverage, validate_ac_coverage, refs_coverage, unique,
  check_acceptance_test_refs_coverage,
}
use protostar.Planning.Order.{by_id}
use protostar.Planning.Slicing.{
  TaskSlice, Grouping, add_slice, group_slices, grouped, replacement, replaced_tasks,
  build_slice_tasks, rewrite_dependencies, last_slices, redirect, CandidatePlan, sliced_plan,
}

-- Every parent that is recorded has a slice.
AllSliced : Dict (List TaskSlice) → Type 0
AllSliced m =
    (p : String) (slices : List TaskSlice) → get m p ≡ some slices → is_empty slices ≡ false

is_empty-append : (xs : List TaskSlice) (x : TaskSlice) → is_empty (xs ++ x ∷ []) ≡ false
is_empty-append [] x = refl
is_empty-append (y ∷ xs) x = refl

add_slice-AllSliced :
    (index : ℕ) (s : TaskSlice) (o : Option PlanTask) (g : Grouping)
    → AllSliced g.slices_by_parent
    → AllSliced (add_slice index s o g).slices_by_parent
unfolding AllSliced
add_slice-AllSliced index s none g h = h
add_slice-AllSliced index s (some parent) g h = λ p slices e.
    let before = or_else (get g.slices_by_parent s.parent_task_id) [] in
    let e' = sym (get-put g.slices_by_parent s.parent_task_id p (before ++ s ∷ [])) ∙ e in
    elim (Bool-cases (s.parent_task_id == p)) [
      | inl same ↦
          ap (λ o. is_empty (or_else o [])) (sym (rw same at e')) ∙ is_empty-append before s
      | inr other ↦ h p slices (rw other at e')
    ]

group_slices-AllSliced :
    (m : Dict PlanTask) (index : ℕ) (slices : List TaskSlice) (g : Grouping)
    → AllSliced g.slices_by_parent
    → AllSliced (group_slices m index slices g).slices_by_parent
unfolding group_slices
group_slices-AllSliced m index [] g h = h
group_slices-AllSliced m index (s ∷ slices) g h =
    group_slices-AllSliced m (index + 1) slices _
      (add_slice-AllSliced index s (get m s.parent_task_id) g h)

has-flat_map :
    (f : PlanTask → List String) (xs ys : List PlanTask) (c : String)
    → has (flat_map f (xs ++ ys)) c ≡ (has (flat_map f xs) c || has (flat_map f ys) c)
has-flat_map f [] ys c = refl
has-flat_map f (x ∷ xs) ys c =
    has-append (f x) (flat_map f (xs ++ ys)) c
    ∙ ground (arith, has-append (f x) (flat_map f xs) c, has-flat_map f xs ys c)

module _ (parent : PlanTask) (last : Dict String) (c : String) where
  build_slice_tasks-covered :
      (base : List String) (slices : List TaskSlice)
      → has (covered_ids (build_slice_tasks parent last base slices)) c
        ≡ (not (is_empty slices) && has parent.covers c)
  unfolding build_slice_tasks
  build_slice_tasks-covered base [] = refl
  build_slice_tasks-covered base (s ∷ slices) =
      has-append parent.covers (covered_ids (build_slice_tasks parent last (s.id ∷ []) slices)) c
      ∙ ground (arith, build_slice_tasks-covered (s.id ∷ []) slices)

  build_slice_tasks-referred :
      (base : List String) (slices : List TaskSlice)
      → has (referred_ids (build_slice_tasks parent last base slices)) c
        ≡ (not (is_empty slices) && has (ref_ids (or_else parent.acceptance_test_refs [])) c)
  unfolding build_slice_tasks
  build_slice_tasks-referred base [] = refl
  build_slice_tasks-referred base (s ∷ []) =
      has-append (ref_ids (or_else parent.acceptance_test_refs [])) [] c ∙ ground arith
  build_slice_tasks-referred base (s ∷ s' ∷ slices) =
      build_slice_tasks-referred (s.id ∷ []) (s' ∷ slices)

module _ (m : Dict (List TaskSlice)) (all_sliced : AllSliced m) (c : String) where
  replacement-covered :
      (t : PlanTask) (o : Option (List TaskSlice))
      → get m t.id ≡ o
      → (has (covered_ids (replacement (last_slices m) t o)) c ≡ has t.covers c)
        × (has (referred_ids (replacement (last_slices m) t o)) c
            ≡ has (ref_ids (or_else t.acceptance_test_refs [])) c)
  unfolding AllSliced rewrite_dependencies
  replacement-covered t none e = (
    has-append t.covers [] c ∙ ground arith,
    has-append (ref_ids (or_else t.acceptance_test_refs [])) [] c ∙ ground arith,
  )
  replacement-covered t (some slices) e =
      let last = last_slices m in
      let base = redirect last t.depends_on in
      (
        ground (arith, build_slice_tasks-covered t last c base slices, all_sliced t.id slices e),
        ground (arith, build_slice_tasks-referred t last c base slices, all_sliced t.id slices e),
      )

  replaced_tasks-covered :
      (tasks : List PlanTask)
      → (has (covered_ids (replaced_tasks tasks m)) c ≡ has (covered_ids tasks) c)
        × (has (referred_ids (replaced_tasks tasks m)) c ≡ has (referred_ids tasks) c)
  unfolding replaced_tasks
  replaced_tasks-covered [] = (refl, refl)
  replaced_tasks-covered (t ∷ tasks) =
      let last = last_slices m in
      let here = replacement-covered t (get m t.id) refl in
      let later = replaced_tasks-covered tasks in
      let pieces = replacement last t (get m t.id) in
      (
        has-flat_map (λ u. u.covers) pieces (replaced_tasks tasks m) c
            ∙ ground (arith, here.0, later.0, has-append t.covers (covered_ids tasks) c),
        has-flat_map (λ u. ref_ids (or_else u.acceptance_test_refs [])) pieces
              (replaced_tasks tasks m) c
            ∙ ground (
              arith,
              here.1,
              later.1,
              has-append (ref_ids (or_else t.acceptance_test_refs [])) (referred_ids tasks) c,
            ),
      )

grouped-AllSliced :
    (tasks : List PlanTask) (slices : List TaskSlice)
    → AllSliced (grouped tasks slices).slices_by_parent
unfolding grouped AllSliced
grouped-AllSliced tasks slices = group_slices-AllSliced (by_id tasks []) 0 slices _ (λ p ss e. cc)

-- The plan that is made of slices covers what the plan covered: both have the same criteria without a
-- covering task, and the same criteria without a reference to an acceptance test.
pub sliced_plan-coverage :
    (plan : CandidatePlan) (slices : List TaskSlice) (criteria : List String)
    → let tasks = (sliced_plan plan (grouped plan.tasks slices).slices_by_parent).tasks in
      (validate_ac_coverage criteria tasks none ≡ validate_ac_coverage criteria plan.tasks none)
      × (check_acceptance_test_refs_coverage tasks criteria
          ≡ check_acceptance_test_refs_coverage plan.tasks criteria)
unfolding validate_ac_coverage check_acceptance_test_refs_coverage
sliced_plan-coverage plan slices criteria =
    let m = (grouped plan.tasks slices).slices_by_parent in
    let same =
      λ (c : String). replaced_tasks-covered m (grouped-AllSliced plan.tasks slices) c plan.tasks in
    (
      ap (λ covered. ac_coverage (filter (λ c. not (covered c)) criteria))
          (fun_ext (λ c. (same c).0)),
      ap (λ referred. refs_coverage (filter (λ c. not (referred c)) (unique [] criteria)))
          (fun_ext (λ c. (same c).1)),
    )
