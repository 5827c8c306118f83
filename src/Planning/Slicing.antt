-- ===== src/Planning/Slicing.antt =====
-- packages/planning/src/admit-work-slicing.ts: a plan whose tasks are split into slices. The texts of
-- the errors are shown by constructors. admitCandidatePlan, which the plan is handed to at the end, is
-- a parameter.
pub mod Coverage
pub mod Bounds
pub mod Parts
mod Examples
use Prim.Native.String
use protostar.Base.{
  ℕ, ◌+◌, String, Bool, true, false, not, List, [], ◌∷◌, ◌++◌, map, flat_map, filter, Option, none,
  some, or_else, Dict, get, put, has, is_empty, if◌then◌else◌,
}
use protostar.Planning.Types.{RequiredCapabilities, PlanTask}
use protostar.Planning.Order.{by_id}

pub record TaskSlice : Type 0 where
  pub id : String
  pub parent_task_id : String
  pub title : String
  pub target_files : List String
  pub extra_depends_on : Option (List String)
  pub required_capabilities : Option RequiredCapabilities

pub data SlicingError : Type 0 where
  unknown_parent no_files_declared : (index : ℕ) → SlicingError
  file_expansion scope_expansion tool_expansion : (index : ℕ) (entry : String) → SlicingError

-- The first file that the parent does not have.
abbrev pub first_outside : List String → List String → Option String
first_outside allowed [] = none
first_outside allowed (f ∷ fs) = if has allowed f then first_outside allowed fs else some f

abbrev pub file_error : ℕ → Option String → Option SlicingError
file_error index none = none
file_error index (some f) = some (file_expansion index f)

unfoldable pub validate_target_files_subset : TaskSlice → PlanTask → ℕ → Option SlicingError
validate_target_files_subset slice parent index =
    let allowed = or_else parent.target_files [] in
    if is_empty allowed
    then (if is_empty slice.target_files then none else some (no_files_declared index))
    else file_error index (first_outside allowed slice.target_files)

-- An error for each entry that is not allowed.
abbrev pub expansions : (String → SlicingError) → List String → List String → List SlicingError
expansions error allowed entries = map error (filter (λ e. not (has allowed e)) entries)

abbrev pub scope_paths : RequiredCapabilities → List String
scope_paths c = map (λ s. s.path) c.repo_scopes

abbrev pub tool_names : RequiredCapabilities → List String
tool_names c = map (λ p. p.tool) c.tool_permissions

abbrev pub capability_errors :
    ℕ → RequiredCapabilities → Option RequiredCapabilities → List SlicingError
capability_errors index parent none = []
capability_errors index parent (some declared) =
    expansions (scope_expansion index) (scope_paths parent) (scope_paths declared)
    ++ expansions (tool_expansion index) (tool_names parent) (tool_names declared)

unfoldable pub validate_capability_envelope : TaskSlice → PlanTask → ℕ → List SlicingError
validate_capability_envelope slice parent index =
    capability_errors index parent.required_capabilities slice.required_capabilities

abbrev pub error_list : Option SlicingError → List SlicingError
error_list none = []
error_list (some e) = e ∷ []

-- What the loop over the slices appends to.
pub record Grouping : Type 0 where
  pub errors : List SlicingError
  pub slices_by_parent : Dict (List TaskSlice)

abbrev pub add_slice : ℕ → TaskSlice → Option PlanTask → Grouping → Grouping
add_slice index slice none g = record g { errors = g.errors ++ unknown_parent index ∷ [] }
add_slice index slice (some parent) g = record {
  errors =
      (g.errors ++ error_list (validate_target_files_subset slice parent index))
      ++ validate_capability_envelope slice parent index;
  slices_by_parent =
      put g.slices_by_parent slice.parent_task_id
        (or_else (get g.slices_by_parent slice.parent_task_id) [] ++ slice ∷ []);
}

unfoldable pub group_slices : Dict PlanTask → ℕ → List TaskSlice → Grouping → Grouping
group_slices tasks_by_id index [] g = g
group_slices tasks_by_id index (s ∷ slices) g =
    group_slices tasks_by_id (index + 1) slices
      (add_slice index s (get tasks_by_id s.parent_task_id) g)

abbrev last_id : String → List TaskSlice → String
last_id id [] = id
last_id id (s ∷ slices) = last_id s.id slices

-- lastSliceForParent
unfoldable pub last_slices : Dict (List TaskSlice) → Dict String
last_slices [] = []
last_slices ((parent, []) ∷ m) = last_slices m
last_slices ((parent, s ∷ slices) ∷ m) = (parent, last_id s.id slices) ∷ last_slices m

abbrev pub redirect : Dict String → List String → List String
redirect last deps = map (λ d. or_else (get last d) d) deps

-- A task without a replaced dependency is returned as it is, which is the same value.
unfoldable pub rewrite_dependencies : PlanTask → Dict String → PlanTask
rewrite_dependencies task last = record task { depends_on = redirect last task.depends_on }

abbrev pub slice_task : PlanTask → Dict String → List String → Bool → TaskSlice → PlanTask
slice_task parent last base_deps is_last slice = record {
  id = slice.id;
  title = slice.title;
  kind = parent.kind;
  depends_on = base_deps ++ redirect last (or_else slice.extra_depends_on []);
  covers = parent.covers;
  target_files = some slice.target_files;
  acceptance_test_refs = if is_last then parent.acceptance_test_refs else none;
  adapter_ref = parent.adapter_ref;
  required_capabilities = or_else slice.required_capabilities parent.required_capabilities;
  risk = parent.risk;
}

-- The loop of buildSliceTasks; `base_deps` are those of the next slice.
unfoldable pub build_slice_tasks :
    PlanTask → Dict String → List String → List TaskSlice → List PlanTask
build_slice_tasks parent last base_deps [] = []
build_slice_tasks parent last base_deps (s ∷ slices) =
    slice_task parent last base_deps (is_empty slices) s
    ∷ build_slice_tasks parent last (s.id ∷ []) slices

abbrev pub replacement : Dict String → PlanTask → Option (List TaskSlice) → List PlanTask
replacement last task none = rewrite_dependencies task last ∷ []
replacement last task (some slices) =
    build_slice_tasks task last (redirect last task.depends_on) slices

unfoldable pub replaced_tasks : List PlanTask → Dict (List TaskSlice) → List PlanTask
unfolding build_slice_tasks rewrite_dependencies last_slices
replaced_tasks tasks by_parent =
    flat_map (λ t. replacement (last_slices by_parent) t (get by_parent t.id)) tasks

abbrev no_slices : Grouping
no_slices = record { errors = []; slices_by_parent = [] }

unfoldable pub grouped : List PlanTask → List TaskSlice → Grouping
unfolding group_slices validate_target_files_subset validate_capability_envelope by_id
grouped tasks slices = group_slices (by_id tasks []) 0 slices no_slices

pub record CandidatePlan : Type 0 where
  pub plan_id : String
  pub intent_id : String
  pub created_at : String
  pub strategy : String
  pub acceptance_criteria : List String
  pub tasks : List PlanTask

abbrev pub sliced_plan : CandidatePlan → Dict (List TaskSlice) → CandidatePlan
sliced_plan plan by_parent = record plan {
  plan_id = String.◌++◌ plan.plan_id "-sliced";
  strategy = String.◌++◌ plan.strategy " (work-sliced)";
  tasks = replaced_tasks plan.tasks by_parent;
}

-- What admitCandidatePlan returns: an admitted plan or the reasons of a rejection.
pub data Admission (A Reason : Type 0) : Type 0 where
  admitted : A → Admission A Reason
  rejected : List Reason → Admission A Reason

pub data SlicingResult (A Reason : Type 0) : Type 0 where
  sliced : A → SlicingResult A Reason
  invalid_slices : List SlicingError → SlicingResult A Reason
  not_admitted : List Reason → SlicingResult A Reason

abbrev pub after_admission : {A Reason : Type 0} → Admission A Reason → SlicingResult A Reason
after_admission (admitted a) = sliced a
after_admission (rejected reasons) = not_admitted reasons

unfoldable pub admit_work_slicing :
    {A Reason : Type 0}
    → (CandidatePlan → Admission A Reason)
    → List TaskSlice
    → CandidatePlan
    → SlicingResult A Reason
unfolding grouped replaced_tasks
admit_work_slicing admit_candidate_plan slices plan =
    let g = grouped plan.tasks slices in
    if is_empty g.errors
    then after_admission (admit_candidate_plan (sliced_plan plan g.slices_by_parent))
    else invalid_slices g.errors
