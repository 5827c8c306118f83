-- ===== src/Planning/Slicing/Examples.antt =====
-- Tests of the slicing, and its theorems at a plan of two tasks, the first split in two.
use protostar.Base.{◌≡◌, refl, String, List, [], ◌∷◌, Option, none, some, All}
use protostar.Authority.Envelope.{Access, read, write, no_budget}
use protostar.Planning.Types.{implementation, low, RequiredCapabilities, PlanTask}
use protostar.Planning.Coverage.{validate_ac_coverage, check_acceptance_test_refs_coverage}
use protostar.Planning.Slicing.{
  TaskSlice, grouped, CandidatePlan, sliced_plan, Admission, admitted, sliced, invalid_slices,
  file_expansion, admit_work_slicing,
}
use protostar.Planning.Slicing.Coverage.{sliced_plan-coverage}
use protostar.Planning.Slicing.Parts.{IsPartOfSome, admit_work_slicing-IsPartOfSome}

abbrev source_scope : Access → RequiredCapabilities
source_scope access = record {
  repo_scopes = record { workspace = "main"; path = "src"; access = access } ∷ [];
  tool_permissions = [];
  execute_grants = none;
  allow_dirty = none;
  network = none;
  budget = no_budget;
}

abbrev task : String → List String → PlanTask
task id depends_on = record {
  id = id;
  title = "a task";
  kind = implementation;
  depends_on = depends_on;
  covers = "ac_1" ∷ [];
  target_files = some ("a.ts" ∷ "b.ts" ∷ []);
  acceptance_test_refs = none;
  adapter_ref = none;
  required_capabilities = source_scope read;
  risk = low;
}

abbrev plan : CandidatePlan
plan = record {
  plan_id = "plan";
  intent_id = "intent";
  created_at = "now";
  strategy = "one by one";
  acceptance_criteria = "ac_1" ∷ [];
  tasks = task "task-a" [] ∷ task "task-b" ("task-a" ∷ []) ∷ [];
}

abbrev slice : String → String → Option RequiredCapabilities → TaskSlice
slice id file capabilities = record {
  id = id;
  parent_task_id = "task-a";
  title = "a slice";
  target_files = file ∷ [];
  extra_depends_on = none;
  required_capabilities = capabilities;
}

abbrev two_slices : List TaskSlice
two_slices = slice "task-a1" "a.ts" none ∷ slice "task-a2" "b.ts" none ∷ []

abbrev accept : CandidatePlan → Admission CandidatePlan String
accept = admitted

abbrev two_slices_plan : CandidatePlan
two_slices_plan = sliced_plan plan (grouped plan.tasks two_slices).slices_by_parent

abbrev dependencies : List PlanTask → List (List String)
dependencies [] = []
dependencies (t ∷ ts) = t.depends_on ∷ dependencies ts

two_slices_dependencies :
    dependencies two_slices_plan.tasks ≡ [] ∷ ("task-a1" ∷ []) ∷ ("task-a2" ∷ []) ∷ []
unfolding admit_work_slicing
two_slices_dependencies = refl

-- A slice may not touch other files, but the access of a scope is not compared.
wider_file :
    admit_work_slicing accept (slice "task-a1" "c.ts" none ∷ []) plan
    ≡ invalid_slices (file_expansion 0 "c.ts" ∷ [])
unfolding admit_work_slicing
wider_file = refl

abbrev wider_slices : List TaskSlice
wider_slices = slice "task-a1" "a.ts" (some (source_scope write)) ∷ []

wider_access :
    admit_work_slicing accept wider_slices plan
    ≡ sliced (sliced_plan plan (grouped plan.tasks wider_slices).slices_by_parent)
unfolding admit_work_slicing
wider_access = refl

two_slices_admitted : admit_work_slicing accept two_slices plan ≡ sliced two_slices_plan
unfolding admit_work_slicing
two_slices_admitted = refl

sliced_plan-coverage_example :
    (validate_ac_coverage ("ac_1" ∷ "ac_2" ∷ []) two_slices_plan.tasks none
      ≡ validate_ac_coverage ("ac_1" ∷ "ac_2" ∷ []) plan.tasks none)
    × (check_acceptance_test_refs_coverage two_slices_plan.tasks ("ac_1" ∷ "ac_2" ∷ [])
        ≡ check_acceptance_test_refs_coverage plan.tasks ("ac_1" ∷ "ac_2" ∷ []))
sliced_plan-coverage_example = sliced_plan-coverage plan two_slices ("ac_1" ∷ "ac_2" ∷ [])

admit_work_slicing-IsPartOfSome_example :
    (candidate : CandidatePlan) × (accept candidate ≡ admitted two_slices_plan)
    × All (IsPartOfSome plan.tasks) candidate.tasks
admit_work_slicing-IsPartOfSome_example =
    admit_work_slicing-IsPartOfSome accept two_slices plan two_slices_plan (refl, (refl, tt))
      two_slices_admitted
