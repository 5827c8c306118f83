-- ===== src/CiVerdict.antt =====
-- computeCiVerdict of packages/delivery-runtime/src/compute-ci-verdict.ts: the CI status of a pull
-- request, over the checks that the operator requires.
mod Examples
use protostar.Base.{
  ◌≡◌, refl, ◌↔◌, ◌⊎◌, inl, inr, String, Bool, true, false, not, ◌&&◌, List, [], ◌∷◌, Option, none,
  some, arith, ◌==◌, eq_iff, ap, has, all, any, is_empty, Bool-cases, if◌then◌else◌,
}

pub data CiVerdict : Type 0 where
  pass fail pending no_checks_configured : CiVerdict

pub record CiCheckRun : Type 0 where
  pub name : String
  pub status : String
  pub conclusion : Option String

abbrev pub failing_conclusions : List String
failing_conclusions = "failure" ∷ "cancelled" ∷ "timed_out" ∷ "action_required" ∷ []

abbrev pub passing_conclusions : List String
passing_conclusions = "success" ∷ "neutral" ∷ "skipped" ∷ []

-- `checkRuns.find((candidate) => candidate.name === name)`.
unfoldable pub find_run : List CiCheckRun → String → Option CiCheckRun
find_run [] name = none
find_run (r ∷ rs) name = if r.name == name then some r else find_run rs name

-- The loop over the required names: the run of each, or `none` at one that has no run.
unfoldable pub required_runs : List CiCheckRun → List String → Option (List CiCheckRun)
unfolding find_run
required_runs runs [] = some []
required_runs runs (name ∷ names) = elim (find_run runs name) [
  | none ↦ none
  | some r ↦ elim (required_runs runs names) [ none ↦ none | some rs ↦ some (r ∷ rs) ]
]

abbrev concluded_in : List String → Option String → Bool
concluded_in conclusions none = false
concluded_in conclusions (some c) = has conclusions c

unfoldable pub is_completed : CiCheckRun → Bool
is_completed r = r.status == "completed"

unfoldable pub is_failing : CiCheckRun → Bool
is_failing r = concluded_in failing_conclusions r.conclusion

unfoldable pub is_passing : CiCheckRun → Bool
is_passing r = concluded_in passing_conclusions r.conclusion

abbrev verdict_of_runs : List CiCheckRun → CiVerdict
verdict_of_runs rs =
    if any (λ r. not (is_completed r)) rs
    then pending
    else if any is_failing rs
    then fail
    else if all is_passing rs
    then pass
    else pending

abbrev verdict_of_found : Option (List CiCheckRun) → CiVerdict
verdict_of_found none = pending
verdict_of_found (some rs) = verdict_of_runs rs

unfoldable pub compute_ci_verdict : List CiCheckRun → (required_checks : List String) → CiVerdict
unfolding required_runs is_completed is_failing is_passing
compute_ci_verdict runs required_checks =
    if is_empty required_checks
    then no_checks_configured
    else verdict_of_found (required_runs runs required_checks)

-- The first run of the name has ended, in a conclusion that passes.
abbrev run_passed : Option CiCheckRun → Bool
run_passed none = false
run_passed (some r) = is_completed r && is_passing r

abbrev pub has_passed : List CiCheckRun → String → Bool
has_passed runs name = run_passed (find_run runs name)

abbrev passed_runs : Option (List CiCheckRun) → Bool
passed_runs none = false
passed_runs (some rs) = all (λ r. is_completed r && is_passing r) rs

required_runs-passed :
    (runs : List CiCheckRun) (names : List String)
    → passed_runs (required_runs runs names) ≡ all (has_passed runs) names
unfolding required_runs
required_runs-passed runs [] = refl
required_runs-passed runs (name ∷ names) = ground (arith, required_runs-passed runs names)

-- The first run of the name has ended in a conclusion that fails.
abbrev run_failed : Option CiCheckRun → Bool
run_failed none = false
run_failed (some r) = is_failing r

abbrev run_completed : Option CiCheckRun → Bool
run_completed none = false
run_completed (some r) = is_completed r

abbrev pub has_failed : List CiCheckRun → String → Bool
has_failed runs name = run_failed (find_run runs name)

abbrev pub has_completed : List CiCheckRun → String → Bool
has_completed runs name = run_completed (find_run runs name)

abbrev completed_runs : Option (List CiCheckRun) → Bool
completed_runs none = false
completed_runs (some rs) = all is_completed rs

abbrev failed_runs : Option (List CiCheckRun) → Bool
failed_runs none = false
failed_runs (some rs) = all is_completed rs && any is_failing rs

required_runs-completed :
    (runs : List CiCheckRun) (names : List String)
    → completed_runs (required_runs runs names) ≡ all (has_completed runs) names
unfolding required_runs
required_runs-completed runs [] = refl
required_runs-completed runs (name ∷ names) = ground (arith, required_runs-completed runs names)

required_runs-failed :
    (runs : List CiCheckRun) (names : List String)
    → failed_runs (required_runs runs names)
      ≡ (all (has_completed runs) names && any (has_failed runs) names)
unfolding required_runs
required_runs-failed runs [] = refl
required_runs-failed runs (name ∷ names) =
    ground (arith, required_runs-failed runs names, required_runs-completed runs names)

passing_cases :
    (c : String)
    → has passing_conclusions c ≡ true
    → (c ≡ "success") ⊎ ((c ≡ "neutral") ⊎ (c ≡ "skipped"))
passing_cases c h = ground (arith, eq_iff "success" c, eq_iff "neutral" c, eq_iff "skipped" c)

-- A conclusion that passes is not one that fails.
passing-failing :
    (o : Option String)
    → concluded_in passing_conclusions o ≡ true
    → concluded_in failing_conclusions o ≡ false
passing-failing none h = refl
passing-failing (some c) h = elim (passing_cases c h) [
  | inl e ↦ ap (has failing_conclusions) e
  | inr e ↦ elim e [
    | inl e ↦ ap (has failing_conclusions) e
    | inr e ↦ ap (has failing_conclusions) e
  ]
]

is_passing-is_failing : (r : CiCheckRun) → is_passing r ≡ true → is_failing r ≡ false
unfolding is_passing is_failing
is_passing-is_failing r h = passing-failing r.conclusion h

all_passing-any_failing :
    (rs : List CiCheckRun)
    → all (λ r. is_completed r && is_passing r) rs
      ≡ (all is_completed rs && (not (any is_failing rs) && all is_passing rs))
all_passing-any_failing [] = refl
all_passing-any_failing (r ∷ rs) =
    ground (arith, all_passing-any_failing rs, is_passing-is_failing r)

any_incomplete :
    (rs : List CiCheckRun) → any (λ r. not (is_completed r)) rs ≡ not (all is_completed rs)
any_incomplete [] = refl
any_incomplete (r ∷ rs) = ground (arith, any_incomplete rs)

-- Over the runs that were found: the verdict is the conjunction that the tests read.
verdict_of_runs-reads :
    (o : Option (List CiCheckRun))
    → verdict_of_found o ≡ (if passed_runs o then pass else if failed_runs o then fail else pending)
verdict_of_runs-reads none = refl
verdict_of_runs-reads (some rs) = ground (arith, all_passing-any_failing rs, any_incomplete rs)

-- With checks required, the verdict is "pass" exactly when the first run of each required name has
-- completed in a passing conclusion; it is "fail" exactly when all of them have completed and one
-- has a failing conclusion; otherwise, a missing run among the reasons, it is "pending". With none
-- required, it says so.
pub compute_ci_verdict-conjunction :
    (runs : List CiCheckRun) (required_checks : List String)
    → compute_ci_verdict runs required_checks ≡ (
        if is_empty required_checks
        then no_checks_configured
        else if all (has_passed runs) required_checks
        then pass
        else if all (has_completed runs) required_checks && any (has_failed runs) required_checks
        then fail
        else pending)
unfolding compute_ci_verdict
compute_ci_verdict-conjunction runs required_checks = rw (
  verdict_of_runs-reads (required_runs runs required_checks),
  required_runs-passed runs required_checks,
  required_runs-failed runs required_checks,
)
