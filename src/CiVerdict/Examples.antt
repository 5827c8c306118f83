-- ===== src/CiVerdict/Examples.antt =====
-- A required check that has passed and one that has failed.
use protostar.Base.{◌≡◌, String, [], ◌∷◌, some}
use protostar.CiVerdict.{
  fail, CiCheckRun, find_run, is_completed, is_failing, is_passing, compute_ci_verdict,
  compute_ci_verdict-conjunction,
}

abbrev ended : String → String → CiCheckRun
ended name conclusion = record { name = name; status = "completed"; conclusion = some conclusion }

compute_ci_verdict-conjunction_example :
    compute_ci_verdict
      (ended "build" "success" ∷ ended "test" "failure" ∷ [])
      ("build" ∷ "test" ∷ [])
    ≡ fail
unfolding find_run is_completed is_failing is_passing
compute_ci_verdict-conjunction_example =
    compute_ci_verdict-conjunction (ended "build" "success" ∷ ended "test" "failure" ∷ [])
      ("build" ∷ "test" ∷ [])
