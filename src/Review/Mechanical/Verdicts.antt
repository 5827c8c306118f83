-- ===== src/Review/Mechanical/Verdicts.antt =====
-- The verdict of the mechanical gate, against an account of the artifacts that it compares.
use protostar.Base.{
  ◌≡◌, refl, ◌∙◌, ◌↔◌, String, Bool, true, false, not, List, [], ◌∷◌, ◌++◌, Option, none, some,
  arith, Dict, get, any, any-append, All, flat_map, is_empty, if◌then◌else◌,
}
use protostar.Execution.Tasks.{StageArtifactRef, succeeded, DryRunTaskResult, DryRunResult}
use protostar.Review.Types.{pass, repair, block, ReviewFinding}
use protostar.Review.Mechanical.{
  MechanicalReviewGateInput, Contract, contract_findings, task_findings, foreign_findings,
  artifact_findings, inconsistency, when, review_execution_consistency, review_execution_completion,
  task_evidence_findings, is_failed, review_task_evidence, is_critical, verdict_of,
  create_review_gate, create_mechanical_review_gate,
}
use protostar.Review.Mechanical.Agreement.{
  IsConsistent, IsComplete, is_empty-append_iff, review_execution_consistency_iff,
}

abbrev has_critical : List ReviewFinding → Bool
has_critical fs = any (λ f. is_critical f.severity) fs

-- All of the findings, or none of them, are critical.
unfoldable AllCritical : List ReviewFinding → Type 0
AllCritical fs = has_critical fs ≡ not (is_empty fs)

append-AllCritical :
    (xs ys : List ReviewFinding) → AllCritical xs → AllCritical ys → AllCritical (xs ++ ys)
unfolding AllCritical
append-AllCritical [] ys h k = k
append-AllCritical (x ∷ xs) ys h k = ground (arith, any-append (λ f. is_critical f.severity) xs ys)

flat_map-AllCritical :
    (f : String → List ReviewFinding) (xs : List String)
    → ((x : String) → AllCritical (f x))
    → AllCritical (flat_map f xs)
unfolding AllCritical
flat_map-AllCritical f [] h = refl
flat_map-AllCritical f (x ∷ xs) h =
    append-AllCritical (f x) (flat_map f xs) (h x) (flat_map-AllCritical f xs h)

contract_findings-AllCritical :
    (missing mismatch : String) (refs : List StageArtifactRef) (a o : Option Contract)
    → AllCritical (contract_findings missing mismatch refs a o)
unfolding AllCritical contract_findings
contract_findings-AllCritical missing mismatch refs a none = refl
contract_findings-AllCritical missing mismatch refs none (some c) = refl
contract_findings-AllCritical missing mismatch refs (some a) (some c) = ground arith

task_findings-AllCritical :
    (admitted execution result : Dict Contract) (id : String)
    → AllCritical (task_findings admitted execution result id)
unfolding task_findings
task_findings-AllCritical admitted execution result id =
    append-AllCritical _ _
      (contract_findings-AllCritical _ _ _ (get admitted id) (get execution id))
      (contract_findings-AllCritical _ _ _ (get admitted id) (get result id))

foreign_findings-AllCritical :
    (admitted : Dict Contract) (id : String) → AllCritical (foreign_findings admitted id)
unfolding AllCritical foreign_findings
foreign_findings-AllCritical admitted id = ground arith

when-AllCritical :
    (b : Bool) (summary : String) (refs : List StageArtifactRef)
    → AllCritical (when b (inconsistency summary refs))
unfolding AllCritical when
when-AllCritical true summary refs = refl
when-AllCritical false summary refs = refl

ruleset critical_findings = (
  append-AllCritical, flat_map-AllCritical, when-AllCritical, task_findings-AllCritical,
  foreign_findings-AllCritical,
)

consistency-AllCritical :
    (input : MechanicalReviewGateInput) → AllCritical (review_execution_consistency input)
unfolding review_execution_consistency artifact_findings
consistency-AllCritical input = search critical_findings

-- The other findings are not critical, and absent when the run is complete.
completion-major :
    (result : DryRunResult) → has_critical (review_execution_completion result) ≡ false
unfolding review_execution_completion
completion-major result = ground arith

evidence-major :
    (rs : List DryRunTaskResult) → has_critical (flat_map task_evidence_findings rs) ≡ false
unfolding task_evidence_findings
evidence-major [] = refl
evidence-major (r ∷ rs) = ground (arith, evidence-major rs)

completion_iff :
    (result : DryRunResult)
    → (is_empty (review_execution_completion result) ≡ true) ↔ (result.status ≡ succeeded)
unfolding review_execution_completion
completion_iff result = ground arith

evidence_iff :
    (rs : List DryRunTaskResult)
    → (is_empty (flat_map task_evidence_findings rs) ≡ true)
      ↔ All (λ r. (is_failed r.task.status ≡ false) × (is_empty r.evidence ≡ false)) rs
unfolding task_evidence_findings
evidence_iff [] = (λ _. tt, λ _. refl)
evidence_iff (r ∷ rs) = ground (arith, evidence_iff rs)

-- Findings of which the first are critical and the others are not.
verdict_of-append :
    (xs ys : List ReviewFinding)
    → AllCritical xs
    → has_critical ys ≡ false
    → verdict_of (xs ++ ys)
      ≡ (if is_empty xs then (if is_empty ys then pass else repair) else block)
unfolding AllCritical verdict_of
verdict_of-append [] ys h k = ground arith
verdict_of-append (x ∷ xs) ys h k = ground (arith, any-append (λ f. is_critical f.severity) xs ys)

verdict_cases :
    (b c : Bool) {P Q : Type 0}
    → (b ≡ true) ↔ P
    → (c ≡ true) ↔ Q
    → (((if b then (if c then pass else repair) else block) ≡ block) ↔ (¬ P))
      × (((if b then (if c then pass else repair) else block) ≡ pass) ↔ (P × Q))
verdict_cases true true i j =
    ((λ h. cc, λ n. absurd (n (i.0 refl))), (λ _. (i.0 refl, j.0 refl), λ _. refl))
verdict_cases true false i j =
    ((λ h. cc, λ n. absurd (n (i.0 refl))), (λ h. cc, λ (p, q). absurd (cc (j.1 q))))
verdict_cases false c i j =
    ((λ _ p. cc (i.1 p), λ _. refl), (λ h. cc, λ (p, q). absurd (cc (i.1 p))))

-- The gate blocks exactly when the execution or its result does not agree with the admitted plan, and
-- passes exactly when they agree with it, the run has succeeded, no task has failed and each has
-- evidence; otherwise it asks for a repair.
pub create_mechanical_review_gate-verdict :
    (input : MechanicalReviewGateInput)
    → (((create_mechanical_review_gate input).verdict ≡ block) ↔ (¬ (IsConsistent input)))
      × (((create_mechanical_review_gate input).verdict ≡ pass)
          ↔ (IsConsistent input × IsComplete input.execution_result))
unfolding create_mechanical_review_gate create_review_gate review_task_evidence
create_mechanical_review_gate-verdict input =
    let cs = review_execution_consistency input in
    let ds = review_execution_completion input.execution_result in
    let es = flat_map task_evidence_findings input.execution_result.tasks in
    let consistent = review_execution_consistency_iff input in
    let complete =
      is_empty-append_iff ds es (completion_iff input.execution_result)
        (evidence_iff input.execution_result.tasks) in
    rw
      (verdict_of-append cs (ds ++ es) (consistency-AllCritical input) (
        any-append (λ f. is_critical f.severity) ds es
        ∙ ground (
          arith,
          completion-major input.execution_result,
          evidence-major input.execution_result.tasks,
        )))
      (verdict_cases (is_empty cs) (is_empty (ds ++ es)) consistent complete)
