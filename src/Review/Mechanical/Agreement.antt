-- ===== src/Review/Mechanical/Agreement.antt =====
-- What the findings of the mechanical gate say: there is none on consistency exactly when the
-- execution and its result agree with the admitted plan.
use protostar.Base.{
  ◌≡◌, refl, subst, ◌∙◌, ◌↔◌, inl, inr, String, Bool, true, false, not, ◌&&◌, ◌||◌, List, [], ◌∷◌,
  ◌++◌, Option, none, some, arith, eq_iff, eq_refl, ◌==◌, Dict, get, put, keys, get-put, has-keys,
  has, has-append, All, flat_map, map, is_some, is_empty, iff_trans, Bool-cases, Option-cases,
}
use protostar.Execution.Tasks.{StageArtifactRef, succeeded, DryRunResult}
use protostar.Review.Types.{ReviewFinding}
use protostar.Review.Loop.{unique}
use protostar.Review.Mechanical.{
  PlanEvidence, MechanicalReviewGateInput, Contract, same_admitted_plan_evidence,
  same_ordered_values, differs, contracts_from, artifact_contracts, execution_contracts,
  execution_contract, result_contract, result_contracts, contract_findings, task_findings,
  foreign_findings, artifact_findings, when, review_execution_consistency, is_failed,
}

-- The execution and its result carry the ids and the evidence of the admitted plan and, for each
-- id, the same title and dependencies as the plan has for it, if it has any. Where tasks share an
-- id, the last of them counts.
pub record IsConsistent (input : MechanicalReviewGateInput) : Type 0 where
  pub same_run : input.execution.plan.run_id ≡ input.execution_result.run_id
  pub execution_of_plan : input.execution.plan.plan_id ≡ input.admitted_plan.plan_id
  pub result_of_plan : input.execution_result.plan_id ≡ input.admitted_plan.plan_id
  pub same_evidence : input.execution.admitted_plan ≡ input.admitted_plan.evidence
  pub execution_tasks :
      (id : String)
      → get (execution_contracts input.execution.plan.tasks) id
        ≡ get (artifact_contracts input.admitted_plan.tasks) id
  pub result_tasks :
      (id : String)
      → get (result_contracts input.execution_result.tasks) id
        ≡ get (artifact_contracts input.admitted_plan.tasks) id

-- The run succeeded, no task has failed, and each has evidence.
abbrev pub IsComplete : DryRunResult → Type 0
IsComplete result =
    (result.status ≡ succeeded)
    × All (λ r. (is_failed r.task.status ≡ false) × (is_empty r.evidence ≡ false)) result.tasks

same_ordered_values_iff : (xs ys : List String) → (same_ordered_values xs ys ≡ true) ↔ (xs ≡ ys)
unfolding same_ordered_values
same_ordered_values_iff [] [] = (λ _. refl, λ _. refl)
same_ordered_values_iff [] (y ∷ ys) = (λ h. cc, λ h. cc)
same_ordered_values_iff (x ∷ xs) [] = (λ h. cc, λ h. cc)
same_ordered_values_iff (x ∷ xs) (y ∷ ys) =
    ground (arith, eq_iff x y, same_ordered_values_iff xs ys)

differs_iff : (c d : Contract) → (differs c d ≡ false) ↔ (c ≡ d)
unfolding differs
differs_iff (t, ds) (u, es) = ground (arith, eq_iff t u, same_ordered_values_iff ds es)

same_admitted_plan_evidence_iff :
    (e f : PlanEvidence) → (same_admitted_plan_evidence e f ≡ true) ↔ (e ≡ f)
unfolding same_admitted_plan_evidence
same_admitted_plan_evidence_iff e f = ground (
  arith,
  eq_iff e.plan_id f.plan_id,
  eq_iff e.intent_id f.intent_id,
  eq_iff e.plan_graph_uri f.plan_graph_uri,
  eq_iff e.planning_admission_artifact f.planning_admission_artifact,
  eq_iff e.planning_admission_uri f.planning_admission_uri,
  eq_iff e.validation_source f.validation_source,
  eq_iff e.proof_source f.proof_source,
)

-- Lists that are empty.
module _ {A : Type 0} where
  is_empty-append : (xs ys : List A) → is_empty (xs ++ ys) ≡ (is_empty xs && is_empty ys)
  is_empty-append [] ys = refl
  is_empty-append (x ∷ xs) ys = refl

  pub is_empty-append_iff :
      (xs ys : List A) {P Q : Type 0}
      → (is_empty xs ≡ true) ↔ P
      → (is_empty ys ≡ true) ↔ Q
      → (is_empty (xs ++ ys) ≡ true) ↔ (P × Q)
  is_empty-append_iff [] ys f g = (λ h. (f.0 refl, g.0 h), λ p. g.1 p.1)
  is_empty-append_iff (x ∷ xs) ys f g = (λ h. absurd (cc), λ p. absurd (cc (f.1 p.0)))

  is_empty-flat_map :
      (f : String → List A) (xs : List String)
      → (is_empty (flat_map f xs) ≡ true) ↔ ((x : String) → has xs x ≡ true → is_empty (f x) ≡ true)
  is_empty-flat_map f [] = (λ _ x h. cc, λ _. refl)
  is_empty-flat_map f (x ∷ xs) = (
    λ h y m. elim (Bool-cases (x == y)) [
      | inl same ↦
          subst (λ z. is_empty (f z) ≡ true) ((eq_iff x y).0 same)
            (ground (arith, is_empty-append (f x) (flat_map f xs)))
      | inr other ↦
          (is_empty-flat_map f xs).0 (ground (arith, is_empty-append (f x) (flat_map f xs))) y
            (ground arith)
    ],
    λ h. ground (
      arith,
      is_empty-append (f x) (flat_map f xs),
      h x,
      eq_refl x,
      (is_empty-flat_map f xs).1 (λ y m. h y (ground arith)),
    ),
  )

has-unique :
    (seen ids : List String) (x : String)
    → (has (unique seen ids) x || has seen x) ≡ (has ids x || has seen x)
has-unique seen [] x = refl
has-unique seen (y ∷ ids) x =
    ground (arith, has-unique seen ids x, has-unique (y ∷ seen) ids x, eq_iff y x)

pub has-unique_nil : (ids : List String) (x : String) → has (unique [] ids) x ≡ has ids x
has-unique_nil ids x = ground (arith, has-unique [] ids x)

has-contracts_from :
    {A : Type 0} (id : A → String) (contract : A → Contract) (xs : List A) (m : Dict Contract)
    (j : String)
    → is_some (get (contracts_from id contract xs m) j) ≡ (has (map id xs) j || is_some (get m j))
unfolding contracts_from
has-contracts_from id contract [] m j = refl
has-contracts_from id contract (x ∷ xs) m j = ground (
  arith,
  has-contracts_from id contract xs (put m (id x) (contract x)) j,
  get-put m (id x) j (contract x),
)

not-true_iff : (b : Bool) {P : Type 0} → (b ≡ true) ↔ P → (not b ≡ false) ↔ P
not-true_iff true i = (λ _. i.0 refl, λ _. refl)
not-true_iff false i = (λ h. absurd (cc), λ p. absurd (cc (i.1 p)))

contract_findings_iff :
    (missing mismatch : String) (refs : List StageArtifactRef) (a : Contract) (o : Option Contract)
    → (is_empty (contract_findings missing mismatch refs (some a) o) ≡ true) ↔ (o ≡ some a)
unfolding contract_findings
contract_findings_iff missing mismatch refs a none = (λ h. cc, λ h. cc)
contract_findings_iff missing mismatch refs a (some c) = ground (arith, differs_iff c a)

foreign_findings_iff :
    (admitted : Dict Contract) (id : String)
    → (is_empty (foreign_findings admitted id) ≡ true) ↔ (is_some (get admitted id) ≡ true)
unfolding foreign_findings
foreign_findings_iff admitted id = ground (arith, has-keys admitted id)

module _ (admitted execution result : Dict Contract) where
  task_findings_iff :
      (id : String) (a : Contract)
      → get admitted id ≡ some a
      → (is_empty (task_findings admitted execution result id) ≡ true)
        ↔ ((get execution id ≡ some a) × (get result id ≡ some a))
  unfolding task_findings
  task_findings_iff id a e = rw e (
      is_empty-append_iff _ _ (contract_findings_iff _ _ _ a (get execution id))
        (contract_findings_iff _ _ _ a (get result id)))

  -- No finding on a task and none on a foreign id, exactly when the three agree.
  abbrev Agree : Type 0
  Agree =
      ((j : String) → get execution j ≡ get admitted j)
      × ((j : String) → get result j ≡ get admitted j)

  module _ (ids : List String)
      (known : (j : String)
        → has ids j ≡ (is_some (get execution j) || is_some (get result j))) where
    agree-at :
        ((x : String)
          → has (keys admitted) x ≡ true
          → is_empty (task_findings admitted execution result x) ≡ true)
        → ((x : String) → has ids x ≡ true → is_empty (foreign_findings admitted x) ≡ true)
        → (j : String) → (get execution j ≡ get admitted j) × (get result j ≡ get admitted j)
    agree-at h k j = elim (Option-cases (get admitted j)) [
      | inl unknown ↦ elim (Option-cases (get execution j)) [
        | inl no_task ↦ elim (Option-cases (get result j)) [
          | inl no_result ↦ ground arith
          | inr (c, e) ↦ absurd (ground (arith, foreign_findings_iff admitted j, k j, known j))
        ]
        | inr (c, e) ↦ absurd (ground (arith, foreign_findings_iff admitted j, k j, known j))
      ]
      | inr (a, e) ↦ ground (arith, task_findings_iff j a, h j, has-keys admitted j)
    ]

    agree_iff :
        (is_empty (
            flat_map (task_findings admitted execution result) (keys admitted)
            ++ flat_map (foreign_findings admitted) ids)
          ≡ true)
        ↔ Agree
    agree_iff =
        iff_trans
          (is_empty-append_iff _ _ (is_empty-flat_map _ (keys admitted)) (is_empty-flat_map _ ids))
          (
            λ (h, k). (λ j. (agree-at h k j).0, λ j. (agree-at h k j).1),
            λ (p, q). (
              λ x m. elim (Option-cases (get admitted x)) [
                | inl unknown ↦ absurd (ground (arith, has-keys admitted x))
                | inr (a, e) ↦ (task_findings_iff x a e).1 (p x ∙ e, q x ∙ e)
              ],
              λ x m. (foreign_findings_iff admitted x).1 (ground (arith, known x, p x, q x)),
            ),
          )

when_iff :
    (b : Bool) (f : ReviewFinding) {P : Type 0} → (b ≡ false) ↔ P → (is_empty (when b f) ≡ true) ↔ P
unfolding when
when_iff true f i = (λ h. absurd (cc), λ p. absurd (cc (i.1 p)))
when_iff false f i = (λ _. i.0 refl, λ _. refl)

not-eq_iff : (s t : String) → (not (s == t) ≡ false) ↔ (s ≡ t)
not-eq_iff s t = ground (arith, eq_iff s t)

-- There is no finding on consistency exactly when the artifacts agree.
pub review_execution_consistency_iff :
    (input : MechanicalReviewGateInput)
    → (is_empty (review_execution_consistency input) ≡ true) ↔ IsConsistent input
unfolding review_execution_consistency artifact_findings
review_execution_consistency_iff input =
    let plan = input.execution.plan in
    let result = input.execution_result in
    let same_plan = input.admitted_plan.plan_id in
    iff_trans
      (is_empty-append_iff _ _
        (is_empty-append_iff _ _ (when_iff _ _ (not-eq_iff plan.run_id result.run_id)) (
          is_empty-append_iff _ _
            (when_iff _ _ {P = (plan.plan_id ≡ same_plan) × (result.plan_id ≡ same_plan)}
              (ground (arith, eq_iff plan.plan_id same_plan, eq_iff result.plan_id same_plan)))
            (when_iff _ _ {P = input.execution.admitted_plan ≡ input.admitted_plan.evidence} (
              not-true_iff _ (
                same_admitted_plan_evidence_iff input.execution.admitted_plan
                  input.admitted_plan.evidence)))))
        (agree_iff (artifact_contracts input.admitted_plan.tasks) (execution_contracts plan.tasks)
          (result_contracts result.tasks)
          (unique [] (map (λ t. t.plan_task_id) plan.tasks)
            ++ unique [] (map (λ r. r.task.plan_task_id) result.tasks))
          (λ j. ground (
            arith,
            has-append (unique [] (map (λ t. t.plan_task_id) plan.tasks))
                (unique [] (map (λ r. r.task.plan_task_id) result.tasks)) j,
            has-unique_nil (map (λ t. t.plan_task_id) plan.tasks) j,
            has-unique_nil (map (λ r. r.task.plan_task_id) result.tasks) j,
            has-contracts_from (λ t. t.plan_task_id) execution_contract plan.tasks [] j,
            has-contracts_from (λ r. r.task.plan_task_id) result_contract result.tasks [] j,
          ))))
      (
        λ ((a, ((b, c), d)), (e, f)). record {
          same_run = a;
          execution_of_plan = b;
          result_of_plan = c;
          same_evidence = d;
          execution_tasks = e;
          result_tasks = f;
        },
        λ k. (
          (k.same_run, ((k.execution_of_plan, k.result_of_plan), k.same_evidence)),
          (k.execution_tasks, k.result_tasks),
        ),
      )
