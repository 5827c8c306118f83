-- ===== src/Review/Mechanical/Rounds.antt =====
-- One round of the loop for an execution that was prepared from the admitted plan: the artifacts
-- agree, and what has failed is up for repair.
use protostar.Base.{
  ℕ, ◌≡◌, ◌≢◌, refl, sym, ap, ap₂, ◌∙◌, inl, inr, String, Bool, true, false, not, ◌||◌, List, [],
  ◌∷◌, ◌++◌, some, arith, eq_iff, eq_refl, map, Dict, get, put, has, has-append, any, all, All,
  filter, has-filter, flat_map, IsDistinct, is_empty, Bool-cases,
}
use protostar.Execution.Tasks.{ExecutionTask, DryRunTaskResult, DryRunResult}
use protostar.Execution.DryRun.{run_execution_dry_run}
use protostar.Execution.DryRun.Steps.{ids}
use protostar.Execution.DryRun.Outcomes.{CanRun}
use protostar.Execution.DryRun.Runs.{
  has_succeeded, ran_results, run_execution_dry_run-succeeded_iff,
}
use protostar.Execution.DryRun.Results.{AreResultsOf, run_execution_dry_run-AreResultsOf}
use protostar.Planning.Handoff.{ArtifactTask, pending_task, prepare_execution_run}
use protostar.Review.Types.{Verdict, pass, repair, block, ReviewFinding, ReviewGate}
use protostar.Review.Loop.{finding_ids}
use protostar.Review.Mechanical.{
  AdmittedPlan, DerivedExecution, Contract, contracts_from, artifact_contract, execution_contract,
  result_contract, is_failed, task_evidence_findings, review_execution_consistency,
  review_execution_completion, review_task_evidence, create_review_gate,
  create_mechanical_review_gate, unique_repair_task_ids,
}
use protostar.Review.Mechanical.Agreement.{IsConsistent, has-unique_nil}
use protostar.Review.Mechanical.Verdicts.{create_mechanical_review_gate-verdict}

execution_contracts-pending :
    (ts : List ArtifactTask) (m : Dict Contract)
    → contracts_from (λ t. t.plan_task_id) execution_contract (map pending_task ts) m
      ≡ contracts_from (λ t. t.plan_task_id) artifact_contract ts m
unfolding contracts_from
execution_contracts-pending [] m = refl
execution_contracts-pending (t ∷ ts) m = execution_contracts-pending ts _

result_contracts-results :
    (fail_ids : List String) (ts : List ExecutionTask) (rs : List DryRunTaskResult)
    (m : Dict Contract)
    → AreResultsOf fail_ids ts rs
    → contracts_from (λ r. r.task.plan_task_id) result_contract rs m
      ≡ contracts_from (λ t. t.plan_task_id) execution_contract ts m
unfolding contracts_from
result_contracts-results fail_ids [] [] m h = refl
result_contracts-results fail_ids [] (r ∷ rs) m h = absurd h
result_contracts-results fail_ids (t ∷ ts) [] m h = absurd h
result_contracts-results fail_ids (t ∷ ts) (r ∷ rs) m ((named, titled, deps, _, _), h) =
    result_contracts-results fail_ids ts rs _ h
    ∙ ap (contracts_from (λ t. t.plan_task_id) execution_contract ts)
        (ap₂ (put m) named (ap₂ (λ a b. (a, b)) titled deps))

-- Where every result has succeeded, none has failed and each has evidence.
results_complete :
    (fail_ids : List String) (ts : List ExecutionTask) (rs : List DryRunTaskResult)
    → AreResultsOf fail_ids ts rs
    → all has_succeeded rs ≡ true
    → All (λ r. (is_failed r.task.status ≡ false) × (is_empty r.evidence ≡ false)) rs
results_complete fail_ids [] [] h e = tt
results_complete fail_ids [] (r ∷ rs) h e = absurd h
results_complete fail_ids (t ∷ ts) [] h e = absurd h
results_complete fail_ids (t ∷ ts) (r ∷ rs) ((_, _, _, settled, _), h) e =
    (ground arith, results_complete fail_ids ts rs h (ground arith))

-- A failure that was injected shows in the results.
injected-fails :
    (fail_ids : List String) (ts : List ExecutionTask) (rs : List DryRunTaskResult)
    → AreResultsOf fail_ids ts rs
    → any (has fail_ids) (ids ts) ≡ true
    → all has_succeeded rs ≡ false
injected-fails fail_ids [] rs h e = cc
injected-fails fail_ids (t ∷ ts) [] h e = absurd h
injected-fails fail_ids (t ∷ ts) (r ∷ rs) ((_, _, _, _, injected), h) e =
    ground (arith, injected-fails fail_ids ts rs h)

CanRun-without :
    (fail_ids seen : List String) (ts : List ExecutionTask)
    → any (has fail_ids) (ids ts) ≡ false
    → CanRun [] seen ts
    → CanRun fail_ids seen ts
CanRun-without fail_ids seen [] e c = tt
CanRun-without fail_ids seen (t ∷ ts) e (_, d, c) =
    (ground arith, d, CanRun-without fail_ids (t.plan_task_id ∷ seen) ts (ground arith) c)

abbrev repairs : List ReviewFinding → List String
repairs fs = flat_map (λ f. finding_ids f.repair_task_id) fs

has-repairs-append :
    (xs ys : List ReviewFinding) (x : String)
    → has (repairs (xs ++ ys)) x ≡ (has (repairs xs) x || has (repairs ys) x)
has-repairs-append [] ys x = refl
has-repairs-append (f ∷ xs) ys x = ground (
  arith,
  has-repairs-append xs ys x,
  has-append (finding_ids f.repair_task_id) (repairs (xs ++ ys)) x,
  has-append (finding_ids f.repair_task_id) (repairs xs) x,
)

results-repairs :
    (fail_ids : List String) (ts : List ExecutionTask) (rs : List DryRunTaskResult) (x : String)
    → AreResultsOf fail_ids ts rs
    → has fail_ids x ≡ true
    → has (ids ts) x ≡ true
    → has (repairs (flat_map task_evidence_findings rs)) x ≡ true
unfolding task_evidence_findings
results-repairs fail_ids [] rs x h e m = cc
results-repairs fail_ids (t ∷ ts) [] x h e m = absurd h
results-repairs fail_ids (t ∷ ts) (r ∷ rs) x ((named, _, _, _, injected), h) e m =
    ground (arith, eq_iff t.plan_task_id x, results-repairs fail_ids ts rs x h e)

any-none :
    (p : String → Bool) (xs : List String)
    → ((x : String) → has xs x ≡ true → p x ≡ false)
    → any p xs ≡ false
any-none p [] h = refl
any-none p (x ∷ xs) h = ground (arith, h x, eq_refl x, any-none p xs (λ y m. h y (ground arith)))

any-some :
    (p : String → Bool) (xs : List String)
    → any p xs ≡ true
    → (x : String) × (has xs x ≡ true) × (p x ≡ true)
any-some p [] h = absurd (cc)
any-some p (x ∷ xs) h = elim (Bool-cases (p x)) [
  | inl here ↦ (x, ground (arith, eq_refl x), here)
  | inr later ↦ let (y, m, e) = any-some p xs (ground arith) in (y, ground arith, e)
]

has-not_empty : (xs : List String) (x : String) → has xs x ≡ true → is_empty xs ≡ false
has-not_empty [] x h = cc
has-not_empty (y ∷ xs) x h = refl

not_blocked_nor_passed : (v : Verdict) → v ≢ block → v ≢ pass → v ≡ repair
not_blocked_nor_passed pass b p = absurd (p refl)
not_blocked_nor_passed repair b p = refl
not_blocked_nor_passed block b p = absurd (b refl)

abbrev pub prepared : String → AdmittedPlan → DerivedExecution
prepared run_id plan = record {
  plan = prepare_execution_run run_id plan.plan_id plan.tasks;
  admitted_plan = plan.evidence;
}

module _ (plan : AdmittedPlan) (run_id : String) (fail_ids : List String) (now : ℕ → String)
    (distinct : IsDistinct (ids (map pending_task plan.tasks)))
    (can_run : CanRun [] [] (map pending_task plan.tasks)) {r : DryRunResult}
    (ran : run_execution_dry_run (prepared run_id plan).plan fail_ids now ≡ some r) where
  abbrev gate : ReviewGate
  gate =
      create_mechanical_review_gate
        (record { admitted_plan = plan; execution = prepared run_id plan; execution_result = r })

  abbrev results :
      AreResultsOf fail_ids (map pending_task plan.tasks) r.tasks
      × (r.run_id ≡ run_id)
      × (r.plan_id ≡ plan.plan_id)
  unfolding prepare_execution_run
  results =
      run_execution_dry_run-AreResultsOf (prepared run_id plan).plan fail_ids now distinct r ran

  is_consistent :
      IsConsistent
        (record { admitted_plan = plan; execution = prepared run_id plan; execution_result = r })
  unfolding prepare_execution_run
  is_consistent =
      let (of, same_run, same_plan) = results in
      let pending = execution_contracts-pending plan.tasks [] in
      record {
        same_run = sym same_run;
        execution_of_plan = refl;
        result_of_plan = same_plan;
        same_evidence = refl;
        execution_tasks = λ id. ap (λ m. get m id) pending;
        result_tasks =
            λ id. ap (λ m. get m id) (result_contracts-results fail_ids _ r.tasks [] of ∙ pending);
      }

  -- With no injected failure among the plan's tasks the gate passes.
  pub round-pass :
      any (has fail_ids) (ids (map pending_task plan.tasks)) ≡ false → gate.verdict ≡ pass
  unfolding prepare_execution_run
  round-pass none_injected =
      let (of, _, _) = results in
      let (_, status, _) = ran_results (prepared run_id plan).plan fail_ids now ran in
      let ok =
        (run_execution_dry_run-succeeded_iff (prepared run_id plan).plan fail_ids now distinct
            ran).0.1
          (CanRun-without fail_ids [] _ none_injected can_run) in
      (create_mechanical_review_gate-verdict _).1.1
        (is_consistent, (ok, results_complete fail_ids _ r.tasks of (ground arith)))

  -- With one the gate asks for a repair.
  pub round-repair :
      any (has fail_ids) (ids (map pending_task plan.tasks)) ≡ true → gate.verdict ≡ repair
  unfolding prepare_execution_run
  round-repair injected =
      let (of, _, _) = results in
      let (_, status, _) = ran_results (prepared run_id plan).plan fail_ids now ran in
      let some_failed = injected-fails fail_ids _ r.tasks of injected in
      let (blocks, passes) =
        create_mechanical_review_gate-verdict (record {
          admitted_plan = plan;
          execution = prepared run_id plan;
          execution_result = r;
        }) in
      not_blocked_nor_passed gate.verdict (λ b. blocks.0 b is_consistent)
        (λ p. let (_, (ok, _)) = passes.0 p in ground arith)

  -- What failed by injection is up for repair.
  pub round-repairs :
      (x : String)
      → has fail_ids x ≡ true
      → has (ids (map pending_task plan.tasks)) x ≡ true
      → has (unique_repair_task_ids gate) x ≡ true
  unfolding prepare_execution_run create_mechanical_review_gate unique_repair_task_ids
      create_review_gate review_task_evidence
  round-repairs x e m =
      let (of, _, _) = results in
      let fs =
        review_execution_consistency (record {
          admitted_plan = plan;
          execution = prepared run_id plan;
          execution_result = r;
        }) in
      let gs = review_execution_completion r in
      let hs = flat_map task_evidence_findings r.tasks in
      has-unique_nil (repairs (fs ++ (gs ++ hs))) x
      ∙ ground (
        arith,
        has-repairs-append fs (gs ++ hs) x,
        has-repairs-append gs hs x,
        results-repairs fail_ids _ r.tasks x of e m,
      )

  -- Without what is up for repair no injected failure is left.
  pub round-repaired :
      any
        (has (filter (λ id. not (has (unique_repair_task_ids gate) id)) fail_ids))
        (ids (map pending_task plan.tasks))
      ≡ false
  round-repaired = any-none _ (ids (map pending_task plan.tasks)) (λ x m. ground (
    arith,
    has-filter (λ id. not (has (unique_repair_task_ids gate) id)) fail_ids x,
    round-repairs x,
  ))

  pub round-repairs_some :
      any (has fail_ids) (ids (map pending_task plan.tasks)) ≡ true
      → is_empty (unique_repair_task_ids gate) ≡ false
  round-repairs_some injected =
      let (x, m, e) = any-some (has fail_ids) _ injected in
      has-not_empty (unique_repair_task_ids gate) x (round-repairs x e m)
