-- ===== src/Review/Loop/Steps.antt =====
-- Each way through a round keeps the counts and justifies its result.
use protostar.Base.{
  ℕ, ◌+◌, ◌≤◌, ◌≡◌, ◌≢◌, refl, ap, ◌∙◌, ◌⊎◌, inl, inr, String, true, map, List, [], ◌∷◌, ◌++◌,
  Option, none, some, arith, length, length-append, is_empty, nat_eq, nat_eq_iff, Bool-cases,
}
use protostar.Repair.Subgraph.Affected.{compute_repair_subgraph-ne-stalled}
use protostar.Review.Types.{
  Verdict, pass, repair, block, ReviewGate, MechanicalCheckResult, ModelReviewResult, model_verdict,
  ExecutionRunResult, ReviewRepairPlan, BlockReason, mechanical_block, model_block, IterationRecord,
}
use protostar.Review.Effects.{
  append_event, write_iteration_dir, review_by_model, ModelAnswer, reviewed, failed_with, History,
  World, and_then, Ensures, Ensures-answered, Ensures-answer, Ensures-bind, Ensures-pure,
  Ensures-recorded, answered,
}
use protostar.Review.Loop.{
  LoopInput, Round, finished, continued, block_loop, budget_exhausted_loop, approve_loop, refine,
  deterministic_plan, repair_tasks, repair_or_stop, ask_model, after_model, after_checks,
  review_round, unrepaired, unique_repair_task_ids, reason_without_tasks,
}
use protostar.Review.Loop.Justified.{
  WasChecked, WasReviewed, repairs_run, endings, decisions, IsPassed, AsksRepair, IsGround,
  Justified,
}

Verdict-cases : (v : Verdict) → (v ≡ pass) ⊎ ((v ≡ repair) ⊎ (v ≡ block))
Verdict-cases pass = inl refl
Verdict-cases repair = inr (inl refl)
Verdict-cases block = inr (inr refl)

is_empty-eq : (xs : List String) → is_empty xs ≡ true → xs ≡ []
is_empty-eq [] h = refl
is_empty-eq (x ∷ xs) h = cc

module _ (world : World) (input : LoopInput) (max : ℕ) where
  -- Before round `n`: as many rounds are recorded and as many repairs were run, and nothing ended.
  abbrev pub IsRunning : ℕ → List IterationRecord → History → Type 0
  IsRunning n its h =
      (n ≤ max) × (length its ≡ n) × (repairs_run h ≡ n) × (endings h ≡ 0) × (decisions h ≡ 0)

  -- After round `n`: a justified result, or the next round can run.
  abbrev pub RoundPost : ℕ → Round → History → Type 0
  RoundPost n (finished r) h = Justified world input.run_id max r h
  RoundPost n (continued execution its) h = IsRunning (n + 1) its h

  -- A round that ends the loop has recorded itself last.
  module _ (n : ℕ) (its : List IterationRecord) (r : IterationRecord)
      (execution : ExecutionRunResult) (numbered : r.attempt ≡ n) (h : History)
      (run : IsRunning n its h) where
    counted : length (its ++ r ∷ []) ≡ n + 1
    counted = omega (arith, length-append {0} its (r ∷ []))

    block_loop-Justified :
        (reason : BlockReason)
        → IsGround max reason r
        → Ensures (RoundPost n) (block_loop world input max reason n (its ++ r ∷ []) execution h)
    unfolding block_loop
    block_loop-Justified reason why = Ensures-answered (RoundPost n) _ _ _ _ (λ path.
        Ensures-answered (RoundPost n) _ _ _ _
          (λ _. (run.0, (counted, run.2, omega arith), run.4, (its, r, refl, (numbered, why)))))

    budget_exhausted_loop-Justified :
        n ≡ max
        → AsksRepair r
        → Ensures
            (RoundPost n)
            (budget_exhausted_loop world input max n (its ++ r ∷ []) execution h)
    unfolding budget_exhausted_loop
    budget_exhausted_loop-Justified last why = Ensures-answered (RoundPost n) _ _ _ _ (λ path.
        Ensures-answered (RoundPost n) _ _ _ _ (λ _. Ensures-answered (RoundPost n) _ _ _ _ (λ _. (
          run.0,
          (counted, run.2, omega arith),
          run.4,
          (its, r, refl, (numbered, (numbered ∙ last, why))),
        ))))

    approve_loop-Justified :
        (m : ModelReviewResult) (h₁ : History)
        → IsPassed r
        → m.verdict ≡ pass
        → r.model ≡ some m
        → h ≡ write_iteration_dir n r.mechanical (some m) none ∷ h₁
        → WasReviewed world input.run_id r m execution h₁
        → Ensures (RoundPost n) (approve_loop world input max n (its ++ r ∷ []) execution h)
    unfolding approve_loop
    approve_loop-Justified m h₁ passed positive recorded dir answered_so =
        Ensures-pure (RoundPost n) _ _ _ (
          Ensures-answer (RoundPost n) _ _ _ _ (λ path was_written.
            Ensures-answered (RoundPost n) _ _ _ _ (λ _. (
              run.0,
              (counted, run.2, omega arith),
              omega arith,
              (
                its,
                r,
                refl,
                (
                  numbered,
                  passed,
                  (
                    _, _, m, execution, h, refl, was_written, refl, refl, refl, positive, recorded,
                    h₁, dir, answered_so,
                  ),
                ),
              ),
              refl,
            ))))

  -- The deterministic plan: the search of the dependents never stalls.
  deterministic_plan-Ensures :
      (n : ℕ) (gate : ReviewGate) (model : Option ModelReviewResult) (ids : List String)
      (h : History)
      → Ensures (λ plan h'. h' ≡ h) (deterministic_plan world input max n gate model ids h)
  unfolding deterministic_plan
  deterministic_plan-Ensures n gate model ids h =
      ground (arith, compute_repair_subgraph-ne-stalled input.tasks ids)

  refine-Ensures :
      (n : ℕ) (its : List IterationRecord) (plan : ReviewRepairPlan) (h : History)
      → IsRunning n its h
      → Ensures (λ plan' h'. IsRunning n its h') (refine world input max n plan h)
  unfolding refine and_then answered
  refine-Ensures n its plan h run = ground arith

  module _ (n : ℕ) (its : List IterationRecord) (gate : ReviewGate)
      (result : MechanicalCheckResult) where
    repair_tasks-Ensures :
        (model : Option ModelReviewResult) (ids : List String) (h : History)
        → IsRunning n its h
        → n ≢ max
        → Ensures (RoundPost n) (repair_tasks world input max n result gate model ids its h)
    unfolding repair_tasks
    repair_tasks-Ensures model ids h run more =
        Ensures-bind (RoundPost n) {Q = λ plan h'. h' ≡ h} _ _
          (deterministic_plan-Ensures n gate model ids h)
          (λ plan₀ h₀ same.
            Ensures-bind (RoundPost n) {Q = λ plan h'. IsRunning n its h'} _ _
              (refine-Ensures n its plan₀ h₀ (rw same run))
              (λ plan h₁ run₁. Ensures-answered (RoundPost n) _ _ _ _ (λ _.
                Ensures-recorded (RoundPost n) _ _ _ _ _ (
                  Ensures-answered (RoundPost n) _ _ _ _ (λ execution. omega (
                    arith,
                    length-append {0} its (
                        record {
                          attempt = n;
                          mechanical = result;
                          mechanical_gate = gate;
                          model = model;
                          repair_plan = some plan;
                        }
                        ∷ []),
                  ))))))

    -- A round that asks for a repair ends by the budget, for want of a task, or goes on.
    repair_or_stop-Ensures :
        (model : Option ModelReviewResult) (execution : ExecutionRunResult) (h : History)
        → IsRunning n its h
        → AsksRepair (unrepaired world input max n result gate model)
        → Ensures (RoundPost n) (repair_or_stop world input max n result gate model execution its h)
    unfolding repair_or_stop
    repair_or_stop-Ensures model execution h run asks = elim (Bool-cases (nat_eq n max)) [
      | inl last ↦ rw last (
          Ensures-recorded (RoundPost n) _ _ _ _ _ (
            budget_exhausted_loop-Justified n its (unrepaired world input max n result gate model)
              execution refl _ run ((nat_eq_iff n max).0 last) asks))
      | inr more ↦ elim (Bool-cases (is_empty (unique_repair_task_ids gate model))) [
        | inl idle ↦
            rw (more, idle)
              (Ensures-recorded (RoundPost n) _ _ _ _ _ (
                block_loop-Justified n its (unrepaired world input max n result gate model)
                  execution refl _ run (reason_without_tasks world input max gate.verdict)
                  (ground_of asks (is_empty-eq _ idle))))
        | inr named ↦
            rw (more, named) (repair_tasks-Ensures model _ h run (λ e. cc ((nat_eq_iff n max).1 e)))
      ]
    ]
      where
        ground_of :
            AsksRepair (unrepaired world input max n result gate model)
            → unique_repair_task_ids gate model ≡ []
            → IsGround max
                (reason_without_tasks world input max gate.verdict)
                (unrepaired world input max n result gate model)
        ground_of (inl (checks, _)) idle = rw checks (inr (refl, idle))
        ground_of (inr (checks, asked)) idle = rw checks (refl, inr (asked, idle))

    after_model-Ensures :
        (model : ModelReviewResult) (execution : ExecutionRunResult) (h : History)
        → IsRunning n its h
        → gate.verdict ≡ pass
        → (model.verdict ≡ pass
            → WasReviewed world input.run_id
                (unrepaired world input max n result gate (some model))
                model
                execution
                h)
        → Ensures (RoundPost n) (after_model world input max n result gate model execution its h)
    unfolding after_model
    after_model-Ensures model execution h run passed answer = elim (Verdict-cases model.verdict) [
      | inl v ↦
          rw (v, after_model)
            (Ensures-recorded (RoundPost n) _ _ _ _ _ (
              approve_loop-Justified n its (unrepaired world input max n result gate (some model))
                execution refl _ run model h (passed, v) v refl refl (answer v)))
      | inr (inl v) ↦
          rw (v, after_model)
            (repair_or_stop-Ensures (some model) execution h run (inr (passed, v)))
      | inr (inr v) ↦
          rw (v, after_model)
            (Ensures-recorded (RoundPost n) _ _ _ _ _ (
              block_loop-Justified n its (unrepaired world input max n result gate (some model))
                execution refl _ run model_block (passed, inl v)))
    ]

    -- A verdict "pass" is the reviewer's own.
    abbrev IsAnswer : ModelReviewResult → ExecutionRunResult → (before after : History) → Type 0
    IsAnswer model execution before after =
        (model.verdict ≡ pass
          → world.review before execution gate result.diff_name_only ≡ reviewed model)
        × (after ≡ review_by_model execution gate result.diff_name_only ∷ before)

    ask_model-Ensures :
        (execution : ExecutionRunResult) (h : History)
        → IsRunning n its h
        → Ensures
            (λ model h'. IsRunning n its h' × IsAnswer model execution h h')
            (ask_model world input max execution gate result h)
    unfolding ask_model
    ask_model-Ensures execution h run =
        by_answer (world.review h execution gate result.diff_name_only) refl
      where
        by_answer :
            (a : ModelAnswer)
            → world.review h execution gate result.diff_name_only ≡ a
            → Ensures
                (λ model h'. IsRunning n its h' × IsAnswer model execution h h')
                (ask_model world input max execution gate result h)
        by_answer (reviewed m) e = rw (e, ask_model) (run, (λ v. refl, refl))
        by_answer (failed_with message) e = rw (e, ask_model) (run, (λ v. cc, refl))

    after_checks-Ensures :
        (execution : ExecutionRunResult) (h : History)
        → IsRunning n its h
        → WasChecked world input.run_id (unrepaired world input max n result gate none) execution h
        → Ensures (RoundPost n) (after_checks world input max n (gate, result) execution its h)
    unfolding after_checks
    after_checks-Ensures execution h run checked = elim (Verdict-cases gate.verdict) [
      | inl v ↦
          rw (v, after_checks)
            (Ensures-bind (RoundPost n)
              {Q = λ model h'. IsRunning n its h' × IsAnswer model execution h h'} _ _
              (ask_model-Ensures execution h run)
              (λ model h₁ (run₁, (answer, asked)).
                let said =
                  model_verdict input.run_id n model.verdict (map (λ c. c.judge_id) model.critiques)
                    (world.now h₁) in
                Ensures-answered (RoundPost n) _ _ _ _ (λ _.
                  after_model-Ensures model execution _ run₁ v (λ positive.
                    (said, h, ap (λ x. append_event said ∷ x) asked, answer positive, checked)))))
      | inr (inl v) ↦
          rw (v, after_checks) (repair_or_stop-Ensures none execution h run (inl (v, refl)))
      | inr (inr v) ↦
          rw (v, after_checks)
            (Ensures-recorded (RoundPost n) _ _ _ _ _ (
              block_loop-Justified n its (unrepaired world input max n result gate none) execution
                refl _ run mechanical_block (inl v)))
    ]

  pub review_round-Ensures :
      (n : ℕ) (its : List IterationRecord) (execution : ExecutionRunResult) (h : History)
      → IsRunning n its h
      → Ensures (RoundPost n) (review_round world input max n execution its h)
  unfolding review_round
  review_round-Ensures n its execution h run = Ensures-answered (RoundPost n) _ _ _ _ (λ _.
      Ensures-answer (RoundPost n) _ _ _ _ (λ (gate, result) answer.
        Ensures-answered (RoundPost n) _ _ _ _
          (λ _. after_checks-Ensures n its gate result execution _ run (_, _, refl, answer))))
