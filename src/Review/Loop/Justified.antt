-- ===== src/Review/Loop/Justified.antt =====
-- What justifies each result of the loop, and what a history says of repairs and endings.
use protostar.Base.{
  ℕ, suc, ◌+◌, ◌≤◌, ◌≡◌, ◌⊎◌, String, List, [], ◌∷◌, ◌++◌, Option, none, some, length,
}
use protostar.Review.Types.{
  Verdict, pass, repair, block, ModelReviewResult, BlockReason, budget_exhausted, critical_finding,
  mechanical_block, model_block, IterationRecord, loop_approved, loop_blocked, LoopResult, approved,
  blocked, ReviewEvent, DecisionArtifact, ExecutionRunResult,
}
use protostar.Review.Effects.{
  append_event, check_mechanically, review_by_model, execute_repair_tasks, write_iteration_dir,
  write_review_decision, History, reviewed, World,
}
use protostar.Review.Loop.{unique_repair_task_ids, final_diff_artifact}

-- How often the executor was called.
abbrev pub repairs_run : History → ℕ
repairs_run [] = 0
repairs_run (execute_repair_tasks _ _ ∷ h) = suc (repairs_run h)
repairs_run (_ ∷ h) = repairs_run h

-- How often the loop was said to be approved or blocked.
abbrev pub endings : History → ℕ
endings [] = 0
endings (append_event (loop_approved _ _ _ _) ∷ h) = suc (endings h)
endings (append_event (loop_blocked _ _ _ _ _) ∷ h) = suc (endings h)
endings (_ ∷ h) = endings h

-- How often a review decision was written.
abbrev pub decisions : History → ℕ
decisions [] = 0
decisions (write_review_decision _ ∷ h) = suc (decisions h)
decisions (_ ∷ h) = decisions h

-- The model was asked, and this was its verdict.
abbrev pub HasVerdict : Verdict → Option ModelReviewResult → Type 0
HasVerdict v none = ⊥
HasVerdict v (some m) = m.verdict ≡ v

-- Both verdicts of a round are "pass".
abbrev pub IsPassed : IterationRecord → Type 0
IsPassed r = (r.mechanical_gate.verdict ≡ pass) × HasVerdict pass r.model

-- A round that asks for a repair: by the checks, or by the model after they passed.
abbrev pub AsksRepair : IterationRecord → Type 0
AsksRepair r =
    ((r.mechanical_gate.verdict ≡ repair) × (r.model ≡ none))
    ⊎ ((r.mechanical_gate.verdict ≡ pass) × HasVerdict repair r.model)

abbrev pub NamesNoTask : IterationRecord → Type 0
NamesNoTask r = unique_repair_task_ids r.mechanical_gate r.model ≡ []

-- What the last round has to be for a reason to be given.
abbrev pub IsGround : (max : ℕ) → BlockReason → IterationRecord → Type 0
IsGround max budget_exhausted r = (r.attempt ≡ max) × AsksRepair r
IsGround max critical_finding r = ⊥
IsGround max mechanical_block r =
    (r.mechanical_gate.verdict ≡ block) ⊎ ((r.mechanical_gate.verdict ≡ repair) × NamesNoTask r)
IsGround max model_block r =
    (r.mechanical_gate.verdict ≡ pass)
    × (HasVerdict block r.model ⊎ (HasVerdict repair r.model × NamesNoTask r))

-- The rounds so far, the last of which is `P`.
abbrev pub EndsWith : (IterationRecord → Type 0) → List IterationRecord → Type 0
EndsWith P its =
    (before : List IterationRecord) × (r : IterationRecord) × (its ≡ before ++ r ∷ []) × P r

abbrev pub IsCounted : (n : ℕ) → List IterationRecord → History → Type 0
IsCounted n its h = (length its ≡ n + 1) × (repairs_run h ≡ n) × (endings h ≡ 1)

module _ (world : World) (input_run_id : String) where
  -- The checks of a round answered this gate and this result, which was then said.
  abbrev pub WasChecked : IterationRecord → ExecutionRunResult → History → Type 0
  WasChecked r execution h =
      (said : ReviewEvent) × (h₀ : History) × (h
        ≡ append_event said ∷ check_mechanically r.attempt execution ∷ h₀)
      × (world.check h₀ r.attempt execution ≡ some (r.mechanical_gate, r.mechanical))

  -- The model reviewer was asked behind them, and its own answer is that of the record.
  abbrev pub WasReviewed :
      IterationRecord → ModelReviewResult → ExecutionRunResult → History → Type 0
  WasReviewed r m execution h =
      (said : ReviewEvent) × (h₀ : History) × (h
        ≡ append_event said
          ∷ review_by_model execution r.mechanical_gate r.mechanical.diff_name_only
          ∷ h₀)
      × (world.review h₀ execution r.mechanical_gate r.mechanical.diff_name_only ≡ reviewed m)
      × WasChecked r execution h₀

  -- The history of a loop that was approved, from its end: the approval was said, and before it the
  -- decision on this run and attempt was written, whose path the writer gave, behind the record of the
  -- round, the review and the checks.
  abbrev pub WasApproved : ℕ → String → IterationRecord → History → Type 0
  WasApproved n path r h =
      (at : String) × (d : DecisionArtifact) × (m : ModelReviewResult)
      × (execution : ExecutionRunResult) × (h₀ : History) × (h
          ≡ append_event (loop_approved input_run_id n path at) ∷ write_review_decision d ∷ h₀)
      × (world.persist h₀ (write_review_decision d) ≡ some path)
      × (d.run_id ≡ input_run_id)
      × (d.final_iteration ≡ n)
      × (d.final_diff_artifact ≡ final_diff_artifact execution)
      × (m.verdict ≡ pass)
      × (r.model ≡ some m)
      × (h₁ : History) × (h₀ ≡ write_iteration_dir n r.mechanical (some m) none ∷ h₁)
      × WasReviewed r m execution h₁

abbrev pub Justified : World → (run_id : String) (max : ℕ) → LoopResult → History → Type 0
Justified world run_id max (approved auth n path its) h =
    (n ≤ max)
    × IsCounted n its h
    × (decisions h ≡ 1)
    × EndsWith (λ r. (r.attempt ≡ n) × IsPassed r × WasApproved world run_id n path r h) its
    × (auth ≡ record { run_id = run_id; decision_path = path })
Justified world run_id max (blocked reason n path its) h =
    (n ≤ max)
    × IsCounted n its h
    × (decisions h ≡ 0)
    × EndsWith (λ r. (r.attempt ≡ n) × IsGround max reason r) its
