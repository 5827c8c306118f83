-- ===== src/Review/Loop/Runs.antt =====
-- Whole runs of the review-repair loop, whatever the services answer.
use protostar.Base.{
  ℕ, zero, suc, ◌+◌, ◌≤◌, ◌<◌, ◌≡◌, subst, inl, inr, String, List, [], some, arith, leb, Bool-cases,
}
use protostar.Review.Types.{
  ExecutionRunResult, IterationRecord, BlockReason, DeliveryAuthorization, approved, blocked,
}
use protostar.Review.Effects.{
  History, World, LoopError, done, thrown, Ensures, Ensures-bind, IsExpected,
}
use protostar.Review.Loop.{LoopInput, finished, continued, review_rounds, run_review_repair_loop}
use protostar.Review.Loop.Justified.{
  IsPassed, IsGround, WasApproved, EndsWith, IsCounted, decisions, Justified,
}
use protostar.Review.Loop.Steps.{IsRunning, RoundPost, review_round-Ensures}

module _ (world : World) (input : LoopInput) (max : ℕ) where
  review_rounds-Ensures :
      (fuel n : ℕ) (execution : ExecutionRunResult) (its : List IterationRecord) (h : History)
      → IsRunning world input max n its h
      → max < n + fuel
      → Ensures
          (Justified world input.run_id max)
          (review_rounds world input max fuel n execution its h)
  unfolding review_rounds
  review_rounds-Ensures zero n execution its h run enough = absurd (omega arith)
  review_rounds-Ensures (suc fuel) n execution its h run enough = elim (Bool-cases (leb n max)) [
    | inr over ↦ absurd (ground arith)
    | inl within ↦
        rw (within, review_rounds)
          (Ensures-bind (Justified world input.run_id max) {Q = RoundPost world input max n} _ _
            (review_round-Ensures world input max n its execution h run)
            (elim [
              | finished r ↦ λ h' post. post
              | continued execution' its' ↦ λ h' run'.
                  review_rounds-Ensures fuel (n + 1) execution' its' h' run' (omega arith)
            ]))
  ]

module _ (world : World) (input : LoopInput) where
  run-Ensures :
      (max : ℕ)
      → input.max_repair_loops ≡ some max
      → Ensures (Justified world input.run_id max) (run_review_repair_loop world input [])
  unfolding run_review_repair_loop
  run-Ensures max e =
      rw (e, run_review_repair_loop)
        (review_rounds-Ensures world input max (max + 2) 0 input.initial_execution [] []
          (omega arith) (omega arith))

  module _ {max : ℕ} (bounded : input.max_repair_loops ≡ some max) {h : History} where
    -- An approval, whatever the services answered: the loop approves in attempt `n`, at most the
    -- budget, after `n` repairs and `n + 1` recorded rounds, the last of which is numbered `n` and
    -- has two verdicts "pass". These are the answers of the services: in this round the mechanical
    -- checks of an execution answered the record's gate, and then the model reviewer, asked for the
    -- same execution and that gate, did not fail and answered the record's "pass". Behind both one
    -- review decision was written, on this run and attempt; the authorization is for this run and
    -- the path that this write gave, and the loop was said to end once.
    pub run_review_repair_loop-approved :
        {auth : DeliveryAuthorization} {n : ℕ} {path : String} {its : List IterationRecord}
        → run_review_repair_loop world input [] ≡ (done (approved auth n path its), h)
        → (n ≤ max)
          × IsCounted n its h
          × (decisions h ≡ 1)
          × EndsWith
              (λ r. (r.attempt ≡ n) × IsPassed r × WasApproved world input.run_id n path r h)
              its
          × (auth ≡ record { run_id = input.run_id; decision_path = path })
    run_review_repair_loop-approved e =
        subst (Ensures (Justified world input.run_id max)) e (run-Ensures max bounded)

    -- A refusal, whatever the services answered: the loop blocks in attempt `n`, at most the
    -- budget, after `n` repairs and `n + 1` recorded rounds, with no review decision written and
    -- one ending said; and the last round is the ground for the reason given: the budget is used up
    -- and a repair was asked for, or a verdict is "block", or a repair was asked for that names no
    -- task. The reason is never a critical finding.
    pub run_review_repair_loop-blocked :
        {reason : BlockReason} {n : ℕ} {path : String} {its : List IterationRecord}
        → run_review_repair_loop world input [] ≡ (done (blocked reason n path its), h)
        → (n ≤ max)
          × IsCounted n its h
          × (decisions h ≡ 0)
          × EndsWith (λ r. (r.attempt ≡ n) × IsGround max reason r) its
    run_review_repair_loop-blocked e =
        subst (Ensures (Justified world input.run_id max)) e (run-Ensures max bounded)

    -- With a valid budget the loop ends: it returns a result or throws because a service was
    -- rejected, a named task is unknown or no repair could be made. It never falls out of its
    -- `for` loop, and never runs on.
    pub run_review_repair_loop-IsExpected :
        {error : LoopError}
        → run_review_repair_loop world input [] ≡ (thrown error, h)
        → IsExpected error
    run_review_repair_loop-IsExpected e =
        subst (Ensures (Justified world input.run_id max)) e (run-Ensures max bounded)
