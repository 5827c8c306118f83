-- ===== src/Review/Mechanical/Repairs.antt =====
-- Whole loops: they return within their bound, and a prepared plan is approved after one repair.
use protostar.Base.{
  ℕ, zero, suc, ◌+◌, ◌≡◌, ◌≢◌, ◌≤◌, ◌<◌, refl, sym, ap, ◌∙◌, ◌⊎◌, inl, inr, String, Bool, true,
  false, not, List, [], ◌∷◌, ◌++◌, Option, none, some, arith, map, has, any, filter, length,
  length-append, IsDistinct, leb, or_else, if◌then◌else◌, Bool-cases,
}
use protostar.Execution.Tasks.{DryRunResult}
use protostar.Execution.DryRun.{run_execution_dry_run}
use protostar.Execution.DryRun.Steps.{ids}
use protostar.Execution.DryRun.Outcomes.{CanRun}
use protostar.Execution.DryRun.Runs.{run_execution_dry_run_total}
use protostar.Planning.Handoff.{pending_task}
use protostar.Review.Types.{ReviewGate}
use protostar.Review.Loop.{unique}
use protostar.Review.Mechanical.{AdmittedPlan, unique_repair_task_ids}
use protostar.Review.Mechanical.Loop.{
  LoopAction, approved, repair_and_retry, blocked, repair_limit_reached, LoopIteration,
  ReviewExecutionLoopResult, LoopOutcome, returned, ReviewExecutionLoopInput, LoopCount, Limit,
  up_to, max_loops, allows, is_reached, exited_unexpectedly, finish, gate_of, iteration, action_of,
  after_round, review_round, loop_rounds, run_mechanical_review_execution_loop,
}
use protostar.Review.Mechanical.Agreement.{has-unique_nil}
use protostar.Review.Mechanical.Rounds.{
  prepared, round-pass, round-repair, round-repaired, round-repairs_some,
}

-- The loop returned, with a status and a number of iterations.
abbrev pub Returns : LoopOutcome → (ReviewExecutionLoopResult → Type 0) → Type 0
Returns o P = (r : ReviewExecutionLoopResult) × (o ≡ returned r) × P r

module _ (input : ReviewExecutionLoopInput) (bound : Limit) where
  -- At the bound there is no retry.
  last_action :
      (attempt : ℕ) (gate : ReviewGate)
      → is_reached bound attempt ≡ true
      → action_of input bound attempt gate ≢ repair_and_retry
  unfolding action_of
  last_action attempt gate h = ground arith

  module _ (next : List String → List LoopIteration → LoopOutcome) (i : LoopIteration)
      (fail_ids : List String) (its : List LoopIteration) where
    -- A round that does not retry ends the loop.
    after_round-finish :
        (a : LoopAction)
        → a ≢ repair_and_retry
        → after_round input bound next a i fail_ids its ≡ finish input bound its i
    unfolding after_round
    after_round-finish approved h = refl
    after_round-finish repair_and_retry h = absurd (h refl)
    after_round-finish blocked h = refl
    after_round-finish repair_limit_reached h = refl

  is_retry : (a : LoopAction) → (a ≡ repair_and_retry) ⊎ (a ≢ repair_and_retry)
  is_retry repair_and_retry = inl refl
  is_retry approved = inr (λ e. cc)
  is_retry blocked = inr (λ e. cc)
  is_retry repair_limit_reached = inr (λ e. cc)

  abbrev action_after : ℕ → DryRunResult → LoopAction
  action_after attempt r = action_of input bound attempt (gate_of input bound r)

  abbrev round_iteration : ℕ → DryRunResult → LoopIteration
  round_iteration attempt r = iteration input bound attempt (action_after attempt r) r

  module _ (left attempt : ℕ) (fail_ids : List String) (its : List LoopIteration) {r : DryRunResult}
      (within : allows bound attempt ≡ true)
      (ran : run_execution_dry_run input.execution.plan fail_ids (input.now attempt) ≡ some r) where
    loop_rounds-step :
        loop_rounds input bound (suc left) attempt fail_ids its
        ≡ after_round input bound
            (loop_rounds input bound left (attempt + 1))
            (action_after attempt r)
            (round_iteration attempt r)
            fail_ids
            its
    unfolding loop_rounds review_round
    loop_rounds-step = rw within (
        ap
          (review_round input bound (loop_rounds input bound left (attempt + 1)) attempt fail_ids
            its)
          ran)

    -- A round that does not retry returns with its action for the status.
    loop_rounds-finish :
        action_after attempt r ≢ repair_and_retry
        → Returns
            (loop_rounds input bound (suc left) attempt fail_ids its)
            (λ s. (s.status ≡ action_after attempt r) × (length s.iterations ≡ length its + 1))
    unfolding iteration
    loop_rounds-finish h = (
      _,
      loop_rounds-step ∙ after_round-finish _ (round_iteration attempt r) fail_ids its _ h,
      (refl, length-append its (round_iteration attempt r ∷ [])),
    )

    loop_rounds-retry :
        action_after attempt r ≡ repair_and_retry
        → loop_rounds input bound (suc left) attempt fail_ids its
          ≡ loop_rounds input bound left
              (attempt + 1)
              (filter
                (λ id. not (has (unique_repair_task_ids (gate_of input bound r)) id))
                fail_ids)
              (its ++ round_iteration attempt r ∷ [])
    unfolding after_round iteration
    loop_rounds-retry e =
        loop_rounds-step
        ∙ ap
            (λ a.
              after_round input bound (loop_rounds input bound left (attempt + 1)) a
                (round_iteration attempt r) fail_ids its)
            e

  -- Where the condition fails the loop throws.
  loop_rounds-exits :
      (left attempt : ℕ) (fail_ids : List String) (its : List LoopIteration)
      → allows bound attempt ≡ false
      → loop_rounds input bound (suc left) attempt fail_ids its ≡ exited_unexpectedly
  unfolding loop_rounds
  loop_rounds-exits left attempt fail_ids its e = rw e

module _ (input : ReviewExecutionLoopInput) (n : ℕ) where
  abbrev bound : Limit
  bound = up_to n true

  -- Within the bound, and with fuel enough to pass it, the loop returns.
  loop_rounds-Returns :
      (fuel attempt : ℕ) (fail_ids : List String) (its : List LoopIteration)
      → attempt ≤ n
      → n < attempt + fuel
      → Returns (loop_rounds input bound fuel attempt fail_ids its) (λ r.
        (r.status ≢ repair_and_retry) × (length r.iterations + attempt ≤ length its + (n + 1)))
  unfolding allows is_reached
  loop_rounds-Returns zero attempt fail_ids its h enough = absurd (omega arith)
  loop_rounds-Returns (suc fuel) attempt fail_ids its h enough =
      let (r, ran, _) =
        run_execution_dry_run_total input.execution.plan fail_ids (input.now attempt) in
      elim (is_retry input bound (action_after input bound attempt r)) [
        | inr ends ↦
            let (s, e, (status, count)) =
              loop_rounds-finish input bound fuel attempt fail_ids its (ground arith) ran ends in
            (s, e, ((λ k. ends (sym status ∙ k)), omega arith))
        | inl retries ↦ elim (Bool-cases (leb n attempt)) [
          | inl last ↦ absurd (last_action input bound attempt (gate_of input bound r) last retries)
          | inr more ↦
              let (s, e, (ends, count)) =
                loop_rounds-Returns fuel (attempt + 1)
                  (filter (λ id. not (has (unique_repair_task_ids (gate_of input bound r)) id))
                    fail_ids)
                  (its ++ round_iteration input bound attempt r ∷ []) (ground arith)
                  (omega arith) in
              (
                s,
                loop_rounds-retry input bound fuel attempt fail_ids its (ground arith) ran retries
                    ∙ e,
                (
                  ends,
                  omega (arith, length-append its (round_iteration input bound attempt r ∷ [])),
                ),
              )
        ]
      ]

-- Where the artifact is valid and the bound on repairs comes to a whole number `n`, the loop returns,
-- after `n + 1` iterations at most and with a final status: its last throw is not reached, and the
-- dry run does not throw. The fuel is one unit for each of these iterations, or more.
pub run_mechanical_review_execution_loop-Returns :
    (is_valid : AdmittedPlan → Bool) (input : ReviewExecutionLoopInput) (n fuel : ℕ)
    → is_valid input.admitted_plan ≡ true
    → max_loops input.max_repair_loops ≡ up_to n true
    → n < fuel
    → Returns
        (run_mechanical_review_execution_loop is_valid fuel input)
        (λ r. (r.status ≢ repair_and_retry) × (length r.iterations ≤ n + 1))
unfolding run_mechanical_review_execution_loop
run_mechanical_review_execution_loop-Returns is_valid input n fuel valid bounded enough =
    let ids = unique [] (or_else input.initial_fail_task_ids []) in
    let (r, e, (ends, count)) =
      loop_rounds-Returns input n fuel 0 ids [] (omega arith) (omega arith) in
    rw valid (r, ap (λ b. loop_rounds input b fuel 0 ids []) bounded ∙ e, (ends, omega arith))

-- Everything about a plan that is prepared and can run.
module _ (plan : AdmittedPlan) (run_id : String) (initial : Option (List String))
    (loops : Option LoopCount) (now : ℕ → ℕ → String)
    (distinct : IsDistinct (ids (map pending_task plan.tasks)))
    (can_run : CanRun [] [] (map pending_task plan.tasks)) where
  abbrev pub input_of : ReviewExecutionLoopInput
  input_of = record {
    admitted_plan = plan;
    execution = prepared run_id plan;
    initial_fail_task_ids = initial;
    max_repair_loops = loops;
    now = now;
  }

  abbrev plan_ids : List String
  plan_ids = ids (map pending_task plan.tasks)

  -- With no injected failure among the plan's tasks the round approves.
  approve_now :
      (bound : Limit) (left attempt : ℕ) (fail_ids : List String) (its : List LoopIteration)
      → allows bound attempt ≡ true
      → any (has fail_ids) plan_ids ≡ false
      → Returns
          (loop_rounds input_of bound (suc left) attempt fail_ids its)
          (λ r. (r.status ≡ approved) × (length r.iterations ≡ length its + 1))
  unfolding gate_of action_of
  approve_now bound left attempt fail_ids its within e =
      let (r, ran, _) =
        run_execution_dry_run_total (prepared run_id plan).plan fail_ids (now attempt) in
      let passes = round-pass plan run_id fail_ids (now attempt) distinct can_run ran e in
      let approves : action_after input_of bound attempt r ≡ approved =
        rw (passes, action_of) refl in
      let (s, f, (status, count)) =
        loop_rounds-finish input_of bound left attempt fail_ids its within ran (λ k. cc) in
      (s, f, (status ∙ approves, count))

  any-unique :
      (xs : List String)
      → any (has (unique [] (or_else initial []))) xs ≡ any (has (or_else initial [])) xs
  any-unique [] = refl
  any-unique (x ∷ xs) = ground (arith, has-unique_nil (or_else initial []) x, any-unique xs)

  abbrev starting : List String
  starting = unique [] (or_else initial [])

  -- How the loop ends: it throws at its end, or returns with a status after a number of iterations.
  abbrev pub EndsAs : LoopOutcome → Option (LoopAction × ℕ) → Type 0
  EndsAs o none = o ≡ exited_unexpectedly
  EndsAs o (some (action, n)) = Returns o (λ r. (r.status ≡ action) × (length r.iterations ≡ n))

  -- With one the first round asks for a repair. It is refused where the limit is reached; otherwise
  -- the second round approves, if the limit allows it.
  abbrev repaired_end : Limit → Option (LoopAction × ℕ)
  repaired_end bound =
      if is_reached bound 0
      then some (repair_limit_reached, 1)
      else if allows bound 1
      then some (approved, 2)
      else none

  repair_first :
      (bound : Limit) (left : ℕ)
      → allows bound 0 ≡ true
      → any (has starting) plan_ids ≡ true
      → EndsAs (loop_rounds input_of bound (suc (suc left)) 0 starting []) (repaired_end bound)
  unfolding gate_of action_of
  repair_first bound left within e =
      let (r, ran, _) = run_execution_dry_run_total (prepared run_id plan).plan starting (now 0) in
      let repairs = round-repair plan run_id starting (now 0) distinct can_run ran e in
      let some_left = round-repairs_some plan run_id starting (now 0) distinct can_run ran e in
      elim (Bool-cases (is_reached bound 0)) [
        | inl reached ↦
            let stops : action_after input_of bound 0 r ≡ repair_limit_reached =
              rw (repairs, action_of, reached) refl in
            let (s, f, (status, count)) =
              loop_rounds-finish input_of bound (suc left) 0 starting [] within ran (λ k. cc) in
            rw reached (s, f, (status ∙ stops, count))
        | inr more ↦
            let retries : action_after input_of bound 0 r ≡ repair_and_retry =
              rw (repairs, action_of, more) (ground arith) in
            let goes_on =
              loop_rounds-retry input_of bound (suc left) 0 starting [] within ran retries in
            elim (Bool-cases (allows bound 1)) [
              | inl again ↦
                  let (s, f, (status, count)) =
                    approve_now bound left 1 _ (round_iteration input_of bound 0 r ∷ []) again
                      (round-repaired plan run_id starting (now 0) distinct can_run ran) in
                  rw (more, again) (s, goes_on ∙ f, (status, count))
              | inr no_more ↦
                  rw (more, no_more) (goes_on ∙ loop_rounds-exits input_of bound left 1 _ _ no_more)
            ]
      ]

  abbrev pub is_injected : Bool
  is_injected = any (has (or_else initial [])) plan_ids

  abbrev pub expected_end : Limit → Option (LoopAction × ℕ)
  expected_end bound =
      if not (allows bound 0)
      then none
      else if is_injected
      then repaired_end bound
      else some (approved, 1)

  rounds-EndsAs :
      (bound : Limit) (spare : ℕ)
      → EndsAs (loop_rounds input_of bound (suc (suc spare)) 0 starting []) (expected_end bound)
  rounds-EndsAs bound spare = elim (Bool-cases (allows bound 0)) [
    | inr not_a_number ↦
        rw not_a_number (loop_rounds-exits input_of bound (suc spare) 0 starting [] not_a_number)
    | inl within ↦ elim (Bool-cases is_injected) [
      | inl injected ↦
          rw (within, injected) (repair_first bound spare within (any-unique plan_ids ∙ injected))
      | inr not_injected ↦
          rw (within, not_injected)
            (approve_now bound (suc spare) 0 starting [] within
              (any-unique plan_ids ∙ not_injected))
    ]
  ]

  pub run_mechanical_review_execution_loop-approved :
      (is_valid : AdmittedPlan → Bool) (spare : ℕ)
      → is_valid plan ≡ true
      → EndsAs
          (run_mechanical_review_execution_loop is_valid (suc (suc spare)) input_of)
          (expected_end (max_loops loops))
  unfolding run_mechanical_review_execution_loop
  run_mechanical_review_execution_loop-approved is_valid spare valid =
      rw valid (rounds-EndsAs (max_loops loops) spare)
