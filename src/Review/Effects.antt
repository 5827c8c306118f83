-- ===== src/Review/Effects.antt =====
-- The services that the review-repair loop is given, as functions of all that happened before, and
-- the loop's actions: they extend the history and may throw.
use protostar.Base.{◌≡◌, refl, ℕ, String, List, ◌∷◌, Option, none, some}
use protostar.Review.Types.{
  ReviewEvent, ReviewGate, MechanicalCheckResult, ModelReviewResult, ExecutionRunResult,
  ReviewRepairPlan, DecisionArtifact, BlockArtifact,
}

-- What the loop asks of its surroundings.
pub data Effect : Type 0 where
  append_event : ReviewEvent → Effect
  check_mechanically : (attempt : ℕ) → ExecutionRunResult → Effect
  review_by_model : ExecutionRunResult → ReviewGate → (name_only : List String) → Effect
  refine_plan : (attempt : ℕ) → ReviewRepairPlan → Effect
  execute_repair_tasks : (attempt : ℕ) → ReviewRepairPlan → Effect
  write_iteration_dir :
      (attempt : ℕ)
      → MechanicalCheckResult
      → Option ModelReviewResult
      → Option ReviewRepairPlan
      → Effect
  write_review_decision : DecisionArtifact → Effect
  write_review_block : BlockArtifact → Effect

-- The latest effect stands first.
abbrev pub History : Type 0
History = List Effect

-- The reviewer's answer, or the message of the error that it throws.
pub data ModelAnswer : Type 0 where
  reviewed : ModelReviewResult → ModelAnswer
  failed_with : String → ModelAnswer

-- The refiner's answer: the very plan that it was given, or another object.
pub data Refined : Type 0 where
  unchanged : Refined
  replaced : ReviewRepairPlan → Refined

-- The services; `none` is a promise that is rejected. `persist` answers every write and append,
-- with the path where there is one; `refine` is absent where the loop has no refiner.
pub record World : Type 0 where
  pub now : History → String
  pub check :
      History → (attempt : ℕ) → ExecutionRunResult → Option (ReviewGate × MechanicalCheckResult)
  pub review : History → ExecutionRunResult → ReviewGate → List String → ModelAnswer
  pub refine : Option (History → (attempt : ℕ) → ReviewRepairPlan → Option Refined)
  pub execute : History → (attempt : ℕ) → ReviewRepairPlan → Option ExecutionRunResult
  pub persist : History → Effect → Option String

pub data LoopError : Type 0 where
  missing_max_repair_loops empty_repair_synthesis service_rejected : LoopError
  unknown_repair_task : String → LoopError
  exited_unexpectedly out_of_fuel : LoopError

pub data Outcome (A : Type 0) : Type 0 where
  done : A → Outcome A
  thrown : LoopError → Outcome A

abbrev pub M : Type 0 → Type 0
M A = History → Outcome A × History

module _ {A B : Type 0} where
  unfoldable pub and_then : Outcome A × History → (A → M B) → Outcome B × History
  and_then (done a, h) f = f a h
  and_then (thrown e, h) f = (thrown e, h)

  infixl 5 ◌>>=◌ ◌>>◌
  abbrev pub ◌>>=◌ : M A → (A → M B) → M B
  m >>= f = λ h. and_then (m h) f

  abbrev pub ◌>>◌ : M A → M B → M B
  m >> k = m >>= λ _. k

module _ {A : Type 0} where
  abbrev pub pure : A → M A
  pure a h = (done a, h)

  abbrev pub throw : LoopError → M A
  throw e h = (thrown e, h)

  -- An effect with its answer; a rejection leaves the history as it was.
  unfoldable pub answered : Effect → History → Option A → Outcome A × History
  answered e h none = (thrown service_rejected, h)
  answered e h (some a) = (done a, e ∷ h)

-- The errors that the loop may throw: not the one that says it fell through.
abbrev pub IsExpected : LoopError → Type 0
IsExpected exited_unexpectedly = ⊥
IsExpected out_of_fuel = ⊥
IsExpected _ = Unit {0}

-- `P` holds of what an action returns and of the history then; it throws expected errors only.
abbrev pub Ensures : {A : Type 0} → (A → History → Type 0) → Outcome A × History → Type 0
Ensures P (done a, h) = P a h
Ensures P (thrown e, h) = IsExpected e

module _ {A B : Type 0} (P : B → History → Type 0) where
  -- After an effect the rest of the action goes on, or the answer was a rejection.
  pub Ensures-answered :
      (e : Effect) (h : History) (o : Option A) (k : A → M B)
      → ((a : A) → Ensures P (k a (e ∷ h)))
      → Ensures P (and_then (answered e h o) k)
  unfolding and_then answered
  Ensures-answered e h none k f = tt
  Ensures-answered e h (some a) k f = f a

  -- The same, with what the answer was.
  pub Ensures-answer :
      (e : Effect) (h : History) (o : Option A) (k : A → M B)
      → ((a : A) → o ≡ some a → Ensures P (k a (e ∷ h)))
      → Ensures P (and_then (answered e h o) k)
  unfolding and_then answered
  Ensures-answer e h none k f = tt
  Ensures-answer e h (some a) k f = f a refl

  pub Ensures-bind :
      {Q : A → History → Type 0} (r : Outcome A × History) (k : A → M B)
      → Ensures Q r
      → ((a : A) (h : History) → Q a h → Ensures P (k a h))
      → Ensures P (and_then r k)
  unfolding and_then
  Ensures-bind (done a, h) k q f = f a h q
  Ensures-bind (thrown missing_max_repair_loops, h) k q f = tt
  Ensures-bind (thrown e, h) k q f = q

  pub Ensures-pure :
      (a : A) (h : History) (k : A → M B) → Ensures P (k a h) → Ensures P (and_then (done a, h) k)
  unfolding and_then
  Ensures-pure a h k f = f

  -- An effect whose answer is not read, before a value that the rest goes on with.
  pub Ensures-recorded :
      {T : Type 0} (e : Effect) (h : History) (o : Option T) (x : A) (k : A → M B)
      → Ensures P (k x (e ∷ h))
      → Ensures P (and_then (and_then (answered e h o) (λ _. pure x)) k)
  unfolding and_then answered
  Ensures-recorded e h none x k f = tt
  Ensures-recorded e h (some t) x k f = f
