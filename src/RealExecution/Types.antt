-- ===== src/RealExecution/Types.antt =====
-- What the executor handles: adapter results (packages/execution/src/adapter-contract.ts), its
-- effects, the services it is given, its state, and actions that change the state and may throw.
use protostar.Base.{ℕ, String, Bool, List, Option, none, some}
use protostar.Execution.Tasks.{ExecutionTask, LifecycleEvent}
use protostar.Execution.Journal.{TaskJournalEvent, ExecutionSnapshot}
use protostar.Repo.ChangeSet.{PatchRequest, ApplyResult}

pub data RetryCause : Type 0 where
  transient parse_reformat repair : RetryCause

pub record AdapterRetry : Type 0 where
  pub attempt : ℕ
  pub retry_reason : RetryCause
  pub error_class : Option String
  pub duration_ms : ℕ

pub record AdapterEvidence : Type 0 where
  pub model : String
  pub attempts : ℕ
  pub duration_ms : ℕ
  -- Paths with their digests.
  pub aux_reads : List (String × String)
  pub retries : List AdapterRetry

pub data AdapterFailureReason : Type 0 where
  parse_no_block parse_multiple_blocks parse_reformat_failed : AdapterFailureReason
  lmstudio_unreachable lmstudio_http_error lmstudio_model_not_loaded : AdapterFailureReason
  retries_exhausted aborted timeout : AdapterFailureReason
  aux_read_budget_exceeded empty_repair_change_set : AdapterFailureReason

-- What readChangeEntries finds in a change set.
pub record ChangeEntry : Type 0 where
  pub path : String
  pub diff : String
  pub pre_image_sha256 : String

pub data AdapterResult : Type 0 where
  change_set : List ChangeEntry → AdapterEvidence → AdapterResult
  adapter_failed : AdapterFailureReason → AdapterEvidence → AdapterResult

pub data AdapterEvent : Type 0 where
  token : String → AdapterEvent
  tool_call : (name : String) → AdapterEvent
  progress : String → AdapterEvent
  final : AdapterResult → AdapterEvent

-- What the executor asks of its surroundings.
pub data Effect : Type 0 where
  append_event : TaskJournalEvent → Effect
  write_snapshot : ExecutionSnapshot → Effect
  check_sentinel : Effect
  -- `stat` of a target file, and its creation as an empty file.
  inspect_target create_target : (path : String) → Effect
  initialize_evidence : (task_id : String) (attempt : ℕ) → Effect
  write_evidence : (task_id : String) (attempt : ℕ) → (adapter_id : String) → AdapterResult → Effect
  execute_adapter : ExecutionTask → (attempt : ℕ) → Effect
  apply_patches : List PatchRequest → Effect

-- The latest effect stands first.
abbrev pub History : Type 0
History = List Effect

-- The signal of the task's controller: it is aborted by its timer, or for another reason.
pub data TaskSignal : Type 0 where
  live timed_out cut_off : TaskSignal

-- `signal.reason` of the root signal, as far as cancelCause tells them apart.
pub data AbortReason : Type 0 where
  by_sigint by_sentinel by_other : AbortReason

-- The services, which answer by what happened before. `persist` tells whether an awaited call is
-- resolved; `none` is a promise that is rejected. `now k` is the k-th call of the clock.
pub record Services : Type 0 where
  pub now : ℕ → String
  pub persist : History → Effect → Bool
  pub target_exists : History → (path : String) → Option Bool
  pub root_aborted : History → Option AbortReason
  pub task_signal : History → TaskSignal
  pub adapter_id : String
  pub execute : History → ExecutionTask → (attempt : ℕ) → Option (List AdapterEvent)
  pub apply : History → List PatchRequest → Option (List ApplyResult)
  pub print : ℕ → String

-- The variables that the executor assigns to, and its effects.
pub record RunState : Type 0 where
  pub history : History
  pub ticks : ℕ
  pub seq : ℕ
  pub events_since_snapshot : ℕ
  pub journal : List TaskJournalEvent
  pub events : List LifecycleEvent
  pub per_task_evidence : List (String × AdapterEvidence)

-- An action ends with a value, or throws; what it changed stays in both cases.
pub data Ended (A : Type 0) : Type 0 where
  done : A → RunState → Ended A
  thrown : RunState → Ended A

abbrev pub M : Type 0 → Type 0
M A = RunState → Ended A

abbrev pub and_then : {A B : Type 0} → Ended A → (A → M B) → Ended B
and_then (done a s) f = f a s
and_then (thrown s) f = thrown s

infixl 5 ◌>>=◌ ◌>>◌
abbrev pub ◌>>=◌ : {A B : Type 0} → M A → (A → M B) → M B
◌>>=◌ m f s = and_then (m s) f

abbrev pub ◌>>◌ : {B : Type 0} → M (Unit {0}) → M B → M B
m >> k = m >>= λ _. k

abbrev pub pure : {A : Type 0} → A → M A
pure a s = done a s

abbrev pub throw : {A : Type 0} → M A
throw s = thrown s

-- A value that depends on the state.
abbrev pub read_state : {A : Type 0} → (RunState → A) → M A
read_state f s = done (f s) s

abbrev pub or_throw : {A : Type 0} → Option A → M A
or_throw none = throw
or_throw (some a) = pure a
