-- ===== src/RealExecution/Tasks.antt =====
-- The body of the loop of runRealExecution over the tasks.
use Prim.Native.String
use text.Mathlib.Text.{starts_with}
use protostar.Base.{
  ℕ, String, Bool, true, false, not, ◌&&◌, ◌||◌, List, [], ◌∷◌, ◌++◌, Option, none, some, ◌==◌, any,
  is_empty, is_some, or_else, nat_eq, if◌then◌else◌,
}
use protostar.Execution.Tasks.{StageArtifactRef, ExecutionTask}
use protostar.Execution.Journal.{
  EventKind, task_pending, task_running, task_succeeded, task_failed, task_timeout, task_cancelled,
  CancelCause, sigint, sentinel, abort,
}
use protostar.Repo.Host.{Host}
use protostar.Repo.ChangeSet.{PatchRequest, ApplyStatus, applied, ApplyResult}
use protostar.RealExecution.Types.{
  AdapterEvidence, AdapterFailureReason, aborted, timeout, ChangeEntry, AdapterResult, change_set,
  adapter_failed, AdapterEvent, final, check_sentinel, initialize_evidence, write_evidence,
  execute_adapter, apply_patches, TaskSignal, live, timed_out, cut_off, AbortReason, by_sigint,
  by_sentinel, by_other, Services, done, M, ◌>>=◌, ◌>>◌, pure, or_throw, read_state,
}
use protostar.RealExecution.Emission.{perform, emit}
use protostar.RealExecution.Patches.{
  WriteContext, patches_from_change_set, materialize_missing_authorized_write_targets,
}

pub data RunOutcome : Type 0 where
  complete cancelled : RunOutcome
  block : (reason : String) → RunOutcome

-- `continue` or the end of the body, against `break` with the outcome assigned.
pub data TaskEnd : Type 0 where
  next : TaskEnd
  stop : RunOutcome → TaskEnd

abbrev pub reason_text : AdapterFailureReason → String
reason_text AdapterFailureReason.parse_no_block = "parse-no-block"
reason_text AdapterFailureReason.parse_multiple_blocks = "parse-multiple-blocks"
reason_text AdapterFailureReason.parse_reformat_failed = "parse-reformat-failed"
reason_text AdapterFailureReason.lmstudio_unreachable = "lmstudio-unreachable"
reason_text AdapterFailureReason.lmstudio_http_error = "lmstudio-http-error"
reason_text AdapterFailureReason.lmstudio_model_not_loaded = "lmstudio-model-not-loaded"
reason_text AdapterFailureReason.retries_exhausted = "retries-exhausted"
reason_text AdapterFailureReason.aborted = "aborted"
reason_text AdapterFailureReason.timeout = "timeout"
reason_text AdapterFailureReason.aux_read_budget_exceeded = "aux-read-budget-exceeded"
reason_text AdapterFailureReason.empty_repair_change_set = "empty-repair-change-set"

unfoldable pub cancel_cause : Option AbortReason → CancelCause
cancel_cause none = abort
cancel_cause (some by_sigint) = sigint
cancel_cause (some by_sentinel) = sentinel
cancel_cause (some by_other) = abort

abbrev pub synthetic_id : String
synthetic_id = "task-live-planning-pre-handoff-verification"

unfoldable pub is_synthetic_pre_handoff_verification_task : String → Bool
is_synthetic_pre_handoff_verification_task id =
    id == synthetic_id || starts_with id (String.◌++◌ synthetic_id "-")

abbrev pub synthetic_pre_handoff_verification_evidence : AdapterEvidence
synthetic_pre_handoff_verification_evidence = record {
  model = "pre-handoff-verification";
  attempts = 0;
  duration_ms = 0;
  aux_reads = [];
  retries = [];
}

abbrev pub empty_evidence : AdapterEvidence
empty_evidence = record {
  model = "unknown";
  attempts = 0;
  duration_ms = 0;
  aux_reads = [];
  retries = [];
}

abbrev pub evidence_of : AdapterResult → AdapterEvidence
evidence_of (change_set entries evidence) = evidence
evidence_of (adapter_failed reason evidence) = evidence

-- The result of the first final event.
unfoldable pub first_final : List AdapterEvent → Option AdapterResult
first_final [] = none
first_final (final result ∷ events) = some result
first_final (_ ∷ events) = first_final events

-- What the run is given, beside the services.
pub record RunContext : Type 0 where
  pub run_id : String
  pub writes : WriteContext
  pub snapshot_every : ℕ
  pub has_sentinel : Bool
  pub attempt : ℕ
  pub is_repair : Bool

module _ (host : Host) (services : Services) (context : RunContext) where
  abbrev pub record_event : EventKind → String → M (Unit {0})
  record_event kind id = emit services context.run_id context.snapshot_every kind id context.attempt

  abbrev pub root_signal : M (Option AbortReason)
  root_signal = read_state (λ s. services.root_aborted s.history)

  unfoldable pub task_evidence_artifact_dir : String → String
  task_evidence_artifact_dir id =
      let dir = String.◌++◌ "execution/task-" id in
      if nat_eq context.attempt 1
      then dir
      else String.◌++◌ (String.◌++◌ dir "-attempt-") (services.print context.attempt)

  unfoldable pub write_evidence_files : String → String → AdapterResult → M StageArtifactRef
  unfolding task_evidence_artifact_dir
  write_evidence_files id adapter_id result = do
    perform services (initialize_evidence id context.attempt)
    perform services (write_evidence id context.attempt adapter_id result)
    pure (record {
      stage = "execution";
      kind = "adapter-evidence";
      uri = String.◌++◌ (task_evidence_artifact_dir id) "/evidence.json";
      sha256 = none;
      description = some (
          String.◌++◌ (String.◌++◌ (String.◌++◌ "Adapter evidence for task " id) " attempt ")
            (String.◌++◌ (services.print context.attempt) "."));
    })

  unfoldable pub keep_evidence : String → AdapterEvidence → M (Unit {0})
  keep_evidence id evidence s =
      done tt (record s { per_task_evidence = s.per_task_evidence ++ (id, evidence) ∷ [] })

  -- The adapter's stream that ended without a final event.
  abbrev pub result_without_final : TaskSignal → AdapterResult
  result_without_final timed_out = adapter_failed timeout empty_evidence
  result_without_final _ = adapter_failed aborted empty_evidence

  unfoldable pub execute_to_final : ExecutionTask → M AdapterResult
  unfolding first_final
  execute_to_final task = do
    perform services (initialize_evidence task.plan_task_id context.attempt)
    events ← λ s.
        or_throw (services.execute s.history task context.attempt)
          (record s { history = execute_adapter task context.attempt ∷ s.history })
    signal ← read_state (λ s. services.task_signal s.history)
    pure (or_else (first_final events) (result_without_final signal))

  unfoldable pub end_timed_out : String → StageArtifactRef → M TaskEnd
  end_timed_out id ref = do
    record_event (task_timeout (some ref)) id
    pure (stop (block "task-timeout"))

  unfoldable pub end_cancelled : String → Option StageArtifactRef → M TaskEnd
  unfolding cancel_cause
  end_cancelled id ref = do
    reason ← root_signal
    record_event (task_cancelled (cancel_cause reason) ref) id
    pure (stop cancelled)

  unfoldable pub end_failed : String → (reason block_reason : String) → StageArtifactRef → M TaskEnd
  end_failed id reason block_reason ref = do
    record_event (task_failed reason none none (some ref)) id
    pure (stop (block block_reason))

  unfoldable pub end_succeeded : String → StageArtifactRef → TaskEnd → M TaskEnd
  end_succeeded id ref end = do record_event (task_succeeded ref) id; pure end

  abbrev pub is_applied : ApplyStatus → Bool
  is_applied applied = true
  is_applied _ = false

  unfoldable pub end_adapter_failed : String → StageArtifactRef → AdapterFailureReason → M TaskEnd
  unfolding end_timed_out end_cancelled end_failed
  end_adapter_failed id ref timeout = end_timed_out id ref
  end_adapter_failed id ref aborted = end_cancelled id (some ref)
  end_adapter_failed id ref reason = end_failed id (reason_text reason) (reason_text reason) ref

  abbrev pub apply_changes : List PatchRequest → M (List ApplyResult)
  apply_changes patches s =
      or_throw (services.apply s.history patches)
        (record s { history = apply_patches patches ∷ s.history })

  abbrev pub after_apply : String → StageArtifactRef → Bool → TaskEnd → M TaskEnd
  after_apply id ref true end = end_succeeded id ref end
  after_apply id ref false end = end_failed id "apply-failed" "apply-failure" ref

  unfoldable pub end_with_change_set : String → StageArtifactRef → List ChangeEntry → M TaskEnd
  unfolding end_succeeded end_failed
  end_with_change_set id ref entries = do
    patches ← or_throw (patches_from_change_set host context.writes entries)
    results ← apply_changes patches
    after_apply id ref (not (any (λ r. not (is_applied r.status)) results))
        (if context.is_repair && not (is_empty patches) then stop complete else next)

  abbrev pub end_with : String → StageArtifactRef → AdapterResult → M TaskEnd
  end_with id ref (adapter_failed reason evidence) = end_adapter_failed id ref reason
  end_with id ref (change_set entries evidence) = end_with_change_set id ref entries

  -- What the signals say after the evidence is written.
  abbrev pub by_signals : String → StageArtifactRef → AdapterResult → TaskSignal → Bool → M TaskEnd
  by_signals id ref result timed_out root = end_timed_out id ref
  by_signals id ref result cut_off root = end_cancelled id (some ref)
  by_signals id ref result live true = end_cancelled id (some ref)
  by_signals id ref result live false = end_with id ref result

  unfoldable pub run_adapter : ExecutionTask → M TaskEnd
  unfolding execute_to_final write_evidence_files keep_evidence end_timed_out end_cancelled
      end_adapter_failed end_with_change_set
  run_adapter task = do
    materialize_missing_authorized_write_targets host context.writes services
        (or_else task.target_files [])
    result ← execute_to_final task
    keep_evidence task.plan_task_id (evidence_of result)
    ref ← write_evidence_files task.plan_task_id services.adapter_id result
    signal ← read_state (λ s. services.task_signal s.history)
    root ← root_signal
    by_signals task.plan_task_id ref result signal (is_some root)

  unfoldable pub run_synthetic : String → M TaskEnd
  unfolding write_evidence_files keep_evidence end_succeeded
  run_synthetic id = do
    keep_evidence id synthetic_pre_handoff_verification_evidence
    ref ←
        write_evidence_files id "pre-handoff-verification"
          (change_set [] synthetic_pre_handoff_verification_evidence)
    end_succeeded id ref next

  abbrev pub sentinel_between_tasks : Bool → M (Unit {0})
  sentinel_between_tasks true = perform services check_sentinel
  sentinel_between_tasks false = pure tt

  abbrev pub run_kind : Bool → ExecutionTask → M TaskEnd
  run_kind true task = run_synthetic task.plan_task_id
  run_kind false task = run_adapter task

  abbrev pub unless_aborted : Option AbortReason → ExecutionTask → M TaskEnd
  unless_aborted (some reason) task = end_cancelled task.plan_task_id none
  unless_aborted none task = do
    record_event task_pending task.plan_task_id
    record_event task_running task.plan_task_id
    run_kind (is_synthetic_pre_handoff_verification_task task.plan_task_id) task

  unfoldable pub run_task : ExecutionTask → M TaskEnd
  unfolding run_adapter run_synthetic end_cancelled
  run_task task = do
    sentinel_between_tasks context.has_sentinel
    root ← root_signal
    unless_aborted root task
