-- ===== src/RealExecution/Bodies.antt =====
-- What the body of the loop over the tasks appends to the journal, on each of its branches.
use protostar.Base.{
  refl, sym, arith, append-nil, inl, inr, String, Bool, true, false, not, ◌&&◌, List, [], Option,
  none, some, any, is_empty, is_some, or_else, if◌then◌else◌, Option-cases, All,
}
use protostar.Execution.Tasks.{StageArtifactRef, task_succeeded, ExecutionTask}
use protostar.Execution.Journal.{EventKind}
use protostar.Repo.Host.{Host}
use protostar.Repo.ChangeSet.{PatchRequest}
use protostar.RealExecution.Types.{
  AdapterFailureReason, aborted, timeout, ChangeEntry, AdapterResult, change_set, adapter_failed,
  check_sentinel, apply_patches, TaskSignal, live, timed_out, cut_off, AbortReason, Services,
  RunState, M, ◌>>=◌, read_state,
}
use protostar.RealExecution.Patches.{patches_from_change_set}
use protostar.RealExecution.Tasks.{
  complete, TaskEnd, next, stop, RunContext, root_signal, end_succeeded, end_adapter_failed,
  is_applied, apply_changes, after_apply, end_with_change_set, by_signals, run_adapter,
  run_synthetic, sentinel_between_tasks, run_kind, unless_aborted, run_task, evidence_of,
  synthetic_pre_handoff_verification_evidence,
}
use protostar.RealExecution.Logic.{
  Ensures, IsQuiet, IsSafePatch, after_quiet, after_emit, thrown_step,
}
use protostar.RealExecution.Actions.{
  pure-IsQuiet, read-IsQuiet, or_throw-IsQuiet, perform-IsQuiet, emits, patches-IsSafePatch,
}
use protostar.RealExecution.Traces.{
  ran, TaskTrace, Ending, materialize-IsQuiet, root-IsQuiet, evidence_files-IsQuiet, keep-IsQuiet,
  execute-IsQuiet, ends_with, timed_out-Ending, cancelled_lem, failed-Ending,
}

module _ (host : Host) (services : Services) (context : RunContext) where
  abbrev Ends : String → RunState → M TaskEnd → Type 0
  Ends id s m = Ensures host context.writes s (Ending id) (m s)

  succeeded-Ending :
      (id : String) (ref : StageArtifactRef) (end : TaskEnd) (s : RunState)
      → TaskTrace id end (ran task_succeeded id)
      → Ends id s (end_succeeded host services context id ref end)
  unfolding end_succeeded
  succeeded-Ending id ref end s h =
      ends_with host services context (EventKind.task_succeeded ref) id end s h

  adapter_failed-Ending :
      (id : String) (ref : StageArtifactRef) (reason : AdapterFailureReason) (s : RunState)
      → Ends id s (end_adapter_failed host services context id ref reason)
  unfolding end_adapter_failed
  adapter_failed-Ending id ref timeout s = timed_out-Ending host services context id ref s
  adapter_failed-Ending id ref aborted s =
      cancelled_lem host services context id (some ref) s (inr refl)
  adapter_failed-Ending id ref AdapterFailureReason.parse_no_block s =
      failed-Ending host services context id _ _ ref s
  adapter_failed-Ending id ref AdapterFailureReason.parse_multiple_blocks s =
      failed-Ending host services context id _ _ ref s
  adapter_failed-Ending id ref AdapterFailureReason.parse_reformat_failed s =
      failed-Ending host services context id _ _ ref s
  adapter_failed-Ending id ref AdapterFailureReason.lmstudio_unreachable s =
      failed-Ending host services context id _ _ ref s
  adapter_failed-Ending id ref AdapterFailureReason.lmstudio_http_error s =
      failed-Ending host services context id _ _ ref s
  adapter_failed-Ending id ref AdapterFailureReason.lmstudio_model_not_loaded s =
      failed-Ending host services context id _ _ ref s
  adapter_failed-Ending id ref AdapterFailureReason.retries_exhausted s =
      failed-Ending host services context id _ _ ref s
  adapter_failed-Ending id ref AdapterFailureReason.aux_read_budget_exceeded s =
      failed-Ending host services context id _ _ ref s
  adapter_failed-Ending id ref AdapterFailureReason.empty_repair_change_set s =
      failed-Ending host services context id _ _ ref s

  after_apply-Ending :
      (id : String) (ref : StageArtifactRef) (applied is_last : Bool) (s : RunState)
      → Ends id s (
          after_apply host services context id ref applied
            (if is_last then stop complete else next))
  after_apply-Ending id ref true true s = succeeded-Ending id ref (stop complete) s refl
  after_apply-Ending id ref true false s = succeeded-Ending id ref next s refl
  after_apply-Ending id ref false is_last s =
      failed-Ending host services context id "apply-failed" "apply-failure" ref s

  -- Patches that are safe are applied, and the results decide.
  patched-Ending :
      (id : String) (ref : StageArtifactRef) (ps : List PatchRequest) (s : RunState)
      → All (IsSafePatch host context.writes) ps
      → Ends id s (
          apply_changes host services context ps >>= λ results.
          after_apply host services context id ref
            (not (any (λ r. not (is_applied host services context r.status)) results))
            (if context.is_repair && not (is_empty ps) then stop complete else next))
  patched-Ending id ref ps s safe =
      after_quiet host context.writes _ _ s
        (or_throw-IsQuiet host context.writes (λ t. services.apply t.history ps) (apply_patches ps)
          safe (λ h. refl))
        (λ results t. after_apply-Ending id ref _ _ t)

  change_set-Ending :
      (id : String) (ref : StageArtifactRef) (entries : List ChangeEntry) (s : RunState)
      → Ends id s (end_with_change_set host services context id ref entries)
  unfolding end_with_change_set
  change_set-Ending id ref entries s =
      elim (Option-cases (patches_from_change_set host context.writes entries)) [
        | inl threw ↦ rw threw (
            thrown_step host context.writes s s [] (omega arith) refl (sym (append-nil _)) (λ h. h))
        | inr (ps, e) ↦ rw e (
            patched-Ending id ref ps s
              (patches-IsSafePatch host context.writes services entries ps e))
      ]

  signals-Ending :
      (id : String) (ref : StageArtifactRef) (result : AdapterResult) (signal : TaskSignal)
      (root : Bool) (s : RunState)
      → Ends id s (by_signals host services context id ref result signal root)
  signals-Ending id ref result timed_out root s = timed_out-Ending host services context id ref s
  signals-Ending id ref result cut_off root s =
      cancelled_lem host services context id (some ref) s (inr refl)
  signals-Ending id ref result live true s =
      cancelled_lem host services context id (some ref) s (inr refl)
  signals-Ending id ref (adapter_failed reason evidence) live false s =
      adapter_failed-Ending id ref reason s
  signals-Ending id ref (change_set entries evidence) live false s =
      change_set-Ending id ref entries s

  adapter-Ending :
      (task : ExecutionTask) (s : RunState)
      → Ends task.plan_task_id s (run_adapter host services context task)
  unfolding run_adapter
  adapter-Ending task s =
      after_quiet host context.writes _ _ s
        (materialize-IsQuiet host services context.writes (or_else task.target_files []))
        (λ _ t.
          after_quiet host context.writes _ _ t (execute-IsQuiet host services context task)
            (λ result u.
              after_quiet host context.writes _ _ u
                (keep-IsQuiet host services context task.plan_task_id (evidence_of result))
                (λ _ v.
                  after_quiet host context.writes _ _ v
                    (evidence_files-IsQuiet host services context task.plan_task_id
                      services.adapter_id result)
                    (λ ref w.
                      after_quiet host context.writes
                        (read_state (λ x. services.task_signal x.history)) _ w
                        (read-IsQuiet host context.writes (λ x. services.task_signal x.history))
                        (λ signal x.
                          after_quiet host context.writes (root_signal host services context) _ x
                            (root-IsQuiet host services context)
                            (λ root y.
                              signals-Ending task.plan_task_id ref result signal (is_some root)
                                y))))))

  synthetic-Ending :
      (id : String) (s : RunState) → Ends id s (run_synthetic host services context id)
  unfolding run_synthetic
  synthetic-Ending id s =
      after_quiet host context.writes _ _ s
        (keep-IsQuiet host services context id synthetic_pre_handoff_verification_evidence)
        (λ _ t.
          after_quiet host context.writes _ _ t
            (evidence_files-IsQuiet host services context id "pre-handoff-verification"
              (change_set [] synthetic_pre_handoff_verification_evidence))
            (λ ref u. succeeded-Ending id ref next u refl))

  kind-Ending :
      (synthetic : Bool) (task : ExecutionTask) (s : RunState)
      → Ends task.plan_task_id s (run_kind host services context synthetic task)
  kind-Ending true task s = synthetic-Ending task.plan_task_id s
  kind-Ending false task s = adapter-Ending task s

  sentinel-IsQuiet :
      (b : Bool) → IsQuiet host context.writes (sentinel_between_tasks host services context b)
  sentinel-IsQuiet true = perform-IsQuiet host context.writes services check_sentinel tt (λ h. refl)
  sentinel-IsQuiet false = pure-IsQuiet host context.writes tt

  aborted-TaskTrace :
      (root : Option AbortReason) (task : ExecutionTask) (s : RunState)
      → Ensures host context.writes s
          (TaskTrace task.plan_task_id)
          (unless_aborted host services context root task s)
  aborted-TaskTrace (some reason) task s =
      cancelled_lem host services context task.plan_task_id none s (inl refl)
  aborted-TaskTrace none task s =
      after_emit host context.writes _ _ _ s
        (emits host context.writes services context.run_id context.snapshot_every
          EventKind.task_pending task.plan_task_id context.attempt)
        (λ t.
          after_emit host context.writes _ _ _ t
            (emits host context.writes services context.run_id context.snapshot_every
              EventKind.task_running task.plan_task_id context.attempt)
            (λ u. kind-Ending _ task u))

  pub run_task-TaskTrace :
      (task : ExecutionTask) (s : RunState)
      → Ensures host context.writes s
          (TaskTrace task.plan_task_id)
          (run_task host services context task s)
  unfolding run_task
  run_task-TaskTrace task s =
      after_quiet host context.writes _ _ s (sentinel-IsQuiet context.has_sentinel) (λ _ t.
        after_quiet host context.writes (root_signal host services context) _ t
          (root-IsQuiet host services context) (λ root u. aborted-TaskTrace root task u))
