-- ===== src/RealExecution/Traces.antt =====
-- What a task of the executor appends to the journal.
use protostar.Base.{
  ◌≡◌, refl, ◌⊎◌, inl, inr, String, ◌||◌, List, [], ◌∷◌, Option, none, some, or_else, Bool-cases,
}
use protostar.Execution.Tasks.{
  StageArtifactRef, EventType, task_pending, task_running, task_succeeded, task_failed,
  task_timeout, task_cancelled, ExecutionTask,
}
use protostar.Execution.Journal.{EventKind, task_timeout}
use protostar.Repo.Host.{Host}
use protostar.RealExecution.Types.{
  AdapterEvidence, AdapterResult, TaskSignal, Services, RunState, ◌>>◌, pure,
}
use protostar.RealExecution.Emission.{type_of}
use protostar.RealExecution.Patches.{
  WriteContext, is_glob_target, materialize_target, materialize_missing_authorized_write_targets,
}
use protostar.RealExecution.Tasks.{
  complete, cancelled, block, TaskEnd, next, stop, RunContext, first_final, root_signal,
  result_without_final, write_evidence_files, keep_evidence, execute_to_final, end_timed_out,
  end_cancelled, end_failed, record_event, cancel_cause,
}
use protostar.RealExecution.Logic.{
  Label, Ensures, IsQuiet, after_quiet, after_emit, bind-IsQuiet, ends_pure, quiet_step,
}
use protostar.RealExecution.Actions.{
  authorize-cases, pure-IsQuiet, read-IsQuiet, or_throw-IsQuiet, perform-IsQuiet, emits,
  create-IsQuiet,
}

-- The events of a task that is finished, and those of one that ended another way.
abbrev pub ran : EventType → String → List Label
ran type id = (task_pending, id) ∷ (task_running, id) ∷ (type, id) ∷ []

-- How a task ends, with the labels of its events.
abbrev pub TaskTrace : String → TaskEnd → List Label → Type 0
TaskTrace id next ks = ks ≡ ran task_succeeded id
TaskTrace id (stop complete) ks = ks ≡ ran task_succeeded id
TaskTrace id (stop cancelled) ks = (ks ≡ (task_cancelled, id) ∷ []) ⊎ (ks ≡ ran task_cancelled id)
TaskTrace id (stop (block reason)) ks =
    ((reason ≡ "task-timeout") × (ks ≡ ran task_timeout id)) ⊎ (ks ≡ ran task_failed id)

-- The same of what follows behind the start of the task.
abbrev pub Ending : String → TaskEnd → List Label → Type 0
Ending id end ks = TaskTrace id end ((task_pending, id) ∷ (task_running, id) ∷ ks)

module _ (host : Host) (services : Services) (writes : WriteContext) where
  materialize_target-IsQuiet :
      (target : String) → IsQuiet host writes (materialize_target host writes services target)
  unfolding IsQuiet materialize_target
  materialize_target-IsQuiet target s =
      elim (Bool-cases (host.is_absolute target || is_glob_target target)) [
        | inl skipped ↦ rw skipped (ends_pure host writes tt s refl)
        | inr relative ↦ elim (authorize-cases host writes target) [
          | inl is_authorized ↦
              rw (relative, is_authorized)
                (create-IsQuiet host writes services target is_authorized s)
          | inr (errors, is_refused) ↦ rw (relative, is_refused) (ends_pure host writes tt s refl)
        ]
      ]

  pub materialize-IsQuiet :
      (targets : List String)
      → IsQuiet host writes
          (materialize_missing_authorized_write_targets host writes services targets)
  unfolding materialize_missing_authorized_write_targets
  materialize-IsQuiet [] = pure-IsQuiet host writes tt
  materialize-IsQuiet (t ∷ ts) =
      bind-IsQuiet host writes _ _ (materialize_target-IsQuiet t) (λ _. materialize-IsQuiet ts)

module _ (host : Host) (services : Services) (context : RunContext) where
  pub root-IsQuiet : IsQuiet host context.writes (root_signal host services context)
  root-IsQuiet = read-IsQuiet host context.writes _

  pub evidence_files-IsQuiet :
      (id adapter_id : String) (result : AdapterResult)
      → IsQuiet host context.writes
          (write_evidence_files host services context id adapter_id result)
  unfolding write_evidence_files
  evidence_files-IsQuiet id adapter_id result =
      bind-IsQuiet host context.writes _ _
        (perform-IsQuiet host context.writes services _ tt (λ h. refl))
        (λ _.
          bind-IsQuiet host context.writes _ _
            (perform-IsQuiet host context.writes services _ tt (λ h. refl))
            (λ _. pure-IsQuiet host context.writes _))

  pub keep-IsQuiet :
      (id : String) (evidence : AdapterEvidence)
      → IsQuiet host context.writes (keep_evidence host services context id evidence)
  unfolding IsQuiet keep_evidence
  keep-IsQuiet id evidence s = quiet_step host context.writes tt s _ refl refl refl refl (λ h. h)

  pub execute-IsQuiet :
      (task : ExecutionTask)
      → IsQuiet host context.writes (execute_to_final host services context task)
  unfolding execute_to_final
  execute-IsQuiet task =
      bind-IsQuiet host context.writes _ _
        (perform-IsQuiet host context.writes services _ tt (λ h. refl))
        (λ _.
          bind-IsQuiet host context.writes _ _
            (or_throw-IsQuiet host context.writes
              (λ s. services.execute s.history task context.attempt) _ tt (λ h. refl))
            (λ events.
              bind-IsQuiet host context.writes {A = TaskSignal} _ _
                (read-IsQuiet host context.writes (λ s. services.task_signal s.history))
                (λ signal. pure-IsQuiet host context.writes (
                  or_else (first_final events)
                    (result_without_final host services context signal)))))

  -- One event, and the end.
  pub ends_with :
      {R : TaskEnd → List Label → Type 0} (kind : EventKind) (id : String) (end : TaskEnd)
      (s : RunState)
      → R end ((type_of kind, id) ∷ [])
      → Ensures host context.writes s R ((record_event host services context kind id >> pure end) s)
  ends_with kind id end s h =
      after_emit host context.writes _ _ (λ _. pure end) s
        (emits host context.writes services context.run_id context.snapshot_every kind id
          context.attempt)
        (λ t. ends_pure host context.writes end t h)

  pub timed_out-Ending :
      (id : String) (ref : StageArtifactRef) (s : RunState)
      → Ensures host context.writes s (Ending id) (end_timed_out host services context id ref s)
  unfolding end_timed_out
  timed_out-Ending id ref s = ends_with (task_timeout (some ref)) id _ s (inl (refl, refl))

  pub cancelled_lem :
      {R : TaskEnd → List Label → Type 0} (id : String) (ref : Option StageArtifactRef)
      (s : RunState)
      → R (stop cancelled) ((task_cancelled, id) ∷ [])
      → Ensures host context.writes s R (end_cancelled host services context id ref s)
  unfolding end_cancelled
  cancelled_lem id ref s h =
      after_quiet host context.writes (root_signal host services context) _ s root-IsQuiet
        (λ reason t. ends_with (EventKind.task_cancelled (cancel_cause reason) ref) id _ t h)

  pub failed-Ending :
      (id reason block_reason : String) (ref : StageArtifactRef) (s : RunState)
      → Ensures host context.writes s
          (Ending id)
          (end_failed host services context id reason block_reason ref s)
  unfolding end_failed
  failed-Ending id reason block_reason ref s =
      ends_with (EventKind.task_failed reason none none (some ref)) id _ s (inr refl)
