-- ===== src/RealExecution/Actions.antt =====
-- The actions of the executor in the logic: which append an event, and which append none.
use Prim.Native.String
use text.Mathlib.Text.{starts_with}
use protostar.Base.{
  ℕ, ◌+◌, ◌≡◌, refl, sym, subst, ap, ◌∙◌, ◌⊎◌, inl, inr, String, Bool, true, false, ◌||◌, List, [],
  ◌∷◌, ◌++◌, Option, none, some, arith, map, map-append, append-nil, append_assoc, All, ◌==◌,
  eq_iff, leb, Bool-cases, Option-cases,
}
use protostar.Execution.Journal.{EventKind, TaskJournalEvent, reduce_journal_to_snapshot}
use protostar.Authority.Operations.{
  WorkspaceOp, authorized, refused, OperationError, conclude, authorize_workspace_op,
}
use protostar.Repo.Host.{Host}
use protostar.Repo.ChangeSet.{
  PatchRequest, minted, Check, checked, mismatched, mint_patch_request, check_invariant,
}
use protostar.Repo.ChangeSet.Guards.{Agrees, check_invariant-checked}
use protostar.RealExecution.Types.{
  History, ChangeEntry, Effect, append_event, write_snapshot, inspect_target, create_target,
  Services, RunState, pure, read_state, or_throw,
}
use protostar.RealExecution.Emission.{
  type_of, lifecycle_from_journal, is_terminal, perform, now_iso, reset_count, take_seq, keep_event,
  snapshot_if_due, emit_event, emit,
}
use protostar.RealExecution.Patches.{
  WriteContext, write_op, request_of, minted_request, request_if, patch_of_entry, cons_some,
  patches_from_change_set, absolute_target, escapes, target_exists, create_unless,
  create_if_missing,
}
use protostar.RealExecution.Logic.{
  appended, label_of, event_label, IsAuthorized, IsSafePatch, IsSafe, Ensures, Ensures-shift,
  Ensures-weaken, IsQuiet, Emits, after_quiet, ends_pure, quiet_step, thrown_step,
}

-- The effect appends no event.
abbrev pub IsNoAppend : Effect → Type 0
IsNoAppend e = (h : History) → appended (e ∷ h) ≡ appended h

some_injective : {A : Type 0} {a b : A} → some a ≡ some b → a ≡ b
some_injective h = cc

module _ (host : Host) (writes : WriteContext) where
  conclude-cases :
      (op : WorkspaceOp) (errors : List OperationError)
      → (conclude op errors ≡ authorized op)
        ⊎ ((es : List OperationError) × (conclude op errors ≡ refused es))
  conclude-cases op [] = inl refl
  conclude-cases op (e ∷ es) = inr (e ∷ es, refl)

  pub authorize-cases :
      (path : String)
      → IsAuthorized host writes path
        ⊎ ((errors : List OperationError) × (authorize_workspace_op (write_op writes path)
              ≡ refused errors))
  unfolding authorize_workspace_op
  authorize-cases path = conclude-cases (write_op writes path) _

  mint-cases :
      (p : PatchRequest)
      → ((mint_patch_request host p ≡ minted p) × Agrees host p)
        ⊎ (minted_request host writes (mint_patch_request host p) ≡ none)
  unfolding mint_patch_request
  mint-cases p = by_check (check_invariant host p) refl
    where
      by_check :
          (c : Check)
          → check_invariant host p ≡ c
          → ((mint_patch_request host p ≡ minted p) × Agrees host p)
            ⊎ (minted_request host writes (mint_patch_request host p) ≡ none)
      by_check (checked canon) e =
          inl (rw (e, mint_patch_request), check_invariant-checked host p canon e)
      by_check (mismatched error) e = inr (rw (e, mint_patch_request))

  pub pure-IsQuiet : {A : Type 0} (a : A) → IsQuiet host writes (pure a)
  unfolding IsQuiet
  pure-IsQuiet a s = ends_pure host writes a s refl

  pub read-IsQuiet : {A : Type 0} (f : RunState → A) → IsQuiet host writes (read_state f)
  unfolding IsQuiet
  read-IsQuiet f s = ends_pure host writes (f s) s refl

  -- A value that may be missing, behind an effect that is noted.
  pub or_throw-IsQuiet :
      {A : Type 0} (o : RunState → Option A) (e : Effect)
      → IsSafe host writes e
      → IsNoAppend e
      → IsQuiet host writes (λ s. or_throw (o s) (record s { history = e ∷ s.history }))
  unfolding IsQuiet
  or_throw-IsQuiet {A} o e safe other s = by_value (o s)
    where
      by_value :
          (x : Option A)
          → Ensures host writes s
              (λ a ks. ks ≡ [])
              (or_throw x (record s { history = e ∷ s.history }))
      by_value none =
          thrown_step host writes s _ [] (omega arith) refl (other s.history ∙ sym (append-nil _))
            (λ h. (safe, h))
      by_value (some a) =
          quiet_step host writes a s _ refl refl refl (other s.history) (λ h. (safe, h))

  pub option-IsQuiet : {A : Type 0} (o : Option A) → IsQuiet host writes (or_throw o)
  unfolding IsQuiet
  option-IsQuiet none s =
      thrown_step host writes s s [] (omega arith) refl (sym (append-nil _)) (λ h. h)
  option-IsQuiet (some a) s = ends_pure host writes a s refl

  module _ (services : Services) where
    pub perform-IsQuiet :
        (e : Effect)
        → IsSafe host writes e
        → IsNoAppend e
        → IsQuiet host writes (perform services e)
    unfolding IsQuiet perform
    perform-IsQuiet e safe other s = elim (Bool-cases (services.persist s.history e)) [
      | inl resolved ↦
          rw resolved
            (quiet_step host writes tt s _ refl refl refl (other s.history) (λ h. (safe, h)))
      | inr rejected ↦ rw rejected (
          thrown_step host writes s _ [] (omega arith) refl (other s.history ∙ sym (append-nil _))
            (λ h. (safe, h)))
    ]

    now-IsQuiet : IsQuiet host writes (now_iso services)
    unfolding IsQuiet
    now-IsQuiet s = quiet_step host writes _ s _ refl refl refl refl (λ h. h)

    reset-IsQuiet : IsQuiet host writes (reset_count services)
    unfolding IsQuiet reset_count
    reset-IsQuiet s = quiet_step host writes tt s _ refl refl refl refl (λ h. h)

    module _ (run_id : String) (snapshot_every : ℕ) where
      snapshot-IsQuiet :
          (e : TaskJournalEvent)
          → IsQuiet host writes (snapshot_if_due services run_id snapshot_every e)
      unfolding IsQuiet snapshot_if_due
      snapshot-IsQuiet e s =
          elim (Bool-cases (leb snapshot_every s.events_since_snapshot || is_terminal e.kind)) [
            | inl due ↦ rw due (
                after_quiet host writes (now_iso services) _ s now-IsQuiet (λ at t.
                  after_quiet host writes
                    (perform services
                      (write_snapshot (reduce_journal_to_snapshot run_id at s.journal)))
                    (λ _. reset_count services) t (perform-IsQuiet _ tt (λ h. refl))
                    (λ _ u. reset-IsQuiet u)))
            | inr not_due ↦ rw not_due (ends_pure host writes tt s refl)
          ]

      emits_event :
          (e : TaskJournalEvent) (s : RunState)
          → e.seq ≡ s.seq
          → Ensures host writes s
              (λ _ ks. ks ≡ (type_of e.kind, e.plan_task_id) ∷ [])
              (emit_event services run_id snapshot_every e s)
      unfolding emit_event perform take_seq keep_event lifecycle_from_journal IsQuiet
      emits_event e s numbered = elim (Bool-cases (services.persist s.history (append_event e))) [
        | inr rejected ↦
            rw rejected
              (thrown_step host writes s _ (e ∷ []) (omega arith) refl refl (λ h. (tt, h)))
        | inl resolved ↦ rw resolved (
            Ensures-shift host writes s
              (record s {
                history = append_event e ∷ s.history;
                seq = s.seq + 1;
                journal = s.journal ++ e ∷ [];
                events = s.events ++ lifecycle_from_journal e ∷ [];
                events_since_snapshot = s.events_since_snapshot + 1;
              })
              ((type_of e.kind, e.plan_task_id) ∷ [])
              (
                (
                  map-append label_of s.journal (e ∷ [])
                      ∙ ap
                          (λ n.
                            map label_of s.journal ++ (n, (type_of e.kind, e.plan_task_id)) ∷ [])
                          numbered,
                  λ base (h, same). (
                    (tt, h),
                    ap (λ xs. xs ++ e ∷ []) same ∙ append_assoc base (appended s.history) (e ∷ []),
                  ),
                ),
                omega arith,
                map-append event_label s.events (lifecycle_from_journal e ∷ []),
              )
              (Ensures-weaken host writes
                (λ a ks none_more. ap (λ ls. (type_of e.kind, e.plan_task_id) ∷ ls) none_more)
                (snapshot-IsQuiet e _)))
      ]

      -- `emit` appends the one event, with the next number.
      pub emits :
          (kind : EventKind) (id : String) (attempt : ℕ)
          → Emits host writes
              ((type_of kind, id) ∷ [])
              (emit services run_id snapshot_every kind id attempt)
      unfolding Emits emit
      emits kind id attempt s =
          Ensures-shift host writes s (record s { ticks = s.ticks + 1 }) []
            ((sym (append-nil _), λ base h. h), omega arith, sym (append-nil _))
            (emits_event _ (record s { ticks = s.ticks + 1 }) refl)

    -- The patches of a change set are for authorized paths.
    patch_of_entry-IsSafePatch :
        (entry : ChangeEntry) (p : PatchRequest)
        → patch_of_entry host writes entry ≡ some p
        → IsSafePatch host writes p
    unfolding patch_of_entry request_of
    patch_of_entry-IsSafePatch entry p h = elim (authorize-cases entry.path) [
      | inr (errors, e) ↦ absurd (cc (rw (e, request_if) at h))
      | inl e ↦ elim (mint-cases (request_of host writes entry)) [
        | inr not_minted ↦ absurd (cc (rw (e, request_if, not_minted) at h))
        | inl (is_minted, agrees) ↦
            subst (IsSafePatch host writes) (some_injective (rw (e, request_if, is_minted) at h))
              (e, refl, agrees)
      ]
    ]

    pub patches-IsSafePatch :
        (entries : List ChangeEntry) (ps : List PatchRequest)
        → patches_from_change_set host writes entries ≡ some ps
        → All (IsSafePatch host writes) ps
    unfolding patches_from_change_set
    patches-IsSafePatch [] ps h = subst (All (IsSafePatch host writes)) (some_injective h) tt
    patches-IsSafePatch (entry ∷ entries) ps h =
        elim (Option-cases (patch_of_entry host writes entry)) [
          | inl threw ↦ absurd (cc (rw (threw, cons_some) at h))
          | inr (p, e) ↦ elim (Option-cases (patches_from_change_set host writes entries)) [
            | inl threw ↦ absurd (cc (rw (e, threw, cons_some) at h))
            | inr (qs, f) ↦
                subst (All (IsSafePatch host writes)) (some_injective (rw (e, f, cons_some) at h))
                  (patch_of_entry-IsSafePatch entry p e, patches-IsSafePatch entries qs f)
          ]
        ]

    -- Files are only created for authorized targets below the root.
    pub create-IsQuiet :
        (target : String)
        → IsAuthorized host writes target
        → IsQuiet host writes
            (create_if_missing host writes services (absolute_target host writes services target))
    unfolding IsQuiet create_if_missing target_exists
    create-IsQuiet target authorized_target s =
        let path = absolute_target host writes services target in
        elim (Bool-cases (escapes host writes services path)) [
          | inl outside ↦
              rw outside
                (thrown_step host writes s s [] (omega arith) refl (sym (append-nil _)) (λ h. h))
          | inr inside ↦ rw inside (
              after_quiet host writes (target_exists host writes services path) _ s
                (or_throw-IsQuiet (λ t. services.target_exists t.history path) (inspect_target path)
                  tt (λ h. refl))
                (created path (target, authorized_target, refl, not_escapes path inside)))
        ]
      where
        created :
            (path : String)
            → IsSafe host writes (create_target path)
            → (found : Bool) (t : RunState)
            → Ensures host writes t
                (λ a ks. ks ≡ [])
                (create_unless host writes services path found t)
        created path safe true t = ends_pure host writes tt t refl
        created path safe false t = perform-IsQuiet (create_target path) safe (λ h. refl) t

        not_escapes :
            (path : String)
            → escapes host writes services path ≡ false
            → (path ≡ host.resolve writes.workspace_root)
              ⊎ (starts_with path (String.◌++◌ (host.resolve writes.workspace_root) "/") ≡ true)
        not_escapes path h = elim (Bool-cases (path == host.resolve writes.workspace_root)) [
          | inl same ↦ inl ((eq_iff _ _).0 same)
          | inr other ↦ inr (ground (arith, h))
        ]
