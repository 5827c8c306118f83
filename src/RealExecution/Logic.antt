-- ===== src/RealExecution/Logic.antt =====
-- A logic for the actions of the executor: what they append to the journal, and that what they ask
-- of their surroundings is authorized.
use Prim.Native.String
use text.Mathlib.Text.{starts_with}
use protostar.Base.{
  ℕ, ◌+◌, ◌≤◌, ◌≡◌, refl, sym, subst, ap, ◌∙◌, ◌⊎◌, String, true, List, [], ◌∷◌, ◌++◌, arith, map,
  append-nil, append_assoc, length, length-append, All,
}
use protostar.Execution.Tasks.{EventType, LifecycleEvent}
use protostar.Execution.Journal.{TaskJournalEvent}
use protostar.Authority.Operations.{authorized, authorize_workspace_op}
use protostar.Repo.Host.{Host}
use protostar.Repo.ChangeSet.{PatchRequest}
use protostar.Repo.ChangeSet.Guards.{Agrees}
use protostar.RealExecution.Types.{
  History, Effect, append_event, write_snapshot, check_sentinel, inspect_target, create_target,
  initialize_evidence, write_evidence, execute_adapter, apply_patches, RunState, Ended, done,
  thrown, M, and_then, ◌>>=◌, pure,
}
use protostar.RealExecution.Emission.{type_of}
use protostar.RealExecution.Patches.{WriteContext, write_op}

-- An event's type and task.
abbrev pub Label : Type 0
Label = EventType × String

abbrev pub numbered : ℕ → List Label → List (ℕ × Label)
numbered n [] = []
numbered n (k ∷ ks) = (n, k) ∷ numbered (n + 1) ks

abbrev pub label_of : TaskJournalEvent → ℕ × Label
label_of e = (e.seq, (type_of e.kind, e.plan_task_id))

abbrev pub event_label : LifecycleEvent → Label
event_label e = (e.type, e.plan_task_id)

numbered-append :
    (n : ℕ) (ks ls : List Label)
    → numbered n (ks ++ ls) ≡ numbered n ks ++ numbered (n + length ks) ls
numbered-append n [] ls = ap (λ m. numbered m ls) (omega arith)
numbered-append n (k ∷ ks) ls =
    ap (λ xs. (n, k) ∷ xs)
      (numbered-append (n + 1) ks ls ∙ ap (λ m. numbered (n + 1) ks ++ numbered m ls) (omega arith))

-- The events whose append was asked for, the earliest first.
abbrev pub appended : History → List TaskJournalEvent
appended [] = []
appended (append_event e ∷ h) = appended h ++ e ∷ []
appended (_ ∷ h) = appended h

module _ (host : Host) (writes : WriteContext) where
  abbrev pub IsAuthorized : String → Type 0
  IsAuthorized path =
      authorize_workspace_op (write_op writes path) ≡ authorized (write_op writes path)

  -- A patch for a path whose write is authorized, with an operation inside the checkout's root and a
  -- diff that names the same file.
  abbrev pub IsSafePatch : PatchRequest → Type 0
  IsSafePatch p = IsAuthorized p.path × (p.op.root ≡ writes.workspace_root) × Agrees host p

  abbrev pub IsSafe : Effect → Type 0
  IsSafe (apply_patches patches) = All IsSafePatch patches
  IsSafe (create_target path) =
      (target : String) × IsAuthorized target
      × (path ≡ host.resolve_from (host.resolve writes.workspace_root) target)
      × ((path ≡ host.resolve writes.workspace_root)
          ⊎ (starts_with path (String.◌++◌ (host.resolve writes.workspace_root) "/") ≡ true))
  IsSafe (append_event e) = Unit
  IsSafe (write_snapshot s) = Unit
  IsSafe check_sentinel = Unit
  IsSafe (inspect_target path) = Unit
  IsSafe (initialize_evidence id attempt) = Unit
  IsSafe (write_evidence id attempt adapter result) = Unit
  IsSafe (execute_adapter task attempt) = Unit

  -- The journal is that of the start, `base`, and what was appended to its file since; and what was
  -- asked is safe.
  abbrev pub IsSound : (base : List TaskJournalEvent) → RunState → Type 0
  IsSound base s = All IsSafe s.history × (s.journal ≡ base ++ appended s.history)

  -- The same of a run that threw: one event more may have been asked for, whose append was rejected.
  abbrev pub IsHalted : (base : List TaskJournalEvent) → RunState → Type 0
  IsHalted base s =
      All IsSafe s.history
      × (rest : List TaskJournalEvent) × (length rest ≤ 1)
      × (s.journal ++ rest ≡ base ++ appended s.history)

  -- The journal is longer by events with these labels, numbered on.
  abbrev pub GrowsBy : RunState → RunState → List Label → Type 0
  GrowsBy s s' ks = map label_of s'.journal ≡ map label_of s.journal ++ numbered s.seq ks

  abbrev pub Extends : RunState → RunState → List Label → Type 0
  Extends s s' ks =
      GrowsBy s s' ks × ((base : List TaskJournalEvent) → IsSound base s → IsHalted base s')

  -- So are the events, and the next number follows.
  abbrev pub Appends : RunState → RunState → List Label → Type 0
  Appends s s' ks =
      (GrowsBy s s' ks × ((base : List TaskJournalEvent) → IsSound base s → IsSound base s'))
      × (s'.seq ≡ s.seq + length ks)
      × (map event_label s'.events ≡ map event_label s.events ++ ks)

  -- How an action ends: `Q` holds of its value and of the labels of the events that it appended.
  pub data Ensures {A : Type 0} (s : RunState) (Q : A → List Label → Type 0)
      : Ended A → Type 0 where
    ended :
        (a : A) (t : RunState) (ks : List Label) → Appends s t ks → Q a ks → Ensures s Q (done a t)
    cut : (t : RunState) (ks : List Label) → Extends s t ks → Ensures s Q (thrown t)

  GrowsBy-trans :
      (s t u : RunState) (ks ls : List Label)
      → Appends s t ks
      → GrowsBy t u ls
      → GrowsBy s u (ks ++ ls)
  GrowsBy-trans s t u ks ls ((j, sound), n, e) j' =
      j'
      ∙ ap (λ xs. xs ++ numbered t.seq ls) j
      ∙ append_assoc (map label_of s.journal) (numbered s.seq ks) (numbered t.seq ls)
      ∙ ap (λ xs. map label_of s.journal ++ xs)
          (ap (λ m. numbered s.seq ks ++ numbered m ls) n ∙ sym (numbered-append s.seq ks ls))

  Appends-trans :
      (s t u : RunState) (ks ls : List Label)
      → Appends s t ks
      → Appends t u ls
      → Appends s u (ks ++ ls)
  Appends-trans s t u ks ls ((j, sound), n, e) ((j', sound'), n', e') = (
    (GrowsBy-trans s t u ks ls ((j, sound), n, e) j', λ base h. sound' base (sound base h)),
    omega (arith, length-append ks ls),
    e' ∙ ap (λ xs. xs ++ ls) e ∙ append_assoc (map event_label s.events) ks ls,
  )

  pub Ensures-shift :
      {A : Type 0} (s t : RunState) (ks : List Label) {Q : A → List Label → Type 0} {r : Ended A}
      → Appends s t ks
      → Ensures t (λ a ls. Q a (ks ++ ls)) r
      → Ensures s Q r
  Ensures-shift s t ks h (ended a u ls k q) = ended a u (ks ++ ls) (Appends-trans s t u ks ls h k) q
  Ensures-shift s t ks h (cut u ls k) =
      cut u (ks ++ ls) (GrowsBy-trans s t u ks ls h k.0, λ base x. k.1 base (h.0.1 base x))

  pub Ensures-and_then :
      {A B : Type 0} {s : RunState} {Q : A → List Label → Type 0} {R : B → List Label → Type 0}
      {r : Ended A} (f : A → M B)
      → Ensures s Q r
      → ((a : A) (t : RunState) (ks : List Label)
          → Q a ks
          → Ensures t (λ b ls. R b (ks ++ ls)) (f a t))
      → Ensures s R (and_then r f)
  Ensures-and_then {s = s} f (ended a t ks h q) k = Ensures-shift s t ks h (k a t ks q)
  Ensures-and_then f (cut t ks h) k = cut t ks h

  pub Ensures-weaken :
      {A : Type 0} {s : RunState} {Q R : A → List Label → Type 0} {r : Ended A}
      → ((a : A) (ks : List Label) → Q a ks → R a ks)
      → Ensures s Q r
      → Ensures s R r
  Ensures-weaken f (ended a t ks h q) = ended a t ks h (f a ks q)
  Ensures-weaken f (cut t ks h) = cut t ks h

  -- An action that appends no event.
  unfoldable pub IsQuiet : {A : Type 0} → M A → Type 0
  IsQuiet m = (s : RunState) → Ensures s (λ a ks. ks ≡ []) (m s)

  pub after_quiet :
      {A B : Type 0} {R : B → List Label → Type 0} (m : M A) (f : A → M B) (s : RunState)
      → IsQuiet m
      → ((a : A) (t : RunState) → Ensures t R (f a t))
      → Ensures s R ((m >>= f) s)
  unfolding IsQuiet
  after_quiet {R = R} m f s q k =
      Ensures-and_then f (q s)
        (λ a t ks e. subst (λ js. Ensures t (λ b ls. R b (js ++ ls)) (f a t)) (sym e) (k a t))

  -- An action that appends the events with these labels.
  unfoldable pub Emits : List Label → M (Unit {0}) → Type 0
  Emits js m = (s : RunState) → Ensures s (λ a ks. ks ≡ js) (m s)

  pub after_emit :
      {B : Type 0} {R : B → List Label → Type 0} (js : List Label) (m : M (Unit {0}))
      (f : Unit {0} → M B) (s : RunState)
      → Emits js m
      → ((t : RunState) → Ensures t (λ b ls. R b (js ++ ls)) (f tt t))
      → Ensures s R ((m >>= f) s)
  unfolding Emits
  after_emit {R = R} js m f s q k =
      Ensures-and_then f (q s)
        (λ a t ks e. subst (λ is. Ensures t (λ b ls. R b (is ++ ls)) (f a t)) (sym e) (k t))

  pub bind-IsQuiet :
      {A B : Type 0} (m : M A) (f : A → M B)
      → IsQuiet m
      → ((a : A) → IsQuiet (f a))
      → IsQuiet (m >>= f)
  unfolding IsQuiet
  bind-IsQuiet m f h k s = after_quiet m f s h k

  pub ends_pure :
      {A : Type 0} {R : A → List Label → Type 0} (a : A) (s : RunState)
      → R a []
      → Ensures s R (pure a s)
  ends_pure a s h =
      ended a s [] ((sym (append-nil _), λ base k. k), omega arith, sym (append-nil _)) h

  -- A step that changes neither the journal nor the events nor the number.
  pub quiet_step :
      {A : Type 0} (a : A) (s t : RunState)
      → t.journal ≡ s.journal
      → t.events ≡ s.events
      → t.seq ≡ s.seq
      → appended t.history ≡ appended s.history
      → (All IsSafe s.history → All IsSafe t.history)
      → Ensures s (λ b ks. ks ≡ []) (done a t)
  quiet_step a s t j e n w safe =
      ended a t []
        (
          (
            ap (map label_of) j ∙ sym (append-nil _),
            λ base (h, same). (safe h, j ∙ same ∙ ap (λ xs. base ++ xs) (sym w)),
          ),
          omega arith,
          ap (map event_label) e ∙ sym (append-nil _),
        )
        refl

  pub thrown_step :
      {A : Type 0} {R : A → List Label → Type 0} (s t : RunState) (rest : List TaskJournalEvent)
      → length rest ≤ 1
      → t.journal ≡ s.journal
      → appended t.history ≡ appended s.history ++ rest
      → (All IsSafe s.history → All IsSafe t.history)
      → Ensures s R (thrown t)
  thrown_step s t rest one j w safe = cut t [] (
    ap (map label_of) j ∙ sym (append-nil _),
    λ base (h, same). (
      safe h,
      rest,
      one,
      ap (λ xs. xs ++ rest) (j ∙ same)
          ∙ append_assoc base (appended s.history) rest
          ∙ ap (λ xs. base ++ xs) (sym w),
    ),
  )
