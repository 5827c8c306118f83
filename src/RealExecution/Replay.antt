-- ===== src/RealExecution/Replay.antt =====
-- The replay of orphaned tasks at the start of a run.
use protostar.Base.{
  arith, ◌≡◌, refl, sym, ap, ◌∙◌, inl, inr, List, [], ◌∷◌, ◌++◌, append-nil, append_assoc,
  Bool-cases,
}
use protostar.Execution.Journal.{TaskJournalEvent}
use protostar.Repo.Host.{Host}
use protostar.RealExecution.Types.{append_event, Services, RunState, Ended, done, thrown}
use protostar.RealExecution.Emission.{perform}
use protostar.RealExecution.Patches.{WriteContext}
use protostar.RealExecution.Run.{join_journal, append_replayed}
use protostar.RealExecution.Logic.{appended, IsSound, IsHalted}

module _ (host : Host) (services : Services) (writes : WriteContext) where
  -- The replayed events join the journal in order, all of them or, behind a rejection, the first.
  pub data Replays (s : RunState) (es : List TaskJournalEvent) : Ended (Unit {0}) → Type 0 where
    replayed :
        (t : RunState)
        → t.journal ≡ s.journal ++ es
        → t.events ≡ s.events
        → t.ticks ≡ s.ticks
        → ((base : List TaskJournalEvent) → IsSound host writes base s → IsSound host writes base t)
        → Replays s es (done tt t)
    replay_cut :
        (t : RunState) (ds rest : List TaskJournalEvent)
        → es ≡ ds ++ rest
        → t.journal ≡ s.journal ++ ds
        → ((base : List TaskJournalEvent)
            → IsSound host writes base s
            → IsHalted host writes base t)
        → Replays s es (thrown t)

  with_event : TaskJournalEvent → RunState → RunState
  with_event e s = record s { history = append_event e ∷ s.history; journal = s.journal ++ e ∷ [] }

  with_event-IsSound :
      (e : TaskJournalEvent) (s : RunState) (base : List TaskJournalEvent)
      → IsSound host writes base s
      → IsSound host writes base (with_event e s)
  unfolding with_event
  with_event-IsSound e s base (h, same) =
      ((tt, h), ap (λ xs. xs ++ e ∷ []) same ∙ append_assoc base (appended s.history) (e ∷ []))

  Replays-step :
      (e : TaskJournalEvent) (es : List TaskJournalEvent) (s : RunState) {r : Ended (Unit {0})}
      → Replays (with_event e s) es r
      → Replays s (e ∷ es) r
  unfolding with_event
  Replays-step e es s (replayed t j events ticks safe) =
      replayed t (j ∙ append_assoc s.journal (e ∷ []) es) events ticks
        (λ base h. safe base (with_event-IsSound e s base h))
  Replays-step e es s (replay_cut t ds rest split j safe) =
      replay_cut t (e ∷ ds) rest (ap (λ xs. e ∷ xs) split) (j ∙ append_assoc s.journal (e ∷ []) ds)
        (λ base h. safe base (with_event-IsSound e s base h))

  pub append_replayed-Replays :
      (es : List TaskJournalEvent) (s : RunState)
      → Replays s es (append_replayed host services es s)
  unfolding append_replayed perform join_journal with_event
  append_replayed-Replays [] s = replayed s (sym (append-nil _)) refl refl (λ base h. h)
  append_replayed-Replays (e ∷ es) s =
      elim (Bool-cases (services.persist s.history (append_event e))) [
        | inl resolved ↦
            rw resolved (Replays-step e es s (append_replayed-Replays es (with_event e s)))
        | inr rejected ↦ rw rejected (
            replay_cut _ [] (e ∷ es) refl (sym (append-nil _)) (λ base (h, same). (
              (tt, h),
              e ∷ [],
              omega arith,
              ap (λ xs. xs ++ e ∷ []) same ∙ append_assoc base (appended s.history) (e ∷ []),
            )))
      ]
