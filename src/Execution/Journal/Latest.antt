-- ===== src/Execution/Journal/Latest.antt =====
-- The last event of each task, told from the journal alone, and what the two loops make of it.
use protostar.Base.{
  ℕ, ◌≤◌, max, ◌≡◌, refl, sym, ◌∙◌, ◌⊎◌, inl, inr, String, List, [], ◌∷◌, ◌++◌, Option, none, some,
  arith, ◌==◌, eq_iff, Dict, get, put, get-put, keys, put-IsDistinct, IsDistinct, All, first_some,
  Bool-cases, if◌then◌else◌,
}
use protostar.Execution.Journal.{
  TaskJournalEvent, SnapshotTask, task_from_event, reduce_events, latest_by_task,
}

max_cases : (a b : ℕ) → (max a b ≡ a) ⊎ (max a b ≡ b)
max_cases a b = omega arith

abbrev pub latest : String → List TaskJournalEvent → Option TaskJournalEvent
latest j [] = none
latest j (e ∷ es) = first_some (latest j es) (if e.plan_task_id == j then some e else none)

abbrev pub tasked : Option TaskJournalEvent → Option SnapshotTask
tasked none = none
tasked (some e) = some (task_from_event e)

pub latest-append :
    (j : String) (xs ys : List TaskJournalEvent)
    → latest j (xs ++ ys) ≡ first_some (latest j ys) (latest j xs)
latest-append j [] ys = ground arith
latest-append j (x ∷ xs) ys = ground (arith, latest-append j xs ys)

pub reduce_events-get :
    (es : List TaskJournalEvent) (last : ℕ) (m : Dict SnapshotTask) (j : String)
    → get (reduce_events es last m).1 j ≡ first_some (tasked (latest j es)) (get m j)
unfolding reduce_events
reduce_events-get [] last m j = refl
reduce_events-get (e ∷ es) last m j = ground (
  arith,
  reduce_events-get es (max last e.seq) (put m e.plan_task_id (task_from_event e)) j,
  get-put m e.plan_task_id j (task_from_event e),
)

pub latest_by_task-get :
    (es : List TaskJournalEvent) (m : Dict TaskJournalEvent) (j : String)
    → get (latest_by_task es m) j ≡ first_some (latest j es) (get m j)
unfolding latest_by_task
latest_by_task-get [] m j = refl
latest_by_task-get (e ∷ es) m j =
    ground (arith, latest_by_task-get es (put m e.plan_task_id e) j, get-put m e.plan_task_id j e)

-- The map of latest events has each key once, and each event under its own task.
abbrev pub IsOwn : Dict TaskJournalEvent → Type 0
IsOwn [] = Unit
IsOwn ((k, e) ∷ m) = (e.plan_task_id ≡ k) × IsOwn m

put-IsOwn :
    (m : Dict TaskJournalEvent) (e : TaskJournalEvent) → IsOwn m → IsOwn (put m e.plan_task_id e)
put-IsOwn [] e h = (refl, tt)
put-IsOwn ((k, x) ∷ m) e (h, hs) = elim (Bool-cases (k == e.plan_task_id)) [
  | inl same ↦ rw same (ground (arith, eq_iff k e.plan_task_id), hs)
  | inr other ↦ rw other (h, put-IsOwn m e hs)
]

pub latest_by_task-IsDistinct :
    (es : List TaskJournalEvent) (m : Dict TaskJournalEvent)
    → IsDistinct (keys m)
    → IsOwn m
    → IsDistinct (keys (latest_by_task es m)) × IsOwn (latest_by_task es m)
unfolding latest_by_task
latest_by_task-IsDistinct [] m d o = (d, o)
latest_by_task-IsDistinct (e ∷ es) m d o =
    latest_by_task-IsDistinct es (put m e.plan_task_id e) (put-IsDistinct m _ e d) (put-IsOwn m e o)

-- Some event has the number `n`.
abbrev pub Attains : ℕ → List TaskJournalEvent → Type 0
Attains n [] = ⊥
Attains n (e ∷ es) = (e.seq ≡ n) ⊎ Attains n es

pub reduce_events-le :
    (es : List TaskJournalEvent) (last : ℕ) (m : Dict SnapshotTask)
    → (last ≤ (reduce_events es last m).0) × All (λ e. e.seq ≤ (reduce_events es last m).0) es
unfolding reduce_events
reduce_events-le [] last m = (omega arith, tt)
reduce_events-le (e ∷ es) last m =
    let (bound, bounds) =
      reduce_events-le es (max last e.seq) (put m e.plan_task_id (task_from_event e)) in
    (omega arith, (omega arith, bounds))

pub reduce_events-Attains :
    (es : List TaskJournalEvent) (last : ℕ) (m : Dict SnapshotTask)
    → ((reduce_events es last m).0 ≡ last) ⊎ Attains (reduce_events es last m).0 es
unfolding reduce_events
reduce_events-Attains [] last m = inl refl
reduce_events-Attains (e ∷ es) last m =
    elim (reduce_events-Attains es (max last e.seq) (put m e.plan_task_id (task_from_event e))) [
      | inr later ↦ inr (inr later)
      | inl kept ↦ elim (max_cases last e.seq) [
        | inl old ↦ inl (kept ∙ old)
        | inr new ↦ inr (inl (sym (kept ∙ new)))
      ]
    ]
