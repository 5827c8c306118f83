-- ===== src/Planning/Order/Sorting.antt =====
-- The depth-first search of topoSortPlanTasks appends each task behind its dependencies.
use protostar.Base.{
  ◌≡◌, refl, sym, ap, ◌∙◌, inl, inr, String, Bool, true, false, ◌&&◌, ◌||◌, List, [], ◌∷◌, ◌++◌,
  Option, none, some, arith, ◌==◌, eq_iff, eq_refl, Dict, get, has, has-append, is_some, All,
  IsDistinct, Bool-cases,
}
use protostar.Planning.Types.{PlanTask}
use protostar.Planning.Graph.{task_ids}
use protostar.Planning.Order.{Sort, and_then, enter, visit_dependencies}

pub task_ids-append : (xs ys : List PlanTask) → task_ids (xs ++ ys) ≡ task_ids xs ++ task_ids ys
task_ids-append [] ys = refl
task_ids-append (t ∷ xs) ys = ap (λ is. t.id ∷ is) (task_ids-append xs ys)

pub has-task_ids-append :
    (xs : List PlanTask) (t : PlanTask) (x : String)
    → has (task_ids (xs ++ t ∷ [])) x ≡ (has (task_ids xs) x || t.id == x)
has-task_ids-append xs t x =
    ap (λ is. has is x) (task_ids-append xs (t ∷ []))
    ∙ has-append (task_ids xs) (t.id ∷ []) x
    ∙ ground arith

IsDistinct-append :
    (xs : List PlanTask) (t : PlanTask)
    → IsDistinct (task_ids xs)
    → has (task_ids xs) t.id ≡ false
    → IsDistinct (task_ids (xs ++ t ∷ []))
IsDistinct-append [] t h fresh = (refl, tt)
IsDistinct-append (u ∷ xs) t (h, hs) fresh = (
  ground (arith, has-task_ids-append xs t u.id, eq_iff t.id u.id, eq_iff u.id t.id),
  IsDistinct-append xs t hs (ground arith),
)

All-append :
    (P : PlanTask → Type 0) (xs : List PlanTask) (t : PlanTask)
    → All P xs
    → P t
    → All P (xs ++ t ∷ [])
All-append P [] t h k = (k, tt)
All-append P (u ∷ xs) t (h, hs) k = (h, All-append P xs t hs k)

abbrev pub needs : Option PlanTask → List String
needs none = []
needs (some t) = t.depends_on

module _ (present : String → Bool) where
  -- Each task stands behind its dependencies, as far as they are present.
  abbrev pub Ready : List String → List PlanTask → Type 0
  Ready seen [] = Unit
  Ready seen (t ∷ ts) =
      ((d : String) → has t.depends_on d ≡ true → present d ≡ true → has seen d ≡ true)
      × Ready (t.id ∷ seen) ts

  Ready-append :
      (seen : List String) (xs : List PlanTask) (t : PlanTask)
      → Ready seen xs
      → ((d : String)
          → has t.depends_on d ≡ true
          → present d ≡ true
          → has (task_ids xs) d || has seen d ≡ true)
      → Ready seen (xs ++ t ∷ [])
  Ready-append seen [] t h k = (λ d e p. k d e p, tt)
  Ready-append seen (u ∷ xs) t (h, hs) k =
      (h, Ready-append (u.id ∷ seen) xs t hs (λ d e p. ground (arith, k d e p)))

module _ (m : Dict PlanTask) where
  abbrev pub is_present : String → Bool
  is_present d = is_some (get m d)

  -- The task of `x` lists `y`, and there is a task of `y`.
  abbrev pub depends : String → String → Bool
  depends x y = has (needs (get m x)) y && is_some (get m y)

  -- The state of a search in which the tasks of `path` are open.
  pub record IsSorted (path : List String) (s : Sort) : Type 0 where
    pub marked : (x : String) → has s.visited x ≡ (has (task_ids s.sorted) x || has path x)
    pub distinct : IsDistinct (task_ids s.sorted)
    pub apart : (x : String) → has path x ≡ true → has (task_ids s.sorted) x ≡ false
    pub ready : Ready is_present [] s.sorted
    pub known : All (λ t. get m t.id ≡ some t) s.sorted

  pub enter-IsSorted :
      (path : List String) (t : PlanTask) (s : Sort)
      → has s.visited t.id ≡ false
      → IsSorted path s
      → IsSorted (t.id ∷ path) (enter t s)
  enter-IsSorted path t s new h = record {
    marked = λ x. ground (arith, h.marked x);
    distinct = h.distinct;
    apart = λ x e. ground (
      arith,
      h.apart x,
      h.marked x,
      eq_iff t.id x,
      λ (i : t.id ≡ x). sym (ap (has s.visited) i) ∙ new,
    );
    ready = h.ready;
    known = h.known;
  }

  abbrev pub Extends : Sort → Sort → Type 0
  Extends s s' =
      ((x : String) → has s.visited x ≡ true → has s'.visited x ≡ true)
      × ((x : String) → has (task_ids s.sorted) x ≡ true → has (task_ids s'.sorted) x ≡ true)

  abbrev pub Done : (Sort → Type 0) → Option Sort → Type 0
  Done P none = ⊥
  Done P (some s) = P s

  -- What a search for `ids` leaves: all of them that have a task are sorted.
  abbrev pub Found : (path ids : List String) → Sort → Sort → Type 0
  Found path ids s s' =
      IsSorted path s'
      × Extends s s'
      × ((x : String)
          → has ids x ≡ true
          → is_some (get m x) ≡ true
          → has (task_ids s'.sorted) x ≡ true)

  pub and_then-Done :
      (P Q : Sort → Type 0) (o : Option Sort) (k : Sort → Option Sort)
      → Done P o
      → ((s : Sort) → P s → Done Q (k s))
      → Done Q (and_then o k)
  and_then-Done P Q (some s) k h f = f s h
  and_then-Done P Q none k h f = h

  pub Done-weaken :
      (P Q : Sort → Type 0) (o : Option Sort) → ((s : Sort) → P s → Q s) → Done P o → Done Q o
  Done-weaken P Q (some s) f h = f s h
  Done-weaken P Q none f h = h

  pub Found-cons :
      (path ids : List String) (d : String) (s v w : Sort)
      → Found path (d ∷ []) s v
      → Found path ids v w
      → Found path (d ∷ ids) s w
  Found-cons path ids d s v w (_, (vs, ss), f) (h, (vs', ss'), f') = (
    h,
    (λ x k. vs' x (vs x k), λ x k. ss' x (ss x k)),
    λ x k p. elim (Bool-cases (d == x)) [
      | inl same ↦ ss' x (f x (ground arith) p)
      | inr other ↦ f' x (ground arith) p
    ],
  )

  pub visit_dependencies-Done :
      (call : PlanTask → Sort → Option Sort) (path ds : List String) (s : Sort)
      → ((d : String) (t : PlanTask) (v : Sort)
          → has ds d ≡ true
          → get m d ≡ some t
          → IsSorted path v
          → Extends s v
          → Done (Found path (d ∷ []) v) (call t v))
      → IsSorted path s
      → Done (Found path ds s) (visit_dependencies call m ds s)
  unfolding visit_dependencies
  visit_dependencies-Done call path [] s calls h = (h, (λ x k. k, λ x k. k), λ x k. cc)
  visit_dependencies-Done call path (d ∷ ds) s calls h = go (get m d) refl (λ v (hv, (vs, ss), f).
      Done-weaken (Found path ds v) (Found path (d ∷ ds) s) (visit_dependencies call m ds v)
        (λ w. Found-cons path ds d s v w (hv, (vs, ss), f))
        (visit_dependencies-Done call path ds v
          (λ e t w k g hw (vs', ss').
            calls e t w (ground arith) g hw (λ x y. vs' x (vs x y), λ x y. ss' x (ss x y)))
          hv))
    where
      go :
          (o : Option PlanTask)
          → get m d ≡ o
          → ((v : Sort)
              → Found path (d ∷ []) s v
              → Done (Found path (d ∷ ds) s) (visit_dependencies call m ds v))
          → Done (Found path (d ∷ ds) s) (elim o [
            | none ↦ visit_dependencies call m ds s
            | some t ↦ and_then (call t s) (visit_dependencies call m ds)
          ])
      go none e rest = rest s (
        h,
        (λ x k. k, λ x k. k),
        λ x k p.
            ground (
              arith,
              eq_iff d x,
              λ (i : d ≡ x). sym (ap (λ j. is_some (get m j)) i) ∙ ap is_some e,
            ),
      )
      go (some t) e rest =
          and_then-Done (Found path (d ∷ []) s) (Found path (d ∷ ds) s) (call t s) _
            (calls d t s (ground (arith, eq_refl d)) e h (λ x k. k, λ x k. k)) rest

  pub append-IsSorted :
      (path : List String) (t : PlanTask) (s : Sort)
      → get m t.id ≡ some t
      → has path t.id ≡ false
      → IsSorted (t.id ∷ path) s
      → ((d : String)
          → has t.depends_on d ≡ true
          → is_some (get m d) ≡ true
          → has (task_ids s.sorted) d ≡ true)
      → IsSorted path (record s { sorted = s.sorted ++ t ∷ [] })
  append-IsSorted path t s own outside h found = record {
    marked = λ x. h.marked x ∙ ground (arith, has-task_ids-append s.sorted t x);
    distinct =
        IsDistinct-append s.sorted t h.distinct (h.apart t.id (ground (arith, eq_refl t.id)));
    apart = λ x e. ground (
      arith,
      has-task_ids-append s.sorted t x,
      h.apart x,
      eq_iff t.id x,
      λ (i : t.id ≡ x). sym (ap (has path) i) ∙ outside,
    );
    ready = Ready-append is_present [] s.sorted t h.ready (λ d e p. ground (arith, found d e p));
    known = All-append (λ u. get m u.id ≡ some u) s.sorted t h.known own;
  }
