-- ===== src/Planning/Order/Topological.antt =====
-- topoSortPlanTasks returns the tasks of an acyclic plan, each behind its dependencies.
use protostar.Base.{
  ℕ, zero, suc, ◌<◌, ◌≡◌, refl, sym, subst, ap, ◌∙◌, inl, inr, String, Bool, true, false, ◌||◌,
  List, [], ◌∷◌, Option, some, arith, ◌==◌, eq_iff, Dict, get, has, is_some, All, Bool-cases,
}
use protostar.Planning.Types.{PlanTask}
use protostar.Planning.Graph.{task_ids}
use protostar.Planning.Cycles.Acyclic.{Reaches, one, Reaches-trans}
use protostar.Planning.Open.{open_keys, open_keys_mono, open_keys-cons}
use protostar.Planning.Order.{Sort, and_then, enter, append, visit_dependencies, visit, visit_each}
use protostar.Planning.Order.Sorting.{
  has-task_ids-append, depends, IsSorted, Extends, Done, Found, and_then-Done, Done-weaken,
  Found-cons, visit_dependencies-Done, enter-IsSorted, append-IsSorted,
}

module _ (m : Dict PlanTask) (keyed : (d : String) (t : PlanTask) → get m d ≡ some t → t.id ≡ d)
    (acyclic : (x : String) → ¬ Reaches (depends m) x x) where
  unfoldable pub Searching : ℕ → Type 0
  Searching fuel =
      (path : List String) (t : PlanTask) (s : Sort)
      → open_keys s.visited m < fuel
      → get m t.id ≡ some t
      → IsSorted m path s
      → ((x : String) → has path x ≡ true → Reaches (depends m) x t.id)
      → Done m (Found m path (t.id ∷ []) s) (visit fuel m t s)

  module _ (fuel : ℕ) (deeper : Searching fuel) (path : List String) (t : PlanTask) (s : Sort)
      (enough : open_keys s.visited m < suc fuel) (own : get m t.id ≡ some t)
      (reach : (x : String) → has path x ≡ true → Reaches (depends m) x t.id)
      (new : has s.visited t.id ≡ false) where
    depends-own :
        (d : String)
        → has t.depends_on d ≡ true
        → is_some (get m d) ≡ true
        → depends m t.id d ≡ true
    depends-own d k p = rw own (ground arith)

    reach-dependency :
        (d : String)
        → depends m t.id d ≡ true
        → (x : String) → has (t.id ∷ path) x ≡ true
        → Reaches (depends m) x d
    reach-dependency d e x k = elim (Bool-cases (t.id == x)) [
      | inl same ↦ subst (λ i. Reaches (depends m) i d) ((eq_iff t.id x).0 same) (one e)
      | inr other ↦ Reaches-trans (reach x (ground arith)) (one e)
    ]

    deeper-Done :
        (d : String) (u : PlanTask) (v : Sort)
        → has t.depends_on d ≡ true
        → get m d ≡ some u
        → IsSorted m (t.id ∷ path) v
        → Extends m (enter t s) v
        → Done m (Found m (t.id ∷ path) (d ∷ []) v) (visit fuel m u v)
    unfolding Searching
    deeper-Done d u v k g h (vs, _) =
        let named : u.id ≡ d = keyed d u g in
        subst (λ i. Done m (Found m (t.id ∷ path) (i ∷ []) v) (visit fuel m u v)) named
          (deeper (t.id ∷ path) u v
            (omega (
              arith,
              open_keys_mono (t.id ∷ s.visited) v.visited m vs,
              open_keys-cons s.visited t.id m new (ap is_some own),
            ))
            (ap (get m) named ∙ g) h
            (subst (λ i. (x : String) → has (t.id ∷ path) x ≡ true → Reaches (depends m) x i)
              (sym named) (reach-dependency d (depends-own d k (ap is_some g)))))

    -- A task whose dependencies are sorted is appended.
    leave :
        (v : Sort)
        → Found m (t.id ∷ path) t.depends_on (enter t s) v
        → Done m (Found m path (t.id ∷ []) s) (append t v)
    leave v (h, (vs, ss), found) = (
      append-IsSorted m path t v own outside h found,
      (λ x k. vs x (ground arith), λ x k. ground (arith, has-task_ids-append v.sorted t x, ss x k)),
      λ x k p. ground (arith, has-task_ids-append v.sorted t x),
    )
      where
        outside : has path t.id ≡ false
        outside = elim (Bool-cases (has path t.id)) [
          | inl opened ↦ absurd (acyclic t.id (reach t.id opened))
          | inr closed ↦ closed
        ]

  pub visit-Done : (fuel : ℕ) → Searching fuel
  unfolding Searching visit
  visit-Done zero path t s enough own h reach = absurd (omega arith)
  visit-Done (suc fuel) path t s enough own h reach = go (has s.visited t.id) refl (visit-Done fuel)
    where
      go :
          (b : Bool)
          → has s.visited t.id ≡ b
          → Searching fuel
          → Done m (Found m path (t.id ∷ []) s) (elim b [
            | true ↦ some s
            | false ↦
                and_then (visit_dependencies (visit fuel m) m t.depends_on (enter t s)) (append t)
          ])
      go true old deeper = (
        h,
        (λ x k. k, λ x k. k),
        λ x k p. elim (Bool-cases (has (task_ids s.sorted) x)) [
          | inl sorted ↦ sorted
          | inr unsorted_yet ↦
              let same : t.id ≡ x = (eq_iff t.id x).0 (ground arith) in
              let opened =
                sym (ap (λ b. b || has path x) unsorted_yet)
                ∙ sym (h.marked x)
                ∙ ap (has s.visited) (sym same)
                ∙ old in
              absurd (acyclic x (subst (λ i. Reaches (depends m) x i) same (reach x opened)))
        ],
      )
      go false new deeper =
          and_then-Done m (Found m (t.id ∷ path) t.depends_on (enter t s)) _ _ (append t)
            (visit_dependencies-Done m (visit fuel m) (t.id ∷ path) t.depends_on (enter t s)
              (deeper-Done fuel deeper path t s enough own reach new)
              (enter-IsSorted m path t s new h))
            (leave fuel deeper path t s enough own reach new)

  pub visit_each-Done :
      (call : PlanTask → Sort → Option Sort) (ts : List PlanTask) (s : Sort)
      → ((t : PlanTask) (v : Sort)
          → get m t.id ≡ some t
          → IsSorted m [] v
          → Done m (Found m [] (t.id ∷ []) v) (call t v))
      → All (λ t. get m t.id ≡ some t) ts
      → IsSorted m [] s
      → Done m (Found m [] (task_ids ts) s) (visit_each call ts s)
  unfolding visit_each
  visit_each-Done call [] s calls own h = (h, (λ x k. k, λ x k. k), λ x k. cc)
  visit_each-Done call (t ∷ ts) s calls (o, own) h =
      and_then-Done m (Found m [] (t.id ∷ []) s) _ (call t s) _ (calls t s o h) (λ v found.
        Done-weaken m (Found m [] (task_ids ts) v) (Found m [] (t.id ∷ task_ids ts) s) _
          (λ w. Found-cons m [] (task_ids ts) t.id s v w found)
          (visit_each-Done call ts v calls own found.0))
