-- ===== src/Planning/Handoff/Checked.antt =====
-- What the checks of the dependency graph establish about the tasks of a plan.
use protostar.Base.{
  ℕ, ◌+◌, ◌≡◌, refl, sym, ap, ◌∙◌, String, Bool, true, false, ◌&&◌, ◌||◌, List, [], ◌∷◌, ◌++◌,
  Option, none, some, arith, ◌==◌, eq_iff, eq_refl, Dict, get, put, get-put, has, map, is_some,
  is_empty, all, any, All, IsDistinct, if◌then◌else◌,
}
use protostar.Planning.Types.{PlanTask, DependencyViolation, DuplicateTaskId, duplicate_task_id}
use protostar.Planning.Graph.{
  duplicates_of, duplicate_id, construct, construct_plan_task_dependency_graph, add_nodes, task_ids,
  is_plan_task_id, duplicates_from, collect_duplicate_task_id_violations, Construction, report,
  add_edge, validate_task_dependency_reference, is_resolvable_dependency_graph_edge,
  add_dependencies, add_tasks,
}
use protostar.Planning.Graph.Edges.{declares_dependency, any-declares_dependency}
use protostar.Planning.Order.{by_id}
use protostar.Planning.Order.Sorting.{needs, depends}

-- Without a violation for a duplicate id, the ids differ.
duplicates_from-IsDistinct :
    (i : ℕ) (firsts : Dict ℕ) (ts : List PlanTask)
    → is_empty (duplicates_from i firsts ts) ≡ true
    → IsDistinct (task_ids ts)
      × ((x : String) → is_some (get firsts x) ≡ true → has (task_ids ts) x ≡ false)
unfolding duplicates_from
duplicates_from-IsDistinct i firsts [] h = (tt, λ x k. refl)
duplicates_from-IsDistinct i firsts (t ∷ ts) h =
    go (get firsts t.id) refl h (duplicates_from-IsDistinct (i + 1) (put firsts t.id i) ts)
  where
    go :
        (o : Option ℕ)
        → get firsts t.id ≡ o
        → is_empty (elim o [
          | none ↦ duplicates_from (i + 1) (put firsts t.id i) ts
          | some first_index ↦
              duplicate_task_id t.id first_index i ∷ duplicates_from (i + 1) firsts ts
        ])
          ≡ true
        → (is_empty (duplicates_from (i + 1) (put firsts t.id i) ts) ≡ true
            → IsDistinct (task_ids ts)
              × ((x : String)
                  → is_some (get (put firsts t.id i) x) ≡ true
                  → has (task_ids ts) x ≡ false))
        → IsDistinct (task_ids (t ∷ ts))
          × ((x : String) → is_some (get firsts x) ≡ true → has (task_ids (t ∷ ts)) x ≡ false)
    go none e h rest =
        let (distinct, later) = rest h in
        (
          (later t.id (ground (arith, get-put firsts t.id t.id i, eq_refl t.id)), distinct),
          λ x k. ground (
            arith,
            later x,
            get-put firsts t.id x i,
            eq_iff t.id x,
            λ (s : t.id ≡ x). sym (ap (λ j. is_some (get firsts j)) s) ∙ ap is_some e,
          ),
        )
    go (some first_index) e h rest = cc

-- The map by id.
pub by_id-get :
    (ts : List PlanTask) (m : Dict PlanTask) (x : String)
    → (is_some (get (by_id ts m) x) ≡ (has (task_ids ts) x || is_some (get m x)))
      × (has (task_ids ts) x ≡ false → get (by_id ts m) x ≡ get m x)
unfolding by_id
by_id-get [] m x = (refl, λ _. refl)
by_id-get (t ∷ ts) m x =
    let (here, other) = by_id-get ts (put m t.id t) x in
    (ground (arith, here, get-put m t.id x t), λ k. ground (arith, other, get-put m t.id x t))

pub by_id-own :
    (ts : List PlanTask) (m : Dict PlanTask)
    → IsDistinct (task_ids ts)
    → All (λ t. get (by_id ts m) t.id ≡ some t) ts
unfolding by_id
by_id-own [] m h = tt
by_id-own (t ∷ ts) m (h, hs) = (
  (by_id-get ts (put m t.id t) t.id).1 h ∙ ground (arith, get-put m t.id t.id t, eq_refl t.id),
  by_id-own ts (put m t.id t) hs,
)

pub by_id-keyed :
    (ts : List PlanTask) (m : Dict PlanTask)
    → ((d : String) (t : PlanTask) → get m d ≡ some t → t.id ≡ d)
    → (d : String) (t : PlanTask) → get (by_id ts m) d ≡ some t
    → t.id ≡ d
unfolding by_id
by_id-keyed [] m h = h
by_id-keyed (u ∷ ts) m h = by_id-keyed ts (put m u.id u) (λ d t e.
    ground (arith, get-put m u.id d u, eq_iff u.id d, h d t, sym (get-put m u.id d u) ∙ e))

pub by_id-needs :
    (ts : List PlanTask) (m : Dict PlanTask) (x y : String)
    → has (needs (get (by_id ts m) x)) y ≡ true
    → any (λ t. t.id == x && has t.depends_on y) ts || has (needs (get m x)) y ≡ true
unfolding by_id
by_id-needs [] m x y h = h
by_id-needs (t ∷ ts) m x y h =
    ground (arith, by_id-needs ts (put m t.id t) x y h, get-put m t.id x t)

any_weaken :
    (p q : PlanTask → Bool) (ts : List PlanTask)
    → ((t : PlanTask) → p t ≡ true → q t ≡ true)
    → any p ts ≡ true
    → any q ts ≡ true
any_weaken p q [] h k = k
any_weaken p q (t ∷ ts) h k = ground (arith, any_weaken p q ts h, h t)

all-has :
    (p : String → Bool) (xs : List String) (x : String)
    → all p xs ≡ true
    → has xs x ≡ true
    → p x ≡ true
all-has p [] x h k = cc
all-has p (y ∷ xs) x h k = ground (arith, all-has p xs x, eq_iff y x, λ (e : y ≡ x). ap p e)

has-nil : (xs : List String) (x : String) → is_empty xs ≡ true → has xs x ≡ false
has-nil [] x h = refl
has-nil (y ∷ xs) x h = cc

is_empty-map :
    (vs : List DuplicateTaskId) → is_empty vs ≡ true → is_empty (map duplicate_id vs) ≡ true
is_empty-map [] h = refl
is_empty-map (v ∷ vs) h = cc

module _ (tasks : List PlanTask)
    (no_duplicates : is_empty (collect_duplicate_task_id_violations tasks) ≡ true)
    (well_formed : all is_plan_task_id (task_ids tasks) ≡ true) where
  pub duplicates-IsDistinct : IsDistinct (task_ids tasks)
  unfolding collect_duplicate_task_id_violations
  duplicates-IsDistinct = (duplicates_from-IsDistinct 0 [] tasks no_duplicates).0

  resolves :
      (t : PlanTask) (x y : String)
      → has (task_ids tasks) x ≡ true
      → has (task_ids tasks) y ≡ true
      → t.id ≡ x
      → is_resolvable_dependency_graph_edge (task_ids tasks) (duplicates_of tasks) t y ≡ true
  unfolding is_resolvable_dependency_graph_edge
  resolves t x y hx hy e =
      let none_twice = is_empty-map (collect_duplicate_task_id_violations tasks) no_duplicates in
      ground (
        arith,
        ap is_plan_task_id e ∙ all-has is_plan_task_id (task_ids tasks) x well_formed hx,
        all-has is_plan_task_id (task_ids tasks) y well_formed hy,
        has-nil (duplicates_of tasks) t.id none_twice,
        has-nil (duplicates_of tasks) y none_twice,
      )

  needs-present : (o : Option PlanTask) (y : String) → has (needs o) y ≡ true → is_some o ≡ true
  needs-present none y h = cc
  needs-present (some t) y h = refl

  -- What the sort takes for a dependency is an edge of the graph.
  pub depends-declares_dependency :
      (x y : String) → depends (by_id tasks []) x y ≡ true → declares_dependency tasks x y ≡ true
  depends-declares_dependency x y h =
      let m = by_id tasks [] in
      let listed : has (needs (get m x)) y ≡ true = ground arith in
      let hx : has (task_ids tasks) x ≡ true =
        ground (arith, (by_id-get tasks [] x).0, needs-present (get m x) y listed) in
      let hy : has (task_ids tasks) y ≡ true = ground (arith, (by_id-get tasks [] y).0) in
      sym (any-declares_dependency tasks x y)
      ∙ any_weaken (λ t. t.id == x && has t.depends_on y) _ tasks
          (λ t k. ground (arith, resolves t x y hx hy, eq_iff t.id x))
          (ground (arith, by_id-needs tasks [] x y listed))

-- Without a violation for a dependency, every dependency is the id of a task.
is_empty-append : {A : Type 0} (xs : List A) (x : A) → is_empty (xs ++ x ∷ []) ≡ false
is_empty-append [] x = refl
is_empty-append (y ∷ xs) x = refl

report-none :
    (k : ℕ) (c : Construction) (o : Option DependencyViolation)
    → is_empty (report k o c).dependency_violations ≡ true
    → (is_empty c.dependency_violations ≡ true) × (o ≡ none)
report-none k c none h = (h, refl)
report-none k c (some v) h = cc (h, is_empty-append c.dependency_violations (k, v))

module _ (ids duplicates : List String) where
  report-clean :
      (k : ℕ) (t : PlanTask) (d : String) (i : ℕ) (c : Construction)
      → is_empty
          (report k
            (validate_task_dependency_reference ids duplicates t d i)
            c).dependency_violations
        ≡ true
      → (is_empty c.dependency_violations ≡ true) × (has ids d ≡ true)
  unfolding validate_task_dependency_reference
  report-clean k t d i c h =
      let (before, valid) =
        report-none k c (validate_task_dependency_reference ids duplicates t d i) h in
      (before, ground arith)

  add_dependencies-clean :
      (k : ℕ) (t : PlanTask) (i : ℕ) (ds : List String) (c : Construction)
      → is_empty (add_dependencies ids duplicates k t i ds c).dependency_violations ≡ true
      → (is_empty c.dependency_violations ≡ true)
        × ((d : String) → has ds d ≡ true → has ids d ≡ true)
  unfolding add_dependencies
  add_dependencies-clean k t i [] c h = (h, λ d e. cc)
  add_dependencies-clean k t i (d ∷ ds) c h =
      let r = report k (validate_task_dependency_reference ids duplicates t d i) c in
      let (c', later) = add_dependencies-clean k t (i + 1) ds _ h in
      let (before, known) =
        report-clean k t d i c
          (same (is_resolvable_dependency_graph_edge ids duplicates t d) r c') in
      (
        before,
        λ e m.
            ground (arith, later e, known, eq_iff d e, λ (s : d ≡ e). sym (ap (has ids) s) ∙ known),
      )
    where
      same :
          (b : Bool) (r : Construction)
          → is_empty (if b then add_edge t d i r else r).dependency_violations ≡ true
          → is_empty r.dependency_violations ≡ true
      same true r h = h
      same false r h = h

  add_tasks-clean :
      (k : ℕ) (ts : List PlanTask) (c : Construction)
      → is_empty (add_tasks ids duplicates k ts c).dependency_violations ≡ true
      → (is_empty c.dependency_violations ≡ true)
        × All (λ t. (d : String) → has t.depends_on d ≡ true → has ids d ≡ true) ts
  unfolding add_tasks
  add_tasks-clean k [] c h = (h, tt)
  add_tasks-clean k (t ∷ ts) c h =
      let (c', later) = add_tasks-clean (k + 1) ts _ h in
      let (before, here) = add_dependencies-clean k t 0 t.depends_on c c' in (before, (here, later))

empty-map :
    (vs : List (ℕ × DependencyViolation)) → is_empty (map (λ v. v.1) vs) ≡ true → is_empty vs ≡ true
empty-map [] h = refl
empty-map (v ∷ vs) h = cc

-- A plan whose graph is reported as sound.
pub ok-distinct_and_known :
    (tasks : List PlanTask)
    → (construct_plan_task_dependency_graph tasks).ok ≡ true
    → (is_empty (collect_duplicate_task_id_violations tasks) ≡ true)
      × All (λ t. (d : String) → has t.depends_on d ≡ true → has (task_ids tasks) d ≡ true) tasks
unfolding construct_plan_task_dependency_graph construct
ok-distinct_and_known tasks h = (
  ground arith,
  (add_tasks-clean (task_ids tasks) (duplicates_of tasks) 0 tasks
      (record { nodes = add_nodes tasks []; edges = []; dependency_violations = [] })
      (empty-map (construct tasks).dependency_violations (ground arith))).1,
)
