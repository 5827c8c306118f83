-- ===== src/Planning/Graph/Edges.antt =====
-- The graph has the edges that the tasks declare, as far as they resolve.
use protostar.Base.{
  ℕ, ◌+◌, ◌≡◌, refl, sym, ap, ◌∙◌, inl, inr, String, Bool, true, false, not, ◌&&◌, ◌||◌, List, [],
  ◌∷◌, ◌++◌, Option, none, some, arith, ◌==◌, eq_iff, eq_refl, Dict, get, put, get-put, has,
  has-append, is_some, any, Bool-cases, if◌then◌else◌,
}
use protostar.Planning.Types.{PlanTask, DependencyNode, DependencyViolation}
pub use protostar.Planning.Graph.Duplicates.{declares_dependency, any-declares_dependency}
pub use protostar.Planning.Graph.EdgeList.{has_edge}
use protostar.Planning.Graph.EdgeList.{add_tasks-has_edge}
use protostar.Planning.Graph.{
  task_ids, is_plan_task_id, add_nodes, push_depends_on, Construction,
  validate_task_dependency_reference, is_resolvable_dependency_graph_edge, report, add_edge, update,
  add_dependencies, add_tasks, duplicates_of, construct, construct_plan_task_dependency_graph,
}

abbrev dependencies : Option DependencyNode → List String
dependencies none = []
dependencies (some n) = n.depends_on

-- The tasks that the graph lets `id` depend on: none where it has no node.
abbrev pub depends_on_of : Dict DependencyNode → String → List String
depends_on_of m id = dependencies (get m id)

module _ (m : Dict DependencyNode) (k d x y : String) where
  update-is_some :
      (f : DependencyNode → DependencyNode) (o : Option DependencyNode)
      → get m k ≡ o
      → is_some (get (update f o k m) x) ≡ is_some (get m x)
  update-is_some f none e = refl
  update-is_some f (some n) e = ground (arith, get-put m k x (f n), eq_iff k x)

  push_depends_on-has :
      (o : Option DependencyNode)
      → get m k ≡ o
      → is_some o ≡ true
      → has
          (depends_on_of (update (λ n. record n { depends_on = n.depends_on ++ d ∷ [] }) o k m) x)
          y
        ≡ (has (depends_on_of m x) y || (k == x && d == y))
  push_depends_on-has none e s = cc
  push_depends_on-has (some n) e s = ground (
    arith,
    get-put m k x (record n { depends_on = n.depends_on ++ d ∷ [] }),
    eq_iff k x,
    has-append n.depends_on (d ∷ []) y,
  )

  push_depended_on_by-has :
      (o : Option DependencyNode)
      → get m k ≡ o
      → depends_on_of
          (update (λ n. record n { depended_on_by = n.depended_on_by ++ d ∷ [] }) o k m)
          x
        ≡ depends_on_of m x
  push_depended_on_by-has none e = refl
  push_depended_on_by-has (some n) e =
      ground (
        arith,
        get-put m k x (record n { depended_on_by = n.depended_on_by ++ d ∷ [] }),
        eq_iff k x,
      )

HasNode : Dict DependencyNode → String → Type 0
HasNode m id = is_some (get m id) ≡ true

pub report-nodes :
    (i : ℕ) (o : Option DependencyViolation) (c : Construction) → (report i o c).nodes ≡ c.nodes
report-nodes i none c = refl
report-nodes i (some v) c = refl

module _ (t : PlanTask) (d : String) (i : ℕ) (c : Construction) where
  add_edge-is_some :
      (x : String) → is_some (get (add_edge t d i c).nodes x) ≡ is_some (get c.nodes x)
  add_edge-is_some x =
      let m = push_depends_on c.nodes t.id d in
      update-is_some m d t.id x x _ (get m d) refl
      ∙ update-is_some c.nodes t.id d x x _ (get c.nodes t.id) refl

  add_edge-has :
      (x y : String)
      → is_some (get c.nodes t.id) ≡ true
      → has (depends_on_of (add_edge t d i c).nodes x) y
        ≡ (has (depends_on_of c.nodes x) y || (t.id == x && d == y))
  add_edge-has x y s =
      let m = push_depends_on c.nodes t.id d in
      ap (λ ds. has ds y) (push_depended_on_by-has m d t.id x y (get m d) refl)
      ∙ push_depends_on-has c.nodes t.id d x y (get c.nodes t.id) refl s

module _ (ids duplicates : List String) where
  abbrev resolves : PlanTask → String → Bool
  resolves t d = is_resolvable_dependency_graph_edge ids duplicates t d

  module _ (k : ℕ) (t : PlanTask) where
    add_dependencies-is_some :
        (i : ℕ) (ds : List String) (c : Construction) (x : String)
        → is_some (get (add_dependencies ids duplicates k t i ds c).nodes x)
          ≡ is_some (get c.nodes x)
    unfolding add_dependencies
    add_dependencies-is_some i [] c x = refl
    add_dependencies-is_some i (d ∷ ds) c x =
        let r = report k (validate_task_dependency_reference ids duplicates t d i) c in
        ground (
          arith,
          add_dependencies-is_some (i + 1) ds (add_edge t d i r) x,
          add_dependencies-is_some (i + 1) ds r x,
          add_edge-is_some t d i r x,
          report-nodes k (validate_task_dependency_reference ids duplicates t d i) c,
        )

    add_dependencies_step :
        (i : ℕ) (d : String) (ds : List String) (c : Construction)
        → let r = report k (validate_task_dependency_reference ids duplicates t d i) c in
          add_dependencies ids duplicates k t i (d ∷ ds) c
          ≡ add_dependencies ids duplicates k t
              (i + 1)
              ds
              (if resolves t d then add_edge t d i r else r)
    unfolding add_dependencies
    add_dependencies_step i d ds c = refl

    joined_edge :
        (d : String) (ds : List String) (x y : String) (b : Bool)
        → resolves t d ≡ true
        → (b || (t.id == x && d == y)) || (t.id == x && (has ds y && resolves t y))
          ≡ b || (t.id == x && (has (d ∷ ds) y && resolves t y))
    joined_edge d ds x y b h =
        ground (arith, eq_iff d y, λ (e : d ≡ y). sym (ap (resolves t) e) ∙ h)

    skipped_edge :
        (d : String) (ds : List String) (x y : String) (b : Bool)
        → resolves t d ≡ false
        → b || (t.id == x && (has ds y && resolves t y))
          ≡ b || (t.id == x && (has (d ∷ ds) y && resolves t y))
    skipped_edge d ds x y b h =
        ground (arith, eq_iff d y, λ (e : d ≡ y). sym (ap (resolves t) e) ∙ h)

    add_dependencies-has :
        (i : ℕ) (ds : List String) (c : Construction) (x y : String)
        → ((d : String) → resolves t d ≡ true → is_some (get c.nodes t.id) ≡ true)
        → has (depends_on_of (add_dependencies ids duplicates k t i ds c).nodes x) y
          ≡ (has (depends_on_of c.nodes x) y || (t.id == x && (has ds y && resolves t y)))
    unfolding add_dependencies
    add_dependencies-has i [] c x y node = ground arith
    add_dependencies-has i (d ∷ ds) c x y node =
        let r = report k (validate_task_dependency_reference ids duplicates t d i) c in
        let same = report-nodes k (validate_task_dependency_reference ids duplicates t d i) c in
        let kept = λ (e : String) (h : resolves t e ≡ true).
          ap (λ m. is_some (get m t.id)) same ∙ node e h in
        elim (Bool-cases (resolves t d)) [
          | inl yes_edge ↦
              (ap (λ m. has (depends_on_of m.nodes x) y)
                  (add_dependencies_step i d ds c
                    ∙ ap
                        (λ b.
                          add_dependencies ids duplicates k t (i + 1) ds
                            (if b then add_edge t d i r else r))
                        yes_edge)
                ∙ add_dependencies-has (i + 1) ds (add_edge t d i r) x y
                    (λ e h. add_edge-is_some t d i r t.id ∙ kept e h)
                ∙ ap (λ b. b || (t.id == x && (has ds y && resolves t y)))
                    (add_edge-has t d i r x y (kept d yes_edge)
                      ∙ ap (λ m. has (depends_on_of m x) y || (t.id == x && d == y)) same)
                ∙ joined_edge d ds x y _ yes_edge)
          | inr no_edge ↦
              (ap (λ m. has (depends_on_of m.nodes x) y)
                  (add_dependencies_step i d ds c
                    ∙ ap
                        (λ b.
                          add_dependencies ids duplicates k t (i + 1) ds
                            (if b then add_edge t d i r else r))
                        no_edge)
                ∙ add_dependencies-has (i + 1) ds r x y kept
                ∙ ap (λ m. has (depends_on_of m x) y || (t.id == x && (has ds y && resolves t y)))
                    same
                ∙ skipped_edge d ds x y _ no_edge)
        ]

  abbrev declares : List PlanTask → (x y : String) → Bool
  declares ts x y = any (λ t. t.id == x && (has t.depends_on y && resolves t y)) ts

  add_tasks-has :
      (k : ℕ) (ts : List PlanTask) (c : Construction) (x y : String)
      → ((t : PlanTask) (d : String)
          → has (task_ids ts) t.id ≡ true
          → resolves t d ≡ true
          → is_some (get c.nodes t.id) ≡ true)
      → has (depends_on_of (add_tasks ids duplicates k ts c).nodes x) y
        ≡ (has (depends_on_of c.nodes x) y || declares ts x y)
  unfolding add_tasks
  add_tasks-has k [] c x y node = ground arith
  add_tasks-has k (t ∷ ts) c x y node =
      let c' = add_dependencies ids duplicates k t 0 t.depends_on c in
      ground (
        arith,
        add_tasks-has (k + 1) ts c' x y (λ u d m h.
            add_dependencies-is_some k t 0 t.depends_on c u.id ∙ node u d (ground arith) h),
        add_dependencies-has k t 0 t.depends_on c x y
            (λ d h. node t d (ground (arith, eq_refl t.id)) h),
      )

resolves-is_plan_task_id :
    (ids duplicates : List String) (t : PlanTask) (d : String)
    → is_resolvable_dependency_graph_edge ids duplicates t d ≡ true
    → is_plan_task_id t.id ≡ true
unfolding is_resolvable_dependency_graph_edge
resolves-is_plan_task_id ids duplicates t d h = ground arith

abbrev no_edges : DependencyNode
no_edges = record { depends_on = []; depended_on_by = [] }

put-no_edges :
    (m : Dict DependencyNode) (k x : String)
    → depends_on_of m x ≡ []
    → depends_on_of (put m k no_edges) x ≡ []
put-no_edges m k x h = ground (arith, get-put m k x no_edges)

-- A node for each well-formed id, with no dependencies yet.
add_nodes-get :
    (ts : List PlanTask) (m : Dict DependencyNode) (x : String)
    → ((x : String) → depends_on_of m x ≡ [])
    → (is_some (get (add_nodes ts m) x)
        ≡ (is_some (get m x) || (is_plan_task_id x && has (task_ids ts) x)))
      × (depends_on_of (add_nodes ts m) x ≡ [])
unfolding add_nodes
add_nodes-get [] m x h = (ground arith, h x)
add_nodes-get (t ∷ ts) m x h =
    elim (Bool-cases (not (is_plan_task_id t.id) || is_some (get m t.id))) [
      | inl skip ↦ rw skip (
        ground (
          arith,
          (add_nodes-get ts m x h).0,
          eq_iff t.id x,
          λ (e : t.id ≡ x). ap is_plan_task_id e,
          λ (e : t.id ≡ x). ap (λ i. is_some (get m i)) e,
        ),
        (add_nodes-get ts m x h).1,
      )
      | inr new ↦ rw new (
        ground (
          arith,
          (add_nodes-get ts (put m t.id no_edges) x (λ y. put-no_edges m t.id y (h y))).0,
          get-put m t.id x no_edges,
          eq_iff t.id x,
          λ (e : t.id ≡ x). ap is_plan_task_id e,
        ),
        (add_nodes-get ts (put m t.id no_edges) x (λ y. put-no_edges m t.id y (h y))).1,
      )
    ]

-- The dependencies of the nodes and the edges are those that resolve, which are the declared ones.
construct-has :
    (tasks : List PlanTask) (x y : String)
    → has (depends_on_of (construct tasks).nodes x) y ≡ declares_dependency tasks x y
unfolding construct
construct-has tasks x y =
    add_tasks-has (task_ids tasks) (duplicates_of tasks) 0 tasks
      (record { nodes = add_nodes tasks []; edges = []; dependency_violations = [] }) x y
      (λ t d m h.
        (add_nodes-get tasks [] t.id (λ z. refl)).0
        ∙ ground (arith, m, resolves-is_plan_task_id (task_ids tasks) (duplicates_of tasks) t d h))
    ∙ ap (λ ds. has ds y || declares (task_ids tasks) (duplicates_of tasks) tasks x y)
        (add_nodes-get tasks [] x (λ z. refl)).1
    ∙ any-declares_dependency tasks x y

construct-has_edge :
    (tasks : List PlanTask) (x y : String)
    → has_edge (construct tasks).edges x y ≡ declares_dependency tasks x y
unfolding construct
construct-has_edge tasks x y =
    add_tasks-has_edge (task_ids tasks) (duplicates_of tasks) 0 tasks
      (record { nodes = add_nodes tasks []; edges = []; dependency_violations = [] }) x y
    ∙ any-declares_dependency tasks x y

-- In the graph, the node of `x` lists `y` exactly when `x` declares `y`, and an edge leads from `x` to
-- `y` exactly then: a task with the id `x` lists `y` among its dependencies, both ids are well formed,
-- and each is the id of one task, of no more and no fewer.
pub construct_plan_task_dependency_graph-declares_dependency :
    (tasks : List PlanTask) (x y : String)
    → let graph = (construct_plan_task_dependency_graph tasks).graph in
      (has (depends_on_of graph.nodes x) y ≡ declares_dependency tasks x y)
      × (has_edge graph.edges x y ≡ declares_dependency tasks x y)
unfolding construct_plan_task_dependency_graph
construct_plan_task_dependency_graph-declares_dependency tasks x y =
    (construct-has tasks x y, construct-has_edge tasks x y)
