-- ===== src/Planning/Cycles/Search.antt =====
-- hasDependencyCycle tells whether the declared dependencies have a cycle.
use protostar.Base.{
  ℕ, ◌+◌, ◌≡◌, refl, sym, subst, ap, ◌∙◌, inl, inr, String, Bool, true, false, not, ◌||◌, List, [],
  ◌∷◌, ◌++◌, Option, none, some, arith, eq_iff, Dict, get, put, keys, get-put, has-keys,
  put-IsDistinct, has, is_some, length, IsDistinct, Bool-cases, if◌then◌else◌,
}
use protostar.Planning.Types.{PlanTask, DependencyNode, DependencyEdge}
use protostar.Planning.Graph.{
  is_plan_task_id, add_nodes, Construction, report, update, push_depends_on, push_depended_on_by,
  add_dependencies, add_tasks, validate_task_dependency_reference,
  is_resolvable_dependency_graph_edge, construct, construct_plan_task_dependency_graph,
}
use protostar.Planning.Graph.Edges.{
  depends_on_of, declares_dependency, report-nodes,
  construct_plan_task_dependency_graph-declares_dependency,
}
use protostar.Planning.Cycles.{
  dependency_ids_by_task_id, Visit, cyclic, clear, stalled, visit, is_cyclic, has_dependency_cycle,
}
use protostar.Planning.Cycles.Acyclic.{
  Reaches, one, more, Reaches-weaken, edge, deps, Settled-acyclic, Ensures, Searched,
  visit_all-Ensures, visit-Ensures, Searching,
}
use protostar.Planning.Open.{open_keys-nil}

-- The map of the dependencies has those of each node.
dependency_ids_by_task_id-deps :
    (nodes : Dict DependencyNode) (m : Dict (List String)) (id : String)
    → IsDistinct (keys nodes)
    → deps (dependency_ids_by_task_id nodes m) id
      ≡ (if has (keys nodes) id then depends_on_of nodes id else deps m id)
unfolding dependency_ids_by_task_id
dependency_ids_by_task_id-deps [] m id h = refl
dependency_ids_by_task_id-deps ((k, n) ∷ nodes) m id (h, hs) = ground (
  arith,
  dependency_ids_by_task_id-deps nodes (put m k n.depends_on) id hs,
  get-put m k id n.depends_on,
  eq_iff k id,
  λ (e : k ≡ id). sym (ap (has (keys nodes)) e) ∙ h,
)

-- A graph without distinct nodes does not arise.
update-IsDistinct :
    (f : DependencyNode → DependencyNode) (o : Option DependencyNode) (k : String)
    (m : Dict DependencyNode)
    → IsDistinct (keys m)
    → IsDistinct (keys (update f o k m))
update-IsDistinct f none k m h = h
update-IsDistinct f (some n) k m h = put-IsDistinct m k (f n) h

module _ (m : Dict DependencyNode) (k d : String) (h : IsDistinct (keys m)) where
  push_depends_on-IsDistinct : IsDistinct (keys (push_depends_on m k d))
  push_depends_on-IsDistinct =
      update-IsDistinct (λ n. record n { depends_on = n.depends_on ++ d ∷ [] }) (get m k) k m h

  push_depended_on_by-IsDistinct : IsDistinct (keys (push_depended_on_by m k d))
  push_depended_on_by-IsDistinct =
      update-IsDistinct (λ n. record n { depended_on_by = n.depended_on_by ++ d ∷ [] }) (get m k) k
        m h

add_nodes-IsDistinct :
    (ts : List PlanTask) (m : Dict DependencyNode)
    → IsDistinct (keys m)
    → IsDistinct (keys (add_nodes ts m))
unfolding add_nodes
add_nodes-IsDistinct [] m h = h
add_nodes-IsDistinct (t ∷ ts) m h =
    elim (Bool-cases (not (is_plan_task_id t.id) || is_some (get m t.id))) [
      | inl skip ↦ rw skip (add_nodes-IsDistinct ts m h)
      | inr new ↦ rw new (add_nodes-IsDistinct ts _ (put-IsDistinct m t.id _ h))
    ]

HasNodes : Construction → Type 0
HasNodes c = IsDistinct (keys c.nodes)

if-HasNodes :
    (b : Bool) (c d : Construction) → HasNodes c → HasNodes d → HasNodes (if b then c else d)
if-HasNodes true c d h k = h
if-HasNodes false c d h k = k

module _ (ids duplicates : List String) where
  report-HasNodes :
      (k : ℕ) (t : PlanTask) (d : String) (i : ℕ) (c : Construction)
      → HasNodes c
      → HasNodes (report k (validate_task_dependency_reference ids duplicates t d i) c)
  unfolding HasNodes
  report-HasNodes k t d i c h =
      subst (λ m. IsDistinct (keys m))
        (sym (report-nodes k (validate_task_dependency_reference ids duplicates t d i) c)) h

  add_dependencies-HasNodes :
      (k : ℕ) (t : PlanTask) (i : ℕ) (ds : List String) (c : Construction)
      → HasNodes c
      → HasNodes (add_dependencies ids duplicates k t i ds c)
  unfolding add_dependencies HasNodes
  add_dependencies-HasNodes k t i [] c h = h
  add_dependencies-HasNodes k t i (d ∷ ds) c h =
      let h' = report-HasNodes k t d i c h in
      add_dependencies-HasNodes k t (i + 1) ds _ (
        if-HasNodes (is_resolvable_dependency_graph_edge ids duplicates t d) _ _
          (push_depended_on_by-IsDistinct _ d t.id (push_depends_on-IsDistinct _ t.id d h')) h')

  add_tasks-HasNodes :
      (k : ℕ) (ts : List PlanTask) (c : Construction)
      → HasNodes c
      → HasNodes (add_tasks ids duplicates k ts c)
  unfolding add_tasks
  add_tasks-HasNodes k [] c h = h
  add_tasks-HasNodes k (t ∷ ts) c h =
      add_tasks-HasNodes (k + 1) ts _ (add_dependencies-HasNodes k t 0 t.depends_on c h)

construct-IsDistinct : (tasks : List PlanTask) → IsDistinct (keys (construct tasks).nodes)
unfolding construct HasNodes
construct-IsDistinct tasks = add_tasks-HasNodes _ _ 0 tasks _ (add_nodes-IsDistinct tasks [] tt)

-- What the answer of the search says.
unfoldable pub Decides : (String → String → Bool) → Option Bool → Type 0
Decides depends none = ⊥
Decides depends (some true) = (x : String) × Reaches depends x x
Decides depends (some false) = ¬ ((x : String) × Reaches depends x x)

module _ (nodes : Dict DependencyNode) (distinct : IsDistinct (keys nodes)) where
  abbrev m : Dict (List String)
  m = dependency_ids_by_task_id nodes []

  deps-depends_on_of : (x : String) → deps m x ≡ depends_on_of nodes x
  deps-depends_on_of x =
      ground (arith, dependency_ids_by_task_id-deps nodes [] x distinct, has-keys nodes x)

  -- Only a node has dependencies.
  edge-has_node : (x y : String) → edge (deps m) x y ≡ true → has (keys nodes) x ≡ true
  edge-has_node x y h =
      node (get nodes x) refl (ap (λ ds. has ds y) (sym (deps-depends_on_of x)) ∙ h)
    where
      node :
          (o : Option DependencyNode)
          → get nodes x ≡ o
          → has (depends_on_of nodes x) y ≡ true
          → has (keys nodes) x ≡ true
      node none e h = cc (rw e at h)
      node (some n) e h = has-keys nodes x ∙ ap is_some e

  starts : {x y : String} → Reaches (edge (deps m)) x y → has (keys nodes) x ≡ true
  starts (one {x} {y} h) = edge-has_node x y h
  starts (more {x} {y} h r) = edge-has_node x y h

  decide :
      (r : Visit)
      → Ensures (deps m) (Searched (deps m) (keys nodes) []) r
      → Decides (edge (deps m)) (is_cyclic r)
  unfolding Decides
  decide cyclic e = e
  decide (clear v) (settled, _, found) =
      λ (x, r). Settled-acyclic (deps m) v x settled (found x (starts r)) r
  decide stalled e = e

  has_dependency_cycle-deps :
      (es : List DependencyEdge)
      → Decides (edge (deps m)) (has_dependency_cycle (record { nodes = nodes; edges = es }))
  unfolding has_dependency_cycle Searching
  has_dependency_cycle-deps es = decide _ (
      visit_all-Ensures (deps m) (visit (length m + 1) m []) (keys nodes) []
        (λ id v _ s.
          visit-Ensures m (length m + 1) [] id v (omega (arith, open_keys-nil m)) s (λ x h. cc))
        tt)

Decides-weaken :
    {p q : String → String → Bool} (o : Option Bool)
    → ((x y : String) → p x y ≡ q x y)
    → Decides p o
    → Decides q o
unfolding Decides
Decides-weaken none f d = d
Decides-weaken (some true) f (x, r) = (x, Reaches-weaken (λ x y h. sym (f x y) ∙ h) r)
Decides-weaken (some false) f d = λ (x, r). d (x, Reaches-weaken (λ x y h. f x y ∙ h) r)

-- The map that the searches are given, of the graph of a plan.
pub construct-deps :
    (tasks : List PlanTask) (x y : String)
    → edge (deps (dependency_ids_by_task_id (construct tasks).nodes [])) x y
      ≡ declares_dependency tasks x y
unfolding construct_plan_task_dependency_graph
construct-deps tasks x y =
    ap (λ ds. has ds y) (deps-depends_on_of (construct tasks).nodes (construct-IsDistinct tasks) x)
    ∙ (construct_plan_task_dependency_graph-declares_dependency tasks x y).0

-- On the graph of a plan, the search for a cycle answers, and it answers with `true` exactly when
-- some task depends on itself through one or more steps.
pub has_dependency_cycle_lem :
    (tasks : List PlanTask)
    → Decides
        (declares_dependency tasks)
        (has_dependency_cycle (construct_plan_task_dependency_graph tasks).graph)
unfolding construct_plan_task_dependency_graph
has_dependency_cycle_lem tasks = Decides-weaken _ (construct-deps tasks) (
    has_dependency_cycle-deps (construct tasks).nodes (construct-IsDistinct tasks)
      (construct tasks).edges)
