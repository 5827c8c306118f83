-- ===== src/Planning/Graph/EdgeList.antt =====
-- The list of the graph's edges.
use protostar.Base.{
  ℕ, ◌+◌, ◌≡◌, refl, sym, ap, ◌∙◌, String, Bool, true, false, ◌&&◌, ◌||◌, List, [], ◌∷◌, ◌++◌,
  Option, none, some, arith, ◌==◌, eq_iff, has, any, if◌then◌else◌,
}
use protostar.Planning.Types.{PlanTask, DependencyEdge, DependencyViolation}
use protostar.Planning.Graph.{
  Construction, validate_task_dependency_reference, is_resolvable_dependency_graph_edge, report,
  add_edge, add_dependencies, add_tasks,
}

-- An edge says that `x` depends on `y`.
abbrev pub has_edge : List DependencyEdge → (x y : String) → Bool
has_edge edges x y = any (λ e. e.dependent_task_id == x && e.dependency_task_id == y) edges

has_edge-append :
    (es fs : List DependencyEdge) (x y : String)
    → has_edge (es ++ fs) x y ≡ has_edge es x y || has_edge fs x y
has_edge-append [] fs x y = refl
has_edge-append (e ∷ es) fs x y = ground (arith, has_edge-append es fs x y)

report-edges :
    (i : ℕ) (o : Option DependencyViolation) (c : Construction) → (report i o c).edges ≡ c.edges
report-edges i none c = refl
report-edges i (some v) c = refl

module _ (ids duplicates : List String) where
  abbrev resolves : PlanTask → String → Bool
  resolves t d = is_resolvable_dependency_graph_edge ids duplicates t d

  module _ (k : ℕ) (t : PlanTask) (x y : String) where
    added :
        (d : String) (ds : List String) (i : ℕ) (c : Construction)
        → resolves t d ≡ true
        → has_edge (add_edge t d i c).edges x y || (t.id == x && (has ds y && resolves t y))
          ≡ has_edge c.edges x y || (t.id == x && (has (d ∷ ds) y && resolves t y))
    added d ds i c h =
        ap (λ b. b || (t.id == x && (has ds y && resolves t y))) (has_edge-append c.edges _ x y)
        ∙ ground (arith, eq_iff d y, λ (e : d ≡ y). sym (ap (resolves t) e) ∙ h)

    skipped :
        (d : String) (ds : List String) (b : Bool)
        → resolves t d ≡ false
        → b || (t.id == x && (has ds y && resolves t y))
          ≡ b || (t.id == x && (has (d ∷ ds) y && resolves t y))
    skipped d ds b h = ground (arith, eq_iff d y, λ (e : d ≡ y). sym (ap (resolves t) e) ∙ h)

    add_dependencies-has_edge :
        (i : ℕ) (ds : List String) (c : Construction)
        → has_edge (add_dependencies ids duplicates k t i ds c).edges x y
          ≡ has_edge c.edges x y || (t.id == x && (has ds y && resolves t y))
    unfolding add_dependencies
    add_dependencies-has_edge i [] c = ground arith
    add_dependencies-has_edge i (d ∷ ds) c =
        let r = report k (validate_task_dependency_reference ids duplicates t d i) c in
        let same = report-edges k (validate_task_dependency_reference ids duplicates t d i) c in
        by_test r same (resolves t d) refl (λ c'. add_dependencies-has_edge (i + 1) ds c')
      where
        by_test :
            (r : Construction)
            → r.edges ≡ c.edges
            → (b : Bool) → resolves t d ≡ b
            → ((c' : Construction)
                → has_edge (add_dependencies ids duplicates k t (i + 1) ds c').edges x y
                  ≡ has_edge c'.edges x y || (t.id == x && (has ds y && resolves t y)))
            → has_edge
                (add_dependencies ids duplicates k t
                  (i + 1)
                  ds
                  (if b then add_edge t d i r else r)).edges
                x
                y
              ≡ has_edge c.edges x y || (t.id == x && (has (d ∷ ds) y && resolves t y))
        by_test r same true e rest =
            rest (add_edge t d i r)
            ∙ added d ds i r e
            ∙ ap (λ es. has_edge es x y || (t.id == x && (has (d ∷ ds) y && resolves t y))) same
        by_test r same false e rest =
            rest r
            ∙ skipped d ds (has_edge r.edges x y) e
            ∙ ap (λ es. has_edge es x y || (t.id == x && (has (d ∷ ds) y && resolves t y))) same

  pub add_tasks-has_edge :
      (k : ℕ) (ts : List PlanTask) (c : Construction) (x y : String)
      → has_edge (add_tasks ids duplicates k ts c).edges x y
        ≡ has_edge c.edges x y || any (λ t. t.id == x && (has t.depends_on y && resolves t y)) ts
  unfolding add_tasks
  add_tasks-has_edge k [] c x y = ground arith
  add_tasks-has_edge k (t ∷ ts) c x y = ground (
    arith,
    add_tasks-has_edge (k + 1) ts (add_dependencies ids duplicates k t 0 t.depends_on c) x y,
    add_dependencies-has_edge k t x y 0 t.depends_on c,
  )
