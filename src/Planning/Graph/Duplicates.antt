-- ===== src/Planning/Graph/Duplicates.antt =====
-- Which ids are reported as duplicates, and which dependencies resolve, in terms of how often an id
-- occurs.
use protostar.Base.{
  ℕ, ◌+◌, ◌≡◌, refl, ap, ◌∙◌, inl, inr, String, Bool, true, not, ◌&&◌, List, [], ◌∷◌, map, Option,
  none, some, arith, ◌==◌, eq_iff, Dict, get, put, get-put, has, any, leb, nat_eq, Bool-cases,
  if◌then◌else◌,
}
use protostar.Planning.Types.{PlanTask}
use protostar.Planning.Graph.{
  task_ids, is_plan_task_id, duplicates_from, collect_duplicate_task_id_violations, duplicate_id,
  is_resolvable_dependency_graph_edge, duplicates_of,
}

-- How many tasks have the id.
abbrev pub occurrences : String → List PlanTask → ℕ
occurrences x [] = 0
occurrences x (t ∷ ts) = (if t.id == x then 1 else 0) + occurrences x ts

-- A task with the id `x` lists `y`.
abbrev pub lists_dependency : List PlanTask → (x y : String) → Bool
lists_dependency tasks x y = any (λ t. t.id == x && has t.depends_on y) tasks

-- `x` declares `y` as a dependency, both have well-formed ids, and each is the id of one task.
abbrev pub declares_dependency : List PlanTask → (x y : String) → Bool
declares_dependency tasks x y =
    lists_dependency tasks x y
    && (is_plan_task_id x
        && (is_plan_task_id y
            && (nat_eq (occurrences x tasks) 1 && nat_eq (occurrences y tasks) 1)))

-- An id is reported if it occurs once more than it was seen.
abbrev is_repeated : Option ℕ → ℕ → Bool
is_repeated none n = leb 2 n
is_repeated (some i) n = leb 1 n

has-duplicates_from :
    (index : ℕ) (firsts : Dict ℕ) (ts : List PlanTask) (x : String)
    → has (map duplicate_id (duplicates_from index firsts ts)) x
      ≡ is_repeated (get firsts x) (occurrences x ts)
unfolding duplicates_from
has-duplicates_from index firsts [] x = ground arith
has-duplicates_from index firsts (t ∷ ts) x = ground (
  arith,
  has-duplicates_from (index + 1) (put firsts t.id index) ts x,
  has-duplicates_from (index + 1) firsts ts x,
  get-put firsts t.id x index,
  eq_iff t.id x,
  λ (e : t.id ≡ x). ap (get firsts) e,
)

has-duplicates_of :
    (tasks : List PlanTask) (x : String) → has (duplicates_of tasks) x ≡ leb 2 (occurrences x tasks)
unfolding collect_duplicate_task_id_violations
has-duplicates_of tasks x = has-duplicates_from 0 [] tasks x

has-task_ids :
    (tasks : List PlanTask) (x : String) → has (task_ids tasks) x ≡ leb 1 (occurrences x tasks)
has-task_ids [] x = refl
has-task_ids (t ∷ ts) x = ground (arith, has-task_ids ts x)

lists_dependency-occurs :
    (tasks : List PlanTask) (x y : String)
    → lists_dependency tasks x y ≡ true
    → leb 1 (occurrences x tasks) ≡ true
lists_dependency-occurs [] x y h = cc
lists_dependency-occurs (t ∷ ts) x y h = ground (arith, lists_dependency-occurs ts x y)

-- What the test of an edge says of a dependent with the id `x`.
abbrev resolves_id : (ids duplicates : List String) (x y : String) → Bool
resolves_id ids duplicates x y =
    is_plan_task_id x
    && (is_plan_task_id y && (has ids y && (not (has duplicates x) && not (has duplicates y))))

any-resolves :
    (ids duplicates : List String) (ts : List PlanTask) (x y : String)
    → any
        (λ t.
          t.id == x
          && (has t.depends_on y && is_resolvable_dependency_graph_edge ids duplicates t y))
        ts
      ≡ lists_dependency ts x y && resolves_id ids duplicates x y
unfolding is_resolvable_dependency_graph_edge
any-resolves ids duplicates [] x y = refl
any-resolves ids duplicates (t ∷ ts) x y = elim (Bool-cases (t.id == x)) [
  | inl same ↦ ground (
    arith,
    same,
    any-resolves ids duplicates ts x y,
    ap (λ i. resolves_id ids duplicates i y) ((eq_iff t.id x).0 same),
  )
  | inr other ↦ ground (arith, other, any-resolves ids duplicates ts x y)
]

-- The dependencies that resolve are the declared ones.
pub any-declares_dependency :
    (tasks : List PlanTask) (x y : String)
    → any
        (λ t.
          t.id == x
          && (has t.depends_on y
              && is_resolvable_dependency_graph_edge (task_ids tasks) (duplicates_of tasks) t y))
        tasks
      ≡ declares_dependency tasks x y
any-declares_dependency tasks x y =
    any-resolves (task_ids tasks) (duplicates_of tasks) tasks x y
    ∙ ground (
      arith,
      has-duplicates_of tasks x,
      has-duplicates_of tasks y,
      has-task_ids tasks y,
      lists_dependency-occurs tasks x y,
    )
