-- ===== src/Repair/Subgraph/Affected.antt =====
-- The routine selects exactly the tasks that a repair affects.
use protostar.Base.{
  ℕ, ◌+◌, ◌≡◌, ◌≢◌, refl, sym, ap, ◌∙◌, ◌↔◌, ◌⊎◌, inl, inr, String, Bool, true, false, ◌||◌, ◌&&◌,
  List, [], ◌∷◌, ◌++◌, none, some, arith, ◌==◌, eq_iff, eq_refl, Dict, get, put, get-put, has,
  has-append, any, filter, has-filter, length, or_else, Option-cases, if◌then◌else◌,
}
use protostar.Repair.Subgraph.{
  PlanNode, node_ids, selected, unknown_repair_task, stalled, first_unknown, add_dependents,
  dependents_by_task_id, select, edges, compute_repair_subgraph,
}
use protostar.Repair.Subgraph.Search.{open_edges-nil, select_total, select_sound, select_complete}

-- Some task `id` of the plan depends on `d`.
abbrev pub is_dependent : List PlanNode → (d id : String) → Bool
is_dependent tasks d id = any (λ t. t.plan_task_id == id && has t.depends_on d) tasks

-- A task is affected if it is to be repaired, or depends on an affected one.
pub data Affected (tasks : List PlanNode) (repair_task_ids : List String) : String → Type 0 where
  root : (id : String) → has repair_task_ids id ≡ true → Affected tasks repair_task_ids id
  dependent :
      (d id : String)
      → Affected tasks repair_task_ids d
      → is_dependent tasks d id ≡ true
      → Affected tasks repair_task_ids id

abbrev dependents : Dict (List String) → String → List String
dependents m d = or_else (get m d) []

has-dependents-put :
    (m : Dict (List String)) (k d x : String) (v : List String)
    → has (dependents (put m k v) d) x ≡ (if k == d then has v x else has (dependents m d) x)
has-dependents-put m k d x v = ground (arith, get-put m k d v)

add_dependents-has :
    (task_id : String) (ds : List String) (m : Dict (List String)) (d x : String)
    → has (dependents (add_dependents task_id ds m) d) x
      ≡ (has (dependents m d) x || (task_id == x && has ds d))
unfolding add_dependents
add_dependents-has task_id [] m d x = ground arith
add_dependents-has task_id (k ∷ ds) m d x =
    let v = dependents m k ++ task_id ∷ [] in
    ground (
      arith,
      add_dependents-has task_id ds (put m k v) d x,
      has-dependents-put m k d x v,
      has-append (dependents m k) (task_id ∷ []) x,
      eq_iff k d,
    )

dependents_by_task_id-has :
    (tasks : List PlanNode) (m : Dict (List String)) (d x : String)
    → has (dependents (dependents_by_task_id tasks m) d) x
      ≡ (has (dependents m d) x || is_dependent tasks d x)
unfolding dependents_by_task_id
dependents_by_task_id-has [] m d x = ground arith
dependents_by_task_id-has (t ∷ ts) m d x = ground (
  arith,
  dependents_by_task_id-has ts (add_dependents t.plan_task_id t.depends_on m) d x,
  add_dependents-has t.plan_task_id t.depends_on m d x,
)

is_dependent-node_ids :
    (tasks : List PlanNode) (d id : String)
    → is_dependent tasks d id ≡ true
    → has (node_ids tasks) id ≡ true
is_dependent-node_ids (t ∷ ts) d id h = ground (arith, is_dependent-node_ids ts d id)
is_dependent-node_ids [] d id h = cc

-- The check of the ids passes exactly when all of them are tasks', and else stops at one that is not.
first_unknown-none :
    (task_ids ids : List String) (x : String)
    → first_unknown task_ids ids ≡ none
    → has ids x ≡ true
    → has task_ids x ≡ true
unfolding first_unknown
first_unknown-none task_ids [] x e h = cc
first_unknown-none task_ids (id ∷ ids) x e h =
    ground (arith, eq_iff id x, first_unknown-none task_ids ids x)

first_unknown-some :
    (task_ids ids : List String) (x : String)
    → first_unknown task_ids ids ≡ some x
    → (has ids x ≡ true) × (has task_ids x ≡ false)
unfolding first_unknown
first_unknown-some task_ids [] x e = cc
first_unknown-some task_ids (id ∷ ids) x e =
    ground (arith, eq_iff id x, first_unknown-some task_ids ids x)

filter-has_nil : (xs : List String) → filter (has []) xs ≡ []
filter-has_nil [] = refl
filter-has_nil (x ∷ xs) = filter-has_nil xs

some-eq : {a b : List String} → some a ≡ some b → a ≡ b
some-eq e = cc

compute_repair_subgraph-select :
    (tasks : List PlanNode) (roots chosen : List String)
    → first_unknown (node_ids tasks) roots ≡ none
    → select
        (length roots + edges (dependents_by_task_id tasks []))
        (dependents_by_task_id tasks [])
        []
        roots
      ≡ some chosen
    → compute_repair_subgraph tasks roots ≡ selected (filter (has chosen) (node_ids tasks))
unfolding compute_repair_subgraph
compute_repair_subgraph-select tasks [] chosen known e =
    ap selected (
      sym (filter-has_nil (node_ids tasks)) ∙ ap (λ c. filter (has c) (node_ids tasks)) (some-eq e))
compute_repair_subgraph-select tasks (id ∷ ids) chosen known e = ground arith

compute_repair_subgraph-unknown :
    (tasks : List PlanNode) (roots : List String) (id : String)
    → first_unknown (node_ids tasks) roots ≡ some id
    → compute_repair_subgraph tasks roots ≡ unknown_repair_task id
unfolding compute_repair_subgraph
compute_repair_subgraph-unknown tasks roots id found = ground arith

module _ (tasks : List PlanNode) (roots : List String) where
  abbrev map_of : Dict (List String)
  map_of = dependents_by_task_id tasks []

  abbrev IsSelection : List String → Type 0
  IsSelection chosen = (x : String) → (has chosen x ≡ true) ↔ Affected tasks roots x

  select-IsSelection :
      (fuel : ℕ) (chosen : List String)
      → select fuel map_of [] roots ≡ some chosen
      → IsSelection chosen
  select-IsSelection fuel chosen e =
      let (start, closed) = select_complete map_of fuel [] roots chosen e (λ x d h k. cc) in
      let complete : (x : String) → Affected tasks roots x → has chosen x ≡ true =
        complete_by start closed in
      λ x. (sound x, complete x)
    where
      complete_by :
          ((x : String) → (false || has roots x) ≡ true → has chosen x ≡ true)
          → ((x d : String)
              → has chosen x ≡ true
              → has (dependents map_of x) d ≡ true
              → has chosen d ≡ true)
          → (x : String) → Affected tasks roots x
          → has chosen x ≡ true
      complete_by start closed x (root id h) = start id h
      complete_by start closed x (dependent d id a h) =
          closed d id (complete_by start closed d a) (dependents_by_task_id-has tasks [] d id ∙ h)

      sound : (x : String) → has chosen x ≡ true → Affected tasks roots x
      sound =
          select_sound (Affected tasks roots) map_of
            (λ x d a h. dependent x d a (sym (dependents_by_task_id-has tasks [] x d) ∙ h)) fuel []
            roots chosen e (λ x h. cc) (λ x h. root x h)

  is_task :
      (x : String)
      → Affected tasks roots x
      → first_unknown (node_ids tasks) roots ≡ none
      → has (node_ids tasks) x ≡ true
  is_task x (root id h) known = first_unknown-none (node_ids tasks) roots id known h
  is_task x (dependent d id a h) known = is_dependent-node_ids tasks d id h

  -- Where every id is a task's, the loop ends within its fuel with the affected tasks.
  selected_total :
      first_unknown (node_ids tasks) roots ≡ none
      → (chosen : List String) × (compute_repair_subgraph tasks roots
          ≡ selected (filter (has chosen) (node_ids tasks)))
        × IsSelection chosen
  selected_total known =
      let (chosen, e) =
        select_total (length roots + edges map_of) map_of [] roots
          (omega (arith, open_edges-nil map_of)) in
      (
        chosen,
        compute_repair_subgraph-select tasks roots chosen known e,
        select-IsSelection _ chosen e,
      )

selected-injective : {a b : List String} → selected a ≡ selected b → a ≡ b
selected-injective e = cc

filter_ext :
    (p q : String → Bool) (xs : List String)
    → ((x : String) → has xs x ≡ true → p x ≡ q x)
    → filter p xs ≡ filter q xs
filter_ext p q [] h = refl
filter_ext p q (x ∷ xs) h =
    ground (arith, h x (ground (arith, eq_refl x)), filter_ext p q xs (λ y k. h y (ground arith)))

filter-has-filter :
    (chosen xs : List String) → filter (has chosen) xs ≡ filter (has (filter (has chosen) xs)) xs
filter-has-filter chosen xs =
    filter_ext (has chosen) (has (filter (has chosen) xs)) xs
      (λ x h. ground (arith, has-filter (has chosen) xs x))

-- The routine selects, in the plan's order, exactly the tasks that the repair affects: those to be
-- repaired and, through any number of steps, those that depend on them.
pub compute_repair_subgraph-Affected :
    (tasks : List PlanNode) (roots ids : List String)
    → compute_repair_subgraph tasks roots ≡ selected ids
    → ((x : String) → (has ids x ≡ true) ↔ Affected tasks roots x)
      × (ids ≡ filter (has ids) (node_ids tasks))
compute_repair_subgraph-Affected tasks roots ids e =
    elim (Option-cases (first_unknown (node_ids tasks) roots)) [
      | inr (id, found) ↦ cc (compute_repair_subgraph-unknown tasks roots id found)
      | inl known ↦
          let (chosen, e', exact) = selected_total tasks roots known in
          let same : ids ≡ filter (has chosen) (node_ids tasks) = selected-injective (sym e ∙ e') in
          let member = λ (x : String). has-filter (has chosen) (node_ids tasks) x in
          rw same (
            λ x. (
              λ h. (exact x).0 (ground (arith, member x)),
              λ a. ground (arith, member x, is_task tasks roots x a known, (exact x).1 a),
            ),
            filter-has-filter chosen (node_ids tasks),
          )
    ]

-- It always returns or throws, and does not run on: it selects tasks where every id to be repaired
-- is a task's, and otherwise throws UnknownRepairTaskError with such an id that is no task's.
pub compute_repair_subgraph_total :
    (tasks : List PlanNode) (roots : List String)
    → (((ids : List String) × (compute_repair_subgraph tasks roots ≡ selected ids))
        × ((x : String) → has roots x ≡ true → has (node_ids tasks) x ≡ true))
      ⊎ ((id : String) × (compute_repair_subgraph tasks roots ≡ unknown_repair_task id)
          × (has roots id ≡ true)
          × (has (node_ids tasks) id ≡ false))
compute_repair_subgraph_total tasks roots =
    elim (Option-cases (first_unknown (node_ids tasks) roots)) [
      | inl known ↦
          let (chosen, e, _) = selected_total tasks roots known in
          inl ((_, e), λ x h. first_unknown-none (node_ids tasks) roots x known h)
      | inr (id, found) ↦
          let (wanted, missing) = first_unknown-some (node_ids tasks) roots id found in
          inr (id, compute_repair_subgraph-unknown tasks roots id found, wanted, missing)
    ]

pub compute_repair_subgraph-ne-stalled :
    (tasks : List PlanNode) (roots : List String) → compute_repair_subgraph tasks roots ≢ stalled
compute_repair_subgraph-ne-stalled tasks roots e =
    elim (compute_repair_subgraph_total tasks roots) [
      | inl ((ids, found), _) ↦ cc
      | inr (id, found, _, _) ↦ cc
    ]
