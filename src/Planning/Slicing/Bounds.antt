-- ===== src/Planning/Slicing/Bounds.antt =====
-- Slicing widens no task in what it checks: files, the paths of scopes and the names of tools.
use protostar.Base.{
  ℕ, ◌+◌, ◌≡◌, refl, sym, subst, ap, ◌∙◌, inl, inr, String, Bool, true, false, List, [], ◌∷◌, ◌++◌,
  Option, none, some, or_else, arith, ◌==◌, eq_iff, Dict, get, get-put, has, All, is_empty,
  Bool-cases, if◌then◌else◌,
}
use protostar.Planning.Types.{RequiredCapabilities, PlanTask}
use protostar.Planning.Slicing.{
  TaskSlice, SlicingError, no_files_declared, unknown_parent, first_outside, file_error,
  validate_target_files_subset, expansions, scope_expansion, tool_expansion, scope_paths,
  tool_names, capability_errors, validate_capability_envelope, error_list, Grouping, add_slice,
  group_slices,
}

-- Every entry of the first list is in the second.
abbrev pub Within : List String → List String → Type 0
Within xs ys = (x : String) → has xs x ≡ true → has ys x ≡ true

first_outside-Within :
    (allowed fs : List String) → first_outside allowed fs ≡ none → Within fs allowed
first_outside-Within allowed [] h = λ x e. cc
first_outside-Within allowed (f ∷ fs) h = λ x e. elim (Bool-cases (has allowed f)) [
  | inl inside ↦ ground (
    arith,
    first_outside-Within allowed fs (rw inside at h) x,
    eq_iff f x,
    λ (i : f ≡ x). sym (ap (has allowed) i) ∙ inside,
  )
  | inr outside ↦ cc (rw outside at h)
]

expansions-Within :
    (error : String → SlicingError) (allowed entries : List String)
    → is_empty (expansions error allowed entries) ≡ true
    → Within entries allowed
expansions-Within error allowed [] h = λ x e. cc
expansions-Within error allowed (y ∷ ys) h = λ x e. elim (Bool-cases (has allowed y)) [
  | inl inside ↦ ground (
    arith,
    expansions-Within error allowed ys (rw inside at h) x,
    eq_iff y x,
    λ (i : y ≡ x). sym (ap (has allowed) i) ∙ inside,
  )
  | inr outside ↦ cc (rw outside at h)
]

-- The slice stays within the task.
abbrev pub IsWithin : TaskSlice → PlanTask → Type 0
IsWithin s t =
    let declared = or_else s.required_capabilities t.required_capabilities in
    Within s.target_files (or_else t.target_files [])
    × Within (scope_paths declared) (scope_paths t.required_capabilities)
    × Within (tool_names declared) (tool_names t.required_capabilities)

Within-nil : (xs ys : List String) → is_empty xs ≡ true → Within xs ys
Within-nil [] ys h = λ x e. cc
Within-nil (x ∷ xs) ys h = cc

validate_target_files_subset-Within :
    (s : TaskSlice) (t : PlanTask) (index : ℕ)
    → validate_target_files_subset s t index ≡ none
    → Within s.target_files (or_else t.target_files [])
unfolding validate_target_files_subset
validate_target_files_subset-Within s t index h =
    go (is_empty (or_else t.target_files [])) (is_empty s.target_files) refl h
  where
    file : (o : Option String) → file_error index o ≡ none → o ≡ none
    file none e = refl
    file (some f) e = cc

    go :
        (a b : Bool)
        → is_empty s.target_files ≡ b
        → (if a
            then (if b then none else some (no_files_declared index))
            else file_error index (first_outside (or_else t.target_files []) s.target_files))
          ≡ none
        → Within s.target_files (or_else t.target_files [])
    go true true k e = Within-nil s.target_files _ k
    go true false k e = cc
    go false b k e = first_outside-Within (or_else t.target_files []) s.target_files (file _ e)

is_empty-append :
    (es fs : List SlicingError)
    → is_empty (es ++ fs) ≡ true
    → (is_empty es ≡ true) × (is_empty fs ≡ true)
is_empty-append [] fs h = (refl, h)
is_empty-append (e ∷ es) fs h = cc

capability_errors-Within :
    (index : ℕ) (parent : RequiredCapabilities) (o : Option RequiredCapabilities)
    → is_empty (capability_errors index parent o) ≡ true
    → Within (scope_paths (or_else o parent)) (scope_paths parent)
      × Within (tool_names (or_else o parent)) (tool_names parent)
capability_errors-Within index parent none h = (λ x e. e, λ x e. e)
capability_errors-Within index parent (some declared) h =
    let scopes = expansions (scope_expansion index) (scope_paths parent) (scope_paths declared) in
    let (a, b) = is_empty-append scopes _ h in
    (
      expansions-Within (scope_expansion index) (scope_paths parent) (scope_paths declared) a,
      expansions-Within (tool_expansion index) (tool_names parent) (tool_names declared) b,
    )

module _ (tasks_by_id : Dict PlanTask) where
  -- What is recorded without an error.
  unfoldable pub Checked : Grouping → Type 0
  Checked g =
      (p : String) (slices : List TaskSlice)
      → get g.slices_by_parent p ≡ some slices
      → All (λ s. (t : PlanTask) → get tasks_by_id p ≡ some t → IsWithin s t) slices

  All-append :
      (P : TaskSlice → Type 0) (xs : List TaskSlice) (s : TaskSlice)
      → All P xs
      → P s
      → All P (xs ++ s ∷ [])
  All-append P [] s h k = (k, tt)
  All-append P (x ∷ xs) s (h, hs) k = (h, All-append P xs s hs k)

  unfoldable pub Passes : String → TaskSlice → Type 0
  Passes p s = (t : PlanTask) → get tasks_by_id p ≡ some t → IsWithin s t

  pub before-Passes :
      (g : Grouping) (p : String)
      → Checked g
      → All (Passes p) (or_else (get g.slices_by_parent p) [])
  unfolding Checked Passes
  before-Passes g p h = go (get g.slices_by_parent p) refl
    where
      go :
          (o : Option (List TaskSlice))
          → get g.slices_by_parent p ≡ o
          → All (Passes p) (or_else o [])
      go none e = tt
      go (some slices) e = h p slices e

  error_list-none : (o : Option SlicingError) → is_empty (error_list o) ≡ true → o ≡ none
  error_list-none none h = refl
  error_list-none (some e) h = cc

  add_slice-Checked :
      (index : ℕ) (s : TaskSlice) (o : Option PlanTask) (g : Grouping)
      → get tasks_by_id s.parent_task_id ≡ o
      → is_empty (add_slice index s o g).errors ≡ true
      → (is_empty g.errors ≡ true) × (Checked g → Checked (add_slice index s o g))
  unfolding Checked Passes validate_capability_envelope
  add_slice-Checked index s none g e h =
      cc ((is_empty-append g.errors (unknown_parent index ∷ []) h).1)
  add_slice-Checked index s (some parent) g e h =
      let file_errors = error_list (validate_target_files_subset s parent index) in
      let (front, caps) = is_empty-append (g.errors ++ file_errors) _ h in
      let (before, files) = is_empty-append g.errors file_errors front in
      let (scopes, tools) =
        capability_errors-Within index parent.required_capabilities s.required_capabilities caps in
      let within : IsWithin s parent = (
        validate_target_files_subset-Within s parent index
            (error_list-none (validate_target_files_subset s parent index) files),
        scopes,
        tools,
      ) in
      let old = or_else (get g.slices_by_parent s.parent_task_id) [] in
      (
        before,
        λ c p slices k.
            let k' = sym (get-put g.slices_by_parent s.parent_task_id p (old ++ s ∷ [])) ∙ k in
            elim (Bool-cases (s.parent_task_id == p)) [
              | inl same ↦
                  subst (λ q. All (Passes q) slices) ((eq_iff s.parent_task_id p).0 same)
                    (subst (All (Passes s.parent_task_id)) (ap (λ o. or_else o []) (rw same at k'))
                      (All-append (Passes s.parent_task_id) old s
                        (before-Passes g s.parent_task_id c)
                        (λ t f.
                          subst (IsWithin s) (ap (λ o. or_else o parent) (sym e ∙ f)) within)))
              | inr other ↦ c p slices (rw other at k')
            ],
      )

  pub group_slices-Checked :
      (index : ℕ) (slices : List TaskSlice) (g : Grouping)
      → is_empty (group_slices tasks_by_id index slices g).errors ≡ true
      → (is_empty g.errors ≡ true) × (Checked g → Checked (group_slices tasks_by_id index slices g))
  unfolding group_slices
  group_slices-Checked index [] g h = (h, λ c. c)
  group_slices-Checked index (s ∷ slices) g h =
      let (later, keeps) = group_slices-Checked (index + 1) slices _ h in
      let (before, adds) =
        add_slice-Checked index s (get tasks_by_id s.parent_task_id) g refl later in
      (before, λ c. keeps (adds c))
