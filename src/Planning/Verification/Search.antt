-- ===== src/Planning/Verification/Search.antt =====
-- The stack search finds a verification task exactly when the task depends on one.
use protostar.Base.{
  ℕ, zero, suc, ◌+◌, ◌≤◌, ◌<◌, ◌≡◌, refl, sym, subst, ap, ◌∙◌, inl, inr, String, Bool, true, false,
  ◌||◌, List, [], ◌∷◌, Option, none, some, arith, ◌==◌, eq_iff, eq_refl, Dict, get, has, choose,
  length, or_else, Bool-cases, if◌then◌else◌,
}
use protostar.Planning.Types.{PlanTask}
use protostar.Planning.Cycles.Acyclic.{Reaches, one, more, Reaches-trans, edge}
use protostar.Planning.Verification.{
  push_all, verifies, listed, dependencies, search_stack, has_preceding_verification_task,
}

has-push_all :
    (ids stack : List String) (x : String) → has (push_all ids stack) x ≡ (has ids x || has stack x)
has-push_all [] stack x = refl
has-push_all (id ∷ ids) stack x = ground (arith, has-push_all ids (id ∷ stack) x)

length-push_all :
    (ids stack : List String) → length (push_all ids stack) ≡ length ids + length stack
length-push_all [] stack = omega arith
length-push_all (id ∷ ids) stack = omega (arith, length-push_all ids (id ∷ stack))

-- What the tasks that are not visited can still push.
unlisted : List String → Dict (List String) → ℕ
unlisted visited [] = 0
unlisted visited ((k, ds) ∷ m) = (if has visited k then 0 else length ds) + unlisted visited m

unlisted-nil : (m : Dict (List String)) → unlisted [] m ≡ listed m
unfolding unlisted
unlisted-nil [] = refl
unlisted-nil ((k, ds) ∷ m) = omega (arith, unlisted-nil m)

unlisted-cons_le :
    (visited : List String) (id : String) (m : Dict (List String))
    → unlisted (id ∷ visited) m ≤ unlisted visited m
unfolding unlisted
unlisted-cons_le visited id [] = omega arith
unlisted-cons_le visited id ((k, ds) ∷ m) = ground (arith, unlisted-cons_le visited id m)

-- A visit pushes no more than the task's share.
unlisted-cons :
    (visited : List String) (id : String) (m : Dict (List String))
    → has visited id ≡ false
    → unlisted (id ∷ visited) m + length (or_else (get m id) []) ≤ unlisted visited m
unfolding unlisted
unlisted-cons visited id [] h = omega arith
unlisted-cons visited id ((k, ds) ∷ m) h = elim (Bool-cases (k == id)) [
  | inl same ↦
      rw (same, get)
        (ground (
          arith,
          eq_iff k id,
          eq_iff id k,
          unlisted-cons_le visited id m,
          λ (e : k ≡ id). ap (has visited) e,
        ))
  | inr other ↦
      rw (other, get) (ground (arith, eq_iff k id, eq_iff id k, unlisted-cons visited id m h))
]

-- What the answer says.
abbrev pub Precedes : (String → String → Bool) → (String → Bool) → String → Option Bool → Type 0
Precedes depends is_target id none = ⊥
Precedes depends is_target id (some true) =
    (x : String) × Reaches depends id x × (is_target x ≡ true)
Precedes depends is_target id (some false) =
    (x : String) → Reaches depends id x → is_target x ≡ false

module _ (task_by_id : Dict PlanTask) (m : Dict (List String)) (from : String) where
  abbrev depends : String → String → Bool
  depends = edge (dependencies task_by_id m)

  abbrev is_target : String → Bool
  is_target x = verifies (get task_by_id x)

  -- What holds whenever the loop looks at its condition.
  record IsSearch (visited stack : List String) : Type 0 where
    reached : (x : String) → has stack x ≡ true → Reaches depends from x
    missed : (x : String) → has visited x ≡ true → is_target x ≡ false
    closed :
        (x y : String)
        → has visited x ≡ true
        → depends x y ≡ true
        → has visited y || has stack y ≡ true
    started : (y : String) → depends from y ≡ true → has visited y || has stack y ≡ true

  closed-Reaches :
      (visited : List String) {x y : String}
      → IsSearch visited []
      → has visited x ≡ true
      → Reaches depends x y
      → has visited y ≡ true
  closed-Reaches visited h v (one {x} {y} e) = ground (arith, h.closed x y v e)
  closed-Reaches visited h v (more {x} {y} e r) =
      closed-Reaches visited h (ground (arith, h.closed x y v e)) r

  IsSearch-visited :
      (visited : List String) {x : String}
      → IsSearch visited []
      → Reaches depends from x
      → has visited x ≡ true
  IsSearch-visited visited h (one {y} e) = ground (arith, h.started y e)
  IsSearch-visited visited h (more {y} e r) =
      closed-Reaches visited h (ground (arith, h.started y e)) r

  pop-IsSearch :
      (visited : List String) (id : String) (stack : List String)
      → has visited id ≡ true
      → IsSearch visited (id ∷ stack)
      → IsSearch visited stack
  pop-IsSearch visited id stack old h =
      let seen = λ (y : String) (e : id ≡ y). sym (ap (has visited) e) ∙ old in
      record {
        reached = λ x e. h.reached x (ground arith);
        missed = h.missed;
        closed = λ x y v e. ground (arith, h.closed x y v e, eq_iff id y, seen y);
        started = λ y e. ground (arith, h.started y e, eq_iff id y, seen y);
      }

  visit-IsSearch :
      (visited : List String) (id : String) (stack : List String)
      → is_target id ≡ false
      → IsSearch visited (id ∷ stack)
      → IsSearch (id ∷ visited) (push_all (dependencies task_by_id m id) stack)
  visit-IsSearch visited id stack missed h =
      let ds = dependencies task_by_id m id in
      let pushed = has-push_all ds stack in
      record {
        reached = λ x e. elim (Bool-cases (has ds x)) [
          | inl new ↦ Reaches-trans (h.reached id (ground (arith, eq_refl id))) (one new)
          | inr other ↦ h.reached x (ground (arith, pushed x))
        ];
        missed = λ x v.
            ground (arith, h.missed x, eq_iff id x, λ (e : id ≡ x). sym (ap is_target e) ∙ missed);
        closed = λ x y v e. elim (Bool-cases (id == x)) [
          | inl same ↦
              ground
                (arith, pushed y, subst (λ i. depends i y ≡ true) (sym ((eq_iff id x).0 same)) e)
          | inr other ↦ ground (arith, pushed y, h.closed x y (ground arith) e)
        ];
        started = λ y e. ground (arith, pushed y, h.started y e);
      }

  module _ (fuel : ℕ) (visited : List String) (id : String) (stack : List String) where
    search_stack_step : search_stack task_by_id m (suc fuel) visited (id ∷ stack) ≡ (
        if has visited id
        then search_stack task_by_id m fuel visited stack
        else if is_target id
        then some true
        else search_stack task_by_id m fuel
            (id ∷ visited)
            (push_all (dependencies task_by_id m id) stack))
    unfolding search_stack
    search_stack_step = choose (has visited id) (is_target id) _ _ _

    search_stack_old :
        has visited id ≡ true
        → search_stack task_by_id m (suc fuel) visited (id ∷ stack)
          ≡ search_stack task_by_id m fuel visited stack
    search_stack_old h = search_stack_step ∙ rw h refl

    search_stack_found :
        has visited id ≡ false
        → is_target id ≡ true
        → search_stack task_by_id m (suc fuel) visited (id ∷ stack) ≡ some true
    search_stack_found h k = search_stack_step ∙ rw (h, k) refl

    search_stack_new :
        has visited id ≡ false
        → is_target id ≡ false
        → search_stack task_by_id m (suc fuel) visited (id ∷ stack)
          ≡ search_stack task_by_id m fuel
              (id ∷ visited)
              (push_all (dependencies task_by_id m id) stack)
    search_stack_new h k = search_stack_step ∙ rw (h, k) refl

  search_stack-Precedes :
      (fuel : ℕ) (visited stack : List String)
      → length stack + unlisted visited m < fuel
      → IsSearch visited stack
      → Precedes depends is_target from (search_stack task_by_id m fuel visited stack)
  unfolding search_stack
  search_stack-Precedes zero visited stack f h = absurd (omega arith)
  search_stack-Precedes (suc fuel) visited [] f h = λ x r. h.missed x (IsSearch-visited visited h r)
  search_stack-Precedes (suc fuel) visited (id ∷ stack) f h = elim (Bool-cases (has visited id)) [
    | inl old ↦ subst Says (sym (search_stack_old fuel visited id stack old)) (
        search_stack-Precedes fuel visited stack (omega arith)
          (pop-IsSearch visited id stack old h))
    | inr new ↦ elim (Bool-cases (is_target id)) [
      | inl found ↦
          subst Says (sym (search_stack_found fuel visited id stack new found))
            (id, h.reached id (ground (arith, eq_refl id)), found)
      | inr missed ↦ subst Says (sym (search_stack_new fuel visited id stack new missed)) (
          search_stack-Precedes fuel (id ∷ visited) (push_all (dependencies task_by_id m id) stack)
            (omega (
              arith,
              unlisted-cons visited id m new,
              length-push_all (dependencies task_by_id m id) stack,
            ))
            (visit-IsSearch visited id stack missed h))
    ]
  ]
    where
      Says : Option Bool → Type 0
      Says = Precedes depends is_target from

  pub has_preceding_verification_task-Precedes :
      Precedes depends is_target from (has_preceding_verification_task task_by_id m from)
  unfolding has_preceding_verification_task
  has_preceding_verification_task-Precedes =
      let ds = dependencies task_by_id m from in
      search_stack-Precedes (length (push_all ds []) + listed m + 1) [] (push_all ds [])
        (omega (arith, unlisted-nil m))
        (record {
          reached = λ x e. one (ground (arith, has-push_all ds [] x));
          missed = λ x e. cc;
          closed = λ x y e. cc;
          started = λ y e. ground (arith, has-push_all ds [] y);
        })
