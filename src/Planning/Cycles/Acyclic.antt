-- ===== src/Planning/Cycles/Acyclic.antt =====
-- The search finds a cycle exactly when there is one.
use protostar.Base.{
  ℕ, zero, suc, ◌<◌, ◌≡◌, refl, sym, subst, ap, ◌∙◌, inl, inr, String, Bool, true, false, List, [],
  ◌∷◌, none, arith, ◌==◌, eq_iff, eq_refl, Dict, get, has, choose, is_some, or_else, Bool-cases,
  Option-cases, if◌then◌else◌,
}
use protostar.Planning.Open.{open_keys, open_keys-cons}
use protostar.Planning.Cycles.{Visit, cyclic, clear, stalled, visit_all, visit, after}

abbrev pub deps : Dict (List String) → String → List String
deps m id = or_else (get m id) []

-- `x` depends on `y` through one or more steps.
pub data Reaches (depends : String → String → Bool) : String → String → Type 0 where
  one : {x y : String} → depends x y ≡ true → Reaches depends x y
  more : {x y z : String} → depends x y ≡ true → Reaches depends y z → Reaches depends x z

pub Reaches-weaken :
    {p q : String → String → Bool}
    → ((x y : String) → p x y ≡ true → q x y ≡ true)
    → {x y : String} → Reaches p x y
    → Reaches q x y
Reaches-weaken f (one {x} {y} h) = one (f x y h)
Reaches-weaken f (more {x} {y} h r) = more (f x y h) (Reaches-weaken f r)

pub Reaches-trans :
    {p : String → String → Bool} {x y z : String} → Reaches p x y → Reaches p y z → Reaches p x z
Reaches-trans (one h) r = more h r
Reaches-trans (more h q) r = more h (Reaches-trans q r)

abbrev pub edge : (String → List String) → String → String → Bool
edge next x y = has (next x) y

-- Each of the tasks comes after its dependencies, the latest standing first.
abbrev pub Settled : (String → List String) → List String → Type 0
Settled next [] = Unit
Settled next (x ∷ xs) = ((d : String) → has (next x) d ≡ true → has xs d ≡ true) × Settled next xs

module _ (next : String → List String) where
  Settled-step :
      (xs : List String) (x y : String)
      → Settled next xs
      → has xs x ≡ true
      → has (next x) y ≡ true
      → has xs y ≡ true
  Settled-step [] x y s h e = cc
  Settled-step (z ∷ xs) x y (later, s) h e = elim (Bool-cases (z == x)) [
    | inl same ↦
        ground (arith, later y (subst (λ i. has (next i) y ≡ true) (sym ((eq_iff z x).0 same)) e))
    | inr other ↦ ground (arith, Settled-step xs x y s (ground arith) e)
  ]

  Settled-Reaches :
      (xs : List String) {x y : String}
      → Settled next xs
      → Reaches (edge next) x y
      → ((d : String) → has (next x) d ≡ true → has xs d ≡ true)
      → has xs y ≡ true
  Settled-Reaches xs s (one {y} h) first = first y h
  Settled-Reaches xs s (more {y} h r) first =
      Settled-Reaches xs s r (λ d e. Settled-step xs y d s (first y h) e)

  -- No task that is settled reaches itself.
  pub Settled-acyclic :
      (xs : List String) (x : String)
      → Settled next xs
      → has xs x ≡ true
      → ¬ Reaches (edge next) x x
  Settled-acyclic [] x s h r = cc
  Settled-acyclic (z ∷ xs) x (later, s) h r = elim (Bool-cases (has xs x)) [
    | inl old ↦ Settled-acyclic xs x s old r
    | inr new ↦
        let same : z ≡ x = (eq_iff z x).0 (ground arith) in
        cc (
          Settled-Reaches xs s r (λ d e. later d (subst (λ i. has (next i) d ≡ true) (sym same) e)))
  ]

  abbrev pub Ensures : (List String → Type 0) → Visit → Type 0
  Ensures P cyclic = (x : String) × Reaches (edge next) x x
  Ensures P (clear visited) = P visited
  Ensures P stalled = ⊥

  after-Ensures :
      (P Q : List String → Type 0) (r : Visit) (k : List String → Visit)
      → Ensures P r
      → ((v : List String) → P v → Ensures Q (k v))
      → Ensures Q (after r k)
  after-Ensures P Q cyclic k h f = h
  after-Ensures P Q (clear v) k h f = f v h
  after-Ensures P Q stalled k h f = h

  -- What a search of `ids` leaves: all of them are settled, and whatever was.
  abbrev pub Searched : (ids before after : List String) → Type 0
  Searched ids before v =
      Settled next v
      × ((x : String) → has before x ≡ true → has v x ≡ true)
      × ((x : String) → has ids x ≡ true → has v x ≡ true)

  pub visit_all-Ensures :
      (call : String → List String → Visit) (ids before : List String)
      → ((id : String) (v : List String)
          → has ids id ≡ true
          → Settled next v
          → Ensures (Searched (id ∷ []) v) (call id v))
      → Settled next before
      → Ensures (Searched ids before) (visit_all call ids before)
  unfolding visit_all
  visit_all-Ensures call [] before h s = (s, λ x k. k, λ x k. cc)
  visit_all-Ensures call (id ∷ ids) before h s =
      after-Ensures (Searched (id ∷ []) before) (Searched (id ∷ ids) before) (call id before)
        (visit_all call ids) (h id before (ground (arith, eq_refl id)) s)
        (λ v (s', kept, found).
          weaken v kept found (visit_all call ids v)
            (visit_all-Ensures call ids v (λ i w m. h i w (ground arith)) s'))
    where
      weaken :
          (v : List String)
          → ((x : String) → has before x ≡ true → has v x ≡ true)
          → ((x : String) → has (id ∷ []) x ≡ true → has v x ≡ true)
          → (r : Visit) → Ensures (Searched ids v) r
          → Ensures (Searched (id ∷ ids) before) r
      weaken v kept found cyclic e = e
      weaken v kept found (clear w) (s', kept', found') =
          (s', λ x k. kept' x (kept x k), λ x k. ground (arith, kept' x, found x, found' x))
      weaken v kept found stalled e = e

no-deps : (m : Dict (List String)) (id d : String) → get m id ≡ none → has (deps m id) d ≡ false
no-deps m id d e = rw e refl

module _ (m : Dict (List String)) where
  unfoldable pub Searching : ℕ → Type 0
  Searching fuel =
      (visiting : List String) (id : String) (before : List String)
      → open_keys visiting m < fuel
      → Settled (deps m) before
      → ((x : String) → has visiting x ≡ true → Reaches (edge (deps m)) x id)
      → Ensures (deps m) (Searched (deps m) (id ∷ []) before) (visit fuel m visiting id before)

  -- A task is left behind once its dependencies are.
  leave :
      (id : String) (before v : List String)
      → Searched (deps m) (deps m id) before v
      → Searched (deps m) (id ∷ []) before (id ∷ v)
  leave id before v (s, kept, found) =
      ((found, s), λ x k. ground (arith, kept x k), λ x k. ground arith)

  visit-dependencies :
      (fuel : ℕ) (visiting : List String) (id : String) (before : List String)
      → Searching fuel
      → open_keys visiting m < suc fuel
      → Settled (deps m) before
      → ((x : String) → has visiting x ≡ true → Reaches (edge (deps m)) x id)
      → has visiting id ≡ false
      → Ensures
          (deps m)
          (Searched (deps m) (deps m id) before)
          (visit_all (visit fuel m (id ∷ visiting)) (deps m id) before)
  unfolding Searching
  visit-dependencies fuel visiting id before deeper f s h closed =
      visit_all-Ensures (deps m) (visit fuel m (id ∷ visiting)) (deps m id) before
        (λ d v dep sv. deeper (id ∷ visiting) d v (smaller d dep) sv (path d dep)) s
    where
      smaller : (d : String) → has (deps m id) d ≡ true → open_keys (id ∷ visiting) m < fuel
      smaller d dep = elim (Option-cases (get m id)) [
        | inl absent ↦ cc (dep, no-deps m id d absent)
        | inr (ds, found) ↦ ground (arith, open_keys-cons visiting id m closed (ap is_some found))
      ]

      path :
          (d : String)
          → has (deps m id) d ≡ true
          → (x : String) → has (id ∷ visiting) x ≡ true
          → Reaches (edge (deps m)) x d
      path d dep x k = elim (Bool-cases (id == x)) [
        | inl same ↦ subst (λ i. Reaches (edge (deps m)) i d) ((eq_iff id x).0 same) (one dep)
        | inr other ↦ Reaches-trans (h x (ground arith)) (one dep)
      ]

  module _ (fuel : ℕ) (visiting : List String) (id : String) (before : List String) where
    visit_step : visit (suc fuel) m visiting id before ≡ (
        if has before id
        then clear before
        else if has visiting id
        then cyclic
        else after
            (visit_all (visit fuel m (id ∷ visiting)) (deps m id) before)
            (λ v. clear (id ∷ v)))
    unfolding visit
    visit_step =
        choose (has before id) (has visiting id) (clear before) cyclic (
          after (visit_all (visit fuel m (id ∷ visiting)) (deps m id) before) (λ v. clear (id ∷ v)))

    visit_again : has before id ≡ true → visit (suc fuel) m visiting id before ≡ clear before
    visit_again h = visit_step ∙ rw h refl

    visit_open :
        has before id ≡ false
        → has visiting id ≡ true
        → visit (suc fuel) m visiting id before ≡ cyclic
    visit_open h h' = visit_step ∙ rw (h, h') refl

    visit_new :
        has before id ≡ false
        → has visiting id ≡ false
        → visit (suc fuel) m visiting id before
          ≡ after
              (visit_all (visit fuel m (id ∷ visiting)) (deps m id) before)
              (λ v. clear (id ∷ v))
    visit_new h h' = visit_step ∙ rw (h, h') refl

  pub visit-Ensures : (fuel : ℕ) → Searching fuel
  unfolding Searching
  visit-Ensures zero visiting id before f s h = absurd (omega arith)
  visit-Ensures (suc fuel) visiting id before f s h =
      let Left = Searched (deps m) (id ∷ []) before in
      elim (Bool-cases (has before id)) [
        | inl old ↦ subst (Ensures (deps m) Left) (sym (visit_again fuel visiting id before old)) (
          s,
          λ x k. k,
          λ x k. ground (arith, eq_iff id x, λ (e : id ≡ x). sym (ap (has before) e) ∙ old),
        )
        | inr new ↦ elim (Bool-cases (has visiting id)) [
          | inl again ↦
              subst (Ensures (deps m) Left) (sym (visit_open fuel visiting id before new again))
                (id, h id again)
          | inr closed ↦
              subst (Ensures (deps m) Left) (sym (visit_new fuel visiting id before new closed)) (
                after-Ensures (deps m) (Searched (deps m) (deps m id) before) Left _ _
                  (visit-dependencies fuel visiting id before (visit-Ensures fuel) f s h closed)
                  (λ v found. leave id before v found))
        ]
      ]
