-- ===== src/Repair/Subgraph/Search.antt =====
-- The worklist loop ends within its fuel, and its result is closed under dependents.
use protostar.Base.{
  ℕ, zero, suc, ◌+◌, ◌≤◌, ◌≡◌, refl, ◌⊎◌, inl, inr, String, true, false, ◌||◌, List, [], ◌∷◌, ◌++◌,
  some, arith, ◌==◌, eq_iff, eq_refl, Dict, get, has, has-append, length, length-append, or_else,
  Bool-cases, if◌then◌else◌,
}
use protostar.Repair.Subgraph.{select, edges}

-- The edges that leave the tasks not chosen yet.
unfoldable pub open_edges : List String → Dict (List String) → ℕ
open_edges chosen [] = 0
open_edges chosen ((k, ds) ∷ m) = (if has chosen k then 0 else length ds) + open_edges chosen m

pub open_edges-nil : (m : Dict (List String)) → open_edges [] m ≡ edges m
unfolding open_edges
open_edges-nil [] = refl
open_edges-nil ((k, ds) ∷ m) = omega (arith, open_edges-nil m)

open_edges-cons_le :
    (chosen : List String) (id : String) (m : Dict (List String))
    → open_edges (id ∷ chosen) m ≤ open_edges chosen m
unfolding open_edges
open_edges-cons_le chosen id [] = omega arith
open_edges-cons_le chosen id ((k, ds) ∷ m) = ground (arith, open_edges-cons_le chosen id m)

-- Choosing a task takes its edges off, once for each time its key stands in the map.
open_edges-cons :
    (chosen : List String) (id : String) (m : Dict (List String))
    → has chosen id ≡ false
    → open_edges (id ∷ chosen) m + length (or_else (get m id) []) ≤ open_edges chosen m
unfolding open_edges
open_edges-cons chosen id [] h = omega arith
open_edges-cons chosen id ((k, ds) ∷ m) h =
    ground (
      arith,
      eq_iff k id,
      eq_iff id k,
      open_edges-cons chosen id m h,
      open_edges-cons_le chosen id m,
    )

pub select_total :
    (fuel : ℕ) (m : Dict (List String)) (chosen pending : List String)
    → length pending + open_edges chosen m ≤ fuel
    → (r : List String) × (select fuel m chosen pending ≡ some r)
unfolding select
select_total fuel m chosen [] h = (chosen, refl)
select_total zero m chosen (id ∷ pending) h = absurd (omega arith)
select_total (suc fuel) m chosen (id ∷ pending) h = elim (Bool-cases (has chosen id)) [
  | inl old ↦ let (r, e) = select_total fuel m chosen pending (omega arith) in (r, ground arith)
  | inr new ↦
      let (r, e) = select_total fuel m (id ∷ chosen) (pending ++ or_else (get m id) []) (
        omega (
          arith,
          length-append pending (or_else (get m id) []),
          open_edges-cons chosen id m new,
        )) in
      (r, ground arith)
]

-- What a set of tasks misses: `P` holds of the set if it holds of the start and follows the edges.
module _ (P : String → Type 0) (m : Dict (List String))
    (follows : (x d : String) → P x → has (or_else (get m x) []) d ≡ true → P d) where
  pub select_sound :
      (fuel : ℕ) (chosen pending r : List String)
      → select fuel m chosen pending ≡ some r
      → ((x : String) → has chosen x ≡ true → P x)
      → ((x : String) → has pending x ≡ true → P x)
      → (x : String) → has r x ≡ true
      → P x
  unfolding select
  select_sound fuel chosen [] r e c p x h = c x (ground arith)
  select_sound zero chosen (id ∷ pending) r e c p x h = cc
  select_sound (suc fuel) chosen (id ∷ pending) r e c p x h = elim (Bool-cases (has chosen id)) [
    | inl old ↦ select_sound fuel chosen pending r (ground arith) c (λ y k. p y (ground arith)) x h
    | inr new ↦
        select_sound fuel (id ∷ chosen) (pending ++ or_else (get m id) []) r (ground arith)
          (λ y k. add_chosen y (Bool-cases (id == y)) k)
          (λ y k. add_pending y (Bool-cases (has pending y)) k) x h
  ]
    where
      add_chosen :
          (y : String) → ((id == y) ≡ true) ⊎ ((id == y) ≡ false) → has (id ∷ chosen) y ≡ true → P y
      add_chosen y (inl same) k = p y (ground arith)
      add_chosen y (inr other) k = c y (ground arith)

      add_pending :
          (y : String)
          → (has pending y ≡ true) ⊎ (has pending y ≡ false)
          → has (pending ++ or_else (get m id) []) y ≡ true
          → P y
      add_pending y (inl old) k = p y (ground arith)
      add_pending y (inr other) k =
          follows id y (p id (ground (arith, eq_refl id)))
            (ground (arith, has-append pending (or_else (get m id) []) y))

module _ (m : Dict (List String)) where
  abbrev IsClosed : (chosen pending : List String) → Type 0
  IsClosed chosen pending =
      (x d : String)
      → has chosen x ≡ true
      → has (or_else (get m x) []) d ≡ true
      → (has chosen d || has pending d) ≡ true

  -- The result holds the start, and every dependent of what it holds.
  pub select_complete :
      (fuel : ℕ) (chosen pending r : List String)
      → select fuel m chosen pending ≡ some r
      → IsClosed chosen pending
      → ((x : String) → (has chosen x || has pending x) ≡ true → has r x ≡ true)
        × ((x d : String) → has r x ≡ true → has (or_else (get m x) []) d ≡ true → has r d ≡ true)
  unfolding select
  select_complete fuel chosen [] r e c =
      (λ x h. ground arith, λ x d h k. ground (arith, c x d (ground arith)))
  select_complete zero chosen (id ∷ pending) r e c = cc
  select_complete (suc fuel) chosen (id ∷ pending) r e c = elim (Bool-cases (has chosen id)) [
    | inl old ↦
        let (start, closed) =
          select_complete fuel chosen pending r (ground arith)
            (λ x d h k. ground (arith, c x d h k, eq_iff id d)) in
        (λ x h. start x (ground (arith, eq_iff id x)), closed)
    | inr new ↦
        let (start, closed) =
          select_complete fuel (id ∷ chosen) (pending ++ or_else (get m id) []) r (ground arith)
            (λ x d h k.
              ground (arith, c x d, eq_iff id x, has-append pending (or_else (get m id) []) d)) in
        (λ x h. start x (ground (arith, has-append pending (or_else (get m id) []) x)), closed)
  ]
