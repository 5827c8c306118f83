-- ===== src/Planning/Open.antt =====
-- How far a depth-first search still has to go: the measure that bounds its recursion.
use protostar.Base.{
  ℕ, ◌+◌, ◌≤◌, ◌<◌, ◌≡◌, refl, String, true, false, List, [], ◌∷◌, arith, eq_iff, Dict, get, has,
  is_some, length, if◌then◌else◌,
}

module _ {V : Type 0} where
  -- The keys of the map that are not among the marked ones.
  pub open_keys : List String → Dict V → ℕ
  open_keys marked [] = 0
  open_keys marked ((k, v) ∷ m) = (if has marked k then 0 else 1) + open_keys marked m

  pub open_keys-nil : (m : Dict V) → open_keys [] m ≡ length m
  unfolding open_keys
  open_keys-nil [] = refl
  open_keys-nil ((k, v) ∷ m) = omega (arith, open_keys-nil m)

  pub open_keys_mono :
      (xs ys : List String) (m : Dict V)
      → ((x : String) → has xs x ≡ true → has ys x ≡ true)
      → open_keys ys m ≤ open_keys xs m
  unfolding open_keys
  open_keys_mono xs ys [] h = omega arith
  open_keys_mono xs ys ((k, v) ∷ m) h = ground (arith, open_keys_mono xs ys m h, h k)

  pub open_keys-cons :
      (marked : List String) (id : String) (m : Dict V)
      → has marked id ≡ false
      → is_some (get m id) ≡ true
      → open_keys (id ∷ marked) m < open_keys marked m
  unfolding open_keys
  open_keys-cons marked id [] h g = cc
  open_keys-cons marked id ((k, v) ∷ m) h g = ground (
    arith,
    eq_iff k id,
    eq_iff id k,
    open_keys-cons marked id m h,
    open_keys_mono marked (id ∷ marked) m (λ x e. ground arith),
  )
