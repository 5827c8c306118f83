-- ===== src/Base/Dicts.antt =====
-- A JavaScript `Map` with text keys: an association list in insertion order, in which a write to a
-- key that is present replaces the value in its place.
use Prim.Native.String.{String}
use mathlib.Core.Path.{◌≡◌, refl}
use mathlib.Core.Option.{Option, none, some}
use mathlib.Core.Logic.{inl, inr}
use mathlib.Core.List.{List, [], ◌∷◌}
use native.Mathlib.Omega.{arith}
use text.Mathlib.Text.{◌==◌}
use text.Mathlib.TextEquality.{eq_iff}
use protostar.Base.Tests.{if◌then◌else◌, is_some, Bool-cases}
use protostar.Base.Lists.{has, IsDistinct}

abbrev pub Dict {ℓ} : Type ℓ → Type ℓ
Dict V = List (String × V)

module _ {ℓ} {V : Type ℓ} where
  abbrev pub get : Dict V → String → Option V
  get [] k = none
  get ((j, v) ∷ m) k = if j == k then some v else get m k

  abbrev pub put : Dict V → String → V → Dict V
  put [] k v = (k, v) ∷ []
  put ((j, w) ∷ m) k v = if j == k then (j, v) ∷ m else (j, w) ∷ put m k v

  abbrev pub keys : Dict V → List String
  keys [] = []
  keys ((k, v) ∷ m) = k ∷ keys m

  pub get-put :
      (m : Dict V) (k j : String) (v : V) → get (put m k v) j ≡ (if k == j then some v else get m j)
  get-put [] k j v = refl
  get-put ((i, w) ∷ m) k j v = ground (arith, eq_iff k j, eq_iff i k, eq_iff i j, get-put m k j v)

  -- A key is present exactly when it has a value, and a write keeps the keys distinct.
  pub has-keys : (m : Dict V) (k : String) → has (keys m) k ≡ is_some (get m k)
  has-keys [] k = refl
  has-keys ((j, v) ∷ m) k = ground (arith, has-keys m k)

  pub put-IsDistinct :
      (m : Dict V) (k : String) (v : V) → IsDistinct (keys m) → IsDistinct (keys (put m k v))
  put-IsDistinct [] k v h = (refl, tt)
  put-IsDistinct ((j, w) ∷ m) k v (h, hs) = elim (Bool-cases (j == k)) [
    | inl same ↦ rw same (h, hs)
    | inr other ↦ rw other (
      ground (arith, has-keys (put m k v) j, has-keys m j, get-put m k j v, eq_iff j k, eq_iff k j),
      put-IsDistinct m k v hs,
    )
  ]

-- `a ?? b`.
abbrev pub first_some {ℓ} : {A : Type ℓ} → Option A → Option A → Option A
first_some none b = b
first_some (some a) b = some a
