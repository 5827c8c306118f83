-- ===== src/Base/Number.antt =====
-- JavaScript numbers, as far as the program compares them. Every finite double is a whole multiple
-- of 2^-1074, so `fin z` stands for z * 2^-1074; the integer is split by its sign. The two zeros are
-- one value, as they are to `<=` and `===`.
use Prim.Native.Nat.{ℕ}
use mathlib.Core.Path.{◌≡◌}
use mathlib.Core.Logic.{◌⊎◌}
use mathlib.Core.Bool.{Bool, true, false}
use native.Mathlib.Omega.{arith}
use protostar.Base.Tests.{leb, if◌then◌else◌}

-- `negsuc n` is -(n + 1).
pub data ℤ : Type 0 where
  pos : ℕ → ℤ
  negsuc : ℕ → ℤ

pub data Number : Type 0 where
  nan neg_inf pos_inf : Number
  fin : ℤ → Number

abbrev pub le_int : ℤ → ℤ → Bool
le_int (pos a) (pos b) = leb a b
le_int (pos a) (negsuc b) = false
le_int (negsuc a) (pos b) = true
le_int (negsuc a) (negsuc b) = leb b a

-- `a <= b`; every comparison with NaN is false.
abbrev pub le_num : Number → Number → Bool
le_num nan b = false
le_num a nan = false
le_num neg_inf b = true
le_num a pos_inf = true
le_num (fin a) (fin b) = le_int a b
le_num _ _ = false

-- `Number.isFinite(a)`.
abbrev pub is_finite : Number → Bool
is_finite (fin a) = true
is_finite _ = false

-- `Math.min(a, b)` of numbers that are not NaN.
abbrev pub min_num : Number → Number → Number
min_num a b = if le_num a b then a else b

pub le_int_total : (a b : ℤ) → (le_int a b ≡ true) ⊎ (le_int b a ≡ true)
le_int_total a b = ground arith

pub le_num_trans : (a b c : Number) → le_num a b ≡ true → le_num b c ≡ true → le_num a c ≡ true
le_num_trans a b c h k = ground arith

pub le_num_refl : (a : ℤ) → le_num (fin a) (fin a) ≡ true
le_num_refl a = ground arith
