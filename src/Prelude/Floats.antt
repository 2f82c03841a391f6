-- ===== src/Prelude/Floats.antt =====
-- Rust's `f32` as a parameter: the operations that the code calls, and what it relies on of them.
use Prim.Native.Nat.{ℕ, ◌+◌, ◌-◌, ◌*◌, ◌/◌, ◌^◌, max}
use mathlib.Core.Path.{◌≡◌}
use mathlib.Core.Bool.{Bool, true, false}
use mathlib.Core.List.{List, [], ◌∷◌}
use trueos_picasso.Prelude.Tests.{ltb, leb, ◌==◌}

-- Rust's signed integers, `negsuc n` being `-n - 1`.
pub data ℤ : Type 0 where
  pos : ℕ → ℤ
  negsuc : ℕ → ℤ

abbrev pub is_zero : ℤ → Bool
is_zero (pos n) = n == 0
is_zero (negsuc n) = false

-- `literal n k` is the number n / 10^k, `of_int` is `as f32`, `sum` is `Iterator::sum`.
pub record Float {ℓ} (F : Type ℓ) : Type ℓ where
  pub literal : ℕ → ℕ → F
  pub of_int : ℤ → F
  pub largest : F
  pub epsilon : F
  pub add : F → F → F
  pub sub : F → F → F
  pub mul : F → F → F
  pub div : F → F → F
  pub neg : F → F
  pub max_of : F → F → F
  pub sum : List F → F
  pub sin : F → F
  pub cos : F → F
  pub tan : F → F
  pub sqrt : F → F
  pub abs : F → F
  pub le : F → F → Bool
  pub gt : F → F → Bool
  pub eq : F → F → Bool

module _ {ℓ} {F : Type ℓ} ⦃f : Float F⦄ where
  infixl 6 ◌⊕◌ ◌⊖◌
  infixl 7 ◌⊗◌ ◌⊘◌
  abbrev pub ◌⊕◌ : F → F → F
  x ⊕ y = f.add x y

  abbrev pub ◌⊖◌ : F → F → F
  x ⊖ y = f.sub x y

  abbrev pub ◌⊗◌ : F → F → F
  x ⊗ y = f.mul x y

  abbrev pub ◌⊘◌ : F → F → F
  x ⊘ y = f.div x y

  -- `0.0`, `1.0` and `2.0`
  abbrev pub nought : F
  nought = f.literal 0 1

  abbrev pub one : F
  one = f.literal 10 1

  abbrev pub two : F
  two = f.literal 20 1

-- What IEEE 754 says of small exact values: a number less itself is zero, zero is zero however
-- it is written, and a zero length is not above the epsilon.
pub record IsExactAtZero {ℓ} (F : Type ℓ) ⦃f : Float F⦄ : Type ℓ where
  pub zero_self : f.of_int (pos 0) ≡ nought
  pub sub_self : (n : ℕ) → (f.of_int (pos n) ⊖ f.of_int (pos n)) ≡ nought
  pub eq_nought : f.eq nought nought ≡ true
  pub length_nought : f.le (f.sqrt ((nought ⊗ nought) ⊕ (nought ⊗ nought))) f.epsilon ≡ true

-- Rust's `f32::max` passes over a NaN, so the maximum with zero is never below zero.
pub record IsClamping {ℓ} (F : Type ℓ) ⦃f : Float F⦄ : Type ℓ where
  pub max_nought : (x : F) → f.le nought (f.max_of x nought) ≡ true
  pub literal_positive : (n k : ℕ) → f.le nought (f.literal n k) ≡ true

-- The laws can be met: whole numbers in thousandths, cut off at zero.
abbrev pub thousandths : Float ℕ
thousandths = record {
  literal = λ n k. n * 1000 / (10 ^ k);
  of_int = λ n. elim n [ pos m ↦ m * 1000 | negsuc m ↦ 0 ];
  largest = 1000000000;
  epsilon = 0;
  add = λ x y. x + y;
  sub = λ x y. x - y;
  mul = λ x y. x * y / 1000;
  div = λ x y. x * 1000 / y;
  neg = λ x. 0;
  max_of = max;
  sum = λ xs. total xs;
  sin = λ x. x;
  cos = λ x. 1000;
  tan = λ x. x;
  sqrt = λ x. x;
  abs = λ x. x;
  le = leb;
  gt = λ x y. ltb y x;
  eq = ◌==◌;
}
  where
    total : List ℕ → ℕ
    total [] = 0
    total (x ∷ xs) = x + total xs
