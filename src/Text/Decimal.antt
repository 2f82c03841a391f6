-- ===== src/Text/Decimal.antt =====
-- A printed number is made of digits and determines the number.
use trueos_picasso.Prelude.{
  ℕ, zero, suc, ◌+◌, ◌-◌, ◌*◌, ◌/◌, ◌%◌, ◌≤◌, ◌<◌, ◌≡◌, refl, ap, ◌∙◌, List, [], ◌∷◌, ◌++◌, arith,
  ltb, length, replicate, Bool-cases, inl, inr,
}
use trueos_picasso.Prelude.All.{All}
use trueos_picasso.Text.{Text, decimal_digits, decimal, decimal08}

abbrev pub IsDigit : ℕ → Type 0
IsDigit c = (b'0' ≤ c) × (c ≤ b'9')

-- The number that digits denote, read from the left after `v`.
unfoldable value_from : ℕ → Text → ℕ
value_from v [] = v
value_from v (c ∷ s) = value_from (v * 10 + (c - b'0')) s

value_from-append : (v : ℕ) (s t : Text) → value_from v (s ++ t) ≡ value_from (value_from v s) t
unfolding value_from
value_from-append v [] t = refl
value_from-append v (c ∷ s) t = value_from-append (v * 10 + (c - b'0')) s t

digits-value : (fuel n : ℕ) → n < fuel → value_from 0 (decimal_digits fuel n) ≡ n
unfolding value_from decimal_digits
digits-value zero n h = absurd (omega arith)
digits-value (suc f) n h = elim (Bool-cases (ltb n 10)) [
  | inl e ↦ rw e (ground arith)
  | inr e ↦ rw e (
      value_from-append 0 (decimal_digits f (n / 10)) ((b'0' + n % 10) ∷ [])
      ∙ ground (arith, digits-value f (n / 10)))
]

All-append {ℓ} :
    {A : Type ℓ} (P : A → Type 0) (xs ys : List A) → All P xs → All P ys → All P (xs ++ ys)
All-append P [] ys h k = k
All-append P (x ∷ xs) ys h k = (h.0, All-append P xs ys h.1 k)

digits-IsDigit : (fuel n : ℕ) → All IsDigit (decimal_digits fuel n)
unfolding decimal_digits
digits-IsDigit zero n = tt
digits-IsDigit (suc f) n = elim (Bool-cases (ltb n 10)) [
  | inl e ↦ rw e (ground arith)
  | inr e ↦ rw e (
      All-append IsDigit (decimal_digits f (n / 10)) ((b'0' + n % 10) ∷ [])
        (digits-IsDigit f (n / 10)) (omega arith))
]

pub decimal-IsDigit : (n : ℕ) → All IsDigit (decimal n)
unfolding decimal
decimal-IsDigit n = digits-IsDigit (suc n) n

decimal-value : (n : ℕ) → value_from 0 (decimal n) ≡ n
unfolding decimal
decimal-value n = digits-value (suc n) n (omega arith)

pub decimal-injective : (n m : ℕ) → decimal n ≡ decimal m → n ≡ m
decimal-injective n m e = cc (decimal-value n, decimal-value m, ap (value_from 0) e)

zeros-value : (k : ℕ) → value_from 0 (replicate k b'0') ≡ 0
unfolding value_from
zeros-value zero = refl
zeros-value (suc k) = zeros-value k

decimal08-value : (n : ℕ) → value_from 0 (decimal08 n) ≡ n
unfolding decimal08
decimal08-value n =
    value_from-append 0 (replicate (8 - length (decimal n)) b'0') (decimal n)
    ∙ rw (zeros-value (8 - length (decimal n))) (decimal-value n)

pub decimal08-injective : (n m : ℕ) → decimal08 n ≡ decimal08 m → n ≡ m
decimal08-injective n m e = cc (decimal08-value n, decimal08-value m, ap (value_from 0) e)
