-- ===== src/Text/Split.antt =====
-- Where a text that was put together comes apart again.
use mathlib.Core.Path.{subst}
use trueos_picasso.Prelude.{true, ==_iff, ℕ, ◌<◌, ◌≡◌, ◌⊎◌, ◌↔◌, refl, ap, [], ◌∷◌, ◌++◌, arith}
use trueos_picasso.Prelude.All.{All}
use trueos_picasso.Text.{Text, utf8_width, utf8_len, text_eq}
use trueos_picasso.Text.Decimal.{IsDigit}

cons-injective : {x y : ℕ} {s t : Text} → x ∷ s ≡ y ∷ t → (x ≡ y) × (s ≡ t)
cons-injective e = (cc, cc)

-- Digits end at the first character that is none.
pub digits_split :
    (sep : ℕ) (xs ys : Text) {s t : Text}
    → (b'9' < sep) ⊎ (sep < b'0')
    → All IsDigit xs
    → All IsDigit ys
    → xs ++ sep ∷ s ≡ ys ++ sep ∷ t
    → (xs ≡ ys) × (s ≡ t)
digits_split sep [] [] d hx hy e = (refl, (cons-injective e).1)
digits_split sep [] (y ∷ ys) d hx hy e = absurd (omega (arith, (cons-injective e).0))
digits_split sep (x ∷ xs) [] d hx hy e = absurd (omega (arith, (cons-injective e).0))
digits_split sep (x ∷ xs) (y ∷ ys) d hx hy e =
    let (same, rest) = digits_split sep xs ys d hx.1 hy.1 (cons-injective e).1 in
    (cc (same, (cons-injective e).0), rest)

-- Beginnings of one length in UTF-8 are equal.
pub utf8_split :
    (xs ys : Text) {s t : Text}
    → utf8_len xs ≡ utf8_len ys
    → xs ++ s ≡ ys ++ t
    → (xs ≡ ys) × (s ≡ t)
unfolding utf8_len
utf8_split [] [] len e = (refl, e)
utf8_split [] (y ∷ ys) len e = absurd (ground arith)
utf8_split (x ∷ xs) [] len e = absurd (ground arith)
utf8_split (x ∷ xs) (y ∷ ys) len e =
    let (h, rest) = cons-injective e in
    let (same, tails) = utf8_split xs ys (omega (arith, ap utf8_width h)) rest in
    (cc (same, h), tails)

-- The test decides equality.
pub text_eq_sound : (xs ys : Text) → text_eq xs ys ≡ true → xs ≡ ys
unfolding text_eq
text_eq_sound [] [] h = refl
text_eq_sound [] (y ∷ ys) h = cc
text_eq_sound (x ∷ xs) [] h = cc
text_eq_sound (x ∷ xs) (y ∷ ys) h = ground (arith, text_eq_sound xs ys, ==_iff x y)

pub text_eq_refl : (xs : Text) → text_eq xs xs ≡ true
unfolding text_eq
text_eq_refl [] = refl
text_eq_refl (x ∷ xs) = ground (arith, text_eq_refl xs)

pub text_eq_iff : (a b : Text) → (text_eq a b ≡ true) ↔ (a ≡ b)
text_eq_iff a b = (text_eq_sound a b, λ q. subst (λ x. text_eq a x ≡ true) q (text_eq_refl a))
