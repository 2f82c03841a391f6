-- ===== src/Library/Keys.antt =====
-- The keys of `glb_library` of src/lib.rs name one part of one asset each.
use mathlib.Core.Path.{subst}
use mathlib.Core.Bool.{false≢true}
use trueos_picasso.Prelude.{ℕ, ◌≡◌, refl, sym, ap, ◌∙◌, true, false, [], ◌∷◌, ◌++◌, drop, arith}
use trueos_picasso.Text.{Text, contains}
use trueos_picasso.Library.{Part, source, json, buffer, part_name, key}

contains-middle : (c : ℕ) (xs ys : Text) → contains (xs ++ (c ∷ ys)) c ≡ true
unfolding contains
contains-middle c [] ys = ground arith
contains-middle c (x ∷ xs) ys = ground (arith, contains-middle c xs ys)

-- A text ends at its last separator.
last_split :
    (c : ℕ) (xs ys : Text) {s t : Text}
    → contains s c ≡ false
    → contains t c ≡ false
    → xs ++ (c ∷ s) ≡ ys ++ (c ∷ t)
    → (xs ≡ ys) × (s ≡ t)
last_split c [] [] hs ht e = (refl, ap (drop 1) e)
last_split c [] (y ∷ ys) {s} {t} hs ht e = absurd (
    false≢true
      (sym hs ∙ subst (λ x. contains x c ≡ true) (sym (ap (drop 1) e)) (contains-middle c ys t)))
last_split c (x ∷ xs) [] {s} {t} hs ht e = absurd (
    false≢true (sym ht ∙ subst (λ x. contains x c ≡ true) (ap (drop 1) e) (contains-middle c xs s)))
last_split c (x ∷ xs) (y ∷ ys) hs ht e =
    let (same, rest) = last_split c xs ys hs ht (ap (drop 1) e) in (cc (same, first e), rest)
  where
    first : {x y : ℕ} {s t : Text} → x ∷ s ≡ y ∷ t → x ≡ y
    first q = cc

plain : (part : Part) → contains (part_name part) b'/' ≡ false
unfolding contains
plain source = refl
plain json = refl
plain buffer = refl

-- The first character; the three names differ in it.
abbrev initial : Text → ℕ
initial [] = 0
initial (c ∷ s) = c

part_name-injective : (part other : Part) → part_name part ≡ part_name other → part ≡ other
part_name-injective source source e = refl
part_name-injective json json e = refl
part_name-injective buffer buffer e = refl
part_name-injective source json e = absurd (omega (arith, ap initial e))
part_name-injective source buffer e = absurd (omega (arith, ap initial e))
part_name-injective json source e = absurd (omega (arith, ap initial e))
part_name-injective json buffer e = absurd (omega (arith, ap initial e))
part_name-injective buffer source e = absurd (omega (arith, ap initial e))
part_name-injective buffer json e = absurd (omega (arith, ap initial e))

-- A key determines the asset, whatever `/` its id has in it, and the part.
pub key-injective :
    (id id' : Text) (part part' : Part) → key id part ≡ key id' part' → (id ≡ id') × (part ≡ part')
unfolding key
key-injective id id' part part' e =
    let (same, rest) = last_split b'/' id id' (plain part) (plain part') e in
    (same, part_name-injective part part' rest)
