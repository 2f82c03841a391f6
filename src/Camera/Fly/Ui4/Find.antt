-- ===== src/Camera/Fly/Ui4/Find.antt =====
-- What `find` finds: a member that passes the test, and nothing when none does.
use mathlib.Core.List.{Mem, mem-cons_self, mem-cons_of_mem}
use trueos_picasso.Prelude.{
  Bool, true, false, ◌≡◌, refl, none, some, List, [], ◌∷◌, ◌&&◌, Bool-cases, inl, inr, arith,
}
use trueos_picasso.Camera.Fly.Ui4.{find}

module _ {ℓ} {A : Type ℓ} (test : A → Bool) where
  pub find-some : (xs : List A) {a : A} → find test xs ≡ some a → (test a ≡ true) × Mem a xs
  find-some [] h = cc
  find-some (x ∷ xs) {a} h = elim (Bool-cases (test x)) [
    | inl passes ↦ let e : x ≡ a = ground arith in (rw (← e) passes, rw e mem-cons_self)
    | inr fails ↦ let rest = find-some xs (ground arith) in (rest.0, mem-cons_of_mem x rest.1)
  ]

-- What another search found fails a test that nothing passes.
pub find-none {ℓ} :
    {A : Type ℓ} (test other : A → Bool) (xs : List A) {a : A}
    → find test xs ≡ none
    → find other xs ≡ some a
    → test a ≡ false
find-none test other [] h found = cc
find-none test other (x ∷ xs) {a} h found = elim (Bool-cases (test x)) [
  | inl passes ↦ ground arith
  | inr fails ↦ elim (Bool-cases (other x)) [
    | inl here ↦ let e : x ≡ a = ground arith in rw (← e) fails
    | inr later ↦ find-none test other xs (ground arith) (ground arith)
  ]
]

-- A search whose test also asks for what never holds finds nothing.
pub find-never {ℓ} :
    {A : Type ℓ} (test : A → Bool) (xs : List A) → find (λ x. test x && false) xs ≡ none
find-never test [] = refl
find-never test (x ∷ xs) = ground (arith, find-never test xs)
