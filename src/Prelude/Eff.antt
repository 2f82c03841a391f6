-- ===== src/Prelude/Eff.antt =====
-- State with errors: an error keeps the writes that were made before it.
use mathlib.Core.Bool.{Bool, true, false}
use trueos_picasso.Prelude.Result.{Result, ok, err}

abbrev pub Eff : Type 0 → Type 0 → Type 0 → Type 0
Eff S E A = S → Result E A × S

module _ {S E : Type 0} where
  abbrev pub pure : {A : Type 0} → A → Eff S E A
  pure a s = (ok a, s)

  abbrev pub raise : {A : Type 0} → E → Eff S E A
  raise e s = (err e, s)

  -- What the rest of a block does with the outcome of its first action.
  abbrev pub andthen : {A B : Type 0} → (A → Eff S E B) → Result E A × S → Result E B × S
  andthen f (ok a, s) = f a s
  andthen f (err e, s) = (err e, s)

  infixl 5 ◌>>=◌ ◌>>◌
  abbrev pub ◌>>=◌ : {A B : Type 0} → Eff S E A → (A → Eff S E B) → Eff S E B
  ◌>>=◌ m f s = andthen f (m s)

  abbrev pub ◌>>◌ : {B : Type 0} → Eff S E (Unit {0}) → Eff S E B → Eff S E B
  m >> k = m >>= λ _. k

  abbrev pub gets : {A : Type 0} → (S → A) → Eff S E A
  gets f s = (ok (f s), s)

  abbrev pub modify : (S → S) → Eff S E (Unit {0})
  modify f s = (ok tt, f s)

  abbrev pub lift : {A : Type 0} → Result E A → Eff S E A
  lift r s = (r, s)

  abbrev pub guard : Bool → E → Eff S E (Unit {0})
  guard true e = pure tt
  guard false e = raise e
