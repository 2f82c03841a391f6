-- ===== src/Camera/Fly/Keys.antt =====
-- Keys that oppose each other.
use trueos_picasso.Prelude.{Bool, true, false, ◌≡◌, refl, arith}
use trueos_picasso.Prelude.Floats.{pos, Float, nought, IsExactAtZero, ◌⊖◌}
use trueos_picasso.Camera.Fly.{Wasd, FlyCam, difference, as_float, roll_by, move_by, step}

pub record IsOpposed (k : Wasd) : Type 0 where
  pub roll_keys : k.q ≡ k.e
  pub side_keys : k.d ≡ k.a
  pub drive_keys : k.s ≡ k.w

pub difference_self : (b : Bool) → difference b b ≡ pos 0
difference_self true = refl
difference_self false = refl

module _ {ℓ} {F : Type ℓ} ⦃f : Float F⦄ (laws : IsExactAtZero F) where
  as_float_self : (b : Bool) → ◌≡◌ {A = F} (as_float b ⊖ as_float b) nought
  as_float_self true = laws.sub_self 1
  as_float_self false = laws.sub_self 0

  roll_by_opposed : (k : Wasd) (dt : F) (c : FlyCam F) → k.q ≡ k.e → roll_by k dt c ≡ c
  unfolding roll_by
  roll_by_opposed k dt c h = rw (h, difference_self k.e, laws.zero_self, laws.eq_nought) refl

  move_by_opposed : (k : Wasd) (dt : F) (c : FlyCam F) → k.d ≡ k.a → k.s ≡ k.w → move_by k dt c ≡ c
  unfolding move_by
  move_by_opposed k dt c side drive =
      rw (side, drive, as_float_self k.a, as_float_self k.w, laws.length_nought) refl

  -- If zero is exact in the number type, keys that oppose each other leave the camera as it is, all
  -- of it and for any time step.
  pub step_opposed : (k : Wasd) (dt : F) (c : FlyCam F) → IsOpposed k → step k dt c ≡ c
  unfolding step
  step_opposed k dt c h =
      ground
        (arith, roll_by_opposed k dt c h.roll_keys, move_by_opposed k dt c h.side_keys h.drive_keys)
