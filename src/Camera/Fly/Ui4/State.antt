-- ===== src/Camera/Fly/Ui4/State.antt =====
-- What each part of `step_ui4` leaves in the state.
use trueos_picasso.Prelude.{Bool, true, false, ◌≡◌, refl, Option, none, some, arith}
use trueos_picasso.Prelude.Floats.{Float}
use trueos_picasso.Camera.Fly.{
  Wasd, Ui4RouteIdentity, Ui4FlyState, FlyCam, look, roll, roll_by, move_by, step,
}
use trueos_picasso.Camera.Fly.Ui4.{
  InputRoute, bool_eq, wasd_eq, identity_eq, option_eq, route_identity, adopt, keep_keys,
}

bool_eq_sound : (a b : Bool) → bool_eq a b ≡ true → a ≡ b
bool_eq_sound true b h = ground arith
bool_eq_sound false b h = ground arith

wasd_eq_sound : (k l : Wasd) → wasd_eq k l ≡ true → k ≡ l
wasd_eq_sound k l h = ground (
  arith,
  bool_eq_sound k.w l.w,
  bool_eq_sound k.a l.a,
  bool_eq_sound k.s l.s,
  bool_eq_sound k.d l.d,
  bool_eq_sound k.q l.q,
  bool_eq_sound k.e l.e,
)

pub identity_eq_sound : (a b : Ui4RouteIdentity) → identity_eq a b ≡ true → a ≡ b
identity_eq_sound a b h = ground arith

pub option_identity_sound :
    (a b : Option Ui4RouteIdentity) → option_eq identity_eq a b ≡ true → a ≡ b
option_identity_sound none none h = refl
option_identity_sound none (some b) h = cc
option_identity_sound (some a) none h = cc
option_identity_sound (some a) (some b) h = ground (arith, identity_eq_sound a b h)

pub last_keys-keep_keys : (keys : Wasd) (u : Ui4FlyState) → (keep_keys keys u).last_keys ≡ keys
unfolding keep_keys
last_keys-keep_keys keys u = ground (arith, wasd_eq_sound keys u.last_keys)

pub keep_keys_keeps :
    (keys : Wasd) (u : Ui4FlyState)
    → ((keep_keys keys u).route ≡ u.route)
      × ((keep_keys keys u).last_combo ≡ u.last_combo)
      × ((keep_keys keys u).pointer_log_frames ≡ u.pointer_log_frames)
unfolding keep_keys
keep_keys_keeps keys u = ground arith

-- The route is the one adopted; its combo changes with it.
pub route-adopt : (r : Option InputRoute) (u : Ui4FlyState) → (adopt r u).route ≡ route_identity r
unfolding adopt
route-adopt none u = ground (arith, option_identity_sound none u.route)
route-adopt (some r) u = ground (arith, option_identity_sound (route_identity (some r)) u.route)

module _ {ℓ} {F : Type ℓ} ⦃f : Float F⦄ where
  -- Moving and rolling touch the camera only.
  pub step_keeps :
      (k : Wasd) (dt : F) (c : FlyCam F)
      → ((step k dt c).ui4 ≡ c.ui4) × ((step k dt c).look_sensitivity ≡ c.look_sensitivity)
  unfolding step roll_by move_by roll
  step_keeps k dt c = ground arith

  pub look_keeps :
      (dx dy : F) (c : FlyCam F)
      → ((look dx dy c).ui4 ≡ c.ui4) × ((look dx dy c).look_sensitivity ≡ c.look_sensitivity)
  unfolding look
  look_keeps dx dy c = (refl, refl)
