-- ===== src/Camera/Fly.antt =====
-- `FlyCam` of src/cam.rs: the keys, the state, and what each of its methods does.
--
-- `fly_cam` is `FlyCam::new`. The log lines are output, and are left out.
pub mod Keys
pub mod Ui4
use trueos_picasso.Prelude.{
  ℕ, ◌+◌, ◌%◌, ◌^◌, Bool, true, false, not, ◌&&◌, ◌||◌, Option, none, some, ◌==◌, if◌then◌else◌,
}
use trueos_picasso.Prelude.Floats.{ℤ, pos, negsuc, Float, ◌⊕◌, ◌⊖◌, ◌⊗◌, ◌⊘◌, nought, one}
use trueos_picasso.Camera.{
  Vec3, Quaternion, Camera, vec3, from_axis_angle, normalized, rotate, times,
}

pub record Wasd : Type 0 where
  pub w : Bool
  pub a : Bool
  pub s : Bool
  pub d : Bool
  pub q : Bool
  pub e : Bool

abbrev pub no_keys : Wasd
no_keys = record { w = false; a = false; s = false; d = false; q = false; e = false }

-- A source of UI4's pointer, as the code reads it: compared and logged.
pub record CursorSource : Type 0 where
  pub controller_id : ℕ
  pub slot_id : ℕ
  pub ep_target : ℕ

pub record Ui4RouteIdentity : Type 0 where
  pub cursor : CursorSource
  pub combo_id : ℕ

pub record Ui4FlyState : Type 0 where
  pub last_keys : Wasd
  pub route : Option Ui4RouteIdentity
  pub last_combo : ℕ
  pub pointer_log_frames : ℕ

pub record FlyCam {ℓ} (F : Type ℓ) : Type ℓ where
  pub camera : Camera F
  pub speed : F
  pub look_sensitivity : F
  pub ui4 : Ui4FlyState

-- `q as i8 - e as i8`
abbrev pub difference : (plus minus : Bool) → ℤ
difference true true = pos 0
difference true false = pos 1
difference false true = negsuc 0
difference false false = pos 0

-- `key as u8 as f32`
abbrev pub as_float {ℓ} : {F : Type ℓ} ⦃f : Float F⦄ → Bool → F
as_float ⦃f⦄ true = f.of_int (pos 1)
as_float ⦃f⦄ false = f.of_int (pos 0)

module _ {ℓ} {F : Type ℓ} ⦃f : Float F⦄ where
  unfoldable pub fly_cam : (camera : Camera F) (speed : F) → FlyCam F
  fly_cam camera speed = record {
    camera = camera;
    speed = speed;
    look_sensitivity = f.literal 2 3;
    ui4 = record { last_keys = no_keys; route = none; last_combo = 0; pointer_log_frames = 0 };
  }

  unfoldable pub set_speed : (units_per_second : F) → FlyCam F → FlyCam F
  set_speed units c = record c { speed = f.max_of units nought }

  unfoldable pub set_look_sensitivity : (radians_per_pixel : F) → FlyCam F → FlyCam F
  set_look_sensitivity radians c = record c { look_sensitivity = f.max_of radians nought }

  abbrev pub turned : Quaternion F → FlyCam F → FlyCam F
  turned rotation c = record c { camera = record (c.camera) { rotation = rotation } }

  unfoldable pub look : (delta_x delta_y : F) → FlyCam F → FlyCam F
  unfolding from_axis_angle times normalized
  look dx dy c =
      let yaw = from_axis_angle (vec3 nought one nought) (f.neg dx ⊗ c.look_sensitivity) in
      let pitch = from_axis_angle (vec3 one nought nought) (f.neg dy ⊗ c.look_sensitivity) in
      turned (normalized (times (times c.camera.rotation yaw) pitch)) c

  unfoldable pub roll : (angle_radians : F) → FlyCam F → FlyCam F
  unfolding from_axis_angle times normalized
  roll angle c =
      let local_view_axis = from_axis_angle (vec3 nought nought one) angle in
      turned (normalized (times c.camera.rotation local_view_axis)) c

  abbrev pub default_roll_radians_per_second : F
  default_roll_radians_per_second = f.literal 15 1

  unfoldable pub roll_by : Wasd → (delta_seconds : F) → FlyCam F → FlyCam F
  unfolding roll
  roll_by keys dt c =
      let amount = f.of_int (difference keys.q keys.e) in
      if f.eq amount nought then c else roll (amount ⊗ default_roll_radians_per_second ⊗ dt) c

  unfoldable pub move_by : Wasd → (delta_seconds : F) → FlyCam F → FlyCam F
  unfolding rotate
  move_by keys dt c =
      let x = as_float keys.d ⊖ as_float keys.a in
      let z = as_float keys.s ⊖ as_float keys.w in
      let length = f.sqrt (x ⊗ x ⊕ z ⊗ z) in
      let movement = rotate c.camera.rotation (vec3 (x ⊘ length) nought (z ⊘ length)) in
      let distance = c.speed ⊗ dt in
      let p = c.camera.position in
      let moved =
        vec3 (p.x ⊕ movement.x ⊗ distance) (p.y ⊕ movement.y ⊗ distance)
          (p.z ⊕ movement.z ⊗ distance) in
      if f.le length f.epsilon
      then c
      else record c { camera = record (c.camera) { position = moved } }

  unfoldable pub step : Wasd → (delta_seconds : F) → FlyCam F → FlyCam F
  unfolding roll_by move_by
  step keys dt c = if f.le dt nought then c else move_by keys dt (roll_by keys dt c)
