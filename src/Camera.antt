-- ===== src/Camera.antt =====
-- Cameras of src/cam.rs: `Projection`, `Quaternion` with its operations, and `Camera`.
--
-- f32 is a parameter (`Prelude.Floats.Float`); arrays of three and four numbers are records.
pub mod Matrix
pub mod Retained
pub mod Fly
pub mod Tests
use trueos_picasso.Prelude.{Option, Bool, true, false, if◌then◌else◌}
use trueos_picasso.Prelude.Floats.{Float, ◌⊕◌, ◌⊖◌, ◌⊗◌, ◌⊘◌, nought, one, two}

pub data Projection {ℓ} (F : Type ℓ) : Type ℓ where
  perspective : (yfov znear : F) (zfar aspect_ratio : Option F) → Projection F
  orthographic : (xmag ymag znear zfar : F) → Projection F

-- `[f32; 3]`
pub record Vec3 {ℓ} (F : Type ℓ) : Type ℓ where
  pub x : F
  pub y : F
  pub z : F

pub record Quaternion {ℓ} (F : Type ℓ) : Type ℓ where
  pub x : F
  pub y : F
  pub z : F
  pub w : F

pub record Camera {ℓ} (F : Type ℓ) : Type ℓ where
  pub position : Vec3 F
  pub rotation : Quaternion F
  pub projection : Projection F

module _ {ℓ} {F : Type ℓ} ⦃f : Float F⦄ where
  abbrev pub vec3 : F → F → F → Vec3 F
  vec3 a b c = record { x = a; y = b; z = c }

  abbrev pub quaternion : F → F → F → F → Quaternion F
  quaternion a b c d = record { x = a; y = b; z = c; w = d }

  unfoldable pub identity : Quaternion F
  identity = quaternion nought nought nought one

  unfoldable pub from_axis_angle : (axis : Vec3 F) (angle : F) → Quaternion F
  from_axis_angle axis angle =
      let half = angle ⊗ f.literal 5 1 in
      let sin = f.sin half in quaternion (axis.x ⊗ sin) (axis.y ⊗ sin) (axis.z ⊗ sin) (f.cos half)

  unfoldable pub normalized : Quaternion F → Quaternion F
  unfolding identity
  normalized q =
      let length = f.sqrt (q.x ⊗ q.x ⊕ q.y ⊗ q.y ⊕ q.z ⊗ q.z ⊕ q.w ⊗ q.w) in
      if f.le length f.epsilon
      then identity
      else quaternion (q.x ⊘ length) (q.y ⊘ length) (q.z ⊘ length) (q.w ⊘ length)

  unfoldable pub rotate : Quaternion F → Vec3 F → Vec3 F
  unfolding normalized
  rotate q v =
      let u = normalized q in
      let tx = two ⊗ (u.y ⊗ v.z ⊖ u.z ⊗ v.y) in
      let ty = two ⊗ (u.z ⊗ v.x ⊖ u.x ⊗ v.z) in
      let tz = two ⊗ (u.x ⊗ v.y ⊖ u.y ⊗ v.x) in
      vec3 (v.x ⊕ u.w ⊗ tx ⊕ u.y ⊗ tz ⊖ u.z ⊗ ty) (v.y ⊕ u.w ⊗ ty ⊕ u.z ⊗ tx ⊖ u.x ⊗ tz)
        (v.z ⊕ u.w ⊗ tz ⊕ u.x ⊗ ty ⊖ u.y ⊗ tx)

  -- `self * rhs`
  unfoldable pub times : Quaternion F → Quaternion F → Quaternion F
  times a b =
      quaternion (a.w ⊗ b.x ⊕ a.x ⊗ b.w ⊕ a.y ⊗ b.z ⊖ a.z ⊗ b.y)
        (a.w ⊗ b.y ⊖ a.x ⊗ b.z ⊕ a.y ⊗ b.w ⊕ a.z ⊗ b.x)
        (a.w ⊗ b.z ⊕ a.x ⊗ b.y ⊖ a.y ⊗ b.x ⊕ a.z ⊗ b.w)
        (a.w ⊗ b.w ⊖ a.x ⊗ b.x ⊖ a.y ⊗ b.y ⊖ a.z ⊗ b.z)
