-- ===== src/Camera/Retained.antt =====
-- `Camera::retained` of src/cam.rs: the block of a camera that the retained renderer reads.
use trueos_picasso.Prelude.{ℕ, Option, some, none}
use Prim.Native.Nat.{max}
use trueos_picasso.Prelude.Floats.{pos, Float, ◌⊖◌, ◌⊗◌, ◌⊘◌, nought, one, two}
use trueos_picasso.Camera.{
  Projection, perspective, orthographic, Vec3, Quaternion, Camera, vec3, quaternion, normalized,
  rotate,
}
use trueos_picasso.Camera.Matrix.{Four, Mat4, multiply_mat4, invert_mat4, identity_mat4}

-- `trueos_bp::vgpu::RetainedCamera`, a type of the renderer
pub record RetainedCamera {ℓ} (F : Type ℓ) : Type ℓ where
  pub view : Mat4 F
  pub projection : Mat4 F
  pub view_projection : Mat4 F
  pub inverse_view_projection : Mat4 F
  pub position_near : Four F
  pub forward_far : Four F
  pub jitter_frame : Four F
  pub previous_view_projection : Mat4 F

-- `o.unwrap_or(a)`
abbrev pub unwrap_or {ℓ} : {A : Type ℓ} → Option A → A → A
unwrap_or (some a) b = a
unwrap_or none b = b

abbrev pub four {ℓ} : {A : Type ℓ} → A → A → A → A → Four A
four a b c d = record { n0 = a; n1 = b; n2 = c; n3 = d }

-- A projection's matrix with its clip planes.
pub record Lens {ℓ} (F : Type ℓ) : Type ℓ where
  pub matrix : Mat4 F
  pub znear : F
  pub zfar : F

module _ {ℓ} {F : Type ℓ} ⦃f : Float F⦄ where
  abbrev pub column : Vec3 F → F → Four F
  column v last = four v.x v.y v.z last

  abbrev pub conjugate : Quaternion F → Quaternion F
  conjugate q = quaternion (f.neg q.x) (f.neg q.y) (f.neg q.z) q.w

  unfoldable pub view_of : Camera F → Mat4 F
  unfolding normalized rotate
  view_of c =
      let world_to_view = conjugate (normalized c.rotation) in
      four (column (rotate world_to_view (vec3 one nought nought)) nought)
        (column (rotate world_to_view (vec3 nought one nought)) nought)
        (column (rotate world_to_view (vec3 nought nought one)) nought)
        (column
          (rotate world_to_view
            (vec3 (f.neg c.position.x) (f.neg c.position.y) (f.neg c.position.z)))
          one)

  -- `width as f32 / height.max(1) as f32`
  unfoldable pub aspect_of : (width height : ℕ) → F
  aspect_of width height = f.of_int (pos width) ⊘ f.of_int (pos (max height 1))

  unfoldable pub lens : (aspect : F) → Projection F → Lens F
  lens aspect (perspective yfov znear far ratio) =
      let zfar = unwrap_or far f.largest in
      let focal_y = one ⊘ f.tan (yfov ⊗ f.literal 5 1) in
      record {
        matrix =
            four (four (focal_y ⊘ aspect) nought nought nought) (four nought focal_y nought nought)
              (four nought nought (zfar ⊘ (znear ⊖ zfar)) (f.neg one))
              (four nought nought (zfar ⊗ znear ⊘ (znear ⊖ zfar)) nought);
        znear = znear;
        zfar = zfar;
      }
  lens aspect (orthographic xmag ymag znear zfar) = record {
    matrix =
        four (four (two ⊘ xmag) nought nought nought) (four nought (two ⊘ ymag) nought nought)
          (four nought nought (one ⊘ (znear ⊖ zfar)) nought)
          (four nought nought (znear ⊘ (znear ⊖ zfar)) one);
    znear = znear;
    zfar = zfar;
  }

  unfoldable pub retained :
      (width height : ℕ) (previous_view_projection : Mat4 F) → Camera F → RetainedCamera F
  unfolding view_of aspect_of lens
  retained width height previous c =
      let view = view_of c in
      let l = lens (aspect_of width height) c.projection in
      let view_projection = multiply_mat4 l.matrix view in
      record {
        view = view;
        projection = l.matrix;
        view_projection = view_projection;
        inverse_view_projection = unwrap_or (invert_mat4 view_projection) identity_mat4;
        position_near = column c.position l.znear;
        forward_far = column (rotate c.rotation (vec3 nought nought (f.neg one))) l.zfar;
        jitter_frame = four nought nought nought nought;
        previous_view_projection = previous;
      }
