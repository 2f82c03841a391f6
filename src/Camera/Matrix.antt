-- ===== src/Camera/Matrix.antt =====
-- The matrices of src/cam.rs: `multiply_mat4`, `invert_mat4` and `identity_mat4`.
--
-- `[f32; 16]` holds four columns, `[[f32; 8]; 4]` four rows of two halves. The loops of the source
-- run over the indices 0..4, so an index has four values and none is out of range.
use trueos_picasso.Prelude.{Bool, true, false, Option, none, some, List, [], ◌∷◌, if◌then◌else◌}
use trueos_picasso.Prelude.Words.{and_then}
use trueos_picasso.Prelude.Floats.{Float, ◌⊖◌, ◌⊗◌, ◌⊘◌, nought, one}

pub data Index : Type 0 where
  i0 i1 i2 i3 : Index

pub record Four {ℓ} (A : Type ℓ) : Type ℓ where
  pub n0 : A
  pub n1 : A
  pub n2 : A
  pub n3 : A

-- Column, then row: `m[column * 4 + row]`.
abbrev pub Mat4 {ℓ} : Type ℓ → Type ℓ
Mat4 F = Four (Four F)

-- `0..4`, and `pivot_column + 1..4`
abbrev pub indices : List Index
indices = i0 ∷ i1 ∷ i2 ∷ i3 ∷ []

abbrev pub after : Index → List Index
after i0 = i1 ∷ i2 ∷ i3 ∷ []
after i1 = i2 ∷ i3 ∷ []
after i2 = i3 ∷ []
after i3 = []

abbrev pub same : Index → Index → Bool
same i0 i0 = true
same i1 i1 = true
same i2 i2 = true
same i3 i3 = true
same _ _ = false

abbrev pub tabulate {ℓ} : {A : Type ℓ} → (Index → A) → Four A
tabulate h = record { n0 = h i0; n1 = h i1; n2 = h i2; n3 = h i3 }

abbrev pub at {ℓ} : {A : Type ℓ} → Four A → Index → A
at v i0 = v.n0
at v i1 = v.n1
at v i2 = v.n2
at v i3 = v.n3

abbrev pub each {ℓ κ} : {A : Type ℓ} {B : Type κ} → (A → B) → List A → List B
each h [] = []
each h (x ∷ xs) = h x ∷ each h xs

abbrev pub swap {ℓ} : {A : Type ℓ} → Index → Index → Four A → Four A
swap i j v = tabulate λ k. if same k i then at v j else if same k j then at v i else at v k

-- A row of the augmented matrix: the matrix's half, and the identity's.
pub record Row {ℓ} (F : Type ℓ) : Type ℓ where
  pub left : Four F
  pub right : Four F

abbrev pub map_row {ℓ} : {F : Type ℓ} → (F → F) → Row F → Row F
map_row h r = record {
  left = tabulate λ i. h (at r.left i);
  right = tabulate λ i. h (at r.right i);
}

module _ {ℓ} {F : Type ℓ} ⦃f : Float F⦄ where
  unfoldable pub multiply_mat4 : (left right : Mat4 F) → Mat4 F
  multiply_mat4 left right = tabulate λ column.
      tabulate
        λ row. f.sum (each (λ inner. at (at left inner) row ⊗ at (at right column) inner) indices)

  unfoldable pub identity_mat4 : Mat4 F
  identity_mat4 = tabulate λ column. tabulate λ row. if same column row then one else nought

  unfoldable pub augment : Mat4 F → Four (Row F)
  augment matrix = tabulate λ row. record {
    left = tabulate λ column. at (at matrix column) row;
    right = tabulate λ column. if same row column then one else nought;
  }

  -- The candidate with the largest entry in the column, the first of several.
  unfoldable pub pivot_row :
      (pivot_column : Index) → Four (Row F) → (best : Index) → List Index → Index
  pivot_row c m best [] = best
  pivot_row c m best (i ∷ rest) =
      let next =
        if f.gt (f.abs (at (at m i).left c)) (f.abs (at (at m best).left c)) then i else best in
      pivot_row c m next rest

  -- `augmented[row][column] -= factor * augmented[pivot_column][column]`
  abbrev pub subtract_row : (factor : F) → (pivot row : Row F) → Row F
  subtract_row factor p r = record {
    left = tabulate λ i. at r.left i ⊖ factor ⊗ at p.left i;
    right = tabulate λ i. at r.right i ⊖ factor ⊗ at p.right i;
  }

  unfoldable pub eliminate : (pivot_column : Index) → Four (Row F) → Option (Four (Row F))
  unfolding pivot_row
  eliminate c m =
      let best = pivot_row c m c (after c) in
      let pivot = at (at m best).left c in
      let swapped = swap c best m in
      let scaled = map_row (λ x. x ⊘ pivot) (at swapped c) in
      let cleared = tabulate λ row.
        if same row c
        then scaled
        else subtract_row (at (at swapped row).left c) scaled (at swapped row) in
      if f.le (f.abs pivot) f.epsilon then none else some cleared

  unfoldable pub eliminate_all : List Index → Four (Row F) → Option (Four (Row F))
  unfolding eliminate
  eliminate_all [] m = some m
  eliminate_all (c ∷ rest) m = and_then (eliminate c m) (eliminate_all rest)

  abbrev pub read_inverse : Four (Row F) → Mat4 F
  read_inverse m = tabulate λ column. tabulate λ row. at (at m row).right column

  unfoldable pub invert_mat4 : Mat4 F → Option (Mat4 F)
  unfolding augment eliminate_all
  invert_mat4 matrix = and_then (eliminate_all indices (augment matrix)) λ m. some (read_inverse m)
