-- ===== src/RuntimeAssets/Backend/Image.antt =====
-- What the RAM image of src/runtime_assets.rs reads after it was written or resized.
use mathlib.Core.Path.{subst}
use trueos_picasso.Prelude.{
  ℕ, ◌+◌, ◌-◌, ◌≤◌, ◌<◌, ◌≡◌, ◌⊎◌, ◌↔◌, inl, inr, refl, ap, sym, ◌∙◌, Bool, true, List, arith,
  length, replicate,
}
use trueos_picasso.Prelude.Result.{Result, ok, err}
use trueos_picasso.Prelude.Words.{word}
use trueos_picasso.RuntimeAssets.Backend.{
  BackendError, RamImageBackend, resize, read, write_image, write, set_len_image, set_len,
  commit_image,
}
use trueos_picasso.RuntimeAssets.Backend.Window.{
  window, written, length-written, window-written, window_apart, length-resize, window-resize,
  window-resize_zero,
}

-- A read succeeds exactly if its range lies inside the image and does not overflow, and then fills
-- the buffer with the bytes of that range.
read_iff :
    (offset count : ℕ) (b : RamImageBackend) (bytes : List ℕ)
    → (read offset count b ≡ ok bytes) ↔ (
        (offset + count < word)
        × (offset + count ≤ length b.image)
        × (bytes ≡ window offset count b.image))
unfolding read
read_iff offset count b bytes =
    (λ h. (ground arith, ground arith, bytes_of h), λ p. ground (arith, p, len))
  where
    len : offset + count - offset ≡ count
    len = omega arith

    bytes_of : read offset count b ≡ ok bytes → bytes ≡ window offset count b.image
    bytes_of h = ground (arith, len)

-- What a successful write leaves.
write_image-ok :
    (offset : ℕ) (bytes : List ℕ) (b : RamImageBackend) {image : List ℕ}
    → write_image offset bytes b ≡ ok image
    → (offset + length bytes < word)
      × (offset + length bytes ≤ length b.image)
      × (written offset bytes b.image ≡ image)
unfolding write_image
write_image-ok offset bytes b h = (ground arith, ground arith, ground arith)

read-window :
    (offset count : ℕ) (b : RamImageBackend)
    → offset + count < word
    → offset + count ≤ length b.image
    → read offset count b ≡ ok (window offset count b.image)
read-window offset count b small fits =
    (read_iff offset count b (window offset count b.image)).1 (small, fits, refl)

-- Images of one length whose window is the same are read the same there, in range or not.
read-same :
    (offset count : ℕ) (b b' : RamImageBackend)
    → length b'.image ≡ length b.image
    → window offset count b'.image ≡ window offset count b.image
    → read offset count b' ≡ read offset count b
unfolding read
read-same offset count b b' len same =
    let width : offset + count - offset ≡ count = omega arith in ground (arith, len, same, width)

-- A write that succeeds lies inside the image, reads back exactly, keeps the length of the image, and
-- changes no range apart from its own; one that fails leaves the image as it was.
pub read-write :
    (offset : ℕ) (bytes : List ℕ) (b b' : RamImageBackend)
    → (write offset bytes b ≡ (ok tt, b')
        → (read offset (length bytes) b' ≡ ok bytes)
          × (length b'.image ≡ length b.image)
          × ((p n : ℕ) → (p + n ≤ offset) ⊎ (offset + length bytes ≤ p) → read p n b' ≡ read p n b))
      × ((x : BackendError) → write offset bytes b ≡ (err x, b') → b ≡ b')
unfolding write
read-write offset bytes b b' = (
  λ ran. stored (write_image offset bytes b) refl ran,
  λ x ran. failed (write_image offset bytes b) ran,
)
  where
    failed :
        (r : Result BackendError (List ℕ)) {x : BackendError}
        → commit_image b r ≡ (err x, b')
        → b ≡ b'
    failed (ok image) h = absurd (cc)
    failed (err x) h = cc

    after : RamImageBackend
    after = record b { image = written offset bytes b.image }

    leads :
        (image : List ℕ)
        → written offset bytes b.image ≡ image
        → commit_image b (ok image) ≡ (ok tt, b')
        → after ≡ b'
    leads image same h = cc

    stored :
        (r : Result BackendError (List ℕ))
        → write_image offset bytes b ≡ r
        → commit_image b r ≡ (ok tt, b')
        → (read offset (length bytes) b' ≡ ok bytes)
          × (length b'.image ≡ length b.image)
          × ((p n : ℕ) → (p + n ≤ offset) ⊎ (offset + length bytes ≤ p) → read p n b' ≡ read p n b)
    stored (err x) q h = absurd (cc)
    stored (ok image) q h =
        let (small, fits, same) = write_image-ok offset bytes b q in
        let len = length-written offset bytes b.image fits in
        subst
          (λ (x : RamImageBackend).
            (read offset (length bytes) x ≡ ok bytes)
            × (length x.image ≡ length b.image)
            × ((p n : ℕ)
                → (p + n ≤ offset) ⊎ (offset + length bytes ≤ p)
                → read p n x ≡ read p n b))
          (leads image same h)
          (
            read-window offset (length bytes) after small (omega (arith, len))
                ∙ ap ok (window-written offset bytes b.image fits),
            len,
            λ p n apart.
                read-same p n b after len (window_apart offset bytes b.image fits p n apart),
          )

set_len_image-ok :
    (reserves : ℕ → Bool) (len : ℕ) (b : RamImageBackend) {image : List ℕ}
    → set_len_image reserves len b ≡ ok image
    → ((b.growable ≡ true) ⊎ (length b.image ≡ len)) × (resize len b.image ≡ image)
unfolding set_len_image
set_len_image-ok reserves len b h = (ground arith, ground arith)

-- A resize that succeeds gives the image the length asked for, keeps every range that lies in both
-- images, and fills the rest with zeros; a prepared image, which is not growable, only ever keeps its
-- length. A resize that fails leaves the image as it was.
set_len_lem :
    (reserves : ℕ → Bool) (len : ℕ) (b b' : RamImageBackend)
    → (set_len reserves len b ≡ (ok tt, b')
        → (length b'.image ≡ len)
          × ((b.growable ≡ true) ⊎ (length b'.image ≡ length b.image))
          × ((p n : ℕ)
              → p + n ≤ len
              → p + n ≤ length b.image
              → window p n b'.image ≡ window p n b.image)
          × (window (length b.image) (len - length b.image) b'.image
              ≡ replicate (len - length b.image) 0))
      × ((x : BackendError) → set_len reserves len b ≡ (err x, b') → b ≡ b')
unfolding set_len
set_len_lem reserves len b b' = (
  λ ran. resized (set_len_image reserves len b) refl ran,
  λ x ran. failed (set_len_image reserves len b) ran,
)
  where
    failed :
        (r : Result BackendError (List ℕ)) {x : BackendError}
        → commit_image b r ≡ (err x, b')
        → b ≡ b'
    failed (ok image) h = absurd (cc)
    failed (err x) h = cc

    leads :
        (image : List ℕ)
        → resize len b.image ≡ image
        → commit_image b (ok image) ≡ (ok tt, b')
        → resize len b.image ≡ b'.image
    leads image same h = cc

    resized :
        (r : Result BackendError (List ℕ))
        → set_len_image reserves len b ≡ r
        → commit_image b r ≡ (ok tt, b')
        → (length b'.image ≡ len)
          × ((b.growable ≡ true) ⊎ (length b'.image ≡ length b.image))
          × ((p n : ℕ)
              → p + n ≤ len
              → p + n ≤ length b.image
              → window p n b'.image ≡ window p n b.image)
          × (window (length b.image) (len - length b.image) b'.image
              ≡ replicate (len - length b.image) 0)
    resized (err x) q h = absurd (cc)
    resized (ok image) q h =
        let (grows, same) = set_len_image-ok reserves len b q in
        subst
          (λ (x : List ℕ).
            (length x ≡ len)
            × ((b.growable ≡ true) ⊎ (length x ≡ length b.image))
            × ((p n : ℕ) → p + n ≤ len → p + n ≤ length b.image → window p n x ≡ window p n b.image)
            × (window (length b.image) (len - length b.image) x
                ≡ replicate (len - length b.image) 0))
          (leads image same h)
          (
            length-resize len b.image,
            elim grows [ inl g ↦ inl g | inr g ↦ inr (length-resize len b.image ∙ sym g) ],
            window-resize len b.image,
            window-resize_zero len b.image,
          )
