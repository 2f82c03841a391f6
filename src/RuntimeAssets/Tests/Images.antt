-- ===== src/RuntimeAssets/Tests/Images.antt =====
-- Runs of the RAM image of src/runtime_assets.rs.
use trueos_picasso.Prelude.{ℕ, ◌+◌, ◌≤◌, ◌≡◌, ◌⊎◌, true, [], ◌∷◌, length}
use trueos_picasso.Prelude.Result.{ok, err}
use trueos_picasso.RuntimeAssets.Backend.{BackendError, RamImageBackend, read, write}
use trueos_picasso.RuntimeAssets.Backend.Image.{read-write}

abbrev four : RamImageBackend
four = record { image = 1 ∷ 2 ∷ 3 ∷ 4 ∷ []; growable = true }

abbrev overwritten : RamImageBackend
overwritten = record four { image = 1 ∷ 8 ∷ 9 ∷ 4 ∷ [] }

abbrev grown : RamImageBackend
grown = record four { image = 1 ∷ 2 ∷ 3 ∷ 4 ∷ 0 ∷ 0 ∷ [] }

read-write_example :
    (write 1 (8 ∷ 9 ∷ []) four ≡ (ok tt, overwritten)
      → (read 1 2 overwritten ≡ ok (8 ∷ 9 ∷ []))
        × (length overwritten.image ≡ length four.image)
        × ((p n : ℕ) → (p + n ≤ 1) ⊎ (3 ≤ p) → read p n overwritten ≡ read p n four))
    × ((x : BackendError) → write 1 (8 ∷ 9 ∷ []) four ≡ (err x, overwritten) → four ≡ overwritten)
read-write_example = read-write 1 (8 ∷ 9 ∷ []) four overwritten
