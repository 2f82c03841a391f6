-- ===== src/RuntimeAssets/Backend.antt =====
-- `RamImageBackend` of src/runtime_assets.rs: the storage that redb reads and writes, in RAM.
--
-- The image is shared with the owner behind a lock, so a method takes it and returns it. Offsets
-- are u64 and usize is as wide, so `usize::try_from` does not fail. Whether the allocator grants a
-- growth is a parameter.
pub mod Window
pub mod Image
use trueos_picasso.Prelude.{
  ℕ, ◌+◌, ◌-◌, Bool, true, false, not, ◌&&◌, ◌||◌, Option, none, some, List, [], ◌++◌, ltb, leb,
  ◌==◌, if◌then◌else◌, length, take, drop, replicate,
}
use trueos_picasso.Prelude.Result.{Result, ok, err, guard, ok_or, ◌>>=◌, ◌>>◌}
use trueos_picasso.Prelude.Words.{checked_add}

pub data BackendError : Type 0 where
  range_overflow read_out_of_range write_out_of_range cannot_be_resized allocation_failed :
      BackendError

pub record RamImageBackend : Type 0 where
  pub image : List ℕ
  pub growable : Bool

-- `image.get(start..end)`, for a start that is not past the end
abbrev pub get_range : List ℕ → (start end : ℕ) → Option (List ℕ)
get_range image start end =
    if leb end (length image) then some (take (end - start) (drop start image)) else none

-- `image.resize(len, 0)`
abbrev pub resize : (len : ℕ) → List ℕ → List ℕ
resize len image = take len image ++ replicate (len - length image) 0

-- `read` into a buffer of `count` bytes
unfoldable pub read : (offset count : ℕ) → RamImageBackend → Result BackendError (List ℕ)
read offset count b = do
  end ← ok_or (checked_add offset count) range_overflow
  ok_or (get_range b.image offset end) read_out_of_range

unfoldable pub set_len_image :
    (reserves : ℕ → Bool) (len : ℕ) → RamImageBackend → Result BackendError (List ℕ)
set_len_image reserves len b = do
  guard (b.growable || (length b.image == len)) cannot_be_resized
  guard (not (ltb (length b.image) len) || reserves (len - length b.image)) allocation_failed
  ok (resize len b.image)

unfoldable pub write_image : (offset : ℕ) → List ℕ → RamImageBackend → Result BackendError (List ℕ)
write_image offset bytes b = do
  end ← ok_or (checked_add offset (length bytes)) range_overflow
  guard (leb end (length b.image)) write_out_of_range
  ok (take offset b.image ++ (bytes ++ drop end b.image))

-- A method that fails has not changed the image.
abbrev pub commit_image :
    RamImageBackend
    → Result BackendError (List ℕ)
    → Result BackendError (Unit {0}) × RamImageBackend
commit_image b (ok image) = (ok tt, record b { image = image })
commit_image b (err x) = (err x, b)

unfoldable pub set_len :
    (reserves : ℕ → Bool) (len : ℕ)
    → RamImageBackend
    → Result BackendError (Unit {0}) × RamImageBackend
unfolding set_len_image
set_len reserves len b = commit_image b (set_len_image reserves len b)

unfoldable pub write :
    (offset : ℕ) → List ℕ → RamImageBackend → Result BackendError (Unit {0}) × RamImageBackend
unfolding write_image
write offset bytes b = commit_image b (write_image offset bytes b)
