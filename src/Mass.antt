-- ===== src/Mass.antt =====
-- src/nosql.rs, objects in files with a catalog: here the records, `encode_record` and `decode_record`.
--
-- `as_bytes` and `str::from_utf8` of Rust's library are a parameter, as what they are to each other.
pub mod Codec
pub mod Files
pub mod Catalog
pub mod Store
mod Tests
use trueos_picasso.Prelude.{
  ℕ, zero, suc, ◌+◌, ◌-◌, ◌*◌, ◌/◌, ◌%◌, ◌≡◌, Bool, true, false, Option, none, some, List, [], ◌∷◌,
  ◌++◌, leb, ◌==◌, if◌then◌else◌, length, take, drop,
}
use trueos_picasso.Prelude.Result.{Result, ok, err, guard, ok_or, ◌>>=◌, ◌>>◌}
use trueos_picasso.Text.{Text}

pub data MassError : Type 0 where
  transaction table storage commit io : MassError
  not_found : ℕ → MassError
  invalid_label invalid_record invalid_range : MassError

pub record ObjectInfo : Type 0 where
  pub id : ℕ
  pub byte_length : ℕ
  pub label : Text

-- `RECORD_VERSION`
abbrev pub record_version : ℕ
record_version = 1

pub record Utf8 : Type 0 where
  pub as_bytes : Text → List ℕ
  pub from_utf8 : List ℕ → Option Text
  pub from_utf8-as_bytes : (s : Text) → from_utf8 (as_bytes s) ≡ some s
  pub as_bytes-from_utf8 :
      (bytes : List ℕ) {s : Text} → from_utf8 bytes ≡ some s → as_bytes s ≡ bytes

-- `to_le_bytes` of a number of `width` bytes, and `from_le_bytes`
unfoldable pub to_le_bytes : (width n : ℕ) → List ℕ
to_le_bytes zero n = []
to_le_bytes (suc width) n = n % 256 ∷ to_le_bytes width (n / 256)

unfoldable pub from_le_bytes : List ℕ → ℕ
from_le_bytes [] = 0
from_le_bytes (b ∷ bytes) = b + 256 * from_le_bytes bytes

-- `record.get(start..end)` and `record.get(start..)`
abbrev pub slice_range : List ℕ → (start end : ℕ) → Option (List ℕ)
slice_range bytes start end =
    if leb end (length bytes) then some (take (end - start) (drop start bytes)) else none

abbrev pub slice_from : List ℕ → (start : ℕ) → Option (List ℕ)
slice_from bytes start = if leb start (length bytes) then some (drop start bytes) else none

module _ (u : Utf8) where
  unfoldable pub encode_record : (byte_length : ℕ) (label : Text) → List ℕ
  encode_record byte_length label =
      to_le_bytes 2 record_version ++ (to_le_bytes 8 byte_length ++ u.as_bytes label)

  unfoldable pub decode_record : (id : ℕ) → List ℕ → Result MassError ObjectInfo
  decode_record id bytes = do
    version ← ok_or (slice_range bytes 0 2) invalid_record
    guard (from_le_bytes version == record_version) invalid_record
    measure ← ok_or (slice_range bytes 2 10) invalid_record
    rest ← ok_or (slice_from bytes 10) invalid_record
    label ← ok_or (u.from_utf8 rest) invalid_record
    ok (record { id = id; byte_length = from_le_bytes measure; label = label })
