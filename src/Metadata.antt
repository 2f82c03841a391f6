-- ===== src/Metadata.antt =====
-- `inspect_glb_reader` of src/glb_metadata.rs: the header and the JSON chunk of a GLB file.
--
-- The reader is the bytes that it has; serde_json's parser and the lookup of `asset.version` in its
-- value are parameters.
pub mod Bounds
mod Tests
use Prim.Native.String.{String}
use trueos_picasso.Prelude.{
  ℕ, ◌-◌, ◌%◌, Bool, true, false, not, ◌&&◌, Option, none, some, List, leb, ◌==◌, if◌then◌else◌,
  length, take, drop,
}
use trueos_picasso.Prelude.Result.{Result, ok, err, guard, ok_or, ◌>>=◌, ◌>>◌}
use trueos_picasso.Text.{Text, codes, text_eq}
use trueos_picasso.Mass.{from_le_bytes}

pub data MetadataError : Type 0 where
  io json : MetadataError
  invalid_glb : String → MetadataError

pub record GlbMetadata (J : Type 0) : Type 0 where
  pub file_size : ℕ
  pub json_bytes : ℕ
  pub raw_json : List ℕ
  pub descriptor : J

-- `read_exact` of so many bytes, from a reader that has these
abbrev pub read_exact : (count : ℕ) → List ℕ → Option (List ℕ)
read_exact count reader = if leb count (length reader) then some (take count reader) else none

-- `word`: the u32 at an offset of the header
abbrev pub header_word : List ℕ → (offset : ℕ) → ℕ
header_word header offset = from_le_bytes (take 4 (drop offset header))

abbrev pub is_version : Option Text → Text → Bool
is_version none v = false
is_version (some found) v = text_eq found v

unfoldable pub inspect_glb_reader :
    {J : Type 0} (from_slice : List ℕ → Option J) (asset_version : J → Option Text)
    (reader : List ℕ) (file_size : ℕ)
    → Result MetadataError (GlbMetadata J)
inspect_glb_reader from_slice asset_version reader file_size = do
  header ← ok_or (read_exact 20 reader) io
  guard (text_eq (take 4 header) (codes "glTF") && (header_word header 4 == 2))
      (invalid_glb "expected GLB version 2")
  guard ((header_word header 8 == file_size) && (file_size % 4 == 0))
      (invalid_glb "declared file length mismatch or alignment")
  let json_bytes = header_word header 12
  guard
      (text_eq (take 4 (drop 16 header)) (codes "JSON")
        && not (json_bytes == 0)
        && (json_bytes % 4 == 0)
        && leb json_bytes (file_size - 20))
      (invalid_glb "invalid first JSON chunk")
  raw_json ← ok_or (read_exact json_bytes (drop 20 reader)) io
  descriptor ← ok_or (from_slice raw_json) json
  guard (is_version (asset_version descriptor) (codes "2.0"))
      (invalid_glb "descriptor asset.version must be 2.0")
  ok (record {
    file_size = file_size;
    json_bytes = json_bytes;
    raw_json = raw_json;
    descriptor = descriptor;
  })
