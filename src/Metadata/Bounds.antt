-- ===== src/Metadata/Bounds.antt =====
-- What the metadata of a GLB file that src/glb_metadata.rs accepts say of the file.
use mathlib.Core.Path.{subst}
use trueos_picasso.Prelude.{
  ℕ, ◌+◌, ◌-◌, ◌%◌, ◌≤◌, ◌<◌, ◌≡◌, refl, ap, true, Bool, not, ◌&&◌, Option, some, List, arith, leb,
  ◌==◌, length, take, drop, length-take,
}
use trueos_picasso.Prelude.Result.{ok, guard-ok, ok_or-ok, ok-injective}
use trueos_picasso.Text.{Text, codes, text_eq}
use trueos_picasso.Metadata.{
  io, json, invalid_glb, GlbMetadata, read_exact, header_word, is_version, inspect_glb_reader,
}

read_exact-some :
    (count : ℕ) (reader : List ℕ) {bytes : List ℕ}
    → read_exact count reader ≡ some bytes
    → (count ≤ length reader) × (bytes ≡ take count reader)
read_exact-some count reader h = (ground arith, ground arith)

size_checks :
    (word file_size : ℕ)
    → ((word == file_size) && (file_size % 4 == 0)) ≡ true
    → (word ≡ file_size) × (file_size % 4 ≡ 0)
size_checks word file_size h = ground arith

chunk_checks :
    (magic : Bool) (n file_size : ℕ)
    → (magic && not (n == 0) && (n % 4 == 0) && leb n (file_size - 20)) ≡ true
    → (0 < n) × (n % 4 ≡ 0) × (20 + n ≤ file_size)
chunk_checks magic n file_size h = ground arith

-- Metadata that is returned belongs to a file of a whole number of words that declares its own size;
-- the JSON chunk is not empty, is a whole number of words, lies inside the file behind the 20 bytes
-- of the headers, and is returned byte by byte with what the parser makes of it.
pub inspect_glb_reader_lem :
    {J : Type 0} (from_slice : List ℕ → Option J) (asset_version : J → Option Text)
    (reader : List ℕ) (file_size : ℕ) (m : GlbMetadata J)
    → inspect_glb_reader from_slice asset_version reader file_size ≡ ok m
    → (m.file_size ≡ file_size)
      × (header_word (take 20 reader) 8 ≡ file_size)
      × (file_size % 4 ≡ 0)
      × (0 < m.json_bytes)
      × (m.json_bytes % 4 ≡ 0)
      × (20 + m.json_bytes ≤ file_size)
      × (m.raw_json ≡ take m.json_bytes (drop 20 reader))
      × (length m.raw_json ≡ m.json_bytes)
      × (from_slice m.raw_json ≡ some m.descriptor)
unfolding inspect_glb_reader
inspect_glb_reader_lem {J} from_slice asset_version reader file_size m h =
    let (header, q, h1) = ok_or-ok (read_exact 20 reader) io _ h in
    let (magic, h2) =
      guard-ok (text_eq (take 4 header) (codes "glTF") && (header_word header 4 == 2))
        (invalid_glb "expected GLB version 2") _ h1 in
    let (sizes, h3) =
      guard-ok ((header_word header 8 == file_size) && (file_size % 4 == 0))
        (invalid_glb "declared file length mismatch or alignment") _ h2 in
    let n : ℕ = header_word header 12 in
    let (chunk, h4) =
      guard-ok
        (text_eq (take 4 (drop 16 header)) (codes "JSON")
          && not (n == 0)
          && (n % 4 == 0)
          && leb n (file_size - 20))
        (invalid_glb "invalid first JSON chunk") _ h3 in
    let (raw, q', h5) = ok_or-ok (read_exact n (drop 20 reader)) io _ h4 in
    let (descriptor, parsed, h6) = ok_or-ok (from_slice raw) json _ h5 in
    let (_, h7) =
      guard-ok (is_version (asset_version descriptor) (codes "2.0"))
        (invalid_glb "descriptor asset.version must be 2.0") _ h6 in
    let (declared, whole) = size_checks (header_word header 8) file_size sizes in
    let (some_bytes, words, inside) =
      chunk_checks (text_eq (take 4 (drop 16 header)) (codes "JSON")) n file_size chunk in
    let (_, head) = read_exact-some 20 reader q in
    let (long, body) = read_exact-some n (drop 20 reader) q' in
    subst
      (λ (x : GlbMetadata J).
        (x.file_size ≡ file_size)
        × (header_word (take 20 reader) 8 ≡ file_size)
        × (file_size % 4 ≡ 0)
        × (0 < x.json_bytes)
        × (x.json_bytes % 4 ≡ 0)
        × (20 + x.json_bytes ≤ file_size)
        × (x.raw_json ≡ take x.json_bytes (drop 20 reader))
        × (length x.raw_json ≡ x.json_bytes)
        × (from_slice x.raw_json ≡ some x.descriptor))
      (ok-injective h7)
      (
        refl,
        subst (λ t. header_word t 8 ≡ file_size) head declared,
        whole,
        some_bytes,
        words,
        inside,
        body,
        omega (arith, ap length body, length-take n (drop 20 reader)),
        parsed,
      )
