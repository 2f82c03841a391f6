-- ===== src/Catalog/Import/Parsing.antt =====
-- `Prepared::parse` of src/glTFredb.rs: the document, and the bytes of each of its buffers.
--
-- `Gltf::from_slice` and the base64 engine are parameters. The external payloads are a map that is
-- only looked up.
use trueos_picasso.Prelude.{ℕ, Option, none, some, List, [], ◌∷◌, leb, ◌==◌, if◌then◌else◌, length}
use trueos_picasso.Prelude.Result.{Result, ok, guard, ok_or, ◌>>=◌, ◌>>◌}
use trueos_picasso.Text.{Text, codes}
use trueos_picasso.Catalog.Types.{Error, gltf, data_uri, missing_buffer, buffer_length}
use trueos_picasso.Catalog.Import.Items.{Source, bin, uri, BufferDoc, Document, Gltf}

pub record Prepared {ℓ} (F : Type ℓ) : Type ℓ where
  pub doc : Document F
  pub buffers : List (List ℕ)

-- `s.strip_prefix(prefix)`
abbrev pub strip_prefix : (prefix s : Text) → Option Text
strip_prefix [] s = some s
strip_prefix (c ∷ prefix) [] = none
strip_prefix (c ∷ prefix) (x ∷ s) = if c == x then strip_prefix prefix s else none

-- What follows the first such character, of `s.split_once(c)`.
abbrev pub after_first : (c : ℕ) (s : Text) → Option Text
after_first c [] = none
after_first c (x ∷ s) = if x == c then some s else after_first c s

abbrev pub or_default : Option (List ℕ) → List ℕ
or_default none = []
or_default (some bytes) = bytes

module _ (decode_base64 : Text → Option (List ℕ)) (external : Text → Option (List ℕ)) where
  unfoldable pub read_uri : (path : Text) → Option Text → Result Error (List ℕ)
  read_uri path (some rest) = do
    b64 ← ok_or (after_first b',' rest) data_uri
    ok_or (decode_base64 b64) data_uri
  read_uri path none = ok_or (external path) (missing_buffer path)

  unfoldable pub read_source : Option (List ℕ) → Source → Result Error (List ℕ)
  unfolding read_uri
  read_source blob bin = ok (or_default blob)
  read_source blob (uri u) = read_uri u (strip_prefix (codes "data:") u)

  unfoldable pub read_buffer : Option (List ℕ) → BufferDoc → Result Error (List ℕ)
  unfolding read_source
  read_buffer blob b = do
    bytes ← read_source blob b.source
    guard (leb b.length (length bytes)) (buffer_length b.index (length bytes) b.length)
    ok bytes

  unfoldable pub read_buffers : Option (List ℕ) → List BufferDoc → Result Error (List (List ℕ))
  unfolding read_buffer
  read_buffers blob [] = ok []
  read_buffers blob (b ∷ rest) = do
    bytes ← read_buffer blob b
    others ← read_buffers blob rest
    ok (bytes ∷ others)

  unfoldable pub parse {ℓ} :
      {F : Type ℓ}
      → (from_slice : List ℕ → Option (Gltf F)) (source : List ℕ) → Result Error (Prepared F)
  unfolding read_buffers
  parse from_slice source = do
    g ← ok_or (from_slice source) gltf
    buffers ← read_buffers g.blob g.document.buffers
    ok (record { doc = g.document; buffers = buffers })
