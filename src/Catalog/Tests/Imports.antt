-- ===== src/Catalog/Tests/Imports.antt =====
-- Runs of the import of src/glTFredb.rs: a document with a binary buffer and a scene.
use mathlib.Core.Path.{subst}
use trueos_picasso.Prelude.{
  ℕ, ◌≡◌, ◌↔◌, refl, Option, none, some, List, [], ◌∷◌, ◌++◌, arith, length, take, drop,
}
use trueos_picasso.Prelude.Result.{Result, ok}
use trueos_picasso.Text.Split.{text_eq_iff}
use trueos_picasso.Redb.Assoc.{assoc_table-IsReliable}
use trueos_picasso.Text.{Text, codes, decimal, text_eq}
use trueos_picasso.Catalog.Types.{Error, complete, Codec, Store}
use trueos_picasso.Redb.Chunked.{insert_chunks, chunks}
use trueos_picasso.Catalog.Keys.{revision_key}
use trueos_picasso.Catalog.Blobs.{put_blob}
use trueos_picasso.Catalog.Tracking.{insert_if_missing, insert_missing, insert_missing_tracking}
use trueos_picasso.Catalog.Import.Writes.{revision_prefix, eid, roots_key, source_blob_key}
use trueos_picasso.Catalog.Import.Loads.{stored_blob}
use trueos_picasso.Catalog.Import.Source.{blob-import}
use trueos_picasso.Catalog.Reading.{revision}
use trueos_picasso.Catalog.Import.Items.{bin, Gltf}
use trueos_picasso.Catalog.Import.Records.{Asset, Scene, Buffer, RecordCodecs}
use trueos_picasso.Catalog.Import.Parsing.{Prepared, parse}
use trueos_picasso.Catalog.Import.Payloads.{Payloads, parse_iff}
use trueos_picasso.Catalog.Import.Publish.{Published, import-Published}
use trueos_picasso.Catalog.Import.History.{start, revision-Imports}
use trueos_picasso.Catalog.Import.{asset_key, revision_record, import}
use trueos_picasso.Catalog.Tests.{T, serde, engine, engine-IsGranting}

pub opened : {a b : List ℕ} → some a ≡ some b → a ≡ b
opened q = cc

-- A codec that refuses every value.
abbrev refusing : {A : Type 0} → Codec A
refusing = record { to_vec = λ a. none; from_slice = λ b. none }

abbrev unpack_counter : List ℕ → Option ℕ
unpack_counter (n ∷ []) = some n
unpack_counter _ = none

abbrev unpack_asset : List ℕ → Option Asset
unpack_asset (a ∷ b ∷ id) = some (record { encoding = a; id = id; latest_revision = b })
unpack_asset _ = none

abbrev pack_name : Option Text → List ℕ
pack_name none = []
pack_name (some name) = 1 ∷ name

abbrev unpack_name : List ℕ → Option Text
unpack_name [] = none
unpack_name (x ∷ name) = some name

abbrev pack_scene : Scene → List ℕ
pack_scene s = s.encoding ∷ length s.id ∷ (s.id ++ pack_name s.name)

abbrev unpack_scene : List ℕ → Option Scene
unpack_scene (a ∷ n ∷ rest) =
    some (record { encoding = a; id = take n rest; name = unpack_name (drop n rest) })
unpack_scene _ = none

abbrev pack_buffer : Buffer → List ℕ
pack_buffer b = b.encoding ∷ b.byte_length ∷ length b.id ∷ (b.id ++ b.blob)

abbrev unpack_buffer : List ℕ → Option Buffer
unpack_buffer (a ∷ l ∷ n ∷ rest) =
    some (record { encoding = a; byte_length = l; id = take n rest; blob = drop n rest })
unpack_buffer _ = none

abbrev pack_roots : List Text → Option (List ℕ)
pack_roots [] = some []
pack_roots _ = none

abbrev of_pack : {A : Type 0} → (pack : A → List ℕ) (unpack : List ℕ → Option A) → Codec A
of_pack pack unpack = record { to_vec = λ a. some (pack a); from_slice = unpack }

abbrev pub rc : RecordCodecs ℕ
rc = record {
  counter = of_pack (λ n. n ∷ []) unpack_counter;
  asset = of_pack (λ (a : Asset). a.encoding ∷ a.latest_revision ∷ a.id) unpack_asset;
  scene = of_pack pack_scene unpack_scene;
  roots = record { to_vec = pack_roots; from_slice = λ b. some [] };
  node = refusing;
  camera = refusing;
  mesh = refusing;
  primitive = refusing;
  accessor = refusing;
  buffer_view = refusing;
  buffer = of_pack pack_buffer unpack_buffer;
  counter_exact = record {
    from_slice-to_vec = λ n q. subst (λ x. unpack_counter x ≡ some n) (opened q) refl;
  };
  asset_exact = record {
    from_slice-to_vec = λ a q. subst (λ x. unpack_asset x ≡ some a) (opened q) refl;
  };
}

abbrev pub box : Gltf ℕ
box = record {
  document = record {
    buffers = record { index = 0; source = bin; length = 2 } ∷ [];
    scenes = record { index = 0; name = some (codes "s"); nodes = [] } ∷ [];
    nodes = [];
    cameras = [];
    meshes = [];
    accessors = [];
    views = [];
  };
  blob = some (8 ∷ 9 ∷ []);
}

abbrev pub accepts : List ℕ → Option (Gltf ℕ)
accepts source = some box

abbrev pub no_base64 : Text → Option (List ℕ)
no_base64 t = none

abbrev pub no_files : Text → Option (List ℕ)
no_files path = none

abbrev pub empty_store : Store T
empty_store = record {
  meta = none;
  records = none;
  blobs = none;
  tracking = none;
  derived = none;
  derived_blobs = none;
}

abbrev pub run : Store T → Result Error ℕ × Store T
run d = import T engine serde rc accepts no_base64 (codes "a") (7 ∷ []) no_files d

pub run_ok : run empty_store ≡ (ok 1, (run empty_store).1)
unfolding import parse put_blob insert_chunks chunks insert_missing_tracking insert_missing
    insert_if_missing revision_prefix revision_key decimal text_eq asset_key roots_key eid
run_ok = refl

import-Published_example :
    Published T engine serde rc 1 (codes "a") (7 ∷ []) empty_store (run empty_store).1
import-Published_example =
    import-Published T engine serde rc accepts no_base64 (codes "a") (7 ∷ []) no_files empty_store
      run_ok

revision-Imports_example :
    revision T engine serde 1 (run empty_store).1
    ≡ ok (revision_record T engine serde rc 1 (codes "a") complete)
revision-Imports_example =
    revision-Imports T engine serde rc (assoc_table-IsReliable text_eq text_eq_iff)
      engine-IsGranting accepts no_base64 (codes "a") (7 ∷ []) no_files empty_store run_ok start
      (omega arith)

blob-import_example :
    stored_blob T engine 2 (source_blob_key 1) (run empty_store).1 ≡ some (ok (7 ∷ []))
blob-import_example =
    blob-import T engine serde rc (assoc_table-IsReliable text_eq text_eq_iff) engine-IsGranting
      accepts no_base64 (codes "a") (7 ∷ []) no_files empty_store 2 run_ok refl (omega arith)

abbrev prepared : Prepared ℕ
prepared = record { doc = box.document; buffers = (8 ∷ 9 ∷ []) ∷ [] }

parse_iff_example : (parse no_base64 no_files accepts (7 ∷ []) ≡ ok prepared) ↔ (
    (g : Gltf ℕ) × (accepts (7 ∷ []) ≡ some g)
    × (prepared.doc ≡ g.document)
    × Payloads no_base64 no_files g.blob g.document.buffers prepared.buffers)
parse_iff_example = parse_iff no_base64 no_files accepts (7 ∷ []) prepared
