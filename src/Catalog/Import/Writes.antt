-- ===== src/Catalog/Import/Writes.antt =====
-- What an import writes for each item of a document, in src/glTFredb.rs.
use Prim.Native.String.{String}
use trueos_picasso.Prelude.{ℕ, ◌+◌, Bool, List, [], ◌∷◌, ◌++◌, length}
use trueos_picasso.Prelude.Result.{Result, ok, guard, ok_or, ◌>>=◌, ◌>>◌}
use trueos_picasso.Redb.{Table}
use trueos_picasso.Text.{Text, codes, decimal}
use trueos_picasso.Camera.{Projection}
use trueos_picasso.Catalog.Types.{Error, table, storage, Codec, encode}
use trueos_picasso.Catalog.Blobs.{put_blob}
use trueos_picasso.Catalog.Import.Items.{
  Lens, perspective, orthographic, SceneDoc, NodeDoc, CameraDoc, PrimitiveDoc, MeshDoc, AccessorDoc,
  ViewDoc, Document,
}
use trueos_picasso.Catalog.Import.Collect.{map_option, each, each_index, collect_map}
use trueos_picasso.Catalog.Import.Records.{RecordCodecs}

-- `format!("r/{revision_id}")`
unfoldable pub revision_prefix : ℕ → Text
revision_prefix revision = codes "r/" ++ decimal revision

-- `eid`
unfoldable pub eid : (revision : ℕ) (kind : Text) (index : ℕ) → Text
unfolding revision_prefix
eid revision kind index =
    revision_prefix revision ++ (codes "/" ++ (kind ++ (codes "/" ++ decimal index)))

-- `format!("{prefix}/blob/source")` and `format!("{prefix}/blob/buffer/{i}")`
unfoldable pub source_blob_key : ℕ → Text
source_blob_key revision = revision_prefix revision ++ codes "/blob/source"

unfoldable pub buffer_blob_key : (revision index : ℕ) → Text
buffer_blob_key revision i = revision_prefix revision ++ (codes "/blob/buffer/" ++ decimal i)

-- `format!("{id}/roots")` and `format!("{id}/primitive/{i}")`
unfoldable pub roots_key : Text → Text
roots_key id = id ++ codes "/roots"

unfoldable pub primitive_key : Text → ℕ → Text
primitive_key id i = id ++ (codes "/primitive/" ++ decimal i)

-- The conversion of gltf's projection
abbrev pub projection_of {ℓ} : {F : Type ℓ} → Lens F → Projection F
projection_of (perspective yfov znear zfar aspect_ratio) =
    Projection.perspective yfov znear zfar aspect_ratio
projection_of (orthographic xmag ymag znear zfar) = Projection.orthographic xmag ymag znear zfar

-- A fallible `for` loop over a state, and over the items with their positions.
abbrev pub for_each {ℓ} :
    {A : Type ℓ} {S : Type 0} → (A → S → Result Error S) → List A → S → Result Error S
for_each f [] s = ok s
for_each f (x ∷ xs) s = do s' ← f x s; for_each f xs s'

abbrev pub for_each_index {ℓ} :
    {A : Type ℓ} {S : Type 0} → (ℕ → A → S → Result Error S) → ℕ → List A → S → Result Error S
for_each_index f i [] s = ok s
for_each_index f i (x ∷ xs) s = do s' ← f i x s; for_each_index f (i + 1) xs s'

module _ (T : Table Text (List ℕ)) where
  -- The tables of records and of blobs as the transaction has them.
  pub record Batch : Type 0 where
    pub records : T.State
    pub blobs : T.State

  unfoldable pub put : {A : Type 0} → Codec A → (key : Text) → A → Batch → Result Error Batch
  put c key value b = do
    bytes ← encode c value
    s ← ok_or (T.insert b.records key bytes) storage
    ok (record b { records = s })

  -- `opens` is whether the table of blobs opens.
  unfoldable pub put_blob_in :
      (opens : Bool) (id : Text) (bytes : List ℕ) → Batch → Result Error Batch
  put_blob_in opens id bytes b = do
    guard opens table
    s ← put_blob T id bytes b.blobs
    ok (record b { blobs = s })

  module _ {F : Type 0} (rc : RecordCodecs F) (revision : ℕ) where
    abbrev pub item : String → ℕ → Text
    item kind index = eid revision (codes kind) index

    unfoldable pub write_buffer : (opens : Bool) → ℕ → List ℕ → Batch → Result Error Batch
    unfolding put put_blob_in
    write_buffer opens i bytes b = do
      let blob = buffer_blob_key revision i
      let id = item "buffer" i
      b1 ← put_blob_in opens blob bytes b
      put rc.buffer id (record { encoding = 1; id = id; byte_length = length bytes; blob = blob })
          b1

    unfoldable pub write_scene : SceneDoc → Batch → Result Error Batch
    unfolding put
    write_scene scene b = do
      let id = item "scene" scene.index
      b1 ← put rc.scene id (record { encoding = 1; id = id; name = scene.name }) b
      put rc.roots (roots_key id) (each (item "node") scene.nodes) b1

    unfoldable pub write_node : NodeDoc F → Batch → Result Error Batch
    unfolding put
    write_node node b =
        let id = item "node" node.index in
        put rc.node id
          (record {
            encoding = 1;
            id = id;
            name = node.name;
            mesh = map_option (item "mesh") node.mesh;
            camera = map_option (item "camera") node.camera;
            children = each (item "node") node.children;
            matrix = node.matrix;
          })
          b

    unfoldable pub write_camera : CameraDoc F → Batch → Result Error Batch
    unfolding put
    write_camera camera b =
        let id = item "camera" camera.index in
        put rc.camera id
          (record {
            encoding = 1;
            id = id;
            name = camera.name;
            projection = projection_of camera.projection;
          })
          b

    unfoldable pub write_primitive : (mesh : Text) → ℕ → PrimitiveDoc → Batch → Result Error Batch
    unfolding put
    write_primitive mesh i p b =
        let id = primitive_key mesh i in
        put rc.primitive id
          (record {
            encoding = 1;
            id = id;
            attributes =
                collect_map [] (each (λ (a : Text × ℕ). (a.0, item "accessor" a.1)) p.attributes);
            indices = map_option (item "accessor") p.indices;
            material = p.material;
          })
          b

    unfoldable pub write_mesh : MeshDoc → Batch → Result Error Batch
    unfolding put write_primitive
    write_mesh mesh b = do
      let id = item "mesh" mesh.index
      b1 ←
          put rc.mesh id
            (record {
              encoding = 1;
              id = id;
              name = mesh.name;
              primitives = each_index (primitive_key id) 0 mesh.primitives;
            })
            b
      for_each_index (write_primitive id) 0 mesh.primitives b1

    unfoldable pub write_accessor : AccessorDoc → Batch → Result Error Batch
    unfolding put
    write_accessor a b =
        let id = item "accessor" a.index in
        put rc.accessor id
          (record {
            encoding = 1;
            id = id;
            buffer_view = map_option (item "buffer_view") a.view;
            offset = a.offset;
            count = a.count;
            component_type = a.component_type;
            element_type = a.element_type;
          })
          b

    unfoldable pub write_view : ViewDoc → Batch → Result Error Batch
    unfolding put
    write_view v b =
        let id = item "buffer_view" v.index in
        put rc.buffer_view id
          (record {
            encoding = 1;
            id = id;
            buffer = item "buffer" v.buffer;
            offset = v.offset;
            length = v.length;
            stride = v.stride;
          })
          b

    -- The six loops over the document, in the order of the source.
    unfoldable pub write_document : Document F → Batch → Result Error Batch
    unfolding write_scene write_node write_camera write_mesh write_accessor write_view
    write_document doc b = do
      b1 ← for_each write_scene doc.scenes b
      b2 ← for_each write_node doc.nodes b1
      b3 ← for_each write_camera doc.cameras b2
      b4 ← for_each write_mesh doc.meshes b3
      b5 ← for_each write_accessor doc.accessors b4
      for_each write_view doc.views b5

    -- `for (i, bytes) in parsed.buffers.iter().enumerate()`
    unfoldable pub write_buffers : (opens : Bool) → List (List ℕ) → Batch → Result Error Batch
    unfolding write_buffer
    write_buffers opens buffers b = for_each_index (write_buffer opens) 0 buffers b
