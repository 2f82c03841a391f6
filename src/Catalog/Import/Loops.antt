-- ===== src/Catalog/Import/Loops.antt =====
-- The loops of an import of src/glTFredb.rs write below its revision.
use trueos_picasso.Prelude.{ℕ, ◌≡◌, Bool, List}
use trueos_picasso.Prelude.Result.{Result, ok, >>=-eq-ok}
use trueos_picasso.Redb.{Table}
use trueos_picasso.Text.{Text, codes}
use trueos_picasso.Catalog.Types.{Error}
use trueos_picasso.Catalog.Keys.{chunk_path}
use trueos_picasso.Catalog.Import.Items.{
  SceneDoc, NodeDoc, CameraDoc, PrimitiveDoc, MeshDoc, AccessorDoc, ViewDoc, Document,
}
use trueos_picasso.Catalog.Import.Records.{RecordCodecs}
use trueos_picasso.Catalog.Import.Writes.{
  buffer_blob_key, for_each, Batch, put, put_blob_in, item, write_buffer, write_buffers,
  write_scene, write_node, write_camera, write_primitive, write_mesh, write_accessor, write_view,
  write_document,
}
use trueos_picasso.Catalog.Import.Frame.{
  IsBelow, eid-IsBelow, roots_key-IsBelow, primitive_key-IsBelow, for_each_lem, for_each_index_lem,
  Kept, Kept-same, Kept-trans, put-Kept, put_blob_in-Kept,
}

module _ (T : Table Text (List ℕ)) {F : Type 0} (rc : RecordCodecs F) (r : ℕ)
    (B : Text → Type 0) where
  write_buffer-Kept :
      (owns : (i j : ℕ) → B (chunk_path (buffer_blob_key r i) j)) (opens : Bool) (i : ℕ)
      (bytes : List ℕ) (b b' : Batch T)
      → write_buffer T rc r opens i bytes b ≡ ok b'
      → Kept T r B b b'
  unfolding write_buffer
  write_buffer-Kept owns opens i bytes b b' h =
      let (m, q, h') = >>=-eq-ok (put_blob_in T opens (buffer_blob_key r i) bytes b) _ h in
      Kept-trans T r B b m b'
        (put_blob_in-Kept T r B opens (buffer_blob_key r i) bytes b (owns i) q)
        (put-Kept T r B rc.buffer _ _ m (eid-IsBelow r (codes "buffer") i) h')

  pub write_buffers-Kept :
      (owns : (i j : ℕ) → B (chunk_path (buffer_blob_key r i) j)) (opens : Bool)
      (buffers : List (List ℕ)) (b : Batch T) {b' : Batch T}
      → write_buffers T rc r opens buffers b ≡ ok b'
      → Kept T r B b b'
  unfolding write_buffers
  write_buffers-Kept owns opens buffers b h =
      for_each_index_lem (Kept T r B) (Kept-same T r B) (Kept-trans T r B)
        (write_buffer T rc r opens) 0 buffers b (write_buffer-Kept owns opens) h

  write_scene-Kept :
      (scene : SceneDoc) (b b' : Batch T) → write_scene T rc r scene b ≡ ok b' → Kept T r B b b'
  unfolding write_scene
  write_scene-Kept scene b b' h =
      let below = eid-IsBelow r (codes "scene") scene.index in
      let (m, q, h') = >>=-eq-ok (put T rc.scene _ _ b) _ h in
      Kept-trans T r B b m b' (put-Kept T r B rc.scene _ _ b below q)
        (put-Kept T r B rc.roots _ _ m (roots_key-IsBelow r _ below) h')

  write_node-Kept :
      (node : NodeDoc F) (b b' : Batch T) → write_node T rc r node b ≡ ok b' → Kept T r B b b'
  unfolding write_node
  write_node-Kept node b b' h =
      put-Kept T r B rc.node _ _ b (eid-IsBelow r (codes "node") node.index) h

  write_camera-Kept :
      (camera : CameraDoc F) (b b' : Batch T)
      → write_camera T rc r camera b ≡ ok b'
      → Kept T r B b b'
  unfolding write_camera
  write_camera-Kept camera b b' h =
      put-Kept T r B rc.camera _ _ b (eid-IsBelow r (codes "camera") camera.index) h

  write_primitive-Kept :
      (id : Text)
      → IsBelow r id
      → (i : ℕ) (p : PrimitiveDoc) (b b' : Batch T) → write_primitive T rc r id i p b ≡ ok b'
      → Kept T r B b b'
  unfolding write_primitive
  write_primitive-Kept id below i p b b' h =
      put-Kept T r B rc.primitive _ _ b (primitive_key-IsBelow r id i below) h

  write_mesh-Kept :
      (mesh : MeshDoc) (b b' : Batch T) → write_mesh T rc r mesh b ≡ ok b' → Kept T r B b b'
  unfolding write_mesh
  write_mesh-Kept mesh b b' h =
      let below = eid-IsBelow r (codes "mesh") mesh.index in
      let (m, q, h') = >>=-eq-ok (put T rc.mesh _ _ b) _ h in
      Kept-trans T r B b m b' (put-Kept T r B rc.mesh _ _ b below q) (
        for_each_index_lem (Kept T r B) (Kept-same T r B) (Kept-trans T r B) _ 0 mesh.primitives m
          (write_primitive-Kept (item T rc r "mesh" mesh.index) below) h')

  write_accessor-Kept :
      (a : AccessorDoc) (b b' : Batch T) → write_accessor T rc r a b ≡ ok b' → Kept T r B b b'
  unfolding write_accessor
  write_accessor-Kept a b b' h =
      put-Kept T r B rc.accessor _ _ b (eid-IsBelow r (codes "accessor") a.index) h

  write_view-Kept : (v : ViewDoc) (b b' : Batch T) → write_view T rc r v b ≡ ok b' → Kept T r B b b'
  unfolding write_view
  write_view-Kept v b b' h =
      put-Kept T r B rc.buffer_view _ _ b (eid-IsBelow r (codes "buffer_view") v.index) h

  loop-Kept :
      {A : Type 0} (f : A → Batch T → Result Error (Batch T))
      → ((x : A) (b b' : Batch T) → f x b ≡ ok b' → Kept T r B b b')
      → (xs : List A) (b : Batch T) {b' : Batch T} → for_each f xs b ≡ ok b'
      → Kept T r B b b'
  loop-Kept f round xs b h =
      for_each_lem (Kept T r B) (Kept-same T r B) (Kept-trans T r B) f xs b round h

  pub write_document-Kept :
      (doc : Document F) (b : Batch T) {b' : Batch T}
      → write_document T rc r doc b ≡ ok b'
      → Kept T r B b b'
  unfolding write_document
  write_document-Kept doc b {b'} h =
      let (b1, q1, h1) = >>=-eq-ok (for_each (write_scene T rc r) doc.scenes b) _ h in
      let (b2, q2, h2) = >>=-eq-ok (for_each (write_node T rc r) doc.nodes b1) _ h1 in
      let (b3, q3, h3) = >>=-eq-ok (for_each (write_camera T rc r) doc.cameras b2) _ h2 in
      let (b4, q4, h4) = >>=-eq-ok (for_each (write_mesh T rc r) doc.meshes b3) _ h3 in
      let (b5, q5, h5) = >>=-eq-ok (for_each (write_accessor T rc r) doc.accessors b4) _ h4 in
      Kept-trans T r B b b1 b' (loop-Kept _ write_scene-Kept doc.scenes b q1) (
        Kept-trans T r B b1 b2 b' (loop-Kept _ write_node-Kept doc.nodes b1 q2) (
          Kept-trans T r B b2 b3 b' (loop-Kept _ write_camera-Kept doc.cameras b2 q3) (
            Kept-trans T r B b3 b4 b' (loop-Kept _ write_mesh-Kept doc.meshes b3 q4) (
              Kept-trans T r B b4 b5 b' (loop-Kept _ write_accessor-Kept doc.accessors b4 q5)
                (loop-Kept _ write_view-Kept doc.views b5 h5)))))
