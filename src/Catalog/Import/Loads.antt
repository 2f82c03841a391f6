-- ===== src/Catalog/Import/Loads.antt =====
-- `Store::node`, `Store::camera` and `Store::blob` of src/glTFredb.rs: the loads of what an import
-- wrote.
use trueos_picasso.Prelude.{ℕ, ◌≡◌, refl, Option, some, List}
use trueos_picasso.Prelude.Result.{Result, ok, err, guard, ok_or, ◌>>=◌, ◌>>◌}
use trueos_picasso.Redb.{Table}
use trueos_picasso.Text.{Text}
use trueos_picasso.Catalog.Types.{
  Error, transaction, table, storage, unknown_record, Codec, decode, records, blobs, Store, Engine,
  IsGranting,
}
use trueos_picasso.Catalog.Blobs.{blob}
use trueos_picasso.Catalog.Import.Records.{Node, Camera, RecordCodecs}

module _ (T : Table Text (List ℕ)) (e : Engine T) where
  -- `Store::record`
  unfoldable pub load : {A : Type 0} → Codec A → (record_id : Text) → Store T → Result Error A
  load c record_id d = do
    guard (e.begins_read d) transaction
    s ← ok_or d.records table
    guard (e.opens records d) table
    found ← ok_or (T.get s record_id) storage
    bytes ← ok_or found (unknown_record record_id)
    decode c bytes

  unfoldable pub node :
      {F : Type 0} → RecordCodecs F → (record_id : Text) → Store T → Result Error (Node F)
  unfolding load
  node rc record_id d = load rc.node record_id d

  unfoldable pub camera :
      {F : Type 0} → RecordCodecs F → (record_id : Text) → Store T → Result Error (Camera F)
  unfolding load
  camera rc record_id d = load rc.camera record_id d

  unfoldable pub open_blobs : Store T → Result Error T.State
  open_blobs d = do
    guard (e.begins_read d) transaction
    s ← ok_or d.blobs table
    guard (e.opens blobs d) table
    ok s

  -- `blob` of the table that was opened, if it was
  unfoldable pub blob_in :
      (fuel : ℕ) (id : Text) → Result Error T.State → Option (Result Error (List ℕ))
  blob_in fuel id (err x) = some (err x)
  blob_in fuel id (ok s) = blob T fuel id s

  -- `Store::blob`, with fuel for its loop
  unfoldable pub stored_blob : (fuel : ℕ) (id : Text) → Store T → Option (Result Error (List ℕ))
  unfolding open_blobs blob_in
  stored_blob fuel id d = blob_in fuel id (open_blobs d)

  pub stored_blob-granted :
      (fuel : ℕ) (id : Text) (d : Store T) {s : T.State}
      → IsGranting T e
      → d.blobs ≡ some s
      → stored_blob fuel id d ≡ blob T fuel id s
  unfolding stored_blob
  stored_blob-granted fuel id d granted q =
      rw (granted.begins_read d, granted.opens blobs d, q) refl
