-- ===== src/Catalog/Import.antt =====
-- `Store::import` of src/glTFredb.rs: one transaction that writes a whole document.
--
-- The counter of revisions wraps at 2^64, as an addition does without overflow checks. Inside the
-- transaction the tables of records and of blobs are one state.
pub mod Items
pub mod Records
pub mod Parsing
pub mod Collect
pub mod Writes
pub mod Frame
pub mod Loops
pub mod Seeding
pub mod Written
pub mod Publish
pub mod Source
pub mod Payloads
pub mod Loads
pub mod History
use trueos_picasso.Prelude.{
  ℕ, ◌+◌, Bool, true, false, Option, none, some, List, [], ◌∷◌, ◌++◌, ◌==◌, if◌then◌else◌, length,
}
use trueos_picasso.Prelude.Result.{Result, ok, err, guard, ok_or, ◌>>=◌, ◌>>◌}
use trueos_picasso.Prelude.Words.{wrapping_add}
use trueos_picasso.Redb.{Table, or_empty}
use trueos_picasso.Text.{Text, codes}
use trueos_picasso.Catalog.Types.{
  Error, transaction, table, storage, commit, RevisionState, staging, complete, Revision, Codecs,
  encode, decode, meta, records, blobs, Store, Engine, settle,
}
use trueos_picasso.Catalog.Keys.{revision_key}
use trueos_picasso.Catalog.Tracking.{insert_missing_tracking}
use trueos_picasso.Catalog.Import.Items.{Gltf}
use trueos_picasso.Catalog.Import.Records.{Asset, RecordCodecs}
use trueos_picasso.Catalog.Import.Parsing.{Prepared, parse, strip_prefix}
use trueos_picasso.Catalog.Import.Writes.{
  Batch, revision_prefix, source_blob_key, put, put_blob_in, write_buffers, write_document,
}

-- `format!("asset/{asset_id}")`
unfoldable pub asset_key : Text → Text
asset_key asset_id = codes "asset/" ++ asset_id

-- The entry of the counter
abbrev pub next_revision : Text
next_revision = codes "next_revision"

-- `s.starts_with(prefix)`
abbrev pub starts_with : (prefix s : Text) → Bool
starts_with prefix s = elim (strip_prefix prefix s) [ some rest ↦ true | none ↦ false ]

abbrev pub keys_below : (prefix : Text) → List Text → List Text
keys_below prefix [] = []
keys_below prefix (k ∷ ks) =
    let rest = keys_below prefix ks in if starts_with prefix k then k ∷ rest else rest

module _ {F : Type 0} (T : Table Text (List ℕ)) (e : Engine T) (c : Codecs)
    (rc : RecordCodecs F) where
  -- `.map(decode).transpose()?.unwrap_or(1)`
  abbrev pub decode_counter : Option (List ℕ) → Result Error ℕ
  decode_counter none = ok 1
  decode_counter (some bytes) = decode rc.counter bytes

  -- The revision that is taken, and the table with the counter after it.
  unfoldable pub take_revision : (d : Store T) → Result Error (ℕ × T.State)
  take_revision d = do
    guard (e.opens meta d) table
    found ← ok_or (T.get (or_empty T d.meta) next_revision) storage
    next ← decode_counter found
    bytes ← encode rc.counter (wrapping_add next 1)
    s ← ok_or (T.insert (or_empty T d.meta) next_revision bytes) storage
    ok (next, s)

  abbrev pub revision_record : (id : ℕ) (asset_id : Text) → RevisionState → Revision
  revision_record id asset_id state = record {
    encoding = 1;
    id = id;
    asset_id = asset_id;
    state = state;
    source_blob = source_blob_key id;
  }

  -- All that an import writes to the records and the blobs.
  unfoldable pub write_all :
      (id : ℕ) (asset_id : Text) (source : List ℕ)
      → Prepared F
      → (d : Store T) → Batch T
      → Result Error (Batch T)
  unfolding put put_blob_in write_buffers write_document
  write_all id asset_id source p d b = do
    b1 ← put_blob_in T (e.opens blobs d) (source_blob_key id) source b
    b2 ← put T c.revision (revision_key id) (revision_record id asset_id staging) b1
    b3 ← write_buffers T rc id (e.opens blobs d) p.buffers b2
    b4 ← write_document T rc id p.doc b3
    b5 ←
        put T rc.asset (asset_key asset_id)
          (record { encoding = 1; id = asset_id; latest_revision = id }) b4
    put T c.revision (revision_key id) (revision_record id asset_id complete) b5

  -- `seed_tracking_for_revision`, on the records as the transaction has them.
  unfoldable pub seed_tracking :
      (id : ℕ) (asset : Text) (d : Store T) → T.State → Result Error (ℕ × T.State)
  seed_tracking id asset d s = do
    guard (e.opens records d) table
    keys ← ok_or (T.iter s) storage
    insert_missing_tracking T e c (asset ∷ keys_below (revision_prefix id ++ codes "/") keys) d

  unfoldable pub import_txn :
      (asset_id : Text) (source : List ℕ) → Prepared F → (d : Store T) → Result Error (ℕ × Store T)
  unfolding take_revision write_all seed_tracking
  import_txn asset_id source p d = do
    guard (e.begins_write d) transaction
    n ← take_revision d
    guard (e.opens records d) table
    b ←
        write_all n.0 asset_id source p d
          (record { records = or_empty T d.records; blobs = or_empty T d.blobs })
    t ← seed_tracking n.0 (asset_key asset_id) d b.records
    let d' : Store T = record d {
      meta = some n.1;
      records = some b.records;
      blobs = some b.blobs;
      tracking = some t.1;
    }
    guard (e.commits d') commit
    ok (n.0, d')

  module _ (from_slice : List ℕ → Option (Gltf F)) (decode_base64 : Text → Option (List ℕ)) where
    -- The source is parsed before the transaction begins.
    unfoldable pub import :
        (asset_id : Text) (source : List ℕ) (external : Text → Option (List ℕ))
        → (d : Store T) → Result Error ℕ × Store T
    unfolding import_txn
    import asset_id source external d =
        settle T d
          do p ← parse decode_base64 external from_slice source; import_txn asset_id source p d
