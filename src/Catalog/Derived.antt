-- ===== src/Catalog/Derived.antt =====
-- `Store::put_derived` and `Store::derived` of src/glTFredb.rs.
pub mod Publish
pub mod Immutable
pub mod History
use trueos_picasso.Prelude.{
  ℕ, ◌+◌, Bool, true, false, not, ◌&&◌, Option, none, some, List, [], ◌∷◌, length, ◌==◌,
}
use trueos_picasso.Prelude.Result.{Result, ok, err, guard, ok_or, ◌>>=◌, ◌>>◌}
use trueos_picasso.Redb.{Table, or_empty}
use trueos_picasso.Redb.Chunked.{div_ceil, chunks, insert_chunks}
use trueos_picasso.Redb.ReadBack.{read_chunks}
use trueos_picasso.Text.{Text, is_blank, text_eq}
use trueos_picasso.Catalog.Types.{
  Error, transaction, table, storage, commit, invalid_derived, derived_conflict, chunk_size,
  DerivedArtifact, DerivedRecord, record_eq, Codecs, encode, decode, derived, derived_blobs, Store,
  Engine, settle,
}
use trueos_picasso.Catalog.Keys.{derived_key, chunk_path}
use trueos_picasso.Catalog.Reading.{revision}

-- `get(..).map(|v| v.value()) != Some(chunk)`, negated
abbrev pub same_chunk : Option (List ℕ) → List ℕ → Bool
same_chunk none chunk = false
same_chunk (some found) chunk = text_eq found chunk

-- The record that a publication writes.
abbrev pub record_for : (revision : ℕ) (name provenance : Text) (bytes : List ℕ) → DerivedRecord
record_for revision name provenance bytes = record {
  encoding = 1;
  source_revision = revision;
  name = name;
  provenance = provenance;
  byte_length = length bytes;
}

module _ (T : Table Text (List ℕ)) (e : Engine T) (c : Codecs) where
  -- The loop that compares a repeated publication with the chunks that are stored.
  unfoldable pub confirm_chunks :
      (key name : Text) (index : ℕ) → List (List ℕ) → T.State → Result Error (Unit {0})
  confirm_chunks key name index [] s = ok tt
  confirm_chunks key name index (chunk ∷ rest) s = do
    found ← ok_or (T.get s (chunk_path key index)) storage
    guard (same_chunk found chunk) (derived_conflict name)
    confirm_chunks key name (index + 1) rest s

  -- `.map(|entry| decode(entry.value())).transpose()?`
  unfoldable pub decode_found : Option (List ℕ) → Result Error (Option DerivedRecord)
  decode_found none = ok none
  decode_found (some bytes) = do old ← decode c.derived bytes; ok (some old)

  -- A publication under a name that is taken: it commits nothing.
  unfoldable pub confirm :
      (key name : Text) (new : DerivedRecord) (bytes : List ℕ) (old : DerivedRecord)
      (blobs : T.State) (d : Store T)
      → Result Error (Unit {0} × Store T)
  confirm key name new bytes old blobs d = do
    guard (record_eq old new) (derived_conflict name)
    confirm_chunks key name 0 (chunks chunk_size bytes) blobs
    ok (tt, d)

  -- A publication under a new name.
  unfoldable pub write_new :
      (key : Text) (new : DerivedRecord) (bytes : List ℕ) (records blobs : T.State) (d : Store T)
      → Result Error (Unit {0} × Store T)
  write_new key new bytes records blobs d = do
    written ← ok_or (insert_chunks T (chunk_path key) 0 (chunks chunk_size bytes) blobs) storage
    encoded ← encode c.derived new
    recorded ← ok_or (T.insert records key encoded) storage
    let d' : Store T = record d { derived = some recorded; derived_blobs = some written }
    guard (e.commits d') commit
    ok (tt, d')

  abbrev pub confirm_or_write :
      (key name : Text) (new : DerivedRecord) (bytes : List ℕ) (records blobs : T.State)
      (d : Store T)
      → Option DerivedRecord
      → Result Error (Unit {0} × Store T)
  confirm_or_write key name new bytes records blobs d none = write_new key new bytes records blobs d
  confirm_or_write key name new bytes records blobs d (some old) =
      confirm key name new bytes old blobs d

  -- The write transaction of `put_derived`.
  unfoldable pub put_derived_txn :
      (key name : Text) (new : DerivedRecord) (bytes : List ℕ) (d : Store T)
      → Result Error (Unit {0} × Store T)
  put_derived_txn key name new bytes d = do
    guard (e.begins_write d) transaction
    guard (e.opens derived d) table
    guard (e.opens derived_blobs d) table
    found ← ok_or (T.get (or_empty T d.derived) key) storage
    existing ← decode_found found
    confirm_or_write key name new bytes (or_empty T d.derived) (or_empty T d.derived_blobs) d
        existing

  unfoldable pub put_derived :
      (rev : ℕ) (name provenance : Text) (bytes : List ℕ) (d : Store T)
      → Result Error (Unit {0}) × Store T
  put_derived rev name provenance bytes d = settle T d (do
    key ← derived_key rev name
    guard (not (is_blank provenance)) (invalid_derived "provenance must not be empty")
    source ← revision T e c rev d
    put_derived_txn key name (record_for rev name provenance bytes) bytes d)

  -- The part of `derived` after the record is found.
  unfoldable pub load :
      (rev : ℕ) (name key : Text) (d : Store T) (encoded : List ℕ)
      → Result Error (Option DerivedArtifact)
  load rev name key d encoded = do
    r ← decode c.derived encoded
    guard ((r.encoding == 1) && (r.source_revision == rev) && text_eq r.name name)
        (invalid_derived "record identity mismatch")
    blobs ← ok_or d.derived_blobs table
    guard (e.opens derived_blobs d) table
    bytes ←
        read_chunks T (chunk_path key) storage (invalid_derived "missing payload chunk")
          (invalid_derived "payload chunk length mismatch") chunk_size r.byte_length 0
          (div_ceil r.byte_length chunk_size) [] blobs
    ok (
        some (record {
          source_revision = r.source_revision;
          name = r.name;
          provenance = r.provenance;
          bytes = bytes;
        }))

  abbrev pub load_found :
      (rev : ℕ) (name key : Text) (d : Store T)
      → Option (List ℕ)
      → Result Error (Option DerivedArtifact)
  load_found rev name key d none = ok none
  load_found rev name key d (some encoded) = load rev name key d encoded

  -- The part of `derived` on the table of records, which may not exist.
  unfoldable pub derived_in :
      (rev : ℕ) (name key : Text) (d : Store T)
      → Option T.State
      → Result Error (Option DerivedArtifact)
  derived_in rev name key d none = ok none
  derived_in rev name key d (some s) = do
    guard (e.opens derived d) table
    found ← ok_or (T.get s key) storage
    load_found rev name key d found

  unfoldable pub derived_artifact :
      (rev : ℕ) (name : Text) (d : Store T) → Result Error (Option DerivedArtifact)
  derived_artifact rev name d = do
    key ← derived_key rev name
    source ← revision T e c rev d
    guard (e.begins_read d) transaction
    derived_in rev name key d d.derived
