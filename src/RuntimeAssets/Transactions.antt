-- ===== src/RuntimeAssets/Transactions.antt =====
-- What a transaction of src/runtime_assets.rs that commits has done.
use Prim.Native.String.{String}
use trueos_picasso.Prelude.{ℕ, ◌-◌, ◌≡◌, Option, some, List, length, sym}
use trueos_picasso.Prelude.Result.{ok, guard-ok, ok_or-ok, ok-injective}
use trueos_picasso.Redb.{or_empty, Table}
use trueos_picasso.Redb.Chunked.{div_ceil, chunks, insert_chunks, remove_chunks}
use trueos_picasso.RuntimeAssets.Database.{
  storage, chunk_bytes, or_zero, chunk_key, Tables, Engine, insert_txn, remove_txn,
}

module _ {Lengths : Table String ℕ} {Chunks : Table (String × ℕ) (List ℕ)}
    (e : Engine Lengths Chunks) (name : String) (db : Tables Lengths Chunks) where
  -- The states of the two tables on the way.
  pub record Inserted (bytes : List ℕ) (db' : Tables Lengths Chunks) : Type 0 where
    pub previous : Option ℕ
    pub written : Chunks.State
    pub pruned : Chunks.State
    pub lengths : Lengths.State
    pub looked_up : Lengths.get (or_empty Lengths db.lengths) name ≡ some previous
    pub wrote :
        insert_chunks Chunks
          (chunk_key name)
          0
          (chunks chunk_bytes bytes)
          (or_empty Chunks db.chunks)
        ≡ some written
    pub removed :
        remove_chunks Chunks
          (chunk_key name)
          (div_ceil (length bytes) chunk_bytes)
          (div_ceil (or_zero previous) chunk_bytes - div_ceil (length bytes) chunk_bytes)
          written
        ≡ some pruned
    pub measured : Lengths.insert (or_empty Lengths db.lengths) name (length bytes) ≡ some lengths
    pub committed : db' ≡ record { lengths = some lengths; chunks = some pruned }

  pub insert_txn-Inserted :
      (bytes : List ℕ) {db' : Tables Lengths Chunks}
      → insert_txn Lengths Chunks e name bytes db ≡ ok db'
      → Inserted bytes db'
  unfolding insert_txn
  insert_txn-Inserted bytes h =
      let (_, h1) = guard-ok (e.begins_write db) storage _ h in
      let (_, h2) = guard-ok (e.opens_lengths db) storage _ h1 in
      let (previous, looked_up, h3) =
        ok_or-ok (Lengths.get (or_empty Lengths db.lengths) name) storage _ h2 in
      let (_, h4) = guard-ok (e.opens_chunks db) storage _ h3 in
      let (written, wrote, h5) =
        ok_or-ok
          (insert_chunks Chunks (chunk_key name) 0 (chunks chunk_bytes bytes)
            (or_empty Chunks db.chunks))
          storage _ h4 in
      let (pruned, removed, h6) =
        ok_or-ok
          (remove_chunks Chunks (chunk_key name) (div_ceil (length bytes) chunk_bytes)
            (div_ceil (or_zero previous) chunk_bytes - div_ceil (length bytes) chunk_bytes) written)
          storage _ h5 in
      let (lengths, measured, h7) =
        ok_or-ok (Lengths.insert (or_empty Lengths db.lengths) name (length bytes)) storage _ h6 in
      let (_, h8) =
        guard-ok (e.commits (record { lengths = some lengths; chunks = some pruned })) storage _
          h7 in
      record {
        previous = previous;
        written = written;
        pruned = pruned;
        lengths = lengths;
        looked_up = looked_up;
        wrote = wrote;
        removed = removed;
        measured = measured;
        committed = sym (ok-injective h8);
      }

  pub record Removed (db' : Tables Lengths Chunks) : Type 0 where
    pub old : Option ℕ
    pub lengths : Lengths.State
    pub pruned : Chunks.State
    pub forgot : Lengths.remove (or_empty Lengths db.lengths) name ≡ some (old, lengths)
    pub removed :
        remove_chunks Chunks
          (chunk_key name)
          0
          (div_ceil (or_zero old) chunk_bytes)
          (or_empty Chunks db.chunks)
        ≡ some pruned
    pub committed : db' ≡ record { lengths = some lengths; chunks = some pruned }

  pub remove_txn-Removed :
      {db' : Tables Lengths Chunks} → remove_txn Lengths Chunks e name db ≡ ok db' → Removed db'
  unfolding remove_txn
  remove_txn-Removed h =
      let (_, h1) = guard-ok (e.begins_write db) storage _ h in
      let (_, h2) = guard-ok (e.opens_lengths db) storage _ h1 in
      let (p, forgot, h3) =
        ok_or-ok (Lengths.remove (or_empty Lengths db.lengths) name) storage _ h2 in
      let (_, h4) = guard-ok (e.opens_chunks db) storage _ h3 in
      let (pruned, removed, h5) =
        ok_or-ok
          (remove_chunks Chunks (chunk_key name) 0 (div_ceil (or_zero p.0) chunk_bytes)
            (or_empty Chunks db.chunks))
          storage _ h4 in
      let (_, h6) =
        guard-ok (e.commits (record { lengths = some p.1; chunks = some pruned })) storage _ h5 in
      record {
        old = p.0;
        lengths = p.1;
        pruned = pruned;
        forgot = forgot;
        removed = removed;
        committed = sym (ok-injective h6);
      }
