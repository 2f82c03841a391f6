-- ===== src/RuntimeAssets/Database.antt =====
-- `RuntimeAssetDatabase` of src/runtime_assets.rs: insertion, lookup and removal of one asset.
--
-- The two tables and the calls of the database are redb's, and so parameters: `Lengths` and
-- `Chunks` are its tables, and an `Engine` says which transactions redb grants. A transaction that
-- is not committed leaves the database as it was, so a method returns its result beside the
-- database that the next caller finds. Asset names are `String`, bytes are numbers.
use Prim.Native.String.{String}
use text.Mathlib.Text.{◌==◌ as str_eq}
use trueos_picasso.Prelude.{
  ℕ, ◌-◌, ◌*◌, Bool, not, Option, none, some, List, [], length, if◌then◌else◌,
}
use trueos_picasso.Prelude.Result.{Result, ok, err, ok_or, guard, ◌>>=◌, ◌>>◌}
use trueos_picasso.Redb.{Table, or_empty}
use trueos_picasso.Redb.Chunked.{div_ceil, chunks, insert_chunks, remove_chunks}
use trueos_picasso.Redb.ReadBack.{read_chunks}

pub data PicassoError : Type 0 where
  empty_asset_name storage : PicassoError

-- `RUNTIME_CHUNK_BYTES`
abbrev pub chunk_bytes : ℕ
chunk_bytes = 60 * 1024

unfoldable pub validate_name : String → Result PicassoError (Unit {0})
validate_name name = if str_eq name "" then err empty_asset_name else ok tt

-- `.map(|entry| entry.value()).unwrap_or(0)`
abbrev pub or_zero : Option ℕ → ℕ
or_zero none = 0
or_zero (some n) = n

-- The key `(name, index)` of a chunk.
abbrev pub chunk_key : String → ℕ → String × ℕ
chunk_key name index = (name, index)

module _ (Lengths : Table String ℕ) (Chunks : Table (String × ℕ) (List ℕ)) where
  -- The committed tables; `none` is a table that no transaction has created.
  pub record Tables : Type 0 where
    pub lengths : Option Lengths.State
    pub chunks : Option Chunks.State

  -- Whether redb grants a call, and whether the allocator grants a buffer.
  pub record Engine : Type 0 where
    pub begins_read : Tables → Bool
    pub begins_write : Tables → Bool
    pub opens_lengths : Tables → Bool
    pub opens_chunks : Tables → Bool
    pub commits : Tables → Bool
    pub reserves : ℕ → Bool

  pub record RuntimeAssetDatabase : Type 0 where
    pub database : Tables
    pub read_only : Bool

  module _ (e : Engine) where
    -- The write transaction of `insert`: the tables that it commits.
    unfoldable pub insert_txn : String → List ℕ → Tables → Result PicassoError Tables
    insert_txn name bytes db = do
      guard (e.begins_write db) storage
      guard (e.opens_lengths db) storage
      previous ← ok_or (Lengths.get (or_empty Lengths db.lengths) name) storage
      guard (e.opens_chunks db) storage
      let first = div_ceil (length bytes) chunk_bytes
      let last = div_ceil (or_zero previous) chunk_bytes
      written ←
          ok_or
            (insert_chunks Chunks (chunk_key name) 0 (chunks chunk_bytes bytes)
              (or_empty Chunks db.chunks))
            storage
      pruned ← ok_or (remove_chunks Chunks (chunk_key name) first (last - first) written) storage
      lengths ← ok_or (Lengths.insert (or_empty Lengths db.lengths) name (length bytes)) storage
      let db' : Tables = record { lengths = some lengths; chunks = some pruned }
      guard (e.commits db') storage
      ok db'

    -- The write transaction of `remove_embedded_asset`.
    unfoldable pub remove_txn : String → Tables → Result PicassoError Tables
    remove_txn name db = do
      guard (e.begins_write db) storage
      guard (e.opens_lengths db) storage
      (old, lengths) ← ok_or (Lengths.remove (or_empty Lengths db.lengths) name) storage
      guard (e.opens_chunks db) storage
      pruned ←
          ok_or
            (remove_chunks Chunks (chunk_key name) 0 (div_ceil (or_zero old) chunk_bytes)
              (or_empty Chunks db.chunks))
            storage
      let db' : Tables = record { lengths = some lengths; chunks = some pruned }
      guard (e.commits db') storage
      ok db'

    -- A transaction that fails is dropped, and the database stays as it was.
    abbrev pub settle :
        RuntimeAssetDatabase
        → Result PicassoError Tables
        → Result PicassoError (Unit {0}) × RuntimeAssetDatabase
    settle d (ok db) = (ok tt, record d { database = db })
    settle d (err x) = (err x, d)

    unfoldable pub insert :
        String
        → List ℕ
        → RuntimeAssetDatabase
        → Result PicassoError (Unit {0}) × RuntimeAssetDatabase
    unfolding insert_txn validate_name
    insert name bytes d =
        settle d
          (do guard (not d.read_only) storage; validate_name name; insert_txn name bytes d.database)

    unfoldable pub remove_embedded_asset :
        String → RuntimeAssetDatabase → Result PicassoError (Unit {0}) × RuntimeAssetDatabase
    unfolding remove_txn validate_name
    remove_embedded_asset name d =
        settle d
          (do guard (not d.read_only) storage; validate_name name; remove_txn name d.database)

    -- The part of `get` after the length is known.
    unfoldable pub get_bytes :
        String → (length : ℕ) → Tables → Result PicassoError (Option (List ℕ))
    get_bytes name length db = do
      guard (e.opens_chunks db) storage
      chunks ← ok_or db.chunks storage
      guard (e.reserves length) storage
      bytes ←
          read_chunks Chunks (chunk_key name) storage storage storage chunk_bytes length 0
            (div_ceil length chunk_bytes) [] chunks
      ok (some bytes)

    -- The part of `get` on the lengths table, which may not exist.
    unfoldable pub get_length :
        String → Tables → Option Lengths.State → Result PicassoError (Option (List ℕ))
    unfolding get_bytes
    get_length name db none = ok none
    get_length name db (some lengths) = do
      guard (e.opens_lengths db) storage
      found ← ok_or (Lengths.get lengths name) storage
      elim found [ none ↦ ok none | some length ↦ get_bytes name length db ]

    unfoldable pub get : String → RuntimeAssetDatabase → Result PicassoError (Option (List ℕ))
    unfolding get_length validate_name
    get name d = do
      validate_name name
      guard (e.begins_read d.database) storage
      get_length name d.database d.database.lengths

    -- A missing table is an error here, unlike in `get`.
    unfoldable pub embedded_asset_names : RuntimeAssetDatabase → Result PicassoError (List String)
    embedded_asset_names d = do
      guard (e.begins_read d.database) storage
      lengths ← ok_or d.database.lengths storage
      guard (e.opens_lengths d.database) storage
      ok_or (Lengths.iter lengths) storage
