-- ===== src/Mass/Catalog.antt =====
-- The catalog of src/nosql.rs: the transactions of `reserve_id` and of `put`, and the reads `info`,
-- `read_range` and `read`.
--
-- redb's two tables and the file system are parameters. A path is its directory and its number,
-- which `{:016x}` writes differently for different numbers. A file is opened, sought and read in one
-- call. A usize has 64 bits.
use trueos_picasso.Prelude.{ℕ, ◌≡◌, Bool, true, ◌&&◌, Option, none, some, List, ltb, leb}
use trueos_picasso.Prelude.Result.{Result, ok, guard, ok_or, ◌>>=◌, ◌>>◌}
use trueos_picasso.Prelude.Words.{word, checked_add}
use trueos_picasso.Redb.{Table, or_empty}
use trueos_picasso.Text.{Text, codes}
use trueos_picasso.Mass.Files.{FileSystem, FilePath}
use trueos_picasso.Mass.{
  MassError, transaction, table, storage, commit, io, not_found, invalid_record, invalid_range,
  ObjectInfo, Utf8, decode_record,
}

abbrev pub next_object : Text
next_object = codes "next_object"

-- `.map(value).unwrap_or(1)`
abbrev pub or_one : Option ℕ → ℕ
or_one none = 1
or_one (some n) = n

module _ (M : Table Text ℕ) (O : Table ℕ (List ℕ)) (fs : FileSystem) where
  -- The tables of the catalog, `none` before they are created, and the files.
  pub record MassStore : Type 0 where
    pub meta : Option M.State
    pub objects : Option O.State
    pub files : fs.State

  -- Which calls redb grants.
  pub record MassEngine : Type 0 where
    pub begins_read : MassStore → Bool
    pub begins_write : MassStore → Bool
    pub opens_meta : MassStore → Bool
    pub opens_objects : MassStore → Bool
    pub commits : MassStore → Bool

  pub record IsOpening (e : MassEngine) : Type 0 where
    pub begins_read : (s : MassStore) → e.begins_read s ≡ true
    pub opens_objects : (s : MassStore) → e.opens_objects s ≡ true

  module _ (e : MassEngine) where
    unfoldable pub reserve_txn : MassStore → Result MassError (ℕ × MassStore)
    reserve_txn s = do
      guard (e.begins_write s) transaction
      guard (e.opens_meta s) table
      found ← ok_or (M.get (or_empty M s.meta) next_object) storage
      let next = or_one found
      bumped ← ok_or (checked_add next 1) invalid_record
      m ← ok_or (M.insert (or_empty M s.meta) next_object bumped) storage
      let s' : MassStore = record s { meta = some m }
      guard (e.commits s') commit
      ok (next, s')

    unfoldable pub publish_txn :
        (id : ℕ) (bytes : List ℕ) → MassStore → Result MassError (Unit {0} × MassStore)
    publish_txn id bytes s = do
      guard (e.begins_write s) transaction
      guard (e.opens_objects s) table
      o ← ok_or (O.insert (or_empty O s.objects) id bytes) storage
      let s' : MassStore = record s { objects = some o }
      guard (e.commits s') commit
      ok (tt, s')

    module _ (u : Utf8) where
      unfoldable pub info : (id : ℕ) → MassStore → Result MassError ObjectInfo
      info id s = do
        guard (e.begins_read s) transaction
        o ← ok_or s.objects table
        guard (e.opens_objects s) table
        found ← ok_or (O.get o id) storage
        bytes ← ok_or found (not_found id)
        decode_record u id bytes

      unfoldable pub read_range : (id offset length : ℕ) → MassStore → Result MassError (List ℕ)
      unfolding info
      read_range id offset length s = do
        i ← info id s
        end ← ok_or (checked_add offset length) invalid_range
        guard (leb end i.byte_length && ltb length word) invalid_range
        ok_or (fs.read (FilePath.objects id) offset length s.files) io

      unfoldable pub read_object : (id : ℕ) → MassStore → Result MassError (List ℕ)
      unfolding read_range
      read_object id s = do i ← info id s; read_range id 0 i.byte_length s
