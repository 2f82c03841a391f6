-- ===== src/Mass/Store.antt =====
-- `Store::put` and `Store::reserve_id` of src/nosql.rs, as actions on the catalog and the files.
--
-- An action that fails leaves what was done before it. The log line is left out.
pub mod Steps
pub mod Immutable
pub mod Reads
pub mod RoundTrip
use trueos_picasso.Prelude.{ℕ, Bool, true, false, not, Option, none, some, List, length}
use trueos_picasso.Prelude.Result.{Result, ok, err}
use trueos_picasso.Prelude.Eff.{Eff, pure, raise, guard, ◌>>=◌, ◌>>◌}
use trueos_picasso.Redb.{Table}
use trueos_picasso.Text.{Text, contains}
use trueos_picasso.Mass.Files.{FileSystem, FilePath}
use trueos_picasso.Mass.Catalog.{MassStore, MassEngine, reserve_txn, publish_txn}
use trueos_picasso.Mass.{MassError, io, invalid_label, Utf8, encode_record}

module _ (M : Table Text ℕ) (O : Table ℕ (List ℕ)) (fs : FileSystem) where
  abbrev pub Action : Type 0 → Type 0
  Action A = Eff (MassStore M O fs) MassError A

  -- A transaction that fails changes nothing.
  abbrev pub settled :
      {A : Type 0}
      → MassStore M O fs
      → Result MassError (A × MassStore M O fs)
      → Result MassError A × MassStore M O fs
  settled s (ok p) = (ok p.0, p.1)
  settled s (err x) = (err x, s)

  abbrev pub with_files :
      MassStore M O fs → Option fs.State → Result MassError (Unit {0}) × MassStore M O fs
  with_files s none = (err io, s)
  with_files s (some files) = (ok tt, record s { files = files })

  abbrev pub after_write :
      MassStore M O fs → Bool × fs.State → Result MassError (Unit {0}) × MassStore M O fs
  after_write s (true, files) = (ok tt, record s { files = files })
  after_write s (false, files) = (err io, record s { files = files })

  unfoldable pub create_file : FilePath → Action (Unit {0})
  create_file path s = with_files s (fs.create path s.files)

  unfoldable pub write_file : FilePath → List ℕ → Action (Unit {0})
  write_file path bytes s = after_write s (fs.write_all path bytes s.files)

  unfoldable pub sync_file : FilePath → Action (Unit {0})
  sync_file path s = guard (fs.sync_all path s.files) io s

  unfoldable pub rename_file : (from to : FilePath) → Action (Unit {0})
  rename_file from to s = with_files s (fs.rename from to s.files)

  -- `sync_directory` of the objects
  unfoldable pub sync_directory : Action (Unit {0})
  sync_directory s = guard (fs.sync_objects s.files) io s

  module _ (e : MassEngine M O fs) where
    unfoldable pub reserve_id : Action ℕ
    reserve_id s = settled s (reserve_txn M O fs e s)

    unfoldable pub publish_record : (id : ℕ) (bytes : List ℕ) → Action (Unit {0})
    publish_record id bytes s = settled s (publish_txn M O fs e id bytes s)

    -- From the staging file to the published record
    unfoldable pub put_as : (id : ℕ) (entry bytes : List ℕ) → Action ℕ
    unfolding create_file write_file sync_file rename_file sync_directory publish_record
    put_as id entry bytes = do
      create_file (FilePath.staging id)
      write_file (FilePath.staging id) bytes
      sync_file (FilePath.staging id)
      rename_file (FilePath.staging id) (FilePath.objects id)
      sync_directory
      publish_record id entry
      pure id

    unfoldable pub put : Utf8 → (label : Text) (bytes : List ℕ) → Action ℕ
    unfolding reserve_id put_as
    put u label bytes = do
      guard (not (contains label 0)) invalid_label
      id ← reserve_id
      put_as id (encode_record u (length bytes) label) bytes
