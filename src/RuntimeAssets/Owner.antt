-- ===== src/RuntimeAssets/Owner.antt =====
-- `Picasso` of src/runtime_assets.rs: opening, closing and forking the owner of the assets.
--
-- What redb does with the image lies in redb, and so `Redb` is a parameter: `create` is
-- `create_with_backend`, which may write to the image; `write_back` is what a call that left
-- the tables `db'` wrote; `compact` and `close` are `compact` and the drop of the database; and
-- `releases` says whether that drop gave back its share of the image, so that `Arc::try_unwrap`
-- finds one owner. The field `image` of `RuntimeAssetDatabase` stands beside its other fields.
pub mod Reopen
use Prim.Native.String.{String}
use trueos_picasso.Prelude.{
  ℕ, Bool, true, false, not, Option, none, some, List, [], ◌∷◌, ◌==◌, length,
}
use trueos_picasso.Prelude.Result.{Result, ok, err, ok_or, guard, ◌>>=◌, ◌>>◌}
use trueos_picasso.Redb.{Table}
use trueos_picasso.RuntimeAssets.Backend.{RamImageBackend}
use trueos_picasso.RuntimeAssets.Database.{
  PicassoError, storage, Tables, Engine, RuntimeAssetDatabase, insert, remove_embedded_asset, get,
}

module _ (Lengths : Table String ℕ) (Chunks : Table (String × ℕ) (List ℕ)) where
  pub record Redb : Type 0 where
    pub create : RamImageBackend → Option (Tables Lengths Chunks × RamImageBackend)
    pub write_back : (db db' : Tables Lengths Chunks) → RamImageBackend → RamImageBackend
    pub compact : Tables Lengths Chunks → RamImageBackend → Option RamImageBackend
    pub close : Tables Lengths Chunks → RamImageBackend → RamImageBackend
    pub releases : Tables Lengths Chunks → Bool

  pub record Picasso : Type 0 where
    pub assets : RuntimeAssetDatabase Lengths Chunks
    pub image : RamImageBackend

  module _ (redb : Redb) (e : Engine Lengths Chunks) where
    unfoldable pub open_image : List ℕ → (read_only : Bool) → Result PicassoError Picasso
    open_image bytes read_only = do
      (db, image) ← ok_or (redb.create (record { image = bytes; growable = not read_only })) storage
      ok (record { assets = record { database = db; read_only = read_only }; image = image })

    unfoldable pub new : Result PicassoError Picasso
    unfolding open_image
    new = open_image [] false

    -- A table that no transaction has created is an error here.
    unfoldable pub check_tables : Tables Lengths Chunks → Result PicassoError (Unit {0})
    check_tables db = do
      guard (e.begins_read db) storage
      lengths ← ok_or db.lengths storage
      guard (e.opens_lengths db) storage
      chunks ← ok_or db.chunks storage
      guard (e.opens_chunks db) storage

    unfoldable pub from_image : List ℕ → Result PicassoError Picasso
    unfolding open_image check_tables
    from_image bytes = do
      guard (not (length bytes == 0)) storage
      result ← open_image bytes true
      check_tables result.assets.database
      ok result

    unfoldable pub into_image : Picasso → Result PicassoError (List ℕ)
    into_image p = do
      guard (not p.assets.read_only) storage
      compacted ← ok_or (redb.compact p.assets.database p.image) storage
      guard (redb.releases p.assets.database) storage
      ok (redb.close p.assets.database compacted).image

    -- `fork_runtime_database`: the fork has an image of its own.
    unfoldable pub fork_runtime_database : Picasso → Result PicassoError Picasso
    unfolding open_image
    fork_runtime_database p = open_image p.image.image false

    -- What a call of the database leaves of the owner.
    abbrev pub settle_owner :
        Picasso
        → Result PicassoError (Unit {0}) × RuntimeAssetDatabase Lengths Chunks
        → Result PicassoError (Unit {0}) × Picasso
    settle_owner p (answer, d) = (
      answer,
      record { assets = d; image = redb.write_back p.assets.database d.database p.image },
    )

    unfoldable pub put_embedded_asset :
        String → List ℕ → Picasso → Result PicassoError (Unit {0}) × Picasso
    unfolding insert
    put_embedded_asset name bytes p = settle_owner p (insert Lengths Chunks e name bytes p.assets)

    unfoldable pub embedded_asset : String → Picasso → Result PicassoError (Option (List ℕ))
    unfolding get
    embedded_asset name p = get Lengths Chunks e name p.assets
