-- ===== src/RuntimeAssets/Owner/Reopen.antt =====
-- src/runtime_assets.rs: an ingestion owner's image opens as a read-only owner of the same assets.
use Prim.Native.String.{String}
use trueos_picasso.Prelude.{
  ℕ, ◌≡◌, ◌≢◌, refl, Bool, true, false, Option, none, some, List, length, ◌==◌, arith,
}
use trueos_picasso.Prelude.Result.{Result, ok, err, ◌>>◌}
use trueos_picasso.Redb.{Table, IsReliable}
use trueos_picasso.RuntimeAssets.Backend.{RamImageBackend}
use trueos_picasso.RuntimeAssets.Database.{
  PicassoError, storage, Tables, Engine, insert, remove_embedded_asset,
}
use trueos_picasso.RuntimeAssets.View.{Represents}
use trueos_picasso.RuntimeAssets.Lookup.{IsGranting, get-Represents}
use trueos_picasso.RuntimeAssets.Owner.{
  Redb, Picasso, open_image, check_tables, from_image, into_image, put_embedded_asset,
  embedded_asset,
}

module _ (Lengths : Table String ℕ) (Chunks : Table (String × ℕ) (List ℕ))
    (redb : Redb Lengths Chunks) where
  -- The owner serves exactly the assets of the map, and refuses every change and to be closed.
  pub record IsServing (e : Engine Lengths Chunks) (p : Picasso Lengths Chunks)
      (view : String → Option (List ℕ)) : Type 0 where
    pub serves :
        (name : String) → name ≢ "" → embedded_asset Lengths Chunks redb e name p ≡ ok (view name)
    pub refuses_put :
        (name : String) (bytes : List ℕ)
        → let (answer, p') = put_embedded_asset Lengths Chunks redb e name bytes p in
          (answer ≡ err storage) × (p'.assets ≡ p.assets)
    pub refuses_remove :
        (name : String)
        → remove_embedded_asset Lengths Chunks e name p.assets ≡ (err storage, p.assets)
    pub refuses_close : into_image Lengths Chunks redb e p ≡ err storage

  -- redb compacts and closes the database `db`, and gives back its share of the image; the image
  -- that it closed is not empty, and opens again, to grow or not, with the tables of `db`.
  pub record IsReopening (db : Tables Lengths Chunks) : Type 0 where
    pub compacts : (b : RamImageBackend) → (b' : RamImageBackend) × (redb.compact db b ≡ some b')
    pub releases : redb.releases db ≡ true
    pub not_empty : (b : RamImageBackend) → length (redb.close db b).image ≢ 0
    pub reopens :
        (b : RamImageBackend) (growable : Bool)
        → (b' : RamImageBackend) × (redb.create
              (record { image = (redb.close db b).image; growable = growable })
            ≡ some (db, b'))

  module _ (e : Engine Lengths Chunks) (p : Picasso Lengths Chunks)
      (reopening : IsReopening p.assets.database) where
    -- The image that a writable owner closes with.
    closed : List ℕ
    closed = (redb.close p.assets.database (reopening.compacts p.image).0).image

    abbrev reopened : Picasso Lengths Chunks
    reopened = record {
      assets = record { database = p.assets.database; read_only = true };
      image = (reopening.reopens (reopening.compacts p.image).0 false).0;
    }

    into_image_lem : p.assets.read_only ≡ false → into_image Lengths Chunks redb e p ≡ ok closed
    unfolding into_image closed
    into_image_lem w = ground (arith, w, (reopening.compacts p.image).1, reopening.releases)

    check_tables_lem :
        (view : String → Option (List ℕ)) (granted : IsGranting Lengths Chunks e)
        → Represents Lengths Chunks p.assets.database view
        → (p.assets.database.lengths ≡ none
            → check_tables Lengths Chunks redb e p.assets.database ≡ err storage)
          × (p.assets.database.lengths ≢ none
              → check_tables Lengths Chunks redb e p.assets.database ≡ ok tt)
    unfolding check_tables
    check_tables_lem view granted h = (
      λ q. ground (arith, q, granted.begins_read p.assets.database),
      λ ne. present p.assets.database.lengths refl ne,
    )
      where
        present :
            (o : Option Lengths.State)
            → p.assets.database.lengths ≡ o
            → o ≢ none
            → check_tables Lengths Chunks redb e p.assets.database ≡ ok tt
        present none q ne = absurd (ne refl)
        present (some l) q ne =
            let (c, r) = h.paired q in
            ground (
              arith,
              q,
              r,
              granted.begins_read p.assets.database,
              granted.opens_lengths p.assets.database,
              granted.opens_chunks p.assets.database,
            )

    from_image_lem :
        {answer : Result PicassoError (Unit {0})}
        → check_tables Lengths Chunks redb e p.assets.database ≡ answer
        → from_image Lengths Chunks redb e closed ≡ (answer >> ok reopened)
    unfolding from_image open_image closed
    from_image_lem q =
        let full : (length closed == 0) ≡ false =
          ground (arith, reopening.not_empty (reopening.compacts p.image).0) in
        rw (full, (reopening.reopens (reopening.compacts p.image).0 false).1, q) refl

    reopened-IsServing :
        (view : String → Option (List ℕ)) (rel : IsReliable Lengths) (rel' : IsReliable Chunks)
        (granted : IsGranting Lengths Chunks e)
        → Represents Lengths Chunks p.assets.database view
        → IsServing e reopened view
    unfolding embedded_asset put_embedded_asset insert remove_embedded_asset into_image
    reopened-IsServing view rel rel' granted h = record {
      serves = λ name. get-Represents Lengths Chunks e reopened.assets view name rel rel' granted h;
      refuses_put = λ name bytes. (refl, refl);
      refuses_remove = λ name. refl;
      refuses_close = refl;
    }

    -- A writable owner whose image redb closes and opens again gives up its image. If a transaction
    -- had created its tables, the image opens as an owner that serves exactly the same assets and
    -- refuses every change; if none had, the image is refused. This holds if redb grants its reads.
    pub from_image-into_image :
        (view : String → Option (List ℕ)) (rel : IsReliable Lengths) (rel' : IsReliable Chunks)
        (granted : IsGranting Lengths Chunks e)
        → Represents Lengths Chunks p.assets.database view
        → p.assets.read_only ≡ false
        → (image : List ℕ) × (into_image Lengths Chunks redb e p ≡ ok image)
          × (p.assets.database.lengths ≢ none
              → (p' : Picasso Lengths Chunks) × (from_image Lengths Chunks redb e image ≡ ok p')
                × IsServing e p' view)
          × (p.assets.database.lengths ≡ none
              → from_image Lengths Chunks redb e image ≡ err storage)
    from_image-into_image view rel rel' granted h w =
        let (missing, there) = check_tables_lem view granted h in
        (
          closed,
          into_image_lem w,
          λ ne. (reopened, from_image_lem (there ne), reopened-IsServing view rel rel' granted h),
          λ q. from_image_lem (missing q),
        )
