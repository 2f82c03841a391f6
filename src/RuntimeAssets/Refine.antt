-- ===== src/RuntimeAssets/Refine.antt =====
-- The methods of src/runtime_assets.rs refine a map from names to bytes.
use Prim.Native.String.{String}
use mathlib.Core.Path.{subst}
use text.Mathlib.Text.{◌==◌ as str_eq}
use text.Mathlib.TextEquality.{eq_iff}
use trueos_picasso.Prelude.{
  ℕ, ◌-◌, ◌≡◌, ◌≢◌, ◌↔◌, refl, ap, sym, ◌∙◌, false, not, Option, none, some, List, length, arith,
}
use trueos_picasso.Prelude.Result.{Result, ok, err, guard-ok, ok_or-ok, ok_or-some, >>=-eq-ok}
use trueos_picasso.Redb.{or_empty, Table, IsReliable, In}
use trueos_picasso.Redb.Chunked.{div_ceil, chunks, insert_chunks-total, remove_chunks-total}
use trueos_picasso.RuntimeAssets.Database.{
  PicassoError, storage, chunk_bytes, validate_name, or_zero, chunk_key, Tables, Engine,
  RuntimeAssetDatabase, settle, insert_txn, remove_txn, insert, remove_embedded_asset, get,
  embedded_asset_names,
}
use trueos_picasso.RuntimeAssets.View.{HoldsIn, Represents}
use trueos_picasso.RuntimeAssets.RoundTrip.{
  with_asset, insert_txn-Represents, remove_txn-Represents,
}
use trueos_picasso.RuntimeAssets.Lookup.{IsGranting, validate_name-ok, get-Represents}

not_equal : (a b : String) → a ≢ b → str_eq a b ≡ false
not_equal a b ne = ground (arith, eq_iff a b)

named : (name : String) → validate_name name ≡ ok tt → name ≢ ""
unfolding validate_name
named name v = ground (arith, eq_iff name "")

module _ (Lengths : Table String ℕ) (Chunks : Table (String × ℕ) (List ℕ)) where
  abbrev View : Type 0
  View = String → Option (List ℕ)

  settle-ok :
      (e : Engine Lengths Chunks) (d : RuntimeAssetDatabase Lengths Chunks)
      (r : Result PicassoError (Tables Lengths Chunks)) {d' : RuntimeAssetDatabase Lengths Chunks}
      → settle Lengths Chunks e d r ≡ (ok tt, d')
      → (db : Tables Lengths Chunks) × (r ≡ ok db) × (record d { database = db } ≡ d')
  settle-ok e d (ok db) h = (db, refl, cc)
  settle-ok e d (err x) h = absurd (cc)

  settle-err :
      (e : Engine Lengths Chunks) (d : RuntimeAssetDatabase Lengths Chunks)
      (r : Result PicassoError (Tables Lengths Chunks)) {x : PicassoError}
      {d' : RuntimeAssetDatabase Lengths Chunks}
      → settle Lengths Chunks e d r ≡ (err x, d')
      → d ≡ d'
  settle-err e d (ok db) h = absurd (cc)
  settle-err e d (err x) h = cc

  -- A name has a length exactly when it has an asset.
  known :
      (l : Lengths.State) (c : Chunks.State) (name : String) (o : Option (List ℕ))
      → HoldsIn Lengths Chunks l c name o
      → (Lengths.lookup l name ≢ none) ↔ (o ≢ none)
  known l c name none h = (λ ne. absurd (ne h.0), λ ne. absurd (ne refl))
  known l c name (some bytes) h = (λ _. cc, λ _ q. cc)

  module _ (e : Engine Lengths Chunks) (name : String) (d : RuntimeAssetDatabase Lengths Chunks)
      {d' : RuntimeAssetDatabase Lengths Chunks} where
    insert-ok :
        (bytes : List ℕ) (view : View)
        → Represents Lengths Chunks d.database view
        → insert Lengths Chunks e name bytes d ≡ (ok tt, d')
        → (d.read_only ≡ false)
          × (name ≢ "")
          × Represents Lengths Chunks d'.database (with_asset Lengths Chunks view name (some bytes))
    unfolding insert
    insert-ok bytes view h ran =
        let (db, r, q) = settle-ok e d _ ran in
        let (writable, r1) = guard-ok (not d.read_only) storage _ r in
        let (_, valid, r2) =
          >>=-eq-ok (validate_name name) (λ _. insert_txn Lengths Chunks e name bytes d.database)
            r1 in
        (
          ground (arith, writable),
          named name valid,
          subst
              (λ x.
                Represents Lengths Chunks x.database
                  (with_asset Lengths Chunks view name (some bytes)))
              q (insert_txn-Represents Lengths Chunks e name d.database view h bytes r2),
        )

    remove-ok :
        (view : View)
        → Represents Lengths Chunks d.database view
        → remove_embedded_asset Lengths Chunks e name d ≡ (ok tt, d')
        → (d.read_only ≡ false)
          × (name ≢ "")
          × Represents Lengths Chunks d'.database (with_asset Lengths Chunks view name none)
    unfolding remove_embedded_asset
    remove-ok view h ran =
        let (db, r, q) = settle-ok e d _ ran in
        let (writable, r1) = guard-ok (not d.read_only) storage _ r in
        let (_, valid, r2) =
          >>=-eq-ok (validate_name name) (λ _. remove_txn Lengths Chunks e name d.database) r1 in
        (
          ground (arith, writable),
          named name valid,
          subst
              (λ x. Represents Lengths Chunks x.database (with_asset Lengths Chunks view name none))
              q (remove_txn-Represents Lengths Chunks e name d.database view h r2),
        )

    insert-err :
        (bytes : List ℕ) {x : PicassoError}
        → insert Lengths Chunks e name bytes d ≡ (err x, d')
        → d ≡ d'
    unfolding insert
    insert-err bytes ran = settle-err e d _ ran

    remove-err :
        {x : PicassoError} → remove_embedded_asset Lengths Chunks e name d ≡ (err x, d') → d ≡ d'
    unfolding remove_embedded_asset
    remove-err ran = settle-err e d _ ran

    -- `insert` sets the one asset in the map that the tables hold, and only for a named asset of a
    -- writable owner; if it reports an error, the database is as it was.
    pub insert_refines :
        (bytes : List ℕ) (view : View)
        → Represents Lengths Chunks d.database view
        → (insert Lengths Chunks e name bytes d ≡ (ok tt, d')
            → (d.read_only ≡ false)
              × (name ≢ "")
              × Represents Lengths Chunks d'.database
                  (with_asset Lengths Chunks view name (some bytes)))
          × ((x : PicassoError) → insert Lengths Chunks e name bytes d ≡ (err x, d') → d ≡ d')
    insert_refines bytes view h = (insert-ok bytes view h, λ x. insert-err bytes)

    -- `remove_embedded_asset` takes the one asset out of the map, with every chunk of it, and only
    -- from a writable owner; if it reports an error, the database is as it was.
    pub remove_refines :
        (view : View)
        → Represents Lengths Chunks d.database view
        → (remove_embedded_asset Lengths Chunks e name d ≡ (ok tt, d')
            → (d.read_only ≡ false)
              × (name ≢ "")
              × Represents Lengths Chunks d'.database (with_asset Lengths Chunks view name none))
          × ((x : PicassoError)
              → remove_embedded_asset Lengths Chunks e name d ≡ (err x, d')
              → d ≡ d')
    remove_refines view h = (remove-ok view h, λ x. remove-err)

  module _ (rel : IsReliable Lengths) (rel' : IsReliable Chunks) (e : Engine Lengths Chunks)
      (granted : IsGranting Lengths Chunks e) (name : String) where
    insert_txn-total :
        (bytes : List ℕ) (db : Tables Lengths Chunks)
        → (db' : Tables Lengths Chunks) × (insert_txn Lengths Chunks e name bytes db ≡ ok db')
    unfolding insert_txn
    insert_txn-total bytes db =
        let previous = Lengths.lookup (or_empty Lengths db.lengths) name in
        let first = div_ceil (length bytes) chunk_bytes in
        let (written, w) =
          insert_chunks-total Chunks (chunk_key name) rel' 0 (chunks chunk_bytes bytes)
            (or_empty Chunks db.chunks) in
        let (pruned, p) =
          remove_chunks-total Chunks (chunk_key name) rel' first
            (div_ceil (or_zero previous) chunk_bytes - first) written in
        let (lengths, l) = rel.insert_total (or_empty Lengths db.lengths) name (length bytes) in
        (
          record { lengths = some lengths; chunks = some pruned },
          rw
              (
                granted.begins_write db,
                granted.opens_lengths db,
                rel.get_total (or_empty Lengths db.lengths) name,
                granted.opens_chunks db,
                w,
                p,
                l,
                granted.commits (record { lengths = some lengths; chunks = some pruned }),
              )
              refl,
        )

    -- With redb's calls granted, a writable owner stores every named asset.
    insert-total :
        (bytes : List ℕ) (d : RuntimeAssetDatabase Lengths Chunks)
        → d.read_only ≡ false
        → name ≢ ""
        → (insert Lengths Chunks e name bytes d).0 ≡ ok tt
    unfolding insert
    insert-total bytes d w ne =
        let (db', ran) = insert_txn-total bytes d.database in
        rw (w, validate_name-ok name ne, ran) refl

    -- With redb's calls granted, a named asset put into a writable owner is stored, `get` returns
    -- exactly its bytes from then on, and every other asset is as before.
    pub get-insert :
        (bytes : List ℕ) (d : RuntimeAssetDatabase Lengths Chunks) (view : View)
        → Represents Lengths Chunks d.database view
        → d.read_only ≡ false
        → name ≢ ""
        → let (answer, d') = insert Lengths Chunks e name bytes d in
          (answer ≡ ok tt)
          × (get Lengths Chunks e name d' ≡ ok (some bytes))
          × ((other : String)
              → other ≢ ""
              → name ≢ other
              → get Lengths Chunks e other d' ≡ get Lengths Chunks e other d)
    get-insert bytes d view h w ne = (
      stored,
      reads name ne ∙ ap ok (rw ((eq_iff name name).1 refl) refl),
      λ other ne' apart.
          reads other ne'
          ∙ ap ok (rw (not_equal name other apart) refl)
          ∙ sym (get-Represents Lengths Chunks e d view other rel rel' granted h ne'),
    )
      where
        d' : RuntimeAssetDatabase Lengths Chunks
        d' = (insert Lengths Chunks e name bytes d).1

        stored : (insert Lengths Chunks e name bytes d).0 ≡ ok tt
        stored = insert-total bytes d w ne

        after : View
        after = with_asset Lengths Chunks view name (some bytes)

        represents : Represents Lengths Chunks d'.database after
        represents = (insert-ok e name d bytes view h (λ i. (stored i, d'))).2

        reads : (k : String) → k ≢ "" → get Lengths Chunks e k d' ≡ ok (after k)
        reads k ne' = get-Represents Lengths Chunks e d' after k rel rel' granted represents ne'

  -- The names that `embedded_asset_names` lists are those of the assets in the map.
  pub names_refine :
      (e : Engine Lengths Chunks) (d : RuntimeAssetDatabase Lengths Chunks) (view : View)
      {names : List String}
      → Represents Lengths Chunks d.database view
      → embedded_asset_names Lengths Chunks e d ≡ ok names
      → (name : String) → In name names ↔ (view name ≢ none)
  unfolding embedded_asset_names
  names_refine e d view {names} h ran name =
      let (_, r1) = guard-ok (e.begins_read d.database) storage _ ran in
      let (lengths, q, r2) = ok_or-ok d.database.lengths storage _ r1 in
      let (_, r3) = guard-ok (e.opens_lengths d.database) storage _ r2 in
      let listed = Lengths.iter_in lengths (ok_or-some (Lengths.iter lengths) storage r3) name in
      let same = known lengths (or_empty Chunks d.database.chunks) name (view name) (
        subst
          (λ o.
            HoldsIn Lengths Chunks (or_empty Lengths o) (or_empty Chunks d.database.chunks) name
              (view name))
          q (h.holds name)) in
      (λ i. same.0 (listed.0 i), λ v. listed.1 (same.1 v))
