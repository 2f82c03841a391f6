-- ===== src/Catalog/Import/Publish.antt =====
-- What a successful import of src/glTFredb.rs leaves in the store.
use mathlib.Core.Path.{subst}
use trueos_picasso.Prelude.{ℕ, ◌≡◌, refl, Option, some, List}
use trueos_picasso.Prelude.Result.{ok, err, guard-ok, ok_or-ok, >>=-eq-ok, ok-injective}
use trueos_picasso.Prelude.Words.{wrapping_add}
use trueos_picasso.Redb.{Table, or_empty}
use trueos_picasso.Text.{Text}
use trueos_picasso.Catalog.Types.{
  Error, transaction, table, storage, commit, json, Codecs, meta, records, Store, Engine, settle-ok,
  settle-err,
}
use trueos_picasso.Catalog.Import.Items.{Gltf}
use trueos_picasso.Catalog.Import.Records.{RecordCodecs}
use trueos_picasso.Catalog.Import.Parsing.{Prepared, parse}
use trueos_picasso.Catalog.Import.Writes.{Batch}
use trueos_picasso.Catalog.Import.Seeding.{Seeded, seed_tracking-Seeded}
use trueos_picasso.Catalog.Import.{
  asset_key, next_revision, decode_counter, take_revision, write_all, seed_tracking, import_txn,
  import,
}
use trueos_picasso.Catalog.Import.Written.{Written, write_all-Written}

module _ {F : Type 0} (T : Table Text (List ℕ)) (e : Engine T) (c : Codecs)
    (rc : RecordCodecs F) where
  -- The counter that a store has: 1 before its first import.
  abbrev pub Counts : Store T → ℕ → Type 0
  Counts d n = decode_counter T e c rc (T.lookup (or_empty T d.meta) next_revision) ≡ ok n

  -- What an import establishes: the revision took the counter, its record is complete and the
  -- asset's latest, all is tracked, and everything outside of it is as before.
  pub record Published (id : ℕ) (asset_id : Text) (source : List ℕ) (d d' : Store T) : Type 0 where
    pub took : Counts d id
    pub counts : Counts d' (wrapping_add id 1)
    pub before : Batch T
    pub before_is : before ≡ record { records = or_empty T d.records; blobs = or_empty T d.blobs }
    pub after : Batch T
    pub records_are : d'.records ≡ some (after.records)
    pub blobs_are : d'.blobs ≡ some (after.blobs)
    pub written : Written T e c rc id asset_id source before after
    pub seeded :
        Seeded T e c rc id
          (asset_key asset_id)
          after.records
          (or_empty T d.tracking)
          (or_empty T d'.tracking)
    pub derived_kept : (d'.derived ≡ d.derived) × (d'.derived_blobs ≡ d.derived_blobs)

  -- The counter in a table of META.
  abbrev pub CountsIn : T.State → ℕ → Type 0
  CountsIn s n = decode_counter T e c rc (T.lookup s next_revision) ≡ ok n

  take_revision-Counts :
      (d : Store T) {n : ℕ × T.State}
      → take_revision T e c rc d ≡ ok n
      → Counts d n.0 × CountsIn n.1 (wrapping_add n.0 1)
  unfolding take_revision
  take_revision-Counts d {n} h =
      let (_, h1) = guard-ok (e.opens meta d) table _ h in
      let (found, got, h2) = ok_or-ok (T.get (or_empty T d.meta) next_revision) storage _ h1 in
      let (next, dec, h3) = >>=-eq-ok (decode_counter T e c rc found) _ h2 in
      let (bytes, enc, h4) = ok_or-ok (rc.counter.to_vec (wrapping_add next 1)) json _ h3 in
      let (s, ins, h5) = ok_or-ok (T.insert (or_empty T d.meta) next_revision bytes) storage _ h4 in
      let set = T.insert_self (or_empty T d.meta) next_revision bytes ins in
      let back = rc.counter_exact.from_slice-to_vec (wrapping_add next 1) enc in
      let counted : CountsIn s (wrapping_add next 1) = rw (set, back) refl in
      let same : (next, s) ≡ n = ok-injective h5 in
      subst (λ (m : ℕ × T.State). Counts d m.0 × CountsIn m.1 (wrapping_add m.0 1)) same
        (
          subst (λ (o : Option (List ℕ)). decode_counter T e c rc o ≡ ok next)
              (T.get-eq (or_empty T d.meta) next_revision got) dec,
          counted,
        )

  abbrev committed : Store T → T.State → Batch T → T.State → Store T
  committed d counter b overlay = record d {
    meta = some counter;
    records = some b.records;
    blobs = some b.blobs;
    tracking = some overlay;
  }

  import_txn-Published :
      (asset_id : Text) (source : List ℕ) (p : Prepared F) (d : Store T) {id : ℕ} {d' : Store T}
      → import_txn T e c rc asset_id source p d ≡ ok (id, d')
      → Published id asset_id source d d'
  unfolding import_txn
  import_txn-Published asset_id source p d {id} {d'} h =
      let (_, h1) = guard-ok (e.begins_write d) transaction _ h in
      let (n, q, h2) = >>=-eq-ok (take_revision T e c rc d) _ h1 in
      let (_, h3) = guard-ok (e.opens records d) table _ h2 in
      let start : Batch T = record { records = or_empty T d.records; blobs = or_empty T d.blobs } in
      let (b, wrote, h4) = >>=-eq-ok (write_all T e c rc n.0 asset_id source p d start) _ h3 in
      let (t, seeds, h5) =
        >>=-eq-ok (seed_tracking T e c rc n.0 (asset_key asset_id) d b.records) _ h4 in
      let (_, h6) = guard-ok (e.commits (committed d n.1 b t.1)) commit _ h5 in
      let counted = take_revision-Counts d q in
      subst (λ (r : ℕ × Store T). Published r.0 asset_id source d r.1) (ok-injective h6)
        (record {
          took = counted.0;
          counts = counted.1;
          before = start;
          before_is = refl;
          after = b;
          records_are = refl;
          blobs_are = refl;
          written = write_all-Written T e c rc n.0 asset_id source p d start wrote;
          seeded = seed_tracking-Seeded T e c rc n.0 (asset_key asset_id) d b.records seeds;
          derived_kept = (refl, refl);
        })

  module _ (from_slice : List ℕ → Option (Gltf F)) (decode_base64 : Text → Option (List ℕ)) where
    -- An import that succeeds took the counter's revision and moved the counter on; the revision is
    -- complete and the asset's latest; every record below it and the asset have a tracking entry,
    -- and older entries stay; and all else in the tables is as before.
    pub import-Published :
        (asset_id : Text) (source : List ℕ) (external : Text → Option (List ℕ)) (d : Store T)
        {id : ℕ} {d' : Store T}
        → import T e c rc from_slice decode_base64 asset_id source external d ≡ (ok id, d')
        → Published id asset_id source d d'
    unfolding import
    import-Published asset_id source external d h =
        let (p, _, h1) =
          >>=-eq-ok (parse decode_base64 external from_slice source) _ (settle-ok T d _ h) in
        import_txn-Published asset_id source p d h1

    -- An import that fails leaves the store as it was, and a source that does not parse fails with
    -- its own error, whatever redb would have answered.
    pub import-err :
        (asset_id : Text) (source : List ℕ) (external : Text → Option (List ℕ)) (d : Store T)
        → ((x : Error) (d' : Store T)
            → import T e c rc from_slice decode_base64 asset_id source external d ≡ (err x, d')
            → d ≡ d')
          × ((x : Error)
              → parse decode_base64 external from_slice source ≡ err x
              → import T e c rc from_slice decode_base64 asset_id source external d ≡ (err x, d))
    unfolding import
    import-err asset_id source external d = (λ x d' h. settle-err T d _ h, λ x h. rw h refl)
