-- ===== src/Catalog/Import/Written.antt =====
-- What an import of src/glTFredb.rs leaves in its records and blobs.
use mathlib.Core.Path.{subst}
use trueos_picasso.Prelude.{ℕ, ◌≡◌, ◌≢◌, refl, ap, ◌∙◌, Option, some, List, [], ◌∷◌, arith}
use trueos_picasso.Prelude.Result.{ok, >>=-eq-ok}
use trueos_picasso.Redb.{Table}
use trueos_picasso.Text.{Text}
use trueos_picasso.Catalog.Types.{staging, complete, Codecs, blobs, Store, Engine}
use trueos_picasso.Catalog.Keys.{revision_key, chunk_path}
use trueos_picasso.Catalog.Blobs.{put_blob}
use trueos_picasso.Catalog.Import.Records.{RecordCodecs}
use trueos_picasso.Catalog.Import.Parsing.{Prepared}
use trueos_picasso.Catalog.Import.Writes.{
  Batch, source_blob_key, buffer_blob_key, put, put_blob_in, write_buffers, write_document,
  revision_prefix,
}
use trueos_picasso.Catalog.Import.Frame.{
  IsBelow, source_blob_key-IsBelow, revision_key-IsBelow, Kept-trans, Kept-weaken,
  chunk_path-IsBelow, buffer_blob_key-IsBelow, put_blob_in-stored, put-Wrote, put-Kept,
  put_blob_in-Kept,
}
use trueos_picasso.Catalog.Import.Loops.{write_buffers-Kept, write_document-Kept}
use trueos_picasso.Catalog.Import.{asset_key, revision_record, write_all}

abbrev pub initial : Text → ℕ
initial [] = 0
initial (x ∷ s) = x

-- The key of an asset is below no revision.
asset_key-apart : (r : ℕ) (asset_id : Text) → ¬ (IsBelow r (asset_key asset_id))
unfolding asset_key revision_prefix
asset_key-apart r asset_id h = absurd (omega (arith, ap initial h.1))

-- A chunk of the blob of a buffer.
abbrev pub IsBuffer : (revision : ℕ) (key : Text) → Type 0
IsBuffer r key = (i : ℕ) × (j : ℕ) × (chunk_path (buffer_blob_key r i) j ≡ key)

IsBuffer-IsBelow : (r : ℕ) (k : Text) → IsBuffer r k → IsBelow r k
IsBuffer-IsBelow r k (i, j, q) =
    subst (IsBelow r) q (chunk_path-IsBelow r (buffer_blob_key r i) j (buffer_blob_key-IsBelow r i))

module _ {F : Type 0} (T : Table Text (List ℕ)) (e : Engine T) (c : Codecs)
    (rc : RecordCodecs F) where
  -- A key of a table whose bytes decode to a value.
  abbrev pub Holds : {A : Type 0} → (List ℕ → Option A) → T.State → Text → A → Type 0
  Holds from_slice s key value =
      (bytes : List ℕ) × (T.lookup s key ≡ some bytes) × (from_slice bytes ≡ some value)

  pub record Written (id : ℕ) (asset_id : Text) (source : List ℕ) (b b' : Batch T) : Type 0 where
    pub revision :
        Holds c.revision.from_slice b'.records
          (revision_key id)
          (revision_record T e c rc id asset_id complete)
    pub asset :
        Holds rc.asset.from_slice b'.records
          (asset_key asset_id)
          (record { encoding = 1; id = asset_id; latest_revision = id })
    pub earlier :
        (k : Text)
        → ¬ (IsBelow id k)
        → asset_key asset_id ≢ k
        → T.lookup b'.records k ≡ T.lookup b.records k
    pub earlier_blobs : (k : Text) → ¬ (IsBelow id k) → T.lookup b'.blobs k ≡ T.lookup b.blobs k
    pub source_put :
        (m : T.State) × (put_blob T (source_blob_key id) source b.blobs ≡ ok m)
        × ((k : Text) → ¬ (IsBuffer id k) → T.lookup b'.blobs k ≡ T.lookup m k)

  pub write_all-Written :
      (id : ℕ) (asset_id : Text) (source : List ℕ) (p : Prepared F) (d : Store T) (b : Batch T)
      {b' : Batch T}
      → write_all T e c rc id asset_id source p d b ≡ ok b'
      → Written id asset_id source b b'
  unfolding write_all
  write_all-Written id asset_id source p d b {b'} h =
      let key = source_blob_key id in
      let (b1, q1, h1) = >>=-eq-ok (put_blob_in T (e.opens blobs d) key source b) _ h in
      let (b2, q2, h2) =
        >>=-eq-ok
          (put T c.revision (revision_key id) (revision_record T e c rc id asset_id staging) b1) _
          h1 in
      let (b3, q3, h3) = >>=-eq-ok (write_buffers T rc id (e.opens blobs d) p.buffers b2) _ h2 in
      let (b4, q4, h4) = >>=-eq-ok (write_document T rc id p.doc b3) _ h3 in
      let (b5, q5, h5) = >>=-eq-ok (put T rc.asset (asset_key asset_id) _ b4) _ h4 in
      let B = IsBuffer id in
      let middle =
        Kept-trans T id B b1 b2 b4 (put-Kept T id B c.revision _ _ b1 (revision_key-IsBelow id) q2)
          (Kept-trans T id B b2 b3 b4
            (write_buffers-Kept T rc id B (λ i j. (i, j, refl)) _ p.buffers b2 q3)
            (write_document-Kept T rc id B p.doc b3 q4)) in
      let first =
        put_blob_in-Kept T id (IsBelow id) _ key source b
          (λ j. chunk_path-IsBelow id key j (source_blob_key-IsBelow id)) q1 in
      let kept =
        Kept-trans T id (IsBelow id) b b1 b4 first
          (Kept-weaken T id B (IsBelow id) (IsBuffer-IsBelow id) b1 b4 middle) in
      let asset = put-Wrote T rc.asset (asset_key asset_id) _ b4 q5 in
      let last = put-Wrote T c.revision (revision_key id) _ b5 h5 in
      let done = put-Kept T id B c.revision _ _ b5 (revision_key-IsBelow id) h5 in
      let same =
        λ (k : Text). ap (λ (s : T.State). T.lookup s k) (last.same_blobs ∙ asset.same_blobs) in
      let (m, stored, b1_is) = put_blob_in-stored T _ key source b q1 in
      record {
        revision = (last.bytes, last.holds, c.revision_exact.from_slice-to_vec _ last.encodes);
        asset = (
          asset.bytes,
          done.records (asset_key asset_id) (asset_key-apart id asset_id) ∙ asset.holds,
          rc.asset_exact.from_slice-to_vec _ asset.encodes,
        );
        earlier = λ k no other. done.records k no ∙ (asset.others k other ∙ kept.records k no);
        earlier_blobs = λ k no. same k ∙ kept.blobs k no;
        source_put = (
          m,
          stored,
          λ k no. same k ∙ (middle.blobs k no ∙ ap (λ (s : T.State). T.lookup s k) b1_is),
        );
      }
