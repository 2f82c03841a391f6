-- ===== src/Catalog/Import/Source.antt =====
-- The source of an import of src/glTFredb.rs reads back from its blob.
use mathlib.Core.List.{append_assoc}
use trueos_picasso.Prelude.{
  ℕ, zero, suc, ◌+◌, ◌<◌, ◌≡◌, refl, ap, sym, ◌∙◌, Option, none, some, List, [], ◌++◌, drop, length,
  Option-cases, inl, inr, arith,
}
use trueos_picasso.Prelude.Result.{ok}
use trueos_picasso.Redb.{Table, IsReliable, or_empty}
use trueos_picasso.Redb.Chunked.{div_ceil}
use trueos_picasso.Text.{Text, codes, decimal, decimal08}
use trueos_picasso.Catalog.Types.{chunk_size, Codecs, Store, Engine, IsGranting}
use trueos_picasso.Catalog.Keys.{chunk_path, append_cancel}
use trueos_picasso.Catalog.Blobs.{blob_from, blob, blob-put_blob, blob_from-end, blob_from-suc}
use trueos_picasso.Catalog.Import.Items.{Gltf}
use trueos_picasso.Catalog.Import.Records.{RecordCodecs}
use trueos_picasso.Catalog.Import.Writes.{revision_prefix, source_blob_key, buffer_blob_key, Batch}
use trueos_picasso.Catalog.Import.Written.{initial, IsBuffer}
use trueos_picasso.Catalog.Import.Publish.{import-Published}
use trueos_picasso.Catalog.Import.Loads.{stored_blob, stored_blob-granted}
use trueos_picasso.Catalog.Import.{import}

-- A key below a revision, without its prefix.
source_chunk :
    (r j : ℕ)
    → chunk_path (source_blob_key r) j
      ≡ revision_prefix r ++ (codes "/blob/source" ++ (codes "/" ++ decimal08 j))
unfolding chunk_path source_blob_key
source_chunk r j =
    append_assoc (revision_prefix r) (codes "/blob/source") (codes "/" ++ decimal08 j)

buffer_chunk :
    (r i j : ℕ)
    → chunk_path (buffer_blob_key r i) j
      ≡ revision_prefix r ++ (codes "/blob/buffer/" ++ decimal i ++ (codes "/" ++ decimal08 j))
unfolding chunk_path buffer_blob_key
buffer_chunk r i j =
    append_assoc (revision_prefix r) (codes "/blob/buffer/" ++ decimal i) (codes "/" ++ decimal08 j)

-- No chunk of the source is one of a buffer.
source-not-IsBuffer : (r j : ℕ) → ¬ (IsBuffer r (chunk_path (source_blob_key r) j))
source-not-IsBuffer r j (i, k, q) =
    let e = append_cancel (revision_prefix r) (sym (buffer_chunk r i k) ∙ (q ∙ source_chunk r j)) in
    absurd (omega (arith, ap (λ (s : Text). initial (drop 6 s)) e))

module _ (T : Table Text (List ℕ)) (rel : IsReliable T) (id : Text) where
  -- `blob` reads the chunks of its own key only.
  blob_from-same :
      (index fuel : ℕ) (out : List ℕ) (s s' : T.State)
      → ((j : ℕ) → T.lookup s' (chunk_path id j) ≡ T.lookup s (chunk_path id j))
      → blob_from T id index fuel out s' ≡ blob_from T id index fuel out s
  unfolding blob_from
  blob_from-same index zero out s s' h = refl
  blob_from-same index (suc fuel) out s s' h =
      elim (Option-cases (T.lookup s (chunk_path id index))) [
        | inl q ↦
            blob_from-end T rel id index fuel out s' (h index ∙ q)
            ∙ sym (blob_from-end T rel id index fuel out s q)
        | inr (chunk, q) ↦
            blob_from-suc T rel id index fuel out chunk s' (h index ∙ q)
            ∙ (blob_from-same (index + 1) fuel (out ++ chunk) s s' h
                ∙ sym (blob_from-suc T rel id index fuel out chunk s q))
      ]

module _ {F : Type 0} (T : Table Text (List ℕ)) (e : Engine T) (c : Codecs) (rc : RecordCodecs F)
    (rel : IsReliable T) (granted : IsGranting T e) (from_slice : List ℕ → Option (Gltf F))
    (decode_base64 : Text → Option (List ℕ)) where
  -- The source that was imported reads back exactly from the blob that its revision names, if redb
  -- grants its calls and no chunk stood after its last one; one round more than it has chunks is
  -- enough for the loop of blob.
  pub blob-import :
      (asset_id : Text) (source : List ℕ) (external : Text → Option (List ℕ)) (d : Store T)
      (fuel : ℕ) {id : ℕ} {d' : Store T}
      → import T e c rc from_slice decode_base64 asset_id source external d ≡ (ok id, d')
      → T.lookup
          (or_empty T d.blobs)
          (chunk_path (source_blob_key id) (div_ceil (length source) chunk_size))
        ≡ none
      → div_ceil (length source) chunk_size < fuel
      → stored_blob T e fuel (source_blob_key id) d' ≡ some (ok source)
  unfolding blob
  blob-import asset_id source external d fuel {id} {d'} ran fresh enough =
      let p = import-Published T e c rc from_slice decode_base64 asset_id source external d ran in
      let (m, stored, same) = p.written.source_put in
      let key = source_blob_key id in
      let before = ap (λ (b : Batch T). b.blobs) p.before_is in
      let clean =
        ap (λ (s : T.State). T.lookup s (chunk_path key (div_ceil (length source) chunk_size)))
          before
        ∙ fresh in
      stored_blob-granted T e fuel key d' granted p.blobs_are
      ∙ (blob_from-same T rel key 0 fuel [] m p.after.blobs
            (λ j. same (chunk_path key j) (source-not-IsBuffer id j))
          ∙ blob-put_blob T rel key source p.before.blobs m fuel clean stored enough)
