-- ===== src/Catalog/Tests/Runs.antt =====
-- Runs of the operations of src/glTFredb.rs on a store with one complete revision.
use trueos_picasso.Prelude.{ℕ, ◌≡◌, ◌≢◌, ◌⊎◌, refl, true, false, none, some, List, [], ◌∷◌}
use trueos_picasso.Prelude.Result.{ok, err}
use trueos_picasso.Redb.{or_empty}
use trueos_picasso.Text.Split.{text_eq_iff}
use trueos_picasso.Redb.Assoc.{assoc_table-IsReliable}
use trueos_picasso.Text.{Text, codes, text_eq, is_blank, contains, decimal, utf8_len, decimal08}
use trueos_picasso.Redb.Chunked.{insert_chunks, chunks, chunks_of}
use trueos_picasso.Catalog.Reading.{revision, revision_in}
use trueos_picasso.Catalog.Types.{record_eq, Error, Tracking, default_tracking, Store}
use trueos_picasso.Catalog.Keys.{
  revision_key, derived_key, derived_path, chunk_path, derived_chunk-injective,
}
use trueos_picasso.Catalog.Tracking.{
  tracking_of, set_tracking_txn, set_tracking, insert_if_missing, insert_missing,
  insert_missing_tracking, initialize_txn, initialize_tracking,
}
use trueos_picasso.Catalog.Tracking.Overlay.{IsSound, entry, IsConsistent}
use trueos_picasso.Catalog.Tracking.Decisions.{
  set_tracking-IsConsistent, tracking-set_tracking, initialize_tracking_lem,
}
use trueos_picasso.Catalog.Derived.{
  confirm_chunks, confirm, put_derived_txn, decode_found, write_new, put_derived,
}
use trueos_picasso.Catalog.Blobs.{put_blob}
use trueos_picasso.Catalog.Tests.{T, serde, engine, engine-IsGranting, imported, put, after_put}

key_run : derived_key 7 (codes "x/1") ≡ ok (derived_path 7 (codes "x/1"))
unfolding derived_key is_blank contains
key_run = refl

derived_chunk-injective_example :
    (◌≡◌ {A = ℕ} 7 7) × (codes "x/1" ≡ codes "x/1") × (◌≡◌ {A = ℕ} 3 3)
derived_chunk-injective_example =
    derived_chunk-injective 7 7 3 3 (codes "x/1") (codes "x/1") key_run key_run refl

abbrev tracked : Store T
tracked = (initialize_tracking T engine serde after_put).1

initialize_run : initialize_tracking T engine serde after_put ≡ (ok 1, tracked)
unfolding initialize_tracking initialize_txn insert_missing_tracking insert_missing
    insert_if_missing put_derived derived_key is_blank contains revision revision_in text_eq
    revision_key decimal put_derived_txn decode_found write_new insert_chunks chunks
initialize_run = refl

abbrev republished : Store T
republished = (put (codes "p") (5 ∷ 6 ∷ []) after_put).1

again_run : put (codes "p") (5 ∷ 6 ∷ []) after_put ≡ (ok tt, republished)
unfolding put_derived derived_key is_blank contains revision revision_in text_eq revision_key
    decimal put_derived_txn decode_found write_new insert_chunks chunks confirm confirm_chunks
    record_eq derived_path utf8_len chunk_path decimal08 chunks_of
again_run = refl

abbrev respected : Tracking
respected = record { included = true; fully_respected = true; tested = false }

abbrev decided : Store T
decided = (set_tracking T engine serde (codes "r/7/revision") respected imported).1

decide_run :
    set_tracking T engine serde (codes "r/7/revision") respected imported ≡ (ok tt, decided)
unfolding set_tracking set_tracking_txn text_eq
decide_run = refl

imported-IsConsistent : IsConsistent T serde imported
imported-IsConsistent key bytes t found dec = absurd (cc)

set_tracking-IsConsistent_example :
    (set_tracking T engine serde (codes "r/7/revision") respected imported ≡ (ok tt, decided)
      → IsSound respected
        × (T.lookup (or_empty T imported.records) (codes "r/7/revision") ≢ none)
        × IsConsistent T serde decided)
    × ((x : Error)
        → set_tracking T engine serde (codes "r/7/revision") respected imported ≡ (err x, decided)
        → imported ≡ decided)
set_tracking-IsConsistent_example =
    set_tracking-IsConsistent T serde engine (codes "r/7/revision") respected imported decided
      imported-IsConsistent

tracking-set_tracking_example :
    (tracking_of T engine serde (codes "r/7/revision") decided ≡ ok (some respected))
    × ((other : Text)
        → codes "r/7/revision" ≢ other
        → tracking_of T engine serde other decided ≡ tracking_of T engine serde other imported)
tracking-set_tracking_example =
    tracking-set_tracking T serde engine (assoc_table-IsReliable text_eq text_eq_iff)
      engine-IsGranting (codes "r/7/revision") respected imported decided decide_run

abbrev begun : Store T
begun = (initialize_tracking T engine serde imported).1

begin_run : initialize_tracking T engine serde imported ≡ (ok 1, begun)
unfolding initialize_tracking initialize_txn insert_missing_tracking insert_missing
    insert_if_missing
begin_run = refl

initialize_tracking_lem_example :
    ((key : Text)
      → T.lookup (or_empty T imported.records) key ≢ none
      → entry T serde begun key ≢ none)
    × ((key : Text)
        → entry T serde imported key ≢ none
        → entry T serde begun key ≡ entry T serde imported key)
    × ((key : Text)
        → entry T serde imported key ≡ none
        → (entry T serde begun key ≡ none)
          ⊎ (entry T serde begun key ≡ serde.tracking.to_vec default_tracking))
    × IsConsistent T serde begun
initialize_tracking_lem_example =
    initialize_tracking_lem T serde engine imported begun 1 imported-IsConsistent begin_run

abbrev with_blob : List (Text × List ℕ)
with_blob = (codes "b/00000000", 7 ∷ 8 ∷ []) ∷ []

put_blob_run : put_blob T (codes "b") (7 ∷ 8 ∷ []) [] ≡ ok with_blob
unfolding put_blob insert_chunks chunks chunks_of chunk_path decimal08 decimal
put_blob_run = refl
