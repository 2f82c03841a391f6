-- ===== src/Catalog/Tests/Histories.antt =====
-- A derived artifact of src/glTFredb.rs and a second import: runs of the models.
use trueos_picasso.Prelude.{ℕ, ◌≡◌, refl, none, some, List, [], ◌∷◌, arith}
use trueos_picasso.Prelude.Result.{Result, ok}
use trueos_picasso.Text.{Text, codes, text_eq, is_blank, contains, decimal, utf8_len, decimal08}
use trueos_picasso.Redb.Chunked.{insert_chunks, chunks, chunks_of}
use trueos_picasso.Catalog.Blobs.{put_blob}
use trueos_picasso.Catalog.Reading.{revision, revision_in}
use trueos_picasso.Catalog.Tracking.{insert_missing_tracking, insert_missing, insert_if_missing}
use trueos_picasso.Catalog.Keys.{revision_key, derived_key, derived_path, chunk_path}
use trueos_picasso.Catalog.Import.Parsing.{parse}
use trueos_picasso.Catalog.Import.Writes.{revision_prefix, roots_key, eid}
use trueos_picasso.Catalog.Types.{Error, record_eq, Store}
use trueos_picasso.Catalog.Derived.{
  put_derived, put_derived_txn, decode_found, write_new, confirm, confirm_chunks, derived_artifact,
}
use trueos_picasso.Catalog.Derived.Publish.{IsPaired}
use trueos_picasso.Catalog.Derived.History.{
  Later, now, imports, AllowsReads, derived_immutable, put_derived_conflicts,
}
use trueos_picasso.Catalog.Import.Publish.{Counts, import-Published}
use trueos_picasso.Catalog.Import.{asset_key, import}
use trueos_picasso.Catalog.Tests.{T, serde, engine, engine-IsGranting}
use trueos_picasso.Catalog.Tests.Imports.{
  rc, accepts, no_base64, no_files, empty_store, run, run_ok,
}

abbrev first : Store T
first = (run empty_store).1

first-IsPaired : IsPaired T serde first
first-IsPaired s q = absurd (cc (q, kept))
  where
    kept : first.derived ≡ none
    kept =
        (import-Published T engine serde rc accepts no_base64 (codes "a") (7 ∷ []) no_files
          empty_store run_ok).derived_kept.0

abbrev publish : Text → List ℕ → Store T → Result Error (Unit {0}) × Store T
publish provenance bytes = put_derived T engine serde 1 (codes "x/1") provenance bytes

abbrev with_artifact : Store T
with_artifact = (publish (codes "p") (5 ∷ 6 ∷ []) first).1

published_once : publish (codes "p") (5 ∷ 6 ∷ []) first ≡ (ok tt, with_artifact)
unfolding import parse put_blob insert_chunks chunks insert_missing_tracking insert_missing
    insert_if_missing revision_prefix revision_key decimal text_eq asset_key roots_key eid
    put_derived derived_key is_blank contains revision revision_in put_derived_txn decode_found
    write_new
published_once = refl

with_artifact-Counts : Counts T engine serde rc with_artifact 2
unfolding import parse put_blob insert_chunks chunks insert_missing_tracking insert_missing
    insert_if_missing revision_prefix revision_key decimal text_eq asset_key roots_key eid
    put_derived derived_key is_blank contains revision revision_in put_derived_txn decode_found
    write_new
with_artifact-Counts = refl

abbrev second : Store T
second = (run with_artifact).1

imported_again : run with_artifact ≡ (ok 2, second)
unfolding import parse put_blob insert_chunks chunks insert_missing_tracking insert_missing
    insert_if_missing revision_prefix revision_key decimal text_eq asset_key roots_key eid
    put_derived derived_key is_blank contains revision revision_in put_derived_txn decode_found
    write_new confirm confirm_chunks record_eq derived_path utf8_len chunk_path decimal08 chunks_of
imported_again = refl

later : Later T serde rc accepts no_base64 with_artifact 1 second
later = imports now engine (codes "a") (7 ∷ []) no_files imported_again

second-AllowsReads : AllowsReads T serde rc accepts no_base64 second
second-AllowsReads = record {
  records = λ s q k. refl;
  derived = λ s q k. refl;
  derived_blobs = λ s q k. refl;
}

derived_immutable_example :
    derived_artifact T engine serde 1 (codes "x/1") second
    ≡ ok (
        some (record {
          source_revision = 1;
          name = codes "x/1";
          provenance = codes "p";
          bytes = 5 ∷ 6 ∷ [];
        }))
derived_immutable_example =
    derived_immutable T serde rc accepts no_base64 engine engine-IsGranting engine 1 2 (codes "x/1")
      (codes "p") (5 ∷ 6 ∷ []) first with_artifact second first-IsPaired published_once
      with_artifact-Counts (omega arith) (omega arith) later second-AllowsReads

abbrev republished : Store T
republished = (publish (codes "p") (5 ∷ 6 ∷ []) second).1

published_again : publish (codes "p") (5 ∷ 6 ∷ []) second ≡ (ok tt, republished)
unfolding import parse put_blob insert_chunks chunks insert_missing_tracking insert_missing
    insert_if_missing revision_prefix revision_key decimal text_eq asset_key roots_key eid
    put_derived derived_key is_blank contains revision revision_in put_derived_txn decode_found
    write_new confirm confirm_chunks record_eq derived_path utf8_len chunk_path decimal08 chunks_of
published_again = refl

put_derived_conflicts_example :
    (codes "p" ≡ codes "p") × (◌≡◌ {A = List ℕ} (5 ∷ 6 ∷ []) (5 ∷ 6 ∷ []))
put_derived_conflicts_example =
    put_derived_conflicts T serde rc accepts no_base64 engine engine 1 (codes "x/1") (codes "p")
      (codes "p") (5 ∷ 6 ∷ []) (5 ∷ 6 ∷ []) first with_artifact second republished first-IsPaired
      published_once later published_again
