-- ===== src/Catalog/Derived/Immutable.antt =====
-- A derived artifact of src/glTFredb.rs stays what it was, whatever the store's operations do.
use mathlib.Core.Path.{subst}
use trueos_picasso.Prelude.{ℕ, ◌≡◌, ◌≢◌, refl, sym, ap, ◌∙◌, not, Option, none, some, List}
use trueos_picasso.Prelude.Result.{Result, ok, err, guard-ok, ok_or-ok, >>=-eq-ok, ok-injective}
use trueos_picasso.Redb.{Table, or_empty}
use trueos_picasso.Redb.Chunked.{chunks, insert_chunks, insert_chunks-other, Stored, Stored-same}
use trueos_picasso.Text.{Text, is_blank}
use trueos_picasso.Catalog.Types.{
  Error, transaction, table, storage, commit, json, invalid_derived, chunk_size, DerivedRecord,
  Tracking, Codecs, record_eq, derived_conflict, derived, derived_blobs, Store, Engine, settle-ok,
  settle-err,
}
use trueos_picasso.Catalog.Keys.{
  derived_key, chunk_path, derived_chunk-injective, chunk_path-injective,
}
use trueos_picasso.Catalog.Reading.{revision}
use trueos_picasso.Catalog.Tracking.{set_tracking, initialize_tracking}
use trueos_picasso.Catalog.Tracking.Overlay.{set_tracking-Updated}
use trueos_picasso.Catalog.Tracking.Decisions.{
  set_tracking-err, initialize-Initialized, initialize-err,
}
use trueos_picasso.Catalog.Derived.{
  record_for, decode_found, confirm_chunks, confirm, write_new, confirm_or_write, put_derived_txn,
  put_derived,
}
use trueos_picasso.Catalog.Derived.Publish.{Published, IsPaired, decode_found-none}

module _ (T : Table Text (List ℕ)) (c : Codecs) where
  -- Every published artifact is as before.
  pub record Stays (d d' : Store T) : Type 0 where
    pub pairs : IsPaired T c d → IsPaired T c d'
    pub artifacts :
        (rev : ℕ) (name key : Text) (r : DerivedRecord) (bytes : List ℕ)
        → derived_key rev name ≡ ok key
        → Published T c d key r bytes
        → Published T c d' key r bytes

  -- So are the revisions' counter and the records.
  pub record Keeps (d d' : Store T) : Type 0 where
    pub meta : d'.meta ≡ d.meta
    pub records : (s : T.State) → d.records ≡ some s → d'.records ≡ some s
    pub stays : Stays d d'

  pub same-Stays :
      (d d' : Store T)
      → (d'.derived ≡ d.derived) × (d'.derived_blobs ≡ d.derived_blobs)
      → Stays d d'
  same-Stays d d' (q, q') = record {
    pairs = λ paired s has. let (b, at) = paired s (sym q ∙ has) in (b, q' ∙ at);
    artifacts = λ rev name key r bytes k p. record {
      recorded = p.recorded;
      blobs = p.blobs;
      encoded = p.encoded;
      has_records = q ∙ p.has_records;
      has_blobs = q' ∙ p.has_blobs;
      looked_up = p.looked_up;
      decoded = p.decoded;
      stored = p.stored;
    };
  }

  refl-Keeps : (d d' : Store T) → d ≡ d' → Keeps d d'
  refl-Keeps d d' q =
      subst (Keeps d) q
        (record { meta = refl; records = λ s h. h; stays = same-Stays d d (refl, refl) })

  module _ (e : Engine T) where
    -- A publication under a new name touches no other artifact.
    write_new-Keeps :
        (rev : ℕ) (name key : Text) (new : DerivedRecord) (bytes : List ℕ) (d : Store T)
        {d' : Store T}
        → derived_key rev name ≡ ok key
        → T.lookup (or_empty T d.derived) key ≡ none
        → write_new T e c key new bytes (or_empty T d.derived) (or_empty T d.derived_blobs) d
          ≡ ok (tt, d')
        → Keeps d d'
    unfolding write_new
    write_new-Keeps rev name key new bytes d {d'} k fresh h =
        let (written, wrote, h1) =
          ok_or-ok
            (insert_chunks T (chunk_path key) 0 (chunks chunk_size bytes)
              (or_empty T d.derived_blobs))
            storage _ h in
        let (encoded, enc, h2) = ok_or-ok (c.derived.to_vec new) json _ h1 in
        let (recorded, ins, h3) =
          ok_or-ok (T.insert (or_empty T d.derived) key encoded) storage _ h2 in
        let (_, h4) =
          guard-ok (e.commits (record d { derived = some recorded; derived_blobs = some written }))
            commit _ h3 in
        subst (Keeps d) (ap (λ (p : Unit {0} × Store T). p.1) (ok-injective h4)) (record {
          meta = refl;
          records = λ s q. q;
          stays = record {
            pairs = λ paired s q. (written, refl);
            artifacts = λ rev' name' key' r old k' p.
                let there : T.lookup (or_empty T d.derived) key' ≡ some p.encoded =
                  subst (λ x. T.lookup (or_empty T x) key' ≡ some p.encoded) (sym p.has_records)
                    p.looked_up in
                let other : key ≢ key' =
                  λ q. cc (fresh, there, ap (T.lookup (or_empty T d.derived)) q) in
                record {
                  recorded = recorded;
                  blobs = written;
                  encoded = p.encoded;
                  has_records = refl;
                  has_blobs = refl;
                  looked_up = T.insert_ne (or_empty T d.derived) key encoded ins key' other ∙ there;
                  decoded = p.decoded;
                  stored =
                      Stored-same T (chunk_path key') (chunk_path-injective key') 0
                        (chunks chunk_size old) (or_empty T d.derived_blobs) written
                        (λ j _ _.
                          insert_chunks-other T (chunk_path key) 0 (chunks chunk_size bytes)
                            (or_empty T d.derived_blobs) (chunk_path key' j)
                            (λ i _ _ clash. chunk_apart rev rev' i j name name' k k' other clash)
                            wrote)
                        (subst
                          (λ x. Stored T (chunk_path key') (or_empty T x) 0 (chunks chunk_size old))
                          (sym p.has_blobs) p.stored);
                };
          };
        })
      where
        chunk_apart :
            (rev rev' i j : ℕ) (name name' : Text) {key key' : Text}
            → derived_key rev name ≡ ok key
            → derived_key rev' name' ≡ ok key'
            → key ≢ key'
            → chunk_path key i ≢ chunk_path key' j
        chunk_apart rev rev' i j name name' k k' other clash =
            let (same_rev, same_name, _) =
              derived_chunk-injective rev rev' i j name name' k k' clash in
            other (cc (k, k', same_rev, same_name))

    confirm-same :
        (key name : Text) (new : DerivedRecord) (bytes : List ℕ) (old : DerivedRecord)
        (blobs : T.State) (d : Store T) {d' : Store T}
        → confirm T e c key name new bytes old blobs d ≡ ok (tt, d')
        → d ≡ d'
    unfolding confirm
    confirm-same key name new bytes old blobs d h =
        let (_, h1) = guard-ok (record_eq old new) (derived_conflict name) _ h in
        let (_, _, h2) =
          >>=-eq-ok (confirm_chunks T e c key name 0 (chunks chunk_size bytes) blobs) _ h1 in
        ap (λ (p : Unit {0} × Store T). p.1) (ok-injective h2)

    txn-Keeps :
        (rev : ℕ) (name key : Text) (new : DerivedRecord) (bytes : List ℕ) (d : Store T)
        {d' : Store T}
        → derived_key rev name ≡ ok key
        → put_derived_txn T e c key name new bytes d ≡ ok (tt, d')
        → Keeps d d'
    unfolding put_derived_txn
    txn-Keeps rev name key new bytes d {d'} k h =
        let (_, h1) = guard-ok (e.begins_write d) transaction _ h in
        let (_, h2) = guard-ok (e.opens derived d) table _ h1 in
        let (_, h3) = guard-ok (e.opens derived_blobs d) table _ h2 in
        let (found, q, h4) = ok_or-ok (T.get (or_empty T d.derived) key) storage _ h3 in
        let (existing, dec, h5) = >>=-eq-ok (decode_found T e c found) _ h4 in
        ends found existing (T.get-eq (or_empty T d.derived) key q) dec h5
      where
        ends :
            (found : Option (List ℕ)) (existing : Option DerivedRecord)
            → found ≡ T.lookup (or_empty T d.derived) key
            → decode_found T e c found ≡ ok existing
            → confirm_or_write T e c key name new bytes
                (or_empty T d.derived)
                (or_empty T d.derived_blobs)
                d
                existing
              ≡ ok (tt, d')
            → Keeps d d'
        ends found none q dec h5 =
            write_new-Keeps rev name key new bytes d k (sym q ∙ decode_found-none T c e found dec)
              h5
        ends found (some old) q dec h5 =
            refl-Keeps d d' (confirm-same key name new bytes old (or_empty T d.derived_blobs) d h5)

    -- An answer of a method, whichever it is.
    by_answer :
        {A : Type 0} (P : Store T → Type 0) (out : Result Error A × Store T)
        → ((a : A) (d' : Store T) → out ≡ (ok a, d') → P d')
        → ((x : Error) (d' : Store T) → out ≡ (err x, d') → P d')
        → P out.1
    by_answer P (ok a, d') good bad = good a d' refl
    by_answer P (err x, d') good bad = bad x d' refl

    pub put_derived-Keeps :
        (rev : ℕ) (name provenance : Text) (bytes : List ℕ) (d : Store T)
        → Keeps d (put_derived T e c rev name provenance bytes d).1
    unfolding put_derived
    put_derived-Keeps rev name provenance bytes d =
        by_answer (Keeps d) (put_derived T e c rev name provenance bytes d)
          (λ _ d' ran.
            let (key, k, h1) = >>=-eq-ok (derived_key rev name) _ (settle-ok T d _ ran) in
            let (_, h2) =
              guard-ok (not (is_blank provenance)) (invalid_derived "provenance must not be empty")
                _ h1 in
            let (r, source, h3) = >>=-eq-ok (revision T e c rev d) _ h2 in
            txn-Keeps rev name key (record_for rev name provenance bytes) bytes d k h3)
          (λ x d' ran. refl-Keeps d d' (settle-err T d _ ran))

    reopened :
        (d d' : Store T)
        → d'.records ≡ some (or_empty T d.records)
        → (s : T.State) → d.records ≡ some s
        → d'.records ≡ some s
    reopened d d' q s h = q ∙ ap (λ x. some (or_empty T x)) h

    pub set_tracking-Keeps :
        (record_id : Text) (t : Tracking) (d : Store T)
        → Keeps d (set_tracking T e c record_id t d).1
    set_tracking-Keeps record_id t d =
        by_answer (Keeps d) (set_tracking T e c record_id t d)
          (λ _ d' ran.
            let u = set_tracking-Updated T c e record_id t d ran in
            record {
              meta = u.same_meta;
              records = reopened d d' u.same_records;
              stays = same-Stays d d' u.same_derived;
            })
          (λ x d' ran. refl-Keeps d d' (set_tracking-err T c e record_id t d ran))

    pub initialize-Keeps : (d : Store T) → Keeps d (initialize_tracking T e c d).1
    initialize-Keeps d =
        by_answer (Keeps d) (initialize_tracking T e c d)
          (λ n d' ran.
            let i = initialize-Initialized T c e d ran in
            record {
              meta = i.same_meta;
              records = reopened d d' i.same_records;
              stays = same-Stays d d' i.same_derived;
            })
          (λ x d' ran. refl-Keeps d d' (initialize-err T c e d ran))
