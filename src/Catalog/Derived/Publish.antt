-- ===== src/Catalog/Derived/Publish.antt =====
-- What `put_derived` of src/glTFredb.rs stores, and that `derived` reads it back.
use trueos_picasso.Prelude.{
  ℕ, ◌+◌, ◌≡◌, refl, sym, ap, ◌∙◌, true, not, Option, none, some, List, [], ◌∷◌, length, arith,
}
use mathlib.Core.Path.{subst}
use trueos_picasso.Prelude.Result.{ok, guard-ok, ok_or-ok, >>=-eq-ok, ok-injective}
use trueos_picasso.Redb.{Table, IsReadable, or_empty}
use trueos_picasso.Redb.Chunked.{div_ceil, chunks, insert_chunks, insert_chunks-Stored, Stored}
use trueos_picasso.Redb.ReadBack.{read_chunks-Stored}
use trueos_picasso.Text.{Text, is_blank}
use trueos_picasso.Text.Split.{text_eq_sound, text_eq_refl}
use trueos_picasso.Catalog.Types.{
  transaction, table, storage, commit, json, invalid_derived, derived_conflict, chunk_size,
  DerivedRecord, Revision, record_eq, Codecs, derived, derived_blobs, Store, Engine, IsGranting,
  settle-ok,
}
use trueos_picasso.Catalog.Keys.{derived_key, chunk_path, chunk_path-injective}
use trueos_picasso.Catalog.Reading.{revision}
use trueos_picasso.Catalog.Derived.{
  same_chunk, record_for, confirm_chunks, decode_found, confirm, write_new, confirm_or_write,
  put_derived_txn, put_derived, load, derived_in, derived_artifact,
}

record_eq_sound : (a b : DerivedRecord) → record_eq a b ≡ true → a ≡ b
unfolding record_eq
record_eq_sound a b h =
    ground (arith, text_eq_sound a.name b.name, text_eq_sound a.provenance b.provenance)

same_chunk_sound :
    (o : Option (List ℕ)) (chunk : List ℕ) → same_chunk o chunk ≡ true → o ≡ some chunk
same_chunk_sound none chunk h = cc
same_chunk_sound (some found) chunk h = ap some (text_eq_sound found chunk h)

module _ (T : Table Text (List ℕ)) (c : Codecs) where
  -- The artifact stands complete in the two tables of the store.
  pub record Published (d : Store T) (key : Text) (r : DerivedRecord) (bytes : List ℕ)
      : Type 0 where
    pub recorded : T.State
    pub blobs : T.State
    pub encoded : List ℕ
    pub has_records : d.derived ≡ some recorded
    pub has_blobs : d.derived_blobs ≡ some blobs
    pub looked_up : T.lookup recorded key ≡ some encoded
    pub decoded : c.derived.from_slice encoded ≡ some r
    pub stored : Stored T (chunk_path key) blobs 0 (chunks chunk_size bytes)

  -- The two tables of derived artifacts were created together.
  abbrev pub IsPaired : Store T → Type 0
  IsPaired d = (s : T.State) → d.derived ≡ some s → (b : T.State) × (d.derived_blobs ≡ some b)

  module _ (e : Engine T) where
    confirm_chunks-Stored :
        (key name : Text) (index : ℕ) (cs : List (List ℕ)) (s : T.State)
        → confirm_chunks T e c key name index cs s ≡ ok tt
        → Stored T (chunk_path key) s index cs
    unfolding confirm_chunks
    confirm_chunks-Stored key name index [] s h = tt
    confirm_chunks-Stored key name index (chunk ∷ rest) s h =
        let (found, q, h1) = ok_or-ok (T.get s (chunk_path key index)) storage _ h in
        let (same, h2) = guard-ok (same_chunk found chunk) (derived_conflict name) _ h1 in
        (
          sym (T.get-eq s (chunk_path key index) q) ∙ same_chunk_sound found chunk same,
          confirm_chunks-Stored key name (index + 1) rest s h2,
        )

    -- A new publication leaves the artifact in the tables that it commits.
    write_new-Published :
        (key : Text) (new : DerivedRecord) (bytes : List ℕ) (records blobs : T.State) (d : Store T)
        {d' : Store T}
        → write_new T e c key new bytes records blobs d ≡ ok (tt, d')
        → Published d' key new bytes × (d'.records ≡ d.records)
    unfolding write_new
    write_new-Published key new bytes records blobs d {d'} h =
        let (written, wrote, h1) =
          ok_or-ok (insert_chunks T (chunk_path key) 0 (chunks chunk_size bytes) blobs) storage _
            h in
        let (encoded, enc, h2) = ok_or-ok (c.derived.to_vec new) json _ h1 in
        let (recorded, ins, h3) = ok_or-ok (T.insert records key encoded) storage _ h2 in
        let (_, h4) =
          guard-ok (e.commits (record d { derived = some recorded; derived_blobs = some written }))
            commit _ h3 in
        let same : record d { derived = some recorded; derived_blobs = some written } ≡ d' =
          ap (λ (p : Unit {0} × Store T). p.1) (ok-injective h4) in
        (
          record {
            recorded = recorded;
            blobs = written;
            encoded = encoded;
            has_records = ap (λ (x : Store T). x.derived) (sym same);
            has_blobs = ap (λ (x : Store T). x.derived_blobs) (sym same);
            looked_up = T.insert_self records key encoded ins;
            decoded = c.derived_exact.from_slice-to_vec new enc;
            stored =
                insert_chunks-Stored T (chunk_path key) (chunk_path-injective key) 0
                  (chunks chunk_size bytes) blobs wrote;
          },
          ap (λ (x : Store T). x.records) (sym same),
        )

    pub decode_found-some :
        (o : Option (List ℕ)) {old : DerivedRecord}
        → decode_found T e c o ≡ ok (some old)
        → (bytes : List ℕ) × (o ≡ some bytes) × (c.derived.from_slice bytes ≡ some old)
    unfolding decode_found
    decode_found-some none h = absurd (cc)
    decode_found-some (some bytes) h =
        let (old, q, h1) = ok_or-ok (c.derived.from_slice bytes) json _ h in
        (bytes, refl, q ∙ ok-injective h1)

    pub decode_found-none : (o : Option (List ℕ)) → decode_found T e c o ≡ ok none → o ≡ none
    unfolding decode_found
    decode_found-none none h = refl
    decode_found-none (some bytes) h =
        let (old, q, h1) = ok_or-ok (c.derived.from_slice bytes) json _ h in absurd (cc)

    -- A table in which something is found was created.
    found-created :
        (o : Option T.State) (key : Text) {bytes : List ℕ}
        → T.lookup (or_empty T o) key ≡ some bytes
        → (s : T.State) × (o ≡ some s)
    found-created none key h = absurd (cc (T.lookup-empty key))
    found-created (some s) key h = (s, refl)

    -- A repeated publication that is confirmed was complete before it.
    confirm-Published :
        (key name : Text) (new : DerivedRecord) (bytes : List ℕ) (old : DerivedRecord) (d : Store T)
        {d' : Store T} {encoded : List ℕ}
        → IsPaired d
        → T.lookup (or_empty T d.derived) key ≡ some encoded
        → c.derived.from_slice encoded ≡ some old
        → confirm T e c key name new bytes old (or_empty T d.derived_blobs) d ≡ ok (tt, d')
        → Published d' key new bytes × (d'.records ≡ d.records)
    unfolding confirm
    confirm-Published key name new bytes old d {encoded = encoded} paired found dec h =
        let (same, h1) = guard-ok (record_eq old new) (derived_conflict name) _ h in
        let (_, chunks_ok, h2) =
          >>=-eq-ok
            (confirm_chunks T e c key name 0 (chunks chunk_size bytes) (or_empty T d.derived_blobs))
            _ h1 in
        let (s, q) = found-created d.derived key found in
        let (b, q') = paired s q in
        subst (λ (x : Store T). Published x key new bytes × (x.records ≡ d.records))
          (ap (λ (p : Unit {0} × Store T). p.1) (ok-injective h2))
          (
            record {
              recorded = s;
              blobs = b;
              encoded = encoded;
              has_records = q;
              has_blobs = q';
              looked_up = subst (λ x. T.lookup (or_empty T x) key ≡ some encoded) q found;
              decoded = dec ∙ ap some (record_eq_sound old new same);
              stored =
                  subst (λ x. Stored T (chunk_path key) (or_empty T x) 0 (chunks chunk_size bytes))
                    q'
                    (confirm_chunks-Stored key name 0 (chunks chunk_size bytes)
                      (or_empty T d.derived_blobs) chunks_ok);
            },
            refl,
          )

    txn-Published :
        (key name : Text) (new : DerivedRecord) (bytes : List ℕ) (d : Store T) {d' : Store T}
        → IsPaired d
        → put_derived_txn T e c key name new bytes d ≡ ok (tt, d')
        → Published d' key new bytes × (d'.records ≡ d.records)
    unfolding put_derived_txn
    txn-Published key name new bytes d {d'} paired h =
        let (_, h1) = guard-ok (e.begins_write d) transaction _ h in
        let (_, h2) = guard-ok (e.opens derived d) table _ h1 in
        let (_, h3) = guard-ok (e.opens derived_blobs d) table _ h2 in
        let (found, q, h4) = ok_or-ok (T.get (or_empty T d.derived) key) storage _ h3 in
        let (existing, dec, h5) = >>=-eq-ok (decode_found T e c found) _ h4 in
        ends found existing (T.get-eq (or_empty T d.derived) key q) dec h5
      where
        ends :
            (found : Option (List ℕ)) (existing : Option DerivedRecord)
            → found ≡ T.lookup (or_empty T d.derived) key
            → decode_found T e c found ≡ ok existing
            → confirm_or_write T e c key name new bytes
                (or_empty T d.derived)
                (or_empty T d.derived_blobs)
                d
                existing
              ≡ ok (tt, d')
            → Published d' key new bytes × (d'.records ≡ d.records)
        ends found none q dec h5 =
            write_new-Published key new bytes (or_empty T d.derived) (or_empty T d.derived_blobs) d
              h5
        ends found (some old) q dec h5 =
            let (encoded, there, decoded) = decode_found-some found dec in
            confirm-Published key name new bytes old d paired (sym q ∙ there) decoded h5

    -- What a publication that succeeds establishes.
    pub put_derived-Published :
        (rev : ℕ) (name provenance : Text) (bytes : List ℕ) (d : Store T) {d' : Store T}
        → IsPaired d
        → put_derived T e c rev name provenance bytes d ≡ (ok tt, d')
        → (key : Text) × (r : Revision) × (derived_key rev name ≡ ok key)
          × (revision T e c rev d ≡ ok r)
          × Published d' key (record_for rev name provenance bytes) bytes
          × (d'.records ≡ d.records)
    unfolding put_derived
    put_derived-Published rev name provenance bytes d paired ran =
        let (key, k, h1) = >>=-eq-ok (derived_key rev name) _ (settle-ok T d _ ran) in
        let (_, h2) =
          guard-ok (not (is_blank provenance)) (invalid_derived "provenance must not be empty") _
            h1 in
        let (r, source, h3) = >>=-eq-ok (revision T e c rev d) _ h2 in
        let (published, same) =
          txn-Published key name (record_for rev name provenance bytes) bytes d paired h3 in
        (key, r, k, source, published, same)

    module _ (granted : IsGranting T e) where
      -- A complete artifact of a published revision is read back.
      pub derived-Published :
          (rev : ℕ) (name provenance key : Text) (bytes : List ℕ) (d : Store T) {r : Revision}
          → derived_key rev name ≡ ok key
          → revision T e c rev d ≡ ok r
          → (p : Published d key (record_for rev name provenance bytes) bytes)
          → IsReadable T p.recorded
          → IsReadable T p.blobs
          → derived_artifact T e c rev name d
            ≡ ok (
                some (record {
                  source_revision = rev;
                  name = name;
                  provenance = provenance;
                  bytes = bytes;
                }))
      unfolding derived_artifact derived_in load chunks
      derived-Published rev name provenance key bytes d k source p reads reads' = ground (
        arith,
        k,
        source,
        p,
        granted.begins_read d,
        granted.opens derived d,
        granted.opens derived_blobs d,
        reads key,
        text_eq_refl name,
        read_chunks-Stored T (chunk_path key) storage (invalid_derived "missing payload chunk")
            (invalid_derived "payload chunk length mismatch") chunk_size (length bytes) 0
            (div_ceil (length bytes) chunk_size) [] bytes p.blobs reads' (omega arith) (omega arith)
            refl p.stored,
      )
