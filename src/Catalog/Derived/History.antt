-- ===== src/Catalog/Derived/History.antt =====
-- Derived artifacts of src/glTFredb.rs over the life of a store: any sequence of its operations,
-- imports included.
use mathlib.Core.Path.{subst}
use trueos_picasso.Prelude.{
  ℕ, suc, ◌+◌, ◌<◌, ◌≡◌, ◌≢◌, refl, sym, ap, ◌∙◌, Option, some, List, length, arith,
}
use trueos_picasso.Prelude.Result.{Result, ok, err, ok_or-ok, ok-injective}
use trueos_picasso.Prelude.Words.{word, wrapping_add}
use trueos_picasso.Redb.{Table, IsReadable, or_empty}
use trueos_picasso.Redb.Chunked.{div_ceil, chunks, chunks_of, Stored}
use trueos_picasso.Redb.ReadBack.{Stored-injective}
use trueos_picasso.Text.{Text}
use trueos_picasso.Catalog.Types.{
  Error, storage, Tracking, Revision, DerivedRecord, chunk_size, Codecs, Store, Engine, IsGranting,
}
use trueos_picasso.Catalog.Keys.{revision_key, chunk_path}
use trueos_picasso.Catalog.Reading.{revision_in, revision-ok, revision-granted}
use trueos_picasso.Catalog.Tracking.{set_tracking, initialize_tracking}
use trueos_picasso.Catalog.Derived.{record_for, put_derived, derived_artifact}
use trueos_picasso.Catalog.Derived.Publish.{
  Published, IsPaired, put_derived-Published, derived-Published,
}
use trueos_picasso.Catalog.Derived.Immutable.{
  Stays, same-Stays, Keeps, put_derived-Keeps, set_tracking-Keeps, initialize-Keeps,
}
use trueos_picasso.Catalog.Import.Items.{Gltf}
use trueos_picasso.Catalog.Import.Records.{RecordCodecs}
use trueos_picasso.Catalog.Import.Writes.{Batch}
use trueos_picasso.Catalog.Import.Publish.{Counts, import-Published, import-err}
use trueos_picasso.Catalog.Import.History.{revision_key-apart, asset-not-revision}
use trueos_picasso.Catalog.Import.{import}

module _ {F : Type 0} (T : Table Text (List ℕ)) (c : Codecs) (rc : RecordCodecs F)
    (from_slice : List ℕ → Option (Gltf F)) (decode_base64 : Text → Option (List ℕ)) where
  -- One call of any client that is no import, whether it succeeds or not.
  pub data Operation (d d' : Store T) : Type 0 where
    puts :
        (e : Engine T) (rev : ℕ) (name provenance : Text) (bytes : List ℕ)
        → (put_derived T e c rev name provenance bytes d).1 ≡ d'
        → Operation d d'
    sets :
        (e : Engine T) (record_id : Text) (t : Tracking)
        → (set_tracking T e c record_id t d).1 ≡ d'
        → Operation d d'
    initializes : (e : Engine T) → (initialize_tracking T e c d).1 ≡ d' → Operation d d'

  -- Any sequence of calls, with the number of the imports that succeeded.
  pub data Later (d : Store T) : ℕ → Store T → Type 0 where
    now : Later d 0 d
    after : {n : ℕ} {m d' : Store T} → Later d n m → Operation m d' → Later d n d'
    imports :
        {n id : ℕ} {m d' : Store T}
        → Later d n m
        → (e : Engine T) (asset_id : Text) (source : List ℕ) (external : Text → Option (List ℕ))
        → import T e c rc from_slice decode_base64 asset_id source external m ≡ (ok id, d')
        → Later d (suc n) d'
    import_fails :
        {n : ℕ} {m d' : Store T} {x : Error}
        → Later d n m
        → (e : Engine T) (asset_id : Text) (source : List ℕ) (external : Text → Option (List ℕ))
        → import T e c rc from_slice decode_base64 asset_id source external m ≡ (err x, d')
        → Later d n d'

  Operation-Keeps : {d d' : Store T} → Operation d d' → Keeps T c d d'
  Operation-Keeps {d} (puts e rev name provenance bytes q) =
      subst (Keeps T c d) q (put_derived-Keeps T c e rev name provenance bytes d)
  Operation-Keeps {d} (sets e record_id t q) =
      subst (Keeps T c d) q (set_tracking-Keeps T c e record_id t d)
  Operation-Keeps {d} (initializes e q) = subst (Keeps T c d) q (initialize-Keeps T c e d)

  Stays-trans : {d m d' : Store T} → Stays T c d m → Stays T c m d' → Stays T c d d'
  Stays-trans first last = record {
    pairs = λ p. last.pairs (first.pairs p);
    artifacts = λ rev name key r bytes k p.
        last.artifacts rev name key r bytes k (first.artifacts rev name key r bytes k p);
  }

  Later-Stays : {d : Store T} {n : ℕ} {d' : Store T} → Later d n d' → Stays T c d d'
  Later-Stays {d} now = same-Stays T c d d (refl, refl)
  Later-Stays (after before step) = Stays-trans (Later-Stays before) (Operation-Keeps step).stays
  Later-Stays (imports {m = m} {d' = d'} before e asset_id source external ran) =
      let p = import-Published T e c rc from_slice decode_base64 asset_id source external m ran in
      Stays-trans (Later-Stays before) (same-Stays T c m d' p.derived_kept)
  Later-Stays {d} (import_fails {m = m} {d' = d'} before e asset_id source external ran) =
      subst (Stays T c d)
        ((import-err T e c rc from_slice decode_base64 asset_id source external m).0 _ d' ran)
        (Later-Stays before)

  -- The record of the revision `rev` is as before.
  abbrev Lasts : (rev : ℕ) (d d' : Store T) → Type 0
  Lasts rev d d' =
      (s : T.State)
      → d.records ≡ some s
      → (s' : T.State) × (d'.records ≡ some s')
        × (T.lookup s' (revision_key rev) ≡ T.lookup s (revision_key rev))

  import-Lasts :
      (e : Engine T) (rev id : ℕ) (asset_id : Text) (source : List ℕ)
      (external : Text → Option (List ℕ)) (d d' : Store T)
      → import T e c rc from_slice decode_base64 asset_id source external d ≡ (ok id, d')
      → id ≢ rev
      → Lasts rev d d'
  import-Lasts e rev id asset_id source external d d' ran ne s q =
      let p = import-Published T e c rc from_slice decode_base64 asset_id source external d ran in
      let start : p.before.records ≡ s =
        ap (λ (b : Batch T). b.records) p.before_is ∙ ap (or_empty T) q in
      (
        p.after.records,
        p.records_are,
        p.written.earlier (revision_key rev) (revision_key-apart id rev ne)
              (asset-not-revision asset_id rev)
            ∙ ap (λ (t : T.State). T.lookup t (revision_key rev)) start,
      )

  Lasts-trans : (rev : ℕ) (d m d' : Store T) → Lasts rev d m → Lasts rev m d' → Lasts rev d d'
  Lasts-trans rev d m d' first last s q =
      let (s', q', e) = first s q in let (s'', q'', e') = last s' q' in (s'', q'', e' ∙ e)

  -- Below the counter, a revision's record is never written again.
  Later-Lasts :
      (e : Engine T) (rev first : ℕ) {d : Store T} {n : ℕ} {d' : Store T}
      → Counts T e c rc d first
      → rev < first
      → first + n < word
      → Later d n d'
      → Lasts rev d d' × Counts T e c rc d' (first + n)
  Later-Lasts e rev first {d} counts lt small now =
      let same : first ≡ first + 0 = omega arith in
      (λ s q. (s, q, refl), subst (Counts T e c rc d) same counts)
  Later-Lasts e rev first {d} counts lt small (after {n} {m} {d'} before step) =
      let (lasts, counted) = Later-Lasts e rev first counts lt small before in
      let keeps = Operation-Keeps step in
      (
        Lasts-trans rev d m d' lasts (λ s q. (s, keeps.records s q, refl)),
        counted_from n m d' keeps.meta counted,
      )
    where
      counted_from :
          (n : ℕ) (m d' : Store T)
          → d'.meta ≡ m.meta
          → Counts T e c rc m (first + n)
          → Counts T e c rc d' (first + n)
      counted_from n m d' q h = rw q h
  Later-Lasts e rev first {d} counts lt small
        (imports {n} {id} {m} {d'} before e' asset_id source external ran) =
      let (lasts, counted) = Later-Lasts e rev first counts lt (omega arith) before in
      let p = import-Published T e' c rc from_slice decode_base64 asset_id source external m ran in
      let took : id ≡ first + n = ok-injective (sym p.took ∙ counted) in
      let next : wrapping_add id 1 ≡ first + suc n = omega arith in
      (
        Lasts-trans rev d m d' lasts (
            import-Lasts e' rev id asset_id source external m d' ran
              (λ q. absurd (omega (arith, took, q, lt)))),
        subst (Counts T e c rc d') next p.counts,
      )
  Later-Lasts e rev first {d} counts lt small
        (import_fails {n} {m} {d'} before e' asset_id source external ran) =
      subst (λ (s : Store T). Lasts rev d s × Counts T e c rc s (first + n))
        ((import-err T e' c rc from_slice decode_base64 asset_id source external m).0 _ d' ran)
        (Later-Lasts e rev first counts lt small before)

  -- A revision is found where its record is the same and the table can be read.
  revision_in-Lasts :
      (e e' : Engine T) (rev : ℕ) (s s' : T.State) {r : Revision}
      → T.lookup s' (revision_key rev) ≡ T.lookup s (revision_key rev)
      → IsReadable T s'
      → revision_in T e c rev s ≡ ok r
      → revision_in T e' c rev s' ≡ ok r
  unfolding revision_in
  revision_in-Lasts e e' rev s s' same reads h =
      let (found, got, h1) = ok_or-ok (T.get s (revision_key rev)) storage _ h in
      rw (reads (revision_key rev) ∙ ap some (same ∙ sym (T.get-eq s (revision_key rev) got))) h1

  -- The tables that `derived` reads can be read.
  pub record AllowsReads (d : Store T) : Type 0 where
    pub records : (s : T.State) → d.records ≡ some s → IsReadable T s
    pub derived : (s : T.State) → d.derived ≡ some s → IsReadable T s
    pub derived_blobs : (s : T.State) → d.derived_blobs ≡ some s → IsReadable T s

  module _ (e : Engine T) (granted : IsGranting T e) where
    -- Once `put_derived` has succeeded, `derived` returns exactly the artifact that was published, in
    -- every store that later calls lead to: imports, changes of tracking, publications under other
    -- names, and calls that failed at any step. It is asked that the two tables of artifacts were
    -- created together, that the revision is below the counter and the counter has not come round to
    -- 2^64, and that redb grants the reads of that last call.
    pub derived_immutable :
        (e₀ : Engine T) (rev first : ℕ) (name provenance : Text) (bytes : List ℕ) {n : ℕ}
        (d d₁ d₂ : Store T)
        → IsPaired T c d
        → put_derived T e₀ c rev name provenance bytes d ≡ (ok tt, d₁)
        → Counts T e c rc d₁ first
        → rev < first
        → first + n < word
        → Later d₁ n d₂
        → AllowsReads d₂
        → derived_artifact T e c rev name d₂
          ≡ ok (
              some (record {
                source_revision = rev;
                name = name;
                provenance = provenance;
                bytes = bytes;
              }))
    derived_immutable e₀ rev first name provenance bytes d d₁ d₂ paired ran counts lt small later
          reads =
        let (key, r, k, source, published, same) =
          put_derived-Published T c e₀ rev name provenance bytes d paired ran in
        let (s, there, found) = revision-ok T e₀ c rev d source in
        let (s', there', lasts) =
          (Later-Lasts e rev first counts lt small later).0 s (same ∙ there) in
        let p =
          (Later-Stays later).artifacts rev name key (record_for rev name provenance bytes) bytes k
            published in
        derived-Published T c e granted rev name provenance key bytes d₂ k
          (revision-granted T e c rev d₂ granted there'
            (revision_in-Lasts e₀ e rev s s' lasts (reads.records s' there') found))
          p (reads.derived p.recorded p.has_records) (reads.derived_blobs p.blobs p.has_blobs)

  -- Two artifacts that stand under one key are one.
  Published-unique :
      (d : Store T) (key : Text) (rev : ℕ) (name provenance provenance' : Text)
      (bytes bytes' : List ℕ)
      → Published T c d key (record_for rev name provenance bytes) bytes
      → Published T c d key (record_for rev name provenance' bytes') bytes'
      → (provenance' ≡ provenance) × (bytes' ≡ bytes)
  unfolding chunks
  Published-unique d key rev name provenance provenance' bytes bytes' p q =
      let tables : p.recorded ≡ q.recorded = cc (p.has_records, q.has_records) in
      let blobs : p.blobs ≡ q.blobs = cc (p.has_blobs, q.has_blobs) in
      let entries : p.encoded ≡ q.encoded =
        cc (p.looked_up, q.looked_up, ap (λ s. T.lookup s key) tables) in
      let records : record_for rev name provenance bytes ≡ record_for rev name provenance' bytes' =
        cc (p.decoded, q.decoded, ap c.derived.from_slice entries) in
      let lengths : length bytes ≡ length bytes' =
        ap (λ (r : DerivedRecord). r.byte_length) records in
      let stored =
        subst (λ k. Stored T (chunk_path key) p.blobs 0 (chunks_of k chunk_size bytes'))
          (ap (λ k. div_ceil k chunk_size) (sym lengths))
          (subst (λ s. Stored T (chunk_path key) s 0 (chunks chunk_size bytes')) (sym blobs)
            q.stored) in
      (
        sym (ap (λ (r : DerivedRecord). r.provenance) records),
        sym (
            Stored-injective T (chunk_path key) chunk_size 0 (div_ceil (length bytes) chunk_size)
              bytes bytes' p.blobs (omega arith) refl lengths p.stored stored),
      )

  -- After a publication that succeeded, and any later calls, imports and failed ones included, a
  -- publication of the same name under the same revision succeeds only with the same provenance and
  -- the same bytes. It is asked that the two tables of artifacts were created together.
  pub put_derived_conflicts :
      (e₀ e₁ : Engine T) (rev : ℕ) (name : Text) (provenance provenance' : Text)
      (bytes bytes' : List ℕ) {n : ℕ} (d d₁ d₂ d₃ : Store T)
      → IsPaired T c d
      → put_derived T e₀ c rev name provenance bytes d ≡ (ok tt, d₁)
      → Later d₁ n d₂
      → put_derived T e₁ c rev name provenance' bytes' d₂ ≡ (ok tt, d₃)
      → (provenance' ≡ provenance) × (bytes' ≡ bytes)
  put_derived_conflicts e₀ e₁ rev name provenance provenance' bytes bytes' d d₁ d₂ d₃ paired ran
        later again =
      let (key, _, k, _, published, _) =
        put_derived-Published T c e₀ rev name provenance bytes d paired ran in
      let first : Stays T c d d₁ =
        subst (Stays T c d) (ap state ran)
          (put_derived-Keeps T c e₀ rev name provenance bytes d).stays in
      let last : Stays T c d₂ d₃ =
        subst (Stays T c d₂) (ap state again)
          (put_derived-Keeps T c e₁ rev name provenance' bytes' d₂).stays in
      let stays = Stays-trans (Later-Stays later) last in
      let (key', _, k', _, published', _) =
        put_derived-Published T c e₁ rev name provenance' bytes' d₂
          ((Later-Stays later).pairs (first.pairs paired)) again in
      let same : key' ≡ key = ok-injective (sym k' ∙ k) in
      Published-unique d₃ key rev name provenance provenance' bytes bytes'
        (stays.artifacts rev name key (record_for rev name provenance bytes) bytes k published)
        (subst (λ x. Published T c d₃ x (record_for rev name provenance' bytes') bytes') same
          published')
    where
      state : Result Error (Unit {0}) × Store T → Store T
      state p = p.1
