-- ===== src/Mass/Store/RoundTrip.antt =====
-- What `put` of src/nosql.rs stored is what `info` and `read` find.
use mathlib.Core.Path.{subst}
use trueos_picasso.Prelude.{
  ℕ, ◌<◌, ◌≡◌, refl, ap, sym, ◌∙◌, Bool, true, false, not, Option, none, some, List, [], ◌∷◌,
  length, take, arith,
}
use trueos_picasso.Prelude.Result.{Result, ok, err}
use trueos_picasso.Prelude.Eff.{andthen, guard}
use trueos_picasso.Prelude.Words.{word}
use trueos_picasso.Redb.{Table, IsReliable, or_empty}
use trueos_picasso.Text.{Text, contains}
use trueos_picasso.Mass.Files.{FileSystem, IsReadable, staging, objects}
use trueos_picasso.Mass.Catalog.{MassStore, MassEngine, IsOpening, publish_txn, info, read_object}
use trueos_picasso.Mass.{MassError, io, invalid_label, Utf8, encode_record}
use trueos_picasso.Mass.Codec.{decode-encode_record}
use trueos_picasso.Mass.Store.{
  settled, with_files, after_write, create_file, write_file, sync_file, rename_file, sync_directory,
  reserve_id, publish_record, put_as, put,
}
use trueos_picasso.Mass.Store.Steps.{entry, payload, publish_txn-ok}
use trueos_picasso.Mass.Store.Reads.{read-info, info-entry, read_range-granted}

-- An action that succeeded, and the one after it.
andthen-ok :
    {S E A B : Type 0} (f : A → S → Result E B × S) (p : Result E A × S) {b : B} {v : S}
    → andthen f p ≡ (ok b, v)
    → (a : A) × (t : S) × (p ≡ (ok a, t)) × (f a t ≡ (ok b, v))
andthen-ok f (ok a, t) h = (a, t, refl, h)
andthen-ok f (err x, t) h = cc

guard-same : {S E : Type 0} (b : Bool) (x : E) (s : S) {v : S} → guard b x s ≡ (ok tt, v) → s ≡ v
guard-same true x s h = cc
guard-same false x s h = cc

take_all : (xs : List ℕ) → take (length xs) xs ≡ xs
take_all [] = refl
take_all (x ∷ xs) = ap (◌∷◌ x) (take_all xs)

module _ (M : Table Text ℕ) (O : Table ℕ (List ℕ)) (fs : FileSystem) where
  with_files-ok :
      (s : MassStore M O fs) (o : Option fs.State) {t : MassStore M O fs}
      → with_files M O fs s o ≡ (ok tt, t)
      → o ≡ some t.files
  with_files-ok s none h = cc
  with_files-ok s (some files) h =
      ap (λ (p : Result MassError (Unit {0}) × MassStore M O fs). some (p.1.files)) h

  after_write-ok :
      (s : MassStore M O fs) (p : Bool × fs.State) {t : MassStore M O fs}
      → after_write M O fs s p ≡ (ok tt, t)
      → p ≡ (true, t.files)
  after_write-ok s (true, files) h =
      ap (λ (p : Result MassError (Unit {0}) × MassStore M O fs). (true, p.1.files)) h
  after_write-ok s (false, files) h = cc

  settled-ok :
      {A : Type 0} (s : MassStore M O fs) (r : Result MassError (A × MassStore M O fs)) {a : A}
      {t : MassStore M O fs}
      → settled M O fs s r ≡ (ok a, t)
      → r ≡ ok (a, t)
  settled-ok s (ok p) h = cc
  settled-ok s (err x) h = cc

  module _ (e : MassEngine M O fs) where
    publish_record-ok :
        (id : ℕ) (bytes : List ℕ) (s : MassStore M O fs) {t : MassStore M O fs}
        → publish_record M O fs e id bytes s ≡ (ok tt, t)
        → (entry M O fs t id ≡ some bytes) × (t.files ≡ s.files)
    unfolding publish_record
    publish_record-ok id bytes s {t} h =
        let (o, inserted, same) =
          publish_txn-ok M O fs e id bytes s (settled-ok s (publish_txn M O fs e id bytes s) h) in
        subst (λ (v : MassStore M O fs). (entry M O fs v id ≡ some bytes) × (v.files ≡ s.files))
          same (O.insert_self (or_empty O s.objects) id bytes inserted, refl)

    -- The steps after the number was taken store the record and the bytes.
    put_as-ok :
        (id n : ℕ) (record_bytes bytes : List ℕ) (s : MassStore M O fs) {v : MassStore M O fs}
        → put_as M O fs e id record_bytes bytes s ≡ (ok n, v)
        → (n ≡ id) × (entry M O fs v id ≡ some record_bytes) × (payload M O fs v id ≡ some bytes)
    unfolding put_as create_file write_file sync_file rename_file sync_directory
    put_as-ok id n record_bytes bytes s {v} h =
        let (_, s1, q1, h1) = andthen-ok _ (create_file M O fs (staging id) s) h in
        let (_, s2, q2, h2) = andthen-ok _ (write_file M O fs (staging id) bytes s1) h1 in
        let (_, s3, q3, h3) = andthen-ok _ (sync_file M O fs (staging id) s2) h2 in
        let (_, s4, q4, h4) = andthen-ok _ (rename_file M O fs (staging id) (objects id) s3) h3 in
        let (_, s5, q5, h5) = andthen-ok _ (sync_directory M O fs s4) h4 in
        let (_, s6, q6, h6) = andthen-ok _ (publish_record M O fs e id record_bytes s5) h5 in
        let created = fs.create_self (staging id) s.files (with_files-ok s _ q1) in
        let wrote = fs.write_self (staging id) bytes s1.files created (after_write-ok s1 _ q2) in
        let flushed : s2 ≡ s3 = guard-same (fs.sync_all (staging id) s2.files) io s2 q3 in
        let moved = fs.rename_to (staging id) (objects id) s3.files (with_files-ok s3 _ q4) in
        let synced : s4 ≡ s5 = guard-same (fs.sync_objects s4.files) io s4 q5 in
        let (recorded, files) = publish_record-ok id record_bytes s5 q6 in
        let stored : payload M O fs s6 id ≡ some bytes =
          ap (λ (x : fs.State). fs.contents x (objects id)) files
          ∙ (ap (λ (t : MassStore M O fs). fs.contents t.files (objects id)) (sym synced)
              ∙ (moved
                  ∙ (ap (λ (t : MassStore M O fs). fs.contents t.files (staging id)) (sym flushed)
                      ∙ wrote))) in
        let (recorded', stored') =
          subst
            (λ (p : Result MassError ℕ × MassStore M O fs).
              (entry M O fs p.1 id ≡ some record_bytes) × (payload M O fs p.1 id ≡ some bytes))
            h6 (recorded, stored) in
        (cc h6, recorded', stored')

    module _ (u : Utf8) where
      put-stored :
          (label : Text) (bytes : List ℕ) (s : MassStore M O fs) {id : ℕ} {v : MassStore M O fs}
          → put M O fs e u label bytes s ≡ (ok id, v)
          → (entry M O fs v id ≡ some (encode_record u (length bytes) label))
            × (payload M O fs v id ≡ some bytes)
      unfolding put
      put-stored label bytes s {id} {v} h =
          let (_, s1, _, h1) = andthen-ok _ (guard (not (contains label 0)) invalid_label s) h in
          let (n, s2, _, h2) = andthen-ok _ (reserve_id M O fs e s1) h1 in
          let (same, recorded, stored) =
            put_as-ok n id (encode_record u (length bytes) label) bytes s2 h2 in
          rw same (recorded, stored)

      -- What put stored is read back exactly, with its label and length, if the length is a u64 and
      -- redb and the file system grant the reads.
      pub read-put :
          IsReliable O
          → IsOpening M O fs e
          → IsReadable fs
          → (label : Text) (bytes : List ℕ) (s : MassStore M O fs) {id : ℕ} {v : MassStore M O fs}
          → length bytes < word
          → put M O fs e u label bytes s ≡ (ok id, v)
          → (read_object M O fs e u id v ≡ ok bytes)
            × (info M O fs e u id v
                ≡ ok (record { id = id; byte_length = length bytes; label = label }))
      read-put rel opening readable label bytes s {id} {v} small h =
          let (recorded, stored) = put-stored label bytes s h in
          let known =
            info-entry M O fs e u rel.get_total opening readable id v recorded
              (decode-encode_record u id (length bytes) label small) in
          (
            read-info M O fs e u rel.get_total opening readable id v known
                ∙ (read_range-granted M O fs e u rel.get_total opening readable id 0 (length bytes)
                      v known stored (omega arith) (omega arith) small refl
                    ∙ ap ok (take_all bytes)),
            known,
          )
