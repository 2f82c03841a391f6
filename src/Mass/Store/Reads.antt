-- ===== src/Mass/Store/Reads.antt =====
-- The reads of src/nosql.rs, and that they find the same after any number of calls of `put`.
use trueos_picasso.Prelude.{
  ℕ, ◌+◌, ◌<◌, ◌≡◌, refl, ap, sym, ◌∙◌, true, Option, some, List, length, ◌&&◌, ltb, leb, take,
  drop, ◌≤◌, length-take, length-drop, Option-cases, inl, inr, arith,
}
use trueos_picasso.Prelude.Result.{Result, ok, guard-ok, ok_or-ok, ok_or-some, ◌>>=◌, >>=-eq-ok}
use trueos_picasso.Prelude.Words.{word, checked_add}
use trueos_picasso.Redb.{Table, or_empty}
use trueos_picasso.Text.{Text}
use trueos_picasso.Mass.Files.{FileSystem, IsReadable, max_offset, objects}
use trueos_picasso.Mass.Catalog.{MassStore, MassEngine, IsOpening, info, read_range, read_object}
use trueos_picasso.Mass.{
  MassError, transaction, table, storage, io, not_found, invalid_range, ObjectInfo, Utf8,
  decode_record,
}
use trueos_picasso.Mass.Store.Immutable.{IsNumbered, Puts, Puts-Keeps}
use trueos_picasso.Mass.Store.Steps.{entry, payload}

module _ (M : Table Text ℕ) (O : Table ℕ (List ℕ)) (fs : FileSystem) where
  module _ (e : MassEngine M O fs) (u : Utf8) where
    module _ (gets : (o : O.State) (j : ℕ) → O.get o j ≡ some (O.lookup o j))
        (opening : IsOpening M O fs e) (readable : IsReadable fs) where
      pub read-info :
          (j : ℕ) (s : MassStore M O fs) {i : ObjectInfo}
          → info M O fs e u j s ≡ ok i
          → read_object M O fs e u j s ≡ read_range M O fs e u j 0 i.byte_length s
      unfolding read_object
      read-info j s known =
          ap
            (λ (r : Result MassError ObjectInfo).
              r >>= λ i. read_range M O fs e u j 0 i.byte_length s)
            known

      info-ok :
          (j : ℕ) (s : MassStore M O fs) {i : ObjectInfo}
          → info M O fs e u j s ≡ ok i
          → (bytes : List ℕ) × (entry M O fs s j ≡ some bytes) × (decode_record u j bytes ≡ ok i)
      unfolding info
      info-ok j s h =
          let (_, h1) = guard-ok (e.begins_read s) transaction _ h in
          let (o, q, h2) = ok_or-ok s.objects table _ h1 in
          let (_, h3) = guard-ok (e.opens_objects s) table _ h2 in
          let (found, got, h4) = ok_or-ok (O.get o j) storage _ h3 in
          let (bytes, q', h5) = ok_or-ok found (not_found j) _ h4 in
          (
            bytes,
            ap (λ (t : Option O.State). O.lookup (or_empty O t) j) q
                ∙ (sym (O.get-eq o j got) ∙ q'),
            h5,
          )

      pub info-entry :
          (j : ℕ) (s : MassStore M O fs) {bytes : List ℕ} {i : ObjectInfo}
          → entry M O fs s j ≡ some bytes
          → decode_record u j bytes ≡ ok i
          → info M O fs e u j s ≡ ok i
      unfolding info
      info-entry j s {bytes} found dec = elim (Option-cases s.objects) [
        | inl q ↦ absurd (cc (found, q, O.lookup-empty j))
        | inr (o, q) ↦
            let there : O.lookup o j ≡ some bytes =
              sym (ap (λ (t : Option O.State). O.lookup (or_empty O t) j) q) ∙ found in
            rw (opening.begins_read s, opening.opens_objects s, q, gets o j, there, dec) refl
      ]

      info-stays :
          (j : ℕ) (s t : MassStore M O fs) {i : ObjectInfo}
          → entry M O fs t j ≡ entry M O fs s j
          → info M O fs e u j s ≡ ok i
          → info M O fs e u j t ≡ ok i
      info-stays j s t same h =
          let (bytes, found, dec) = info-ok j s h in info-entry j t (same ∙ found) dec

      read_range-stays :
          (j offset count : ℕ) (s t : MassStore M O fs) {out : List ℕ}
          → entry M O fs t j ≡ entry M O fs s j
          → payload M O fs t j ≡ payload M O fs s j
          → read_range M O fs e u j offset count s ≡ ok out
          → read_range M O fs e u j offset count t ≡ ok out
      unfolding read_range
      read_range-stays j offset count s t same_entry same h =
          let (i, q, h1) = >>=-eq-ok (info M O fs e u j s) _ h in
          let (end, add, h2) = ok_or-ok (checked_add offset count) invalid_range _ h1 in
          let (inside, h3) =
            guard-ok (leb end i.byte_length && ltb count word) invalid_range _ h2 in
          let (bytes, found, near, fits, is) =
            fs.read-eq (objects j) offset count s.files (ok_or-some _ io h3) in
          let again =
            readable.read_total (objects j) offset count t.files (same ∙ found) near fits in
          rw (info-stays j s t same_entry q, add, inside, again, is) refl

      pub read_range-granted :
          (j offset count : ℕ) (s : MassStore M O fs) {i : ObjectInfo} {bytes : List ℕ}
          → info M O fs e u j s ≡ ok i
          → payload M O fs s j ≡ some bytes
          → offset + count ≤ i.byte_length
          → offset < max_offset
          → i.byte_length < word
          → i.byte_length ≡ length bytes
          → read_range M O fs e u j offset count s ≡ ok (take count (drop offset bytes))
      unfolding read_range
      read_range-granted j offset count s {i} {bytes} known found fits near small all =
          let add : checked_add offset count ≡ some (offset + count) = ground arith in
          let inside : (leb (offset + count) i.byte_length && ltb count word) ≡ true =
            ground arith in
          let got : fs.read (objects j) offset count s.files
              ≡ some (take count (drop offset bytes)) =
            readable.read_total (objects j) offset count s.files found near
              (omega (arith, length-take count (drop offset bytes), length-drop offset bytes)) in
          rw (known, add, inside, got) refl

      -- A published object is immutable: after any number of calls of `put`, successful or not, its
      -- information and every range of its bytes are read as before, if redb and the file system
      -- grant these reads and the catalog held only numbers that were handed out. The writes of the
      -- calls may fail at any step.
      pub read_range-Puts :
          (j offset count : ℕ) (s t : MassStore M O fs) {out : List ℕ}
          → IsNumbered M O fs s
          → Puts M O fs u s t
          → read_range M O fs e u j offset count s ≡ ok out
          → (read_range M O fs e u j offset count t ≡ ok out)
            × (info M O fs e u j t ≡ info M O fs e u j s)
      unfolding read_range
      read_range-Puts j offset count s t numbered puts h =
          let (i, q, _) = >>=-eq-ok (info M O fs e u j s) _ h in
          let (bytes, found, _) = info-ok j s q in
          let (same_entry, same) =
            (Puts-Keeps M O fs u puts numbered).1 j (λ r. absurd (cc (found, r))) in
          (
            read_range-stays j offset count s t same_entry same h,
            info-stays j s t same_entry q ∙ sym q,
          )
