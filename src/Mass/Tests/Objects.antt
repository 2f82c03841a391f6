-- ===== src/Mass/Tests/Objects.antt =====
-- Runs of the object store of src/nosql.rs, on tables that are association lists and files that are
-- another: no call fails.
use mathlib.Core.Path.{subst}
use trueos_picasso.Prelude.{
  ℕ, ◌≡◌, ◌≢◌, ◌↔◌, refl, ◌∙◌, Bool, true, false, Option, none, some, List, [], ◌∷◌, ◌==◌, ==_iff,
  ltb, ◌<◌, ◌&&◌, if◌then◌else◌, length, take, drop, arith,
}
use trueos_picasso.Prelude.Result.{ok}
use trueos_picasso.Redb.{Table}
use trueos_picasso.Redb.Assoc.{assoc_table, assoc_table-IsReliable}
use trueos_picasso.Text.{Text, codes, text_eq, contains}
use trueos_picasso.Text.Split.{text_eq_iff}
use trueos_picasso.Mass.Files.{FilePath, staging, objects, FileSystem, IsReadable, max_offset}
use trueos_picasso.Mass.Catalog.{
  MassStore, MassEngine, IsOpening, reserve_txn, publish_txn, info, read_range, read_object,
}
use trueos_picasso.Mass.{to_le_bytes, from_le_bytes, encode_record, decode_record}
use trueos_picasso.Mass.Store.{put}
use trueos_picasso.Mass.Store.Immutable.{IsNumbered, Puts-Keeps, start, next}
use trueos_picasso.Mass.Store.Reads.{read_range-Puts}
use trueos_picasso.Mass.Store.RoundTrip.{read-put}
use trueos_picasso.Mass.Tests.{ascii}

abbrev M : Table Text ℕ
M = assoc_table text_eq text_eq_iff

abbrev O : Table ℕ (List ℕ)
O = assoc_table ◌==◌ ==_iff

abbrev path_eq : FilePath → FilePath → Bool
path_eq (staging a) (staging b) = a == b
path_eq (objects a) (objects b) = a == b
path_eq _ _ = false

path_eq_iff : (p q : FilePath) → (path_eq p q ≡ true) ↔ (p ≡ q)
path_eq_iff (staging a) (staging b) = ground (arith, ==_iff a b)
path_eq_iff (staging a) (objects b) = ground arith
path_eq_iff (objects a) (staging b) = ground arith
path_eq_iff (objects a) (objects b) = ground (arith, ==_iff a b)

abbrev Disk : Type 0
Disk = FilePath → Option (List ℕ)

abbrev set : FilePath → Option (List ℕ) → Disk → Disk
set p o s q = if path_eq p q then o else s q

set_self : (p : FilePath) (o : Option (List ℕ)) (s : Disk) → set p o s p ≡ o
set_self p o s = rw ((path_eq_iff p p).1 refl) refl

set_ne : (p : FilePath) (o : Option (List ℕ)) (s : Disk) (q : FilePath) → p ≢ q → set p o s q ≡ s q
set_ne p o s q ne = ground (arith, path_eq_iff p q)

opened : {A : Type 0} {a b : A} → some a ≡ some b → a ≡ b
opened h = cc

abbrev read_at : Option (List ℕ) → (offset count : ℕ) → Option (List ℕ)
read_at none offset count = none
read_at (some bytes) offset count =
    if ltb offset max_offset && (length (take count (drop offset bytes)) == count)
    then some (take count (drop offset bytes))
    else none

read_at-eq :
    (o : Option (List ℕ)) (offset count : ℕ) {out : List ℕ}
    → read_at o offset count ≡ some out
    → (bytes : List ℕ) × (o ≡ some bytes)
      × (offset < max_offset)
      × (length (take count (drop offset bytes)) ≡ count)
      × (out ≡ take count (drop offset bytes))
read_at-eq none offset count h = cc
read_at-eq (some bytes) offset count h = (bytes, refl, ground arith, ground arith, ground arith)

read_at_total :
    (o : Option (List ℕ)) (offset count : ℕ) {bytes : List ℕ}
    → o ≡ some bytes
    → offset < max_offset
    → length (take count (drop offset bytes)) ≡ count
    → read_at o offset count ≡ some (take count (drop offset bytes))
read_at_total o offset count h near fits = rw h (ground arith)

abbrev disk : FileSystem
disk = record {
  State = Disk;
  contents = λ s p. s p;
  create = λ p s. some (set p (some []) s);
  write_all = λ p bytes s. (true, set p (some bytes) s);
  sync_all = λ p s. true;
  rename = λ p q s. some (set q (s p) (set p none s));
  sync_objects = λ s. true;
  read = λ p offset count s. read_at (s p) offset count;
  create_self = λ p s h. subst (λ (t : Disk). t p ≡ some []) (opened h) (set_self p (some []) s);
  create_ne = λ p s h q ne. subst (λ (t : Disk). t q ≡ s q) (opened h) (set_ne p (some []) s q ne);
  write_self = λ p bytes s old h.
      subst (λ (r : Bool × Disk). r.1 p ≡ some bytes) h (set_self p (some bytes) s);
  write_ne = λ p bytes s q ne. set_ne p (some bytes) s q ne;
  rename_to =
      λ p q s h. subst (λ (t : Disk). t q ≡ s p) (opened h) (set_self q (s p) (set p none s));
  rename_ne = λ p q s h r ne ne'.
      subst (λ (t : Disk). t r ≡ s r) (opened h)
        (set_ne q (s p) (set p none s) r ne' ∙ set_ne p none s r ne);
  read-eq = λ p offset count s. read_at-eq (s p) offset count;
}

disk-IsReadable : IsReadable disk
disk-IsReadable = record { read_total = λ p offset count s. read_at_total (s p) offset count }

abbrev granting : MassEngine M O disk
granting = record {
  begins_read = λ s. true;
  begins_write = λ s. true;
  opens_meta = λ s. true;
  opens_objects = λ s. true;
  commits = λ s. true;
}

granting-IsOpening : IsOpening M O disk granting
granting-IsOpening = record { begins_read = λ s. refl; opens_objects = λ s. refl }

abbrev fresh : MassStore M O disk
fresh = record { meta = none; objects = none; files = λ p. none }

abbrev stored : MassStore M O disk
stored = (put M O disk granting ascii (codes "rock") (7 ∷ 8 ∷ []) fresh).1

put_run : put M O disk granting ascii (codes "rock") (7 ∷ 8 ∷ []) fresh ≡ (ok 1, stored)
unfolding put contains reserve_txn publish_txn
put_run = refl

read-put_example :
    (read_object M O disk granting ascii 1 stored ≡ ok (7 ∷ 8 ∷ []))
    × (info M O disk granting ascii 1 stored
        ≡ ok (record { id = 1; byte_length = 2; label = codes "rock" }))
read-put_example =
    read-put M O disk granting ascii (assoc_table-IsReliable ◌==◌ ==_iff) granting-IsOpening
      disk-IsReadable (codes "rock") (7 ∷ 8 ∷ []) fresh (omega arith) put_run

-- A redb that does not open the table of objects: a `put` stops before its record.
abbrev halting : MassEngine M O disk
halting = record granting { opens_objects = λ s. false }

stored-IsNumbered : IsNumbered M O disk stored
stored-IsNumbered =
    (Puts-Keeps M O disk ascii (next start granting (codes "rock") (7 ∷ 8 ∷ []))
      (λ j present. absurd (present refl))).0

range_run : read_range M O disk granting ascii 1 1 1 stored ≡ ok (8 ∷ [])
unfolding read_range put contains reserve_txn publish_txn decode_record encode_record to_le_bytes
    from_le_bytes
range_run = refl

read_range-Puts_example :
    (read_range M O disk granting ascii 1 1 1
        (put M O disk halting ascii (codes "tree") (9 ∷ []) stored).1
      ≡ ok (8 ∷ []))
    × (info M O disk granting ascii 1 (put M O disk halting ascii (codes "tree") (9 ∷ []) stored).1
        ≡ info M O disk granting ascii 1 stored)
read_range-Puts_example =
    read_range-Puts M O disk granting ascii (λ o j. refl) granting-IsOpening disk-IsReadable 1 1 1
      stored _ stored-IsNumbered (next start halting (codes "tree") (9 ∷ [])) range_run
