-- ===== src/Mass/Store/Steps.antt =====
-- What each step of `put` of src/nosql.rs touches, whether it succeeds or not.
use mathlib.Core.Path.{subst}
use trueos_picasso.Prelude.{
  ℕ, suc, ◌≡◌, ◌≢◌, refl, ap, ◌∙◌, Bool, true, false, Option, none, some, List, arith,
}
use trueos_picasso.Prelude.Result.{Result, ok, err, guard-ok, ok_or-ok, ok-injective}
use trueos_picasso.Prelude.Eff.{andthen, pure, guard, ◌>>◌}
use trueos_picasso.Prelude.Words.{checked_add}
use trueos_picasso.Redb.{Table, or_empty}
use trueos_picasso.Text.{Text}
use trueos_picasso.Mass.Files.{FileSystem, staging, objects}
use trueos_picasso.Mass.Catalog.{
  MassStore, MassEngine, next_object, or_one, reserve_txn, publish_txn,
}
use trueos_picasso.Mass.{MassError, transaction, table, storage, commit, io, invalid_record}
use trueos_picasso.Mass.Store.{
  Action, settled, with_files, after_write, create_file, write_file, sync_file, rename_file,
  sync_directory, reserve_id, publish_record, put_as,
}

number_apart : (i j : ℕ) → i ≢ j → objects i ≢ objects j
number_apart i j ne e = ne (same e)
  where
    same : {i j : ℕ} → objects i ≡ objects j → i ≡ j
    same q = cc

staging_apart : (i j : ℕ) → staging i ≢ objects j
staging_apart i j e = cc

module _ (M : Table Text ℕ) (O : Table ℕ (List ℕ)) (fs : FileSystem) where
  -- The next number that `reserve_id` hands out.
  abbrev pub counter : MassStore M O fs → ℕ
  counter s = or_one (M.lookup (or_empty M s.meta) next_object)

  -- The catalog's bytes of an object, and the bytes of its file.
  abbrev pub entry : MassStore M O fs → ℕ → Option (List ℕ)
  entry s j = O.lookup (or_empty O s.objects) j

  abbrev pub payload : MassStore M O fs → ℕ → Option (List ℕ)
  payload s j = fs.contents s.files (objects j)

  -- Only the object of this number may have changed.
  pub record Touches (id : ℕ) (s s' : MassStore M O fs) : Type 0 where
    pub counts : counter s' ≡ counter s
    pub entries : (j : ℕ) → id ≢ j → entry s' j ≡ entry s j
    pub payloads : (j : ℕ) → id ≢ j → payload s' j ≡ payload s j

  Touches-same : (id : ℕ) (s : MassStore M O fs) → Touches id s s
  Touches-same id s = record { counts = refl; entries = λ j ne. refl; payloads = λ j ne. refl }

  Touches-trans :
      (id : ℕ) (s t v : MassStore M O fs) → Touches id s t → Touches id t v → Touches id s v
  Touches-trans id s t v h k = record {
    counts = k.counts ∙ h.counts;
    entries = λ j ne. k.entries j ne ∙ h.entries j ne;
    payloads = λ j ne. k.payloads j ne ∙ h.payloads j ne;
  }

  -- An action that touches its object only, in every outcome.
  abbrev TouchesOnly : {A : Type 0} → ℕ → Action M O fs A → Type 0
  TouchesOnly id m = (s : MassStore M O fs) → Touches id s (m s).1

  andthen-Touches :
      {A B : Type 0} (id : ℕ) (f : A → Action M O fs B) (s : MassStore M O fs)
      (p : Result MassError A × MassStore M O fs)
      → ((a : A) → TouchesOnly id (f a))
      → Touches id s p.1
      → Touches id s (andthen f p).1
  andthen-Touches id f s (ok a, t) later now = Touches-trans id s t (f a t).1 now (later a t)
  andthen-Touches id f s (err x, t) later now = now

  then-Touches :
      {B : Type 0} (id : ℕ) (m : Action M O fs (Unit {0})) (k : Action M O fs B)
      → TouchesOnly id m
      → TouchesOnly id k
      → TouchesOnly id (m >> k)
  then-Touches id m k h h' s = andthen-Touches id (λ x. k) s (m s) (λ x. h') (h s)

  files_touch :
      (id : ℕ) (s : MassStore M O fs) (files : fs.State)
      → ((j : ℕ) → id ≢ j → fs.contents files (objects j) ≡ fs.contents s.files (objects j))
      → Touches id s (record s { files = files })
  files_touch id s files h = record { counts = refl; entries = λ j ne. refl; payloads = h }

  create_file-Touches : (id : ℕ) → TouchesOnly id (create_file M O fs (staging id))
  unfolding create_file
  create_file-Touches id s = go (fs.create (staging id) s.files) refl
    where
      go :
          (o : Option fs.State)
          → fs.create (staging id) s.files ≡ o
          → Touches id s (with_files M O fs s o).1
      go none q = Touches-same id s
      go (some files) q =
          files_touch id s files
            (λ j ne. fs.create_ne (staging id) s.files q (objects j) (staging_apart id j))

  after_write-Touches :
      (id : ℕ) (s : MassStore M O fs) (p : Bool × fs.State)
      → ((j : ℕ) → id ≢ j → fs.contents p.1 (objects j) ≡ fs.contents s.files (objects j))
      → Touches id s (after_write M O fs s p).1
  after_write-Touches id s (true, files) h = files_touch id s files h
  after_write-Touches id s (false, files) h = files_touch id s files h

  write_file-Touches :
      (id : ℕ) (bytes : List ℕ) → TouchesOnly id (write_file M O fs (staging id) bytes)
  unfolding write_file
  write_file-Touches id bytes s =
      after_write-Touches id s (fs.write_all (staging id) bytes s.files)
        (λ j ne. fs.write_ne (staging id) bytes s.files (objects j) (staging_apart id j))

  guard-Touches :
      (id : ℕ) (b : Bool) (x : MassError) (s : MassStore M O fs) → Touches id s (guard b x s).1
  guard-Touches id true x s = Touches-same id s
  guard-Touches id false x s = Touches-same id s

  rename_file-Touches : (id : ℕ) → TouchesOnly id (rename_file M O fs (staging id) (objects id))
  unfolding rename_file
  rename_file-Touches id s = go (fs.rename (staging id) (objects id) s.files) refl
    where
      go :
          (o : Option fs.State)
          → fs.rename (staging id) (objects id) s.files ≡ o
          → Touches id s (with_files M O fs s o).1
      go none q = Touches-same id s
      go (some files) q = files_touch id s files (λ j ne.
          fs.rename_ne (staging id) (objects id) s.files q (objects j) (staging_apart id j)
            (number_apart id j ne))

  module _ (e : MassEngine M O fs) where
    pub publish_txn-ok :
        (id : ℕ) (bytes : List ℕ) (s : MassStore M O fs) {p : Unit {0} × MassStore M O fs}
        → publish_txn M O fs e id bytes s ≡ ok p
        → (o : O.State) × (O.insert (or_empty O s.objects) id bytes ≡ some o)
          × (record s { objects = some o } ≡ p.1)
    unfolding publish_txn
    publish_txn-ok id bytes s h =
        let (_, h1) = guard-ok (e.begins_write s) transaction _ h in
        let (_, h2) = guard-ok (e.opens_objects s) table _ h1 in
        let (o, ins, h3) = ok_or-ok (O.insert (or_empty O s.objects) id bytes) storage _ h2 in
        let (_, h4) = guard-ok (e.commits (record s { objects = some o })) commit _ h3 in
        (o, ins, ap (λ (p : Unit {0} × MassStore M O fs). p.1) (ok-injective h4))

    publish_record-Touches :
        (id : ℕ) (bytes : List ℕ) → TouchesOnly id (publish_record M O fs e id bytes)
    unfolding publish_record
    publish_record-Touches id bytes s = go (publish_txn M O fs e id bytes s) refl
      where
        go :
            (r : Result MassError (Unit {0} × MassStore M O fs))
            → publish_txn M O fs e id bytes s ≡ r
            → Touches id s (settled M O fs s r).1
        go (err x) q = Touches-same id s
        go (ok p) q =
            let (o, inserted, same) = publish_txn-ok id bytes s q in
            subst (Touches id s) same (record {
              counts = refl;
              entries = O.insert_ne (or_empty O s.objects) id bytes inserted;
              payloads = λ j ne. refl;
            })

    -- The steps after the number was taken touch its object only, wherever they stop.
    pub put_as-Touches :
        (id : ℕ) (record_bytes bytes : List ℕ)
        → TouchesOnly id (put_as M O fs e id record_bytes bytes)
    unfolding put_as sync_file sync_directory
    put_as-Touches id record_bytes bytes =
        let published : Action M O fs ℕ = publish_record M O fs e id record_bytes >> pure id in
        let synced : Action M O fs ℕ = sync_directory M O fs >> published in
        let renamed : Action M O fs ℕ = rename_file M O fs (staging id) (objects id) >> synced in
        let flushed : Action M O fs ℕ = sync_file M O fs (staging id) >> renamed in
        let written : Action M O fs ℕ = write_file M O fs (staging id) bytes >> flushed in
        then-Touches id (create_file M O fs (staging id)) written (create_file-Touches id) (
          then-Touches id (write_file M O fs (staging id) bytes) flushed
            (write_file-Touches id bytes)
            (then-Touches id (sync_file M O fs (staging id)) renamed
              (λ s. guard-Touches id (fs.sync_all (staging id) s.files) io s)
              (then-Touches id (rename_file M O fs (staging id) (objects id)) synced
                (rename_file-Touches id)
                (then-Touches id (sync_directory M O fs) published
                  (λ s. guard-Touches id (fs.sync_objects s.files) io s)
                  (then-Touches id (publish_record M O fs e id record_bytes) (pure id)
                    (publish_record-Touches id record_bytes) (λ s. Touches-same id s))))))

    -- A number that is taken is the counter, which moves on by one; else nothing changes.
    abbrev pub Reserved : MassStore M O fs → Result MassError ℕ × MassStore M O fs → Type 0
    Reserved s (ok id, s') =
        (id ≡ counter s) × (counter s' ≡ suc id) × (s'.objects ≡ s.objects) × (s'.files ≡ s.files)
    Reserved s (err x, s') = s' ≡ s

    checked_add-some : (n : ℕ) {m : ℕ} → checked_add n 1 ≡ some m → m ≡ suc n
    checked_add-some n h = ground arith

    reserve_txn-Reserved :
        (s : MassStore M O fs) {p : ℕ × MassStore M O fs}
        → reserve_txn M O fs e s ≡ ok p
        → Reserved s (ok p.0, p.1)
    unfolding reserve_txn
    reserve_txn-Reserved s h =
        let (_, h1) = guard-ok (e.begins_write s) transaction _ h in
        let (_, h2) = guard-ok (e.opens_meta s) table _ h1 in
        let (found, got, h3) = ok_or-ok (M.get (or_empty M s.meta) next_object) storage _ h2 in
        let (bumped, add, h4) = ok_or-ok (checked_add (or_one found) 1) invalid_record _ h3 in
        let (m, ins, h5) =
          ok_or-ok (M.insert (or_empty M s.meta) next_object bumped) storage _ h4 in
        let (_, h6) = guard-ok (e.commits (record s { meta = some m })) commit _ h5 in
        subst (λ (p : ℕ × MassStore M O fs). Reserved s (ok p.0, p.1)) (ok-injective h6)
          (
            ap or_one (M.get-eq (or_empty M s.meta) next_object got),
            ap or_one (M.insert_self (or_empty M s.meta) next_object bumped ins)
                ∙ checked_add-some (or_one found) add,
            refl,
            refl,
          )

    pub reserve_id-Reserved : (s : MassStore M O fs) → Reserved s (reserve_id M O fs e s)
    unfolding reserve_id
    reserve_id-Reserved s = go (reserve_txn M O fs e s) refl
      where
        go :
            (r : Result MassError (ℕ × MassStore M O fs))
            → reserve_txn M O fs e s ≡ r
            → Reserved s (settled M O fs s r)
        go (err x) q = refl
        go (ok p) q = reserve_txn-Reserved s q
