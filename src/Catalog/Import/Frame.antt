-- ===== src/Catalog/Import/Frame.antt =====
-- What an import of src/glTFredb.rs writes lies below its revision.
use mathlib.Core.List.{append_assoc}
use mathlib.Core.Path.{subst}
use trueos_picasso.Prelude.{ℕ, ◌≡◌, ◌≢◌, refl, ap, sym, ◌∙◌, Bool, some, List, [], ◌∷◌, ◌++◌, ◌+◌}
use trueos_picasso.Prelude.Result.{
  Result, ok, guard-ok, ok_or-ok, ok_or-some, >>=-eq-ok, ok-injective,
}
use trueos_picasso.Redb.{Table}
use trueos_picasso.Redb.Chunked.{chunks, insert_chunks, insert_chunks-other}
use trueos_picasso.Text.{Text, codes, decimal}
use trueos_picasso.Catalog.Types.{Error, table, storage, json, chunk_size, Codec}
use trueos_picasso.Catalog.Keys.{revision_key, chunk_path}
use trueos_picasso.Catalog.Blobs.{put_blob}
use trueos_picasso.Catalog.Import.Writes.{
  revision_prefix, eid, source_blob_key, buffer_blob_key, roots_key, primitive_key, for_each,
  for_each_index, Batch, put, put_blob_in,
}

-- The key begins with `r/{revision}/`.
abbrev pub IsBelow : (revision : ℕ) (key : Text) → Type 0
IsBelow r key = (rest : Text) × (key ≡ revision_prefix r ++ (b'/' ∷ rest))

pub IsBelow-append : (r : ℕ) (key more : Text) → IsBelow r key → IsBelow r (key ++ more)
IsBelow-append r key more h = (
  h.0 ++ more,
  ap (λ (k : Text). k ++ more) h.1 ∙ append_assoc (revision_prefix r) (b'/' ∷ h.0) more,
)

pub eid-IsBelow : (r : ℕ) (kind : Text) (i : ℕ) → IsBelow r (eid r kind i)
unfolding eid
eid-IsBelow r kind i = (kind ++ (b'/' ∷ decimal i), refl)

pub source_blob_key-IsBelow : (r : ℕ) → IsBelow r (source_blob_key r)
unfolding source_blob_key
source_blob_key-IsBelow r = (codes "blob/source", refl)

pub buffer_blob_key-IsBelow : (r i : ℕ) → IsBelow r (buffer_blob_key r i)
unfolding buffer_blob_key
buffer_blob_key-IsBelow r i = (codes "blob/buffer/" ++ decimal i, refl)

pub roots_key-IsBelow : (r : ℕ) (id : Text) → IsBelow r id → IsBelow r (roots_key id)
unfolding roots_key
roots_key-IsBelow r id h = IsBelow-append r id (codes "/roots") h

pub primitive_key-IsBelow :
    (r : ℕ) (id : Text) (i : ℕ) → IsBelow r id → IsBelow r (primitive_key id i)
unfolding primitive_key
primitive_key-IsBelow r id i h = IsBelow-append r id (codes "/primitive/" ++ decimal i) h

pub revision_key-IsBelow : (r : ℕ) → IsBelow r (revision_key r)
unfolding revision_key revision_prefix
revision_key-IsBelow r = (codes "revision", refl)

-- A loop whose rounds are related relates its ends.
module _ {ℓ} {A : Type ℓ} {S : Type 0} (R : S → S → Type 0) (same : (s : S) → R s s)
    (trans : (s t u : S) → R s t → R t u → R s u) where
  pub for_each_lem :
      (f : A → S → Result Error S) (xs : List A) (s : S) {s' : S}
      → ((x : A) (s s' : S) → f x s ≡ ok s' → R s s')
      → for_each f xs s ≡ ok s'
      → R s s'
  for_each_lem f [] s round h = subst (R s) (ok-injective h) (same s)
  for_each_lem f (x ∷ xs) s {s'} round h =
      let (t, q, h') = >>=-eq-ok (f x s) _ h in
      trans s t s' (round x s t q) (for_each_lem f xs t round h')

  pub for_each_index_lem :
      (f : ℕ → A → S → Result Error S) (i : ℕ) (xs : List A) (s : S) {s' : S}
      → ((i : ℕ) (x : A) (s s' : S) → f i x s ≡ ok s' → R s s')
      → for_each_index f i xs s ≡ ok s'
      → R s s'
  for_each_index_lem f i [] s round h = subst (R s) (ok-injective h) (same s)
  for_each_index_lem f i (x ∷ xs) s {s'} round h =
      let (t, q, h') = >>=-eq-ok (f i x s) _ h in
      trans s t s' (round i x s t q) (for_each_index_lem f (i + 1) xs t round h')

module _ (T : Table Text (List ℕ)) where
  -- `put` changes its key only, and the key holds what was encoded.
  pub record Wrote {A : Type 0} (c : Codec A) (key : Text) (value : A) (b b' : Batch T)
      : Type 0 where
    pub bytes : List ℕ
    pub encodes : c.to_vec value ≡ some bytes
    pub holds : T.lookup b'.records key ≡ some bytes
    pub others : (k : Text) → key ≢ k → T.lookup b'.records k ≡ T.lookup b.records k
    pub same_blobs : b'.blobs ≡ b.blobs

  pub put-Wrote :
      {A : Type 0} (c : Codec A) (key : Text) (value : A) (b : Batch T) {b' : Batch T}
      → put T c key value b ≡ ok b'
      → Wrote c key value b b'
  unfolding put
  put-Wrote c key value b h =
      let (bytes, enc, h1) = ok_or-ok (c.to_vec value) json _ h in
      let (s, ins, h2) = ok_or-ok (T.insert b.records key bytes) storage _ h1 in
      subst (Wrote c key value b) (ok-injective h2) (record {
        bytes = bytes;
        encodes = enc;
        holds = T.insert_self b.records key bytes ins;
        others = T.insert_ne b.records key bytes ins;
        same_blobs = refl;
      })

module _ (T : Table Text (List ℕ)) (r : ℕ) (B : Text → Type 0) where
  -- No record changed outside the revision, and no blob but those of the given keys.
  pub record Kept (b b' : Batch T) : Type 0 where
    pub records : (k : Text) → ¬ (IsBelow r k) → T.lookup b'.records k ≡ T.lookup b.records k
    pub blobs : (k : Text) → ¬ (B k) → T.lookup b'.blobs k ≡ T.lookup b.blobs k

  pub Kept-same : (b : Batch T) → Kept b b
  Kept-same b = record { records = λ k no. refl; blobs = λ k no. refl }

  pub Kept-trans : (a b d : Batch T) → Kept a b → Kept b d → Kept a d
  Kept-trans a b d h h' = record {
    records = λ k no. h'.records k no ∙ h.records k no;
    blobs = λ k no. h'.blobs k no ∙ h.blobs k no;
  }

  pub put-Kept :
      {A : Type 0} (c : Codec A) (key : Text) (value : A) (b : Batch T) {b' : Batch T}
      → IsBelow r key
      → put T c key value b ≡ ok b'
      → Kept b b'
  put-Kept c key value b below h =
      let w = put-Wrote T c key value b h in
      record {
        records = λ k no. w.others k (λ e. no (subst (IsBelow r) e below));
        blobs = λ k no. ap (λ (s : T.State). T.lookup s k) w.same_blobs;
      }

  pub put_blob_in-Kept :
      (opens : Bool) (id : Text) (bytes : List ℕ) (b : Batch T) {b' : Batch T}
      → ((j : ℕ) → B (chunk_path id j))
      → put_blob_in T opens id bytes b ≡ ok b'
      → Kept b b'
  unfolding put_blob_in put_blob
  put_blob_in-Kept opens id bytes b below h =
      let (_, h1) = guard-ok opens table _ h in
      let (s, ran, h2) = >>=-eq-ok (put_blob T id bytes b.blobs) _ h1 in
      let wrote =
        ok_or-some (insert_chunks T (chunk_path id) 0 (chunks chunk_size bytes) b.blobs) storage
          ran in
      subst (Kept b) (ok-injective h2) (record {
        records = λ k no. refl;
        blobs = λ k no.
            insert_chunks-other T (chunk_path id) 0 (chunks chunk_size bytes) b.blobs k
              (λ j _ lt clash. no (subst B clash (below j))) wrote;
      })

pub Kept-weaken :
    (T : Table Text (List ℕ)) (r : ℕ) (B D : Text → Type 0)
    → ((k : Text) → B k → D k)
    → (b b' : Batch T) → Kept T r B b b'
    → Kept T r D b b'
Kept-weaken T r B D sub b b' h = record {
  records = h.records;
  blobs = λ k no. h.blobs k (λ q. no (sub k q));
}

pub chunk_path-IsBelow : (r : ℕ) (id : Text) (j : ℕ) → IsBelow r id → IsBelow r (chunk_path id j)
unfolding chunk_path
chunk_path-IsBelow r id j h = IsBelow-append r id _ h

-- `put_blob_in` is `put_blob` on the table of blobs.
pub put_blob_in-stored :
    (T : Table Text (List ℕ)) (opens : Bool) (id : Text) (bytes : List ℕ) (b : Batch T)
    {b' : Batch T}
    → put_blob_in T opens id bytes b ≡ ok b'
    → (m : T.State) × (put_blob T id bytes b.blobs ≡ ok m) × (b'.blobs ≡ m)
unfolding put_blob_in
put_blob_in-stored T opens id bytes b h =
    let (_, h1) = guard-ok opens table _ h in
    let (s, ran, h2) = >>=-eq-ok (put_blob T id bytes b.blobs) _ h1 in
    (s, ran, ap (λ (x : Batch T). x.blobs) (sym (ok-injective h2)))
