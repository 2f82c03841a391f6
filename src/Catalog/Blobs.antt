-- ===== src/Catalog/Blobs.antt =====
-- `put_blob` and `Store::blob` of src/glTFredb.rs, on the table of blobs.
--
-- The loop of `blob` has no bound: it ends at the first chunk that is missing. It runs on fuel here,
-- and `none` is a run that has used it up. Its index is an i32 in the source, which 2^31 chunks would
-- overflow; they are 2^47 bytes, more than a process addresses, and the index here has no bound.
use mathlib.Core.List.{append-nil, append_assoc}
use trueos_picasso.Prelude.{
  ℕ, zero, suc, ◌+◌, ◌<◌, ◌≡◌, refl, ap, sym, ◌∙◌, Option, none, some, List, [], ◌∷◌, ◌++◌, arith,
  length, take, drop, take-append-drop, length-drop,
}
use trueos_picasso.Prelude.Result.{Result, ok, err, ok_or, ok_or-some}
use trueos_picasso.Redb.{Table, IsReliable}
use trueos_picasso.Redb.Chunked.{
  div_ceil, chunks_of, chunks, insert_chunks, insert_chunks-other, insert_chunks-Stored, Stored,
}
use trueos_picasso.Redb.ReadBack.{div_ceil-zero, div_ceil-suc, length-chunks}
use trueos_picasso.Text.{Text}
use trueos_picasso.Catalog.Types.{Error, storage, chunk_size}
use trueos_picasso.Catalog.Keys.{chunk_path, chunk_path-injective}

module _ (T : Table Text (List ℕ)) where
  unfoldable pub put_blob : (id : Text) (bytes : List ℕ) → T.State → Result Error T.State
  put_blob id bytes s =
      ok_or (insert_chunks T (chunk_path id) 0 (chunks chunk_size bytes) s) storage

  -- `for i in 0..`
  unfoldable pub blob_from :
      (id : Text) (index fuel : ℕ) (out : List ℕ) → T.State → Option (Result Error (List ℕ))
  blob_from id index zero out s = none
  blob_from id index (suc fuel) out s = elim (T.get s (chunk_path id index)) [
    | none ↦ some (err storage)
    | some found ↦ elim found [
      | none ↦ some (ok out)
      | some chunk ↦ blob_from id (index + 1) fuel (out ++ chunk) s
    ]
  ]

  unfoldable pub blob : (fuel : ℕ) (id : Text) → T.State → Option (Result Error (List ℕ))
  blob fuel id s = blob_from id 0 fuel [] s

  module _ (rel : IsReliable T) (id : Text) where
    pub blob_from-end :
        (index fuel : ℕ) (out : List ℕ) (s : T.State)
        → T.lookup s (chunk_path id index) ≡ none
        → blob_from id index (suc fuel) out s ≡ some (ok out)
    unfolding blob_from
    blob_from-end index fuel out s q = ground (arith, rel.get_total s (chunk_path id index), q)

    pub blob_from-suc :
        (index fuel : ℕ) (out chunk : List ℕ) (s : T.State)
        → T.lookup s (chunk_path id index) ≡ some chunk
        → blob_from id index (suc fuel) out s ≡ blob_from id (index + 1) fuel (out ++ chunk) s
    unfolding blob_from
    blob_from-suc index fuel out chunk s q =
        ground (arith, rel.get_total s (chunk_path id index), q)

    blob_from-Stored :
        (index rounds fuel : ℕ) (out rest : List ℕ) (s : T.State)
        → rounds ≡ div_ceil (length rest) chunk_size
        → Stored T (chunk_path id) s index (chunks_of rounds chunk_size rest)
        → T.lookup s (chunk_path id (index + rounds)) ≡ none
        → rounds < fuel
        → blob_from id index fuel out s ≡ some (ok (out ++ rest))
    unfolding chunks_of
    blob_from-Stored index rounds zero out rest s e h last lt = absurd (omega arith)
    blob_from-Stored index zero (suc fuel) out [] s e h last lt =
        blob_from-end index fuel out s (ap (λ (i : ℕ). T.lookup s (chunk_path id i)) here ∙ last)
        ∙ ap (λ (t : List ℕ). some (ok t)) (sym (append-nil out))
      where
        here : index ≡ index + 0
        here = omega arith
    blob_from-Stored index zero (suc fuel) out (x ∷ rest) s e h last lt =
        absurd (omega (arith, div_ceil-zero (length (x ∷ rest)) chunk_size (omega arith) e))
    blob_from-Stored index (suc n) (suc fuel) out rest s e h last lt =
        blob_from-suc index fuel out (take chunk_size rest) s h.0
        ∙ blob_from-Stored (index + 1) n fuel (out ++ take chunk_size rest) (drop chunk_size rest) s
            (rw (length-drop chunk_size rest)
              (div_ceil-suc n (length rest) chunk_size (omega arith) e))
            h.1 (ap (λ (i : ℕ). T.lookup s (chunk_path id i)) shift ∙ last) (omega arith)
        ∙ ap (λ (t : List ℕ). some (ok t))
            (append_assoc out (take chunk_size rest) (drop chunk_size rest)
              ∙ ap (λ (t : List ℕ). out ++ t) (take-append-drop chunk_size rest))
      where
        shift : index + 1 + n ≡ index + suc n
        shift = omega arith

    -- A blob that was put where no longer one stood before reads back exactly, and one round more
    -- than it has chunks is enough for the loop.
    pub blob-put_blob :
        (bytes : List ℕ) (s s' : T.State) (fuel : ℕ)
        → T.lookup s (chunk_path id (div_ceil (length bytes) chunk_size)) ≡ none
        → put_blob id bytes s ≡ ok s'
        → div_ceil (length bytes) chunk_size < fuel
        → blob fuel id s' ≡ some (ok bytes)
    unfolding put_blob blob chunks
    blob-put_blob bytes s s' fuel last ran enough =
        let wrote =
          ok_or-some (insert_chunks T (chunk_path id) 0 (chunks chunk_size bytes) s) storage ran in
        let count = length-chunks chunk_size bytes in
        blob_from-Stored 0 (div_ceil (length bytes) chunk_size) fuel [] bytes s' refl
          (insert_chunks-Stored T (chunk_path id) (chunk_path-injective id) 0
            (chunks chunk_size bytes) s wrote)
          (ap (λ (i : ℕ). T.lookup s' (chunk_path id i)) from_zero
            ∙ insert_chunks-other T (chunk_path id) 0 (chunks chunk_size bytes) s
                (chunk_path id (div_ceil (length bytes) chunk_size))
                (λ j _ lt clash. absurd (omega (arith, chunk_path-injective id j _ clash, count)))
                wrote
            ∙ last)
          enough
      where
        from_zero : 0 + div_ceil (length bytes) chunk_size ≡ div_ceil (length bytes) chunk_size
        from_zero = omega arith
