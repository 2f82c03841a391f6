-- ===== src/Redb/ReadBack.antt =====
-- Reading a chunked payload back: the loop that src/runtime_assets.rs and src/glTFredb.rs share.
use mathlib.Core.List.{append-nil, append_assoc}
use trueos_picasso.Prelude.{
  ℕ, zero, suc, ◌+◌, ◌-◌, ◌<◌, ◌≡◌, refl, ap, sym, ◌∙◌, none, some, List, [], ◌∷◌, ◌++◌, arith,
  length, take, drop, length-append, length-take, length-drop, take-append-drop, min, ◌==◌,
}
use trueos_picasso.Prelude.Result.{Result, ok, err, ok_or, guard, ◌>>=◌, ◌>>◌}
use trueos_picasso.Redb.{Table, IsReliable, IsReadable}
use trueos_picasso.Redb.Chunked.{div_ceil, chunks_of, chunks, Stored}

pub div_ceil-zero : (l size : ℕ) → 0 < size → 0 ≡ div_ceil l size → l ≡ 0
div_ceil-zero l size h e = grind arith

pub div_ceil-suc :
    (n l size : ℕ) → 0 < size → suc n ≡ div_ceil l size → n ≡ div_ceil (l - size) size
div_ceil-suc n l size h e = grind arith

module _ {K E : Type 0} (T : Table K (List ℕ)) (key : ℕ → K) (storage missing mismatch : E)
    (size total : ℕ) where
  -- `for index in 0..total.div_ceil(size)`, with the rounds that are left and the bytes so far.
  unfoldable pub read_chunks : (index rounds : ℕ) → List ℕ → T.State → Result E (List ℕ)
  read_chunks index zero bytes s = ok bytes
  read_chunks index (suc rounds) bytes s = do
    found ← ok_or (T.get s (key index)) storage
    chunk ← ok_or found missing
    guard (length chunk == min (total - length bytes) size) mismatch
    read_chunks (index + 1) rounds (bytes ++ chunk) s

  read_chunks-suc :
      (index rounds : ℕ) (bytes chunk : List ℕ) (s : T.State)
      → IsReadable T s
      → T.lookup s (key index) ≡ some chunk
      → length chunk ≡ min (total - length bytes) size
      → read_chunks index (suc rounds) bytes s ≡ read_chunks (index + 1) rounds (bytes ++ chunk) s
  unfolding read_chunks
  read_chunks-suc index rounds bytes chunk s rel stored len = ground (arith, rel (key index))

  -- Chunks that are stored under consecutive keys read back as the bytes that they were cut from.
  pub read_chunks-Stored :
      (index rounds : ℕ) (acc rest : List ℕ) (s : T.State)
      → IsReadable T s
      → 0 < size
      → total ≡ length acc + length rest
      → rounds ≡ div_ceil (length rest) size
      → Stored T key s index (chunks_of rounds size rest)
      → read_chunks index rounds acc s ≡ ok (acc ++ rest)
  unfolding read_chunks chunks_of
  read_chunks-Stored index zero acc [] s rel pos sum e h = ap ok (sym (append-nil acc))
  read_chunks-Stored index zero acc (x ∷ rest) s rel pos sum e h =
      absurd (omega (arith, div_ceil-zero (length (x ∷ rest)) size pos e))
  read_chunks-Stored index (suc n) acc rest s rel pos sum e h =
      read_chunks-suc index n acc (take size rest) s rel h.0 (omega (arith, length-take size rest))
      ∙ read_chunks-Stored (index + 1) n (acc ++ take size rest) (drop size rest) s rel pos
          (omega (
            arith,
            length-append acc (take size rest),
            length-take size rest,
            length-drop size rest,
          ))
          (rw (length-drop size rest) (div_ceil-suc n (length rest) size pos e)) h.1
      ∙ ap ok (
          append_assoc acc (take size rest) (drop size rest)
          ∙ ap (λ x. acc ++ x) (take-append-drop size rest))

  -- A chunk that is missing is reported.
  pub read_chunks-missing :
      (index rounds : ℕ) (bytes : List ℕ) (s : T.State)
      → IsReliable T
      → T.lookup s (key index) ≡ none
      → read_chunks index (suc rounds) bytes s ≡ err missing
  unfolding read_chunks
  read_chunks-missing index rounds bytes s rel e = ground (arith, rel.get_total s (key index))

-- Payloads of one length that are stored in the same place are the same.
pub Stored-injective :
    {K : Type 0} (T : Table K (List ℕ)) (key : ℕ → K) (size index rounds : ℕ) (a b : List ℕ)
    (s : T.State)
    → 0 < size
    → rounds ≡ div_ceil (length a) size
    → length a ≡ length b
    → Stored T key s index (chunks_of rounds size a)
    → Stored T key s index (chunks_of rounds size b)
    → a ≡ b
unfolding chunks_of
Stored-injective T key size index zero [] [] s pos e len h k = refl
Stored-injective T key size index zero [] (y ∷ b) s pos e len h k = absurd (omega (arith, len))
Stored-injective T key size index zero (x ∷ a) b s pos e len h k =
    absurd (omega (arith, div_ceil-zero (length (x ∷ a)) size pos e))
Stored-injective T key size index (suc n) a b s pos e len h k =
    let front : take size a ≡ take size b = cc (h.0, k.0) in
    let back =
      Stored-injective T key size (index + 1) n (drop size a) (drop size b) s pos
        (rw (length-drop size a) (div_ceil-suc n (length a) size pos e))
        (omega (arith, len, length-drop size a, length-drop size b)) h.1 k.1 in
    sym (take-append-drop size a)
    ∙ ap (λ x. x ++ drop size a) front
    ∙ ap (λ x. take size b ++ x) back
    ∙ take-append-drop size b

-- The number of chunks.
pub length-chunks_of :
    (count size : ℕ) (bytes : List ℕ) → length (chunks_of count size bytes) ≡ count
unfolding chunks_of
length-chunks_of zero size bytes = refl
length-chunks_of (suc n) size bytes = ap suc (length-chunks_of n size (drop size bytes))

pub length-chunks :
    (size : ℕ) (bytes : List ℕ) → length (chunks size bytes) ≡ div_ceil (length bytes) size
unfolding chunks
length-chunks size bytes = length-chunks_of (div_ceil (length bytes) size) size bytes
