-- ===== src/Redb/Chunked.antt =====
-- A payload cut into chunks under the keys `key 0`, `key 1`, ... of a table: the loops that
-- src/runtime_assets.rs and src/glTFredb.rs share, and that what they write reads back.
use mathlib.Core.Path.{subst}
use native.Mathlib.Decide.{ℕ_discrete}
use trueos_picasso.Prelude.{
  ℕ, zero, suc, ◌+◌, ◌-◌, ◌/◌, ◌≤◌, ◌<◌, ◌≡◌, refl, ◌≢◌, ◌∙◌, Option, none, some, List, [], ◌∷◌,
  arith, length, take, drop,
}
use trueos_picasso.Prelude.Words.{and_then, and_then-some}
use trueos_picasso.Redb.{Table, IsReliable}

-- `len.div_ceil(size)`, which panics at size 0; every use has a constant.
abbrev pub div_ceil : ℕ → ℕ → ℕ
div_ceil n size = (n + size - 1) / size

-- The first `count` of `bytes.chunks(size)`.
unfoldable pub chunks_of : (count size : ℕ) → List ℕ → List (List ℕ)
chunks_of zero size bytes = []
chunks_of (suc count) size bytes = take size bytes ∷ chunks_of count size (drop size bytes)

unfoldable pub chunks : (size : ℕ) → List ℕ → List (List ℕ)
unfolding chunks_of
chunks size bytes = chunks_of (div_ceil (length bytes) size) size bytes

module _ {K : Type 0} (T : Table K (List ℕ)) (key : ℕ → K) where
  -- `for (index, chunk) in bytes.chunks(size).enumerate() { table.insert(key, chunk)?; }`
  unfoldable pub insert_chunks : (index : ℕ) → List (List ℕ) → T.State → Option T.State
  insert_chunks index [] s = some s
  insert_chunks index (chunk ∷ rest) s =
      and_then (T.insert s (key index) chunk) (λ s'. insert_chunks (index + 1) rest s')

  -- `for index in first..last { table.remove(key)?; }`
  unfoldable pub remove_chunks : (index rounds : ℕ) → T.State → Option T.State
  remove_chunks index zero s = some s
  remove_chunks index (suc rounds) s =
      and_then (T.remove s (key index)) (λ p. remove_chunks (index + 1) rounds p.1)

  -- The chunks stand in the table from `index` on.
  abbrev pub Stored : T.State → (index : ℕ) → List (List ℕ) → Type 0
  Stored s index [] = Unit
  Stored s index (chunk ∷ rest) = (T.lookup s (key index) ≡ some chunk) × Stored s (index + 1) rest

  -- The key belongs to none of the `rounds` chunks from `index` on.
  abbrev pub Outside : (index rounds : ℕ) → K → Type 0
  Outside index rounds k = (j : ℕ) → index ≤ j → j < index + rounds → key j ≢ k

  Outside-later :
      (index rounds : ℕ) (k : K) → Outside index (suc rounds) k → Outside (index + 1) rounds k
  Outside-later index rounds k out j le lt = out j (omega arith) (omega arith)

  -- The loops leave the other keys alone.
  pub insert_chunks-other :
      (index : ℕ) (cs : List (List ℕ)) (s : T.State) {s' : T.State} (k : K)
      → Outside index (length cs) k
      → insert_chunks index cs s ≡ some s'
      → T.lookup s' k ≡ T.lookup s k
  unfolding insert_chunks
  insert_chunks-other index [] s k out h = cc
  insert_chunks-other index (c ∷ rest) s k out h =
      let (m, first, later) = and_then-some (T.insert s (key index) c) _ h in
      insert_chunks-other (index + 1) rest m k (Outside-later index (length rest) k out) later
      ∙ T.insert_ne s (key index) c first k (out index (omega arith) (omega arith))

  pub remove_chunks-other :
      (index rounds : ℕ) (s : T.State) {s' : T.State} (k : K)
      → Outside index rounds k
      → remove_chunks index rounds s ≡ some s'
      → T.lookup s' k ≡ T.lookup s k
  unfolding remove_chunks
  remove_chunks-other index zero s k out h = cc
  remove_chunks-other index (suc n) s k out h =
      let (p, first, later) = and_then-some (T.remove s (key index)) _ h in
      remove_chunks-other (index + 1) n p.1 k (Outside-later index n k out) later
      ∙ T.remove_ne s (key index) first k (out index (omega arith) (omega arith))

  module _ (key_injective : (i j : ℕ) → key i ≡ key j → i ≡ j) where
    past : (index rounds i : ℕ) → i < index → Outside index rounds (key i)
    past index rounds i lt j le _ e = absurd (omega (arith, key_injective j i e))

    -- What the writing loop leaves is what it was given.
    pub insert_chunks-Stored :
        (index : ℕ) (cs : List (List ℕ)) (s : T.State) {s' : T.State}
        → insert_chunks index cs s ≡ some s'
        → Stored s' index cs
    unfolding insert_chunks
    insert_chunks-Stored index [] s h = tt
    insert_chunks-Stored index (c ∷ rest) s h =
        let (m, first, later) = and_then-some (T.insert s (key index) c) _ h in
        (
          insert_chunks-other (index + 1) rest m (key index)
                (past (index + 1) (length rest) index (omega arith)) later
              ∙ T.insert_self s (key index) c first,
          insert_chunks-Stored (index + 1) rest m later,
        )

    -- The removing loop leaves none of its chunks.
    pub remove_chunks-none :
        (index rounds : ℕ) (s : T.State) {s' : T.State}
        → remove_chunks index rounds s ≡ some s'
        → (j : ℕ) → index ≤ j
        → j < index + rounds
        → T.lookup s' (key j) ≡ none
    unfolding remove_chunks
    remove_chunks-none index zero s h j le lt = absurd (omega arith)
    remove_chunks-none index (suc n) s {s'} h j le lt =
        let (p, first, later) = and_then-some (T.remove s (key index)) _ h in
        elim (ℕ_discrete index j) [
          | yes e ↦
              subst (λ i. T.lookup s' (key i) ≡ none) e
                (remove_chunks-other (index + 1) n p.1 (key index)
                    (past (index + 1) n index (omega arith)) later
                  ∙ T.remove_self s (key index) first)
          | no ne ↦ remove_chunks-none (index + 1) n p.1 later j (omega arith) (omega arith)
        ]

    -- Chunks whose keys another operation did not touch are still stored.
    pub Stored-same :
        (index : ℕ) (cs : List (List ℕ)) (s s' : T.State)
        → ((j : ℕ) → index ≤ j → j < index + length cs → T.lookup s' (key j) ≡ T.lookup s (key j))
        → Stored s index cs
        → Stored s' index cs
    Stored-same index [] s s' same h = tt
    Stored-same index (c ∷ rest) s s' same h = (
      same index (omega arith) (omega arith) ∙ h.0,
      Stored-same (index + 1) rest s s' (λ j le lt. same j (omega arith) (omega arith)) h.1,
    )

  -- On a table whose calls succeed, both loops run to their end.
  pub insert_chunks-total :
      IsReliable T
      → (index : ℕ) (cs : List (List ℕ)) (s : T.State)
      → (s' : T.State) × (insert_chunks index cs s ≡ some s')
  unfolding insert_chunks
  insert_chunks-total rel index [] s = (s, refl)
  insert_chunks-total rel index (c ∷ rest) s =
      let (m, e) = rel.insert_total s (key index) c in
      let (s', later) = insert_chunks-total rel (index + 1) rest m in (s', rw e later)

  pub remove_chunks-total :
      IsReliable T
      → (index rounds : ℕ) (s : T.State) → (s' : T.State) × (remove_chunks index rounds s ≡ some s')
  unfolding remove_chunks
  remove_chunks-total rel index zero s = (s, refl)
  remove_chunks-total rel index (suc n) s =
      let (m, e) = rel.remove_total s (key index) in
      let (s', later) = remove_chunks-total rel (index + 1) n m in (s', rw e later)
