-- ===== src/RuntimeAssets/RoundTrip.antt =====
-- Insertion and removal of src/runtime_assets.rs are those of a map.
use Prim.Native.String.{String}
use mathlib.Core.Bool.{false≢true}
use mathlib.Core.Path.{subst}
use native.Mathlib.Decide.{dec_lt}
use text.Mathlib.Text.{◌==◌ as str_eq}
use text.Mathlib.TextEquality.{eq_iff}
use trueos_picasso.Prelude.{
  ℕ, ◌+◌, ◌-◌, ◌≤◌, ◌<◌, ◌≡◌, ◌≢◌, refl, ap, sym, ◌∙◌, Option, none, some, List, length, arith,
  if◌then◌else◌, Bool-cases, inl, inr,
}
use trueos_picasso.Prelude.Result.{ok}
use trueos_picasso.Redb.{or_empty, Table}
use trueos_picasso.Redb.Chunked.{
  div_ceil, chunks, Stored-same, insert_chunks-other, remove_chunks-other, insert_chunks-Stored,
  remove_chunks-none,
}
use trueos_picasso.Redb.ReadBack.{length-chunks}
use trueos_picasso.RuntimeAssets.Database.{
  chunk_bytes, or_zero, chunk_key, Tables, Engine, insert_txn, remove_txn,
}
use trueos_picasso.RuntimeAssets.Transactions.{
  Inserted, insert_txn-Inserted, Removed, remove_txn-Removed,
}
use trueos_picasso.RuntimeAssets.View.{HoldsIn, Holds, Represents}

chunk_key-injective : (name : String) (i j : ℕ) → chunk_key name i ≡ chunk_key name j → i ≡ j
chunk_key-injective name i j e = ap (λ (k : String × ℕ). k.1) e

chunk_key-ne :
    {name other : String} → name ≢ other → (i j : ℕ) → chunk_key name i ≢ chunk_key other j
chunk_key-ne ne i j e = ne (ap (λ (k : String × ℕ). k.0) e)

module _ (Lengths : Table String ℕ) (Chunks : Table (String × ℕ) (List ℕ)) where
  -- A name whose length and chunks were not touched holds what it held.
  HoldsIn-same :
      (l l' : Lengths.State) (c c' : Chunks.State) (name : String) (o : Option (List ℕ))
      → Lengths.lookup l' name ≡ Lengths.lookup l name
      → ((i : ℕ) → Chunks.lookup c' (name, i) ≡ Chunks.lookup c (name, i))
      → HoldsIn Lengths Chunks l c name o
      → HoldsIn Lengths Chunks l' c' name o
  HoldsIn-same l l' c c' name none el ec h = (el ∙ h.0, λ i. ec i ∙ h.1 i)
  HoldsIn-same l l' c c' name (some bytes) el ec h = (
    el ∙ h.0,
    Stored-same Chunks (chunk_key name) (chunk_key-injective name) 0 (chunks chunk_bytes bytes) c c'
        (λ j _ _. ec j) h.1,
    λ i le. ec i ∙ h.2 i le,
  )

  -- Past the chunks that its length counts, a name has none.
  HoldsIn-past :
      (l : Lengths.State) (c : Chunks.State) (name : String) (o : Option (List ℕ))
      → HoldsIn Lengths Chunks l c name o
      → (i : ℕ) → div_ceil (or_zero (Lengths.lookup l name)) chunk_bytes ≤ i
      → Chunks.lookup c (name, i) ≡ none
  HoldsIn-past l c name none h i le = h.1 i
  HoldsIn-past l c name (some bytes) h i le =
      h.2 i (subst (λ x. div_ceil (or_zero x) chunk_bytes ≤ i) h.0 le)

  module _ (e : Engine Lengths Chunks) (name : String) (db : Tables Lengths Chunks)
      {db' : Tables Lengths Chunks} where
    insert_self :
        (bytes : List ℕ) (o : Option (List ℕ))
        → Holds Lengths Chunks db name o
        → (t : Inserted e name db bytes db')
        → HoldsIn Lengths Chunks t.lengths t.pruned name (some bytes)
    insert_self bytes o h t = (
      Lengths.insert_self (or_empty Lengths db.lengths) name (length bytes) t.measured,
      Stored-same Chunks key inj 0 cs t.written t.pruned kept
          (insert_chunks-Stored Chunks key inj 0 cs (or_empty Chunks db.chunks) t.wrote),
      gone,
    )
      where
        key : ℕ → String × ℕ
        key = chunk_key name

        inj : (i j : ℕ) → key i ≡ key j → i ≡ j
        inj = chunk_key-injective name

        cs : List (List ℕ)
        cs = chunks chunk_bytes bytes

        first : ℕ
        first = div_ceil (length bytes) chunk_bytes

        last : ℕ
        last = div_ceil (or_zero t.previous) chunk_bytes

        count : length cs ≡ first
        count = length-chunks chunk_bytes bytes

        kept :
            (j : ℕ)
            → 0 ≤ j
            → j < 0 + length cs
            → Chunks.lookup t.pruned (key j) ≡ Chunks.lookup t.written (key j)
        kept j _ lt =
            remove_chunks-other Chunks key first (last - first) t.written (key j)
              (λ i le _ q. absurd (omega (arith, count, inj i j q))) t.removed

        old : t.previous ≡ Lengths.lookup (or_empty Lengths db.lengths) name
        old = Lengths.get-eq (or_empty Lengths db.lengths) name t.looked_up

        gone : (i : ℕ) → first ≤ i → Chunks.lookup t.pruned (key i) ≡ none
        gone i le = elim (dec_lt i last) [
          | yes lt ↦
              remove_chunks-none Chunks key inj first (last - first) t.written t.removed i le
                (omega arith)
          | no ge ↦
              remove_chunks-other Chunks key first (last - first) t.written (key i)
                (λ j _ lt q. absurd (omega (arith, inj j i q))) t.removed
              ∙ insert_chunks-other Chunks key 0 cs (or_empty Chunks db.chunks) (key i)
                  (λ j _ lt q. absurd (omega (arith, count, inj j i q))) t.wrote
              ∙ HoldsIn-past (or_empty Lengths db.lengths) (or_empty Chunks db.chunks) name o h i
                  (subst (λ x. div_ceil (or_zero x) chunk_bytes ≤ i) old (omega arith))
        ]

    insert-other :
        (bytes : List ℕ) (other : String) (o : Option (List ℕ))
        → name ≢ other
        → Holds Lengths Chunks db other o
        → (t : Inserted e name db bytes db') → HoldsIn Lengths Chunks t.lengths t.pruned other o
    insert-other bytes other o ne h t =
        HoldsIn-same (or_empty Lengths db.lengths) t.lengths (or_empty Chunks db.chunks) t.pruned
          other o
          (Lengths.insert_ne (or_empty Lengths db.lengths) name (length bytes) t.measured other ne)
          (λ i.
            remove_chunks-other Chunks (chunk_key name) (div_ceil (length bytes) chunk_bytes)
              (div_ceil (or_zero t.previous) chunk_bytes - div_ceil (length bytes) chunk_bytes)
              t.written (other, i) (λ j _ _. chunk_key-ne ne j i) t.removed
            ∙ insert_chunks-other Chunks (chunk_key name) 0 (chunks chunk_bytes bytes)
                (or_empty Chunks db.chunks) (other, i) (λ j _ _. chunk_key-ne ne j i) t.wrote)
          h

    remove_self :
        (o : Option (List ℕ))
        → Holds Lengths Chunks db name o
        → (t : Removed e name db db') → HoldsIn Lengths Chunks t.lengths t.pruned name none
    remove_self o h t = (
      Lengths.remove_self (or_empty Lengths db.lengths) name t.forgot,
      λ i. elim (dec_lt i last) [
        | yes lt ↦
            remove_chunks-none Chunks (chunk_key name) (chunk_key-injective name) 0 last
              (or_empty Chunks db.chunks) t.removed i (omega arith) (omega arith)
        | no ge ↦
            remove_chunks-other Chunks (chunk_key name) 0 last (or_empty Chunks db.chunks) (name, i)
              (λ j _ lt q. absurd (omega (arith, chunk_key-injective name j i q))) t.removed
            ∙ HoldsIn-past (or_empty Lengths db.lengths) (or_empty Chunks db.chunks) name o h i (
                subst (λ x. div_ceil (or_zero x) chunk_bytes ≤ i)
                  (Lengths.remove-eq (or_empty Lengths db.lengths) name t.forgot) (omega arith))
      ],
    )
      where
        last : ℕ
        last = div_ceil (or_zero t.old) chunk_bytes

    remove-other :
        (other : String) (o : Option (List ℕ))
        → name ≢ other
        → Holds Lengths Chunks db other o
        → (t : Removed e name db db') → HoldsIn Lengths Chunks t.lengths t.pruned other o
    remove-other other o ne h t =
        HoldsIn-same (or_empty Lengths db.lengths) t.lengths (or_empty Chunks db.chunks) t.pruned
          other o (Lengths.remove_ne (or_empty Lengths db.lengths) name t.forgot other ne)
          (λ i.
            remove_chunks-other Chunks (chunk_key name) 0 (div_ceil (or_zero t.old) chunk_bytes)
              (or_empty Chunks db.chunks) (other, i) (λ j _ _. chunk_key-ne ne j i) t.removed)
          h

  -- A map with the asset of one name set anew.
  abbrev pub with_asset :
      (String → Option (List ℕ)) → String → Option (List ℕ) → String → Option (List ℕ)
  with_asset view name o other = if str_eq name other then o else view other

  -- The new tables hold the new map if they hold the new asset and keep the others.
  with_asset-Represents :
      (name : String) (o : Option (List ℕ)) (l : Lengths.State) (c : Chunks.State)
      (view : String → Option (List ℕ))
      → HoldsIn Lengths Chunks l c name o
      → ((other : String) → name ≢ other → HoldsIn Lengths Chunks l c other (view other))
      → Represents Lengths Chunks
          (record { lengths = some l; chunks = some c })
          (with_asset view name o)
  with_asset-Represents name o l c view self others = record {
    paired = λ _. (c, refl);
    holds = λ other. elim (Bool-cases (str_eq name other)) [
      | inl e ↦ rw e (subst (λ k. HoldsIn Lengths Chunks l c k o) ((eq_iff name other).0 e) self)
      | inr e ↦ rw e (others other (λ q. false≢true (sym e ∙ (eq_iff name other).1 q)))
    ];
  }

  module _ (e : Engine Lengths Chunks) (name : String) (db : Tables Lengths Chunks)
      (view : String → Option (List ℕ)) {db' : Tables Lengths Chunks}
      (h : Represents Lengths Chunks db view) where
    pub insert_txn-Represents :
        (bytes : List ℕ)
        → insert_txn Lengths Chunks e name bytes db ≡ ok db'
        → Represents Lengths Chunks db' (with_asset view name (some bytes))
    insert_txn-Represents bytes ran =
        let t = insert_txn-Inserted e name db bytes ran in
        subst (λ x. Represents Lengths Chunks x (with_asset view name (some bytes)))
          (sym t.committed)
          (with_asset-Represents name (some bytes) t.lengths t.pruned view
            (insert_self e name db bytes (view name) (h.holds name) t)
            (λ other ne. insert-other e name db bytes other (view other) ne (h.holds other) t))

    pub remove_txn-Represents :
        remove_txn Lengths Chunks e name db ≡ ok db'
        → Represents Lengths Chunks db' (with_asset view name none)
    remove_txn-Represents ran =
        let t = remove_txn-Removed e name db ran in
        subst (λ x. Represents Lengths Chunks x (with_asset view name none)) (sym t.committed)
          (with_asset-Represents name none t.lengths t.pruned view
            (remove_self e name db (view name) (h.holds name) t)
            (λ other ne. remove-other e name db other (view other) ne (h.holds other) t))
