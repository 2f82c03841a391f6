-- ===== src/RuntimeAssets/View.antt =====
-- What a runtime asset database of src/runtime_assets.rs promises: a map from names to bytes.
--
-- `Holds` says how the two tables hold the asset of one name, and that no chunk of it is left over.
use Prim.Native.String.{String}
use trueos_picasso.Prelude.{ℕ, ◌≤◌, ◌≡◌, Option, none, some, List, length}
use trueos_picasso.Redb.{or_empty, Table}
use trueos_picasso.Redb.Chunked.{div_ceil, chunks, Stored}
use trueos_picasso.RuntimeAssets.Database.{chunk_bytes, chunk_key, Tables}

module _ (Lengths : Table String ℕ) (Chunks : Table (String × ℕ) (List ℕ)) where
  abbrev pub HoldsIn : Lengths.State → Chunks.State → String → Option (List ℕ) → Type 0
  HoldsIn lengths chunks_ name none =
      (Lengths.lookup lengths name ≡ none) × ((i : ℕ) → Chunks.lookup chunks_ (name, i) ≡ none)
  HoldsIn lengths chunks_ name (some bytes) =
      (Lengths.lookup lengths name ≡ some (length bytes))
      × Stored Chunks (chunk_key name) chunks_ 0 (chunks chunk_bytes bytes)
      × ((i : ℕ) → div_ceil (length bytes) chunk_bytes ≤ i → Chunks.lookup chunks_ (name, i) ≡ none)

  abbrev pub Holds : Tables Lengths Chunks → String → Option (List ℕ) → Type 0
  Holds db = HoldsIn (or_empty Lengths db.lengths) (or_empty Chunks db.chunks)

  -- The tables hold exactly the assets of the map.
  pub record Represents (db : Tables Lengths Chunks) (view : String → Option (List ℕ))
      : Type 0 where
    pub paired :
        {l : Lengths.State} → db.lengths ≡ some l → (c : Chunks.State) × (db.chunks ≡ some c)
    pub holds : (name : String) → Holds db name (view name)
